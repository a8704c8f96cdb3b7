-- ===== src/Weensyos/Pages/Laws.antt =====
-- The page allocator of weensyos/kernel.cc gives out every free page.
use cs300_s23_projects_days.Prelude.{
  ℕ, zero, suc, ◌+◌, ◌-◌, ◌*◌, ◌/◌, ◌%◌, ◌≤◌, ◌<◌, ◌≡◌, ◌≢◌, inl, inr, refl, sym, ◌∙◌, subst, true,
  false, ◌&&◌, ltb, ◌==◌, if◌then◌else◌, arith, Bool-cases, ==_ne, ==_self, le→ltb,
}
use cs300_s23_projects_days.Weensyos.Pages.{
  Physical, used, reserved_physical_address, allocatable_physical_address, memset, take,
  kalloc_loop, kalloc, kfree, word_of,
}

abbrev pub IsAllocatable : ℕ → ℕ → Type 0
IsAllocatable kernel_end pa = allocatable_physical_address kernel_end pa ≡ true

module _ (kernel_end : ℕ) where
  -- No allocatable page below next_alloc_pa is free.
  pub record IsPages (s : Physical) : Type 0 where
    pub aligned : s.next_alloc_pa % 4096 ≡ 0
    pub below :
        (n : ℕ)
        → n * 4096 < s.next_alloc_pa
        → IsAllocatable kernel_end (n * 4096)
        → s.refcount n ≢ 0
    pub counts : (n : ℕ) → s.refcount n < 256

  -- What kalloc promises: nullptr if no allocatable page is free, else the least free page, filled
  -- with 0xCC, with the refcount 1; no other page changes.
  pub data Allocates (s s' : Physical) : ℕ → Type 0 where
    none_free :
        ((n : ℕ) → IsAllocatable kernel_end (n * 4096) → s.refcount n ≢ 0)
        → s'.refcount ≡ s.refcount
        → s'.memory ≡ s.memory
        → Allocates s s' 0
    page :
        (n : ℕ)
        → IsAllocatable kernel_end (n * 4096)
        → s.refcount n ≡ 0
        → ((k : ℕ) → k < n → IsAllocatable kernel_end (k * 4096) → s.refcount k ≢ 0)
        → ((k : ℕ) → s'.refcount k ≡ (if n == k then 1 else s.refcount k))
        → ((a : ℕ) → s'.memory a ≡ (if a / 4096 == n then word_of 204 else s.memory a))
        → Allocates s s' (n * 4096)

pub low_allocatable :
    (kernel_end pa : ℕ) → IsAllocatable kernel_end pa → (4096 ≤ pa) × (pa < 2097152)
unfolding allocatable_physical_address reserved_physical_address
low_allocatable kernel_end pa h = (ground arith, ground arith)

pub memset-page :
    (n c a : ℕ) (memory : ℕ → ℕ)
    → memset (n * 4096) c 4096 memory a ≡ (if a / 4096 == n then word_of c else memory a)
unfolding memset
memset-page n c a memory = ground arith

module _ (kernel_end : ℕ) where
  widen :
      (s s' : Physical) (next pa : ℕ)
      → Allocates kernel_end (record s { next_alloc_pa = next }) s' pa
      → Allocates kernel_end s s' pa
  widen s s' next _ (none_free a b c) = none_free a b c
  widen s s' next _ (page n a b c d e) = page n a b c d e

  exhausted :
      (s : Physical) → IsPages kernel_end s → 2097152 ≤ s.next_alloc_pa → Allocates kernel_end s s 0
  exhausted s i over =
      none_free (λ n a. i.below n (omega (arith, low_allocatable kernel_end (n * 4096) a)) a) refl
        refl

  -- The page at next_alloc_pa is passed.
  passed-IsPages :
      (s : Physical)
      → IsPages kernel_end s
      → (IsAllocatable kernel_end s.next_alloc_pa → s.refcount (s.next_alloc_pa / 4096) ≢ 0)
      → IsPages kernel_end (record s { next_alloc_pa = s.next_alloc_pa + 4096 })
  passed-IsPages s i here = record {
    aligned = omega (arith, i.aligned);
    below = λ n l a. elim (Bool-cases (ltb (n * 4096) s.next_alloc_pa)) [
      | inl d ↦ i.below n (ground arith) a
      | inr d ↦
          let ge : s.next_alloc_pa ≤ n * 4096 = ground arith in
          let e : s.next_alloc_pa ≡ n * 4096 = omega (arith, i.aligned) in
          let n_is : s.next_alloc_pa / 4096 ≡ n = omega arith in
          subst (λ m. s.refcount m ≢ 0) n_is (here (subst (IsAllocatable kernel_end) (sym e) a))
    ];
    counts = i.counts;
  }

  taken-Allocates :
      (s : Physical) (next : ℕ)
      → IsPages kernel_end s
      → IsAllocatable kernel_end s.next_alloc_pa
      → s.refcount (s.next_alloc_pa / 4096) ≡ 0
      → Allocates kernel_end s
          (take s.next_alloc_pa (record s { next_alloc_pa = next }))
          s.next_alloc_pa
  unfolding take
  taken-Allocates s next i al free =
      let n = s.next_alloc_pa / 4096 in
      let e : n * 4096 ≡ s.next_alloc_pa = omega (arith, i.aligned) in
      let back : n * 4096 / 4096 ≡ n = omega arith in
      subst (λ pa. Allocates kernel_end s (take pa (record s { next_alloc_pa = next })) pa) e
        (page n (subst (IsAllocatable kernel_end) (sym e) al) free (λ k l. i.below k (omega arith))
          (λ k. rw (back) refl) (λ a. memset-page n 204 a s.memory))

  taken-IsPages :
      (s : Physical)
      → IsPages kernel_end s
      → IsPages kernel_end
          (take s.next_alloc_pa (record s { next_alloc_pa = s.next_alloc_pa + 4096 }))
  unfolding take
  taken-IsPages s i = record {
    aligned = omega (arith, i.aligned);
    below = λ n l a. elim (Bool-cases (s.next_alloc_pa / 4096 == n)) [
      | inl d ↦ rw (d) (λ c. omega arith)
      | inr d ↦
          let ne : s.next_alloc_pa / 4096 ≢ n = λ c. ground arith in
          rw (d) (i.below n (omega (arith, i.aligned)) a)
    ];
    counts = λ n. ground (arith, i.counts n);
  }

  kalloc_loop-Allocates :
      (fuel : ℕ) (s : Physical)
      → IsPages kernel_end s
      → 2097152 ≤ s.next_alloc_pa + fuel * 4096
      → let (pa, s') = kalloc_loop fuel kernel_end s in
        Allocates kernel_end s s' pa × IsPages kernel_end s'
  unfolding kalloc_loop
  kalloc_loop-Allocates zero s i enough = (exhausted s i (omega arith), i)
  kalloc_loop-Allocates (suc fuel) s i enough = elim (Bool-cases (ltb s.next_alloc_pa 2097152)) [
    | inr d ↦ rw (d) (exhausted s i (ground arith), i)
    | inl d ↦ elim (Bool-cases (allocatable_physical_address kernel_end s.next_alloc_pa)) [
      | inr a ↦
          let no : true ≢ false = λ c. cc in
          let j = passed-IsPages s i (λ al. absurd (cc)) in
          let (r, k) =
            kalloc_loop-Allocates fuel (record s { next_alloc_pa = s.next_alloc_pa + 4096 }) j
              (omega arith) in
          rw (d, a) (widen s _ (s.next_alloc_pa + 4096) _ r, k)
      | inl a ↦ elim (Bool-cases (s.refcount (s.next_alloc_pa / 4096) == 0)) [
        | inl f ↦
            let free : s.refcount (s.next_alloc_pa / 4096) ≡ 0 = ground arith in
            rw (d, a, f) (taken-Allocates s (s.next_alloc_pa + 4096) i a free, taken-IsPages s i)
        | inr f ↦
            let j = passed-IsPages s i (λ al c. ground arith) in
            let (r, k) =
              kalloc_loop-Allocates fuel (record s { next_alloc_pa = s.next_alloc_pa + 4096 }) j
                (omega arith) in
            rw (d, a, f) (widen s _ (s.next_alloc_pa + 4096) _ r, k)
      ]
    ]
  ]

  -- For at most a page, from a state with the invariant IsPages: the loop of kalloc ends within
  -- the pages of the memory. It returns nullptr only if no allocatable page is free; else the
  -- least free one, with the refcount 1 and filled with 0xCC, and no other page changes. The
  -- invariant holds afterwards.
  pub kalloc-Allocates :
      (sz : ℕ) (s : Physical)
      → sz ≤ 4096
      → IsPages kernel_end s
      → let (pa, s') = kalloc kernel_end sz s in
        Allocates kernel_end s s' pa × IsPages kernel_end s'
  unfolding kalloc
  kalloc-Allocates sz s small i =
      rw (le→ltb 4096 sz small) (kalloc_loop-Allocates 512 s i (omega arith))

  -- kfree of an aligned pointer into the memory keeps the invariant.
  pub kfree-IsPages :
      (kptr : ℕ) (s : Physical)
      → kptr % 4096 ≡ 0
      → kptr < 2097152
      → IsPages kernel_end s
      → IsPages kernel_end (kfree kernel_end kptr s)
  unfolding kfree
  kfree-IsPages kptr s al small i = elim (Bool-cases (kptr == 0)) [
    | inl d ↦ rw (d) i
    | inr d ↦ rw (d) (record {
      aligned = ground (arith, i.aligned);
      below = λ n l a.
          let next : n * 4096 < s.next_alloc_pa = ground arith in
          let lower : n * 4096 < kptr = ground arith in
          let other = ==_ne (kptr / 4096) n (λ c. omega arith) in
          elim (Bool-cases (used (kptr / 4096) s && allocatable_physical_address kernel_end kptr)) [
            | inl c ↦ rw (c, other) (i.below n next a)
            | inr c ↦ rw (c) (i.below n next a)
          ];
      counts = λ n. ground (arith, i.counts n);
    })
  ]

  -- An allocatable page loses one reference; no other page changes.
  kfree-refcount :
      (n k : ℕ) (s : Physical)
      → IsAllocatable kernel_end (n * 4096)
      → 0 < s.refcount n
      → s.refcount n < 256
      → (kfree kernel_end (n * 4096) s).refcount k
        ≡ (if n == k then s.refcount n - 1 else s.refcount k)
  unfolding kfree
  kfree-refcount n k s al pos small =
      let low = low_allocatable kernel_end (n * 4096) al in
      let back : n * 4096 / 4096 ≡ n = omega arith in
      let less : (s.refcount n + 255) % 256 ≡ s.refcount n - 1 = omega arith in
      rw (==_ne (n * 4096) 0 (omega arith), back, ==_ne (s.refcount n) 0 (omega arith), al, less)
        refl

  served_below :
      (n pa : ℕ) (s s' : Physical)
      → Allocates kernel_end s s' pa
      → IsAllocatable kernel_end (n * 4096)
      → s.refcount n ≡ 0
      → (0 < pa) × (pa ≤ n * 4096)
  served_below n _ s s' (none_free f a b) al free = absurd (f n al free)
  served_below n _ s s' (page k a free_k least b c) al free =
      let low = low_allocatable kernel_end (k * 4096) a in
      (
        omega arith,
        elim (Bool-cases (ltb n k)) [
          | inl d ↦ absurd (least n (ground arith) al free)
          | inr d ↦ ground arith
        ],
      )

  -- From a state with the invariant IsPages: after kfree of an allocatable page with the refcount
  -- 1, kalloc of at most a page gives a page at or below it.
  pub kalloc-kfree :
      (n sz : ℕ) (s : Physical)
      → IsPages kernel_end s
      → IsAllocatable kernel_end (n * 4096)
      → s.refcount n ≡ 1
      → sz ≤ 4096
      → (0 < (kalloc kernel_end sz (kfree kernel_end (n * 4096) s)).0)
        × ((kalloc kernel_end sz (kfree kernel_end (n * 4096) s)).0 ≤ n * 4096)
  kalloc-kfree n sz s i al one small =
      let low = low_allocatable kernel_end (n * 4096) al in
      let j = kfree-IsPages (n * 4096) s (omega arith) (omega arith) i in
      let law = kfree-refcount n n s al (omega arith) (omega arith) in
      let free : (kfree kernel_end (n * 4096) s).refcount n ≡ 0 = law ∙ rw (==_self n, one) refl in
      served_below n _ _ _ (kalloc-Allocates sz (kfree kernel_end (n * 4096) s) small j).0 al free
