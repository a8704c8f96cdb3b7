-- ===== src/Dmalloc/Safety.antt =====
-- Every state that a program over dmalloc, dfree and dcalloc of dmalloc/dmalloc.cc can reach.
use cs300_s23_projects_days.Prelude.{
  ℕ, ◌+◌, ◌*◌, ◌%◌, ◌≤◌, ◌<◌, ◌≡◌, ◌≢◌, inl, inr, refl, sym, subst, some, leb, ◌==◌, if◌then◌else◌,
  update, add64-eq, word_mod, arith, Bool-cases, ==_ne, ==_self,
}
use cs300_s23_projects_days.Dmalloc.{
  Allocator, Heap, Ending, dmalloc, dcalloc, allocated, fail, zeroed,
}
use cs300_s23_projects_days.Dmalloc.Pointers.{find, find-insert}
use cs300_s23_projects_days.Dmalloc.Invariant.{IsHeap, IsFresh, no_block, block, fail-IsHeap}
use cs300_s23_projects_days.Dmalloc.Allocation.{none_there}
use cs300_s23_projects_days.Dmalloc.Writes.{store-IsHeap, zeroed-IsHeap, zeroed-inside}
use cs300_s23_projects_days.Dmalloc.Exact.{serve, dmalloc-exact, dcalloc-over, dcalloc-fits}
use cs300_s23_projects_days.Dmalloc.Programs.{
  IsBase, IsState, Step, Steps, no_blocks, no_blocks-IsState, fresh, dmalloc-IsState, dfree-IsState,
}

members : (n s : ℕ) → 0 < n * s → 0 < n
members n s pos = elim (Bool-cases (n == 0)) [
  | inl d ↦
      let e : n ≡ 0 = ground arith in
      let z : 0 < 0 * s = subst (λ x. 0 < x * s) e pos in absurd (omega arith)
  | inr d ↦ ground arith
]

module _ {B : Type 0} (allocator : Allocator B) where
  serve-find :
      (p sz file line : ℕ) (b : B) (h : Heap B)
      → IsFresh p sz h
      → (serve allocator sz file line h (p, b)).0 ≢ 0
      → find
          (serve allocator sz file line h (p, b)).0
          (serve allocator sz file line h (p, b)).1.pointer_map
        ≡ some sz
  unfolding serve allocated
  serve-find p sz file line b h (no_block e) = rw (e) (λ ne. absurd (ne refl))
  serve-find p sz file line b h (block lo al top away) =
      let none_yet = none_there p sz file line (record h { base = b }) lo al top away in
      rw
        (
          ==_ne p 0 (omega arith),
          add64-eq p 32 (omega arith),
          find-insert (p + 32) (p + 32) sz h.pointer_map none_yet,
          ==_self (p + 32),
        )
        (λ ne. refl)

  cleared-zero :
      (total p q : ℕ) (h h' : Heap B)
      → p ≢ 0
      → q ≡ p
      → (q ≢ 0 → find q h.pointer_map ≡ some total)
      → (if q == 0 then h else record h { memory = zeroed q total h.memory }) ≡ h'
      → (find p h'.pointer_map ≡ some total)
        × ((a : ℕ) → p ≤ a → a + 8 ≤ p + total → h'.memory a ≡ 0)
  cleared-zero total p q h h' ne e =
      rw (e, ==_ne p 0 ne)
        (λ there f. (rw⁻¹ f (there ne), λ a lo hi. rw⁻¹ f (zeroed-inside p total h.memory a lo hi)))

module _ {B : Type 0} (allocator : Allocator B) (IsGood : B → Type 0) (IsHeld : B → ℕ → ℕ → Type 0)
    (base : IsBase allocator IsGood IsHeld) where
  dmalloc-find :
      (sz file line : ℕ) (h : Heap B)
      → sz < word_mod
      → IsState allocator IsGood IsHeld h
      → (dmalloc allocator sz file line h).0 ≢ 0
      → find (dmalloc allocator sz file line h).0 (dmalloc allocator sz file line h).1.pointer_map
        ≡ some sz
  dmalloc-find sz file line h small s =
      rw (dmalloc-exact allocator sz file line h small)
        (elim (Bool-cases (leb word_mod (32 + sz))) [
          | inl d ↦ rw (d) (λ ne. absurd (ne refl))
          | inr d ↦ rw (d) (
              serve-find allocator (allocator.base_malloc (32 + sz) h.base).0 sz file line
                (allocator.base_malloc (32 + sz) h.base).1 h
                (fresh allocator IsGood IsHeld base sz h s))
        ])

  change-IsState :
      (h : Heap B) (memory : ℕ → ℕ)
      → IsState allocator IsGood IsHeld h
      → IsHeap (record h { memory = memory })
      → IsState allocator IsGood IsHeld (record h { memory = memory })
  change-IsState h memory s i = record { heap = i; good = s.good; held = s.held; filled = s.filled }

  fail-IsState :
      (sz : ℕ) (h : Heap B)
      → IsState allocator IsGood IsHeld h
      → IsState allocator IsGood IsHeld (fail sz h)
  unfolding fail
  fail-IsState sz h s = record {
    heap = fail-IsHeap sz h s.heap;
    good = s.good;
    held = s.held;
    filled = s.filled;
  }

  -- What dcalloc makes of the answer of dmalloc.
  cleared-IsState :
      (total ptr : ℕ) (h : Heap B)
      → IsState allocator IsGood IsHeld h
      → (ptr ≢ 0 → find ptr h.pointer_map ≡ some total)
      → IsState allocator IsGood IsHeld
          (if ptr == 0 then h else record h { memory = zeroed ptr total h.memory })
  cleared-IsState total ptr h s there = elim (Bool-cases (ptr == 0)) [
    | inl d ↦ rw (d) s
    | inr d ↦ rw (d) (
        change-IsState h (zeroed ptr total h.memory) s
          (zeroed-IsHeap h ptr total s.heap (there (λ c. ground arith))))
  ]

  pub dcalloc-IsState :
      (nmemb sz file line p : ℕ) (h h' : Heap B)
      → 0 < nmemb * sz
      → IsState allocator IsGood IsHeld h
      → dcalloc allocator nmemb sz file line h ≡ Ending.returned (p, h')
      → IsState allocator IsGood IsHeld h'
  dcalloc-IsState nmemb sz file line p h h' pos s r =
      let some_members : 0 < nmemb = members nmemb sz pos in
      elim (Bool-cases (leb word_mod (nmemb * sz))) [
        | inl d ↦
            let there = dcalloc-over allocator nmemb sz file line p h h' some_members d r in
            subst (IsState allocator IsGood IsHeld) there.1
              (fail-IsState (nmemb * sz % word_mod) h s)
        | inr d ↦
            let there = dcalloc-fits allocator nmemb sz file line p h h' some_members d r in
            let small : nmemb * sz < word_mod = ground arith in
            subst (IsState allocator IsGood IsHeld) there.1 (
              cleared-IsState (nmemb * sz) (dmalloc allocator (nmemb * sz) file line h).0
                (dmalloc allocator (nmemb * sz) file line h).1
                (dmalloc-IsState allocator IsGood IsHeld base (nmemb * sz) file line h pos small s)
                (dmalloc-find (nmemb * sz) file line h small s))
      ]

  -- Over a base allocator that meets IsBase, from a state with the invariant IsState: if dcalloc
  -- returns a pointer other than nullptr, the pointer is active with the product of the arguments
  -- as its size, and every word that lies in the block is zero.
  pub dcalloc-zeroed :
      (nmemb sz file line p : ℕ) (h h' : Heap B)
      → IsState allocator IsGood IsHeld h
      → dcalloc allocator nmemb sz file line h ≡ Ending.returned (p, h')
      → p ≢ 0
      → (find p h'.pointer_map ≡ some (nmemb * sz))
        × ((a : ℕ) → p ≤ a → a + 8 ≤ p + nmemb * sz → h'.memory a ≡ 0)
  unfolding dcalloc
  dcalloc-zeroed nmemb sz file line p h h' s r ne = elim (Bool-cases (nmemb == 0)) [
    | inl z ↦ absurd (ground arith)
    | inr z ↦ elim (Bool-cases (leb word_mod (nmemb * sz))) [
      | inl d ↦
          absurd (ne (sym (dcalloc-over allocator nmemb sz file line p h h' (ground arith) d r).0))
      | inr d ↦
          let (same_p, same_h) =
            dcalloc-fits allocator nmemb sz file line p h h' (ground arith) d r in
          let small : nmemb * sz < word_mod = ground arith in
          cleared-zero allocator (nmemb * sz) p (dmalloc allocator (nmemb * sz) file line h).0
            (dmalloc allocator (nmemb * sz) file line h).1 h' ne same_p
            (dmalloc-find (nmemb * sz) file line h small s) same_h
    ]
  ]

  pub Step-IsState :
      (h h' : Heap B)
      → IsState allocator IsGood IsHeld h
      → Step allocator h h'
      → IsState allocator IsGood IsHeld h'
  Step-IsState _ _ s (Step.malloc sz file line h pos small) =
      dmalloc-IsState allocator IsGood IsHeld base sz file line h pos small s
  Step-IsState _ _ s (Step.free ptr h h' r) =
      dfree-IsState allocator IsGood IsHeld base ptr h h' s r
  Step-IsState _ _ s (Step.calloc nmemb sz file line p h h' pos r) =
      dcalloc-IsState nmemb sz file line p h h' pos s r
  Step-IsState _ _ s (Step.store q size a v h e al lo hi) =
      change-IsState h (update h.memory a v) s (store-IsHeap h q size a v s.heap e lo (omega arith))

  Steps-IsState :
      (h h' : Heap B)
      → IsState allocator IsGood IsHeld h
      → Steps allocator h h'
      → IsState allocator IsGood IsHeld h'
  Steps-IsState _ _ s Steps.here = s
  Steps-IsState _ _ s (Steps.next xs x) = Step-IsState _ _ (Steps-IsState _ _ s xs) x

  -- Over a base allocator that meets IsBase and is good in its first state: in every state that a
  -- program reaches from an empty heap by calls of dmalloc and dcalloc for at least one byte,
  -- calls of dfree with any pointer that return, and aligned stores into active blocks, nactive
  -- and active_size are the number and the bytes of the active blocks modulo 2^64, each active
  -- block has its size and the mark of a block in use in front of it, lies between heap_min and
  -- heap_max, and no two overlap.
  pub Steps-IsHeap :
      (b : B) (memory : ℕ → ℕ) (h : Heap B)
      → IsGood b
      → Steps allocator (no_blocks b memory) h
      → IsHeap h
  Steps-IsHeap b memory h good xs =
      (Steps-IsState (no_blocks b memory) h
        (no_blocks-IsState allocator IsGood IsHeld b memory good) xs).heap
