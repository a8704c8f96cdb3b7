-- ===== src/Dmalloc/Programs.antt =====
-- Programs over dmalloc, dfree and dcalloc of dmalloc/dmalloc.cc, and what the base allocator
-- promises them.
use cs300_s23_projects_days.Prelude.{
  ℕ, ◌+◌, ◌-◌, ◌*◌, ◌%◌, ◌≤◌, ◌<◌, ◌≡◌, ◌≢◌, ◌⊎◌, inl, inr, refl, sym, subst, some, [], leb, ◌==◌,
  update, word_mod, arith, Bool-cases, Option-cases, ==_ne,
}
use cs300_s23_projects_days.Dmalloc.{
  Allocator, Heap, Ending, dmalloc, dfree, dcalloc, allocated, fail, no_stats,
}
use cs300_s23_projects_days.Dmalloc.Pointers.{find, sizes}
use cs300_s23_projects_days.Dmalloc.Invariant.{IsHeap, IsFresh, no_block, block}
use cs300_s23_projects_days.Dmalloc.Allocation.{dmalloc-IsHeap, new_or_old}
use cs300_s23_projects_days.Dmalloc.Release.{old_entry}
use cs300_s23_projects_days.Dmalloc.Runs.{same, without, dfree-active, dfree-IsHeap}
use cs300_s23_projects_days.Dmalloc.Exact.{serve, dmalloc-exact}

-- A base allocator that works: IsHeld b p n says that the region of n bytes at p is handed out. A
-- new region is aligned, lies in the address space and away from those handed out, and only
-- base_free of its own address takes a region back.
pub record IsBase {B : Type 0} (allocator : Allocator B) (IsGood : B → Type 0)
    (IsHeld : B → ℕ → ℕ → Type 0) : Type 0 where
  pub malloc_good : (n : ℕ) (b : B) → IsGood b → IsGood (allocator.base_malloc n b).1
  pub free_good : (p : ℕ) (b : B) → IsGood b → IsGood (allocator.base_free p b)
  pub malloc_keeps :
      (n p m : ℕ) (b : B) → IsGood b → IsHeld b p m → IsHeld (allocator.base_malloc n b).1 p m
  pub free_keeps :
      (r p m : ℕ) (b : B) → IsGood b → r ≢ p → IsHeld b p m → IsHeld (allocator.base_free r b) p m
  pub served :
      (n p : ℕ) (b : B)
      → IsGood b
      → p ≡ (allocator.base_malloc n b).0
      → p ≢ 0
      → (p % 8 ≡ 0)
        × (p + n + 8 < word_mod)
        × IsHeld (allocator.base_malloc n b).1 p n
        × ((r m : ℕ) → IsHeld b r m → (p + n ≤ r) ⊎ (r + m ≤ p))

module _ {B : Type 0} (allocator : Allocator B) (IsGood : B → Type 0)
    (IsHeld : B → ℕ → ℕ → Type 0) where
  -- Each active block lies in a region of the base allocator, and is not empty.
  pub record IsState (h : Heap B) : Type 0 where
    pub heap : IsHeap h
    pub good : IsGood h.base
    pub held : (q w : ℕ) → find q h.pointer_map ≡ some w → IsHeld h.base (q - 32) (32 + w)
    pub filled : (q w : ℕ) → find q h.pointer_map ≡ some w → 0 < w

module _ {B : Type 0} (allocator : Allocator B) where
  -- A call of the program, or a store to a word of an active block. A call of dfree or dcalloc that
  -- aborts or is undefined is no step.
  pub data Step : Heap B → Heap B → Type 0 where
    malloc :
        (sz file line : ℕ) (h : Heap B)
        → 0 < sz
        → sz < word_mod
        → Step h (dmalloc allocator sz file line h).1
    free : (ptr : ℕ) (h h' : Heap B) → dfree allocator ptr h ≡ Ending.returned h' → Step h h'
    calloc :
        (nmemb sz file line p : ℕ) (h h' : Heap B)
        → 0 < nmemb * sz
        → dcalloc allocator nmemb sz file line h ≡ Ending.returned (p, h')
        → Step h h'
    store :
        (q size a v : ℕ) (h : Heap B)
        → find q h.pointer_map ≡ some size
        → a % 8 ≡ 0
        → q ≤ a
        → a + 8 ≤ q + size
        → Step h (record h { memory = update h.memory a v })

  pub data Steps : Heap B → Heap B → Type 0 where
    here : {h : Heap B} → Steps h h
    next : {h i j : Heap B} → Steps h i → Step i j → Steps h j

abbrev pub no_blocks : {B : Type 0} → B → (ℕ → ℕ) → Heap B
no_blocks b memory = record { base = b; memory = memory; stature = no_stats; pointer_map = [] }

no_blocks-IsHeap : {B : Type 0} (b : B) (memory : ℕ → ℕ) → IsHeap (no_blocks b memory)
unfolding find sizes
no_blocks-IsHeap b memory = record {
  sorted = tt;
  active = refl;
  bytes = refl;
  blocks = λ q w e. absurd (cc);
  apart = λ q w r v e. absurd (cc);
}

pub no_blocks-IsState :
    {B : Type 0} (allocator : Allocator B) (IsGood : B → Type 0) (IsHeld : B → ℕ → ℕ → Type 0)
    (b : B) (memory : ℕ → ℕ)
    → IsGood b
    → IsState allocator IsGood IsHeld (no_blocks b memory)
unfolding find
no_blocks-IsState allocator IsGood IsHeld b memory good = record {
  heap = no_blocks-IsHeap b memory;
  good = good;
  held = λ q w e. absurd (cc);
  filled = λ q w e. absurd (cc);
}

module _ {B : Type 0} (allocator : Allocator B) (IsGood : B → Type 0) (IsHeld : B → ℕ → ℕ → Type 0)
    (base : IsBase allocator IsGood IsHeld) where
  pub fresh :
      (sz : ℕ) (h : Heap B)
      → IsState allocator IsGood IsHeld h
      → IsFresh (allocator.base_malloc (32 + sz) h.base).0 sz h
  fresh sz h s = elim (Bool-cases ((allocator.base_malloc (32 + sz) h.base).0 == 0)) [
    | inl d ↦ no_block (ground arith)
    | inr d ↦
        let (al, top, mine, away) =
          base.served (32 + sz) (allocator.base_malloc (32 + sz) h.base).0 h.base s.good refl
            (λ c. ground arith) in
        block (ground arith) al (omega arith) (λ q w e.
          let low = (s.heap.blocks q w e).low in
          elim (away (q - 32) (32 + w) (s.held q w e)) [
            | inl o ↦ inl (omega arith)
            | inr o ↦ inr (omega arith)
          ])
  ]

  -- The state after the answer (p, b) of base_malloc.
  answered-IsState :
      (p sz file line : ℕ) (b : B) (h : Heap B)
      → IsFresh p sz h
      → 0 < sz
      → IsGood b
      → (p ≢ 0 → IsHeld b p (32 + sz))
      → ((r m : ℕ) → IsHeld h.base r m → IsHeld b r m)
      → IsState allocator IsGood IsHeld h
      → IsHeap (serve allocator sz file line h (p, b)).1
      → IsState allocator IsGood IsHeld (serve allocator sz file line h (p, b)).1
  unfolding serve fail allocated
  answered-IsState p sz file line b h (no_block e) pos good mine keeps s = rw (e) (λ i. record {
    heap = i;
    good = good;
    held = λ q w f. keeps (q - 32) (32 + w) (s.held q w f);
    filled = s.filled;
  })
  answered-IsState p sz file line b h (block lo al top away) pos good mine keeps s =
      rw (==_ne p 0 (omega arith)) (λ i. record {
        heap = i;
        good = good;
        held = λ q w f.
            elim (new_or_old p sz file line (record h { base = b }) lo al top away q w f) [
              | inl (c, d) ↦
                  let here : p + 32 - 32 ≡ p = omega arith in
                  rw (c, d, here) (mine (λ z. omega arith))
              | inr (c, d) ↦ keeps (q - 32) (32 + w) (s.held q w d)
            ];
        filled = λ q w f.
            elim (new_or_old p sz file line (record h { base = b }) lo al top away q w f) [
              | inl (c, d) ↦ rw (d) pos
              | inr (c, d) ↦ s.filled q w d
            ];
      })

  dmalloc_heap-IsState :
      (sz file line : ℕ) (h : Heap B)
      → 0 < sz
      → sz < word_mod
      → IsState allocator IsGood IsHeld h
      → IsHeap (dmalloc allocator sz file line h).1
      → IsState allocator IsGood IsHeld (dmalloc allocator sz file line h).1
  unfolding fail
  dmalloc_heap-IsState sz file line h pos small s =
      rw (dmalloc-exact allocator sz file line h small)
        (elim (Bool-cases (leb word_mod (32 + sz))) [
          | inl d ↦
              rw (d) (λ i. record { heap = i; good = s.good; held = s.held; filled = s.filled })
          | inr d ↦ rw (d) (
              answered-IsState (allocator.base_malloc (32 + sz) h.base).0 sz file line
                (allocator.base_malloc (32 + sz) h.base).1 h (fresh sz h s) pos
                (base.malloc_good (32 + sz) h.base s.good)
                (λ ne.
                  (base.served (32 + sz) (allocator.base_malloc (32 + sz) h.base).0 h.base s.good
                    refl ne).2)
                (λ r m. base.malloc_keeps (32 + sz) r m h.base s.good) s)
        ])

  pub dmalloc-IsState :
      (sz file line : ℕ) (h : Heap B)
      → 0 < sz
      → sz < word_mod
      → IsState allocator IsGood IsHeld h
      → IsState allocator IsGood IsHeld (dmalloc allocator sz file line h).1
  dmalloc-IsState sz file line h pos small s =
      let i = dmalloc-IsHeap allocator sz file line h small (λ x. fresh sz h s) s.heap in
      dmalloc_heap-IsState sz file line h pos small s i

  -- Giving a block back to the base allocator does not touch the regions of the others.
  pub dfree-IsState :
      (ptr : ℕ) (h h' : Heap B)
      → IsState allocator IsGood IsHeld h
      → dfree allocator ptr h ≡ Ending.returned h'
      → IsState allocator IsGood IsHeld h'
  dfree-IsState ptr h h' s r = elim (Option-cases (find ptr h.pointer_map)) [
    | inl e ↦ subst (IsState allocator IsGood IsHeld) (same allocator ptr h h' e r) s
    | inr (size, e) ↦
        let there : without allocator ptr h ≡ h' =
          cc (dfree-active allocator ptr size h s.heap e) in
        let i : IsHeap (without allocator ptr h) =
          subst IsHeap (sym there) (dfree-IsHeap allocator ptr h h' s.heap r) in
        subst (IsState allocator IsGood IsHeld) there (record {
          heap = i;
          good = base.free_good ptr h.base s.good;
          held = λ q w f.
              let (ne, g) = old_entry ptr q w h.pointer_map s.heap.sorted f in
              let low = (s.heap.blocks q w g).low in
              base.free_keeps ptr (q - 32) (32 + w) h.base s.good
                (λ c. omega (arith, low, s.filled ptr size e, s.heap.apart ptr size q w e g))
                (s.held q w g);
          filled = λ q w f. s.filled q w (old_entry ptr q w h.pointer_map s.heap.sorted f).1;
        })
  ]
