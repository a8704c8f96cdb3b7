-- ===== src/Dmalloc/Allocation.antt =====
-- dmalloc of dmalloc/dmalloc.cc keeps the heap.
use cs300_s23_projects_days.Prelude.{
  ℕ, ◌+◌, ◌-◌, ◌%◌, ◌≤◌, ◌<◌, ◌≡◌, ◌≢◌, ◌⊎◌, inl, inr, ◌∙◌, false, none, some, length, ltb, ◌==◌,
  if◌then◌else◌, add64, add64-eq, word_mod, arith, Bool-cases, Option-cases, ==_ne, ◌&&◌,
}
use cs300_s23_projects_days.Dmalloc.{
  Allocator, Heap, dmalloc, fail, allocated, write_header, new_min, new_max,
}
use cs300_s23_projects_days.Dmalloc.Pointers.{
  find, insert, sizes, insert-IsSorted, find-insert, insert-sizes,
}
use cs300_s23_projects_days.Dmalloc.Invariant.{
  IsBlock, IsHeap, IsFresh, no_block, block, fail-IsHeap, base-IsHeap,
}

header-flag : (p sz file line : ℕ) (m : ℕ → ℕ) → write_header p sz file line m p ≡ 2
unfolding write_header
header-flag p sz file line m = ground arith

header-size : (p sz file line : ℕ) (m : ℕ → ℕ) → write_header p sz file line m (p + 8) ≡ sz
unfolding write_header
header-size p sz file line m = ground arith

-- The header is four words.
header-other :
    (p sz file line a : ℕ) (m : ℕ → ℕ)
    → (a < p) ⊎ (p + 32 ≤ a)
    → write_header p sz file line m a ≡ m a
unfolding write_header
header-other p sz file line a m (inl h) = ground arith
header-other p sz file line a m (inr h) = ground arith

new_min-le :
    (old q : ℕ)
    → 0 < q
    → (new_min old q ≤ q) × (0 < new_min old q) × (0 < old → new_min old q ≤ old)
unfolding new_min
new_min-le old q pos = (ground arith, ground arith, λ h. ground arith)

new_max-le :
    (old q sz : ℕ) → q + 8 + sz < word_mod → (q ≤ new_max old q sz) × (old ≤ new_max old q sz)
unfolding new_max add64
new_max-le old q sz h = ground arith

add_count : (n k : ℕ) → add64 (n % word_mod) k ≡ (n + k) % word_mod
unfolding add64
add_count n k = omega arith

add_total : (n k : ℕ) → add64 (n % word_mod) k ≡ (k + n) % word_mod
unfolding add64
add_total n k = omega arith

no_wrap :
    (sz : ℕ) → sz < word_mod → (ltb 32 sz && ltb (add64 32 sz) 32) ≡ false → 32 + sz < word_mod
unfolding add64
no_wrap sz small d = ground arith

module _ {B : Type 0} where
  -- The block that was just made.
  new-IsBlock :
      (p sz file line : ℕ) (h : Heap B)
      → 0 < p
      → p % 8 ≡ 0
      → p + 40 + sz < word_mod
      → IsBlock (allocated p sz file line h).1 (p + 32) sz
  unfolding allocated
  new-IsBlock p sz file line h pos al top =
      let e = add64-eq p 32 (omega arith) in
      let lo = new_min-le h.stature.heap_min (p + 32) (omega arith) in
      let hi = new_max-le h.stature.heap_max (p + 32) sz (omega arith) in
      let here : p + 32 - 32 ≡ p = omega arith in
      let next : p + 32 - 24 ≡ p + 8 = omega arith in
      record {
        low = omega arith;
        aligned = omega arith;
        high = omega arith;
        min_set = rw (e) (lo.1);
        above_min = rw (e) (lo.0);
        below_max = rw (e) (hi.0);
        flag = rw (here) (header-flag p sz file line h.memory);
        size = rw (next) (header-size p sz file line h.memory);
      }

  old-IsBlock :
      (p sz file line q w : ℕ) (h : Heap B)
      → p + 40 + sz < word_mod
      → IsBlock h q w
      → (p + 64 + sz ≤ q) ⊎ (q + w ≤ p)
      → IsBlock (allocated p sz file line h).1 q w
  unfolding allocated
  old-IsBlock p sz file line q w h top b away =
      let e = add64-eq p 32 (omega arith) in
      let lo = new_min-le h.stature.heap_min (p + 32) (omega arith) in
      let hi = new_max-le h.stature.heap_max (p + 32) sz (omega arith) in
      let out : (a : ℕ) → q ≤ a + 32 → a < q → (a < p) ⊎ (p + 32 ≤ a) =
        λ a f g. elim away [ inl h ↦ inr (omega arith) | inr h ↦ inl (omega arith) ] in
      record {
        low = b.low;
        aligned = b.aligned;
        high = b.high;
        min_set = rw (e) (lo.1);
        above_min = rw (e) (omega (arith, lo.2 b.min_set, b.above_min));
        below_max = rw (e) (omega (arith, hi.1, b.below_max));
        flag =
            header-other p sz file line (q - 32) h.memory
              (out (q - 32) (omega (arith, b.low)) (omega (arith, b.low)))
            ∙ b.flag;
        size =
            header-other p sz file line (q - 24) h.memory
              (out (q - 24) (omega (arith, b.low)) (omega (arith, b.low)))
            ∙ b.size;
      }

  module _ (p sz file line : ℕ) (h : Heap B) (pos : 0 < p) (al : p % 8 ≡ 0)
      (top : p + 40 + sz < word_mod)
      (away : (q w : ℕ) → find q h.pointer_map ≡ some w → (p + 64 + sz ≤ q) ⊎ (q + w ≤ p)) where
    pub moved : add64 p 32 ≡ p + 32
    moved = add64-eq p 32 (omega arith)

    pub none_there : find (p + 32) h.pointer_map ≡ none
    none_there = elim (Option-cases (find (p + 32) h.pointer_map)) [
      | inl n ↦ n
      | inr (w, n) ↦ absurd (elim (away (p + 32) w n) [ inl g ↦ omega arith | inr g ↦ omega arith ])
    ]

    -- An entry afterwards is the new one or an old one.
    pub new_or_old :
        (q w : ℕ)
        → find q (allocated p sz file line h).1.pointer_map ≡ some w
        → ((q ≡ p + 32) × (w ≡ sz)) ⊎ ((q ≢ p + 32) × (find q h.pointer_map ≡ some w))
    unfolding allocated
    new_or_old q w f =
        let f' : find q (insert (p + 32) sz h.pointer_map) ≡ some w = rw⁻¹ moved f in
        let law = find-insert (p + 32) q sz h.pointer_map none_there in
        let f'' : (if p + 32 == q then some sz else find q h.pointer_map) ≡ some w = rw⁻¹ law f' in
        elim (Bool-cases (p + 32 == q)) [ inl d ↦ inl (ground arith) | inr d ↦ inr (ground arith) ]

    allocated-IsHeap : IsHeap h → IsHeap (allocated p sz file line h).1
    unfolding allocated
    allocated-IsHeap i =
        let (total, count) = insert-sizes (p + 32) sz h.pointer_map none_there in
        record {
          sorted = insert-IsSorted (add64 p 32) sz h.pointer_map i.sorted;
          active = rw (moved, count, i.active) (add_count (length h.pointer_map) 1);
          bytes = rw (moved, total, i.bytes) (add_total (sizes h.pointer_map) sz);
          blocks = λ q w f. elim (new_or_old q w f) [
            | inl (d, g) ↦ rw (d, g) (new-IsBlock p sz file line h pos al top)
            | inr (d, g) ↦ old-IsBlock p sz file line q w h top (i.blocks q w g) (away q w g)
          ];
          apart = λ q w r v f g l. elim (new_or_old q w f) [
            | inl (a, b) ↦ elim (new_or_old r v g) [
              | inl (c, d) ↦ absurd (omega arith)
              | inr (c, d) ↦ elim (away r v d) [
                | inl x ↦ omega arith
                | inr x ↦ absurd (omega arith)
              ]
            ]
            | inr (a, b) ↦ elim (new_or_old r v g) [
              | inl (c, d) ↦ elim (away q w b) [
                | inl x ↦ absurd (omega arith)
                | inr x ↦ omega arith
              ]
              | inr (c, d) ↦ i.apart q w r v b d l
            ]
          ];
        }

  served-IsHeap :
      (p sz file line : ℕ) (b : B) (h : Heap B)
      → IsFresh p sz h
      → IsHeap h
      → IsHeap
          (if p == 0
            then (0, fail sz (record h { base = b }))
            else allocated p sz file line (record h { base = b })).1
  served-IsHeap p sz file line b h (no_block e) i =
      rw (e) (fail-IsHeap sz (record h { base = b }) (base-IsHeap b h i))
  served-IsHeap p sz file line b h (block pos al top away) i =
      rw (==_ne p 0 (omega arith)) (
        allocated-IsHeap p sz file line (record h { base = b }) pos al top away (base-IsHeap b h i))

  pub dmalloc-IsHeap :
      (allocator : Allocator B) (sz file line : ℕ) (h : Heap B)
      → sz < word_mod
      → (32 + sz < word_mod → IsFresh (allocator.base_malloc (32 + sz) h.base).0 sz h)
      → IsHeap h
      → IsHeap (dmalloc allocator sz file line h).1
  unfolding dmalloc
  dmalloc-IsHeap allocator sz file line h small fresh i =
      elim (Bool-cases (ltb 32 sz && ltb (add64 32 sz) 32)) [
        | inl d ↦ rw (d) (fail-IsHeap sz h i)
        | inr d ↦
            let fits : 32 + sz < word_mod = no_wrap sz small d in
            let e : add64 32 sz ≡ 32 + sz = add64-eq 32 sz fits in
            rw (d, e)
              (served-IsHeap (allocator.base_malloc (32 + sz) h.base).0 sz file line
                (allocator.base_malloc (32 + sz) h.base).1 h (fresh fits) i)
      ]
