-- ===== src/Dmalloc/Writes.antt =====
-- Writes into a block of the allocator of dmalloc/dmalloc.cc, by the client and by dcalloc.
use cs300_s23_projects_days.Prelude.{
  ℕ, ◌+◌, ◌-◌, ◌≤◌, ◌<◌, ◌≡◌, ◌⊎◌, inl, inr, refl, ◌∙◌, true, false, some, ltb, leb, update, arith,
  Bool-cases, le→ltb, lt→ltb,
}
use cs300_s23_projects_days.Dmalloc.{Heap, zeroed}
use cs300_s23_projects_days.Dmalloc.Pointers.{find}
use cs300_s23_projects_days.Dmalloc.Invariant.{IsHeap}

leb-true : (a b : ℕ) → a ≤ b → leb a b ≡ true
leb-true a b h = ground arith

leb-false : (a b : ℕ) → b < a → leb a b ≡ false
leb-false a b h = ground arith

zeroed-outside :
    (q n : ℕ) (memory : ℕ → ℕ) (a : ℕ) → (a < q) ⊎ (q + n ≤ a) → zeroed q n memory a ≡ memory a
unfolding zeroed
zeroed-outside q n memory a (inl o) = rw (lt→ltb a q o) refl
zeroed-outside q n memory a (inr o) = elim (Bool-cases (ltb a q)) [
  | inl d ↦ rw (d) refl
  | inr d ↦ rw (d, leb-true (q + n) a o) refl
]

pub zeroed-inside :
    (q n : ℕ) (memory : ℕ → ℕ) (a : ℕ) → q ≤ a → a + 8 ≤ q + n → zeroed q n memory a ≡ 0
unfolding zeroed
zeroed-inside q n memory a lo hi =
    rw (le→ltb a q lo, leb-false (q + n) a (omega arith), leb-true (a + 8) (q + n) hi) refl

module _ {B : Type 0} where
  -- No header lies in the block.
  off_block :
      (h : Heap B) (q size r w k : ℕ)
      → IsHeap h
      → find q h.pointer_map ≡ some size
      → find r h.pointer_map ≡ some w
      → 24 ≤ k
      → k ≤ 32
      → (r - k < q) ⊎ (q + size ≤ r - k)
  off_block h q size r w k i e f lo hi =
      let b = i.blocks r w f in
      let gap = i.apart q size r w e f in
      elim (Bool-cases (ltb q r)) [
        | inl d ↦ inr (omega (arith, gap (ground arith)))
        | inr d ↦ let le : r ≤ q = ground arith in inl (omega (arith, b.low))
      ]

  -- A change of the memory inside of a block.
  pub change-IsHeap :
      (h : Heap B) (q size : ℕ) (memory : ℕ → ℕ)
      → IsHeap h
      → find q h.pointer_map ≡ some size
      → ((a : ℕ) → (a < q) ⊎ (q + size ≤ a) → memory a ≡ h.memory a)
      → IsHeap (record h { memory = memory })
  change-IsHeap h q size memory i e keeps = record {
    sorted = i.sorted;
    active = i.active;
    bytes = i.bytes;
    blocks = λ r w f.
        let k = i.blocks r w f in
        record {
          low = k.low;
          aligned = k.aligned;
          high = k.high;
          min_set = k.min_set;
          above_min = k.above_min;
          below_max = k.below_max;
          flag =
              keeps (r - 32) (off_block h q size r w 32 i e f (omega arith) (omega arith)) ∙ k.flag;
          size =
              keeps (r - 24) (off_block h q size r w 24 i e f (omega arith) (omega arith)) ∙ k.size;
        };
    apart = i.apart;
  }

  pub store-IsHeap :
      (h : Heap B) (q size a v : ℕ)
      → IsHeap h
      → find q h.pointer_map ≡ some size
      → q ≤ a
      → a < q + size
      → IsHeap (record h { memory = update h.memory a v })
  store-IsHeap h q size a v i e lo hi =
      change-IsHeap h q size (update h.memory a v) i e
        λ b out. elim out [ inl o ↦ ground arith | inr o ↦ ground arith ]

  pub zeroed-IsHeap :
      (h : Heap B) (q size : ℕ)
      → IsHeap h
      → find q h.pointer_map ≡ some size
      → IsHeap (record h { memory = zeroed q size h.memory })
  unfolding zeroed
  zeroed-IsHeap h q size i e =
      change-IsHeap h q size (zeroed q size h.memory) i e
        λ b out. zeroed-outside q size h.memory b out
