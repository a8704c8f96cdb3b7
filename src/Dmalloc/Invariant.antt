-- ===== src/Dmalloc/Invariant.antt =====
-- What dmalloc, dfree and the client keep true of the heap of dmalloc/dmalloc.cc.
use cs300_s23_projects_days.Prelude.{ℕ, ◌+◌, ◌-◌, ◌%◌, ◌≤◌, ◌<◌, ◌≡◌, ◌⊎◌, some, length, word_mod}
use cs300_s23_projects_days.Dmalloc.{Heap, fail}
use cs300_s23_projects_days.Dmalloc.Pointers.{find, sizes, IsSorted}

module _ {B : Type 0} where
  -- The block behind an active pointer, with the header in front of it.
  pub record IsBlock (h : Heap B) (q sz : ℕ) : Type 0 where
    pub low : 32 < q
    pub aligned : q % 8 ≡ 0
    pub high : q + 8 + sz < word_mod
    pub min_set : 0 < h.stature.heap_min
    pub above_min : h.stature.heap_min ≤ q
    pub below_max : q ≤ h.stature.heap_max
    pub flag : h.memory (q - 32) ≡ 2
    pub size : h.memory (q - 24) ≡ sz

  pub record IsHeap (h : Heap B) : Type 0 where
    pub sorted : IsSorted h.pointer_map
    pub active : h.stature.nactive ≡ length h.pointer_map % word_mod
    pub bytes : h.stature.active_size ≡ sizes h.pointer_map % word_mod
    pub blocks : (q sz : ℕ) → find q h.pointer_map ≡ some sz → IsBlock h q sz
    pub apart :
        (q sz r w : ℕ)
        → find q h.pointer_map ≡ some sz
        → find r h.pointer_map ≡ some w
        → q < r
        → q + sz + 32 ≤ r

  -- What base_malloc promises for a block of 32 + sz bytes: no pointer, or an aligned block in the
  -- address space that has no byte in common with an active one.
  pub data IsFresh (p sz : ℕ) (h : Heap B) : Type 0 where
    no_block : p ≡ 0 → IsFresh p sz h
    block :
        0 < p
        → p % 8 ≡ 0
        → p + 40 + sz < word_mod
        → ((q w : ℕ) → find q h.pointer_map ≡ some w → (p + 64 + sz ≤ q) ⊎ (q + w ≤ p))
        → IsFresh p sz h

  pub fail-IsHeap : (sz : ℕ) (h : Heap B) → IsHeap h → IsHeap (fail sz h)
  unfolding fail
  fail-IsHeap sz h i = record {
    sorted = i.sorted;
    active = i.active;
    bytes = i.bytes;
    blocks = λ q w e.
        let b = i.blocks q w e in
        record {
          low = b.low;
          aligned = b.aligned;
          high = b.high;
          min_set = b.min_set;
          above_min = b.above_min;
          below_max = b.below_max;
          flag = b.flag;
          size = b.size;
        };
    apart = i.apart;
  }

  pub base-IsHeap : (b : B) (h : Heap B) → IsHeap h → IsHeap (record h { base = b })
  base-IsHeap b h i = record {
    sorted = i.sorted;
    active = i.active;
    bytes = i.bytes;
    blocks = λ q w e.
        let k = i.blocks q w e in
        record {
          low = k.low;
          aligned = k.aligned;
          high = k.high;
          min_set = k.min_set;
          above_min = k.above_min;
          below_max = k.below_max;
          flag = k.flag;
          size = k.size;
        };
    apart = i.apart;
  }
