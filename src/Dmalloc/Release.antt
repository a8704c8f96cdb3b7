-- ===== src/Dmalloc/Release.antt =====
-- What dfree of dmalloc/dmalloc.cc makes of a heap with an active pointer.
use cs300_s23_projects_days.Prelude.{
  ℕ, ◌+◌, ◌-◌, ◌%◌, ◌≤◌, ◌<◌, ◌≡◌, ◌≢◌, none, some, ◌==◌, if◌then◌else◌, update, sub64, word_mod,
  arith, ==_ne,
}
use cs300_s23_projects_days.Dmalloc.{Heap}
use cs300_s23_projects_days.Dmalloc.Pointers.{
  PointerMap, find, erase, IsSorted, erase-IsSorted, find-erase, erase-sizes,
}
use cs300_s23_projects_days.Dmalloc.Invariant.{IsHeap}

sub_count : (n m k : ℕ) → k < word_mod → m + k ≡ n → sub64 (n % word_mod) k ≡ m % word_mod
unfolding sub64
sub_count n m k small e = omega arith

pub old_entry :
    (ptr q w : ℕ) (m : PointerMap)
    → IsSorted m
    → find q (erase ptr m) ≡ some w
    → (q ≢ ptr) × (find q m ≡ some w)
old_entry ptr q w m s f =
    let law = find-erase ptr q m s in
    let f' : (if ptr == q then none else find q m) ≡ some w = rw⁻¹ law f in
    (λ c. ground arith, ground arith)

module _ {B : Type 0} where
  -- Giving a block back.
  pub freed-IsHeap :
      (b : B) (ptr size : ℕ) (h : Heap B)
      → find ptr h.pointer_map ≡ some size
      → IsHeap h
      → IsHeap (record h {
        base = b;
        memory = update h.memory (ptr - 32) 3;
        stature = record h.stature {
          active_size = sub64 h.stature.active_size (h.memory (ptr - 32 + 8));
          nactive = sub64 h.stature.nactive 1;
        };
        pointer_map = erase ptr h.pointer_map;
      })
  freed-IsHeap b ptr size h e i =
      let k = i.blocks ptr size e in
      let (total, count) = erase-sizes ptr size h.pointer_map e in
      let at : ptr - 32 + 8 ≡ ptr - 24 = omega (arith, k.low) in
      record {
        sorted = erase-IsSorted ptr h.pointer_map i.sorted;
        active = rw (i.active) (sub_count _ _ 1 (omega arith) count);
        bytes = rw (i.bytes, at, k.size) (sub_count _ _ size (omega (arith, k.high)) (omega arith));
        blocks = λ q w f.
            let (ne, g) = old_entry ptr q w h.pointer_map i.sorted f in
            let o = i.blocks q w g in
            let gap : (ptr < q → ptr + size + 32 ≤ q) × (q < ptr → q + w + 32 ≤ ptr) =
              (i.apart ptr size q w e g, i.apart q w ptr size g e) in
            record {
              low = o.low;
              aligned = o.aligned;
              high = o.high;
              min_set = o.min_set;
              above_min = o.above_min;
              below_max = o.below_max;
              flag = rw (==_ne (ptr - 32) (q - 32) (λ c. omega (arith, o.low, k.low))) (o.flag);
              size =
                  rw
                    (==_ne (ptr - 32) (q - 24)
                      (λ c. omega (arith, o.low, k.low, gap.1 (omega (arith, o.low, k.low)))))
                    (o.size);
            };
        apart = λ q w r v f g l.
            i.apart q w r v (old_entry ptr q w h.pointer_map i.sorted f).1
              (old_entry ptr r v h.pointer_map i.sorted g).1 l;
      }
