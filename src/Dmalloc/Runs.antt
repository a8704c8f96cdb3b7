-- ===== src/Dmalloc/Runs.antt =====
-- Programs that use the allocator of dmalloc/dmalloc.cc: calls and writes, one after the other.
use cs300_s23_projects_days.Prelude.{
  ℕ, ◌+◌, ◌-◌, ◌%◌, ◌≤◌, ◌<◌, ◌≡◌, inl, inr, refl, subst, none, some, ◌==◌, if◌then◌else◌, update,
  sub64, sub64-eq, word_mod, arith, Option-cases, ==_ne, ==_self, le→ltb,
}
use cs300_s23_projects_days.Dmalloc.{Allocator, Heap, Ending, Report, dfree, describe, released}
use cs300_s23_projects_days.Dmalloc.Pointers.{find, erase, find-erase}
use cs300_s23_projects_days.Dmalloc.Invariant.{IsHeap}
use cs300_s23_projects_days.Dmalloc.Release.{freed-IsHeap}

module _ {B : Type 0} (allocator : Allocator B) where
  -- What dfree makes of a heap, for an active pointer.
  abbrev pub without : ℕ → Heap B → Heap B
  without ptr h = record h {
    base = allocator.base_free ptr h.base;
    memory = update h.memory (ptr - 32) 3;
    stature = record h.stature {
      active_size = sub64 h.stature.active_size (h.memory (ptr - 32 + 8));
      nactive = sub64 h.stature.nactive 1;
    };
    pointer_map = erase ptr h.pointer_map;
  }

  -- Without an entry for the pointer, dfree returns only for nullptr.
  pub same :
      (ptr : ℕ) (h h' : Heap B)
      → find ptr h.pointer_map ≡ none
      → dfree allocator ptr h ≡ Ending.returned h'
      → h ≡ h'
  unfolding dfree released describe
  same ptr h h' e r = ground arith

  released-active :
      (ptr size : ℕ) (h : Heap B)
      → find ptr h.pointer_map ≡ some size
      → released allocator ptr (ptr - 32) h ≡ Ending.returned (without ptr h)
  unfolding released
  released-active ptr size h e = rw (e, released) refl

  -- An active pointer passes all tests of dfree.
  pub dfree-active :
      (ptr size : ℕ) (h : Heap B)
      → IsHeap h
      → find ptr h.pointer_map ≡ some size
      → dfree allocator ptr h ≡ Ending.returned (without ptr h)
  unfolding dfree
  dfree-active ptr size h i e =
      let k = i.blocks ptr size e in
      let header = sub64-eq ptr 32 (omega (arith, k.low)) (omega (arith, k.high)) in
      let al : (ptr - 32) % 8 ≡ 0 = omega (arith, k.low, k.aligned) in
      rw
        (
          header,
          ==_ne ptr 0 (omega (arith, k.low)),
          le→ltb ptr h.stature.heap_min k.above_min,
          le→ltb h.stature.heap_max ptr k.below_max,
          al,
          k.flag,
        )
        (released-active ptr size h e)

  -- A pointer whose header says that it was freed.
  dfree-freed :
      (ptr : ℕ) (h : Heap B)
      → 32 < ptr
      → ptr < word_mod
      → ptr % 8 ≡ 0
      → h.stature.heap_min ≤ ptr
      → ptr ≤ h.stature.heap_max
      → h.memory (ptr - 32) ≡ 3
      → dfree allocator ptr h ≡ Ending.aborted Report.double_free
  unfolding dfree
  dfree-freed ptr h low high aligned above below flag =
      let header = sub64-eq ptr 32 (omega arith) high in
      let al : (ptr - 32) % 8 ≡ 0 = omega arith in
      rw
        (
          header,
          ==_ne ptr 0 (omega arith),
          le→ltb ptr h.stature.heap_min above,
          le→ltb h.stature.heap_max ptr below,
          al,
          flag,
        )
        refl

  -- In a heap with the invariant IsHeap, dfree of an active pointer returns, takes this pointer
  -- and no other out of the active ones, and keeps the invariant. A second dfree of the pointer
  -- aborts with the report of a double free.
  pub dfree-dfree :
      (ptr size : ℕ) (h : Heap B)
      → IsHeap h
      → find ptr h.pointer_map ≡ some size
      → (h' : Heap B) × (dfree allocator ptr h ≡ Ending.returned h')
        × IsHeap h'
        × ((q : ℕ) → find q h'.pointer_map ≡ (if ptr == q then none else find q h.pointer_map))
        × (dfree allocator ptr h' ≡ Ending.aborted Report.double_free)
  dfree-dfree ptr size h i e =
      let k = i.blocks ptr size e in
      (
        without ptr h,
        dfree-active ptr size h i e,
        freed-IsHeap (allocator.base_free ptr h.base) ptr size h e i,
        λ q. find-erase ptr q h.pointer_map i.sorted,
        dfree-freed ptr (without ptr h) k.low (omega (arith, k.high)) k.aligned k.above_min
            k.below_max (rw (==_self (ptr - 32)) refl),
      )

  pub dfree-IsHeap :
      (ptr : ℕ) (h h' : Heap B) → IsHeap h → dfree allocator ptr h ≡ Ending.returned h' → IsHeap h'
  dfree-IsHeap ptr h h' i r = elim (Option-cases (find ptr h.pointer_map)) [
    | inl e ↦ subst IsHeap (same ptr h h' e r) i
    | inr (size, e) ↦
        let k = i.blocks ptr size e in
        let there : without ptr h ≡ h' = cc (dfree-active ptr size h i e) in
        subst IsHeap there (freed-IsHeap (allocator.base_free ptr h.base) ptr size h e i)
  ]
