-- ===== src/Dmalloc/Base.antt =====
-- dmalloc/basealloc.cc: the base allocator, which remembers the blocks that it has given out and
-- those that came back, over malloc and free. The atexit function only frees memory at the end.
pub mod Regions
pub mod Stages
pub mod Search
pub mod Back
pub mod Contract
use cs300_s23_projects_days.Prelude.{
  ℕ, zero, suc, ◌+◌, ◌-◌, ◌*◌, ◌/◌, ◌%◌, ◌^◌, Bool, true, false, not, ◌||◌, Option, none, some,
  List, [], ◌∷◌, ◌++◌, length, get_elem?, set, ltb, leb, ◌==◌, if◌then◌else◌, word_mod,
}
use cs300_s23_projects_days.Dmalloc.{Allocator}
use cs300_s23_projects_days.Dmalloc.Pointers.{PointerMap, find, insert, erase}

pub record Malloc (M : Type 0) : Type 0 where
  pub malloc : ℕ → M → ℕ × M
  pub free : ℕ → M → M

pub record BaseState (M : Type 0) : Type 0 where
  pub allocs : PointerMap
  pub frees : List (ℕ × ℕ)
  pub disabled : ℕ
  pub x : ℕ
  pub heap : M

-- allocs[ptr] = sz
unfoldable pub assign : ℕ → ℕ → PointerMap → PointerMap
assign ptr sz m = insert ptr sz (erase ptr m)

-- The number and the new x.
abbrev pub alloc_random : ℕ → ℕ × ℕ
alloc_random x = let x' = (x * 6364136223846793005 + 1) % word_mod in (x' / 2 ^ 32 % 2 ^ 32, x')

abbrev pub last_or : ℕ × ℕ → List (ℕ × ℕ) → ℕ × ℕ
last_or f [] = f
last_or f (g ∷ fs) = last_or g fs

-- pop_back
abbrev pub pop_back : List (ℕ × ℕ) → List (ℕ × ℕ)
pop_back [] = []
pop_back (f ∷ []) = []
pop_back (f ∷ g ∷ fs) = f ∷ pop_back (g ∷ fs)

-- One try at the entry k: the block and the list without it, or what the rest of the search gives.
abbrev pub try_one :
    ℕ
    → ℕ
    → List (ℕ × ℕ)
    → Option (ℕ × ℕ)
    → Option (ℕ × ℕ × List (ℕ × ℕ)) × ℕ
    → ℕ
    → Option (ℕ × ℕ × List (ℕ × ℕ)) × ℕ
try_one k sz frees none rest x = (none, x)
try_one k sz frees (some (start, size)) rest x =
    if leb sz size
    then (some (start, size, pop_back (set frees k (last_or (start, size) frees))), x)
    else rest

-- The search for a block that is large enough, with so many tries left.
unfoldable pub try_frees : ℕ → ℕ → List (ℕ × ℕ) → ℕ → Option (ℕ × ℕ × List (ℕ × ℕ)) × ℕ
try_frees zero sz frees x = (none, x)
try_frees (suc left) sz frees x =
    let (r, x') = alloc_random x in
    let k = r % length frees in
    try_one k sz frees (get_elem? frees k) (try_frees left sz frees x') x'

module _ {M : Type 0} (os : Malloc M) where
  -- With the block that was found, if one was; 0 is no pointer yet.
  unfoldable pub reuse : Option (ℕ × ℕ × List (ℕ × ℕ)) → BaseState M → ℕ × BaseState M
  reuse none b = (0, b)
  reuse (some (start, size, frees)) b =
      (start, record b { allocs = insert start size b.allocs; frees = frees })

  unfoldable pub fresh : ℕ → ℕ × BaseState M → ℕ × BaseState M
  fresh sz (ptr, b) =
      let (new, heap') = os.malloc (if sz == 0 then 1 else sz) b.heap in
      if ptr == 0 then (new, record b { heap = heap' }) else (ptr, b)

  unfoldable pub remember : ℕ → ℕ × BaseState M → ℕ × BaseState M
  remember sz (ptr, b) =
      (ptr, (if ptr == 0 then b else record b { allocs = assign ptr sz b.allocs }))

  unfoldable pub base_malloc : ℕ → BaseState M → ℕ × BaseState M
  base_malloc sz b =
      let (direct, heap') = os.malloc sz b.heap in
      let (r, x') = alloc_random b.x in
      let (found, x'') =
        if r % 4 == 0
        then (none, x')
        else try_frees (if ltb 10 (length b.frees) then 10 else length b.frees) sz b.frees x' in
      if not (b.disabled == 0)
      then (direct, record b { heap = heap' })
      else remember sz (fresh sz (reuse found (record b { x = x'' })))

  unfoldable pub base_free : ℕ → BaseState M → BaseState M
  base_free ptr b =
      if not (b.disabled == 0) || ptr == 0
      then record b { heap = os.free ptr b.heap }
      else elim (find ptr b.allocs) [
        | none ↦ b
        | some size ↦ record b { frees = b.frees ++ (ptr, size) ∷ []; allocs = erase ptr b.allocs }
      ]

  abbrev pub base_allocator : Allocator (BaseState M)
  base_allocator = record { base_malloc = base_malloc; base_free = base_free }
