-- ===== src/Dmalloc/Base/Search.antt =====
-- The search for a block in dmalloc/basealloc.cc.
use cs300_s23_projects_days.Prelude.{
  ℕ, zero, suc, ◌%◌, ◌≤◌, ◌≡◌, inl, inr, refl, Option, none, some, List, [], ◌∷◌, length, get_elem?,
  set, leb, arith, Bool-cases,
}
use cs300_s23_projects_days.Dmalloc.Base.{last_or, pop_back, alloc_random, try_one, try_frees}

-- What the search finds: an entry that is large enough, and the list without it.
pub data Found (frees : List (ℕ × ℕ)) (sz : ℕ) : Option (ℕ × ℕ × List (ℕ × ℕ)) → Type 0 where
  nothing : Found frees sz none
  entry :
      (k start size : ℕ)
      → get_elem? frees k ≡ some (start, size)
      → sz ≤ size
      → Found frees sz (some (start, size, pop_back (set frees k (last_or (start, size) frees))))

try_one-Found :
    (k sz : ℕ) (frees : List (ℕ × ℕ)) (f : Option (ℕ × ℕ))
    (rest : Option (ℕ × ℕ × List (ℕ × ℕ)) × ℕ) (x : ℕ)
    → get_elem? frees k ≡ f
    → Found frees sz rest.0
    → Found frees sz (try_one k sz frees f rest x).0
try_one-Found k sz frees none rest x e h = nothing
try_one-Found k sz frees (some (start, size)) rest x e h = elim (Bool-cases (leb sz size)) [
  | inl d ↦ rw (d) (entry k start size e (ground arith))
  | inr d ↦ rw (d) h
]

pub try_frees-Found :
    (left sz : ℕ) (frees : List (ℕ × ℕ)) (x : ℕ) → Found frees sz (try_frees left sz frees x).0
unfolding try_frees
try_frees-Found zero sz frees x = nothing
try_frees-Found (suc left) sz frees x =
    try_one-Found ((alloc_random x).0 % length frees) sz frees _
      (try_frees left sz frees (alloc_random x).1) (alloc_random x).1 refl
      (try_frees-Found left sz frees (alloc_random x).1)

pub nonempty :
    (fs : List (ℕ × ℕ)) (k : ℕ) (f : ℕ × ℕ)
    → get_elem? fs k ≡ some f
    → (g : ℕ × ℕ) × (gs : List (ℕ × ℕ)) × (fs ≡ g ∷ gs)
nonempty [] k f e = absurd (cc)
nonempty (g ∷ gs) k f e = (g, gs, refl)
