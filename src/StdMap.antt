-- ===== src/StdMap.antt =====
-- `std::map` with string keys: a list of entries in increasing order of their keys.
pub mod Laws
pub mod Sorted
use cs300_s23_projects_days.Prelude.{
  ℕ, Bool, Option, none, some, List, [], ◌∷◌, map, Str, str_eq, str_lt, if◌then◌else◌,
}

abbrev pub StdMap {ℓ} : Type ℓ → Type ℓ
StdMap V = List (Str × V)

module _ {ℓ} {V : Type ℓ} where
  unfoldable pub find : Str → StdMap V → Option V
  find k [] = none
  find k ((j, w) ∷ m) = if str_eq j k then some w else find k m

  unfoldable pub count : Str → StdMap V → ℕ
  count k m = elim (find k m) [ none ↦ 0 | some v ↦ 1 ]

  -- m[k] = v
  unfoldable pub put : Str → V → StdMap V → StdMap V
  put k v [] = (k, v) ∷ []
  put k v ((j, w) ∷ m) =
      if str_eq j k
      then (j, v) ∷ m
      else if str_lt k j
      then (k, v) ∷ (j, w) ∷ m
      else (j, w) ∷ put k v m

  -- m.insert({k, v}) leaves an entry that is there alone.
  unfoldable pub insert : Str → V → StdMap V → StdMap V
  insert k v m = elim (find k m) [ none ↦ put k v m | some w ↦ m ]

  -- The value of m[k], which makes an entry with the default value if there is none.
  unfoldable pub index : V → Str → StdMap V → V × StdMap V
  index default k m = elim (find k m) [ none ↦ (default, put k default m) | some w ↦ (w, m) ]

  unfoldable pub erase : Str → StdMap V → StdMap V
  erase k [] = []
  erase k ((j, w) ∷ m) = let rest = erase k m in if str_eq j k then rest else (j, w) ∷ rest

  abbrev pub keys : StdMap V → List Str
  keys = map λ e. e.0
