-- ===== src/StdMap/Sorted.antt =====
-- The order of the keys of a `std::map`.
use cs300_s23_projects_days.Prelude.{
  ◌≡◌, true, [], ◌∷◌, Str, str_lt, str_lt_trans, str_lt_connected, arith,
}
use cs300_s23_projects_days.StdMap.{StdMap, put, erase}

module _ {ℓ} {V : Type ℓ} where
  abbrev pub Above : Str → StdMap V → Type 0
  Above k [] = Unit
  Above k ((j, w) ∷ m) = (str_lt k j ≡ true) × Above k m

  abbrev pub IsSorted : StdMap V → Type 0
  IsSorted [] = Unit
  IsSorted ((j, w) ∷ m) = Above j m × IsSorted m

  Above-trans : (i j : Str) (m : StdMap V) → str_lt i j ≡ true → Above j m → Above i m
  Above-trans i j [] h a = tt
  Above-trans i j ((k, w) ∷ m) h a = (str_lt_trans i j k h a.0, Above-trans i j m h a.1)

  Above-put :
      (i k : Str) (v : V) (m : StdMap V) → str_lt i k ≡ true → Above i m → Above i (put k v m)
  unfolding put
  Above-put i k v [] h a = (h, tt)
  Above-put i k v ((j, w) ∷ m) h a = ground (arith, Above-put i k v m h a.1)

  pub put-IsSorted : (k : Str) (v : V) (m : StdMap V) → IsSorted m → IsSorted (put k v m)
  unfolding put
  put-IsSorted k v [] s = (tt, tt)
  put-IsSorted k v ((j, w) ∷ m) s =
      ground (
        arith,
        put-IsSorted k v m s.1,
        Above-put j k v m,
        Above-trans k j m,
        str_lt_connected j k,
        s,
      )

  Above-erase : (i k : Str) (m : StdMap V) → Above i m → Above i (erase k m)
  unfolding erase
  Above-erase i k [] a = tt
  Above-erase i k ((j, w) ∷ m) a = ground (arith, Above-erase i k m a.1)

  pub erase-IsSorted : (k : Str) (m : StdMap V) → IsSorted m → IsSorted (erase k m)
  unfolding erase
  erase-IsSorted k [] s = tt
  erase-IsSorted k ((j, w) ∷ m) s = ground (arith, erase-IsSorted k m s.1, Above-erase j k m s.0)
