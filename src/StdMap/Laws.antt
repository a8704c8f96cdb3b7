-- ===== src/StdMap/Laws.antt =====
-- Lookups after each update of a `std::map`.
use cs300_s23_projects_days.Prelude.{
  ◌≡◌, refl, none, some, [], ◌∷◌, Str, str_eq, str_eq_iff, if◌then◌else◌, arith,
}
use cs300_s23_projects_days.StdMap.{StdMap, find, count, index, put, insert, erase}

module _ {ℓ} {V : Type ℓ} where
  pub find-put :
      (k j : Str) (v : V) (m : StdMap V)
      → find j (put k v m) ≡ (if str_eq k j then some v else find j m)
  unfolding find put
  find-put k j v [] = refl
  find-put k j v ((i, w) ∷ m) =
      ground (arith, str_eq_iff k j, str_eq_iff i k, str_eq_iff i j, find-put k j v m)

  pub find-erase :
      (k j : Str) (m : StdMap V) → find j (erase k m) ≡ (if str_eq k j then none else find j m)
  unfolding find erase
  find-erase k j [] = ground arith
  find-erase k j ((i, w) ∷ m) =
      ground (arith, str_eq_iff k j, str_eq_iff i k, str_eq_iff i j, find-erase k j m)

  -- What the other operations do where the key is missing, and where it is there.
  module _ (k : Str) (m : StdMap V) where
    pub count-none : find k m ≡ none → count k m ≡ 0
    unfolding count
    count-none e = rw (e, count)

    pub insert-none : (v : V) → find k m ≡ none → insert k v m ≡ put k v m
    unfolding insert
    insert-none v e = rw (e, insert)

    pub count-some : {v : V} → find k m ≡ some v → count k m ≡ 1
    unfolding count
    count-some e = rw (e, count)

    pub index-none : (d : V) → find k m ≡ none → index d k m ≡ (d, put k d m)
    unfolding index
    index-none d e = rw (e, index)

    pub index-some : (d : V) {v : V} → find k m ≡ some v → index d k m ≡ (v, m)
    unfolding index
    index-some d e = rw (e, index)
