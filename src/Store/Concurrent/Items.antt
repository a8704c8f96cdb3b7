-- ===== src/Store/Concurrent/Items.antt =====
-- The items of one bucket: lookups after insertItem and removeItem of concurrent_kvstore.hpp.
use cs300_s23_projects_days.Prelude.{
  ◌≤◌, ◌≡◌, refl, true, Option, none, some, List, [], ◌∷◌, Str, str_eq, str_eq_iff, length, ltb,
  if◌then◌else◌, arith,
}
use cs300_s23_projects_days.Store.Concurrent.{DbItem, find_item, insert_in, remove_from}

-- The value of a key in a bucket.
abbrev pub value_of : Option DbItem → Option Str
value_of none = none
value_of (some item) = some item.value

abbrev pub at : Str → List DbItem → Option Str
at k items = value_of (find_item k items)

pub at-insert_in :
    (k j v : Str) (items : List DbItem)
    → at j (insert_in k v items) ≡ (if str_eq k j then some v else at j items)
unfolding find_item insert_in
at-insert_in k j v [] = ground arith
at-insert_in k j v (x ∷ xs) =
    ground (arith, str_eq_iff k j, str_eq_iff x.key k, str_eq_iff x.key j, at-insert_in k j v xs)

pub at-remove_from :
    (k j : Str) (items : List DbItem)
    → at j (remove_from k items) ≡ (if str_eq k j then none else at j items)
unfolding find_item remove_from
at-remove_from k j [] = ground arith
at-remove_from k j (x ∷ xs) =
    ground (arith, str_eq_iff k j, str_eq_iff x.key k, str_eq_iff x.key j, at-remove_from k j xs)

length-remove_from_le :
    (k : Str) (items : List DbItem) → length (remove_from k items) ≤ length items
unfolding remove_from
length-remove_from_le k [] = omega arith
length-remove_from_le k (x ∷ xs) = ground (arith, length-remove_from_le k xs)

-- A bucket gets shorter exactly if it held the key.
pub removed-none :
    (k : Str) (items : List DbItem) → find_item k items ≡ none → (remove_from k items ≡ items)
unfolding find_item remove_from
removed-none k [] e = refl
removed-none k (x ∷ xs) e = ground (arith, removed-none k xs)

pub removed-some :
    (k : Str) (items : List DbItem) (item : DbItem)
    → find_item k items ≡ some item
    → ltb (length (remove_from k items)) (length items) ≡ true
unfolding find_item remove_from
removed-some k [] item e = absurd (cc)
removed-some k (x ∷ xs) item e = ground (arith, removed-some k xs item, length-remove_from_le k xs)
