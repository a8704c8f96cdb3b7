-- ===== src/Tests/Store.antt =====
-- Tests of kvstore/kvstore. The hash of the tests is the length of the key.
use cs300_s23_projects_days.Prelude.{
  ℕ, ◌≡◌, refl, inl, true, false, none, some, [], ◌∷◌, ◌++◌, Str, codes, str_eq, if◌then◌else◌,
  arith,
}
use cs300_s23_projects_days.Run.{done, blocked}
use cs300_s23_projects_days.StdMap
use cs300_s23_projects_days.Net.Commands.{MultiGetRequest, MultiGetResponse}
use cs300_s23_projects_days.Store.Spec
use cs300_s23_projects_days.Store.Spec.{View, Ends}
use cs300_s23_projects_days.Store.Simple
use cs300_s23_projects_days.Store.Simple.Refine as SimpleLaws
use cs300_s23_projects_days.Store.Concurrent
use cs300_s23_projects_days.Store.Concurrent.{DbItem, DbMap, Lock, find_item, bucket}
use cs300_s23_projects_days.Store.Concurrent.Refine.{Shows}
use cs300_s23_projects_days.Store.Concurrent.Multi.{
  taken, multi_get-all, multi_get-missing, multi_put_locked,
}
use cs300_s23_projects_days.Store.Concurrent.Leak.{writes_block}

abbrev pub a_key : Str
a_key = codes "a"

abbrev pub b_key : Str
b_key = codes "bb"

abbrev pub one_entry : View
one_entry k = if str_eq a_key k then some (codes "1") else none

abbrev pub simple_one : Simple.SimpleKvStore
simple_one = record { key_value_map = (a_key, codes "1") ∷ []; mutex_1 = false }

pub simple_one-Shows : SimpleLaws.Shows one_entry simple_one
unfolding StdMap.find
simple_one-Shows = record { free = refl; views = λ k. refl }

abbrev a_item : DbItem
a_item = record { key = a_key; value = codes "1" }

abbrev both_keys : MultiGetRequest
both_keys = record { keys = a_key ∷ b_key ∷ [] }

abbrev no_values : MultiGetResponse
no_values = record { values = [] }

multi_get_lem_example :
    Ends
      (Simple.multi_get both_keys no_values simple_one)
      (
        Spec.all_present one_entry both_keys.keys,
        record { values = [] ++ Spec.present one_entry both_keys.keys },
      )
      (SimpleLaws.Shows one_entry)
multi_get_lem_example =
    SimpleLaws.multi_get_lem one_entry simple_one simple_one-Shows both_keys no_values

abbrev same_bucket : Str → ℕ
same_bucket k = 7

abbrev table_one : DbMap
table_one = record { buckets = λ b. a_item ∷ []; mtx = λ b. Lock.free }

table_one-Shows : Shows same_bucket one_entry table_one
unfolding find_item
table_one-Shows = record { unlocked = λ b. refl; views = λ k. ground arith }

one_all_present : Spec.all_present one_entry (a_key ∷ a_key ∷ []) ≡ true
unfolding str_eq
one_all_present = refl

multi_get-all_example :
    Ends
      (Concurrent.multi_get same_bucket (record { keys = a_key ∷ a_key ∷ [] }) no_values table_one)
      (true, record { values = [] ++ Spec.present one_entry (a_key ∷ a_key ∷ []) })
      (Shows same_bucket one_entry)
multi_get-all_example =
    multi_get-all same_bucket one_entry table_one table_one-Shows
      (record { keys = a_key ∷ a_key ∷ [] }) no_values one_all_present

one_missing : Spec.all_present one_entry both_keys.keys ≡ false
unfolding str_eq
one_missing = refl

multi_get-missing_example :
    Concurrent.multi_get same_bucket both_keys no_values table_one
    ≡ done (
      (false, record { values = [] ++ Spec.leading one_entry both_keys.keys }),
      record table_one { mtx = taken same_bucket table_one.mtx both_keys.keys },
    )
multi_get-missing_example =
    multi_get-missing same_bucket one_entry table_one table_one-Shows both_keys no_values
      one_missing

writes_block_example :
    (Concurrent.put same_bucket
        (record { key = a_key; value = codes "2" })
        (record table_one { mtx = taken same_bucket table_one.mtx both_keys.keys })
      ≡ blocked)
    × (Concurrent.append same_bucket
          (record { key = a_key; value = codes "2" })
          (record table_one { mtx = taken same_bucket table_one.mtx both_keys.keys })
        ≡ blocked)
    × (Concurrent.delete same_bucket
          (record { key = a_key })
          (record { value = [] })
          (record table_one { mtx = taken same_bucket table_one.mtx both_keys.keys })
        ≡ blocked)
writes_block_example =
    writes_block same_bucket one_entry table_one table_one-Shows both_keys.keys a_key (codes "2")
      (record { value = [] }) (inl refl)

multi_put_locked_example :
    Ends
      (Concurrent.multi_put same_bucket
        (record { keys = b_key ∷ b_key ∷ []; values = codes "2" ∷ codes "3" ∷ [] })
        table_one)
      true
      (Shows same_bucket
        (Spec.write_all (b_key ∷ b_key ∷ []) (codes "2" ∷ codes "3" ∷ []) one_entry))
multi_put_locked_example =
    multi_put_locked same_bucket one_entry table_one table_one-Shows
      (record { keys = b_key ∷ b_key ∷ []; values = codes "2" ∷ codes "3" ∷ [] }) refl
