-- ===== src/Store/Concurrent.antt =====
-- kvstore/kvstore/concurrent_kvstore.hpp and concurrent_kvstore.cpp: a table of 60 buckets, each
-- under its own shared mutex. The hash of a string (std::hash) is a parameter.
pub mod Items
pub mod Locks
pub mod Refine
pub mod Multi
pub mod Leak
use cs300_s23_projects_days.Prelude.{
  ℕ, zero, suc, ◌+◌, ◌%◌, Bool, true, false, not, Option, none, some, List, [], ◌∷◌, ◌++◌, map, Str,
  str_eq, ltb, leb, ◌==◌, if◌then◌else◌, length, update,
}
use cs300_s23_projects_days.Run.{Run, done, blocked, undefined, Act, pure, modify, ◌>>=◌, ◌>>◌}
use cs300_s23_projects_days.Net.Commands.{
  GetRequest, PutRequest, AppendRequest, DeleteRequest, MultiGetRequest, MultiPutRequest,
  GetResponse, DeleteResponse, MultiGetResponse,
}

abbrev pub bucket_count : ℕ
bucket_count = 60

pub record DbItem : Type 0 where
  pub key : Str
  pub value : Str

-- std::shared_mutex: `shared n` is held by n + 1 readers.
pub data Lock : Type 0 where
  free : Lock
  shared : ℕ → Lock
  exclusive : Lock

pub record DbMap : Type 0 where
  pub buckets : ℕ → List DbItem
  pub mtx : ℕ → Lock

abbrev pub init : DbMap
init = record { buckets = λ b. []; mtx = λ b. free }

pub lock_shared : ℕ → Act DbMap (Unit {0})
lock_shared b s = elim (s.mtx b) [
  | free ↦ done (tt, record s { mtx = update s.mtx b (shared 0) })
  | shared n ↦ done (tt, record s { mtx = update s.mtx b (shared (n + 1)) })
  | exclusive ↦ blocked
]

pub unlock_shared : ℕ → Act DbMap (Unit {0})
unlock_shared b s = elim (s.mtx b) [
  | free ↦ undefined
  | shared n ↦
      done (tt, record s { mtx = update s.mtx b (elim n [ zero ↦ free | suc r ↦ shared r ]) })
  | exclusive ↦ undefined
]

pub lock : ℕ → Act DbMap (Unit {0})
lock b s = elim (s.mtx b) [
  | free ↦ done (tt, record s { mtx = update s.mtx b exclusive })
  | shared n ↦ blocked
  | exclusive ↦ blocked
]

pub unlock : ℕ → Act DbMap (Unit {0})
unlock b s = elim (s.mtx b) [
  | free ↦ undefined
  | shared n ↦ undefined
  | exclusive ↦ done (tt, record s { mtx = update s.mtx b free })
]

-- The loops of DbMap over the items of one bucket.
unfoldable pub find_item : Str → List DbItem → Option DbItem
find_item key [] = none
find_item key (item ∷ rest) = if str_eq item.key key then some item else find_item key rest

pub insert_in : Str → Str → List DbItem → List DbItem
insert_in key value [] = record { key = key; value = value } ∷ []
insert_in key value (item ∷ rest) =
    if str_eq item.key key
    then record item { value = value } ∷ rest
    else item ∷ insert_in key value rest

pub remove_from : Str → List DbItem → List DbItem
remove_from key [] = []
remove_from key (item ∷ rest) =
    let others = remove_from key rest in if str_eq item.key key then others else item ∷ others

-- DbMap::getIfExists, insertItem and removeItem; a failed assertion is `undefined`.
pub get_if_exists : ℕ → Str → Act DbMap (Option DbItem)
get_if_exists b key s =
    if ltb b bucket_count then done (find_item key (s.buckets b), s) else undefined

pub insert_item : ℕ → Str → Str → Act DbMap (Unit {0})
insert_item b key value s =
    if ltb b bucket_count
    then done (tt, record s { buckets = update s.buckets b (insert_in key value (s.buckets b)) })
    else undefined

-- The result says whether the bucket got shorter.
pub remove_item : ℕ → Str → Act DbMap Bool
remove_item b key s =
    let kept = remove_from key (s.buckets b) in
    if ltb b bucket_count
    then done
        (ltb (length kept) (length (s.buckets b)), record s { buckets = update s.buckets b kept })
    else undefined

-- std::sort on bucket numbers, and std::unique, which drops an entry equal to the one before it.
pub insert_sorted : ℕ → List ℕ → List ℕ
insert_sorted x [] = x ∷ []
insert_sorted x (y ∷ ys) = if leb x y then x ∷ y ∷ ys else y ∷ insert_sorted x ys

pub sort : List ℕ → List ℕ
sort [] = []
sort (x ∷ xs) = insert_sorted x (sort xs)

pub unique_after : ℕ → List ℕ → List ℕ
unique_after x [] = []
unique_after x (y ∷ ys) = let rest = unique_after y ys in if x == y then rest else y ∷ rest

pub unique : List ℕ → List ℕ
unique [] = []
unique (x ∷ xs) = x ∷ unique_after x xs

-- for (i = 0; i < bucket_nums.size(); i++) op(bucket_nums[i]);
pub for_each : (ℕ → Act DbMap (Unit {0})) → List ℕ → Act DbMap (Unit {0})
for_each op [] = pure tt
for_each op (b ∷ bs) = do op b; for_each op bs

module _ (hash : Str → ℕ) where
  pub bucket : Str → ℕ
  bucket key = hash key % bucket_count

  -- std::shared_lock and std::unique_lock release their mutex where the method returns.
  pub get : GetRequest → GetResponse → Act DbMap (Bool × GetResponse)
  get req res = do
    lock_shared (bucket req.key)
    if_get ← get_if_exists (bucket req.key) req.key
    unlock_shared (bucket req.key)
    pure (elim if_get [ none ↦ (false, res) | some item ↦ (true, record { value = item.value }) ])

  pub put : PutRequest → Act DbMap Bool
  put req = do
    lock (bucket req.key)
    insert_item (bucket req.key) req.key req.value
    unlock (bucket req.key)
    pure true

  pub append : AppendRequest → Act DbMap Bool
  append req = do
    lock (bucket req.key)
    if_get ← get_if_exists (bucket req.key) req.key
    insert_item (bucket req.key) req.key
        (elim if_get [ none ↦ req.value | some item ↦ item.value ++ req.value ])
    unlock (bucket req.key)
    pure true

  -- A removal with no item found before it would read an empty optional.
  pub delete_result : Bool → Option DbItem → DeleteResponse → Act DbMap (Bool × DeleteResponse)
  delete_result false if_get res = pure (false, res)
  delete_result true none res = λ s. undefined
  delete_result true (some item) res = pure (true, record { value = item.value })

  pub delete : DeleteRequest → DeleteResponse → Act DbMap (Bool × DeleteResponse)
  delete req res = do
    lock (bucket req.key)
    if_get ← get_if_exists (bucket req.key) req.key
    removed ← remove_item (bucket req.key) req.key
    result ← delete_result removed if_get res
    unlock (bucket req.key)
    pure result

  pub bucket_nums : List Str → List ℕ
  bucket_nums keys = unique (sort (map bucket keys))

  -- The loop of MultiGet over the keys, with the values pushed so far; it stops at a missing key.
  pub collect : List Str → List Str → Act DbMap (Bool × List Str)
  collect [] values = pure (true, values)
  collect (key ∷ rest) values = do
    opt ← get_if_exists (bucket key) key
    elim opt [ none ↦ pure (false, values) | some item ↦ collect rest (values ++ item.value ∷ []) ]

  -- `return false` leaves before the loop that unlocks.
  pub after_collect : List ℕ → Bool → List Str → Act DbMap (Bool × MultiGetResponse)
  after_collect nums false values = pure (false, record { values = values })
  after_collect nums true values = do
    for_each unlock_shared nums
    pure (true, record { values = values })

  pub multi_get : MultiGetRequest → MultiGetResponse → Act DbMap (Bool × MultiGetResponse)
  multi_get req res = do
    for_each lock_shared (bucket_nums req.keys)
    (found, values) ← collect req.keys res.values
    after_collect (bucket_nums req.keys) found values

  -- The loop of MultiPut; it also looks the key up, and does not use what it finds.
  pub insert_all : List Str → List Str → Act DbMap (Unit {0})
  insert_all [] values = pure tt
  insert_all (key ∷ keys) [] = λ s. undefined
  insert_all (key ∷ keys) (value ∷ values) = do
    opt ← get_if_exists (bucket key) key
    insert_item (bucket key) key value
    insert_all keys values

  pub multi_put : MultiPutRequest → Act DbMap Bool
  multi_put req = if not (length req.keys == length req.values) then pure false else do
    for_each lock (bucket_nums req.keys)
    insert_all req.keys req.values
    for_each unlock (bucket_nums req.keys)
    pure true

  -- The loop of AllKeys, with `rounds` buckets left from i on.
  pub keys_from : ℕ → ℕ → List Str → Act DbMap (List Str)
  keys_from zero i found = pure found
  keys_from (suc rounds) i found = do
    lock_shared i
    here ← modify (λ s. (map (λ (item : DbItem). item.key) (s.buckets i), s))
    unlock_shared i
    keys_from rounds (i + 1) (found ++ here)

  pub all_keys : Act DbMap (List Str)
  all_keys = keys_from bucket_count 0 []
