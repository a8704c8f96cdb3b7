-- ===== src/Store/Simple.antt =====
-- kvstore/kvstore/simple_kvstore.hpp and simple_kvstore.cpp: one map under one mutex.
pub mod Refine
use cs300_s23_projects_days.Prelude.{
  ℕ, Bool, true, false, List, [], ◌∷◌, ◌++◌, Str, ◌==◌, not, if◌then◌else◌, length,
}
use cs300_s23_projects_days.Run.{Run, done, blocked, undefined, Act, pure, modify, ◌>>=◌, ◌>>◌}
use cs300_s23_projects_days.StdMap
use cs300_s23_projects_days.StdMap.{StdMap}
use cs300_s23_projects_days.Net.Commands.{
  GetRequest, PutRequest, AppendRequest, DeleteRequest, MultiGetRequest, MultiPutRequest,
  GetResponse, DeleteResponse, MultiGetResponse,
}

pub record SimpleKvStore : Type 0 where
  pub key_value_map : StdMap Str
  pub mutex_1 : Bool

abbrev pub init : SimpleKvStore
init = record { key_value_map = []; mutex_1 = false }

-- mutex_1.lock() and mutex_1.unlock()
lock : Act SimpleKvStore (Unit {0})
lock s = if s.mutex_1 then blocked else done (tt, record s { mutex_1 = true })

unlock : Act SimpleKvStore (Unit {0})
unlock s = if s.mutex_1 then done (tt, record s { mutex_1 = false }) else undefined

-- KeyValueMap.count(key)
count : Str → Act SimpleKvStore ℕ
count key = modify λ s. (StdMap.count key s.key_value_map, s)

-- KeyValueMap[key], read
index : Str → Act SimpleKvStore Str
index key =
    modify
      λ s. let (v, m) = StdMap.index [] key s.key_value_map in (v, record s { key_value_map = m })

-- KeyValueMap[key] = value
assign : Str → Str → Act SimpleKvStore (Unit {0})
assign key value =
    modify λ s. (tt, record s { key_value_map = StdMap.put key value s.key_value_map })

-- KeyValueMap.insert
insert : Str → Str → Act SimpleKvStore (Unit {0})
insert key value =
    modify λ s. (tt, record s { key_value_map = StdMap.insert key value s.key_value_map })

-- KeyValueMap.erase
erase : Str → Act SimpleKvStore (Unit {0})
erase key = modify λ s. (tt, record s { key_value_map = StdMap.erase key s.key_value_map })

pub get : GetRequest → GetResponse → Act SimpleKvStore (Bool × GetResponse)
unfolding lock unlock count index
get req res = do
  lock
  n ← count req.key
  if n == 0
      then (do unlock; pure (false, res))
      else (do v ← index req.key; unlock; pure (true, record res { value = v }))

-- The map is written the same way by Put and, for each pair, by MultiPut.
write : Str → Str → Act SimpleKvStore (Unit {0})
unfolding count insert assign
write key value = do n ← count key; if n == 0 then insert key value else assign key value

pub put : PutRequest → Act SimpleKvStore Bool
unfolding lock unlock
put req = do lock; write req.key req.value; unlock; pure true

pub append : AppendRequest → Act SimpleKvStore Bool
unfolding lock unlock count insert index assign
append req = do
  lock
  n ← count req.key
  if n == 0
      then insert req.key req.value
      else (do old ← index req.key; assign req.key (old ++ req.value))
  unlock
  pure true

pub delete : DeleteRequest → DeleteResponse → Act SimpleKvStore (Bool × DeleteResponse)
unfolding lock unlock count index erase
delete req res = do
  lock
  n ← count req.key
  if n == 0
      then (do unlock; pure (false, res))
      else (do v ← index req.key; erase req.key; unlock; pure (true, record res { value = v }))

-- The loop of MultiGet: it goes on after a key that is missing.
collect : List Str → Bool → List Str → Act SimpleKvStore (Bool × List Str)
unfolding count index
collect [] if_get values = pure (if_get, values)
collect (key ∷ rest) if_get values = do
  n ← count key
  (if_get', values') ←
      if not (n == 0)
      then (do v ← index key; pure (if_get, values ++ v ∷ []))
      else pure (false, values)
  collect rest if_get' values'

-- The last test of MultiGet.
reply_all : Bool → List Str → Act SimpleKvStore (Bool × MultiGetResponse)
unfolding unlock
reply_all false values = do unlock; pure (false, record { values = values })
reply_all true values = do unlock; pure (true, record { values = values })

pub multi_get : MultiGetRequest → MultiGetResponse → Act SimpleKvStore (Bool × MultiGetResponse)
unfolding lock
multi_get req res = do
  lock
  (if_get, values) ← collect req.keys true res.values
  reply_all if_get values

-- The loop of MultiPut over two vectors of one length.
write_all : List Str → List Str → Act SimpleKvStore (Unit {0})
write_all [] values = pure tt
write_all (key ∷ keys) [] = λ s. undefined
write_all (key ∷ keys) (value ∷ values) = do write key value; write_all keys values

pub multi_put : MultiPutRequest → Act SimpleKvStore Bool
unfolding lock unlock
multi_put req = do
  lock
  if not (length req.keys == length req.values)
      then (do unlock; pure false)
      else (do write_all req.keys req.values; unlock; pure true)

pub all_keys : Act SimpleKvStore (List Str)
unfolding lock unlock
all_keys = do lock; ks ← modify (λ s. (StdMap.keys s.key_value_map, s)); unlock; pure ks
