-- ===== src/Client/Sharded.antt =====
-- kvstore/client/shardkv_client.cpp: ShardKvClient, which asks the shardmaster for the servers and
-- then uses a SimpleClient for each. A failed assertion of get_server is `undefined`.
pub mod Groups
use cs300_s23_projects_days.Prelude.{
  ℕ, Bool, true, false, not, Option, none, some, List, [], ◌∷◌, ◌++◌, Str, if◌then◌else◌,
}
use cs300_s23_projects_days.Run.{Run, undefined, Act, pure, ◌>>=◌}
use cs300_s23_projects_days.StdMap
use cs300_s23_projects_days.StdMap.{StdMap}
use cs300_s23_projects_days.Common.Shard.{Shard}
use cs300_s23_projects_days.Common.Config.{ShardmasterConfig, get_server}
use cs300_s23_projects_days.Net.Commands.{Request, Response}
use cs300_s23_projects_days.Net.Messages.{RequestCodecs, ResponseCodecs}
use cs300_s23_projects_days.Net.Connection.{Transport, send_request, recv_response}
use cs300_s23_projects_days.Client
use cs300_s23_projects_days.Client.{SimpleClient}

-- The connection to the shardmaster.
pub record ShardKvClient : Type 0 where
  pub shardmaster_conn : ℕ

-- server_keys[server].push_back(key);
pub push_back : Str → Str → StdMap (List Str) → StdMap (List Str)
push_back server key server_keys =
    let (keys, m) = StdMap.index [] server server_keys in StdMap.put server (keys ++ key ∷ []) m

-- The body of the for_each of MultiGet, for a key with its server.
pub add_key : Option Str → Str → Bool × StdMap (List Str) → Bool × StdMap (List Str)
add_key none key (valid, server_keys) = (false, server_keys)
add_key (some server) key (valid, server_keys) = (valid, push_back server key server_keys)

pub group_keys :
    ShardmasterConfig → List Str → Bool × StdMap (List Str) → Option (Bool × StdMap (List Str))
group_keys config [] groups = some groups
group_keys config (key ∷ keys) groups = elim (get_server config key) [
  | none ↦ none
  | some server ↦ group_keys config keys (add_key server key groups)
]

-- The loop of MultiPut over the keys, with `push_back` on both vectors of the server; none if there
-- are fewer values than keys.
abbrev pub Pairs : Type 0
Pairs = StdMap (List Str × List Str)

pub push_pair : Str → Str → Str → Pairs → Pairs
push_pair server key value server_pairs =
    let (lists, m) = StdMap.index ([], []) server server_pairs in
    StdMap.put server (lists.0 ++ key ∷ [], lists.1 ++ value ∷ []) m

pub add_pair : Option Str → Str → Str → Bool × Pairs → Bool × Pairs
add_pair none key value (valid, server_pairs) = (false, server_pairs)
add_pair (some server) key value (valid, server_pairs) =
    (valid, push_pair server key value server_pairs)

pub group_pairs : ShardmasterConfig → List Str → List Str → Bool × Pairs → Option (Bool × Pairs)
group_pairs config [] values groups = some groups
group_pairs config (key ∷ keys) [] groups = none
group_pairs config (key ∷ keys) (value ∷ values) groups = elim (get_server config key) [
  | none ↦ none
  | some server ↦ group_pairs config keys values (add_pair server key value groups)
]

-- key_values[responsible_keys[i]] = (*values)[i]; none if there are fewer values than keys.
pub store_values : List Str → List Str → StdMap Str → Option (StdMap Str)
store_values [] values key_values = some key_values
store_values (key ∷ keys) [] key_values = none
store_values (key ∷ keys) (value ∷ values) key_values =
    store_values keys values (StdMap.put key value key_values)

-- values.push_back(key_values[key]);
pub read_values : List Str → StdMap Str → List Str
read_values [] key_values = []
read_values (key ∷ keys) key_values =
    let (value, m) = StdMap.index [] key key_values in value ∷ read_values keys m

pub or_undefined : {N A : Type 0} → Option A → Act N A
or_undefined none = λ s. undefined
or_undefined (some a) = pure a

-- What Query, Join, Leave and Move look for in a response.
pub query_config : Option Response → Option ShardmasterConfig
query_config (some (Response.query res)) = some res.config
query_config other = none

pub join_done : Option Response → Bool
join_done (some Response.join) = true
join_done other = false

pub leave_done : Option Response → Bool
leave_done (some Response.leave) = true
leave_done other = false

pub move_done : Option Response → Bool
move_done (some Response.move) = true
move_done other = false

module _ {N : Type 0} (connect_to_server : Str → Act N (Option ℕ)) (net : Transport N)
    (requests : RequestCodecs) (responses : ResponseCodecs) where
  pub ask : ShardKvClient → Request → Act N (Option Response)
  ask client req = do
    sent ← send_request net requests client.shardmaster_conn req
    if sent then recv_response net responses client.shardmaster_conn else pure none

  pub query : ShardKvClient → Act N (Option ShardmasterConfig)
  query client = do res ← ask client Request.query; pure (query_config res)

  pub join : ShardKvClient → Str → Act N Bool
  join client server = do
    res ← ask client (Request.join (record { server = server }))
    pure (join_done res)

  pub leave : ShardKvClient → Str → Act N Bool
  leave client server = do
    res ← ask client (Request.leave (record { server = server }))
    pure (leave_done res)

  pub move : ShardKvClient → Str → List Shard → Act N Bool
  move client server shards = do
    res ← ask client (Request.move (record { server = server; shards = shards }))
    pure (move_done res)

  -- The lines that Get, Put, Append and Delete have in common: the server of the key, if any.
  pub server_in : Option ShardmasterConfig → Str → Act N (Option Str)
  server_in none key = pure none
  server_in (some config) key = or_undefined (get_server config key)

  pub server_for : ShardKvClient → Str → Act N (Option Str)
  server_for client key = do config ← query client; server_in config key

  -- The rest of a method: `failed` without a server, else the method of a SimpleClient.
  pub at_server : {A : Type 0} → A → (SimpleClient → Act N A) → Option Str → Act N A
  at_server failed method none = pure failed
  at_server failed method (some server) = method (record { server_addr = server })

  pub get : ShardKvClient → Str → Act N (Option Str)
  get client key = do
    server ← server_for client key
    at_server none (λ c. Client.get connect_to_server net requests responses c key) server

  pub put : ShardKvClient → Str → Str → Act N Bool
  put client key value = do
    server ← server_for client key
    at_server false (λ c. Client.put connect_to_server net requests responses c key value) server

  pub append : ShardKvClient → Str → Str → Act N Bool
  append client key value = do
    server ← server_for client key
    at_server false (λ c. Client.append connect_to_server net requests responses c key value) server

  pub delete : ShardKvClient → Str → Act N (Option Str)
  delete client key = do
    server ← server_for client key
    at_server none (λ c. Client.delete connect_to_server net requests responses c key) server

  -- The loop over server_keys: none if a server fails.
  pub fetch_all : List (Str × List Str) → StdMap Str → Act N (Option (StdMap Str))
  fetch_all [] key_values = pure (some key_values)
  fetch_all ((server, keys) ∷ rest) key_values = do
    values ←
        Client.multi_get connect_to_server net requests responses (record { server_addr = server })
          keys
    elim values [
      | none ↦ pure none
      | some vs ↦ (do
        stored ← or_undefined (store_values keys vs key_values)
        fetch_all rest stored)
    ]

  -- The rest of MultiGet after the keys are grouped.
  pub fetch_groups : List Str → Bool × StdMap (List Str) → Act N (Option (List Str))
  fetch_groups keys (false, server_keys) = pure none
  fetch_groups keys (true, server_keys) = do
    fetched ← fetch_all server_keys []
    pure (elim fetched [ none ↦ none | some key_values ↦ some (read_values keys key_values) ])

  pub multi_get_with : Option ShardmasterConfig → List Str → Act N (Option (List Str))
  multi_get_with none keys = pure none
  multi_get_with (some config) keys = do
    groups ← or_undefined (group_keys config keys (true, []))
    fetch_groups keys groups

  pub multi_get : ShardKvClient → List Str → Act N (Option (List Str))
  multi_get client keys = do config ← query client; multi_get_with config keys

  -- The loop over server_pairs: it stops at a server that fails.
  pub put_all : Pairs → Act N Bool
  put_all [] = pure true
  put_all ((server, lists) ∷ rest) = do
    res ←
        Client.multi_put connect_to_server net requests responses (record { server_addr = server })
          lists.0 lists.1
    if res then put_all rest else pure false

  pub put_groups : Bool × Pairs → Act N Bool
  put_groups (false, server_pairs) = pure false
  put_groups (true, server_pairs) = put_all server_pairs

  pub multi_put_with : Option ShardmasterConfig → List Str → List Str → Act N Bool
  multi_put_with none keys values = pure false
  multi_put_with (some config) keys values = do
    groups ← or_undefined (group_pairs config keys values (true, []))
    put_groups groups

  pub multi_put : ShardKvClient → List Str → List Str → Act N Bool
  multi_put client keys values = do config ← query client; multi_put_with config keys values
