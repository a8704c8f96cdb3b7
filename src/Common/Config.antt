-- ===== src/Common/Config.antt =====
-- kvstore/common/config.hpp and config.cpp: which server is responsible for a key, and printing.
pub mod Responsible
use cs300_s23_projects_days.Prelude.{
  Bool, true, false, Option, none, some, List, [], ◌∷◌, ◌++◌, Str, codes, if◌then◌else◌, ◌>>=◌, not,
}
use cs300_s23_projects_days.Common.Utils.{to_upper}
use cs300_s23_projects_days.Common.Shard.{Shard, contains, shard_eq}

pub record ServerConfig : Type 0 where
  pub server : Str
  pub shards : List Shard

pub record ShardmasterConfig : Type 0 where
  pub servers : List ServerConfig

-- The lambda of std::find_if: some shard contains the key. `none` is a failed assertion.
any_contains : List Shard → Str → Option Bool
any_contains [] key = some false
any_contains (s ∷ rest) key = do
  found ← contains s key
  let others = any_contains rest key
  if found then some true else others

-- std::find_if over the servers; the inner option is empty where no server is responsible.
find_server : List ServerConfig → Str → Option (Option Str)
unfolding any_contains
find_server [] key = some none
find_server (sc ∷ rest) key = do
  found ← any_contains sc.shards key
  let others = find_server rest key
  if found then some (some sc.server) else others

unfoldable pub get_server : ShardmasterConfig → Str → Option (Option Str)
unfolding find_server
get_server config key = find_server config.servers (to_upper key)

-- operator<< on a shard.
show_shard : Shard → Str
show_shard s = codes "[" ++ s.lower ++ codes ", " ++ s.upper ++ codes "]"

-- The loop over the shards of a server: a comma after each that differs from the last.
show_shards : List Shard → Shard → Str
unfolding show_shard shard_eq
show_shards [] back = []
show_shards (s ∷ rest) back =
    show_shard s ++ (if not (shard_eq s back) then codes ", " else []) ++ show_shards rest back

last_or : Shard → List Shard → Shard
last_or d [] = d
last_or d (s ∷ rest) = last_or s rest

show_servers : List ServerConfig → Str
unfolding show_shards last_or
show_servers [] = []
show_servers (sc ∷ rest) =
    codes "- "
    ++ sc.server
    ++ codes ": "
    ++ show_shards sc.shards (last_or (record { lower = []; upper = [] }) sc.shards)
    ++ 10 ∷ show_servers rest

-- ShardmasterConfig::print
unfoldable pub print : ShardmasterConfig → Str
unfolding show_servers
print config = codes "Shardmaster configuration: " ++ 10 ∷ show_servers config.servers
