-- ===== src/Tests/Sharded.antt =====
-- Tests of kvstore/client/shardkv_client.cpp.
use cs300_s23_projects_days.Prelude.{◌≡◌, refl, Bool, true, some, List, [], ◌∷◌, Str, codes}
use cs300_s23_projects_days.StdMap.{StdMap}
use cs300_s23_projects_days.Client.Sharded.{group_keys}
use cs300_s23_projects_days.Client.Sharded.Groups.{
  keys_at, keys_for, all_have_server, group_keys-keys_for,
}
use cs300_s23_projects_days.Tests.Common.{two_servers}

abbrev two_keys : List Str
two_keys = codes "user" ∷ codes "apple" ∷ []

group_keys-keys_for_example :
    (valid : Bool) × (server_keys : StdMap (List Str)) × (group_keys two_servers two_keys (true, [])
      ≡ some (valid, server_keys))
    × (valid ≡ all_have_server two_servers two_keys)
    × ((server : Str) → keys_at server server_keys ≡ keys_for two_servers server two_keys)
group_keys-keys_for_example =
    group_keys-keys_for two_servers ((refl, tt), ((refl, tt), tt)) two_keys
