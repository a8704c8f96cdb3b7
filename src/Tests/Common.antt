-- ===== src/Tests/Common.antt =====
-- Tests of kvstore/common.
use cs300_s23_projects_days.Prelude.{
  ℕ, ◌≤◌, ◌≡◌, refl, true, false, Option, some, List, [], ◌∷◌, ◌++◌, Str, codes, length, All, arith,
  map, str_eq, str_lt,
}
use cs300_s23_projects_days.Common.Utils.{split, is_number, to_upper, toupper}
use cs300_s23_projects_days.Common.Shard.{
  Shard, num_buckets, granularity_opts, contains, is_valid, find_char, bucket_to_str, str_to_bucket,
  granularity, shard_eq,
}
use cs300_s23_projects_days.Common.Shard.Buckets.{str_to_bucket-bucket_to_str}
use cs300_s23_projects_days.Common.Shard.Split.{split_into}
use cs300_s23_projects_days.Common.Shard.Split.Tiles.{Holds}
use cs300_s23_projects_days.Common.Shard.Split.Into.{IsLevel}
use cs300_s23_projects_days.Common.Shard.Split.Cover.{split_into_unique, split_into-short_key}
use cs300_s23_projects_days.Common.Shard.Split.Halves.{span}
use cs300_s23_projects_days.Common.Shard.Overlap.{
  OverlapStatus, get_overlap, Means, get_overlap-Means,
}
use cs300_s23_projects_days.Common.Config.{ShardmasterConfig, get_server, print}
use cs300_s23_projects_days.Common.Config.Responsible.{Answer, get_server-Answer}

split_run : split (codes "  get a  b ") b' ' ≡ codes "get" ∷ codes "a" ∷ codes "b" ∷ []
unfolding split
split_run = refl

is_number_run : is_number (codes "8080") ≡ true
unfolding is_number
is_number_run = refl

bucket_to_str_run : bucket_to_str 1337 3 ≡ some (codes "115")
unfolding bucket_to_str granularity_opts num_buckets
bucket_to_str_run = refl

str_to_bucket_run : str_to_bucket (codes "300") ≡ some 3888
unfolding str_to_bucket granularity_opts num_buckets find_char toupper
str_to_bucket_run = refl

abbrev shard_of : Str → Str → Shard
shard_of l u = record { lower = l; upper = u }

split_into_run :
    split_into 3
    ≡ some (
        shard_of (codes "0") (codes "B")
        ∷ shard_of (codes "C") (codes "N")
        ∷ shard_of (codes "O") (codes "Z")
        ∷ [])
unfolding split_into granularity_opts
split_into_run = refl

abbrev user_key : Str
user_key = codes "user"

-- contains does not convert the key: only "USER" lies in one of the three shards.
lower_case :
    map
      (λ s. contains s user_key)
      (shard_of (codes "0") (codes "B")
        ∷ shard_of (codes "C") (codes "N")
        ∷ shard_of (codes "O") (codes "Z")
        ∷ [])
    ≡ some false ∷ some false ∷ some false ∷ []
unfolding contains str_lt
lower_case = refl

upper_case : contains (shard_of (codes "O") (codes "Z")) (to_upper user_key) ≡ some true
unfolding contains str_lt to_upper toupper
upper_case = refl

str_to_bucket-bucket_to_str_example :
    (s : Str) × (bucket_to_str 1337 3 ≡ some s) × (length s ≡ 3) × (str_to_bucket s ≡ some 1337)
unfolding num_buckets
str_to_bucket-bucket_to_str_example = str_to_bucket-bucket_to_str 1337 3 (omega arith) (omega arith)

valid_run : is_valid (codes "a1Z") ≡ true
unfolding is_valid find_char toupper
valid_run = refl

split_into_unique_example :
    (g : ℕ) × (shards : List Shard) × IsLevel 3 g
    × (split_into 3 ≡ some shards)
    × ((key : Str)
        → is_valid key ≡ true
        → g ≤ length key
        → (i : ℕ) × Holds shards i (to_upper key)
          × ((j : ℕ) → Holds shards j (to_upper key) → j ≡ i))
unfolding num_buckets
split_into_unique_example = split_into_unique 3 (omega arith) (omega arith)

split_into-short_key_example :
    (shards : List Shard) × (split_into 37 ≡ some shards)
    × All (λ s. contains s (b'0' ∷ []) ≡ some false) shards
unfolding num_buckets
split_into-short_key_example = split_into-short_key 37 (omega arith) (omega arith)

get_overlap-Means_example :
    (o : OverlapStatus) × (get_overlap (span 1 0 9) (span 1 5 20) ≡ some o) × Means o 0 9 5 20
unfolding num_buckets
get_overlap-Means_example =
    get_overlap-Means 1 0 9 5 20 (omega arith) (omega arith) (omega arith) (omega arith)

abbrev pub two_servers : ShardmasterConfig
two_servers = record {
  servers =
      record { server = codes "a:1"; shards = shard_of (codes "0") (codes "M") ∷ [] }
      ∷ record { server = codes "b:2"; shards = shard_of (codes "N") (codes "Z") ∷ [] }
      ∷ [];
}

get_server_run : get_server two_servers (codes "user") ≡ some (some (codes "b:2"))
unfolding get_server to_upper contains granularity str_lt
get_server_run = refl

get_server-Answer_example :
    (r : Option Str) × (get_server two_servers (codes "user") ≡ some r)
    × Answer two_servers.servers (to_upper (codes "user")) r
get_server-Answer_example =
    get_server-Answer two_servers (codes "user") ((refl, tt), ((refl, tt), tt))

print_run :
    print two_servers
    ≡ codes "Shardmaster configuration: "
      ++ 10 ∷ codes "- a:1: [0, M]"
      ++ 10 ∷ codes "- b:2: [N, Z]"
      ++ 10 ∷ []
unfolding print shard_eq str_eq
print_run = refl
