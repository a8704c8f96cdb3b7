-- ===== src/Common/Shard/Split.antt =====
-- kvstore/common/shard.cpp: split_into and the three functions named split_shard.
pub mod Tiles
pub mod Into
pub mod Halves
pub mod Cover
use cs300_s23_projects_days.Prelude.{
  ℕ, zero, suc, ◌+◌, ◌/◌, ◌%◌, Bool, true, false, not, ◌&&◌, Option, none, some, List, [], ◌∷◌,
  replicate, Str, str_eq, str_le, ltb, leb, if◌then◌else◌, ◌>>=◌, require, add64, sub64,
}
use cs300_s23_projects_days.Common.Shard.{
  Shard, granularity, num_buckets, max_granularity, bucket_to_str, str_to_bucket,
}

-- The loop over the levels i, i + 1, ..., with `rounds` levels left: the first that has a bucket for
-- each shard, as (n_buckets, granularity); (0, 0) if there is none.
level_from : ℕ → ℕ → ℕ → ℕ × ℕ
level_from zero i n_shards = (0, 0)
level_from (suc rounds) i n_shards =
    let rest = level_from rounds (i + 1) n_shards in
    if leb n_shards (num_buckets i) then (num_buckets i, i) else rest

-- for (i = 0; i < remainder; i++) shard_sizes[i] += 1;
bump_first : ℕ → List ℕ → List ℕ
bump_first zero sizes = sizes
bump_first (suc r) [] = []
bump_first (suc r) (x ∷ xs) = (x + 1) ∷ bump_first r xs

-- The loop that writes the bounds of each shard.
shards_from : ℕ → List ℕ → ℕ → Option (List Shard)
unfolding add64 sub64
shards_from granularity [] lower = some []
shards_from granularity (size ∷ sizes) lower = do
  lower_bucket ← bucket_to_str lower granularity
  upper_bucket ← bucket_to_str (sub64 (add64 lower size) 1) granularity
  rest ← shards_from granularity sizes (add64 lower size)
  some (record { lower = lower_bucket; upper = upper_bucket } ∷ rest)

unfoldable pub split_into : ℕ → Option (List Shard)
unfolding level_from bump_first shards_from bucket_to_str num_buckets
split_into n_shards = require (ltb 0 n_shards) (
    let (n_buckets, granularity) = level_from max_granularity 1 n_shards in
    let sizes = bump_first (n_buckets % n_shards) (replicate n_shards (n_buckets / n_shards)) in
    shards_from granularity sizes 0)

-- The two shards that end and begin at the given buckets.
cut : Shard → ℕ → ℕ → Option (Shard × Shard)
cut shard first_end second_start = do
  g ← granularity shard
  lower_upper ← bucket_to_str first_end g
  upper_lower ← bucket_to_str second_start g
  some (
    record { lower = shard.lower; upper = lower_upper },
    record { lower = upper_lower; upper = shard.upper },
  )

-- split_shard(shard): at the midpoint.
pub split_shard : Shard → Option (Shard × Shard)
unfolding cut
split_shard shard = require (not (str_eq shard.lower shard.upper)) do
  lower ← str_to_bucket shard.lower
  upper ← str_to_bucket shard.upper
  let midpoint = add64 lower (sub64 upper lower / 2)
  cut shard midpoint (add64 midpoint 1)

-- split_shard(shard, uint64_t at)
pub split_shard_at_bucket : Shard → ℕ → Option (Shard × Shard)
unfolding cut
split_shard_at_bucket shard at = do
  lower ← str_to_bucket shard.lower
  upper ← str_to_bucket shard.upper
  require (ltb lower upper) (cut shard at (add64 at 1))

-- pos - !first and pos + first
abbrev to_size : Bool → ℕ
to_size true = 1
to_size false = 0

-- split_shard(shard, const std::string& at, bool first)
pub split_shard_at : Shard → Str → Bool → Option (Shard × Shard)
unfolding cut
split_shard_at shard at first = require (not (str_eq shard.lower shard.upper)) (
    require (str_le shard.lower at && str_le at shard.upper) (do
      pos ← str_to_bucket at
      cut shard (sub64 pos (to_size (not first))) (add64 pos (to_size first))))
