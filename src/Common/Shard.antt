-- ===== src/Common/Shard.antt =====
-- kvstore/common/shard.hpp and shard.cpp: key ranges over base-36 bucket numbers. `none` stands for
-- a failed `assert` or undefined behaviour (an index out of bounds). Sizes are 64-bit words.
pub mod Digits
pub mod Buckets
pub mod Keys
pub mod Split
pub mod Overlap
use cs300_s23_projects_days.Prelude.{
  ℕ, zero, suc, ◌+◌, ◌-◌, ◌*◌, ◌/◌, ◌%◌, ◌^◌, Bool, true, false, not, ◌&&◌, ◌||◌, Option, none,
  some, List, [], ◌∷◌, map, length, replicate, take, get_elem?, Str, codes, str_eq, str_lt, str_le,
  ltb, leb, ◌==◌, if◌then◌else◌, ◌>>=◌, require,
}
use cs300_s23_projects_days.Common.Utils.{toupper}

abbrev pub max_granularity : ℕ
max_granularity = 4

abbrev pub valid_chars : Str
valid_chars = codes "0123456789ABCDEFGHIJKLMNOPQRSTUVWXYZ"

-- num_buckets *= VALID_CHARS.size(), once per level.
unfoldable pub num_buckets : ℕ → ℕ
num_buckets zero = 1
num_buckets (suc g) = num_buckets g * 36

-- GRANULARITY_OPTS[i]; an index above MAX_GRANULARITY is out of bounds.
unfoldable pub granularity_opts : ℕ → Option ℕ
granularity_opts i = require (leb i max_granularity) (some (num_buckets i))

pub record Shard : Type 0 where
  pub lower : Str
  pub upper : Str

-- Shard::granularity, with its assertion.
unfoldable pub granularity : Shard → Option ℕ
granularity s = require (length s.lower == length s.upper) (some (length s.lower))

-- s.compare(0, n, bound) compares the first n bytes of s.
unfoldable pub contains : Shard → Str → Option Bool
unfolding granularity
contains sh s = do
  g ← granularity sh
  some (str_le sh.lower (take g s) && str_le (take g s) sh.upper)

-- operator== and operator< on shards.
unfoldable pub shard_eq : Shard → Shard → Bool
shard_eq a b = str_eq a.lower b.lower && str_eq a.upper b.upper

pub shard_lt : Shard → Shard → Bool
shard_lt a b = str_lt a.lower b.lower

-- std::find: the position of the first match.
find_from : ℕ → ℕ → List ℕ → Option ℕ
find_from i c [] = none
find_from i c (x ∷ xs) = if x == c then some i else find_from (i + 1) c xs

unfoldable pub find_char : ℕ → Option ℕ
unfolding find_from
find_char c = find_from 0 c valid_chars

is_some {ℓ} : {A : Type ℓ} → Option A → Bool
is_some none = false
is_some (some a) = true

unfoldable pub is_valid : Str → Bool
unfolding is_some
is_valid [] = true
is_valid (c ∷ cs) = is_some (find_char (toupper c)) && is_valid cs

-- The first loop of bucket_to_str, with k = granularity - i rounds left.
indices : ℕ → ℕ → Option (List ℕ)
unfolding granularity_opts
indices zero n_left = some []
indices (suc k) n_left = do
  opt ← granularity_opts k
  rest ← indices k (n_left % opt)
  some (n_left / opt ∷ rest)

-- The second loop: res[i] = VALID_CHARS[indices[i]].
chars_at : List ℕ → Option Str
chars_at [] = some []
chars_at (i ∷ is) = do c ← get_elem? valid_chars i; rest ← chars_at is; some (c ∷ rest)

-- `indices` is an array of MAX_GRANULARITY entries.
unfoldable pub bucket_to_str : ℕ → ℕ → Option Str
unfolding indices chars_at
bucket_to_str bucket granularity =
    require (leb granularity max_granularity) do is ← indices granularity bucket; chars_at is

str_to_bucket_loop : Str → ℕ → Option ℕ
unfolding granularity_opts find_char toupper
str_to_bucket_loop [] bucket = some bucket
str_to_bucket_loop (c ∷ cs) bucket = do
  idx ← find_char (toupper c)
  opt ← granularity_opts (length cs)
  str_to_bucket_loop cs (bucket + idx * opt)

unfoldable pub str_to_bucket : Str → Option ℕ
unfolding str_to_bucket_loop
str_to_bucket s = str_to_bucket_loop s 0
