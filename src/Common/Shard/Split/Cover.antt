-- ===== src/Common/Shard/Split/Cover.antt =====
-- Which keys the shards of split_into hold, kvstore/common/shard.cpp and shard.hpp (Shard::contains).
use cs300_s23_projects_days.Prelude.{
  ℕ, zero, suc, ◌-◌, ◌%◌, ◌≤◌, ◌<◌, ◌≡◌, refl, ap, true, false, some, List, [], ◌∷◌, length,
  replicate, length-replicate, take, Str, str_lt, ==_self, arith, All,
}
use cs300_s23_projects_days.Common.Utils.{to_upper}
use cs300_s23_projects_days.Common.Shard.{Shard, num_buckets, max_granularity, contains, is_valid}
use cs300_s23_projects_days.Common.Shard.Buckets.{word, length-word}
use cs300_s23_projects_days.Common.Shard.Keys.{prefix-word}
use cs300_s23_projects_days.Common.Shard.Split.{split_into}
use cs300_s23_projects_days.Common.Shard.Split.Tiles.{Tiles, Holds, Tiles-unique}
use cs300_s23_projects_days.Common.Shard.Split.Into.{IsLevel, split_into-Tiles}

-- For 1 to 36^4 shards: for every valid key that is not shorter than the granularity, the key in
-- upper case, which is the form that get_server looks up, lies in exactly one of the shards of
-- split_into. contains itself does not change the case, and nothing is said of a key with
-- lower-case letters as it stands.
pub split_into_unique :
    (n : ℕ)
    → 0 < n
    → n ≤ num_buckets max_granularity
    → (g : ℕ) × (shards : List Shard) × IsLevel n g
      × (split_into n ≡ some shards)
      × ((key : Str)
          → is_valid key ≡ true
          → g ≤ length key
          → (i : ℕ) × Holds shards i (to_upper key)
            × ((j : ℕ) → Holds shards j (to_upper key) → j ≡ i))
split_into_unique n h le =
    let (g, shards, v, e, _, t) = split_into-Tiles n h le in
    (
      g,
      shards,
      v,
      e,
      λ key valid long.
          let (k, lt, p) = prefix-word g key valid v.at_most long in
          Tiles-unique g 0 (num_buckets g) k shards (to_upper key) t p (omega arith) lt lt,
    )

-- The key of m zeros sorts below every bound that is longer.
zeros-lt : (m g n : ℕ) → m < g → str_lt (replicate m b'0') (word g n) ≡ true
unfolding str_lt word
zeros-lt zero zero n h = absurd (omega arith)
zeros-lt zero (suc g) n h = refl
zeros-lt (suc m) zero n h = absurd (omega arith)
zeros-lt (suc m) (suc g) n h = ground (arith, zeros-lt m g (n % num_buckets g))

take-short : (g : ℕ) (s : Str) → length s < g → take g s ≡ s
take-short zero s h = absurd (omega arith)
take-short (suc g) [] h = refl
take-short (suc g) (c ∷ cs) h = ap (λ l. c ∷ l) (take-short g cs (omega arith))

zeros-outside :
    (m g lo hi : ℕ) (shards : List Shard)
    → m < g
    → Tiles g lo hi shards
    → All (λ s. contains s (replicate m b'0') ≡ some false) shards
unfolding contains
zeros-outside m g lo hi [] h t = tt
zeros-outside m g lo hi (s ∷ rest) h (x, l, le, el, eu, t) = (
  rw (
    el,
    eu,
    length-word g lo,
    length-word g (x - 1),
    ==_self g,
    take-short g (replicate m b'0') (omega (arith, length-replicate {A = ℕ} m b'0')),
    zeros-lt m g lo h,
  ),
  zeros-outside m g x hi rest h t,
)

-- With more than 36 and at most 36^4 shards, none of the shards of split_into contains the valid
-- key "0", which is shorter than their bounds.
pub split_into-short_key :
    (n : ℕ)
    → 36 < n
    → n ≤ num_buckets max_granularity
    → (shards : List Shard) × (split_into n ≡ some shards)
      × All (λ s. contains s (b'0' ∷ []) ≡ some false) shards
split_into-short_key n h le =
    let (g, shards, v, e, _, t) = split_into-Tiles n (omega arith) le in
    (shards, e, zeros-outside 1 g 0 (num_buckets g) shards (deep g v) t)
  where
    deep : (g : ℕ) → IsLevel n g → 1 < g
    deep zero v = absurd (omega (arith, v.at_least))
    deep (suc zero) v = absurd (unfold num_buckets in omega (arith, v.enough))
    deep (suc (suc g)) v = omega arith
