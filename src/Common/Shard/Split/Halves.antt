-- ===== src/Common/Shard/Split/Halves.antt =====
-- The functions named split_shard of kvstore/common/shard.cpp on well-formed shards.
use cs300_s23_projects_days.Prelude.{
  ℕ, ◌+◌, ◌-◌, ◌/◌, ◌≤◌, ◌<◌, ◌≡◌, refl, ap, ◌∙◌, Bool, true, false, not, some, [], ◌∷◌, Str,
  str_lt→ne, ==_self, arith, add64, sub64, add64-eq, sub64-eq, take, le→ltb, str_between,
}
use cs300_s23_projects_days.Common.Shard.{Shard, num_buckets, granularity, contains}
use cs300_s23_projects_days.Common.Shard.Buckets.{
  word, length-word, word-lt, bucket_to_str-word, str_to_bucket-word,
}
use cs300_s23_projects_days.Common.Shard.Split.{cut, split_shard, split_shard_at, to_size}
use cs300_s23_projects_days.Common.Shard.Split.Tiles.{Tiles, word-ltb}
use cs300_s23_projects_days.Common.Shard.Split.Into.{num_buckets-le}

-- The shard of the buckets lo, ..., hi.
abbrev pub span : ℕ → ℕ → ℕ → Shard
span g lo hi = record { lower = word g lo; upper = word g hi }

cut-span :
    (g lo hi x y : ℕ)
    → g ≤ 4
    → x < num_buckets g
    → y < num_buckets g
    → cut (span g lo hi) x y ≡ some (span g lo x, span g y hi)
unfolding cut granularity
cut-span g lo hi x y h hx hy = rw (
  length-word g lo,
  length-word g hi,
  ==_self g,
  bucket_to_str-word x g h hx,
  bucket_to_str-word y g h hy,
)

pair-Tiles :
    (g lo x y hi : ℕ)
    → lo ≤ x
    → x + 1 ≡ y
    → y ≤ hi
    → hi < num_buckets g
    → Tiles g lo (hi + 1) (span g lo x ∷ span g y hi ∷ [])
pair-Tiles g lo x y hi h e k le = (
  y,
  omega arith,
  omega arith,
  refl,
  ap (word g) (omega arith),
  (hi + 1, omega arith, omega arith, refl, ap (word g) (omega arith), refl),
)

module _ (g lo hi : ℕ) (shallow : g ≤ 4) (wide : lo < hi) (inside : hi < num_buckets g) where
  small : hi < 1679616
  small = omega (arith, num_buckets-le g shallow)

  -- A shard of at least two buckets, of at most four characters and not up to the last bucket,
  -- splits in the middle: the two shards cover its range in order, and the first is at most one
  -- bucket larger.
  pub split_shard-Tiles :
      split_shard (span g lo hi)
        ≡ some (span g lo (lo + (hi - lo) / 2), span g (lo + (hi - lo) / 2 + 1) hi)
      × Tiles g lo
          (hi + 1)
          (span g lo (lo + (hi - lo) / 2) ∷ span g (lo + (hi - lo) / 2 + 1) hi ∷ [])
  unfolding split_shard
  split_shard-Tiles =
      let e : sub64 hi lo ≡ hi - lo = sub64-eq hi lo (omega arith) (omega (arith, small)) in
      let f : add64 lo ((hi - lo) / 2) ≡ lo + (hi - lo) / 2 =
        add64-eq lo ((hi - lo) / 2) (omega (arith, small)) in
      let k : add64 (lo + (hi - lo) / 2) 1 ≡ lo + (hi - lo) / 2 + 1 =
        add64-eq (lo + (hi - lo) / 2) 1 (omega (arith, small)) in
      (
        rw
            (
              str_lt→ne (word g lo) (word g hi) (word-lt g lo hi wide inside),
              str_to_bucket-word g lo shallow (omega arith),
              str_to_bucket-word g hi shallow inside,
              e,
              f,
              k,
            )
            (cut-span g lo hi _ _ shallow (omega arith) (omega arith)),
        pair-Tiles g lo _ _ hi (omega arith) refl (omega arith) inside,
      )

  -- With a location inside the shard the assertions hold.
  split_shard_at-cut :
      (k : ℕ) (first : Bool)
      → lo ≤ k
      → k ≤ hi
      → split_shard_at (span g lo hi) (word g k) first
        ≡ cut (span g lo hi) (sub64 k (to_size (not first))) (add64 k (to_size first))
  unfolding split_shard_at
  split_shard_at-cut k first h le = rw (
    str_lt→ne (word g lo) (word g hi) (word-lt g lo hi wide inside),
    word-ltb g k lo (omega arith) (omega arith),
    word-ltb g hi k inside (omega arith),
    le→ltb k lo (omega arith),
    le→ltb hi k (omega arith),
    str_to_bucket-word g k shallow (omega arith),
  )

  -- Such a shard splits at a location that leaves neither part empty: the two shards cover its
  -- range in order, and the location goes to the first, or to the second if that is asked for.
  pub split_shard_at-Tiles :
      (k : ℕ) (first : Bool)
      → lo + to_size (not first) ≤ k
      → k + to_size first ≤ hi
      → split_shard_at (span g lo hi) (word g k) first
          ≡ some (span g lo (k - to_size (not first)), span g (k + to_size first) hi)
        × Tiles g lo
            (hi + 1)
            (span g lo (k - to_size (not first)) ∷ span g (k + to_size first) hi ∷ [])
  split_shard_at-Tiles k first h le =
      let e : sub64 k (to_size (not first)) ≡ k - to_size (not first) =
        sub64-eq k (to_size (not first)) (omega arith) (omega (arith, small)) in
      let f : add64 k (to_size first) ≡ k + to_size first =
        add64-eq k (to_size first) (omega (arith, small)) in
      (
        split_shard_at-cut k first (omega arith) (omega arith)
            ∙ rw (e, f) (cut-span g lo hi _ _ shallow (omega arith) (omega arith)),
        pair-Tiles g lo _ _ hi (omega arith) (next first h) le inside,
      )
    where
      next : (b : Bool) → lo + to_size (not b) ≤ k → k - to_size (not b) + 1 ≡ k + to_size b
      next true p = omega arith
      next false p = omega arith

  -- For such a shard the upper bound as location, to go to the first part, passes the assertions
  -- too. The first part is then the whole shard, the second has its bounds in the wrong order,
  -- and contains no key.
  pub split_shard_at-upper :
      hi + 1 < num_buckets g
      → split_shard_at (span g lo hi) (word g hi) true ≡ some (span g lo hi, span g (hi + 1) hi)
        × ((key : Str) → contains (span g (hi + 1) hi) key ≡ some false)
  split_shard_at-upper room =
      let f : add64 hi 1 ≡ hi + 1 = add64-eq hi 1 (omega (arith, small)) in
      let e : sub64 hi 0 ≡ hi = omega (arith, sub64-eq hi 0 (omega arith) (omega (arith, small))) in
      (
        split_shard_at-cut hi true (omega arith) (omega arith)
            ∙ rw (e, f) (cut-span g lo hi _ _ shallow (omega arith) (omega arith)),
        λ key.
            unfold contains in
            rw (length-word g (hi + 1), length-word g hi, ==_self g)
              (ap some (
                str_between (take g key) (word g hi) (word g (hi + 1))
                  (word-lt g hi (hi + 1) (omega arith) room))),
      )
