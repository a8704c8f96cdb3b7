-- ===== src/Common/Shard/Split/Into.antt =====
-- The shards that split_into of kvstore/common/shard.cpp returns.
use native.Mathlib.Nat.{div-add-mod', mod-lt, le-div_iff_mul-le}
use native.Mathlib.Decide.{ℕ_discrete}
use cs300_s23_projects_days.Prelude.{
  ℕ, zero, suc, ◌+◌, ◌-◌, ◌*◌, ◌/◌, ◌%◌, ◌≤◌, ◌<◌, ◌≡◌, refl, ap, ◌∙◌, some, List, [], ◌∷◌, length,
  replicate, length-replicate, inl, inr, Bool-cases, All, Str, leb, arith, false, lt→ltb, word_mod,
  subst, add64-eq, sub64-eq, add64, sub64,
}
use cs300_s23_projects_days.Common.Shard.{Shard, num_buckets, max_granularity, bucket_to_str}
use cs300_s23_projects_days.Common.Shard.Buckets.{word, bucket_to_str-word}
use cs300_s23_projects_days.Common.Shard.Split.{level_from, bump_first, shards_from, split_into}
use cs300_s23_projects_days.Common.Shard.Split.Tiles.{Tiles}

abbrev pub sum : List ℕ → ℕ
sum [] = 0
sum (x ∷ xs) = x + sum xs

pub num_buckets-le : (g : ℕ) → g ≤ 4 → num_buckets g ≤ 1679616
unfolding num_buckets
num_buckets-le zero h = omega arith
num_buckets-le (suc zero) h = omega arith
num_buckets-le (suc (suc zero)) h = omega arith
num_buckets-le (suc (suc (suc zero))) h = omega arith
num_buckets-le (suc (suc (suc (suc zero)))) h = omega arith
num_buckets-le (suc (suc (suc (suc (suc g))))) h = absurd (omega arith)

shards_from-cons :
    (g lo x : ℕ) (xs : List ℕ) (a b : Str) (shards : List Shard)
    → 0 < x
    → lo + x < word_mod
    → bucket_to_str lo g ≡ some a
    → bucket_to_str (lo + x - 1) g ≡ some b
    → shards_from g xs (lo + x) ≡ some shards
    → shards_from g (x ∷ xs) lo ≡ some (record { lower = a; upper = b } ∷ shards)
shards_from-cons g lo x xs a b shards h small p q r =
    let ea : add64 lo x ≡ lo + x = add64-eq lo x small in
    let es : sub64 (lo + x) 1 ≡ lo + x - 1 = sub64-eq (lo + x) 1 (omega arith) small in
    unfold shards_from in rw (ea, es, p, q, r)

-- The loop over positive sizes that end within the bucket space.
shards_from-Tiles :
    (g lo : ℕ) (sizes : List ℕ)
    → g ≤ 4
    → All (λ x. 0 < x) sizes
    → lo + sum sizes ≤ num_buckets g
    → (shards : List Shard) × (shards_from g sizes lo ≡ some shards)
      × (length shards ≡ length sizes)
      × Tiles g lo (lo + sum sizes) shards
shards_from-Tiles g lo [] hg pos le = ([], unfold shards_from in refl, refl, omega arith)
shards_from-Tiles g lo (x ∷ xs) hg pos le =
    let (shards, p, q, t) = shards_from-Tiles g (lo + x) xs hg pos.1 (omega arith) in
    (
      record { lower = word g lo; upper = word g (lo + x - 1) } ∷ shards,
      shards_from-cons g lo x xs (word g lo) (word g (lo + x - 1)) shards pos.0
          (omega (arith, num_buckets-le g hg)) (bucket_to_str-word lo g hg (omega (arith, pos.0)))
          (bucket_to_str-word (lo + x - 1) g hg (omega (arith, pos.0))) p,
      ap suc q,
      (
        lo + x,
        omega (arith, pos.0),
        omega arith,
        refl,
        refl,
        subst (λ e. Tiles g (lo + x) e shards) (omega arith) t,
      ),
    )

sum-replicate : (n x : ℕ) → sum (replicate n x) ≡ n * x
sum-replicate zero x = omega arith
sum-replicate (suc n) x = omega (arith, sum-replicate n x)

sum-bump_first : (r : ℕ) (xs : List ℕ) → r ≤ length xs → sum (bump_first r xs) ≡ sum xs + r
unfolding bump_first
sum-bump_first zero xs h = omega arith
sum-bump_first (suc r) [] h = absurd (omega arith)
sum-bump_first (suc r) (x ∷ xs) h = omega (arith, sum-bump_first r xs)

length-bump_first : (r : ℕ) (xs : List ℕ) → length (bump_first r xs) ≡ length xs
unfolding bump_first
length-bump_first zero xs = refl
length-bump_first (suc r) [] = refl
length-bump_first (suc r) (x ∷ xs) = ap suc (length-bump_first r xs)

-- Each size is x or x + 1.
abbrev pub IsEven : ℕ → List ℕ → Type 0
IsEven x = All (λ y. (x ≤ y) × (y ≤ x + 1))

IsEven-replicate : (n x : ℕ) → IsEven x (replicate n x)
IsEven-replicate zero x = tt
IsEven-replicate (suc n) x = ((omega arith, omega arith), IsEven-replicate n x)

IsEven-bump_first : (r n x : ℕ) → IsEven x (bump_first r (replicate n x))
unfolding bump_first
IsEven-bump_first zero n x = IsEven-replicate n x
IsEven-bump_first (suc r) zero x = tt
IsEven-bump_first (suc r) (suc n) x = ((omega arith, omega arith), IsEven-bump_first r n x)

IsEven-pos : (x : ℕ) (ys : List ℕ) → 0 < x → IsEven x ys → All (λ y. 0 < y) ys
IsEven-pos x [] h v = tt
IsEven-pos x (y ∷ ys) h v = (omega arith, IsEven-pos x ys h v.1)

-- The sizes that split_into computes: they add up to the bucket space, and differ by one at most.
abbrev sizes : ℕ → ℕ → List ℕ
sizes n_shards n_buckets =
    bump_first (n_buckets % n_shards) (replicate n_shards (n_buckets / n_shards))

module _ (n_shards n_buckets : ℕ) (some_shard : 0 < n_shards) where
  length-sizes : length (sizes n_shards n_buckets) ≡ n_shards
  length-sizes =
      length-bump_first (n_buckets % n_shards) _ ∙ length-replicate n_shards (n_buckets / n_shards)

  sum-sizes : sum (sizes n_shards n_buckets) ≡ n_buckets
  sum-sizes = omega (
    arith,
    sum-bump_first (n_buckets % n_shards) (replicate n_shards (n_buckets / n_shards)) (
        omega
          (arith, length-replicate n_shards (n_buckets / n_shards), mod-lt n_buckets some_shard)),
    sum-replicate n_shards (n_buckets / n_shards),
    div-add-mod' n_buckets n_shards,
  )

  sizes-pos : n_shards ≤ n_buckets → All (λ x. 0 < x) (sizes n_shards n_buckets)
  sizes-pos h =
      IsEven-pos (n_buckets / n_shards) (sizes n_shards n_buckets)
        ((le-div_iff_mul-le some_shard).1 (omega arith))
        (IsEven-bump_first (n_buckets % n_shards) n_shards (n_buckets / n_shards))

-- The granularity that split_into chooses: the least with a bucket for each shard.
pub record IsLevel (n g : ℕ) : Type 0 where
  pub at_least : 1 ≤ g
  pub at_most : g ≤ max_granularity
  pub enough : n ≤ num_buckets g
  pub least : (h : ℕ) → 1 ≤ h → h < g → num_buckets h < n

level_from-IsLevel :
    (rounds i n : ℕ)
    → 1 ≤ i
    → i + rounds ≡ 5
    → n ≤ num_buckets 4
    → ((h : ℕ) → 1 ≤ h → h < i → num_buckets h < n)
    → (g : ℕ) × IsLevel n g × (level_from rounds i n ≡ (num_buckets g, g))
unfolding level_from
level_from-IsLevel zero i n hi e le low = absurd (omega (arith, low 4 (omega arith) (omega arith)))
level_from-IsLevel (suc rounds) i n hi e le low = elim (Bool-cases (leb n (num_buckets i))) [
  | inl p ↦
      (i, record { at_least = hi; at_most = omega arith; enough = ground arith; least = low }, rw p)
  | inr p ↦
      let (g, v, q) =
        level_from-IsLevel rounds (i + 1) n (omega arith) (omega arith) le
          (λ h h1 hl. below_next p h h1 hl) in
      (g, v, rw p q)
]
  where
    below_next : leb n (num_buckets i) ≡ false → (h : ℕ) → 1 ≤ h → h < i + 1 → num_buckets h < n
    below_next p h h1 hl = elim (ℕ_discrete h i) [
      | yes same ↦ rw same (ground arith)
      | no other ↦ low h h1 (omega arith)
    ]

split_into-sizes :
    (n g : ℕ)
    → 0 < n
    → level_from max_granularity 1 n ≡ (num_buckets g, g)
    → split_into n ≡ shards_from g (sizes n (num_buckets g)) 0
unfolding split_into
split_into-sizes n g h e = rw (lt→ltb 0 n h, e)

-- For 1 to 36^4 shards split_into succeeds. It returns as many shards as asked for, at the least
-- granularity with enough buckets, and they cover all buckets of that granularity in order
-- without a gap or an overlap.
pub split_into-Tiles :
    (n : ℕ)
    → 0 < n
    → n ≤ num_buckets max_granularity
    → (g : ℕ) × (shards : List Shard) × IsLevel n g
      × (split_into n ≡ some shards)
      × (length shards ≡ n)
      × Tiles g 0 (num_buckets g) shards
split_into-Tiles n h le =
    let (g, v, e) =
      level_from-IsLevel 4 1 n (omega arith) (omega arith) le (λ k k1 kl. absurd (omega arith)) in
    let (shards, p, q, t) =
      shards_from-Tiles g 0 (sizes n (num_buckets g)) v.at_most
        (sizes-pos n (num_buckets g) h v.enough) (omega (arith, sum-sizes n (num_buckets g) h)) in
    (
      g,
      shards,
      v,
      split_into-sizes n g h e ∙ p,
      q ∙ length-sizes n (num_buckets g) h,
      subst (λ x. Tiles g 0 x shards) (omega (arith, sum-sizes n (num_buckets g) h)) t,
    )
