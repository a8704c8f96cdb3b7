-- ===== src/Common/Shard/Split/Tiles.antt =====
-- Lists of shards that follow one another without gap or overlap.
use cs300_s23_projects_days.Prelude.{
  ℕ, ◌-◌, ◌≤◌, ◌<◌, ◌≡◌, refl, true, false, ◌&&◌, inl, inr, some, List, [], ◌∷◌, suc, zero, take,
  get_elem?, Str, str_lt, str_le, str_lt_irrefl, str_lt_asymm, leb, ltb, arith, ap, ap₂, ◌∙◌,
  ==_self, Bool-cases, ltb→lt,
}
use cs300_s23_projects_days.Common.Shard.{Shard, contains, num_buckets}
use cs300_s23_projects_days.Common.Shard.Buckets.{word, length-word, word-lt}

-- The shards cover the buckets lo, ..., hi - 1 at granularity g, in order.
abbrev pub Tiles : ℕ → ℕ → ℕ → List Shard → Type 0
Tiles g lo hi [] = lo ≡ hi
Tiles g lo hi (s ∷ rest) =
    (m : ℕ) × (lo < m)
    × (m ≤ num_buckets g)
    × (s.lower ≡ word g lo)
    × (s.upper ≡ word g (m - 1))
    × Tiles g m hi rest

-- operator<= on numerals of one length is the order of their numbers.
pub word-le :
    (g a b : ℕ) → a < num_buckets g → b < num_buckets g → str_le (word g a) (word g b) ≡ leb a b
word-le g a b ha hb = grind (
  arith,
  word-lt g a b,
  word-lt g b a,
  str_lt_irrefl (word g a),
  str_lt_asymm (word g a) (word g b),
)

pub word-ltb :
    (g a b : ℕ) → a < num_buckets g → b < num_buckets g → str_lt (word g a) (word g b) ≡ ltb a b
word-ltb g a b ha hb = ground (arith, word-le g b a hb ha)

-- A key with the prefix of bucket k is in the shard exactly if k is between the bounds.
contains-word :
    (g lo m k : ℕ) (s : Shard) (key : Str)
    → s.lower ≡ word g lo
    → s.upper ≡ word g (m - 1)
    → take g key ≡ word g k
    → lo < m
    → m ≤ num_buckets g
    → k < num_buckets g
    → contains s key ≡ some (leb lo k && ltb k m)
unfolding contains
contains-word g lo m k s key el eu ek h hm hk =
    rw (el, eu, length-word g lo, length-word g (m - 1), ==_self g, ek)
      (ap some (
        ap₂ ◌&&◌ (word-le g lo k (omega arith) hk) (word-le g k (m - 1) hk (omega arith))
        ∙ ground arith))

abbrev pub Holds : List Shard → ℕ → Str → Type 0
Holds shards i key = (s : Shard) × (get_elem? shards i ≡ some s) × (contains s key ≡ some true)

-- No shard of a list that begins at m holds a bucket below m.
Tiles-below :
    (g m hi k : ℕ) (shards : List Shard) (i : ℕ) (key : Str)
    → Tiles g m hi shards
    → take g key ≡ word g k
    → k < m
    → k < num_buckets g
    → ¬ Holds shards i key
Tiles-below g m hi k [] i key t e lt lk (s, p, q) = cc
Tiles-below g m hi k (x ∷ rest) zero key (m', l, le, el, eu, t) e lt lk (s, p, q) =
    ground (arith, contains-word g m m' k x key el eu e l le lk)
Tiles-below g m hi k (x ∷ rest) (suc i) key (m', l, le, el, eu, t) e lt lk (s, p, q) =
    Tiles-below g m' hi k rest i key t e (omega arith) lk (s, p, q)

-- Every bucket of the range is in one shard and no other.
pub Tiles-unique :
    (g lo hi k : ℕ) (shards : List Shard) (key : Str)
    → Tiles g lo hi shards
    → take g key ≡ word g k
    → lo ≤ k
    → k < hi
    → k < num_buckets g
    → (i : ℕ) × Holds shards i key × ((j : ℕ) → Holds shards j key → j ≡ i)
Tiles-unique g lo hi k [] key t e l h lk = absurd (omega arith)
Tiles-unique g lo hi k (x ∷ rest) key (m, lm, le, el, eu, t) e l h lk =
    elim (Bool-cases (ltb k m)) [
      | inl p ↦ (
        0,
        (x, refl, ground (arith, contains-word g lo m k x key el eu e lm le lk)),
        only_first p,
      )
      | inr p ↦
          let (i, held, only) = Tiles-unique g m hi k rest key t e (ground arith) h lk in
          (suc i, held, only_rest p i only)
    ]
  where
    only_first : ltb k m ≡ true → (j : ℕ) → Holds (x ∷ rest) j key → j ≡ 0
    only_first p zero held = refl
    only_first p (suc j) held = absurd (Tiles-below g m hi k rest j key t e (ltb→lt k m p) lk held)

    only_rest :
        ltb k m ≡ false
        → (i : ℕ) → ((j : ℕ) → Holds rest j key → j ≡ i)
        → (j : ℕ) → Holds (x ∷ rest) j key
        → j ≡ suc i
    only_rest p i only zero (s, q, r) =
        absurd (ground (arith, contains-word g lo m k x key el eu e lm le lk))
    only_rest p i only (suc j) held = ap suc (only j held)
