-- ===== src/Common/Shard/Buckets.antt =====
-- Bucket numbers and their strings, kvstore/common/shard.cpp: bucket_to_str and str_to_bucket.
use native.Mathlib.Nat.{mod-lt, div-lt_iff_lt-mul, div-add-mod'}
use cs300_s23_projects_days.Prelude.{
  ℕ, zero, suc, ◌+◌, ◌/◌, ◌%◌, ◌≤◌, ◌<◌, ◌≡◌, refl, ap, ◌∙◌, true, Option, some, [], ◌∷◌, length,
  get_elem?, Str, str_lt, ltb, ◌>>=◌, arith, ◌⊎◌, inl, inr,
}
use cs300_s23_projects_days.Common.Shard.{
  num_buckets, granularity_opts, indices, chars_at, bucket_to_str, str_to_bucket_loop,
  str_to_bucket, valid_chars,
}
use cs300_s23_projects_days.Common.Shard.Digits.{digit_char, get_digit, find_digit, digit_char-lt}

-- The base-36 numeral of n with k digits.
unfoldable pub word : ℕ → ℕ → Str
word zero n = []
word (suc k) n = digit_char (n / num_buckets k) ∷ word k (n % num_buckets k)

pub num_buckets-pos : (k : ℕ) → 0 < num_buckets k
unfolding num_buckets
num_buckets-pos zero = omega arith
num_buckets-pos (suc k) = omega (arith, num_buckets-pos k)

pub top_digit-lt : (k n : ℕ) → n < num_buckets (suc k) → n / num_buckets k < 36
unfolding num_buckets
top_digit-lt k n h = (div-lt_iff_lt-mul (num_buckets-pos k)).1 (omega arith)

pub low_digits-lt : (k n : ℕ) → n % num_buckets k < num_buckets k
low_digits-lt k n = mod-lt n (num_buckets-pos k)

pub length-word : (k n : ℕ) → length (word k n) ≡ k
unfolding word
length-word zero n = refl
length-word (suc k) n = ap suc (length-word k (n % num_buckets k))

pub opts-some : (k : ℕ) → k ≤ 4 → granularity_opts k ≡ some (num_buckets k)
unfolding granularity_opts
opts-some k h = ground arith

-- The two loops of bucket_to_str together.
spell : ℕ → ℕ → Option Str
spell k n = do is ← indices k n; chars_at is

spell-suc :
    (k n d : ℕ) (s : Str)
    → granularity_opts k ≡ some (num_buckets k)
    → get_elem? (valid_chars) (n / num_buckets k) ≡ some d
    → spell k (n % num_buckets k) ≡ some s
    → spell (suc k) n ≡ some (d ∷ s)
unfolding spell indices chars_at
spell-suc k n d s p q r = ground arith

spell-word : (k n : ℕ) → k ≤ 5 → n < num_buckets k → spell k n ≡ some (word k n)
unfolding word
spell-word zero n h lt = unfold spell indices chars_at in refl
spell-word (suc k) n h lt =
    spell-suc k n _ _ (opts-some k (omega arith)) (get_digit _ (top_digit-lt k n lt))
      (spell-word k (n % num_buckets k) (omega arith) (low_digits-lt k n))

-- bucket_to_str writes the bucket in base 36, with one digit for each level.
pub bucket_to_str-word : (n g : ℕ) → g ≤ 4 → n < num_buckets g → bucket_to_str n g ≡ some (word g n)
unfolding bucket_to_str
bucket_to_str-word n g h lt = unfold spell in ground (arith, spell-word g n (omega arith) lt)

loop-word :
    (k n acc : ℕ) → k ≤ 5 → n < num_buckets k → str_to_bucket_loop (word k n) acc ≡ some (acc + n)
unfolding word str_to_bucket_loop
loop-word zero n acc h lt = unfold num_buckets in ground arith
loop-word (suc k) n acc h lt =
    rw (find_digit _ (top_digit-lt k n lt), length-word, opts-some k (omega arith))
      (loop-word k (n % num_buckets k) _ (omega arith) (low_digits-lt k n)
        ∙ ap some (omega (arith, div-add-mod' n (num_buckets k))))

-- Of two numbers the larger has the larger quotient, or the same quotient and a larger remainder.
lt-div-mod : (n a b : ℕ) → 0 < n → a < b → (a / n < b / n) ⊎ ((a / n ≡ b / n) × (a % n < b % n))
lt-div-mod n a b h lt = grind (arith, div-add-mod' a n, div-add-mod' b n, mod-lt a h, mod-lt b h)

str_lt-head : (x y : ℕ) (xs ys : Str) → ltb x y ≡ true → str_lt (x ∷ xs) (y ∷ ys) ≡ true
unfolding str_lt
str_lt-head x y xs ys h = ground arith

str_lt-tail : (x : ℕ) (xs ys : Str) → str_lt xs ys ≡ true → str_lt (x ∷ xs) (x ∷ ys) ≡ true
unfolding str_lt
str_lt-tail x xs ys h = ground arith

-- Numerals of one length are ordered as strings the way their numbers are.
pub word-lt : (k a b : ℕ) → a < b → b < num_buckets k → str_lt (word k a) (word k b) ≡ true
unfolding word
word-lt zero a b h lt = unfold num_buckets in absurd (omega arith)
word-lt (suc k) a b h lt = elim (lt-div-mod (num_buckets k) a b (num_buckets-pos k) h) [
  | inl p ↦ str_lt-head _ _ _ _ (digit_char-lt (a / num_buckets k) (b / num_buckets k) p)
  | inr p ↦ rw (p.0) (
      str_lt-tail _ _ _ (word-lt k (a % num_buckets k) (b % num_buckets k) p.1 (low_digits-lt k b)))
]

pub str_to_bucket-word : (g n : ℕ) → g ≤ 4 → n < num_buckets g → str_to_bucket (word g n) ≡ some n
unfolding str_to_bucket
str_to_bucket-word g n h lt = loop-word g n 0 (omega arith) lt ∙ ap some (omega arith)

-- For a granularity of at most four, bucket_to_str writes each of its buckets with as many
-- characters, and str_to_bucket reads the bucket back.
pub str_to_bucket-bucket_to_str :
    (n g : ℕ)
    → g ≤ 4
    → n < num_buckets g
    → (s : Str) × (bucket_to_str n g ≡ some s) × (length s ≡ g) × (str_to_bucket s ≡ some n)
str_to_bucket-bucket_to_str n g h lt =
    (word g n, bucket_to_str-word n g h lt, length-word g n, str_to_bucket-word g n h lt)
