-- ===== src/Common/Shard/Keys.antt =====
-- Strings over VALID_CHARS as buckets: what is_valid and str_to_bucket of kvstore/common/shard.cpp
-- accept.
use native.Mathlib.Nat.{
  mul-add-div_right, mul-add-mod_self_right, div-eq_of_lt, mod-eq_of_lt, add-zero,
}
use cs300_s23_projects_days.Prelude.{
  ℕ, zero, suc, ◌+◌, ◌*◌, ◌≤◌, ◌<◌, ◌≡◌, refl, ap, ap₂, sym, ◌∙◌, true, some, List, [], ◌∷◌, length,
  get_elem?, Str, ◌==◌, arith, Option-cases, inl, inr, Bool-cases, take, take-map, length-take_le,
  subst,
}
use cs300_s23_projects_days.Common.Utils.{toupper, to_upper}
use cs300_s23_projects_days.Common.Shard.{
  num_buckets, find_from, find_char, valid_chars, is_valid, bucket_to_str, str_to_bucket_loop,
  str_to_bucket,
}
use cs300_s23_projects_days.Common.Shard.Digits.{digit_char, get_digit}
use cs300_s23_projects_days.Common.Shard.Buckets.{
  word, num_buckets-pos, bucket_to_str-word, opts-some,
}

find_from-get :
    (k c j : ℕ) (xs : List ℕ)
    → find_from k c xs ≡ some j
    → (d : ℕ) × (j ≡ k + d) × (get_elem? xs d ≡ some c)
unfolding find_from
find_from-get k c j [] h = absurd (cc)
find_from-get k c j (x ∷ xs) h = elim (Bool-cases (x == c)) [
  | inl e ↦ (0, ground arith, ground arith)
  | inr e ↦ let (d, p, q) = find_from-get (k + 1) c j xs (ground arith) in (suc d, omega arith, q)
]

get-lt : (xs : List ℕ) (d c : ℕ) → get_elem? xs d ≡ some c → d < length xs
get-lt [] d c h = absurd (cc)
get-lt (x ∷ xs) zero c h = omega arith
get-lt (x ∷ xs) (suc d) c h = omega (arith, get-lt xs d c h)

-- The position that std::find returns is the digit of the character.
find_char-digit : (c i : ℕ) → find_char c ≡ some i → (i < 36) × (digit_char i ≡ c)
unfolding find_char
find_char-digit c i h =
    let (d, p, q) = find_from-get 0 c i valid_chars h in
    let lt : d < 36 = get-lt valid_chars d c q in
    let e : some (digit_char d) ≡ some c = sym (get_digit d lt) ∙ q in (omega arith, ground arith)

word-cons :
    (k i n : ℕ) → n < num_buckets k → word (suc k) (i * num_buckets k + n) ≡ digit_char i ∷ word k n
unfolding word
word-cons k i n h = rw (
  mul-add-div_right (num_buckets-pos k) i n,
  mul-add-mod_self_right i (num_buckets k) n,
  div-eq_of_lt h,
  mod-eq_of_lt h,
  add-zero i,
)

-- A string over VALID_CHARS with its bucket number.
record IsBucket (s : Str) (b : ℕ) : Type 0 where
  below : b < num_buckets (length s)
  spelled : word (length s) b ≡ to_upper s
  read : (acc : ℕ) → str_to_bucket_loop s acc ≡ some (acc + b)

is_valid-cons :
    (c : ℕ) (cs : Str)
    → is_valid (c ∷ cs) ≡ true
    → (i : ℕ) × (find_char (toupper c) ≡ some i) × (is_valid cs ≡ true)
unfolding is_valid
is_valid-cons c cs h = elim (Option-cases (find_char (toupper c))) [
  | inl e ↦ absurd (ground arith)
  | inr (i, e) ↦ (i, e, ground arith)
]

is_valid-take : (n : ℕ) (s : Str) → is_valid s ≡ true → is_valid (take n s) ≡ true
unfolding is_valid
is_valid-take zero s h = refl
is_valid-take (suc n) [] h = refl
is_valid-take (suc n) (c ∷ cs) h =
    let (i, e, h') = is_valid-cons c cs h in rw (e, is_valid-take n cs h')

IsBucket-cons :
    (c i b : ℕ) (cs : Str)
    → length cs ≤ 4
    → find_char (toupper c) ≡ some i
    → IsBucket cs b
    → IsBucket (c ∷ cs) (i * num_buckets (length cs) + b)
unfolding to_upper str_to_bucket_loop num_buckets
IsBucket-cons c i b cs h e v =
    let (lt, d) = find_char-digit (toupper c) i e in
    record {
      below = grind arith;
      spelled = word-cons (length cs) i b v.below ∙ ap₂ (λ x y. x ∷ y) d v.spelled;
      read = λ acc. rw (e, opts-some (length cs) h) (v.read _ ∙ ap some (omega arith));
    }

is_valid-IsBucket : (s : Str) → is_valid s ≡ true → length s ≤ 5 → (b : ℕ) × IsBucket s b
is_valid-IsBucket [] h le = (
  0,
  record {
    below = num_buckets-pos 0;
    spelled = unfold word to_upper in refl;
    read = λ acc. unfold str_to_bucket_loop in ap some (omega arith);
  },
)
is_valid-IsBucket (c ∷ cs) h le =
    let (i, e, h') = is_valid-cons c cs h in
    let (b, v) = is_valid-IsBucket cs h' (omega arith) in
    (i * num_buckets (length cs) + b, IsBucket-cons c i b cs (omega arith) e v)

-- A valid string of at most four characters, in either case, is a bucket of its length: reading
-- it succeeds, and writing the bucket gives the string in upper case.
pub bucket_to_str-str_to_bucket :
    (s : Str)
    → is_valid s ≡ true
    → length s ≤ 4
    → (b : ℕ) × (str_to_bucket s ≡ some b)
      × (b < num_buckets (length s))
      × (bucket_to_str b (length s) ≡ some (to_upper s))
unfolding str_to_bucket
bucket_to_str-str_to_bucket s h le =
    let (b, v) = is_valid-IsBucket s h (omega arith) in
    (
      b,
      v.read 0 ∙ ap some (omega arith),
      v.below,
      bucket_to_str-word b (length s) le v.below ∙ ap some v.spelled,
    )

-- The prefix of a valid key is a bucket.
pub prefix-word :
    (g : ℕ) (s : Str)
    → is_valid s ≡ true
    → g ≤ 4
    → g ≤ length s
    → (k : ℕ) × (k < num_buckets g) × (take g (to_upper s) ≡ word g k)
prefix-word g s h hg le =
    let e : length (take g s) ≡ g = length-take_le g s le in
    let (k, v) = is_valid-IsBucket (take g s) (is_valid-take g s h) (omega (arith, e)) in
    (
      k,
      subst (λ x. k < num_buckets x) e v.below,
      unfold to_upper in (take-map g s toupper ∙ sym v.spelled ∙ ap (λ x. word x k) e),
    )
