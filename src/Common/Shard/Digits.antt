-- ===== src/Common/Shard/Digits.antt =====
-- The 36 characters of VALID_CHARS as digits: value to character and back, and their order.
use cs300_s23_projects_days.Prelude.{
  ℕ, zero, suc, ◌+◌, ◌<◌, ◌≡◌, refl, Bool, true, Option, none, some, get_elem?, ltb, ◌==◌,
  if◌then◌else◌, arith,
}
use cs300_s23_projects_days.Common.Utils.{toupper}
use cs300_s23_projects_days.Common.Shard.{valid_chars, find_char}

-- The character of a digit.
abbrev pub digit_char : ℕ → ℕ
digit_char i = if ltb i 10 then 48 + i else 55 + i

-- Whether a test passes on the digits below a bound.
passes : (ℕ → Bool) → ℕ → Bool
passes test zero = true
passes test (suc top) = let lower = passes test top in if test top then lower else Bool.false

passes_at : (test : ℕ → Bool) (bound i : ℕ) → i < bound → passes test bound ≡ true → test i ≡ true
unfolding passes
passes_at test zero i below ok = absurd (omega arith)
passes_at test (suc top) i below ok = ground (arith, passes_at test top i)

abbrev is_char : Option ℕ → ℕ → Bool
is_char none c = Bool.false
is_char (some x) c = x == c

is_char→eq : (o : Option ℕ) (c : ℕ) → is_char o c ≡ true → o ≡ some c
is_char→eq none c h = cc
is_char→eq (some x) c h = ground arith

get_table : passes (λ i. is_char (get_elem? valid_chars i) (digit_char i)) 36 ≡ true
unfolding passes
get_table = refl

pub get_digit : (i : ℕ) → i < 36 → get_elem? valid_chars i ≡ some (digit_char i)
get_digit i h = is_char→eq (get_elem? valid_chars i) (digit_char i) (passes_at _ 36 i h get_table)

find_table : passes (λ i. is_char (find_char (toupper (digit_char i))) i) 36 ≡ true
unfolding passes find_char toupper
find_table = refl

pub find_digit : (i : ℕ) → i < 36 → find_char (toupper (digit_char i)) ≡ some i
find_digit i h = is_char→eq _ i (passes_at _ 36 i h find_table)

pub digit_char-lt : (i j : ℕ) → i < j → ltb (digit_char i) (digit_char j) ≡ true
digit_char-lt i j h = ground arith
