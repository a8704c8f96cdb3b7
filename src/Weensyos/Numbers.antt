-- ===== src/Weensyos/Numbers.antt =====
-- strtoul, strtol and fill_numbuf of weensyos/lib.cc. A pointer into a string is the list of the
-- bytes from it up to the NUL, which the end of the list stands for.
pub mod Value
pub mod Print
pub mod RoundTrip
use cs300_s23_projects_days.Prelude.{
  ℕ, zero, suc, ◌+◌, ◌-◌, ◌*◌, ◌/◌, ◌%◌, ◌^◌, Bool, true, false, not, ◌&&◌, ◌||◌, Option, none,
  some, [], ◌∷◌, Str, codes, ltb, leb, ◌==◌, if◌then◌else◌, word_mod,
}

-- *s
abbrev pub first : Str → ℕ
first [] = 0
first (c ∷ cs) = c

-- s + 1
abbrev pub after : Str → Str
after [] = []
after (c ∷ cs) = cs

abbrev pub isspace : ℕ → Bool
isspace c = leb b'\t' c && leb c b'\r' || c == b' '

unfoldable pub skip_spaces : Str → Str
skip_spaces [] = []
skip_spaces (c ∷ cs) = let rest = skip_spaces cs in if isspace c then rest else c ∷ cs

-- The value of a digit; none leaves the loop.
unfoldable pub digit : ℕ → ℕ → Option ℕ
digit base c =
    if leb b'0' c && ltb c (b'0' + base)
    then some (c - b'0')
    else if ltb 10 base && leb b'a' c && ltb c (b'a' + base - 10)
    then some (c - b'a' + 10)
    else if ltb 10 base && leb b'A' c && ltb c (b'A' + base - 10)
    then some (c - b'A' + 10)
    else none

-- x > (-1UL - d) / base
abbrev pub too_large : ℕ → ℕ → ℕ → Bool
too_large base x d = ltb ((word_mod - 1 - d) / base) x

-- The loop: x, overflow and s at its end.
unfoldable pub read_digits : ℕ → ℕ → Bool → Str → ℕ × Bool × Str
read_digits base x overflow [] = (x, overflow, [])
read_digits base x overflow (c ∷ cs) = elim (digit base c) [
  | none ↦ (x, overflow, c ∷ cs)
  | some d ↦
      read_digits base (if too_large base x d then x else (x * base + d) % word_mod)
        (if too_large base x d then true else overflow) cs
]

abbrev pub is_hex_prefix : Str → Bool
is_hex_prefix s = first s == b'0' && (first (after s) == b'x' || first (after s) == b'X')

-- The base that is read, and s behind its prefix.
abbrev pub base_of : ℕ → Str → ℕ × Str
base_of base s =
    if base == 0
    then (if is_hex_prefix s
        then (16, after (after s))
        else if first s == b'0'
        then (8, s)
        else (10, s))
    else if base == 16 && is_hex_prefix s
    then (base, after (after s))
    else (base, s)

abbrev pub negate : ℕ → ℕ
negate x = (word_mod - x) % word_mod

-- The value, and *endptr.
unfoldable pub strtoul : Str → ℕ → ℕ × Str
strtoul str base =
    let s = skip_spaces str in
    let negative = first s == b'-' in
    let s' = if negative || first s == b'+' then after s else s in
    let (b, digits) = base_of base s' in
    let (x, overflow, end) = read_digits b 0 false digits in
    let x' = if overflow then word_mod - 1 else x in (if negative then negate x' else x', end)

-- The value is the bit pattern of a long.
unfoldable pub strtol : Str → ℕ → ℕ × Str
strtol str base =
    let s = skip_spaces str in
    let negative = first s == b'-' in
    let (u, end) = strtoul (if negative then after s else s) base in
    let bound = 2 ^ 63 - (if negative then 0 else 1) in
    let u' = if ltb bound u then bound else u in (if negative then negate u' else u', end)

abbrev pub upper_digits : Str
upper_digits = codes "0123456789ABCDEF"

abbrev pub lower_digits : Str
lower_digits = codes "0123456789abcdef"

abbrev pub elem : Str → ℕ → ℕ
elem [] i = 0
elem (c ∷ cs) zero = c
elem (c ∷ cs) (suc i) = elem cs i

-- The loop, with the bytes from numbuf_end on; none if it does not end within its fuel.
unfoldable pub fill_digits : ℕ → Str → ℕ → ℕ → Str → Option Str
fill_digits zero table val base buf = none
fill_digits (suc fuel) table val base buf =
    let buf' = elem table (val % base) ∷ buf in
    let rest = fill_digits fuel table (val / base) base buf' in
    if val / base == 0 then some buf' else rest

-- A negative base is its amount with `lower`. Each round halves the value at least.
unfoldable pub fill_numbuf : ℕ → Bool → ℕ → Option Str
fill_numbuf val lower base =
    fill_digits 64 (if lower then lower_digits else upper_digits) val base []
