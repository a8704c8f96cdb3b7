-- ===== src/Weensyos/Printer/Convert.antt =====
-- printer::vprintf of weensyos/lib.cc: one directive, from behind its % to what it prints.
use cs300_s23_projects_days.Prelude.{
  ℕ, ◌+◌, ◌-◌, ◌*◌, ◌%◌, ◌^◌, Bool, true, false, not, ◌&&◌, ◌||◌, Option, none, some, List, [], ◌∷◌,
  ◌++◌, Str, codes, ltb, leb, ◌==◌, if◌then◌else◌, ◌>>=◌, require, length, take, replicate,
  word_mod,
}
use cs300_s23_projects_days.Weensyos.Numbers.{first, after, negate, fill_numbuf}

-- A number as it is passed, of which 64 bits are read, or the string that a char* points to.
pub data Arg : Type 0 where
  number : ℕ → Arg
  text : Str → Arg

pub record Flags : Type 0 where
  pub alt : Bool
  pub zeros : Bool
  pub leftjustify : Bool
  pub spacepositive : Bool
  pub pluspositive : Bool
  pub numeric : Bool
  pub signed : Bool
  pub negative : Bool
  pub alt2 : Bool

abbrev pub no_flags : Flags
no_flags = record {
  alt = false;
  zeros = false;
  leftjustify = false;
  spacepositive = false;
  pluspositive = false;
  numeric = false;
  signed = false;
  negative = false;
  alt2 = false;
}

-- flags |= 1 << (flagc - flag_chars); none where strchr finds nothing.
unfoldable pub set_flag : ℕ → Flags → Option Flags
set_flag c flags =
    if c == b'#'
    then some (record flags { alt = true })
    else if c == b'0'
    then some (record flags { zeros = true })
    else if c == b'-'
    then some (record flags { leftjustify = true })
    else if c == b' '
    then some (record flags { spacepositive = true })
    else if c == b'+'
    then some (record flags { pluspositive = true })
    else none

unfoldable pub process_flags : Flags → Str → Flags × Str
process_flags flags [] = (flags, [])
process_flags flags (c ∷ format) = elim (set_flag c flags) [
  | none ↦ (flags, c ∷ format)
  | some flags' ↦ process_flags flags' format
]

abbrev pub is_digit : ℕ → Bool
is_digit c = leb b'0' c && leb c b'9'

unfoldable pub decimal : ℕ → Str → ℕ × Str
decimal n [] = (n, [])
decimal n (c ∷ format) =
    let rest = decimal (10 * n + c - b'0') format in if is_digit c then rest else (n, c ∷ format)

-- va_arg(val, long), and va_arg(val, char*).
unfoldable pub next_number : List Arg → Option (ℕ × List Arg)
next_number (number n ∷ val) = some (n % word_mod, val)
next_number _ = none

unfoldable pub next_text : List Arg → Option (Str × List Arg)
next_text (text t ∷ val) = some (t, val)
next_text _ = none

-- An int is its 32 bits. What there is of it above 0.
abbrev pub positive : ℕ → ℕ
positive i = if ltb i (2 ^ 31) then i else 0

-- int width = -1
abbrev pub no_width : ℕ
no_width = 2 ^ 32 - 1

-- The width, with its sign, the arguments left and the rest of the format.
unfoldable pub process_width : Str → List Arg → Option (ℕ × List Arg × Str)
process_width format val =
    let (n, rest) = decimal 0 format in
    if leb b'1' (first format) && leb (first format) b'9'
    then require (ltb n (2 ^ 31)) (some (n, val, rest))
    else if first format == b'*'
    then (do (n, val') ← next_number val; some (n % 2 ^ 32, val', after format))
    else some (no_width, val, format)

-- A negative precision becomes 0.
unfoldable pub process_precision : Str → List Arg → Option (Option ℕ × List Arg × Str)
process_precision format val =
    let point = after format in
    let (n, rest) = decimal 0 point in
    if not (first format == b'.')
    then some (none, val, format)
    else if is_digit (first point)
    then require (ltb n (2 ^ 31)) (some (some n, val, rest))
    else if first point == b'*'
    then (do (n, val') ← next_number val; some (some (positive (n % 2 ^ 32)), val', after point))
    else some (some 0, val, point)

unfoldable pub process_length : Str → Bool × Str
process_length format =
    let c = first format in
    if c == b'l' || c == b't' || c == b'z'
    then (true, after format)
    else if c == b'h'
    then (false, after format)
    else (false, format)

-- What the main conversion sets: flags, base (with the sign as `lower`), num and data.
pub record Conversion : Type 0 where
  pub flags : Flags
  pub lower : Bool
  pub base : ℕ
  pub num : ℕ
  pub data_text : Str

abbrev pub plain : Flags → Str → Conversion
plain flags s = record { flags = flags; lower = false; base = 10; num = 0; data_text = s }

abbrev pub unsigned : Flags → Bool → Bool → ℕ → ℕ → Conversion
unsigned flags long lower base n = record {
  flags = record flags { numeric = true };
  lower = lower;
  base = base;
  num = if long then n else n % 2 ^ 32;
  data_text = [];
}

abbrev pub is_negative : Bool → ℕ → Bool
is_negative long n = if long then leb (2 ^ 63) n else leb (2 ^ 31) (n % 2 ^ 32)

abbrev pub signed_number : Flags → Bool → ℕ → Conversion
signed_number flags long n = record {
  flags = record flags { numeric = true; signed = true; negative = is_negative long n };
  lower = false;
  base = 10;
  num =
      if is_negative long n
      then (if long then negate n else 2 ^ 32 - n % 2 ^ 32)
      else (if long then n else n % 2 ^ 32);
  data_text = [];
}

-- A numbuf with one character.
abbrev pub one_char : ℕ → Str
one_char c = if c == 0 then [] else c ∷ []

pub data Directive : Type 0 where
  recolor : ℕ → List Arg → Str → Directive
  emit : Str → List Arg → Str → Directive

pub data Converted : Type 0 where
  set_color : ℕ → Converted
  convert : Conversion → Converted

-- The switch on *format. -x overflows for the least long.
unfoldable pub main_conversion : Flags → Bool → ℕ → List Arg → Option (Converted × List Arg)
main_conversion flags long c val =
    if c == b'd' || c == b'i'
    then (do
      (n, val') ← next_number val
      require (not (long && n == 2 ^ 63)) (some (convert (signed_number flags long n), val')))
    else if c == b'u'
    then (do (n, val') ← next_number val; some (convert (unsigned flags long false 10 n), val'))
    else if c == b'x'
    then (do (n, val') ← next_number val; some (convert (unsigned flags long true 16 n), val'))
    else if c == b'X'
    then (do (n, val') ← next_number val; some (convert (unsigned flags long false 16 n), val'))
    else if c == b'p'
    then (do
      (n, val') ← next_number val
      some (convert (unsigned (record flags { alt = true; alt2 = true }) true true 16 n), val'))
    else if c == b's'
    then (do (s, val') ← next_text val; some (convert (plain flags s), val'))
    else if c == b'C'
    then (do (n, val') ← next_number val; some (set_color (n % 2 ^ 32), val'))
    else if c == b'c'
    then (do (n, val') ← next_number val; some (convert (plain flags (one_char (n % 256))), val'))
    else some (convert (plain flags (one_char (if c == 0 then b'%' else c))), val)

abbrev pub prefix_of : Conversion → Str
prefix_of c =
    if c.flags.numeric && c.flags.signed
    then (if c.flags.negative
        then codes "-"
        else if c.flags.pluspositive
        then codes "+"
        else if c.flags.spacepositive
        then codes " "
        else [])
    else if c.flags.numeric && c.flags.alt && c.base == 16 && (not (c.num == 0) || c.flags.alt2)
    then (if c.lower then codes "0x" else codes "0X")
    else []

abbrev pub zeros_of : Flags → Option ℕ → ℕ → ℕ → ℕ → ℕ
zeros_of flags none width datalen prefixlen =
    if flags.numeric
      && flags.zeros
      && not flags.leftjustify
      && ltb (datalen + prefixlen) (positive width)
    then positive width - datalen - prefixlen
    else 0
zeros_of flags (some precision) width datalen prefixlen =
    if flags.numeric then (if ltb datalen precision then precision - datalen else 0) else 0

abbrev pub shortened : Flags → Option ℕ → Str → Str
shortened flags none s = s
shortened flags (some precision) s = if flags.numeric then s else take precision s

-- width -= datalen + zeros + strlen(prefix), which is computed as a size_t: the bits of the width
-- are taken modulo 2^32, so that a width near the least int becomes a large one.
unfoldable pub padding : ℕ → ℕ → ℕ
padding width taken = positive ((width + 2 ^ 32 - taken % 2 ^ 32) % 2 ^ 32)

-- Everything that is put for the conversion.
unfoldable pub layout : Flags → Option ℕ → ℕ → Str → Str → Str
layout flags precision width prefix s =
    let shown = shortened flags precision s in
    let zeros = zeros_of flags precision width (length shown) (length prefix) in
    let pad = replicate (padding width (length shown + zeros + length prefix)) b' ' in
    (if flags.leftjustify then [] else pad)
    ++ (prefix ++ (replicate zeros b'0' ++ (shown ++ (if flags.leftjustify then pad else []))))

unfoldable pub digits_of : Conversion → Option Str
digits_of c = if c.flags.numeric then fill_numbuf c.num c.lower c.base else some c.data_text

unfoldable pub complete : Option ℕ → ℕ → List Arg → Str → Converted → Option Directive
complete precision width val rest (set_color color) = some (recolor color val rest)
complete precision width val rest (convert c) = do
  s ← digits_of c
  some (emit (layout c.flags precision width (prefix_of c) s) val rest)

-- From behind the % to the main conversion: precision, width, the arguments left, the rest of the
-- format and the conversion.
unfoldable pub read_directive : Str → List Arg → Option (Option ℕ × ℕ × List Arg × Str × Converted)
read_directive format val =
    let (flags, at_width) = process_flags no_flags format in
    do
      (width, val', at_precision) ← process_width at_width val
      (precision, val'', at_length) ← process_precision at_precision val'
      let (long, at_main) = process_length at_length
      (converted, val''') ← main_conversion flags long (first at_main) val''
      some (precision, width, val''', after at_main, converted)

unfoldable pub directive : Str → List Arg → Option Directive
directive format val = do
  (precision, width, val', rest, converted) ← read_directive format val
  complete precision width val' rest converted
