-- ===== src/Tests/Text.antt =====
-- Tests of the library of weensyos: blocks of memory, strings, numbers, formats and the console.
use mathlib.Core.Option
use cs300_s23_projects_days.Prelude.{
  ℕ, ◌+◌, ◌-◌, ◌^◌, ◌≡◌, ◌≤◌, ◌⊎◌, refl, true, none, some, List, [], ◌∷◌, ◌++◌, map, Str, codes,
  length, take, ltb, leb, if◌then◌else◌, arith, word_mod, ◌&&◌,
}
use cs300_s23_projects_days.Weensyos.Bytes.{
  Memory, move_down, memmove, strcmp, strncmp, strcasecmp, strncasecmp, tolower, bytes, IsString,
}
use cs300_s23_projects_days.Weensyos.Bytes.Copy.{copied, memmove-copied}
use cs300_s23_projects_days.Weensyos.Bytes.Order.{order, comparisons-order}
use cs300_s23_projects_days.Weensyos.Numbers.{
  elem, digit, skip_spaces, read_digits, strtoul, strtol, fill_digits, fill_numbuf,
}
use cs300_s23_projects_days.Weensyos.Numbers.Value.{numeral}
use cs300_s23_projects_days.Weensyos.Numbers.Print.{written, strtoul-numeral}
use cs300_s23_projects_days.Weensyos.Numbers.RoundTrip.{strtoul-fill_numbuf}
use cs300_s23_projects_days.Weensyos.Printer.{vprintf}
use cs300_s23_projects_days.Weensyos.Printer.Convert.{
  Arg, number, text, directive, read_directive, process_flags, set_flag, process_width,
  process_precision, process_length, main_conversion, complete, digits_of, layout, padding, decimal,
  next_number, next_text,
}
use cs300_s23_projects_days.Weensyos.Printer.Output.{Output, collect}
use cs300_s23_projects_days.Weensyos.Printer.Ends.{Undefined, vprintf-ends}
use cs300_s23_projects_days.Weensyos.Printer.Buffer.{vsnprintf}
use cs300_s23_projects_days.Weensyos.Printer.Buffer.Contents.{chars, buffered, vsnprintf-buffered}
use cs300_s23_projects_days.Weensyos.Printer.Buffer.Numerals.{vsnprintf-strtol}
use cs300_s23_projects_days.Weensyos.Console.{Screen, ConsolePrinter, putc, console_vprintf}
use cs300_s23_projects_days.Weensyos.Console.Bounds.{
  start, shifted, width, shown, attribute, putc_lem, StaysInside, console_vprintf-StaysInside,
}

abbrev letters : Memory
letters = elem (codes "abcdef")

overlap : bytes 0 6 (memmove 2 0 3 letters) ≡ codes "ababcf"
unfolding memmove move_down
overlap = refl

memmove-copied_example : memmove 2 0 3 letters 3 ≡ copied 2 0 3 letters 3
memmove-copied_example = memmove-copied 2 0 3 letters 3

abbrev two_strings : Memory
two_strings = elem (codes "ab" ++ (0 ∷ codes "Abc"))

-- At 0 "ab", at 3 "Abc".
comparisons-order_example :
    (strcmp 4 0 3 two_strings ≡ some (order (codes "ab") (codes "Abc")))
    × (strncmp 4 0 3 2 two_strings ≡ some (order (take 2 (codes "ab")) (take 2 (codes "Abc"))))
    × (strcasecmp 4 0 3 two_strings
        ≡ some (order (map tolower (codes "ab")) (map tolower (codes "Abc"))))
    × (strncasecmp 4 0 3 2 two_strings
        ≡ some (order (map tolower (take 2 (codes "ab"))) (map tolower (take 2 (codes "Abc")))))
comparisons-order_example =
    comparisons-order 4 0 3 2 two_strings (codes "ab") (codes "Abc") (omega arith) (omega arith)
      (omega arith) (omega arith)

strtoul-numeral_example : strtoul (written true (15 ∷ 10 ∷ [])) 16 ≡ (
  if ltb (numeral 16 0 (15 ∷ 10 ∷ [])) word_mod then numeral 16 0 (15 ∷ 10 ∷ []) else word_mod - 1,
  [],
)
strtoul-numeral_example =
    strtoul-numeral true 16 (15 ∷ 10 ∷ []) (omega arith) (omega arith) (omega arith)

strtoul-fill_numbuf_example :
    (s : Str) × (fill_numbuf 1024 true 16 ≡ some s)
    × (length s + 1 ≤ 24)
    × (strtoul s 16 ≡ (1024, []))
strtoul-fill_numbuf_example =
    strtoul-fill_numbuf true 16 (omega arith) (omega arith) 1024 (omega arith)

-- The bytes behind '9' pass for digits of a base above ten, and hide the first capital letters.
colon_digit : strtoul (codes ":") 16 ≡ (10, [])
unfolding strtoul skip_spaces read_digits digit
colon_digit = refl

capital_a : strtoul (codes "A") 36 ≡ (17, [])
unfolding strtoul skip_spaces read_digits digit
capital_a = refl

-- A second sign is read.
two_signs : strtol (codes "--5") 10 ≡ (2 ^ 63, [])
unfolding strtol strtoul skip_spaces read_digits digit
two_signs = refl

abbrev padded : List Arg
padded = number (word_mod - 42) ∷ text (codes "x") ∷ []

padded_text :
    Option.map chars
      (vprintf collect 20 0 (codes "%05ld %-3s|%#x") (padded ++ (number 255 ∷ [])) [])
    ≡ some (codes "-0042 x  |0xff")
unfolding vprintf directive read_directive process_flags set_flag process_width process_precision
    process_length main_conversion complete digits_of layout padding decimal next_number next_text
    fill_numbuf fill_digits
padded_text = refl

vprintf-ends_example :
    ((s' : Output) × (vprintf collect 4 0 (codes "a%d") (number 5 ∷ []) [] ≡ some s'))
    ⊎ ((vprintf collect 4 0 (codes "a%d") (number 5 ∷ []) [] ≡ none)
        × Undefined (codes "a%d") (number 5 ∷ []))
vprintf-ends_example = vprintf-ends collect 4 0 (codes "a%d") (number 5 ∷ []) [] (omega arith)

number_text :
    Option.map chars (vprintf collect 4 0 (codes "a%d") (number 5 ∷ []) []) ≡ some (codes "a5")
unfolding vprintf directive read_directive process_flags set_flag process_width process_precision
    process_length main_conversion complete digits_of layout padding decimal next_number fill_numbuf
    fill_digits
number_text = refl

-- No argument is left for the directive.
missing_argument : Undefined (codes "a%d") []
unfolding read_directive process_flags set_flag process_width process_precision process_length
    main_conversion decimal next_number
missing_argument = Undefined.plain (λ e. omega arith) (Undefined.here refl refl)

abbrev hello : Output
hello = (b'l', 0) ∷ (b'l', 0) ∷ (b'e', 0) ∷ (b'h', 0) ∷ []

hello_printed : vprintf collect 3 0 (codes "%s") (text (codes "hell") ∷ []) [] ≡ some hello
unfolding vprintf directive read_directive process_flags set_flag process_width process_precision
    process_length main_conversion complete digits_of layout padding decimal next_text
hello_printed = refl

-- The buffer has three bytes.
vsnprintf-buffered_example :
    (m' : Memory) × (vsnprintf 8 3 (codes "%s") (text (codes "hell") ∷ []) letters ≡ some (4, m'))
    × ((a : ℕ) → m' a ≡ buffered 8 3 letters hello a)
vsnprintf-buffered_example =
    vsnprintf-buffered 8 3 letters (codes "%s") (text (codes "hell") ∷ []) hello hello_printed

vsnprintf-strtol_example :
    (t : Str) × (m' : Memory) × (vsnprintf 8 22 (codes "%ld") (number (word_mod - 42) ∷ []) letters
      ≡ some (length t, m'))
    × IsString m' 8 t
    × (strtol t 10 ≡ (word_mod - 42, []))
vsnprintf-strtol_example =
    vsnprintf-strtol 8 22 (word_mod - 42) letters (omega arith) (omega arith) (omega arith)

-- -x overflows for the least long, and not for the long before it.
least_long : vprintf collect 4 0 (codes "%ld") (number (2 ^ 63) ∷ []) [] ≡ none
unfolding vprintf directive read_directive process_flags set_flag process_width process_precision
    process_length main_conversion decimal next_number
least_long = refl

-- A negative width leaves no room, but for the least ints: the difference wraps around.
negative_width :
    Option.map chars (vprintf collect 4 0 (codes "%*d") (number (2 ^ 32 - 5) ∷ number 7 ∷ []) [])
    ≡ some (codes "7")
unfolding vprintf directive read_directive process_flags set_flag process_width process_precision
    process_length main_conversion complete digits_of layout padding decimal next_number fill_numbuf
    fill_digits
negative_width = refl

least_width : padding (2 ^ 31) 1 ≡ 2 ^ 31 - 1
unfolding padding
least_width = refl

abbrev full : ConsolePrinter
full = record { cell = 2000; scroll = true; console = λ i. i }

putc_lem_example :
    ((putc b'a' 1792 full).cell ≡ start full + width b'a' (start full))
    × ((putc b'a' 1792 full).console 1920 ≡ (
        if leb (start full) 1920 && ltb 1920 (start full + width b'a' (start full))
        then attribute (shown b'a') 1792
        else shifted full 1920))
putc_lem_example = putc_lem b'a' 1792 1920 full (omega arith) refl

abbrev screen : Screen
screen = record { console = λ i. 0; cursorpos = 1999 }

console_vprintf-StaysInside_example :
    (r : ℕ × Screen) × (console_vprintf none 0 (codes "%s") (text (codes "hell") ∷ []) screen
      ≡ some r)
    × StaysInside screen r
console_vprintf-StaysInside_example =
    console_vprintf-StaysInside none 0 (codes "%s") (text (codes "hell") ∷ []) screen hello
      (omega arith) hello_printed
