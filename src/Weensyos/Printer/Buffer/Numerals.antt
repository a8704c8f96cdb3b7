-- ===== src/Weensyos/Printer/Buffer/Numerals.antt =====
-- A long through vsnprintf and back through strtol, of weensyos/lib.cc.
use mathlib.Core.List.{append-nil, append_assoc}
use cs300_s23_projects_days.Prelude.{
  ℕ, suc, ◌+◌, ◌-◌, ◌^◌, ◌%◌, ◌<◌, ◌≤◌, ◌≡◌, ◌≢◌, ==_ne, ◌==◌, refl, sym, ap, ◌∙◌, Bool, false,
  some, List, [], ◌∷◌, ◌++◌, Str, leb, if◌then◌else◌, arith, Bool-cases, inl, inr, length,
  length-map, codes, All, word_mod,
}
use cs300_s23_projects_days.Weensyos.Bytes.{Memory, IsString}
use cs300_s23_projects_days.Weensyos.Numbers.{
  elem, fill_numbuf, negate, strtoul, strtol, skip_spaces,
}
use cs300_s23_projects_days.Weensyos.Numbers.Print.{
  written, table, IsPlain, written-IsPlain, elem_plain, All-16,
}
use cs300_s23_projects_days.Weensyos.Numbers.RoundTrip.{fill_numbuf-Filled, strtoul-Filled}
use cs300_s23_projects_days.Weensyos.Printer.{vprintf, put_text}
use cs300_s23_projects_days.Weensyos.Printer.Convert.{
  number, no_width, padding, directive, read_directive, emit, process_flags, set_flag,
  process_width, process_precision, process_length, main_conversion, complete, digits_of, layout,
  decimal, next_number,
}
use cs300_s23_projects_days.Weensyos.Printer.Output.{Output, collect}
use cs300_s23_projects_days.Weensyos.Printer.Buffer.{vsnprintf}
use cs300_s23_projects_days.Weensyos.Printer.Buffer.Contents.{
  chars, length-chars, buffered, vsnprintf-buffered,
}

chars-put_text :
    (t : Str) (color : ℕ) (out : Output) → chars (put_text collect t color out) ≡ chars out ++ t
chars-put_text [] color out = sym (append-nil (chars out))
chars-put_text (c ∷ t) color out =
    chars-put_text t color (collect c color out) ∙ append_assoc (chars out) (c ∷ []) t

abbrev is_minus : ℕ → Bool
is_minus x = leb (2 ^ 63) x

-- What is printed for the digits t of the amount.
abbrev signed_text : ℕ → Str → Str
signed_text x t = if is_minus x then b'-' ∷ t else t

abbrev amount : ℕ → ℕ
amount x = if is_minus x then negate x else x

no_padding : (n : ℕ) → n < 2 ^ 31 → padding no_width n ≡ 0
unfolding padding
no_padding n l = ground arith

directive-long :
    (x : ℕ) (t : Str)
    → x < word_mod
    → x ≢ 2 ^ 63
    → fill_numbuf (amount x) false 10 ≡ some t
    → length t < 64
    → directive (codes "ld") (number x ∷ []) ≡ some (emit (signed_text x t) [] [])
unfolding directive read_directive process_flags set_flag process_width process_precision
    process_length main_conversion complete digits_of layout decimal next_number
directive-long x t l most h short =
    let same : x % word_mod ≡ x = omega arith in
    let in_range : x == 2 ^ 63 ≡ false = ==_ne x (2 ^ 63) most in
    elim (Bool-cases (is_minus x)) [
      | inl minus ↦
          let none_left = no_padding (length t + 0 + 1) (omega arith) in
          rw (same, in_range, h) (rw (minus) (rw (none_left) (simp (append-nil) refl)))
      | inr plus ↦
          let none_left = no_padding (length t + 0 + 0) (omega arith) in
          rw (same, in_range, h) (rw (plus) (rw (none_left) (simp (append-nil) refl)))
    ]

vprintf-long :
    (x : ℕ) (t : Str)
    → x < word_mod
    → x ≢ 2 ^ 63
    → fill_numbuf (amount x) false 10 ≡ some t
    → length t < 64
    → vprintf collect 4 0 (codes "%ld") (number x ∷ []) []
      ≡ some (put_text collect (signed_text x t) 0 [])
unfolding vprintf
vprintf-long x t l most h short = rw (directive-long x t l most h short) refl

-- strtol reads the digits of an amount, and a sign in front of them.
strtol-digits :
    (t : Str) (n : ℕ) → IsPlain t → strtoul t 10 ≡ (n, []) → n < 2 ^ 63 → strtol t 10 ≡ (n, [])
unfolding strtol
strtol-digits t n plain read l =
    rw (plain.spaces, plain.minus, read) (ap (λ u. (u, [])) (ground arith))

strtol-minus :
    (t : Str) (n : ℕ) → strtoul t 10 ≡ (n, []) → n ≤ 2 ^ 63 → strtol (b'-' ∷ t) 10 ≡ (negate n, [])
unfolding strtol skip_spaces
strtol-minus t n read l = rw (read) (ap (λ u. (negate u, [])) (ground arith))

-- The text of a long, with no NUL in it.
record IsLong (x : ℕ) (s : Str) : Type 0 where
  output : vprintf collect 4 0 (codes "%ld") (number x ∷ []) [] ≡ some (put_text collect s 0 [])
  bytes : All (λ c. 0 < c) s
  value : strtol s 10 ≡ (x, [])
  space : length s ≤ 21

written-positive : (ds : List ℕ) → All (λ d. d < 16) ds → All (λ c. 0 < c) (written false ds)
written-positive [] h = tt
written-positive (d ∷ ds) h =
    let (lo, _, _) = elem_plain false d h.0 in (omega arith, written-positive ds h.1)

signed_text-positive : (x : ℕ) (t : Str) → All (λ c. 0 < c) t → All (λ c. 0 < c) (signed_text x t)
signed_text-positive x t h = elim (Bool-cases (is_minus x)) [
  | inl minus ↦ rw (minus) ((omega arith, h))
  | inr plus ↦ rw (plus) h
]

signed_text-value :
    (x : ℕ) (t : Str)
    → x < word_mod
    → IsPlain t
    → strtoul t 10 ≡ (amount x, [])
    → strtol (signed_text x t) 10 ≡ (x, [])
signed_text-value x t l plain read = elim (Bool-cases (is_minus x)) [
  | inl minus ↦
      let read' : strtoul t 10 ≡ (negate x, []) = read ∙ rw (minus) refl in
      let back : negate (negate x) ≡ x = ground arith in
      rw (minus) (strtol-minus t (negate x) read' (ground arith) ∙ ap (λ u. (u, [])) back)
  | inr plus ↦ rw (plus) (strtol-digits t x plain (read ∙ rw (plus) refl) (ground arith))
]

signed_text-length : (x : ℕ) (t : Str) → length (signed_text x t) ≤ length t + 1
signed_text-length x t = ground arith

exists_IsLong : (x : ℕ) → x < word_mod → x ≢ 2 ^ 63 → (s : Str) × IsLong x s
exists_IsLong x l most =
    let less : amount x < word_mod = ground arith in
    let w = fill_numbuf-Filled false 10 (omega arith) (omega arith) (amount x) less in
    let t = written false w.digits in
    let small = All-16 10 w.digits (omega arith) w.below in
    let read = strtoul-Filled false 10 (omega arith) (omega arith) (amount x) w less in
    (
      signed_text x t,
      record {
        output =
            vprintf-long x t l most w.result
              (omega (arith, length-map w.digits (elem (table false)), w.space));
        bytes = signed_text-positive x t (written-positive w.digits small);
        value = signed_text-value x t l (written-IsPlain false w.digits small) read;
        space =
            omega
              (arith, signed_text-length x t, length-map w.digits (elem (table false)), w.space);
      },
    )

elem-IsString :
    (m : Memory) (a : ℕ) (cs : Str)
    → ((i : ℕ) → i < length cs → m (a + i) ≡ elem cs i)
    → m (a + length cs) ≡ 0
    → All (λ c. 0 < c) cs
    → IsString m a cs
elem-IsString m a [] h e p = ap m (omega arith) ∙ e
elem-IsString m a (c ∷ cs) h e p = (
  ap m (omega arith) ∙ h 0 (omega arith),
  p.0,
  elem-IsString m (a + 1) cs (λ i l. ap m (omega arith) ∙ h (suc i) (omega arith))
      (ap m (omega arith) ∙ e) p.1,
)

module _ (s size : ℕ) (m m' : Memory) (t : Str)
    (same : (a : ℕ) → m' a ≡ buffered s size m (put_text collect t 0 []) a)
    (room : length t < size) where
  count : length (put_text collect t 0 []) ≡ length t
  count = omega (
    arith,
    length-chars (put_text collect t 0 []),
    ap (λ (l : Str). length l) (chars-put_text t 0 []),
  )

  buffered-text : (i : ℕ) → i < length t → m' (s + i) ≡ elem t i
  buffered-text i l =
      let back : s + i - s ≡ i = omega arith in
      same (s + i)
      ∙ ground (arith, count)
      ∙ ap (λ (l : Str). elem l (s + i - s)) (chars-put_text t 0 [])
      ∙ ap (elem t) back

  buffered-end : m' (s + length t) ≡ 0
  buffered-end = same (s + length t) ∙ ground (arith, count)

-- For every 64-bit number, read as a long, but the least long, and a buffer of at least 22 bytes:
-- vsnprintf with the format %ld succeeds, returns the length of a text, and leaves this text with
-- a NUL at the start of the buffer. strtol reads the number back from the text in base 10, up to
-- its end.
pub vsnprintf-strtol :
    (s size x : ℕ) (m : Memory)
    → x < word_mod
    → x ≢ 2 ^ 63
    → 22 ≤ size
    → (t : Str) × (m' : Memory) × (vsnprintf s size (codes "%ld") (number x ∷ []) m
        ≡ some (length t, m'))
      × IsString m' s t
      × (strtol t 10 ≡ (x, []))
vsnprintf-strtol s size x m l most room =
    let (t, w) = exists_IsLong x l most in
    let (m', run, same) =
      vsnprintf-buffered s size m (codes "%ld") (number x ∷ []) (put_text collect t 0 [])
        w.output in
    let fits : length t < size = omega (arith, w.space) in
    (
      t,
      m',
      run ∙ ap (λ n. some (n, m')) (count s size m m' t same fits),
      elem-IsString m' s t (buffered-text s size m m' t same fits)
          (buffered-end s size m m' t same fits) w.bytes,
      w.value,
    )
