-- ===== src/Weensyos/Printer/Ends.antt =====
-- printer::vprintf of weensyos/lib.cc: when it ends.
use cs300_s23_projects_days.Prelude.{
  ℕ, zero, suc, ◌%◌, ◌^◌, ◌<◌, ◌≤◌, ◌≡◌, ◌≢◌, ◌⊎◌, refl, subst, inl, inr, Bool, true, false, not,
  ◌||◌, Option, none, some, List, [], ◌∷◌, Str, length, ◌==◌, ◌>>=◌, require, if◌then◌else◌,
  word_mod, arith, Bool-cases,
}
use cs300_s23_projects_days.Weensyos.Numbers.{first}
use cs300_s23_projects_days.Weensyos.Numbers.Print.{written}
use cs300_s23_projects_days.Weensyos.Numbers.RoundTrip.{fill_numbuf-Filled}
use cs300_s23_projects_days.Weensyos.Vmiter.Find.{some_inj}
use cs300_s23_projects_days.Weensyos.Printer.{vprintf, put_text, resume}
use cs300_s23_projects_days.Weensyos.Printer.Convert.{
  Arg, number, text, Flags, no_flags, process_flags, process_width, process_precision,
  process_length, next_number, next_text, main_conversion, Conversion, signed_number, unsigned,
  Converted, set_color, convert, digits_of, complete, Directive, recolor, emit, read_directive,
  directive,
}
use cs300_s23_projects_days.Weensyos.Printer.Rest.{rest_of, directive-rest_of}

-- fill_numbuf prints the number.
abbrev IsReady : Converted → Type 0
IsReady (set_color color) = 0 ≤ color
IsReady (convert c) = (c.num < word_mod) × (10 ≤ c.base) × (c.base ≤ 16)

record AreReady (o : Option (Converted × List Arg)) : Type 0 where
  ready : (c : Converted × List Arg) → o ≡ some c → IsReady c.0

none-AreReady : AreReady none
none-AreReady = record { ready = λ c e. absurd (cc) }

some-AreReady : (c : Converted) (val : List Arg) → IsReady c → AreReady (some (c, val))
some-AreReady c val h = record { ready = λ c' e. subst (λ d. IsReady d.0) (some_inj _ _ e) h }

number-AreReady :
    (val : List Arg) (f : ℕ × List Arg → Option (Converted × List Arg))
    → ((n : ℕ) (val' : List Arg) → n < word_mod → AreReady (f (n, val')))
    → AreReady (next_number val >>= f)
unfolding next_number
number-AreReady [] f h = none-AreReady
number-AreReady (number n ∷ val) f h = h (n % word_mod) val (omega arith)
number-AreReady (text t ∷ val) f h = none-AreReady

text-AreReady :
    (val : List Arg) (f : Str × List Arg → Option (Converted × List Arg))
    → ((t : Str) (val' : List Arg) → AreReady (f (t, val')))
    → AreReady (next_text val >>= f)
unfolding next_text
text-AreReady [] f h = none-AreReady
text-AreReady (number n ∷ val) f h = none-AreReady
text-AreReady (text t ∷ val) f h = h t val

require-AreReady :
    (b : Bool) (c : Converted) (val : List Arg) → IsReady c → AreReady (require b (some (c, val)))
require-AreReady true c val h = some-AreReady c val h
require-AreReady false c val h = none-AreReady

signed-IsReady :
    (flags : Flags) (long : Bool) (n : ℕ)
    → n < word_mod
    → IsReady (convert (signed_number flags long n))
signed-IsReady flags long n l = (ground arith, omega arith, omega arith)

unsigned-IsReady :
    (flags : Flags) (long lower : Bool) (n : ℕ)
    → n < word_mod
    → IsReady (convert (unsigned flags long lower 10 n))
      × IsReady (convert (unsigned flags long lower 16 n))
unsigned-IsReady flags long lower n l =
    let small : (if long then n else n % 2 ^ 32) < word_mod = ground arith in
    ((small, omega arith, omega arith), (small, omega arith, omega arith))

main_conversion-AreReady :
    (flags : Flags) (long : Bool) (c : ℕ) (val : List Arg)
    → AreReady (main_conversion flags long c val)
unfolding main_conversion
main_conversion-AreReady flags long c val =
    let plainly : (0 < word_mod) × (10 ≤ 10) × (10 ≤ 16) =
      (omega arith, omega arith, omega arith) in
    let any : (n : ℕ) → IsReady (set_color n) = λ n. omega arith in
    elim (Bool-cases (c == b'd' || c == b'i')) [
      | inl e0 ↦
          rw (e0) (
            number-AreReady val _ (λ n v l. require-AreReady _ _ v (signed-IsReady flags long n l)))
      | inr e0 ↦ rw (e0) (elim (Bool-cases (c == b'u')) [
        | inl e1 ↦ rw (e1) (
            number-AreReady val _
              (λ n v l. some-AreReady _ v (unsigned-IsReady flags long false n l).0))
        | inr e1 ↦ rw (e1) (elim (Bool-cases (c == b'x')) [
          | inl e2 ↦ rw (e2) (
              number-AreReady val _
                (λ n v l. some-AreReady _ v (unsigned-IsReady flags long true n l).1))
          | inr e2 ↦ rw (e2) (elim (Bool-cases (c == b'X')) [
            | inl e3 ↦ rw (e3) (
                number-AreReady val _
                  (λ n v l. some-AreReady _ v (unsigned-IsReady flags long false n l).1))
            | inr e3 ↦ rw (e3) (elim (Bool-cases (c == b'p')) [
              | inl e4 ↦ rw (e4) (
                  number-AreReady val _ (λ n v l.
                    some-AreReady _ v
                      (unsigned-IsReady (record flags { alt = true; alt2 = true }) true true n
                        l).1))
              | inr e4 ↦ rw (e4) (elim (Bool-cases (c == b's')) [
                | inl e5 ↦ rw (e5) (text-AreReady val _ (λ t v. some-AreReady _ v plainly))
                | inr e5 ↦ rw (e5) (elim (Bool-cases (c == b'C')) [
                  | inl e6 ↦
                      rw (e6)
                        (number-AreReady val _ (λ n v l. some-AreReady _ v (any (n % 2 ^ 32))))
                  | inr e6 ↦ rw (e6) (elim (Bool-cases (c == b'c')) [
                    | inl e7 ↦ rw (e7) (number-AreReady val _ (λ n v l. some-AreReady _ v plainly))
                    | inr e7 ↦ rw (e7) (some-AreReady _ val plainly)
                  ])
                ])
              ])
            ])
          ])
        ])
      ])
    ]

-- What read_directive finds can be printed.
abbrev IsFound : Option (Option ℕ × ℕ × List Arg × Str × Converted) → Type 0
IsFound none = 0 ≤ 0
IsFound (some (p, w, val, rest, c)) = IsReady c

bind-IsFound :
    {A : Type 0} (o : Option A) (f : A → Option (Option ℕ × ℕ × List Arg × Str × Converted))
    → ((a : A) → o ≡ some a → IsFound (f a))
    → IsFound (o >>= f)
bind-IsFound none f h = omega arith
bind-IsFound (some a) f h = h a refl

read_directive-IsFound : (format : Str) (val : List Arg) → IsFound (read_directive format val)
unfolding read_directive
read_directive-IsFound format val =
    let flagged = process_flags no_flags format in
    bind-IsFound (process_width flagged.1 val) _ (λ w e.
      bind-IsFound (process_precision w.2 w.1) _ (λ p e'.
        let (long, at_main) = process_length p.2 in
        bind-IsFound (main_conversion flagged.0 long (first at_main) p.1) _
          (main_conversion-AreReady flagged.0 long (first at_main) p.1).ready))

digits_of-succeeds : (c : Conversion) → IsReady (convert c) → (s : Str) × (digits_of c ≡ some s)
unfolding digits_of
digits_of-succeeds c h = elim (Bool-cases c.flags.numeric) [
  | inl numeric ↦
      let filled = fill_numbuf-Filled c.lower c.base h.1 h.2 c.num h.0 in
      (written c.lower filled.digits, rw (numeric) filled.result)
  | inr as_text ↦ (c.data_text, rw (as_text) refl)
]

complete-succeeds :
    (p : Option ℕ) (w : ℕ) (val : List Arg) (rest : Str) (c : Converted)
    → IsReady c
    → complete p w val rest c ≢ none
unfolding complete
complete-succeeds p w val rest (set_color color) h = λ e. cc
complete-succeeds p w val rest (convert c) h =
    let (s, e) = digits_of-succeeds c h in rw (e) (λ f. cc)

-- A directive fails only before the digits are made.
found-none :
    (o : Option (Option ℕ × ℕ × List Arg × Str × Converted))
    → IsFound o
    → (do (p, w, val, rest, c) ← o; complete p w val rest c) ≡ none
    → o ≡ none
found-none none h e = refl
found-none (some (p, w, val, rest, c)) h e = absurd (complete-succeeds p w val rest c h e)

directive-none :
    (format : Str) (val : List Arg) → directive format val ≡ none → read_directive format val ≡ none
unfolding directive
directive-none format val e = found-none _ (read_directive-IsFound format val) e

-- A directive that the arguments do not fit, in a format: no argument is left for it or one of
-- another kind, its width or precision is no int, or it negates the least long. The format is read
-- from left to right, and a directive has the arguments that those in front of it leave.
pub data Undefined : Str → List Arg → Type 0 where
  here :
      {c : ℕ} {format : Str} {val : List Arg}
      → c ≡ b'%'
      → read_directive format val ≡ none
      → Undefined (c ∷ format) val
  plain :
      {c : ℕ} {format : Str} {val : List Arg}
      → c ≢ b'%'
      → Undefined format val
      → Undefined (c ∷ format) val
  behind_color :
      {c color : ℕ} {format rest : Str} {val left : List Arg}
      → c ≡ b'%'
      → directive format val ≡ some (recolor color left rest)
      → Undefined rest left
      → Undefined (c ∷ format) val
  behind_text :
      {c : ℕ} {t format rest : Str} {val left : List Arg}
      → c ≡ b'%'
      → directive format val ≡ some (emit t left rest)
      → Undefined rest left
      → Undefined (c ∷ format) val

module _ {S : Type 0} (putc : ℕ → ℕ → S → S) where
  abbrev Ends : Option S → Str → List Arg → Type 0
  Ends run format val = ((s : S) × (run ≡ some s)) ⊎ ((run ≡ none) × Undefined format val)

  Ends-map :
      (run : Option S) (format format' : Str) (val val' : List Arg)
      → (Undefined format val → Undefined format' val')
      → Ends run format val
      → Ends run format' val'
  Ends-map run format format' val val' f (inl h) = inl h
  Ends-map run format format' val val' f (inr (e, u)) = inr (e, f u)

  -- Behind a %, where the rest of the format ends.
  directive-Ends :
      (c n color : ℕ) (format : Str) (val : List Arg) (d : Option Directive) (s : S)
      (next : ℕ → Str → List Arg → S → Option S)
      → c ≡ b'%'
      → directive format val ≡ d
      → length (rest_of d) ≤ n
      → ((color : ℕ) (format : Str) (val : List Arg) (s : S)
          → length format ≤ n
          → Ends (next color format val s) format val)
      → Ends (resume putc next color d s) (c ∷ format) val
  directive-Ends c n color format val none s next percent e l h =
      inr (refl, Undefined.here percent (directive-none format val e))
  directive-Ends c n color format val (some (recolor color' left rest)) s next percent e l h =
      Ends-map _ rest _ left _ (Undefined.behind_color percent e) (h color' rest left s l)
  directive-Ends c n color format val (some (emit t left rest)) s next percent e l h =
      Ends-map _ rest _ left _ (Undefined.behind_text percent e)
        (h color rest left (put_text putc t color s) l)

  -- For any printer, format and arguments, and a fuel above the length of the format: vprintf
  -- ends with some state of the printer, or the format has a directive that the arguments do not
  -- fit, and then the run is none. Such a directive, which the loop comes to from the left, finds
  -- no argument or one of another kind, has a width or precision that is no int, or negates the
  -- least long. So neither the loop nor fill_numbuf runs out of fuel.
  pub vprintf-ends :
      (fuel color : ℕ) (format : Str) (val : List Arg) (s : S)
      → length format < fuel
      → ((s' : S) × (vprintf putc fuel color format val s ≡ some s'))
        ⊎ ((vprintf putc fuel color format val s ≡ none) × Undefined format val)
  unfolding vprintf
  vprintf-ends zero color format val s l = absurd (omega arith)
  vprintf-ends (suc fuel) color [] val s l = inl (s, refl)
  vprintf-ends (suc fuel) color (c ∷ format) val s l = elim (Bool-cases (not (c == b'%'))) [
    | inl other ↦ rw (other) (
        Ends-map _ format (c ∷ format) val val (Undefined.plain (λ e. ground arith))
          (vprintf-ends fuel color format val (putc c color s) (omega arith)))
    | inr percent ↦ rw (percent) (
        directive-Ends c (length format) color format val (directive format val) s
          (vprintf putc fuel) (ground arith) refl (directive-rest_of format val)
          (λ color' rest left s' short. vprintf-ends fuel color' rest left s' (omega arith)))
  ]
