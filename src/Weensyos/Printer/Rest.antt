-- ===== src/Weensyos/Printer/Rest.antt =====
-- printer::vprintf of weensyos/lib.cc: a directive leaves at most the format behind its %.
use cs300_s23_projects_days.Prelude.{
  ℕ, ◌+◌, ◌-◌, ◌*◌, ◌≤◌, ◌≡◌, refl, ap, inl, inr, Option, none, some, List, [], ◌∷◌, Str, length,
  ◌>>=◌, arith, Option-cases,
}
use cs300_s23_projects_days.Weensyos.Numbers.{first, after}
use cs300_s23_projects_days.Weensyos.Printer.Convert.{
  Arg, Flags, no_flags, set_flag, process_flags, decimal, process_width, process_precision,
  process_length, main_conversion, Converted, set_color, convert, digits_of, complete, Directive,
  recolor, emit, read_directive, directive,
}

after-length : (s : Str) → length (after s) ≤ length s
after-length [] = omega arith
after-length (c ∷ s) = omega arith

process_flags-length : (flags : Flags) (s : Str) → length (process_flags flags s).1 ≤ length s
unfolding process_flags
process_flags-length flags [] = omega arith
process_flags-length flags (c ∷ s) = elim (Option-cases (set_flag c flags)) [
  | inl e ↦ rw (e, process_flags) (omega arith)
  | inr (f, e) ↦ rw (e, process_flags) (omega (arith, process_flags-length f s))
]

decimal-length : (n : ℕ) (s : Str) → length (decimal n s).1 ≤ length s
unfolding decimal
decimal-length n [] = omega arith
decimal-length n (c ∷ s) = ground (arith, decimal-length (10 * n + c - b'0') s)

process_width-length :
    (s : Str) (val val' : List Arg) (n : ℕ) (rest : Str)
    → process_width s val ≡ some (n, val', rest)
    → length rest ≤ length s
unfolding process_width
process_width-length s val val' n rest h = ground (arith, decimal-length 0 s, after-length s)

process_precision-length :
    (s : Str) (val val' : List Arg) (p : Option ℕ) (rest : Str)
    → process_precision s val ≡ some (p, val', rest)
    → length rest ≤ length s
unfolding process_precision
process_precision-length s val val' p rest h =
    ground (arith, decimal-length 0 (after s), after-length (after s), after-length s)

process_length-length : (s : Str) → length (process_length s).1 ≤ length s
unfolding process_length
process_length-length s = ground (arith, after-length s)

-- The format behind a directive.
abbrev pub rest_of : Option Directive → Str
rest_of none = []
rest_of (some (recolor color val rest)) = rest
rest_of (some (emit t val rest)) = rest

bind-rest_of :
    {A : Type 0} (o : Option A) (f : A → Option Directive) (n : ℕ)
    → ((a : A) → o ≡ some a → length (rest_of (f a)) ≤ n)
    → length (rest_of (o >>= f)) ≤ n
bind-rest_of none f n h = omega arith
bind-rest_of (some a) f n h = h a refl

complete-rest_of :
    (p : Option ℕ) (w : ℕ) (val : List Arg) (rest : Str) (c : Converted)
    → length (rest_of (complete p w val rest c)) ≤ length rest
unfolding complete
complete-rest_of p w val rest (set_color color) = omega arith
complete-rest_of p w val rest (convert c) =
    bind-rest_of (digits_of c) _ (length rest) (λ a e. omega arith)

-- Of what read_directive finds, the rest of the format.
abbrev read_rest : Option (Option ℕ × ℕ × List Arg × Str × Converted) → Str
read_rest none = []
read_rest (some (p, w, val, rest, c)) = rest

bind-read_rest :
    {A : Type 0} (o : Option A) (f : A → Option (Option ℕ × ℕ × List Arg × Str × Converted)) (n : ℕ)
    → ((a : A) → o ≡ some a → length (read_rest (f a)) ≤ n)
    → length (read_rest (o >>= f)) ≤ n
bind-read_rest none f n h = omega arith
bind-read_rest (some a) f n h = h a refl

read_directive-read_rest :
    (format : Str) (val : List Arg) → length (read_rest (read_directive format val)) ≤ length format
unfolding read_directive
read_directive-read_rest format val =
    let flagged = process_flags no_flags format in
    bind-read_rest (process_width flagged.1 val) _ (length format) (λ w e.
      bind-read_rest (process_precision w.2 w.1) _ (length format) (λ p e'.
        bind-read_rest
          (main_conversion flagged.0 (process_length p.2).0 (first (process_length p.2).1) p.1) _
          (length format)
          (λ c e''. omega (
            arith,
            after-length (process_length p.2).1,
            process_length-length p.2,
            process_precision-length w.2 w.1 p.1 p.0 p.2 e',
            process_width-length flagged.1 val w.1 w.0 w.2 e,
            process_flags-length no_flags format,
          ))))

pub directive-rest_of :
    (format : Str) (val : List Arg) → length (rest_of (directive format val)) ≤ length format
unfolding directive
directive-rest_of format val =
    bind-rest_of (read_directive format val) _ (length format) (λ (p, w, val', rest, c) e. omega (
      arith,
      complete-rest_of p w val' rest c,
      read_directive-read_rest format val,
      ap (λ o. length (read_rest o)) e,
    ))
