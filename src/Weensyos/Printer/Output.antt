-- ===== src/Weensyos/Printer/Output.antt =====
-- printer::vprintf of weensyos/lib.cc: every printer is given the same characters, and enough fuel
-- gives the result.
use cs300_s23_projects_days.Prelude.{
  ℕ, zero, suc, ◌≡◌, refl, ap, ◌∙◌, not, Option, none, some, List, [], ◌∷◌, Str, ◌==◌, Bool-cases,
  inl, inr,
}
use cs300_s23_projects_days.Weensyos.Printer.{vprintf, put_text, resume}
use cs300_s23_projects_days.Weensyos.Printer.Convert.{Arg, Directive, recolor, emit, directive}

-- The characters with their colors, the last one first.
abbrev pub Output : Type 0
Output = List (ℕ × ℕ)

abbrev pub collect : ℕ → ℕ → Output → Output
collect c color out = (c, color) ∷ out

-- An output put character by character, from the last one of the list on.
abbrev pub replay : {S : Type 0} → (ℕ → ℕ → S → S) → Output → S → S
replay putc [] s = s
replay putc ((c, color) ∷ out) s = putc c color (replay putc out s)

abbrev pub replayed : {S : Type 0} → (ℕ → ℕ → S → S) → Option Output → S → Option S
replayed putc none s = none
replayed putc (some out) s = some (replay putc out s)

module _ {S : Type 0} (putc : ℕ → ℕ → S → S) (s : S) where
  put_text-replay :
      (t : Str) (color : ℕ) (out : Output)
      → put_text putc t color (replay putc out s) ≡ replay putc (put_text collect t color out) s
  put_text-replay [] color out = refl
  put_text-replay (c ∷ t) color out = put_text-replay t color (collect c color out)

  resume-replay :
      (next : ℕ → Str → List Arg → S → Option S)
      (listed : ℕ → Str → List Arg → Output → Option Output)
      → ((color : ℕ) (format : Str) (val : List Arg) (out : Output)
          → next color format val (replay putc out s)
            ≡ replayed putc (listed color format val out) s)
      → (color : ℕ) (d : Option Directive) (out : Output)
      → resume putc next color d (replay putc out s)
        ≡ replayed putc (resume collect listed color d out) s
  resume-replay next listed same color none out = refl
  resume-replay next listed same color (some (recolor color' val rest)) out =
      same color' rest val out
  resume-replay next listed same color (some (emit t val rest)) out =
      ap (next color rest val) (put_text-replay t color out)
      ∙ same color rest val (put_text collect t color out)

  -- A printer ends in the state to which the characters that are collected bring it.
  pub vprintf-replay :
      (fuel color : ℕ) (format : Str) (val : List Arg) (out : Output)
      → vprintf putc fuel color format val (replay putc out s)
        ≡ replayed putc (vprintf collect fuel color format val out) s
  unfolding vprintf
  vprintf-replay zero color format val out = refl
  vprintf-replay (suc fuel) color [] val out = refl
  vprintf-replay (suc fuel) color (c ∷ format) val out = elim (Bool-cases (not (c == b'%'))) [
    | inl plain ↦ rw (plain) (vprintf-replay fuel color format val (collect c color out))
    | inr percent ↦ rw (percent) (
        resume-replay (vprintf putc fuel) (vprintf collect fuel) (vprintf-replay fuel) color
          (directive format val) out)
  ]
