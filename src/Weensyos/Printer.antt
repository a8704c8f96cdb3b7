-- ===== src/Weensyos/Printer.antt =====
-- printer::vprintf of weensyos/lib.cc: what the program prints for a format and its arguments,
-- through the function putc of some printer. A string is the list of its bytes before the NUL.
-- What the language leaves undefined, an argument that is missing or of another kind, a width that
-- is no int or the negation of the least long, is none.
pub mod Convert
pub mod Output
pub mod Rest
pub mod Ends
pub mod Buffer
use cs300_s23_projects_days.Prelude.{
  ℕ, zero, suc, ◌+◌, Bool, not, Option, none, some, List, [], ◌∷◌, Str, ◌==◌, if◌then◌else◌,
}
use cs300_s23_projects_days.Weensyos.Printer.Convert.{Arg, Directive, recolor, emit, directive}

-- for (; ...; ) putc(...)
abbrev pub put_text : {S : Type 0} → (ℕ → ℕ → S → S) → Str → ℕ → S → S
put_text putc [] color s = s
put_text putc (c ∷ cs) color s = put_text putc cs color (putc c color s)

-- Behind a directive: `continue` with another color, or the output and the next byte.
abbrev pub resume :
    {S : Type 0}
    → (ℕ → ℕ → S → S)
    → (ℕ → Str → List Arg → S → Option S)
    → ℕ
    → Option Directive
    → S
    → Option S
resume putc next color none s = none
resume putc next color (some (recolor color' val rest)) s = next color' rest val s
resume putc next color (some (emit t val rest)) s = next color rest val (put_text putc t color s)

-- For a format of less than `fuel` bytes.
unfoldable pub vprintf : {S : Type 0} → (ℕ → ℕ → S → S) → ℕ → ℕ → Str → List Arg → S → Option S
vprintf putc zero color format val s = none
vprintf putc (suc fuel) color [] val s = some s
vprintf putc (suc fuel) color (c ∷ format) val s =
    let plain = vprintf putc fuel color format val (putc c color s) in
    let converted = resume putc (vprintf putc fuel) color (directive format val) s in
    if not (c == b'%') then plain else converted
