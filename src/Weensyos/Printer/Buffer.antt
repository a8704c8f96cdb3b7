-- ===== src/Weensyos/Printer/Buffer.antt =====
-- string_printer and vsnprintf of weensyos/lib.cc.
pub mod Contents
pub mod Numerals
use cs300_s23_projects_days.Prelude.{
  ℕ, suc, ◌+◌, ◌-◌, Bool, not, ◌&&◌, Option, none, some, List, Str, length, ltb, ◌==◌,
  if◌then◌else◌, update,
}
use cs300_s23_projects_days.Weensyos.Bytes.{Memory}
use cs300_s23_projects_days.Weensyos.Printer.{vprintf}
use cs300_s23_projects_days.Weensyos.Printer.Convert.{Arg}

-- s_, end_ and n_, with the memory that s_ points into.
pub record StringPrinter : Type 0 where
  pub s : ℕ
  pub end : ℕ
  pub n : ℕ
  pub memory : Memory

unfoldable pub putc : ℕ → ℕ → StringPrinter → StringPrinter
putc c color sp =
    if ltb sp.s sp.end
    then record sp { s = sp.s + 1; n = sp.n + 1; memory = update sp.memory sp.s c }
    else record sp { n = sp.n + 1 }

unfoldable pub string_printer : ℕ → ℕ → Memory → StringPrinter
string_printer s size m = record { s = s; end = s + size; n = 0; memory = m }

-- The NUL at the end.
unfoldable pub terminated : ℕ → StringPrinter → Memory
terminated size sp =
    if not (size == 0) && ltb sp.s sp.end
    then update sp.memory sp.s 0
    else if not (size == 0)
    then update sp.memory (sp.end - 1) 0
    else sp.memory

abbrev pub finished : ℕ → Option StringPrinter → Option (ℕ × Memory)
finished size none = none
finished size (some sp) = some (sp.n, terminated size sp)

unfoldable pub vsnprintf : ℕ → ℕ → Str → List Arg → Memory → Option (ℕ × Memory)
vsnprintf s size format val m =
    finished size (vprintf putc (suc (length format)) 0 format val (string_printer s size m))
