-- ===== src/Weensyos/Console.antt =====
-- The console of weensyos/lib.cc: console_printer, console_puts, console_vprintf and
-- console_clear. console and cursorpos are the shared screen; a cell is its index in console.
pub mod Bounds
use cs300_s23_projects_days.Prelude.{
  ℕ, zero, suc, ◌+◌, ◌-◌, ◌%◌, Bool, true, false, ◌&&◌, Option, none, some, List, Str, length, ltb,
  leb, ◌==◌, if◌then◌else◌, update,
}
use cs300_s23_projects_days.Weensyos.{bits_or}
use cs300_s23_projects_days.Weensyos.Bytes.{Memory, memmove}
use cs300_s23_projects_days.Weensyos.Printer.{vprintf, put_text}
use cs300_s23_projects_days.Weensyos.Printer.Convert.{Arg}

abbrev pub console_columns : ℕ
console_columns = 80

-- CONSOLE_ROWS * CONSOLE_COLUMNS
abbrev pub console_cells : ℕ
console_cells = 2000

pub record Screen : Type 0 where
  pub console : Memory
  pub cursorpos : ℕ

pub record ConsolePrinter : Type 0 where
  pub cell : ℕ
  pub scroll : Bool
  pub console : Memory

-- A negative cpos is none.
unfoldable pub console_printer : Option ℕ → Screen → ConsolePrinter
console_printer none s = record { cell = s.cursorpos; scroll = true; console = s.console }
console_printer (some cpos) s = record {
  cell = if leb cpos console_cells then cpos else 0;
  scroll = false;
  console = s.console;
}

-- memset of n cells with 0.
abbrev pub blank : ℕ → ℕ → Memory → Memory
blank a n m i = if leb a i && ltb i (a + n) then 0 else m i

-- Its assertion is the test of the loop in putc. memmove is of whole cells.
unfoldable pub scroll : ConsolePrinter → ConsolePrinter
scroll cp =
    if cp.scroll
    then record cp {
      cell = cp.cell - console_columns;
      console =
          blank (console_cells - console_columns) console_columns
            (memmove 0 console_columns (console_cells - console_columns) cp.console);
    }
    else record cp { cell = 0 }

-- The loop of putc; each round takes cell back.
unfoldable pub scroll_all : ℕ → ConsolePrinter → ConsolePrinter
scroll_all zero cp = cp
scroll_all (suc fuel) cp =
    let more = scroll_all fuel (scroll cp) in if leb console_cells cp.cell then more else cp

-- *cell_++ = c | color
unfoldable pub put_cell : ℕ → ℕ → ConsolePrinter → ConsolePrinter
put_cell c color cp = record cp {
  cell = cp.cell + 1;
  console = update cp.console cp.cell (bits_or c color % 65536);
}

-- The loop of a newline, with the cells left in the row.
unfoldable pub fill_row : ℕ → ℕ → ConsolePrinter → ConsolePrinter
fill_row zero color cp = cp
fill_row (suc left) color cp = fill_row left color (put_cell b' ' color cp)

unfoldable pub putc : ℕ → ℕ → ConsolePrinter → ConsolePrinter
putc c color cp =
    let cp' = scroll_all (suc cp.cell) cp in
    if c == b'\n'
    then fill_row (console_columns - cp'.cell % console_columns) color cp'
    else put_cell c color cp'

-- move_cursor where cpos is negative; the result is a cell.
unfoldable pub cursor_moved : Option ℕ → Screen → ConsolePrinter → ℕ × Screen
cursor_moved none s cp = (cp.cell, record { console = cp.console; cursorpos = cp.cell })
cursor_moved (some cpos) s cp = (cp.cell, record s { console = cp.console })

unfoldable pub console_puts : Option ℕ → ℕ → Str → Screen → ℕ × Screen
console_puts cpos color str s =
    cursor_moved cpos s (put_text putc str color (console_printer cpos s))

abbrev pub cursor_moved_by : Option ℕ → Screen → Option ConsolePrinter → Option (ℕ × Screen)
cursor_moved_by cpos s none = none
cursor_moved_by cpos s (some cp) = some (cursor_moved cpos s cp)

unfoldable pub console_vprintf : Option ℕ → ℕ → Str → List Arg → Screen → Option (ℕ × Screen)
console_vprintf cpos color format val s =
    cursor_moved_by cpos s
      (vprintf putc (suc (length format)) color format val (console_printer cpos s))

unfoldable pub console_clear : Screen → Screen
console_clear s = record {
  console = λ i. if ltb i console_cells then bits_or b' ' 0x0700 else s.console i;
  cursorpos = 0;
}
