-- ===== src/Weensyos/Console/Bounds.antt =====
-- The console of weensyos/lib.cc: nothing is written outside of it, and how it scrolls.
use cs300_s23_projects_days.Prelude.{
  ℕ, zero, suc, ◌+◌, ◌-◌, ◌%◌, ◌≤◌, ◌<◌, ◌≡◌, refl, ap, ◌∙◌, inl, inr, true, ◌&&◌, Option, none,
  some, List, Str, [], ◌∷◌, length, ltb, leb, ◌==◌, if◌then◌else◌, arith, Bool-cases,
}
use cs300_s23_projects_days.Weensyos.{bits_or}
use cs300_s23_projects_days.Weensyos.Bytes.{Memory}
use cs300_s23_projects_days.Weensyos.Bytes.Copy.{memmove-copied}
use cs300_s23_projects_days.Weensyos.Printer.{vprintf, put_text}
use cs300_s23_projects_days.Weensyos.Printer.Convert.{Arg}
use cs300_s23_projects_days.Weensyos.Printer.Output.{
  vprintf-replay, replay, replayed, Output, collect,
}
use cs300_s23_projects_days.Weensyos.Console.{
  Screen, ConsolePrinter, console_printer, scroll, scroll_all, put_cell, fill_row, putc,
  cursor_moved, cursor_moved_by, console_puts, console_vprintf,
}

-- A printer within the console, which has not written behind it.
record IsInside (old : Memory) (cp : ConsolePrinter) : Type 0 where
  cell : cp.cell ≤ 2000
  outside : (i : ℕ) → 2000 ≤ i → cp.console i ≡ old i

-- The printer for the next character: one scroll is enough.
abbrev ready : ConsolePrinter → ConsolePrinter
ready cp = if leb 2000 cp.cell then scroll cp else cp

scroll-cell : (cp : ConsolePrinter) → cp.cell ≡ 2000 → (scroll cp).cell < 2000
unfolding scroll
scroll-cell cp h = ground arith

ready-cell : (cp : ConsolePrinter) → cp.cell ≤ 2000 → (ready cp).cell < 2000
ready-cell cp h = ground (arith, scroll-cell cp)

scroll_all-here : (fuel : ℕ) (cp : ConsolePrinter) → cp.cell < 2000 → scroll_all fuel cp ≡ cp
unfolding scroll_all
scroll_all-here zero cp h = refl
scroll_all-here (suc fuel) cp h = ground arith

scroll_all-ready :
    (fuel : ℕ) (cp : ConsolePrinter) → cp.cell ≤ 2000 → scroll_all (suc fuel) cp ≡ ready cp
unfolding scroll_all
scroll_all-ready fuel cp h = elim (Bool-cases (leb 2000 cp.cell)) [
  | inl full ↦ rw (full) (scroll_all-here fuel (scroll cp) (scroll-cell cp (ground arith)))
  | inr room ↦ rw (room) refl
]

-- fill_row in one step.
fill_row-cell :
    (left color : ℕ) (cp : ConsolePrinter) → (fill_row left color cp).cell ≡ cp.cell + left
unfolding fill_row put_cell
fill_row-cell zero color cp = omega arith
fill_row-cell (suc left) color cp = fill_row-cell left color (put_cell b' ' color cp) ∙ omega arith

abbrev pub attribute : ℕ → ℕ → ℕ
attribute c color = bits_or c color % 65536

fill_row-console :
    (left color : ℕ) (cp : ConsolePrinter) (i : ℕ)
    → (fill_row left color cp).console i
      ≡ (if leb cp.cell i && ltb i (cp.cell + left) then attribute b' ' color else cp.console i)
unfolding fill_row put_cell
fill_row-console zero color cp i = ground arith
fill_row-console (suc left) color cp i =
    fill_row-console left color (put_cell b' ' color cp) i ∙ ground arith

-- The cells that a character takes, and what it puts there.
abbrev pub width : ℕ → ℕ → ℕ
width c cell = if c == b'\n' then 80 - cell % 80 else 1

abbrev pub shown : ℕ → ℕ
shown c = if c == b'\n' then b' ' else c

-- n cells from the current one on hold c, and nothing else changes.
record IsPut (c n color : ℕ) (cp after : ConsolePrinter) : Type 0 where
  cell : after.cell ≡ cp.cell + n
  console :
      (i : ℕ)
      → after.console i
        ≡ (if leb cp.cell i && ltb i (cp.cell + n) then attribute c color else cp.console i)

putc-IsPut :
    (c color : ℕ) (cp : ConsolePrinter)
    → cp.cell ≤ 2000
    → IsPut (shown c) (width c (ready cp).cell) color (ready cp) (putc c color cp)
unfolding putc put_cell
putc-IsPut c color cp h =
    let one = scroll_all-ready cp.cell cp h in
    elim (Bool-cases (c == b'\n')) [
      | inl newline ↦
          rw (one, newline)
            record {
              cell = fill_row-cell (80 - (ready cp).cell % 80) color (ready cp);
              console = fill_row-console (80 - (ready cp).cell % 80) color (ready cp);
            }
      | inr other ↦ rw (one, other) record { cell = refl; console = λ i. ground arith }
    ]

-- The first cell that putc writes, and the console that it writes to.
abbrev pub start : ConsolePrinter → ℕ
start cp = if cp.cell == 2000 then 1920 else cp.cell

abbrev pub shifted : ConsolePrinter → Memory
shifted cp i =
    if cp.cell == 2000 && ltb i 2000
    then (if ltb i 1920 then cp.console (i + 80) else 0)
    else cp.console i

ready-start : (cp : ConsolePrinter) → cp.cell ≤ 2000 → cp.scroll ≡ true → (ready cp).cell ≡ start cp
unfolding scroll
ready-start cp h e = ground arith

ready-shifted :
    (cp : ConsolePrinter) (i : ℕ)
    → cp.cell ≤ 2000
    → cp.scroll ≡ true
    → (ready cp).console i ≡ shifted cp i
unfolding scroll
ready-shifted cp i h e = ground (arith, memmove-copied 0 80 1920 cp.console i)

-- For a printer that scrolls, within the console: putc first moves every row up by one and clears
-- the last if the console is full. It then writes the character, or spaces up to the end of the
-- row for a newline, with the color, moves behind them, and changes no other cell.
pub putc_lem :
    (c color i : ℕ) (cp : ConsolePrinter)
    → cp.cell ≤ 2000
    → cp.scroll ≡ true
    → ((putc c color cp).cell ≡ start cp + width c (start cp))
      × ((putc c color cp).console i ≡ (
          if leb (start cp) i && ltb i (start cp + width c (start cp))
          then attribute (shown c) color
          else shifted cp i))
putc_lem c color i cp h e =
    let put = putc-IsPut c color cp h in
    let from = ready-start cp h e in
    let there = ready-shifted cp i h e in
    (
      put.cell ∙ ap (λ p. p + width c p) from,
      put.console i
          ∙ rw (there) (
              ap
                (λ p.
                  if leb p i && ltb i (p + width c p)
                  then attribute (shown c) color
                  else shifted cp i)
                from),
    )

-- A row ends at a multiple of 80, and so within the console.
row_end : (n : ℕ) → n < 2000 → n + (80 - n % 80) ≤ 2000
row_end n h = omega arith

module _ (old : Memory) where
  ready-IsInside : (cp : ConsolePrinter) → IsInside old cp → IsInside old (ready cp)
  unfolding scroll
  ready-IsInside cp h = record {
    cell = omega (arith, ready-cell cp h.cell);
    outside = λ i l. ground (arith, h.outside i, memmove-copied 0 80 1920 cp.console i);
  }

  putc-IsInside :
      (c color : ℕ) (cp : ConsolePrinter) → IsInside old cp → IsInside old (putc c color cp)
  putc-IsInside c color cp h =
      let put = putc-IsPut c color cp h.cell in
      let less = ready-cell cp h.cell in
      let fits : (ready cp).cell + width c (ready cp).cell ≤ 2000 =
        ground (arith, row_end (ready cp).cell less) in
      record {
        cell = omega (arith, put.cell, fits);
        outside = λ i l. put.console i ∙ ground (arith, fits, (ready-IsInside cp h).outside i);
      }

  replay-IsInside :
      (out : Output) (cp : ConsolePrinter) → IsInside old cp → IsInside old (replay putc out cp)
  replay-IsInside [] cp h = h
  replay-IsInside ((c, color) ∷ out) cp h =
      putc-IsInside c color (replay putc out cp) (replay-IsInside out cp h)

  put_text-IsInside :
      (t : Str) (color : ℕ) (cp : ConsolePrinter)
      → IsInside old cp
      → IsInside old (put_text putc t color cp)
  put_text-IsInside [] color cp h = h
  put_text-IsInside (c ∷ t) color cp h =
      put_text-IsInside t color (putc c color cp) (putc-IsInside c color cp h)

-- The result, the cursor and the cells behind the console.
abbrev pub StaysInside : Screen → ℕ × Screen → Type 0
StaysInside s r =
    (r.0 ≤ 2000) × (r.1.cursorpos ≤ 2000) × ((i : ℕ) → 2000 ≤ i → r.1.console i ≡ s.console i)

console_printer-IsInside :
    (cpos : Option ℕ) (s : Screen)
    → s.cursorpos ≤ 2000
    → IsInside s.console (console_printer cpos s)
unfolding console_printer
console_printer-IsInside none s h = record { cell = h; outside = λ i l. refl }
console_printer-IsInside (some cpos) s h = record { cell = ground arith; outside = λ i l. refl }

cursor_moved-StaysInside :
    (cpos : Option ℕ) (s : Screen) (cp : ConsolePrinter)
    → s.cursorpos ≤ 2000
    → IsInside s.console cp
    → StaysInside s (cursor_moved cpos s cp)
unfolding cursor_moved
cursor_moved-StaysInside none s cp c h = (h.cell, h.cell, h.outside)
cursor_moved-StaysInside (some cpos) s cp c h = (h.cell, c, h.outside)

pub console_puts-StaysInside :
    (cpos : Option ℕ) (color : ℕ) (str : Str) (s : Screen)
    → s.cursorpos ≤ 2000
    → StaysInside s (console_puts cpos color str s)
unfolding console_puts
console_puts-StaysInside cpos color str s h =
    cursor_moved-StaysInside cpos s (put_text putc str color (console_printer cpos s)) h (
      put_text-IsInside s.console str color (console_printer cpos s)
        (console_printer-IsInside cpos s h))

-- With the cursor within the console, and a format and arguments for which vprintf, on a printer
-- that only collects the characters, ends with an output: console_vprintf at the cursor or at any
-- position ends, its result and the cursor are within the console, and no cell behind the console
-- is written, however often it scrolls.
pub console_vprintf-StaysInside :
    (cpos : Option ℕ) (color : ℕ) (format : Str) (val : List Arg) (s : Screen) (out : Output)
    → s.cursorpos ≤ 2000
    → vprintf collect (suc (length format)) color format val [] ≡ some out
    → (r : ℕ × Screen) × (console_vprintf cpos color format val s ≡ some r) × StaysInside s r
unfolding console_vprintf
console_vprintf-StaysInside cpos color format val s out h e =
    let cp = console_printer cpos s in
    let run = vprintf-replay putc cp (suc (length format)) color format val [] in
    (
      cursor_moved cpos s (replay putc out cp),
      ap (cursor_moved_by cpos s) (run ∙ ap (λ o. replayed putc o cp) e),
      cursor_moved-StaysInside cpos s (replay putc out cp) h
          (replay-IsInside s.console out cp (console_printer-IsInside cpos s h)),
    )
