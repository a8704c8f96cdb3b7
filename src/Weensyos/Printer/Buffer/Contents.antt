-- ===== src/Weensyos/Printer/Buffer/Contents.antt =====
-- What vsnprintf of weensyos/lib.cc leaves in the buffer and around it.
use cs300_s23_projects_days.Prelude.{
  ℕ, zero, suc, ◌+◌, ◌-◌, ◌≡◌, refl, ap, ◌∙◌, ◌&&◌, ◌||◌, some, List, [], ◌∷◌, ◌++◌, Str, ltb, leb,
  ◌==◌, if◌then◌else◌, arith, length, length-append,
}
use cs300_s23_projects_days.Weensyos.Bytes.{Memory}
use cs300_s23_projects_days.Weensyos.Numbers.{elem}
use cs300_s23_projects_days.Weensyos.Printer.{vprintf}
use cs300_s23_projects_days.Weensyos.Printer.Convert.{Arg}
use cs300_s23_projects_days.Weensyos.Printer.Output.{
  Output, collect, replay, replayed, vprintf-replay,
}
use cs300_s23_projects_days.Weensyos.Printer.Buffer.{
  StringPrinter, putc, string_printer, terminated, finished, vsnprintf,
}

-- The characters of an output in the order in which they were put.
abbrev pub chars : Output → Str
chars [] = []
chars ((c, color) ∷ out) = chars out ++ (c ∷ [])

pub length-chars : (out : Output) → length (chars out) ≡ length out
length-chars [] = refl
length-chars ((c, color) ∷ out) =
    omega (arith, length-append (chars out) (c ∷ []), length-chars out)

elem-append :
    (xs : Str) (c i : ℕ) → elem (xs ++ (c ∷ [])) i ≡ (if i == length xs then c else elem xs i)
elem-append [] c zero = refl
elem-append [] c (suc i) = ground arith
elem-append (x ∷ xs) c zero = ground arith
elem-append (x ∷ xs) c (suc i) = elem-append xs c i ∙ ground arith

abbrev least : ℕ → ℕ → ℕ
least a b = if ltb a b then a else b

-- The state of the printer behind an output.
record IsBuffer (s size : ℕ) (m : Memory) (out : Output) (sp : StringPrinter) : Type 0 where
  position : sp.s ≡ s + least (length out) size
  end : sp.end ≡ s + size
  count : sp.n ≡ length out
  memory :
      (a : ℕ)
      → sp.memory a
        ≡ (if leb s a && ltb a (s + least (length out) size) then elem (chars out) (a - s) else m a)

module _ (s size : ℕ) (m : Memory) where
  IsBuffer-putc :
      (c color : ℕ) (out : Output) (sp : StringPrinter)
      → IsBuffer s size m out sp
      → IsBuffer s size m ((c, color) ∷ out) (putc c color sp)
  unfolding putc
  IsBuffer-putc c color out sp b = record {
    position = ground (arith, b.position, b.end);
    end = ground (arith, b.end);
    count = ground (arith, b.count);
    memory = λ a.
        ground (
          arith,
          b.position,
          b.end,
          b.memory a,
          elem-append (chars out) c (a - s),
          length-chars out,
        );
  }

  replay-IsBuffer :
      (out : Output) → IsBuffer s size m out (replay putc out (string_printer s size m))
  unfolding string_printer
  replay-IsBuffer [] = record {
    position = ground arith;
    end = refl;
    count = refl;
    memory = λ a. ground arith;
  }
  replay-IsBuffer ((c, color) ∷ out) =
      IsBuffer-putc c color out (replay putc out (string_printer s size m)) (replay-IsBuffer out)

  -- The memory behind vsnprintf: the characters that fit, and a NUL.
  abbrev pub buffered : Output → Memory
  buffered out a =
      if ltb a s || leb (s + size) a
      then m a
      else if ltb (a - s) (least (length out) (size - 1))
      then elem (chars out) (a - s)
      else if a - s == least (length out) (size - 1)
      then 0
      else m a

  terminated-buffered :
      (out : Output) (sp : StringPrinter) (a : ℕ)
      → IsBuffer s size m out sp
      → terminated size sp a ≡ buffered out a
  unfolding terminated
  terminated-buffered out sp a b = ground (arith, b.position, b.end, b.memory a)

  -- For a format and arguments for which vprintf, on a printer that only collects the characters,
  -- ends with an output: vsnprintf returns the number of these characters, whatever the size of
  -- the buffer. It leaves in the buffer as many of them as fit in front of a NUL, then the NUL,
  -- and changes nothing behind it or outside of the buffer; with the size 0 it changes nothing.
  pub vsnprintf-buffered :
      (format : Str) (val : List Arg) (out : Output)
      → vprintf collect (suc (length format)) 0 format val [] ≡ some out
      → (m' : Memory) × (vsnprintf s size format val m ≡ some (length out, m'))
        × ((a : ℕ) → m' a ≡ buffered out a)
  unfolding vsnprintf
  vsnprintf-buffered format val out h =
      let sp = replay putc out (string_printer s size m) in
      let b = replay-IsBuffer out in
      let run : vprintf putc (suc (length format)) 0 format val (string_printer s size m)
          ≡ some sp =
        vprintf-replay putc (string_printer s size m) (suc (length format)) 0 format val []
        ∙ ap (λ o. replayed putc o (string_printer s size m)) h in
      (
        terminated size sp,
        ap (finished size) run ∙ ap (λ n. some (n, terminated size sp)) b.count,
        λ a. terminated-buffered out sp a b,
      )
