-- ===== src/Weensyos/Numbers/RoundTrip.antt =====
-- fill_numbuf of weensyos/lib.cc: the digits that it writes, the room that they take in numbuf,
-- and the way back by strtoul.
use native.Mathlib.Nat.{div-lt_iff_lt-mul, div-add-mod', mod-lt}
use cs300_s23_projects_days.Prelude.{
  ℕ, zero, suc, ◌+◌, ◌*◌, ◌/◌, ◌%◌, ◌^◌, List, ◌≤◌, ◌<◌, ◌≡◌, refl, ap, ◌∙◌, Bool, true, Option,
  some, [], ◌∷◌, Str, ltb, ◌==◌, word_mod, arith, inl, inr, Bool-cases, All, length, length-map,
}
use cs300_s23_projects_days.Weensyos.Numbers.{strtoul, elem, fill_digits, fill_numbuf}
use cs300_s23_projects_days.Weensyos.Numbers.Value.{numeral}
use cs300_s23_projects_days.Weensyos.Numbers.Print.{table, written, strtoul-numeral}

-- What a run of the loop with val leaves, before the digits ds.
pub record Filled (lower : Bool) (base val : ℕ) (ds : List ℕ) (room : ℕ) (r : Option Str)
    : Type 0 where
  pub digits : List ℕ
  pub result : r ≡ some (written lower digits)
  pub below : All (λ d. d < base) digits
  pub value : numeral base 0 digits ≡ numeral base val ds
  pub space : length digits ≤ length ds + room

module _ (lower : Bool) (base : ℕ) (ten : 10 ≤ base) (small : base ≤ 16) where
  quotient : (val p : ℕ) → val < 10 * p → val / base < p
  quotient val p l =
      let more : 10 * p ≤ p * base = grind arith in
      (div-lt_iff_lt-mul {k = base} {x = val} {y = p} (omega arith)).1 (omega arith)

  Filled-last :
      (val k : ℕ) (ds : List ℕ)
      → All (λ d. d < base) ds
      → val / base ≡ 0
      → Filled lower base val ds (suc k) (some (written lower ((val % base) ∷ ds)))
  Filled-last val k ds h last =
      let split = div-add-mod' val base in
      record {
        digits = (val % base) ∷ ds;
        result = refl;
        below = (mod-lt val (omega arith), h);
        value = ap (λ x. numeral base x ds) (ground arith);
        space = omega arith;
      }

  Filled-more :
      (val k : ℕ) (ds : List ℕ) {r : Option Str}
      → Filled lower base (val / base) ((val % base) ∷ ds) k r
      → Filled lower base val ds (suc k) r
  Filled-more val k ds w = record {
    digits = w.digits;
    result = w.result;
    below = w.below;
    value = w.value ∙ ap (λ x. numeral base x ds) (div-add-mod' val base);
    space = omega (arith, w.space);
  }

  Filled-loop :
      (fuel k val : ℕ) (ds : List ℕ)
      → k < fuel
      → val < 10 ^ suc k
      → All (λ d. d < base) ds
      → Filled lower base val ds
          (suc k)
          (fill_digits fuel (table lower) val base (written lower ds))
  unfolding fill_digits
  Filled-loop zero k val ds f l h = absurd (omega arith)
  Filled-loop (suc fuel) zero val ds f l h =
      let last : val / base ≡ 0 = omega (arith, quotient val 1 (omega arith)) in
      rw (last) (Filled-last val 0 ds h last)
  Filled-loop (suc fuel) (suc k) val ds f l h = elim (Bool-cases (val / base == 0)) [
    | inl last ↦ rw (last) (Filled-last val (suc k) ds h (ground arith))
    | inr more ↦
        let less = quotient val (10 ^ suc k) (omega arith) in
        let digit : val % base < base = mod-lt val (omega arith) in
        rw (more) (
          Filled-more val (suc k) ds
            (Filled-loop fuel k (val / base) ((val % base) ∷ ds) (omega arith) less (digit, h)))
  ]

  pub fill_numbuf-Filled :
      (val : ℕ) → val < word_mod → Filled lower base val [] 20 (fill_numbuf val lower base)
  unfolding fill_numbuf
  fill_numbuf-Filled val l = Filled-loop 64 19 val [] (omega arith) (omega arith) tt

  pub strtoul-Filled :
      (val : ℕ) {room : ℕ} {r : Option Str} (w : Filled lower base val [] room r)
      → val < word_mod
      → strtoul (written lower w.digits) base ≡ (val, [])
  strtoul-Filled val w l =
      let value : ltb (numeral base 0 w.digits) word_mod ≡ true = ground (arith, w.value) in
      strtoul-numeral lower base w.digits (omega arith) small w.below
      ∙ rw (value) (ap (λ x. (x, [])) w.value)

  -- For a base from 10 to 16, digits in capitals or small letters, and every 64-bit number: the
  -- loop of fill_numbuf ends with a string that fits with its NUL into the 24 bytes of numbuf.
  -- strtoul reads the number back from it, up to its end.
  pub strtoul-fill_numbuf :
      (val : ℕ)
      → val < word_mod
      → (s : Str) × (fill_numbuf val lower base ≡ some s)
        × (length s + 1 ≤ 24)
        × (strtoul s base ≡ (val, []))
  strtoul-fill_numbuf val l =
      let w = fill_numbuf-Filled val l in
      (
        written lower w.digits,
        w.result,
        omega (arith, length-map w.digits (elem (table lower)), w.space),
        strtoul-Filled val w l,
      )
