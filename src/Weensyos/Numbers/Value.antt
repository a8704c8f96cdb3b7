-- ===== src/Weensyos/Numbers/Value.antt =====
-- What strtoul of weensyos/lib.cc reads from a string of digits.
use native.Mathlib.Nat.{div-lt_iff_lt-mul}
use cs300_s23_projects_days.Prelude.{
  ℕ, ◌+◌, ◌-◌, ◌*◌, ◌%◌, List, ltb→lt, lt→ltb, ◌≤◌, ◌<◌, ◌≡◌, refl, ap, ◌∙◌, Bool, true, false,
  some, [], ◌∷◌, Str, leb, if◌then◌else◌, word_mod, arith, inl, inr, Bool-cases,
}
use cs300_s23_projects_days.Weensyos.Numbers.{digit, too_large, read_digits}

-- The bytes are digits of the base, with these values.
abbrev pub Digits : ℕ → Str → List ℕ → Type 0
Digits base [] [] = Unit
Digits base [] (d ∷ ds) = ⊥
Digits base (c ∷ cs) [] = ⊥
Digits base (c ∷ cs) (d ∷ ds) = (digit base c ≡ some d) × (d < base) × Digits base cs ds

-- The number that the digits write, behind those of x.
abbrev pub numeral : ℕ → ℕ → List ℕ → ℕ
numeral base x [] = x
numeral base x (d ∷ ds) = numeral base (x * base + d) ds

numeral-le : (base x : ℕ) (ds : List ℕ) → 0 < base → x ≤ numeral base x ds
numeral-le base x [] h = omega arith
numeral-le base x (d ∷ ds) h =
    let ih = numeral-le base (x * base + d) ds h in
    let grows : x ≤ x * base + d = grind arith in omega (arith, ih, grows)

too_large_iff :
    (base x d : ℕ) → 0 < base → d < word_mod → too_large base x d ≡ leb word_mod (x * base + d)
too_large_iff base x d h l =
    let e = div-lt_iff_lt-mul {k = base} {x = word_mod - 1 - d} {y = x} h in
    elim (Bool-cases (too_large base x d)) [
      | inl large ↦ let m = e.0 (ltb→lt _ _ large) in rw (large) (ground arith)
      | inr small ↦ elim (Bool-cases (leb word_mod (x * base + d))) [
        | inl past ↦ let m = e.1 (ground arith) in rw (past) (lt→ltb _ _ m)
        | inr fits ↦ rw (small, fits) refl
      ]
    ]

read_digits_step :
    (base x c d : ℕ) (overflow : Bool) (cs : Str)
    → digit base c ≡ some d
    → read_digits base x overflow (c ∷ cs)
      ≡ read_digits base
          (if too_large base x d then x else (x * base + d) % word_mod)
          (if too_large base x d then true else overflow)
          cs
unfolding read_digits
read_digits_step base x c d overflow cs h = rw (h, read_digits) refl

read_digits-overflow :
    (base x : ℕ) (cs : Str) (ds : List ℕ)
    → Digits base cs ds
    → (x' : ℕ) × (read_digits base x true cs ≡ (x', true, []))
unfolding read_digits
read_digits-overflow base x [] [] h = (x, refl)
read_digits-overflow base x [] (d ∷ ds) h = absurd h
read_digits-overflow base x (c ∷ cs) [] h = absurd h
read_digits-overflow base x (c ∷ cs) (d ∷ ds) h =
    let (x', e) =
      read_digits-overflow base (if too_large base x d then x else (x * base + d) % word_mod) cs ds
        h.2 in
    (x', read_digits_step base x c d true cs h.0 ∙ ground (arith, e))

module _ (base : ℕ) (some_base : 0 < base) (small : base ≤ 36) where
  pub read_digits-fits :
      (x : ℕ) (cs : Str) (ds : List ℕ)
      → Digits base cs ds
      → numeral base x ds < word_mod
      → read_digits base x false cs ≡ (numeral base x ds, false, [])
  unfolding read_digits
  read_digits-fits x [] [] h l = refl
  read_digits-fits x [] (d ∷ ds) h l = absurd h
  read_digits-fits x (c ∷ cs) [] h l = absurd h
  read_digits-fits x (c ∷ cs) (d ∷ ds) h l =
      let m = numeral-le base (x * base + d) ds some_base in
      let fits : leb word_mod (x * base + d) ≡ false = ground arith in
      let large = too_large_iff base x d some_base (omega arith) ∙ fits in
      let same : (x * base + d) % word_mod ≡ x * base + d = omega arith in
      read_digits_step base x c d false cs h.0
      ∙ rw (large, same) (read_digits-fits (x * base + d) cs ds h.2 l)

  pub read_digits-past :
      (x : ℕ) (cs : Str) (ds : List ℕ)
      → x < word_mod
      → Digits base cs ds
      → word_mod ≤ numeral base x ds
      → (x' : ℕ) × (read_digits base x false cs ≡ (x', true, []))
  unfolding read_digits
  read_digits-past x [] [] b h l = absurd (omega arith)
  read_digits-past x [] (d ∷ ds) b h l = absurd h
  read_digits-past x (c ∷ cs) [] b h l = absurd h
  read_digits-past x (c ∷ cs) (d ∷ ds) b h l =
      let large = too_large_iff base x d some_base (omega arith) in
      elim (Bool-cases (leb word_mod (x * base + d))) [
        | inl past ↦
            let (x', e) = read_digits-overflow base x cs ds h.2 in
            (x', read_digits_step base x c d false cs h.0 ∙ rw (large, past) e)
        | inr fits ↦
            let same : (x * base + d) % word_mod ≡ x * base + d = ground arith in
            let (x', e) = read_digits-past (x * base + d) cs ds (ground arith) h.2 l in
            (
              x',
              read_digits_step base x c d false cs h.0
                  ∙ rw (large, fits) (ap (λ y. read_digits base y false cs) same ∙ e),
            )
      ]
