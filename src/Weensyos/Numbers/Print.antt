-- ===== src/Weensyos/Numbers/Print.antt =====
-- fill_numbuf of weensyos/lib.cc, and strtoul on what it writes.
use cs300_s23_projects_days.Prelude.{
  ℕ, zero, suc, ◌+◌, ◌-◌, List, ltb→lt, ◌≤◌, ◌<◌, ◌≡◌, ◌≢◌, refl, ap, ◌∙◌, Bool, true, false, ◌&&◌,
  some, [], length, ◌∷◌, Str, ltb, ◌==◌, ==_iff, if◌then◌else◌, word_mod, arith, inl, inr,
  Bool-cases, All, map,
}
use cs300_s23_projects_days.Weensyos.Numbers.{
  first, skip_spaces, digit, read_digits, strtoul, elem, upper_digits, lower_digits, is_hex_prefix,
}
use cs300_s23_projects_days.Weensyos.Numbers.Value.{
  Digits, numeral, read_digits-fits, read_digits-past,
}

-- The tables, entry by entry.
abbrev pub table : Bool → Str
table lower = if lower then lower_digits else upper_digits

abbrev entry : Bool → ℕ → ℕ
entry lower d = if ltb d 10 then d + b'0' else d - 10 + (if lower then b'a' else b'A')

-- A table that goes on with the entry for n.
agrees : Bool → ℕ → Str → Bool
agrees lower n [] = true
agrees lower n (c ∷ cs) = c == entry lower n && agrees lower (suc n) cs

elem-agrees :
    (lower : Bool) (n : ℕ) (cs : Str) (d : ℕ)
    → agrees lower n cs ≡ true
    → d < length cs
    → elem cs d ≡ entry lower (n + d)
unfolding agrees
elem-agrees lower n [] d h l = absurd (omega arith)
elem-agrees lower n (c ∷ cs) zero h l =
    let same : c ≡ entry lower n = ground (arith, ==_iff c (entry lower n)) in
    same ∙ ap (entry lower) (omega arith)
elem-agrees lower n (c ∷ cs) (suc d) h l =
    elem-agrees lower (suc n) cs d (ground arith) (omega arith) ∙ ap (entry lower) (omega arith)

tables_agree : (lower : Bool) → agrees lower 0 (table lower) ≡ true
unfolding agrees
tables_agree true = refl
tables_agree false = refl

elem-entry : (lower : Bool) (d : ℕ) → d < 16 → elem (table lower) d ≡ entry lower d
elem-entry true d l =
    elem-agrees true 0 (table true) d (tables_agree true) l ∙ ap (entry true) (omega arith)
elem-entry false d l =
    elem-agrees false 0 (table false) d (tables_agree false) l ∙ ap (entry false) (omega arith)

digit-elem :
    (lower : Bool) (base d : ℕ) → d < base → base ≤ 16 → digit base (elem (table lower) d) ≡ some d
unfolding digit
digit-elem true base d l small = rw (elem-entry true d (omega arith)) (ground arith)
digit-elem false base d l small = rw (elem-entry false d (omega arith)) (ground arith)

-- The digits of ds, in capitals or small letters.
abbrev pub written : Bool → List ℕ → Str
written lower ds = map (elem (table lower)) ds

written-Digits :
    (lower : Bool) (base : ℕ) (ds : List ℕ)
    → base ≤ 16
    → All (λ d. d < base) ds
    → Digits base (written lower ds) ds
written-Digits lower base [] small h = tt
written-Digits lower base (d ∷ ds) small h =
    (digit-elem lower base d h.0 small, h.0, written-Digits lower base ds small h.1)

-- What strtoul asks of the first two bytes.
pub record IsPlain (s : Str) : Type 0 where
  pub spaces : skip_spaces s ≡ s
  pub minus : first s == b'-' ≡ false
  pub plus : first s == b'+' ≡ false
  pub hex : is_hex_prefix s ≡ false

entry_plain :
    (lower : Bool) (d : ℕ)
    → d < 16
    → (b'0' ≤ entry lower d) × (entry lower d < b'g') × (entry lower d ≢ b'X')
entry_plain true d l = ground arith
entry_plain false d l = ground arith

pub elem_plain :
    (lower : Bool) (d : ℕ)
    → d < 16
    → (b'0' ≤ elem (table lower) d) × (elem (table lower) d < b'g') × (elem (table lower) d ≢ b'X')
elem_plain lower d l = rw (elem-entry lower d l) (entry_plain lower d l)

cons-IsPlain :
    (c : ℕ) (cs : Str) → b'0' ≤ c → c < b'g' → first cs ≢ b'x' → first cs ≢ b'X' → IsPlain (c ∷ cs)
unfolding skip_spaces
cons-IsPlain c cs lo hi x y = record {
  spaces = ground arith;
  minus = ground arith;
  plus = ground arith;
  hex = ground arith;
}

pub written-IsPlain :
    (lower : Bool) (ds : List ℕ) → All (λ d. d < 16) ds → IsPlain (written lower ds)
unfolding skip_spaces
written-IsPlain lower [] h = record { spaces = refl; minus = refl; plus = refl; hex = refl }
written-IsPlain lower (d ∷ []) h =
    let (lo, hi, _) = elem_plain lower d h.0 in
    cons-IsPlain (elem (table lower) d) [] lo hi (omega arith) (omega arith)
written-IsPlain lower (d ∷ d' ∷ ds) h =
    let (lo, hi, _) = elem_plain lower d h.0 in
    let (_, hi', y) = elem_plain lower d' h.1.0 in
    cons-IsPlain (elem (table lower) d) (written lower (d' ∷ ds)) lo hi (omega arith) y

-- The value for what the loop has read.
abbrev saturated : ℕ × Bool × Str → ℕ × Str
saturated (x, overflow, end) = (if overflow then word_mod - 1 else x, end)

strtoul-read_digits :
    (s : Str) (base : ℕ)
    → 0 < base
    → IsPlain s
    → strtoul s base ≡ saturated (read_digits base 0 false s)
unfolding strtoul
strtoul-read_digits s base some_base p =
    let positive : base == 0 ≡ false = ground arith in
    rw (p.spaces, p.minus, p.plus, positive, p.hex)
      (elim (Bool-cases (base == 16)) [ inl e ↦ rw (e) refl | inr e ↦ rw (e) refl ])

pub All-16 : (base : ℕ) (ds : List ℕ) → base ≤ 16 → All (λ d. d < base) ds → All (λ d. d < 16) ds
All-16 base [] small h = tt
All-16 base (d ∷ ds) small h = (omega arith, All-16 base ds small h.1)

-- For a base from 2 to 16 and any digits of it, in capitals or small letters: strtoul reads all
-- of them and answers their value if it is below 2^64, else 2^64 - 1.
pub strtoul-numeral :
    (lower : Bool) (base : ℕ) (ds : List ℕ)
    → 2 ≤ base
    → base ≤ 16
    → All (λ d. d < base) ds
    → strtoul (written lower ds) base
      ≡ (if ltb (numeral base 0 ds) word_mod then numeral base 0 ds else word_mod - 1, [])
strtoul-numeral lower base ds two small h =
    let digits = written-Digits lower base ds small h in
    let plain = written-IsPlain lower ds (All-16 base ds small h) in
    strtoul-read_digits (written lower ds) base (omega arith) plain
    ∙ elim (Bool-cases (ltb (numeral base 0 ds) word_mod)) [
      | inl fits ↦ rw (fits) (
          ap saturated (
            read_digits-fits base (omega arith) (omega arith) 0 (written lower ds) ds digits
              (ltb→lt _ _ fits)))
      | inr past ↦
          let (x, e) =
            read_digits-past base (omega arith) (omega arith) 0 (written lower ds) ds (omega arith)
              digits (ground arith) in
          rw (past) (ap saturated e)
    ]
