-- ===== src/Prelude/Strings.antt =====
-- `std::string` as a list of bytes, with the comparisons of `std::string`.
use Prim.Native.Nat.{ℕ}
use Prim.Native.Char.{code}
use Prim.Native.String.{String}
use mathlib.Core.Path.{◌≡◌, refl}
use mathlib.Core.Logic.{◌↔◌, inl, inr}
use mathlib.Core.Bool.{Bool, true, false, not, ◌&&◌, ◌||◌}
use mathlib.Core.List.{List, [], ◌∷◌}
use native.Mathlib.Omega.{arith}
use cs300_s23_projects_days.Prelude.Tests.{ltb, ◌==◌, Bool-cases}

abbrev pub Str : Type 0
Str = List ℕ

-- The bytes of an ASCII literal.
abbrev pub codes : String → Str
codes String.[] = []
codes (String.◌∷◌ c s) = code c ∷ codes s

-- operator==
unfoldable pub str_eq : Str → Str → Bool
str_eq [] [] = true
str_eq [] (y ∷ ys) = false
str_eq (x ∷ xs) [] = false
str_eq (x ∷ xs) (y ∷ ys) = x == y && str_eq xs ys

-- operator<: lexicographic on bytes.
unfoldable pub str_lt : Str → Str → Bool
str_lt [] [] = false
str_lt [] (y ∷ ys) = true
str_lt (x ∷ xs) [] = false
str_lt (x ∷ xs) (y ∷ ys) = ltb x y || (x == y && str_lt xs ys)

-- operator<=
abbrev pub str_le : Str → Str → Bool
str_le a b = not (str_lt b a)

pub str_eq_refl : (a : Str) → str_eq a a ≡ true
unfolding str_eq
str_eq_refl [] = refl
str_eq_refl (x ∷ xs) = ground (arith, str_eq_refl xs)

pub str_eq→eq : (a b : Str) → str_eq a b ≡ true → a ≡ b
unfolding str_eq
str_eq→eq [] [] h = refl
str_eq→eq [] (y ∷ ys) h = cc
str_eq→eq (x ∷ xs) [] h = cc
str_eq→eq (x ∷ xs) (y ∷ ys) h = ground (arith, str_eq→eq xs ys)

pub str_eq_iff : (a b : Str) → (str_eq a b ≡ true) ↔ (a ≡ b)
str_eq_iff a b = (str_eq→eq a b, λ e. rw e (str_eq_refl b))

pub str_eq_comm : (a b : Str) → str_eq a b ≡ str_eq b a
unfolding str_eq
str_eq_comm [] [] = refl
str_eq_comm [] (y ∷ ys) = refl
str_eq_comm (x ∷ xs) [] = refl
str_eq_comm (x ∷ xs) (y ∷ ys) = ground (arith, str_eq_comm xs ys)

pub str_lt_irrefl : (a : Str) → str_lt a a ≡ false
unfolding str_lt
str_lt_irrefl [] = refl
str_lt_irrefl (x ∷ xs) = ground (arith, str_lt_irrefl xs)

pub str_lt_trans : (a b c : Str) → str_lt a b ≡ true → str_lt b c ≡ true → str_lt a c ≡ true
unfolding str_lt
str_lt_trans [] [] c h k = cc
str_lt_trans [] (y ∷ ys) [] h k = cc
str_lt_trans [] (y ∷ ys) (z ∷ zs) h k = refl
str_lt_trans (x ∷ xs) [] c h k = cc
str_lt_trans (x ∷ xs) (y ∷ ys) [] h k = cc
str_lt_trans (x ∷ xs) (y ∷ ys) (z ∷ zs) h k = ground (arith, str_lt_trans xs ys zs)

pub str_lt_asymm : (a b : Str) → str_lt a b ≡ true → str_lt b a ≡ false
unfolding str_lt
str_lt_asymm [] [] h = cc
str_lt_asymm [] (y ∷ ys) h = refl
str_lt_asymm (x ∷ xs) [] h = cc
str_lt_asymm (x ∷ xs) (y ∷ ys) h = ground (arith, str_lt_asymm xs ys)

-- Neither is below the other only where they are equal.
pub str_lt_connected : (a b : Str) → str_lt a b ≡ false → str_lt b a ≡ false → str_eq a b ≡ true
unfolding str_lt str_eq
str_lt_connected [] [] h k = refl
str_lt_connected [] (y ∷ ys) h k = cc
str_lt_connected (x ∷ xs) [] h k = cc
str_lt_connected (x ∷ xs) (y ∷ ys) h k = ground (arith, str_lt_connected xs ys)

pub str_lt→ne : (a b : Str) → str_lt a b ≡ true → str_eq a b ≡ false
unfolding str_lt str_eq
str_lt→ne [] [] h = cc
str_lt→ne [] (y ∷ ys) h = refl
str_lt→ne (x ∷ xs) [] h = cc
str_lt→ne (x ∷ xs) (y ∷ ys) h = ground (arith, str_lt→ne xs ys)

-- Nothing lies between two bounds in the wrong order.
pub str_between : (s b c : Str) → str_lt b c ≡ true → (str_le c s && str_le s b) ≡ false
str_between s b c h = elim (Bool-cases (str_lt s b)) [
  | inl p ↦ ground (arith, str_lt_trans s b c p h)
  | inr p ↦ elim (Bool-cases (str_lt b s)) [
    | inl q ↦ ground arith
    | inr q ↦ rw (str_eq→eq s b (str_lt_connected s b p q)) (ground arith)
  ]
]
