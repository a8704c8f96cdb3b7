-- ===== src/Weensyos/Map/Bits.antt =====
-- a | b of weensyos/k-vmiter.cc is a sum where a and b have no bit in common.
use native.Mathlib.Nat.{two-pow-succ, mul-add}
use cs300_s23_projects_days.Prelude.{
  ℕ, zero, suc, ◌+◌, ◌*◌, ◌/◌, ◌%◌, ◌^◌, ◌<◌, ◌≡◌, refl, subst, arith,
}
use cs300_s23_projects_days.Weensyos.{bits_and, bits_or}

bits_and-zero : (a b : ℕ) → bits_and zero a b ≡ 0
unfolding bits_and
bits_and-zero a b = refl

bits_and_none : (n a : ℕ) → bits_and n a 0 ≡ 0
unfolding bits_and
bits_and_none zero a = refl
bits_and_none (suc n) a = omega (arith, bits_and_none n (a / 2))

double_bits : (n x b : ℕ) → bits_and (suc n) (x * 2) b ≡ 2 * bits_and n x (b / 2)
unfolding bits_and
double_bits n x b =
    let even : x * 2 % 2 ≡ 0 = omega arith in
    let half : x * 2 / 2 ≡ x = omega arith in rw (even, half) (omega arith)

-- Numbers without a common bit.
bits_and_apart : (k n c b : ℕ) → b < 2 ^ k → bits_and n (c * 2 ^ k) b ≡ 0
bits_and_apart k zero c b l = bits_and-zero (c * 2 ^ k) b
bits_and_apart zero (suc n) c b l =
    let z : b ≡ 0 = omega arith in rw (z) (bits_and_none (suc n) (c * 1))
bits_and_apart (suc k) (suc n) c b l =
    let p = two-pow-succ k in
    let e : c * 2 ^ suc k ≡ c * 2 ^ k * 2 = rw (p) (omega (arith, mul-add c (2 ^ k) (2 ^ k))) in
    let small : b / 2 < 2 ^ k = omega (arith, p) in
    rw (e, double_bits n (c * 2 ^ k) b, bits_and_apart k n c (b / 2) small) refl

pub bits_or_sum : (a b : ℕ) → a % 4096 ≡ 0 → b < 4096 → bits_or a b ≡ a + b
unfolding bits_or
bits_or_sum a b al small =
    let e : a / 4096 * 4096 ≡ a = omega arith in
    let none_common : bits_and 64 a b ≡ 0 =
      subst (λ x. bits_and 64 x b ≡ 0) e (bits_and_apart 12 64 (a / 4096) b small) in
    omega (arith, none_common)
