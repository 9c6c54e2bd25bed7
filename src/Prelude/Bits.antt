-- ===== src/Prelude/Bits.antt =====
-- `x << k | y` for a y that fits in k bits is a sum.
use Prim.Native.Nat.{
  ℕ, zero, suc, ◌+◌, ◌*◌, ◌/◌, ◌%◌, ◌^◌, ◌≤◌, ◌<◌, max, bit_or, bit_or-bitwise, digits,
}
use mathlib.Core.Path.{◌≡◌, refl, ap}
use native.Mathlib.Omega.{arith}
use native.Mathlib.Nat.{two-pow-succ}

-- What `bit_or` computes, with the digits that are still looked at.
abbrev or_upto : ℕ → ℕ → ℕ → ℕ
or_upto n a b = digits (λ y. y) max n a b

or_upto-zero : (n b : ℕ) → or_upto n 0 b ≡ b
or_upto-zero zero b = refl
or_upto-zero (suc n) b = refl

-- One digit, the first number exhausted or not.
or_upto_step :
    (n a b : ℕ) → or_upto (suc n) a b ≡ or_upto n (a / 2) (b / 2) * 2 + max (a % 2) (b % 2)
or_upto_step n zero b = omega (arith, or_upto-zero n (b / 2))
or_upto_step n (suc a) b = refl

or_upto_empty : (n a : ℕ) → a ≤ n → or_upto n a 0 ≡ a
or_upto_empty zero a h = omega arith
or_upto_empty (suc n) a h = omega (arith, or_upto_step n a 0, or_upto_empty n (a / 2) (omega arith))

double : (q k : ℕ) → q * 2 ^ suc k ≡ 2 * (q * 2 ^ k)
double q k = omega (arith, ap (λ (t : ℕ). q * t) (two-pow-succ k))

or_upto_fields : (k n q r : ℕ) → q * 2 ^ k ≤ n → r < 2 ^ k → or_upto n (q * 2 ^ k) r ≡ q * 2 ^ k + r
or_upto_fields zero n q zero room fits = omega (arith, or_upto_empty n (q * 1) (omega arith))
or_upto_fields zero n q (suc r) room fits = absurd (omega arith)
or_upto_fields (suc k) zero q r room fits = omega (arith, double q k)
or_upto_fields (suc k) (suc n) q r room fits =
    let half : q * 2 ^ suc k / 2 ≡ q * 2 ^ k = omega (arith, double q k) in
    omega (
      arith,
      double q k,
      two-pow-succ k,
      or_upto_step n (q * 2 ^ suc k) r,
      ap (λ (t : ℕ). or_upto n t (r / 2)) half,
      or_upto_fields k n q (r / 2) (omega (arith, double q k)) (omega (arith, two-pow-succ k)),
    )

pub bit_or_sum : (k q r : ℕ) → r < 2 ^ k → bit_or (q * 2 ^ k) r ≡ q * 2 ^ k + r
bit_or_sum k q r fits =
    omega (arith, bit_or-bitwise (q * 2 ^ k) r, or_upto_fields k (q * 2 ^ k) q r (omega arith) fits)
