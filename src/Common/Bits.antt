-- ===== src/Common/Bits.antt =====
-- `x | y << s` is a sum where the bits of x lie below s.
use Prim.Native.Nat.{
  ℕ, zero, suc, ◌+◌, ◌*◌, ◌/◌, ◌%◌, ◌^◌, ◌≤◌, ◌<◌, max, bit_or, digits, bit_or-bitwise,
}
use mathlib.Core.Path.{◌≡◌, refl, ap, ◌∙◌}
use native.Mathlib.Omega.{arith}
use native.Mathlib.Nat.{pow-suc}

abbrev or_digits : ℕ → ℕ → ℕ → ℕ
or_digits n a b = digits (λ b. b) max n a b

zero-bit_or : (b : ℕ) → bit_or 0 b ≡ b
zero-bit_or b = bit_or-bitwise 0 b

or_digits_fuel : (n m a b : ℕ) → a ≤ n → a ≤ m → or_digits n a b ≡ or_digits m a b
or_digits_fuel zero zero a b p q = refl
or_digits_fuel zero (suc m) zero b p q = refl
or_digits_fuel zero (suc m) (suc a) b p q = absurd (omega arith)
or_digits_fuel (suc n) zero zero b p q = refl
or_digits_fuel (suc n) zero (suc a) b p q = absurd (omega arith)
or_digits_fuel (suc n) (suc m) zero b p q = refl
or_digits_fuel (suc n) (suc m) (suc a) b p q =
    omega (arith, or_digits_fuel n m (suc a / 2) (b / 2) (omega arith) (omega arith))

bit_or_step : (a b : ℕ) → bit_or a b ≡ bit_or (a / 2) (b / 2) * 2 + max (a % 2) (b % 2)
bit_or_step zero b = omega (arith, zero-bit_or b, zero-bit_or (b / 2))
bit_or_step (suc a) b = omega (
  arith,
  bit_or-bitwise (suc a) b,
  bit_or-bitwise (suc a / 2) (b / 2),
  or_digits_fuel a (suc a / 2) (suc a / 2) (b / 2) (omega arith) (omega arith),
)

doubled : (s k : ℕ) → k * 2 ^ suc s ≡ k * 2 ^ s * 2
doubled s k = rw (pow-suc 2 s) (omega arith)

-- An or with a multiple of 2 ^ s adds, below 2 ^ s.
pub bit_or_shifted : (s x k : ℕ) → x < 2 ^ s → bit_or x (k * 2 ^ s) ≡ x + k * 2 ^ s
bit_or_shifted zero x k h =
    let nothing : x ≡ 0 = omega arith in rw nothing (zero-bit_or _ ∙ omega arith)
bit_or_shifted (suc s) x k h = rw (doubled s k) (go (k * 2 ^ s) (bit_or_shifted s (x / 2) k half))
  where
    half : x / 2 < 2 ^ s
    half = omega (arith, doubled s 1)

    go : (m : ℕ) → bit_or (x / 2) m ≡ x / 2 + m → bit_or x (m * 2) ≡ x + m * 2
    go m ih =
        let whole : m * 2 / 2 ≡ m = omega arith in
        let step = bit_or_step x (m * 2) in omega (arith, step, ap (bit_or (x / 2)) whole, ih)
