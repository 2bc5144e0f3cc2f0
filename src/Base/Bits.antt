-- ===== src/Base/Bits.antt =====
-- Exclusive or of numbers of any width: it undoes itself, and stays within the width.
use Prim.Native.Nat.{
  ℕ, zero, suc, ◌+◌, ◌*◌, ◌/◌, ◌%◌, ◌^◌, ◌≤◌, ◌<◌, bit_xor, digits, differ, bit_xor-bitwise,
}
use mathlib.Core.Path.{◌≡◌, refl, ◌∙◌}
use native.Mathlib.Nat.{pow-suc}
use native.Mathlib.Omega.{arith}

abbrev xor_digits : ℕ → ℕ → ℕ → ℕ
xor_digits n a b = digits (λ b. b) differ n a b

xor_digits_fuel : (n m a b : ℕ) → a ≤ n → a ≤ m → xor_digits n a b ≡ xor_digits m a b
xor_digits_fuel zero zero a b p q = refl
xor_digits_fuel zero (suc m) zero b p q = refl
xor_digits_fuel zero (suc m) (suc a) b p q = absurd (omega arith)
xor_digits_fuel (suc n) zero zero b p q = refl
xor_digits_fuel (suc n) zero (suc a) b p q = absurd (omega arith)
xor_digits_fuel (suc n) (suc m) zero b p q = refl
xor_digits_fuel (suc n) (suc m) (suc a) b p q =
    omega (arith, xor_digits_fuel n m (suc a / 2) (b / 2) (omega arith) (omega arith))

zero-bit_xor : (b : ℕ) → bit_xor 0 b ≡ b
zero-bit_xor b = bit_xor-bitwise 0 b

-- Two binary digits.
abbrev bit_differ : ℕ → ℕ → ℕ
bit_differ x y = differ (x % 2) (y % 2)

bit_differ_zero : (b : ℕ) → bit_differ 0 b ≡ b % 2
bit_differ_zero b = refl

pub bit_xor_step : (a b : ℕ) → bit_xor a b ≡ bit_xor (a / 2) (b / 2) * 2 + bit_differ a b
bit_xor_step zero b = omega (arith, zero-bit_xor b, zero-bit_xor (b / 2), bit_differ_zero b)
bit_xor_step (suc a) b = omega (
  arith,
  bit_xor-bitwise (suc a) b,
  bit_xor-bitwise (suc a / 2) (b / 2),
  xor_digits_fuel a (suc a / 2) (suc a / 2) (b / 2) (omega arith) (omega arith),
)

digit_lt : (x y : ℕ) → x < 2 → y < 2 → differ x y < 2
digit_lt zero y p q = q
digit_lt (suc zero) zero p q = p
digit_lt (suc zero) (suc y) p q = omega arith
digit_lt (suc (suc x)) y p q = absurd (omega arith)

digit_cancel : (x y : ℕ) → x < 2 → y < 2 → differ (differ x y) y ≡ x
digit_cancel zero zero p q = refl
digit_cancel zero (suc zero) p q = refl
digit_cancel zero (suc (suc y)) p q = absurd (omega arith)
digit_cancel (suc zero) zero p q = refl
digit_cancel (suc zero) (suc zero) p q = refl
digit_cancel (suc zero) (suc (suc y)) p q = absurd (omega arith)
digit_cancel (suc (suc x)) y p q = absurd (omega arith)

bit_xor_halves :
    (a b : ℕ) → (bit_xor a b / 2 ≡ bit_xor (a / 2) (b / 2)) × (bit_xor a b % 2 ≡ bit_differ a b)
bit_xor_halves a b =
    omega (arith, bit_xor_step a b, digit_lt (a % 2) (b % 2) (omega arith) (omega arith))

cancel_fuel : (n a b : ℕ) → a ≤ n → b ≤ n → bit_xor (bit_xor a b) b ≡ a
cancel_fuel zero zero zero p q = refl
cancel_fuel zero (suc a) b p q = absurd (omega arith)
cancel_fuel zero zero (suc b) p q = absurd (omega arith)
cancel_fuel (suc n) a b p q =
    let (h, l) = bit_xor_halves a b in
    let ih = cancel_fuel n (a / 2) (b / 2) (omega arith) (omega arith) in
    let d = digit_cancel (a % 2) (b % 2) (omega arith) (omega arith) in
    bit_xor_step (bit_xor a b) b ∙ rw (h, l, ih, d) (omega arith)

pub bit_xor_cancel : (a b : ℕ) → bit_xor (bit_xor a b) b ≡ a
bit_xor_cancel a b = cancel_fuel (a + b) a b (omega arith) (omega arith)

pub bit_xor-lt : (k a b : ℕ) → a < 2 ^ k → b < 2 ^ k → bit_xor a b < 2 ^ k
bit_xor-lt zero zero zero p q = omega arith
bit_xor-lt zero zero (suc b) p q = absurd (omega arith)
bit_xor-lt zero (suc a) b p q = absurd (omega arith)
bit_xor-lt (suc k) a b p q =
    let ih = bit_xor-lt k (a / 2) (b / 2) in
    rw pow-suc (
      omega (
        arith,
        bit_xor_step a b,
        digit_lt (a % 2) (b % 2) (omega arith) (omega arith),
        ih (omega (arith, pow-suc 2 k)) (omega (arith, pow-suc 2 k)),
      ))
