-- ===== src/Common/Xor.antt =====
-- `^` at every width: the law of the lowest digit, and that a key applied twice is gone.
pub mod Shift
use Prim.Native.Nat.{ℕ, zero, suc, ◌+◌, ◌-◌, ◌*◌, ◌/◌, ◌%◌, ◌^◌, ◌≤◌, ◌<◌, bit_xor, digits}
use Prim.Native.Nat.{bit_xor-bitwise, differ}
use mathlib.Core.Path.{◌≡◌, refl, sym, ◌∙◌, ap}
use native.Mathlib.Nat.{pow-suc}
use native.Mathlib.Omega.{arith}

-- A number 0 leaves the other as it is, whatever the fuel.
base : (n b : ℕ) → digits (λ y. y) differ n 0 b ≡ b
base zero b = refl
base (suc n) b = refl

-- Fuel of at least the first number's value is enough: more changes nothing.
one_more : (n a b : ℕ) → a ≤ n → digits (λ y. y) differ (suc n) a b ≡ digits (λ y. y) differ n a b
one_more n zero b h = base (suc n) b ∙ sym (base n b)
one_more zero (suc a) b h = absurd (omega arith)
one_more (suc n) (suc a) b h =
    ap (λ d. d * 2 + differ (suc a % 2) (b % 2)) (one_more n (suc a / 2) (b / 2) (omega arith))

more : (k n a b : ℕ) → a ≤ n → digits (λ y. y) differ (k + n) a b ≡ digits (λ y. y) differ n a b
more zero n a b h = let e : 0 + n ≡ n = omega arith in ap (λ m. digits (λ y. y) differ m a b) e
more (suc k) n a b h =
    let e : suc k + n ≡ suc (k + n) = omega arith in
    ap (λ m. digits (λ y. y) differ m a b) e ∙ one_more (k + n) a b (omega arith) ∙ more k n a b h

half_fuel :
    (a b : ℕ)
    → digits (λ y. y) differ a (suc a / 2) b ≡ digits (λ y. y) differ (suc a / 2) (suc a / 2) b
half_fuel a b =
    let split : a ≡ (a - suc a / 2) + suc a / 2 = omega arith in
    ap (λ n. digits (λ y. y) differ n (suc a / 2) b) split
    ∙ more (a - suc a / 2) (suc a / 2) (suc a / 2) b (omega arith)

pub zero-xor : (b : ℕ) → bit_xor 0 b ≡ b
zero-xor b = bit_xor-bitwise 0 b

differ_digits : (x y : ℕ) → x < 2 → y < 2 → differ x y ≡ (x + y) % 2
differ_digits zero y p q = omega arith
differ_digits (suc zero) zero p q = refl
differ_digits (suc zero) (suc zero) p q = refl
differ_digits (suc zero) (suc (suc y)) p q = absurd (omega arith)
differ_digits (suc (suc x)) y p q = absurd (omega arith)

pub xor_step : (a b : ℕ) → bit_xor a b ≡ bit_xor (a / 2) (b / 2) * 2 + (a % 2 + b % 2) % 2
xor_step zero b = omega (arith, zero-xor b, zero-xor (b / 2))
xor_step (suc a) b = omega (
  arith,
  bit_xor-bitwise (suc a) b,
  bit_xor-bitwise (suc a / 2) (b / 2),
  half_fuel a (b / 2),
  differ_digits (suc a % 2) (b % 2) (omega arith) (omega arith),
)

pub xor_halves :
    (a b : ℕ)
    → (bit_xor a b / 2 ≡ bit_xor (a / 2) (b / 2)) × (bit_xor a b % 2 ≡ (a % 2 + b % 2) % 2)
xor_halves a b = omega (arith, xor_step a b)

xor-xor_fuel : (n a b : ℕ) → a ≤ n → b ≤ n → bit_xor (bit_xor a b) b ≡ a
xor-xor_fuel zero a b p q = omega (arith, small)
  where
    a0 : a ≡ 0
    a0 = omega arith

    b0 : b ≡ 0
    b0 = omega arith

    small : bit_xor (bit_xor a b) b ≡ 0
    small = rw (a0, b0)
xor-xor_fuel (suc n) a b p q =
    let ih = xor-xor_fuel n (a / 2) (b / 2) (omega arith) (omega arith) in
    omega (
      arith,
      xor_step (bit_xor a b) b,
      xor_halves a b,
      ap (λ t. bit_xor t (b / 2)) (xor_halves a b).0 ∙ ih,
    )

-- A key applied twice is gone.
pub xor-xor : (a b : ℕ) → bit_xor (bit_xor a b) b ≡ a
xor-xor a b = xor-xor_fuel (a + b) a b (omega arith) (omega arith)

pub xor-lt_pow : (k a b : ℕ) → a < 2 ^ k → b < 2 ^ k → bit_xor a b < 2 ^ k
xor-lt_pow zero a b p q = omega (arith, small)
  where
    a0 : a ≡ 0
    a0 = omega arith

    b0 : b ≡ 0
    b0 = omega arith

    small : bit_xor a b ≡ 0
    small = rw (a0, b0)
xor-lt_pow (suc k) a b p q = omega (
  arith,
  pow-suc 2 k,
  xor_step a b,
  xor-lt_pow k (a / 2) (b / 2) (omega (arith, pow-suc 2 k)) (omega (arith, pow-suc 2 k)),
)

-- The result of two bytes is a byte.
pub xor-lt : (a b : ℕ) → a < 256 → b < 256 → bit_xor a b < 256
xor-lt a b p q = xor-lt_pow 8 a b p q
