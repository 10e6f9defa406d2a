-- ===== src/Common/Xor/Shift.antt =====
-- `^` is associative and commutative, and goes through shifts and masks.
use Prim.Native.Nat.{ℕ, zero, suc, ◌+◌, ◌*◌, ◌/◌, ◌%◌, ◌^◌, ◌≤◌, ◌<◌, bit_xor}
use mathlib.Core.Path.{◌≡◌, refl, sym, ◌∙◌, ap}
use native.Mathlib.Nat.{pow-suc}
use native.Mathlib.Omega.{arith}
use fw_bootloader.Common.Xor.{xor_step, xor_halves, zero-xor}

xor_comm_fuel : (n a b : ℕ) → a ≤ n → b ≤ n → bit_xor a b ≡ bit_xor b a
xor_comm_fuel zero a b p q =
    let a0 : a ≡ 0 = omega arith in let b0 : b ≡ 0 = omega arith in rw (a0, b0) refl
xor_comm_fuel (suc n) a b p q =
    omega (
      arith,
      xor_step a b,
      xor_step b a,
      xor_comm_fuel n (a / 2) (b / 2) (omega arith) (omega arith),
    )

pub xor_comm : (a b : ℕ) → bit_xor a b ≡ bit_xor b a
xor_comm a b = xor_comm_fuel (a + b) a b (omega arith) (omega arith)

pub xor-zero : (a : ℕ) → bit_xor a 0 ≡ a
xor-zero a = xor_comm a 0 ∙ zero-xor a

xor_assoc_fuel :
    (n a b c : ℕ) → a ≤ n → b ≤ n → c ≤ n → bit_xor (bit_xor a b) c ≡ bit_xor a (bit_xor b c)
xor_assoc_fuel zero a b c p q r =
    let a0 : a ≡ 0 = omega arith in
    let b0 : b ≡ 0 = omega arith in let c0 : c ≡ 0 = omega arith in rw (a0, b0, c0) refl
xor_assoc_fuel (suc n) a b c p q r =
    let ih = xor_assoc_fuel n (a / 2) (b / 2) (c / 2) (omega arith) (omega arith) (omega arith) in
    omega (
      arith,
      xor_step (bit_xor a b) c,
      xor_step a (bit_xor b c),
      xor_halves a b,
      xor_halves b c,
      ap (λ t. bit_xor t (c / 2)) (xor_halves a b).0
          ∙ ih
          ∙ sym (ap (bit_xor (a / 2)) (xor_halves b c).0),
    )

pub xor_assoc : (a b c : ℕ) → bit_xor (bit_xor a b) c ≡ bit_xor a (bit_xor b c)
xor_assoc a b c = xor_assoc_fuel (a + b + c) a b c (omega arith) (omega arith) (omega arith)

xor-double : (a b : ℕ) → bit_xor (a * 2) (b * 2) ≡ bit_xor a b * 2
xor-double a b =
    let ha : a * 2 / 2 ≡ a = omega arith in
    let hb : b * 2 / 2 ≡ b = omega arith in
    omega (arith, xor_step (a * 2) (b * 2), rw (ha, hb) at (xor_halves (a * 2) (b * 2)).0)

-- A shift by four bits.
pub xor-mul_sixteen : (a b : ℕ) → bit_xor (a * 16) (b * 16) ≡ bit_xor a b * 16
xor-mul_sixteen a b =
    let ha : a * 16 ≡ a * 2 * 2 * 2 * 2 = omega arith in
    let hb : b * 16 ≡ b * 2 * 2 * 2 * 2 = omega arith in
    rw (ha, hb, xor-double, xor-double, xor-double, xor-double) (omega arith)

pub xor-div_sixteen : (a b : ℕ) → bit_xor a b / 16 ≡ bit_xor (a / 16) (b / 16)
xor-div_sixteen a b =
    let ha : a / 16 ≡ a / 2 / 2 / 2 / 2 = omega arith in
    let hb : b / 16 ≡ b / 2 / 2 / 2 / 2 = omega arith in
    rw (ha, hb)
      (omega (
        arith,
        (xor_halves a b).0,
        (xor_halves (a / 2) (b / 2)).0,
        (xor_halves (a / 2 / 2) (b / 2 / 2)).0,
        (xor_halves (a / 2 / 2 / 2) (b / 2 / 2 / 2)).0,
      ))

mod_double : (x m : ℕ) → 0 < m → x % (m * 2) ≡ x / 2 % m * 2 + x % 2
mod_double x m h = grind arith

pow-pos : (k : ℕ) → 0 < 2 ^ k
pow-pos zero = omega arith
pow-pos (suc k) = omega (arith, pow-suc 2 k, pow-pos k)

-- The digits of a number below twice the mask.
halves_mod : (x k : ℕ) → (x % 2 ^ suc k / 2 ≡ x / 2 % 2 ^ k) × (x % 2 ^ suc k % 2 ≡ x % 2)
halves_mod x k = rw (pow-suc 2 k) (omega (arith, mod_double x (2 ^ k) (pow-pos k)))

-- A mask of the low `k` bits.
pub xor-mod : (k a b : ℕ) → bit_xor a b % 2 ^ k ≡ bit_xor (a % 2 ^ k) (b % 2 ^ k)
xor-mod zero a b =
    let ha : a % 1 ≡ 0 = omega arith in
    let hb : b % 1 ≡ 0 = omega arith in rw (ha, hb) (omega arith)
xor-mod (suc k) a b =
    let h = xor_halves a b in
    omega (
      arith,
      xor_step (a % 2 ^ suc k) (b % 2 ^ suc k),
      halves_mod a k,
      halves_mod b k,
      halves_mod (bit_xor a b) k,
      ap (λ t. t % 2 ^ k) h.0
          ∙ xor-mod k (a / 2) (b / 2)
          ∙ sym (
              ap (λ t. bit_xor t (b % 2 ^ suc k / 2)) (halves_mod a k).0
              ∙ ap (bit_xor (a / 2 % 2 ^ k)) (halves_mod b k).0),
    )
