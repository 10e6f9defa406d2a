-- ===== src/Uart/Baud.antt =====
-- The baud rate that the drivers set: with the divisor d the UART runs at clk / (4 (d + 1)).
use fw_bootloader.Common.{ℕ, ◌+◌, ◌*◌, ◌/◌, ◌^◌, ◌≤◌, ◌<◌, ◌≡◌, sym, subst, arith}
use native.Mathlib.Nat.{
  div-div-eq-div-mul, div-mul-le_self, div-lt_iff_lt-mul, le-div_iff_mul-le, div-le_self,
}
use fw_bootloader.Hal.{minus_one}
use fw_bootloader.Uart.{divisor}

from_quotient :
    (n q : ℕ) → n ≡ q → 1 ≤ q → q < 2 ^ 32 → (minus_one n + 1 ≡ q) × (minus_one n + 2 ≡ q + 1)
from_quotient n q e low high = omega arith

-- For a baud rate other than 0, at most a quarter of a clock below 2 ^ 32, the divisor d that
-- `uart_init` and `ut_device_mode` write is the largest whose rate is not below it:
-- 4 (d + 1) baud is at most the clock, and 4 (d + 2) baud is more than the clock.
pub divisor_lem :
    (clk baud : ℕ)
    → 0 < baud
    → baud * 4 ≤ clk
    → clk < 2 ^ 32
    → ((divisor clk baud + 1) * (baud * 4) ≤ clk) × (clk < (divisor clk baud + 2) * (baud * 4))
divisor_lem clk baud pos low high =
    let q = clk / (baud * 4) in
    let four : 0 < baud * 4 = omega arith in
    let one : 1 ≤ q = (le-div_iff_mul-le {k = baud * 4} {x = 1} {y = clk} four).1 (omega arith) in
    let small : q < 2 ^ 32 = omega (arith, div-le_self clk (baud * 4)) in
    let (e1, e2) = from_quotient (clk / baud / 4) q (div-div-eq-div-mul clk baud 4) one small in
    let above : q < q + 1 = omega arith in
    (
      subst (λ x. x * (baud * 4) ≤ clk) (sym e1) (div-mul-le_self clk (baud * 4)),
      subst (λ x. clk < x * (baud * 4)) (sym e2)
          ((div-lt_iff_lt-mul {k = baud * 4} {x = clk} {y = q + 1} four).0 above),
    )
