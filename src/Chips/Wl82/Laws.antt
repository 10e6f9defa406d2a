-- ===== src/Chips/Wl82/Laws.antt =====
-- The baud rates of wl82.
use fw_bootloader.Common.{
  ℕ, ◌≡◌, ◌∙◌, ◌⊎◌, [], ◌∷◌, bit_or, ◌+◌, ◌-◌, ◌*◌, ◌/◌, ◌%◌, ◌≤◌, ◌<◌, inl, inr, Bool-cases, arith,
}
use native.Mathlib.Nat.{le-div_iff_mul-le, div-le_self}
use fw_bootloader.Hal.{minus_one, Port, Access, read_sfr, write_sfr, ut_con0, ut_baud, without}
use fw_bootloader.Hal.Poll.{after, after-after}
use fw_bootloader.Chips.Wl82.{uses_four, set_baud, uart_baud_clk}
use fw_bootloader.Chips.Wl82.Receive.{}

quotient : (baud : ℕ) → 0 < baud → baud * 4 ≤ 48000000 → 4 ≤ 48000000 / baud
quotient baud positive slow =
    (le-div_iff_mul-le {k = baud} {x = 4} {y = 48000000} positive).1 (omega (arith, slow))

small : (baud : ℕ) → 48000000 / baud ≤ 48000000
small baud = div-le_self 48000000 baud

four :
    (q : ℕ)
    → 4 ≤ q
    → q ≤ 48000000
    → q % 4 < q % 3
    → let miss = q - 4 * (minus_one (q / 4) + 1) in
      (4 * (minus_one (q / 4) + 1) ≤ q) × (miss ≤ q % 3) × (miss ≤ q % 4) × (miss ≤ 2)
four q enough small lt = (omega arith, omega arith, omega arith, omega arith)

three :
    (q : ℕ)
    → 4 ≤ q
    → q ≤ 48000000
    → q % 3 ≤ q % 4
    → let miss = q - 3 * (minus_one (q / 3) + 1) in
      (3 * (minus_one (q / 3) + 1) ≤ q) × (miss ≤ q % 3) × (miss ≤ q % 4) × (miss ≤ 2)
three q enough small le = (omega arith, omega arith, omega arith, omega arith)

-- A divider and a register whose period falls short of the quotient by the smaller of the two remainders.
abbrev pub Closest : ℕ → ℕ → ℕ → Type 0
Closest q divider reg =
    let miss = q - divider * (reg + 1) in
    (divider * (reg + 1) ≤ q) × (miss ≤ q % 3) × (miss ≤ q % 4) × (miss ≤ 2)

-- The accesses of a store into the control register, from what is read there, and of one into the register
-- of the rate.
abbrev pub rate_set : Port → ℕ → ℕ → ℕ → Port
rate_set s n con0 reg =
    after s (read_sfr (ut_con0 n) ∷ write_sfr (ut_con0 n) con0 ∷ write_sfr (ut_baud n) reg ∷ [])

three_accesses :
    (s : Port) (a b c : Access)
    → after (after (after s (a ∷ [])) (b ∷ [])) (c ∷ []) ≡ after s (a ∷ b ∷ c ∷ [])
three_accesses s a b c =
    after-after (after s (a ∷ [])) (b ∷ []) (c ∷ []) ∙ after-after s (a ∷ []) (b ∷ c ∷ [])

-- For a baud rate up to a quarter of the clock, `set_baud` stores the control register with its bit 4
-- cleared, the others as they were read, and a register for the divider 4; or with that bit set and a
-- register for the divider 3. The register does not wrap around, and the period that the two make,
-- divider times register plus 1, falls short of the quotient of clock and rate by the smaller of the two
-- remainders, which is at most 2 cycles of the clock.
pub set_baud_lem :
    (n baud : ℕ) (s : Port)
    → 0 < baud
    → baud * 4 ≤ uart_baud_clk
    → let q = uart_baud_clk / baud in
      let con0 = s.answer (read_sfr (ut_con0 n)) s.accesses in
      (reg : ℕ) × ((((set_baud n q s).1 ≡ rate_set s n (without con0 16) reg) × Closest q 4 reg)
        ⊎ (((set_baud n q s).1 ≡ rate_set s n (bit_or con0 16) reg) × Closest q 3 reg))
set_baud_lem n baud s positive slow =
    let q = uart_baud_clk / baud in
    let enough = quotient baud positive slow in
    let bound = small baud in
    elim (Bool-cases (uses_four q)) [
      | inl t ↦ (
        minus_one (q / 4),
        inl (rw t (three_accesses s _ _ _), four q enough bound (ground arith)),
      )
      | inr t ↦ (
        minus_one (q / 3),
        inr (rw t (three_accesses s _ _ _), three q enough bound (ground arith)),
      )
    ]
