-- ===== src/Host/Crc/Laws.antt =====
-- Both CRC functions are one.
use fw_bootloader.Common.{
  ℕ, zero, suc, ◌+◌, ◌*◌, ◌/◌, ◌%◌, ◌<◌, ◌≡◌, refl, ap, ◌∙◌, sym, List, [], ◌∷◌, arith, u8, u16,
  bit_xor, Bool, true, false, if◌then◌else◌, Bool-cases, inl, inr, ltb, ltb→lt, ◌==◌, ==_iff,
}
use fw_bootloader.Common.Xor.{xor-lt_pow}
use fw_bootloader.Common.Xor.Shift.{xor-div_sixteen, xor-mod, xor-mul_sixteen, xor_assoc, xor_comm}
use fw_bootloader.Host.Crc.{
  crc_ta, crc16tab, crc_entry, chip_nibble, chip_byte, chip_crc16_loop, chip_crc16, crc16_byte,
  crc16_loop, crc16,
}

-- A test of every number under a bound, from the bound down.
tried : (ℕ → Bool) → ℕ → Bool
tried test zero = true
tried test (suc bound) = if test bound then tried test bound else false

tried-true :
    (test : ℕ → Bool) (bound at : ℕ) → at < bound → tried test bound ≡ true → test at ≡ true
unfolding tried
tried-true test zero at under all = absurd (omega arith)
tried-true test (suc bound) at under all = elim (Bool-cases (at == bound)) [
  | inl last ↦ ground (arith)
  | inr before ↦ ground (arith, tried-true test bound at)
]

-- What two entries of the small table make together.
abbrev two_steps : ℕ → ℕ
two_steps i =
    bit_xor (u16 (crc_entry crc_ta (i / 16) * 16))
      (crc_entry crc_ta (bit_xor (crc_entry crc_ta (i / 16) / 4096) (i % 16)))

table : tried (λ i. crc_entry crc16tab i == two_steps i) 256 ≡ true
unfolding tried
table = refl

small : tried (λ i. ltb (crc_entry crc_ta i) 65536) 16 ≡ true
unfolding tried
small = refl

large : tried (λ i. ltb (crc_entry crc16tab i) 65536) 256 ≡ true
unfolding tried
large = refl

table_at :
    (x y : ℕ)
    → x < 16
    → y < 16
    → crc_entry crc16tab (x * 16 + y)
      ≡ bit_xor
          (u16 (crc_entry crc_ta x * 16))
          (crc_entry crc_ta (bit_xor (crc_entry crc_ta x / 4096) y))
table_at x y hx hy =
    let q : (x * 16 + y) / 16 ≡ x = omega arith in
    let r : (x * 16 + y) % 16 ≡ y = omega arith in
    rw (q, r) at
      ((==_iff _ (two_steps (x * 16 + y))).0 (tried-true _ 256 (x * 16 + y) (omega arith) table))

crc_ta-lt : (x : ℕ) → x < 16 → crc_entry crc_ta x < 65536
crc_ta-lt x h = ltb→lt (crc_entry crc_ta x) 65536 (tried-true _ 16 x h small)

crc16tab-lt : (x : ℕ) → x < 256 → crc_entry crc16tab x < 65536
crc16tab-lt x h = ltb→lt (crc_entry crc16tab x) 65536 (tried-true _ 256 x h large)

-- Two digits of four bits, each under its own digit.
xor_digits :
    (a b c d : ℕ)
    → b < 16
    → d < 16
    → bit_xor (a * 16 + b) (c * 16 + d) ≡ bit_xor a c * 16 + bit_xor b d
xor_digits a b c d hb hd =
    let qa : (a * 16 + b) / 16 ≡ a = omega arith in
    let qc : (c * 16 + d) / 16 ≡ c = omega arith in
    let rb : (a * 16 + b) % 16 ≡ b = omega arith in
    let rd : (c * 16 + d) % 16 ≡ d = omega arith in
    omega (
      arith,
      rw (qa, qc) at (xor-div_sixteen (a * 16 + b) (c * 16 + d)),
      rw (rb, rd) at (xor-mod 4 (a * 16 + b) (c * 16 + d)),
    )

xor-div_top : (a b : ℕ) → bit_xor a b / 4096 ≡ bit_xor (a / 4096) (b / 4096)
xor-div_top a b =
    let s : (n : ℕ) → n / 4096 ≡ n / 16 / 16 / 16 = λ n. omega arith in
    rw (s (bit_xor a b), s a, s b, xor-div_sixteen, xor-div_sixteen, xor-div_sixteen) refl

-- Two shifts by four bits of a sixteen bit register.
shift_twice :
    (p q : ℕ) → u16 (bit_xor (u16 (p * 16)) q * 16) ≡ bit_xor (u16 (p * 256)) (u16 (q * 16))
shift_twice p q =
    let s : u16 (u16 (p * 16) * 16) ≡ u16 (p * 256) = omega arith in
    ap u16 (sym (xor-mul_sixteen (u16 (p * 16)) q))
    ∙ (rw (xor-mod 16 (u16 (p * 16) * 16) (q * 16), s) refl)

-- The low digit of a register above four more bits.
xor_swap : (n t l : ℕ) → bit_xor (bit_xor n t) l ≡ bit_xor t (bit_xor n l)
xor_swap n t l = ap (λ s. bit_xor s l) (xor_comm n t) ∙ xor_assoc t n l

-- The register after one byte, on both ways. `x` and `y` are the digits of the index of the large table.
module _ (crc b : ℕ) (word : crc < 65536) (byte : b < 256) where
  abbrev x : ℕ
  x = bit_xor (crc / 4096) (b / 16)

  abbrev y : ℕ
  y = bit_xor (crc / 256 % 16) (b % 16)

  x-lt : x < 16
  x-lt = xor-lt_pow 4 (crc / 4096) (b / 16) (omega arith) (omega arith)

  y-lt : y < 16
  y-lt = xor-lt_pow 4 (crc / 256 % 16) (b % 16) (omega arith) (omega arith)

  index : bit_xor (crc / 256) b % 256 ≡ x * 16 + y
  index =
      let c : crc / 256 ≡ crc / 4096 * 16 + crc / 256 % 16 = omega arith in
      let d : b ≡ b / 16 * 16 + b % 16 = omega arith in
      let whole =
        ap (λ t. bit_xor t b) c
        ∙ ap (bit_xor (crc / 4096 * 16 + crc / 256 % 16)) d
        ∙ xor_digits (crc / 4096) (crc / 256 % 16) (b / 16) (b % 16) (omega arith) (omega arith) in
      omega (arith, whole, x-lt, y-lt)

  -- Both ways go on from here.
  abbrev step_two : ℕ
  step_two = crc_entry crc_ta (bit_xor (crc_entry crc_ta x / 4096) y)

  by_byte :
      crc16_byte crc b
      ≡ bit_xor (u16 (crc * 256)) (bit_xor (u16 (crc_entry crc_ta x * 16)) step_two)
  unfolding crc16_byte
  by_byte =
      let at : ℕ = x * 16 + y in
      let fits : crc_entry crc16tab at < 65536 = crc16tab-lt at (omega (arith, x-lt, y-lt)) in
      let whole : crc_entry crc16tab at % 65536 ≡ crc_entry crc16tab at = omega arith in
      ap (λ i. u16 (bit_xor (crc * 256) (crc_entry crc16tab i))) index
      ∙ xor-mod 16 (crc * 256) (crc_entry crc16tab at)
      ∙ ap (bit_xor (u16 (crc * 256))) (whole ∙ table_at x y x-lt y-lt)

  -- The register between both digits.
  abbrev half : ℕ
  half = bit_xor (u16 (crc * 16)) (crc_entry crc_ta x)

  first_nibble : chip_nibble crc (b / 16) ≡ half
  unfolding chip_nibble
  first_nibble =
      let top : u8 (crc / 4096) ≡ crc / 4096 = omega arith in
      ap (λ t. bit_xor (u16 (crc * 16)) (crc_entry crc_ta (bit_xor t (b / 16)))) top

  half-lt : half < 65536
  half-lt = xor-lt_pow 16 (u16 (crc * 16)) (crc_entry crc_ta x) (omega arith) (crc_ta-lt x x-lt)

  half_top : u8 (half / 4096) ≡ bit_xor (crc / 256 % 16) (crc_entry crc_ta x / 4096)
  half_top =
      let middle : u16 (crc * 16) / 4096 ≡ crc / 256 % 16 = omega arith in
      let low : u8 (half / 4096) ≡ half / 4096 = omega (arith, half-lt) in
      low
      ∙ xor-div_top (u16 (crc * 16)) (crc_entry crc_ta x)
      ∙ ap (λ t. bit_xor t (crc_entry crc_ta x / 4096)) middle

  by_nibbles :
      chip_byte crc b ≡ bit_xor (bit_xor (u16 (crc * 256)) (u16 (crc_entry crc_ta x * 16))) step_two
  unfolding chip_byte
  by_nibbles =
      ap (λ t. chip_nibble t (b % 16)) first_nibble
      ∙ (unfold chip_nibble in
          (ap (λ t. bit_xor (u16 (half * 16)) (crc_entry crc_ta (bit_xor t (b % 16)))) half_top
            ∙ ap (λ t. bit_xor (u16 (half * 16)) (crc_entry crc_ta t))
                (xor_swap (crc / 256 % 16) (crc_entry crc_ta x / 4096) (b % 16))
            ∙ ap (λ t. bit_xor t step_two) (shift_twice crc (crc_entry crc_ta x))))

  same_byte : crc16_byte crc b ≡ chip_byte crc b
  same_byte =
      by_byte
      ∙ sym (xor_assoc (u16 (crc * 256)) (u16 (crc_entry crc_ta x * 16)) step_two)
      ∙ sym by_nibbles

crc16_byte-lt : (crc b : ℕ) → crc16_byte crc b < 65536
unfolding crc16_byte
crc16_byte-lt crc b = omega arith

crc16_loop_lem :
    (crc : ℕ) (bytes : List ℕ) → crc < 65536 → crc16_loop crc bytes ≡ chip_crc16_loop crc bytes
unfolding crc16_loop chip_crc16_loop
crc16_loop_lem crc [] word = refl
crc16_loop_lem crc (b ∷ bytes) word =
    crc16_loop_lem (crc16_byte crc (u8 b)) bytes (crc16_byte-lt crc (u8 b))
    ∙ ap (λ c. chip_crc16_loop c bytes) (same_byte crc (u8 b) word (omega arith))

-- The table for bytes and the table for four bits compute the same CRC of any bytes.
pub crc16_lem : (bytes : List ℕ) → crc16 bytes ≡ chip_crc16 bytes
unfolding crc16 chip_crc16
crc16_lem bytes = crc16_loop_lem 0 bytes (omega arith)

crc16_loop-lt : (crc : ℕ) (bytes : List ℕ) → crc < 65536 → crc16_loop crc bytes < 65536
unfolding crc16_loop
crc16_loop-lt crc [] word = word
crc16_loop-lt crc (b ∷ bytes) word =
    crc16_loop-lt (crc16_byte crc (u8 b)) bytes (crc16_byte-lt crc (u8 b))

pub crc16-lt : (bytes : List ℕ) → crc16 bytes < 65536
unfolding crc16
crc16-lt bytes = crc16_loop-lt 0 bytes (omega arith)
