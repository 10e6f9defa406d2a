-- ===== src/Uart.antt =====
-- What the files user_boot/cpu/*/uart.c of the chips have in common, word for word but for the number
-- of the UART and the constants of the chip's headers, which `Board` holds.
pub mod Interrupt
pub mod Baud
pub mod Console
use fw_bootloader.Common.{
  ℕ, ◌+◌, ◌*◌, ◌/◌, ◌%◌, ◌^◌, List, [], ◌∷◌, Bool, true, false, ◌&&◌, not, ltb, leb, ◌==◌, u8, u32,
  bit_or,
}
use fw_bootloader.Hal.{
  Sfr, ut_con0, ut_con1, ut_baud, ut_buf, ut_txadr, ut_txcnt, ut_hrxcnt, ut_rxsadr, ut_rxeadr,
  ut_rxcnt, ut_otcnt, crossbar, imap_fi_uart0_rx, get_gpio, gpio2crossbar_outreg,
  gpio2crossbar_inport, gpio_set_die, gpio_set_direction, gpio_set_pull_up, gpio_set_pull_down,
  request_irq, csync, Port, Io, Act, ◌>>=◌, ◌>>◌, pure, done, when, access, bit, bits, any,
  minus_one, get, set, run, ask, turn_on, turn_off, poll_down, poll,
}

-- The constants of the headers, and the address of the static `ut_up_buf`.
pub record Board : Type 0 where
  pub fo_uart_tx : ℕ → ℕ
  pub io_port_max : ℕ
  pub io_group_num : ℕ
  pub ch0_ut0_tx : ℕ
  pub ch1_ut1_tx : ℕ
  pub ch1_ut0_tx : ℕ
  pub ch3_ut0_tx : ℕ
  pub ch0_ut1_tx : ℕ
  pub ch2_ut1_tx : ℕ
  pub irq_uart0_idx : ℕ
  pub irq_uart1_idx : ℕ
  pub libs_debug : Bool
  pub ut_up_buf : ℕ

abbrev pub ut_up_buf_size : ℕ
ut_up_buf_size = 4128

abbrev pub get_used_tx_io : Io ℕ
get_used_tx_io = λ s. (s.used_tx_io, s)

-- `used_tx_io` is a u8.
abbrev pub set_used_tx_io : ℕ → Act
set_used_tx_io io = λ s. (tt, record s { used_tx_io = u8 io })

abbrev pub set_used_tx_io_omap : ℕ → Act
set_used_tx_io_omap a = λ s. (tt, record s { used_tx_io_omap = a })

abbrev pub set_ut_up_rxlen : ℕ → Act
set_ut_up_rxlen len = λ s. (tt, record s { ut_up_rxlen = len })

-- `set_new_data_flag` of user.c, called from an interrupt.
abbrev pub raise_new_data : Act
raise_new_data = λ s. (tt, record s { new_data = 1 })

-- `putchar` on the UART with these two registers.
pub putchar_on : Sfr → Sfr → ℕ → Act
putchar_on con buf a = do
  c ← get con
  when (any c (bit 0))
      (do poll_down con (bit 15) 65536; turn_on con (bit 13); set buf a; access csync)

abbrev pub release_pin : Act
release_pin = do
  io ← get_used_tx_io
  run gpio_set_pull_up (io ∷ 0 ∷ [])
  run gpio_set_pull_down (io ∷ 0 ∷ [])
  run gpio_set_die (io ∷ 0 ∷ [])
  run gpio_set_direction (io ∷ 1 ∷ [])

abbrev pub close_on : ℕ → Act
close_on n = do
  c ← get (ut_con0 n)
  when (any c (bit 0)) (do set (ut_con0 n) 0; set (ut_con1 n) 0; release_pin)

-- The registers of the output multiplexer: `*used_tx_io_omap = FO_UARTn_TX << 2 | 3`.
abbrev pub out_crossbar : ℕ → ℕ
out_crossbar fo = bit_or (u32 (fo * 4)) 3

-- The divisor for a baud rate, on u32.
abbrev pub divisor : ℕ → ℕ → ℕ
divisor clk baud = minus_one (clk / baud / 4)

-- `ut_up_tx_data` on UART n, with the rounds that its wait may take, and whether it has ended.
pub tx_data_on : ℕ → ℕ → ℕ → ℕ → Io Bool
tx_data_on n rounds buf len = do
  set (ut_txadr n) buf
  set (ut_txcnt n) len
  access csync
  ended ← poll (ut_con0 n) (bit 15) rounds
  when ended (turn_on (ut_con0 n) (bit 13))
  pure ended

module _ (board : Board) where
  abbrev pub arm_rx : ℕ → Act
  arm_rx n = do
    set (ut_rxsadr n) board.ut_up_buf
    set (ut_rxeadr n) (u32 (board.ut_up_buf + ut_up_buf_size))
    set (ut_rxcnt n) ut_up_buf_size

  -- The interrupt is acknowledged, then its length is taken.
  pub ack_rx : ℕ → Act
  ack_rx n = do
    turn_on (ut_con0 n) (bit 7)
    turn_on (ut_con0 n) (bit 10)
    turn_on (ut_con0 n) (bit 12)
    access csync
    access csync

  pub store_rx : ℕ → Act
  store_rx n = do
    len ← get (ut_hrxcnt n)
    set_ut_up_rxlen len
    when (leb 4 len) raise_new_data
    arm_rx n

  -- `uart0_irq` and `uart1_irq`.
  pub irq_on : ℕ → Act
  unfolding ack_rx store_rx
  irq_on n = do
    c ← get (ut_con0 n)
    when (any c (bit 5)) (do c' ← get (ut_con0 n); when (any c' (bit 11)) (do ack_rx n; store_rx n))

  abbrev pub pins_ok : ℕ → ℕ → ℕ → Bool
  pins_ok baud tx rx = not (baud == 0) && ltb tx board.io_port_max && ltb rx board.io_port_max

  -- `uart_init` of the chips with a crossbar, from the read of the pin on.
  abbrev pub crossbar_init : ℕ → ℕ → List ℕ → ℕ → Act
  crossbar_init n clk tx_io baud = do
    pin ← ask get_gpio tx_io
    set_used_tx_io pin
    io ← get_used_tx_io
    when (not (baud == 0) && ltb io board.io_port_max) (do
      omap ← ask gpio2crossbar_outreg (io ∷ [])
      set_used_tx_io_omap omap
      set (crossbar omap) (out_crossbar (board.fo_uart_tx n))
      run gpio_set_die (io ∷ 1 ∷ [])
      run gpio_set_direction (io ∷ 0 ∷ [])
      set (ut_baud n) (divisor clk baud)
      set (ut_con0 n) (bits (13 ∷ 12 ∷ 10 ∷ 0 ∷ []))
      set (ut_buf n) 32)

  -- `ut_device_mode` of the chips with a crossbar.
  abbrev pub crossbar_device_mode : ℕ → List ℕ → List ℕ → ℕ → Act
  crossbar_device_mode clk ut_tx ut_rx baud = do
    tx ← ask get_gpio ut_tx
    rx ← ask get_gpio ut_rx
    when (pins_ok baud tx rx) (do
      omap ← ask gpio2crossbar_outreg (tx ∷ [])
      set (crossbar omap) (out_crossbar (board.fo_uart_tx 0))
      run gpio_set_die (tx ∷ 1 ∷ [])
      run gpio_set_direction (tx ∷ 0 ∷ [])
      imap ← ask gpio2crossbar_inport (rx ∷ [])
      set imap_fi_uart0_rx imap
      run gpio_set_die (rx ∷ 1 ∷ [])
      run gpio_set_direction (rx ∷ 1 ∷ [])
      run gpio_set_pull_up (rx ∷ 1 ∷ [])
      run gpio_set_pull_down (rx ∷ 0 ∷ [])
      run request_irq (board.irq_uart0_idx ∷ 0 ∷ 0 ∷ [])
      set (ut_con0 0) (bits (13 ∷ 12 ∷ 10 ∷ []))
      set (ut_baud 0) (divisor clk baud)
      arm_rx 0
      set (ut_otcnt 0) (clk / 1000)
      turn_on (ut_con0 0) (bit 5)
      turn_on (ut_con0 0) (bit 6)
      turn_on (ut_con0 0) (bits (13 ∷ 12 ∷ 10 ∷ 1 ∷ 0 ∷ [])))
