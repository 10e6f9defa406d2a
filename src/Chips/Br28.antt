-- ===== src/Chips/Br28.antt =====
-- The driver of the chip br28: user_boot/cpu/br28/uart.c and user_boot/cpu/br28/delay.c.
use fw_bootloader.Common.{ℕ, ◌+◌, ◌*◌, List, [], ◌∷◌, Bool, false, ◌&&◌, not, ◌==◌}
use fw_bootloader.Hal.{
  ut_con0, ut_baud, ut_buf, crossbar, clk_con2, get_gpio, gpio2crossbar_outreg, gpio_set_die,
  gpio_set_direction, gpio_write, Io, Act, ◌>>=◌, ◌>>◌, when, bit, bits, set, run, ask, turn_on,
  turn_off,
}
use fw_bootloader.Uart.{
  Board, putchar_on, close_on, divisor, tx_data_on, irq_on, crossbar_device_mode,
}
use fw_bootloader.Delay.{timer_wait, repeat, nops}

abbrev pub putchar : ℕ → Act
putchar = putchar_on (ut_con0 1) (ut_buf 1)

abbrev pub uart_set_baud : ℕ → Act
uart_set_baud baud = do
  turn_off clk_con2 (bit 11)
  turn_off clk_con2 (bit 10)
  turn_off (ut_con0 1) (bit 0)
  turn_on (ut_con0 1) (bits (13 ∷ 12 ∷ 10 ∷ []))
  set (ut_baud 1) (divisor 24000000 baud)
  turn_on (ut_con0 1) (bits (13 ∷ 12 ∷ 10 ∷ 0 ∷ []))

abbrev pub uart_close : Act
uart_close = close_on 1

-- The wait runs for a number of rounds; the result is whether it has ended.
abbrev pub ut_up_tx_data : ℕ → ℕ → ℕ → Io Bool
ut_up_tx_data = tx_data_on 0

abbrev pub get_ut_up_rxlen : Io ℕ
get_ut_up_rxlen = λ s. (s.ut_up_rxlen, s)

abbrev pub ut_devic_mode_close : Act
ut_devic_mode_close = set (ut_con0 0) (bits (13 ∷ 12 ∷ 10 ∷ []))

abbrev pub rc_udelay : ℕ → ℕ → Io Bool
rc_udelay rounds usec = timer_wait (bit 14) (4 * 1024 + 1) 15 16 rounds usec

abbrev pub udelay : ℕ → ℕ → Io Bool
udelay rounds usec = timer_wait (bit 14) (bit 0) 15 48 rounds usec

abbrev pub mdelay : ℕ → ℕ → Io Bool
mdelay rounds msec = repeat msec (udelay rounds 1000)

abbrev pub delay : ℕ → Act
delay t = nops t

module _ (board : Board) where
  abbrev pub get_ut_up_buf_p : ℕ
  get_ut_up_buf_p = board.ut_up_buf

  abbrev pub uart0_irq : Act
  uart0_irq = irq_on board 0

  -- It leaves `used_tx_io` as it is. The test of the pointer `tx_pin` against NULL is not modelled: it
  -- points to the characters of the name.
  abbrev pub uart_init : List ℕ → ℕ → Act
  uart_init tx_pin baud = when (not (baud == 0) && named tx_pin) (do
    io ← ask get_gpio tx_pin
    run gpio_write (io ∷ 1 ∷ [])
    run gpio_set_direction (io ∷ 0 ∷ [])
    run gpio_set_die (io ∷ 1 ∷ [])
    omap ← ask gpio2crossbar_outreg (io ∷ [])
    set (crossbar omap) (board.fo_uart_tx 1)
    set (ut_con0 1) (bits (13 ∷ 12 ∷ 10 ∷ []))
    uart_set_baud baud
    set (ut_buf 1) 32)
    where
      named : List ℕ → Bool
      named [] = false
      named (c ∷ cs) = not (c == 0)

  abbrev pub ut_device_mode : List ℕ → List ℕ → ℕ → Act
  ut_device_mode = crossbar_device_mode board 24000000
