-- ===== src/Chips/Br25.antt =====
-- The driver of the chip br25: user_boot/cpu/br25/uart.c and user_boot/cpu/br25/delay.c.
use fw_bootloader.Common.{ℕ, ◌/◌, List, [], ◌∷◌, Bool, ◌&&◌, not, ltb, ◌==◌}
use fw_bootloader.Hal.{
  ut_con0, ut_baud, ut_buf, ut_otcnt, clk_con2, iomap_con3, get_gpio, gpio_output_channle,
  gpio_uart_input_channel, request_irq, Io, Act, ◌>>=◌, ◌>>◌, when, bit, bits, set, run, ask,
  turn_on, turn_off,
}
use fw_bootloader.Uart.{
  Board, get_used_tx_io, set_used_tx_io, putchar_on, close_on, divisor, tx_data_on, arm_rx, irq_on,
  pins_ok,
}
use fw_bootloader.Delay.{timer_wait, repeat, nops}

abbrev pub putchar : ℕ → Act
putchar = putchar_on (ut_con0 1) (ut_buf 1)

abbrev pub uart_close : Act
uart_close = close_on 1

-- The wait runs for a number of rounds; the result is whether it has ended.
abbrev pub ut_up_tx_data : ℕ → ℕ → ℕ → Io Bool
ut_up_tx_data = tx_data_on 0

abbrev pub get_ut_up_rxlen : Io ℕ
get_ut_up_rxlen = λ s. (s.ut_up_rxlen, s)

abbrev pub ut_devic_mode_close : Act
ut_devic_mode_close = set (ut_con0 0) (bits (13 ∷ 12 ∷ 10 ∷ []))

abbrev pub udelay : ℕ → ℕ → Io Bool
udelay rounds usec = timer_wait (bit 14) (bit 0) 15 48 rounds usec

abbrev pub mdelay : ℕ → ℕ → Io Bool
mdelay rounds msec = repeat msec (udelay rounds 1000)

abbrev pub delay : ℕ → Act
delay t = nops t

module _ (board : Board) where
  abbrev pub get_ut_up_buf_p : ℕ
  get_ut_up_buf_p = board.ut_up_buf

  abbrev pub uart0_irq : Act
  uart0_irq = irq_on board 0

  abbrev pub uart_init : List ℕ → ℕ → Act
  uart_init tx_io baud = do
    turn_off clk_con2 (bit 10)
    turn_off clk_con2 (bit 11)
    turn_off iomap_con3 4095
    pin ← ask get_gpio tx_io
    set_used_tx_io pin
    io ← get_used_tx_io
    when (not (baud == 0) && ltb io board.io_port_max) (do
      run gpio_output_channle (io ∷ board.ch1_ut1_tx ∷ [])
      set (ut_baud 1) (divisor 48000000 baud)
      set (ut_con0 1) (bits (13 ∷ 12 ∷ 10 ∷ 0 ∷ []))
      set (ut_buf 1) 32)

  abbrev pub ut_device_mode : List ℕ → List ℕ → ℕ → Act
  ut_device_mode ut_tx ut_rx baud = do
    tx ← ask get_gpio ut_tx
    rx ← ask get_gpio ut_rx
    when (pins_ok board baud tx rx) (do
      run gpio_output_channle (tx ∷ board.ch0_ut0_tx ∷ [])
      run gpio_uart_input_channel (rx ∷ 0 ∷ [])
      run request_irq (board.irq_uart0_idx ∷ 0 ∷ 0 ∷ [])
      set (ut_con0 0) (bits (13 ∷ 12 ∷ 10 ∷ []))
      set (ut_baud 0) (divisor 48000000 baud)
      arm_rx board 0
      set (ut_otcnt 0) (48000000 / 1000)
      turn_on (ut_con0 0) (bit 5)
      turn_on (ut_con0 0) (bit 6)
      turn_on (ut_con0 0) (bits (13 ∷ 12 ∷ 10 ∷ 0 ∷ [])))
