-- ===== src/Chips/Sh54.antt =====
-- The driver of the chip sh54: user_boot/cpu/sh54/uart.c and user_boot/cpu/sh54/delay.c. `JL_UT0->CON` is the
-- register `ut_con0 0`.
use fw_bootloader.Common.{ℕ, ◌/◌, List, [], ◌∷◌, Bool, ◌&&◌, not, ltb, ◌==◌}
use fw_bootloader.Hal.{
  ut_con0, ut_baud, ut_buf, ut_otcnt, jl_clk_con0, jl_iomc_iomc0, get_gpio, gpio_output_channle,
  gpio_uart_input_channel, request_irq, Io, Act, ◌>>=◌, ◌>>◌, when, bit, bits, any, get, set, run,
  ask, turn_on, turn_off,
}
use fw_bootloader.Uart.{
  Board, get_used_tx_io, set_used_tx_io, putchar_on, release_pin, divisor, tx_data_on, arm_rx,
  irq_on, pins_ok,
}
use fw_bootloader.Delay.{timer_wait, repeat, nops}

abbrev pub putchar : ℕ → Act
putchar = putchar_on (ut_con0 0) (ut_buf 0)

-- `JL_UT0->CON`, which has no second control register.
abbrev pub uart_close : Board → Act
uart_close board =
    when board.libs_debug
      (do c ← get (ut_con0 0); when (any c (bit 0)) (do set (ut_con0 0) 0; release_pin))

-- The wait runs for a number of rounds; the result is whether it has ended.
abbrev pub ut_up_tx_data : ℕ → ℕ → ℕ → Io Bool
ut_up_tx_data = tx_data_on 1

abbrev pub get_ut_up_rxlen : Io ℕ
get_ut_up_rxlen = λ s. (s.ut_up_rxlen, s)

abbrev pub ut_devic_mode_close : Act
ut_devic_mode_close = set (ut_con0 1) (bits (13 ∷ 12 ∷ 10 ∷ []))

abbrev pub udelay : ℕ → ℕ → Io Bool
udelay rounds usec = timer_wait (bit 6) (bits (0 ∷ 6 ∷ [])) 7 48 rounds usec

abbrev pub mdelay : ℕ → ℕ → Io Bool
mdelay rounds msec = repeat msec (udelay rounds 1000)

abbrev pub delay : ℕ → Act
delay t = nops t

module _ (board : Board) where
  abbrev pub get_ut_up_buf_p : ℕ
  get_ut_up_buf_p = board.ut_up_buf

  abbrev pub uart1_irq : Act
  uart1_irq = irq_on board 1

  abbrev pub uart_init : List ℕ → ℕ → Act
  uart_init tx_io baud = when board.libs_debug (do
    turn_off jl_clk_con0 (bit 8)
    turn_off jl_clk_con0 (bit 9)
    turn_off jl_iomc_iomc0 (bits (5 ∷ 6 ∷ []))
    turn_off jl_iomc_iomc0 (bit 4)
    pin ← ask get_gpio tx_io
    set_used_tx_io pin
    io ← get_used_tx_io
    when (not (baud == 0) && ltb io board.io_port_max) (do
      run gpio_output_channle (io ∷ board.ch1_ut0_tx ∷ [])
      set (ut_baud 0) (divisor 48000000 baud)
      set (ut_con0 0) (bits (13 ∷ 12 ∷ 0 ∷ []))
      set (ut_buf 0) 32))

  abbrev pub ut_device_mode : List ℕ → List ℕ → ℕ → Act
  ut_device_mode ut_tx ut_rx baud = do
    tx ← ask get_gpio ut_tx
    rx ← ask get_gpio ut_rx
    when (pins_ok board baud tx rx) (do
      run gpio_output_channle (tx ∷ board.ch0_ut1_tx ∷ [])
      run gpio_uart_input_channel (rx ∷ 1 ∷ [])
      run request_irq (board.irq_uart1_idx ∷ 0 ∷ 0 ∷ [])
      set (ut_con0 1) (bits (13 ∷ 12 ∷ 10 ∷ []))
      arm_rx board 1
      turn_on (ut_con0 1) (bit 5)
      turn_on (ut_con0 1) (bits (7 ∷ 6 ∷ []))
      set (ut_baud 1) (divisor 48000000 baud)
      set (ut_otcnt 1) (48000000 / 1000)
      turn_on (ut_con0 1) (bits (13 ∷ 12 ∷ 10 ∷ 1 ∷ 0 ∷ [])))
