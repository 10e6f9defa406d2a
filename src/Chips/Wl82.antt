-- ===== src/Chips/Wl82.antt =====
-- The driver of the chip wl82: user_boot/cpu/wl82/uart.c, where DEBUG_UART is JL_UART2, and
-- user_boot/cpu/wl82/delay.c. The waits run for a number of rounds; the result is whether they ended.
-- Where the code divides by a baud rate without a test, the result is false for the rate 0.
pub mod Receive
pub mod Usb0
pub mod Laws
mod Tests
use fw_bootloader.Common.{
  ℕ, ◌*◌, ◌/◌, ◌%◌, ◌^◌, ◌-◌, List, [], ◌∷◌, Bool, true, false, ◌&&◌, not, ltb, leb, ◌==◌,
  if◌then◌else◌, bit_or, get_elem?, Option, none, some,
}
use fw_bootloader.Common.Memory.{Result, ok, fault}
use fw_bootloader.Hal.{
  Sfr, ut_con0, ut_buf, ut_baud, clk_con1, iomap_con1, iomap_con3, get_gpio, gpio_output_channle,
  gpio_uart_rx_input, gpio_set_pull_up, gpio_set_pull_down, gpio_set_die, gpio_set_direction,
  gpio_clear_output_channle, Io, Act, ◌>>=◌, ◌>>◌, pure, done, when, access, csync, bit, bits, any,
  without, minus_one, get, set, turn_on, turn_off, run, ask, poll,
}
use fw_bootloader.Uart.{tx_data_on, get_used_tx_io, set_used_tx_io}
use fw_bootloader.Delay.{timer_wait, repeat, nops}

-- The constants of the chip's headers, and the addresses of the two receive buffers.
pub record Board82 : Type 0 where
  pub io_max_num : ℕ
  pub io_port_usb_dpa : ℕ
  pub io_port_usb_dma : ℕ
  pub io_port_usb_dmb : ℕ
  pub ch0_ut0_tx : ℕ
  pub ch1_ut1_tx : ℕ
  pub ch2_ut2_tx : ℕ
  pub irq_uart0_idx : ℕ
  pub irq_uart1_idx : ℕ
  pub ut_up_buf : ℕ
  pub ut1_up_buf : ℕ

abbrev pub uart_baud_clk : ℕ
uart_baud_clk = 48000000

-- The pin `(u32) - 1`, which is none.
abbrev pub no_pin : ℕ
no_pin = 2 ^ 32 - 1

-- `SFR(JL_CLOCK->CLK_CON1, 10, 2, 1)`
abbrev pub clock_pll48 : Act
clock_pll48 = do v ← get clk_con1; set clk_con1 (bit_or (without v (bits (10 ∷ 11 ∷ []))) (bit 10))

-- Whether the divider 4 comes closer to the rate than 3.
abbrev pub uses_four : ℕ → Bool
uses_four q = ltb (q % 4) (q % 3)

abbrev pub set_baud : ℕ → ℕ → Act
set_baud n q =
    if uses_four q
    then (do turn_off (ut_con0 n) (bit 4); set (ut_baud n) (minus_one (q / 4)))
    else (do turn_on (ut_con0 n) (bit 4); set (ut_baud n) (minus_one (q / 3)))

abbrev pub put_byte : ℕ → ℕ → Io Bool
put_byte rounds a = do
  set (ut_buf 2) a
  access csync
  ended ← poll (ut_con0 2) (bit 15) rounds
  when ended (turn_on (ut_con0 2) (bit 13))
  pure ended

-- A line feed is preceded by a carriage return.
abbrev pub putchar : ℕ → ℕ → Io Bool
putchar rounds a = do
  c ← get (ut_con0 2)
  if any c (bit 0)
      then (do
        returned ← if a == 10 then put_byte rounds 13 else pure true
        if returned then put_byte rounds a else pure false)
      else pure true

abbrev pub ut_up_tx_data : ℕ → ℕ → ℕ → Io Bool
ut_up_tx_data = tx_data_on 0

abbrev pub uart1_tx_data : ℕ → ℕ → ℕ → Io Bool
uart1_tx_data = tx_data_on 1

abbrev pub user_uart1_usb0_tx_data : ℕ → ℕ → ℕ → Io Bool
user_uart1_usb0_tx_data = tx_data_on 1

abbrev pub udelay : ℕ → ℕ → Io Bool
udelay rounds usec = timer_wait (bit 14) (bit 0) 15 48 rounds usec

abbrev pub mdelay : ℕ → ℕ → Io Bool
mdelay rounds msec = repeat msec (udelay rounds 1000)

abbrev pub delay : ℕ → Act
delay t = nops t

-- The entry of `gpio_regs`, which has eight; none is NULL.
pub gpio2reg : ℕ → List ℕ → ℕ → Result (Option ℕ)
gpio2reg io_max_num gpio_regs gpio =
    if ltb io_max_num gpio
    then ok none
    else elim (get_elem? gpio_regs (gpio / 16)) [ none ↦ fault | some reg ↦ ok (some reg) ]

module _ (board : Board82) where
  -- The pins of UART n.
  abbrev pub uart_route : ℕ → ℕ → ℕ → Act
  uart_route n txio rxio =
      if n == 0
      then (do
        turn_off iomap_con1 (bits (8 ∷ 9 ∷ 10 ∷ 11 ∷ []))
        turn_on iomap_con1 0
        turn_off iomap_con3 (bits (0 ∷ 1 ∷ 2 ∷ []))
        run gpio_output_channle (txio ∷ board.ch0_ut0_tx ∷ [])
        when (not (rxio == no_pin)) (run gpio_uart_rx_input (rxio ∷ 0 ∷ 0 ∷ [])))
      else if n == 1
      then (do
        turn_off iomap_con3 (bits (20 ∷ 21 ∷ 22 ∷ 23 ∷ []))
        turn_on iomap_con3 (bit 20)
        turn_off iomap_con3 (bits (4 ∷ 5 ∷ 6 ∷ []))
        run gpio_output_channle (txio ∷ board.ch1_ut1_tx ∷ [])
        when (not (rxio == no_pin)) (run gpio_uart_rx_input (rxio ∷ 1 ∷ 1 ∷ [])))
      else (do
        turn_off iomap_con3 (bits (24 ∷ 25 ∷ 26 ∷ 27 ∷ []))
        turn_on iomap_con3 (bits (24 ∷ 25 ∷ 26 ∷ []))
        turn_off iomap_con3 (bits (8 ∷ 9 ∷ 10 ∷ []))
        run gpio_output_channle (txio ∷ board.ch2_ut2_tx ∷ [])
        when (not (rxio == no_pin)) (run gpio_uart_rx_input (rxio ∷ 2 ∷ 2 ∷ [])))

  abbrev pub uart_set : ℕ → ℕ → ℕ → ℕ → Io Bool
  uart_set n baud txio rxio = do
    clock_pll48
    uart_route n txio rxio
    set (ut_con0 n) 0
    turn_off (ut_con0 n) (bit 0)
    turn_on (ut_con0 n) (bits (13 ∷ 12 ∷ 10 ∷ []))
    if baud == 0 then pure false else (do
      set_baud n (uart_baud_clk / baud)
      turn_on (ut_con0 n) (bits (13 ∷ 12 ∷ 10 ∷ 0 ∷ []))
      pure true)

  abbrev pub uart_init : List ℕ → ℕ → Io Bool
  uart_init tx_pin baud = do
    io ← ask get_gpio tx_pin
    if ltb io board.io_max_num
        then (do went ← uart_set 2 baud io no_pin; when went (set_used_tx_io io); pure went)
        else pure true

  -- DEBUG_UART is JL_UART2, so that the channel is CH2_UT2_TX.
  abbrev pub uart_close : Act
  uart_close = do
    c ← get (ut_con0 2)
    when (any c (bit 0)) (do
      set (ut_con0 2) 0
      io ← get_used_tx_io
      run gpio_set_pull_up (io ∷ 0 ∷ [])
      run gpio_set_pull_down (io ∷ 0 ∷ [])
      run gpio_set_die (io ∷ 0 ∷ [])
      run gpio_set_direction (io ∷ 1 ∷ [])
      run gpio_clear_output_channle (io ∷ board.ch2_ut2_tx ∷ []))
