-- ===== src/Chips/Br34.antt =====
-- The driver of the chip br34: user_boot/cpu/br34/uart.c and user_boot/cpu/br34/delay.c.
use fw_bootloader.Common.{ℕ, List, [], ◌∷◌, Bool}
use fw_bootloader.Hal.{ut_con0, ut_buf, clk_con2, Io, Act, ◌>>◌, bit, bits, set, turn_off}
use fw_bootloader.Uart.{
  Board, putchar_on, close_on, tx_data_on, irq_on, crossbar_init, crossbar_device_mode,
}
use fw_bootloader.Delay.{timer_wait, repeat, nops}

abbrev pub putchar : ℕ → Act
putchar = putchar_on (ut_con0 1) (ut_buf 1)

abbrev pub uart_close : Act
uart_close = close_on 1

-- The wait runs for a number of rounds; the result is whether it has ended.
abbrev pub ut_up_tx_data : ℕ → ℕ → ℕ → Io Bool
ut_up_tx_data = tx_data_on 0

abbrev pub get_ut_up_rxlen : Io ℕ
get_ut_up_rxlen = λ s. (s.ut_up_rxlen, s)

abbrev pub ut_devic_mode_close : Act
ut_devic_mode_close = set (ut_con0 0) (bits (13 ∷ 12 ∷ 10 ∷ []))

abbrev pub udelay : ℕ → ℕ → Io Bool
udelay rounds usec = timer_wait (bit 14) (bit 0) 15 48 rounds usec

abbrev pub mdelay : ℕ → ℕ → Io Bool
mdelay rounds msec = repeat msec (udelay rounds 1000)

abbrev pub delay : ℕ → Act
delay t = nops t

module _ (board : Board) where
  abbrev pub get_ut_up_buf_p : ℕ
  get_ut_up_buf_p = board.ut_up_buf

  abbrev pub uart0_irq : Act
  uart0_irq = irq_on board 0

  abbrev pub uart_init : List ℕ → ℕ → Act
  uart_init tx_io baud = do
    turn_off clk_con2 (bit 10)
    turn_off clk_con2 (bit 11)
    crossbar_init board 1 24000000 tx_io baud

  abbrev pub ut_device_mode : List ℕ → List ℕ → ℕ → Act
  ut_device_mode = crossbar_device_mode board 24000000
