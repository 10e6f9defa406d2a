-- ===== src/Chips/Wl82/Usb0.antt =====
-- UART1 of wl82 on the pins of USB0: `user_uart1_usb0_init` and `user_uart1_usb0_close` of
-- user_boot/cpu/wl82/uart.c.
use fw_bootloader.Common.{ℕ, ◌/◌, [], ◌∷◌, Bool, true, false, ◌==◌, if◌then◌else◌}
use fw_bootloader.Hal.{
  ut_con0, iomap_con1, iomap_con3, usb_iomode, gpio_set_pull_up, gpio_set_pull_down, gpio_set_die,
  gpio_direction_output, gpio_direction_input, request_irq, Io, Act, ◌>>=◌, ◌>>◌, pure, when, bit,
  bits, any, get, set, turn_on, turn_off, run,
}
use fw_bootloader.Chips.Wl82.{Board82, uart_baud_clk, clock_pll48, set_baud}
use fw_bootloader.Chips.Wl82.Receive.{uart1, start_receiver}

abbrev pub user_uart1_usb0_init : Board82 → ℕ → Io Bool
user_uart1_usb0_init board baud = do
  (λ s. (
    tt,
    record s { user_uart1_tx = board.io_port_usb_dpa; user_uart1_rx = board.io_port_usb_dma },
  ))
  clock_pll48
  run usb_iomode (0 ∷ 1 ∷ [])
  run gpio_set_die (board.io_port_usb_dpa ∷ 1 ∷ [])
  run gpio_set_pull_up (board.io_port_usb_dpa ∷ 1 ∷ [])
  run gpio_set_pull_down (board.io_port_usb_dpa ∷ 0 ∷ [])
  run gpio_direction_output (board.io_port_usb_dpa ∷ 1 ∷ [])
  run gpio_set_die (board.io_port_usb_dma ∷ 1 ∷ [])
  run gpio_set_pull_up (board.io_port_usb_dma ∷ 1 ∷ [])
  run gpio_set_pull_down (board.io_port_usb_dma ∷ 0 ∷ [])
  run gpio_direction_input (board.io_port_usb_dma ∷ [])
  turn_off iomap_con3 (bits (4 ∷ 5 ∷ 6 ∷ []))
  turn_on iomap_con3 (bit 7)
  turn_off iomap_con1 (bits (2 ∷ 3 ∷ []))
  turn_on iomap_con1 (bits (2 ∷ 3 ∷ []))
  run request_irq (board.irq_uart1_idx ∷ 0 ∷ 0 ∷ [])
  set (ut_con0 1) (bits (13 ∷ 12 ∷ 10 ∷ []))
  if baud == 0
      then pure false
      else (do set_baud 1 (uart_baud_clk / baud); start_receiver board uart1; pure true)

abbrev pub user_uart1_usb0_close : Act
user_uart1_usb0_close = do
  c ← get (ut_con0 1)
  when (any c (bit 0)) (do
    set (ut_con0 1) (bits (13 ∷ 12 ∷ 10 ∷ []))
    turn_off iomap_con1 (bits (2 ∷ 3 ∷ []))
    turn_off iomap_con3 (bits (4 ∷ 5 ∷ 6 ∷ []))
    tx ← (λ s. (s.user_uart1_tx, s))
    rx ← (λ s. (s.user_uart1_rx, s))
    run gpio_set_die (tx ∷ 1 ∷ [])
    run gpio_set_pull_up (tx ∷ 0 ∷ [])
    run gpio_set_pull_down (tx ∷ 0 ∷ [])
    run gpio_direction_input (tx ∷ [])
    run gpio_set_die (rx ∷ 1 ∷ [])
    run gpio_set_pull_up (rx ∷ 0 ∷ [])
    run gpio_set_pull_down (rx ∷ 0 ∷ []))
