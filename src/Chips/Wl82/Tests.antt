-- ===== src/Chips/Wl82/Tests.antt =====
-- The theorems on wl82.
use fw_bootloader.Common.{ℕ, bit_or, ◌/◌, ◌≡◌, ◌⊎◌, refl, true, false, length, arith}
use fw_bootloader.Uart.{ut_up_buf_size}
use fw_bootloader.Hal.{without}
use fw_bootloader.Fixtures.{port}
use fw_bootloader.Chips.Wl82.{Board82, uart_baud_clk, set_baud}
use fw_bootloader.Chips.Wl82.Laws.{Closest, rate_set, set_baud_lem}
use fw_bootloader.Chips.Wl82.Receive.{uart1, bytes, uart_irq}
use fw_bootloader.Chips.Wl82.Receive.Interrupt.{received, Received, Unchanged, uart_irq_lem}

abbrev board82 : Board82
board82 = record {
  io_max_num = 144;
  io_port_usb_dpa = 150;
  io_port_usb_dma = 151;
  io_port_usb_dmb = 153;
  ch0_ut0_tx = 0;
  ch1_ut1_tx = 17;
  ch2_ut2_tx = 34;
  irq_uart0_idx = 6;
  irq_uart1_idx = 7;
  ut_up_buf = 8192;
  ut1_up_buf = 16384;
}

set_baud_lem_example :
    let q = uart_baud_clk / 460800 in
    (reg : ℕ) × ((((set_baud 2 q (port 3)).1 ≡ rate_set (port 3) 2 (without 3 16) reg)
        × Closest q 4 reg)
      ⊎ (((set_baud 2 q (port 3)).1 ≡ rate_set (port 3) 2 (bit_or 3 16) reg) × Closest q 3 reg))
set_baud_lem_example = set_baud_lem 2 460800 (port 3) (omega arith) (omega arith)

uart_irq_lem_example :
    (((received board82 uart1 (port 2048) ≡ true)
        × Received board82 uart1 (port 2048) (uart_irq board82 uart1 (port 2048)).1)
      ⊎ ((received board82 uart1 (port 2048) ≡ false)
          × Unchanged board82 uart1 (port 2048) (uart_irq board82 uart1 (port 2048)).1))
    × (length (bytes uart1 (uart_irq board82 uart1 (port 2048)).1) ≡ ut_up_buf_size)
uart_irq_lem_example = uart_irq_lem board82 uart1 (port 2048) refl
