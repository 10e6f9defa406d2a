-- ===== src/Chips.antt =====
-- The chips in user_boot/cpu, by their names there, and the drivers of eight of them in one shape: the
-- functions of their uart.c and delay.c that the rest of the program calls.
pub mod Bd19
pub mod Br23
pub mod Br25
pub mod Br28
pub mod Br30
pub mod Br34
pub mod Sh54
pub mod Sh55
pub mod Wl82
pub mod Laws
use fw_bootloader.Common.{ℕ, List, Bool}
use fw_bootloader.Hal.{Sfr, ut_con0, ut_buf, Io, Act}
use fw_bootloader.Uart.{Board}
use fw_bootloader.Chips.Bd19
use fw_bootloader.Chips.Br23
use fw_bootloader.Chips.Br25
use fw_bootloader.Chips.Br28
use fw_bootloader.Chips.Br30
use fw_bootloader.Chips.Br34
use fw_bootloader.Chips.Sh54
use fw_bootloader.Chips.Sh55

pub data Chip : Type 0 where
  bd19 br23 br25 br28 br30 br34 sh54 sh55 : Chip

pub record Driver : Type 0 where
  pub putchar : ℕ → Act
  pub ut_device_mode : List ℕ → List ℕ → ℕ → Act
  pub irq : Act
  pub ut_up_tx_data : ℕ → ℕ → ℕ → Io Bool
  pub ut_devic_mode_close : Act
  pub delay : ℕ → Act

-- The UART of the upgrade, and the one that `putchar` prints on.
abbrev pub upgrade_uart : Chip → ℕ
upgrade_uart bd19 = 0
upgrade_uart br23 = 0
upgrade_uart br25 = 0
upgrade_uart br28 = 0
upgrade_uart br30 = 0
upgrade_uart br34 = 0
upgrade_uart sh54 = 1
upgrade_uart sh55 = 1

abbrev pub console_uart : Chip → ℕ
console_uart bd19 = 1
console_uart br23 = 1
console_uart br25 = 1
console_uart br28 = 1
console_uart br30 = 1
console_uart br34 = 1
console_uart sh54 = 0
console_uart sh55 = 0

abbrev pub driver : Chip → Board → Driver
driver bd19 board = record {
  putchar = Bd19.putchar;
  ut_device_mode = Bd19.ut_device_mode board;
  irq = Bd19.uart0_irq board;
  ut_up_tx_data = Bd19.ut_up_tx_data;
  ut_devic_mode_close = Bd19.ut_devic_mode_close;
  delay = Bd19.delay;
}
driver br23 board = record {
  putchar = Br23.putchar;
  ut_device_mode = Br23.ut_device_mode board;
  irq = Br23.uart0_irq board;
  ut_up_tx_data = Br23.ut_up_tx_data;
  ut_devic_mode_close = Br23.ut_devic_mode_close;
  delay = Br23.delay;
}
driver br25 board = record {
  putchar = Br25.putchar;
  ut_device_mode = Br25.ut_device_mode board;
  irq = Br25.uart0_irq board;
  ut_up_tx_data = Br25.ut_up_tx_data;
  ut_devic_mode_close = Br25.ut_devic_mode_close;
  delay = Br25.delay;
}
driver br28 board = record {
  putchar = Br28.putchar;
  ut_device_mode = Br28.ut_device_mode board;
  irq = Br28.uart0_irq board;
  ut_up_tx_data = Br28.ut_up_tx_data;
  ut_devic_mode_close = Br28.ut_devic_mode_close;
  delay = Br28.delay;
}
driver br30 board = record {
  putchar = Br30.putchar;
  ut_device_mode = Br30.ut_device_mode board;
  irq = Br30.uart0_irq board;
  ut_up_tx_data = Br30.ut_up_tx_data;
  ut_devic_mode_close = Br30.ut_devic_mode_close;
  delay = Br30.delay;
}
driver br34 board = record {
  putchar = Br34.putchar;
  ut_device_mode = Br34.ut_device_mode board;
  irq = Br34.uart0_irq board;
  ut_up_tx_data = Br34.ut_up_tx_data;
  ut_devic_mode_close = Br34.ut_devic_mode_close;
  delay = Br34.delay;
}
driver sh54 board = record {
  putchar = Sh54.putchar;
  ut_device_mode = Sh54.ut_device_mode board;
  irq = Sh54.uart1_irq board;
  ut_up_tx_data = Sh54.ut_up_tx_data;
  ut_devic_mode_close = Sh54.ut_devic_mode_close;
  delay = Sh54.delay;
}
driver sh55 board = record {
  putchar = Sh55.putchar;
  ut_device_mode = Sh55.ut_device_mode board;
  irq = Sh55.uart1_irq board;
  ut_up_tx_data = Sh55.ut_up_tx_data;
  ut_devic_mode_close = Sh55.ut_devic_mode_close;
  delay = Sh55.delay;
}
