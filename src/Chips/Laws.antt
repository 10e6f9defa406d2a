-- ===== src/Chips/Laws.antt =====
-- What holds of the drivers of all the chips.
use fw_bootloader.Common.{ℕ, ◌≡◌, ◌<◌, ◌≤◌, arith, List, [], ◌∷◌, ◌++◌, true, false, ◌⊎◌, replicate}
use fw_bootloader.Hal.{ut_con0, ut_buf, read_sfr, call_lib, get_gpio, nop, Port, bit, any}
use fw_bootloader.Hal.Poll.{after, reads, after-after}
use fw_bootloader.Uart.{Board, pins_ok}
use fw_bootloader.Uart.Interrupt.{pending, Taken, Passed, irq_on_lem}
use fw_bootloader.Uart.Console.{Printed, putchar_on_lem, tx_started, tx_data_on_ends}
use fw_bootloader.Delay.Count.{nops_lem}
use fw_bootloader.Chips.{
  Chip, bd19, br23, br25, br28, br30, br34, sh54, sh55, driver, upgrade_uart, console_uart,
}

-- On every chip the interrupt of the upgrade's UART either finds a reception pending, and then stores
-- the length that the hardware reports, raises the flag exactly when that is at least 4, and at last
-- sets up the buffer with its whole size for the next reception; or it finds none, and does nothing
-- but read the control register once or twice.
pub irq_lem :
    (c : Chip) (board : Board) (s : Port)
    → ((pending board (upgrade_uart c) s ≡ true)
        × Taken board (upgrade_uart c) s ((driver c board).irq s).1)
      ⊎ ((pending board (upgrade_uart c) s ≡ false)
          × Passed board (upgrade_uart c) s ((driver c board).irq s).1)
irq_lem bd19 board s = irq_on_lem board 0 s
irq_lem br23 board s = irq_on_lem board 0 s
irq_lem br25 board s = irq_on_lem board 0 s
irq_lem br28 board s = irq_on_lem board 0 s
irq_lem br30 board s = irq_on_lem board 0 s
irq_lem br34 board s = irq_on_lem board 0 s
irq_lem sh54 board s = irq_on_lem board 1 s
irq_lem sh55 board s = irq_on_lem board 1 s

-- On every chip, whatever the hardware answers, `putchar` on an enabled UART reads the control
-- register at most 65539 times, clears the pending bit and writes the character once; on a UART that
-- is not enabled it does nothing but read the register.
pub putchar_lem :
    (c : Chip) (board : Board) (a : ℕ) (s : Port)
    → ((any (s.answer (read_sfr (ut_con0 (console_uart c))) s.accesses) (bit 0) ≡ true)
        × Printed
            (ut_con0 (console_uart c))
            (ut_buf (console_uart c))
            a
            s
            ((driver c board).putchar a s).1)
      ⊎ ((any (s.answer (read_sfr (ut_con0 (console_uart c))) s.accesses) (bit 0) ≡ false)
          × (((driver c board).putchar a s).1 ≡ after s (reads 1 (ut_con0 (console_uart c)))))
putchar_lem bd19 board a s = putchar_on_lem (ut_con0 1) (ut_buf 1) a s
putchar_lem br23 board a s = putchar_on_lem (ut_con0 1) (ut_buf 1) a s
putchar_lem br25 board a s = putchar_on_lem (ut_con0 1) (ut_buf 1) a s
putchar_lem br28 board a s = putchar_on_lem (ut_con0 1) (ut_buf 1) a s
putchar_lem br30 board a s = putchar_on_lem (ut_con0 1) (ut_buf 1) a s
putchar_lem br34 board a s = putchar_on_lem (ut_con0 1) (ut_buf 1) a s
putchar_lem sh54 board a s = putchar_on_lem (ut_con0 0) (ut_buf 0) a s
putchar_lem sh55 board a s = putchar_on_lem (ut_con0 0) (ut_buf 0) a s

-- On every chip, when the UART is seen idle at the read number k after the transmission was started,
-- counted from 0, `ut_up_tx_data` ends within any number of rounds above k.
pub ut_up_tx_data_ends :
    (c : Chip) (board : Board) (rounds buf len k : ℕ) (s : Port)
    → k < rounds
    → any
        (s.answer (read_sfr (ut_con0 (upgrade_uart c))) (
          (s.accesses ++ tx_started (upgrade_uart c) buf len)
          ++ reads k (ut_con0 (upgrade_uart c))))
        (bit 15)
      ≡ true
    → ((driver c board).ut_up_tx_data rounds buf len s).0 ≡ true
ut_up_tx_data_ends bd19 board rounds buf len k s = tx_data_on_ends 0 rounds buf len k s
ut_up_tx_data_ends br23 board rounds buf len k s = tx_data_on_ends 0 rounds buf len k s
ut_up_tx_data_ends br25 board rounds buf len k s = tx_data_on_ends 0 rounds buf len k s
ut_up_tx_data_ends br28 board rounds buf len k s = tx_data_on_ends 0 rounds buf len k s
ut_up_tx_data_ends br30 board rounds buf len k s = tx_data_on_ends 0 rounds buf len k s
ut_up_tx_data_ends br34 board rounds buf len k s = tx_data_on_ends 0 rounds buf len k s
ut_up_tx_data_ends sh54 board rounds buf len k s = tx_data_on_ends 1 rounds buf len k s
ut_up_tx_data_ends sh55 board rounds buf len k s = tx_data_on_ends 1 rounds buf len k s

-- The guard refuses baud 0, and a pin from `IO_PORT_MAX` on.
pins_ok-refused :
    (board : Board) (baud tx rx : ℕ)
    → (baud ≡ 0) ⊎ ((board.io_port_max ≤ tx) ⊎ (board.io_port_max ≤ rx))
    → pins_ok board baud tx rx ≡ false
pins_ok-refused board baud tx rx why = ground arith

-- On every chip, `ut_device_mode` with baud 0, or with a pin whose number is not below `IO_PORT_MAX`, does
-- nothing but look up the two pins: no register is written and no interrupt is installed.
pub ut_device_mode_refused :
    (c : Chip) (board : Board) (tx rx : List ℕ) (baud : ℕ) (s : Port)
    → (baud ≡ 0)
      ⊎ ((board.io_port_max ≤ s.answer (call_lib get_gpio tx) s.accesses)
          ⊎ (board.io_port_max
              ≤ s.answer (call_lib get_gpio rx) (s.accesses ++ call_lib get_gpio tx ∷ [])))
    → ((driver c board).ut_device_mode tx rx baud s).1
      ≡ after s (call_lib get_gpio tx ∷ call_lib get_gpio rx ∷ [])
ut_device_mode_refused bd19 board tx rx baud s h =
    rw (pins_ok-refused board baud _ _ h)
      (after-after s (call_lib get_gpio tx ∷ []) (call_lib get_gpio rx ∷ []))
ut_device_mode_refused br23 board tx rx baud s h =
    rw (pins_ok-refused board baud _ _ h)
      (after-after s (call_lib get_gpio tx ∷ []) (call_lib get_gpio rx ∷ []))
ut_device_mode_refused br25 board tx rx baud s h =
    rw (pins_ok-refused board baud _ _ h)
      (after-after s (call_lib get_gpio tx ∷ []) (call_lib get_gpio rx ∷ []))
ut_device_mode_refused br28 board tx rx baud s h =
    rw (pins_ok-refused board baud _ _ h)
      (after-after s (call_lib get_gpio tx ∷ []) (call_lib get_gpio rx ∷ []))
ut_device_mode_refused br30 board tx rx baud s h =
    rw (pins_ok-refused board baud _ _ h)
      (after-after s (call_lib get_gpio tx ∷ []) (call_lib get_gpio rx ∷ []))
ut_device_mode_refused br34 board tx rx baud s h =
    rw (pins_ok-refused board baud _ _ h)
      (after-after s (call_lib get_gpio tx ∷ []) (call_lib get_gpio rx ∷ []))
ut_device_mode_refused sh54 board tx rx baud s h =
    rw (pins_ok-refused board baud _ _ h)
      (after-after s (call_lib get_gpio tx ∷ []) (call_lib get_gpio rx ∷ []))
ut_device_mode_refused sh55 board tx rx baud s h =
    rw (pins_ok-refused board baud _ _ h)
      (after-after s (call_lib get_gpio tx ∷ []) (call_lib get_gpio rx ∷ []))

-- On every chip, `delay` with t executes exactly t nops and nothing else.
pub delay_lem :
    (c : Chip) (board : Board) (t : ℕ) (s : Port)
    → ((driver c board).delay t s).1 ≡ after s (replicate t nop)
delay_lem bd19 board t s = nops_lem t s
delay_lem br23 board t s = nops_lem t s
delay_lem br25 board t s = nops_lem t s
delay_lem br28 board t s = nops_lem t s
delay_lem br30 board t s = nops_lem t s
delay_lem br34 board t s = nops_lem t s
delay_lem sh54 board t s = nops_lem t s
delay_lem sh55 board t s = nops_lem t s
