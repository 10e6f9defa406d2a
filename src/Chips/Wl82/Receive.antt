-- ===== src/Chips/Wl82/Receive.antt =====
-- The two receiving UARTs of user_boot/cpu/wl82/uart.c: their buffers, their interrupts, and the start and
-- the end of the upgrade's UART.
pub mod Interrupt
use fw_bootloader.Common.{
  ℕ, zero, suc, ◌+◌, ◌*◌, ◌/◌, ◌%◌, ◌^◌, ◌≤◌, List, [], ◌∷◌, ◌++◌, Bool, true, false, ◌&&◌, not,
  ltb, leb, ◌==◌, if◌then◌else◌, u32, take, drop,
}
use fw_bootloader.Hal.{
  ut_con0, ut_hrxcnt, ut_rxsadr, ut_rxeadr, ut_rxcnt, ut_otcnt, iomap_con3, get_gpio,
  gpio_set_pull_up, gpio_set_pull_down, gpio_set_die, gpio_set_direction, gpio_clear_output_channle,
  request_irq, Port, Io, Act, ◌>>=◌, ◌>>◌, pure, done, when, access, csync, bit, bits, any, get,
  set, turn_on, turn_off, run, ask,
}
use fw_bootloader.Uart.{ut_up_buf_size, raise_new_data}
use fw_bootloader.Chips.Wl82.{Board82, uart_baud_clk, uart_set, ut_up_tx_data}

-- JL_UART0 and JL_UART1, each with its static variables.
pub data UpUart : Type 0 where
  uart0 uart1 : UpUart

abbrev pub number : UpUart → ℕ
number uart0 = 0
number uart1 = 1

abbrev pub buffer_address : Board82 → UpUart → ℕ
buffer_address board uart0 = board.ut_up_buf
buffer_address board uart1 = board.ut1_up_buf

abbrev pub rxlen : UpUart → Port → ℕ
rxlen uart0 s = s.ut_up_rxlen
rxlen uart1 s = s.ut1_up_rxlen

abbrev pub bytes : UpUart → Port → List ℕ
bytes uart0 s = s.ut_up_bytes
bytes uart1 s = s.ut1_up_bytes

abbrev pub set_rxlen : UpUart → ℕ → Act
set_rxlen uart0 len = λ s. (tt, record s { ut_up_rxlen = len })
set_rxlen uart1 len = λ s. (tt, record s { ut1_up_rxlen = len })

abbrev pub get_rxlen : UpUart → Io ℕ
get_rxlen u = λ s. (rxlen u s, s)

abbrev pub get_ut_up_rxlen : Io ℕ
get_ut_up_rxlen = get_rxlen uart0

abbrev pub get_uart1_rxlen : Io ℕ
get_uart1_rxlen = get_rxlen uart1

abbrev pub get_ut_up_buf_p : Board82 → ℕ
get_ut_up_buf_p board = buffer_address board uart0

abbrev pub get_uart1_buf : Board82 → ℕ
get_uart1_buf board = buffer_address board uart1

abbrev pub set_ut_new : UpUart → Act
set_ut_new uart0 = λ s. (tt, record s { ut_new_data = 1 })
set_ut_new uart1 = λ s. (tt, record s { ut1_new_data = 1 })

-- `ut_up_buf[len] = 0`
abbrev pub ended_at : ℕ → List ℕ → List ℕ
ended_at len b = take len b ++ 0 ∷ drop (len + 1) b

abbrev pub end_buffer : UpUart → ℕ → Act
end_buffer uart0 len = λ s. (tt, record s { ut_up_bytes = ended_at len s.ut_up_bytes })
end_buffer uart1 len = λ s. (tt, record s { ut1_up_bytes = ended_at len s.ut1_up_bytes })

abbrev pub arm : Board82 → UpUart → Act
arm board u = do
  set (ut_rxsadr (number u)) (buffer_address board u)
  set (ut_rxeadr (number u)) (u32 (buffer_address board u + ut_up_buf_size))
  set (ut_rxcnt (number u)) ut_up_buf_size

-- The first condition of the interrupt.
pub clear_sent : UpUart → Act
clear_sent u = do
  c ← get (ut_con0 (number u))
  when (any c (bits (15 ∷ 2 ∷ []))) (turn_on (ut_con0 (number u)) (bit 13))

pub take_length : UpUart → Act
take_length u = do
  turn_on (ut_con0 (number u)) (bit 7)
  access csync
  turn_on (ut_con0 (number u)) (bits (10 ∷ 12 ∷ []))
  access csync
  len ← get (ut_hrxcnt (number u))
  set_rxlen u len

-- From the read of the length on.
pub keep_received : Board82 → UpUart → Act
keep_received board u = do
  len ← get_rxlen u
  when (leb 1 len) (do raise_new_data; set_ut_new u)
  when (ltb len ut_up_buf_size) (end_buffer u len)
  arm board u

-- `uart0_irq` and `uart1_irq`.
pub uart_irq : Board82 → UpUart → Act
unfolding clear_sent take_length keep_received
uart_irq board u = do
  clear_sent u
  c ← get (ut_con0 (number u))
  when (any c (bits (11 ∷ 15 ∷ []))) (do take_length u; keep_received board u)
  access csync

-- OT and RX interrupts, DMA, eight bits.
abbrev pub start_receiver : Board82 → UpUart → Act
start_receiver board u = do
  arm board u
  set (ut_otcnt (number u)) (uart_baud_clk / 1000)
  turn_on (ut_con0 (number u)) (bits (5 ∷ 3 ∷ []))
  turn_on (ut_con0 (number u)) (bit 6)
  turn_off (ut_con0 (number u)) (bit 1)
  turn_on (ut_con0 (number u)) (bits (13 ∷ 12 ∷ 10 ∷ 0 ∷ []))

-- A pin of USB is refused with a message.
abbrev pub ut_device_mode : Board82 → List ℕ → List ℕ → ℕ → Act
ut_device_mode board ut_tx ut_rx baud = do
  ut_tx_io ← ask get_gpio ut_tx
  ut_rx_io ← ask get_gpio ut_rx
  when (not (baud == 0) && leb ut_tx_io board.io_port_usb_dmb && leb ut_rx_io board.io_port_usb_dmb)
      (when (not (leb board.io_port_usb_dma ut_tx_io)) (do
        (λ s. (tt, record s { user_uart0_tx = ut_tx_io; user_uart0_rx = ut_rx_io }))
        _ ← uart_set board 0 baud ut_tx_io ut_rx_io
        run request_irq (board.irq_uart0_idx ∷ 0 ∷ 0 ∷ [])
        start_receiver board uart0))

abbrev pub release : ℕ → Act
release io = do
  run gpio_set_pull_up (io ∷ 0 ∷ [])
  run gpio_set_pull_down (io ∷ 0 ∷ [])
  run gpio_set_die (io ∷ 0 ∷ [])
  run gpio_set_direction (io ∷ 1 ∷ [])

abbrev pub ut_devic_mode_close : Board82 → Act
ut_devic_mode_close board = do
  set (ut_con0 0) (bits (13 ∷ 12 ∷ 10 ∷ []))
  turn_off iomap_con3 (bits (0 ∷ 1 ∷ 2 ∷ []))
  tx ← (λ s. (s.user_uart0_tx, s))
  rx ← (λ s. (s.user_uart0_rx, s))
  release tx
  release rx
  run gpio_clear_output_channle (tx ∷ board.ch0_ut0_tx ∷ [])

-- One round of the loop of `uart_test_task` on UART0, which sends back what was received.
abbrev pub echo_round : Board82 → ℕ → Io Bool
echo_round board rounds = do
  new ← (λ s. (s.ut_new_data, s))
  if new == 0 then pure true else (do
    (λ s. (tt, record s { ut_new_data = 0 }))
    len ← get_ut_up_rxlen
    ut_up_tx_data rounds (get_ut_up_buf_p board) len)

-- The start of `uart_test_task` on the pins PA08 and PA09, and a number of rounds.
abbrev pub echo_rounds : Board82 → ℕ → ℕ → Io Bool
echo_rounds board rounds zero = pure true
echo_rounds board rounds (suc n) = do
  went ← echo_round board rounds
  if went then echo_rounds board rounds n else pure false

abbrev pub uart_test_task : Board82 → ℕ → ℕ → Io Bool
uart_test_task board rounds n = do
  ut_device_mode board (b'P' ∷ b'A' ∷ b'0' ∷ b'8' ∷ []) (b'P' ∷ b'A' ∷ b'0' ∷ b'9' ∷ []) 460800
  echo_rounds board rounds n
