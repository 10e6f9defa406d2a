-- ===== src/Hal.antt =====
-- The registers and the driver library that the files of user_boot/cpu use. What a register reads as
-- and what a library call answers is not under the program's control: `answer` gives it, from the
-- access and all the accesses before it. A run is the list of its accesses, in order.
pub mod Poll
use fw_bootloader.Common.{
  ℕ, zero, suc, ◌+◌, ◌-◌, ◌^◌, List, [], ◌∷◌, ◌++◌, Bool, true, false, not, ◌==◌, bit_and, bit_or,
  bit_xor, u32,
}

-- `JL_UARTn` and `JL_UTn` with n, the clock and pin registers, and the timer.
pub data Sfr : Type 0 where
  ut_con0 ut_con1 ut_baud ut_buf ut_txadr ut_txcnt ut_hrxcnt ut_rxsadr ut_rxeadr ut_rxcnt ut_otcnt :
      ℕ → Sfr
  crossbar : ℕ → Sfr
  clk_con1 clk_con2 iomap_con1 iomap_con3 imap_fi_uart0_rx jl_clk_con0 jl_iomc_iomc0 : Sfr
  timer_con timer_cnt timer_prd : Sfr

-- The functions of the library; a pin's name is its characters.
pub data Lib : Type 0 where
  get_gpio gpio2crossbar_outreg gpio2crossbar_inport gpio_set_die gpio_set_direction : Lib
  gpio_set_pull_up gpio_set_pull_down gpio_output_channle gpio_clear_output_channle : Lib
  gpio_uart_input_channel gpio_uart_rx_input gpio_write gpio_direction_output : Lib
  gpio_direction_input usb_iomode request_irq : Lib

pub data Access : Type 0 where
  read_sfr : Sfr → Access
  write_sfr : Sfr → ℕ → Access
  call_lib : Lib → List ℕ → Access
  csync nop : Access

-- The static variables of a uart.c, and what was done so far. `new_data` is the flag of user.c. Those from
-- `ut1_up_rxlen` to `ut1_up_bytes`, the last two being the receive buffers, are those of wl82 only.
pub record Port : Type 0 where
  pub answer : Access → List Access → ℕ
  pub used_tx_io : ℕ
  pub used_tx_io_omap : ℕ
  pub ut_up_rxlen : ℕ
  pub new_data : ℕ
  pub ut1_up_rxlen : ℕ
  pub ut_new_data : ℕ
  pub ut1_new_data : ℕ
  pub user_uart0_tx : ℕ
  pub user_uart0_rx : ℕ
  pub user_uart1_tx : ℕ
  pub user_uart1_rx : ℕ
  pub ut_up_bytes : List ℕ
  pub ut1_up_bytes : List ℕ
  pub accesses : List Access

abbrev pub Io {ℓ} : Type ℓ → Type ℓ
Io A = Port → A × Port

-- An operation without a result.
abbrev pub Act : Type 0
Act = Io (Unit {0})

infixl 5 ◌>>=◌ ◌>>◌
abbrev pub ◌>>=◌ {ℓ κ} : {A : Type ℓ} {B : Type κ} (run : Io A) (next : A → Io B) → Io B
(run >>= next) s = next (run s).0 (run s).1

abbrev pub ◌>>◌ {ℓ} : {B : Type ℓ} (first : Act) (second : Io B) → Io B
(first >> second) s = second (first s).1

abbrev pub pure {ℓ} : {A : Type ℓ} → A → Io A
pure a = λ s. (a, s)

abbrev pub done : Act
done = pure tt

abbrev pub when : Bool → Act → Act
when true m = m
when false m = done

abbrev pub access : Access → Act
access a = λ s. (tt, record s { accesses = s.accesses ++ a ∷ [] })

abbrev pub bit : ℕ → ℕ
bit k = 2 ^ k

-- `BIT(i) | BIT(j) | …`
abbrev pub bits : List ℕ → ℕ
bits [] = 0
bits (k ∷ ks) = bit_or (bit k) (bits ks)

-- `v & m` as a condition.
abbrev pub any : ℕ → ℕ → Bool
any v m = not (bit_and v m == 0)

-- `v & ~m`
abbrev pub without : ℕ → ℕ → ℕ
without v m = bit_xor v (bit_and v m)

-- Subtraction of 1 on u32.
abbrev pub minus_one : ℕ → ℕ
minus_one n = u32 (n + (2 ^ 32 - 1))

abbrev pub get : Sfr → Io ℕ
get r =
    λ s. (s.answer (read_sfr r) s.accesses, record s { accesses = s.accesses ++ read_sfr r ∷ [] })

abbrev pub set : Sfr → ℕ → Act
set r v = access (write_sfr r v)

abbrev pub run : Lib → List ℕ → Act
run f args = access (call_lib f args)

abbrev pub ask : Lib → List ℕ → Io ℕ
ask f args = λ s. (
  s.answer (call_lib f args) s.accesses,
  record s { accesses = s.accesses ++ call_lib f args ∷ [] },
)

-- `r |= m` and `r &= ~m`
abbrev pub turn_on : Sfr → ℕ → Act
turn_on r m = do v ← get r; set r (bit_or v m)

abbrev pub turn_off : Sfr → ℕ → Act
turn_off r m = do v ← get r; set r (without v m)

-- `while (((r & m) == 0) && (0 != i)) { i--; }`: the register is read before `i` is looked at.
pub poll_down : Sfr → ℕ → ℕ → Act
poll_down r m zero = do _ ← get r; done
poll_down r m (suc i) = do v ← get r; when (bit_and v m == 0) (poll_down r m i)

abbrev pub stop_when : Bool → Io Bool → Io Bool
stop_when true rest = pure true
stop_when false rest = rest

-- `while ((r & m) == 0);` for a number of rounds, and whether it has ended by then.
pub poll : Sfr → ℕ → ℕ → Io Bool
poll r m zero = pure false
poll r m (suc n) = do v ← get r; stop_when (any v m) (poll r m n)
