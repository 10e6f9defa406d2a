-- ===== src/Delay.antt =====
-- The busy waits that the files user_boot/cpu/*/delay.c have in common.
pub mod Count
use fw_bootloader.Common.{ℕ, zero, suc, ◌*◌, ◌%◌, ◌^◌, Bool, true, false, u32, if◌then◌else◌}
use fw_bootloader.Hal.{
  timer_con, timer_cnt, timer_prd, nop, Port, Io, Act, ◌>>=◌, ◌>>◌, pure, done, when, access, bit,
  set, get, poll,
}

-- `udelay`: the timer is stopped, loaded, started and waited for, and stopped again. The wait runs for
-- a number of rounds; the result is whether it has ended by then.
abbrev pub timer_wait : ℕ → ℕ → ℕ → ℕ → ℕ → ℕ → Io Bool
timer_wait stop start pending per_usec rounds usec = do
  set timer_con stop
  set timer_cnt 0
  set timer_prd (u32 (per_usec * usec))
  set timer_con start
  ended ← poll timer_con (bit pending) rounds
  when ended (set timer_con stop)
  pure ended

-- `for (i = 0; i < n; i++)`, left when a wait in it does not end.
abbrev pub repeat : ℕ → Io Bool → Io Bool
repeat zero m = pure true
repeat (suc n) m = do ended ← m; if ended then repeat n m else pure false

-- `while (t--) { asm("nop"); }`
pub nops : ℕ → Act
nops zero = done
nops (suc t) = do access nop; nops t
