-- ===== src/Debug.antt =====
-- The exception report of user_boot/cpu/br28/debug.c; user_boot/cpu/wl82/debug.c is the same text.
pub mod Laws
mod Tests
use fw_bootloader.Common.{
  ℕ, zero, suc, ◌+◌, ◌-◌, ◌^◌, List, [], ◌∷◌, ◌++◌, if◌then◌else◌, get_elem?,
}
use fw_bootloader.Common.Memory.{Result, ok, fault, ◌>>=◌, or_fault, load}
use fw_bootloader.Hal.{any, bit}

-- The texts of `emu_msg`.
pub data Emu : Type 0 where
  system_excption icache_excption dcache_excption reserved : Emu
  fpu_inv_err fpu_inf_err fpu_tiny_err fpu_huge_err fpu_ine_err : Emu
  etm_check_point_0_err pc_limit stack_overflow_err div0_err illegal_err misalign_err : Emu

abbrev pub emu_msg : List Emu
emu_msg =
    system_excption ∷ icache_excption ∷ dcache_excption ∷ reserved ∷ reserved ∷ reserved ∷ reserved
    ∷ reserved ∷ reserved ∷ reserved ∷ reserved ∷ fpu_inv_err ∷ fpu_inf_err ∷ fpu_tiny_err
    ∷ fpu_huge_err ∷ fpu_ine_err ∷ reserved ∷ reserved ∷ reserved ∷ reserved ∷ reserved ∷ reserved
    ∷ reserved ∷ etm_check_point_0_err ∷ reserved ∷ reserved ∷ reserved ∷ pc_limit
    ∷ stack_overflow_err ∷ div0_err ∷ illegal_err ∷ misalign_err ∷ []

-- What is printed, and the reset.
pub data Line : Type 0 where
  entered : Line
  reti rets ssp usp : ℕ → Line
  general : ℕ → ℕ → Line
  emu_con emu_msg_value : ℕ → Line
  message : Emu → Line
  chip_reset : Line

-- The dump of the general registers, from number `i` on.
pub dump : List ℕ → ℕ → ℕ → Result (List Line)
dump sp zero i = ok []
dump sp (suc left) i = do v ← load sp i; rest ← dump sp left (i + 1); ok (general i v ∷ rest)

-- The loop over the bits. `emu` is what the register EMU_MSG reads as, by the number of the read; the
-- read number 0 is for the line before.
pub messages : (ℕ → ℕ) → ℕ → ℕ → Result (List Line)
messages emu zero i = ok []
messages emu (suc left) i = do
  rest ← messages emu left (i + 1)
  if any (emu (i + 1)) (bit i)
      then (do m ← or_fault (get_elem? emu_msg (31 - i)); ok (message m ∷ rest))
      else ok rest

pub exception_analyze : List ℕ → ℕ → (ℕ → ℕ) → Result (List Line)
unfolding dump messages
exception_analyze sp con emu = do
  reti_value ← load sp 16
  rete_value ← load sp 17
  retx_value ← load sp 18
  rets_value ← load sp 19
  psr_value ← load sp 20
  icfg_value ← load sp 21
  usp_value ← load sp 22
  ssp_value ← load sp 23
  registers ← dump sp 16 0
  told ← messages emu 32 0
  ok (
      entered
      ∷ reti reti_value
      ∷ rets rets_value
      ∷ ssp ssp_value
      ∷ usp usp_value
      ∷ (registers ++ (emu_con con ∷ emu_msg_value (emu 0) ∷ (told ++ chip_reset ∷ []))))
