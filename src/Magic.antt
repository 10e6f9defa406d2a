-- ===== src/Magic.antt =====
-- The upgrade flag in the retention RAM: `uboot_check_upgrade_magic` and
-- `uboot_set_uart_upgrade_succ` of user_boot/app/src/user.c. `nvram` is the memory behind
-- NV_RAM_LIST_ADDR.
pub mod Laws
pub mod Tests
use fw_bootloader.Common.{
  ℕ, List, [], ◌∷◌, Bool, true, false, ◌&&◌, ◌==◌, if◌then◌else◌, length, replicate,
}
use fw_bootloader.Common.Memory.{Result, ok, fault, ◌>>=◌, slice, splice}

-- 'u' 'b' 'o' 'o' 't' 0x5a 's' 't'
abbrev pub uart_upgrade_mode_magic : List ℕ
uart_upgrade_mode_magic = b'u' ∷ b'b' ∷ b'o' ∷ b'o' ∷ b't' ∷ 0x5a ∷ b's' ∷ b't' ∷ []

-- 'u' 'b' 'o' 'o' 't' 0xa5 'o' 'k'
abbrev pub uart_upgrade_succ_magic : List ℕ
uart_upgrade_succ_magic = b'u' ∷ b'b' ∷ b'o' ∷ b'o' ∷ b't' ∷ 0xa5 ∷ b'o' ∷ b'k' ∷ []

-- `memcmp(a, b, n) == 0` on two blocks of `n` bytes.
pub same_bytes : List ℕ → List ℕ → Bool
same_bytes [] [] = true
same_bytes (x ∷ xs) (y ∷ ys) = (x == y) && same_bytes xs ys
same_bytes _ _ = false

-- The result is what the function returns, with the memory after it.
pub uboot_check_upgrade_magic : List ℕ → Result (ℕ × List ℕ)
uboot_check_upgrade_magic nvram = do
  found ← slice nvram 0 8
  if same_bytes found uart_upgrade_mode_magic
      then (do cleared ← splice nvram 0 (replicate 8 0); ok (1, cleared))
      else ok (0, nvram)

pub uboot_set_uart_upgrade_succ : List ℕ → Result (List ℕ)
uboot_set_uart_upgrade_succ nvram = splice nvram 0 uart_upgrade_succ_magic
