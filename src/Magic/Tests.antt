-- ===== src/Magic/Tests.antt =====
-- The upgrade flag on eight and ten bytes of memory.
use fw_bootloader.Common.{◌≡◌, refl, [], ◌∷◌, ◌++◌, inl, inr, replicate, arith}
use fw_bootloader.Common.Memory.{ok}
use fw_bootloader.Magic.{uart_upgrade_mode_magic, uboot_check_upgrade_magic}
use fw_bootloader.Magic.Laws.{uboot_check_upgrade_magic_lem, uboot_check_upgrade_magic_once}

check_magic :
    uboot_check_upgrade_magic (uart_upgrade_mode_magic ++ 5 ∷ 6 ∷ [])
    ≡ ok (1, replicate 8 0 ++ 5 ∷ 6 ∷ [])
check_magic = elim (uboot_check_upgrade_magic_lem uart_upgrade_mode_magic (5 ∷ 6 ∷ []) refl) [
  | inl (e, r) ↦ r
  | inr (ne, r) ↦ absurd (ne refl)
]

uboot_check_upgrade_magic_once_example :
    uboot_check_upgrade_magic (replicate 8 0 ++ 5 ∷ 6 ∷ []) ≡ ok (0, replicate 8 0 ++ 5 ∷ 6 ∷ [])
uboot_check_upgrade_magic_once_example =
    uboot_check_upgrade_magic_once (uart_upgrade_mode_magic ++ 5 ∷ 6 ∷ [])
      (replicate 8 0 ++ 5 ∷ 6 ∷ []) 1 (omega arith) check_magic
