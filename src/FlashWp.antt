-- ===== src/FlashWp.antt =====
-- The write protection table of user_boot/app/src/flash_wp.c.
pub mod Laws
use fw_bootloader.Common.{
  ℕ, ◌*◌, ◌%◌, ◌^◌, List, [], ◌∷◌, Bool, true, false, Option, none, some, ◌==◌, if◌then◌else◌, u32,
}

-- An entry of the array `wp_array`.
pub record WpRange : Type 0 where
  pub wp_addr : ℕ
  pub sr1 : ℕ
  pub sr2 : ℕ

-- `struct flash_wp_arg`; `numOfwp_array` is the length of the list.
pub record FlashWpArg : Type 0 where
  pub id : ℕ
  pub split_mode : ℕ
  pub write_en_use_50h : ℕ
  pub res : ℕ
  pub wp_array : List WpRange

-- W25Q64JV
abbrev pub wp : List FlashWpArg
wp =
    record {
      id = 0x909294;
      split_mode = 1;
      write_en_use_50h = 0;
      res = 0;
      wp_array =
          record { wp_addr = 1024; sr1 = 0x30; sr2 = 0 }
          ∷ record { wp_addr = 2048; sr1 = 0x34; sr2 = 0 }
          ∷ [];
    }
    ∷ []

-- The loop of `flash_set_wp`; `none` is the pointer NULL.
abbrev pub find_wp : List FlashWpArg → ℕ → Option FlashWpArg → Option FlashWpArg
find_wp [] flash_id p = p
find_wp (arg ∷ args) flash_id p = find_wp args flash_id (if flash_id == arg.id then some arg else p)

-- The two arguments of the call of `norflash_write_protect_config`.
pub flash_set_wp : ℕ → ℕ → ℕ × Option FlashWpArg
flash_set_wp flash_id addr = (u32 (addr * 1024), find_wp wp flash_id none)
