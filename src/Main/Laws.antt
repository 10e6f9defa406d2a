-- ===== src/Main/Laws.antt =====
-- When the upgrade is upgrade_entered.
use fw_bootloader.Common.{
  ==_different, ℕ, ◌≡◌, ◌≢◌, refl, List, [], ◌∷◌, ◌++◌, Bool, true, Option, ◌⊎◌, inl, inr,
  Bool-cases, ◌==◌, ==_iff, length, replicate, u8,
}
use fw_bootloader.Common.Memory.{Result, ok, ◌>>=◌}
use fw_bootloader.Platform.{Platform, Build}
use fw_bootloader.Device.{Device}
use fw_bootloader.Magic.{uart_upgrade_mode_magic, uboot_check_upgrade_magic}
use fw_bootloader.Magic.Laws.{uboot_check_upgrade_magic_lem}
use fw_bootloader.Boot.{user_check_upgrade}
use fw_bootloader.Main.{
  Config, Call, Stage, lrc, early, boot, after_upgrade, enter_upgrade, same_string, upgrade_or_boot,
  main,
}

abbrev pub err : Config → ℕ
err cfg = u8 cfg.mount

module _ {Fs : Type 0} (p : Platform Fs) (build : Build) (cfg : Config) (rounds : ℕ)
    (inputs : List (Option (List ℕ × ℕ))) (dev : Device Fs) (is_lrc : Bool) where
  -- What is reached when the upgrade is entered, with this in the retention RAM.
  abbrev pub upgrade_entered : List ℕ → Result (List Call × Stage × Device Fs)
  upgrade_entered ram = do
    (out, dev1) ← user_check_upgrade p build rounds inputs (record dev { nvram = ram })
    after_upgrade p build (err cfg) (early cfg is_lrc ++ enter_upgrade (err cfg) ∷ []) out dev1

  -- The flag is set.
  pub main_flagged :
      (rest : List ℕ)
      → build.use_upgrade_magic ≡ true
      → same_string cfg.pll_src lrc ≡ ok is_lrc
      → dev.nvram ≡ uart_upgrade_mode_magic ++ rest
      → main p build cfg rounds inputs dev ≡ upgrade_entered (replicate 8 0 ++ rest)
  unfolding main upgrade_or_boot
  main_flagged rest magic source nvram =
      elim (uboot_check_upgrade_magic_lem uart_upgrade_mode_magic rest refl) [
        | inl (is, checked) ↦ rw (source, magic, nvram, checked) refl
        | inr (other, checked) ↦ absurd (other refl)
      ]

  -- In the build with the upgrade flag, with the clock source read and eight bytes of the flag in the
  -- retention RAM, `main` enters the upgrade in exactly two cases: the flag is set, and then it is cleared
  -- before anything else, whatever the file system says; or the flag is not set, but the file system could
  -- not be mounted. Otherwise it boots the application, and nothing of the device has changed, so that no
  -- packet has left either.
  pub main_lem :
      (block rest : List ℕ)
      → build.use_upgrade_magic ≡ true
      → same_string cfg.pll_src lrc ≡ ok is_lrc
      → dev.nvram ≡ block ++ rest
      → length block ≡ 8
      → ((block ≡ uart_upgrade_mode_magic)
          × (main p build cfg rounds inputs dev ≡ upgrade_entered (replicate 8 0 ++ rest)))
        ⊎ (((block ≢ uart_upgrade_mode_magic)
              × (err cfg ≢ 0)
              × (main p build cfg rounds inputs dev ≡ upgrade_entered dev.nvram))
            ⊎ ((block ≢ uart_upgrade_mode_magic)
                × (err cfg ≡ 0)
                × (main p build cfg rounds inputs dev
                    ≡ boot p build (err cfg) (early cfg is_lrc) dev)))
  unfolding main upgrade_or_boot
  main_lem block rest magic source nvram size =
      elim (uboot_check_upgrade_magic_lem block rest size) [
        | inl (is, checked) ↦ inl (is, rw (source, magic, nvram, checked) refl)
        | inr (other, checked) ↦
            let again : uboot_check_upgrade_magic dev.nvram ≡ ok (0, dev.nvram) =
              rw nvram checked in
            elim (Bool-cases (err cfg == 0)) [
              | inl t ↦
                  inr (inr (other, (==_iff (err cfg) 0).0 t, rw (source, magic, again, t) refl))
              | inr t ↦
                  inr (inl (other, ==_different (err cfg) 0 t, rw (source, magic, again, t) refl))
            ]
      ]
