-- ===== src/Main/Upgrade.antt =====
-- From the start with the upgrade flag to the next start.
use fw_bootloader.Common.{
  ℕ, ◌≡◌, ◌∙◌, refl, ap, List, [], ◌∷◌, ◌++◌, Bool, true, false, Option, some, ◌==◌, length,
  replicate, arith, length-append, append_assoc, u8, Bool-cases, inl, inr, if◌then◌else◌,
}
use fw_bootloader.Common.Memory.{Result, ok}
use fw_bootloader.Platform.{Event, Platform, Build}
use fw_bootloader.Device.{Device, log_event}
use fw_bootloader.Magic.{uart_upgrade_mode_magic, uboot_check_upgrade_magic}
use fw_bootloader.Session.Trace.{reboot_events}
use fw_bootloader.Session.Spec.{Request, Library}
use fw_bootloader.Session.Serve.{store}
use fw_bootloader.Session.Inputs.{Asked, ServesAll, Carry}
use fw_bootloader.Session.Ends.{FramedReboot, upgrade_loop_reboots}
use fw_bootloader.Boot.{app_dir_head, link, left, resetting}
use fw_bootloader.Boot.Serve.{opened_dev, user_check_upgrade-returned}
use fw_bootloader.Main.{
  Config, Call, Stage, booted, upgrading, after_upgrade, lrc, early, boot, enter_upgrade,
  jl_check_upgrade, sfc_mode_boot, same_string, upgrade_or_boot, main,
}
use fw_bootloader.Main.Laws.{err, main_flagged}

-- A later start: what the libraries answer, what is received, and the device.
pub record Start (Fs : Type 0) : Type 0 where
  pub cfg : Config
  pub is_lrc : Bool
  pub rounds : ℕ
  pub inputs : List (Option (List ℕ × ℕ))
  pub dev : Device Fs

module _ {Fs : Type 0} (p : Platform Fs) (build : Build) where
  -- It boots the application at once, with this in the retention RAM.
  abbrev pub Boots : Start Fs → List ℕ → Type 0
  Boots next ram =
      let dev = record next.dev { nvram = ram } in
      main p build next.cfg next.rounds next.inputs dev
      ≡ boot p build 0 (early next.cfg next.is_lrc) dev

  unflagged-Boots :
      (next : Start Fs) (ram : List ℕ)
      → build.use_upgrade_magic ≡ true
      → uboot_check_upgrade_magic ram ≡ ok (0, ram)
      → same_string next.cfg.pll_src lrc ≡ ok next.is_lrc
      → u8 next.cfg.mount ≡ 0
      → Boots next ram
  unfolding main upgrade_or_boot
  unflagged-Boots next ram magic none_found source mounts =
      rw (source, magic, none_found, mounts) refl

  -- Where `main` goes from the end of the session.
  left_boots :
      (cfg : Config) (is_lrc : Bool) (last : Device Fs)
      → after_upgrade p build
          (err cfg)
          (early cfg is_lrc ++ enter_upgrade (err cfg) ∷ [])
          (left p build true)
          last
        ≡ (if build.dual_bank_mode
            then ok (early cfg is_lrc ++ enter_upgrade (err cfg) ∷ [], upgrading resetting, last)
            else ok (
              (early cfg is_lrc ++ enter_upgrade (err cfg) ∷ [])
                  ++ (jl_check_upgrade (err cfg) ∷ sfc_mode_boot ∷ []),
              booted,
              last,
            ))
  left_boots cfg is_lrc last = elim (Bool-cases build.dual_bank_mode) [
    | inl t ↦ rw t refl
    | inr t ↦ rw t refl
  ]

  -- What a start with the flag has come to.
  pub record Upgraded (cfg : Config) (is_lrc : Bool) (qs : List Request) (dev : Device Fs)
      (next : Start Fs) (r : Result (List Call × Stage × Device Fs)) : Type 0 where
    pub last : Device Fs
    pub replies : List (List ℕ)
    pub packets : List Event
    pub returns : r ≡ (
        if build.dual_bank_mode
        then ok (early cfg is_lrc ++ enter_upgrade (err cfg) ∷ [], upgrading resetting, last)
        else ok (
          (early cfg is_lrc ++ enter_upgrade (err cfg) ∷ [])
              ++ (jl_check_upgrade (err cfg) ∷ sfc_mode_boot ∷ []),
          booted,
          last,
        ))
    pub serves :
        ServesAll p build
          (p.get_flash_align_size dev.fs)
          qs
          (store (opened_dev p build dev))
          replies
          (store last)
    pub events : last.events ≡ dev.events ++ link p build ∷ (packets ++ reboot_events p build)
    pub carry : Carry p build packets replies
    pub boots : Boots next last.nvram

  -- A whole upgrade, from one start to the next. In the build with the upgrade flag, with the flag set, the
  -- clock source read, the boot loader in its place and the directory of the application opening, on a
  -- library as described and with a reply buffer of 64 bytes and no new data: when legal sealed requests
  -- and a sealed reboot request are received, `main` starts the link, the requests are served on the flash
  -- as the specification says and answered by one packet each, and the link is closed. In the build with
  -- two banks the chip is then reset, and nothing comes after that in this start; otherwise `main` goes on
  -- to the boot of the application. With what the retention RAM then holds, any later start whose clock source
  -- is read and whose file system mounts boots the application at once, whatever else the device holds.
  pub main_upgrades :
      (lib : Library p) (cfg : Config) (is_lrc : Bool) (rounds : ℕ) (qs : List Request)
      (is : List (Option (List ℕ × ℕ))) (mem : List ℕ) (len : ℕ) (dev : Device Fs) (rest : List ℕ)
      (next : Start Fs)
      → build.use_upgrade_magic ≡ true
      → same_string cfg.pll_src lrc ≡ ok is_lrc
      → dev.nvram ≡ uart_upgrade_mode_magic ++ rest
      → (p.get_uboot_offset dev.fs == 65536) ≡ false
      → (u8 (p.fopen_by_name dev.upgrade_file app_dir_head 0 dev.fs).0 == 0) ≡ true
      → length dev.dev_g_buf ≡ 64
      → dev.new_data ≡ 0
      → Asked p build qs is
      → FramedReboot p build mem len
      → same_string next.cfg.pll_src lrc ≡ ok next.is_lrc
      → u8 next.cfg.mount ≡ 0
      → Upgraded cfg is_lrc qs dev next (main p build cfg rounds (is ++ some (mem, len) ∷ []) dev)
  main_upgrades lib cfg is_lrc rounds qs is mem len dev rest next magic source nvram placed opens
        buffer waits requests framed source' mounts =
      let ram = replicate 8 0 ++ rest in
      let dev0 = record dev { nvram = ram } in
      let linked = log_event (link p build) (opened_dev p build dev0) in
      let (r, last, runs, after) =
        upgrade_loop_reboots p build lib qs is mem len linked buffer waits
          (omega (arith, length-append (replicate 8 0) rest)) requests framed in
      let served =
        user_check_upgrade-returned p build rounds (is ++ some (mem, len) ∷ []) dev0 last placed
          opens runs in
      record {
        last = last;
        replies = r.replies;
        packets = r.packets;
        returns =
            main_flagged p build cfg rounds (is ++ some (mem, len) ∷ []) dev is_lrc rest magic
              source nvram
            ∙ rw served (left_boots cfg is_lrc last);
        serves = rw after.kept r.serves;
        events =
            after.events
            ∙ ap (λ x. x ++ reboot_events p build) r.events
            ∙ append_assoc (dev.events ++ link p build ∷ []) r.packets (reboot_events p build)
            ∙ append_assoc dev.events (link p build ∷ []) (r.packets ++ reboot_events p build);
        carry = r.carry;
        boots = unflagged-Boots next last.nvram magic (after.checks ∙ rw magic refl) source' mounts;
      }
