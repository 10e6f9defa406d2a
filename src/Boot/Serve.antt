-- ===== src/Boot/Serve.antt =====
-- `user_check_upgrade` around a session that ends.
use fw_bootloader.Common.{ℕ, ◌≡◌, refl, List, true, false, Option, ◌==◌, u8}
use fw_bootloader.Common.Memory.{ok}
use fw_bootloader.Platform.{Platform, Build}
use fw_bootloader.Device.{Device, log_event}
use fw_bootloader.Session.{upgrade_loop}
use fw_bootloader.Boot.{app_dir_head, link, left, serve, open_and_serve, user_check_upgrade}

module _ {Fs : Type 0} (p : Platform Fs) (build : Build) where
  -- The device with the directory of the application open.
  abbrev pub opened_dev : Device Fs → Device Fs
  opened_dev dev =
      let (err, file, fs) = p.fopen_by_name dev.upgrade_file app_dir_head 0 dev.fs in
      record dev { flash_alignsize = p.get_flash_align_size dev.fs; fs = fs; upgrade_file = file }

  -- The boot loader is in its place, and the directory of the application opens.
  pub user_check_upgrade-returned :
      (rounds : ℕ) (inputs : List (Option (List ℕ × ℕ))) (dev last : Device Fs)
      → (p.get_uboot_offset dev.fs == 65536) ≡ false
      → (u8 (p.fopen_by_name dev.upgrade_file app_dir_head 0 dev.fs).0 == 0) ≡ true
      → upgrade_loop p build inputs (log_event (link p build) (opened_dev dev)) ≡ ok (true, last)
      → user_check_upgrade p build rounds inputs dev ≡ ok (left p build true, last)
  unfolding user_check_upgrade open_and_serve serve
  user_check_upgrade-returned rounds inputs dev last placed opens runs =
      rw (placed, opens, runs) refl
