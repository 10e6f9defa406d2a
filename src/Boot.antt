-- ===== src/Boot.antt =====
-- The entry of the upgrade in user_boot/app/src/user.c: `user_check_upgrade`. Its argument `jlfs_err`
-- is not used.
pub mod Copy
pub mod Trace
pub mod Serve
pub mod Tests
use fw_bootloader.Common.{
  ℕ, zero, suc, ◌+◌, ◌%◌, ◌^◌, List, [], ◌∷◌, ◌++◌, Bool, true, false, Option, none, some, ◌==◌,
  if◌then◌else◌, u8,
}
use fw_bootloader.Common.Memory.{Result, ok, fault, ◌>>=◌}
use fw_bootloader.Platform.{JlfsFile, Event, usb_device_mode, ut_device_mode, Platform, Build}
use fw_bootloader.Device.{Device, log_event}
use fw_bootloader.Session.{upgrade_loop}

-- What is seen of a call: its result, or that it is in the loop of the session, or in that of the copy, or
-- that `chip_reset` has been called, from which the code does not come back.
pub data Outcome : Type 0 where
  returned : ℕ → Outcome
  serving copying resetting : Outcome

-- "app_dir_head", "PA01" and "PA02"
abbrev pub app_dir_head : List ℕ
app_dir_head = 97 ∷ 112 ∷ 112 ∷ 95 ∷ 100 ∷ 105 ∷ 114 ∷ 95 ∷ 104 ∷ 101 ∷ 97 ∷ 100 ∷ 0 ∷ []

abbrev pub pa01 : List ℕ
pa01 = 80 ∷ 65 ∷ 48 ∷ 49 ∷ 0 ∷ []

abbrev pub pa02 : List ℕ
pa02 = 80 ∷ 65 ∷ 48 ∷ 50 ∷ 0 ∷ []

abbrev pub hid_class : ℕ
hid_class = 8

module _ {Fs : Type 0} (p : Platform Fs) where
  -- The `do` loop of the copy, for a number of rounds; `none` when it has not ended by then.
  pub copy_loop : ℕ → JlfsFile → JlfsFile → List ℕ → ℕ → Fs → Option Fs
  copy_loop zero file_copy file_paste buf l fs = none
  copy_loop (suc n) file_copy file_paste buf l fs =
      let (len, buf1, file_copy1, fs1) = p.fread file_copy buf l fs in
      let (_, file_paste1, fs2) = p.write file_paste buf1 len fs1 in
      let rest = copy_loop n file_copy1 file_paste1 buf1 l fs2 in
      if len == 0 then some fs1 else rest

  -- The body of the test of `flash_uboot_offset`.
  pub copy_uboot : ℕ → ℕ → Fs → Option Fs
  copy_uboot rounds flash_alignsize fs =
      let app_base = p.get_flash_app_base_addr fs in
      let offset_size = p.get_flash_eoffset_size fs in
      let app_head : JlfsFile = record {
        addr = app_base;
        size = flash_alignsize;
        pos = 0;
        res = 0;
      } in
      let file_paste : JlfsFile = record {
        addr = offset_size;
        size = app_base;
        pos = 0;
        res = 0;
      } in
      let file_copy : JlfsFile = record {
        addr = p.get_uboot_offset fs;
        size = app_base;
        pos = 0;
        res = 0;
      } in
      let (_, app_head1, fs1) = p.erase app_head flash_alignsize fs in
      let fs2 = p.set_uboot_offset offset_size fs1 in
      let (file_paste1, fs3) = p.fseek file_paste 0 fs2 in
      let (_, file_paste2, fs4) = p.erase file_paste1 file_paste1.size fs3 in
      let buf = p.get_global_buffer flash_alignsize fs4 in
      let (file_copy1, fs5) = p.fseek file_copy 0 fs4 in
      let (file_paste3, fs6) = p.fseek file_paste2 0 fs5 in
      copy_loop rounds file_copy1 file_paste3 buf flash_alignsize fs6

module _ {Fs : Type 0} (p : Platform Fs) (build : Build) where
  -- The start of the link.
  abbrev pub link : Event
  link = if build.usb_mode then usb_device_mode hid_class else ut_device_mode pa01 pa02 1000000

  -- How the loop is left: by its return, or by the reset of the chip in the build with two banks.
  abbrev pub left : Bool → Outcome
  left true = if build.dual_bank_mode then resetting else returned 0
  left false = serving

  pub serve : List (Option (List ℕ × ℕ)) → Device Fs → Result (Outcome × Device Fs)
  serve inputs dev = do
    (done, dev1) ← upgrade_loop p build inputs (log_event link dev)
    ok (left done, dev1)

  pub open_and_serve : List (Option (List ℕ × ℕ)) → Device Fs → Fs → Result (Outcome × Device Fs)
  unfolding serve
  open_and_serve inputs dev fs =
      let (err, file, fs1) = p.fopen_by_name dev.upgrade_file app_dir_head 0 fs in
      let dev1 = record dev { fs = fs1; upgrade_file = file } in
      if u8 err == 0 then serve inputs dev1 else ok (returned 1, dev1)

  abbrev pub after_copy :
      List (Option (List ℕ × ℕ)) → Device Fs → Option Fs → Result (Outcome × Device Fs)
  after_copy inputs dev none = ok (copying, dev)
  after_copy inputs dev (some fs) = open_and_serve inputs dev fs

  pub user_check_upgrade : ℕ → List (Option (List ℕ × ℕ)) → Device Fs → Result (Outcome × Device Fs)
  unfolding copy_uboot copy_loop open_and_serve
  user_check_upgrade rounds inputs dev =
      let alignsize = p.get_flash_align_size dev.fs in
      let dev1 = record dev { flash_alignsize = alignsize } in
      after_copy inputs dev1 (
        if p.get_uboot_offset dev.fs == 65536
        then copy_uboot p rounds alignsize dev.fs
        else some dev.fs)
