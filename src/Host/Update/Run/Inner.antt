-- ===== src/Host/Update/Run/Inner.antt =====
-- How `runInner` comes to its end.
use fw_bootloader.Common.{
  ℕ, ◌+◌, ◌≡◌, ◌≤◌, ap, ◌∙◌, List, length, drop, Bool, ltb, if◌then◌else◌, Option,
}
use fw_bootloader.Common.Memory.{ok}
use fw_bootloader.Host.Command.{DeviceInitInfo, make_device_check_cmd, is_reply_device_check_cmd}
use fw_bootloader.Host.Command.Replies.{is_reply_device_check_cmd-room}
use fw_bootloader.Host.Update.Thread.{
  done, Host, return, compute, guard, go_on-eq-done, compute-eq-done, guard-eq-done,
}
use fw_bootloader.Host.Update.{query, device_update_zone_init}
use fw_bootloader.Host.Update.Crcs.{get_buffer_crc_list}
use fw_bootloader.Host.Update.Run.{Finish, app_dir_head_name, update_uboot, run_inner}
use fw_bootloader.Host.Update.Run.Blocks.{block_count, content}
use fw_bootloader.Host.Update.Run.Confirmed.{Confirmed, update_app-Confirmed}

module _ {D : Type 0} (answer : List ℕ → D → Option (List ℕ) × D) (key room rounds : ℕ)
    (file : List ℕ) where
  -- The end of the upgrade for a zone that the device has told.
  pub record Upgraded (d d' : D) : Type 0 where
    pub app : DeviceInitInfo
    pub told : D
    pub init : device_update_zone_init answer key app_dir_head_name 0 d ≡ done app told
    pub crcs : List ℕ
    pub listed :
        get_buffer_crc_list
          (drop app.zone_addr (content file app.zone_addr app.erase_unit_size))
          (block_count file app.zone_addr app.erase_unit_size)
          app.erase_unit_size
        ≡ ok crcs
    pub confirmed :
        Confirmed answer key room rounds crcs
          (0 + app.flash_eoffset_size)
          (block_count file app.zone_addr app.erase_unit_size)
          app.erase_unit_size
          d'

  abbrev uboot_part : Bool → DeviceInitInfo → Host D (Unit {0})
  uboot_part is_update_uboot app =
      if is_update_uboot then update_uboot answer key room rounds file app else return tt

  -- `runInner` comes to its end, with or without the boot loader, only after the device has told the zone
  -- of the application and then the CRC of every block of the file from there on; after these CRCs only the
  -- reboot is sent. It also needs 16 bytes that may be written at the address of a parameter, where it
  -- copies an id of the device.
  pub run_inner-Upgraded :
      (is_update_uboot : Bool) (d : D) {how : Finish} {d' : D}
      → run_inner answer key room rounds file is_update_uboot d ≡ done how d'
      → (16 ≤ room) × Upgraded d d'
  unfolding run_inner
  run_inner-Upgraded is_update_uboot d e =
      let (app, d1, e1, f1) =
        go_on-eq-done (device_update_zone_init answer key app_dir_head_name 0 d) _ e in
      let (cmd, d2, e2, f2) =
        go_on-eq-done (query answer key (make_device_check_cmd key 0x12345678) d1) _ f1 in
      let (taken, d3, e3, f3) =
        go_on-eq-done (compute (is_reply_device_check_cmd room cmd) d2) _ f2 in
      let (a4, d4, e4, f4) = go_on-eq-done (guard taken d3) _ f3 in
      let (a5, d5, e5, f5) = go_on-eq-done (guard (ltb app.zone_addr (length file)) d4) _ f4 in
      let (a6, d6, e6, f6) = go_on-eq-done (uboot_part is_update_uboot app d5) _ f5 in
      let (crcs, listed, confirmed) = update_app-Confirmed answer key room rounds file app d6 f6 in
      let checked = (compute-eq-done (is_reply_device_check_cmd room cmd) d2 e3).0 in
      let success = (guard-eq-done taken d3 e4).0 in
      (
        is_reply_device_check_cmd-room room cmd (checked ∙ ap ok success),
        record {
          app = app;
          told = d1;
          init = e1;
          crcs = crcs;
          listed = listed;
          confirmed = confirmed;
        },
      )
