-- ===== src/Host/Update/Run/Confirmed.antt =====
-- The host asks for the reboot after a confirmed upgrade only.
use fw_bootloader.Common.{
  ℕ, ◌+◌, ◌-◌, ◌*◌, ◌^◌, ◌≡◌, refl, List, length, drop, Bool, true, false, Option, ◌==◌,
  if◌then◌else◌, u32,
}
use fw_bootloader.Common.Memory.{ok, divide, divide-eq-ok}
use fw_bootloader.Host.Command.{DeviceInitInfo, make_reboot_cmd}
use fw_bootloader.Host.Update.Thread.{
  done, Host, ◌>>=◌, compute, go_on-eq-done, compute-eq-done, guard-eq-done,
}
use fw_bootloader.Host.Update.{erase_flash, write_flash, fetch_chip_crc_list}
use fw_bootloader.Host.Update.Crcs.{get_buffer_crc_list, same_crcs}
use fw_bootloader.Host.Update.Crcs.Laws.{same_crcs-eq}
use fw_bootloader.Host.Update.Run.Blocks.{file_size, block_count, content}
use fw_bootloader.Host.Update.Run.{
  Finish, fill, ensure_crc_match, send_reboot, update_units, write_app, update_app, same_crc,
  updated,
}

module _ {D : Type 0} (answer : List ℕ → D → Option (List ℕ) × D) (key room rounds : ℕ) where
  -- The CRCs of all blocks of the file were fetched from the device, and then the reboot was sent.
  pub record Confirmed (file_crcs : List ℕ) (address count unit : ℕ) (d' : D) : Type 0 where
    pub asked : D
    pub answered : D
    pub fetched :
        fetch_chip_crc_list answer key rounds address count unit asked ≡ done file_crcs answered
    pub frame : List ℕ
    pub made : make_reboot_cmd key ≡ ok frame
    pub reboots : d' ≡ (answer frame answered).1

  send_reboot_lem :
      (how : Finish) (d : D) {end : Finish} {d' : D}
      → send_reboot answer key room rounds how d ≡ done end d'
      → (end ≡ how)
        × (frame : List ℕ) × (make_reboot_cmd key ≡ ok frame)
        × (d' ≡ (answer frame d).1)
  unfolding send_reboot
  send_reboot_lem how d e =
      let (frame, d1, e1, f1) = go_on-eq-done (compute (make_reboot_cmd key) d) _ e in
      let (made, same) = compute-eq-done (make_reboot_cmd key) d e1 in
      (cc f1, frame, made, cc (f1, same))

  ensure_crc_match_lem :
      (file_crcs : List ℕ) (address count unit : ℕ) (d : D) {a : Unit {0}} {d' : D}
      → ensure_crc_match answer key room rounds file_crcs address count unit d ≡ done a d'
      → fetch_chip_crc_list answer key rounds address count unit d ≡ done file_crcs d'
  unfolding ensure_crc_match
  ensure_crc_match_lem file_crcs address count unit d e =
      let (crcs, d1, fetched, checked) =
        go_on-eq-done (fetch_chip_crc_list answer key rounds address count unit d) _ e in
      let (same, stays) = guard-eq-done (same_crcs crcs file_crcs) d1 checked in
      cc (fetched, same_crcs-eq crcs file_crcs same, stays)

  write_app-Confirmed :
      (buf file_crcs chip_crcs : List ℕ) (address count unit : ℕ) (d : D) {how : Finish} {d' : D}
      → write_app answer key room rounds buf file_crcs chip_crcs address count unit d ≡ done how d'
      → Confirmed file_crcs address count unit d'
  unfolding write_app
  write_app-Confirmed buf file_crcs chip_crcs address count unit d e =
      let (a1, d1, e1, f1) = go_on-eq-done (erase_flash answer key rounds address unit d) _ e in
      let (a2, d2, e2, f2) =
        go_on-eq-done
          (update_units answer key room rounds buf file_crcs chip_crcs address unit (count - 1) 1
            d1)
          _ f1 in
      let (a3, d3, e3, f3) =
        go_on-eq-done (write_flash answer key rounds buf address unit unit d2) _ f2 in
      let (a4, d4, e4, f4) =
        go_on-eq-done (ensure_crc_match answer key room rounds file_crcs address count unit d3) _
          f3 in
      let (how, frame, made, reboots) = send_reboot_lem updated d4 f4 in
      record {
        asked = d3;
        answered = d4;
        fetched = ensure_crc_match_lem file_crcs address count unit d3 e4;
        frame = frame;
        made = made;
        reboots = reboots;
      }

  -- What is left to do with the CRC list of the file, on a buffer `buf`.
  abbrev compare_and_write : List ℕ → ℕ → ℕ → ℕ → List ℕ → Host D Finish
  compare_and_write buf address count unit file_crcs =
      fetch_chip_crc_list answer key rounds address count unit >>= λ chip_crcs.
      if same_crcs file_crcs chip_crcs
      then send_reboot answer key room rounds same_crc
      else write_app answer key room rounds buf file_crcs chip_crcs address count unit

  compared-Confirmed :
      (same : Bool) (buf file_crcs chip_crcs : List ℕ) (address count unit : ℕ) (d0 d : D)
      {how : Finish} {d' : D}
      → fetch_chip_crc_list answer key rounds address count unit d0 ≡ done chip_crcs d
      → (same ≡ true → file_crcs ≡ chip_crcs)
      → (if same
            then send_reboot answer key room rounds same_crc
            else write_app answer key room rounds buf file_crcs chip_crcs address count unit)
          d
        ≡ done how d'
      → Confirmed file_crcs address count unit d'
  compared-Confirmed true buf file_crcs chip_crcs address count unit d0 d fetched equal e =
      let (how, frame, made, reboots) = send_reboot_lem same_crc d e in
      record {
        asked = d0;
        answered = d;
        fetched = cc (fetched, equal refl);
        frame = frame;
        made = made;
        reboots = reboots;
      }
  compared-Confirmed false buf file_crcs chip_crcs address count unit d0 d fetched equal e =
      write_app-Confirmed buf file_crcs chip_crcs address count unit d e

  compare_and_write-Confirmed :
      (buf file_crcs : List ℕ) (address count unit : ℕ) (d : D) {how : Finish} {d' : D}
      → compare_and_write buf address count unit file_crcs d ≡ done how d'
      → Confirmed file_crcs address count unit d'
  compare_and_write-Confirmed buf file_crcs address count unit d e =
      let (chip_crcs, d1, fetched, f) =
        go_on-eq-done (fetch_chip_crc_list answer key rounds address count unit d) _ e in
      compared-Confirmed (same_crcs file_crcs chip_crcs) buf file_crcs chip_crcs address count unit
        d d1 fetched (same_crcs-eq file_crcs chip_crcs) f

  module _ (file : List ℕ) (app : DeviceInitInfo) where
    abbrev unit : ℕ
    unit = app.erase_unit_size

    abbrev count : ℕ
    count = block_count file app.zone_addr unit

    abbrev buf : List ℕ
    buf = drop app.zone_addr (content file app.zone_addr unit)

    abbrev total : ℕ
    total = u32 (file_size file app.zone_addr unit + unit + 2 ^ 32 - 1)

    -- The upgrade from the number of blocks on.
    abbrev from_blocks : ℕ → Host D Finish
    from_blocks n =
        let whole =
          if u32 (n * unit) == file_size file app.zone_addr unit
          then file
          else fill file
              (length file + u32 (u32 (n * unit) + 2 ^ 32 - file_size file app.zone_addr unit)) in
        compute (get_buffer_crc_list (drop app.zone_addr whole) n unit)
        >>= compare_and_write (drop app.zone_addr whole) (0 + app.flash_eoffset_size) n unit

    -- `update_app` comes to its end only after the device has told the CRC of every block: whatever
    -- answers, before the reboot is sent the host has fetched a list of CRCs from the start of the area that is
    -- that of the file from the zone on, filled up with 0xFF to whole blocks, and nothing has been sent between
    -- the end of that and the reboot.
    pub update_app-Confirmed :
        (d : D) {how : Finish} {d' : D}
        → update_app answer key room rounds file app d ≡ done how d'
        → (crcs : List ℕ) × (get_buffer_crc_list buf count unit ≡ ok crcs)
          × Confirmed crcs (0 + app.flash_eoffset_size) count unit d'
    unfolding update_app
    update_app-Confirmed d e =
        let (n, d1, e1, f1) = go_on-eq-done (compute (divide total unit) d) from_blocks e in
        let (divides, stays) = compute-eq-done (divide total unit) d e1 in
        let g = rw (divide-eq-ok total unit divides) at f1 in
        let (crcs, d2, e2, f2) =
          go_on-eq-done (compute (get_buffer_crc_list buf count unit) d1) _ g in
        let (listed, same) = compute-eq-done (get_buffer_crc_list buf count unit) d1 e2 in
        (
          crcs,
          listed,
          compare_and_write-Confirmed buf crcs (0 + app.flash_eoffset_size) count unit d2 f2,
        )
