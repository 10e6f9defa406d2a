-- ===== src/Host/Update/Run.antt =====
-- `UpdateThread::runInner` of update_tools/win-uart/updatethread.cpp: the order of the upgrade.
pub mod Blocks
pub mod App
pub mod Uboot
pub mod Ends
pub mod Confirmed
pub mod Inner
pub mod Tests
use fw_bootloader.Common.{
  ℕ, zero, suc, ◌+◌, ◌-◌, ◌*◌, ◌^◌, List, [], ◌∷◌, ◌++◌, Bool, Option, ltb, ◌==◌, if◌then◌else◌,
  length, take, drop, replicate, u32,
}
use fw_bootloader.Common.Memory.{load16, divide}
use fw_bootloader.Host.Command.{
  DeviceInitInfo, make_device_check_cmd, make_reboot_cmd, is_reply_device_check_cmd,
}
use fw_bootloader.Host.Update.Thread.{done, Host, ◌>>=◌, ◌>>◌, return, compute, guard, go_on_anyway}
use fw_bootloader.Host.Update.{
  query, device_update_zone_init, erase_flash, write_flash, fetch_chip_crc_list,
}
use fw_bootloader.Host.Update.Crcs.{get_buffer_crc_list, same_crcs}

-- "app_dir_head"
abbrev pub app_dir_head_name : List ℕ
app_dir_head_name =
    0x61 ∷ 0x70 ∷ 0x70 ∷ 0x5f ∷ 0x64 ∷ 0x69 ∷ 0x72 ∷ 0x5f ∷ 0x68 ∷ 0x65 ∷ 0x61 ∷ 0x64 ∷ 0 ∷ []

-- "uboot_zone"
abbrev pub uboot_zone_name : List ℕ
uboot_zone_name = 0x75 ∷ 0x62 ∷ 0x6f ∷ 0x6f ∷ 0x74 ∷ 0x5f ∷ 0x7a ∷ 0x6f ∷ 0x6e ∷ 0x65 ∷ 0 ∷ []

-- The two ways in which the thread asks for the reboot.
pub data Finish : Type 0 where
  same_crc updated : Finish

-- A file with bytes 0xFF behind it, up to a size.
pub fill : List ℕ → ℕ → List ℕ
fill file size = file ++ replicate (size - length file) 0xFF

module _ {D : Type 0} (answer : List ℕ → D → Option (List ℕ) × D) (key room rounds : ℕ) where
  pub ensure_crc_match : List ℕ → ℕ → ℕ → ℕ → Host D (Unit {0})
  ensure_crc_match file_crcs addr block_count unit = do
    crcs ← fetch_chip_crc_list answer key rounds addr block_count unit
    guard (same_crcs crcs file_crcs)

  -- The upgrade of the boot loader, by way of the backup area at 64K.
  pub update_uboot : List ℕ → DeviceInitInfo → Host D (Unit {0})
  update_uboot file app = do
    let unit = app.erase_unit_size
    let eoffset = app.flash_eoffset_size
    let backup : ℕ = 65536
    uboot ← device_update_zone_init answer key uboot_zone_name 0
    let abs64k_len = u32 (backup + 2 ^ 32 - eoffset)
    let uboot_buf = fill (take abs64k_len file) abs64k_len
    erase_flash answer key rounds app.zone_addr unit
    erase_flash answer key rounds backup abs64k_len
    count ← compute (divide abs64k_len unit)
    write_flash answer key rounds uboot_buf backup abs64k_len unit
    crcs ← compute (get_buffer_crc_list uboot_buf count unit)
    ensure_crc_match crcs backup count unit
    erase_flash answer key rounds (0 + eoffset) abs64k_len
    if ltb 1 count
        then go_on_anyway (
            write_flash answer key rounds (drop (1 * unit) uboot_buf) (u32 (1 * unit + eoffset))
              (u32 ((count - 1) * unit)) unit)
        else return tt
    write_flash answer key rounds uboot_buf (0 + eoffset) unit unit
    ensure_crc_match crcs (0 + eoffset) count unit
    again ← device_update_zone_init answer key app_dir_head_name 0
    return tt

  -- The reboot command; its answer is not looked at.
  pub send_reboot : Finish → Host D Finish
  send_reboot how = do bytes ← compute (make_reboot_cmd key); λ d. done how (answer bytes d).1

  -- The loop over the units from `i` on, with `left` to go: those whose CRC differs are erased and written.
  pub update_units : List ℕ → List ℕ → List ℕ → ℕ → ℕ → ℕ → ℕ → Host D (Unit {0})
  update_units file_buf file_crcs chip_crcs upgrade_addr unit zero i = return tt
  update_units file_buf file_crcs chip_crcs upgrade_addr unit (suc left) i = do
    let off = u32 (i * unit)
    new ← compute (load16 file_crcs (2 * i))
    old ← compute (load16 chip_crcs (2 * i))
    if new == old then return tt else (do
      erase_flash answer key rounds (u32 (upgrade_addr + off)) unit
      write_flash answer key rounds (drop off file_buf) (u32 (upgrade_addr + off)) unit unit)
    update_units file_buf file_crcs chip_crcs upgrade_addr unit left (i + 1)

  -- The first unit is erased before the others and written after them.
  pub write_app : List ℕ → List ℕ → List ℕ → ℕ → ℕ → ℕ → Host D Finish
  write_app file_buf file_crcs chip_crcs upgrade_addr block_count unit = do
    erase_flash answer key rounds upgrade_addr unit
    update_units file_buf file_crcs chip_crcs upgrade_addr unit (block_count - 1) 1
    write_flash answer key rounds file_buf upgrade_addr unit unit
    ensure_crc_match file_crcs upgrade_addr block_count unit
    send_reboot updated

  -- The upgrade of the application.
  pub update_app : List ℕ → DeviceInitInfo → Host D Finish
  update_app file app = do
    let unit = app.erase_unit_size
    let file_size = u32 (length file + 2 ^ 32 - app.zone_addr)
    block_count ← compute (divide (u32 (file_size + unit + 2 ^ 32 - 1)) unit)
    let aligned_size = u32 (block_count * unit)
    let content =
        if aligned_size == file_size
        then file
        else fill file (length file + u32 (aligned_size + 2 ^ 32 - file_size))
    let file_buf = drop app.zone_addr content
    file_crcs ← compute (get_buffer_crc_list file_buf block_count unit)
    chip_crcs ← fetch_chip_crc_list answer key rounds (0 + app.flash_eoffset_size) block_count unit
    if same_crcs file_crcs chip_crcs
        then send_reboot same_crc
        else write_app file_buf file_crcs chip_crcs (0 + app.flash_eoffset_size) block_count unit

  -- `file` is the content of the file, of less than 2 ^ 32 bytes.
  pub run_inner : List ℕ → Bool → Host D Finish
  run_inner file is_update_uboot = do
    app ← device_update_zone_init answer key app_dir_head_name 0
    cmd ← query answer key (make_device_check_cmd key 0x12345678)
    taken ← compute (is_reply_device_check_cmd room cmd)
    guard taken
    guard (ltb app.zone_addr (length file))
    if is_update_uboot then update_uboot file app else return tt
    update_app file app
