-- ===== src/Host/Update/Run/Tests.antt =====
-- The upgrade at concrete inputs.
use fw_bootloader.Common.{
  length, ◌++◌, le32, ◌==◌, if◌then◌else◌, replicate, ◌≤◌, false, ℕ, ◌+◌, ◌≡◌, ◌≢◌, refl, List, [],
  ◌∷◌, take, Option, none, some, All, arith, le16,
}
use fw_bootloader.Common.Memory.{slice, splice, divide}
use fw_bootloader.Protocol.{enc_key}
use fw_bootloader.Protocol.Cipher.{encode}
use fw_bootloader.Host.Crc.{
  crc16, crc16_loop, crc16_byte, chip_crc16, chip_crc16_loop, chip_byte, chip_nibble,
}
use fw_bootloader.Host.Command.{
  DeviceInitInfo, make_flash_crc_cmd, make_reboot_cmd, make_command, body_len, copy_bodys, xor_key,
  decode_command, is_reply_flash_crc_cmd, is_success, make_device_init_cmd, strncpy,
  is_reply_device_init_cmd, take_init_info, make_device_check_cmd, is_reply_device_check_cmd,
  take_ids, make_erase_cmd, is_reply_erase_cmd, reply_status,
}
use fw_bootloader.Host.Update.Thread.{Outcome, running, done}
use fw_bootloader.Host.Update.{
  erase_sectors, query, take_answer, device_update_zone_init, fetch_chip_crc_list, erase_flash,
  do_erase_flash, erase_type,
}
use fw_bootloader.Host.Update.Crcs.{get_buffer_crc_list, crc_list_loop, same_crcs}
use fw_bootloader.Host.Update.Erase.{erase_on, erase_flash_endless}
use fw_bootloader.Host.Update.Run.{run_inner, same_crc, send_reboot, update_app}
use fw_bootloader.Host.Update.Run.Ends.{Ends}
use fw_bootloader.Host.Update.Run.Inner.{Upgraded, run_inner-Upgraded}

abbrev file : List ℕ
file = 9 ∷ 5 ∷ 6 ∷ []

-- A device that already holds the file, and answers the commands of the tool in their order.
abbrev reply : ℕ → List ℕ
reply n =
    if n == 0
    then 0xC0 ∷ 0 ∷ (le32 1 ++ (le32 100 ++ (le32 0 ++ le32 2)))
    else if n == 1
    then 0xC1 ∷ 0 ∷ replicate 24 3
    else 0xC4 ∷ 0 ∷ le16 (chip_crc16 (5 ∷ 6 ∷ []))

abbrev holder : List ℕ → ℕ → Option (List ℕ) × ℕ
holder frame n = (some (encode 7 0 (reply n)), n + 1)

held : run_inner holder 7 16 9 file false 0 ≡ done same_crc 4
unfolding run_inner device_update_zone_init make_device_init_cmd strncpy is_reply_device_init_cmd
    take_init_info make_device_check_cmd is_reply_device_check_cmd take_ids update_app divide
    get_buffer_crc_list crc_list_loop slice fetch_chip_crc_list query take_answer make_flash_crc_cmd
    make_reboot_cmd make_command body_len copy_bodys xor_key decode_command splice
    is_reply_flash_crc_cmd is_success send_reboot same_crcs enc_key crc16 crc16_loop crc16_byte
    chip_crc16 chip_crc16_loop chip_byte chip_nibble
held = refl

run_inner-Upgraded_example : (16 ≤ 16) × Upgraded holder 7 16 9 file 0 4
run_inner-Upgraded_example = run_inner-Upgraded holder 7 16 9 file false 0 held

-- Every frame that has been sent begins with the sync mark.
abbrev Marked : List (List ℕ) → Type 0
Marked = All (λ frame. take 2 frame ≡ 0xAA ∷ 0x55 ∷ [])

abbrev pages : DeviceInitInfo
pages = record { zone_addr = 1; upgrade_len = 100; flash_eoffset_size = 0; erase_unit_size = 256 }

-- A device that tells its zone, passes the check, and answers nothing after that. It keeps the frames.
abbrev mute : List ℕ → List (List ℕ) → Option (List ℕ) × List (List ℕ)
mute frame log = (
  if length log == 0
      then some (encode 7 0 (0xC0 ∷ 0 ∷ (le32 1 ++ (le32 100 ++ (le32 0 ++ le32 256)))))
      else if length log == 1
      then some (encode 7 0 (0xC1 ∷ 0 ∷ replicate 24 3))
      else none,
  frame ∷ log,
)

abbrev zone_told : {D : Type 0} → Outcome D DeviceInitInfo → DeviceInitInfo
zone_told (done app d) = app
zone_told _ = pages

-- A device that accepts every erase.
abbrev willing : List ℕ → ℕ → Option (List ℕ) × ℕ
willing frame n = (some (encode 7 0 (0xC2 ∷ 0 ∷ [])), n + 1)

-- A length that is no multiple: five rounds erase five sectors, and the loop goes on.
goes_on : erase_flash willing 7 5 512 100 0 ≡ running
unfolding erase_flash erase_sectors do_erase_flash query take_answer make_erase_cmd make_command
    body_len copy_bodys xor_key decode_command splice slice is_reply_erase_cmd reply_status enc_key
    crc16 crc16_loop crc16_byte erase_type
goes_on = refl

erase_flash_endless_example :
    (erase_flash willing 7 5 512 100 0 ≡ erase_on willing 7 5 512 0)
    × ((a : Unit {0}) (d : ℕ) → erase_flash willing 7 5 512 100 0 ≢ done a d)
erase_flash_endless_example =
    erase_flash_endless willing 7 5 512 100 0 (omega arith) (λ e. omega arith) (λ e. omega arith)
