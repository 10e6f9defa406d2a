-- ===== src/Host/Update.antt =====
-- The upgrade that the host carries out: `UpdateThread` of update_tools/win-uart/updatethread.cpp. A
-- command goes out by `infoWriteBuffer` and `waitCommand` takes the answer from the queue; both are one
-- call of `answer`, over the state of whatever is at the other end of the cable.
pub mod Thread
pub mod Crcs
pub mod Run
pub mod Safe
pub mod Fetch
pub mod Erase
use fw_bootloader.Common.{
  ℕ, zero, suc, ◌+◌, ◌-◌, ◌*◌, ◌/◌, ◌%◌, ◌^◌, List, [], ◌∷◌, ◌++◌, Bool, true, false, ◌&&◌, Option,
  none, some, ltb, leb, ◌==◌, if◌then◌else◌, length, take, drop, replicate, u32, le16,
}
use fw_bootloader.Common.Memory.{Result, ok, slice}
use fw_bootloader.Host.Update.Thread.{
  Outcome, faulted, running, failed, done, Host, ◌>>=◌, ◌>>◌, return, require, compute, guard,
  out_of_rounds,
}
use fw_bootloader.Host.Command.{
  DeviceInitInfo, rsp_succ, decode_command, make_device_init_cmd, make_device_check_cmd,
  make_erase_cmd, make_write_cmd, make_flash_crc_cmd, make_reboot_cmd, is_reply_device_init_cmd,
  is_reply_device_check_cmd, is_reply_flash_crc_cmd, is_reply_erase_cmd, is_reply_write_cmd,
}

-- `JL_ERASE_TYPE_BLOCK`, `JL_ERASE_TYPE_SECTOR` and `JL_ERASE_TYPE_PAGE` by the length.
pub erase_type : ℕ → ℕ
erase_type len =
    if len == 64 * 1024 then 3 else if len == 4096 then 2 else if len == 256 then 1 else 0

abbrev pub max_crc_list_count : ℕ
max_crc_list_count = 16

-- `answer` is given a frame, and gives what the queue then holds within the timeout.
module _ {D : Type 0} (answer : List ℕ → D → Option (List ℕ) × D) (key : ℕ) where
  -- `waitCommand` after the frame has gone out; a timeout ends the function.
  pub take_answer : Option (List ℕ) × D → Outcome D (List ℕ)
  take_answer (none, d) = failed d
  take_answer (some cmd, d) = compute (decode_command key cmd) d

  pub query : Result (List ℕ) → Host D (List ℕ)
  query frame = do bytes ← compute frame; λ d. take_answer (answer bytes d)

  pub device_update_zone_init : List ℕ → ℕ → Host D DeviceInitInfo
  device_update_zone_init name type = do
    cmd ← query (make_device_init_cmd key name type)
    require (is_reply_device_init_cmd cmd)

  pub do_erase_flash : ℕ → ℕ → Host D (Unit {0})
  do_erase_flash address len = do
    cmd ← query (make_erase_cmd key address (erase_type len))
    status ← require (is_reply_erase_cmd cmd)
    guard (status == rsp_succ)

  -- `while (len)`, of at most `rounds` rounds. `len -= 4096` wraps around.
  pub erase_sectors : ℕ → ℕ → ℕ → Host D (Unit {0})
  erase_sectors zero address len = out_of_rounds
  erase_sectors (suc rounds) address len = elim (len == 0) [
    | true ↦ return tt
    | false ↦ do
      do_erase_flash address 4096
      erase_sectors rounds (u32 (address + 4096)) (u32 (len + 2 ^ 32 - 4096))
  ]

  pub erase_flash : ℕ → ℕ → ℕ → Host D (Unit {0})
  erase_flash rounds address len =
      if len == 256 then do_erase_flash address len else erase_sectors rounds address len

  pub do_write_flash : List ℕ → ℕ → ℕ → Host D (Unit {0})
  do_write_flash buffer address len = do
    cmd ← query (make_write_cmd key address len buffer)
    status ← require (is_reply_write_cmd cmd)
    guard (status == rsp_succ)

  -- `buffer` is the memory behind the pointer.
  pub write_flash : ℕ → List ℕ → ℕ → ℕ → ℕ → Host D (Unit {0})
  write_flash zero buffer address len unit = out_of_rounds
  write_flash (suc rounds) buffer address len unit = elim (len == 0) [
    | true ↦ return tt
    | false ↦
        let write_len : ℕ = if ltb unit len then unit else len in
        do
          do_write_flash buffer address write_len
          write_flash rounds (drop write_len buffer) (u32 (address + write_len)) (len - write_len)
              unit
  ]

  -- The list of the CRCs as bytes.
  pub fetch_chip_crc_list : ℕ → ℕ → ℕ → ℕ → Host D (List ℕ)
  fetch_chip_crc_list zero address block_count block_size = out_of_rounds
  fetch_chip_crc_list (suc rounds) address block_count block_size = elim (block_count == 0) [
    | true ↦ return []
    | false ↦
        let read_count : ℕ =
          if ltb max_crc_list_count block_count then max_crc_list_count else block_count in
        do
          cmd ← query (make_flash_crc_cmd key address (u32 (read_count * block_size)) block_size)
          crcs ← require (is_reply_flash_crc_cmd read_count cmd)
          more ←
              fetch_chip_crc_list rounds (u32 (address + read_count * block_size))
                (block_count - read_count) block_size
          return (crcs ++ more)
  ]
