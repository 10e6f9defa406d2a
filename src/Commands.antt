-- ===== src/Commands.antt =====
-- The command handlers of user_boot/app/src/user.c. `ops` is the memory behind `g_ops`: the fields of
-- a request are read from it at their offsets in JL_SECTOR_COMMAND_ITEM, those of a reply written
-- at their offsets in JL_SECTOR_COMMAND_DEV_ITEM; both structs are packed.
pub mod Fill
pub mod Replies
pub mod FlashCrc
pub mod Sends
use fw_bootloader.Common.{
  ℕ, zero, suc, ◌+◌, ◌*◌, ◌%◌, ◌/◌, ◌^◌, List, [], ◌∷◌, ◌++◌, Bool, ◌==◌, if◌then◌else◌, drop,
  replicate, u8, u16, u32, le16, le32,
}
use fw_bootloader.Common.Memory.{Result, ok, fault, ◌>>=◌, load, load16, load32, slice, divide}
use fw_bootloader.Platform.{JlfsFile, Platform, Build}
use fw_bootloader.Device.{
  Device, poke, set_remain_and_upgrade_rsp, suss, sdk_id_error, write_error, erase_error,
  other_error,
}

abbrev pub cmd_device_init : ℕ
cmd_device_init = 0xC0

abbrev pub cmd_device_check : ℕ
cmd_device_check = 0xC1

abbrev pub cmd_erase : ℕ
cmd_erase = 0xC2

abbrev pub cmd_write : ℕ
cmd_write = 0xC3

abbrev pub cmd_flash_crc : ℕ
cmd_flash_crc = 0xC4

abbrev pub cmd_reboot : ℕ
cmd_reboot = 0xCA

abbrev pub cmd_updata_dual_bank_crc : ℕ
cmd_updata_dual_bank_crc = 0xCB

-- The id that a request must carry, and that a reply carries.
abbrev pub sdk_id : ℕ
sdk_id = 0x12345678

-- The length that an erase type stands for; the switch leaves 0 for any other.
pub erase_len : ℕ → ℕ
erase_len type =
    if type == 1 then 256 else if type == 2 then 4096 else if type == 3 then 65536 else 0

module _ {Fs : Type 0} (p : Platform Fs) (build : Build) where
  -- The end of each handler: the status, the length of the reply, and the reply itself.
  pub finish : ℕ → ℕ → ℕ → Device Fs → Result (Device Fs)
  unfolding poke
  finish cmd status cmd_len dev = do
    dev1 ← poke 5 (status ∷ []) dev
    dev2 ← poke 2 (le16 (u16 cmd_len)) dev1
    set_remain_and_upgrade_rsp p build cmd dev2

  -- `jl_su_device_init` after the open, with its result.
  pub init_reply : ℕ → Device Fs → Result (Device Fs)
  unfolding poke
  init_reply err dev =
      if err == 0
      then (do
        dev1 ← poke 6 (le32 dev.upgrade_file.addr) dev
        dev2 ← poke 10 (le32 dev.upgrade_file.size) dev1
        dev3 ← poke 14 (le32 (p.get_flash_eoffset_size dev.fs)) dev2
        dev4 ← poke 18 (le32 (p.get_flash_align_size dev.fs)) dev3
        finish cmd_device_init suss (1 + 1 + 4 + 4 + 4 + 4) dev4)
      else (do
        dev1 ← poke 6 (replicate 16 0) dev
        finish cmd_device_init other_error (1 + 1 + 4 + 4 + 4 + 4) dev1)

  -- `err` is an u8.
  pub jl_su_device_init : List ℕ → Device Fs → Result (Device Fs)
  jl_su_device_init ops dev = do
    mode ← load ops 22
    let (err, file, fs) =
        if mode == 3
        then p.get_idle_bank_info dev.upgrade_file mode dev.fs
        else p.fopen_by_name dev.upgrade_file (drop 6 ops) mode dev.fs
    init_reply (u8 err) (record dev { upgrade_file = file; fs = fs })

  -- The loop of `jl_su_flash_crc` at block `i`, with `left` blocks to go; `mem` is the memory of `p`,
  -- and each block is read and summed over `l` bytes.
  pub crc_loop : ℕ → ℕ → ℕ → List ℕ → Device Fs → Result (Device Fs)
  unfolding poke
  crc_loop l zero i mem dev = ok dev
  crc_loop l (suc left) i mem dev = do
    let (len, mem', file, fs) = p.fread dev.upgrade_file mem l dev.fs
    block ← slice mem' 0 l
    dev1 ←
        poke (6 + i * 2) (le16 (u16 (p.chip_crc16 block)))
          (record dev { upgrade_file = file; fs = fs })
    crc_loop l left (i + 1) mem' dev1

  pub jl_su_flash_crc : List ℕ → Device Fs → Result (Device Fs)
  jl_su_flash_crc ops dev = do
    len ← load32 ops 10
    block_size ← load32 ops 14
    block_count ← divide len block_size
    let l = dev.flash_alignsize
    address ← load32 ops 6
    let (file, fs) = p.fseek dev.upgrade_file address dev.fs
    dev1 ←
        crc_loop l block_count 0 (p.get_global_buffer l dev.fs)
          (record dev { upgrade_file = file; fs = fs })
    finish cmd_flash_crc suss (u32 (1 + 1 + block_count * 2)) dev1

  pub jl_su_erase : List ℕ → Device Fs → Result (Device Fs)
  unfolding erase_len
  jl_su_erase ops dev = do
    address ← load32 ops 6
    let (file, fs) = p.fseek dev.upgrade_file address dev.fs
    type ← load32 ops 10
    let (r, file', fs') = p.erase file (erase_len type) fs
    finish cmd_erase (if r == 0 then erase_error else suss) (1 + 1)
        (record dev { upgrade_file = file'; fs = fs' })

  pub jl_su_write_flash : List ℕ → Device Fs → Result (Device Fs)
  jl_su_write_flash ops dev = do
    address ← load32 ops 6
    let (file, fs) = p.fseek dev.upgrade_file address dev.fs
    data_length ← load32 ops 10
    let (r, file', fs') = p.write file (drop 14 ops) data_length fs
    finish cmd_write (if r == data_length then suss else write_error) (1 + 1)
        (record dev { upgrade_file = file'; fs = fs' })

  -- The last stores of `jl_su_devcie_check`.
  pub check_reply : ℕ → Device Fs → Result (Device Fs)
  unfolding poke
  check_reply status dev = do
    dev1 ← poke 26 (le32 sdk_id) dev
    finish cmd_device_check status (1 + 1 + 4 + 16 + 4) dev1

  pub jl_su_devcie_check : List ℕ → Device Fs → Result (Device Fs)
  unfolding poke check_reply
  jl_su_devcie_check ops dev = do
    id ← load32 ops 6
    if id == sdk_id
        then (do
          dev1 ← poke 10 (p.get_pid dev.fs) dev
          dev2 ← poke 6 (p.get_vid dev.fs) dev1
          check_reply suss dev2)
        else check_reply sdk_id_error dev

  pub jl_su_updata_dual_bank_crc : List ℕ → Device Fs → Result (Device Fs)
  jl_su_updata_dual_bank_crc ops dev = do
    crc ← load16 ops 6
    let (r, file, fs) = p.updata_dual_bank_info dev.upgrade_file crc dev.fs
    finish cmd_updata_dual_bank_crc suss (1 + 1) (record dev { upgrade_file = file; fs = fs })
