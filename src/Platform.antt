-- ===== src/Platform.antt =====
-- What user_boot/app/src/user.c calls and the repository does not hold: the JLFS file system on the
-- NOR flash (include_lib/fs/jlfs/jlfs.h, a precompiled library), the CRC unit in the chip's ROM, and
-- the bytes that an uninitialised local array happens to hold. `Fs` is the state of all that.
use fw_bootloader.Common.{ℕ, List, Bool}

-- `JLFS_FILE`
pub record JlfsFile : Type 0 where
  pub addr : ℕ
  pub size : ℕ
  pub pos : ℕ
  pub res : ℕ

-- What the program tells the outside: packets on the link, the start of the link (by the class of the
-- USB device, or by the pins and the baud rate), and the calls of the reboot command.
pub data Event : Type 0 where
  send : List ℕ → Event
  ut_close usb_disable reset : Event
  usb_device_mode : ℕ → Event
  ut_device_mode : List ℕ → List ℕ → ℕ → Event

-- A pointer argument is passed as the memory behind it; an array that the library fills is returned.
pub record Platform (Fs : Type 0) : Type 0 where
  pub chip_crc16 : List ℕ → ℕ
  pub get_flash_align_size : Fs → ℕ
  pub get_flash_app_base_addr : Fs → ℕ
  pub get_flash_eoffset_size : Fs → ℕ
  pub get_uboot_offset : Fs → ℕ
  pub set_uboot_offset : ℕ → Fs → Fs
  pub get_global_buffer : ℕ → Fs → List ℕ
  pub get_pid : Fs → List ℕ
  pub get_vid : Fs → List ℕ
  pub get_idle_bank_info : JlfsFile → ℕ → Fs → ℕ × JlfsFile × Fs
  pub fopen_by_name : JlfsFile → List ℕ → ℕ → Fs → ℕ × JlfsFile × Fs
  pub fseek : JlfsFile → ℕ → Fs → JlfsFile × Fs
  pub fread : JlfsFile → List ℕ → ℕ → Fs → ℕ × List ℕ × JlfsFile × Fs
  pub erase : JlfsFile → ℕ → Fs → ℕ × JlfsFile × Fs
  pub write : JlfsFile → List ℕ → ℕ → Fs → ℕ × JlfsFile × Fs
  pub updata_dual_bank_info : JlfsFile → ℕ → Fs → ℕ × JlfsFile × Fs
  pub stack : List Event → List ℕ

-- The macros that choose between the builds.
pub record Build : Type 0 where
  pub usb_mode : Bool
  pub use_upgrade_magic : Bool
  pub dual_bank_mode : Bool
