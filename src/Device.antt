-- ===== src/Device.antt =====
-- The globals of user_boot/app/src/user.c and how a reply leaves: `upgrade_rsp` and
-- `set_remain_and_upgrade_rsp`.
pub mod Reply
pub mod Sends
use fw_bootloader.Common.{
  ℕ, ◌+◌, ◌/◌, ◌%◌, ◌^◌, List, [], ◌∷◌, ◌++◌, Bool, if◌then◌else◌, take, drop, u8, u16, u32,
}
use fw_bootloader.Common.Memory.{Result, ok, fault, ◌>>=◌, load16, slice, splice}
use fw_bootloader.Protocol.{communication_key, enc_dec_data, sync_mark0, sync_mark1}
use fw_bootloader.Platform.{JlfsFile, Event, send, Platform, Build}

-- `dev_g_buf` is the memory behind `dev_g_ops`; `rx_buf` and `rx_len` are the buffer that the link
-- fills and the length that it reports; `nvram` is the memory behind NV_RAM_LIST_ADDR.
pub record Device (Fs : Type 0) : Type 0 where
  pub fs : Fs
  pub upgrade_file : JlfsFile
  pub flash_alignsize : ℕ
  pub dev_g_buf : List ℕ
  pub new_data : ℕ
  pub rx_buf : List ℕ
  pub rx_len : ℕ
  pub nvram : List ℕ
  pub events : List Event

-- The enum of the reply status.
abbrev pub suss : ℕ
suss = 0

abbrev pub sdk_id_error : ℕ
sdk_id_error = 1

abbrev pub write_error : ℕ
write_error = 2

abbrev pub erase_error : ℕ
erase_error = 3

abbrev pub other_error : ℕ
other_error = 4

module _ {Fs : Type 0} where
  abbrev pub log_event : Event → Device Fs → Device Fs
  log_event e dev = record dev { events = dev.events ++ e ∷ [] }

  -- A store of consecutive bytes through `dev_g_ops`.
  unfoldable pub poke : ℕ → List ℕ → Device Fs → Result (Device Fs)
  poke at bytes dev = do buf ← splice dev.dev_g_buf at bytes; ok (record dev { dev_g_buf = buf })

module _ {Fs : Type 0} (p : Platform Fs) (build : Build) where
  -- `tx[64]` is not initialised; in the USB build all of it is sent.
  pub upgrade_rsp : List ℕ → ℕ → Device Fs → Result (Device Fs)
  upgrade_rsp mem len dev = do
    bytes ← slice mem 0 len
    tx ← splice (take 64 (p.stack dev.events)) 0 bytes
    ok (log_event (send (if build.usb_mode then tx else take len tx)) dev)

  pub set_remain_and_upgrade_rsp : ℕ → Device Fs → Result (Device Fs)
  unfolding poke
  set_remain_and_upgrade_rsp cmd dev0 = do
    dev1 ← poke 0 (sync_mark0 ∷ sync_mark1 ∷ []) dev0
    cmd_len ← load16 dev1.dev_g_buf 2
    let crc16_len = u16 (1 + 1 + 2 + cmd_len)
    dev2 ← poke 4 (u8 cmd ∷ []) dev1
    body ← enc_dec_data communication_key (drop 4 dev2.dev_g_buf) cmd_len
    let buf = take 4 dev2.dev_g_buf ++ body
    head ← slice buf 0 crc16_len
    let crc16_da = u16 (p.chip_crc16 head)
    buf1 ← splice buf crc16_len (crc16_da % 256 ∷ [])
    buf2 ← splice buf1 (crc16_len + 1) (crc16_da / 256 ∷ [])
    upgrade_rsp buf2 (u32 (crc16_len + 2)) (record dev2 { dev_g_buf = buf2 })
