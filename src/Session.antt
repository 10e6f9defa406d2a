-- ===== src/Session.antt =====
-- The session of user_boot/app/src/user.c: `recv_new_data` and `upgrade_loop`.

pub mod Trace
pub mod Loop
pub mod Request
pub mod Spec
pub mod Serve
pub mod Inputs
pub mod Round
pub mod Refine
pub mod Ends
pub mod Tests
use fw_bootloader.Common.{
  ℕ, List, [], ◌∷◌, ◌++◌, Bool, true, false, Option, none, some, ◌==◌, if◌then◌else◌,
}
use fw_bootloader.Common.Memory.{Result, ok, fault, ◌>>=◌, load}
use fw_bootloader.Protocol.{communication_key, enc_cmd_data}
use fw_bootloader.Platform.{Event, send, ut_close, usb_disable, reset, Platform, Build}
use fw_bootloader.Magic.{uboot_set_uart_upgrade_succ}
use fw_bootloader.Device.{Device, log_event}
use fw_bootloader.Commands.{
  cmd_device_init, cmd_device_check, cmd_erase, cmd_write, cmd_flash_crc, cmd_reboot,
  cmd_updata_dual_bank_crc, jl_su_device_init, jl_su_flash_crc, jl_su_erase, jl_su_write_flash,
  jl_su_devcie_check, jl_su_updata_dual_bank_crc,
}

module _ {Fs : Type 0} where
  pub set_new_data_flag : ℕ → Device Fs → Device Fs
  set_new_data_flag flag dev = record dev { new_data = flag }

  -- What an interrupt of the link does between two rounds: its bytes lie in the buffer, and the
  -- handler sets the flag.
  pub receive : Option (List ℕ × ℕ) → Device Fs → Device Fs
  unfolding set_new_data_flag
  receive none dev = dev
  receive (some (mem, len)) dev = set_new_data_flag 1 (record dev { rx_buf = mem; rx_len = len })

module _ {Fs : Type 0} (p : Platform Fs) (build : Build) where
  -- Interrupts are off while it runs. The buffer is decoded in place; what is seen of that is the
  -- memory behind the result, since the next reception fills the buffer anew.
  pub recv_new_data : Device Fs → Result (Option (List ℕ) × Device Fs)
  recv_new_data dev = if dev.new_data == 0 then ok (none, dev) else (do
    ops ← enc_cmd_data communication_key p.chip_crc16 dev.rx_buf dev.rx_len
    ok (ops, record dev { new_data = 0 }))

  -- The reboot command sends no reply. In the build with two banks the reset of the chip is the last of its
  -- events, and the code does not come back from it.
  pub reboot : Device Fs → Result (Device Fs)
  reboot dev = do
    let dev1 = log_event usb_disable (log_event ut_close dev)
    nvram ← if build.use_upgrade_magic then uboot_set_uart_upgrade_succ dev.nvram else ok dev.nvram
    let dev2 = record dev1 { nvram = nvram }
    ok (if build.dual_bank_mode then log_event reset dev2 else dev2)

  -- The switch of `upgrade_loop`; `true` is the end of the loop: its `return`, or the reset of the chip.
  pub dispatch : ℕ → List ℕ → Device Fs → Result (Bool × Device Fs)
  unfolding reboot
  dispatch cmd ops dev =
      if cmd == cmd_device_init
      then again (jl_su_device_init p build ops dev)
      else if cmd == cmd_flash_crc
      then again (jl_su_flash_crc p build ops dev)
      else if cmd == cmd_write
      then again (jl_su_write_flash p build ops dev)
      else if cmd == cmd_erase
      then again (jl_su_erase p build ops dev)
      else if cmd == cmd_device_check
      then again (jl_su_devcie_check p build ops dev)
      else if cmd == cmd_updata_dual_bank_crc
      then again (jl_su_updata_dual_bank_crc p build ops dev)
      else if cmd == cmd_reboot
      then (do dev' ← reboot dev; ok (true, dev'))
      else ok (false, dev)
    where
      again : Result (Device Fs) → Result (Bool × Device Fs)
      again r = do dev' ← r; ok (false, dev')

  -- One round of `while (1)`: with NULL it goes on at once.
  pub handle : Option (List ℕ) → Device Fs → Result (Bool × Device Fs)
  handle none dev = ok (false, dev)
  handle (some ops) dev = do cmd ← load ops 4; dispatch cmd ops dev

  pub upgrade_round : Device Fs → Result (Bool × Device Fs)
  unfolding handle
  upgrade_round dev = do (ops, dev1) ← recv_new_data dev; handle ops dev1

  -- The loop on what is received before each round. `false`: it still runs when the list ends.
  pub upgrade_loop : List (Option (List ℕ × ℕ)) → Device Fs → Result (Bool × Device Fs)
  upgrade_loop [] dev = ok (false, dev)
  upgrade_loop (i ∷ is) dev =
      let rest = upgrade_loop is in
      do (done, dev1) ← upgrade_round (receive i dev); if done then ok (true, dev1) else rest dev1
