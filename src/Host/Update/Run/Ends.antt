-- ===== src/Host/Update/Run/Ends.antt =====
-- `runInner` as a whole, whatever the device answers once it has told the zone.
use fw_bootloader.Common.{
  ℕ, ◌+◌, ◌^◌, ◌≤◌, ◌<◌, ◌≡◌, List, [], ◌∷◌, length, Bool, true, Option, if◌then◌else◌,
}
use fw_bootloader.Common.Memory.{fault}
use fw_bootloader.Protocol.Scan.{seal}
use fw_bootloader.Session.Spec.{Request, Legal, payload}
use fw_bootloader.Host.Crc.{crc16}
use fw_bootloader.Host.Command.{DeviceInitInfo, is_reply_device_check_cmd}
use fw_bootloader.Host.Update.Thread.{Outcome, faulted, running, failed, done, Host, return}
use fw_bootloader.Host.Update.Safe.{Safe}
use fw_bootloader.Host.Update.Run.{update_uboot}
use fw_bootloader.Host.Update.Run.App.{Erasable}
use fw_bootloader.Host.Update.Run.Uboot.{UbootFits}

-- A zone that the host can bring the file into.
pub record Usable (rounds : ℕ) (file : List ℕ) (is_update_uboot : Bool) (app : DeviceInitInfo)
    : Type 0 where
  pub erasable : Erasable rounds app.erase_unit_size
  pub positive : 0 < app.erase_unit_size
  pub fits : app.erase_unit_size ≤ 65525
  pub small : length file + app.erase_unit_size < 2 ^ 32
  pub enough : length file + app.erase_unit_size < rounds
  pub word : app.flash_eoffset_size < 2 ^ 32
  pub uboot : is_update_uboot ≡ true → UbootFits rounds app

-- The copy of an id by `isReplyDeviceCheckCmd` goes beyond the bytes that may be written there.
pub record Overrun (room : ℕ) : Type 0 where
  pub few : room < 16
  pub cmd : List ℕ
  pub copies : is_reply_device_check_cmd room cmd ≡ fault

-- The function ends, in a state with `P`; the one access out of bounds there may be is that copy.
abbrev pub Ends : {D A : Type 0} → ℕ → (D → Type 0) → Outcome D A → Type 0
Ends room P faulted = Overrun room
Ends room P running = ⊥
Ends room P (failed d) = P d
Ends room P (done a d) = P d

module _ {D : Type 0} (answer : List ℕ → D → Option (List ℕ) × D) (key room rounds : ℕ)
    (P : D → Type 0)
    (keeps : (q : Request) (d : D) → Legal q → P d → P (answer (seal key crc16 (payload 0 q)) d).1)
    (keeps_reboot : (d : D) → P d → P (answer (seal key crc16 (0xCA ∷ 0 ∷ [])) d).1) (file : List ℕ)
    (is_update_uboot : Bool) where
  abbrev uboot_part : Bool → DeviceInitInfo → Host D (Unit {0})
  uboot_part wanted app = if wanted then update_uboot answer key room rounds file app else return tt
