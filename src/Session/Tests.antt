-- ===== src/Session/Tests.antt =====
-- A session that reboots the device, and one that erases and writes.
use fw_bootloader.Common.{ℕ, List, Option, ◌≡◌, refl, [], ◌∷◌, ◌++◌, true, none, some, arith}
use fw_bootloader.Common.Memory.{ok}
use fw_bootloader.Protocol.{communication_key, enc_cmd_data}
use fw_bootloader.Protocol.Scan.{opened, seal}
use fw_bootloader.Protocol.RoundTrip.{NoMark, enc_cmd_data-seal}
use fw_bootloader.Platform.{ut_close, usb_disable, reset}
use fw_bootloader.Device.{Device}
use fw_bootloader.Session.{
  receive, recv_new_data, reboot, dispatch, handle, upgrade_round, upgrade_loop,
}
use fw_bootloader.Session.Loop.{Ran, upgrade_loop_events}
use fw_bootloader.Session.Spec.{Request, erase_area, write_flash, payload, Library}
use fw_bootloader.Session.Inputs.{Asked, asked, waiting, quiet_end}
use fw_bootloader.Session.Refine.{Refined, upgrade_loop_refines}
use fw_bootloader.Session.Ends.{Rebooted, upgrade_loop_reboots}
use fw_bootloader.Fixtures.{flash, flash_with-Library, build, received}

abbrev before : Device ℕ
before = received (0xCA ∷ 0 ∷ []) 10

abbrev rebooted_dev : Device ℕ
rebooted_dev = record before { new_data = 0; events = ut_close ∷ usb_disable ∷ reset ∷ [] }

found :
    enc_cmd_data communication_key flash.chip_crc16 before.rx_buf 10
    ≡ ok (some (opened communication_key flash.chip_crc16 (0xCA ∷ 0 ∷ []) ++ []))
found =
    enc_cmd_data-seal communication_key flash.chip_crc16 (1 ∷ 2 ∷ []) (0xCA ∷ 0 ∷ []) [] 10
      ((λ e. absurd (omega arith)), ((λ e. absurd (omega arith)), tt)) (omega arith) (omega arith)
      (omega arith) (omega arith)

reboots : upgrade_round flash build before ≡ ok (true, rebooted_dev)
unfolding upgrade_round recv_new_data handle dispatch reboot
reboots = rw found refl

loop_reboots : upgrade_loop flash build (none ∷ none ∷ []) before ≡ ok (true, rebooted_dev)
unfolding upgrade_loop receive
loop_reboots = rw reboots refl

upgrade_loop_events_example : Ran flash build 2 before true rebooted_dev
upgrade_loop_events_example =
    upgrade_loop_events flash build (none ∷ none ∷ []) before rebooted_dev true loop_reboots

flash-Library : Library flash
flash-Library = flash_with-Library flash.chip_crc16

-- A device that waits, and what it receives: an erase, nothing, a write of three bytes.
abbrev waiting_dev : Device ℕ
waiting_dev = record (received [] 0) { new_data = 0 }

abbrev requests : List Request
requests = erase_area 256 2 ∷ write_flash 256 (10 ∷ 11 ∷ 12 ∷ []) ∷ []

abbrev framed : Request → List ℕ
framed q = 1 ∷ 2 ∷ (seal communication_key flash.chip_crc16 (payload 0 q) ++ [])

abbrev inputs : List (Option (List ℕ × ℕ))
inputs =
    some (framed (erase_area 256 2), 20)
    ∷ none
    ∷ some (framed (write_flash 256 (10 ∷ 11 ∷ 12 ∷ [])), 30)
    ∷ []

marks : NoMark (1 ∷ 2 ∷ [])
marks = ((λ e. absurd (omega arith)), ((λ e. absurd (omega arith)), tt))

inputs-Asked : Asked flash build requests inputs
inputs-Asked =
    asked (erase_area 256 2) (framed (erase_area 256 2)) 20
      (write_flash 256 (10 ∷ 11 ∷ 12 ∷ []) ∷ [])
      (none ∷ some (framed (write_flash 256 (10 ∷ 11 ∷ 12 ∷ [])), 30) ∷ [])
      (omega arith, omega arith)
      (record {
        pad = 0;
        pre = 1 ∷ 2 ∷ [];
        rest = [];
        at = refl;
        clean = marks;
        inside = omega arith;
        small = omega arith;
      })
      (waiting (write_flash 256 (10 ∷ 11 ∷ 12 ∷ []) ∷ [])
        (some (framed (write_flash 256 (10 ∷ 11 ∷ 12 ∷ [])), 30) ∷ [])
        (asked (write_flash 256 (10 ∷ 11 ∷ 12 ∷ [])) (framed (write_flash 256 (10 ∷ 11 ∷ 12 ∷ [])))
          30 [] [] (omega arith, omega arith)
          (record {
            pad = 0;
            pre = 1 ∷ 2 ∷ [];
            rest = [];
            at = refl;
            clean = marks;
            inside = omega arith;
            small = omega arith;
          })
          quiet_end))

upgrade_loop_refines_example : Refined flash build requests inputs waiting_dev
upgrade_loop_refines_example =
    upgrade_loop_refines flash build flash-Library requests inputs waiting_dev refl refl
      inputs-Asked

abbrev reboot_request : List ℕ
reboot_request = 1 ∷ 2 ∷ (seal communication_key flash.chip_crc16 (0xCA ∷ 0 ∷ []) ++ [])

upgrade_loop_reboots_example :
    (r : Refined flash build requests inputs waiting_dev) × (last : Device ℕ) × (upgrade_loop flash
        build
        (inputs ++ some (reboot_request, 10) ∷ [])
        waiting_dev
      ≡ ok (true, last))
    × Rebooted flash build r.after last
upgrade_loop_reboots_example =
    upgrade_loop_reboots flash build flash-Library requests inputs reboot_request 10 waiting_dev
      refl refl (omega arith) inputs-Asked
      (record {
        pad = 0;
        pre = 1 ∷ 2 ∷ [];
        rest = [];
        at = refl;
        clean = marks;
        inside = omega arith;
        small = omega arith;
      })
