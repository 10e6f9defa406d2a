-- ===== src/Host/Tests.antt =====
-- The host tool at concrete inputs.
use fw_bootloader.Common.{
  ℕ, ◌≡◌, refl, List, [], ◌∷◌, ◌++◌, length, Option, none, some, arith, u16, false,
}
use fw_bootloader.Common.Memory.{ok}
use fw_bootloader.Protocol.{communication_key}
use fw_bootloader.Protocol.Scan.{seal}
use fw_bootloader.Platform.{Platform, Build}
use fw_bootloader.Device.{Device}
use fw_bootloader.Session.Spec.{payload, Legal}
use fw_bootloader.Fixtures.{flash_with, flash_with-Library, build, received}
use fw_bootloader.Host.Crc.{crc16, crc16_loop, crc16_byte, chip_crc16}
use fw_bootloader.Host.Crc.Laws.{crc16_lem, crc16-lt}
use fw_bootloader.Host.Command.Requests.{HostCall, erase, write, check, make, request, make_lem}
use fw_bootloader.Host.Serial.{reads}
use fw_bootloader.Host.Serial.Reads.{closed_port, joined, reads-joined}
use fw_bootloader.Host.Exchange.{Sends, sent, pause, all_sent, Exchanged, host_and_device}

-- "123456789" has the check value of the CRC that the comment of utils.cpp names.
abbrev digits : List ℕ
digits = 0x31 ∷ 0x32 ∷ 0x33 ∷ 0x34 ∷ 0x35 ∷ 0x36 ∷ 0x37 ∷ 0x38 ∷ 0x39 ∷ []

check_value : crc16 digits ≡ 0x31C3
unfolding crc16 crc16_loop crc16_byte
check_value = refl

crc16_lem_example : crc16 digits ≡ chip_crc16 digits
crc16_lem_example = crc16_lem digits

make_lem_example :
    Legal (request (write 256 2 (7 ∷ 8 ∷ 9 ∷ [])))
    × (make 5 (write 256 2 (7 ∷ 8 ∷ 9 ∷ []))
        ≡ ok (seal 5 crc16 (payload 0 (request (write 256 2 (7 ∷ 8 ∷ 9 ∷ []))))))
make_lem_example = make_lem 5 (write 256 2 (7 ∷ 8 ∷ 9 ∷ [])) (omega arith, omega arith, omega arith)

-- A packet, cut in the middle of its head.
abbrev cut : List (List ℕ)
cut = (1 ∷ 0xAA ∷ []) ∷ (0x55 ∷ 2 ∷ 0 ∷ 7 ∷ []) ∷ [] ∷ (8 ∷ 1 ∷ 2 ∷ []) ∷ []

reads-joined_example :
    (reads cut closed_port).remote_cmds ≡ (reads (joined cut ∷ []) closed_port).remote_cmds
reads-joined_example = reads-joined cut

abbrev uart_flash : Platform ℕ
uart_flash = flash_with crc16

abbrev uart_build : Build
uart_build = record build { usb_mode = false }

abbrev waiting_dev : Device ℕ
waiting_dev = record (received [] 0) { new_data = 0 }

same_crc : (bytes : List ℕ) → u16 (crc16 bytes) ≡ crc16 bytes
same_crc bytes = omega (arith, crc16-lt bytes)

abbrev calls : List HostCall
calls = erase 256 2 ∷ check 0x12345678 ∷ []

abbrev frame : HostCall → List ℕ
frame call = seal communication_key crc16 (payload 0 (request call))

abbrev inputs : List (Option (List ℕ × ℕ))
inputs =
    some (frame (erase 256 2) ++ 9 ∷ [], length (frame (erase 256 2)))
    ∷ none
    ∷ some (frame (check 0x12345678) ++ [], length (frame (check 0x12345678)))
    ∷ []

sends : Sends calls inputs
sends =
    sent (erase 256 2) (frame (erase 256 2)) (9 ∷ []) (check 0x12345678 ∷ [])
      (none ∷ some (frame (check 0x12345678) ++ [], length (frame (check 0x12345678))) ∷ [])
      (omega arith, omega arith)
      (make_lem communication_key (erase 256 2) (omega arith, omega arith)).1
      (pause (check 0x12345678 ∷ [])
        (some (frame (check 0x12345678) ++ [], length (frame (check 0x12345678))) ∷ [])
        (sent (check 0x12345678) (frame (check 0x12345678)) [] [] [] (omega arith)
          (make_lem communication_key (check 0x12345678) (omega arith)).1 all_sent))

host_and_device_example : Exchanged uart_flash uart_build same_crc calls inputs waiting_dev
host_and_device_example =
    host_and_device uart_flash uart_build same_crc (flash_with-Library crc16) calls inputs
      waiting_dev refl refl refl sends
