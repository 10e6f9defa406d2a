-- ===== src/Tests.antt =====
-- The theorems on a small flash and board.
use fw_bootloader.Common.{
  inr, inl, length-replicate, ◌<◌, ◌+◌, ℕ, ◌*◌, ◌≡◌, ◌≢◌, ◌≤◌, refl, List, [], ◌∷◌, ◌++◌, none,
  some, All, true, false, ◌⊎◌, replicate, arith, le32, if◌then◌else◌, ◌==◌,
}
use fw_bootloader.Common.Memory.{ok, fault}
use fw_bootloader.Protocol.{communication_key, enc_cmd_data}
use fw_bootloader.Protocol.Scan.{seal, opened}
use fw_bootloader.Protocol.RoundTrip.{enc_cmd_data-seal}
use fw_bootloader.Protocol.Sound.{Outcome, enc_cmd_data_sound}
use fw_bootloader.Device.{Device, log_event, set_remain_and_upgrade_rsp, suss, erase_error}
use fw_bootloader.Platform.{send}
use fw_bootloader.Device.Reply.{on_link, reply_frame, respond}
use fw_bootloader.Commands.{
  jl_su_device_init, jl_su_flash_crc, jl_su_erase, jl_su_write_flash, erase_len,
}
use fw_bootloader.Commands.Fill.{Answered}
use fw_bootloader.Commands.Replies.{jl_su_erase_lem, jl_su_write_flash_lem, jl_su_device_init_lem}
use fw_bootloader.Commands.FlashCrc.{block_crcs, jl_su_flash_crc_lem, jl_su_flash_crc-fault}
use fw_bootloader.Session.{upgrade_round}
use fw_bootloader.Session.Request.{upgrade_round-write, write_payload}
use fw_bootloader.Boot.{copy_uboot}
use fw_bootloader.Boot.Copy.{copy_uboot_ends}
use fw_bootloader.Hal.{call_lib, ut_con0, ut_buf, get_gpio, any, bit}
use fw_bootloader.Hal.Poll.{after, reads}
use fw_bootloader.Uart.Interrupt.{pending, Taken, Passed}
use fw_bootloader.Uart.Console.{Printed}
use fw_bootloader.Chips.{br28, sh55, driver}
use fw_bootloader.Chips.Laws.{irq_lem, putchar_lem, ut_up_tx_data_ends, ut_device_mode_refused}
use fw_bootloader.Uart.{divisor}
use fw_bootloader.Uart.Baud.{divisor_lem}
use fw_bootloader.FlashWp.{FlashWpArg, wp, flash_set_wp}
use fw_bootloader.FlashWp.Laws.{Entry, flash_set_wp_lem}
use fw_bootloader.Fixtures.{flash, build, file, received, request, board, port}

enc_cmd_data-seal_example :
    enc_cmd_data communication_key flash.chip_crc16
      ((1 ∷ 2 ∷ []) ++ (seal communication_key flash.chip_crc16 (0xC2 ∷ 0 ∷ 5 ∷ []) ++ (9 ∷ [])))
      11
    ≡ ok (some (opened communication_key flash.chip_crc16 (0xC2 ∷ 0 ∷ 5 ∷ []) ++ (9 ∷ [])))
enc_cmd_data-seal_example =
    enc_cmd_data-seal communication_key flash.chip_crc16 (1 ∷ 2 ∷ []) (0xC2 ∷ 0 ∷ 5 ∷ []) (9 ∷ [])
      11 ((λ e. absurd (omega arith)), ((λ e. absurd (omega arith)), tt)) (omega arith)
      (omega arith) (omega arith) (omega arith)

enc_cmd_data_sound_example :
    Outcome communication_key flash.chip_crc16 (0xAA ∷ 0x55 ∷ 2 ∷ 0 ∷ 1 ∷ 2 ∷ 3 ∷ 4 ∷ 5 ∷ []) 9 (
      enc_cmd_data communication_key flash.chip_crc16
        (0xAA ∷ 0x55 ∷ 2 ∷ 0 ∷ 1 ∷ 2 ∷ 3 ∷ 4 ∷ 5 ∷ [])
        9)
enc_cmd_data_sound_example =
    enc_cmd_data_sound communication_key flash.chip_crc16
      (0xAA ∷ 0x55 ∷ 2 ∷ 0 ∷ 1 ∷ 2 ∷ 3 ∷ 4 ∷ 5 ∷ []) 9
      (
        omega arith,
        (
          omega arith,
          (
            omega arith,
            (
              omega arith,
              (omega arith, (omega arith, (omega arith, (omega arith, (omega arith, tt))))),
            ),
          ),
        ),
      )
      (omega arith) (omega arith)

jl_su_erase_lem_example :
    Answered flash build
      (received [] 0)
      (reply_frame flash build (0xC2 ∷ (if erase_len 3 == 0 then erase_error else suss) ∷ []))
      1
      (record file { pos = 256 })
      (jl_su_erase flash build (request 0xC2) (received [] 0))
jl_su_erase_lem_example =
    jl_su_erase_lem flash build (received [] 0) (request 0xC2) (omega arith) refl 256 3 refl refl

jl_su_write_flash_lem_example :
    Answered flash build
      (received [] 0)
      (reply_frame flash build (0xC3 ∷ suss ∷ []))
      3
      (record file { pos = 259 })
      (jl_su_write_flash flash build (request 0xC3) (received [] 0))
jl_su_write_flash_lem_example =
    jl_su_write_flash_lem flash build (received [] 0) (request 0xC3) (omega arith) refl 256 3 refl
      refl

jl_su_device_init_lem_example :
    Answered flash build
      (received [] 0)
      (reply_frame flash build (0xC0 ∷ suss ∷ (le32 4096 ++ (le32 100 ++ (le32 0 ++ le32 4)))))
      0
      file
      (jl_su_device_init flash build (request 0xC0) (received [] 0))
jl_su_device_init_lem_example =
    jl_su_device_init_lem flash build (received [] 0) (request 0xC0) (omega arith) refl 1 refl

respond_example :
    set_remain_and_upgrade_rsp flash build 0xC2
      (record (received [] 0) { dev_g_buf = 0 ∷ 0 ∷ 2 ∷ 0 ∷ 0 ∷ 3 ∷ replicate 58 0 })
    ≡ ok (
        log_event
          (send (on_link flash build [] (reply_frame flash build (0xC2 ∷ 3 ∷ []))))
          (record (received [] 0) {
            dev_g_buf = reply_frame flash build (0xC2 ∷ 3 ∷ []) ++ replicate 56 0;
          }))
respond_example =
    respond flash build
      (record (received [] 0) { dev_g_buf = 0 ∷ 0 ∷ 2 ∷ 0 ∷ 0 ∷ 3 ∷ replicate 58 0 }) (omega arith)
      (3 ∷ []) (replicate 56 0) 0 0 0xC2 refl refl refl (omega arith)

-- A request for the CRCs of `blocks` blocks of four bytes.
abbrev crc_request : ℕ → List ℕ
crc_request blocks =
    0xAA ∷ 0x55 ∷ 14 ∷ 0 ∷ 0xC4 ∷ 0 ∷ 0 ∷ 0 ∷ 0 ∷ 0 ∷ (4 * blocks) ∷ 0 ∷ 0 ∷ 0 ∷ 4 ∷ 0 ∷ 0 ∷ 0 ∷ []

jl_su_flash_crc_lem_example :
    let (crcs, file', fs') = block_crcs flash 4 2 (replicate 4 0) file 0 in
    Answered flash build
      (received [] 0)
      (reply_frame flash build (0xC4 ∷ suss ∷ crcs))
      fs'
      file'
      (jl_su_flash_crc flash build (crc_request 2) (received [] 0))
jl_su_flash_crc_lem_example =
    jl_su_flash_crc_lem flash build (λ f mem n fs. refl)
      (λ n fs. omega (arith, length-replicate {A = ℕ} n 0)) (received [] 0) (crc_request 2)
      (omega arith) refl 0 8 4 refl refl refl (omega arith) (omega arith)

jl_su_flash_crc-fault_example : jl_su_flash_crc flash build (crc_request 29) (received [] 0) ≡ fault
jl_su_flash_crc-fault_example =
    jl_su_flash_crc-fault flash build (λ f mem n fs. refl)
      (λ n fs. omega (arith, length-replicate {A = ℕ} n 0)) (received [] 0) (crc_request 29)
      (omega arith) refl 0 116 4 refl refl refl (omega arith) (omega arith)

upgrade_round-write_example :
    let frame = seal communication_key flash.chip_crc16 (write_payload 0 256 (10 ∷ 11 ∷ 12 ∷ [])) in
    (dev : Device ℕ) × (upgrade_round flash build
        (received (write_payload 0 256 (10 ∷ 11 ∷ 12 ∷ [])) 21)
      ≡ ok (false, dev))
    × Answered flash build
        (record (received (write_payload 0 256 (10 ∷ 11 ∷ 12 ∷ [])) 21) { new_data = 0 })
        (reply_frame flash build (0xC3 ∷ suss ∷ []))
        3
        (record file { pos = 259 })
        (ok dev)
upgrade_round-write_example =
    upgrade_round-write flash build (received (write_payload 0 256 (10 ∷ 11 ∷ 12 ∷ [])) 21)
      (omega arith) refl (1 ∷ 2 ∷ []) [] (10 ∷ 11 ∷ 12 ∷ []) 0 256 refl refl
      ((λ e. absurd (omega arith)), ((λ e. absurd (omega arith)), tt)) (omega arith) (omega arith)
      (omega arith) (omega arith)

copy_uboot_ends_example : (fs' : ℕ) × (copy_uboot flash 7 4 0 ≡ some fs')
copy_uboot_ends_example =
    copy_uboot_ends flash (λ f mem l fs. (refl, refl, refl)) (λ f fs. (refl, refl)) 7 4 0
      (omega arith)

irq_lem_example :
    ((pending board 1 (port 4095) ≡ true)
      × Taken board 1 (port 4095) ((driver sh55 board).irq (port 4095)).1)
    ⊎ ((pending board 1 (port 4095) ≡ false)
        × Passed board 1 (port 4095) ((driver sh55 board).irq (port 4095)).1)
irq_lem_example = irq_lem sh55 board (port 4095)

putchar_lem_example :
    ((any 32769 (bit 0) ≡ true)
      × Printed
          (ut_con0 1)
          (ut_buf 1)
          65
          (port 32769)
          ((driver br28 board).putchar 65 (port 32769)).1)
    ⊎ ((any 32769 (bit 0) ≡ false)
        × (((driver br28 board).putchar 65 (port 32769)).1
            ≡ after (port 32769) (reads 1 (ut_con0 1))))
putchar_lem_example = putchar_lem br28 board 65 (port 32769)

ut_up_tx_data_ends_example : ((driver br28 board).ut_up_tx_data 5 100 12 (port 32768)).0 ≡ true
ut_up_tx_data_ends_example =
    ut_up_tx_data_ends br28 board 5 100 12 2 (port 32768) (omega arith) refl

ut_device_mode_refused_example :
    ((driver br28 board).ut_device_mode (80 ∷ []) (81 ∷ []) 115200 (port 200)).1
    ≡ after (port 200) (call_lib get_gpio (80 ∷ []) ∷ call_lib get_gpio (81 ∷ []) ∷ [])
ut_device_mode_refused_example =
    ut_device_mode_refused br28 board (80 ∷ []) (81 ∷ []) 115200 (port 200)
      (inr (inl (omega arith)))

flash_set_wp_lem_example :
    ((flash_set_wp 0x909294 128).0 ≡ 131072)
    × ((((flash_set_wp 0x909294 128).1 ≡ none) × All (λ a. a.id ≢ 0x909294) wp)
        ⊎ ((a : FlashWpArg) × ((flash_set_wp 0x909294 128).1 ≡ some a)
            × (a.id ≡ 0x909294)
            × Entry a wp))
flash_set_wp_lem_example = flash_set_wp_lem 0x909294 128 (omega arith)

divisor_lem_example :
    ((divisor 24000000 115200 + 1) * (115200 * 4) ≤ 24000000)
    × (24000000 < (divisor 24000000 115200 + 2) * (115200 * 4))
divisor_lem_example = divisor_lem 24000000 115200 (omega arith) (omega arith) (omega arith)
