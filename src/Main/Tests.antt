-- ===== src/Main/Tests.antt =====
-- A start with the upgrade flag set.
use fw_bootloader.Common.{
  length-replicate, List, ℕ, some, arith, ◌≡◌, ◌≢◌, ◌⊎◌, refl, [], ◌∷◌, ◌++◌, true, false,
  replicate,
}
use fw_bootloader.Common.Memory.{ok}
use fw_bootloader.Protocol.{communication_key}
use fw_bootloader.Protocol.Scan.{seal}
use fw_bootloader.Protocol.RoundTrip.{NoMark}
use fw_bootloader.Session.Spec.{erase_area, payload, Library}
use fw_bootloader.Session.Inputs.{Asked, asked, quiet_end}
use fw_bootloader.Main.Upgrade.{Start, Upgraded, main_upgrades}
use fw_bootloader.Platform.{Platform, Build}
use fw_bootloader.Device.{Device}
use fw_bootloader.Magic.{uart_upgrade_mode_magic}
use fw_bootloader.Fixtures.{flash, file, build, received}
use fw_bootloader.Main.{Config, lrc, early, boot, same_string, main}
use fw_bootloader.Main.Laws.{err, upgrade_entered, main_lem}

abbrev config : Config
config = record {
  pll_src = replicate 16 0;
  uttx = replicate 8 0;
  ut_baud = 115200;
  mount = 0;
  debug = true;
}

abbrev flagged : Build
flagged = record build { use_upgrade_magic = true }

abbrev restarted : Device ℕ
restarted = record (received [] 0) { nvram = uart_upgrade_mode_magic ++ (5 ∷ []) }

other_clock : same_string (replicate 16 0) lrc ≡ ok false
unfolding same_string
other_clock = refl

main_lem_example :
    ((uart_upgrade_mode_magic ≡ uart_upgrade_mode_magic)
      × (main flash flagged config 7 [] restarted
          ≡ upgrade_entered flash flagged config 7 [] restarted false (replicate 8 0 ++ (5 ∷ []))))
    ⊎ (((uart_upgrade_mode_magic ≢ uart_upgrade_mode_magic)
          × (err config ≢ 0)
          × (main flash flagged config 7 [] restarted
              ≡ upgrade_entered flash flagged config 7 [] restarted false restarted.nvram))
        ⊎ ((uart_upgrade_mode_magic ≢ uart_upgrade_mode_magic)
            × (err config ≡ 0)
            × (main flash flagged config 7 [] restarted
                ≡ boot flash flagged 0 (early config false) restarted)))
main_lem_example =
    main_lem flash flagged config 7 [] restarted false uart_upgrade_mode_magic (5 ∷ []) refl
      other_clock refl refl

-- A flash whose boot loader is in its place, and that opens every file.
abbrev placed : Platform ℕ
placed = record flash {
  get_uboot_offset = λ fs. 0;
  fopen_by_name = λ f name mode fs. (0, file, fs);
}

placed-Library : Library placed
placed-Library = record {
  write_reads = λ f bytes behind fs. refl;
  name_reads = λ f name behind mode fs size. refl;
  fread_keeps = λ f mem n fs. refl;
  global_buffer = λ n fs. omega (arith, length-replicate {A = ℕ} n 0);
  pid_size = λ fs. refl;
  vid_size = λ fs. refl;
  stack_size = λ before. omega arith;
}

abbrev flagged_dev : Device ℕ
flagged_dev = record restarted { new_data = 0 }

-- The byte 1, then the frame of a payload.
abbrev framed : List ℕ → List ℕ
framed payload = 1 ∷ (seal communication_key flash.chip_crc16 payload ++ [])

mark : NoMark (1 ∷ [])
mark = ((λ e. absurd (omega arith)), tt)

erase-Asked :
    Asked placed flagged
      (erase_area 256 2 ∷ [])
      (some (framed (payload 0 (erase_area 256 2)), 20) ∷ [])
erase-Asked =
    asked (erase_area 256 2) (framed (payload 0 (erase_area 256 2))) 20 [] []
      (omega arith, omega arith)
      (record {
        pad = 0;
        pre = 1 ∷ [];
        rest = [];
        at = refl;
        clean = mark;
        inside = omega arith;
        small = omega arith;
      })
      quiet_end

abbrev later : Start ℕ
later = record { cfg = config; is_lrc = false; rounds = 7; inputs = []; dev = received [] 0 }

main_upgrades_example :
    Upgraded placed flagged config false (erase_area 256 2 ∷ []) flagged_dev later (
      main placed flagged config 7
        ((some (framed (payload 0 (erase_area 256 2)), 20) ∷ [])
          ++ some (framed (0xCA ∷ 0 ∷ []), 9) ∷ [])
        flagged_dev)
main_upgrades_example =
    main_upgrades placed flagged placed-Library config false 7 (erase_area 256 2 ∷ [])
      (some (framed (payload 0 (erase_area 256 2)), 20) ∷ []) (framed (0xCA ∷ 0 ∷ [])) 9 flagged_dev
      (5 ∷ []) later refl other_clock refl refl refl refl refl erase-Asked
      (record {
        pad = 0;
        pre = 1 ∷ [];
        rest = [];
        at = refl;
        clean = mark;
        inside = omega arith;
        small = omega arith;
      })
      other_clock refl
