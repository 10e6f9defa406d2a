-- ===== src/Boot/Tests.antt =====
-- A start of the upgrade that copies the boot loader and then finds no application.
use fw_bootloader.Common.{some, ℕ, ◌≡◌, ◌⊎◌, refl, [], ◌∷◌, none}
use fw_bootloader.Common.Memory.{ok}
use fw_bootloader.Device.{Device}
use fw_bootloader.Boot.{returned, copy_loop, copy_uboot, open_and_serve, user_check_upgrade}
use fw_bootloader.Boot.Trace.{Silent, Served, user_check_upgrade_events}
use fw_bootloader.Platform.{JlfsFile}
use fw_bootloader.Fixtures.{file, flash, build, received}

abbrev tried : Device ℕ
tried = record (received [] 0) { fs = 9 }

no_application :
    user_check_upgrade flash build 7 (none ∷ []) (received [] 0) ≡ ok (returned 1, tried)
unfolding user_check_upgrade copy_uboot copy_loop open_and_serve
no_application = refl

user_check_upgrade_events_example :
    Silent flash build [] (returned 1) [] ⊎ Served flash build 1 [] (returned 1) []
user_check_upgrade_events_example =
    user_check_upgrade_events flash build 7 (none ∷ []) (received [] 0) tried (returned 1)
      no_application

abbrev near_end : JlfsFile
near_end = record file { pos = 94 }

copied : copy_loop flash 3 near_end file [] 4 0 ≡ some 6
unfolding copy_loop
copied = refl
