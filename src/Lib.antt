-- ===== src/Lib.antt =====
-- The upgrade boot loader of the repository (user_boot/): it takes requests of a host over USB HID or a
-- UART, carries them out on the NOR flash, and answers them.
--
-- Parts, and how they interact. A driver puts received bytes into a buffer and raises a flag from its
-- interrupt. `recv_new_data` takes the flag and has `enc_cmd_data` look for a frame; `upgrade_loop`
-- switches on its command and calls a handler; the handler calls the flash library and fills
-- `dev_g_buf`; `set_remain_and_upgrade_rsp` encodes and signs the reply and sends it.
--   Protocol (user_boot/app/src/user.c): `enc_dec_data`, `enc_cmd_data`.
--   Platform: the flash library, the ROM's CRC and the contents of the stack, as a record of functions.
--   Device (user_boot/app/src/user.c): the globals, `upgrade_rsp`, `set_remain_and_upgrade_rsp`.
--   Commands (user_boot/app/src/user.c): the handlers `jl_su_*`.
--   Session (user_boot/app/src/user.c): `recv_new_data`, `upgrade_loop`; Spec is the protocol without
--     frames, cipher and buffers, as a relation between a request, the flash and the reply.
--   Boot (user_boot/app/src/user.c): `user_check_upgrade`.
--   Main (user_boot/app/src/main.c): the start, and the decision between upgrade and application.
--   Magic (user_boot/app/src/user.c): the upgrade flag in the retention RAM.
--   Hal, Uart, Delay: registers, and what the drivers of the chips have in common.
--   Chips (user_boot/cpu/*/uart.c and delay.c): the drivers of nine chips; that of wl82 has two receiving
--     UARTs.
--   Debug (user_boot/cpu/br28/debug.c, wl82/debug.c): the report of an exception.
--   Usb (user_boot/app/src/hid.c, usb_config.c, usb_device.c, descriptor.c): Descriptor, Config (the
--     tables of handlers and the interrupts), Hid (the control requests), Device (the start), and Events,
--     the step relation of what happens to the device after its start.
--   Host (update_tools/win-uart): the host tool for the UART. Command (updatethread.cpp) makes the frames
--     and takes the replies, Crc (updatethread.cpp, utils/utils.cpp) are its CRC functions, Serial
--     (comm/physerialthread.cpp) finds packets in what the port delivers, Update (updatethread.cpp) is the
--     upgrade, and Exchange puts host and device together.
--   FlashWp (user_boot/app/src/flash_wp.c): the write protection table.
--   Common: lists, bytes, memory; Fixtures and the modules Tests: concrete runs.
--
-- State and operations. A pointer is the list of the bytes behind it; an access outside of it, or a
-- division by zero, is `fault`. The globals of user.c are the record `Device`, what leaves the device is
-- its list of events. The state `Fs` of the flash library is abstract, and each of its functions is a
-- parameter. The host tool runs over the state of whatever answers it, and a function of it ends with a
-- result, by returning false, in a fault, or with its rounds used up. The drivers run on the history of
-- their register accesses: what a register reads as is a function of that history which nothing
-- restricts. The state of the USB device is the record `Usb`, with the list of the calls that it makes of
-- the precompiled stack, which may call back from within an interrupt. `chip_reset` ends what runs: the
-- loop of the session is over, and the start comes to `resetting`. A copy that the host tool makes to the
-- address of a pointer is given the number of bytes that may be written there.
--
-- Bounds and fuel. Integers are natural numbers with the wrap-around of u8, u16 and u32 written out.
-- `upgrade_loop` runs on the list of what is received before each of its rounds, so that it is
-- structural; each finite run of the endless loop is such a list. The copy of the boot loader runs on a
-- number of rounds, any number above the size of what is copied being enough. The countdown of `putchar`
-- is its own bound, 0x10000. The waits of `ut_up_tx_data` and `udelay` run on rounds, and end in the round
-- in which the hardware shows the bit. The loops of the host tool that stop at a length run on rounds, any
-- number above the bytes of the file and a unit, and with the boot loader above those in front of 64K,
-- being enough for a zone that can be used; its loop over received packets runs for as many rounds as
-- there are bytes, since each takes two at least.
--
-- Not modelled. The host's tools over USB HID (update_tools/win-usb_hid, android-usb_hid) and all windows,
-- the linker scripts, the log; the watchdog and the disabling of interrupts. The precompiled libraries
-- behind user_boot/include_lib are parameters.
pub mod Common
pub mod Main
pub mod Platform
pub mod Protocol
pub mod Debug
pub mod Device
pub mod Commands
pub mod Magic
pub mod Session
pub mod FlashWp
pub mod Usb
pub mod Fixtures
pub mod Tests
pub mod Boot
pub mod Hal
pub mod Uart
pub mod Delay
pub mod Chips
pub mod Host
