-- ===== src/Host.antt =====
-- The host tool for the UART, update_tools/win-uart: the frames that it makes and reads, and the upgrade
-- that it carries out.
pub mod Crc
pub mod Command
pub mod Serial
pub mod Exchange
pub mod Update
pub mod Tests
