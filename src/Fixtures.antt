-- ===== src/Fixtures.antt =====
-- A small flash and board, on which the modules of tests run the program.
use fw_bootloader.Common.{
  ℕ, ◌+◌, ◌-◌, List, [], ◌∷◌, ◌++◌, true, false, ◌==◌, if◌then◌else◌, length, length-replicate,
  replicate, min, refl, arith,
}
use fw_bootloader.Protocol.{communication_key}
use fw_bootloader.Protocol.Scan.{seal}
use fw_bootloader.Platform.{JlfsFile, Platform, Build}
use fw_bootloader.Device.{Device}
use fw_bootloader.Session.Spec.{Library}
use fw_bootloader.Hal.{Port}
use fw_bootloader.Uart.{Board}

abbrev pub file : JlfsFile
file = record { addr = 4096; size = 100; pos = 0; res = 0 }

-- The state of the flash is how many operations changed it, a write counting its bytes. It opens no file in mode 0.
abbrev pub flash_with : (List ℕ → ℕ) → Platform ℕ
flash_with crc = record {
  chip_crc16 = crc;
  get_flash_align_size = λ fs. 4;
  get_flash_app_base_addr = λ fs. 6;
  get_flash_eoffset_size = λ fs. 0;
  get_uboot_offset = λ fs. 65536;
  set_uboot_offset = λ offset fs. fs + 1;
  get_global_buffer = λ n fs. replicate n 0;
  get_pid = λ fs. replicate 16 1;
  get_vid = λ fs. replicate 4 2;
  get_idle_bank_info = λ f mode fs. (0, file, fs);
  fopen_by_name = λ f name mode fs. (if mode == 0 then 1 else 0, file, fs);
  fseek = λ f at fs. (record f { pos = at }, fs);
  fread = λ f mem l fs.
      (min l (f.size - f.pos), mem, record f { pos = f.pos + min l (f.size - f.pos) }, fs);
  erase = λ f n fs. (n, f, fs + 1);
  write = λ f bytes n fs. (n, record f { pos = f.pos + n }, fs + n);
  updata_dual_bank_info = λ f crc fs. (0, f, fs + 1);
  stack = λ before. replicate 64 7;
}

-- The flash with a CRC that a test computes fast.
abbrev pub flash : Platform ℕ
flash = flash_with (λ bytes. length bytes)

pub flash_with-Library : (crc : List ℕ → ℕ) → Library (flash_with crc)
flash_with-Library crc = record {
  write_reads = λ f bytes behind fs. refl;
  name_reads = λ f name behind mode fs size. refl;
  fread_keeps = λ f mem n fs. refl;
  global_buffer = λ n fs. omega (arith, length-replicate {A = ℕ} n 0);
  pid_size = λ fs. refl;
  vid_size = λ fs. refl;
  stack_size = λ before. omega arith;
}

abbrev pub build : Build
build = record { usb_mode = true; use_upgrade_magic = false; dual_bank_mode = true }

-- A device that has received a request with this payload.
abbrev pub received : List ℕ → ℕ → Device ℕ
received payload len = record {
  fs = 0;
  upgrade_file = file;
  flash_alignsize = 4;
  dev_g_buf = replicate 64 0;
  new_data = 1;
  rx_buf = 1 ∷ 2 ∷ (seal communication_key flash.chip_crc16 payload ++ []);
  rx_len = len;
  nvram = replicate 8 0;
  events = [];
}

-- Address 256, then the length or the type 3, then three bytes, then ones.
abbrev pub request : ℕ → List ℕ
request cmd =
    0xAA ∷ 0x55 ∷ 13 ∷ 0 ∷ cmd ∷ 0 ∷ 0 ∷ 1 ∷ 0 ∷ 0 ∷ 3 ∷ 0 ∷ 0 ∷ 0 ∷ 10 ∷ 11 ∷ 12 ∷ replicate 10 1

abbrev pub board : Board
board = record {
  fo_uart_tx = λ n. 43 + n;
  io_port_max = 80;
  io_group_num = 16;
  ch0_ut0_tx = 0;
  ch1_ut1_tx = 1;
  ch1_ut0_tx = 2;
  ch3_ut0_tx = 3;
  ch0_ut1_tx = 4;
  ch2_ut1_tx = 5;
  irq_uart0_idx = 6;
  irq_uart1_idx = 7;
  libs_debug = true;
  ut_up_buf = 8192;
}

-- Hardware that answers every access alike.
abbrev pub port : ℕ → Port
port value = record {
  answer = λ a before. value;
  used_tx_io = 0;
  used_tx_io_omap = 0;
  ut_up_rxlen = 0;
  new_data = 0;
  ut1_up_rxlen = 0;
  ut_new_data = 0;
  ut1_new_data = 0;
  user_uart0_tx = 0;
  user_uart0_rx = 0;
  user_uart1_tx = 0;
  user_uart1_rx = 0;
  ut_up_bytes = replicate 4128 0;
  ut1_up_bytes = replicate 4128 0;
  accesses = [];
}
