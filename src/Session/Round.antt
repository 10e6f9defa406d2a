-- ===== src/Session/Round.antt =====
-- One round of `upgrade_loop` on a sealed request.
use fw_bootloader.Common.{
  ℕ, ◌/◌, ◌%◌, ◌^◌, ◌≡◌, ◌≤◌, ◌<◌, ◌∙◌, refl, sym, ap, subst, List, [], ◌∷◌, ◌++◌, some, length,
  arith, append_assoc, length-append, le16, u16,
}
use fw_bootloader.Common.Memory.{ok}
use fw_bootloader.Protocol.{communication_key, enc_cmd_data}
use fw_bootloader.Protocol.Scan.{sealed_head, opened}
use fw_bootloader.Protocol.RoundTrip.{length-seal, enc_cmd_data-seal}
use fw_bootloader.Platform.{Platform, Build}
use fw_bootloader.Device.{Device}
use fw_bootloader.Session.{set_new_data_flag, receive, handle, upgrade_round}
use fw_bootloader.Session.Request.{opened_round}
use fw_bootloader.Session.Spec.{
  Request, device_init, device_check, erase_area, write_flash, flash_crc, dual_bank_crc, code,
  fields, payload, Legal, Library,
}
use fw_bootloader.Session.Serve.{Done, handle-Done}
use fw_bootloader.Session.Inputs.{Framed}

module _ {Fs : Type 0} (p : Platform Fs) (build : Build) where
  pub payload-size :
      (pad : ℕ) (q : Request)
      → Legal q
      → (2 ≤ length (payload pad q)) × (length (payload pad q) < 2 ^ 16)
  payload-size pad (device_init name mode) legal =
      (omega arith, omega (arith, legal, length-append name (mode ∷ [])))
  payload-size pad (device_check id) legal = (omega arith, omega arith)
  payload-size pad (erase_area address type) legal = (omega arith, omega arith)
  payload-size pad (write_flash address bytes) legal = (omega arith, omega (arith, legal.1))
  payload-size pad (flash_crc address len block_size) legal = (omega arith, omega arith)
  payload-size pad (dual_bank_crc crc) legal = (omega arith, omega arith)

  -- The device that has received, with the flag taken.
  abbrev pub idle : Device Fs → List ℕ → ℕ → Device Fs
  idle dev mem len = record dev { rx_buf = mem; rx_len = len; new_data = 0 }

  module _ (lib : Library p) (dev : Device Fs) (buffer : length dev.dev_g_buf ≡ 64) where
    pub round-Done :
        (q : Request) (mem : List ℕ) (len : ℕ)
        → Legal q
        → Framed p build q mem len
        → Done p build (idle dev mem len) q (upgrade_round p build (receive (some (mem, len)) dev))
    unfolding receive set_new_data_flag
    round-Done q mem len legal f =
        let body = payload f.pad q in
        let (two, fits) = payload-size f.pad q legal in
        let size = length-seal communication_key p.chip_crc16 body in
        let found =
          enc_cmd_data-seal communication_key p.chip_crc16 f.pre body f.rest len f.clean two fits
            (omega (arith, size, f.inside)) f.small in
        let crc = le16 (u16 (p.chip_crc16 (sealed_head communication_key p.chip_crc16 body))) in
        let n = length body in
        let dev1 = receive (some (mem, len)) dev in
        let decoded : enc_cmd_data communication_key p.chip_crc16 mem len
            ≡ ok (some (opened communication_key p.chip_crc16 body ++ f.rest)) =
          ap (λ m. enc_cmd_data communication_key p.chip_crc16 m len) f.at ∙ found in
        let opens =
          opened_round p build dev1 (lib.stack_size dev.events) buffer
            (opened communication_key p.chip_crc16 body ++ f.rest) refl decoded in
        let shape =
          ap
            (λ x.
              handle p build (some (0xAA ∷ 0x55 ∷ n % 256 ∷ n / 256 % 256 ∷ code q ∷ f.pad ∷ x))
                (idle dev mem len))
            (append_assoc (fields q) crc f.rest) in
        subst (Done p build (idle dev mem len) q) (sym (opens ∙ shape)) (
          handle-Done p build lib (idle dev mem len) buffer 0xAA 0x55 (n % 256) (n / 256 % 256)
            f.pad (crc ++ f.rest) q legal)
