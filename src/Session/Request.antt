-- ===== src/Session/Request.antt =====
-- A request of the host from its frame to the answer: `enc_cmd_data`, the switch of `upgrade_loop` and
-- the handler together.
use fw_bootloader.Common.{
  ℕ, ◌+◌, ◌/◌, ◌%◌, ◌^◌, ◌≡◌, ◌≤◌, ◌<◌, ◌∙◌, refl, ap, subst, List, [], ◌∷◌, ◌++◌, false, ◌==◌,
  if◌then◌else◌, some, length, arith, append_assoc, le16, le32, word32-le32, u16,
}
use fw_bootloader.Common.Memory.{ok}
use fw_bootloader.Protocol.{communication_key, enc_cmd_data}
use fw_bootloader.Protocol.Scan.{seal, sealed_head, opened}
use fw_bootloader.Protocol.RoundTrip.{NoMark, length-seal, enc_cmd_data-seal}
use fw_bootloader.Platform.{Platform, Build}
use fw_bootloader.Device.{Device, suss, write_error}
use fw_bootloader.Device.Reply.{reply_frame}
use fw_bootloader.Commands.Fill.{Answered}
use fw_bootloader.Commands.Replies.{jl_su_write_flash_lem}
use fw_bootloader.Session.{recv_new_data, dispatch, handle, upgrade_round}

-- The payload of a write request, whose status byte the device does not read.
abbrev pub write_payload : ℕ → ℕ → List ℕ → List ℕ
write_payload pad address bytes = 0xC3 ∷ pad ∷ (le32 address ++ (le32 (length bytes) ++ bytes))

module _ {Fs : Type 0} (p : Platform Fs) (build : Build) (dev : Device Fs)
    (stack : 64 ≤ length (p.stack dev.events)) (buffer : length dev.dev_g_buf ≡ 64) where
  abbrev idle : Device Fs
  idle = record dev { new_data = 0 }

  pub opened_round :
      (ops : List ℕ)
      → (dev.new_data == 0) ≡ false
      → enc_cmd_data communication_key p.chip_crc16 dev.rx_buf dev.rx_len ≡ ok (some ops)
      → upgrade_round p build dev ≡ handle p build (some ops) idle
  unfolding upgrade_round recv_new_data
  opened_round ops flag e = rw (flag, e) refl

  wrote :
      (b0 b1 c d pad address : ℕ) (bytes behind : List ℕ)
      → address < 2 ^ 32
      → length bytes < 2 ^ 32
      → let (file, fs) = p.fseek dev.upgrade_file address dev.fs in
        let (r, file', fs') = p.write file (bytes ++ behind) (length bytes) fs in
        (after : Device Fs) × (handle p build
            (some (
              b0
              ∷ b1
              ∷ c
              ∷ d
              ∷ 0xC3
              ∷ pad
              ∷ (le32 address ++ (le32 (length bytes) ++ (bytes ++ behind)))))
            idle
          ≡ ok (false, after))
        × Answered p build idle
            (reply_frame p build (0xC3 ∷ (if r == length bytes then suss else write_error) ∷ []))
            fs'
            file'
            (ok after)
  unfolding handle dispatch
  wrote b0 b1 c d pad address bytes behind ha hl =
      let a =
        jl_su_write_flash_lem p build idle
          (b0
            ∷ b1
            ∷ c
            ∷ d
            ∷ 0xC3
            ∷ pad
            ∷ (le32 address ++ (le32 (length bytes) ++ (bytes ++ behind))))
          stack buffer address (length bytes) (ap ok (word32-le32 address ha))
          (ap ok (word32-le32 (length bytes) hl)) in
      (a.after, rw a.returns refl, subst (Answered p build idle _ _ _) a.returns a)

  -- A sealed write request behind bytes none of which is the sync mark 0xAA, received with the
  -- flag set, is carried out and answered in one round: the library is handed the address, and
  -- the request's data with its length, and the answer says whether it reported that many bytes
  -- written. The flag is then clear and the loop goes on. The data has at most 65525 bytes, the
  -- frame lies within the received length, which is below 2 ^ 31, the address is below 2 ^ 32,
  -- and the reply buffer and the array on the stack have 64 bytes.
  pub upgrade_round-write :
      (pre rest bytes : List ℕ) (pad address : ℕ)
      → (dev.new_data == 0) ≡ false
      → dev.rx_buf
        ≡ pre ++ (seal communication_key p.chip_crc16 (write_payload pad address bytes) ++ rest)
      → NoMark pre
      → address < 2 ^ 32
      → length bytes ≤ 65525
      → length pre + (length bytes + 16) ≤ dev.rx_len
      → dev.rx_len < 2 ^ 31
      → let behind =
          le16 (
            u16 (
              p.chip_crc16
                (sealed_head communication_key p.chip_crc16 (write_payload pad address bytes))))
          ++ rest in
        let (file, fs) = p.fseek dev.upgrade_file address dev.fs in
        let (r, file', fs') = p.write file (bytes ++ behind) (length bytes) fs in
        (after : Device Fs) × (upgrade_round p build dev ≡ ok (false, after))
        × Answered p build idle
            (reply_frame p build (0xC3 ∷ (if r == length bytes then suss else write_error) ∷ []))
            fs'
            file'
            (ok after)
  upgrade_round-write pre rest bytes pad address flag rx clean ha hb inside small =
      let payload = write_payload pad address bytes in
      let found =
        enc_cmd_data-seal communication_key p.chip_crc16 pre payload rest dev.rx_len clean
          (omega arith) (omega arith)
          (omega (arith, length-seal communication_key p.chip_crc16 payload)) small in
      let size = length payload in
      let crc = le16 (u16 (p.chip_crc16 (sealed_head communication_key p.chip_crc16 payload))) in
      let (after, e, a) =
        wrote 0xAA 0x55 (size % 256) (size / 256 % 256) pad address bytes (crc ++ rest) ha
          (omega arith) in
      (
        after,
        opened_round (opened communication_key p.chip_crc16 payload ++ rest) flag
              (ap (λ m. enc_cmd_data communication_key p.chip_crc16 m dev.rx_len) rx ∙ found)
            ∙ ap
                (λ x.
                  handle p build
                    (some (
                      0xAA
                      ∷ 0x55
                      ∷ size % 256
                      ∷ size / 256 % 256
                      ∷ 0xC3
                      ∷ pad
                      ∷ (le32 address ++ (le32 (length bytes) ++ x))))
                    idle)
                (append_assoc bytes crc rest)
            ∙ e,
        a,
      )
