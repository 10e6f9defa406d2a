-- ===== src/Protocol/RoundTrip.antt =====
-- What is sealed is opened: the scan finds the first frame behind bytes that are no sync mark.
use fw_bootloader.Common.{
  ℕ, zero, suc, ◌+◌, ◌-◌, ◌/◌, ◌%◌, ◌^◌, ◌≤◌, ◌<◌, ◌≡◌, ◌≢◌, refl, ap, ◌∙◌, List, [], ◌∷◌, ◌++◌,
  some, true, false, ltb, ◌==◌, ==_iff, length, drop, drop-suc, arith, length-append, All,
  append_assoc, u16, word16, le16,
}
use fw_bootloader.Common.Memory.{ok}
use native.Mathlib.Numerals.{add-one}
use fw_bootloader.Protocol.{check_frame, scan, enc_cmd_data}
use fw_bootloader.Protocol.Cipher.{encode, length-encode, encode-encode}
use fw_bootloader.Protocol.Scan.{
  header, seal, sealed_head, crc_bytes, opened, check_frame_at, scan_skip, scan_hit,
}

abbrev pub NoMark : List ℕ → Type 0
NoMark = All (λ x. x ≢ 0xAA)

module _ (key : ℕ) (chip_crc16 : List ℕ → ℕ) where
  pub length-seal : (payload : List ℕ) → length (seal key chip_crc16 payload) ≡ length payload + 6
  length-seal payload = omega (
    arith,
    length-append (encode key 0 payload) (crc_bytes key chip_crc16 payload),
    length-encode key 0 payload,
  )

  module _ (mem payload rest : List ℕ) (len : ℕ) (fits : length payload < 2 ^ 16)
      (small : len < 2 ^ 31) where
    check_frame-seal :
        (i : ℕ)
        → drop i mem ≡ seal key chip_crc16 payload ++ rest
        → i + length payload + 6 ≤ len
        → check_frame key chip_crc16 mem len i ≡ ok (some (opened key chip_crc16 payload ++ rest))
    check_frame-seal i e inside =
        let body = encode key 0 payload in
        let w = u16 (chip_crc16 (sealed_head key chip_crc16 payload)) in
        let c = length payload % 256 in
        let d = length payload / 256 % 256 in
        let lo = w % 256 in
        let hi = w / 256 % 256 in
        let same : length body ≡ word16 c d = omega (arith, length-encode key 0 payload) in
        let at : drop i mem ≡ 0xAA ∷ 0x55 ∷ c ∷ d ∷ (body ++ lo ∷ hi ∷ rest) =
          e ∙ ap (header (length payload)) (append_assoc body (le16 w) rest) in
        let right : (word16 lo hi == w) ≡ true = (==_iff (word16 lo hi) w).1 (omega arith) in
        check_frame_at key chip_crc16 mem i {a = 0xAA} {b = 0x55} {c = c} {d = d} lo hi len body
          rest same at (omega (arith, length-encode key 0 payload)) small
        ∙ (rw (right, encode-encode, append_assoc payload (le16 w) rest) refl)

    scan-seal :
        (pre : List ℕ) (left i : ℕ)
        → NoMark pre
        → drop i mem ≡ pre ++ (seal key chip_crc16 payload ++ rest)
        → i + length pre + length payload + 6 ≤ len
        → length pre < left
        → scan key chip_crc16 mem len left i ≡ ok (some (opened key chip_crc16 payload ++ rest))
    scan-seal pre zero i clean e inside room = absurd (omega arith)
    scan-seal [] (suc left) i clean e inside room =
        scan_hit key chip_crc16 mem i len left e ∙ check_frame-seal i e (omega arith)
    scan-seal (x ∷ pre) (suc left) i clean e inside room =
        scan_skip key chip_crc16 mem i len left e clean.0
        ∙ scan-seal pre left (i + 1) clean.1 (rw add-one (drop-suc i mem e)) (omega arith)
            (omega arith)

  -- The first frame of a received buffer, behind bytes none of which is the sync mark 0xAA, is
  -- found, its CRC accepted, and its payload handed over decoded and otherwise unchanged, if the
  -- payload has at least two bytes and at most 65535 and the frame lies within the received
  -- length, which is below 2 ^ 31.
  pub enc_cmd_data-seal :
      (pre payload rest : List ℕ) (len : ℕ)
      → NoMark pre
      → 2 ≤ length payload
      → length payload < 2 ^ 16
      → length pre + length (seal key chip_crc16 payload) ≤ len
      → len < 2 ^ 31
      → enc_cmd_data key chip_crc16 (pre ++ (seal key chip_crc16 payload ++ rest)) len
        ≡ ok (some (opened key chip_crc16 payload ++ rest))
  unfolding enc_cmd_data
  enc_cmd_data-seal pre payload rest len clean two fits inside small =
      let size = length-seal payload in
      let enough : ltb len (2 + 2 + 2 + 2) ≡ false = ground arith in
      rw enough (
        scan-seal (pre ++ (seal key chip_crc16 payload ++ rest)) payload rest len fits small pre
          (len - 7) 0 clean refl (omega (arith, size)) (omega (arith, size)))
