-- ===== src/Host/Serial/Frames.antt =====
-- Sealed frames in the stream are found, whatever the cut.
use fw_bootloader.Common.{
  ℕ, ◌+◌, ◌/◌, ◌%◌, ◌^◌, ◌≤◌, ◌<◌, ◌≡◌, ◌≢◌, refl, ap, sym, ◌∙◌, List, [], ◌∷◌, ◌++◌, length, true,
  false, ◌&&◌, ltb, ◌==◌, ==_iff, lt→ltb, le-ltb, length-append, append_assoc, append-nil,
  take-length_append, drop-length_append, arith, u16, le16, word16, All,
}
use fw_bootloader.Protocol.Cipher.{encode, length-encode}
use fw_bootloader.Protocol.Scan.{seal, sealed_head}
use fw_bootloader.Protocol.RoundTrip.{NoMark, length-seal}
use fw_bootloader.Host.Crc.{crc16}
use fw_bootloader.Host.Crc.Laws.{crc16-lt}
use fw_bootloader.Host.Serial.{
  SerialPort, packet, check_packet, read_packet, parse_round, advance, from_head,
  remove_until_find_head, settle, reads,
}
use fw_bootloader.Host.Serial.Heads.{remove_at, remove_next}
use fw_bootloader.Host.Serial.Reads.{
  closed_port, packets, joined, settle_few, settle-run_out, run_out, run_round, reads-packets,
}

no_head : (a b : ℕ) → a ≢ 0xAA → (a == 0xAA && b == 0x55) ≡ false
no_head a b h = ground arith

remove_past :
    (a : ℕ) (buf : List ℕ)
    → a ≢ 0xAA
    → 2 ≤ length buf
    → remove_until_find_head (a ∷ buf) ≡ remove_until_find_head buf
remove_past a [] other two = absurd (omega arith)
remove_past a (x ∷ []) other two = absurd (omega arith)
remove_past a (x ∷ y ∷ buf) other two = remove_next a x y buf (no_head a x other)

remove-NoMark :
    (noise : List ℕ) (z : ℕ) (buf : List ℕ)
    → NoMark noise
    → remove_until_find_head (noise ++ 0xAA ∷ 0x55 ∷ z ∷ buf) ≡ 0xAA ∷ 0x55 ∷ z ∷ buf
remove-NoMark [] z buf clean = remove_at 0xAA 0x55 z buf refl
remove-NoMark (a ∷ noise) z buf clean =
    remove_past a (noise ++ 0xAA ∷ 0x55 ∷ z ∷ buf) clean.0
      (omega (arith, length-append noise (0xAA ∷ 0x55 ∷ z ∷ buf)))
    ∙ remove-NoMark noise z buf clean.1

module _ (key : ℕ) (payload rest : List ℕ) (fits : length payload < 2 ^ 16) where
  read_packet-seal :
      read_packet (seal key crc16 payload ++ rest) ≡ packet (encode key 0 payload) rest
  unfolding read_packet check_packet
  read_packet-seal =
      let body = encode key 0 payload in
      let w = u16 (crc16 (sealed_head key crc16 payload)) in
      let n = length payload in
      let size = length-encode key 0 payload in
      let len : word16 (n % 256) (n / 256 % 256) ≡ length body = omega (arith, size) in
      let room : ltb (4 + length (body ++ le16 w ++ rest)) (2 + 2 + length body + 2) ≡ false =
        le-ltb (4 + length (body ++ le16 w ++ rest)) (2 + 2 + length body + 2) (
          omega (
            arith,
            length-append body (le16 w ++ rest),
            length-append (body ++ le16 w) rest,
            length-append body (le16 w),
          )) in
      let right : (word16 (w % 256) (w / 256 % 256) == crc16 (sealed_head key crc16 payload))
          ≡ true =
        (==_iff _ _).1 (omega (arith, crc16-lt (sealed_head key crc16 payload))) in
      rw
        (
          len,
          room,
          append_assoc body (le16 w) rest,
          take-length_append body (le16 w ++ rest),
          drop-length_append body (le16 w ++ rest),
          right,
        )
        refl

  -- The first packet goes to the queue, and the bytes behind it are parsed on.
  settle-seal :
      (noise : List ℕ) (cmds : List (List ℕ))
      → NoMark noise
      → 1 ≤ length payload
      → settle
          (record { already_read = noise ++ (seal key crc16 payload ++ rest); remote_cmds = cmds })
        ≡ settle (record { already_read = rest; remote_cmds = cmds ++ encode key 0 payload ∷ [] })
  unfolding from_head parse_round advance
  settle-seal noise cmds clean one =
      let frame = seal key crc16 payload ++ rest in
      let size : ltb 6 (length frame) ≡ true = lt→ltb 6 (length frame) (
        omega
          (arith, length-append (seal key crc16 payload) rest, length-seal key crc16 payload)) in
      let port : SerialPort = record { already_read = frame; remote_cmds = cmds } in
      let next : SerialPort = record {
        already_read = rest;
        remote_cmds = cmds ++ encode key 0 payload ∷ [];
      } in
      settle-run_out (record { already_read = noise ++ frame; remote_cmds = cmds })
      ∙ ap (λ b. run_out (record { already_read = b; remote_cmds = cmds }))
          (remove-NoMark noise _ _ clean)
      ∙ run_round port (from_head next) (rw (size, read_packet-seal) refl)
      ∙ sym (settle-run_out next)

-- A stream of frames, each behind noise.
abbrev pub stream : ℕ → List (List ℕ × List ℕ) → List ℕ
stream key [] = []
stream key ((noise, payload) ∷ fs) = noise ++ (seal key crc16 payload ++ stream key fs)

abbrev pub Sendable : List ℕ × List ℕ → Type 0
Sendable (noise, payload) = NoMark noise × (1 ≤ length payload) × (length payload < 2 ^ 16)

abbrev pub encoded : ℕ → List (List ℕ × List ℕ) → List (List ℕ)
encoded key [] = []
encoded key ((noise, payload) ∷ fs) = encode key 0 payload ∷ encoded key fs

settle-stream :
    (key : ℕ) (fs : List (List ℕ × List ℕ)) (cmds : List (List ℕ))
    → All Sendable fs
    → (settle (record { already_read = stream key fs; remote_cmds = cmds })).remote_cmds
      ≡ cmds ++ encoded key fs
settle-stream key [] cmds ok =
    settle_few (record { already_read = []; remote_cmds = cmds }) (omega arith)
    ∙ sym (append-nil cmds)
settle-stream key ((noise, payload) ∷ fs) cmds ((clean, one, fits), more) =
    ap (λ p. p.remote_cmds) (settle-seal key payload (stream key fs) fits noise cmds clean one)
    ∙ settle-stream key fs (cmds ++ encode key 0 payload ∷ []) more
    ∙ append_assoc cmds (encode key 0 payload ∷ []) (encoded key fs)

-- The payloads of all frames of a stream are queued, in their order and each under the key, if none of
-- the bytes between the frames is the sync mark 0xAA and the payloads have 1 to 65535 bytes, however the
-- stream is cut into deliveries.
pub reads-stream :
    (key : ℕ) (fs : List (List ℕ × List ℕ)) (curs : List (List ℕ))
    → All Sendable fs
    → joined curs ≡ stream key fs
    → (reads curs closed_port).remote_cmds ≡ encoded key fs
reads-stream key fs curs sendable e =
    reads-packets curs ∙ ap packets e ∙ settle-stream key fs [] sendable
