-- ===== src/Device/Reply.antt =====
-- What leaves as a reply: the sealed payload, and nothing if it does not fit the 64 bytes.
use fw_bootloader.Common.{
  ℕ, suc, ◌+◌, ◌/◌, ◌%◌, ◌≤◌, ◌<◌, ◌≡◌, refl, ap, sym, ◌∙◌, List, [], ◌∷◌, ◌++◌, leb, Bool-cases,
  inl, inr, if◌then◌else◌, length, take, drop, arith, length-append, length-take,
  take-length_append, append_assoc, u8, u16, u32, word16, le16,
}
use fw_bootloader.Common.Memory.{
  Result, ok, fault, ◌>>=◌, slice, splice, slice-ok, slice-fault, splice-fault, slice-append,
  splice_front, splice-append, splice_second, length-splice, Result-cases,
}
use fw_bootloader.Protocol.{communication_key, enc_dec_data}
use fw_bootloader.Protocol.Cipher.{
  encode, length-encode, enc_dec_data-append, length-enc_dec_data, enc_dec_data-le,
}
use fw_bootloader.Protocol.Scan.{seal, sealed_head}
use fw_bootloader.Platform.{Event, send, Platform, Build}
use fw_bootloader.Device.{Device, log_event, poke, upgrade_rsp, set_remain_and_upgrade_rsp}

module _ {Fs : Type 0} (p : Platform Fs) (build : Build) where
  -- The frame of a payload under the device's key.
  abbrev pub reply_frame : List ℕ → List ℕ
  reply_frame payload = seal communication_key p.chip_crc16 payload

  -- What goes through the link for `frame`: in the USB build a report of 64 bytes.
  abbrev pub on_link : List Event → List ℕ → List ℕ
  on_link before frame =
      if build.usb_mode then frame ++ drop (length frame) (take 64 (p.stack before)) else frame

  module _ (dev : Device Fs) (stack_size : 64 ≤ length (p.stack dev.events)) where
    upgrade_rsp_lem :
        (frame rest : List ℕ) (n : ℕ)
        → n ≡ length frame
        → n ≤ 64
        → upgrade_rsp p build (frame ++ rest) n dev
          ≡ ok (log_event (send (on_link dev.events frame)) dev)
    unfolding upgrade_rsp
    upgrade_rsp_lem frame rest n size fits =
        let tx : length (take 64 (p.stack dev.events)) ≡ 64 =
          omega (arith, length-take 64 (p.stack dev.events)) in
        rw (
          slice-append frame rest n size,
          splice_front (take 64 (p.stack dev.events)) frame (omega arith),
          size,
          take-length_append frame (drop (length frame) (take 64 (p.stack dev.events))),
        )

    upgrade_rsp-fault : (mem : List ℕ) (n : ℕ) → 64 < n → upgrade_rsp p build mem n dev ≡ fault
    unfolding upgrade_rsp
    upgrade_rsp-fault mem n over = elim (Bool-cases (leb n (length mem))) [
      | inl t ↦ rw (
        slice-ok mem 0 n (ground arith),
        splice-fault (take 64 (p.stack dev.events)) 0 (take n mem) (too_many (ground arith)),
      )
      | inr t ↦ rw (slice-fault mem 0 n (ground arith))
    ]
      where
        too_many : n ≤ length mem → length (take 64 (p.stack dev.events)) < 0 + length (take n mem)
        too_many h = omega (arith, length-take n mem, length-take 64 (p.stack dev.events))

  -- The buffer as a header, a payload without its first byte, and what is behind.
  module _ (dev : Device Fs) (stack_size : 64 ≤ length (p.stack dev.events)) {b0 b1 c d b4 : ℕ}
      (tail rest : List ℕ) (r0 r1 cmd : ℕ)
      (at : dev.dev_g_buf ≡ b0 ∷ b1 ∷ c ∷ d ∷ b4 ∷ (tail ++ r0 ∷ r1 ∷ rest))
      (low : suc (length tail) % 256 ≡ c) (high : suc (length tail) / 256 % 256 ≡ d)
      (fits : length tail ≤ 57) where
    abbrev body : List ℕ
    body = encode communication_key 0 (u8 cmd ∷ tail)

    abbrev head : List ℕ
    head = 0xAA ∷ 0x55 ∷ c ∷ d ∷ body

    abbrev crc : ℕ
    crc = u16 (p.chip_crc16 head)

    abbrev end : ℕ
    end = u16 (1 + 1 + 2 + word16 c d)

    end-eq : end ≡ length head
    end-eq = omega (arith, length-encode communication_key 1 tail)

    after_crc :
        splice (head ++ r0 ∷ r1 ∷ rest) end (crc % 256 ∷ []) ≡ ok (head ++ crc % 256 ∷ r1 ∷ rest)
    after_crc = splice-append head (r0 ∷ []) (r1 ∷ rest) (crc % 256 ∷ []) end end-eq refl

    after_crc_high :
        splice (head ++ crc % 256 ∷ r1 ∷ rest) (end + 1) (crc / 256 ∷ [])
        ≡ ok ((head ++ le16 crc) ++ rest)
    after_crc_high =
        let top : crc / 256 % 256 ≡ crc / 256 = omega arith in
        rw (append_assoc head (le16 crc) rest, top)
          (splice_second head rest (crc % 256) r1 (crc / 256) (end + 1) (omega (arith, end-eq)))

    encoded :
        enc_dec_data communication_key (u8 cmd ∷ (tail ++ r0 ∷ r1 ∷ rest)) (word16 c d)
        ≡ ok (body ++ r0 ∷ r1 ∷ rest)
    encoded =
        enc_dec_data-append communication_key (u8 cmd ∷ tail) (r0 ∷ r1 ∷ rest) {n = word16 c d}
          (omega arith)

    head_eq : sealed_head communication_key p.chip_crc16 (u8 cmd ∷ tail) ≡ head
    head_eq = cc (low, high)

    whole : reply_frame (u8 cmd ∷ tail) ≡ head ++ le16 crc
    whole = ap (λ h. h ++ le16 (u16 (p.chip_crc16 h))) head_eq

    size : u32 (end + 2) ≡ length (head ++ le16 crc)
    size = omega (arith, end-eq, length-append head (le16 crc))

    small : u32 (end + 2) ≤ 64
    small = omega (arith, end-eq, length-encode communication_key 1 tail)

    -- When the buffer holds a cmd_len of at most 58, that many bytes from the command on, and two
    -- more for the CRC, the reply that leaves is the sealed payload: the command, then what stood
    -- behind it in the buffer, cmd_len bytes in all. It goes out as one packet, and nothing else
    -- changes. The array on the stack has 64 bytes.
    pub respond :
        set_remain_and_upgrade_rsp p build cmd dev
        ≡ ok (
            log_event
              (send (on_link dev.events (reply_frame (u8 cmd ∷ tail))))
              (record dev { dev_g_buf = reply_frame (u8 cmd ∷ tail) ++ rest }))
    unfolding set_remain_and_upgrade_rsp poke
    respond =
        rw
          (
            at,
            splice-append [] (b0 ∷ b1 ∷ []) (c ∷ d ∷ b4 ∷ (tail ++ r0 ∷ r1 ∷ rest))
                (0xAA ∷ 0x55 ∷ []) 0 refl refl,
            splice-append (0xAA ∷ 0x55 ∷ c ∷ d ∷ []) (b4 ∷ []) (tail ++ r0 ∷ r1 ∷ rest)
                (u8 cmd ∷ []) 4 refl refl,
            encoded,
            slice-append head (r0 ∷ r1 ∷ rest) end end-eq,
            after_crc,
            after_crc_high,
          )
          (upgrade_rsp_lem (record dev { dev_g_buf = (head ++ le16 crc) ++ rest }) stack_size
              (head ++ le16 crc) rest (u32 (end + 2)) size small
            ∙ ap
                (λ f.
                  ok (
                    log_event (send (on_link dev.events f)) (record dev { dev_g_buf = f ++ rest })))
                (sym whole))

  module _ (dev : Device Fs) {b0 b1 c d b4 : ℕ} (tl : List ℕ)
      (at : dev.dev_g_buf ≡ b0 ∷ b1 ∷ c ∷ d ∷ b4 ∷ tl) (size : length dev.dev_g_buf ≡ 64)
      (over : 58 < word16 c d) where
    abbrev marked : ℕ → List ℕ
    marked x = 0xAA ∷ 0x55 ∷ c ∷ d ∷ x ∷ tl

    tl_size : length tl ≡ 59
    tl_size = omega (arith, ap length at)

    crc_outside :
        (buf : List ℕ) (n w v : ℕ) (k : List ℕ → Result (Device Fs))
        → length buf ≡ 64
        → 63 ≤ n
        → (splice buf n (w ∷ []) >>= λ buf1. splice buf1 (n + 1) (v ∷ []) >>= k) ≡ fault
    crc_outside buf n w v k h far = elim (Result-cases (splice buf n (w ∷ []))) [
      | inl e ↦ rw e
      | inr (buf1, e) ↦
          rw (e, splice-fault buf1 (n + 1) (v ∷ []) (omega (arith, length-splice buf n (w ∷ []) e)))
    ]

    -- The part of `set_remain_and_upgrade_rsp` behind the encoding.
    sealed_outside :
        (buf : List ℕ) (k : List ℕ → List ℕ → Result (Device Fs))
        → length buf ≡ 64
        → word16 c d ≤ 60
        → (slice buf 0 (u16 (1 + 1 + 2 + word16 c d)) >>= λ head.
            splice buf (u16 (1 + 1 + 2 + word16 c d)) (u16 (p.chip_crc16 head) % 256 ∷ [])
            >>= λ buf1.
                splice buf1 (u16 (1 + 1 + 2 + word16 c d) + 1) (u16 (p.chip_crc16 head) / 256 ∷ [])
                >>= k head)
          ≡ fault
    sealed_outside buf k h small =
        elim (Result-cases (slice buf 0 (u16 (1 + 1 + 2 + word16 c d)))) [
          | inl e ↦ rw e
          | inr (head, e) ↦ rw e (
              crc_outside buf (u16 (1 + 1 + 2 + word16 c d)) (u16 (p.chip_crc16 head) % 256)
                (u16 (p.chip_crc16 head) / 256) (k head) h (omega arith))
        ]

    -- With a buffer of 64 bytes and a cmd_len above 58 `set_remain_and_upgrade_rsp` accesses memory
    -- outside the buffer or the packet.
    pub respond-fault : (cmd : ℕ) → set_remain_and_upgrade_rsp p build cmd dev ≡ fault
    unfolding set_remain_and_upgrade_rsp poke
    respond-fault cmd =
        rw
          (
            at,
            splice-append [] (b0 ∷ b1 ∷ []) (c ∷ d ∷ b4 ∷ tl) (0xAA ∷ 0x55 ∷ []) 0 refl refl,
            splice-append (0xAA ∷ 0x55 ∷ c ∷ d ∷ []) (b4 ∷ []) tl (u8 cmd ∷ []) 4 refl refl,
          )
          (elim (Result-cases (enc_dec_data communication_key (u8 cmd ∷ tl) (word16 c d))) [
            | inl e ↦ rw e
            | inr (body, e) ↦ rw e (
                sealed_outside (0xAA ∷ 0x55 ∷ c ∷ d ∷ body)
                  (λ head buf2.
                    upgrade_rsp p build buf2 (u32 (u16 (1 + 1 + 2 + word16 c d) + 2))
                      (record dev { dev_g_buf = buf2 }))
                  (omega
                    (arith, tl_size, length-enc_dec_data communication_key (u8 cmd ∷ tl) body _ e))
                  (omega
                    (arith, tl_size, enc_dec_data-le communication_key (u8 cmd ∷ tl) body _ e)))
          ])
