-- ===== src/Protocol/Scan.antt =====
-- `enc_cmd_data` against frames: what `seal` makes of a payload, the scan finds and opens.
use fw_bootloader.Common.{
  ℕ, suc, ◌+◌, ◌/◌, ◌%◌, ◌^◌, ◌≤◌, ◌<◌, ◌≡◌, ◌≢◌, refl, ap, ◌∙◌, List, ◌∷◌, ◌++◌, none, some, true,
  false, ltb, ◌==◌, if◌then◌else◌, length, drop, get_elem?, arith, length-append, length-drop,
  drop-drop, get_elem?-append_right, take-length_append, get_elem?-drop, u16, u32, word16, le16,
}
use fw_bootloader.Common.Memory.{ok, load16, slice, slice-ok}
use fw_bootloader.Protocol.{accept, check_crc, check_frame, is_sync, scan}
use fw_bootloader.Protocol.Cipher.{encode, enc_dec_data-append}

-- What stands in front of the CRC of a frame.
abbrev pub header : ℕ → List ℕ → List ℕ
header n body = 0xAA ∷ 0x55 ∷ n % 256 ∷ n / 256 % 256 ∷ body

module _ (key : ℕ) (chip_crc16 : List ℕ → ℕ) where
  abbrev pub sealed_head : List ℕ → List ℕ
  sealed_head payload = header (length payload) (encode key 0 payload)

  abbrev pub crc_bytes : List ℕ → List ℕ
  crc_bytes payload = le16 (u16 (chip_crc16 (sealed_head payload)))

  -- The frame of a payload: cmd, rsp_status and the parameters.
  abbrev pub seal : List ℕ → List ℕ
  seal payload = sealed_head payload ++ crc_bytes payload

  -- The same with the payload open, as the returned pointer shows it.
  abbrev pub opened : List ℕ → List ℕ
  opened payload = header (length payload) payload ++ crc_bytes payload

pub get_elem?-at :
    (mem : List ℕ) (i j k : ℕ) → j ≡ i + k → get_elem? mem j ≡ get_elem? (drop i mem) k
get_elem?-at mem i j k e = rw (e, get_elem?-drop i k mem)

-- What the reads of the scan at index `i` give, from the memory there.
module _ (mem : List ℕ) (i : ℕ) where
  pub cmd_len_at :
      {a b c d : ℕ} {rest : List ℕ}
      → drop i mem ≡ a ∷ b ∷ c ∷ d ∷ rest
      → load16 mem (i + 2) ≡ ok (word16 c d)
  cmd_len_at e =
      rw (get_elem?-at mem i (i + 2) 2 refl, get_elem?-at mem i (i + 2 + 1) 3 (omega arith), e)

  is_sync_at : {rest : List ℕ} → drop i mem ≡ 0xAA ∷ 0x55 ∷ rest → is_sync mem i ≡ ok true
  unfolding is_sync
  is_sync_at e = rw (get_elem?-at mem i i 0 (omega arith), get_elem?-at mem i (i + 1) 1 refl, e)

  not_sync_at :
      {x : ℕ} {rest : List ℕ} → drop i mem ≡ x ∷ rest → x ≢ 0xAA → is_sync mem i ≡ ok false
  unfolding is_sync
  not_sync_at {x} e ne = rw (get_elem?-at mem i i 0 (omega arith), e) (ground arith)

  -- The byte `k` places behind a header and `body`.
  after_body :
      {a b c d n : ℕ} (j k : ℕ) (body rest : List ℕ)
      → length body ≡ n
      → drop i mem ≡ a ∷ b ∷ c ∷ d ∷ (body ++ rest)
      → j ≡ i + 2 + 2 + n + k
      → get_elem? mem j ≡ get_elem? rest k
  after_body j k body rest len e at =
      get_elem?-at mem i j (suc (suc (suc (suc (length body + k))))) (omega arith)
      ∙ (rw e (get_elem?-append_right body rest k))

  slice_at :
      {a b c d n : ℕ} (body rest : List ℕ)
      → length body ≡ n
      → drop i mem ≡ a ∷ b ∷ c ∷ d ∷ (body ++ rest)
      → slice mem i (2 + 2 + n) ≡ ok (a ∷ b ∷ c ∷ d ∷ body)
  slice_at {a} {b} {c} {d} {n} body rest len e =
      let bound : i + (2 + 2 + n) ≤ length mem =
        omega (arith, ap length e, length-drop i mem, length-append body rest) in
      let four : 2 + 2 + n ≡ suc (suc (suc (suc (length body)))) = omega arith in
      slice-ok mem i (2 + 2 + n) bound
      ∙ ap ok (rw (e, four) (ap (λ l. a ∷ b ∷ c ∷ d ∷ l) (take-length_append body rest)))

module _ (key : ℕ) (chip_crc16 : List ℕ → ℕ) (mem : List ℕ) (i : ℕ) where
  accept_at :
      {a b c d n : ℕ} (body rest : List ℕ)
      → length body ≡ n
      → drop i mem ≡ a ∷ b ∷ c ∷ d ∷ (body ++ rest)
      → accept key chip_crc16 mem i n ≡ ok (some (a ∷ b ∷ c ∷ d ∷ (encode key 0 body ++ rest)))
  unfolding accept
  accept_at body rest len e = rw (drop-drop i 4 mem, e, enc_dec_data-append key body rest len)

  -- With the right CRC behind it the body is decoded.
  check_crc_at :
      {a b c d n : ℕ} (lo hi : ℕ) (body rest : List ℕ)
      → length body ≡ n
      → drop i mem ≡ a ∷ b ∷ c ∷ d ∷ (body ++ lo ∷ hi ∷ rest)
      → check_crc key chip_crc16 mem i n ≡ (
          if word16 lo hi == u16 (chip_crc16 (a ∷ b ∷ c ∷ d ∷ body))
          then ok (some (a ∷ b ∷ c ∷ d ∷ (encode key 0 body ++ lo ∷ hi ∷ rest)))
          else ok none)
  unfolding check_crc
  check_crc_at {n = n} lo hi body rest len e = rw (
    after_body mem i (i + 2 + 2 + n) 0 body (lo ∷ hi ∷ rest) len e (omega arith),
    after_body mem i (i + 2 + 2 + n + 1) 1 body (lo ∷ hi ∷ rest) len e (omega arith),
    slice_at mem i body (lo ∷ hi ∷ rest) len e,
    accept_at body (lo ∷ hi ∷ rest) len e,
  )

  -- The whole body of the scan at a header whose frame lies within the received bytes.
  pub check_frame_at :
      {a b c d : ℕ} (lo hi len : ℕ) (body rest : List ℕ)
      → length body ≡ word16 c d
      → drop i mem ≡ a ∷ b ∷ c ∷ d ∷ (body ++ lo ∷ hi ∷ rest)
      → i + length body + 6 ≤ len
      → len < 2 ^ 31
      → check_frame key chip_crc16 mem len i ≡ (
          if word16 lo hi == u16 (chip_crc16 (a ∷ b ∷ c ∷ d ∷ body))
          then ok (some (a ∷ b ∷ c ∷ d ∷ (encode key 0 body ++ lo ∷ hi ∷ rest)))
          else ok none)
  unfolding check_frame
  check_frame_at {c = c} {d} lo hi len body rest e at fits small =
      let within : ltb len (u32 (i + 2 + 2 + word16 c d + 2)) ≡ false = ground arith in
      rw (cmd_len_at mem i at, within) (check_crc_at lo hi body rest e at)

  -- The scan passes over bytes that are no sync mark.
  pub scan_skip :
      (len left : ℕ) {x : ℕ} {rest : List ℕ}
      → drop i mem ≡ x ∷ rest
      → x ≢ 0xAA
      → scan key chip_crc16 mem len (suc left) i ≡ scan key chip_crc16 mem len left (i + 1)
  unfolding scan
  scan_skip len left e ne = rw (not_sync_at mem i e ne)

  pub scan_hit :
      (len left : ℕ) {rest : List ℕ}
      → drop i mem ≡ 0xAA ∷ 0x55 ∷ rest
      → scan key chip_crc16 mem len (suc left) i ≡ check_frame key chip_crc16 mem len i
  unfolding scan
  scan_hit len left e = rw (is_sync_at mem i e)
