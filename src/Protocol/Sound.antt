-- ===== src/Protocol/Sound.antt =====
-- `enc_cmd_data` reads nothing beyond the received bytes, and accepts sealed payloads only.
use fw_bootloader.Common.{
  ℕ, zero, suc, ◌+◌, ◌-◌, ◌/◌, ◌%◌, ◌^◌, ◌≤◌, ◌<◌, ◌≡◌, refl, ap, sym, ◌∙◌, List, [], ◌∷◌, ◌++◌,
  ◌⊎◌, inl, inr, Option, none, some, true, ◌&&◌, ltb, ◌==◌, if◌then◌else◌, ==_iff, length, drop,
  arith, length-append, length-drop, All-drop, append_assoc, u16, u32, word16, le16, Bool-cases,
}
use fw_bootloader.Common.Memory.{Result, ok}
use fw_bootloader.Protocol.{is_sync, check_frame, scan, enc_cmd_data}
use fw_bootloader.Protocol.Cipher.{encode, length-encode, encode-encode}
use fw_bootloader.Protocol.Cut.{IsBytes, TailOf, cut_tail, HeaderOf, cut_header}
use fw_bootloader.Protocol.Scan.{
  seal, sealed_head, opened, check_frame_at, cmd_len_at, get_elem?-at,
}

module _ (key : ℕ) (chip_crc16 : List ℕ → ℕ) (mem : List ℕ) (len : ℕ) where
  -- A sealed payload lies within the received bytes, and `p` is the memory from there on with that
  -- payload open.
  pub record Found (p : List ℕ) : Type 0 where
    pub index : ℕ
    pub payload : List ℕ
    pub rest : List ℕ
    pub at : drop index mem ≡ seal key chip_crc16 payload ++ rest
    pub inside : index + length (seal key chip_crc16 payload) ≤ len
    pub result : p ≡ opened key chip_crc16 payload ++ rest

  -- The code returns, with NULL or with a frame that is there.
  abbrev pub Outcome : Result (Option (List ℕ)) → Type 0
  Outcome r = (r ≡ ok none) ⊎ ((p : List ℕ) × (r ≡ ok (some p)) × Found p)

  found :
      (i lo hi : ℕ) (body rest : List ℕ) {a b c d : ℕ}
      → a ≡ 0xAA
      → b ≡ 0x55
      → c < 256
      → d < 256
      → lo < 256
      → hi < 256
      → length body ≡ word16 c d
      → drop i mem ≡ a ∷ b ∷ c ∷ d ∷ (body ++ lo ∷ hi ∷ rest)
      → i + length body + 6 ≤ len
      → word16 lo hi ≡ u16 (chip_crc16 (a ∷ b ∷ c ∷ d ∷ body))
      → Found (a ∷ b ∷ c ∷ d ∷ (encode key 0 body ++ lo ∷ hi ∷ rest))
  found i lo hi body rest {a} {b} {c} {d} ea eb hc hd hl hh size at fits crc = record {
    index = i;
    payload = encode key 0 body;
    rest = rest;
    at = cc (at, ap (λ l. l ++ rest) whole, append_assoc body (lo ∷ hi ∷ []) rest);
    inside = omega (arith, ap length whole, length-append body (lo ∷ hi ∷ []));
    result = cc (append_assoc (encode key 0 body) (le16 w) rest, low, high, lo_eq, hi_eq);
  }
    where
      w : ℕ
      w = u16 (chip_crc16 (sealed_head key chip_crc16 (encode key 0 body)))

      low : length (encode key 0 body) % 256 ≡ c
      low = omega (arith, length-encode key 0 body)

      high : length (encode key 0 body) / 256 % 256 ≡ d
      high = omega (arith, length-encode key 0 body)

      head : sealed_head key chip_crc16 (encode key 0 body) ≡ a ∷ b ∷ c ∷ d ∷ body
      head = cc (encode-encode key 0 body, low, high)

      w_eq : word16 lo hi ≡ w
      w_eq = crc ∙ ap (λ l. u16 (chip_crc16 l)) (sym head)

      lo_eq : w % 256 ≡ lo
      lo_eq = omega (arith, w_eq)

      hi_eq : w / 256 % 256 ≡ hi
      hi_eq = omega (arith, w_eq)

      whole : seal key chip_crc16 (encode key 0 body) ≡ a ∷ b ∷ c ∷ d ∷ (body ++ lo ∷ hi ∷ [])
      whole = cc (encode-encode key 0 body, low, high, lo_eq, hi_eq)

  module _ (bytes : IsBytes mem) (room : len ≤ length mem) (small : len < 2 ^ 31) where
    header_at : (i : ℕ) → i + 8 ≤ len → HeaderOf (drop i mem)
    header_at i h =
        cut_header (drop i mem) (All-drop (λ x. x < 256) i mem bytes)
          (omega (arith, length-drop i mem))

    scan_step :
        (left i : ℕ) {a b : ℕ} {rest : List ℕ}
        → drop i mem ≡ a ∷ b ∷ rest
        → scan key chip_crc16 mem len (suc left) i ≡ (
            if (a == 0xAA) && (b == 0x55)
            then check_frame key chip_crc16 mem len i
            else scan key chip_crc16 mem len left (i + 1))
    unfolding scan is_sync
    scan_step left i e =
        rw (get_elem?-at mem i i 0 (omega arith), get_elem?-at mem i (i + 1) 1 refl, e)
          (ground arith)

    -- A frame whose cmd_len stays within the received bytes, with the test of its CRC.
    checked_frame :
        (i lo hi : ℕ) (body rest : List ℕ) {a b c d : ℕ}
        → a ≡ 0xAA
        → b ≡ 0x55
        → c < 256
        → d < 256
        → lo < 256
        → hi < 256
        → length body ≡ word16 c d
        → drop i mem ≡ a ∷ b ∷ c ∷ d ∷ (body ++ lo ∷ hi ∷ rest)
        → i + length body + 6 ≤ len
        → Outcome (check_frame key chip_crc16 mem len i)
    checked_frame i lo hi body rest {a} {b} {c} {d} ea eb hc hd hl hh size at fits =
        elim (Bool-cases (word16 lo hi == u16 (chip_crc16 (a ∷ b ∷ c ∷ d ∷ body)))) [
          | inl t ↦ inr (
            a ∷ b ∷ c ∷ d ∷ (encode key 0 body ++ lo ∷ hi ∷ rest),
            whole ∙ (rw t),
            found i lo hi body rest ea eb hc hd hl hh size at fits ((==_iff (word16 lo hi) _).0 t),
          )
          | inr t ↦ inl (whole ∙ (rw t))
        ]
      where
        whole : check_frame key chip_crc16 mem len i ≡ (
            if word16 lo hi == u16 (chip_crc16 (a ∷ b ∷ c ∷ d ∷ body))
            then ok (some (a ∷ b ∷ c ∷ d ∷ (encode key 0 body ++ lo ∷ hi ∷ rest)))
            else ok none)
        whole = check_frame_at key chip_crc16 mem i lo hi len body rest size at fits small

    too_long :
        (i : ℕ) {a b c d : ℕ} {rest : List ℕ}
        → drop i mem ≡ a ∷ b ∷ c ∷ d ∷ rest
        → ltb len (u32 (i + 2 + 2 + word16 c d + 2)) ≡ true
        → check_frame key chip_crc16 mem len i ≡ ok none
    unfolding check_frame
    too_long i e t = rw (cmd_len_at mem i e, t)

    within_room :
        (i n : ℕ) {c d : ℕ} {r : List ℕ}
        → drop i mem ≡ 0xAA ∷ 0x55 ∷ c ∷ d ∷ r
        → i + n + 6 ≤ len
        → n + 2 ≤ length r
    within_room i n e h = omega (arith, ap length e, length-drop i mem)

    check_frame_outcome :
        (i : ℕ) {c d : ℕ} {r : List ℕ}
        → i + 8 ≤ len
        → c < 256
        → d < 256
        → IsBytes r
        → drop i mem ≡ 0xAA ∷ 0x55 ∷ c ∷ d ∷ r
        → Outcome (check_frame key chip_crc16 mem len i)
    check_frame_outcome i {c} {d} {r} h hc hd hr e =
        elim (Bool-cases (ltb len (u32 (i + 2 + 2 + word16 c d + 2)))) [
          | inl t ↦ inl (too_long i e t)
          | inr t ↦ inside (ground arith)
        ]
      where
        cut : i + word16 c d + 6 ≤ len → TailOf (word16 c d) r
        cut fits = cut_tail (word16 c d) r hr (within_room i (word16 c d) e fits)

        on :
            TailOf (word16 c d) r
            → i + word16 c d + 6 ≤ len
            → Outcome (check_frame key chip_crc16 mem len i)
        on t fits =
            checked_frame i t.lo t.hi t.body t.rest {a = 0xAA} {b = 0x55} {c = c} {d = d} refl refl
              hc hd t.small_bytes.0 t.small_bytes.1 t.size
              (e ∙ ap (λ l. 0xAA ∷ 0x55 ∷ c ∷ d ∷ l) t.at) (omega (arith, t.size))

        inside : i + word16 c d + 6 ≤ len → Outcome (check_frame key chip_crc16 mem len i)
        inside fits = on (cut fits) fits

    scan_outcome : (left i : ℕ) → i + left + 7 ≤ len → Outcome (scan key chip_crc16 mem len left i)
    scan_outcome zero i h = unfold scan in inl refl
    scan_outcome (suc left) i h =
        go (header_at i (omega arith)) (scan_outcome left (i + 1) (omega arith))
      where
        go :
            HeaderOf (drop i mem)
            → Outcome (scan key chip_crc16 mem len left (i + 1))
            → Outcome (scan key chip_crc16 mem len (suc left) i)
        go f rest = elim (Bool-cases ((f.a == 0xAA) && (f.b == 0x55))) [
          | inl t ↦
              rw (scan_step left i f.start, t)
                (check_frame_outcome i (omega arith) f.small_bytes.0 f.small_bytes.1 f.tail_bytes
                  (f.start ∙ marks t))
          | inr t ↦ rw (scan_step left i f.start, t) rest
        ]
          where
            marks :
                ((f.a == 0xAA) && (f.b == 0x55)) ≡ true
                → f.a ∷ f.b ∷ f.c ∷ f.d ∷ f.tail ≡ 0xAA ∷ 0x55 ∷ f.c ∷ f.d ∷ f.tail
            marks t = ground arith

    -- On received bytes that lie in memory, less than 2 ^ 31 of them, `enc_cmd_data` always
    -- returns, reading inside the memory. If it returns a pointer, then a sealed payload lies
    -- there within the received length, and what the pointer shows is that payload decoded, all
    -- else unchanged.
    pub enc_cmd_data_sound : Outcome (enc_cmd_data key chip_crc16 mem len)
    unfolding enc_cmd_data
    enc_cmd_data_sound = elim (Bool-cases (ltb len (2 + 2 + 2 + 2))) [
      | inl t ↦ rw t (inl refl)
      | inr t ↦ rw t (scan_outcome (len - 7) 0 (ground arith))
    ]
