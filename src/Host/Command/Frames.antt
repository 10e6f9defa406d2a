-- ===== src/Host/Command/Frames.antt =====
-- A frame of `makeCommand` is a sealed payload, and what the device sealed `decodeCommand` opens.
use fw_bootloader.Common.{
  ℕ, zero, suc, ◌+◌, ◌-◌, ◌/◌, ◌%◌, ◌^◌, ◌<◌, ◌≡◌, refl, ap, sym, ◌∙◌, List, [], ◌∷◌, ◌++◌, length,
  take, drop, replicate, length-replicate, length-append, length-take, length-drop,
  take-append-drop, append_assoc, append-nil, arith, u8, u16, u32,
}
use fw_bootloader.Common.Memory.{ok, splice, splice-append, slice-append, splice_second}
use fw_bootloader.Protocol.Cipher.{encode, length-encode, encode-encode}
use fw_bootloader.Protocol.Scan.{seal, sealed_head}
use fw_bootloader.Host.Crc.{crc16}
use fw_bootloader.Host.Crc.Laws.{crc16-lt}
use fw_bootloader.Host.Command.{
  body_len, copy_bodys, xor_key, make_command, rsp_succ, decode_command,
}

abbrev pub concat : List (List ℕ) → List ℕ
concat [] = []
concat (v ∷ bodys) = v ++ concat bodys

body_len-concat :
    (sum : ℕ) (bodys : List (List ℕ))
    → sum + length (concat bodys) < 2 ^ 32
    → body_len sum bodys ≡ sum + length (concat bodys)
unfolding body_len
body_len-concat sum [] small = omega arith
body_len-concat sum (v ∷ bodys) small =
    let size = length-append v (concat bodys) in
    let whole : u32 (sum + length v) ≡ sum + length v = omega (arith, size) in
    ap (λ n. body_len n bodys) whole
    ∙ body_len-concat (sum + length v) bodys (omega (arith, size))
    ∙ omega (arith, size)

-- The bodies take the place of as many bytes.
copy_bodys-concat :
    (bodys : List (List ℕ)) (at : ℕ) (pre old rest : List ℕ)
    → at ≡ length pre
    → length old ≡ length (concat bodys)
    → copy_bodys at bodys (pre ++ (old ++ rest)) ≡ ok (pre ++ (concat bodys ++ rest))
unfolding copy_bodys
copy_bodys-concat [] at pre [] rest e size = refl
copy_bodys-concat [] at pre (x ∷ old) rest e size = absurd (omega arith)
copy_bodys-concat (v ∷ bodys) at pre old rest e size =
    let n = length v in
    let split = length-append v (concat bodys) in
    let front : length (take n old) ≡ n = omega (arith, length-take n old, split, size) in
    let back : length (drop n old) ≡ length (concat bodys) =
      omega (arith, length-drop n old, split, size) in
    let parts : pre ++ (old ++ rest) ≡ pre ++ (take n old ++ (drop n old ++ rest)) =
      ap (λ o. pre ++ (o ++ rest)) (sym (take-append-drop n old))
      ∙ ap (λ o. pre ++ o) (append_assoc (take n old) (drop n old) rest) in
    let write =
      ap (λ p. splice p at v) parts
      ∙ splice-append pre (take n old) (drop n old ++ rest) v at e front
      ∙ ap ok (sym (append_assoc pre v (drop n old ++ rest))) in
    rw (write, append_assoc v (concat bodys) rest, ← append_assoc pre v (concat bodys ++ rest))
      (copy_bodys-concat bodys (at + length v) (pre ++ v) (drop n old) rest
        (omega (arith, length-append pre v)) back)

xor_key-append :
    (key i : ℕ) (xs ys : List ℕ) → xor_key key (length xs) i (xs ++ ys) ≡ ok (encode key i xs ++ ys)
unfolding xor_key
xor_key-append key i [] ys = refl
xor_key-append key i (x ∷ xs) ys = rw (xor_key-append key (i + 1) xs ys)

-- Every command is decoded.
pub decode_command_lem : (key : ℕ) (cmd : List ℕ) → decode_command key cmd ≡ ok (encode key 0 cmd)
unfolding decode_command
decode_command_lem key cmd =
    rw (append-nil cmd, append-nil (encode key 0 cmd)) at (xor_key-append key 0 cmd [])

-- What the key has encoded is decoded, over the whole of a command.
pub decode_command-encode :
    (key : ℕ) (payload : List ℕ) → decode_command key (encode key 0 payload) ≡ ok payload
decode_command-encode key payload =
    decode_command_lem key (encode key 0 payload) ∙ ap ok (encode-encode key 0 payload)

replicate-add : (a b x : ℕ) → replicate (a + b) x ≡ replicate a x ++ replicate b x
replicate-add zero b x = let e : 0 + b ≡ b = omega arith in ap (λ n. replicate n x) e
replicate-add (suc a) b x =
    let e : suc a + b ≡ suc (a + b) = omega arith in
    ap (λ n. replicate n x) e ∙ ap (◌∷◌ x) (replicate-add a b x)

abbrev fresh : ℕ → List ℕ
fresh n = replicate n 0

module _ (key opcode : ℕ) (bodys : List (List ℕ)) (fits : length (concat bodys) + 2 < 2 ^ 16) where
  abbrev content : List ℕ
  content = concat bodys

  abbrev payload : List ℕ
  payload = u8 opcode ∷ rsp_succ ∷ content

  len : body_len 0 bodys ≡ length content
  len = body_len-concat 0 bodys (omega arith) ∙ omega arith

  zeros : fresh (length content + 8) ≡ fresh 6 ++ (fresh (length content) ++ fresh 2)
  zeros =
      let e : length content + 8 ≡ 6 + (length content + 2) = omega arith in
      ap fresh e
      ∙ replicate-add 6 (length content + 2) 0
      ∙ ap (λ z. fresh 6 ++ z) (replicate-add (length content) 2 0)

  -- `makeCommand` returns, and its frame is the sealed payload.
  pub make_command_lem :
      make_command key opcode bodys ≡ ok (seal key crc16 (u8 opcode ∷ rsp_succ ∷ content))
  unfolding make_command
  make_command_lem =
      let total : u32 (2 + 2 + 2 + length content + 2) ≡ length content + 8 = omega arith in
      let count : length content + 8 - 2 - 4 ≡ length payload = omega arith in
      let field : u32 (length content + 2) ≡ length payload = omega arith in
      let covered : u32 (2 + 2 + 2 + length content) ≡ length (sealed_head key crc16 payload) =
        omega (arith, length-encode key 0 payload) in
      let head = sealed_head key crc16 payload in
      let size : length head ≡ length content + 6 = omega (arith, length-encode key 0 payload) in
      let crc : u16 (crc16 head) ≡ crc16 head = omega (arith, crc16-lt head) in
      let fields : List ℕ =
        0xAA
        ∷ 0x55
        ∷ length payload % 256
        ∷ length payload / 256 % 256
        ∷ u8 opcode
        ∷ rsp_succ
        ∷ [] in
      rw
        (
          len,
          total,
          zeros,
          field,
          splice-append [] (fresh 6) (fresh (length content) ++ fresh 2) fields 0 refl refl,
          copy_bodys-concat bodys 6 fields (fresh (length content)) (fresh 2) refl
              (length-replicate (length content) 0),
          count,
          xor_key-append key 0 payload (fresh 2),
          covered,
          slice-append head (fresh 2) (length head) refl,
          splice-append head (0 ∷ []) (0 ∷ []) (crc16 head % 256 ∷ []) (2 + 2 + 2 + length content)
              (omega arith) refl,
        )
        (rw crc (
          splice_second head [] (crc16 head % 256) 0 (crc16 head / 256 % 256)
            (2 + 2 + 2 + length content + 1) (omega arith)))
