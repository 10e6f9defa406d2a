-- ===== src/Protocol.antt =====
-- The framing of user_boot/app/src/user.c: `enc_dec_data` and `enc_cmd_data`.
-- A frame is 0xAA 0x55, the two bytes of cmd_len, cmd_len encoded bytes and the CRC of all before.
pub mod Cipher
pub mod Scan
pub mod RoundTrip
pub mod Cut
pub mod Sound
use fw_bootloader.Common.{
  ℕ, zero, suc, ◌+◌, ◌-◌, ◌*◌, ◌/◌, ◌%◌, ◌^◌, List, [], ◌∷◌, ◌++◌, Option, none, some, ltb, ◌==◌,
  if◌then◌else◌, length, take, drop, u16, u32, word16, le16, bit_xor, Bool, false,
}
use fw_bootloader.Common.Memory.{Result, ok, fault, ◌>>=◌, load, load16, slice}

abbrev pub sync_mark0 : ℕ
sync_mark0 = 0xAA

abbrev pub sync_mark1 : ℕ
sync_mark1 = 0x55

-- The initial value of the global variable; no code changes it.
abbrev pub communication_key : ℕ
communication_key = 12345678

-- `encKey[keyIdx & 0x3]`: the bytes of the key as it lies in memory.
unfoldable pub enc_key : ℕ → ℕ → ℕ
enc_key key i =
    let k = i % 4 in
    if k == 0
    then key % 256
    else if k == 1
    then key / 256 % 256
    else if k == 2
    then key / 65536 % 256
    else key / 16777216 % 256

-- The loop of `enc_dec_data` at index `i`, with `left` rounds to go, on the memory from `buf + i`.
pub enc_dec_loop : ℕ → ℕ → ℕ → List ℕ → Result (List ℕ)
enc_dec_loop key zero i mem = ok mem
enc_dec_loop key (suc left) i [] = fault
enc_dec_loop key (suc left) i (x ∷ mem) = do
  rest ← enc_dec_loop key left (i + 1) mem
  ok (bit_xor x (enc_key key i) ∷ rest)

pub enc_dec_data : ℕ → List ℕ → ℕ → Result (List ℕ)
enc_dec_data key mem len = enc_dec_loop key len 0 mem

-- `buf[i] == SYNC_MARK0 && buf[i + 1] == SYNC_MARK1`
pub is_mark1 : List ℕ → ℕ → Result Bool
is_mark1 mem i = do b1 ← load mem (i + 1); ok (b1 == sync_mark1)

pub is_sync : List ℕ → ℕ → Result Bool
unfolding is_mark1
is_sync mem i = do b0 ← load mem i; if b0 == sync_mark0 then is_mark1 mem i else ok false

-- `chip_crc16` is in the chip's ROM: a function of the bytes, whose result is an u16.
module _ (key : ℕ) (chip_crc16 : List ℕ → ℕ) where
  -- A frame whose CRC is right: its cmd_len bytes are decoded in place, and the result is the
  -- memory behind the returned pointer.
  pub accept : List ℕ → ℕ → ℕ → Result (Option (List ℕ))
  accept mem i cmd_len = do
    decoded ← enc_dec_data key (drop (i + 4) mem) cmd_len
    ok (some (take 4 (drop i mem) ++ decoded))

  -- `data_crc` read at the end of the frame against `check_crc`; `none` is NULL.
  pub check_crc : List ℕ → ℕ → ℕ → Result (Option (List ℕ))
  check_crc mem i cmd_len = do
    lo ← load mem (i + 2 + 2 + cmd_len)
    hi ← load mem (i + 2 + 2 + cmd_len + 1)
    body ← slice mem i (2 + 2 + cmd_len)
    if word16 lo hi == u16 (chip_crc16 body) then accept mem i cmd_len else ok none

  -- The body of the scan at a sync mark.
  pub check_frame : List ℕ → ℕ → ℕ → Result (Option (List ℕ))
  check_frame mem len i = do
    cmd_len ← load16 mem (i + 2)
    if ltb len (u32 (i + 2 + 2 + cmd_len + 2)) then ok none else check_crc mem i cmd_len

  -- `for (i = 0; i < len - 7; i++)`, at index `i` with `left` rounds to go.
  pub scan : List ℕ → ℕ → ℕ → ℕ → Result (Option (List ℕ))
  scan mem len zero i = ok none
  scan mem len (suc left) i =
      let rest = scan mem len left (i + 1) in
      do found ← is_sync mem i; if found then check_frame mem len i else rest

  pub enc_cmd_data : List ℕ → ℕ → Result (Option (List ℕ))
  enc_cmd_data mem len = if ltb len (2 + 2 + 2 + 2) then ok none else scan mem len (len - 7) 0
