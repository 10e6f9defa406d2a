-- ===== src/Host/Command.antt =====
-- The frames that the host sends and the replies that it takes, update_tools/win-uart/updatethread.cpp:
-- `makeCommand` with the functions for each command, `decodeCommand` and the `isReply...Cmd`.
pub mod Frames
pub mod Requests
pub mod Replies
use fw_bootloader.Common.{
  ℕ, zero, suc, ◌+◌, ◌-◌, ◌*◌, ◌/◌, ◌%◌, ◌^◌, List, [], ◌∷◌, ◌++◌, Bool, true, false, ◌&&◌, Option,
  none, some, ◌==◌, if◌then◌else◌, length, take, drop, replicate, u8, u32, le32, word16, word32,
  bit_xor,
}
use fw_bootloader.Common.Memory.{Result, ok, fault, ◌>>=◌, slice, splice, load, load32}
use fw_bootloader.Protocol.{enc_key}
use fw_bootloader.Host.Crc.{crc16}

abbrev pub su_device_init : ℕ
su_device_init = 0xC0

abbrev pub su_device_check : ℕ
su_device_check = 0xC1

abbrev pub su_erase : ℕ
su_erase = 0xC2

abbrev pub su_write : ℕ
su_write = 0xC3

abbrev pub su_flash_crc : ℕ
su_flash_crc = 0xC4

abbrev pub su_reboot : ℕ
su_reboot = 0xCA

-- The reply code for success.
abbrev pub rsp_succ : ℕ
rsp_succ = 0

-- `for (auto &v : bodys) bodyLen += v.second;`
unfoldable pub body_len : ℕ → List (List ℕ) → ℕ
body_len sum [] = sum
body_len sum (v ∷ bodys) = body_len (u32 (sum + length v)) bodys

-- `for (auto &v : bodys) { memcpy(bodyPtr, v.first, v.second); bodyPtr += v.second; }`
unfoldable pub copy_bodys : ℕ → List (List ℕ) → List ℕ → Result (List ℕ)
copy_bodys at [] p = ok p
copy_bodys at (v ∷ bodys) p = do q ← splice p at v; copy_bodys (at + length v) bodys q

-- The loop over `p[i] ^= theKey[keyIdx & 0x3]` with `left` rounds to go, on the memory from `p + i`.
unfoldable pub xor_key : ℕ → ℕ → ℕ → List ℕ → Result (List ℕ)
xor_key key zero i p = ok p
xor_key key (suc left) i [] = fault
xor_key key (suc left) i (x ∷ p) = do
  rest ← xor_key key left (i + 1) p
  ok (bit_xor x (enc_key key i) ∷ rest)

-- `makeCommand`. A body is the memory behind its pointer.
unfoldable pub make_command : ℕ → ℕ → List (List ℕ) → Result (List ℕ)
make_command key opcode bodys = do
  let len = body_len 0 bodys
  let total_len = u32 (2 + 2 + 2 + len + 2)
  let fields =
      0xAA ∷ 0x55 ∷ u32 (len + 2) % 256 ∷ u32 (len + 2) / 256 % 256 ∷ u8 opcode ∷ rsp_succ ∷ []
  p0 ← splice (replicate total_len 0) 0 fields
  p1 ← copy_bodys 6 bodys p0
  encrypted ← xor_key key (total_len - 2 - 4) 0 (drop 4 p1)
  let p2 = take 4 p1 ++ encrypted
  head ← slice p2 0 (u32 (2 + 2 + 2 + len))
  let crc = crc16 head
  p3 ← splice p2 (2 + 2 + 2 + len) (crc % 256 ∷ [])
  splice p3 (2 + 2 + 2 + len + 1) (crc / 256 % 256 ∷ [])

-- `strncpy` of at most `n` bytes into memory that is zero: up to the end of the text.
unfoldable pub strncpy : ℕ → List ℕ → List ℕ
strncpy zero area = []
strncpy (suc n) [] = 0 ∷ strncpy n []
strncpy (suc n) (c ∷ area) = if c == 0 then replicate (suc n) 0 else c ∷ strncpy n area

unfoldable pub make_device_init_cmd : ℕ → List ℕ → ℕ → Result (List ℕ)
make_device_init_cmd key area mode =
    make_command key su_device_init ((strncpy 15 area ++ 0 ∷ u8 mode ∷ []) ∷ [])

unfoldable pub make_device_check_cmd : ℕ → ℕ → Result (List ℕ)
make_device_check_cmd key id = make_command key su_device_check (le32 id ∷ [])

unfoldable pub make_erase_cmd : ℕ → ℕ → ℕ → Result (List ℕ)
make_erase_cmd key address type = make_command key su_erase (le32 address ∷ le32 type ∷ [])

-- `content` is the memory behind the pointer, of which `len` bytes are read.
pub make_write_cmd : ℕ → ℕ → ℕ → List ℕ → Result (List ℕ)
make_write_cmd key address len content = do
  bytes ← slice content 0 len
  make_command key su_write (le32 address ∷ le32 len ∷ bytes ∷ [])

unfoldable pub make_flash_crc_cmd : ℕ → ℕ → ℕ → ℕ → Result (List ℕ)
make_flash_crc_cmd key address len block_size =
    make_command key su_flash_crc (le32 address ∷ le32 len ∷ le32 block_size ∷ [])

unfoldable pub make_reboot_cmd : ℕ → Result (List ℕ)
make_reboot_cmd key = make_command key su_reboot []

-- `decodeCommand` on a command that is not NULL.
unfoldable pub decode_command : ℕ → List ℕ → Result (List ℕ)
decode_command key cmd = xor_key key (length cmd) 0 cmd

-- `DeviceInitInfo`
pub record DeviceInitInfo : Type 0 where
  pub zone_addr : ℕ
  pub upgrade_len : ℕ
  pub flash_eoffset_size : ℕ
  pub erase_unit_size : ℕ

-- `bin.size() != n`, then the command and the status. A reply that is not taken is `none`.
unfoldable pub is_success : ℕ → ℕ → List ℕ → Result Bool
is_success n cmd bin =
    if length bin == n
    then (do c ← load bin 0; s ← load bin 1; ok (c == cmd && s == rsp_succ))
    else ok false

unfoldable pub take_init_info : List ℕ → Result (Option DeviceInitInfo)
take_init_info bin = do
  addr ← load32 bin 2
  len ← load32 bin 6
  eoffset ← load32 bin 10
  align ← load32 bin 14
  ok (
      some (record {
        zone_addr = addr;
        upgrade_len = len;
        flash_eoffset_size = eoffset;
        erase_unit_size = align;
      }))

unfoldable pub is_reply_device_init_cmd : List ℕ → Result (Option DeviceInitInfo)
is_reply_device_init_cmd bin = do
  taken ← is_success (1 + 1 + 4 + 4 + 4 + 4) su_device_init bin
  if taken then take_init_info bin else ok none

-- The copies of the ids go to `&vid` and `&pid`, which are the addresses of the parameters themselves:
-- `room` is the number of bytes that may be written there. For a parameter that is a pointer these are 4 or
-- 8, so that the copy of the 16 bytes is a fault; a larger `room` is a run in which the bytes behind the
-- parameter may be overwritten.
unfoldable pub take_ids : ℕ → List ℕ → Result Bool
take_ids room bin = do
  vid ← slice bin 2 4
  vid_slot ← splice (replicate room 0) 0 vid
  pid ← slice bin (2 + 4) 16
  pid_slot ← splice (replicate room 0) 0 pid
  ok true

unfoldable pub is_reply_device_check_cmd : ℕ → List ℕ → Result Bool
is_reply_device_check_cmd room bin = do
  taken ← is_success (1 + 1 + 4 + 16 + 4) su_device_check bin
  if taken then take_ids room bin else ok false

-- The list of the CRCs as bytes.
unfoldable pub is_reply_flash_crc_cmd : ℕ → List ℕ → Result (Option (List ℕ))
is_reply_flash_crc_cmd block_count bin = do
  taken ← is_success (u32 (1 + 1 + 2 * block_count)) su_flash_crc bin
  if taken then (do crcs ← slice bin 2 (block_count * 2); ok (some crcs)) else ok none

-- The status of a reply of two bytes.
unfoldable pub reply_status : ℕ → List ℕ → Result (Option ℕ)
reply_status cmd bin =
    if length bin == 2
    then (do c ← load bin 0; s ← load bin 1; ok (if c == cmd then some s else none))
    else ok none

unfoldable pub is_reply_erase_cmd : List ℕ → Result (Option ℕ)
is_reply_erase_cmd bin = reply_status su_erase bin

pub is_reply_write_cmd : List ℕ → Result (Option ℕ)
is_reply_write_cmd bin = reply_status su_write bin
