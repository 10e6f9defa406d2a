-- ===== src/Host/Command/Requests.antt =====
-- The commands of the host are the requests of the protocol.
use fw_bootloader.Common.{
  ℕ, zero, suc, ◌/◌, ◌^◌, ◌≤◌, ◌<◌, ◌≡◌, refl, ap, sym, ◌∙◌, List, [], ◌∷◌, ◌++◌, length, take,
  length-replicate, Bool-cases, inl, inr, ◌==◌, length-append, length-take, append_assoc,
  append-nil, arith, u8, le32,
}
use fw_bootloader.Common.Memory.{Result, ok, slice-ok}
use fw_bootloader.Protocol.Scan.{seal}
use fw_bootloader.Session.Spec.{
  Request, device_init, device_check, erase_area, write_flash, flash_crc, payload, Legal,
}
use fw_bootloader.Host.Crc.{crc16}
use fw_bootloader.Host.Command.{
  strncpy, make_device_init_cmd, make_device_check_cmd, make_erase_cmd, make_write_cmd,
  make_flash_crc_cmd, make_reboot_cmd,
}
use fw_bootloader.Host.Command.Frames.{make_command_lem}

-- A call of one of the functions that make a command. The memory behind a pointer is written out.
pub data HostCall : Type 0 where
  init_zone : (area : List ℕ) (mode : ℕ) → HostCall
  check : (id : ℕ) → HostCall
  erase : (address type : ℕ) → HostCall
  write : (address len : ℕ) (content : List ℕ) → HostCall
  crc_list : (address len block_size : ℕ) → HostCall

abbrev pub make : ℕ → HostCall → Result (List ℕ)
make key (init_zone area mode) = make_device_init_cmd key area mode
make key (check id) = make_device_check_cmd key id
make key (erase address type) = make_erase_cmd key address type
make key (write address len content) = make_write_cmd key address len content
make key (crc_list address len block_size) = make_flash_crc_cmd key address len block_size

abbrev pub request : HostCall → Request
request (init_zone area mode) = device_init (strncpy 15 area ++ 0 ∷ []) (u8 mode)
request (check id) = device_check id
request (erase address type) = erase_area address type
request (write address len content) = write_flash address (take len content)
request (crc_list address len block_size) = flash_crc address len block_size

-- The values are those of `uint32_t`, what is written lies in memory and fits into the length of a
-- frame, and the CRCs of at most 28 blocks of at least one byte are asked for.
abbrev pub InRange : HostCall → Type 0
InRange (init_zone area mode) = Unit {0}
InRange (check id) = id < 2 ^ 32
InRange (erase address type) = (address < 2 ^ 32) × (type < 2 ^ 32)
InRange (write address len content) = (address < 2 ^ 32) × (len ≤ 65525) × (len ≤ length content)
InRange (crc_list address len block_size) =
    (address < 2 ^ 32)
    × (len < 2 ^ 32)
    × (block_size < 2 ^ 32)
    × (0 < block_size)
    × (len / block_size ≤ 28)

pub length-strncpy : (n : ℕ) (area : List ℕ) → length (strncpy n area) ≡ n
unfolding strncpy
length-strncpy zero area = refl
length-strncpy (suc n) [] = ap suc (length-strncpy n [])
length-strncpy (suc n) (c ∷ area) = elim (Bool-cases (c == 0)) [
  | inl t ↦ rw t (length-replicate (suc n) 0)
  | inr t ↦ rw t (ap suc (length-strncpy n area))
]

module _ (key : ℕ) where
  init_zone_lem :
      (area : List ℕ) (mode : ℕ)
      → make_device_init_cmd key area mode
        ≡ ok (seal key crc16 (payload 0 (device_init (strncpy 15 area ++ 0 ∷ []) (u8 mode))))
  unfolding make_device_init_cmd
  init_zone_lem area mode =
      let body = strncpy 15 area ++ 0 ∷ u8 mode ∷ [] in
      let size = length-append (strncpy 15 area) (0 ∷ u8 mode ∷ []) in
      make_command_lem key 0xC0 (body ∷ [])
        (omega (arith, length-append body [], size, length-strncpy 15 area))
      ∙ ap (λ b. ok (seal key crc16 (0xC0 ∷ 0 ∷ b)))
          (append-nil body ∙ sym (append_assoc (strncpy 15 area) (0 ∷ []) (u8 mode ∷ [])))

  write_lem :
      (address len : ℕ) (content : List ℕ)
      → len ≤ 65525
      → len ≤ length content
      → make_write_cmd key address len content
        ≡ ok (seal key crc16 (payload 0 (write_flash address (take len content))))
  unfolding make_write_cmd
  write_lem address len content fits inside =
      let bytes = take len content in
      let size : length bytes ≡ len = omega (arith, length-take len content) in
      rw (slice-ok content 0 len (omega arith)) (
        make_command_lem key 0xC3 (le32 address ∷ le32 len ∷ bytes ∷ [])
          (omega (arith, length-append bytes []))
        ∙ ap (λ b. ok (seal key crc16 (0xC3 ∷ 0 ∷ (le32 address ++ (le32 len ++ b)))))
            (append-nil bytes)
        ∙ ap (λ n. ok (seal key crc16 (0xC3 ∷ 0 ∷ (le32 address ++ (le32 n ++ bytes))))) (sym size))

-- A command of the host in range is a legal request, sealed: the function returns, and what it returns is
-- the frame of the request with the status 0.
pub make_lem :
    (key : ℕ) (call : HostCall)
    → InRange call
    → Legal (request call) × (make key call ≡ ok (seal key crc16 (payload 0 (request call))))
unfolding make_device_check_cmd make_erase_cmd make_flash_crc_cmd
make_lem key (init_zone area mode) h = (
  omega (arith, length-append (strncpy 15 area) (0 ∷ []), length-strncpy 15 area),
  init_zone_lem key area mode,
)
make_lem key (check id) h = (h, make_command_lem key 0xC1 (le32 id ∷ []) (omega arith))
make_lem key (erase address type) h =
    (h, make_command_lem key 0xC2 (le32 address ∷ le32 type ∷ []) (omega arith))
make_lem key (write address len content) (ha, fits, inside) =
    ((ha, omega (arith, length-take len content)), write_lem key address len content fits inside)
make_lem key (crc_list address len block_size) h =
    (h, make_command_lem key 0xC4 (le32 address ∷ le32 len ∷ le32 block_size ∷ []) (omega arith))

-- The reboot command is the sealed request for it, which has no fields.
pub make_reboot_cmd_lem : (key : ℕ) → make_reboot_cmd key ≡ ok (seal key crc16 (0xCA ∷ 0 ∷ []))
unfolding make_reboot_cmd
make_reboot_cmd_lem key = make_command_lem key 0xCA [] (omega arith)
