-- ===== src/Session/Spec.antt =====
-- What the host may rely on: the requests of the protocol, and the relation between a request, the flash
-- and the reply. Frames, the cipher, the reply buffer and what a packet is padded with do not occur.
use fw_bootloader.Common.{
  ℕ, ◌/◌, ◌^◌, ◌≡◌, ◌≢◌, ◌≤◌, ◌<◌, List, [], ◌∷◌, ◌++◌, if◌then◌else◌, ◌==◌, length, length-append,
  arith, replicate, le16, le32, u8,
}
use fw_bootloader.Platform.{JlfsFile, Event, Platform}
use fw_bootloader.Device.{suss, sdk_id_error, write_error, erase_error, other_error}
use fw_bootloader.Commands.{erase_len, sdk_id}
use fw_bootloader.Commands.FlashCrc.{block_crcs, length-block_crcs}

pub data Request : Type 0 where
  device_init : (name : List ℕ) (mode : ℕ) → Request
  device_check : (id : ℕ) → Request
  erase_area : (address type : ℕ) → Request
  write_flash : (address : ℕ) (bytes : List ℕ) → Request
  flash_crc : (address len block_size : ℕ) → Request
  dual_bank_crc : (crc : ℕ) → Request

abbrev pub code : Request → ℕ
code (device_init name mode) = 0xC0
code (device_check id) = 0xC1
code (erase_area address type) = 0xC2
code (write_flash address bytes) = 0xC3
code (flash_crc address len block_size) = 0xC4
code (dual_bank_crc crc) = 0xCB

-- The bytes behind the command and the status of a request.
abbrev pub fields : Request → List ℕ
fields (device_init name mode) = name ++ mode ∷ []
fields (device_check id) = le32 id
fields (erase_area address type) = le32 address ++ le32 type
fields (write_flash address bytes) = le32 address ++ (le32 (length bytes) ++ bytes)
fields (flash_crc address len block_size) = le32 address ++ (le32 len ++ le32 block_size)
fields (dual_bank_crc crc) = le16 crc

-- `pad` is the status byte, which the device does not read.
abbrev pub payload : ℕ → Request → List ℕ
payload pad q = code q ∷ pad ∷ fields q

-- The values that the fields hold, and the blocks that a reply has room for.
abbrev pub Legal : Request → Type 0
Legal (device_init name mode) = length name ≡ 16
Legal (device_check id) = id < 2 ^ 32
Legal (erase_area address type) = (address < 2 ^ 32) × (type < 2 ^ 32)
Legal (write_flash address bytes) = (address < 2 ^ 32) × (length bytes ≤ 65525)
Legal (flash_crc address len block_size) =
    (address < 2 ^ 32)
    × (len < 2 ^ 32)
    × (block_size < 2 ^ 32)
    × (0 < block_size)
    × (len / block_size ≤ 28)
Legal (dual_bank_crc crc) = crc < 2 ^ 16

-- The flash and the open file.
pub record Store (Fs : Type 0) : Type 0 where
  pub fs : Fs
  pub file : JlfsFile

module _ {Fs : Type 0} where
  -- What the code relies on in the library, and the size of the array on the stack.
  pub record Library (p : Platform Fs) : Type 0 where
    pub write_reads :
        (file : JlfsFile) (bytes behind : List ℕ) (fs : Fs)
        → p.write file (bytes ++ behind) (length bytes) fs ≡ p.write file bytes (length bytes) fs
    pub name_reads :
        (file : JlfsFile) (name behind : List ℕ) (mode : ℕ) (fs : Fs)
        → length name ≡ 16
        → p.fopen_by_name file (name ++ behind) mode fs ≡ p.fopen_by_name file name mode fs
    pub fread_keeps :
        (file : JlfsFile) (mem : List ℕ) (n : ℕ) (fs : Fs)
        → length (p.fread file mem n fs).1 ≡ length mem
    pub global_buffer : (n : ℕ) (fs : Fs) → n ≤ length (p.get_global_buffer n fs)
    pub pid_size : (fs : Fs) → length (p.get_pid fs) ≡ 16
    pub vid_size : (fs : Fs) → length (p.get_vid fs) ≡ 4
    pub stack_size : (before : List Event) → 64 ≤ length (p.stack before)

module _ {Fs : Type 0} (p : Platform Fs) where
  abbrev pub opening : List ℕ → ℕ → Store Fs → ℕ × JlfsFile × Fs
  opening name mode s =
      if mode == 3
      then p.get_idle_bank_info s.file mode s.fs
      else p.fopen_by_name s.file name mode s.fs

  abbrev pub seek : ℕ → Store Fs → JlfsFile × Fs
  seek address s = p.fseek s.file address s.fs

  abbrev pub erasing : ℕ → ℕ → Store Fs → ℕ × JlfsFile × Fs
  erasing address type s = p.erase (seek address s).0 (erase_len type) (seek address s).1

  abbrev pub writing : ℕ → List ℕ → Store Fs → ℕ × JlfsFile × Fs
  writing address bytes s = p.write (seek address s).0 bytes (length bytes) (seek address s).1

  abbrev pub summing : ℕ → ℕ → ℕ → Store Fs → List ℕ × JlfsFile × Fs
  summing l address blocks s =
      block_crcs p l blocks (p.get_global_buffer l s.fs) (seek address s).0 (seek address s).1

  abbrev pub banking : ℕ → Store Fs → ℕ × JlfsFile × Fs
  banking crc s = p.updata_dual_bank_info s.file crc s.fs

  abbrev pub left : {A : Type 0} → A × JlfsFile × Fs → Store Fs
  left r = record { fs = r.2; file = r.1 }

  -- The parameters of a file that has been opened.
  abbrev pub file_params : JlfsFile → Fs → List ℕ
  file_params file fs =
      le32 file.addr
      ++ (le32 file.size
          ++ (le32 (p.get_flash_eoffset_size fs) ++ le32 (p.get_flash_align_size fs)))

  -- A request is served on a store with a reply, from its command on, and leaves a store. `l` is the
  -- number of bytes that are summed for each block.
  pub data Serves (l : ℕ) : Request → Store Fs → List ℕ → Store Fs → Type 0 where
    opened_file :
        (name : List ℕ) (mode : ℕ) (s : Store Fs) (found : u8 (opening name mode s).0 ≡ 0)
        → Serves l
            (device_init name mode)
            s
            (0xC0 ∷ suss ∷ file_params (opening name mode s).1 (opening name mode s).2)
            (left (opening name mode s))
    no_file :
        (name : List ℕ) (mode : ℕ) (s : Store Fs) (failed : u8 (opening name mode s).0 ≢ 0)
        → Serves l
            (device_init name mode)
            s
            (0xC0 ∷ other_error ∷ replicate 16 0)
            (left (opening name mode s))
    right_id :
        (s : Store Fs)
        → Serves l
            (device_check sdk_id)
            s
            (0xC1 ∷ suss ∷ ((p.get_vid s.fs ++ p.get_pid s.fs) ++ le32 sdk_id))
            s
    wrong_id :
        (id : ℕ) (stale : List ℕ) (s : Store Fs) (other : id ≢ sdk_id) (size : length stale ≡ 20)
        → Serves l (device_check id) s (0xC1 ∷ sdk_id_error ∷ (stale ++ le32 sdk_id)) s
    erased :
        (address type : ℕ) (s : Store Fs) (done : (erasing address type s).0 ≢ 0)
        → Serves l (erase_area address type) s (0xC2 ∷ suss ∷ []) (left (erasing address type s))
    not_erased :
        (address type : ℕ) (s : Store Fs) (failed : (erasing address type s).0 ≡ 0)
        → Serves l
            (erase_area address type)
            s
            (0xC2 ∷ erase_error ∷ [])
            (left (erasing address type s))
    written :
        (address : ℕ) (bytes : List ℕ) (s : Store Fs)
        (all : (writing address bytes s).0 ≡ length bytes)
        → Serves l (write_flash address bytes) s (0xC3 ∷ suss ∷ []) (left (writing address bytes s))
    not_written :
        (address : ℕ) (bytes : List ℕ) (s : Store Fs)
        (short : (writing address bytes s).0 ≢ length bytes)
        → Serves l
            (write_flash address bytes)
            s
            (0xC3 ∷ write_error ∷ [])
            (left (writing address bytes s))
    summed :
        (address len block_size : ℕ) (s : Store Fs)
        → Serves l
            (flash_crc address len block_size)
            s
            (0xC4 ∷ suss ∷ (summing l address (len / block_size) s).0)
            (left (summing l address (len / block_size) s))
    bank_updated :
        (crc : ℕ) (s : Store Fs)
        → Serves l (dual_bank_crc crc) s (0xCB ∷ suss ∷ []) (left (banking crc s))

-- A reply has room in the reply buffer behind the four bytes of the header, with the CRC.
pub Serves-size :
    {Fs : Type 0} (p : Platform Fs) (lib : Library p) {l : ℕ} {q : Request} {s t : Store Fs}
    {reply : List ℕ}
    → Serves p l q s reply t
    → Legal q
    → (2 ≤ length reply) × (length reply ≤ 58)
Serves-size p lib (opened_file name mode s found) legal = (omega arith, omega arith)
Serves-size p lib (no_file name mode s failed) legal = (omega arith, omega arith)
Serves-size p lib (right_id s) legal = (
  omega arith,
  omega (
    arith,
    length-append (p.get_vid s.fs ++ p.get_pid s.fs) (le32 sdk_id),
    length-append (p.get_vid s.fs) (p.get_pid s.fs),
    lib.vid_size s.fs,
    lib.pid_size s.fs,
  ),
)
Serves-size p lib (wrong_id id stale s other size) legal =
    (omega arith, omega (arith, length-append stale (le32 sdk_id), size))
Serves-size p lib (erased address type s done) legal = (omega arith, omega arith)
Serves-size p lib (not_erased address type s failed) legal = (omega arith, omega arith)
Serves-size p lib (written address bytes s all) legal = (omega arith, omega arith)
Serves-size p lib (not_written address bytes s short) legal = (omega arith, omega arith)
Serves-size p lib {l} (summed address len block_size s) (ha, hl, hb, positive, few) = (
  omega arith,
  omega (
    arith,
    few,
    length-block_crcs p l (len / block_size) (p.get_global_buffer l s.fs) (seek p address s).0
        (seek p address s).1,
  ),
)
Serves-size p lib (bank_updated crc s) legal = (omega arith, omega arith)
