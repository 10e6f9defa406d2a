-- ===== src/Session/Serve.antt =====
-- Each handler serves its request as the specification says.
use fw_bootloader.Common.{
  ==_different, ℕ, ◌+◌, ◌/◌, ◌%◌, ◌^◌, ◌≡◌, ◌<◌, refl, ap, subst, List, [], ◌∷◌, ◌++◌, Bool, false,
  Bool-cases, inl, inr, ◌==◌, ==_iff, if◌then◌else◌, length, take, drop, get_elem?, some, replicate,
  arith, append_assoc, le32, word16, word32-le32, length-take, length-drop, get_elem?-append_right,
  u8,
}
use fw_bootloader.Common.Memory.{Result, ok, ◌>>=◌, load}
use fw_bootloader.Platform.{send, Platform, Build}
use fw_bootloader.Device.{Device, suss, sdk_id_error, write_error, erase_error, other_error}
use fw_bootloader.Device.Reply.{reply_frame, on_link}
use fw_bootloader.Commands.{sdk_id}
use fw_bootloader.Commands.Fill.{Answered}
use fw_bootloader.Commands.Replies.{
  jl_su_erase_lem, jl_su_write_flash_lem, jl_su_updata_dual_bank_crc_lem, jl_su_device_init_lem,
  jl_su_devcie_check_lem,
}
use fw_bootloader.Commands.FlashCrc.{jl_su_flash_crc_lem}
use fw_bootloader.Session.{handle, dispatch}
use fw_bootloader.Session.Spec.{
  Request, device_init, device_check, erase_area, write_flash, flash_crc, dual_bank_crc, code,
  fields, Legal, Store, Library, Serves, opened_file, no_file, right_id, wrong_id, erased,
  not_erased, written, not_written, summed, bank_updated, file_params, opening, erasing, writing,
  summing, banking, left,
}

abbrev pub store : {Fs : Type 0} → Device Fs → Store Fs
store dev = record { fs = dev.fs; file = dev.upgrade_file }

word16-le16 : (n : ℕ) → n < 2 ^ 16 → word16 (n % 256) (n / 256 % 256) ≡ n
word16-le16 n h = omega arith

module _ {Fs : Type 0} (p : Platform Fs) (build : Build) where
  -- A round that serves the request: one packet leaves, with the reply, and the loop goes on.
  pub record Done (dev : Device Fs) (q : Request) (r : Result (Bool × Device Fs)) : Type 0 where
    pub after : Device Fs
    pub reply : List ℕ
    pub returns : r ≡ ok (false, after)
    pub serves : Serves p dev.flash_alignsize q (store dev) reply (store after)
    pub sent :
        after.events
        ≡ dev.events ++ send (on_link p build dev.events (reply_frame p build reply)) ∷ []
    pub buffer : length after.dev_g_buf ≡ 64
    pub align_after : after.flash_alignsize ≡ dev.flash_alignsize
    pub new_data_after : after.new_data ≡ dev.new_data
    pub nvram_after : after.nvram ≡ dev.nvram

  Answered-Done :
      (dev : Device Fs) (q : Request) (reply : List ℕ) (s : Store Fs) (r : Result (Device Fs))
      → Answered p build dev (reply_frame p build reply) s.fs s.file r
      → Serves p dev.flash_alignsize q (store dev) reply s
      → Done dev q (do d ← r; ok (false, d))
  Answered-Done dev q reply s r a serves = record {
    after = a.after;
    reply = reply;
    returns = rw a.returns refl;
    serves = rw (a.fs_after, a.file_after) serves;
    sent = a.sent;
    buffer = a.buffer;
    align_after = a.align_after;
    new_data_after = a.new_data_after;
    nvram_after = a.nvram_after;
  }

  module _ (lib : Library p) (dev : Device Fs) (buffer : length dev.dev_g_buf ≡ 64)
      (b0 b1 c d pad : ℕ) (behind : List ℕ) where
    abbrev received : Request → List ℕ
    received q = b0 ∷ b1 ∷ c ∷ d ∷ code q ∷ pad ∷ (fields q ++ behind)

    erase-Serves :
        (address type : ℕ)
        → Serves p dev.flash_alignsize
            (erase_area address type)
            (store dev)
            (0xC2
              ∷ (if (erasing p address type (store dev)).0 == 0 then erase_error else suss)
              ∷ [])
            (left p (erasing p address type (store dev)))
    erase-Serves address type = elim (Bool-cases ((erasing p address type (store dev)).0 == 0)) [
      | inl t ↦ rw t (not_erased address type (store dev) ((==_iff _ _).0 t))
      | inr t ↦ rw t (erased address type (store dev) (==_different _ _ t))
    ]

    erase-Done :
        (address type : ℕ)
        → Legal (erase_area address type)
        → Done dev
            (erase_area address type)
            (handle p build (some (received (erase_area address type))) dev)
    unfolding handle dispatch
    erase-Done address type (ha, ht) =
        Answered-Done dev (erase_area address type) _ _ _
          (jl_su_erase_lem p build dev (received (erase_area address type))
            (lib.stack_size dev.events) buffer address type (ap ok (word32-le32 address ha))
            (ap ok (word32-le32 type ht)))
          (erase-Serves address type)

    write-Serves :
        (address : ℕ) (bytes : List ℕ)
        → Serves p dev.flash_alignsize
            (write_flash address bytes)
            (store dev)
            (0xC3
              ∷ (if (writing p address bytes (store dev)).0 == length bytes
                  then suss
                  else write_error)
              ∷ [])
            (left p (writing p address bytes (store dev)))
    write-Serves address bytes =
        elim (Bool-cases ((writing p address bytes (store dev)).0 == length bytes)) [
          | inl t ↦ rw t (written address bytes (store dev) ((==_iff _ _).0 t))
          | inr t ↦ rw t (not_written address bytes (store dev) (==_different _ _ t))
        ]

    -- The library reads the bytes of the request only.
    write-Done :
        (address : ℕ) (bytes : List ℕ)
        → Legal (write_flash address bytes)
        → Done dev
            (write_flash address bytes)
            (handle p build (some (received (write_flash address bytes))) dev)
    unfolding handle dispatch
    write-Done address bytes (ha, hb) =
        let (file, fs) = p.fseek dev.upgrade_file address dev.fs in
        let a =
          jl_su_write_flash_lem p build dev (received (write_flash address bytes))
            (lib.stack_size dev.events) buffer address (length bytes)
            (ap ok (word32-le32 address ha))
            (ap ok (word32-le32 (length bytes) (omega (arith, hb)))) in
        Answered-Done dev (write_flash address bytes) _
          (left p (writing p address bytes (store dev))) _
          (rw (lib.write_reads file bytes behind fs) at a) (write-Serves address bytes)

    bank-Done :
        (crc : ℕ)
        → Legal (dual_bank_crc crc)
        → Done dev (dual_bank_crc crc) (handle p build (some (received (dual_bank_crc crc))) dev)
    unfolding handle dispatch
    bank-Done crc hc =
        Answered-Done dev (dual_bank_crc crc) _ (left p (banking p crc (store dev))) _
          (jl_su_updata_dual_bank_crc_lem p build dev (received (dual_bank_crc crc))
            (lib.stack_size dev.events) buffer crc (ap ok (word16-le16 crc hc)))
          (bank_updated crc (store dev))

    crc-Done :
        (address len block_size : ℕ)
        → Legal (flash_crc address len block_size)
        → Done dev
            (flash_crc address len block_size)
            (handle p build (some (received (flash_crc address len block_size))) dev)
    unfolding handle dispatch
    crc-Done address len block_size (ha, hl, hb, positive, few) =
        Answered-Done dev (flash_crc address len block_size) _
          (left p (summing p dev.flash_alignsize address (len / block_size) (store dev))) _
          (jl_su_flash_crc_lem p build lib.fread_keeps lib.global_buffer dev
            (received (flash_crc address len block_size)) (lib.stack_size dev.events) buffer address
            len block_size (ap ok (word32-le32 address ha)) (ap ok (word32-le32 len hl))
            (ap ok (word32-le32 block_size hb)) positive few)
          (summed address len block_size (store dev))

    check-Serves :
        (id : ℕ)
        → Serves p dev.flash_alignsize
            (device_check id)
            (store dev)
            (0xC1
              ∷ (if id == sdk_id
                  then suss ∷ ((p.get_vid dev.fs ++ p.get_pid dev.fs) ++ le32 sdk_id)
                  else sdk_id_error ∷ (take 20 (drop 6 dev.dev_g_buf) ++ le32 sdk_id)))
            (store dev)
    check-Serves id = elim (Bool-cases (id == sdk_id)) [
      | inl t ↦ rw (t, (==_iff id sdk_id).0 t) (right_id (store dev))
      | inr t ↦ rw t (
          wrong_id id (take 20 (drop 6 dev.dev_g_buf)) (store dev) (==_different _ _ t) (
            omega
              (arith, buffer, length-take 20 (drop 6 dev.dev_g_buf), length-drop 6 dev.dev_g_buf)))
    ]

    check-Done :
        (id : ℕ)
        → Legal (device_check id)
        → Done dev (device_check id) (handle p build (some (received (device_check id))) dev)
    unfolding handle dispatch
    check-Done id small =
        let a =
          jl_su_devcie_check_lem p build dev (received (device_check id))
            (lib.stack_size dev.events) buffer id (ap ok (word32-le32 id small))
            (lib.pid_size dev.fs) (lib.vid_size dev.fs) in
        Answered-Done dev (device_check id) _ (store dev) _ a (check-Serves id)

    mode_at :
        (name : List ℕ) (mode : ℕ)
        → length name ≡ 16
        → load (received (device_init name mode)) 22 ≡ ok mode
    mode_at name mode size =
        let end : length name + 0 ≡ 16 = omega (arith, size) in
        let at : get_elem? (name ++ mode ∷ behind) 16 ≡ some mode =
          subst (λ n. get_elem? (name ++ mode ∷ behind) n ≡ some mode) end
            (get_elem?-append_right name (mode ∷ behind) 0) in
        rw (append_assoc name (mode ∷ []) behind, at) refl

    open-Serves :
        (name : List ℕ) (mode : ℕ)
        → let (err, file, fs) = opening p name mode (store dev) in
          Serves p dev.flash_alignsize
            (device_init name mode)
            (store dev)
            (0xC0
              ∷ (if u8 err == 0
                  then suss ∷ file_params p file fs
                  else other_error ∷ replicate 16 0))
            (left p (opening p name mode (store dev)))
    open-Serves name mode = elim (Bool-cases (u8 (opening p name mode (store dev)).0 == 0)) [
      | inl t ↦ rw t (opened_file name mode (store dev) ((==_iff _ _).0 t))
      | inr t ↦ rw t (no_file name mode (store dev) (==_different _ _ t))
    ]

    init-Done :
        (name : List ℕ) (mode : ℕ)
        → Legal (device_init name mode)
        → Done dev
            (device_init name mode)
            (handle p build (some (received (device_init name mode))) dev)
    unfolding handle dispatch
    init-Done name mode size =
        let name_only : p.fopen_by_name dev.upgrade_file ((name ++ mode ∷ []) ++ behind) mode dev.fs
            ≡ p.fopen_by_name dev.upgrade_file name mode dev.fs =
          rw (append_assoc name (mode ∷ []) behind)
            (lib.name_reads dev.upgrade_file name (mode ∷ behind) mode dev.fs size) in
        let a =
          jl_su_device_init_lem p build dev (received (device_init name mode))
            (lib.stack_size dev.events) buffer mode (mode_at name mode size) in
        Answered-Done dev (device_init name mode) _ (left p (opening p name mode (store dev))) _
          (rw name_only at a) (open-Serves name mode)

    -- Whatever the request.
    pub handle-Done : (q : Request) → Legal q → Done dev q (handle p build (some (received q)) dev)
    handle-Done (device_init name mode) legal = init-Done name mode legal
    handle-Done (device_check id) legal = check-Done id legal
    handle-Done (erase_area address type) legal = erase-Done address type legal
    handle-Done (write_flash address bytes) legal = write-Done address bytes legal
    handle-Done (flash_crc address len block_size) legal = crc-Done address len block_size legal
    handle-Done (dual_bank_crc crc) legal = bank-Done crc legal
