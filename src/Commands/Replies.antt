-- ===== src/Commands/Replies.antt =====
-- What each handler answers, and what it leaves in the file system and the open file.
use fw_bootloader.Common.{
  ℕ, ◌≤◌, ◌≡◌, refl, subst, List, [], ◌∷◌, ◌++◌, ◌==◌, if◌then◌else◌, Bool-cases, inl, inr, length,
  take, drop, replicate, arith, length-append, length-take, length-drop, u8, le32,
}
use fw_bootloader.Common.Memory.{Result, ok, load, load16, load32}
use fw_bootloader.Platform.{JlfsFile, Platform, Build}
use fw_bootloader.Device.{Device, suss, sdk_id_error, write_error, erase_error, other_error}
use fw_bootloader.Device.Reply.{reply_frame}
use fw_bootloader.Commands.{
  erase_len, jl_su_erase, jl_su_write_flash, jl_su_updata_dual_bank_crc, init_reply,
  jl_su_device_init, check_reply, jl_su_devcie_check, sdk_id,
}
use fw_bootloader.Commands.Fill.{
  Filled, fill_start, fill_start-rest, fill_skip, poke_next, poke_over, Answered, finish_lem,
}

module _ {Fs : Type 0} (p : Platform Fs) (build : Build) (dev : Device Fs) (ops : List ℕ)
    (stack : 64 ≤ length (p.stack dev.events)) (buffer : length dev.dev_g_buf ≡ 64) where
  -- With a reply buffer of 64 bytes and 64 bytes of stack, and a request whose fields lie in
  -- memory, `jl_su_erase` seeks to the address, erases the number of bytes that the type stands
  -- for (256, 4096 or 65536 for 1, 2 and 3, none otherwise), and answers with success exactly
  -- when the library reports a number other than 0.
  pub jl_su_erase_lem :
      (address type : ℕ)
      → load32 ops 6 ≡ ok address
      → load32 ops 10 ≡ ok type
      → let (file, fs) = p.fseek dev.upgrade_file address dev.fs in
        let (r, file', fs') = p.erase file (erase_len type) fs in
        Answered p build dev
          (reply_frame p build (0xC2 ∷ (if r == 0 then erase_error else suss) ∷ []))
          fs'
          file'
          (jl_su_erase p build ops dev)
  unfolding jl_su_erase
  jl_su_erase_lem address type ea et =
      rw (ea, et)
        (finish_lem p build dev stack _ _ 0xC2 _ 2 [] (fill_start dev.dev_g_buf buffer) refl
          (omega arith))

  -- With a reply buffer of 64 bytes and 64 bytes of stack, and a request whose fields lie in
  -- memory, `jl_su_write_flash` seeks to the address, hands the library the bytes behind the
  -- request's header with the length that the request states, and answers with success exactly
  -- when the library reports that many bytes written.
  pub jl_su_write_flash_lem :
      (address data_length : ℕ)
      → load32 ops 6 ≡ ok address
      → load32 ops 10 ≡ ok data_length
      → let (file, fs) = p.fseek dev.upgrade_file address dev.fs in
        let (r, file', fs') = p.write file (drop 14 ops) data_length fs in
        Answered p build dev
          (reply_frame p build (0xC3 ∷ (if r == data_length then suss else write_error) ∷ []))
          fs'
          file'
          (jl_su_write_flash p build ops dev)
  unfolding jl_su_write_flash
  jl_su_write_flash_lem address data_length ea el =
      rw (ea, el)
        (finish_lem p build dev stack _ _ 0xC3 _ 2 [] (fill_start dev.dev_g_buf buffer) refl
          (omega arith))

  -- With a reply buffer of 64 bytes and 64 bytes of stack, and a request whose fields lie in
  -- memory, `jl_su_updata_dual_bank_crc` hands the CRC of the request to the library and answers
  -- with success whatever the library reports.
  pub jl_su_updata_dual_bank_crc_lem :
      (crc : ℕ)
      → load16 ops 6 ≡ ok crc
      → let (r, file, fs) = p.updata_dual_bank_info dev.upgrade_file crc dev.fs in
        Answered p build dev
          (reply_frame p build (0xCB ∷ suss ∷ []))
          fs
          file
          (jl_su_updata_dual_bank_crc p build ops dev)
  unfolding jl_su_updata_dual_bank_crc
  jl_su_updata_dual_bank_crc_lem crc e = rw e (
      finish_lem p build dev stack _ _ 0xCB _ 2 [] (fill_start dev.dev_g_buf buffer) refl
        (omega arith))

  -- The parameters of the answer to a successful open.
  abbrev pub init_params : JlfsFile → Fs → List ℕ
  init_params file fs =
      le32 file.addr
      ++ (le32 file.size
          ++ (le32 (p.get_flash_eoffset_size fs) ++ le32 (p.get_flash_align_size fs)))

  init_reply_lem :
      (err : ℕ) (file : JlfsFile) (fs : Fs)
      → Answered p build dev
          (reply_frame p build (
            0xC0 ∷ (if err == 0 then suss ∷ init_params file fs else other_error ∷ replicate 16 0)))
          fs
          file
          (init_reply p build err (record dev { upgrade_file = file; fs = fs }))
  unfolding init_reply
  init_reply_lem err file fs = elim (Bool-cases (err == 0)) [
    | inl t ↦ rw t (
        poke_next X opened [] (le32 file.addr) 6 _ start refl (omega arith) λ buf1 f1.
          poke_next X (record opened { dev_g_buf = buf1 }) _ (le32 file.size) 10 _ f1 refl
            (omega arith)
            λ buf2 f2.
              poke_next X (record opened { dev_g_buf = buf2 }) _
                (le32 (p.get_flash_eoffset_size fs)) 14 _ f2 refl (omega arith)
                λ buf3 f3.
                  poke_next X (record opened { dev_g_buf = buf3 }) _
                    (le32 (p.get_flash_align_size fs)) 18 _ f3 refl (omega arith)
                    λ buf4 f4.
                      finish_lem p build dev stack fs file 0xC0 suss 18 _ f4 refl (omega arith))
    | inr t ↦ rw t (
        poke_next Y opened [] (replicate 16 0) 6 _ start refl (omega arith) λ buf1 f1.
          finish_lem p build dev stack fs file 0xC0 other_error 18 _ f1 refl (omega arith))
  ]
    where
      start : Filled [] dev.dev_g_buf
      start = fill_start dev.dev_g_buf buffer

      opened : Device Fs
      opened = record dev { upgrade_file = file; fs = fs }

      X : Result (Device Fs) → Type 0
      X = Answered p build dev (reply_frame p build (0xC0 ∷ suss ∷ init_params file fs)) fs file

      Y : Result (Device Fs) → Type 0
      Y = Answered p build dev (reply_frame p build (0xC0 ∷ other_error ∷ replicate 16 0)) fs file

  -- With a reply buffer of 64 bytes and 64 bytes of stack, and a request whose mode lies in
  -- memory, `jl_su_device_init` looks for the idle bank in mode 3 and for the named file
  -- otherwise. If the low byte of the result is 0, it answers with success, the file's address
  -- and size, and the offset and alignment of the flash; otherwise with `other_error` and 16
  -- bytes of 0.
  pub jl_su_device_init_lem :
      (mode : ℕ)
      → load ops 22 ≡ ok mode
      → let (err, file, fs) =
          if mode == 3
          then p.get_idle_bank_info dev.upgrade_file mode dev.fs
          else p.fopen_by_name dev.upgrade_file (drop 6 ops) mode dev.fs in
        Answered p build dev
          (reply_frame p build (
            0xC0
            ∷ (if u8 err == 0 then suss ∷ init_params file fs else other_error ∷ replicate 16 0)))
          fs
          file
          (jl_su_device_init p build ops dev)
  unfolding jl_su_device_init
  jl_su_device_init_lem mode e = rw e (init_reply_lem _ _ _)

  check_reply_lem :
      (status : ℕ) (params : List ℕ) {buf : List ℕ}
      → length params ≡ 20
      → Filled params buf
      → Answered p build dev
          (reply_frame p build (0xC1 ∷ status ∷ (params ++ le32 sdk_id)))
          dev.fs
          dev.upgrade_file
          (check_reply p build status (record dev { dev_g_buf = buf }))
  unfolding check_reply
  check_reply_lem status params {buf} size f =
      poke_next
        (Answered p build dev (reply_frame p build (0xC1 ∷ status ∷ (params ++ le32 sdk_id))) dev.fs
          dev.upgrade_file)
        (record dev { dev_g_buf = buf }) params (le32 sdk_id) 26 _ f (omega arith) (omega arith)
        λ buf1 f1.
          finish_lem p build dev stack dev.fs dev.upgrade_file 0xC1 status 26
            (params ++ le32 sdk_id) f1 (omega (arith, length-append params (le32 sdk_id)))
            (omega (arith, length-append params (le32 sdk_id)))

  -- With a reply buffer of 64 bytes and 64 bytes of stack, and a request whose fields lie in
  -- memory, and ids of 16 and 4 bytes from the library, `jl_su_devcie_check` answers the right id
  -- with success, the vendor id and the product id; any other id with `sdk_id_error` and the 20
  -- bytes that the buffer held. Its own id follows in both cases, and the file system is not
  -- touched.
  pub jl_su_devcie_check_lem :
      (id : ℕ)
      → load32 ops 6 ≡ ok id
      → length (p.get_pid dev.fs) ≡ 16
      → length (p.get_vid dev.fs) ≡ 4
      → Answered p build dev
          (reply_frame p build (
            0xC1
            ∷ (if id == sdk_id
                then suss ∷ ((p.get_vid dev.fs ++ p.get_pid dev.fs) ++ le32 sdk_id)
                else sdk_id_error ∷ (take 20 (drop 6 dev.dev_g_buf) ++ le32 sdk_id))))
          dev.fs
          dev.upgrade_file
          (jl_su_devcie_check p build ops dev)
  unfolding jl_su_devcie_check
  jl_su_devcie_check_lem id e pid vid = elim (Bool-cases (id == sdk_id)) [
    | inl t ↦
        rw (e, t)
          (poke_next X dev old (p.get_pid dev.fs) 10 _ (fill_skip 4 start (omega arith))
            (omega (arith, old_size)) (omega (arith, old_size))
            λ buf1 f1.
              poke_over X (record dev { dev_g_buf = buf1 }) [] old (p.get_pid dev.fs)
                (p.get_vid dev.fs) 6 _ f1 refl (omega (arith, old_size))
                λ buf2 f2.
                  check_reply_lem suss (p.get_vid dev.fs ++ p.get_pid dev.fs)
                    (omega (arith, length-append (p.get_vid dev.fs) (p.get_pid dev.fs))) f2)
    | inr t ↦
        rw (e, t) (check_reply_lem sdk_id_error (take 20 (drop 6 dev.dev_g_buf)) stale_size stale)
  ]
    where
      start : Filled [] dev.dev_g_buf
      start = fill_start dev.dev_g_buf buffer

      old : List ℕ
      old = take 4 start.rest

      old_size : length old ≡ 4
      old_size = omega (arith, start.size, length-take 4 start.rest)

      stale_size : length (take 20 (drop 6 dev.dev_g_buf)) ≡ 20
      stale_size = omega (arith, length-take 20 (drop 6 dev.dev_g_buf), length-drop 6 dev.dev_g_buf)

      stale : Filled (take 20 (drop 6 dev.dev_g_buf)) dev.dev_g_buf
      stale =
          subst (λ l. Filled (take 20 l) dev.dev_g_buf) (fill_start-rest dev.dev_g_buf buffer)
            (fill_skip 20 start (omega arith))

      X : Result (Device Fs) → Type 0
      X =
          Answered p build dev
            (reply_frame p build
              (0xC1 ∷ suss ∷ ((p.get_vid dev.fs ++ p.get_pid dev.fs) ++ le32 sdk_id)))
            dev.fs dev.upgrade_file
