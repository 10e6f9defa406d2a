-- ===== src/Commands/FlashCrc.antt =====
-- `jl_su_flash_crc`: the list of CRCs that it answers, and where it writes outside the buffer.
use fw_bootloader.Common.{
  ℕ, zero, suc, ◌+◌, ◌*◌, ◌/◌, ◌≤◌, ◌<◌, ◌≡◌, refl, ap, sym, ◌∙◌, subst, List, [], ◌∷◌, ◌++◌,
  append-nil, append_assoc, length, take, arith, length-append, u16, u32, le16,
}
use native.Mathlib.Decide.{dec_le}
use fw_bootloader.Common.Memory.{ok, fault, ◌>>=◌, load32, divide-ok, slice-ok, splice-fault}
use fw_bootloader.Platform.{JlfsFile, Platform, Build}
use fw_bootloader.Device.{Device, poke, suss}
use fw_bootloader.Device.Reply.{reply_frame}
use fw_bootloader.Commands.{finish, crc_loop, jl_su_flash_crc}
use fw_bootloader.Commands.Fill.{Filled, fill_start, fill_next, Answered, finish_lem, finish-fault}

module _ {Fs : Type 0} (p : Platform Fs) (l : ℕ) where
  -- The CRCs of the next blocks of the open file, two bytes each, and what the reads leave.
  pub block_crcs : ℕ → List ℕ → JlfsFile → Fs → List ℕ × JlfsFile × Fs
  block_crcs zero mem file fs = ([], file, fs)
  block_crcs (suc n) mem file fs =
      let (len, mem', file', fs') = p.fread file mem l fs in
      let (rest, file'', fs'') = block_crcs n mem' file' fs' in
      (le16 (u16 (p.chip_crc16 (take l mem'))) ++ rest, file'', fs'')

  pub length-block_crcs :
      (n : ℕ) (mem : List ℕ) (file : JlfsFile) (fs : Fs)
      → length (block_crcs n mem file fs).0 ≡ 2 * n
  unfolding block_crcs
  length-block_crcs zero mem file fs = refl
  length-block_crcs (suc n) mem file fs =
      let (len, mem', file', fs') = p.fread file mem l fs in
      omega (arith, length-block_crcs n mem' file' fs')

module _ {Fs : Type 0} (p : Platform Fs) (build : Build) (l : ℕ)
    (keeps : (file : JlfsFile) (mem : List ℕ) (n : ℕ) (fs : Fs)
      → length (p.fread file mem n fs).1 ≡ length mem) where
  -- The device after some rounds of the loop.
  abbrev after_reads : Device Fs → JlfsFile × Fs → List ℕ → Device Fs
  after_reads dev (file, fs) buf = record dev { fs = fs; upgrade_file = file; dev_g_buf = buf }

  -- The CRC that the next round stores.
  abbrev next_crc : List ℕ → Device Fs → List ℕ
  next_crc mem dev = le16 (u16 (p.chip_crc16 (take l (p.fread dev.upgrade_file mem l dev.fs).1)))

  abbrev after_read : List ℕ → Device Fs → List ℕ → Device Fs
  after_read mem dev buf =
      let (len, mem', file, fs) = p.fread dev.upgrade_file mem l dev.fs in
      after_reads dev (file, fs) buf

  crc_loop-suc :
      (left i : ℕ) (params mem : List ℕ) (dev : Device Fs)
      → Filled params dev.dev_g_buf
      → length params ≡ i * 2
      → length params + 2 ≤ 58
      → l ≤ length mem
      → (buf : List ℕ) × (crc_loop p build l (suc left) i mem dev
          ≡ crc_loop p build l left
              (i + 1)
              (p.fread dev.upgrade_file mem l dev.fs).1
              (after_read mem dev buf))
        × Filled (params ++ next_crc mem dev) buf
  unfolding crc_loop poke
  crc_loop-suc left i params mem dev f at fits room =
      let (buf, e, f') =
        fill_next params (next_crc mem dev) (6 + i * 2) f (omega arith) (omega arith) in
      (
        buf,
        rw (
          slice-ok (p.fread dev.upgrade_file mem l dev.fs).1 0 l
              (omega (arith, keeps dev.upgrade_file mem l dev.fs)),
          e,
        ),
        f',
      )

  -- A round at the end of the buffer.
  crc_loop-end :
      (left i : ℕ) (mem : List ℕ) (dev : Device Fs)
      → length dev.dev_g_buf ≡ 64
      → 58 ≤ i * 2
      → l ≤ length mem
      → crc_loop p build l (suc left) i mem dev ≡ fault
  unfolding crc_loop poke
  crc_loop-end left i mem dev size far room = rw (
    slice-ok (p.fread dev.upgrade_file mem l dev.fs).1 0 l
        (omega (arith, keeps dev.upgrade_file mem l dev.fs)),
    splice-fault dev.dev_g_buf (6 + i * 2) (next_crc mem dev) (omega arith),
  )

  crc_loop_lem :
      (left i : ℕ) (params mem : List ℕ) (dev : Device Fs)
      → Filled params dev.dev_g_buf
      → length params ≡ i * 2
      → length params + 2 * left ≤ 58
      → l ≤ length mem
      → let (crcs, file, fs) = block_crcs p l left mem dev.upgrade_file dev.fs in
        (buf : List ℕ) × (crc_loop p build l left i mem dev ≡ ok (after_reads dev (file, fs) buf))
        × Filled (params ++ crcs) buf
  unfolding block_crcs
  crc_loop_lem zero i params mem dev f at fits room = (
    dev.dev_g_buf,
    unfold crc_loop in refl,
    subst (λ q. Filled q dev.dev_g_buf) (sym (append-nil params)) f,
  )
  crc_loop_lem (suc left) i params mem dev f at fits room =
      let (buf1, e1, f1) = crc_loop-suc left i params mem dev f at (omega arith) room in
      let (buf2, e2, f2) =
        crc_loop_lem left (i + 1) (params ++ next_crc mem dev)
          (p.fread dev.upgrade_file mem l dev.fs).1 (after_read mem dev buf1) f1
          (omega (arith, length-append params (next_crc mem dev)))
          (omega (arith, length-append params (next_crc mem dev)))
          (omega (arith, keeps dev.upgrade_file mem l dev.fs)) in
      (buf2, e1 ∙ e2, subst (λ q. Filled q buf2) (append_assoc params (next_crc mem dev) _) f2)

  -- With more blocks than the buffer has room for, some round stores outside it.
  crc_loop-fault :
      (left i : ℕ) (params mem : List ℕ) (dev : Device Fs)
      → Filled params dev.dev_g_buf
      → length params ≡ i * 2
      → 58 < length params + 2 * left
      → l ≤ length mem
      → crc_loop p build l left i mem dev ≡ fault
  crc_loop-fault zero i params mem dev f at over room = absurd (omega (arith, f.size))
  crc_loop-fault (suc left) i params mem dev f at over room = elim (dec_le (length params + 2) 58) [
    | yes fits ↦
        let (buf1, e1, f1) = crc_loop-suc left i params mem dev f at fits room in
        e1
        ∙ crc_loop-fault left (i + 1) (params ++ next_crc mem dev)
            (p.fread dev.upgrade_file mem l dev.fs).1 (after_read mem dev buf1) f1
            (omega (arith, length-append params (next_crc mem dev)))
            (omega (arith, length-append params (next_crc mem dev)))
            (omega (arith, keeps dev.upgrade_file mem l dev.fs))
    | no full ↦
        crc_loop-end left i mem dev
          (omega (arith, ap length f.at, length-append params f.rest, f.size)) (omega arith) room
  ]

-- What the CRC command relies on: a read keeps the size of the memory it reads into, and the global
-- buffer has the size asked for.
module _ {Fs : Type 0} (p : Platform Fs) (build : Build)
    (keeps : (file : JlfsFile) (mem : List ℕ) (n : ℕ) (fs : Fs)
      → length (p.fread file mem n fs).1 ≡ length mem)
    (global : (n : ℕ) (fs : Fs) → n ≤ length (p.get_global_buffer n fs)) (dev : Device Fs)
    (ops : List ℕ) (stack : 64 ≤ length (p.stack dev.events)) (buffer : length dev.dev_g_buf ≡ 64)
    (address len block_size : ℕ) (at_address : load32 ops 6 ≡ ok address)
    (at_len : load32 ops 10 ≡ ok len) (at_size : load32 ops 14 ≡ ok block_size)
    (positive : 0 < block_size) where
  count : ℕ
  count = len / block_size

  -- The device when the loop starts, and the memory that it reads into.
  abbrev sought : Device Fs
  sought =
      let (file, fs) = p.fseek dev.upgrade_file address dev.fs in
      record dev { upgrade_file = file; fs = fs }

  abbrev global_mem : List ℕ
  global_mem = p.get_global_buffer dev.flash_alignsize dev.fs

  entered : jl_su_flash_crc p build ops dev ≡ (
      crc_loop p build dev.flash_alignsize count 0 global_mem sought
      >>= finish p build 0xC4 suss (u32 (1 + 1 + count * 2)))
  unfolding jl_su_flash_crc count
  entered = rw (at_address, at_len, at_size, divide-ok len block_size positive)

  looped :
      count ≤ 29
      → let (crcs, file, fs) =
          block_crcs p dev.flash_alignsize count global_mem sought.upgrade_file sought.fs in
        (buf : List ℕ) × (crc_loop p build dev.flash_alignsize count 0 global_mem sought
          ≡ ok (after_reads p build dev.flash_alignsize keeps sought (file, fs) buf))
        × Filled crcs buf
  looped few =
      crc_loop_lem p build dev.flash_alignsize keeps count 0 [] global_mem sought
        (fill_start dev.dev_g_buf buffer) refl (omega arith) (global dev.flash_alignsize dev.fs)

  -- With a reply buffer of 64 bytes and 64 bytes of stack, a request whose fields lie in memory
  -- and whose block size is not 0, a library that keeps the size of the memory it reads into and
  -- hands out a global buffer of at least the size asked for, and at most 28 blocks,
  -- `jl_su_flash_crc` answers the CRC of each block, read one after the other from the address
  -- on, each over `flash_alignsize` bytes.
  pub jl_su_flash_crc_lem :
      len / block_size ≤ 28
      → let (file, fs) = p.fseek dev.upgrade_file address dev.fs in
        let l = dev.flash_alignsize in
        let (crcs, file', fs') =
          block_crcs p l (len / block_size) (p.get_global_buffer l dev.fs) file fs in
        Answered p build dev
          (reply_frame p build (0xC4 ∷ suss ∷ crcs))
          fs'
          file'
          (jl_su_flash_crc p build ops dev)
  unfolding count
  jl_su_flash_crc_lem few =
      let (buf, e, f) = looped (omega arith) in
      rw (entered, e)
        (finish_lem p build dev stack _ _ 0xC4 suss (u32 (1 + 1 + count * 2)) _ f
          (omega (
            arith,
            length-block_crcs p dev.flash_alignsize count global_mem sought.upgrade_file sought.fs,
          ))
          (omega (
            arith,
            length-block_crcs p dev.flash_alignsize count global_mem sought.upgrade_file sought.fs,
          )))

  -- With a reply buffer of 64 bytes and 64 bytes of stack, a request whose fields lie in memory
  -- and whose block size is not 0, a library that keeps the size of the memory it reads into and
  -- hands out a global buffer of at least the size asked for, and more than 28 blocks,
  -- `jl_su_flash_crc` accesses memory outside the 64 bytes of `dev_g_buf`, or of the packet.
  pub jl_su_flash_crc-fault : 28 < len / block_size → jl_su_flash_crc p build ops dev ≡ fault
  unfolding count
  jl_su_flash_crc-fault many = elim (dec_le count 29) [
    | yes few ↦
        let (buf, e, f) = looped few in
        rw (entered, e)
          (finish-fault p build 0xC4 suss (u32 (1 + 1 + count * 2)) _
            (after_reads p build dev.flash_alignsize keeps sought _ buf) f (omega arith))
    | no more ↦
        entered
        ∙ (rw (
            crc_loop-fault p build dev.flash_alignsize keeps count 0 [] global_mem sought
              (fill_start dev.dev_g_buf buffer) refl (omega arith)
              (global dev.flash_alignsize dev.fs)))
  ]
