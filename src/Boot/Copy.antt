-- ===== src/Boot/Copy.antt =====
-- The loop that copies the boot loader: that it ends, and how much it copies.
use fw_bootloader.Common.{
  Option, true, ap, ℕ, zero, suc, ◌+◌, ◌-◌, ◌≡◌, ◌<◌, min, refl, List, false, some, ◌==◌, inl, inr,
  Bool-cases, arith,
}
use fw_bootloader.Platform.{JlfsFile, Platform}
use fw_bootloader.Boot.{copy_loop, copy_uboot}

module _ {Fs : Type 0} (p : Platform Fs) where
  -- `jlfs_fread` returns how many bytes were read, which is what is asked for or what the file has
  -- left, and moves on by them; `jlfs_fseek` to 0 goes to the start of the file.
  abbrev pub Reads : Type 0
  Reads =
      (f : JlfsFile) (mem : List ℕ) (l : ℕ) (fs : Fs)
      → ((p.fread f mem l fs).0 ≡ min l (f.size - f.pos))
        × ((p.fread f mem l fs).2.pos ≡ f.pos + (p.fread f mem l fs).0)
        × ((p.fread f mem l fs).2.size ≡ f.size)

  abbrev pub Seeks : Type 0
  Seeks =
      (f : JlfsFile) (fs : Fs) → ((p.fseek f 0 fs).0.pos ≡ 0) × ((p.fseek f 0 fs).0.size ≡ f.size)

  less_left :
      (l size pos size' pos' len n : ℕ)
      → len ≡ min l (size - pos)
      → pos' ≡ pos + len
      → size' ≡ size
      → (len == 0) ≡ false
      → size - pos < suc n
      → size' - pos' < n
  less_left l size pos size' pos' len n a b c d e = ground arith

  -- In more rounds than the file has bytes left the copy ends.
  pub copy_loop_ends :
      Reads
      → (n : ℕ) (file_copy file_paste : JlfsFile) (buf : List ℕ) (l : ℕ) (fs : Fs)
      → file_copy.size - file_copy.pos < n
      → (fs' : Fs) × (copy_loop p n file_copy file_paste buf l fs ≡ some fs')
  unfolding copy_loop
  copy_loop_ends reads zero file_copy file_paste buf l fs h = absurd (omega arith)
  copy_loop_ends reads (suc n) file_copy file_paste buf l fs h =
      elim (Bool-cases ((p.fread file_copy buf l fs).0 == 0)) [
        | inl t ↦ rw t ((p.fread file_copy buf l fs).3, refl)
        | inr t ↦ rw t (
            let (a, b, c) = reads file_copy buf l fs in
            copy_loop_ends reads n _ _ _ l _ (less_left l _ _ _ _ _ n a b c t h))
      ]

  start_left : (n size pos rounds : ℕ) → pos ≡ 0 → size ≡ n → n < rounds → size - pos < rounds
  start_left n size pos rounds a b c = omega arith

  -- When `jlfs_fread` returns the bytes that the file has left, up to those asked for, and moves on by
  -- them, and `jlfs_fseek` to 0 goes to the start, the copy of the boot loader ends within any number
  -- of rounds above the size that is copied, whatever the alignment of the flash.
  pub copy_uboot_ends :
      Reads
      → Seeks
      → (rounds flash_alignsize : ℕ) (fs : Fs) → p.get_flash_app_base_addr fs < rounds
      → (fs' : Fs) × (copy_uboot p rounds flash_alignsize fs ≡ some fs')
  unfolding copy_uboot
  copy_uboot_ends reads seeks rounds flash_alignsize fs h =
      let (a, b) = seeks _ _ in
      copy_loop_ends reads rounds _ _ _ flash_alignsize _ (start_left _ _ _ rounds a b h)

  module _ (written : Fs → ℕ) where
    -- `written` counts the bytes that `jlfs_write` was handed, and reading leaves it as it is.
    abbrev pub Counts : Type 0
    Counts =
        (f : JlfsFile) (mem : List ℕ) (l : ℕ) (fs : Fs)
        → (written (p.write f mem l fs).2 ≡ written fs + l)
          × (written (p.fread f mem l fs).3 ≡ written fs)

    same_count : (fs fs' : Fs) → ◌≡◌ {A = Option Fs} (some fs) (some fs') → written fs ≡ written fs'
    same_count fs fs' e = let e' : fs ≡ fs' = cc in ap written e'

    last_count :
        (l size pos len now fs1 after : ℕ)
        → len ≡ min l (size - pos)
        → 0 < l
        → (len == 0) ≡ true
        → fs1 ≡ now
        → fs1 ≡ after
        → after ≡ now + (size - pos)
    last_count l size pos len now fs1 after a b c d e = ground arith

    next_count :
        (l size pos len size' pos' now fs1 fs2 after : ℕ)
        → len ≡ min l (size - pos)
        → pos' ≡ pos + len
        → size' ≡ size
        → fs1 ≡ now
        → fs2 ≡ fs1 + len
        → after ≡ fs2 + (size' - pos')
        → after ≡ now + (size - pos)
    next_count l size pos len size' pos' now fs1 fs2 after a b c d e f = ground arith

    -- When `jlfs_fread` returns the bytes that the file has left, up to those asked for, and moves on
    -- by them, a copy in blocks of at least one byte that ends has handed `jlfs_write` exactly as many
    -- bytes as the file had left, by any count that `jlfs_write` raises by its length and
    -- `jlfs_fread` leaves.
    pub copy_loop_writes :
        Reads
        → Counts
        → (n : ℕ) (file_copy file_paste : JlfsFile) (buf : List ℕ) (l : ℕ) (fs fs' : Fs) → 0 < l
        → copy_loop p n file_copy file_paste buf l fs ≡ some fs'
        → written fs' ≡ written fs + (file_copy.size - file_copy.pos)
    unfolding copy_loop
    copy_loop_writes reads counts zero file_copy file_paste buf l fs fs' pos h = absurd (cc)
    copy_loop_writes reads counts (suc n) file_copy file_paste buf l fs fs' pos h =
        let (a, b, c) = reads file_copy buf l fs in
        let (_, kept) = counts file_copy buf l fs in
        elim (Bool-cases ((p.fread file_copy buf l fs).0 == 0)) [
          | inl t ↦ last_count l _ _ _ _ _ _ a pos t kept (same_count _ fs' (rw t at h))
          | inr t ↦
              next_count l _ _ _ _ _ _ _ _ _ a b c kept (counts _ _ _ _).0
                (copy_loop_writes reads counts n _ _ _ l _ fs' pos (rw t at h))
        ]
