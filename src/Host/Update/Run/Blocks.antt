-- ===== src/Host/Update/Run/Blocks.antt =====
-- The blocks of the file that the upgrade compares and writes.
use fw_bootloader.Common.{
  ℕ, zero, suc, ◌+◌, ◌-◌, ◌*◌, ◌/◌, ◌^◌, ◌≤◌, ◌<◌, ◌≡◌, ◌∙◌, List, length, Bool-cases, inl, inr,
  ◌==◌, ==_iff, if◌then◌else◌, replicate, length-replicate, length-append, arith, u32,
}
use native.Mathlib.Nat.{lt-div-mul-add, div-mul-le_self, mul-le-mul_left}
use fw_bootloader.Host.Update.Run.{fill}

-- The blocks of a file of `size` bytes, the last of them in part.
blocks :
    (size unit : ℕ)
    → 0 < size
    → 0 < unit
    → size + unit < 2 ^ 32
    → let count = u32 (size + unit + 2 ^ 32 - 1) / unit in
      (size ≤ count * unit) × (count * unit < size + unit) × (0 < count) × (count ≤ count * unit)
blocks size unit some_bytes positive small =
    let whole : u32 (size + unit + 2 ^ 32 - 1) ≡ size + unit - 1 = omega arith in
    let q = (size + unit - 1) / unit in
    let above : size + unit - 1 < q * unit + unit = lt-div-mul-add positive in
    let below : q * unit ≤ size + unit - 1 = div-mul-le_self (size + unit - 1) unit in
    let more : q * 1 ≤ q * unit = mul-le-mul_left q (omega arith) in
    let covered : size ≤ q * unit = omega arith in
    rw whole (covered, omega arith, not_none q covered, omega arith)
  where
    zero_times : (n : ℕ) → 0 * n ≡ 0
    zero_times n = omega arith

    not_none : (q : ℕ) → size ≤ q * unit → 0 < q
    not_none zero h = absurd (omega (arith, zero_times unit))
    not_none (suc q) h = omega arith

-- The content that is written ends with the last block.
pub length-fill : (file : List ℕ) (size : ℕ) → length file ≤ size → length (fill file size) ≡ size
unfolding fill
length-fill file size h = omega (
  arith,
  length-append file (replicate (size - length file) 0xFF),
  length-replicate {A = ℕ} (size - length file) 0xFF,
)

-- The bytes of the file from the zone on, filled up to whole blocks.
module _ (file : List ℕ) (zone unit : ℕ) where
  abbrev pub file_size : ℕ
  file_size = u32 (length file + 2 ^ 32 - zone)

  abbrev pub block_count : ℕ
  block_count = u32 (file_size + unit + 2 ^ 32 - 1) / unit

  abbrev pub content : List ℕ
  content =
      if u32 (block_count * unit) == file_size
      then file
      else fill file (length file + u32 (u32 (block_count * unit) + 2 ^ 32 - file_size))

  module _ (inside : zone < length file) (positive : 0 < unit)
      (small : length file + unit < 2 ^ 32) where
    pub size : file_size ≡ length file - zone
    size = omega arith

    pub counted :
        (file_size ≤ block_count * unit)
        × (block_count * unit < file_size + unit)
        × (0 < block_count)
        × (block_count ≤ block_count * unit)
    counted = blocks file_size unit (omega (arith, size)) positive (omega (arith, size))

    pub length-content : length content ≡ zone + block_count * unit
    length-content =
        let (below, above, some_blocks, bound) = counted in
        let whole : u32 (block_count * unit) ≡ block_count * unit = omega (arith, size) in
        elim (Bool-cases (u32 (block_count * unit) == file_size)) [
          | inl t ↦
              let same : u32 (block_count * unit) ≡ file_size = (==_iff _ _).0 t in
              rw t (omega (arith, size))
          | inr t ↦
              let total = length file + u32 (u32 (block_count * unit) + 2 ^ 32 - file_size) in
              rw t (length-fill file total (omega arith) ∙ omega (arith, size))
        ]
