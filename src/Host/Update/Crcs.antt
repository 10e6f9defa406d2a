-- ===== src/Host/Update/Crcs.antt =====
-- The CRC lists of the host: `getBufferCrcList`, and their comparison by `memcmp`.
pub mod Laws
use fw_bootloader.Common.{
  ℕ, zero, suc, ◌+◌, ◌*◌, List, [], ◌∷◌, ◌++◌, Bool, true, false, ◌&&◌, ◌==◌, u32, le16,
}
use fw_bootloader.Common.Memory.{Result, ok, ◌>>=◌, slice}
use fw_bootloader.Host.Crc.{chip_crc16}

-- The list from the block `offset` on, as bytes, with `left` blocks to go.
unfoldable pub crc_list_loop : List ℕ → ℕ → ℕ → ℕ → Result (List ℕ)
crc_list_loop file_buf unit zero offset = ok []
crc_list_loop file_buf unit (suc left) offset = do
  block ← slice file_buf (u32 (offset * unit)) unit
  crcs ← crc_list_loop file_buf unit left (offset + 1)
  ok (le16 (chip_crc16 block) ++ crcs)

unfoldable pub get_buffer_crc_list : List ℕ → ℕ → ℕ → Result (List ℕ)
get_buffer_crc_list file_buf block_count unit = crc_list_loop file_buf unit block_count 0

-- `memcmp(...) == 0` over the whole of two lists of the same size.
unfoldable pub same_crcs : List ℕ → List ℕ → Bool
same_crcs [] [] = true
same_crcs (x ∷ xs) (y ∷ ys) = x == y && same_crcs xs ys
same_crcs [] (y ∷ ys) = false
same_crcs (x ∷ xs) [] = false
