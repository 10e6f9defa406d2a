-- ===== src/Host/Update/Crcs/Laws.antt =====
-- The CRC lists of the host read inside the file.
use fw_bootloader.Common.{
  ℕ, zero, suc, ◌+◌, ◌*◌, ◌^◌, ◌≤◌, ◌<◌, ◌≡◌, refl, ap, true, List, [], ◌∷◌, ◌++◌, length, take,
  drop, arith, u32, le16,
}
use fw_bootloader.Common.Memory.{ok, slice-ok}
use fw_bootloader.Host.Crc.{chip_crc16}
use fw_bootloader.Host.Update.Crcs.{crc_list_loop, get_buffer_crc_list, same_crcs}

-- The list over blocks that lie in memory has two bytes for each.
crc_list_loop-ok :
    (buf : List ℕ) (unit left offset : ℕ)
    → (offset + left) * unit ≤ length buf
    → length buf < 2 ^ 32
    → (crcs : List ℕ) × (crc_list_loop buf unit left offset ≡ ok crcs) × (length crcs ≡ 2 * left)
unfolding crc_list_loop
crc_list_loop-ok buf unit zero offset fits small = ([], refl, omega arith)
crc_list_loop-ok buf unit (suc left) offset fits small =
    let inside : offset * unit + unit ≤ length buf = grind arith in
    let at : u32 (offset * unit) ≡ offset * unit = omega arith in
    let later : (offset + 1 + left) * unit ≤ length buf = grind arith in
    let (crcs, e, size) = crc_list_loop-ok buf unit left (offset + 1) later small in
    let block = take unit (drop (u32 (offset * unit)) buf) in
    (
      le16 (chip_crc16 block) ++ crcs,
      rw (slice-ok buf (u32 (offset * unit)) unit (omega arith), e) refl,
      omega arith,
    )

pub get_buffer_crc_list-ok :
    (buf : List ℕ) (count unit : ℕ)
    → count * unit ≤ length buf
    → length buf < 2 ^ 32
    → (crcs : List ℕ) × (get_buffer_crc_list buf count unit ≡ ok crcs) × (length crcs ≡ 2 * count)
unfolding get_buffer_crc_list
get_buffer_crc_list-ok buf count unit fits small =
    let start : (0 + count) * unit ≤ length buf =
      omega (arith, ap (λ n. n * unit) (zero_plus count)) in
    crc_list_loop-ok buf unit count 0 start small
  where
    zero_plus : (n : ℕ) → 0 + n ≡ n
    zero_plus n = omega arith

pub same_crcs-eq : (xs ys : List ℕ) → same_crcs xs ys ≡ true → xs ≡ ys
unfolding same_crcs
same_crcs-eq [] [] e = refl
same_crcs-eq [] (y ∷ ys) e = cc
same_crcs-eq (x ∷ xs) [] e = cc
same_crcs-eq (x ∷ xs) (y ∷ ys) e = ground (arith, same_crcs-eq xs ys)
