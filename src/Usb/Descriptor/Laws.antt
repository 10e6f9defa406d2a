-- ===== src/Usb/Descriptor/Laws.antt =====
-- What the functions of descriptor.c write.
use fw_bootloader.Common.{
  ℕ, ◌≤◌, ◌≡◌, refl, List, [], ◌∷◌, ◌++◌, append-nil, Bool, true, false, length, drop, arith,
  get_elem?, some,
}
use fw_bootloader.Common.Memory.{Result, ok, slice, slice-append, splice_front}
use fw_bootloader.Usb.Descriptor.{
  device_descriptor, language_str, product_string, manufacture_str, copy_str, get_device_descriptor,
  get_language_str, get_manufacture_str, get_product_str,
}

-- What is written through the pointer: all of the descriptor, and nothing behind it.
abbrev pub Writes : List ℕ → List ℕ → Result (List ℕ) → Type 0
Writes descriptor ptr r = r ≡ ok (descriptor ++ drop (length descriptor) ptr)

slice_whole : (xs : List ℕ) (n : ℕ) → n ≡ length xs → slice xs 0 n ≡ ok xs
slice_whole xs n e = rw (append-nil xs) at (slice-append xs [] n e)

-- A string that starts with its length is copied whole.
copy_str_lem :
    (text ptr : List ℕ) (size : ℕ)
    → size ≡ length (size ∷ text)
    → size ≤ length ptr
    → Writes (size ∷ text) ptr (copy_str (size ∷ text) ptr)
unfolding copy_str
copy_str_lem text ptr size whole fits =
    rw (slice_whole (size ∷ text) size whole)
      (splice_front ptr (size ∷ text) (omega (arith, whole, fits)))

device_descriptor_copied :
    (fusb_mode : Bool) (ptr : List ℕ)
    → 18 ≤ length ptr
    → Writes (device_descriptor fusb_mode) ptr (get_device_descriptor fusb_mode ptr)
unfolding get_device_descriptor
device_descriptor_copied true ptr fits =
    rw (slice_whole (device_descriptor true) 18 refl)
      (splice_front ptr (device_descriptor true) fits)
device_descriptor_copied false ptr fits =
    rw (slice_whole (device_descriptor false) 18 refl)
      (splice_front ptr (device_descriptor false) fits)

device_descriptor-head :
    (fusb_mode : Bool)
    → get_elem? (device_descriptor fusb_mode) 0 ≡ some (length (device_descriptor fusb_mode))
device_descriptor-head true = refl
device_descriptor-head false = refl

-- Where the pointer has room for 42 bytes, the functions for the device descriptor and for the language,
-- manufacturer and product strings each write their descriptor whole, so that its first byte is the
-- number of bytes that are written, and leave all bytes behind it as they were, in both speeds.
pub descriptors_lem :
    (fusb_mode : Bool) (ptr : List ℕ)
    → 42 ≤ length ptr
    → Writes (device_descriptor fusb_mode) ptr (get_device_descriptor fusb_mode ptr)
      × Writes language_str ptr (get_language_str ptr)
      × Writes manufacture_str ptr (get_manufacture_str ptr)
      × Writes product_string ptr (get_product_str ptr)
      × (get_elem? (device_descriptor fusb_mode) 0 ≡ some (length (device_descriptor fusb_mode)))
      × (get_elem? language_str 0 ≡ some (length language_str))
      × (get_elem? manufacture_str 0 ≡ some (length manufacture_str))
      × (get_elem? product_string 0 ≡ some (length product_string))
descriptors_lem fusb_mode ptr room = (
  device_descriptor_copied fusb_mode ptr (omega (arith, room)),
  copy_str_lem (3 ∷ 9 ∷ 4 ∷ []) ptr 4 refl (omega (arith, room)),
  copy_str_lem (drop 1 manufacture_str) ptr 34 refl (omega (arith, room)),
  copy_str_lem (drop 1 product_string) ptr 42 refl (omega (arith, room)),
  device_descriptor-head fusb_mode,
  refl,
  refl,
  refl,
)
