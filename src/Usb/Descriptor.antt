-- ===== src/Usb/Descriptor.antt =====
-- The descriptors of user_boot/app/src/descriptor.c and the functions that hand them out.
pub mod Laws
use fw_bootloader.Common.{ℕ, ◌+◌, List, [], ◌∷◌, ◌++◌, Bool, if◌then◌else◌}
use fw_bootloader.Common.Memory.{Result, ok, fault, ◌>>=◌, load, slice, splice}

abbrev pub usb_dt_device_size : ℕ
usb_dt_device_size = 18

-- `fusb_mode` is FUSB_MODE of the chip's headers: USB 1.1 or USB 2.0.
abbrev pub device_descriptor : Bool → List ℕ
device_descriptor fusb_mode =
    usb_dt_device_size
    ∷ 1
    ∷ ((if fusb_mode then 0x10 ∷ 0x01 ∷ [] else 0x00 ∷ 0x02 ∷ [])
        ++ (0 ∷ 0 ∷ 0 ∷ 0x40 ∷ b'J' ∷ b'L' ∷ b'U' ∷ b'A' ∷ 0 ∷ 1 ∷ 1 ∷ 2 ∷ 0 ∷ 1 ∷ []))

abbrev pub language_str : List ℕ
language_str = 4 ∷ 3 ∷ 9 ∷ 4 ∷ []

-- The characters of a text as a string descriptor holds them, two bytes each.
abbrev pub wide : List ℕ → List ℕ
wide [] = []
wide (c ∷ cs) = c ∷ 0 ∷ wide cs

-- "USB Composite Device"
abbrev pub product_string : List ℕ
product_string =
    42
    ∷ 3
    ∷ wide (
        b'U' ∷ b'S' ∷ b'B' ∷ b' ' ∷ b'C' ∷ b'o' ∷ b'm' ∷ b'p' ∷ b'o' ∷ b's' ∷ b'i' ∷ b't' ∷ b'e'
        ∷ b' ' ∷ b'D' ∷ b'e' ∷ b'v' ∷ b'i' ∷ b'c' ∷ b'e' ∷ [])

-- "Jieli Technology"
abbrev pub manufacture_str : List ℕ
manufacture_str =
    34
    ∷ 3
    ∷ wide (
        0x4a ∷ 0x69 ∷ 0x65 ∷ 0x6c ∷ 0x69 ∷ 0x20 ∷ 0x54 ∷ 0x65 ∷ 0x63 ∷ 0x68 ∷ 0x6e ∷ 0x6f ∷ 0x6c
        ∷ 0x6f ∷ 0x67 ∷ 0x79 ∷ [])

-- Its length and number of interfaces are filled in by the stack.
abbrev pub usb_get_config_desc : List ℕ
usb_get_config_desc = 9 ∷ 2 ∷ 0 ∷ 0 ∷ 0 ∷ 1 ∷ 0 ∷ 0x80 ∷ 200 ∷ []

pub get_device_descriptor : Bool → List ℕ → Result (List ℕ)
get_device_descriptor fusb_mode ptr = do
  bytes ← slice (device_descriptor fusb_mode) 0 usb_dt_device_size
  splice ptr 0 bytes

-- `memcpy(ptr, str, str[0])`
pub copy_str : List ℕ → List ℕ → Result (List ℕ)
copy_str str ptr = do size ← load str 0; bytes ← slice str 0 size; splice ptr 0 bytes

abbrev pub get_language_str : List ℕ → Result (List ℕ)
get_language_str ptr = copy_str language_str ptr

abbrev pub get_manufacture_str : List ℕ → Result (List ℕ)
get_manufacture_str ptr = copy_str manufacture_str ptr

abbrev pub get_product_str : List ℕ → Result (List ℕ)
get_product_str ptr = copy_str product_string ptr

-- `get_iserialnumber_str` and `get_string_ee` write nothing.
abbrev pub get_iserialnumber_str : List ℕ → Result (List ℕ)
get_iserialnumber_str ptr = ok ptr

abbrev pub get_string_ee : List ℕ → Result (List ℕ)
get_string_ee ptr = ok ptr
