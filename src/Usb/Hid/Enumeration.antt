-- ===== src/Usb/Hid/Enumeration.antt =====
-- What the host reads when it enumerates the interface of hid.c.
use fw_bootloader.Common.{
  ℕ, zero, suc, ◌+◌, ◌-◌, ◌%◌, ◌≡◌, refl, List, [], ◌∷◌, ◌++◌, Option, none, some, if◌then◌else◌,
  ltb, length, take, drop, get_elem?, u8, u32,
}
use fw_bootloader.Common.Memory.{ok, load16, splice, splice-append}
use fw_bootloader.Usb.{Usb, call, usb_set_reset_hander, usb_set_interface_hander}
use fw_bootloader.Usb.Hid.{hid_desc_config, hid_descriptor, hid_report_desc}

-- The walk over descriptors that a host does: the first byte of each is its length, the second its type.
-- The types, or `none` where a descriptor is shorter than its own head or goes past the end.
abbrev pub descriptor_types : ℕ → List ℕ → Option (List ℕ)
descriptor_types fuel [] = some []
descriptor_types zero (size ∷ rest) = none
descriptor_types (suc fuel) (size ∷ []) = none
descriptor_types (suc fuel) (size ∷ type ∷ rest) =
    let later = descriptor_types fuel (drop (size - 2) rest) in
    if ltb size 2
    then none
    else if ltb (length rest) (size - 2)
    then none
    else elim later [ none ↦ none | some types ↦ some (type ∷ types) ]

-- The same walk over the items of a report descriptor, whose low two bits tell 0, 1, 2 or 4 bytes of
-- data: the prefixes.
abbrev pub data_size : ℕ → ℕ
data_size prefix = if ltb (prefix % 4) 3 then prefix % 4 else 4

abbrev pub report_items : ℕ → List ℕ → Option (List ℕ)
report_items fuel [] = some []
report_items zero (prefix ∷ rest) = none
report_items (suc fuel) (prefix ∷ rest) =
    let later = report_items fuel (drop (data_size prefix) rest) in
    if ltb (length rest) (data_size prefix)
    then none
    else elim later [ none ↦ none | some items ↦ some (prefix ∷ items) ]

-- The bytes for the interface of number `n`.
abbrev pub configured : ℕ → List ℕ
configured n =
    9
    ∷ 4
    ∷ u8 n
    ∷ (drop 3 (take 16 hid_descriptor) ++ (length hid_report_desc ∷ 0 ∷ drop 18 hid_descriptor))

-- Where 32 bytes may be written, `hid_desc_config` writes exactly these, returns 32, hands out the next
-- interface number and registers its two handlers under the number it was given. The bytes are well
-- formed: a host that walks them finds an interface, a HID descriptor and two endpoints and ends exactly
-- behind them. The interface has the number, and the length of the report descriptor that the HID
-- descriptor tells is the length of the one that is served, whose items end exactly with it too: a
-- collection with one input and one output.
pub hid_desc_config_lem :
    (old rest : List ℕ) (n : ℕ) (u : Usb)
    → length old ≡ 32
    → (hid_desc_config (old ++ rest) n u
        ≡ ok (
          32,
          configured n ++ rest,
          u32 (n + 1),
          call (usb_set_reset_hander n) (call (usb_set_interface_hander n) u),
        ))
      × (descriptor_types 32 (configured n) ≡ some (4 ∷ 0x21 ∷ 5 ∷ 5 ∷ []))
      × (get_elem? (configured n) 2 ≡ some (u8 n))
      × (load16 (configured n) 16 ≡ ok (length hid_report_desc))
      × (report_items 36 hid_report_desc
          ≡ some (
              0x06 ∷ 0x09 ∷ 0xA1 ∷ 0x09 ∷ 0x16 ∷ 0x26 ∷ 0x75 ∷ 0x95 ∷ 0x81 ∷ 0x09 ∷ 0x16 ∷ 0x26
              ∷ 0x75 ∷ 0x95 ∷ 0x91 ∷ 0xC0 ∷ []))
unfolding hid_desc_config
hid_desc_config_lem old rest n u size =
    let d = hid_descriptor in
    let filled = take 2 d ++ u8 n ∷ drop 3 d in
    let e1 : splice (old ++ rest) 0 d ≡ ok (d ++ rest) = splice-append [] old rest d 0 refl size in
    let e2 : splice (d ++ rest) 2 (u8 n ∷ []) ≡ ok (filled ++ rest) =
      splice-append (take 2 d) (0 ∷ []) (drop 3 d ++ rest) (u8 n ∷ []) 2 refl refl in
    let e3 : splice (filled ++ rest) 16 (36 ∷ [])
        ≡ ok ((take 16 filled ++ 36 ∷ drop 17 filled) ++ rest) =
      splice-append (take 16 filled) (0 ∷ []) (drop 17 filled ++ rest) (36 ∷ []) 16 refl refl in
    let e4 : splice (configured n ++ rest) 17 (0 ∷ []) ≡ ok (configured n ++ rest) =
      splice-append (take 17 (configured n)) (0 ∷ []) (drop 18 (configured n) ++ rest) (0 ∷ []) 17
        refl refl in
    (rw (e1, e2, e3, e4) refl, refl, refl, refl, refl)
