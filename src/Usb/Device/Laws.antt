-- ===== src/Usb/Device/Laws.antt =====
-- The state that the start of the USB device leaves.
use fw_bootloader.Common.{
  ℕ, zero, suc, ◌≡◌, refl, true, false, none, ◌==◌, replicate, bit_and, if◌then◌else◌, Bool-cases,
  inl, inr,
}
use fw_bootloader.Usb.{Usb, call, usb_add_desc_config}
use fw_bootloader.Usb.Config.{max_ep}
use fw_bootloader.Usb.Config.Tables.{HidAt, Wired, Room}
use fw_bootloader.Usb.Hid.{hid_register}
use fw_bootloader.Usb.Device.{usb_device_init, usb_device_mode, max_interface_num, hid_class}

replicate-HidAt : (P : ℕ → Type 0) (n : ℕ) → HidAt P (replicate n none)
replicate-HidAt P zero k e = cc
replicate-HidAt P (suc n) zero e = cc
replicate-HidAt P (suc n) (suc k) e = absurd (replicate-HidAt (λ i. ⊥) n k e)

usb_device_init-Wired : (u : Usb) → Room u → Wired (usb_device_init u)
unfolding usb_device_init
usb_device_init-Wired u room =
    ((refl, refl), (replicate-HidAt (λ k. ⊥) max_ep, (replicate-HidAt (λ k. k ≡ 2) max_ep, room)))

-- The registration of the HID class leaves the buffers alone.
started :
    (class : ℕ) (u : Usb)
    → Room u
    → Room (
        if bit_and class hid_class == hid_class
        then call (usb_add_desc_config 0 true) (hid_register u)
        else u)
unfolding hid_register
started class u room = elim (Bool-cases (bit_and class hid_class == hid_class)) [
  | inl t ↦ rw t room
  | inr t ↦ rw t room
]

-- Started for a class, the device has empty tables.
pub usb_device_mode-Wired :
    (class : ℕ) (u : Usb) → (class == 0) ≡ false → Room u → Wired (usb_device_mode class u).1
unfolding usb_device_mode
usb_device_mode-Wired class u on room =
    let u1 = call (usb_add_desc_config max_interface_num false) u in
    let u2 =
      if bit_and class hid_class == hid_class
      then call (usb_add_desc_config 0 true) (hid_register u1)
      else u1 in
    rw on (usb_device_init-Wired u2 (started class u1 room))
