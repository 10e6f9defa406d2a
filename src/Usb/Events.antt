-- ===== src/Usb/Events.antt =====
-- The life of the USB device after its start: what happens to it in which state, as a step relation.
pub mod Flag
pub mod Laws
use fw_bootloader.Common.{
  ℕ, ◌==◌, ◌<◌, ◌≡◌, ◌≢◌, List, [], ◌∷◌, All, Option, some, Bool, false, true,
}
use fw_bootloader.Common.Memory.{Result, ok, ◌>>=◌}
use fw_bootloader.Usb.{Handler, hid_handler, Usb, UsbCall}
use fw_bootloader.Usb.Config.{
  Interrupts, usb_isr, usb_sof_isr, usb_suspend_check, usb_g_set_intr_hander,
}
use fw_bootloader.Usb.Config.Tables.{table_index, MayStore, Room}
use fw_bootloader.Usb.Hid.{CtrlRequest, hid_itf_hander, hid_reset}
use fw_bootloader.Usb.Device.{usb_device_mode}

-- What calls into hid.c and the tables from the stack: a control request for the interface with the
-- device's state, the reset of the interface, and the registration of a handler.
pub data Callback : Type 0 where
  control_request : ℕ → Option CtrlRequest → Callback
  reset : Callback
  register : ℕ → Option Handler → Callback

pub callback : Callback → Usb → Result Usb
callback (control_request state setup) u = hid_itf_hander state setup u
callback reset u = hid_reset u
callback (register ep h) u = usb_g_set_intr_hander ep h u

pub callbacks : List Callback → Usb → Result Usb
unfolding callback
callbacks [] u = ok u
callbacks (b ∷ bs) u = do v ← callback b u; callbacks bs v

-- What calls into the device: its interrupts, each with what the functions of the stack that it calls do
-- meanwhile, by the function and the state; and the stack between them.
pub data Event : Type 0 where
  interrupt : Interrupts → (UsbCall → Usb → List Callback) → Event
  sof : Event
  suspend : ℕ → Event
  back : Callback → Event

pub step : Event → Usb → Result Usb
unfolding callbacks callback
step (interrupt r backs) u = usb_isr (λ c v. callbacks (backs c v) v) r u
step sof u = ok (usb_sof_isr u)
step (suspend frame) u = ok (usb_suspend_check frame u)
step (back b) u = callback b u

-- The stack registers handlers for the endpoints that exist, and that of hid.c only where hid.c does.
abbrev pub Lawful : Callback → Type 0
Lawful (register ep h) = (table_index ep < 5) × MayStore ep h
Lawful (control_request state setup) = Unit
Lawful reset = Unit

abbrev pub Allowed : Event → Type 0
Allowed (interrupt r backs) = (c : UsbCall) (u : Usb) → All Lawful (backs c u)
Allowed sof = Unit
Allowed (suspend frame) = Unit
Allowed (back b) = Lawful b

-- The states that the device comes through. The buffers of the stack have room for what hid.c stores.
pub data Reach : Usb → Type 0 where
  start : (class : ℕ) (u : Usb) → (class == 0) ≡ false → Room u → Reach (usb_device_mode class u).1
  next : (e : Event) (u v : Usb) → Reach u → Allowed e → step e u ≡ ok v → Reach v
