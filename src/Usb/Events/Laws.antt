-- ===== src/Usb/Events/Laws.antt =====
-- What holds in every state that the USB device comes through.
use fw_bootloader.Common.{◌≡◌, ◌∙◌, sym, subst, ◌⊎◌, inl}
use fw_bootloader.Common.Memory.{ok-injective, Result, ok}
use fw_bootloader.Usb.{Usb}
use fw_bootloader.Usb.Config.{run}
use fw_bootloader.Usb.Config.Tables.{Wired, Returns}
use fw_bootloader.Usb.Config.Rates.{usb_sof_isr-Returns, usb_suspend_check-Returns}
use fw_bootloader.Usb.Device.Laws.{usb_device_mode-Wired}
use fw_bootloader.Usb.Events.Flag.{Flag, Packet, callback-Returns, usb_isr-Held}
use fw_bootloader.Usb.Events.{
  Event, interrupt, sof, suspend, back, step, Allowed, Reach, start, next,
}

-- The cause for which an event may set the flag.
abbrev pub Cause : Event → Type 0
Cause (interrupt r backs) = Packet r
Cause sof = ⊥
Cause (suspend frame) = ⊥
Cause (back b) = ⊥

-- The event is served, leaves the tables right, and changes the flag only with cause.
abbrev Served : Event → Usb → Type 0
Served e u = (v : Usb) × (step e u ≡ ok v) × Wired v × Flag (Cause e) u v

returned-Served :
    {C : Type 0} (r : Result Usb) (u : Usb)
    → Returns u r
    → (v : Usb) × (r ≡ ok v) × Wired v × Flag C u v
returned-Served r u (v, run, kept) = (v, run, kept.0, inl kept.1)

step-Served : (e : Event) (u : Usb) → Wired u → Allowed e → Served e u
unfolding step
step-Served (interrupt r backs) u wired allowed =
    let (v, run, held) = usb_isr-Held backs allowed r u wired in (v, run, held.0, held.1)
step-Served sof u wired allowed = returned-Served (step sof u) u (usb_sof_isr-Returns u wired)
step-Served (suspend frame) u wired allowed =
    returned-Served (step (suspend frame) u) u (usb_suspend_check-Returns frame u wired)
step-Served (back b) u wired allowed =
    returned-Served (step (back b) u) u (callback-Returns b u allowed wired)

-- In every state that the started device comes through, the two tables have an entry for each of the
-- five endpoints, the handler of hid.c stands nowhere but at endpoint 2 of the receive table, and the
-- buffers of the stack have room for what hid.c stores through its pointers, as they had at the start.
pub Reach-Wired : (u : Usb) → Reach u → Wired u
Reach-Wired u (start class w on room) = usb_device_mode-Wired class w on room
Reach-Wired u (next e before after reach allowed run) =
    let (v, runs, wired, flag) = step-Served e before (Reach-Wired before reach) allowed in
    subst Wired (ok-injective (sym runs ∙ run)) wired

-- In every state that the started device comes through every event is served without a fault, and leads
-- to such a state again: all interrupts, control requests, resets, and the registrations that the stack
-- is allowed, whether between the interrupts or by the functions of the stack that an interrupt calls. No
-- store of hid.c is outside the buffers of the stack, which have room for it at the start. The flag `new_data` changes only by an interrupt with endpoint 2 pending and enabled for
-- reception, and is then set.
pub step_served :
    (u : Usb) (e : Event)
    → Reach u
    → Allowed e
    → (v : Usb) × (step e u ≡ ok v)
      × Reach v
      × ((v.new_data ≡ u.new_data) ⊎ (Cause e × (v.new_data ≡ 1)))
step_served u e reach allowed =
    let (v, run, wired, flag) = step-Served e u (Reach-Wired u reach) allowed in
    (v, run, next e u v reach allowed run, flag)
