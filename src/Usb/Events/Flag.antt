-- ===== src/Usb/Events/Flag.antt =====
-- How an interrupt may change the flag `new_data`: by the handler of hid.c only.
use fw_bootloader.Common.{◌≡◌, ◌∙◌, refl, List, [], ◌∷◌, true, ◌⊎◌, inl, inr, bit_and, All, arith}
use fw_bootloader.Common.Memory.{Result}
use fw_bootloader.Hal.{any, bit}
use fw_bootloader.Usb.{Usb, UsbCall, call}
use fw_bootloader.Usb.Config.{Interrupts, usb_isr}
use fw_bootloader.Usb.Config.Laws.{Leads, Keeps, serve_endpoints-Leads, usb_isr-Leads}
use fw_bootloader.Usb.Config.Tables.{
  Wired, Returns, stored, stored-Wired, stored-new_data, usb_g_set_intr_hander-ok,
}
use fw_bootloader.Usb.Hid.Laws.{hid_itf_hander-Returns, hid_reset-Returns}
use fw_bootloader.Usb.Events.{
  Callback, control_request, reset, register, callback, callbacks, Lawful,
}

-- The flag is as it was, or it is set and there was cause.
abbrev pub Flag : Type 0 → Usb → Usb → Type 0
Flag Cause u v = (v.new_data ≡ u.new_data) ⊎ (Cause × (v.new_data ≡ 1))

-- A call from the stack keeps where the handlers stand, and the flag.
pub callback-Returns : (b : Callback) (u : Usb) → Lawful b → Wired u → Returns u (callback b u)
unfolding callback
callback-Returns (control_request state setup) u lawful wired =
    hid_itf_hander-Returns state setup u wired
callback-Returns reset u lawful wired = hid_reset-Returns u wired
callback-Returns (register ep h) u lawful wired = (
  stored ep h u,
  usb_g_set_intr_hander-ok ep h u wired.0 lawful.0,
  (stored-Wired ep h u lawful.1 wired, stored-new_data ep h u),
)

callbacks-Returns :
    (bs : List Callback) (u : Usb) → All Lawful bs → Wired u → Returns u (callbacks bs u)
unfolding callbacks
callbacks-Returns [] u lawful wired = (u, refl, (wired, refl))
callbacks-Returns (b ∷ bs) u lawful wired =
    let (v, e, kept) = callback-Returns b u lawful.0 wired in
    let (w, f, later) = callbacks-Returns bs v lawful.1 kept.0 in
    (w, rw e f, (later.0, later.1 ∙ kept.1))

-- The packet of endpoint 2.
abbrev pub Packet : Interrupts → Type 0
Packet r = any (bit_and r.intr_rx r.intr_rxe) (bit 2) ≡ true

-- What holds throughout an interrupt that began in `u`.
abbrev pub Held : Interrupts → Usb → Usb → Type 0
Held r u v = Wired v × Flag (Packet r) u v

kept-Flag :
    {Cause : Type 0} (u v w : Usb) → w.new_data ≡ v.new_data → Flag Cause u v → Flag Cause u w
kept-Flag u v w e (inl f) = inl (e ∙ f)
kept-Flag u v w e (inr (c, f)) = inr (c, e ∙ f)

module _ (backs : UsbCall → Usb → List Callback)
    (lawful : (c : UsbCall) (u : Usb) → All Lawful (backs c u)) (r : Interrupts) (u : Usb) where
  abbrev answers : UsbCall → Usb → Result Usb
  answers c v = callbacks (backs c v) v

  answers-Keeps : Keeps (Held r u) answers
  answers-Keeps c v (wired, flag) =
      let now = call c v in
      let (w, e, kept) = callbacks-Returns (backs c now) now (lawful c now) wired in
      (w, e, (kept.0, kept-Flag u v w kept.1 flag))

  pub usb_isr-Held : Wired u → Leads (Held r u) (usb_isr answers r u)
  usb_isr-Held wired =
      let bits = bit_and r.intr_rx r.intr_rxe in
      usb_isr-Leads answers (Held r u) answers-Keeps (λ v i. i.0.0) (Held r u) r u
        (λ v at i. absurd (omega (arith, i.0.1.1.0 0 at))) (λ ep v at i. absurd (i.0.1.0 ep at))
        (λ v i.
          serve_endpoints-Leads answers (Held r u) answers-Keeps (λ w j. j.0.0)
            (λ w. w.usb_interrupt_rx) (λ w all. all.1) bits
            (λ ep w at on j. let two : ep ≡ 2 = j.0.1.1.0 ep at in (j.0, inr (rw two at on, refl)))
            4 1 v (omega arith) i)
        (wired, inl refl)
