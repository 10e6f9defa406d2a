-- ===== src/Usb/Config/Laws.antt =====
-- What an interrupt keeps, whatever the handlers of the stack do.
use fw_bootloader.Common.{
  ℕ, zero, suc, ◌+◌, ◌≡◌, ◌≤◌, ◌<◌, refl, List, Bool, true, false, Bool-cases, inl, inr, Option,
  none, some, if◌then◌else◌, length, bit_and, get_elem?, get_elem?-some, arith,
}
use fw_bootloader.Common.Memory.{Result, ok, ◌>>=◌}
use fw_bootloader.Hal.{any, bit}
use fw_bootloader.Usb.{
  Handler, hid_handler, stack_handler, Usb, UsbCall, call, run_handler, usb_reset_interface,
  usb_control_transfer,
}
use fw_bootloader.Usb.Config.{
  Interrupts, entry, notify, notify_control, hid_rx_data, into_stack, serve_endpoints, usb_isr,
}
use fw_bootloader.Usb.Config.Tables.{FullTables}

-- It returns, in a state with a property.
abbrev pub Leads : (Usb → Type 0) → Result Usb → Type 0
Leads I r = (v : Usb) × (r ≡ ok v) × I v

pub Leads->>= :
    (I J : Usb → Type 0) (r : Result Usb) (next : Usb → Result Usb)
    → Leads I r
    → ((v : Usb) → I v → Leads J (next v))
    → Leads J (r >>= next)
Leads->>= I J r next (v, e, i) more = rw e (more v i)

-- Every function of the stack returns, and keeps a property.
abbrev pub Keeps : (Usb → Type 0) → (UsbCall → Usb → Result Usb) → Type 0
Keeps I stack = (c : UsbCall) (u : Usb) → I u → Leads I (stack c (call c u))

-- The handler of hid.c runs.
abbrev pub hid_run : ℕ → Usb → Usb
hid_run ep u = hid_rx_data (call (run_handler hid_handler ep) u)

module _ (stack : UsbCall → Usb → Result Usb) (I : Usb → Type 0) (keeps : Keeps I stack) where
  into_stack-Leads : (c : UsbCall) (u : Usb) → I u → Leads I (into_stack stack c u)
  into_stack-Leads c u i = keeps c u i

  notify-Leads :
      (h : Option Handler) (ep : ℕ) (u : Usb)
      → (h ≡ some hid_handler → I (hid_run ep u))
      → I u
      → Leads I (notify stack h ep u)
  notify-Leads none ep u hid i = (u, refl, i)
  notify-Leads (some hid_handler) ep u hid i = (hid_run ep u, refl, hid refl)
  notify-Leads (some (stack_handler n)) ep u hid i =
      into_stack-Leads (run_handler (stack_handler n) ep) u i

  notify_control-Leads :
      (h : Option Handler) (u : Usb)
      → (h ≡ some hid_handler → I (hid_run 0 u))
      → I u
      → Leads I (notify_control stack h u)
  notify_control-Leads none u hid i = into_stack-Leads usb_control_transfer u i
  notify_control-Leads (some h) u hid i = notify-Leads (some h) 0 u hid i

  module _ (full : (u : Usb) → I u → FullTables u) where
    module _ (table : Usb → List (Option Handler))
        (size : (u : Usb) → FullTables u → length (table u) ≡ 5) (bits : ℕ)
        (hid : (ep : ℕ) (u : Usb)
          → get_elem? (table u) ep ≡ some (some hid_handler)
          → any bits (bit ep) ≡ true
          → I u
          → I (hid_run ep u)) where
      -- One endpoint of a loop.
      pub served :
          (ep : ℕ) (u : Usb)
          → ep < 5
          → I u
          → Leads I
              (if any bits (bit ep) then (do h ← entry (table u) ep; notify stack h ep u) else ok u)
      served ep u small i = elim (Bool-cases (any bits (bit ep))) [
        | inr t ↦ rw t (u, refl, i)
        | inl t ↦
            let (h, e) = get_elem?-some (table u) ep (omega (arith, size u (full u i))) in
            rw (t, e) (notify-Leads h ep u (λ is. hid ep u (rw is at e) t i) i)
      ]

      pub serve_endpoints-Leads :
          (left ep : ℕ) (u : Usb)
          → ep + left ≤ 5
          → I u
          → Leads I (serve_endpoints stack table bits left ep u)
      unfolding serve_endpoints
      serve_endpoints-Leads zero ep u small i = (u, refl, i)
      serve_endpoints-Leads (suc left) ep u small i =
          Leads->>= I I _ (serve_endpoints stack table bits left (ep + 1))
            (served ep u (omega arith) i)
            (λ v j. serve_endpoints-Leads left (ep + 1) v (omega arith) j)

    -- The reset of the bus, and endpoint 0.
    reset_part-Leads :
        (pending : Bool) (u : Usb)
        → I u
        → Leads I (if pending then into_stack stack usb_reset_interface u else ok u)
    reset_part-Leads true u i = into_stack-Leads usb_reset_interface u i
    reset_part-Leads false u i = (u, refl, i)

    control_part-Leads :
        (pending : Bool) (u : Usb)
        → (get_elem? u.usb_interrupt_rx 0 ≡ some (some hid_handler) → I (hid_run 0 u))
        → I u
        → Leads I (
            if pending then (do h ← entry u.usb_interrupt_rx 0; notify_control stack h u) else ok u)
    control_part-Leads false u hid i = (u, refl, i)
    control_part-Leads true u hid i =
        let (h, e) = get_elem?-some u.usb_interrupt_rx 0 (omega (arith, (full u i).1)) in
        rw e (notify_control-Leads h u (λ is. hid (rw is at e)) i)

    -- The interrupt, up to its loop over the receive table.
    pub usb_isr-Leads :
        (J : Usb → Type 0) (r : Interrupts) (u : Usb)
        → ((v : Usb)
            → get_elem? v.usb_interrupt_rx 0 ≡ some (some hid_handler)
            → I v
            → I (hid_run 0 v))
        → ((ep : ℕ) (v : Usb)
            → get_elem? v.usb_interrupt_tx ep ≡ some (some hid_handler)
            → I v
            → I (hid_run ep v))
        → ((v : Usb)
            → I v
            → Leads J (
                serve_endpoints stack
                  (λ w. w.usb_interrupt_rx)
                  (bit_and r.intr_rx r.intr_rxe)
                  4
                  1
                  v))
        → I u
        → Leads J (usb_isr stack r u)
    unfolding usb_isr
    usb_isr-Leads J r u hid_0 hid_tx rx i =
        let tx = bit_and r.intr_tx r.intr_txe in
        Leads->>= I J _ _ (reset_part-Leads (any (bit_and r.intr_usb r.intr_usbe) (bit 2)) u i)
          (λ v1 i1.
            Leads->>= I J _ _ (control_part-Leads (any tx (bit 0)) v1 (λ at. hid_0 v1 at i1) i1)
              (λ v2 i2.
                Leads->>= I J _ _
                  (serve_endpoints-Leads (λ w. w.usb_interrupt_tx) (λ w all. all.0) tx
                    (λ ep w at t j. hid_tx ep w at j) 4 1 v2 (omega arith) i2)
                  rx))

-- One round of a loop.
pub serve_endpoints_next :
    (stack : UsbCall → Usb → Result Usb) (table : Usb → List (Option Handler)) (bits left ep : ℕ)
    (u : Usb)
    → serve_endpoints stack table bits (suc left) ep u
      ≡ (if any bits (bit ep) then (do h ← entry (table u) ep; notify stack h ep u) else ok u)
        >>= serve_endpoints stack table bits left (ep + 1)
unfolding serve_endpoints
serve_endpoints_next stack table bits left ep u = refl
