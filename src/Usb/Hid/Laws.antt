-- ===== src/Usb/Hid/Laws.antt =====
-- The HID interface: what a request of the host, the enumeration and a packet make of the state.
use fw_bootloader.Common.{
  ℕ, ◌+◌, ◌≡◌, refl, List, [], ◌∷◌, Bool, true, false, Option, none, some, if◌then◌else◌, ◌==◌,
  get_elem?, ◌<◌, ◌≤◌, length, take, drop, bit_and, bit_or, arith,
}
use fw_bootloader.Common.Memory.{Result, ok, ◌>>=◌, splice, splice-ok, length-splice}
use fw_bootloader.Hal.{any, bit}
use fw_bootloader.Usb.{
  Handler, hid_handler, Usb, UsbCall, call, hibyte, lobyte, usb_g_ep_config, usb_enable_ep,
  usb_dir_in, usb_set_data_payload,
}
use fw_bootloader.Usb.Config.{Interrupts, serve_endpoints, usb_isr}
use fw_bootloader.Usb.Config.Laws.{
  Leads, Leads->>=, Keeps, hid_run, served, serve_endpoints-Leads, serve_endpoints_next,
  usb_isr-Leads,
}
use fw_bootloader.Usb.Config.Tables.{
  FullTables, Wired, Kept, Returns, stored-Wired, stored, usb_g_set_intr_hander-ok,
  stored-FullTables, get_elem?-with_entry,
}
use fw_bootloader.Usb.Hid.{
  hid_endpoint_init, hid_reset, hid_ep, get_hid_report_desc, hid_itf_hander, CtrlRequest,
  usb_endpoint_xfer_int, maxp_size_hid, standard_request, class_request, get_descriptor,
  zero_payload, hid_descriptor, get_hid_report_desc_len, usb_dt_interface_size,
}

-- The state after `hid_endpoint_init`: the handler of hid.c stands at endpoint 2 of the receive table.
pub hid_endpoint_init-ok :
    (u : Usb)
    → FullTables u
    → (v : Usb) × (hid_endpoint_init u ≡ ok v)
      × FullTables v
      × (get_elem? v.usb_interrupt_rx 2 ≡ some (some hid_handler))
      × (v.new_data ≡ u.new_data)
      × (Wired u → Wired v)
unfolding hid_endpoint_init
hid_endpoint_init-ok u full =
    let u1 =
      call
        (usb_g_ep_config (bit_or hid_ep usb_dir_in) usb_endpoint_xfer_int 0 u.hid_ep_in_dma
          maxp_size_hid)
        u in
    let u2 = call (usb_enable_ep hid_ep) u1 in
    let u3 = stored hid_ep (some hid_handler) u2 in
    let stores = usb_g_set_intr_hander-ok hid_ep (some hid_handler) u2 full (omega arith) in
    (
      call (usb_g_ep_config hid_ep usb_endpoint_xfer_int 1 u3.hid_ep_out_dma maxp_size_hid) u3,
      rw stores refl,
      stored-FullTables hid_ep (some hid_handler) u2 full,
      get_elem?-with_entry u.usb_interrupt_rx 2 (some hid_handler) (omega (arith, full.1)),
      refl,
      (λ wired. stored-Wired hid_ep (some hid_handler) u2 (λ e. (refl, refl)) wired),
    )

-- Ready for a packet: the handler of hid.c stands at endpoint 2 of the receive table.
abbrev pub Listening : Usb → Type 0
Listening u = FullTables u × (get_elem? u.usb_interrupt_rx 2 ≡ some (some hid_handler))

-- The packet has been told.
abbrev pub Flagged : Usb → Type 0
Flagged u = FullTables u × (u.new_data ≡ 1)

-- The loop over the receive table from endpoint 1 on.
packet_served :
    (stack : UsbCall → Usb → Result Usb)
    → Keeps Listening stack
    → Keeps Flagged stack
    → (bits : ℕ) (u : Usb) → any bits (bit 2) ≡ true
    → Listening u
    → Leads Flagged (serve_endpoints stack (λ v. v.usb_interrupt_rx) bits 4 1 u)
packet_served stack listens flags bits u on ready =
    let rx : Usb → List (Option Handler) = λ v. v.usb_interrupt_rx in
    rw (serve_endpoints_next stack rx bits 3 1 u) (
      Leads->>= Listening Flagged _ (serve_endpoints stack rx bits 3 2)
        (served stack Listening listens (λ v i. i.0) rx (λ v all. all.1) bits (λ ep v at t i. i) 1 u
          (omega arith) ready)
        (λ v i.
          rw (serve_endpoints_next stack rx bits 2 2 v, on, i.1)
            (serve_endpoints-Leads stack Flagged flags (λ w j. j.0) rx (λ w all. all.1) bits
              (λ ep w at t j. (j.0, refl)) 2 3 (hid_run 2 v) (omega arith) (i.0, refl))))

-- A packet at endpoint 2.
packet-new_data :
    (stack : UsbCall → Usb → Result Usb)
    → Keeps Listening stack
    → Keeps Flagged stack
    → (v : Usb) (r : Interrupts) → Listening v
    → any (bit_and r.intr_rx r.intr_rxe) (bit 2) ≡ true
    → (w : Usb) × (usb_isr stack r v ≡ ok w) × (w.new_data ≡ 1)
packet-new_data stack listens flags v r ready on =
    let (w, runs, told) =
      usb_isr-Leads stack Listening listens (λ u i. i.0) Flagged r v (λ u at i. i) (λ ep u at i. i)
        (λ u i. packet_served stack listens flags (bit_and r.intr_rx r.intr_rxe) u on i) ready in
    (w, runs, told.1)

-- Once the host has asked for the report descriptor, or has reset the interface, on tables of five
-- entries, every interrupt with endpoint 2 pending and enabled for reception returns and leaves the flag
-- `new_data` set, whatever handlers the stack has registered besides and whatever else is pending. The
-- functions of the stack that the interrupt calls may themselves call back: they are to return, to leave
-- the tables with five entries and the handler of hid.c at endpoint 2, and to leave the flag set.
pub hid_packet-new_data :
    (stack : UsbCall → Usb → Result Usb)
    → Keeps Listening stack
    → Keeps Flagged stack
    → (state : ℕ) (req : CtrlRequest) (u : Usb) (r : Interrupts) → FullTables u
    → bit_and req.request_type 0x60 ≡ 0
    → req.request ≡ 0x06
    → hibyte req.value ≡ 0x22
    → any (bit_and r.intr_rx r.intr_rxe) (bit 2) ≡ true
    → ((v : Usb) × (w : Usb) × (hid_itf_hander state (some req) u ≡ ok v)
        × (usb_isr stack r v ≡ ok w)
        × (w.new_data ≡ 1))
      × ((v : Usb) × (w : Usb) × (hid_reset u ≡ ok v)
          × (usb_isr stack r v ≡ ok w)
          × (w.new_data ≡ 1))
unfolding hid_itf_hander
hid_packet-new_data stack listens flags state req u r full standard get report on =
    let (v, run, all, at, kept, keeps) = hid_endpoint_init-ok u full in
    let v1 = call (usb_set_data_payload (get_hid_report_desc req.index)) v in
    let (w, isr, set) = packet-new_data stack listens flags v r (all, at) on in
    let (w1, isr1, set1) = packet-new_data stack listens flags v1 r (all, at) on in
    ((v1, w1, rw (standard, get, report, run) refl, isr1, set1), (v, w, run, isr, set))

if-Kept : (u : Usb) (b : Bool) (v w : Usb) → Kept u v → Kept u w → Kept u (if b then v else w)
if-Kept u true v w hv hw = hv
if-Kept u false v w hv hw = hw

if-Returns :
    (u : Usb) (b : Bool) {r s : Result Usb}
    → Returns u r
    → Returns u s
    → Returns u (if b then r else s)
if-Returns u true hr hs = hr
if-Returns u false hr hs = hs

ok-Returns : (u : Usb) {v : Usb} → Kept u v → Returns u (ok v)
ok-Returns u {v} kept = (v, refl, kept)

-- A store that fits.
splice-length :
    (mem : List ℕ) (i : ℕ) (bytes : List ℕ)
    → i + length bytes ≤ length mem
    → (mem' : List ℕ) × (splice mem i bytes ≡ ok mem') × (length mem' ≡ length mem)
splice-length mem i bytes fits =
    let e = splice-ok mem i bytes fits in (_, e, length-splice mem i bytes e)

module _ (u : Usb) (wired : Wired u) where
  report-Returns :
      (index : ℕ)
      → Returns u (do
        v ← hid_endpoint_init u
        ok (call (usb_set_data_payload (get_hid_report_desc index)) v))
  report-Returns index =
      let (v, run, all, at, kept, keeps) = hid_endpoint_init-ok u wired.0 in
      (call (usb_set_data_payload (get_hid_report_desc index)) v, rw run refl, (keeps wired, kept))

  -- The two stores into the descriptor that is answered.
  hid_descriptor-Returns :
      (index : ℕ)
      → Returns u (do
        let u1 = call (usb_set_data_payload (take 9 (drop usb_dt_interface_size hid_descriptor))) u
        p1 ← splice u1.payload 7 (lobyte (get_hid_report_desc_len index) ∷ [])
        p2 ← splice p1 8 (hibyte (get_hid_report_desc_len index) ∷ [])
        ok (record u1 { payload = p2 }))
  hid_descriptor-Returns index =
      let u1 = call (usb_set_data_payload (take 9 (drop usb_dt_interface_size hid_descriptor))) u in
      let room : 8 < length u.payload = wired.1.1.1.1 in
      let (p1, e1, size1) =
        splice-length u.payload 7 (lobyte (get_hid_report_desc_len index) ∷ [])
          (omega (arith, room)) in
      let (p2, e2, size2) =
        splice-length p1 8 (hibyte (get_hid_report_desc_len index) ∷ [])
          (omega (arith, room, size1)) in
      (
        record u1 { payload = p2 },
        rw (e1, e2) refl,
        (
          (wired.0, (wired.1.0, (wired.1.1.0, (wired.1.1.1.0, omega (arith, room, size1, size2))))),
          refl,
        ),
      )

  zero_payload-Returns : Returns u (zero_payload u)
  zero_payload-Returns =
      let room : 0 < length u.setup_buffer = wired.1.1.1.0 in
      let (buffer, e, size) = splice-length u.setup_buffer 0 (0 ∷ []) (omega (arith, room)) in
      (
        call (usb_set_data_payload (take 1 buffer)) (record u { setup_buffer = buffer }),
        rw e refl,
        ((wired.0, (wired.1.0, (wired.1.1.0, (omega (arith, room, size), wired.1.1.1.1)))), refl),
      )

  get_descriptor-Returns : (req : CtrlRequest) → Returns u (get_descriptor req u)
  get_descriptor-Returns req =
      if-Returns u (hibyte req.value == 0x21) (hid_descriptor-Returns req.index) (
        if-Returns u (hibyte req.value == 0x22) (report-Returns req.index)
          (ok-Returns u (wired, refl)))

  -- The answer that the states of an enumerated device share.
  by_state-Kept :
      (state : ℕ) (v w x : Usb)
      → Kept u v
      → Kept u w
      → Kept u x
      → Kept u (if state == 2 then v else if state == 3 then w else if state == 4 then x else u)
  by_state-Kept state v w x hv hw hx =
      if-Kept u (state == 2) _ _ hv
        (if-Kept u (state == 3) _ _ hw (if-Kept u (state == 4) _ _ hx (wired, refl)))

  standard_request-Returns :
      (state : ℕ) (req : CtrlRequest) → Returns u (standard_request state req u)
  standard_request-Returns state req =
      let stays : Kept u u = (wired, refl) in
      if-Returns u (req.request == 0x06) (get_descriptor-Returns req) (
        if-Returns u (req.request == 0x07) (ok-Returns u (wired, refl)) (
          if-Returns u (req.request == 0x0B)
            (ok-Returns u (by_state-Kept state _ _ _ (wired, refl) (wired, refl) (wired, refl)))
            (if-Returns u (req.request == 0x0A)
              (if-Returns u (req.data_length == 0)
                (if-Returns u (state == 2) (ok-Returns u (wired, refl)) (
                  if-Returns u (state == 3) (ok-Returns u (wired, refl))
                    (if-Returns u (state == 4) zero_payload-Returns (ok-Returns u stays))))
                (ok-Returns u (wired, refl)))
              (if-Returns u (req.request == 0x00) (ok-Returns u (wired, refl))
                (ok-Returns u stays)))))

  class_request-Returns : (req : CtrlRequest) → Returns u (class_request req u)
  class_request-Returns req = if-Returns u (req.request == 0x0A) (ok-Returns u (wired, refl)) (
      if-Returns u (req.request == 0x02) zero_payload-Returns (
        if-Returns u (req.request == 0x09) (ok-Returns u (wired, refl))
          (ok-Returns u (wired, refl))))

-- Where the tables have five entries and the handler of hid.c stands at most at endpoint 2 of the receive
-- table, and the two pointers of the stack have room, every control request that reaches the interface is served without a fault, whatever its
-- fields and the state of the device. The tables are then still so, and the flag `new_data` is as it was.
pub hid_itf_hander-Returns :
    (state : ℕ) (setup : Option CtrlRequest) (u : Usb)
    → Wired u
    → Returns u (hid_itf_hander state setup u)
unfolding hid_itf_hander
hid_itf_hander-Returns state none u wired = ok-Returns u (wired, refl)
hid_itf_hander-Returns state (some req) u wired =
    if-Returns u (bit_and req.request_type 0x60 == 0) (standard_request-Returns u wired state req) (
      if-Returns u (bit_and req.request_type 0x60 == 0x20) (class_request-Returns u wired req)
        (ok-Returns u (wired, refl)))

-- The reset of the interface sets the endpoint up again.
pub hid_reset-Returns : (u : Usb) → Wired u → Returns u (hid_reset u)
hid_reset-Returns u wired =
    let (v, run, all, at, kept, keeps) = hid_endpoint_init-ok u wired.0 in
    (v, run, (keeps wired, kept))
