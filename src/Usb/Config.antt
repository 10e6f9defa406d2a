-- ===== src/Usb/Config.antt =====
-- user_boot/app/src/usb_config.c: the buffers, the tables of handlers and the interrupts.
pub mod Laws
pub mod Tables
pub mod Rates
use fw_bootloader.Common.{
  ℕ, zero, suc, ◌+◌, ◌-◌, ◌%◌, ◌^◌, List, [], ◌∷◌, Bool, true, false, Option, none, some, not, ◌==◌,
  if◌then◌else◌, get_elem?, replicate, bit_and, u16, u32,
}
use fw_bootloader.Common.Memory.{Result, ok, fault, ◌>>=◌, or_fault}
use fw_bootloader.Hal.{any, bit}
use fw_bootloader.Usb.{
  Buffer, ep0_dma_buffer, ep1_dma_in, ep1_dma_out, Handler, hid_handler, stack_handler, Usb,
  UsbCall, call, usb_reset_interface, usb_control_transfer, run_handler, usb_sof_clr_pnd, log_frame,
  usb_phy_suspend, usb_var_init, usb_setup_init, request_ctrl_irq, request_sof_irq, usb_dir_in,
}

abbrev pub max_ep : ℕ
max_ep = 5

abbrev pub usb_memory_init : Usb → Usb
usb_memory_init u = u

abbrev pub usb_alloc_ep_dmabuffer : ℕ → Buffer
usb_alloc_ep_dmabuffer ep =
    let n = bit_and ep 0xf in
    if any ep usb_dir_in
    then (if n == 0 then ep0_dma_buffer else ep1_dma_in)
    else if n == 0
    then ep0_dma_buffer
    else ep1_dma_out

-- What the registers of the interrupts read as: what is pending, and what is enabled.
pub record Interrupts : Type 0 where
  pub intr_usb : ℕ
  pub intr_tx : ℕ
  pub intr_rx : ℕ
  pub intr_usbe : ℕ
  pub intr_txe : ℕ
  pub intr_rxe : ℕ

-- An entry of a table.
abbrev pub entry : List (Option Handler) → ℕ → Result (Option Handler)
entry table i = or_fault (get_elem? table i)

-- `hid_rx_data` of hid.c, which is called through the table.
abbrev pub hid_rx_data : Usb → Usb
hid_rx_data u = record u { new_data = 1 }

-- `stack` is what a function of the precompiled stack does to the state while the interrupt calls it: it
-- may call back into hid.c and register handlers.
module _ (stack : UsbCall → Usb → Result Usb) where
  abbrev pub into_stack : UsbCall → Usb → Result Usb
  into_stack c u = stack c (call c u)

  -- The call through a pointer of the table.
  abbrev pub run : Handler → ℕ → Usb → Result Usb
  run hid_handler ep u = ok (hid_rx_data (call (run_handler hid_handler ep) u))
  run (stack_handler n) ep u = into_stack (run_handler (stack_handler n) ep) u

  abbrev pub notify : Option Handler → ℕ → Usb → Result Usb
  notify none ep u = ok u
  notify (some h) ep u = run h ep u

  abbrev pub notify_control : Option Handler → Usb → Result Usb
  notify_control none u = into_stack usb_control_transfer u
  notify_control (some h) u = run h 0 u

  -- The loops over the endpoints, on the table that `table` reads in the state of the round.
  unfoldable pub serve_endpoints : (Usb → List (Option Handler)) → ℕ → ℕ → ℕ → Usb → Result Usb
  serve_endpoints table bits zero i u = ok u
  serve_endpoints table bits (suc left) i u = do
    u1 ← if any bits (bit i) then (do h ← entry (table u) i; notify h i u) else ok u
    serve_endpoints table bits left (i + 1) u1

  unfoldable pub usb_isr : Interrupts → Usb → Result Usb
  unfolding serve_endpoints
  usb_isr r u = do
    let usb = bit_and r.intr_usb r.intr_usbe
    let tx = bit_and r.intr_tx r.intr_txe
    let rx = bit_and r.intr_rx r.intr_rxe
    u1 ← if any usb (bit 2) then into_stack usb_reset_interface u else ok u
    u2 ← if any tx (bit 0) then (do h ← entry u1.usb_interrupt_rx 0; notify_control h u1) else ok u1
    u3 ← serve_endpoints (λ v. v.usb_interrupt_tx) tx (max_ep - 1) 1 u2
    serve_endpoints (λ v. v.usb_interrupt_rx) rx (max_ep - 1) 1 u3

pub usb_sof_isr : Usb → Usb
usb_sof_isr u =
    let u1 = call usb_sof_clr_pnd u in
    let u2 = record u1 { sof_count = u32 (u1.sof_count + 1) } in
    if u1.sof_count % 1000 == 0 then call log_frame u2 else u2

-- On the frame number that the register reads as.
pub usb_suspend_check : ℕ → Usb → Usb
usb_suspend_check frame u =
    let u1 = if u16 frame == u.sof_frame then call usb_phy_suspend u else u in
    record u1 { sof_frame = u16 frame }

-- A store into a table.
abbrev pub set_entry : List (Option Handler) → ℕ → Option Handler → Result (List (Option Handler))
set_entry [] i h = fault
set_entry (x ∷ xs) zero h = ok (h ∷ xs)
set_entry (x ∷ xs) (suc i) h = do rest ← set_entry xs i h; ok (x ∷ rest)

unfoldable pub usb_g_set_intr_hander : ℕ → Option Handler → Usb → Result Usb
usb_g_set_intr_hander ep h u =
    if any ep usb_dir_in
    then (do
      t ← set_entry u.usb_interrupt_tx (bit_and ep 0xf) h
      ok (record u { usb_interrupt_tx = t }))
    else (do t ← set_entry u.usb_interrupt_rx ep h; ok (record u { usb_interrupt_rx = t }))

abbrev pub usb_g_isr_reg : ℕ → ℕ → Usb → Usb
usb_g_isr_reg priority cpu_id u = call (request_ctrl_irq priority cpu_id) u

abbrev pub usb_sof_isr_reg : ℕ → ℕ → Usb → Usb
usb_sof_isr_reg priority cpu_id u = call (request_sof_irq priority cpu_id) u

abbrev pub usb_config : Usb → Usb
usb_config u =
    let u1 = record u {
      usb_interrupt_rx = replicate max_ep none;
      usb_interrupt_tx = replicate max_ep none;
      usb_config_var = true;
    } in
    call (usb_setup_init true) (call (usb_var_init true) u1)

abbrev pub usb_release : Usb → Usb
usb_release u =
    let u1 = call (usb_setup_init false) (call (usb_var_init false) u) in
    record u1 { usb_config_var = false }
