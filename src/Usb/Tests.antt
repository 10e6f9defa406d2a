-- ===== src/Usb/Tests.antt =====
-- The theorems on a device that has been started for the upgrade.
use fw_bootloader.Common.{
  ℕ, List, All, ◌∙◌, ◌+◌, ◌≡◌, ◌⊎◌, refl, [], ◌∷◌, ◌++◌, false, none, some, length, get_elem?,
  replicate, u8, u32, arith,
}
use fw_bootloader.Common.Memory.{Result, fault, ok, load16}
use fw_bootloader.Usb.{
  Usb, UsbCall, usb_reset_interface, usb_control_transfer, hid_handler, stack_handler, call,
  usb_set_reset_hander, usb_set_interface_hander,
}
use fw_bootloader.Usb.Config.{Interrupts, serve_endpoints, usb_isr, usb_g_set_intr_hander}
use fw_bootloader.Usb.Config.Laws.{Keeps}
use fw_bootloader.Usb.Config.Tables.{Wired}
use fw_bootloader.Usb.Descriptor.{
  device_descriptor, language_str, product_string, manufacture_str, get_device_descriptor,
  get_language_str, get_manufacture_str, get_product_str,
}
use fw_bootloader.Usb.Descriptor.Laws.{Writes, descriptors_lem}
use fw_bootloader.Usb.Hid.{
  CtrlRequest, hid_endpoint_init, hid_itf_hander, hid_reset, hid_desc_config, hid_report_desc,
}
use fw_bootloader.Usb.Hid.Laws.{Listening, Flagged, hid_endpoint_init-ok, hid_packet-new_data}
use fw_bootloader.Usb.Hid.Enumeration.{
  configured, descriptor_types, report_items, hid_desc_config_lem,
}
use fw_bootloader.Usb.Device.{usb_device_mode}
use fw_bootloader.Usb.Events.{
  Callback, control_request, reset, Lawful, Reach, start, interrupt, step,
}
use fw_bootloader.Usb.Events.Laws.{Reach-Wired, step_served, Cause}

-- The state after power on, with the pointers of another use in the tables.
abbrev powered : Usb
powered = record {
  usb_interrupt_tx = none ∷ some (stack_handler 1) ∷ none ∷ none ∷ none ∷ [];
  usb_interrupt_rx = none ∷ none ∷ some hid_handler ∷ some (stack_handler 2) ∷ none ∷ [];
  usb_config_var = false;
  sof_count = 1;
  sof_frame = 0;
  hid_ep_in_dma = none;
  hid_ep_out_dma = none;
  new_data = 0;
  setup_buffer = replicate 512 0;
  payload = replicate 512 0;
  calls = [];
}

abbrev get_new_data : Result Usb → ℕ
get_new_data (ok u) = u.new_data
get_new_data fault = 2

abbrev started : Usb
started = (usb_device_mode 8 powered).1

-- Endpoint 1 has sent, endpoints 2 and 3 have received.
abbrev pending : Interrupts
pending = record {
  intr_usb = 4;
  intr_tx = 3;
  intr_rx = 12;
  intr_usbe = 5;
  intr_txe = 0xff;
  intr_rxe = 0xff;
}

abbrev report_request : CtrlRequest
report_request = record {
  request_type = 0x81;
  request = 6;
  value = 0x2200;
  index = 0;
  data_length = 36;
}

-- A stack whose reset of the interface calls `hid_reset`.
abbrev resetting : UsbCall → Usb → Result Usb
resetting usb_reset_interface u = hid_reset u
resetting c u = ok u

-- Bus reset and packet in one interrupt, on empty tables: the packet is told.
reset_and_packet :
    get_new_data (
      usb_isr resetting pending (record powered {
        usb_interrupt_tx = replicate 5 none;
        usb_interrupt_rx = replicate 5 none;
      }))
    ≡ 1
unfolding usb_isr serve_endpoints hid_endpoint_init usb_g_set_intr_hander
reset_and_packet = refl

resetting-Listening : Keeps Listening resetting
resetting-Listening usb_reset_interface u ready =
    let (v, run, all, at, kept, rest) = hid_endpoint_init-ok (call usb_reset_interface u) ready.0 in
    (v, run, (all, at))
resetting-Listening c u ready = (call c u, refl, ready)

resetting-Flagged : Keeps Flagged resetting
resetting-Flagged usb_reset_interface u told =
    let (v, run, all, at, kept, rest) = hid_endpoint_init-ok (call usb_reset_interface u) told.0 in
    (v, run, (all, kept ∙ told.1))
resetting-Flagged c u told = (call c u, refl, told)

descriptors_lem_example :
    Writes (device_descriptor false) (replicate 42 0) (get_device_descriptor false (replicate 42 0))
    × Writes language_str (replicate 42 0) (get_language_str (replicate 42 0))
    × Writes manufacture_str (replicate 42 0) (get_manufacture_str (replicate 42 0))
    × Writes product_string (replicate 42 0) (get_product_str (replicate 42 0))
    × (get_elem? (device_descriptor false) 0 ≡ some (length (device_descriptor false)))
    × (get_elem? language_str 0 ≡ some (length language_str))
    × (get_elem? manufacture_str 0 ≡ some (length manufacture_str))
    × (get_elem? product_string 0 ≡ some (length product_string))
descriptors_lem_example = descriptors_lem false (replicate 42 0) (omega arith)

hid_desc_config_lem_example :
    (hid_desc_config (replicate 32 7 ++ (5 ∷ [])) 0 powered
      ≡ ok (
        32,
        configured 0 ++ (5 ∷ []),
        u32 (0 + 1),
        call (usb_set_reset_hander 0) (call (usb_set_interface_hander 0) powered),
      ))
    × (descriptor_types 32 (configured 0) ≡ some (4 ∷ 0x21 ∷ 5 ∷ 5 ∷ []))
    × (get_elem? (configured 0) 2 ≡ some (u8 0))
    × (load16 (configured 0) 16 ≡ ok (length hid_report_desc))
    × (report_items 36 hid_report_desc
        ≡ some (
            0x06 ∷ 0x09 ∷ 0xA1 ∷ 0x09 ∷ 0x16 ∷ 0x26 ∷ 0x75 ∷ 0x95 ∷ 0x81 ∷ 0x09 ∷ 0x16 ∷ 0x26 ∷ 0x75
            ∷ 0x95 ∷ 0x91 ∷ 0xC0 ∷ []))
hid_desc_config_lem_example = hid_desc_config_lem (replicate 32 7) (5 ∷ []) 0 powered refl

hid_packet-new_data_example :
    ((v : Usb) × (w : Usb) × (hid_itf_hander 4 (some report_request) powered ≡ ok v)
      × (usb_isr resetting pending v ≡ ok w)
      × (w.new_data ≡ 1))
    × ((v : Usb) × (w : Usb) × (hid_reset powered ≡ ok v)
        × (usb_isr resetting pending v ≡ ok w)
        × (w.new_data ≡ 1))
hid_packet-new_data_example =
    hid_packet-new_data resetting resetting-Listening resetting-Flagged 4 report_request powered
      pending (refl, refl) refl refl refl refl

started-Reach : Reach started
started-Reach = start 8 powered refl (omega arith, omega arith)

Reach-Wired_example : Wired started
Reach-Wired_example = Reach-Wired started started-Reach

-- The reset of the interface calls back, as does a control transfer that asks for the HID descriptor.
abbrev backs : UsbCall → Usb → List Callback
backs usb_reset_interface u = reset ∷ []
backs usb_control_transfer u =
    control_request 4 (some (record report_request { value = 0x2100 })) ∷ []
backs c u = []

backs-Lawful : (c : UsbCall) (u : Usb) → All Lawful (backs c u)
backs-Lawful usb_reset_interface u = (tt, tt)
backs-Lawful usb_control_transfer u = (tt, tt)
backs-Lawful c u = tt

step_served_example :
    (v : Usb) × (step (interrupt pending backs) started ≡ ok v)
    × Reach v
    × ((v.new_data ≡ started.new_data) ⊎ (Cause (interrupt pending backs) × (v.new_data ≡ 1)))
step_served_example = step_served started (interrupt pending backs) started-Reach backs-Lawful
