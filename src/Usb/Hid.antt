-- ===== src/Usb/Hid.antt =====
-- user_boot/app/src/hid.c: the HID interface of the upgrade.
pub mod Laws
pub mod Enumeration
use fw_bootloader.Common.{
  ℕ, ◌+◌, ◌/◌, ◌%◌, ◌^◌, List, [], ◌∷◌, ◌++◌, Bool, Option, none, some, ◌==◌, if◌then◌else◌, length,
  drop, bit_and, bit_or, min, take, u8, u32,
}
use fw_bootloader.Common.Memory.{Result, ok, fault, ◌>>=◌, splice}
use fw_bootloader.Hal.{bit}
use fw_bootloader.Usb.{
  Handler, hid_handler, Usb, call, usb_set_data_payload, usb_set_setup_phase, usb_set_setup_recv,
  usb_read_ep0, usb_g_ep_config, usb_enable_ep, usb_g_intr_write, usb_set_interface_hander,
  usb_set_reset_hander, usb_dir_in, lobyte, hibyte,
}
use fw_bootloader.Usb.Config.{usb_alloc_ep_dmabuffer, usb_g_set_intr_hander}

abbrev pub usb_dt_interface_size : ℕ
usb_dt_interface_size = 9

abbrev pub hid_ep : ℕ
hid_ep = 2

abbrev pub maxp_size_hid : ℕ
maxp_size_hid = 64

abbrev pub usb_endpoint_xfer_int : ℕ
usb_endpoint_xfer_int = 3

-- The interface, the HID descriptor, and the two endpoints.
abbrev pub hid_descriptor : List ℕ
hid_descriptor =
    9
    ∷ 4
    ∷ 0
    ∷ 0
    ∷ 2
    ∷ 3
    ∷ 0
    ∷ 0
    ∷ 0
    ∷ 9
    ∷ 0x21
    ∷ 0
    ∷ 1
    ∷ 0
    ∷ 1
    ∷ 0x22
    ∷ 0
    ∷ 0
    ∷ 7
    ∷ 5
    ∷ bit_or usb_dir_in hid_ep
    ∷ usb_endpoint_xfer_int
    ∷ lobyte maxp_size_hid
    ∷ hibyte maxp_size_hid
    ∷ 1
    ∷ 7
    ∷ 5
    ∷ hid_ep
    ∷ usb_endpoint_xfer_int
    ∷ lobyte maxp_size_hid
    ∷ hibyte maxp_size_hid
    ∷ 1
    ∷ []

-- `SHORT_ITEMS(prefix, len, …)`, the macro behind USAGE_PAGE and the others.
abbrev pub short_items : ℕ → List ℕ → List ℕ
short_items prefix [] = prefix ∷ []
short_items prefix (x ∷ xs) = bit_or prefix (bit (length xs)) ∷ x ∷ xs

abbrev pub hid_report_desc : List ℕ
hid_report_desc =
    short_items 0x04 (0x00 ∷ 0xff ∷ [])
    ++ (short_items 0x08 (0x01 ∷ [])
        ++ (short_items 0xA0 (0x01 ∷ [])
            ++ (short_items 0x08 (0x02 ∷ [])
                ++ (short_items 0x14 (0 ∷ 0 ∷ [])
                    ++ (short_items 0x24 (0xff ∷ 0 ∷ [])
                        ++ (short_items 0x74 (0x08 ∷ [])
                            ++ (short_items 0x94 (maxp_size_hid ∷ [])
                                ++ (short_items 0x80 (0x02 ∷ [])
                                    ++ (short_items 0x08 (0x03 ∷ [])
                                        ++ (short_items 0x14 (0 ∷ 0 ∷ [])
                                            ++ (short_items 0x24 (0xff ∷ 0 ∷ [])
                                                ++ (short_items 0x74 (0x08 ∷ [])
                                                    ++ (short_items 0x94 (maxp_size_hid ∷ [])
                                                        ++ (short_items 0x90 (0x02 ∷ [])
                                                            ++ 0xC0 ∷ []))))))))))))))

abbrev pub get_hid_report_desc_len : ℕ → ℕ
get_hid_report_desc_len index = length hid_report_desc

abbrev pub get_hid_report_desc : ℕ → List ℕ
get_hid_report_desc index = hid_report_desc

abbrev pub hid_tx_data : List ℕ → Usb → Usb
hid_tx_data buffer u = call (usb_g_intr_write hid_ep buffer) u

unfoldable pub hid_endpoint_init : Usb → Result Usb
hid_endpoint_init u = do
  let u1 =
      call
        (usb_g_ep_config (bit_or hid_ep usb_dir_in) usb_endpoint_xfer_int 0 u.hid_ep_in_dma
          maxp_size_hid)
        u
  let u2 = call (usb_enable_ep hid_ep) u1
  u3 ← usb_g_set_intr_hander hid_ep (some hid_handler) u2
  ok (call (usb_g_ep_config hid_ep usb_endpoint_xfer_int 1 u3.hid_ep_out_dma maxp_size_hid) u3)

unfoldable pub hid_register : Usb → Usb
hid_register u = record u {
  hid_ep_in_dma = some (usb_alloc_ep_dmabuffer (bit_or hid_ep usb_dir_in));
  hid_ep_out_dma = some (usb_alloc_ep_dmabuffer hid_ep);
}

abbrev pub hid_release : Usb → Usb
hid_release u = u

-- In the build without USB_ROOT2.
abbrev pub hid_reset : Usb → Result Usb
hid_reset u = hid_endpoint_init u

-- `struct usb_ctrlrequest`
pub record CtrlRequest : Type 0 where
  pub request_type : ℕ
  pub request : ℕ
  pub value : ℕ
  pub index : ℕ
  pub data_length : ℕ

-- The result is the stage of the control transfer.
abbrev pub hid_recv_output_report : CtrlRequest → Usb → ℕ × Usb
hid_recv_output_report setup u = (0, call (usb_read_ep0 (min 8 setup.data_length)) u)

-- The device states, and the phases of a control transfer.
abbrev pub usb_default : ℕ
usb_default = 2

abbrev pub usb_address : ℕ
usb_address = 3

abbrev pub usb_configured : ℕ
usb_configured = 4

abbrev pub usb_ep0_stage_setup : ℕ
usb_ep0_stage_setup = 0

abbrev pub usb_ep0_set_stall : ℕ
usb_ep0_set_stall = 3

-- USB_REQ_GET_DESCRIPTOR of the interface.
abbrev pub get_descriptor : CtrlRequest → Usb → Result Usb
get_descriptor req u =
    if hibyte req.value == 0x21
    then (do
      let u1 = call (usb_set_data_payload (take 9 (drop usb_dt_interface_size hid_descriptor))) u
      p1 ← splice u1.payload 7 (lobyte (get_hid_report_desc_len req.index) ∷ [])
      p2 ← splice p1 8 (hibyte (get_hid_report_desc_len req.index) ∷ [])
      ok (record u1 { payload = p2 }))
    else if hibyte req.value == 0x22
    then (do
      u1 ← hid_endpoint_init u
      ok (call (usb_set_data_payload (get_hid_report_desc req.index)) u1))
    else ok u

abbrev pub stall_known : ℕ → Usb → Usb
stall_known state u =
    if state == usb_default
    then call (usb_set_setup_phase usb_ep0_set_stall) u
    else if state == usb_address
    then call (usb_set_setup_phase usb_ep0_set_stall) u
    else if state == usb_configured
    then call (usb_set_setup_phase usb_ep0_set_stall) u
    else u

-- A payload of one byte 0 that stands in the setup buffer.
abbrev pub zero_payload : Usb → Result Usb
zero_payload u = do
  buffer ← splice u.setup_buffer 0 (0 ∷ [])
  ok (call (usb_set_data_payload (take 1 buffer)) (record u { setup_buffer = buffer }))

abbrev pub get_interface : ℕ → CtrlRequest → Usb → Result Usb
get_interface state req u =
    if req.data_length == 0
    then (if state == usb_default
        then ok (call (usb_set_setup_phase usb_ep0_set_stall) u)
        else if state == usb_address
        then ok (call (usb_set_setup_phase usb_ep0_set_stall) u)
        else if state == usb_configured
        then zero_payload u
        else ok u)
    else ok (call (usb_set_setup_phase usb_ep0_set_stall) u)

-- The `switch` of a standard request, in the device state `state`.
abbrev pub standard_request : ℕ → CtrlRequest → Usb → Result Usb
standard_request state req u =
    if req.request == 0x06
    then get_descriptor req u
    else if req.request == 0x07
    then ok (call (usb_set_setup_phase usb_ep0_stage_setup) u)
    else if req.request == 0x0B
    then ok (stall_known state u)
    else if req.request == 0x0A
    then get_interface state req u
    else if req.request == 0x00
    then ok (call (usb_set_setup_phase usb_ep0_set_stall) u)
    else ok u

abbrev pub class_request : CtrlRequest → Usb → Result Usb
class_request req u =
    if req.request == 0x0A
    then ok (call (usb_set_setup_phase usb_ep0_stage_setup) u)
    else if req.request == 0x02
    then zero_payload u
    else if req.request == 0x09
    then ok (call usb_set_setup_recv u)
    else ok u

-- `none` is the pointer -1. The function returns 0 in every case.
pub hid_itf_hander : ℕ → Option CtrlRequest → Usb → Result Usb
unfolding hid_endpoint_init
hid_itf_hander state none u = ok u
hid_itf_hander state (some req) u =
    let type = bit_and req.request_type 0x60 in
    if type == 0
    then standard_request state req u
    else if type == 0x20
    then class_request req u
    else ok u

-- The bytes behind `ptr`, the interface number, and what it returns. The stack is assumed to answer the
-- number that it is handed, which the two assertions ask for.
pub hid_desc_config : List ℕ → ℕ → Usb → Result (ℕ × List ℕ × ℕ × Usb)
hid_desc_config ptr cur_itf_num u = do
  p1 ← splice ptr 0 hid_descriptor
  p2 ← splice p1 2 (u8 cur_itf_num ∷ [])
  let u1 = call (usb_set_reset_hander cur_itf_num) (call (usb_set_interface_hander cur_itf_num) u)
  p3 ← splice p2 (usb_dt_interface_size + 7) (lobyte (get_hid_report_desc_len 0) ∷ [])
  p4 ← splice p3 (usb_dt_interface_size + 8) (hibyte (get_hid_report_desc_len 0) ∷ [])
  ok (length hid_descriptor, p4, u32 (cur_itf_num + 1), u1)
