-- ===== src/Usb/Device.antt =====
-- user_boot/app/src/usb_device.c: the start and the end of the USB device.
pub mod Laws
use fw_bootloader.Common.{
  ℕ, ◌*◌, ◌+◌, ◌-◌, ◌^◌, List, [], ◌∷◌, ◌++◌, Bool, true, false, if◌then◌else◌, ◌==◌, bit_and,
}
use fw_bootloader.Usb.{
  Usb, Line, dp, dm, UsbCall, call, call_all, usb_g_sie_init, usb_slave_init, usb_g_hold,
  usb_set_dma_raddr, usb_write_intr_usbe, usb_clr_intr_txe, usb_clr_intr_rxe, usb_set_intr_txe,
  usb_set_intr_rxe, usb_add_desc_config, gpio_set_direction, gpio_set_pull_up, gpio_set_pull_down,
  gpio_set_die, mdelay,
}
use fw_bootloader.Usb.Config.{
  usb_config, usb_release, usb_memory_init, usb_alloc_ep_dmabuffer, usb_g_isr_reg,
}
use fw_bootloader.Usb.Hid.{hid_register, hid_release}

-- The bits of the register behind `usb_write_intr_usbe`.
abbrev pub intrusb_suspend : ℕ
intrusb_suspend = 1

abbrev pub intrusb_reset_babble : ℕ
intrusb_reset_babble = 4

-- The argument -1 of the two functions that clear the endpoint interrupts.
abbrev pub all_ones : ℕ
all_ones = 2 ^ 32 - 1

abbrev pub hid_class : ℕ
hid_class = 8

abbrev pub max_interface_num : ℕ
max_interface_num = 6

pub usb_device_init : Usb → Usb
usb_device_init u =
    let u1 = call_all (usb_g_sie_init ∷ usb_slave_init ∷ []) (usb_config u) in
    let ep0_dma_buffer = usb_alloc_ep_dmabuffer 0 in
    let u2 =
      call_all
        (usb_set_dma_raddr 0 ep0_dma_buffer
          ∷ usb_set_dma_raddr 1 ep0_dma_buffer
          ∷ usb_set_dma_raddr 2 ep0_dma_buffer
          ∷ usb_set_dma_raddr 3 ep0_dma_buffer
          ∷ usb_set_dma_raddr 4 ep0_dma_buffer
          ∷ [])
        u1 in
    let u3 =
      call_all
        (usb_write_intr_usbe (intrusb_reset_babble + intrusb_suspend)
          ∷ usb_clr_intr_txe all_ones
          ∷ usb_clr_intr_rxe all_ones
          ∷ usb_set_intr_txe 0
          ∷ usb_set_intr_rxe 0
          ∷ [])
        u2 in
    usb_g_isr_reg 3 0 u3

abbrev pub usb_device_hold : Usb → Usb
usb_device_hold u = usb_release (call usb_g_hold u)

-- A data line with its pull-ups off, as an analog input.
abbrev pub float_line : Line → List UsbCall
float_line l =
    gpio_set_direction l 1 ∷ gpio_set_pull_up l 0 ∷ gpio_set_pull_down l 0 ∷ gpio_set_die l 0 ∷ []

pub usb_device_mode : ℕ → Usb → ℕ × Usb
unfolding usb_device_init
usb_device_mode class u =
    if class == 0
    then (let u1 = call_all (float_line dm ++ float_line dp) u in
        let u2 = call_all (mdelay 15 ∷ gpio_set_die dm 1 ∷ gpio_set_die dp 1 ∷ []) u1 in
        (0, usb_device_hold (hid_release u2)))
    else (let u1 = call (usb_add_desc_config max_interface_num false) (usb_memory_init u) in
        let u2 =
          if bit_and class hid_class == hid_class
          then call (usb_add_desc_config 0 true) (hid_register u1)
          else u1 in
        (0, usb_device_init u2))
