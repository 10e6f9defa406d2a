-- ===== src/Usb.antt =====
-- The USB device layer of user_boot/app/src: what its files share. The precompiled USB stack is seen as
-- the calls that are made of it, in their order; what it answers is an argument of the function that
-- asks. The state is that of one controller, `usb_id` 0 where a chip has one.
pub mod Descriptor
pub mod Config
pub mod Hid
pub mod Device
pub mod Events
mod Tests
use fw_bootloader.Common.{Bool, ℕ, ◌/◌, ◌%◌, ◌^◌, List, [], ◌∷◌, ◌++◌, Option, u8}

-- The static DMA buffers of usb_config.c.
pub data Buffer : Type 0 where
  ep0_dma_buffer ep1_dma_in ep1_dma_out : Buffer

-- A function of type `usb_interrupt`: the one of hid.c, or another that the stack brings.
pub data Handler : Type 0 where
  hid_handler : Handler
  stack_handler : ℕ → Handler

-- The pins of the USB data lines.
pub data Line : Type 0 where
  dp dm : Line

pub data UsbCall : Type 0 where
  -- The interrupt.
  usb_reset_interface usb_control_transfer : UsbCall
  run_handler : Handler → ℕ → UsbCall
  usb_sof_clr_pnd log_frame usb_phy_suspend : UsbCall
  usb_var_init usb_setup_init : Bool → UsbCall
  request_ctrl_irq request_sof_irq : ℕ → ℕ → UsbCall
  -- Control transfers.
  usb_set_data_payload : List ℕ → UsbCall
  usb_set_setup_phase : ℕ → UsbCall
  usb_set_setup_recv : UsbCall
  usb_read_ep0 : ℕ → UsbCall
  -- Endpoints: the address, the type, whether with an interrupt, the buffer and its size.
  usb_g_ep_config : ℕ → ℕ → ℕ → Option Buffer → ℕ → UsbCall
  usb_enable_ep : ℕ → UsbCall
  usb_g_intr_write : ℕ → List ℕ → UsbCall
  usb_set_interface_hander usb_set_reset_hander : ℕ → UsbCall
  -- The start and the end of the device.
  usb_g_sie_init usb_slave_init usb_g_hold : UsbCall
  usb_set_dma_raddr : ℕ → Buffer → UsbCall
  usb_write_intr_usbe usb_clr_intr_txe usb_clr_intr_rxe usb_set_intr_txe usb_set_intr_rxe :
      ℕ → UsbCall
  usb_add_desc_config : ℕ → Bool → UsbCall
  gpio_set_direction gpio_set_pull_up gpio_set_pull_down gpio_set_die : Line → ℕ → UsbCall
  mdelay : ℕ → UsbCall

-- The static variables of usb_config.c and hid.c, the flag `new_data` of user.c, and what was called.
-- `none` in a table is the pointer NULL; `usb_config_var` is whether that pointer is set. `setup_buffer` is
-- the memory behind what `usb_get_setup_buffer` returns, `payload` that behind what `usb_set_data_payload`
-- returns; what the stack leaves there is not described.
pub record Usb : Type 0 where
  pub usb_interrupt_tx : List (Option Handler)
  pub usb_interrupt_rx : List (Option Handler)
  pub usb_config_var : Bool
  pub sof_count : ℕ
  pub sof_frame : ℕ
  pub hid_ep_in_dma : Option Buffer
  pub hid_ep_out_dma : Option Buffer
  pub new_data : ℕ
  pub setup_buffer : List ℕ
  pub payload : List ℕ
  pub calls : List UsbCall

abbrev pub call : UsbCall → Usb → Usb
call c u = record u { calls = u.calls ++ c ∷ [] }

abbrev pub call_all : List UsbCall → Usb → Usb
call_all cs u = record u { calls = u.calls ++ cs }

abbrev pub usb_dir_in : ℕ
usb_dir_in = 0x80

abbrev pub lobyte : ℕ → ℕ
lobyte w = u8 w

abbrev pub hibyte : ℕ → ℕ
hibyte w = u8 (w / 256)
