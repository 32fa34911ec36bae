-- ===== src/Libusb/Api.antt =====
-- libusb's functions as parameters: its own state, the structs in its memory, and one operation for
-- each function that LibusbJava.c calls. A buffer is passed as `Option (List ℕ)`, `none` for NULL,
-- and its bytes come back as the call left them.
use owon_vds.Base.{ℕ, Option, List}
use owon_vds.Base.Int.{ℤ}
use owon_vds.Libusb.Structs.{Ptr, UsbBus, UsbDevice}

-- Bytes that C code holds at a pointer.
abbrev pub Buffer : Type 0
Buffer = Option (List ℕ)

pub record Libusb : Type 1 where
  pub Usb : Type 0
  pub bus_at : Usb → Ptr → Option UsbBus
  pub device_at : Usb → Ptr → Option UsbDevice
  pub usb_set_debug : ℤ → Usb → Usb
  pub usb_init : Usb → Usb
  pub usb_find_busses : Usb → ℤ × Usb
  pub usb_find_devices : Usb → ℤ × Usb
  pub usb_get_busses : Usb → Ptr × Usb
  pub usb_open : Ptr → Usb → Ptr × Usb
  pub usb_close : Ptr → Usb → ℤ × Usb
  pub usb_set_configuration : Ptr → ℤ → Usb → ℤ × Usb
  pub usb_set_altinterface : Ptr → ℤ → Usb → ℤ × Usb
  pub usb_clear_halt : Ptr → ℕ → Usb → ℤ × Usb
  pub usb_reset : Ptr → Usb → ℤ × Usb
  pub usb_claim_interface : Ptr → ℤ → Usb → ℤ × Usb
  pub usb_release_interface : Ptr → ℤ → Usb → ℤ × Usb
  pub usb_control_msg :
      Ptr
      → (requesttype request value index : ℤ) → Buffer
      → (size timeout : ℤ) → Usb
      → ℤ × List ℕ × Usb
  pub usb_get_string : Ptr → (index langid : ℤ) → List ℕ → ℕ → Usb → ℤ × List ℕ × Usb
  pub usb_get_string_simple : Ptr → (index : ℤ) → List ℕ → ℕ → Usb → ℤ × List ℕ × Usb
  pub usb_get_descriptor : Ptr → (type index : ℕ) → Buffer → ℤ → Usb → ℤ × List ℕ × Usb
  pub usb_get_descriptor_by_endpoint :
      Ptr → ℤ → (type index : ℕ) → Buffer → ℤ → Usb → ℤ × List ℕ × Usb
  pub usb_bulk_write : Ptr → ℤ → Buffer → (size timeout : ℤ) → Usb → ℤ × Usb
  pub usb_bulk_read : Ptr → ℤ → Buffer → (size timeout : ℤ) → Usb → ℤ × List ℕ × Usb
  pub usb_interrupt_write : Ptr → ℤ → Buffer → (size timeout : ℤ) → Usb → ℤ × Usb
  pub usb_interrupt_read : Ptr → ℤ → Buffer → (size timeout : ℤ) → Usb → ℤ × List ℕ × Usb
  pub usb_strerror : Usb → List ℕ
