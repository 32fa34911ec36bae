-- ===== src/Libusb/Logging.antt =====
-- A libusb that keeps a log of the functions that are called, newest first, with the arguments that
-- say what the device is to do. `usb_strerror` changes nothing and is not logged.
use owon_vds.Base.{ℕ, List, ◌∷◌}
use owon_vds.Base.Int.{ℤ}
use owon_vds.Libusb.Structs.{Ptr}
use owon_vds.Libusb.Api.{Libusb}

pub data Request : Type 0 where
  set_debug : (level : ℤ) → Request
  init find_busses find_devices get_busses : Request
  open_device : Ptr → Request
  close reset : (handle : Ptr) → Request
  set_configuration set_altinterface : (handle : Ptr) (number : ℤ) → Request
  clear_halt : (handle : Ptr) (ep : ℕ) → Request
  claim_interface release_interface : (handle : Ptr) (interface : ℤ) → Request
  control_msg : (handle : Ptr) (requesttype request value index size timeout : ℤ) → Request
  get_string : (handle : Ptr) (index langid : ℤ) (buflen : ℕ) → Request
  get_string_simple : (handle : Ptr) (index : ℤ) (buflen : ℕ) → Request
  get_descriptor : (handle : Ptr) (type index : ℕ) (size : ℤ) → Request
  get_descriptor_by_endpoint : (handle : Ptr) (ep : ℤ) (type index : ℕ) (size : ℤ) → Request
  bulk_write bulk_read interrupt_write interrupt_read :
      (handle : Ptr) (ep size timeout : ℤ) → Request

pub record Logged (U : Type 0) : Type 0 where
  pub inner : U
  pub log : List Request

module _ {U : Type 0} where
  abbrev pub note : Request → U → Logged U → Logged U
  note r u w = record { inner = u; log = r ∷ w.log }

  -- The answer, with the call in the log.
  abbrev pub answer : {A : Type 0} → Request → A × U → Logged U → A × Logged U
  answer r (a, u) w = (a, note r u w)

  abbrev pub answer_bytes : Request → ℤ × List ℕ × U → Logged U → ℤ × List ℕ × Logged U
  answer_bytes r (n, b, u) w = (n, b, note r u w)

abbrev pub logging : Libusb → Libusb
logging usb = record {
  Usb = Logged usb.Usb;
  bus_at = λ w. usb.bus_at w.inner;
  device_at = λ w. usb.device_at w.inner;
  usb_set_debug = λ level w. note (Request.set_debug level) (usb.usb_set_debug level w.inner) w;
  usb_init = λ w. note Request.init (usb.usb_init w.inner) w;
  usb_find_busses = λ w. answer Request.find_busses (usb.usb_find_busses w.inner) w;
  usb_find_devices = λ w. answer Request.find_devices (usb.usb_find_devices w.inner) w;
  usb_get_busses = λ w. answer Request.get_busses (usb.usb_get_busses w.inner) w;
  usb_open = λ p w. answer (Request.open_device p) (usb.usb_open p w.inner) w;
  usb_close = λ h w. answer (Request.close h) (usb.usb_close h w.inner) w;
  usb_set_configuration =
      λ h c w. answer (Request.set_configuration h c) (usb.usb_set_configuration h c w.inner) w;
  usb_set_altinterface =
      λ h a w. answer (Request.set_altinterface h a) (usb.usb_set_altinterface h a w.inner) w;
  usb_clear_halt = λ h ep w. answer (Request.clear_halt h ep) (usb.usb_clear_halt h ep w.inner) w;
  usb_reset = λ h w. answer (Request.reset h) (usb.usb_reset h w.inner) w;
  usb_claim_interface =
      λ h i w. answer (Request.claim_interface h i) (usb.usb_claim_interface h i w.inner) w;
  usb_release_interface =
      λ h i w. answer (Request.release_interface h i) (usb.usb_release_interface h i w.inner) w;
  usb_control_msg = λ h t r v i b n m w.
      answer_bytes (Request.control_msg h t r v i n m) (usb.usb_control_msg h t r v i b n m w.inner)
        w;
  usb_get_string = λ h i l b n w.
      answer_bytes (Request.get_string h i l n) (usb.usb_get_string h i l b n w.inner) w;
  usb_get_string_simple = λ h i b n w.
      answer_bytes (Request.get_string_simple h i n) (usb.usb_get_string_simple h i b n w.inner) w;
  usb_get_descriptor = λ h t i b n w.
      answer_bytes (Request.get_descriptor h t i n) (usb.usb_get_descriptor h t i b n w.inner) w;
  usb_get_descriptor_by_endpoint = λ h ep t i b n w.
      answer_bytes (Request.get_descriptor_by_endpoint h ep t i n)
        (usb.usb_get_descriptor_by_endpoint h ep t i b n w.inner) w;
  usb_bulk_write = λ h ep b n m w.
      answer (Request.bulk_write h ep n m) (usb.usb_bulk_write h ep b n m w.inner) w;
  usb_bulk_read = λ h ep b n m w.
      answer_bytes (Request.bulk_read h ep n m) (usb.usb_bulk_read h ep b n m w.inner) w;
  usb_interrupt_write = λ h ep b n m w.
      answer (Request.interrupt_write h ep n m) (usb.usb_interrupt_write h ep b n m w.inner) w;
  usb_interrupt_read = λ h ep b n m w.
      answer_bytes (Request.interrupt_read h ep n m) (usb.usb_interrupt_read h ep b n m w.inner) w;
  usb_strerror = λ w. usb.usb_strerror w.inner;
}
