-- ===== src/Tests/Memory.antt =====
-- A libusb that runs: one bus with two devices, and calls that are written to a log.
use owon_vds.Base.{ℕ, ◌+◌, none, some, List, [], ◌∷◌, ◌++◌, ◌==◌, if◌then◌else◌, length, drop}
use owon_vds.Base.Int.{ℤ, pos}
use owon_vds.Libusb.Structs.{
  Ptr, UsbEndpointDescriptor, UsbInterfaceDescriptor, UsbInterface, UsbConfigDescriptor,
  UsbDeviceDescriptor, UsbDevice, UsbBus,
}
use owon_vds.Libusb.Api.{Libusb, Buffer}
use owon_vds.Native.State.{State, References}

abbrev pub bulk_in : UsbEndpointDescriptor
bulk_in = record {
  b_length = 7;
  b_descriptor_type = 5;
  b_endpoint_address = 0x81;
  bm_attributes = 2;
  w_max_packet_size = 512;
  b_interval = 0;
  b_refresh = 0;
  b_synch_address = 0;
  extra = some (1 ∷ 2 ∷ []);
  extralen = pos 2;
}

abbrev pub setting : UsbInterfaceDescriptor
setting = record {
  b_length = 9;
  b_descriptor_type = 4;
  b_interface_number = 0;
  b_alternate_setting = 0;
  b_num_endpoints = 1;
  b_interface_class = 255;
  b_interface_sub_class = 0;
  b_interface_protocol = 0;
  i_interface = 0;
  endpoint = some (bulk_in ∷ []);
  extra = none;
  extralen = pos 0;
}

abbrev pub interface_0 : UsbInterface
interface_0 = record { altsetting = some (setting ∷ []); num_altsetting = pos 1 }

abbrev pub config : UsbConfigDescriptor
config = record {
  b_length = 9;
  b_descriptor_type = 2;
  w_total_length = 32;
  b_num_interfaces = 1;
  b_configuration_value = 1;
  i_configuration = 0;
  bm_attributes = 0xc0;
  max_power = 50;
  interface = some (interface_0 ∷ []);
  extra = none;
  extralen = pos 0;
}

abbrev pub descriptor : (configurations : ℕ) → UsbDeviceDescriptor
descriptor n = record {
  b_length = 18;
  b_descriptor_type = 1;
  bcd_usb = 0x200;
  b_device_class = 0;
  b_device_sub_class = 0;
  b_device_protocol = 0;
  b_max_packet_size0 = 64;
  id_vendor = 0x5345;
  id_product = 0x1234;
  bcd_device = 0x100;
  i_manufacturer = 1;
  i_product = 2;
  i_serial_number = 3;
  b_num_configurations = n;
}

-- The oscilloscope, and a device with no configuration.
abbrev pub scope : UsbDevice
scope = record {
  next = 200;
  prev = 0;
  filename = b'1' ∷ [];
  bus = 16;
  descriptor = descriptor 1;
  config = some (config ∷ []);
  devnum = 4;
  num_children = 0;
}

abbrev pub other : UsbDevice
other = record {
  next = 0;
  prev = 100;
  filename = b'2' ∷ [];
  bus = 16;
  descriptor = descriptor 0;
  config = none;
  devnum = 5;
  num_children = 0;
}

abbrev pub bus : UsbBus
bus = record { next = 0; prev = 0; dirname = b'7' ∷ []; devices = 100; location = 7; root_dev = 0 }

abbrev pub topology : List (Ptr × UsbBus × List (Ptr × UsbDevice))
topology = (16, bus, (100, scope) ∷ (200, other) ∷ []) ∷ []

abbrev pub log_call : ℕ → List ℕ → ℤ × List ℕ
log_call code log = (pos 0, code ∷ log)

-- A transfer in brings `answer` at most, and leaves the rest of the buffer as it is.
abbrev pub fill : List ℕ → Buffer → List ℕ
fill answer none = []
fill answer (some l) = answer ++ drop (length answer) l

abbrev pub answer_bytes : List ℕ
answer_bytes = 65 ∷ 66 ∷ []

abbrev pub stub : Libusb
stub = record {
  Usb = List ℕ;
  bus_at = λ u p. if p == 16 then some bus else none;
  device_at = λ u p. if p == 100 then some scope else if p == 200 then some other else none;
  usb_set_debug = λ level u. 1 ∷ u;
  usb_init = λ u. 2 ∷ u;
  usb_find_busses = log_call 3;
  usb_find_devices = log_call 4;
  usb_get_busses = λ u. (16, u);
  usb_open = λ p u. (p + 1, p ∷ u);
  usb_close = λ h u. (pos 0, h ∷ u);
  usb_set_configuration = λ h c. log_call 5;
  usb_set_altinterface = λ h c. log_call 6;
  usb_clear_halt = λ h ep. log_call 7;
  usb_reset = λ h. log_call 8;
  usb_claim_interface = λ h i. log_call 9;
  usb_release_interface = λ h i. log_call 10;
  usb_control_msg = λ h rt r v i b size t u. (pos 2, fill answer_bytes b, 11 ∷ u);
  usb_get_string = λ h i l b n u. (pos 2, fill answer_bytes (some b), 12 ∷ u);
  usb_get_string_simple = λ h i b n u. (pos 2, fill answer_bytes (some b), 13 ∷ u);
  usb_get_descriptor = λ h t i b n u. (pos 2, fill answer_bytes b, t ∷ i ∷ u);
  usb_get_descriptor_by_endpoint = λ h ep t i b n u. (pos 2, fill answer_bytes b, t ∷ i ∷ u);
  usb_bulk_write = λ h ep b n t. log_call 14;
  usb_bulk_read = λ h ep b n t u. (pos 2, fill answer_bytes b, 15 ∷ u);
  usb_interrupt_write = λ h ep b n t. log_call 16;
  usb_interrupt_read = λ h ep b n t u. (pos 2, fill answer_bytes b, 17 ∷ u);
  usb_strerror = λ u. 63 ∷ [];
}

abbrev pub no_references : References
no_references = record { clazz = λ c. none; mid = λ c. none; fid = λ f. none }

-- The state when the shared library is loaded.
abbrev pub start : {V : Type 0} → V → State V (List ℕ)
start v = record {
  vm = v;
  usb = [];
  busses = 0;
  java_references_loaded = 0;
  libusb_java_error = none;
  config_done = 0;
  references = no_references;
  malloced = 0;
}
