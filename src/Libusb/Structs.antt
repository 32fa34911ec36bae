-- ===== src/Libusb/Structs.antt =====
-- The structs of usb.h that LibusbJava.c reads. A pointer to an array is an `Option` of the array's
-- elements, `none` for NULL; a pointer into a linked list is an address, 0 for NULL.
use owon_vds.Base.{ℕ, Option, List}
use owon_vds.Base.Int.{ℤ}

-- An address; 0 is NULL.
abbrev pub Ptr : Type 0
Ptr = ℕ

pub record UsbEndpointDescriptor : Type 0 where
  pub b_length : ℕ
  pub b_descriptor_type : ℕ
  pub b_endpoint_address : ℕ
  pub bm_attributes : ℕ
  pub w_max_packet_size : ℕ
  pub b_interval : ℕ
  pub b_refresh : ℕ
  pub b_synch_address : ℕ
  pub extra : Option (List ℕ)
  pub extralen : ℤ

pub record UsbInterfaceDescriptor : Type 0 where
  pub b_length : ℕ
  pub b_descriptor_type : ℕ
  pub b_interface_number : ℕ
  pub b_alternate_setting : ℕ
  pub b_num_endpoints : ℕ
  pub b_interface_class : ℕ
  pub b_interface_sub_class : ℕ
  pub b_interface_protocol : ℕ
  pub i_interface : ℕ
  pub endpoint : Option (List UsbEndpointDescriptor)
  pub extra : Option (List ℕ)
  pub extralen : ℤ

pub record UsbInterface : Type 0 where
  pub altsetting : Option (List UsbInterfaceDescriptor)
  pub num_altsetting : ℤ

pub record UsbConfigDescriptor : Type 0 where
  pub b_length : ℕ
  pub b_descriptor_type : ℕ
  pub w_total_length : ℕ
  pub b_num_interfaces : ℕ
  pub b_configuration_value : ℕ
  pub i_configuration : ℕ
  pub bm_attributes : ℕ
  pub max_power : ℕ
  pub interface : Option (List UsbInterface)
  pub extra : Option (List ℕ)
  pub extralen : ℤ

pub record UsbDeviceDescriptor : Type 0 where
  pub b_length : ℕ
  pub b_descriptor_type : ℕ
  pub bcd_usb : ℕ
  pub b_device_class : ℕ
  pub b_device_sub_class : ℕ
  pub b_device_protocol : ℕ
  pub b_max_packet_size0 : ℕ
  pub id_vendor : ℕ
  pub id_product : ℕ
  pub bcd_device : ℕ
  pub i_manufacturer : ℕ
  pub i_product : ℕ
  pub i_serial_number : ℕ
  pub b_num_configurations : ℕ

-- `filename` holds the characters before the NUL.
pub record UsbDevice : Type 0 where
  pub next : Ptr
  pub prev : Ptr
  pub filename : List ℕ
  pub bus : Ptr
  pub descriptor : UsbDeviceDescriptor
  pub config : Option (List UsbConfigDescriptor)
  pub devnum : ℕ
  pub num_children : ℕ

pub record UsbBus : Type 0 where
  pub next : Ptr
  pub prev : Ptr
  pub dirname : List ℕ
  pub devices : Ptr
  pub location : ℕ
  pub root_dev : Ptr
