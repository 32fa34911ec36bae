-- ===== src/Busses/View.antt =====
-- The tree that Java code reads from the objects that `usb_get_busses` of LibusbJava.c makes, and the
-- tree that libusb's structs stand for. Bytes and shorts are read as unsigned.
pub mod Arrays
pub mod Configs
pub mod Lists
use owon_vds.Base.{ℕ, zero, suc, ◌+◌, Option, none, some, List, [], ◌∷◌, map, length, take}
use owon_vds.Base.Int.{ℤ, pos, rounds, of_jlong}
use owon_vds.Libusb.Structs.{
  Ptr, UsbEndpointDescriptor, UsbInterfaceDescriptor, UsbInterface, UsbConfigDescriptor,
  UsbDeviceDescriptor, UsbDevice, UsbBus,
}
use owon_vds.Jni.Api.{Jni, Ref, Value, object, long, size, text, bytes, element, extent, contents}
use owon_vds.Native.Fields.{Field}
use owon_vds.Native.State.{References}
use owon_vds.Busses.Puts.{IsResolved, slot}
use owon_vds.Busses.Readback.{low_byte, read_descriptor}
use owon_vds.Busses.ReadbackConfigs.{
  endpoint_numbers, interface_descriptor_numbers, config_numbers, read_endpoint,
  read_interface_descriptor, read_config,
}

pub record Endpoint : Type 0 where
  pub numbers : List ℕ
  pub extra : Option (List ℕ)

pub record Setting : Type 0 where
  pub numbers : List ℕ
  pub extra : Option (List ℕ)
  pub endpoints : List Endpoint

pub record Config : Type 0 where
  pub numbers : List ℕ
  pub extra : Option (List ℕ)
  pub interfaces : List (List Setting)

pub record Device : Type 0 where
  pub filename : List ℕ
  pub devnum : ℕ
  pub num_children : ℕ
  pub address : ℕ
  pub descriptor : UsbDeviceDescriptor
  pub configs : List Config

pub record Bus : Type 0 where
  pub dirname : List ℕ
  pub location : ℕ
  pub devices : List Device

-- What libusb's structs say.
abbrev pub seen_extra : Option (List ℕ) → ℤ → Option (List ℕ)
seen_extra none len = none
seen_extra (some l) len = some (take (rounds len) l)

-- The first `n` elements of a C array.
abbrev pub seen_array : {A B : Type 0} → (A → B) → ℕ → Option (List A) → List B
seen_array f n none = []
seen_array f n (some l) = map f (take n l)

abbrev pub seen_endpoint : UsbEndpointDescriptor → Endpoint
seen_endpoint d = record { numbers = endpoint_numbers d; extra = seen_extra d.extra d.extralen }

abbrev pub seen_setting : UsbInterfaceDescriptor → Setting
seen_setting d = record {
  numbers = interface_descriptor_numbers d;
  extra = seen_extra d.extra d.extralen;
  endpoints = seen_array seen_endpoint d.b_num_endpoints d.endpoint;
}

abbrev pub seen_interface : UsbInterface → List Setting
seen_interface d = seen_array seen_setting (rounds d.num_altsetting) d.altsetting

abbrev pub seen_config : UsbConfigDescriptor → Config
seen_config d = record {
  numbers = config_numbers d;
  extra = seen_extra d.extra d.extralen;
  interfaces = seen_array seen_interface d.b_num_interfaces d.interface;
}

abbrev pub seen_device : Ptr × UsbDevice → Device
seen_device (p, d) = record {
  filename = d.filename;
  devnum = d.devnum;
  num_children = d.num_children;
  address = p;
  descriptor = d.descriptor;
  configs = seen_array seen_config d.descriptor.b_num_configurations d.config;
}

abbrev pub seen_bus : Ptr × UsbBus × List (Ptr × UsbDevice) → Bus
seen_bus (p, b, devices) = record {
  dirname = b.dirname;
  location = b.location;
  devices = map seen_device devices;
}

-- What the slots hold, as Java code takes it.
abbrev pub ref_of : Value → Option Ref
ref_of (object r) = r
ref_of _ = none

abbrev pub bytes_of : Value → List ℕ
bytes_of (bytes l) = l
bytes_of _ = []

abbrev pub text_of : Value → List ℕ
text_of (text l) = l
text_of _ = []

abbrev pub word_of : Value → ℕ
word_of (long x) = of_jlong x
word_of _ = 0

abbrev pub length_of : Value → ℕ
length_of (size n) = rounds n
length_of _ = 0

module _ (jni : Jni) {refs : References} (res : IsResolved refs) (w : jni.Vm) where
  -- The elements of an array that are not NULL, from `i` on.
  abbrev pub read_elements : {B : Type 0} → (Ref → B) → Ref → (k i : ℕ) → List B
  read_elements f a zero i = []
  read_elements f a (suc k) i =
      let rest = read_elements f a k (i + 1) in
      elim (ref_of (jni.get w a (element i))) [ none ↦ rest | some o ↦ f o ∷ rest ]

  abbrev pub read_array : {B : Type 0} → (Ref → B) → Value → List B
  read_array f x = elim (ref_of x) [
    | none ↦ []
    | some a ↦ read_elements f a (length_of (jni.get w a extent)) 0
  ]

  abbrev pub read_extra : Ref → Field → Option (List ℕ)
  read_extra o f = elim (ref_of (jni.get w o (slot res f))) [
    | none ↦ none
    | some a ↦ some (bytes_of (jni.get w a contents))
  ]

  abbrev pub read_text : Ref → Field → List ℕ
  read_text o f = elim (ref_of (jni.get w o (slot res f))) [
    | none ↦ []
    | some a ↦ text_of (jni.get w a contents)
  ]

  abbrev pub view_endpoint : Ref → Endpoint
  view_endpoint o = record {
    numbers = read_endpoint jni res w o;
    extra = read_extra o Field.ep_desc_extra;
  }

  abbrev pub view_setting : Ref → Setting
  view_setting o = record {
    numbers = read_interface_descriptor jni res w o;
    extra = read_extra o Field.int_desc_extra;
    endpoints = read_array view_endpoint (jni.get w o (slot res Field.int_desc_endpoint));
  }

  abbrev pub view_interface : Ref → List Setting
  view_interface o = read_array view_setting (jni.get w o (slot res Field.int_altsetting))

  abbrev pub view_config : Ref → Config
  view_config o = record {
    numbers = read_config jni res w o;
    extra = read_extra o Field.conf_desc_extra;
    interfaces = read_array view_interface (jni.get w o (slot res Field.conf_desc_interface));
  }

  -- A device's descriptor is an object of its own; what is read where there is none does not matter.
  abbrev pub view_descriptor : Value → UsbDeviceDescriptor
  view_descriptor x = elim (ref_of x) [
    | none ↦ read_descriptor jni res w 0
    | some r ↦ read_descriptor jni res w r
  ]

  abbrev pub view_device : Ref → Device
  view_device o = record {
    filename = read_text o Field.dev_filename;
    devnum = low_byte (jni.get w o (slot res Field.dev_devnum));
    num_children = low_byte (jni.get w o (slot res Field.dev_num_children));
    address = word_of (jni.get w o (slot res Field.dev_dev_struct_addr));
    descriptor = view_descriptor (jni.get w o (slot res Field.dev_descriptor));
    configs = read_array view_config (jni.get w o (slot res Field.dev_config));
  }

  -- At most `n` objects, from one to the next.
  abbrev pub follow : {B : Type 0} → (Ref → B) → Field → (n : ℕ) → Option Ref → List B
  follow f next zero o = []
  follow f next (suc n) none = []
  follow f next (suc n) (some o) = f o ∷ follow f next n (ref_of (jni.get w o (slot res next)))

  abbrev pub view_bus : (devices : ℕ) → Ref → Bus
  view_bus n o = record {
    dirname = read_text o Field.bus_dirname;
    location = word_of (jni.get w o (slot res Field.bus_location));
    devices =
        follow view_device Field.dev_next n (ref_of (jni.get w o (slot res Field.bus_devices)));
  }

  -- The whole tree, with at most `n` busses and at most `devices` devices on each.
  abbrev pub view_busses : (devices n : ℕ) → Option Ref → List Bus
  view_busses devices = follow (view_bus devices) Field.bus_next
