-- ===== src/Busses/Devices.antt =====
-- The two loops over linked lists in `usb_get_busses` of LibusbJava.c: the devices of a bus, and the
-- busses. The structs are read at their addresses; reading where there is none is undefined.
use owon_vds.Base.{ℕ, zero, suc, Option, none, some, List, [], ◌∷◌, ◌==◌, if◌then◌else◌}
use owon_vds.Base.Int.{pos, to_jbyte, to_jshort, to_jlong}
use owon_vds.Libusb.Structs.{Ptr, UsbDeviceDescriptor, UsbDevice, UsbBus}
use owon_vds.Jni.Api.{Jni, Ref, Value, object, byte, short, long}
use owon_vds.Native.Fields
use owon_vds.Native.Fields.{JavaClass, Field}
use owon_vds.Native.State.{Message, References}
use owon_vds.Busses.Action.{
  Action, fault, out_of_fuel, ◌>>=◌, ◌>>◌, pure, put, puts, new, put_string,
}
use owon_vds.Busses.Descriptors.{copy_configs}

abbrev pub device_descriptor_fields : UsbDeviceDescriptor → List (Field × Value)
device_descriptor_fields d =
    (Field.dev_desc_b_length, byte (to_jbyte d.b_length))
    ∷ (Field.dev_desc_b_descriptor_type, byte (to_jbyte d.b_descriptor_type))
    ∷ (Field.dev_desc_bcd_usb, short (to_jshort d.bcd_usb))
    ∷ (Field.dev_desc_b_device_class, byte (to_jbyte d.b_device_class))
    ∷ (Field.dev_desc_b_device_sub_class, byte (to_jbyte d.b_device_sub_class))
    ∷ (Field.dev_desc_b_device_protocol, byte (to_jbyte d.b_device_protocol))
    ∷ (Field.dev_desc_b_max_packet_size0, byte (to_jbyte d.b_max_packet_size0))
    ∷ (Field.dev_desc_id_vendor, short (to_jshort d.id_vendor))
    ∷ (Field.dev_desc_id_product, short (to_jshort d.id_product))
    ∷ (Field.dev_desc_bcd_device, short (to_jshort d.bcd_device))
    ∷ (Field.dev_desc_i_manufacturer, byte (to_jbyte d.i_manufacturer))
    ∷ (Field.dev_desc_i_product, byte (to_jbyte d.i_product))
    ∷ (Field.dev_desc_i_serial_number, byte (to_jbyte d.i_serial_number))
    ∷ (Field.dev_desc_b_num_configurations, byte (to_jbyte d.b_num_configurations))
    ∷ []

-- The links of a device's object, written before its file name, and the numbers written after it.
abbrev pub device_links : (next prev : Option Ref) → (bus : Ref) → List (Field × Value)
device_links next prev bus =
    (Field.dev_next, object next)
    ∷ (Field.dev_prev, object prev)
    ∷ (Field.dev_bus, object (some bus))
    ∷ []

abbrev pub device_numbers : Ptr → UsbDevice → List (Field × Value)
device_numbers p d =
    (Field.dev_devnum, byte (to_jbyte d.devnum))
    ∷ (Field.dev_num_children, byte (to_jbyte d.num_children))
    ∷ (Field.dev_dev_struct_addr, long (to_jlong p))
    ∷ []

abbrev pub bus_links : (next prev : Option Ref) → List (Field × Value)
bus_links next prev = (Field.bus_next, object next) ∷ (Field.bus_prev, object prev) ∷ []

abbrev pub bus_devices_fields : Option Ref → List (Field × Value)
bus_devices_fields d = (Field.bus_devices, object d) ∷ (Field.bus_root_dev, object d) ∷ []

-- A struct in libusb's memory.
unfoldable pub read : {V A : Type 0} → (Ptr → Option A) → Ptr → Action V A
read at p = elim (at p) [ none ↦ λ _. fault | some x ↦ pure x ]

module _ (jni : Jni) (refs : References) where
  -- `if (!o) { o = NewObject(...); main = o; }`: the object, and `main`.
  unfoldable pub current :
      JavaClass → Message → (o main : Option Ref) → Action jni.Vm (Ref × Option Ref)
  current c m none main = do o ← new jni refs c m; pure (o, some o)
  current c m (some o) main = pure (o, main)

  -- `next = NULL; if (p) { next = NewObject(...); }`
  unfoldable pub new_next : JavaClass → Message → Ptr → Action jni.Vm (Option Ref)
  new_next c m p = if p == 0 then pure none else (do o ← new jni refs c m; pure (some o))

  -- The fields of a device's object, its descriptor and its configurations.
  unfoldable pub fill_device :
      (main : Option Ref) (bus o : Ref) (next prev : Option Ref)
      → Ptr
      → UsbDevice
      → Action jni.Vm (Unit {0})
  fill_device main bus o next prev p d = do
    puts jni refs o (device_links next prev bus)
    put_string jni refs o Field.dev_filename d.filename
    puts jni refs o (device_numbers p d)
    desc ← new jni refs Fields.device_descriptor Message.dev_desc_object
    puts jni refs desc (device_descriptor_fields d.descriptor)
    put jni refs o Field.dev_descriptor (object (some desc))
    a ← copy_configs jni refs main d.descriptor.b_num_configurations d.config
    put jni refs o Field.dev_config (object (some a))

  -- `while (dev)`, with `fuel` rounds; returns `main_usb_devObj`.
  unfoldable pub device_loop :
      (Ptr → Option UsbDevice)
      → (main : Option Ref) (bus : Ref) → (fuel : ℕ) → Ptr
      → (o prev main_dev : Option Ref) → Action jni.Vm (Option Ref)
  device_loop at main bus zero p o prev main_dev = λ _. out_of_fuel
  device_loop at main bus (suc fuel) p o prev main_dev = if p == 0 then pure main_dev else do
    d ← read at p
    (obj, main_dev') ← current Fields.device Message.dev_object o main_dev
    next ← new_next Fields.device Message.dev_object_next d.next
    fill_device main bus obj next prev p d
    device_loop at main bus fuel d.next next (some obj) main_dev'

  -- The fields of a bus's object, and the loop over its devices.
  unfoldable pub fill_bus :
      (Ptr → Option UsbDevice)
      → (main : Option Ref) → (fuel : ℕ) (o : Ref) (next prev : Option Ref) → UsbBus
      → Action jni.Vm (Unit {0})
  fill_bus at main fuel o next prev b = do
    puts jni refs o (bus_links next prev)
    put_string jni refs o Field.bus_dirname b.dirname
    put jni refs o Field.bus_location (long (pos b.location))
    first ← device_loop at main o fuel b.devices none none none
    puts jni refs o (bus_devices_fields first)

  -- `while (bus)`, with `fuel` rounds, and `devices` rounds for the devices of each bus; returns
  -- `main_usb_busObj`.
  unfoldable pub bus_loop :
      (Ptr → Option UsbBus)
      → (Ptr → Option UsbDevice)
      → (devices fuel : ℕ) → Ptr
      → (o prev main : Option Ref) → Action jni.Vm (Option Ref)
  bus_loop at devices_at devices zero p o prev main = λ _. out_of_fuel
  bus_loop at devices_at devices (suc fuel) p o prev main = if p == 0 then pure main else do
    b ← read at p
    (obj, main') ← current Fields.bus Message.bus_object o main
    next ← new_next Fields.bus Message.bus_object_next b.next
    fill_bus devices_at main' devices obj next prev b
    bus_loop at devices_at devices fuel b.next next (some obj) main'
