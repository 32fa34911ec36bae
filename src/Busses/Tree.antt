-- ===== src/Busses/Tree.antt =====
-- What it means that a Java object stands for a descriptor of libusb: the specification of the copy
-- that `usb_get_busses` makes. An object and all that hangs on it is new since `base`.
use owon_vds.Base.{ℕ, ◌≤◌, ◌≡◌, Option, none, some, List, length, take}
use owon_vds.Base.Int.{ℤ, pos, rounds}
use owon_vds.Libusb.Structs.{
  UsbEndpointDescriptor, UsbInterfaceDescriptor, UsbInterface, UsbConfigDescriptor,
}
use owon_vds.Jni.Api.{Jni, Ref, object, size, bytes, contents, extent}
use owon_vds.Native.Fields.{Field}
use owon_vds.Native.State.{References}
use owon_vds.Busses.Descriptors.{
  endpoint_fields, interface_descriptor_fields, interface_fields, config_fields,
}
use owon_vds.Busses.Frame.{Own}
use owon_vds.Busses.Puts.{IsResolved, slot, Holds}
use owon_vds.Busses.ArraySpec.{AllFirst, IsArray}

-- An `extra` of libusb: NULL, or `extralen` bytes at least.
abbrev pub IsExtraOk : Option (List ℕ) → ℤ → Type 0
IsExtraOk none len = Unit
IsExtraOk (some l) len = (n : ℕ) × (len ≡ pos n) × (n ≤ length l)

-- The arrays are as long as the counts say; then none is NULL where an element is read.
pub record IsEndpointOk (d : UsbEndpointDescriptor) : Type 0 where
  pub extra : IsExtraOk d.extra d.extralen

pub record IsInterfaceDescriptorOk (d : UsbInterfaceDescriptor) : Type 0 where
  pub extra : IsExtraOk d.extra d.extralen
  pub endpoints : AllFirst IsEndpointOk d.b_num_endpoints d.endpoint

pub record IsInterfaceOk (d : UsbInterface) : Type 0 where
  pub altsettings : AllFirst IsInterfaceDescriptorOk (rounds d.num_altsetting) d.altsetting

pub record IsConfigOk (d : UsbConfigDescriptor) : Type 0 where
  pub extra : IsExtraOk d.extra d.extralen
  pub interfaces : AllFirst IsInterfaceOk d.b_num_interfaces d.interface

module _ (jni : Jni) {refs : References} (res : IsResolved refs) where
  -- The field holds NULL, or a new byte array with the `extralen` bytes.
  abbrev pub IsExtra : (base w : jni.Vm) → Ref → Field → Option (List ℕ) → ℤ → Type 0
  IsExtra base w o f none len = jni.get w o (slot res f) ≡ object none
  IsExtra base w o f (some l) len =
      (a : Ref) × (jni.get w o (slot res f) ≡ object (some a))
      × Own jni base w a
      × (jni.get w a extent ≡ size len)
      × (jni.get w a contents ≡ bytes (take (rounds len) l))

  pub record IsEndpoint (base w : jni.Vm) (o : Ref) (d : UsbEndpointDescriptor) : Type 0 where
    pub own : Own jni base w o
    pub fields : Holds jni res w o (endpoint_fields d)
    pub extra : IsExtra base w o Field.ep_desc_extra d.extra d.extralen

  -- The field holds a new array of length `n`.
  abbrev pub HoldsArray :
      {A : Type 0} (R : jni.Vm → jni.Vm → Ref → A → Type 0) (base w : jni.Vm)
      → Ref
      → Field
      → ℤ
      → Option (List A)
      → Type 0
  HoldsArray R base w o f n xs =
      (a : Ref) × (jni.get w o (slot res f) ≡ object (some a)) × IsArray jni R base w n xs a

  pub record IsInterfaceDescriptor (base w : jni.Vm) (o : Ref) (d : UsbInterfaceDescriptor)
      : Type 0 where
    pub own : Own jni base w o
    pub fields : Holds jni res w o (interface_descriptor_fields d)
    pub extra : IsExtra base w o Field.int_desc_extra d.extra d.extralen
    pub endpoints :
        HoldsArray IsEndpoint base w o Field.int_desc_endpoint (pos d.b_num_endpoints) d.endpoint

  pub record IsInterface (base w : jni.Vm) (o : Ref) (d : UsbInterface) : Type 0 where
    pub own : Own jni base w o
    pub fields : Holds jni res w o (interface_fields d)
    pub altsettings :
        HoldsArray IsInterfaceDescriptor base w o Field.int_altsetting d.num_altsetting d.altsetting

  pub record IsConfig (base w : jni.Vm) (o : Ref) (d : UsbConfigDescriptor) : Type 0 where
    pub own : Own jni base w o
    pub fields : Holds jni res w o (config_fields d)
    pub extra : IsExtra base w o Field.conf_desc_extra d.extra d.extralen
    pub interfaces :
        HoldsArray IsInterface base w o Field.conf_desc_interface
          (pos d.b_num_interfaces)
          d.interface
