-- ===== src/Busses/DeviceTree.antt =====
-- The specification of the copy of linked lists: chains of structs in libusb's memory, and the Java
-- objects that stand for the devices of a bus and for the busses.
use owon_vds.Base.{ℕ, ◌<◌, ◌≡◌, false, Option, none, some, List, [], ◌∷◌, ◌==◌, length}
use owon_vds.Base.Int.{pos}
use owon_vds.Libusb.Structs.{Ptr, UsbDevice, UsbBus}
use owon_vds.Jni.Api.{Jni, Ref, object, long}
use owon_vds.Native.Fields.{Field}
use owon_vds.Native.State.{References}
use owon_vds.Busses.Devices.{
  device_links, device_numbers, device_descriptor_fields, bus_links, bus_devices_fields,
}
use owon_vds.Busses.Frame.{Own}
use owon_vds.Busses.Puts.{IsResolved, slot, Holds}
use owon_vds.Busses.ArraySpec.{AllFirst}
use owon_vds.Busses.Tree.{IsConfigOk, HoldsArray, IsConfig}
use owon_vds.Busses.Strings.{IsText}

-- From `p` the `next` pointers lead through these structs, at these addresses, to NULL.
abbrev pub Chain : {A : Type 0} → (Ptr → Option A) → (A → Ptr) → Ptr → List (Ptr × A) → Type 0
Chain at next p [] = p ≡ 0
Chain at next p ((q, x) ∷ l) =
    (q ≡ p) × ((p == 0) ≡ false) × (at p ≡ some x) × Chain at next (next x) l

abbrev pub All : {A : Type 0} → (A → Type 0) → List A → Type 0
All P [] = Unit
All P (x ∷ l) = P x × All P l

-- As many configurations as the device descriptor says.
abbrev pub IsDeviceOk : Ptr × UsbDevice → Type 0
IsDeviceOk (p, d) = AllFirst IsConfigOk d.descriptor.b_num_configurations d.config

-- From `p` the `next` pointers lead through these busses to NULL, and the device pointer of each
-- through its devices.
abbrev pub BusChain :
    (Ptr → Option UsbBus)
    → (Ptr → Option UsbDevice)
    → Ptr
    → List (Ptr × UsbBus × List (Ptr × UsbDevice))
    → Type 0
BusChain bus_at device_at p [] = p ≡ 0
BusChain bus_at device_at p ((q, b, devices) ∷ l) =
    (q ≡ p)
    × ((p == 0) ≡ false)
    × (bus_at p ≡ some b)
    × Chain device_at (λ d. d.next) b.devices devices
    × BusChain bus_at device_at b.next l

-- The devices of a bus are as their descriptors say, and `rounds` are enough for them.
abbrev pub IsBusOk : (rounds : ℕ) → Ptr × UsbBus × List (Ptr × UsbDevice) → Type 0
IsBusOk rounds (p, b, devices) = All IsDeviceOk devices × (length devices < rounds)

module _ (jni : Jni) {refs : References} (res : IsResolved refs) where
  -- The device descriptor's object.
  abbrev pub HoldsDescriptor : (base w : jni.Vm) → Ref → UsbDevice → Type 0
  HoldsDescriptor base w o d =
      (r : Ref) × (jni.get w o (slot res Field.dev_descriptor) ≡ object (some r))
      × Own jni base w r
      × Holds jni res w r (device_descriptor_fields d.descriptor)

  -- What hangs on the object `o` of a device is new since `base`.
  pub record IsDevice (base w : jni.Vm) (bus : Ref) (next prev : Option Ref) (o : Ref)
      (x : Ptr × UsbDevice) : Type 0 where
    pub links : Holds jni res w o (device_links next prev bus)
    pub filename : IsText jni res base w o Field.dev_filename x.1.filename
    pub numbers : Holds jni res w o (device_numbers x.0 x.1)
    pub descriptor : HoldsDescriptor base w o x.1
    pub configs :
        HoldsArray jni res
          (IsConfig jni res)
          base
          w
          o
          Field.dev_config
          (pos x.1.descriptor.b_num_configurations)
          x.1.config

  -- A doubly linked list of new objects, one for each device; `o` is the first, and `prev` comes
  -- before it.
  abbrev pub IsDeviceList :
      (base w : jni.Vm) (bus : Ref) (prev o : Option Ref) → List (Ptr × UsbDevice) → Type 0
  IsDeviceList base w bus prev o [] = o ≡ none
  IsDeviceList base w bus prev o (x ∷ l) =
      (r : Ref) × (next : Option Ref) × (o ≡ some r)
      × Own jni base w r
      × IsDevice base w bus next prev r x
      × IsDeviceList base w bus (some r) next l

  -- The object of a bus, with the list of its devices, whose first is `first`; it is `root_dev` too.
  pub record IsBus (base w : jni.Vm) (next prev : Option Ref) (o : Ref) (b : UsbBus)
      (devices : List (Ptr × UsbDevice)) : Type 0 where
    pub first : Option Ref
    pub links : Holds jni res w o (bus_links next prev)
    pub dirname : IsText jni res base w o Field.bus_dirname b.dirname
    pub location : jni.get w o (slot res Field.bus_location) ≡ long (pos b.location)
    pub roots : Holds jni res w o (bus_devices_fields first)
    pub list : IsDeviceList base w o none first devices

  -- A doubly linked list of new objects, one for each bus.
  abbrev pub IsBusList :
      (base w : jni.Vm) (prev o : Option Ref)
      → List (Ptr × UsbBus × List (Ptr × UsbDevice))
      → Type 0
  IsBusList base w prev o [] = o ≡ none
  IsBusList base w prev o ((p, b, devices) ∷ l) =
      (r : Ref) × (next : Option Ref) × (o ≡ some r)
      × Own jni base w r
      × IsBus base w next prev r b devices
      × IsBusList base w (some r) next l
