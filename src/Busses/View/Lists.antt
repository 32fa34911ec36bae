-- ===== src/Busses/View/Lists.antt =====
-- How Java code reads the lists of busses and devices that `usb_get_busses` of LibusbJava.c makes.
use owon_vds.Base.{
  ℕ, zero, suc, ◌<◌, ◌≤◌, ◌^◌, ◌≡◌, ◌∙◌, refl, ap, ◌⊎◌, inl, inr, Option, none, some, List, [], ◌∷◌,
  map, length, arith,
}
use owon_vds.Base.Int.{pos, of_jlong, of_jlong-to_jlong}
use owon_vds.Libusb.Structs.{Ptr, UsbDevice, UsbBus}
use owon_vds.Libusb.Api.{Libusb}
use owon_vds.Jni.Api.{Jni, Ref, object}
use owon_vds.Jni.Laws.{Laws, HasRoom}
use owon_vds.Native.Fields.{Field}
use owon_vds.Native.State.{References, State, Outcome, returned}
use owon_vds.Busses.Get.{get_busses}
use owon_vds.Busses.Devices.{device_descriptor_fields}
use owon_vds.Busses.Puts.{IsResolved, slot, Holds}
use owon_vds.Busses.ArraySpec.{AllFirst}
use owon_vds.Busses.DeviceTree.{All, BusChain, IsBusOk, IsDevice, IsDeviceList, IsBus, IsBusList}
use owon_vds.Busses.BusList.{Topology}
use owon_vds.Busses.Lookup.{HasClasses}
use owon_vds.Busses.Readback.{IsDescriptor, low_byte-to_jbyte, read_descriptor-Holds}
use owon_vds.Busses.Refinement.{Ended, IsReply, IsRefused, get_busses-IsReply}
use owon_vds.Busses.View.{
  seen_config, seen_device, seen_bus, view_config, view_device, view_descriptor, view_bus,
  view_busses, follow, ref_of, word_of,
}
use owon_vds.Busses.View.Arrays.{read_held, read_text-IsText}
use owon_vds.Busses.View.Configs.{IsConfigTreeWords, view_config-seen}

-- The numbers of a device, and of all its parts, are words of their types, and its address is one of
-- 64 bits.
pub record IsDeviceWords (x : Ptr × UsbDevice) : Type 0 where
  pub address : x.0 < 2 ^ 64
  pub devnum : x.1.devnum < 2 ^ 8
  pub num_children : x.1.num_children < 2 ^ 8
  pub descriptor : IsDescriptor x.1.descriptor
  pub configs : AllFirst IsConfigTreeWords x.1.descriptor.b_num_configurations x.1.config

abbrev pub IsBusWords : Ptr × UsbBus × List (Ptr × UsbDevice) → Type 0
IsBusWords (p, b, devices) = (b.location < 2 ^ 32) × All IsDeviceWords devices

word_of-location : (n : ℕ) → n < 2 ^ 32 → of_jlong (pos n) ≡ n
unfolding of_jlong
word_of-location n h = ground arith

module _ (jni : Jni) {refs : References} (res : IsResolved refs) (w : jni.Vm) where
  view_descriptor-seen :
      (r : Ref) (x : Ptr × UsbDevice)
      → IsDeviceWords x
      → (d : Ref) → jni.get w r (slot res Field.dev_descriptor) ≡ object (some d)
      → Holds jni res w d (device_descriptor_fields x.1.descriptor)
      → view_descriptor jni res w (jni.get w r (slot res Field.dev_descriptor)) ≡ x.1.descriptor
  view_descriptor-seen r x small d at holds =
      rw (at, view_descriptor) (read_descriptor-Holds jni res x.1.descriptor small.descriptor holds)

  view_device-seen :
      (base : jni.Vm) (bus : Ref) (next prev : Option Ref) (r : Ref) (x : Ptr × UsbDevice)
      → IsDevice jni res base w bus next prev r x
      → IsDeviceWords x
      → view_device jni res w r ≡ seen_device x
  view_device-seen base bus next prev r x is small =
      let (h0, (h1, (h2, last))) = is.numbers in
      let (d, at, own, holds) = is.descriptor in
      λ i. record {
        filename = read_text-IsText jni res w base r Field.dev_filename x.1.filename is.filename i;
        devnum = low_byte-to_jbyte jni res Field.dev_devnum x.1.devnum small.devnum h0 i;
        num_children =
            low_byte-to_jbyte jni res Field.dev_num_children x.1.num_children small.num_children h1
              i;
        address = (ap word_of h2 ∙ of_jlong-to_jlong x.0 small.address) i;
        descriptor = view_descriptor-seen r x small d at holds i;
        configs =
            read_held jni res w (view_config jni res w) seen_config IsConfigTreeWords
              (view_config-seen jni res w) base (pos x.1.descriptor.b_num_configurations) x.1.config
              r Field.dev_config is.configs small.configs i;
      }

  follow-devices :
      (base : jni.Vm) (bus : Ref) (prev o : Option Ref) (l : List (Ptr × UsbDevice)) (n : ℕ)
      → IsDeviceList jni res base w bus prev o l
      → All IsDeviceWords l
      → length l ≤ n
      → follow jni res w (view_device jni res w) Field.dev_next n o ≡ map seen_device l
  follow-devices base bus prev o [] zero e small le = refl
  follow-devices base bus prev o [] (suc n) e small le = rw (e, follow) refl
  follow-devices base bus prev o (x ∷ l) zero is small le = absurd (omega arith)
  follow-devices base bus prev o (x ∷ l) (suc n) (r, next, e, own, is, rest) (small, others) le =
      let head = view_device-seen base bus next prev r x is small in
      let tail = follow-devices base bus (some r) next l n rest others (omega arith) in
      rw (e, follow) (rw (is.links.0) (λ i. head i ∷ tail i))

  view_bus-seen :
      (base : jni.Vm) (next prev : Option Ref) (r : Ref) (p : Ptr) (b : UsbBus)
      (devices : List (Ptr × UsbDevice)) (n : ℕ)
      → IsBus jni res base w next prev r b devices
      → IsBusWords (p, b, devices)
      → length devices ≤ n
      → view_bus jni res w n r ≡ seen_bus (p, b, devices)
  view_bus-seen base next prev r p b devices n is (small, others) le =
      let all = follow-devices base r none is.first devices n is.list others le in
      λ i. record {
        dirname = read_text-IsText jni res w base r Field.bus_dirname b.dirname is.dirname i;
        location = (ap word_of is.location ∙ word_of-location b.location small) i;
        devices =
            (ap (λ x. follow jni res w (view_device jni res w) Field.dev_next n (ref_of x))
                  is.roots.0
                ∙ all)
              i;
      }

  follow-busses :
      (base : jni.Vm) (prev o : Option Ref) (l : Topology) (devices n : ℕ)
      → IsBusList jni res base w prev o l
      → All IsBusWords l
      → All (IsBusOk devices) l
      → length l ≤ n
      → view_busses jni res w devices n o ≡ map seen_bus l
  follow-busses base prev o [] devices zero e small fine le = refl
  follow-busses base prev o [] devices (suc n) e small fine le = rw (e, follow) refl
  follow-busses base prev o (x ∷ l) devices zero is small fine le = absurd (omega arith)
  follow-busses base prev o ((p, b, ds) ∷ l) devices (suc n) (r, next, e, own, is, rest)
        (small, others) ((_, lt), fine) le =
      let head = view_bus-seen base next prev r p b ds devices is small (omega arith) in
      let tail = follow-busses base (some r) next l devices n rest others fine (omega arith) in
      rw (e, follow) (rw (is.links.0) (λ i. head i ∷ tail i))

module _ (jni : Jni) (usb : Libusb) where
  -- The variables are resolved, and the tree that Java reads from `r` is the one of libusb.
  abbrev pub IsSeen : (devices fuel : ℕ) → Topology → Option Ref → State jni.Vm usb.Usb → Type 0
  IsSeen devices fuel l r s =
      (res : IsResolved s.references) × (view_busses jni res s.vm devices fuel r ≡ map seen_bus l)

  reply-IsSeen :
      (base : jni.Vm) (reply : Ptr × usb.Usb) (l : Topology) (devices fuel : ℕ)
      (r : Outcome (State jni.Vm usb.Usb) (Option Ref))
      → All IsBusWords l
      → All (IsBusOk devices) l
      → length l < fuel
      → Ended (IsReply jni usb base reply l) r
      → Ended (λ o s. IsSeen devices fuel l o s ⊎ IsRefused jni usb o s) r
  reply-IsSeen base reply l devices fuel (returned o s) small fine lt (p, u, inl copied) = inl (
    copied.resolved,
    follow-busses jni copied.resolved s.vm base none o l devices fuel copied.list small fine
        (omega arith),
  )
  reply-IsSeen base reply l devices fuel (returned o s) small fine lt (p, u, inr refused) =
      inr refused
  reply-IsSeen base reply l devices fuel Outcome.fault small fine lt impossible = absurd impossible
  reply-IsSeen base reply l devices fuel Outcome.out_of_fuel small fine lt impossible =
      absurd impossible

  -- Where the virtual machine knows the classes and has room for strings and byte arrays, the flag
  -- of the lookups is not set, libusb's lists end within the rounds given, its arrays are as long
  -- as their counts say, and its numbers are words of their types: what `usb_get_busses` returns
  -- can be read back. Java code that follows the objects from bus to bus and from device to device,
  -- and takes bytes and shorts as unsigned, gets libusb's tree: names, locations, numbers and
  -- addresses of all busses and devices in order, the device descriptors, and the configurations
  -- with their interfaces, settings, endpoints and extra bytes. Or NULL was returned with an error
  -- set, and the machine has just refused an object.
  pub get_busses-IsSeen :
      (laws : Laws jni) (room : HasRoom jni) (has : HasClasses jni) (devices fuel : ℕ)
      (s : State jni.Vm usb.Usb) (l : Topology)
      → s.java_references_loaded ≡ 0
      → (let (p, u) = usb.usb_get_busses s.usb in BusChain (usb.bus_at u) (usb.device_at u) p l)
      → All (IsBusOk devices) l
      → All IsBusWords l
      → length l < fuel
      → Ended
          (λ o s'. IsSeen devices fuel l o s' ⊎ IsRefused jni usb o s')
          (get_busses jni usb devices fuel s)
  get_busses-IsSeen laws room has devices fuel s l unset chain fine small lt =
      reply-IsSeen _ (usb.usb_get_busses s.usb) l devices fuel (get_busses jni usb devices fuel s)
        small fine lt
        (get_busses-IsReply jni usb laws room has devices fuel s l unset chain fine lt)
