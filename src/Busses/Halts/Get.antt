-- ===== src/Busses/Halts/Get.antt =====
-- `usb_get_busses` of LibusbJava.c as a whole, where it meets a device that lacks an array.
use owon_vds.Base.{ℕ, ◌<◌, ◌≡◌, refl, ◌⊎◌, inl, inr, Option, none, some, List, length}
use owon_vds.Libusb.Structs.{Ptr, UsbDevice, UsbBus}
use owon_vds.Libusb.Api.{Libusb}
use owon_vds.Jni.Api.{Jni, Ref}
use owon_vds.Jni.Laws.{Laws, HasRoom}
use owon_vds.Native.Names.{all_classes}
use owon_vds.Native.State.{State, Message, clear_libusb_java_error}
use owon_vds.Busses.Action.{Step}
use owon_vds.Busses.References.{find_classes}
use owon_vds.Busses.Get.{finish, copy_busses, get_busses}
use owon_vds.Busses.Frame.{Grow}
use owon_vds.Busses.Puts.{IsResolved}
use owon_vds.Busses.DeviceTree.{All, IsDeviceOk, IsBusOk}
use owon_vds.Busses.BusList.{Topology}
use owon_vds.Busses.Lookup.{HasClasses, find_classes-IsResolved}
use owon_vds.Busses.Refinement.{Ended, IsRefused, find_references-find_classes}
use owon_vds.Busses.Halts.{halts, refused, Reaches}
use owon_vds.Busses.Halts.Nulls.{Lacks}
use owon_vds.Busses.Halts.Devices.{Stops}
use owon_vds.Busses.Halts.Busses.{BusReaches, BusReaches-ne, IsListTo, bus_loop-Stops}

-- The first device that lacks an array: the busses before it, its bus, the devices before it on the
-- bus, and the device.
pub record Culprit (bus_at : Ptr → Option UsbBus) (device_at : Ptr → Option UsbDevice) (p : Ptr)
    (rounds fuel : ℕ) (m : Option Message) (l : Topology) (b : UsbBus) : Type 0 where
  pub at : Ptr
  pub before : List (Ptr × UsbDevice)
  pub device_ptr : Ptr
  pub device : UsbDevice
  pub way : BusReaches bus_at device_at p l at
  pub busses : All (IsBusOk rounds) l
  pub here : bus_at at ≡ some b
  pub leads : Reaches device_at (λ d. d.next) b.devices before device_ptr
  pub devices : All IsDeviceOk before
  pub found : device_at device_ptr ≡ some device
  pub lacks : Lacks m device
  pub enough : length l < fuel
  pub enough_devices : length before < rounds

module _ (jni : Jni) (usb : Libusb) where
  -- `r` heads a list of new objects that stand for the busses `l`, with all that belongs to them, up
  -- to the bus `b`; no object of `base` has changed.
  pub record IsPartial (base : jni.Vm) (m : Option Message) (l : Topology) (b : UsbBus)
      (r : Option Ref) (s : State jni.Vm usb.Usb) : Type 0 where
    pub resolved : IsResolved s.references
    pub error : s.libusb_java_error ≡ m
    pub grown : Grow jni base s.vm
    pub list : IsListTo jni resolved base s.vm none r l b

  abbrev pub IsPartialReply :
      (base : jni.Vm)
      → (reply : Ptr × usb.Usb) → (m : Option Message) (l : Topology) (b : UsbBus) → Option Ref
      → State jni.Vm usb.Usb
      → Type 0
  IsPartialReply base reply m l b r s =
      (s.busses ≡ reply.0) × (s.usb ≡ reply.1) × (IsPartial base m l b r s ⊎ IsRefused jni usb r s)

  module _ (laws : Laws jni) (room : HasRoom jni) where
    finish-IsPartialReply :
        (s : State jni.Vm usb.Usb) (res : IsResolved s.references) (m : Option Message)
        (l : Topology) (b : UsbBus) (main : Option Ref) (r : Step jni.Vm (Option Ref))
        → s.libusb_java_error ≡ none
        → Stops jni laws room res main m
            (λ w. Grow jni s.vm w × IsListTo jni res s.vm w none main l b)
            r
        → Ended (IsPartialReply s.vm (s.busses, s.usb) m l b) (finish s r)
    unfolding finish
    finish-IsPartialReply s res none l b main r clear (halts (grown, list)) =
        (refl, refl, inl (record { resolved = res; error = clear; grown = grown; list = list }))
    finish-IsPartialReply s res (some m) l b main r clear (halts (grown, list)) =
        (refl, refl, inl (record { resolved = res; error = refl; grown = grown; list = list }))
    finish-IsPartialReply s res m l b main r clear (refused e w c) =
        (refl, refl, inr (refl, e, refl, c))

    copy_busses-IsPartialReply :
        (devices fuel : ℕ) (s : State jni.Vm usb.Usb) (res : IsResolved s.references)
        (m : Option Message) (l : Topology) (b : UsbBus)
        → s.libusb_java_error ≡ none
        → (let (p, u) = usb.usb_get_busses s.usb in
            Culprit (usb.bus_at u) (usb.device_at u) p devices fuel m l b)
        → Ended
            (IsPartialReply s.vm (usb.usb_get_busses s.usb) m l b)
            (copy_busses jni usb devices fuel s)
    unfolding copy_busses
    copy_busses-IsPartialReply devices fuel s res m l b clear c =
        let (p, u) = usb.usb_get_busses s.usb in
        let (main, stops) =
          bus_loop-Stops jni laws room res (usb.device_at u) c.device_ptr c.device c.found m c.lacks
            b c.before c.leads c.devices devices c.enough_devices (usb.bus_at u) c.at c.here l fuel
            p s.vm c.way c.busses c.enough in
        rw (BusReaches-ne (usb.bus_at u) (usb.device_at u) p l c.at c.way, copy_busses)
          (finish-IsPartialReply (record s { usb = u; busses = p }) res m l b main _ clear stops)

    -- Where the virtual machine knows the classes and has room for strings and byte arrays, and the
    -- flag of the lookups is not set: if an array of a device is NULL though its count says that it
    -- has elements, be it that of the configurations, as where libusb could not read them, or one of
    -- interfaces, interface descriptors or endpoints below, and what comes before it in the lists and
    -- arrays is as its counts say and within the rounds given, then `usb_get_busses` returns. It
    -- stores libusb's list, and returns a list of new objects: with the error that tells of NULL
    -- configurations for these, and without an error for the other arrays; or NULL with an error, and
    -- then the machine has just refused an object. The list holds all of the busses before that of
    -- the device, and of its bus the links, the name and the location; the objects that were there
    -- once the IDs were looked up are unchanged.
    pub get_busses-IsPartialReply :
        (has : HasClasses jni) (devices fuel : ℕ) (s : State jni.Vm usb.Usb) (m : Option Message)
        (l : Topology) (b : UsbBus)
        → s.java_references_loaded ≡ 0
        → (let (p, u) = usb.usb_get_busses s.usb in
            Culprit (usb.bus_at u) (usb.device_at u) p devices fuel m l b)
        → let (_, _, base) = find_classes jni all_classes s.references s.vm in
          Ended
            (IsPartialReply base (usb.usb_get_busses s.usb) m l b)
            (get_busses jni usb devices fuel s)
    unfolding get_busses
    get_busses-IsPartialReply has devices fuel s m l b unset c =
        let (found, res) = find_classes-IsResolved jni has s.references s.vm in
        let s' = clear_libusb_java_error s in
        let e = find_references-find_classes jni usb s' unset in
        let (_, refs, v) = find_classes jni all_classes s.references s.vm in
        rw (e, found, get_busses)
          (rw e (
            copy_busses-IsPartialReply devices fuel (record s' { references = refs; vm = v }) res m
              l b refl c))
