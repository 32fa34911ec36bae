-- ===== src/Handlers/OpenCopied.antt =====
-- `usb_get_busses` and `usb_open` of LibusbJava.c together.
use owon_vds.Base.{ℕ, ◌<◌, ◌≡◌, ◌⊎◌, inl, inr, Option, none, some, List, [], ◌∷◌, ◌++◌, length, ap}
use mathlib.Core.List.{Memᴰ}
use mathlib.Core.List.Memᴰ
use owon_vds.Base.Int.{to_jlong}
use owon_vds.Libusb.Structs.{Ptr, UsbDevice, UsbBus}
use owon_vds.Libusb.Api.{Libusb}
use owon_vds.Jni.Api.{Jni, Ref}
use owon_vds.Jni.Laws.{Laws, HasRoom}
use owon_vds.Native.Fields.{Field}
use owon_vds.Native.Names.{all_classes}
use owon_vds.Native.State.{State, References, Outcome, returned, clear_libusb_java_error}
use owon_vds.Busses.Get.{get_busses}
use owon_vds.Busses.References.{find_classes}
use owon_vds.Busses.Puts.{IsResolved}
use owon_vds.Busses.Lookup.{HasClasses}
use owon_vds.Busses.BusList.{Topology}
use owon_vds.Busses.DeviceTree.{All, BusChain, IsBusOk, IsDevice, IsDeviceList, IsBusList}
use owon_vds.Busses.Refinement.{Ended, IsCopied, IsRefused, IsReply, get_busses-IsReply}
use owon_vds.Handlers.Open.{open_device}
use owon_vds.Handlers.OpenSearch.{addresses, all_addresses, HasRounds}
use owon_vds.Handlers.OpenLaws.{IsAddress, open_device-opens}

-- The devices with their addresses, bus by bus.
abbrev pub all_devices : Topology → List (Ptr × UsbDevice)
all_devices [] = []
all_devices ((p, b, devices) ∷ l) = devices ++ all_devices l

mem_++ : {A : Type 0} {x : A} (l m : List A) → Memᴰ x (l ++ m) → Memᴰ x l ⊎ Memᴰ x m
mem_++ [] m i = inr i
mem_++ (q ∷ l) m (Memᴰ.head e) = inl (Memᴰ.head e)
mem_++ (q ∷ l) m (Memᴰ.tail i) = elim (mem_++ l m i) [ inl j ↦ inl (Memᴰ.tail j) | inr j ↦ inr j ]

mem_left : {A : Type 0} {x : A} (l m : List A) → Memᴰ x l → Memᴰ x (l ++ m)
mem_left [] m i = absurd (Memᴰ.not-nil i)
mem_left (q ∷ l) m (Memᴰ.head e) = Memᴰ.head e
mem_left (q ∷ l) m (Memᴰ.tail i) = Memᴰ.tail (mem_left l m i)

mem_right : {A : Type 0} {x : A} (l m : List A) → Memᴰ x m → Memᴰ x (l ++ m)
mem_right [] m i = i
mem_right (q ∷ l) m i = Memᴰ.tail (mem_right l m i)

mem-addresses :
    {p : Ptr} {d : UsbDevice} (l : List (Ptr × UsbDevice)) → Memᴰ (p, d) l → Memᴰ p (addresses l)
mem-addresses [] i = absurd (Memᴰ.not-nil i)
mem-addresses ((q, e) ∷ l) (Memᴰ.head same) = Memᴰ.head (ap (λ x. x.0) same)
mem-addresses ((q, e) ∷ l) (Memᴰ.tail i) = Memᴰ.tail (mem-addresses l i)

mem-all_addresses :
    {p : Ptr} {d : UsbDevice} (l : Topology)
    → Memᴰ (p, d) (all_devices l)
    → Memᴰ p (all_addresses l)
mem-all_addresses [] i = absurd (Memᴰ.not-nil i)
mem-all_addresses ((q, b, ds) ∷ l) i = elim (mem_++ ds (all_devices l) i) [
  | inl j ↦ mem_left (addresses ds) (all_addresses l) (mem-addresses ds j)
  | inr j ↦ mem_right (addresses ds) (all_addresses l) (mem-all_addresses l j)
]

module _ (jni : Jni) {refs : References} (res : IsResolved refs) where
  -- `r` is the object of the device `d` at `p`, with all its fields.
  pub record Stands (base w : jni.Vm) (p : Ptr) (d : UsbDevice) (r : Ref) : Type 0 where
    pub bus : Ref
    pub next : Option Ref
    pub prev : Option Ref
    pub is_device : IsDevice jni res base w bus next prev r (p, d)

  device_object :
      {base w : jni.Vm} {p : Ptr} {d : UsbDevice} (bus : Ref) (prev o : Option Ref)
      (l : List (Ptr × UsbDevice))
      → IsDeviceList jni res base w bus prev o l
      → Memᴰ (p, d) l
      → (r : Ref) × Stands base w p d r
  device_object bus prev o [] list i = absurd (Memᴰ.not-nil i)
  device_object {base} {w} {p} {d} bus prev o (x ∷ l) (r, next, at, own, here, rest) (Memᴰ.head e) =
      let same : IsDevice jni res base w bus next prev r (p, d) = rw e here in
      (r, record { bus = bus; next = next; prev = prev; is_device = same })
  device_object bus prev o (x ∷ l) (r, next, at, own, here, rest) (Memᴰ.tail i) =
      device_object bus (some r) next l rest i

  bus_object :
      {base w : jni.Vm} {p : Ptr} {d : UsbDevice} (prev o : Option Ref) (l : Topology)
      → IsBusList jni res base w prev o l
      → Memᴰ (p, d) (all_devices l)
      → (r : Ref) × Stands base w p d r
  bus_object prev o [] list i = absurd (Memᴰ.not-nil i)
  bus_object prev o ((q, b, ds) ∷ l) (r, next, at, own, here, rest) i =
      elim (mem_++ ds (all_devices l) i) [
        | inl j ↦ device_object r none here.first ds here.list j
        | inr j ↦ bus_object (some r) next l rest j
      ]

  Stands-address :
      (laws : Laws jni) {base w : jni.Vm} {p : Ptr} {d : UsbDevice} (r : Ref)
      → Stands base w p d r
      → jni.get_long_field r (res.field_id Field.dev_dev_struct_addr) w ≡ to_jlong p
  Stands-address laws r stands = laws.get_long_field r _ _ _ stands.is_device.numbers.1.1.0

All-HasRounds :
    (devices : ℕ) (l : List (Ptr × UsbBus × List (Ptr × UsbDevice)))
    → All (IsBusOk devices) l
    → All (HasRounds devices) l
All-HasRounds devices [] fine = tt
All-HasRounds devices ((p, b, ds) ∷ l) (here, rest) = (here.1, All-HasRounds devices l rest)

All-Memᴰ : (P : Ptr → Type 0) {p : Ptr} (l : List Ptr) → All P l → Memᴰ p l → P p
All-Memᴰ P [] all i = absurd (Memᴰ.not-nil i)
All-Memᴰ P (q ∷ l) (here, rest) (Memᴰ.head e) = rw e here
All-Memᴰ P (q ∷ l) (here, rest) (Memᴰ.tail i) = All-Memᴰ P l rest i

module _ (jni : Jni) (usb : Libusb) (laws : Laws jni) (devices fuel : ℕ)
    (l : List (Ptr × UsbBus × List (Ptr × UsbDevice))) (lt : length l < fuel) where
  -- The copy is made, and of each device it has an object with which `usb_open` opens the device.
  abbrev pub Opens : (base : jni.Vm) → Option Ref → State jni.Vm usb.Usb → Type 0
  Opens base o s =
      (copied : IsCopied jni usb base l o s) × ((p : Ptr) (d : UsbDevice)
        → Memᴰ (p, d) (all_devices l)
        → (r : Ref) × Stands jni copied.resolved base s.vm p d r
          × (open_device jni usb devices fuel r s ≡ (
              let (h, u) = usb.usb_open p s.usb in
              returned (to_jlong h) (record (clear_libusb_java_error s) { usb = u }))))

  copied-Opens :
      (base : jni.Vm) (o : Option Ref) (s : State jni.Vm usb.Usb)
      → IsCopied jni usb base l o s
      → BusChain (usb.bus_at s.usb) (usb.device_at s.usb) s.busses l
      → All (HasRounds devices) l
      → All IsAddress (all_addresses l)
      → Opens base o s
  copied-Opens base o s copied chain enough words = (
    copied,
    λ p d mem.
        let i = mem-all_addresses l mem in
        let (r, stands) = bus_object jni copied.resolved none o l copied.list mem in
        (
          r,
          stands,
          open_device-opens jni usb devices fuel r s
              (copied.resolved.field_id Field.dev_dev_struct_addr)
              (copied.resolved.fields Field.dev_dev_struct_addr) l chain enough lt p
              (All-Memᴰ IsAddress (all_addresses l) words i) words i
              (Stands-address jni copied.resolved laws r stands),
        ),
  )

  reply-Opens :
      (base : jni.Vm) (reply : Ptr × usb.Usb)
      → BusChain (usb.bus_at reply.1) (usb.device_at reply.1) reply.0 l
      → All (HasRounds devices) l
      → All IsAddress (all_addresses l)
      → (r : Outcome (State jni.Vm usb.Usb) (Option Ref)) → Ended (IsReply jni usb base reply l) r
      → Ended (λ o s. Opens base o s ⊎ IsRefused jni usb o s) r
  reply-Opens base reply chain enough words (returned o s) (p, u, inl copied) =
      inl (copied-Opens base o s copied (rw (p, u) chain) enough words)
  reply-Opens base reply chain enough words (returned o s) (p, u, inr refused) = inr refused
  reply-Opens base reply chain enough words Outcome.fault impossible = absurd impossible
  reply-Opens base reply chain enough words Outcome.out_of_fuel impossible = absurd impossible

  -- Where the virtual machine knows the classes and has room for strings and byte arrays, the flag
  -- of the lookups is not set, libusb's lists end within the rounds given, its arrays are as long
  -- as their counts say, and the devices' addresses are words of 64 bits: either `usb_get_busses`
  -- copied libusb's lists, and for each device in them, with the struct that libusb has of it, there
  -- is an object with all the fields of that struct, with which `usb_open` hands the device to
  -- libusb and returns its handle; or it returned NULL with an error set, after the virtual machine
  -- had refused an object.
  pub get_busses-Opens :
      (room : HasRoom jni) (has : HasClasses jni) (s : State jni.Vm usb.Usb)
      → s.java_references_loaded ≡ 0
      → (let (p, u) = usb.usb_get_busses s.usb in BusChain (usb.bus_at u) (usb.device_at u) p l)
      → All (IsBusOk devices) l
      → All IsAddress (all_addresses l)
      → let (_, _, base) = find_classes jni all_classes s.references s.vm in
        Ended (λ o s. Opens base o s ⊎ IsRefused jni usb o s) (get_busses jni usb devices fuel s)
  get_busses-Opens room has s unset chain fine words =
      reply-Opens _ (usb.usb_get_busses s.usb) chain (All-HasRounds devices l fine) words
        (get_busses jni usb devices fuel s)
        (get_busses-IsReply jni usb laws room has devices fuel s l unset chain fine lt)
