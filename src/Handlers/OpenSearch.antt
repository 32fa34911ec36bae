-- ===== src/Handlers/OpenSearch.antt =====
-- The search of `usb_open` in LibusbJava.c over libusb's linked lists, and a lookup by address in the
-- list of devices.
use owon_vds.Base.{
  ℕ, zero, suc, ◌<◌, ◌≡◌, refl, true, false, Option, List, [], ◌∷◌, ◌++◌, arith, length, inl, inr,
  Bool-cases,
}
use owon_vds.Base.Int.{ℤ, to_jlong, eq_ℤ}
use owon_vds.Libusb.Structs.{Ptr, UsbDevice, UsbBus}
use owon_vds.Busses.DeviceTree.{Chain, All, BusChain}
use owon_vds.Handlers.Open.{
  Search, found, missing, bad_pointer, out_of_rounds, search_devices, search_busses,
}

-- The addresses of the devices, bus by bus.
abbrev pub addresses : List (Ptr × UsbDevice) → List Ptr
addresses [] = []
addresses ((p, d) ∷ l) = p ∷ addresses l

abbrev pub all_addresses : List (Ptr × UsbBus × List (Ptr × UsbDevice)) → List Ptr
all_addresses [] = []
all_addresses ((p, b, devices) ∷ l) = addresses devices ++ all_addresses l

-- The first address that is `addr` as a `jlong`.
abbrev pub lookup : ℤ → List Ptr → Search
lookup addr [] = missing
lookup addr (p ∷ l) = elim (eq_ℤ (to_jlong p) addr) [ true ↦ found p | false ↦ lookup addr l ]

-- A lookup in two lists, one after the other.
abbrev or_else : Search → Search → Search
or_else missing r = r
or_else (found p) r = found p
or_else bad_pointer r = bad_pointer
or_else out_of_rounds r = out_of_rounds

lookup-++ :
    (addr : ℤ) (l m : List Ptr) → lookup addr (l ++ m) ≡ or_else (lookup addr l) (lookup addr m)
lookup-++ addr [] m = refl
lookup-++ addr (p ∷ l) m = elim (Bool-cases (eq_ℤ (to_jlong p) addr)) [
  | inl e ↦ rw (e, lookup) refl
  | inr e ↦ rw (e, lookup) (lookup-++ addr l m)
]

or_else-lem : {a b : Search} (r : Search) → a ≡ b → (elim r [ missing ↦ a | q ↦ q ]) ≡ or_else r b
or_else-lem missing e = e
or_else-lem (found p) e = refl
or_else-lem bad_pointer e = refl
or_else-lem out_of_rounds e = refl

search_devices-lookup :
    (at : Ptr → Option UsbDevice) (addr : ℤ) (l : List (Ptr × UsbDevice)) (fuel : ℕ) (p : Ptr)
    → Chain at (λ d. d.next) p l
    → length l < fuel
    → search_devices at addr fuel p ≡ lookup addr (addresses l)
unfolding search_devices
search_devices-lookup at addr l zero p chain lt = absurd (omega arith)
search_devices-lookup at addr [] (suc fuel) p chain lt = rw (chain, search_devices) refl
search_devices-lookup at addr ((q, d) ∷ l) (suc fuel) p (here, ne, read, rest) lt =
    rw (here, ne, search_devices)
      (elim (Bool-cases (eq_ℤ (to_jlong p) addr)) [
        | inl e ↦ rw (e, lookup) refl
        | inr e ↦
            rw (e, read, lookup) (search_devices-lookup at addr l fuel d.next rest (omega arith))
      ])

-- The rounds given are enough for the devices of each bus.
abbrev pub HasRounds : ℕ → Ptr × UsbBus × List (Ptr × UsbDevice) → Type 0
HasRounds devices (p, b, l) = length l < devices

-- The two nested loops of `usb_open` are one lookup: where libusb's lists end within the rounds given,
-- the search ends at the first device, bus by bus, whose address is the number that is looked for,
-- or, where there is none, without one; and it reads no struct that is not there.
pub search_busses-lookup :
    (at : Ptr → Option UsbBus) (devices_at : Ptr → Option UsbDevice) (addr : ℤ) (devices : ℕ)
    (l : List (Ptr × UsbBus × List (Ptr × UsbDevice))) (fuel : ℕ) (p : Ptr)
    → BusChain at devices_at p l
    → All (HasRounds devices) l
    → length l < fuel
    → search_busses at devices_at addr devices fuel p ≡ lookup addr (all_addresses l)
unfolding search_busses
search_busses-lookup at devices_at addr devices l zero p chain enough lt = absurd (omega arith)
search_busses-lookup at devices_at addr devices [] (suc fuel) p chain enough lt =
    rw (chain, search_busses) refl
search_busses-lookup at devices_at addr devices ((q, b, ds) ∷ l) (suc fuel) p
      (here, ne, read, inner, rest) (enough, more) lt =
    let e = search_devices-lookup devices_at addr ds devices b.devices inner enough in
    let ih =
      search_busses-lookup at devices_at addr devices l fuel b.next rest more (omega arith) in
    rw (ne, read, e, lookup-++ addr (addresses ds) (all_addresses l), search_busses)
      (or_else-lem (lookup addr (addresses ds)) ih)
