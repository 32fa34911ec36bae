-- ===== src/Handlers/OpenLaws.antt =====
-- `usb_open` of LibusbJava.c on every branch, and `usb_close` of the handle.
use owon_vds.Base.{
  ℕ, ◌^◌, ◌<◌, ◌≡◌, ◌≢◌, refl, sym, ap, ◌∙◌, true, false, some, List, [], ◌∷◌, ◌==◌, length, inl,
  inr, Bool, Bool-cases, if◌then◌else◌,
}
use mathlib.Core.List.{Memᴰ}
use mathlib.Core.List.Memᴰ
use owon_vds.Base.Int.{ℤ, pos, to_jlong, of_jlong, eq_ℤ, eq_ℤ-refl, eq_ℤ-eq, of_jlong-to_jlong}
use owon_vds.Libusb.Structs.{Ptr, UsbDevice, UsbBus}
use owon_vds.Libusb.Api.{Libusb}
use owon_vds.Jni.Api.{Jni, Ref}
use owon_vds.Native.Fields.{Field}
use owon_vds.Native.State.{State, Message, returned, clear_libusb_java_error}
use owon_vds.Busses.DeviceTree.{All, BusChain}
use owon_vds.Handlers.Control.{forward, close}
use owon_vds.Handlers.Open.{found, missing, open_found, open_device}
use owon_vds.Handlers.OpenSearch.{all_addresses, lookup, HasRounds, search_busses-lookup}

-- An address is a word of 64 bits.
abbrev pub IsAddress : Ptr → Type 0
IsAddress p = p < 2 ^ 64

abbrev pub null {ℓ} : {A : Type ℓ} → List A → Bool
null [] = true
null (_ ∷ _) = false

null_of_mem :
    {p : Ptr} (l : List (Ptr × UsbBus × List (Ptr × UsbDevice)))
    → Memᴰ p (all_addresses l)
    → null l ≡ false
null_of_mem [] i = absurd (Memᴰ.not-nil i)
null_of_mem (x ∷ l) i = refl

to_jlong-inj : (p q : Ptr) → IsAddress p → IsAddress q → to_jlong p ≡ to_jlong q → p ≡ q
to_jlong-inj p q hp hq e = sym (of_jlong-to_jlong p hp) ∙ ap of_jlong e ∙ of_jlong-to_jlong q hq

lookup-found :
    (p : Ptr) (l : List Ptr)
    → IsAddress p
    → All IsAddress l
    → Memᴰ p l
    → lookup (to_jlong p) l ≡ found p
lookup-found p [] hp words i = absurd (Memᴰ.not-nil i)
lookup-found p (q ∷ l) hp (hq, hl) (Memᴰ.head e) =
    let same : eq_ℤ (to_jlong q) (to_jlong p) ≡ true = rw⁻¹ e (eq_ℤ-refl (to_jlong p)) in
    rw (same, lookup) (ap found (sym e))
lookup-found p (q ∷ l) hp (hq, hl) (Memᴰ.tail i) =
    elim (Bool-cases (eq_ℤ (to_jlong q) (to_jlong p))) [
      | inl e ↦
          rw (e, lookup) (ap found (to_jlong-inj q p hq hp (eq_ℤ-eq (to_jlong q) (to_jlong p) e)))
      | inr e ↦ rw (e, lookup) (lookup-found p l hp hl i)
    ]

lookup-missing :
    (addr : ℤ) (l : List Ptr) → ((p : Ptr) → Memᴰ p l → to_jlong p ≢ addr) → lookup addr l ≡ missing
lookup-missing addr [] h = refl
lookup-missing addr (p ∷ l) h = elim (Bool-cases (eq_ℤ (to_jlong p) addr)) [
  | inl e ↦ absurd (h p (Memᴰ.head refl) (eq_ℤ-eq (to_jlong p) addr e))
  | inr e ↦ rw (e, lookup) (lookup-missing addr l λ q i. h q (Memᴰ.tail i))
]

BusChain-null :
    (usb : Libusb) (u : usb.Usb) (l : List (Ptr × UsbBus × List (Ptr × UsbDevice))) (p : Ptr)
    → BusChain (usb.bus_at u) (usb.device_at u) p l
    → (p == 0) ≡ null l
BusChain-null usb u [] p e = rw e refl
BusChain-null usb u (x ∷ l) p (here, ne, read, inner, rest) = ne

module _ (jni : Jni) (usb : Libusb) (devices fuel : ℕ) (dev : Ref) (s : State jni.Vm usb.Usb)
    (i : ℕ) (resolved : s.references.fid Field.dev_dev_struct_addr ≡ some i)
    (l : List (Ptr × UsbBus × List (Ptr × UsbDevice)))
    (chain : BusChain (usb.bus_at s.usb) (usb.device_at s.usb) s.busses l)
    (enough : All (HasRounds devices) l) (lt : length l < fuel) where
  open_device-lookup :
      (s.busses == 0) ≡ false
      → open_device jni usb devices fuel dev s
        ≡ open_found jni usb
            (lookup (jni.get_long_field dev i s.vm) (all_addresses l))
            (clear_libusb_java_error s)
  unfolding open_device
  open_device-lookup ne =
      rw (ne, resolved, open_device)
        (ap (λ r. open_found jni usb r (clear_libusb_java_error s))
          (search_busses-lookup (usb.bus_at s.usb) (usb.device_at s.usb)
            (jni.get_long_field dev i s.vm) devices l fuel s.busses chain enough lt))

  -- Where libusb's lists end within the rounds given, the ID of the address field is known and
  -- addresses are words of 64 bits: if the Java object holds the address of one of the devices,
  -- `usb_open` hands that device to libusb, once, and returns its handle; the error is cleared and
  -- nothing else changes.
  pub open_device-opens :
      (p : Ptr)
      → IsAddress p
      → All IsAddress (all_addresses l)
      → Memᴰ p (all_addresses l)
      → jni.get_long_field dev i s.vm ≡ to_jlong p
      → open_device jni usb devices fuel dev s ≡ (
          let (h, u) = usb.usb_open p s.usb in
          returned (to_jlong h) (record (clear_libusb_java_error s) { usb = u }))
  unfolding open_found
  open_device-opens p word words i same =
      open_device-lookup (BusChain-null usb s.usb l s.busses chain ∙ null_of_mem l i)
      ∙ rw (same, lookup-found p (all_addresses l) word words i) refl

  -- A handle goes through Java unchanged. Where libusb's lists end within the rounds given, the ID
  -- of the address field is known, addresses and the handle are words of 64 bits, and the Java
  -- object holds the address of a device: `usb_close` of the number that `usb_open` returned closes
  -- the handle that libusb opened, and nothing but libusb's state and the error changes.
  pub open_device-close :
      (p : Ptr)
      → IsAddress p
      → All IsAddress (all_addresses l)
      → Memᴰ p (all_addresses l)
      → jni.get_long_field dev i s.vm ≡ to_jlong p
      → IsAddress (usb.usb_open p s.usb).0
      → let (h, u) = usb.usb_open p s.usb in
        (v : ℤ) × (s' : State jni.Vm usb.Usb) × (open_device jni usb devices fuel dev s
          ≡ returned v s')
        × (close usb v s' ≡ (
            let (r, u') = usb.usb_close h u in
            (r, record (clear_libusb_java_error s) { usb = u' })))
  unfolding close
  open_device-close p word words i same small =
      let (h, u) = usb.usb_open p s.usb in
      let s' = record (clear_libusb_java_error s) { usb = u } in
      (
        to_jlong h,
        s',
        open_device-opens p word words i same,
        ap (λ k. forward (usb.usb_close k) s') (of_jlong-to_jlong h small),
      )

  -- Where libusb's lists end within the rounds given and the ID of the address field is known: if
  -- the object holds the address of none of the devices, `usb_open` returns 0, hands nothing to
  -- libusb, and sets an error: that there are no busses, or that there is no such device.
  pub open_device-refuses :
      ((p : Ptr) → Memᴰ p (all_addresses l) → to_jlong p ≢ jni.get_long_field dev i s.vm)
      → open_device jni usb devices fuel dev s
        ≡ returned (pos 0) (record s {
          libusb_java_error = some (if null l then Message.busses_null else Message.no_device);
        })
  unfolding open_device open_found
  open_device-refuses none_of = elim (Bool-cases (null l)) [
    | inl e ↦ rw (e, BusChain-null usb s.usb l s.busses chain ∙ e, open_device) refl
    | inr e ↦
        open_device-lookup (BusChain-null usb s.usb l s.busses chain ∙ e)
        ∙ rw (lookup-missing (jni.get_long_field dev i s.vm) (all_addresses l) none_of, e) refl
  ]
