-- ===== src/Busses/Refinement.antt =====
-- `usb_get_busses` of LibusbJava.c as a whole, and its specification.
use owon_vds.Base.{
  ℕ, ◌<◌, ◌≡◌, refl, true, ◌⊎◌, inl, inr, Option, none, some, List, [], ◌∷◌, ◌==◌, arith, length,
}
use owon_vds.Libusb.Structs.{Ptr, UsbDevice, UsbBus}
use owon_vds.Libusb.Api.{Libusb}
use owon_vds.Jni.Api.{Jni, Ref}
use owon_vds.Jni.Laws.{Laws, HasRoom, IsRefusal}
use owon_vds.Native.Names.{all_classes}
use owon_vds.Native.State.{State, Message, Outcome, returned, clear_libusb_java_error}
use owon_vds.Busses.Action.{Step}
use owon_vds.Busses.References.{find_classes}
use owon_vds.Busses.Get.{finish, copy_busses, find_references, get_busses}
use owon_vds.Busses.Ends.{Ends, ends, gives_up}
use owon_vds.Busses.Frame.{Grow, Grow-refl}
use owon_vds.Busses.Puts.{IsResolved}
use owon_vds.Busses.DeviceTree.{All, BusChain, IsBusOk, IsBusList}
use owon_vds.Busses.BusList.{bus_loop-IsBusList}
use owon_vds.Busses.Lookup.{HasClasses, find_classes-IsResolved}

-- The call returns, and its value and the state satisfy `P`.
abbrev pub Ended : {S A : Type 0} → (A → S → Type 0) → Outcome S A → Type 0
Ended P (returned a s) = P a s
Ended P Outcome.fault = ⊥
Ended P Outcome.out_of_fuel = ⊥

module _ (jni : Jni) (usb : Libusb) where
  -- `r` heads a list of objects, all new since `base`, that stand for the busses `l` with all that
  -- belongs to them; no object of `base` has changed, and no error is set.
  pub record IsCopied (base : jni.Vm) (l : List (Ptr × UsbBus × List (Ptr × UsbDevice)))
      (r : Option Ref) (s : State jni.Vm usb.Usb) : Type 0 where
    pub resolved : IsResolved s.references
    pub error : s.libusb_java_error ≡ none
    pub grown : Grow jni base s.vm
    pub list : IsBusList jni resolved base s.vm none r l

  -- NULL, with an error of the wrapper, after the virtual machine returned NULL for an object.
  abbrev pub IsRefused : Option Ref → State jni.Vm usb.Usb → Type 0
  IsRefused r s = (r ≡ none) × (m : Message) × (s.libusb_java_error ≡ some m) × IsRefusal jni s.vm

  abbrev pub IsReply :
      (base : jni.Vm)
      → (reply : Ptr × usb.Usb) → List (Ptr × UsbBus × List (Ptr × UsbDevice))
      → Option Ref
      → State jni.Vm usb.Usb
      → Type 0
  IsReply base reply l r s =
      (s.busses ≡ reply.0) × (s.usb ≡ reply.1) × (IsCopied base l r s ⊎ IsRefused r s)

  finish-IsReply :
      (s : State jni.Vm usb.Usb) (res : IsResolved s.references)
      (l : List (Ptr × UsbBus × List (Ptr × UsbDevice))) (r : Step jni.Vm (Option Ref))
      → s.libusb_java_error ≡ none
      → Ends (IsRefusal jni) (λ o w. Grow jni s.vm w × IsBusList jni res s.vm w none o l) r
      → Ended (IsReply s.vm (s.busses, s.usb) l) (finish s r)
  unfolding finish
  finish-IsReply s res l r clear (ends (grown, list)) =
      (refl, refl, inl (record { resolved = res; error = clear; grown = grown; list = list }))
  finish-IsReply s res l r clear (gives_up m w c) = (refl, refl, inr (refl, m, refl, c))

  pub find_references-find_classes :
      (s : State jni.Vm usb.Usb)
      → s.java_references_loaded ≡ 0
      → find_references jni usb s ≡ (
          let (found, refs, v) = find_classes jni all_classes s.references s.vm in
          (found, record s { references = refs; vm = v }))
  unfolding find_references
  find_references-find_classes s unset =
      let e : (s.java_references_loaded == 0) ≡ true = ground arith in rw (e, find_references)

  module _ (laws : Laws jni) (room : HasRoom jni) where
    copy_busses-IsReply :
        (devices fuel : ℕ) (s : State jni.Vm usb.Usb) (res : IsResolved s.references)
        (l : List (Ptr × UsbBus × List (Ptr × UsbDevice)))
        → s.libusb_java_error ≡ none
        → (let (p, u) = usb.usb_get_busses s.usb in BusChain (usb.bus_at u) (usb.device_at u) p l)
        → All (IsBusOk devices) l
        → length l < fuel
        → Ended (IsReply s.vm (usb.usb_get_busses s.usb) l) (copy_busses jni usb devices fuel s)
    unfolding copy_busses
    copy_busses-IsReply devices fuel s res [] clear chain fine lt =
        rw (chain, copy_busses)
          (
            refl,
            refl,
            inl (record { resolved = res; error = clear; grown = Grow-refl jni s.vm; list = refl }),
          )
    copy_busses-IsReply devices fuel s res (x ∷ l) clear chain fine lt =
        let (p, u) = usb.usb_get_busses s.usb in
        rw (chain.1, copy_busses)
          (finish-IsReply (record s { usb = u; busses = p }) res (x ∷ l) _ clear
            (bus_loop-IsBusList jni laws room res (usb.bus_at u) (usb.device_at u) devices (x ∷ l)
              fuel p s.vm chain fine lt))

    -- Where the virtual machine knows the classes and has room for strings and byte arrays, the
    -- flag of the lookups is not set, libusb's lists end within the rounds given, and its arrays
    -- are as long as their counts say: `usb_get_busses` returns. It stores libusb's list of busses,
    -- and returns either objects that stand for all of it, with no error set, or NULL with an error
    -- set, and then the machine has just refused an object. The objects are new, and those that
    -- were there once the IDs were looked up are unchanged.
    pub get_busses-IsReply :
        (has : HasClasses jni) (devices fuel : ℕ) (s : State jni.Vm usb.Usb)
        (l : List (Ptr × UsbBus × List (Ptr × UsbDevice)))
        → s.java_references_loaded ≡ 0
        → (let (p, u) = usb.usb_get_busses s.usb in BusChain (usb.bus_at u) (usb.device_at u) p l)
        → All (IsBusOk devices) l
        → length l < fuel
        → let (_, _, base) = find_classes jni all_classes s.references s.vm in
          Ended (IsReply base (usb.usb_get_busses s.usb) l) (get_busses jni usb devices fuel s)
    unfolding get_busses
    get_busses-IsReply has devices fuel s l unset chain fine lt =
        let (found, res) = find_classes-IsResolved jni has s.references s.vm in
        let s' = clear_libusb_java_error s in
        let e = find_references-find_classes s' unset in
        let (_, refs, v) = find_classes jni all_classes s.references s.vm in
        rw (e, found, get_busses)
          (rw e (
            copy_busses-IsReply devices fuel (record s' { references = refs; vm = v }) res l refl
              chain fine lt))
