-- ===== src/Calls/Polite.antt =====
-- The use of the Java Native Interface by the native methods of LibusbJava.c: no function of it is
-- called while an exception is pending.
use owon_vds.Base.{
  ℕ, ◌≡◌, refl, Bool, true, false, ◌||◌, Option, none, some, List, [], ◌∷◌, arith, Bool-cases,
  Option-cases, inl, inr, ◌==◌, sym, subst, ap,
}
use owon_vds.Libusb.Api.{Libusb}
use owon_vds.Jni.Api.{Jni, Ref}
use owon_vds.Jni.Laws.{Laws, HasRoom, RefusesNegative}
use owon_vds.Jni.Watch.{Watched, watch, is_null}
use owon_vds.Native.Fields.{JavaClass, Field, class_of}
use owon_vds.Native.Names.{class_name, field_name, field_signature, fields_of, all_classes}
use owon_vds.Native.State.{References, State, Outcome, returned, clear_libusb_java_error}
use owon_vds.Busses.Action.{Step}
use owon_vds.Busses.References.{find_fields, find_members, find_class_ids, find_classes}
use owon_vds.Busses.Get.{finish, copy_busses, find_references, get_busses}
use owon_vds.Busses.Tables.{all_of, fields_of-all_of, class_key-injective}
use owon_vds.Busses.Puts.{and_left, and_right}
use owon_vds.Busses.Polite.{
  Machine, IsCalm, Polite, goes_on, leaves, faults, lacks_rounds, Any, called-IsCalm,
}
use owon_vds.Busses.Polite.Lists.{bus_loop-Polite}
use owon_vds.Handlers.Transfers
use owon_vds.Handlers.Strings
use owon_vds.Handlers.Control
use owon_vds.Handlers.Errors
use owon_vds.Handlers.Open
use owon_vds.Calls.{Call, perform, referenced}
use owon_vds.Calls.Effects.{After}

-- No function was called while an exception was pending.
abbrev pub Unmisused : {V U A : Type 0} → A → State (Watched V) U → Type 0
Unmisused a s = s.vm.misused ≡ false

-- A class that the machine finds has the fields that are looked up in it.
abbrev pub HasFields : Jni → Type 0
HasFields jni =
    (f : Field) (class : Ref) (v w : jni.Vm)
    → (jni.find_class (class_name (class_of f)) v).0 ≡ some class
    → (i : ℕ) × ((jni.get_field_id class (field_name f) (field_signature f) w).0 ≡ some i)

module _ (jni : Jni) (has : HasFields jni) where
  find_fields-IsCalm :
      (c : JavaClass) (class : Ref) (v : jni.Vm) (l : List Field) (refs : References)
      (w : Machine jni)
      → (jni.find_class (class_name c) v).0 ≡ some class
      → all_of c l ≡ true
      → IsCalm jni w
      → IsCalm jni (find_fields (watch jni) class l refs w).1
  unfolding find_fields
  find_fields-IsCalm c class v [] refs w at all calm = calm
  find_fields-IsCalm c class v (f ∷ l) refs w at all calm =
      let same = class_key-injective (class_of f) c (and_left _ _ all) in
      let at' : (jni.find_class (class_name (class_of f)) v).0 ≡ some class =
        subst (λ d. (jni.find_class (class_name d) v).0 ≡ some class) (sym same) at in
      let (i, e) = has f class v w.machine at' in
      find_fields-IsCalm c class v l _ _ at (and_right _ _ all)
        (called-IsCalm jni _ _ (ap is_null e) calm)

  -- A lookup that fails ends the call, with an exception that may be pending.
  record Looked (r : Bool × References × Machine jni) : Type 0 where
    misused : r.2.misused ≡ false
    calm : r.0 ≡ true → IsCalm jni r.2

  calm_misused : {w : Machine jni} → IsCalm jni w → (w.misused || w.pending) ≡ false
  calm_misused calm = ground (arith, calm.misused, calm.pending)

  find_members-Looked :
      (c : JavaClass) (class : Ref) (v : jni.Vm) (refs : References) (w : Machine jni)
      → (jni.find_class (class_name c) v).0 ≡ some class
      → IsCalm jni w
      → Looked (find_members (watch jni) c class refs w)
  unfolding find_members
  find_members-Looked c class v refs w at calm =
      elim (Option-cases (jni.get_method_id class "<init>" "()V" w.machine).0) [
        | inl e ↦ rw (e, find_members) (record { misused = calm_misused calm; calm = λ h. cc })
        | inr (m, e) ↦
            let calm' = called-IsCalm jni (is_null (some m)) _ refl calm in
            let found =
              find_fields-IsCalm c class v (fields_of c) _ _ at (fields_of-all_of c) calm' in
            rw (e, find_members) (rw e (record { misused = found.misused; calm = λ h. found }))
      ]

  find_class_ids-Looked :
      (c : JavaClass) (refs : References) (w : Machine jni)
      → IsCalm jni w
      → Looked (find_class_ids (watch jni) c refs w)
  unfolding find_class_ids
  find_class_ids-Looked c refs w calm =
      elim (Option-cases (jni.find_class (class_name c) w.machine).0) [
        | inl e ↦ rw (e, find_class_ids) (record { misused = calm_misused calm; calm = λ h. cc })
        | inr (class, e) ↦
            rw (e, find_class_ids)
              (rw e (
                find_members-Looked c class w.machine _ _ e
                  (called-IsCalm jni (is_null (some class)) _ refl calm)))
      ]

  find_classes-Looked :
      (cs : List JavaClass) (refs : References) (w : Machine jni)
      → IsCalm jni w
      → Looked (find_classes (watch jni) cs refs w)
  unfolding find_classes
  find_classes-Looked [] refs w calm = record { misused = calm.misused; calm = λ h. calm }
  find_classes-Looked (c ∷ cs) refs w calm =
      let looked = find_class_ids-Looked c refs w calm in
      let (found, refs', w') = find_class_ids (watch jni) c refs w in
      elim (Bool-cases found) [
        | inl e ↦ rw (e, find_classes) (find_classes-Looked cs refs' w' (looked.calm e))
        | inr e ↦ rw (e, find_classes) (record { misused = looked.misused; calm = λ h. cc })
      ]

  module _ (laws : Laws jni) (room : HasRoom jni) (refuses : RefusesNegative jni)
      (usb : Libusb) where
    finish-Unmisused :
        (s : State (Machine jni) usb.Usb) {v : Machine jni} (r : Step (Machine jni) (Option Ref))
        → Polite jni v (Any jni) r
        → After Unmisused (finish s r)
    unfolding finish
    finish-Unmisused s (Step.ok a w) (goes_on on p) = on.calm.misused
    finish-Unmisused s (Step.leave r none w) (leaves e) = e
    finish-Unmisused s (Step.leave r (some m) w) (leaves e) = e
    finish-Unmisused s Step.fault faults = tt
    finish-Unmisused s Step.out_of_fuel lacks_rounds = tt

    copy_busses-Unmisused :
        (devices fuel : ℕ) (s : State (Machine jni) usb.Usb)
        → IsCalm jni s.vm
        → After Unmisused (copy_busses (watch jni) usb devices fuel s)
    unfolding copy_busses
    copy_busses-Unmisused devices fuel s calm =
        let (p, u) = usb.usb_get_busses s.usb in
        elim (Bool-cases (p == 0)) [
          | inl e ↦ rw (e, copy_busses) calm.misused
          | inr e ↦
              rw (e, copy_busses)
                (finish-Unmisused (record s { usb = u; busses = p }) _
                  (bus_loop-Polite jni laws room refuses s.references (usb.bus_at u)
                    (usb.device_at u) devices fuel p none none none s.vm calm tt))
        ]

    find_references-Looked :
        (s : State (Machine jni) usb.Usb)
        → IsCalm jni s.vm
        → let (found, t) = find_references (watch jni) usb s in Looked (found, t.references, t.vm)
    unfolding find_references
    find_references-Looked s calm = elim (Bool-cases (s.java_references_loaded == 0)) [
      | inl e ↦ rw (e, find_references) (find_classes-Looked all_classes s.references s.vm calm)
      | inr e ↦ rw (e, find_references) (record { misused = calm.misused; calm = λ h. calm })
    ]

    get_busses-Unmisused :
        (devices fuel : ℕ) (s : State (Machine jni) usb.Usb)
        → IsCalm jni s.vm
        → After Unmisused (get_busses (watch jni) usb devices fuel s)
    unfolding get_busses
    get_busses-Unmisused devices fuel s calm =
        let looked = find_references-Looked (clear_libusb_java_error s) calm in
        let (found, t) = find_references (watch jni) usb (clear_libusb_java_error s) in
        elim (Bool-cases found) [
          | inl e ↦ rw (e, get_busses) (copy_busses-Unmisused devices fuel t (looked.calm e))
          | inr e ↦ rw (e, get_busses) looked.misused
        ]

    referenced-Unmisused :
        (r : Outcome (State (Machine jni) usb.Usb) (Option Ref))
        → After Unmisused r
        → After Unmisused (referenced r)
    referenced-Unmisused (returned r s) h = h
    referenced-Unmisused Outcome.fault h = tt
    referenced-Unmisused Outcome.out_of_fuel h = tt

    -- Where the virtual machine has room for strings, refuses byte arrays of negative length, and
    -- has the fields of the classes that it finds: a call that starts with no exception pending,
    -- and returns, has called no function of the Java Native Interface while an exception was
    -- pending, whatever libusb's lists hold, and whichever lookups and creations failed.
    pub perform-Unmisused :
        (c : Call) (s : State (Machine jni) usb.Usb)
        → IsCalm jni s.vm
        → After Unmisused (perform (watch jni) usb c s)
    unfolding perform Control.set_debug Control.init Control.find_busses Control.find_devices
        Control.close Control.reset Control.set_configuration Control.set_altinterface
        Control.clear_halt Control.claim_interface Control.release_interface Transfers.control_msg
        Strings.get_string Strings.get_string_simple Strings.get_descriptor
        Strings.get_descriptor_by_endpoint Strings.string_reply Transfers.bulk_write
        Transfers.bulk_read Transfers.interrupt_write Transfers.interrupt_read Errors.strerror
        Open.open_device Open.open_found
    perform-Unmisused (Call.get_busses devices fuel) s calm =
        referenced-Unmisused _ (get_busses-Unmisused devices fuel s calm)
    perform-Unmisused c s calm = ground (arith, calm.misused, calm.pending)
