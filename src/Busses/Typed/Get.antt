-- ===== src/Busses/Typed/Get.antt =====
-- `usb_get_busses` of LibusbJava.c on a virtual machine that checks types.
use owon_vds.Base.{
  ℕ, ◌≡◌, ◌∙◌, refl, false, Option, none, some, List, [], ◌∷◌, Option-cases, Bool-cases, inl, inr,
  ◌==◌,
}
use owon_vds.Libusb.Api.{Libusb}
use owon_vds.Jni.Api.{Jni, Ref}
use owon_vds.Jni.Laws.{Laws, HasRoom, RefusesNegative}
use owon_vds.Jni.Types.{Classes, typed}
use owon_vds.Native.Fields
use owon_vds.Native.Fields.{JavaClass, Field}
use owon_vds.Native.Names.{class_name, fields_of, all_classes}
use owon_vds.Native.State.{References, State, clear_libusb_java_error}
use owon_vds.Busses.Action.{Step}
use owon_vds.Busses.References.{find_fields, find_members, find_class_ids, find_classes}
use owon_vds.Busses.Get.{finish, copy_busses, get_busses}
use owon_vds.Busses.Lookup.{HasClasses, Known, find_classes-Known}
use owon_vds.Busses.Refinement.{find_references-find_classes}
use owon_vds.Calls.Effects.{After}
use owon_vds.Busses.Typed.{
  Setting, Describes, Machine, HasIf, Ready, WellTyped, goes_on, leaves, faults, lacks_rounds,
}
use owon_vds.Busses.Typed.Lists.{bus_loop-WellTyped}

module _ (jni : Jni) (has : HasClasses jni) (classes : Classes) where
  -- The machine that checks types knows the same classes.
  abbrev typed-HasClasses : HasClasses (typed classes jni)
  typed-HasClasses = record {
    class_id = has.class_id;
    method_id = has.method_id;
    field_id = has.field_id;
    classes = λ c w. has.classes c w.machine;
    methods = λ c w. has.methods c w.machine;
    fields = λ f w. has.fields f w.machine;
    apart = has.apart;
  }

  -- The lookups make and write nothing.
  find_fields-misfit :
      (class : Ref) (l : List Field) (refs : References) (w : Machine jni has)
      → (find_fields (typed classes jni) class l refs w).1.misfit ≡ w.misfit
  unfolding find_fields
  find_fields-misfit class [] refs w = refl
  find_fields-misfit class (f ∷ l) refs w = find_fields-misfit class l _ _

  find_members-misfit :
      (c : JavaClass) (class : Ref) (refs : References) (w : Machine jni has)
      → (find_members (typed classes jni) c class refs w).2.misfit ≡ w.misfit
  unfolding find_members
  find_members-misfit c class refs w =
      elim (Option-cases (jni.get_method_id class "<init>" "()V" w.machine).0) [
        | inl e ↦ rw (e, find_members) refl
        | inr (m, e) ↦ rw (e, find_members) (find_fields-misfit class (fields_of c) _ _)
      ]

  find_class_ids-misfit :
      (c : JavaClass) (refs : References) (w : Machine jni has)
      → (find_class_ids (typed classes jni) c refs w).2.misfit ≡ w.misfit
  unfolding find_class_ids
  find_class_ids-misfit c refs w = elim (Option-cases (jni.find_class (class_name c) w.machine).0) [
    | inl e ↦ rw (e, find_class_ids) refl
    | inr (class, e) ↦ rw (e, find_class_ids) (find_members-misfit c class _ _)
  ]

  find_classes-misfit :
      (cs : List JavaClass) (refs : References) (w : Machine jni has)
      → (find_classes (typed classes jni) cs refs w).2.misfit ≡ w.misfit
  unfolding find_classes
  find_classes-misfit [] refs w = refl
  find_classes-misfit (c ∷ cs) refs w =
      let (found, refs', w') = find_class_ids (typed classes jni) c refs w in
      let same = find_class_ids-misfit c refs w in
      elim (Bool-cases found) [
        | inl e ↦ rw (e, find_classes) (find_classes-misfit cs refs' w' ∙ same)
        | inr e ↦ rw (e, find_classes) same
      ]

  typed-Known :
      {refs : References} (c : JavaClass)
      → Known (typed classes jni) typed-HasClasses refs c
      → Known jni has refs c
  typed-Known c k = record { class = k.class; method = k.method; fields = k.fields }

  module _ (usb : Libusb) where
    -- There was no misfit, and what is returned is NULL or an object of the class of busses.
    abbrev pub IsWellTyped : Option Ref → State (Machine jni has) usb.Usb → Type 0
    IsWellTyped r s = Ready jni has r s.vm

    finish-IsWellTyped :
        (s : State (Machine jni has) usb.Usb) {v : Machine jni has}
        (r : Step (Machine jni has) (Option Ref))
        → WellTyped jni has v (HasIf jni has Fields.bus) r
        → After IsWellTyped (finish s r)
    unfolding finish
    finish-IsWellTyped s (Step.ok a w) (goes_on on h) = (on.fit, h)
    finish-IsWellTyped s (Step.leave r none w) (leaves ready) = ready
    finish-IsWellTyped s (Step.leave r (some m) w) (leaves ready) = ready
    finish-IsWellTyped s Step.fault faults = tt
    finish-IsWellTyped s Step.out_of_fuel lacks_rounds = tt

    module _ (laws : Laws jni) (room : HasRoom jni) (knows : Describes jni has classes)
        (refuses : RefusesNegative jni) (devices fuel : ℕ) where
      abbrev setting : (refs : References) → ((c : JavaClass) → Known jni has refs c) → Setting jni
      setting refs known = record {
        laws = laws;
        room = room;
        refuses = refuses;
        has = has;
        classes = classes;
        knows = knows;
        refs = refs;
        known = known;
      }

      copy_busses-IsWellTyped :
          (s : State (Machine jni has) usb.Usb)
          → s.vm.misfit ≡ false
          → ((c : JavaClass) → Known jni has s.references c)
          → After IsWellTyped (copy_busses (typed classes jni) usb devices fuel s)
      unfolding copy_busses
      copy_busses-IsWellTyped s fit known =
          let (p, u) = usb.usb_get_busses s.usb in
          elim (Bool-cases (p == 0)) [
            | inl e ↦ rw (e, copy_busses) (fit, tt)
            | inr e ↦
                rw (e, copy_busses)
                  (finish-IsWellTyped (record s { usb = u; busses = p }) _
                    (bus_loop-WellTyped (setting s.references known) (usb.bus_at u)
                      (usb.device_at u) devices fuel p none none none s.vm fit tt tt tt))
          ]

      -- Where the virtual machine has room for strings, refuses byte arrays of negative length, and
      -- has the program's classes with the constructors and fields, under their names and
      -- signatures, the flag of the lookups is not set, and no misfit was noted before: if
      -- `usb_get_busses` returns, then all objects were made with the constructor of their own
      -- class; each number, string, array and object was written to a field of an object whose
      -- class has that field, with the type of the field; the elements of each array are of its
      -- class; and what is returned is NULL or a bus. This holds whatever libusb's lists hold, and
      -- where the call ends early.
      pub get_busses-IsWellTyped :
          (s : State (Machine jni has) usb.Usb)
          → s.java_references_loaded ≡ 0
          → s.vm.misfit ≡ false
          → After IsWellTyped (get_busses (typed classes jni) usb devices fuel s)
      unfolding get_busses
      get_busses-IsWellTyped s unset fit =
          let machine = typed classes jni in
          let s' = clear_libusb_java_error s in
          let (found, known) = find_classes-Known machine typed-HasClasses s.references s.vm in
          let same = find_classes-misfit all_classes s.references s.vm in
          let e = find_references-find_classes machine usb s' unset in
          let (_, refs, v) = find_classes machine all_classes s.references s.vm in
          rw (e, found, get_busses)
            (rw e (
              copy_busses-IsWellTyped (record s' { references = refs; vm = v }) (same ∙ fit)
                λ c. typed-Known c (known c)))
