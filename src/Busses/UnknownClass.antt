-- ===== src/Busses/UnknownClass.antt =====
-- The lookup of the IDs at the start of `usb_get_busses` in LibusbJava.c, where it fails.
use owon_vds.Base.{
  ℕ, ◌≡◌, refl, false, none, some, Option-cases, List, [], ◌∷◌, Bool-cases, inl, inr,
}
use mathlib.Core.List.{Memᴰ}
use mathlib.Core.List.Memᴰ
use owon_vds.Libusb.Api.{Libusb}
use owon_vds.Jni.Api.{Jni, Ref}
use owon_vds.Native.Fields
use owon_vds.Native.Fields.{JavaClass}
use owon_vds.Native.Names.{class_name, all_classes}
use owon_vds.Native.State.{State, References, clear_libusb_java_error}
use owon_vds.Busses.References.{find_members, find_class_ids, find_classes}
use owon_vds.Busses.Get.{get_busses}
use owon_vds.Busses.Refinement.{Ended, find_references-find_classes}

all_classes_listed : (c : JavaClass) → Memᴰ c all_classes
all_classes_listed Fields.bus = Memᴰ.head refl
all_classes_listed Fields.device = Memᴰ.tail (Memᴰ.head refl)
all_classes_listed Fields.device_descriptor = Memᴰ.tail (Memᴰ.tail (Memᴰ.head refl))
all_classes_listed Fields.config_descriptor = Memᴰ.tail (Memᴰ.tail (Memᴰ.tail (Memᴰ.head refl)))
all_classes_listed Fields.interface = Memᴰ.tail (Memᴰ.tail (Memᴰ.tail (Memᴰ.tail (Memᴰ.head refl))))
all_classes_listed Fields.interface_descriptor =
    Memᴰ.tail (Memᴰ.tail (Memᴰ.tail (Memᴰ.tail (Memᴰ.tail (Memᴰ.head refl)))))
all_classes_listed Fields.endpoint_descriptor =
    Memᴰ.tail (Memᴰ.tail (Memᴰ.tail (Memᴰ.tail (Memᴰ.tail (Memᴰ.tail (Memᴰ.head refl))))))

module _ (jni : Jni) where
  -- The virtual machine does not find the class, or finds no constructor without arguments in it.
  abbrev pub IsUnknown : JavaClass → Type 0
  IsUnknown c =
      (class : Ref) (v w : jni.Vm)
      → (jni.find_class (class_name c) v).0 ≡ some class
      → (jni.get_method_id class "<init>" "()V" w).0 ≡ none

  find_class_ids-unknown :
      (c : JavaClass) (refs : References) (v : jni.Vm)
      → IsUnknown c
      → (find_class_ids jni c refs v).0 ≡ false
  unfolding find_class_ids
  find_class_ids-unknown c refs v unknown =
      elim (Option-cases (jni.find_class (class_name c) v).0) [
        | inl e ↦ rw (e, find_class_ids) refl
        | inr (class, e) ↦ rw (e, find_class_ids) (rw (unknown class v _ e, find_members) refl)
      ]

  find_classes-unknown :
      (c : JavaClass) (l : List JavaClass) (refs : References) (v : jni.Vm)
      → IsUnknown c
      → Memᴰ c l
      → (find_classes jni l refs v).0 ≡ false
  unfolding find_classes
  find_classes-unknown c [] refs v unknown i = absurd (Memᴰ.not-nil i)
  find_classes-unknown c (d ∷ l) refs v unknown (Memᴰ.head e) =
      let same : (find_class_ids jni d refs v).0 ≡ false =
        rw⁻¹ e (find_class_ids-unknown c refs v unknown) in
      rw (same, find_classes) refl
  find_classes-unknown c (d ∷ l) refs v unknown (Memᴰ.tail i) =
      let (all_found, refs', w) = find_class_ids jni d refs v in
      elim (Bool-cases all_found) [
        | inl e ↦ rw (e, find_classes) (find_classes-unknown c l refs' w unknown i)
        | inr e ↦ rw (e, find_classes) refl
      ]

  -- Where the virtual machine does not find one of the seven classes, or finds no constructor in
  -- it, and the flag of the lookups is not set: `usb_get_busses` returns NULL with the error cleared; libusb is asked for nothing,
  -- and the list of busses that is stored stays as it was.
  pub get_busses-unknown_class :
      (usb : Libusb) (c : JavaClass) (devices fuel : ℕ) (s : State jni.Vm usb.Usb)
      → s.java_references_loaded ≡ 0
      → IsUnknown c
      → Ended
          (λ o s'.
            (o ≡ none) × (s'.libusb_java_error ≡ none) × (s'.usb ≡ s.usb) × (s'.busses ≡ s.busses))
          (get_busses jni usb devices fuel s)
  unfolding get_busses
  get_busses-unknown_class usb c devices fuel s unset unknown =
      let t = clear_libusb_java_error s in
      let e = find_references-find_classes jni usb t unset in
      let lost =
        find_classes-unknown c all_classes s.references s.vm unknown (all_classes_listed c) in
      rw (e, lost, get_busses) (rw e (refl, refl, refl, refl))
