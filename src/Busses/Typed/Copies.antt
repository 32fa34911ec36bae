-- ===== src/Busses/Typed/Copies.antt =====
-- The copies of arrays and descriptors in `usb_get_busses` of LibusbJava.c on a virtual machine that
-- checks types.
use owon_vds.Base.{
  ℕ, zero, suc, ◌+◌, ◌≤◌, Option, none, some, List, arith, Option-cases, inl, inr, get_elem?,
}
use owon_vds.Base.Int.{ℤ, pos}
use owon_vds.Jni.Api.{Jni, Ref}
use owon_vds.Jni.Types.{typed, array_of}
use owon_vds.Native.Fields.{JavaClass}
use owon_vds.Native.State.{Message}
use owon_vds.Busses.Action.{Action, element_or_leave, fill_array, copy_array}
use owon_vds.Busses.Typed.{
  Setting, Machine, kind, Has, Onward-refl, Has-Onward, Ready, Ready-Onward, WellTyped, bind, Any,
  goes_on, leaves, faults,
}
use owon_vds.Busses.Typed.Steps.{
  new-WellTyped, HasArray, HasArray-Onward, new_array-WellTyped, set_element-WellTyped,
}

module _ {jni : Jni} (t : Setting jni) (main : Option Ref) where
  element-WellTyped :
      {A : Type 0} (xs : Option (List A)) (i : ℕ) (m : Option Message) (v : Machine jni t.has)
      → Ready jni t.has main v
      → WellTyped jni t.has v (Any jni t.has) (element_or_leave xs i main m v)
  unfolding element_or_leave
  element-WellTyped none i m v ready = leaves ready
  element-WellTyped (some xs) i m v ready = elim (Option-cases (get_elem? xs i)) [
    | inl e ↦ rw (e, element_or_leave) faults
    | inr (x, e) ↦ rw (e, element_or_leave) (goes_on (Onward-refl jni t.has ready.0) tt)
  ]

  -- Filling an object of the class meets no misfit.
  abbrev pub FillsTyped :
      {A : Type 0} → JavaClass → (Ref → A → Action (Machine jni t.has) (Unit {0})) → Type 0
  FillsTyped {A} c fill =
      (o : Ref) (x : A) (v : Machine jni t.has)
      → Ready jni t.has main v
      → Has jni t.has (kind jni t.has c) o v
      → WellTyped jni t.has v (Any jni t.has) (fill o x v)

  -- An array of the class, of any length.
  abbrev pub AnyArray : JavaClass → Ref → Machine jni t.has → Type 0
  AnyArray c a w = Has jni t.has (array_of (t.has.class_id c)) a w

  module _ {A : Type 0} (c : JavaClass) {fill : Ref → A → Action (Machine jni t.has) (Unit {0})}
      (fills : FillsTyped c fill) (object_error : Message) (null_error : Option Message)
      (xs : Option (List A)) where
    fill_array-WellTyped :
        (a : Ref) (n k i : ℕ) (v : Machine jni t.has)
        → Ready jni t.has main v
        → HasArray t c (pos n) a v
        → i + k ≤ n
        → WellTyped jni t.has v
            (Any jni t.has)
            (fill_array (typed t.classes jni) t.refs c object_error null_error fill main xs a k i v)
    unfolding fill_array
    fill_array-WellTyped a n zero i v ready array le = goes_on (Onward-refl jni t.has ready.0) tt
    fill_array-WellTyped a n (suc k) i v ready array le =
        bind jni t.has (element-WellTyped xs i null_error v ready) λ x v1 on1 _.
          bind jni t.has (new-WellTyped t c object_error v1 on1.fit) λ o v2 on2 born.
            let array2 =
              HasArray-Onward t c (pos n) a on2 (HasArray-Onward t c (pos n) a on1 array) in
            bind jni t.has (set_element-WellTyped t c a i n o v2 on2.fit array2 born (omega arith))
              λ _ v3 on3 _.
                let ready3 =
                  Ready-Onward jni t.has main on3
                    (Ready-Onward jni t.has main on2 (Ready-Onward jni t.has main on1 ready)) in
                bind jni t.has (fills o x v3 ready3 (Has-Onward jni t.has o on3 born)) λ _ v4 on4 _.
                  fill_array-WellTyped a n k (i + 1) v4 (Ready-Onward jni t.has main on4 ready3)
                    (HasArray-Onward t c (pos n) a on4 (HasArray-Onward t c (pos n) a on3 array2))
                    (omega arith)

    pub copy_array-WellTyped :
        (array_error : Message) (n : ℤ) (v : Machine jni t.has)
        → Ready jni t.has main v
        → WellTyped jni t.has v (AnyArray c) (
            copy_array
              (typed t.classes jni)
              t.refs
              c
              object_error
              null_error
              fill
              main
              array_error
              n
              xs
              v)
    unfolding copy_array fill_array
    copy_array-WellTyped array_error (pos n) v ready =
        bind jni t.has (new_array-WellTyped t (pos n) c array_error v ready.0) λ a v1 on1 array.
          bind jni t.has
            (fill_array-WellTyped a n n 0 v1 (Ready-Onward jni t.has main on1 ready) array
              (omega arith))
            λ _ v2 on2 _.
              goes_on (Onward-refl jni t.has on2.fit) (Has-Onward jni t.has a on2 array.0)
    copy_array-WellTyped array_error (ℤ.negsuc n) v ready =
        bind jni t.has (new_array-WellTyped t (ℤ.negsuc n) c array_error v ready.0)
          λ a v1 on1 array. goes_on (Onward-refl jni t.has on1.fit) array.0
