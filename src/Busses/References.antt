-- ===== src/Busses/References.antt =====
-- The lookup of the class, method and field IDs at the start of `usb_get_busses` in LibusbJava.c.
use owon_vds.Base.{Bool, true, false, none, some, List, [], ◌∷◌}
use owon_vds.Jni.Api.{Jni, Ref}
use owon_vds.Native.Fields.{JavaClass, Field}
use owon_vds.Native.Names.{class_name, field_name, field_signature, fields_of}
use owon_vds.Native.State.{References, set_class, set_fid}

module _ (jni : Jni) where
  -- One `GetFieldID` after the other; the results are not tested.
  unfoldable pub find_fields : Ref → List Field → References → jni.Vm → References × jni.Vm
  find_fields class [] refs v = (refs, v)
  find_fields class (f ∷ l) refs v =
      let (i, w) = jni.get_field_id class (field_name f) (field_signature f) v in
      find_fields class l (record refs { fid = set_fid f i refs.fid }) w

  -- `GetMethodID(env, class, "<init>", "()V")`, and the fields; `false` for `return NULL`.
  unfoldable pub find_members : JavaClass → Ref → References → jni.Vm → Bool × References × jni.Vm
  unfolding find_fields
  find_members c class refs v =
      let (m, w) = jni.get_method_id class "<init>" "()V" v in
      let refs' = record refs { mid = set_class c m refs.mid } in
      elim m [
        | none ↦ (false, refs', w)
        | some _ ↦ let (refs'', w') = find_fields class (fields_of c) refs' w in (true, refs'', w')
      ]

  -- `FindClass`, then its members.
  unfoldable pub find_class_ids : JavaClass → References → jni.Vm → Bool × References × jni.Vm
  unfolding find_members
  find_class_ids c refs v =
      let (k, w) = jni.find_class (class_name c) v in
      let refs' = record refs { clazz = set_class c k refs.clazz } in
      elim k [ none ↦ (false, refs', w) | some class ↦ find_members c class refs' w ]

  -- The classes in turn, up to the first that fails.
  unfoldable pub find_classes : List JavaClass → References → jni.Vm → Bool × References × jni.Vm
  find_classes [] refs v = (true, refs, v)
  find_classes (c ∷ cs) refs v =
      let (found, refs', w) = find_class_ids c refs v in
      elim found [ true ↦ find_classes cs refs' w | false ↦ (false, refs', w) ]
