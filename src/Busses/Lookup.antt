-- ===== src/Busses/Lookup.antt =====
-- The lookup of the IDs at the start of `usb_get_busses` in LibusbJava.c, where it succeeds.
use owon_vds.Base.{
  ℕ, ◌≡◌, ◌≢◌, refl, ◌∙◌, true, false, Option, some, List, [], ◌∷◌, ap, subst, ◌==◌, Bool-cases,
  inl, inr, ==-refl, ◌⊎◌,
}
use owon_vds.Jni.Api.{Jni, Ref}
use owon_vds.Native.Fields.{JavaClass, Field, class_key, field_key, class_of}
use owon_vds.Native.Names.{class_name, field_name, field_signature, fields_of, all_classes}
use owon_vds.Native.State.{References, set_class}
use owon_vds.Busses.References.{find_fields, find_members, find_class_ids, find_classes}
use owon_vds.Busses.Tables.{
  has_field, has_class, fields_of_complete, all_classes_complete, field_key-injective,
  class_key-injective, all_of, fields_of-all_of,
}
use owon_vds.Busses.Frame.{not_both}
use owon_vds.Busses.Puts.{IsResolved, and_left, and_right}

-- The classes of the program are there, with the constructor and the fields that are looked up.
pub record HasClasses (jni : Jni) : Type 0 where
  pub class_id : JavaClass → Ref
  pub method_id : JavaClass → ℕ
  pub field_id : Field → ℕ
  pub classes :
      (c : JavaClass) (v : jni.Vm) → (jni.find_class (class_name c) v).0 ≡ some (class_id c)
  pub methods :
      (c : JavaClass) (v : jni.Vm)
      → (jni.get_method_id (class_id c) "<init>" "()V" v).0 ≡ some (method_id c)
  pub fields :
      (f : Field) (v : jni.Vm)
      → (jni.get_field_id (class_id (class_of f)) (field_name f) (field_signature f) v).0
        ≡ some (field_id f)
  pub apart :
      (f g : Field)
      → class_key (class_of f) ≡ class_key (class_of g)
      → field_key f ≢ field_key g
      → field_id f ≢ field_id g

module _ (jni : Jni) (has : HasClasses jni) where
  -- The variables of a class hold the machine's answers.
  pub record Known (refs : References) (c : JavaClass) : Type 0 where
    pub class : refs.clazz c ≡ some (has.class_id c)
    pub method : refs.mid c ≡ some (has.method_id c)
    pub fields : (f : Field) → class_of f ≡ c → refs.fid f ≡ some (has.field_id f)

  get_field_id-field_id :
      (c : JavaClass) (f : Field) (v : jni.Vm)
      → (class_key (class_of f) == class_key c) ≡ true
      → (jni.get_field_id (has.class_id c) (field_name f) (field_signature f) v).0
        ≡ some (has.field_id f)
  get_field_id-field_id c f v h =
      subst
        (λ d.
          (jni.get_field_id (has.class_id d) (field_name f) (field_signature f) v).0
          ≡ some (has.field_id f))
        (class_key-injective (class_of f) c h) (has.fields f v)

  -- A field's variable that is set, or was, holds the machine's answer.
  find_fields-fid :
      (c : JavaClass) (l : List Field) (refs : References) (v : jni.Vm) (f : Field)
      → all_of c l ≡ true
      → (has_field f l ≡ true) ⊎ (refs.fid f ≡ some (has.field_id f))
      → (find_fields jni (has.class_id c) l refs v).0.fid f ≡ some (has.field_id f)
  unfolding find_fields
  find_fields-fid c [] refs v f h (inl e) = cc
  find_fields-fid c [] refs v f h (inr e) = e
  find_fields-fid c (g ∷ l) refs v f h e =
      find_fields-fid c l _ _ f (and_right _ _ h) (elim (Bool-cases (field_key g == field_key f)) [
        | inl same ↦ inr (
            rw same (
              get_field_id-field_id c g v (and_left _ _ h)
              ∙ ap (λ k. some (has.field_id k)) (field_key-injective g f same)))
        | inr other ↦ elim e [ inl later ↦ inl (rw other at later) | inr old ↦ inr (rw other old) ]
      ])

  find_fields-others :
      (class : Ref) (l : List Field) (refs : References) (v : jni.Vm)
      → let refs' = (find_fields jni class l refs v).0 in
        (refs'.clazz ≡ refs.clazz) × (refs'.mid ≡ refs.mid)
  unfolding find_fields
  find_fields-others class [] refs v = (refl, refl)
  find_fields-others class (f ∷ l) refs v = find_fields-others class l _ _

  abbrev with_class : References → JavaClass → Option Ref → Option ℕ → References
  with_class refs c k m = record refs {
    clazz = set_class c k refs.clazz;
    mid = set_class c m refs.mid;
  }

  find_fields-has_field :
      (c : JavaClass) (refs : References) (w : jni.Vm) (f : Field)
      → class_of f ≡ c
      → (find_fields jni (has.class_id c) (fields_of c) refs w).0.fid f ≡ some (has.field_id f)
  find_fields-has_field c refs w f e =
      find_fields-fid c (fields_of c) refs w f (fields_of-all_of c)
        (inl (subst (λ d. has_field f (fields_of d) ≡ true) e (fields_of_complete f)))

  -- The class that was looked up is known.
  same-Known :
      (c : JavaClass) (refs : References) (k : Option Ref) (m : Option ℕ) (w : jni.Vm)
      → k ≡ some (has.class_id c)
      → m ≡ some (has.method_id c)
      → Known (find_fields jni (has.class_id c) (fields_of c) (with_class refs c k m) w).0 c
  same-Known c refs k m w ek em =
      let (oc, om) = find_fields-others (has.class_id c) (fields_of c) (with_class refs c k m) w in
      record {
        class = ap (λ t. t c) oc ∙ rw (==-refl (class_key c)) ek;
        method = ap (λ t. t c) om ∙ rw (==-refl (class_key c)) em;
        fields = find_fields-has_field c (with_class refs c k m) w;
      }

  -- Another class that was known stays known.
  other-Known :
      (c d : JavaClass) (refs : References) (k : Option Ref) (m : Option ℕ) (w : jni.Vm)
      → (class_key c == class_key d) ≡ false
      → Known refs d
      → Known (find_fields jni (has.class_id c) (fields_of c) (with_class refs c k m) w).0 d
  other-Known c d refs k m w ne old =
      let (oc, om) = find_fields-others (has.class_id c) (fields_of c) (with_class refs c k m) w in
      record {
        class = ap (λ t. t d) oc ∙ rw ne old.class;
        method = ap (λ t. t d) om ∙ rw ne old.method;
        fields = λ f e.
            find_fields-fid c (fields_of c) (with_class refs c k m) w f (fields_of-all_of c)
              (inr (old.fields f e));
      }

  -- The lookup of one class succeeds and makes it known, and what was known stays so.
  find_class_ids-Known :
      (c : JavaClass) (refs : References) (v : jni.Vm)
      → let (found, refs', w) = find_class_ids jni c refs v in
        (found ≡ true)
        × ((d : JavaClass) → (class_key c == class_key d) ≡ true ⊎ Known refs d → Known refs' d)
  unfolding find_class_ids
  find_class_ids-Known c refs v =
      rw (has.classes c v, find_class_ids)
        (rw (has.methods c _, find_members)
          (
            refl,
            λ d h. elim (Bool-cases (class_key c == class_key d)) [
              | inl same ↦
                  subst (Known _) (class_key-injective c d same)
                    (same-Known c refs _ _ _ (has.classes c v) (has.methods c _))
              | inr ne ↦ elim h [
                | inl same ↦ absurd (not_both (class_key c == class_key d) same ne)
                | inr old ↦ other-Known c d refs _ _ _ ne old
              ]
            ],
          ))

  find_classes-keeps_Known :
      (cs : List JavaClass) (refs : References) (v : jni.Vm)
      → let (found, refs', w) = find_classes jni cs refs v in
        (found ≡ true) × ((d : JavaClass) → (has_class d cs ≡ true) ⊎ Known refs d → Known refs' d)
  unfolding find_classes
  find_classes-keeps_Known [] refs v = (refl, λ d h. elim h [ inl e ↦ cc | inr old ↦ old ])
  find_classes-keeps_Known (c ∷ cs) refs v =
      let (found, keeps) = find_class_ids-Known c refs v in
      let (found', keeps') = find_classes-keeps_Known cs _ _ in
      rw (found, find_classes)
        (
          found',
          λ d h. keeps' d (elim (Bool-cases (class_key c == class_key d)) [
            | inl same ↦ inr (keeps d (inl same))
            | inr ne ↦ elim h [
              | inl later ↦ inl (rw ne at later)
              | inr old ↦ inr (keeps d (inr old))
            ]
          ]),
        )

  -- Where the virtual machine knows every class, its constructor and its fields by the names that
  -- the code gives: the lookup succeeds, and whatever they held before, the variables of each class
  -- hold the IDs that the machine gave for this class, for its constructor and, each by its own
  -- name and signature, for its fields.
  pub find_classes-Known :
      (refs : References) (v : jni.Vm)
      → let (found, refs', w) = find_classes jni all_classes refs v in
        (found ≡ true) × ((c : JavaClass) → Known refs' c)
  find_classes-Known refs v =
      let (found, keeps) = find_classes-keeps_Known all_classes refs v in
      (found, λ c. keeps c (inl (all_classes_complete c)))

  -- So the variables are resolved, with the fields of a class told apart.
  pub find_classes-IsResolved :
      (refs : References) (v : jni.Vm)
      → let (found, refs', w) = find_classes jni all_classes refs v in
        (found ≡ true) × IsResolved refs'
  find_classes-IsResolved refs v =
      let (found, known) = find_classes-Known refs v in
      (
        found,
        record {
          class_id = has.class_id;
          method_id = has.method_id;
          field_id = has.field_id;
          classes = λ c. (known c).class;
          methods = λ c. (known c).method;
          fields = λ f. (known (class_of f)).fields f refl;
          apart = has.apart;
        },
      )
