-- ===== src/Busses/Puts.antt =====
-- The calls of `Set<Type>Field` in `usb_get_busses` of LibusbJava.c: lemmas on a run of writes to the
-- fields of one object.
use owon_vds.Base.{
  ℕ, ◌≡◌, ◌≢◌, refl, Bool, true, false, ◌&&◌, ◌∙◌, List, [], ◌∷◌, ◌++◌, some, arith, ◌==◌,
  if◌then◌else◌,
}
use owon_vds.Jni.Api.{Jni, Ref, Slot, Value, field}
use owon_vds.Jni.Laws.{Laws, IsWritten, IsRefusal}
use owon_vds.Native.Fields.{JavaClass, Field, class_key, class_of, field_key}
use owon_vds.Native.State.{References}
use owon_vds.Busses.Action.{put, puts}
use owon_vds.Busses.Ends.{Ends, ends, bind, mono}
use owon_vds.Busses.Frame.{Only, Grow, Grow-refl, Grow-Only, Only-trans, Written-Only}

-- All lookups succeeded. Within a class different fields have different IDs; the IDs of fields of
-- different classes may coincide.
pub record IsResolved (refs : References) : Type 0 where
  pub class_id : JavaClass → Ref
  pub method_id : JavaClass → ℕ
  pub field_id : Field → ℕ
  pub classes : (c : JavaClass) → refs.clazz c ≡ some (class_id c)
  pub methods : (c : JavaClass) → refs.mid c ≡ some (method_id c)
  pub fields : (f : Field) → refs.fid f ≡ some (field_id f)
  pub apart :
      (f g : Field)
      → class_key (class_of f) ≡ class_key (class_of g)
      → field_key f ≢ field_key g
      → field_id f ≢ field_id g

-- `f` is a field of the same class as those of the list, and none of them.
abbrev pub differs : Field → Field → Bool
differs f g =
    (class_key (class_of f) == class_key (class_of g))
    && (if field_key f == field_key g then false else true)

abbrev pub away : Field → List (Field × Value) → Bool
away f [] = true
away f ((g, _) ∷ l) = differs f g && away f l

abbrev pub all_away : List (Field × Value) → List (Field × Value) → Bool
all_away [] l = true
all_away ((f, _) ∷ k) l = away f l && all_away k l

abbrev pub distinct : List (Field × Value) → Bool
distinct [] = true
distinct ((f, _) ∷ l) = away f l && distinct l

pub and_left : (a b : Bool) → (a && b) ≡ true → a ≡ true
and_left a b h = ground arith

pub and_right : (a b : Bool) → (a && b) ≡ true → b ≡ true
and_right a b h = ground arith

away-append :
    (f : Field) (k l : List (Field × Value))
    → away f (k ++ l) ≡ true
    → (away f k ≡ true) × (away f l ≡ true)
away-append f [] l h = (refl, h)
away-append f ((g, x) ∷ k) l h = ground (arith, away-append f k l)

field_ne : {i j : ℕ} → i ≢ j → field i ≢ field j
field_ne h e = ground arith

abbrev pub slot : {refs : References} → IsResolved refs → Field → Slot
slot res f = field (res.field_id f)

pub slot_ne :
    {refs : References} (res : IsResolved refs) (f g : Field)
    → differs f g ≡ true
    → slot res f ≢ slot res g
slot_ne res f g h = field_ne (res.apart f g (ground arith) (ground arith))

module _ (jni : Jni) {refs : References} (res : IsResolved refs) where
  -- The object's fields hold the values.
  abbrev pub Holds : jni.Vm → Ref → List (Field × Value) → Type 0
  Holds w o [] = Unit
  Holds w o ((f, x) ∷ l) = (jni.get w o (slot res f) ≡ x) × Holds w o l

  -- Of what exists in `v`, only the fields of `k` of the object `o` may differ in `w`.
  pub record Writes (o : Ref) (k : List (Field × Value)) (v w : jni.Vm) : Type 0 where
    pub only : Only jni o v w
    pub rest : (f : Field) → away f k ≡ true → jni.get w o (slot res f) ≡ jni.get v o (slot res f)

  pub Writes-trans :
      {u v w : jni.Vm} {o : Ref} {k l : List (Field × Value)}
      → Writes o k u v
      → Writes o l v w
      → Writes o (k ++ l) u w
  Writes-trans {k} {l} a b = record {
    only = Only-trans jni a.only b.only;
    rest = λ f h. let (hk, hl) = away-append f k l h in b.rest f hl ∙ a.rest f hk;
  }

  -- What leaves all that exists alone writes no field.
  pub Grow-Writes : {v w : jni.Vm} {o : Ref} → jni.live v o ≡ true → Grow jni v w → Writes o [] v w
  Grow-Writes {o} there g = record {
    only = Grow-Only jni o g;
    rest = λ f h. g.same o (slot res f) there;
  }

  pub record Put (o : Ref) (l : List (Field × Value)) (v w : jni.Vm) : Type 0 where
    pub writes : Writes o l v w
    pub holds : Holds w o l

  module _ (laws : Laws jni) where
    Written-Put :
        {v w : jni.Vm} {o : Ref} (f : Field) (x : Value)
        → IsWritten jni v o (slot res f) x w
        → Put o ((f, x) ∷ []) v w
    Written-Put f x e = record {
      writes = record {
        only = Written-Only jni e;
        rest = λ g h. e.other_slot (slot res g) (slot_ne res g f (and_left _ _ h));
      };
      holds = (e.written, tt);
    }

    pub put-Put :
        (o : Ref) (f : Field) (x : Value) (v : jni.Vm)
        → jni.live v o ≡ true
        → Ends (IsRefusal jni) (λ _ w. Put o ((f, x) ∷ []) v w) (put jni refs o f x v)
    unfolding put
    put-Put o f x v there =
        rw (res.fields f, put)
          (ends (Written-Put f x (laws.set_field o (res.field_id f) x v there)))

    Put-cons :
        {u v w : jni.Vm} {o : Ref} (f : Field) (x : Value) (l : List (Field × Value))
        → away f l ≡ true
        → Put o ((f, x) ∷ []) u v
        → Put o l v w
        → Put o ((f, x) ∷ l) u w
    Put-cons f x l out a b = record {
      writes = Writes-trans a.writes b.writes;
      holds = (b.writes.rest f out ∙ a.holds.0, b.holds);
    }

    -- A run of writes to distinct fields of one object.
    pub puts-Put :
        (o : Ref) (l : List (Field × Value)) (v : jni.Vm)
        → jni.live v o ≡ true
        → distinct l ≡ true
        → Ends (IsRefusal jni) (λ _ w. Put o l v w) (puts jni refs o l v)
    unfolding puts
    puts-Put o [] v there apart =
        ends (record { writes = Grow-Writes there (Grow-refl jni v); holds = tt })
    puts-Put o ((f, x) ∷ l) v there apart = bind (put-Put o f x v there) λ _ w a.
        mono (puts-Put o l w (a.writes.only.live o there) (and_right _ _ apart))
          λ _ w' b. Put-cons f x l (and_left _ _ apart) a b

  -- Fields that a run of writes spares keep their values.
  pub Holds-rest :
      {v w : jni.Vm} {o : Ref} (l : List (Field × Value))
      → ((f : Field) → jni.get w o (slot res f) ≡ jni.get v o (slot res f))
      → Holds v o l
      → Holds w o l
  Holds-rest [] same h = tt
  Holds-rest ((f, x) ∷ l) same h = (same f ∙ h.0, Holds-rest l same h.1)

  pub Holds-spared :
      {v w : jni.Vm} {o : Ref} (l k : List (Field × Value))
      → all_away l k ≡ true
      → Writes o k v w
      → Holds v o l
      → Holds w o l
  Holds-spared [] k out e h = tt
  Holds-spared ((f, x) ∷ l) k out e h =
      (e.rest f (and_left _ _ out) ∙ h.0, Holds-spared l k (and_right _ _ out) e h.1)
