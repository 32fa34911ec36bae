-- ===== src/Busses/Typed/Steps.antt =====
-- The single steps of `usb_get_busses` in LibusbJava.c on a virtual machine that checks types.
use package.text.Mathlib.Text.{◌==◌ as str_eq}
use Prim.Native.String.{◌++◌ as str_append}
use owon_vds.Base.{
  ℕ, ◌<◌, ◌≡◌, ◌≢◌, ◌∙◌, refl, Bool, true, false, ◌&&◌, Option, none, some, List, [], ◌∷◌,
  Option-cases, inl, inr, ◌==◌, ==-refl, String,
}
use owon_vds.Base.Int.{ℤ, pos}
use owon_vds.Jni.Api.{Jni, Ref, Value, object, size, extent, Slot}
use owon_vds.Jni.Laws.{IsWritten}
use owon_vds.Jni.Types.{Kind, array_of, Classes, wrote, fits, not_primitive, typed}
use owon_vds.Native.Fields.{JavaClass, Field, class_key, class_of}
use owon_vds.Native.Names.{class_name, field_signature}
use owon_vds.Native.State.{Message}
use owon_vds.Busses.Action.{Step, or_give_up, put, puts, new, new_array, set_element}
use owon_vds.Busses.Tables.{class_key-injective}
use owon_vds.Busses.Puts.{and_left, and_right}
use owon_vds.Busses.Frame.{Written-extent}
use owon_vds.Busses.Typed.{
  Setting, Machine, kind, Has, HasIf, Onward, Onward-refl, Has-Onward, WellTyped, bind, Any,
  created-Onward, goes_on, leaves, faults, lacks_rounds,
}

-- The signature of the objects of a class.
abbrev pub object_signature : JavaClass → String
object_signature c = str_append "L" (str_append (class_name c) ";")

abbrev pub array_signature : JavaClass → String
array_signature c = str_append "[L" (str_append (class_name c) ";")

-- The values may be written to the fields of an object of the class.
abbrev pub all_fit : Classes → JavaClass → (Ref → Option Kind) → List (Field × Value) → Bool
all_fit classes c kinds [] = true
all_fit classes c kinds ((f, x) ∷ l) =
    ((class_key (class_of f) == class_key c) && fits classes kinds x (field_signature f))
    && all_fit classes c kinds l

module _ {jni : Jni} (t : Setting jni) where
  -- A reference to an object of a class, or NULL, fits a field of that class.
  pub Has-fits :
      (c : JavaClass) (o : Ref) (w : Machine jni t.has) (s : String)
      → Has jni t.has (kind jni t.has c) o w
      → str_eq (object_signature c) s ≡ true
      → fits t.classes w.kinds (object (some o)) s ≡ true
  Has-fits c o w s (there, e) h = rw e (rw (t.knows.named c) h)

  pub HasIf-fits :
      (c : JavaClass) (o : Option Ref) (w : Machine jni t.has) (s : String)
      → HasIf jni t.has c o w
      → str_eq (object_signature c) s ≡ true
      → not_primitive t.classes s ≡ true
      → fits t.classes w.kinds (object o) s ≡ true
  HasIf-fits c none w s h e e' = e'
  HasIf-fits c (some o) w s h e e' = Has-fits c o w s h e

  pub array-fits :
      (c : JavaClass) (a : Ref) (w : Machine jni t.has) (s : String)
      → w.kinds a ≡ some (array_of (t.has.class_id c))
      → str_eq (array_signature c) s ≡ true
      → fits t.classes w.kinds (object (some a)) s ≡ true
  array-fits c a w s e h = rw e (rw (t.knows.named c) h)

  pub new-WellTyped :
      (c : JavaClass) (m : Message) (v : Machine jni t.has)
      → v.misfit ≡ false
      → WellTyped jni t.has v
          (Has jni t.has (kind jni t.has c))
          (new (typed t.classes jni) t.refs c m v)
  unfolding new or_give_up
  new-WellTyped c m v fit =
      rw ((t.known c).class, (t.known c).method, new)
        (elim (Option-cases (jni.new_object (t.has.class_id c) (t.has.method_id c) v.machine).0) [
          | inl e ↦ rw (e, t.knows.constructs c, or_give_up) (leaves (fit, tt))
          | inr (o, e) ↦
              let (on, born) =
                created-Onward jni t.has v (kind jni t.has c) fit
                  (t.laws.new_object _ _ v.machine o e) in
              rw (e, t.knows.constructs c, or_give_up) (goes_on on born)
        ])

  -- The array exists with its element class, and is as long as was asked.
  abbrev pub HasArray : JavaClass → ℤ → Ref → Machine jni t.has → Type 0
  HasArray c n a w =
      Has jni t.has (array_of (t.has.class_id c)) a w × (jni.get w.machine a extent ≡ size n)

  pub HasArray-Onward :
      {v w : Machine jni t.has} (c : JavaClass) (n : ℤ) (a : Ref)
      → Onward jni t.has v w
      → HasArray c n a v
      → HasArray c n a w
  HasArray-Onward c n a on (h, e) = (Has-Onward jni t.has a on h, on.extents a h.0 ∙ e)

  pub new_array-WellTyped :
      (n : ℤ) (c : JavaClass) (m : Message) (v : Machine jni t.has)
      → v.misfit ≡ false
      → WellTyped jni t.has v (HasArray c n) (new_array (typed t.classes jni) t.refs n c m v)
  unfolding new_array or_give_up
  new_array-WellTyped n c m v fit =
      rw ((t.known c).class, new_array)
        (elim (Option-cases (jni.new_object_array n (t.has.class_id c) v.machine).0) [
          | inl e ↦ rw (e, or_give_up) (leaves (fit, tt))
          | inr (a, e) ↦
              let (made, len) = t.laws.new_object_array n _ v.machine a e in
              let (on, born) = created-Onward jni t.has v (array_of (t.has.class_id c)) fit made in
              rw (e, or_give_up) (goes_on on (born, len))
        ])

  -- A write of a value that fits, to a slot that is no length.
  pub wrote-Onward :
      {v : Machine jni t.has} {o : Ref} {s : Slot} {x : Value} {u : jni.Vm}
      → v.misfit ≡ false
      → extent ≢ s
      → IsWritten jni v.machine o s x u
      → Onward jni t.has v (wrote true u v)
  wrote-Onward fit ne w = record {
    fit = fit;
    live = λ p h. w.keeps_live p ∙ h;
    kinds = λ p h. refl;
    extents = λ p h. Written-extent jni ne w p;
  }

  -- The kinds are the same as before.
  abbrev pub SameKinds : {A : Type 0} → Machine jni t.has → A → Machine jni t.has → Type 0
  SameKinds v _ w = w.kinds ≡ v.kinds

  pub put-WellTyped :
      (o : Ref) (f : Field) (x : Value) (v : Machine jni t.has)
      → v.misfit ≡ false
      → Has jni t.has (kind jni t.has (class_of f)) o v
      → fits t.classes v.kinds x (field_signature f) ≡ true
      → WellTyped jni t.has v (SameKinds v) (put (typed t.classes jni) t.refs o f x v)
  unfolding put
  put-WellTyped o f x v fit (there, e) fitting =
      rw ((t.known (class_of f)).fields f refl, put)
        (rw (e, t.knows.field_type f, fitting)
          (goes_on (wrote-Onward fit (λ q. cc) (t.laws.set_field o _ x v.machine there)) refl))

  weaken_kinds :
      {A : Type 0} (v w : Machine jni t.has) {r : Step (Machine jni t.has) A}
      → w.kinds ≡ v.kinds
      → WellTyped jni t.has w (SameKinds w) r
      → WellTyped jni t.has w (SameKinds v) r
  weaken_kinds v w e (goes_on on same) = goes_on on (same ∙ e)
  weaken_kinds v w e (leaves h) = leaves h
  weaken_kinds v w e faults = faults
  weaken_kinds v w e lacks_rounds = lacks_rounds

  pub forget :
      {A : Type 0} {v : Machine jni t.has} {P : A → Machine jni t.has → Type 0}
      {r : Step (Machine jni t.has) A}
      → WellTyped jni t.has v P r
      → WellTyped jni t.has v (Any jni t.has) r
  forget (goes_on on p) = goes_on on tt
  forget (leaves h) = leaves h
  forget faults = faults
  forget lacks_rounds = lacks_rounds

  pub puts-WellTyped :
      (c : JavaClass) (o : Ref) (l : List (Field × Value)) (v : Machine jni t.has)
      → v.misfit ≡ false
      → Has jni t.has (kind jni t.has c) o v
      → all_fit t.classes c v.kinds l ≡ true
      → WellTyped jni t.has v (SameKinds v) (puts (typed t.classes jni) t.refs o l v)
  unfolding puts
  puts-WellTyped c o [] v fit has_o all = goes_on (Onward-refl jni t.has fit) refl
  puts-WellTyped c o ((f, x) ∷ l) v fit has_o all =
      let same = class_key-injective (class_of f) c (and_left _ _ (and_left _ _ all)) in
      bind jni t.has (put-WellTyped o f x v fit (rw same has_o) (and_right _ _ (and_left _ _ all)))
        λ _ w on e. weaken_kinds v w e (
          puts-WellTyped c o l w on.fit (Has-Onward jni t.has o on has_o)
            (rw e (and_right _ _ all)))

  pub set_element-WellTyped :
      (c : JavaClass) (a : Ref) (i n : ℕ) (o : Ref) (v : Machine jni t.has)
      → v.misfit ≡ false
      → HasArray c (pos n) a v
      → Has jni t.has (kind jni t.has c) o v
      → i < n
      → WellTyped jni t.has v (Any jni t.has) (set_element (typed t.classes jni) t.refs a i o v)
  unfolding set_element
  set_element-WellTyped c a i n o v fit ((there, array), len) (_, e) lt =
      rw (array, e, ==-refl (t.has.class_id c))
        (goes_on
          (wrote-Onward fit (λ q. cc)
            (t.laws.set_object_array_element a i n (some o) v.machine there len lt))
          tt)
