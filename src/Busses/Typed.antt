-- ===== src/Busses/Typed.antt =====
-- The types of the objects and values of `usb_get_busses` in LibusbJava.c: what holds of its steps on
-- a virtual machine that checks them.
pub mod Steps
pub mod Extra
pub mod Copies
pub mod Descriptors
pub mod Links
pub mod Devices
pub mod Lists
pub mod Get
use owon_vds.Base.{ℕ, ◌≡◌, ◌∙◌, refl, true, false, Option, none, some, ◌==◌, arith}
use owon_vds.Jni.Api.{Jni, Ref, Value, extent}
use owon_vds.Jni.Laws.{Laws, HasRoom, RefusesNegative, IsCreated}
use owon_vds.Jni.Types.{Kind, instance_of, Classes, Typed, created}
use owon_vds.Native.Fields
use owon_vds.Native.Fields.{JavaClass, Field, class_of}
use owon_vds.Native.Names.{class_name, field_signature}
use owon_vds.Native.State.{References}
use owon_vds.Busses.Action.{Step, Action, and_then}
use owon_vds.Busses.Lookup.{HasClasses, Known}
pub use owon_vds.Busses.Follows.{Follows, goes_on, leaves, faults, lacks_rounds}
use owon_vds.Busses.Follows.{later, chain}

module _ (jni : Jni) (has : HasClasses jni) where
  -- The classes, constructors and fields that the machine hands out are those that were asked for.
  pub record Describes (classes : Classes) : Type 0 where
    pub named : (c : JavaClass) → classes.class_named (has.class_id c) ≡ class_name c
    pub constructs : (c : JavaClass) → classes.constructs (has.class_id c) (has.method_id c) ≡ true
    pub field_type :
        (f : Field)
        → classes.field_type (has.class_id (class_of f)) (has.field_id f) ≡ some (field_signature f)

  abbrev pub Machine : Type 0
  Machine = Typed jni.Vm

  abbrev pub kind : JavaClass → Kind
  kind c = instance_of (has.class_id c)

  abbrev pub Has : Kind → Ref → Machine → Type 0
  Has k o w = (jni.live w.machine o ≡ true) × (w.kinds o ≡ some k)

  -- The reference is NULL or an object of the class.
  abbrev pub HasIf : JavaClass → Option Ref → Machine → Type 0
  HasIf c none w = Unit
  HasIf c (some o) w = Has (kind c) o w

  -- There was no misfit, and the objects are still there, of their kinds, and arrays as long as before.
  pub record Onward (v w : Machine) : Type 0 where
    pub fit : w.misfit ≡ false
    pub live : (p : Ref) → jni.live v.machine p ≡ true → jni.live w.machine p ≡ true
    pub kinds : (p : Ref) → jni.live v.machine p ≡ true → w.kinds p ≡ v.kinds p
    pub extents :
        (p : Ref)
        → jni.live v.machine p ≡ true
        → jni.get w.machine p extent ≡ jni.get v.machine p extent

  pub Onward-refl : {v : Machine} → v.misfit ≡ false → Onward v v
  Onward-refl fit = record {
    fit = fit;
    live = λ p h. h;
    kinds = λ p h. refl;
    extents = λ p h. refl;
  }

  pub Onward-trans : {u v w : Machine} → Onward u v → Onward v w → Onward u w
  Onward-trans a b = record {
    fit = b.fit;
    live = λ p h. b.live p (a.live p h);
    kinds = λ p h. b.kinds p (a.live p h) ∙ a.kinds p h;
    extents = λ p h. b.extents p (a.live p h) ∙ a.extents p h;
  }

  pub Has-Onward : {v w : Machine} {k : Kind} (o : Ref) → Onward v w → Has k o v → Has k o w
  Has-Onward o on (there, e) = (on.live o there, on.kinds o there ∙ e)

  pub HasIf-Onward :
      {v w : Machine} (c : JavaClass) (o : Option Ref) → Onward v w → HasIf c o v → HasIf c o w
  HasIf-Onward c none on h = tt
  HasIf-Onward c (some o) on h = Has-Onward o on h

  -- There was no misfit, and `main` is NULL or a bus.
  abbrev pub Ready : Option Ref → Machine → Type 0
  Ready main w = (w.misfit ≡ false) × HasIf Fields.bus main w

  pub Ready-Onward : {v w : Machine} (main : Option Ref) → Onward v w → Ready main v → Ready main w
  Ready-Onward main on (fit, h) = (on.fit, HasIf-Onward Fields.bus main on h)

  -- A step without a misfit, which returns NULL or a bus where it ends the call.
  abbrev pub WellTyped :
      {A : Type 0} → (v : Machine) → (A → Machine → Type 0) → Step Machine A → Type 0
  WellTyped v P r = Follows Onward Ready v P r

  pub then_WellTyped :
      {A : Type 0} {v w : Machine} {P : A → Machine → Type 0} {r : Step Machine A}
      → Onward v w
      → WellTyped w P r
      → WellTyped v P r
  then_WellTyped o p = later (λ u v w. Onward-trans) o p

  pub bind :
      {A B : Type 0} {v : Machine} {P : A → Machine → Type 0} {Q : B → Machine → Type 0}
      {r : Step Machine A} {k : A → Action Machine B}
      → WellTyped v P r
      → ((a : A) (w : Machine) → Onward v w → P a w → WellTyped w Q (k a w))
      → WellTyped v Q (and_then r k)
  bind p next = chain (λ u v w. Onward-trans) p next

  -- Steps of which nothing more is asked.
  abbrev pub Any : {A : Type 0} → A → Machine → Type 0
  Any a w = Unit

  pub created-Onward :
      (v : Machine) {o : Ref} {x : jni.Vm} (k : Kind)
      → v.misfit ≡ false
      → IsCreated jni v.machine o x
      → let w = (created true k (some o, x) v).1 in Onward v w × Has k o w
  created-Onward v k fit made = (
    record {
      fit = fit;
      live = made.keeps_live;
      kinds = λ p h. ground (arith, h, made.fresh);
      extents = λ p. made.keeps p extent;
    },
    (made.born, ground arith),
  )

-- What the theorems on types ask of the virtual machine, and the variables for classes and fields
-- after the lookup.
pub record Setting (jni : Jni) : Type 0 where
  pub laws : Laws jni
  pub room : HasRoom jni
  pub refuses : RefusesNegative jni
  pub has : HasClasses jni
  pub classes : Classes
  pub knows : Describes jni has classes
  pub refs : References
  pub known : (c : JavaClass) → Known jni has refs c
