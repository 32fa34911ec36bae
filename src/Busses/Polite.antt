-- ===== src/Busses/Polite.antt =====
-- The use of the Java Native Interface by the steps of `usb_get_busses` in LibusbJava.c, on a virtual
-- machine that notes it.
pub mod Steps
pub mod Copies
pub mod Lists
pub mod Misuse
use owon_vds.Base.{
  ℕ, zero, suc, ◌+◌, ◌<◌, ◌≤◌, ◌≡◌, ◌∙◌, refl, true, false, ◌||◌, Option, none, some, List, [], ◌∷◌,
  arith, ltb, leb, length, take, Bool-cases, Option-cases, inl, inr, Bool,
}
use owon_vds.Base.Int.{ℤ, pos, rounds}
use owon_vds.Jni.Api.{Jni, Ref, Value, object, size, extent}
use owon_vds.Jni.Laws.{Laws, HasRoom, IsCreated, IsWritten}
use owon_vds.Jni.Watch.{Watched, called, is_null, watch}
use owon_vds.Native.Fields.{JavaClass, Field}
use owon_vds.Native.State.{References, Message}
use owon_vds.Busses.Action.{
  Step, ok, leave, Action, and_then, or_give_up, put, puts, new, new_array, put_string, put_bytes,
  put_extra, set_element,
}
pub use owon_vds.Busses.Follows.{Follows, goes_on, leaves, faults, lacks_rounds}
use owon_vds.Busses.Follows.{later, chain}

module _ (jni : Jni) where
  abbrev pub Machine : Type 0
  Machine = Watched jni.Vm

  -- No exception is pending, and no function was called while one was.
  pub record IsCalm (w : Machine) : Type 0 where
    pub pending : w.pending ≡ false
    pub misused : w.misused ≡ false

  -- The step went on calmly: the objects are still there, the arrays as long as before.
  pub record Onward (v w : Machine) : Type 0 where
    pub calm : IsCalm w
    pub live : (p : Ref) → jni.live v.machine p ≡ true → jni.live w.machine p ≡ true
    pub extents :
        (p : Ref)
        → jni.live v.machine p ≡ true
        → jni.get w.machine p extent ≡ jni.get v.machine p extent

  pub Onward-refl : {v : Machine} → IsCalm v → Onward v v
  Onward-refl calm = record { calm = calm; live = λ p h. h; extents = λ p h. refl }

  pub Onward-trans : {u v w : Machine} → Onward u v → Onward v w → Onward u w
  Onward-trans a b = record {
    calm = b.calm;
    live = λ p h. b.live p (a.live p h);
    extents = λ p h. b.extents p (a.live p h) ∙ a.extents p h;
  }

  -- A step that uses the interface as it should, also where it ends the call.
  abbrev pub Polite :
      {A : Type 0} → (v : Machine) → (A → Machine → Type 0) → Step Machine A → Type 0
  Polite v P r = Follows Onward (λ _ w. w.misused ≡ false) v P r

  pub then_Polite :
      {A : Type 0} {v w : Machine} {P : A → Machine → Type 0} {r : Step Machine A}
      → Onward v w
      → Polite w P r
      → Polite v P r
  then_Polite o p = later (λ u v w. Onward-trans) o p

  pub bind :
      {A B : Type 0} {v : Machine} {P : A → Machine → Type 0} {Q : B → Machine → Type 0}
      {r : Step Machine A} {k : A → Action Machine B}
      → Polite v P r
      → ((a : A) (w : Machine) → Onward v w → P a w → Polite w Q (k a w))
      → Polite v Q (and_then r k)
  bind p next = chain (λ u v w. Onward-trans) p next

  -- Steps of which nothing more is asked.
  abbrev pub Any : {A : Type 0} → A → Machine → Type 0
  Any a w = Unit

  abbrev pub Born : Ref → Machine → Type 0
  Born o w = jni.live w.machine o ≡ true

  pub called-IsCalm :
      {v : Machine} (raises : Bool) (x : jni.Vm)
      → raises ≡ false
      → IsCalm v
      → IsCalm (called raises x v)
  called-IsCalm raises x e calm = record {
    pending = ground (arith, calm.pending);
    misused = ground (arith, calm.misused, calm.pending);
  }

  pub Created-Onward :
      {v : Machine} {o : Ref} {x : jni.Vm}
      → IsCalm v
      → IsCreated jni v.machine o x
      → Onward v (called false x v)
  Created-Onward calm made = record {
    calm = called-IsCalm false _ refl calm;
    live = made.keeps_live;
    extents = λ p. made.keeps p extent;
  }
