-- ===== src/Busses/ArraySpec.antt =====
-- The specification of the copy of an array in `usb_get_busses` of LibusbJava.c, for any element.
use owon_vds.Base.{ℕ, ◌<◌, ◌≡◌, true, false, Option, none, some, List, get_elem?}
use owon_vds.Base.Int.{ℤ, rounds}
use owon_vds.Jni.Api.{Jni, Ref, object, size, element, extent}
use owon_vds.Jni.Laws.{IsRefusal}
use owon_vds.Native.State.{Message}
use owon_vds.Busses.Action.{ok, Action, element_or_leave}
use owon_vds.Busses.Ends.{Ends}
use owon_vds.Busses.Frame.{Below, Only, Keeps, Own}

-- The element of a C array, if the array is not NULL and has it.
abbrev pub nth {ℓ} : {A : Type ℓ} → Option (List A) → ℕ → Option A
nth none i = none
nth (some l) i = get_elem? l i

-- The array has `n` elements at least, and the first `n` satisfy `P`.
abbrev pub AllFirst : {A : Type 0} → (A → Type 0) → ℕ → Option (List A) → Type 0
AllFirst {A} P n xs = (j : ℕ) → j < n → (x : A) × (nth xs j ≡ some x) × P x

pub element_or_leave-nth :
    {V A : Type 0} (xs : Option (List A)) (i : ℕ) (main : Option Ref) (m : Option Message) (x : A)
    (v : V)
    → nth xs i ≡ some x
    → element_or_leave xs i main m v ≡ ok x v
unfolding element_or_leave
element_or_leave-nth none i main m x v h = cc
element_or_leave-nth (some l) i main m x v h = rw (h, element_or_leave)

-- An object that stands for a C value: what `R base w o x` says of `w` concerns only objects that
-- were made since `base`.
pub record IsStable (jni : Jni) {A : Type 0} (R : jni.Vm → jni.Vm → Ref → A → Type 0) : Type 0 where
  pub keep :
      (base v w : jni.Vm) (o : Ref) (x : A) → Keeps jni base v w → R base v o x → R base w o x
  pub widen :
      (base base' w : jni.Vm) (o : Ref) (x : A)
      → Below jni base' base
      → R base w o x
      → R base' w o x

-- Filling a new object makes it stand for the value, and touches no other object.
abbrev pub Fills :
    (jni : Jni) {A : Type 0} (R : jni.Vm → jni.Vm → Ref → A → Type 0) (P : A → Type 0)
    (fill : Ref → A → Action jni.Vm (Unit {0}))
    → Type 0
Fills jni {A} R P fill =
    (base v : jni.Vm) (o : Ref) (x : A)
    → Below jni base v
    → jni.live base o ≡ false
    → jni.live v o ≡ true
    → P x
    → Ends (IsRefusal jni) (λ _ w. Only jni o v w × R base w o x) (fill o x v)

-- Element `j` of the Java array stands for element `j` of the C array.
abbrev pub Element :
    (jni : Jni) {A : Type 0} (R : jni.Vm → jni.Vm → Ref → A → Type 0)
    → jni.Vm
    → jni.Vm
    → Ref
    → Option (List A)
    → ℕ
    → Type 0
Element jni {A} R base w a xs j =
    (x : A) × (o : Ref) × (nth xs j ≡ some x)
    × (jni.get w a (element j) ≡ object (some o))
    × R base w o x

-- A new Java array of length `n`, whose elements stand for the first elements of the C array.
pub record IsArray (jni : Jni) {A : Type 0} (R : jni.Vm → jni.Vm → Ref → A → Type 0)
    (base w : jni.Vm) (n : ℤ) (xs : Option (List A)) (a : Ref) : Type 0 where
  pub own : Own jni base w a
  pub extent : jni.get w a extent ≡ size n
  pub elements : (j : ℕ) → j < rounds n → Element jni R base w a xs j
