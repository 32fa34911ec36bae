-- ===== src/Busses/Halts.antt =====
-- Steps of `usb_get_busses` in LibusbJava.c that end the whole call at a device with an array that is
-- NULL though its count says that it has elements.
pub mod Arrays
pub mod Nulls
pub mod Devices
pub mod Busses
pub mod Get
use owon_vds.Base.{ℕ, suc, ◌≡◌, ◌∙◌, refl, Bool, true, false, Option, none, some, List, ◌==◌}
use owon_vds.Libusb.Structs.{Ptr}
use owon_vds.Jni.Api.{Ref}
use owon_vds.Native.State.{Message}
use owon_vds.Busses.Action.{Step, leave, Action, and_then}
use owon_vds.Busses.Ends.{Ends, ends, gives_up}

-- The call returns `main`, with the error `m` if that is one, in a state that satisfies `Q`; or the
-- virtual machine refused an object, which is `C`, and the call returns NULL with an error.
pub data Halts {V A : Type 0} (C : V → Type 0) (main : Option Ref) (m : Option Message)
    (Q : V → Type 0) : Step V A → Type 0 where
  halts : {w : V} → Q w → Halts C main m Q (leave main m w)
  refused : (e : Message) (w : V) → C w → Halts C main m Q (leave none (some e) w)

module _ {V : Type 0} {C : V → Type 0} {main : Option Ref} {m : Option Message}
    {Q : V → Type 0} where
  -- A step ends as it should, and a later one halts.
  pub later :
      {A B : Type 0} {P : A → V → Type 0} {r : Step V A} {k : A → Action V B}
      → Ends C P r
      → ((a : A) (w : V) → P a w → Halts C main m Q (k a w))
      → Halts C main m Q (and_then r k)
  later (ends p) next = next _ _ p
  later (gives_up e w c) next = refused e w c

  -- The first step halts.
  pub at_once :
      {A B : Type 0} {r : Step V A} (k : A → Action V B)
      → Halts C main m Q r
      → Halts C main m Q (and_then r k)
  at_once k (halts q) = halts q
  at_once k (refused e w c) = refused e w c

  pub weaken :
      {A : Type 0} {R : V → Type 0} {r : Step V A}
      → Halts C main m Q r
      → ((w : V) → Q w → R w)
      → Halts C main m R r
  weaken (halts q) f = halts (f _ q)
  weaken (refused e w c) f = refused e w c

-- The same, where the value that is returned comes from the step.
pub later_some :
    {V A B : Type 0} {C : V → Type 0} {m : Option Message} (Q : Option Ref → V → Type 0)
    {P : A → V → Type 0} {r : Step V A} {k : A → Action V B}
    → Ends C P r
    → ((a : A) (w : V) → P a w → (main : Option Ref) × Halts C main m (Q main) (k a w))
    → (main : Option Ref) × Halts C main m (Q main) (and_then r k)
later_some Q (ends p) next = next _ _ p
later_some Q (gives_up e w c) next = (none, refused e w c)

-- From `p` the `next` pointers lead through these structs to `q`, which is not NULL.
abbrev pub Reaches :
    {A : Type 0} → (Ptr → Option A) → (A → Ptr) → Ptr → List (Ptr × A) → Ptr → Type 0
Reaches at next p List.[] q = (p ≡ q) × ((p == 0) ≡ false)
Reaches at next p (List.◌∷◌ (p', x) l) q =
    (p' ≡ p) × ((p == 0) ≡ false) × (at p ≡ some x) × Reaches at next (next x) l q

pub Reaches-ne :
    {A : Type 0} (at : Ptr → Option A) (next : A → Ptr) (p : Ptr) (l : List (Ptr × A)) (q : Ptr)
    → Reaches at next p l q
    → (p == 0) ≡ false
Reaches-ne at next p List.[] q h = h.1
Reaches-ne at next p (List.◌∷◌ (p', x) l) q h = h.1
