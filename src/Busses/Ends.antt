-- ===== src/Busses/Ends.antt =====
-- A predicate for the total correctness of a step of `usb_get_busses` in LibusbJava.c: it goes on with
-- a postcondition; or the virtual machine refused an object, which is `C`, and the call returns NULL
-- with the wrapper's error set. A fault and a lack of rounds do not satisfy it.
use owon_vds.Base.{Option, none, some, ◌≡◌, refl}
use owon_vds.Native.State.{Message}
use owon_vds.Busses.Action.{Step, ok, leave, Action, and_then, or_give_up}

pub data Ends {V A : Type 0} (C : V → Type 0) (P : A → V → Type 0) : Step V A → Type 0 where
  ends : {a : A} {w : V} → P a w → Ends C P (ok a w)
  gives_up : (m : Message) (w : V) → C w → Ends C P (leave none (some m) w)

module _ {V A : Type 0} {C : V → Type 0} {P : A → V → Type 0} where
  pub bind :
      {B : Type 0} {Q : B → V → Type 0} {r : Step V A} {k : A → Action V B}
      → Ends C P r
      → ((a : A) (w : V) → P a w → Ends C Q (k a w))
      → Ends C Q (and_then r k)
  bind (ends p) next = next _ _ p
  bind (gives_up m w c) next = gives_up m w c

  pub mono :
      {Q : A → V → Type 0} {r : Step V A}
      → Ends C P r
      → ((a : A) (w : V) → P a w → Q a w)
      → Ends C Q r
  mono (ends p) weaken = ends (weaken _ _ p)
  mono (gives_up m w c) weaken = gives_up m w c

  pub or_give_up-Ends :
      (o : Option A) (m : Message) (w : V)
      → (o ≡ none → C w)
      → ((a : A) → o ≡ some a → P a w)
      → Ends C P (or_give_up o m w)
  unfolding or_give_up
  or_give_up-Ends none m w c h = gives_up m w (c refl)
  or_give_up-Ends (some a) m w c h = ends (h a refl)
