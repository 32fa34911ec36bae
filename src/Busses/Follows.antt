-- ===== src/Busses/Follows.antt =====
-- What holds of a step of `usb_get_busses` in LibusbJava.c that goes on, and of one that ends the call.
use owon_vds.Base.{Option}
use owon_vds.Jni.Api.{Ref}
use owon_vds.Native.State.{Message}
use owon_vds.Busses.Action.{Step, ok, leave, Action, and_then}

-- `Onward` relates the states before and after a step that goes on, with its result in `P`; `Left`
-- tells of the state and the result where the call ends.
pub data Follows {V A : Type 0} (Onward : V → V → Type 0) (Left : Option Ref → V → Type 0) (v : V)
    (P : A → V → Type 0) : Step V A → Type 0 where
  goes_on : {a : A} {w : V} → Onward v w → P a w → Follows Onward Left v P (ok a w)
  leaves :
      {r : Option Ref} {m : Option Message} {w : V}
      → Left r w
      → Follows Onward Left v P (leave r m w)
  faults : Follows Onward Left v P Step.fault
  lacks_rounds : Follows Onward Left v P Step.out_of_fuel

module _ {V : Type 0} {Onward : V → V → Type 0} {Left : Option Ref → V → Type 0}
    (trans : (u v w : V) → Onward u v → Onward v w → Onward u w) where
  pub later :
      {A : Type 0} {v w : V} {P : A → V → Type 0} {r : Step V A}
      → Onward v w
      → Follows Onward Left w P r
      → Follows Onward Left v P r
  later o (goes_on o' p) = goes_on (trans _ _ _ o o') p
  later o (leaves e) = leaves e
  later o faults = faults
  later o lacks_rounds = lacks_rounds

  pub chain :
      {A B : Type 0} {v : V} {P : A → V → Type 0} {Q : B → V → Type 0} {r : Step V A}
      {k : A → Action V B}
      → Follows Onward Left v P r
      → ((a : A) (w : V) → Onward v w → P a w → Follows Onward Left w Q (k a w))
      → Follows Onward Left v Q (and_then r k)
  chain (goes_on o p) next = later o (next _ _ o p)
  chain (leaves e) next = leaves e
  chain faults next = faults
  chain lacks_rounds next = lacks_rounds
