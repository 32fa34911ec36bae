-- ===== src/Calls/Effects.antt =====
-- What one call of a native method of LibusbJava.c does to the variables that the methods share.
use owon_vds.Base.{
  ℕ, ◌+◌, ◌≤◌, ◌≡◌, refl, Bool, true, false, Option, none, some, arith, ◌==◌, inl, inr, Bool-cases,
}
use owon_vds.Base.Int.{ℤ}
use owon_vds.Libusb.Api.{Libusb, Buffer}
use owon_vds.Jni.Api.{Jni, Ref}
use owon_vds.Native.State.{State, Outcome, returned, clear_libusb_java_error}
use owon_vds.Busses.Action.{Step, ok, leave}
use owon_vds.Busses.Get.{finish, copy_busses, find_references, get_busses}
use owon_vds.Handlers.Open.{open_found, open_device}
use owon_vds.Handlers.Transfers
use owon_vds.Handlers.Transfers.{malloc}
use owon_vds.Handlers.Strings
use owon_vds.Handlers.Control
use owon_vds.Handlers.Errors
use owon_vds.Calls.{Call, Reply, perform, referenced, computed, after}

-- If the call returns, its reply and the state satisfy `P`.
abbrev pub After : {S A : Type 0} → (A → S → Type 0) → Outcome S A → Type 0
After P (returned a s) = P a s
After P Outcome.fault = Unit
After P Outcome.out_of_fuel = Unit

pub After-after :
    {S A B : Type 0} {P : A → S → Type 0} (Q : B → S → Type 0) (k : A → S → Outcome S B)
    (r : Outcome S A)
    → After P r
    → ((a : A) (s : S) → P a s → After Q (k a s))
    → After Q (after r k)
After-after Q k (returned a s) p next = next a s p
After-after Q k Outcome.fault p next = tt
After-after Q k Outcome.out_of_fuel p next = tt

pub After-map :
    {S A : Type 0} {P : A → S → Type 0} (Q : A → S → Type 0) (r : Outcome S A)
    → After P r
    → ((a : A) (s : S) → P a s → Q a s)
    → After Q r
After-map Q (returned a s) p weaken = weaken a s p
After-map Q Outcome.fault p weaken = tt
After-map Q Outcome.out_of_fuel p weaken = tt

-- The blocks that the call allocates and does not free.
abbrev allocated : Buffer → ℕ
allocated none = 0
allocated (some _) = 1

abbrev pub leaked : Call → ℕ
leaked (Call.get_descriptor memory _ _ _ size) = allocated (malloc memory size)
leaked (Call.get_descriptor_by_endpoint memory _ _ _ _ size) = allocated (malloc memory size)
leaked _ = 0

-- The calls of `usb_set_configuration` that reply with a number, as those do that are not blocked.
abbrev pub configured : Call → Reply → ℕ
configured (Call.set_configuration _ _) (Reply.number _) = 1
configured _ _ = 0

abbrev pub lists_busses : Call → Bool
lists_busses (Call.get_busses _ _) = true
lists_busses _ = false

-- The calls after which an error of the wrapper can stand.
abbrev pub may_set_error : Call → Bool
may_set_error (Call.get_busses _ _) = true
may_set_error (Call.open_device _ _ _) = true
may_set_error (Call.set_configuration _ _) = true
may_set_error (Call.error_no _) = true
may_set_error _ = false

module _ {V U : Type 0} where
  pub record Effect (c : Call) (s : State V U) (r : Reply) (s' : State V U) : Type 0 where
    pub malloced : s'.malloced ≡ s.malloced + leaked c
    pub config_done : s'.config_done ≡ configured c r + s.config_done
    pub bounded : s.config_done ≤ 1 → s'.config_done ≤ 1
    pub loaded : s'.java_references_loaded ≡ s.java_references_loaded
    pub busses : lists_busses c ≡ false → s'.busses ≡ s.busses
    pub error : may_set_error c ≡ false → s'.libusb_java_error ≡ none

  -- The variables but `busses` and the error are as before.
  pub record Same (s s' : State V U) : Type 0 where
    pub malloced : s'.malloced ≡ s.malloced
    pub config_done : s'.config_done ≡ s.config_done
    pub loaded : s'.java_references_loaded ≡ s.java_references_loaded

  finish-Same :
      (s t : State V U) (r : Step V (Option Ref))
      → Same s t
      → After (λ _ s'. Same s s') (finish t r)
  unfolding finish
  finish-Same s t (ok r v) h = record {
    malloced = h.malloced;
    config_done = h.config_done;
    loaded = h.loaded;
  }
  finish-Same s t (leave r none v) h = record {
    malloced = h.malloced;
    config_done = h.config_done;
    loaded = h.loaded;
  }
  finish-Same s t (leave r (some m) v) h = record {
    malloced = h.malloced;
    config_done = h.config_done;
    loaded = h.loaded;
  }
  finish-Same s t Step.fault h = tt
  finish-Same s t Step.out_of_fuel h = tt

module _ (jni : Jni) (usb : Libusb) where
  copy_busses-Same :
      (devices fuel : ℕ) (s t : State jni.Vm usb.Usb)
      → Same s t
      → After (λ _ s'. Same s s') (copy_busses jni usb devices fuel t)
  unfolding copy_busses
  copy_busses-Same devices fuel s t h =
      let (p, u) = usb.usb_get_busses t.usb in
      let h' : Same s (record t { usb = u; busses = p }) = record {
        malloced = h.malloced;
        config_done = h.config_done;
        loaded = h.loaded;
      } in
      elim (Bool-cases (p == 0)) [
        | inl e ↦ rw (e, copy_busses) h'
        | inr e ↦ rw (e, copy_busses) (finish-Same s (record t { usb = u; busses = p }) _ h')
      ]

  find_references-Same :
      (s : State jni.Vm usb.Usb) → Same s (find_references jni usb (clear_libusb_java_error s)).1
  unfolding find_references
  find_references-Same s = elim (Bool-cases (s.java_references_loaded == 0)) [
    | inl e ↦
        rw (e, find_references) (record { malloced = refl; config_done = refl; loaded = refl })
    | inr e ↦
        rw (e, find_references) (record { malloced = refl; config_done = refl; loaded = refl })
  ]

  get_busses-Same :
      (devices fuel : ℕ) (s : State jni.Vm usb.Usb)
      → After (λ _ s'. Same s s') (get_busses jni usb devices fuel s)
  unfolding get_busses
  get_busses-Same devices fuel s =
      let (all_found, t) = find_references jni usb (clear_libusb_java_error s) in
      let h = find_references-Same s in
      elim (Bool-cases all_found) [
        | inl e ↦ rw (e, get_busses) (copy_busses-Same devices fuel s t h)
        | inr e ↦ rw (e, get_busses) h
      ]

  open_device-Same :
      (devices fuel : ℕ) (dev : Ref) (s : State jni.Vm usb.Usb)
      → After (λ _ s'. Same s s' × (s'.busses ≡ s.busses)) (open_device jni usb devices fuel dev s)
  unfolding open_device open_found
  open_device-Same devices fuel dev s = ground arith

  get_busses-Effect :
      (devices fuel : ℕ) (s : State jni.Vm usb.Usb)
      (r : Outcome (State jni.Vm usb.Usb) (Option Ref))
      → After (λ _ s'. Same s s') r
      → After (Effect (Call.get_busses devices fuel) s) (referenced r)
  get_busses-Effect devices fuel s (returned r s') h = record {
    malloced = ground (arith, h.malloced);
    config_done = ground (arith, h.config_done);
    bounded = λ le. ground (arith, h.config_done);
    loaded = h.loaded;
    busses = λ e. ground arith;
    error = λ e. ground arith;
  }
  get_busses-Effect devices fuel s Outcome.fault h = tt
  get_busses-Effect devices fuel s Outcome.out_of_fuel h = tt

  open_device-Effect :
      (devices fuel : ℕ) (dev : Ref) (s : State jni.Vm usb.Usb)
      (r : Outcome (State jni.Vm usb.Usb) ℤ)
      → After (λ _ s'. Same s s' × (s'.busses ≡ s.busses)) r
      → After (Effect (Call.open_device devices fuel dev) s) (computed r)
  open_device-Effect devices fuel dev s (returned r s') (h, same) = record {
    malloced = ground (arith, h.malloced);
    config_done = ground (arith, h.config_done);
    bounded = λ le. ground (arith, h.config_done);
    loaded = h.loaded;
    busses = λ _. same;
    error = λ e. ground arith;
  }
  open_device-Effect devices fuel dev s Outcome.fault h = tt
  open_device-Effect devices fuel dev s Outcome.out_of_fuel h = tt

  -- Whatever a call is given, if it returns: the count of blocks grows by the block that `malloc`
  -- gives a descriptor request, if any, and by nothing else, since the reads free theirs; the flag of
  -- `usb_set_configuration` grows by one where it replies with a number; the flag of the lookups
  -- stays; only `usb_get_busses` changes the list of busses; and no error stands, unless the call
  -- is `usb_get_busses`, `usb_open`, `usb_set_configuration` or `usb_error_no`.
  pub perform-Effect :
      (c : Call) (s : State jni.Vm usb.Usb) → After (Effect c s) (perform jni usb c s)
  unfolding perform Control.set_debug Control.init Control.find_busses Control.find_devices
      Control.close Control.reset Control.set_configuration Control.set_altinterface
      Control.clear_halt Control.claim_interface Control.release_interface Transfers.control_msg
      Strings.get_string Strings.get_string_simple Strings.get_descriptor
      Strings.get_descriptor_by_endpoint Strings.string_reply Transfers.bulk_write
      Transfers.bulk_read Transfers.interrupt_write Transfers.interrupt_read Errors.strerror
  perform-Effect (Call.set_debug level) s = ground arith
  perform-Effect Call.init s = ground arith
  perform-Effect Call.find_busses s = ground arith
  perform-Effect Call.find_devices s = ground arith
  perform-Effect (Call.get_busses devices fuel) s =
      get_busses-Effect devices fuel s _ (get_busses-Same devices fuel s)
  perform-Effect (Call.open_device devices fuel dev) s =
      open_device-Effect devices fuel dev s _ (open_device-Same devices fuel dev s)
  perform-Effect (Call.close h) s = ground arith
  perform-Effect (Call.reset h) s = ground arith
  perform-Effect (Call.set_configuration h c) s = ground arith
  perform-Effect (Call.set_altinterface h a) s = ground arith
  perform-Effect (Call.clear_halt h ep) s = ground arith
  perform-Effect (Call.claim_interface h i) s = ground arith
  perform-Effect (Call.release_interface h i) s = ground arith
  perform-Effect (Call.control_msg h t r v i a n w) s = ground arith
  perform-Effect (Call.get_string b h i l) s = ground arith
  perform-Effect (Call.get_string_simple b h i) s = ground arith
  perform-Effect (Call.get_descriptor b h t i n) s = ground arith
  perform-Effect (Call.get_descriptor_by_endpoint b h ep t i n) s = ground arith
  perform-Effect (Call.bulk_write h ep a n w) s = ground arith
  perform-Effect (Call.interrupt_write h ep a n w) s = ground arith
  perform-Effect (Call.bulk_read b h ep a n w) s = ground arith
  perform-Effect (Call.interrupt_read b h ep a n w) s = ground arith
  perform-Effect Call.strerror s = ground arith
  perform-Effect (Call.error_no n) s = ground arith
