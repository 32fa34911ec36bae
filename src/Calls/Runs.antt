-- ===== src/Calls/Runs.antt =====
-- Sequences of calls of the native methods of LibusbJava.c.
use owon_vds.Base.{ℕ, ◌+◌, ◌≤◌, ◌≡◌, ◌∙◌, refl, List, [], ◌∷◌, arith, ◌==◌, false}
use owon_vds.Libusb.Api.{Libusb}
use owon_vds.Jni.Api.{Jni}
use owon_vds.Native.State.{returned, State}
use owon_vds.Native.Names.{all_classes}
use owon_vds.Busses.References.{find_classes}
use owon_vds.Busses.Get.{find_references}
use owon_vds.Busses.Refinement.{find_references-find_classes}
use owon_vds.Handlers.Control.{set_configuration}
use owon_vds.Base.Int.{ℤ}
use owon_vds.Calls.{Call, Reply, perform, run}
use owon_vds.Calls.Effects.{
  After, After-after, After-map, Effect, leaked, configured, perform-Effect,
}

abbrev pub total_leaked : List Call → ℕ
total_leaked [] = 0
total_leaked (c ∷ cs) = leaked c + total_leaked cs

abbrev pub total_configured : List Call → List Reply → ℕ
total_configured (c ∷ cs) (r ∷ rs) = configured c r + total_configured cs rs
total_configured _ _ = 0

module _ (jni : Jni) (usb : Libusb) where
  -- What holds of every run.
  pub record History (cs : List Call) (s : State jni.Vm usb.Usb) (rs : List Reply)
      (s' : State jni.Vm usb.Usb) : Type 0 where
    pub malloced : s'.malloced ≡ s.malloced + total_leaked cs
    pub config_done : s'.config_done ≡ total_configured cs rs + s.config_done
    pub bounded : s.config_done ≤ 1 → s'.config_done ≤ 1
    pub loaded : s'.java_references_loaded ≡ s.java_references_loaded

  History-cons :
      {c : Call} {cs : List Call} {s t s' : State jni.Vm usb.Usb} {r : Reply} {rs : List Reply}
      → Effect c s r t
      → History cs t rs s'
      → History (c ∷ cs) s (r ∷ rs) s'
  History-cons e h = record {
    malloced = ground (arith, e.malloced, h.malloced);
    config_done = ground (arith, e.config_done, h.config_done);
    bounded = λ le. h.bounded (e.bounded le);
    loaded = h.loaded ∙ e.loaded;
  }

  run-History :
      (cs : List Call) (s : State jni.Vm usb.Usb) → After (History cs s) (run jni usb cs s)
  unfolding run
  run-History [] s = record {
    bounded = λ le. le;
    malloced = ground arith;
    config_done = ground arith;
    loaded = refl;
  }
  run-History (c ∷ cs) s =
      After-after _ _ (perform jni usb c s) (perform-Effect jni usb c s)
        λ r t e. After-after _ _ (run jni usb cs t) (run-History cs t) λ rs s' h. History-cons e h

  set_configuration-blocked :
      (dev_handle configuration : ℤ) (s : State jni.Vm usb.Usb)
      → (s.config_done == 0) ≡ false
      → perform jni usb (Call.set_configuration dev_handle configuration) s
        ≡ returned Reply.no_value s
  unfolding perform set_configuration
  set_configuration-blocked dev_handle configuration s e = rw (e, set_configuration) refl

  -- Once a configuration has been sent, and whatever calls came since, `usb_close` and `usb_reset`
  -- among them: `usb_set_configuration` of any handle changes nothing, and ends without a value for
  -- Java.
  pub run-blocks :
      (cs : List Call) (s : State jni.Vm usb.Usb) (dev_handle configuration : ℤ)
      → s.config_done ≡ 1
      → After
          (λ rs s'.
            perform jni usb (Call.set_configuration dev_handle configuration) s'
            ≡ returned Reply.no_value s')
          (run jni usb cs s)
  run-blocks cs s dev_handle configuration sent =
      After-map _ (run jni usb cs s) (run-History cs s) λ rs s' h.
        set_configuration-blocked dev_handle configuration s' (ground (arith, h.config_done))

  -- In any sequence of calls that return, as many blocks stay allocated as descriptor requests were
  -- given one, and no other call leaves one behind: the reads free theirs.
  pub run-leaks :
      (cs : List Call) (s : State jni.Vm usb.Usb)
      → After (λ rs s'. s'.malloced ≡ s.malloced + total_leaked cs) (run jni usb cs s)
  run-leaks cs s = After-map _ (run jni usb cs s) (run-History cs s) λ rs s' h. h.malloced

  -- From the state in which the library is loaded, no sequence of calls sets the flag that would
  -- spare `usb_get_busses` the lookup of the IDs: a further call looks them all up again.
  pub run-looks_up_again :
      (cs : List Call) (s : State jni.Vm usb.Usb)
      → s.java_references_loaded ≡ 0
      → After
          (λ rs s'. find_references jni usb s' ≡ (
            let (all_found, refs, v) = find_classes jni all_classes s'.references s'.vm in
            (all_found, record s' { references = refs; vm = v })))
          (run jni usb cs s)
  run-looks_up_again cs s unset =
      After-map _ (run jni usb cs s) (run-History cs s)
        λ rs s' h. find_references-find_classes jni usb s' (h.loaded ∙ unset)
