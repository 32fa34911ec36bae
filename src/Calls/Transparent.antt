-- ===== src/Calls/Transparent.antt =====
-- The native methods of LibusbJava.c on a libusb that logs its calls, against the same libusb without
-- the log.
use owon_vds.Base.{
  ℕ, ◌≡◌, ◌∙◌, refl, sym, ap, Option, none, some, List, [], ◌∷◌, arith, ◌==◌, Bool-cases,
  Option-cases, inl, inr,
}
use owon_vds.Base.Int.{ℤ}
use owon_vds.Libusb.Api.{Libusb}
use owon_vds.Libusb.Logging.{Logged, logging}
use owon_vds.Jni.Api.{Jni, Ref}
use owon_vds.Native.Fields.{Field}
use owon_vds.Native.State.{State, Outcome, returned, clear_libusb_java_error}
use owon_vds.Busses.Action.{Step, ok, leave}
use owon_vds.Busses.Get.{finish, copy_busses, find_references, get_busses}
use owon_vds.Handlers.Transfers
use owon_vds.Handlers.Strings
use owon_vds.Handlers.Control
use owon_vds.Handlers.Errors
use owon_vds.Handlers.Open
use owon_vds.Calls.Effects.{After}
use owon_vds.Calls.Requests.{Session, run-Session}
use owon_vds.Calls.{Call, perform, referenced, computed, after, run}

-- The state without the log.
abbrev pub forget : {V U : Type 0} → State V (Logged U) → State V U
forget s = record {
  vm = s.vm;
  usb = s.usb.inner;
  busses = s.busses;
  java_references_loaded = s.java_references_loaded;
  libusb_java_error = s.libusb_java_error;
  config_done = s.config_done;
  references = s.references;
  malloced = s.malloced;
}

abbrev pub forgotten : {V U A : Type 0} → Outcome (State V (Logged U)) A → Outcome (State V U) A
forgotten (returned a s) = returned a (forget s)
forgotten Outcome.fault = Outcome.fault
forgotten Outcome.out_of_fuel = Outcome.out_of_fuel

module _ {V U : Type 0} where
  finish-forgotten :
      (s : State V (Logged U)) (r : Step V (Option Ref))
      → forgotten (finish s r) ≡ finish (forget s) r
  unfolding finish
  finish-forgotten s (ok r v) = refl
  finish-forgotten s (leave r none v) = refl
  finish-forgotten s (leave r (some m) v) = refl
  finish-forgotten s Step.fault = refl
  finish-forgotten s Step.out_of_fuel = refl

  referenced-forgotten :
      (r : Outcome (State V (Logged U)) (Option Ref)) {q : Outcome (State V U) (Option Ref)}
      → forgotten r ≡ q
      → forgotten (referenced r) ≡ referenced q
  referenced-forgotten (returned a s) e = ap referenced e
  referenced-forgotten Outcome.fault e = ap referenced e
  referenced-forgotten Outcome.out_of_fuel e = ap referenced e

  computed-forgotten :
      (r : Outcome (State V (Logged U)) ℤ) {q : Outcome (State V U) ℤ}
      → forgotten r ≡ q
      → forgotten (computed r) ≡ computed q
  computed-forgotten (returned a s) e = ap computed e
  computed-forgotten Outcome.fault e = ap computed e
  computed-forgotten Outcome.out_of_fuel e = ap computed e

  after-forgotten :
      {A B : Type 0} (r : Outcome (State V (Logged U)) A)
      (k : A → State V (Logged U) → Outcome (State V (Logged U)) B) {q : Outcome (State V U) A}
      (j : A → State V U → Outcome (State V U) B)
      → forgotten r ≡ q
      → ((a : A) (s : State V (Logged U)) → forgotten (k a s) ≡ j a (forget s))
      → forgotten (after r k) ≡ after q j
  after-forgotten (returned a s) k j e next = next a s ∙ ap (λ x. after x j) e
  after-forgotten Outcome.fault k j e next = ap (λ x. after x j) e
  after-forgotten Outcome.out_of_fuel k j e next = ap (λ x. after x j) e

module _ (jni : Jni) (usb : Libusb) where
  copy_busses-forgotten :
      (devices fuel : ℕ) (s : State jni.Vm (Logged usb.Usb))
      → forgotten (copy_busses jni (logging usb) devices fuel s)
        ≡ copy_busses jni usb devices fuel (forget s)
  unfolding copy_busses
  copy_busses-forgotten devices fuel s =
      let (p, u) = (logging usb).usb_get_busses s.usb in
      elim (Bool-cases (p == 0)) [
        | inl e ↦ rw (e, copy_busses) refl
        | inr e ↦ rw (e, copy_busses) (finish-forgotten (record s { usb = u; busses = p }) _)
      ]

  find_references-forget :
      (s : State jni.Vm (Logged usb.Usb))
      → let (found, t) = find_references jni (logging usb) s in
        find_references jni usb (forget s) ≡ (found, forget t)
  unfolding find_references
  find_references-forget s = elim (Bool-cases (s.java_references_loaded == 0)) [
    | inl e ↦ rw (e, find_references) refl
    | inr e ↦ rw (e, find_references) refl
  ]

  get_busses-forgotten :
      (devices fuel : ℕ) (s : State jni.Vm (Logged usb.Usb))
      → forgotten (get_busses jni (logging usb) devices fuel s)
        ≡ get_busses jni usb devices fuel (forget s)
  unfolding get_busses
  get_busses-forgotten devices fuel s =
      let e = find_references-forget (clear_libusb_java_error s) in
      let (found, t) = find_references jni (logging usb) (clear_libusb_java_error s) in
      rw (e, get_busses)
        (elim (Bool-cases found) [
          | inl f ↦
              rw (f, get_busses)
                (copy_busses-forgotten devices fuel t
                  ∙ ap (λ x. copy_busses jni usb devices fuel x.1) (sym e))
          | inr f ↦ rw (f, get_busses) (ap (λ x. returned none x.1) (sym e))
        ])

  open_found-forgotten :
      (s : State jni.Vm (Logged usb.Usb)) (r : Open.Search)
      → forgotten (Open.open_found jni (logging usb) r s) ≡ Open.open_found jni usb r (forget s)
  unfolding Open.open_found
  open_found-forgotten s (Open.found p) = refl
  open_found-forgotten s Open.missing = refl
  open_found-forgotten s Open.bad_pointer = refl
  open_found-forgotten s Open.out_of_rounds = refl

  open_device-forgotten :
      (devices fuel : ℕ) (dev : Ref) (s : State jni.Vm (Logged usb.Usb))
      → forgotten (Open.open_device jni (logging usb) devices fuel dev s)
        ≡ Open.open_device jni usb devices fuel dev (forget s)
  unfolding Open.open_device
  open_device-forgotten devices fuel dev s = elim (Bool-cases (s.busses == 0)) [
    | inl null ↦ rw (null, Open.open_device) refl
    | inr listed ↦ elim (Option-cases (s.references.fid Field.dev_dev_struct_addr)) [
      | inl no_id ↦ rw (listed, no_id, Open.open_device) refl
      | inr (i, id) ↦
          rw (listed, id, Open.open_device) (open_found-forgotten (clear_libusb_java_error s) _)
    ]
  ]

  perform-forgotten :
      (c : Call) (s : State jni.Vm (Logged usb.Usb))
      → forgotten (perform jni (logging usb) c s) ≡ perform jni usb c (forget s)
  unfolding perform Control.set_debug Control.init Control.find_busses Control.find_devices
      Control.close Control.reset Control.set_configuration Control.set_altinterface
      Control.clear_halt Control.claim_interface Control.release_interface Transfers.control_msg
      Strings.get_string Strings.get_string_simple Strings.get_descriptor
      Strings.get_descriptor_by_endpoint Strings.string_reply Transfers.bulk_write
      Transfers.bulk_read Transfers.interrupt_write Transfers.interrupt_read Errors.strerror
      Errors.error_text
  perform-forgotten (Call.get_busses devices fuel) s =
      referenced-forgotten _ (get_busses-forgotten devices fuel s)
  perform-forgotten (Call.open_device devices fuel dev) s =
      computed-forgotten _ (open_device-forgotten devices fuel dev s)
  perform-forgotten c s = ground arith

  run-forgotten :
      (cs : List Call) (s : State jni.Vm (Logged usb.Usb))
      → forgotten (run jni (logging usb) cs s) ≡ run jni usb cs (forget s)
  unfolding run
  run-forgotten [] s = refl
  run-forgotten (c ∷ cs) s =
      after-forgotten (perform jni (logging usb) c s) _ _ (perform-forgotten c s)
        λ r t. after-forgotten (run jni (logging usb) cs t) _ _ (run-forgotten cs t) λ rs u. refl

  -- Libusb may log the calls that it gets: for any sequence of calls, the replies and the state, the
  -- log apart, are the same with the log as without it. Whatever libusb and the virtual machine
  -- answer, if the calls return, the log has grown by the requests of the abstract machine: one for
  -- each call, with the handle and the numbers of the call, and the types and indices of
  -- descriptors as bytes; but none for `usb_strerror`, `usb_error_no` and, once a configuration was
  -- sent, `usb_set_configuration`; and one or none for `usb_get_busses` and `usb_open`.
  pub run-sends :
      (cs : List Call) (s : State jni.Vm (Logged usb.Usb))
      → (forgotten (run jni (logging usb) cs s) ≡ run jni usb cs (forget s))
        × After
            (λ rs s'. Session s.config_done cs s.usb.log s'.usb.log)
            (run jni (logging usb) cs s)
  run-sends cs s = (run-forgotten cs s, run-Session jni usb cs s)
