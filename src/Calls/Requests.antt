-- ===== src/Calls/Requests.antt =====
-- The requests that libusb gets from sequences of calls of the native methods of LibusbJava.c.
use owon_vds.Base.{
  ℕ, ◌≡◌, refl, ap, ◌⊎◌, inl, inr, Option, none, some, List, [], ◌∷◌, arith, ◌==◌, if◌then◌else◌,
  Bool-cases, Option-cases, subst,
}
use owon_vds.Base.Int.{of_jlong, of_jint, of_jbyte, of_jint-mod-of_jbyte}
use owon_vds.Libusb.Structs.{Ptr}
use owon_vds.Libusb.Api.{Libusb}
use owon_vds.Libusb.Logging.{Request, Logged, logging}
use owon_vds.Jni.Api.{Jni, Ref}
use owon_vds.Native.Fields.{Field}
use owon_vds.Native.State.{State, Outcome, returned, clear_libusb_java_error}
use owon_vds.Busses.Action.{Step, ok, leave}
use owon_vds.Busses.Get.{finish, copy_busses, find_references, get_busses}
use owon_vds.Handlers.Transfers
use owon_vds.Handlers.Strings
use owon_vds.Handlers.Control
use owon_vds.Handlers.Errors
use owon_vds.Handlers.Open
use owon_vds.Calls.{Call, perform, referenced, computed, run}
use owon_vds.Calls.Effects.{After, After-after}

-- What one call may send, by the log before and after it, if `configured` configurations were sent.
abbrev pub Sends : (configured : ℕ) → Call → (log log' : List Request) → Type 0
Sends k (Call.set_debug level) l l' = l' ≡ Request.set_debug level ∷ l
Sends k Call.init l l' = l' ≡ Request.init ∷ l
Sends k Call.find_busses l l' = l' ≡ Request.find_busses ∷ l
Sends k Call.find_devices l l' = l' ≡ Request.find_devices ∷ l
Sends k (Call.get_busses _ _) l l' = (l' ≡ l) ⊎ (l' ≡ Request.get_busses ∷ l)
Sends k (Call.open_device _ _ _) l l' = (l' ≡ l) ⊎ ((p : Ptr) × (l' ≡ Request.open_device p ∷ l))
Sends k (Call.close h) l l' = l' ≡ Request.close (of_jlong h) ∷ l
Sends k (Call.reset h) l l' = l' ≡ Request.reset (of_jlong h) ∷ l
Sends k (Call.set_configuration h c) l l' =
    l' ≡ (if k == 0 then Request.set_configuration (of_jlong h) c ∷ l else l)
Sends k (Call.set_altinterface h a) l l' = l' ≡ Request.set_altinterface (of_jlong h) a ∷ l
Sends k (Call.clear_halt h ep) l l' = l' ≡ Request.clear_halt (of_jlong h) (of_jint ep) ∷ l
Sends k (Call.claim_interface h i) l l' = l' ≡ Request.claim_interface (of_jlong h) i ∷ l
Sends k (Call.release_interface h i) l l' = l' ≡ Request.release_interface (of_jlong h) i ∷ l
Sends k (Call.control_msg h t r v i a n w) l l' =
    l' ≡ Request.control_msg (of_jlong h) t r v i n w ∷ l
Sends k (Call.get_string b h i lang) l l' = l' ≡ Request.get_string (of_jlong h) i lang 256 ∷ l
Sends k (Call.get_string_simple b h i) l l' = l' ≡ Request.get_string_simple (of_jlong h) i 256 ∷ l
Sends k (Call.get_descriptor b h t i n) l l' =
    l' ≡ Request.get_descriptor (of_jlong h) (of_jbyte t) (of_jbyte i) n ∷ l
Sends k (Call.get_descriptor_by_endpoint b h ep t i n) l l' =
    l' ≡ Request.get_descriptor_by_endpoint (of_jlong h) ep (of_jbyte t) (of_jbyte i) n ∷ l
Sends k (Call.bulk_write h ep a n w) l l' = l' ≡ Request.bulk_write (of_jlong h) ep n w ∷ l
Sends k (Call.interrupt_write h ep a n w) l l' =
    l' ≡ Request.interrupt_write (of_jlong h) ep n w ∷ l
Sends k (Call.bulk_read b h ep a n w) l l' = l' ≡ Request.bulk_read (of_jlong h) ep n w ∷ l
Sends k (Call.interrupt_read b h ep a n w) l l' =
    l' ≡ Request.interrupt_read (of_jlong h) ep n w ∷ l
Sends k Call.strerror l l' = l' ≡ l
Sends k (Call.error_no n) l l' = l' ≡ l

-- The abstract state: whether a configuration was sent.
abbrev pub next_configured : ℕ → Call → ℕ
next_configured k (Call.set_configuration h c) = if k == 0 then 1 else k
next_configured k _ = k

-- The abstract machine: the calls in turn, from one log to another.
pub data Session : (configured : ℕ) → List Call → (log log' : List Request) → Type 0 where
  over : {k : ℕ} {l : List Request} → Session k [] l l
  call :
      {k : ℕ} {c : Call} {cs : List Call} {l m n : List Request}
      → Sends k c l m
      → Session (next_configured k c) cs m n
      → Session k (c ∷ cs) l n

module _ (jni : Jni) (usb : Libusb) where
  abbrev LoggedState : Type 0
  LoggedState = State jni.Vm (Logged usb.Usb)

  -- One call as the abstract machine makes it.
  pub record Sent (c : Call) (s s' : LoggedState) : Type 0 where
    pub sends : Sends s.config_done c s.usb.log s'.usb.log
    pub configured : s'.config_done ≡ next_configured s.config_done c

  -- `usb_get_busses` sends one request at most.
  record Asked (s s' : LoggedState) : Type 0 where
    sends : (s'.usb.log ≡ s.usb.log) ⊎ (s'.usb.log ≡ Request.get_busses ∷ s.usb.log)
    configured : s'.config_done ≡ s.config_done

  finish-Asked :
      (s t : LoggedState) (r : Step jni.Vm (Option Ref))
      → Asked s t
      → After (λ _ s'. Asked s s') (finish t r)
  unfolding finish
  finish-Asked s t (ok r v) h = record { sends = h.sends; configured = h.configured }
  finish-Asked s t (leave r none v) h = record { sends = h.sends; configured = h.configured }
  finish-Asked s t (leave r (some m) v) h = record { sends = h.sends; configured = h.configured }
  finish-Asked s t Step.fault h = tt
  finish-Asked s t Step.out_of_fuel h = tt

  copy_busses-Asked :
      (devices fuel : ℕ) (s t : LoggedState)
      → t.usb ≡ s.usb
      → t.config_done ≡ s.config_done
      → After (λ _ s'. Asked s s') (copy_busses jni (logging usb) devices fuel t)
  unfolding copy_busses
  copy_busses-Asked devices fuel s t same kept =
      let (p, u) = (logging usb).usb_get_busses t.usb in
      let h : Asked s (record t { usb = u; busses = p }) = record {
        sends = inr (ap (λ w. Request.get_busses ∷ w.log) same);
        configured = kept;
      } in
      elim (Bool-cases (p == 0)) [
        | inl e ↦ rw (e, copy_busses) h
        | inr e ↦ rw (e, copy_busses) (finish-Asked s (record t { usb = u; busses = p }) _ h)
      ]

  find_references-same :
      (s : LoggedState)
      → let t = (find_references jni (logging usb) (clear_libusb_java_error s)).1 in
        (t.usb ≡ s.usb) × (t.config_done ≡ s.config_done)
  unfolding find_references
  find_references-same s = elim (Bool-cases (s.java_references_loaded == 0)) [
    | inl e ↦ rw (e, find_references) (refl, refl)
    | inr e ↦ rw (e, find_references) (refl, refl)
  ]

  get_busses-Asked :
      (devices fuel : ℕ) (s : LoggedState)
      → After (λ _ s'. Asked s s') (get_busses jni (logging usb) devices fuel s)
  unfolding get_busses
  get_busses-Asked devices fuel s =
      let (found, t) = find_references jni (logging usb) (clear_libusb_java_error s) in
      let (same, kept) = find_references-same s in
      elim (Bool-cases found) [
        | inl e ↦ rw (e, get_busses) (copy_busses-Asked devices fuel s t same kept)
        | inr e ↦
            rw (e, get_busses) (record { sends = inl (ap (λ w. w.log) same); configured = kept })
      ]

  get_busses-Sent :
      (devices fuel : ℕ) (s : LoggedState) (r : Outcome LoggedState (Option Ref))
      → After (λ _ s'. Asked s s') r
      → After (λ _ s'. Sent (Call.get_busses devices fuel) s s') (referenced r)
  get_busses-Sent devices fuel s (returned r s') h = record {
    sends = h.sends;
    configured = h.configured;
  }
  get_busses-Sent devices fuel s Outcome.fault h = tt
  get_busses-Sent devices fuel s Outcome.out_of_fuel h = tt

  open_found-Sent :
      (devices fuel : ℕ) (dev : Ref) (s t : LoggedState) (r : Open.Search)
      → t.usb.log ≡ s.usb.log
      → t.config_done ≡ s.config_done
      → After
          (λ _ s'. Sent (Call.open_device devices fuel dev) s s')
          (computed (Open.open_found jni (logging usb) r t))
  unfolding Open.open_found
  open_found-Sent devices fuel dev s t (Open.found p) same kept = record {
    sends = inr (p, ap (λ l. Request.open_device p ∷ l) same);
    configured = kept;
  }
  open_found-Sent devices fuel dev s t Open.missing same kept = record {
    sends = inl same;
    configured = kept;
  }
  open_found-Sent devices fuel dev s t Open.bad_pointer same kept = tt
  open_found-Sent devices fuel dev s t Open.out_of_rounds same kept = tt

  open_device-Sent :
      (devices fuel : ℕ) (dev : Ref) (s : LoggedState)
      → After
          (λ _ s'. Sent (Call.open_device devices fuel dev) s s')
          (computed (Open.open_device jni (logging usb) devices fuel dev s))
  unfolding Open.open_device
  open_device-Sent devices fuel dev s = elim (Bool-cases (s.busses == 0)) [
    | inl null ↦ rw (null, Open.open_device) (record { sends = inl refl; configured = refl })
    | inr listed ↦ elim (Option-cases (s.references.fid Field.dev_dev_struct_addr)) [
      | inl no_id ↦ rw (listed, no_id, Open.open_device) tt
      | inr (i, id) ↦
          rw (listed, id, Open.open_device)
            (open_found-Sent devices fuel dev s (clear_libusb_java_error s) _ refl refl)
    ]
  ]

  pub perform-Sent :
      (c : Call) (s : LoggedState) → After (λ _ s'. Sent c s s') (perform jni (logging usb) c s)
  unfolding perform Control.set_debug Control.init Control.find_busses Control.find_devices
      Control.close Control.reset Control.set_configuration Control.set_altinterface
      Control.clear_halt Control.claim_interface Control.release_interface Transfers.control_msg
      Strings.get_string Strings.get_string_simple Strings.get_descriptor
      Strings.get_descriptor_by_endpoint Strings.string_reply Transfers.bulk_write
      Transfers.bulk_read Transfers.interrupt_write Transfers.interrupt_read Errors.strerror
  perform-Sent (Call.get_busses devices fuel) s =
      get_busses-Sent devices fuel s _ (get_busses-Asked devices fuel s)
  perform-Sent (Call.open_device devices fuel dev) s = open_device-Sent devices fuel dev s
  perform-Sent (Call.get_descriptor b h t i n) s =
      ground (arith, of_jint-mod-of_jbyte t, of_jint-mod-of_jbyte i)
  perform-Sent (Call.get_descriptor_by_endpoint b h ep t i n) s =
      ground (arith, of_jint-mod-of_jbyte t, of_jint-mod-of_jbyte i)
  perform-Sent c s = ground arith

  pub run-Session :
      (cs : List Call) (s : LoggedState)
      → After (λ rs s'. Session s.config_done cs s.usb.log s'.usb.log) (run jni (logging usb) cs s)
  unfolding run
  run-Session [] s = Session.over
  run-Session (c ∷ cs) s =
      After-after _ _ (perform jni (logging usb) c s) (perform-Sent c s) λ r t e.
        After-after _ _ (run jni (logging usb) cs t) (run-Session cs t) λ rs s' h.
          Session.call e.sends (subst (λ k. Session k cs t.usb.log s'.usb.log) e.configured h)
