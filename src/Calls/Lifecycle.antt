-- ===== src/Calls/Lifecycle.antt =====
-- The use of a device through the native methods of LibusbJava.c: it is opened, configured, used, and
-- closed.
use owon_vds.Base.{false, ◌∙◌, none, ℕ, suc, ◌≡◌, refl, ap, some, List, [], ◌∷◌, arith, length, ◌<◌}
use mathlib.Core.List.{Memᴰ}
use owon_vds.Base.Int.{ℤ, pos, to_jlong, of_jlong-to_jlong}
use owon_vds.Libusb.Structs.{Ptr}
use owon_vds.Libusb.Api.{Libusb, Buffer}
use owon_vds.Libusb.Logging.{Request, Logged, logging}
use owon_vds.Jni.Api.{Jni, Ref, extent}
use owon_vds.Jni.Laws.{KeepsLengths}
use owon_vds.Native.Fields.{Field}
use owon_vds.Native.State.{State, Outcome, returned}
use owon_vds.Busses.DeviceTree.{All, BusChain}
use owon_vds.Busses.BusList.{Topology}
use owon_vds.Busses.Refinement.{Ended}
use owon_vds.Handlers.Transfers
use owon_vds.Handlers.Transfers.{malloc, exceeds}
use owon_vds.Handlers.Control
use owon_vds.Handlers.OpenSearch.{all_addresses, HasRounds}
use owon_vds.Handlers.OpenLaws.{IsAddress, open_device-opens}
use owon_vds.Calls.{numbered, Call, Reply, perform, after, run}
use owon_vds.Calls.Uses.{
  Use, claim, release, set_altinterface, clear_halt, reset, bulk_write, interrupt_write, bulk_read,
  interrupt_read, call_of, request_of, uses_of, log_of,
}

Ended-after :
    {S A B : Type 0} {P : A → S → Type 0} (Q : B → S → Type 0) (k : A → S → Outcome S B)
    (r : Outcome S A)
    → Ended P r
    → ((a : A) (s : S) → P a s → Ended Q (k a s))
    → Ended Q (after r k)
Ended-after Q k (returned a s) h next = next a s h
Ended-after Q k Outcome.fault h next = absurd h
Ended-after Q k Outcome.out_of_fuel h next = absurd h

module _ (jni : Jni) (usb : Libusb) where
  abbrev LoggedState : Type 0
  LoggedState = State jni.Vm (Logged usb.Usb)

  -- A write sends no more bytes than its array has.
  abbrev pub Fits : jni.Vm → Use → Type 0
  Fits v (bulk_write ep a n w) = exceeds n (jni.get v a extent) ≡ false
  Fits v (interrupt_write ep a n w) = exceeds n (jni.get v a extent) ≡ false
  Fits v x = Unit

  abbrev SameLengths : jni.Vm → jni.Vm → Type 0
  SameLengths v w = (p : Ref) → jni.get w p extent ≡ jni.get v p extent

  Fits-SameLengths : (v w : jni.Vm) (x : Use) → SameLengths v w → Fits v x → Fits w x
  Fits-SameLengths v w (bulk_write ep a n t) same h = rw (same a) h
  Fits-SameLengths v w (interrupt_write ep a n t) same h = rw (same a) h
  Fits-SameLengths v w (claim i) same h = tt
  Fits-SameLengths v w (release i) same h = tt
  Fits-SameLengths v w (set_altinterface i) same h = tt
  Fits-SameLengths v w (clear_halt i) same h = tt
  Fits-SameLengths v w reset same h = tt
  Fits-SameLengths v w (bulk_read b ep a n t) same h = tt
  Fits-SameLengths v w (interrupt_read b ep a n t) same h = tt

  All-Fits : (v w : jni.Vm) (xs : List Use) → SameLengths v w → All (Fits v) xs → All (Fits w) xs
  All-Fits v w [] same h = tt
  All-Fits v w (x ∷ xs) same (h, hs) = (Fits-SameLengths v w x same h, All-Fits v w xs same hs)

  module _ (keeps : KeepsLengths jni) where
    written_lengths :
        (a : Ref) (v : jni.Vm)
        → let (b, w) = jni.get_byte_array_elements a v in
          SameLengths v (jni.release_byte_array_elements a b w)
    written_lengths a v p =
        keeps.release_byte_array_elements a p _ _ ∙ keeps.get_byte_array_elements a p v

    -- The request is made, and arrays keep their lengths.
    abbrev Requested : Request → LoggedState → Reply → LoggedState → Type 0
    Requested q s _ s' = (s'.usb.log ≡ q ∷ s.usb.log) × SameLengths s.vm s'.vm

    read_with-Requested :
        (h : Ptr) {q : Request} (block : Buffer) (a : Ref) (n : ℤ) (s : LoggedState)
        (receive : Buffer → Logged usb.Usb → ℤ × List ℕ × Logged usb.Usb)
        → ((b : Buffer) (u : Logged usb.Usb) → (receive b u).2.log ≡ q ∷ u.log)
        → Ended
            (Requested q s)
            (numbered (Transfers.read_with jni (logging usb) receive block a n s))
    read_with-Requested h none a n s receive logs = (logs none s.usb, λ p. refl)
    read_with-Requested h (some l) a n s receive logs =
        (logs (some l) s.usb, λ p. keeps.set_byte_array_region a p (pos 0) n _ s.vm)

    perform-request_of :
        (h : Ptr) (x : Use) (s : LoggedState)
        → IsAddress h
        → Fits s.vm x
        → Ended
            (Requested (request_of h x) s)
            (perform jni (logging usb) (call_of (to_jlong h) x) s)
    unfolding perform Control.close Control.reset Control.set_altinterface Control.clear_halt
        Control.claim_interface Control.release_interface Transfers.bulk_write Transfers.bulk_read
        Transfers.interrupt_write Transfers.interrupt_read
    perform-request_of h (claim i) s word fits = rw (of_jlong-to_jlong h word) (refl, λ p. refl)
    perform-request_of h (release i) s word fits = rw (of_jlong-to_jlong h word) (refl, λ p. refl)
    perform-request_of h (set_altinterface i) s word fits =
        rw (of_jlong-to_jlong h word) (refl, λ p. refl)
    perform-request_of h (clear_halt i) s word fits =
        rw (of_jlong-to_jlong h word) (refl, λ p. refl)
    perform-request_of h reset s word fits = rw (of_jlong-to_jlong h word) (refl, λ p. refl)
    perform-request_of h (bulk_write ep a n t) s word fits =
        rw (fits, of_jlong-to_jlong h word) (refl, written_lengths a s.vm)
    perform-request_of h (interrupt_write ep a n t) s word fits =
        rw (fits, of_jlong-to_jlong h word) (refl, written_lengths a s.vm)
    perform-request_of h (bulk_read memory ep a n t) s word fits = rw (of_jlong-to_jlong h word) (
        read_with-Requested h (malloc memory n) a n s (λ b. (logging usb).usb_bulk_read h ep b n t)
          (λ b u. refl))
    perform-request_of h (interrupt_read memory ep a n t) s word fits =
        rw (of_jlong-to_jlong h word) (
          read_with-Requested h (malloc memory n) a n s
            (λ b. (logging usb).usb_interrupt_read h ep b n t) (λ b u. refl))

  -- The calls return, with a reply to each, and the log has grown by the requests.
  abbrev pub Served : ℕ → (log : List Request) → List Reply → LoggedState → Type 0
  Served n log rs s = (length rs ≡ n) × (s.usb.log ≡ log)

  perform-configures :
      (h : Ptr) (c : ℤ) (s : LoggedState)
      → IsAddress h
      → s.config_done ≡ 0
      → Ended
          (λ _ s'. (s'.usb.log ≡ Request.set_configuration h c ∷ s.usb.log) × (s'.vm ≡ s.vm))
          (perform jni (logging usb) (Call.set_configuration (to_jlong h) c) s)
  unfolding perform Control.set_configuration
  perform-configures h c s word unset = ground (arith, unset, of_jlong-to_jlong h word)

  -- The rest of a run, once its first call has returned.
  run-continues :
      {P : Reply → LoggedState → Type 0} (c : Call) (cs : List Call) (n : ℕ) (log : List Request)
      (s : LoggedState)
      → Ended P (perform jni (logging usb) c s)
      → ((r : Reply) (t : LoggedState) → P r t → Ended (Served n log) (run jni (logging usb) cs t))
      → Ended (Served (suc n) log) (run jni (logging usb) (c ∷ cs) s)
  unfolding run
  run-continues c cs n log s first next =
      Ended-after _ _ (perform jni (logging usb) c s) first λ r t p.
        Ended-after _ _ (run jni (logging usb) cs t) (next r t p) λ rs s' (len, l). (ap suc len, l)

  run-Served :
      (keeps : KeepsLengths jni) (h : Ptr) (xs : List Use) (s : LoggedState)
      → IsAddress h
      → All (Fits s.vm) xs
      → Ended
          (Served (suc (length xs)) (log_of h xs s.usb.log))
          (run jni (logging usb) (uses_of (to_jlong h) xs) s)
  unfolding run perform Control.close
  run-Served keeps h [] s word fits =
      (refl, ap (λ k. Request.close k ∷ s.usb.log) (of_jlong-to_jlong h word))
  run-Served keeps h (x ∷ xs) s word (fits, rest) =
      run-continues (call_of (to_jlong h) x) (uses_of (to_jlong h) xs) _ _ s
        (perform-request_of keeps h x s word fits)
        λ r t (e, same). rw⁻¹ e (run-Served keeps h xs t word (All-Fits s.vm t.vm xs same rest))

  -- Libusb may log the calls that it gets. Where its lists end within the rounds given, the ID of the
  -- address field is known, no configuration was sent before, arrays keep their lengths, and
  -- addresses and the handle are words of 64 bits: if the Java object holds the address of a device,
  -- then the calls that open it, set its configuration with the number that `usb_open` returned,
  -- then claim and release interfaces, choose alternate settings, clear halts, reset the device, and
  -- make bulk and interrupt transfers with that number, in any order and any number of them, where
  -- no write sends more than its array holds, and at last close it, all return; and libusb got
  -- exactly the requests for this: to open that device, and, to the handle that it gave, the
  -- configuration, the others in their order, and the close.
  pub run-serves :
      (keeps : KeepsLengths jni) (devices fuel : ℕ) (dev : Ref) (s : LoggedState) (i : ℕ)
      (l : Topology) (p : Ptr) (configuration : ℤ) (xs : List Use)
      → s.references.fid Field.dev_dev_struct_addr ≡ some i
      → BusChain (usb.bus_at s.usb.inner) (usb.device_at s.usb.inner) s.busses l
      → All (HasRounds devices) l
      → length l < fuel
      → IsAddress p
      → All IsAddress (all_addresses l)
      → Memᴰ p (all_addresses l)
      → jni.get_long_field dev i s.vm ≡ to_jlong p
      → s.config_done ≡ 0
      → All (Fits s.vm) xs
      → let h = (usb.usb_open p s.usb.inner).0 in
        IsAddress h
        → Ended
            (Served (suc (suc (suc (length xs)))) (
              log_of h xs
                (Request.set_configuration h configuration ∷ Request.open_device p ∷ s.usb.log)))
            (run jni
              (logging usb)
              (Call.open_device devices fuel dev
                ∷ Call.set_configuration (to_jlong h) configuration
                ∷ uses_of (to_jlong h) xs)
              s)
  unfolding perform
  run-serves keeps devices fuel dev s i l p configuration xs id chain enough lt word words mem same
        unset fits small =
      let (h, u) = (logging usb).usb_open p s.usb in
      let opened =
        open_device-opens jni (logging usb) devices fuel dev s i id l chain enough lt p word words
          mem same in
      let Opened : Reply → LoggedState → Type 0 = λ r t.
        (t.usb.log ≡ Request.open_device p ∷ s.usb.log) × (t.config_done ≡ 0) × (t.vm ≡ s.vm) in
      run-continues {P = Opened} (Call.open_device devices fuel dev) _ _ _ s
        (rw opened (refl, unset, refl))
        λ r t (e, unset', kept).
          let Configured : Reply → LoggedState → Type 0 = λ _ t'.
            (t'.usb.log ≡ Request.set_configuration h configuration ∷ t.usb.log) × (t'.vm ≡ t.vm) in
          run-continues {P = Configured} (Call.set_configuration (to_jlong h) configuration)
            (uses_of (to_jlong h) xs) _ _ t (perform-configures h configuration t small unset')
            λ r' t' (e', kept').
              rw⁻¹ e (rw⁻¹ e' (run-Served keeps h xs t' small (rw (kept' ∙ kept) fits)))
