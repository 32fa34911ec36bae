-- ===== src/Calls/Configured.antt =====
-- How often libusb is asked to set a configuration by sequences of calls of the native methods of
-- LibusbJava.c, by the log of the calls that it gets.
use owon_vds.Base.{
  ℕ, ◌+◌, ◌≤◌, ◌≡◌, refl, ap, List, [], ◌∷◌, arith, inl, inr, ◌==◌, ◌∙◌, sym, Bool-cases,
}
use owon_vds.Libusb.Api.{Libusb}
use owon_vds.Libusb.Logging.{Request, Logged, logging}
use owon_vds.Jni.Api.{Jni}
use owon_vds.Native.State.{State, Outcome, returned}
use owon_vds.Calls.{Call, Reply, perform, run}
use owon_vds.Calls.Effects.{After, After-after, After-map, Effect, perform-Effect}
use owon_vds.Calls.Requests.{Sends, perform-Sent, next_configured}

-- The requests of the log that set a configuration.
abbrev pub configurations : List Request → ℕ
configurations [] = 0
configurations (Request.set_configuration h c ∷ l) = configurations l + 1
configurations (_ ∷ l) = configurations l

-- The configurations that a call sends are those by which the flag grows.
Sends-configurations :
    (k : ℕ) (c : Call) (l m : List Request)
    → Sends k c l m
    → configurations m + k ≡ configurations l + next_configured k c
Sends-configurations k (Call.get_busses _ _) l m (inl e) = rw e refl
Sends-configurations k (Call.get_busses _ _) l m (inr e) = rw e refl
Sends-configurations k (Call.open_device _ _ _) l m (inl e) = rw e refl
Sends-configurations k (Call.open_device _ _ _) l m (inr (p, e)) = rw e refl
Sends-configurations k (Call.set_configuration h c) l m e =
    rw e (elim (Bool-cases (k == 0)) [ inl z ↦ rw z (ground arith) | inr z ↦ rw z refl ])
Sends-configurations k (Call.strerror) l m e = rw e refl
Sends-configurations k (Call.error_no n) l m e = rw e refl
Sends-configurations k c l m e = ground arith

After-both :
    {S A : Type 0} (P Q : A → S → Type 0) (r : Outcome S A)
    → After P r
    → After Q r
    → After (λ a s. P a s × Q a s) r
After-both P Q (returned a s) p q = (p, q)
After-both P Q Outcome.fault p q = tt
After-both P Q Outcome.out_of_fuel p q = tt

module _ (jni : Jni) (usb : Libusb) where
  -- What one call does to the variables, with the configurations that libusb was asked for.
  pub record Accounts (c : Call) (s : State jni.Vm (Logged usb.Usb)) (r : Reply)
      (s' : State jni.Vm (Logged usb.Usb)) : Type 0 where
    pub effect : Effect c s r s'
    pub sent : configurations s'.usb.log + s.config_done ≡ configurations s.usb.log + s'.config_done

  -- Whatever a call is given, on a libusb that logs its calls, if it returns: the count of blocks
  -- grows by the block that `malloc` gives a descriptor request, if any, and by nothing else, since
  -- the reads free theirs; the flag of `usb_set_configuration` grows by as many as there are new requests to set a
  -- configuration in the log, and no call but one that replies with a number raises it; the flag of
  -- the lookups stays; only `usb_get_busses` changes the list of busses; and no error stands, unless
  -- the call is `usb_get_busses`, `usb_open`, `usb_set_configuration` or `usb_error_no`.
  pub perform-Accounts :
      (c : Call) (s : State jni.Vm (Logged usb.Usb))
      → After (Accounts c s) (perform jni (logging usb) c s)
  perform-Accounts c s =
      After-map _ (perform jni (logging usb) c s)
        (After-both _ _ (perform jni (logging usb) c s) (perform-Effect jni (logging usb) c s)
          (perform-Sent jni usb c s))
        λ r s' (e, h). record {
          effect = e;
          sent =
              Sends-configurations s.config_done c s.usb.log s'.usb.log h.sends
              ∙ ap (λ k. configurations s.usb.log + k) (sym h.configured);
        }

  -- The flag is 0 or 1, and has grown as the requests in the log have.
  record Counts (s s' : State jni.Vm (Logged usb.Usb)) : Type 0 where
    bounded : s.config_done ≤ 1 → s'.config_done ≤ 1
    sent : configurations s'.usb.log + s.config_done ≡ configurations s.usb.log + s'.config_done

  run-Counts :
      (cs : List Call) (s : State jni.Vm (Logged usb.Usb))
      → After (λ _ s'. Counts s s') (run jni (logging usb) cs s)
  unfolding run
  run-Counts [] s = record { bounded = λ le. le; sent = refl }
  run-Counts (c ∷ cs) s =
      After-after _ _ (perform jni (logging usb) c s) (perform-Accounts c s) λ r t a.
        After-after _ _ (run jni (logging usb) cs t) (run-Counts cs t) λ rs s' h. record {
          bounded = λ le. h.bounded (a.effect.bounded le);
          sent = ground (arith, a.sent, h.sent);
        }

  -- From a state in which nothing was configured yet, such as the one in which the library is
  -- loaded, on a libusb that logs its calls: however the calls are ordered, and whatever handles they
  -- name, if they return, the log has grown by one request to set a configuration at most, and the
  -- flag counts it.
  pub run-configures_once :
      (cs : List Call) (s : State jni.Vm (Logged usb.Usb))
      → s.config_done ≡ 0
      → After
          (λ rs s'.
            (configurations s'.usb.log ≤ configurations s.usb.log + 1)
            × (configurations s'.usb.log ≡ configurations s.usb.log + s'.config_done))
          (run jni (logging usb) cs s)
  run-configures_once cs s fresh =
      After-map _ (run jni (logging usb) cs s) (run-Counts cs s) λ rs s' h.
        let le = h.bounded (omega arith) in (ground (arith, h.sent), ground (arith, h.sent))
