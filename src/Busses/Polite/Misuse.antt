-- ===== src/Busses/Polite/Misuse.antt =====
-- Results that `usb_get_busses` of LibusbJava.c does not test, on a virtual machine that notes how it
-- is used.
use owon_vds.Base.{ℕ, ◌≡◌, true, none, List, [], ◌∷◌, arith, ap}
use owon_vds.Jni.Api.{Jni, Ref}
use owon_vds.Jni.Watch.{watch, is_null}
use owon_vds.Native.Fields.{Field}
use owon_vds.Native.Names.{field_name, field_signature}
use owon_vds.Native.State.{References}
use owon_vds.Busses.Action.{Step, ok, put, put_string}
use owon_vds.Busses.References.{find_fields}
use owon_vds.Busses.Puts.{IsResolved}
use owon_vds.Busses.Polite.{Machine}

module _ (jni : Jni) where
  -- The step goes on, and a function was called while an exception was pending.
  abbrev pub GoesOnMisused : {A : Type 0} → Step (Machine jni) A → Type 0
  GoesOnMisused (ok a w) = w.misused ≡ true
  GoesOnMisused _ = ⊥

  find_fields-misused :
      (class : Ref) (l : List Field) (refs : References) (w : Machine jni)
      → w.misused ≡ true
      → (find_fields (watch jni) class l refs w).1.misused ≡ true
  unfolding find_fields
  find_fields-misused class [] refs w h = h
  find_fields-misused class (f ∷ l) refs w h = find_fields-misused class l _ _ (ground (arith, h))

  put_string-misused :
      {refs : References} (res : IsResolved refs) (o : Ref) (f : Field) (text : List ℕ)
      (v : Machine jni)
      → (jni.new_string_utf text v.machine).0 ≡ none
      → GoesOnMisused (put_string (watch jni) refs o f text v)
  unfolding put_string put
  put_string-misused res o f text v refused =
      rw (refused, put_string) (rw (res.fields f, put) (ground (arith, ap is_null refused)))

  -- Two results are not tested. Where the IDs are resolved and the virtual machine refuses the
  -- string of a name, `SetObjectField` is called all the same, and where it does not find a field
  -- that is not the last of its class, the next one is looked up: a function is called while an
  -- exception is pending, and the code goes on.
  pub untested-misused :
      {refs : References} (res : IsResolved refs) (o : Ref) (h f g : Field) (text : List ℕ)
      (l : List Field) (class : Ref) (v : Machine jni)
      → (jni.new_string_utf text v.machine).0 ≡ none
      → (jni.get_field_id class (field_name f) (field_signature f) v.machine).0 ≡ none
      → GoesOnMisused (put_string (watch jni) refs o h text v)
        × ((find_fields (watch jni) class (f ∷ g ∷ l) refs v).1.misused ≡ true)
  unfolding find_fields
  untested-misused {refs} res o h f g text l class v refused missing = (
    put_string-misused res o h text v refused,
    find_fields-misused class l _ _ (ground (arith, ap is_null missing)),
  )
