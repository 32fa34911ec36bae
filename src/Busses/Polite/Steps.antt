-- ===== src/Busses/Polite/Steps.antt =====
-- The single steps of `usb_get_busses` in LibusbJava.c on a virtual machine that notes how it is used.
use owon_vds.Base.{
  ℕ, ◌+◌, ◌<◌, ◌≡◌, ◌∙◌, refl, true, false, Option, none, some, List, [], ◌∷◌, arith, ltb, leb,
  length, take, Bool-cases, Option-cases, inl, inr, ◌≢◌,
}
use owon_vds.Base.Int.{ℤ, pos}
use owon_vds.Jni.Api.{Jni, Ref, Value, object, size, extent, field, element, contents, Slot}
use owon_vds.Jni.Laws.{Laws, HasRoom, RefusesNegative, IsCreated, IsWritten}
use owon_vds.Jni.Watch.{called, is_null, watch}
use owon_vds.Native.Fields.{JavaClass, Field}
use owon_vds.Native.State.{References, Message}
use owon_vds.Busses.Action.{
  or_give_up, put, puts, new, new_array, put_string, put_bytes, put_extra, set_element,
}
use owon_vds.Busses.Frame.{Written-extent}
use owon_vds.Busses.Polite.{
  Machine, IsCalm, Onward, Onward-refl, Polite, goes_on, leaves, faults, bind, Any, Born,
  called-IsCalm, then_Polite, Onward-trans, Created-Onward,
}

module _ (jni : Jni) (laws : Laws jni) (refs : References) where
  -- A creation whose result is tested at once.
  created-Polite :
      (r : Option Ref) (m : Message) (x : jni.Vm) (v : Machine jni) (P : Ref → Machine jni → Type 0)
      → IsCalm jni v
      → ((o : Ref) → r ≡ some o → IsCreated jni v.machine o x)
      → ((o : Ref) → r ≡ some o → P o (called false x v))
      → Polite jni v P (or_give_up r m (called (is_null r) x v))
  unfolding or_give_up
  created-Polite none m x v P calm made p = leaves (ground (arith, calm.misused, calm.pending))
  created-Polite (some o) m x v P calm made p =
      goes_on (Created-Onward jni calm (made o refl)) (p o refl)

  pub new-Polite :
      (c : JavaClass) (m : Message) (v : Machine jni)
      → IsCalm jni v
      → Polite jni v (Born jni) (new (watch jni) refs c m v)
  unfolding new
  new-Polite c m v calm = elim (Option-cases (refs.clazz c)) [
    | inl e ↦ rw (e, new) faults
    | inr (class, e) ↦ elim (Option-cases (refs.mid c)) [
      | inl e' ↦ rw (e, e', new) faults
      | inr (method, e') ↦
          rw (e, e', new)
            (created-Polite _ m _ v _ calm (laws.new_object class method v.machine)
              λ o h. (laws.new_object class method v.machine o h).born)
    ]
  ]

  -- The array exists, and is as long as was asked.
  abbrev pub BornArray : ℤ → Ref → Machine jni → Type 0
  BornArray n a w = (jni.live w.machine a ≡ true) × (jni.get w.machine a extent ≡ size n)

  pub new_array-Polite :
      (n : ℤ) (c : JavaClass) (m : Message) (v : Machine jni)
      → IsCalm jni v
      → Polite jni v (BornArray n) (new_array (watch jni) refs n c m v)
  unfolding new_array
  new_array-Polite n c m v calm = elim (Option-cases (refs.clazz c)) [
    | inl e ↦ rw (e, new_array) faults
    | inr (class, e) ↦
        rw (e, new_array)
          (created-Polite _ m _ v _ calm (λ a h. (laws.new_object_array n class v.machine a h).0)
            λ a h.
              let (made, len) = laws.new_object_array n class v.machine a h in (made.born, len))
  ]

  -- A write that raises nothing, to a slot that is no length.
  pub Written-Onward :
      {v : Machine jni} {o : Ref} (s : Slot) {x : Value} {u : jni.Vm}
      → IsCalm jni v
      → extent ≢ s
      → IsWritten jni v.machine o s x u
      → Onward jni v (called false u v)
  Written-Onward {v} {o} s {u} calm ne wrote = record {
    calm = called-IsCalm jni false u refl calm;
    live = λ p h. wrote.keeps_live p ∙ h;
    extents = λ p h. Written-extent jni ne wrote p;
  }

  pub put-Polite :
      (o : Ref) (f : Field) (x : Value) (v : Machine jni)
      → IsCalm jni v
      → jni.live v.machine o ≡ true
      → Polite jni v (Any jni) (put (watch jni) refs o f x v)
  unfolding put
  put-Polite o f x v calm there = elim (Option-cases (refs.fid f)) [
    | inl e ↦ rw (e, put) faults
    | inr (i, e) ↦
        rw (e, put)
          (goes_on (Written-Onward (field i) calm (λ q. cc) (laws.set_field o i x v.machine there))
            tt)
  ]

  pub puts-Polite :
      (o : Ref) (l : List (Field × Value)) (v : Machine jni)
      → IsCalm jni v
      → jni.live v.machine o ≡ true
      → Polite jni v (Any jni) (puts (watch jni) refs o l v)
  unfolding puts
  puts-Polite o [] v calm there = goes_on (Onward-refl jni calm) tt
  puts-Polite o ((f, x) ∷ l) v calm there =
      bind jni (put-Polite o f x v calm there)
        λ _ w on _. puts-Polite o l w on.calm (on.live o there)

  pub set_element-Polite :
      (a : Ref) (i n : ℕ) (o : Ref) (v : Machine jni)
      → IsCalm jni v
      → jni.live v.machine a ≡ true
      → jni.get v.machine a extent ≡ size (pos n)
      → i < n
      → Polite jni v (Any jni) (set_element (watch jni) refs a i o v)
  unfolding set_element
  set_element-Polite a i n o v calm there len lt =
      let e : ltb i n ≡ true = ground arith in
      rw (len, e)
        (goes_on
          (Written-Onward (element i) calm (λ q. cc)
            (laws.set_object_array_element a i n (some o) v.machine there len lt))
          tt)

  module _ (o : Ref) (f : Field) (v : Machine jni) (calm : IsCalm jni v)
      (there : jni.live v.machine o ≡ true) where
    pub put_string-Polite :
        (room : HasRoom jni) (l : List ℕ)
        → Polite jni v (Any jni) (put_string (watch jni) refs o f l v)
    unfolding put_string
    put_string-Polite room l =
        let (s, e) = room.string l v.machine in
        let (made, _) = laws.new_string_utf l v.machine s e in
        let on = Created-Onward jni calm made in
        rw (e, put_string)
          (then_Polite jni on (put-Polite o f (object (some s)) _ on.calm (on.live o there)))

    -- A byte array of the length that is then written whole.
    region-Onward :
        (n : ℕ) (a : Ref) (l : List ℕ) (w : Machine jni)
        → IsCalm jni w
        → jni.live w.machine a ≡ true
        → jni.get w.machine a extent ≡ size (pos n)
        → Onward jni w ((watch jni).set_byte_array_region a (pos 0) (pos n) l w)
    region-Onward n a l w calm_w born len =
        let e : leb (0 + n) n ≡ true = ground arith in
        rw (len, e)
          (Written-Onward contents calm_w (λ q. cc)
            (laws.set_byte_array_region a (pos n) l w.machine born len))

    put_bytes-Polite :
        (refuses : RefusesNegative jni) (l : List ℕ) (len : ℤ)
        → Polite jni v (Any jni) (put_bytes (watch jni) refs o f l len v)
    unfolding put_bytes
    put_bytes-Polite refuses l (ℤ.negsuc n) = rw (refuses n v.machine, put_bytes) faults
    put_bytes-Polite refuses l (pos n) =
        elim (Option-cases (jni.new_byte_array (pos n) v.machine).0) [
          | inl e ↦ rw (e, put_bytes) faults
          | inr (a, e) ↦ elim (Bool-cases (ltb (length l) n)) [
            | inl short ↦ rw (e, short, put_bytes) faults
            | inr long ↦
                let (made, len) = laws.new_byte_array (pos n) v.machine a e in
                let on = Created-Onward jni calm made in
                let on' =
                  Onward-trans jni on (region-Onward n a (take n l) _ on.calm made.born len) in
                rw (e, long, put_bytes)
                  (rw e (
                    then_Polite jni on'
                      (put-Polite o f (object (some a)) _ on'.calm (on'.live o there))))
          ]
        ]

    pub put_extra-Polite :
        (refuses : RefusesNegative jni) (e : Option (List ℕ)) (len : ℤ)
        → Polite jni v (Any jni) (put_extra (watch jni) refs o f e len v)
    unfolding put_extra
    put_extra-Polite refuses none len = put-Polite o f (object none) v calm there
    put_extra-Polite refuses (some l) len = put_bytes-Polite refuses l len
