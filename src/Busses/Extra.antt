-- ===== src/Busses/Extra.antt =====
-- The `extra` bytes of a descriptor as a Java byte array, in `usb_get_busses` of LibusbJava.c.
use owon_vds.Base.{
  ℕ, ◌≤◌, ◌≡◌, ◌≢◌, ◌∙◌, sym, true, false, Option, none, some, List, [], ◌∷◌, arith, ltb, length,
  take,
}
use owon_vds.Base.Int.{ℤ, pos}
use owon_vds.Jni.Api.{Jni, Ref, Value, object, bytes, extent, contents}
use owon_vds.Jni.Laws.{Laws, HasRoom, IsCreated, IsWritten, IsRefusal}
use owon_vds.Native.Fields.{Field}
use owon_vds.Native.State.{References}
use owon_vds.Busses.Action.{put_bytes, put_extra}
use owon_vds.Busses.Ends.{Ends, mono}
use owon_vds.Busses.Frame.{
  Below, Grow, Only-trans, Only-Grow, Grow-Only, Written-Only, Created-Grow, not-live_of_Below,
  ne_of_live,
}
use owon_vds.Busses.Puts.{IsResolved, slot, away, Writes, Put, put-Put}
use owon_vds.Busses.Tree.{IsExtra, IsExtraOk}

ltb_ge : (a b : ℕ) → b ≤ a → ltb a b ≡ false
ltb_ge a b h = ground arith

module _ (jni : Jni) (laws : Laws jni) (room : HasRoom jni) {refs : References}
    (res : IsResolved refs) where
  -- The field stands for the bytes; the object's other fields are as before.
  pub record Extra (base v : jni.Vm) (o : Ref) (f : Field) (e : Option (List ℕ)) (len : ℤ)
      (w : jni.Vm) : Type 0 where
    pub writes : Writes jni res o ((f, object none) ∷ []) v w
    pub extra : IsExtra jni res base w o f e len

  module _ {base v : jni.Vm} {o : Ref} (f : Field) (below : Below jni base v)
      (there : jni.live v o ≡ true) where
    Put-Extra :
        {v1 w : jni.Vm} {a : Ref} (n : ℕ) (l : List ℕ)
        → IsCreated jni v a v1
        → jni.get v1 a extent ≡ Value.size (pos n)
        → Put jni res o
            ((f, object (some a)) ∷ [])
            (jni.set_byte_array_region a (pos 0) (pos n) (take n l) v1)
            w
        → Extra base v o f (some l) (pos n) w
    Put-Extra {v1} {w} {a} n l made len p = record {
      writes = record {
        only = Only-trans jni (Grow-Only jni o grown) p.writes.only;
        rest = λ g h. p.writes.rest g h ∙ grown.same o (slot res g) there;
      };
      extra = (
        a,
        p.holds.0,
        (not-live_of_Below jni a below made.fresh, p.writes.only.live a live2),
        p.writes.only.same a extent live2 a≢o ∙ wrote.other_slot extent (λ e. cc) ∙ len,
        p.writes.only.same a contents live2 a≢o ∙ wrote.written,
      );
    }
      where
        v2 : jni.Vm
        v2 = jni.set_byte_array_region a (pos 0) (pos n) (take n l) v1

        wrote : IsWritten jni v1 a contents (bytes (take n l)) v2
        wrote = laws.set_byte_array_region a (pos n) (take n l) v1 made.born len

        grown : Grow jni v v2
        grown = Only-Grow jni made.fresh (Created-Grow jni made) (Written-Only jni wrote)

        live2 : jni.live v2 a ≡ true
        live2 = wrote.keeps_live a ∙ made.born

        a≢o : a ≢ o
        a≢o e = ne_of_live jni {v = v} o a there made.fresh (sym e)

    put_bytes-Extra :
        (l : List ℕ) (n : ℕ)
        → n ≤ length l
        → Ends
            (IsRefusal jni)
            (λ _ w. Extra base v o f (some l) (pos n) w)
            (put_bytes jni refs o f l (pos n) v)
    unfolding put_bytes
    put_bytes-Extra l n le =
        let (a, e) = room.byte_array n v in
        let (made, len) = laws.new_byte_array (pos n) v a e in
        rw (e, ltb_ge (length l) n le, put_bytes)
          (mono (put-Put jni res laws o f (object (some a)) _ (live2 a made len))
            λ _ w p. Put-Extra n l made len p)
      where
        live2 :
            {v1 : jni.Vm} (a : Ref)
            → IsCreated jni v a v1
            → jni.get v1 a extent ≡ Value.size (pos n)
            → jni.live (jni.set_byte_array_region a (pos 0) (pos n) (take n l) v1) o ≡ true
        live2 a made len =
            (laws.set_byte_array_region a (pos n) (take n l) _ made.born len).keeps_live o
            ∙ made.keeps_live o there

    pub put_extra-Extra :
        (e : Option (List ℕ)) (len : ℤ)
        → IsExtraOk e len
        → Ends (IsRefusal jni) (λ _ w. Extra base v o f e len w) (put_extra jni refs o f e len v)
    unfolding put_extra
    put_extra-Extra none len fine =
        mono (put-Put jni res laws o f (object none) v there)
          λ _ w p. record { writes = p.writes; extra = p.holds.0 }
    put_extra-Extra (some l) len (n, e, le) = rw e (put_bytes-Extra l n le)

  -- Later writes to other fields of the object leave the field and its bytes alone, since the byte
  -- array is younger than the object.
  pub IsExtra-spared :
      {base mid u w : jni.Vm} {o : Ref} (f : Field) (e : Option (List ℕ)) (len : ℤ)
      → Below jni base mid
      → jni.live mid o ≡ true
      → {k : List (Field × Value)} → away f k ≡ true
      → Writes jni res o k u w
      → IsExtra jni res mid u o f e len
      → IsExtra jni res base w o f e len
  IsExtra-spared f none len below there out e h = e.rest f out ∙ h
  IsExtra-spared {base} {mid} {u} {w} {o} f (some l) len below there out e
        (a, at, own, size, body) =
      (
        a,
        e.rest f out ∙ at,
        (not-live_of_Below jni a below own.0, e.only.live a own.1),
        e.only.same a extent own.1 a≢o ∙ size,
        e.only.same a contents own.1 a≢o ∙ body,
      )
    where
      a≢o : a ≢ o
      a≢o e = ne_of_live jni {v = mid} o a there own.0 (sym e)
