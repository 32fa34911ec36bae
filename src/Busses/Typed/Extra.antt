-- ===== src/Busses/Typed/Extra.antt =====
-- The writes of strings and byte arrays in `usb_get_busses` of LibusbJava.c on a virtual machine that
-- checks types.
use package.text.Mathlib.Text.{◌==◌ as str_eq}
use owon_vds.Base.{
  ℕ, ◌≡◌, true, false, Option, none, some, List, ltb, length, take, Bool-cases, Option-cases, inl,
  inr,
}
use owon_vds.Base.Int.{ℤ, pos}
use owon_vds.Jni.Api.{Jni, Ref, object}
use owon_vds.Jni.Types.{text_string, byte_array, not_primitive, typed}
use owon_vds.Native.Fields.{Field, class_of}
use owon_vds.Native.Names.{field_signature}
use owon_vds.Busses.Action.{put_string, put_bytes, put_extra}
use owon_vds.Busses.Typed.{
  Setting, Machine, kind, Has, Onward-trans, Has-Onward, WellTyped, then_WellTyped, Any,
  created-Onward, faults,
}
use owon_vds.Busses.Typed.Steps.{put-WellTyped, wrote-Onward, forget}

module _ {jni : Jni} (t : Setting jni) where
  module _ (o : Ref) (f : Field) (v : Machine jni t.has) (fit : v.misfit ≡ false)
      (has_o : Has jni t.has (kind jni t.has (class_of f)) o v) where
    pub put_string-WellTyped :
        (l : List ℕ)
        → str_eq "Ljava/lang/String;" (field_signature f) ≡ true
        → WellTyped jni t.has v (Any jni t.has) (put_string (typed t.classes jni) t.refs o f l v)
    unfolding put_string
    put_string-WellTyped l e =
        let (s, found) = t.room.string l v.machine in
        let (made, _) = t.laws.new_string_utf l v.machine s found in
        let (on, born) = created-Onward jni t.has v text_string fit made in
        rw (found, put_string)
          (then_WellTyped jni t.has on (
            forget t (
              put-WellTyped t o f (object (some s)) _ on.fit (Has-Onward jni t.has o on has_o)
                (rw born.1 e))))

    put_bytes-WellTyped :
        (l : List ℕ) (len : ℤ)
        → str_eq "[B" (field_signature f) ≡ true
        → WellTyped jni t.has v (Any jni t.has) (put_bytes (typed t.classes jni) t.refs o f l len v)
    unfolding put_bytes
    put_bytes-WellTyped l (ℤ.negsuc n) e = rw (t.refuses n v.machine, put_bytes) faults
    put_bytes-WellTyped l (pos n) fitting =
        elim (Option-cases (jni.new_byte_array (pos n) v.machine).0) [
          | inl e ↦ rw (e, put_bytes) faults
          | inr (a, e) ↦ elim (Bool-cases (ltb (length l) n)) [
            | inl short ↦ rw (e, short, put_bytes) faults
            | inr long ↦
                let (made, len) = t.laws.new_byte_array (pos n) v.machine a e in
                let (on, born) = created-Onward jni t.has v byte_array fit made in
                let on' = Onward-trans jni t.has on (
                  wrote-Onward t on.fit (λ q. cc)
                    (t.laws.set_byte_array_region a (pos n) (take n l) _ made.born len)) in
                rw (e, long, put_bytes)
                  (rw (e, born.1)
                    (then_WellTyped jni t.has on' (
                      forget t (
                        put-WellTyped t o f (object (some a)) _ on'.fit
                          (Has-Onward jni t.has o on' has_o) (rw born.1 fitting)))))
          ]
        ]

    pub put_extra-WellTyped :
        (e : Option (List ℕ)) (len : ℤ)
        → str_eq "[B" (field_signature f) ≡ true
        → not_primitive t.classes (field_signature f) ≡ true
        → WellTyped jni t.has v (Any jni t.has) (put_extra (typed t.classes jni) t.refs o f e len v)
    unfolding put_extra
    put_extra-WellTyped none len e e' = forget t (put-WellTyped t o f (object none) v fit has_o e')
    put_extra-WellTyped (some l) len e e' = put_bytes-WellTyped l len e
