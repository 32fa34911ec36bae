-- ===== src/Busses/Action.antt =====
-- The steps of `usb_get_busses` in LibusbJava.c between the lookup of the IDs and its return: they
-- change the virtual machine, and each may end the whole call.
use owon_vds.Base.{
  ℕ, zero, suc, ◌+◌, Option, none, some, List, [], ◌∷◌, get_elem?, ltb, length, take, true, false,
}
use owon_vds.Base.Int.{ℤ, rounds}
use owon_vds.Jni.Api.{Jni, Ref, Value, object}
use owon_vds.Native.Fields.{JavaClass, Field}
use owon_vds.Native.State.{Message, References}

-- `leave r e` is `return r` from within the loops, after `setLibusbJavaError` if `e` is a message.
pub data Step (V A : Type 0) : Type 0 where
  ok : A → V → Step V A
  leave : Option Ref → Option Message → V → Step V A
  fault : Step V A
  out_of_fuel : Step V A

abbrev pub Action : Type 0 → Type 0 → Type 0
Action V A = V → Step V A

abbrev pub and_then : {V A B : Type 0} → Step V A → (A → Action V B) → Step V B
and_then (ok a v) k = k a v
and_then (leave r e v) k = leave r e v
and_then fault k = fault
and_then out_of_fuel k = out_of_fuel

infixl 5 ◌>>=◌ ◌>>◌
abbrev pub ◌>>=◌ : {V A B : Type 0} → Action V A → (A → Action V B) → Action V B
◌>>=◌ m k v = and_then (m v) k

abbrev pub ◌>>◌ : {V A B : Type 0} → Action V A → Action V B → Action V B
◌>>◌ m k v = and_then (m v) (λ _. k)

abbrev pub pure : {V A : Type 0} → A → Action V A
pure a v = ok a v

-- `if (!x) { setLibusbJavaError(m); return NULL; }`
unfoldable pub or_give_up : {V A : Type 0} → Option A → Message → Action V A
or_give_up none m = leave none (some m)
or_give_up (some a) m = pure a

-- `xs[i]` after `if (xs == NULL) { ...; return main; }`. Past the end of the array it is undefined.
unfoldable pub element_or_leave :
    {V A : Type 0} → Option (List A) → ℕ → (main : Option Ref) → Option Message → Action V A
element_or_leave none i main m = leave main m
element_or_leave (some xs) i main m = elim (get_elem? xs i) [ none ↦ λ _. fault | some x ↦ pure x ]

module _ (jni : Jni) (refs : References) where
  -- `Set<Type>Field(env, o, f, x)`; a field ID that is NULL is undefined behaviour.
  unfoldable pub put : Ref → Field → Value → Action jni.Vm (Unit {0})
  put o f x v = elim (refs.fid f) [ none ↦ fault | some i ↦ ok tt (jni.set_field o i x v) ]

  -- A run of such calls on one object.
  unfoldable pub puts : Ref → List (Field × Value) → Action jni.Vm (Unit {0})
  puts o [] = pure tt
  puts o ((f, x) ∷ l) = put o f x >> puts o l

  -- `NewObject(env, c, c's constructor)`, and the test of its result.
  unfoldable pub new : JavaClass → Message → Action jni.Vm Ref
  new c m v = elim (refs.clazz c) [
    | none ↦ fault
    | some class ↦ elim (refs.mid c) [
      | none ↦ fault
      | some method ↦ let (o, w) = jni.new_object class method v in or_give_up o m w
    ]
  ]

  -- `NewObjectArray(env, n, c, NULL)`, and the test of its result.
  unfoldable pub new_array : ℤ → JavaClass → Message → Action jni.Vm Ref
  new_array n c m v = elim (refs.clazz c) [
    | none ↦ fault
    | some class ↦ let (a, w) = jni.new_object_array n class v in or_give_up a m w
  ]

  -- `SetObjectField(env, o, f, NewStringUTF(env, text))`; the string may be NULL.
  unfoldable pub put_string : Ref → Field → List ℕ → Action jni.Vm (Unit {0})
  put_string o f text v = let (s, w) = jni.new_string_utf text v in put o f (object s) w

  -- `NewByteArray`, `SetByteArrayRegion` and `SetObjectField` for an `extra` that is not NULL.
  -- `NewByteArray` is not tested: a NULL array is undefined, as is a read past the bytes.
  unfoldable pub put_bytes : Ref → Field → List ℕ → ℤ → Action jni.Vm (Unit {0})
  put_bytes o f bytes len v =
      let (a, w) = jni.new_byte_array len v in
      elim a [
        | none ↦ fault
        | some r ↦ elim (ltb (length bytes) (rounds len)) [
          | true ↦ fault
          | false ↦
              put o f (object (some r))
                (jni.set_byte_array_region r (ℤ.pos 0) len (take (rounds len) bytes) w)
        ]
      ]

  -- `if (extra) { ... } else { SetObjectField(env, o, f, NULL); }`
  unfoldable pub put_extra : Ref → Field → Option (List ℕ) → ℤ → Action jni.Vm (Unit {0})
  put_extra o f none len = put o f (object none)
  put_extra o f (some bytes) len = put_bytes o f bytes len

  -- `SetObjectArrayElement(env, a, i, o)`
  unfoldable pub set_element : Ref → ℕ → Ref → Action jni.Vm (Unit {0})
  set_element a i o v = ok tt (jni.set_object_array_element a i (some o) v)

  module _ {A : Type 0} (c : JavaClass) (object_error : Message) (null_error : Option Message)
      (fill : Ref → A → Action jni.Vm (Unit {0})) (main : Option Ref) where
    -- `for (i = ...; k rounds are left; i++)`: the loop over configurations, interfaces, interface
    -- descriptors or endpoints, which all have this shape. `fill` writes the element's fields.
    unfoldable pub fill_array : Option (List A) → Ref → (k i : ℕ) → Action jni.Vm (Unit {0})
    fill_array xs a zero i = pure tt
    fill_array xs a (suc k) i = do
      x ← element_or_leave xs i main null_error
      o ← new c object_error
      set_element a i o
      fill o x
      fill_array xs a k (i + 1)

    -- The array's creation and its loop.
    unfoldable pub copy_array : Message → ℤ → Option (List A) → Action jni.Vm Ref
    copy_array array_error n xs = do
      a ← new_array n c array_error
      fill_array xs a (rounds n) 0
      pure a
