-- ===== src/Handlers/Strings.antt =====
-- The string requests of LibusbJava.c: `usb_get_string`, `usb_get_string_simple`,
-- `usb_get_descriptor` and `usb_get_descriptor_by_endpoint`.
use owon_vds.Base.{ℕ, ◌%◌, ◌^◌, Option, none, some, List, [], ◌∷◌, ◌==◌, if◌then◌else◌}
use owon_vds.Base.Int.{ℤ, is_pos, of_jlong, of_jint}
use owon_vds.Libusb.Api.{Libusb, Buffer}
use owon_vds.Jni.Api.{Jni, Ref}
use owon_vds.Native.State.{State, Outcome, returned, clear_libusb_java_error}
use owon_vds.Handlers.Transfers.{Memory, malloc, counted}

-- The characters before the NUL; `none` if the bytes hold no NUL, where C reads on past them.
unfoldable pub c_string : List ℕ → Option (List ℕ)
c_string [] = none
c_string (c ∷ l) =
    if c == 0 then some [] else (elim (c_string l) [ none ↦ none | some r ↦ some (c ∷ r) ])

module _ (jni : Jni) (usb : Libusb) where
  -- `if (retVal > 0) return NewStringUTF(env, string); return 0;`
  unfoldable pub string_reply :
      ℤ → List ℕ → State jni.Vm usb.Usb → Outcome (State jni.Vm usb.Usb) (Option Ref)
  string_reply n bytes s =
      if is_pos n
      then (elim (c_string bytes) [
        | none ↦ Outcome.fault
        | some text ↦ let (r, v) = jni.new_string_utf text s.vm in returned r (record s { vm = v })
      ])
      else returned none s

  -- `string` holds what the local array holds before the call.
  unfoldable pub get_string :
      (string : List ℕ) (dev_handle index langid : ℤ)
      → State jni.Vm usb.Usb
      → Outcome (State jni.Vm usb.Usb) (Option Ref)
  unfolding string_reply
  get_string string dev_handle index langid s =
      let (n, bytes, u) = usb.usb_get_string (of_jlong dev_handle) index langid string 256 s.usb in
      string_reply n bytes (record (clear_libusb_java_error s) { usb = u })

  unfoldable pub get_string_simple :
      (string : List ℕ) (dev_handle index : ℤ)
      → State jni.Vm usb.Usb
      → Outcome (State jni.Vm usb.Usb) (Option Ref)
  unfolding string_reply
  get_string_simple string dev_handle index s =
      let (n, bytes, u) = usb.usb_get_string_simple (of_jlong dev_handle) index string 256 s.usb in
      string_reply n bytes (record (clear_libusb_java_error s) { usb = u })

  -- The block is not freed. A NULL block has no bytes, and no NUL.
  abbrev pub descriptor_with :
      (Buffer → usb.Usb → ℤ × List ℕ × usb.Usb)
      → (block : Buffer) → State jni.Vm usb.Usb
      → Outcome (State jni.Vm usb.Usb) (Option Ref)
  descriptor_with request block s0 =
      let s = counted block (clear_libusb_java_error s0) in
      let (n, bytes, u) = request block s.usb in
      string_reply n (elim block [ none ↦ [] | some _ ↦ bytes ]) (record s { usb = u })

  -- The arguments go through `unsigned`, and on to a parameter that is an `unsigned char`.
  unfoldable pub get_descriptor :
      (memory : Memory) (dev_handle type index size : ℤ)
      → State jni.Vm usb.Usb
      → Outcome (State jni.Vm usb.Usb) (Option Ref)
  unfolding string_reply
  get_descriptor memory dev_handle type index size =
      descriptor_with
        (λ b.
          usb.usb_get_descriptor (of_jlong dev_handle) (of_jint type % 2 ^ 8)
            (of_jint index % 2 ^ 8) b size)
        (malloc memory size)

  unfoldable pub get_descriptor_by_endpoint :
      (memory : Memory) (dev_handle ep type index size : ℤ)
      → State jni.Vm usb.Usb
      → Outcome (State jni.Vm usb.Usb) (Option Ref)
  unfolding string_reply
  get_descriptor_by_endpoint memory dev_handle ep type index size =
      descriptor_with
        (λ b.
          usb.usb_get_descriptor_by_endpoint (of_jlong dev_handle) ep (of_jint type % 2 ^ 8)
            (of_jint index % 2 ^ 8) b size)
        (malloc memory size)
