-- ===== src/Handlers/ErrorLaws.antt =====
-- `usb_strerror` and `usb_error_no` of LibusbJava.c, and the texts and numbers that they give.
use owon_vds.Base.{refl, subst, ℕ, ◌≡◌, ◌≢◌, some, Option, List, arith}
use owon_vds.Base.Int.{ℤ, pos, negsuc}
use owon_vds.Libusb.Api.{Libusb}
use owon_vds.Jni.Api.{Jni, Ref, text, contents}
use owon_vds.Jni.Laws.{Laws, HasRoom, IsCreated}
use owon_vds.Native.State.{State, Message, message_text}
use owon_vds.Handlers.Errors.{error_text, strerror, error_no}

module _ (jni : Jni) (usb : Libusb) (laws : Laws jni) (room : HasRoom jni) where
  -- The call returned a new string of the text `t`.
  abbrev pub IsTold : State jni.Vm usb.Usb → List ℕ → Option Ref × State jni.Vm usb.Usb → Type 0
  IsTold s t (r, s') =
      (o : Ref) × (r ≡ some o) × IsCreated jni s.vm o s'.vm × (jni.get s'.vm o contents ≡ text t)

  strerror-IsTold :
      (s : State jni.Vm usb.Usb)
      → IsTold s (error_text jni usb s.libusb_java_error s.usb) (strerror jni usb s)
  unfolding strerror
  strerror-IsTold s =
      let t = error_text jni usb s.libusb_java_error s.usb in
      let (o, e) = room.string t s.vm in
      let (made, body) = laws.new_string_utf t s.vm o e in (o, e, made, body)

  told :
      (s : State jni.Vm usb.Usb) (t : List ℕ)
      → error_text jni usb s.libusb_java_error s.usb ≡ t
      → IsTold s t (strerror jni usb s)
  told s t e = subst (λ t. IsTold s t (strerror jni usb s)) e (strerror-IsTold s)

  error_text-some :
      (o : Option Message) (m : Message) (u : usb.Usb)
      → o ≡ some m
      → error_text jni usb o u ≡ message_text m
  unfolding error_text
  error_text-some o m u e = rw (e, error_text) refl

  error_text-strerror :
      (s : State jni.Vm usb.Usb)
      → let (_, s') = strerror jni usb s in
        error_text jni usb s'.libusb_java_error s'.usb ≡ usb.usb_strerror s.usb
  unfolding strerror error_text
  error_text-strerror s = refl

  -- Where the virtual machine has room for strings, after an error of the wrapper, whatever
  -- libusb's own error is: the first call of `usb_strerror` tells the wrapper's error, and the
  -- second one libusb's.
  pub strerror-twice :
      (s : State jni.Vm usb.Usb) (m : Message)
      → s.libusb_java_error ≡ some m
      → let (r, s') = strerror jni usb s in
        IsTold s (message_text m) (r, s') × IsTold s' (usb.usb_strerror s.usb) (strerror jni usb s')
  strerror-twice s m e =
      let (_, s') = strerror jni usb s in
      (
        told s (message_text m) (error_text-some s.libusb_java_error m s.usb e),
        told s' (usb.usb_strerror s.usb) (error_text-strerror s),
      )

-- The errors that Java asks for, with the names of errno.h in the order of their numbers in Java, and
-- the values that errno.h has for them on Linux; an error that is none of these has no name.
pub data Errno : Type 0 where
  no_error bad_file_descriptor no_such_device busy invalid timed_out input_output no_memory : Errno

abbrev pub errno_value : Errno → ℕ
errno_value Errno.no_error = 0
errno_value Errno.bad_file_descriptor = 9
errno_value Errno.no_such_device = 6
errno_value Errno.busy = 16
errno_value Errno.invalid = 22
errno_value Errno.timed_out = 110
errno_value Errno.input_output = 5
errno_value Errno.no_memory = 12

abbrev pub java_number : Errno → ℤ
java_number Errno.no_error = pos 0
java_number Errno.bad_file_descriptor = pos 1
java_number Errno.no_such_device = pos 2
java_number Errno.busy = pos 3
java_number Errno.invalid = pos 4
java_number Errno.timed_out = pos 5
java_number Errno.input_output = pos 6
java_number Errno.no_memory = pos 7

java_number-errno_value : (e : Errno) → error_no (java_number e) ≡ errno_value e
unfolding error_no
java_number-errno_value Errno.no_error = refl
java_number-errno_value _ = refl

errno_value-java_number : (e : Errno) (n : ℤ) → error_no n ≡ errno_value e → n ≡ java_number e
unfolding error_no
errno_value-java_number e (negsuc n) h = ground (arith, h)
errno_value-java_number e (pos n) h = ground (arith, h)

error_no-unknown : (n : ℤ) → ((e : Errno) → n ≢ java_number e) → error_no n ≡ 100000
unfolding error_no
error_no-unknown (negsuc n) none_of = refl
error_no-unknown (pos n) none_of = ground (
  arith,
  none_of Errno.no_error,
  none_of Errno.bad_file_descriptor,
  none_of Errno.no_such_device,
  none_of Errno.busy,
  none_of Errno.invalid,
  none_of Errno.timed_out,
  none_of Errno.input_output,
  none_of Errno.no_memory,
)

-- Each error of Java has the value of errno.h, and a number that has the value of an error is the
-- number of that error: no two errors are confused, and a number that is no error has another value
-- than all of them, 100000.
pub error_no-errno_value :
    (e : Errno) (n : ℤ)
    → (error_no (java_number e) ≡ errno_value e)
      × (error_no n ≡ errno_value e → n ≡ java_number e)
      × (((d : Errno) → n ≢ java_number d) → error_no n ≡ 100000)
error_no-errno_value e n =
    (java_number-errno_value e, errno_value-java_number e n, error_no-unknown n)
