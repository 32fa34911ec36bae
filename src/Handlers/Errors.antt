-- ===== src/Handlers/Errors.antt =====
-- `usb_strerror` and `usb_error_no` of LibusbJava.c.
use owon_vds.Base.{ℕ, ◌==◌, if◌then◌else◌, Option, none, some, List}
use owon_vds.Base.Int.{ℤ, pos}
use owon_vds.Libusb.Api.{Libusb}
use owon_vds.Jni.Api.{Jni, Ref}
use owon_vds.Native.State.{State, Message, message_text, clear_libusb_java_error}

module _ (jni : Jni) (usb : Libusb) where
  -- The wrapper's own error comes first, and is cleared as it is read.
  unfoldable pub error_text : Option Message → usb.Usb → List ℕ
  unfolding message_text
  error_text none u = usb.usb_strerror u
  error_text (some m) u = message_text m

  unfoldable pub strerror : State jni.Vm usb.Usb → Option Ref × State jni.Vm usb.Usb
  strerror s =
      let (r, v) = jni.new_string_utf (error_text s.libusb_java_error s.usb) s.vm in
      (r, record (clear_libusb_java_error s) { vm = v })

-- The values of errno.h on Linux.
abbrev pub ebadf : ℕ
ebadf = 9

abbrev pub enxio : ℕ
enxio = 6

abbrev pub ebusy : ℕ
ebusy = 16

abbrev pub einval : ℕ
einval = 22

abbrev pub etimedout : ℕ
etimedout = 110

abbrev pub eio : ℕ
eio = 5

abbrev pub enomem : ℕ
enomem = 12

unfoldable pub error_no : ℤ → ℕ
error_no (pos n) =
    if n == 0
    then 0
    else if n == 1
    then ebadf
    else if n == 2
    then enxio
    else if n == 3
    then ebusy
    else if n == 4
    then einval
    else if n == 5
    then etimedout
    else if n == 6
    then eio
    else if n == 7
    then enomem
    else 100000
error_no (ℤ.negsuc _) = 100000
