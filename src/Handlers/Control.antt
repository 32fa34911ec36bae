-- ===== src/Handlers/Control.antt =====
-- The native methods of LibusbJava.c that hand one call to libusb: `usb_set_debug`, `usb_init`,
-- `usb_find_busses`, `usb_find_devices`, `usb_close`, `usb_set_configuration`,
-- `usb_set_altinterface`, `usb_clear_halt`, `usb_reset`, `usb_claim_interface` and
-- `usb_release_interface`. A handle is a `jlong`, which the code casts to a pointer.
use owon_vds.Base.{Option, none, some, ◌==◌, if◌then◌else◌}
use owon_vds.Base.Int.{ℤ, of_jlong, of_jint}
use owon_vds.Libusb.Api.{Libusb}
use owon_vds.Native.State.{State, clear_libusb_java_error}

-- `clearLibusbJavaError(); return f(...);`
abbrev pub forward : {V U A : Type 0} → (U → A × U) → State V U → A × State V U
forward f s = let (a, u) = f s.usb in (a, record (clear_libusb_java_error s) { usb = u })

module _ {V : Type 0} (usb : Libusb) where
  unfoldable pub set_debug : ℤ → State V usb.Usb → State V usb.Usb
  set_debug level s = record (clear_libusb_java_error s) { usb = usb.usb_set_debug level s.usb }

  unfoldable pub init : State V usb.Usb → State V usb.Usb
  init s = record (clear_libusb_java_error s) { usb = usb.usb_init s.usb }

  unfoldable pub find_busses : State V usb.Usb → ℤ × State V usb.Usb
  find_busses = forward usb.usb_find_busses

  unfoldable pub find_devices : State V usb.Usb → ℤ × State V usb.Usb
  find_devices = forward usb.usb_find_devices

  unfoldable pub close : (dev_handle : ℤ) → State V usb.Usb → ℤ × State V usb.Usb
  close dev_handle = forward (usb.usb_close (of_jlong dev_handle))

  -- The whole body stands under the test: past the first call the error stays, nothing is sent, and
  -- the function ends without a `return`. `none` is the value that it then does not have.
  unfoldable pub set_configuration :
      (dev_handle configuration : ℤ) → State V usb.Usb → Option ℤ × State V usb.Usb
  set_configuration dev_handle configuration s =
      if s.config_done == 0
      then (let (r, u) = usb.usb_set_configuration (of_jlong dev_handle) configuration s.usb in
          (some r, record (clear_libusb_java_error s) { usb = u; config_done = 1 }))
      else (none, s)

  unfoldable pub set_altinterface :
      (dev_handle alternate : ℤ) → State V usb.Usb → ℤ × State V usb.Usb
  set_altinterface dev_handle alternate =
      forward (usb.usb_set_altinterface (of_jlong dev_handle) alternate)

  unfoldable pub clear_halt : (dev_handle ep : ℤ) → State V usb.Usb → ℤ × State V usb.Usb
  clear_halt dev_handle ep = forward (usb.usb_clear_halt (of_jlong dev_handle) (of_jint ep))

  unfoldable pub reset : (dev_handle : ℤ) → State V usb.Usb → ℤ × State V usb.Usb
  reset dev_handle = forward (usb.usb_reset (of_jlong dev_handle))

  unfoldable pub claim_interface :
      (dev_handle interface : ℤ) → State V usb.Usb → ℤ × State V usb.Usb
  claim_interface dev_handle interface =
      forward (usb.usb_claim_interface (of_jlong dev_handle) interface)

  unfoldable pub release_interface :
      (dev_handle interface : ℤ) → State V usb.Usb → ℤ × State V usb.Usb
  release_interface dev_handle interface =
      forward (usb.usb_release_interface (of_jlong dev_handle) interface)
