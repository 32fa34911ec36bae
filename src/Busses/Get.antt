-- ===== src/Busses/Get.antt =====
-- `Java_ch_ntb_usb_LibusbJava_usb_1get_1busses` of LibusbJava.c.
use owon_vds.Base.{ℕ, Option, none, some, ◌==◌, if◌then◌else◌, true, false, Bool}
use owon_vds.Libusb.Api.{Libusb}
use owon_vds.Jni.Api.{Jni, Ref}
use owon_vds.Native.Names.{all_classes}
use owon_vds.Native.State.{
  State, Message, Outcome, returned, clear_libusb_java_error, set_libusb_java_error,
}
use owon_vds.Busses.Action.{Step, ok, leave}
use owon_vds.Busses.References.{find_classes}
use owon_vds.Busses.Devices.{bus_loop}

-- An error is set before the early return, if there is one.
abbrev pub set_error : {V U : Type 0} → Option Message → State V U → State V U
set_error none s = s
set_error (some m) s = set_libusb_java_error m s

-- The end of the loops, on the whole state.
unfoldable pub finish :
    {V U : Type 0} → State V U → Step V (Option Ref) → Outcome (State V U) (Option Ref)
finish s (ok r v) = returned r (record s { vm = v })
finish s (leave r e v) = returned r (set_error e (record s { vm = v }))
finish s Step.fault = Outcome.fault
finish s Step.out_of_fuel = Outcome.out_of_fuel

module _ (jni : Jni) (usb : Libusb) where
  -- From `busses = usb_get_busses()` on.
  unfoldable pub copy_busses :
      (devices fuel : ℕ) → State jni.Vm usb.Usb → Outcome (State jni.Vm usb.Usb) (Option Ref)
  unfolding finish
  copy_busses devices fuel s =
      let (p, u) = usb.usb_get_busses s.usb in
      let s' = record s { usb = u; busses = p } in
      if p == 0
      then returned none s'
      else finish s' (
          bus_loop jni s.references (usb.bus_at u) (usb.device_at u) devices fuel p none none none
            s.vm)

  -- `java_references_loaded` is tested here, and nothing sets it.
  unfoldable pub find_references : State jni.Vm usb.Usb → Bool × State jni.Vm usb.Usb
  find_references s =
      if s.java_references_loaded == 0
      then (let (found, refs, v) = find_classes jni all_classes s.references s.vm in
          (found, record s { references = refs; vm = v }))
      else (true, s)

  unfoldable pub get_busses :
      (devices fuel : ℕ) → State jni.Vm usb.Usb → Outcome (State jni.Vm usb.Usb) (Option Ref)
  unfolding copy_busses
  get_busses devices fuel s =
      let (found, s') = find_references (clear_libusb_java_error s) in
      elim found [ true ↦ copy_busses devices fuel s' | false ↦ returned none s' ]
