-- ===== src/Handlers/Open.antt =====
-- `Java_ch_ntb_usb_LibusbJava_usb_1open` of LibusbJava.c: the search for the device among the busses
-- that `usb_get_busses` stored last, by the address in the Java object.
use owon_vds.Base.{ℕ, zero, suc, Option, none, some, ◌==◌, if◌then◌else◌, true, false}
use owon_vds.Base.Int.{ℤ, pos, to_jlong, eq_ℤ}
use owon_vds.Libusb.Structs.{Ptr, UsbDevice, UsbBus}
use owon_vds.Libusb.Api.{Libusb}
use owon_vds.Jni.Api.{Jni, Ref}
use owon_vds.Native.Fields.{Field}
use owon_vds.Native.State.{
  State, Message, Outcome, returned, clear_libusb_java_error, set_libusb_java_error,
}

-- How a search ends; `bad_pointer` is a read where there is no struct.
pub data Search : Type 0 where
  found : Ptr → Search
  missing bad_pointer out_of_rounds : Search

-- The inner `for`: the address is compared before the struct is read.
unfoldable pub search_devices : (Ptr → Option UsbDevice) → ℤ → (fuel : ℕ) → Ptr → Search
search_devices at addr zero p = out_of_rounds
search_devices at addr (suc fuel) p = elim (p == 0) [
  | true ↦ missing
  | false ↦ elim (eq_ℤ (to_jlong p) addr) [
    | true ↦ found p
    | false ↦ elim (at p) [ none ↦ bad_pointer | some d ↦ search_devices at addr fuel d.next ]
  ]
]

-- The outer `for`, with `devices` rounds for each inner one.
unfoldable pub search_busses :
    (Ptr → Option UsbBus) → (Ptr → Option UsbDevice) → ℤ → (devices fuel : ℕ) → Ptr → Search
search_busses at devices_at addr devices zero p = out_of_rounds
search_busses at devices_at addr devices (suc fuel) p = elim (p == 0) [
  | true ↦ missing
  | false ↦ elim (at p) [
    | none ↦ bad_pointer
    | some b ↦ elim (search_devices devices_at addr devices b.devices) [
      | missing ↦ search_busses at devices_at addr devices fuel b.next
      | r ↦ r
    ]
  ]
]

module _ (jni : Jni) (usb : Libusb) where
  -- What follows the search.
  unfoldable pub open_found : Search → State jni.Vm usb.Usb → Outcome (State jni.Vm usb.Usb) ℤ
  open_found (found p) s =
      let (h, u) = usb.usb_open p s.usb in returned (to_jlong h) (record s { usb = u })
  open_found missing s = returned (pos 0) (set_libusb_java_error Message.no_device s)
  open_found bad_pointer s = Outcome.fault
  open_found out_of_rounds s = Outcome.out_of_fuel

  unfoldable pub open_device :
      (devices fuel : ℕ) (dev : Ref) → State jni.Vm usb.Usb → Outcome (State jni.Vm usb.Usb) ℤ
  unfolding open_found
  open_device devices fuel dev s0 =
      let s = clear_libusb_java_error s0 in
      if s.busses == 0
      then returned (pos 0) (set_libusb_java_error Message.busses_null s)
      else (elim (s.references.fid Field.dev_dev_struct_addr) [
        | none ↦ Outcome.fault
        | some i ↦
            open_found
              (search_busses (usb.bus_at s.usb) (usb.device_at s.usb)
                (jni.get_long_field dev i s.vm) devices fuel s.busses)
              s
      ])
