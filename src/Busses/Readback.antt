-- ===== src/Busses/Readback.antt =====
-- How Java code reads the object of a device descriptor that `usb_get_busses` of LibusbJava.c fills: the
-- unsigned numbers of usb.h pass through signed bytes and shorts.
use owon_vds.Base.{refl, true, ℕ, ◌<◌, ◌^◌, ◌≡◌, ◌∙◌, ap}
use owon_vds.Base.Int.{
  of_jbyte, of_jshort, to_jbyte, to_jshort, of_jbyte-to_jbyte, of_jshort-to_jshort,
}
use owon_vds.Libusb.Structs.{UsbDeviceDescriptor}
use owon_vds.Jni.Api.{Jni, Ref, Value, byte, short}
use owon_vds.Jni.Laws.{Laws, IsRefusal}
use owon_vds.Native.Fields.{Field}
use owon_vds.Native.State.{References}
use owon_vds.Busses.Devices.{device_descriptor_fields}
use owon_vds.Busses.Puts.{IsResolved, slot, Holds, puts-Put}
use owon_vds.Busses.Ends.{Ends, mono}
use owon_vds.Busses.Action.{puts}

-- `x & 0xff` of a byte and `x & 0xffff` of a short, as Java code takes the unsigned value.
abbrev pub low_byte : Value → ℕ
low_byte (byte x) = of_jbyte x
low_byte _ = 0

abbrev pub low_short : Value → ℕ
low_short (short x) = of_jshort x
low_short _ = 0

-- The bounds of `u_int8_t` and `u_int16_t`.
pub record IsDescriptor (d : UsbDeviceDescriptor) : Type 0 where
  pub b_length : d.b_length < 2 ^ 8
  pub b_descriptor_type : d.b_descriptor_type < 2 ^ 8
  pub bcd_usb : d.bcd_usb < 2 ^ 16
  pub b_device_class : d.b_device_class < 2 ^ 8
  pub b_device_sub_class : d.b_device_sub_class < 2 ^ 8
  pub b_device_protocol : d.b_device_protocol < 2 ^ 8
  pub b_max_packet_size0 : d.b_max_packet_size0 < 2 ^ 8
  pub id_vendor : d.id_vendor < 2 ^ 16
  pub id_product : d.id_product < 2 ^ 16
  pub bcd_device : d.bcd_device < 2 ^ 16
  pub i_manufacturer : d.i_manufacturer < 2 ^ 8
  pub i_product : d.i_product < 2 ^ 8
  pub i_serial_number : d.i_serial_number < 2 ^ 8
  pub b_num_configurations : d.b_num_configurations < 2 ^ 8

module _ (jni : Jni) {refs : References} (res : IsResolved refs) where
  abbrev pub read_descriptor : jni.Vm → Ref → UsbDeviceDescriptor
  read_descriptor w o = record {
    b_length = low_byte (jni.get w o (slot res Field.dev_desc_b_length));
    b_descriptor_type = low_byte (jni.get w o (slot res Field.dev_desc_b_descriptor_type));
    bcd_usb = low_short (jni.get w o (slot res Field.dev_desc_bcd_usb));
    b_device_class = low_byte (jni.get w o (slot res Field.dev_desc_b_device_class));
    b_device_sub_class = low_byte (jni.get w o (slot res Field.dev_desc_b_device_sub_class));
    b_device_protocol = low_byte (jni.get w o (slot res Field.dev_desc_b_device_protocol));
    b_max_packet_size0 = low_byte (jni.get w o (slot res Field.dev_desc_b_max_packet_size0));
    id_vendor = low_short (jni.get w o (slot res Field.dev_desc_id_vendor));
    id_product = low_short (jni.get w o (slot res Field.dev_desc_id_product));
    bcd_device = low_short (jni.get w o (slot res Field.dev_desc_bcd_device));
    i_manufacturer = low_byte (jni.get w o (slot res Field.dev_desc_i_manufacturer));
    i_product = low_byte (jni.get w o (slot res Field.dev_desc_i_product));
    i_serial_number = low_byte (jni.get w o (slot res Field.dev_desc_i_serial_number));
    b_num_configurations = low_byte (jni.get w o (slot res Field.dev_desc_b_num_configurations));
  }

  pub low_byte-to_jbyte :
      {w : jni.Vm} {o : Ref} (f : Field) (x : ℕ)
      → x < 2 ^ 8
      → jni.get w o (slot res f) ≡ byte (to_jbyte x)
      → low_byte (jni.get w o (slot res f)) ≡ x
  low_byte-to_jbyte f x small e = ap low_byte e ∙ of_jbyte-to_jbyte x small

  pub low_short-to_jshort :
      {w : jni.Vm} {o : Ref} (f : Field) (x : ℕ)
      → x < 2 ^ 16
      → jni.get w o (slot res f) ≡ short (to_jshort x)
      → low_short (jni.get w o (slot res f)) ≡ x
  low_short-to_jshort f x small e = ap low_short e ∙ of_jshort-to_jshort x small

  pub read_descriptor-Holds :
      {w : jni.Vm} {o : Ref} (d : UsbDeviceDescriptor)
      → IsDescriptor d
      → Holds jni res w o (device_descriptor_fields d)
      → read_descriptor w o ≡ d
  read_descriptor-Holds d small
        (
          h0,
          (h1, (h2, (h3, (h4, (h5, (h6, (h7, (h8, (h9, (h10, (h11, (h12, (h13, rest))))))))))))),
        ) =
      λ i. record {
        b_length = low_byte-to_jbyte Field.dev_desc_b_length d.b_length small.b_length h0 i;
        b_descriptor_type =
            low_byte-to_jbyte Field.dev_desc_b_descriptor_type d.b_descriptor_type
              small.b_descriptor_type h1 i;
        bcd_usb = low_short-to_jshort Field.dev_desc_bcd_usb d.bcd_usb small.bcd_usb h2 i;
        b_device_class =
            low_byte-to_jbyte Field.dev_desc_b_device_class d.b_device_class small.b_device_class h3
              i;
        b_device_sub_class =
            low_byte-to_jbyte Field.dev_desc_b_device_sub_class d.b_device_sub_class
              small.b_device_sub_class h4 i;
        b_device_protocol =
            low_byte-to_jbyte Field.dev_desc_b_device_protocol d.b_device_protocol
              small.b_device_protocol h5 i;
        b_max_packet_size0 =
            low_byte-to_jbyte Field.dev_desc_b_max_packet_size0 d.b_max_packet_size0
              small.b_max_packet_size0 h6 i;
        id_vendor = low_short-to_jshort Field.dev_desc_id_vendor d.id_vendor small.id_vendor h7 i;
        id_product =
            low_short-to_jshort Field.dev_desc_id_product d.id_product small.id_product h8 i;
        bcd_device =
            low_short-to_jshort Field.dev_desc_bcd_device d.bcd_device small.bcd_device h9 i;
        i_manufacturer =
            low_byte-to_jbyte Field.dev_desc_i_manufacturer d.i_manufacturer small.i_manufacturer
              h10 i;
        i_product = low_byte-to_jbyte Field.dev_desc_i_product d.i_product small.i_product h11 i;
        i_serial_number =
            low_byte-to_jbyte Field.dev_desc_i_serial_number d.i_serial_number small.i_serial_number
              h12 i;
        b_num_configurations =
            low_byte-to_jbyte Field.dev_desc_b_num_configurations d.b_num_configurations
              small.b_num_configurations h13 i;
      }

  -- Where the IDs are resolved and the object exists: once `usb_get_busses` has written a device
  -- descriptor's numbers to the object, Java code that reads its bytes and shorts as unsigned gets
  -- all 14 of them back.
  pub puts-read_descriptor :
      (laws : Laws jni) (d : UsbDeviceDescriptor) (o : Ref) (v : jni.Vm)
      → IsDescriptor d
      → jni.live v o ≡ true
      → Ends
          (IsRefusal jni)
          (λ _ w. read_descriptor w o ≡ d)
          (puts jni refs o (device_descriptor_fields d) v)
  puts-read_descriptor laws d o v small there =
      mono (puts-Put jni res laws o (device_descriptor_fields d) v there refl)
        λ _ w p. read_descriptor-Holds d small p.holds
