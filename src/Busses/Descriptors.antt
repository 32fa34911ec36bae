-- ===== src/Busses/Descriptors.antt =====
-- The copies of an endpoint descriptor, an interface descriptor, an interface and a configuration
-- descriptor, from the inner loops of `usb_get_busses` in LibusbJava.c.
use owon_vds.Base.{ℕ, Option, none, some, List, [], ◌∷◌}
use owon_vds.Base.Int.{pos, to_jbyte, to_jshort}
use owon_vds.Libusb.Structs.{
  UsbEndpointDescriptor, UsbInterfaceDescriptor, UsbInterface, UsbConfigDescriptor,
}
use owon_vds.Jni.Api.{Jni, Ref, Value, object, byte, short, int}
use owon_vds.Native.Fields
use owon_vds.Native.Fields.{Field}
use owon_vds.Native.State.{Message, References}
use owon_vds.Busses.Action.{Action, ◌>>=◌, ◌>>◌, put, puts, put_extra, copy_array}

-- The values that the calls of `SetByteField`, `SetShortField` and `SetIntField` write.
abbrev pub endpoint_fields : UsbEndpointDescriptor → List (Field × Value)
endpoint_fields d =
    (Field.ep_desc_b_length, byte (to_jbyte d.b_length))
    ∷ (Field.ep_desc_b_descriptor_type, byte (to_jbyte d.b_descriptor_type))
    ∷ (Field.ep_desc_b_endpoint_address, byte (to_jbyte d.b_endpoint_address))
    ∷ (Field.ep_desc_bm_attributes, byte (to_jbyte d.bm_attributes))
    ∷ (Field.ep_desc_w_max_packet_size, short (to_jshort d.w_max_packet_size))
    ∷ (Field.ep_desc_b_interval, byte (to_jbyte d.b_interval))
    ∷ (Field.ep_desc_b_refresh, byte (to_jbyte d.b_refresh))
    ∷ (Field.ep_desc_b_synch_address, byte (to_jbyte d.b_synch_address))
    ∷ (Field.ep_desc_extralen, int d.extralen)
    ∷ []

abbrev pub interface_descriptor_fields : UsbInterfaceDescriptor → List (Field × Value)
interface_descriptor_fields d =
    (Field.int_desc_b_length, byte (to_jbyte d.b_length))
    ∷ (Field.int_desc_b_descriptor_type, byte (to_jbyte d.b_descriptor_type))
    ∷ (Field.int_desc_b_interface_number, byte (to_jbyte d.b_interface_number))
    ∷ (Field.int_desc_b_alternate_setting, byte (to_jbyte d.b_alternate_setting))
    ∷ (Field.int_desc_b_num_endpoints, byte (to_jbyte d.b_num_endpoints))
    ∷ (Field.int_desc_b_interface_class, byte (to_jbyte d.b_interface_class))
    ∷ (Field.int_desc_b_interface_sub_class, byte (to_jbyte d.b_interface_sub_class))
    ∷ (Field.int_desc_b_interface_protocol, byte (to_jbyte d.b_interface_protocol))
    ∷ (Field.int_desc_i_interface, byte (to_jbyte d.i_interface))
    ∷ (Field.int_desc_extralen, int d.extralen)
    ∷ []

abbrev pub interface_fields : UsbInterface → List (Field × Value)
interface_fields d = (Field.int_num_altsetting, int d.num_altsetting) ∷ []

abbrev pub config_fields : UsbConfigDescriptor → List (Field × Value)
config_fields d =
    (Field.conf_desc_b_length, byte (to_jbyte d.b_length))
    ∷ (Field.conf_desc_b_descriptor_type, byte (to_jbyte d.b_descriptor_type))
    ∷ (Field.conf_desc_w_total_length, short (to_jshort d.w_total_length))
    ∷ (Field.conf_desc_b_num_interfaces, byte (to_jbyte d.b_num_interfaces))
    ∷ (Field.conf_desc_b_configuration_value, byte (to_jbyte d.b_configuration_value))
    ∷ (Field.conf_desc_i_configuration, byte (to_jbyte d.i_configuration))
    ∷ (Field.conf_desc_bm_attributes, byte (to_jbyte d.bm_attributes))
    ∷ (Field.conf_desc_max_power, byte (to_jbyte d.max_power))
    ∷ (Field.conf_desc_extralen, int d.extralen)
    ∷ []

-- `main` is `main_usb_busObj`, which the loops return when they meet a NULL array.
module _ (jni : Jni) (refs : References) (main : Option Ref) where
  unfoldable pub fill_endpoint : Ref → UsbEndpointDescriptor → Action jni.Vm (Unit {0})
  fill_endpoint o d = do
    puts jni refs o (endpoint_fields d)
    put_extra jni refs o Field.ep_desc_extra d.extra d.extralen

  unfoldable pub copy_endpoints : UsbInterfaceDescriptor → Action jni.Vm Ref
  copy_endpoints d =
      copy_array jni refs Fields.endpoint_descriptor Message.ep_desc_object none fill_endpoint main
        Message.ep_desc_array (pos d.b_num_endpoints) d.endpoint

  unfoldable pub fill_interface_descriptor : Ref → UsbInterfaceDescriptor → Action jni.Vm (Unit {0})
  fill_interface_descriptor o d = do
    puts jni refs o (interface_descriptor_fields d)
    put_extra jni refs o Field.int_desc_extra d.extra d.extralen
    a ← copy_endpoints d
    put jni refs o Field.int_desc_endpoint (object (some a))

  unfoldable pub copy_altsettings : UsbInterface → Action jni.Vm Ref
  copy_altsettings d =
      copy_array jni refs Fields.interface_descriptor Message.int_desc_object none
        fill_interface_descriptor main Message.int_desc_array d.num_altsetting d.altsetting

  unfoldable pub fill_interface : Ref → UsbInterface → Action jni.Vm (Unit {0})
  fill_interface o d = do
    puts jni refs o (interface_fields d)
    a ← copy_altsettings d
    put jni refs o Field.int_altsetting (object (some a))

  unfoldable pub copy_interfaces : UsbConfigDescriptor → Action jni.Vm Ref
  copy_interfaces d =
      copy_array jni refs Fields.interface Message.int_object none fill_interface main
        Message.int_array (pos d.b_num_interfaces) d.interface

  unfoldable pub fill_config : Ref → UsbConfigDescriptor → Action jni.Vm (Unit {0})
  fill_config o d = do
    puts jni refs o (config_fields d)
    put_extra jni refs o Field.conf_desc_extra d.extra d.extralen
    a ← copy_interfaces d
    put jni refs o Field.conf_desc_interface (object (some a))

  -- Here alone a NULL array sets an error.
  unfoldable pub copy_configs : ℕ → Option (List UsbConfigDescriptor) → Action jni.Vm Ref
  copy_configs n =
      copy_array jni refs Fields.config_descriptor Message.conf_desc_object
        (some Message.config_null) fill_config main Message.conf_desc_array (pos n)
