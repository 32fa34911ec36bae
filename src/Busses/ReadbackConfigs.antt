-- ===== src/Busses/ReadbackConfigs.antt =====
-- How Java code reads the objects of endpoints, interface descriptors and configurations that
-- `usb_get_busses` of LibusbJava.c fills.
use owon_vds.Base.{ℕ, ◌<◌, ◌^◌, ◌≡◌, refl, true, List, [], ◌∷◌}
use owon_vds.Libusb.Structs.{UsbEndpointDescriptor, UsbInterfaceDescriptor, UsbConfigDescriptor}
use owon_vds.Jni.Api.{Jni, Ref, int}
use owon_vds.Jni.Laws.{Laws, IsRefusal}
use owon_vds.Native.Fields.{Field}
use owon_vds.Native.State.{References}
use owon_vds.Busses.Action.{puts}
use owon_vds.Busses.Descriptors.{endpoint_fields, interface_descriptor_fields, config_fields}
use owon_vds.Busses.Ends.{Ends, mono}
use owon_vds.Busses.Puts.{IsResolved, slot, Holds, puts-Put}
use owon_vds.Busses.Readback.{low_byte, low_short, low_byte-to_jbyte, low_short-to_jshort}

-- The numbers of a descriptor, in the order of usb.h, and the bounds of their types.
abbrev pub endpoint_numbers : UsbEndpointDescriptor → List ℕ
endpoint_numbers d =
    d.b_length ∷ d.b_descriptor_type ∷ d.b_endpoint_address ∷ d.bm_attributes ∷ d.w_max_packet_size
    ∷ d.b_interval ∷ d.b_refresh ∷ d.b_synch_address ∷ []

pub record IsEndpointWords (d : UsbEndpointDescriptor) : Type 0 where
  pub b_length : d.b_length < 2 ^ 8
  pub b_descriptor_type : d.b_descriptor_type < 2 ^ 8
  pub b_endpoint_address : d.b_endpoint_address < 2 ^ 8
  pub bm_attributes : d.bm_attributes < 2 ^ 8
  pub w_max_packet_size : d.w_max_packet_size < 2 ^ 16
  pub b_interval : d.b_interval < 2 ^ 8
  pub b_refresh : d.b_refresh < 2 ^ 8
  pub b_synch_address : d.b_synch_address < 2 ^ 8

abbrev pub interface_descriptor_numbers : UsbInterfaceDescriptor → List ℕ
interface_descriptor_numbers d =
    d.b_length ∷ d.b_descriptor_type ∷ d.b_interface_number ∷ d.b_alternate_setting
    ∷ d.b_num_endpoints ∷ d.b_interface_class ∷ d.b_interface_sub_class ∷ d.b_interface_protocol
    ∷ d.i_interface ∷ []

pub record IsInterfaceDescriptorWords (d : UsbInterfaceDescriptor) : Type 0 where
  pub b_length : d.b_length < 2 ^ 8
  pub b_descriptor_type : d.b_descriptor_type < 2 ^ 8
  pub b_interface_number : d.b_interface_number < 2 ^ 8
  pub b_alternate_setting : d.b_alternate_setting < 2 ^ 8
  pub b_num_endpoints : d.b_num_endpoints < 2 ^ 8
  pub b_interface_class : d.b_interface_class < 2 ^ 8
  pub b_interface_sub_class : d.b_interface_sub_class < 2 ^ 8
  pub b_interface_protocol : d.b_interface_protocol < 2 ^ 8
  pub i_interface : d.i_interface < 2 ^ 8

abbrev pub config_numbers : UsbConfigDescriptor → List ℕ
config_numbers d =
    d.b_length ∷ d.b_descriptor_type ∷ d.w_total_length ∷ d.b_num_interfaces
    ∷ d.b_configuration_value ∷ d.i_configuration ∷ d.bm_attributes ∷ d.max_power ∷ []

pub record IsConfigWords (d : UsbConfigDescriptor) : Type 0 where
  pub b_length : d.b_length < 2 ^ 8
  pub b_descriptor_type : d.b_descriptor_type < 2 ^ 8
  pub w_total_length : d.w_total_length < 2 ^ 16
  pub b_num_interfaces : d.b_num_interfaces < 2 ^ 8
  pub b_configuration_value : d.b_configuration_value < 2 ^ 8
  pub i_configuration : d.i_configuration < 2 ^ 8
  pub bm_attributes : d.bm_attributes < 2 ^ 8
  pub max_power : d.max_power < 2 ^ 8

module _ (jni : Jni) {refs : References} (res : IsResolved refs) where
  -- The same numbers as Java code reads them from the fields of the object, as unsigned.
  abbrev pub read_endpoint : jni.Vm → Ref → List ℕ
  read_endpoint w o =
      low_byte (jni.get w o (slot res Field.ep_desc_b_length))
      ∷ low_byte (jni.get w o (slot res Field.ep_desc_b_descriptor_type))
      ∷ low_byte (jni.get w o (slot res Field.ep_desc_b_endpoint_address))
      ∷ low_byte (jni.get w o (slot res Field.ep_desc_bm_attributes))
      ∷ low_short (jni.get w o (slot res Field.ep_desc_w_max_packet_size))
      ∷ low_byte (jni.get w o (slot res Field.ep_desc_b_interval))
      ∷ low_byte (jni.get w o (slot res Field.ep_desc_b_refresh))
      ∷ low_byte (jni.get w o (slot res Field.ep_desc_b_synch_address))
      ∷ []

  pub read_endpoint-Holds :
      {w : jni.Vm} {o : Ref} (d : UsbEndpointDescriptor)
      → IsEndpointWords d
      → Holds jni res w o (endpoint_fields d)
      → (read_endpoint w o ≡ endpoint_numbers d)
        × (jni.get w o (slot res Field.ep_desc_extralen) ≡ int d.extralen)
  read_endpoint-Holds d small (h0, (h1, (h2, (h3, (h4, (h5, (h6, (h7, (len, rest))))))))) = (
    λ i.
        low_byte-to_jbyte jni res Field.ep_desc_b_length d.b_length small.b_length h0 i
        ∷ low_byte-to_jbyte jni res Field.ep_desc_b_descriptor_type d.b_descriptor_type
            small.b_descriptor_type h1 i
        ∷ low_byte-to_jbyte jni res Field.ep_desc_b_endpoint_address d.b_endpoint_address
            small.b_endpoint_address h2 i
        ∷ low_byte-to_jbyte jni res Field.ep_desc_bm_attributes d.bm_attributes small.bm_attributes
            h3 i
        ∷ low_short-to_jshort jni res Field.ep_desc_w_max_packet_size d.w_max_packet_size
            small.w_max_packet_size h4 i
        ∷ low_byte-to_jbyte jni res Field.ep_desc_b_interval d.b_interval small.b_interval h5 i
        ∷ low_byte-to_jbyte jni res Field.ep_desc_b_refresh d.b_refresh small.b_refresh h6 i
        ∷ low_byte-to_jbyte jni res Field.ep_desc_b_synch_address d.b_synch_address
            small.b_synch_address h7 i
        ∷ [],
    len,
  )

  -- The same numbers as Java code reads them from the fields of the object, as unsigned.
  abbrev pub read_interface_descriptor : jni.Vm → Ref → List ℕ
  read_interface_descriptor w o =
      low_byte (jni.get w o (slot res Field.int_desc_b_length))
      ∷ low_byte (jni.get w o (slot res Field.int_desc_b_descriptor_type))
      ∷ low_byte (jni.get w o (slot res Field.int_desc_b_interface_number))
      ∷ low_byte (jni.get w o (slot res Field.int_desc_b_alternate_setting))
      ∷ low_byte (jni.get w o (slot res Field.int_desc_b_num_endpoints))
      ∷ low_byte (jni.get w o (slot res Field.int_desc_b_interface_class))
      ∷ low_byte (jni.get w o (slot res Field.int_desc_b_interface_sub_class))
      ∷ low_byte (jni.get w o (slot res Field.int_desc_b_interface_protocol))
      ∷ low_byte (jni.get w o (slot res Field.int_desc_i_interface))
      ∷ []

  pub read_interface_descriptor-Holds :
      {w : jni.Vm} {o : Ref} (d : UsbInterfaceDescriptor)
      → IsInterfaceDescriptorWords d
      → Holds jni res w o (interface_descriptor_fields d)
      → (read_interface_descriptor w o ≡ interface_descriptor_numbers d)
        × (jni.get w o (slot res Field.int_desc_extralen) ≡ int d.extralen)
  read_interface_descriptor-Holds d small
        (h0, (h1, (h2, (h3, (h4, (h5, (h6, (h7, (h8, (len, rest)))))))))) =
      (
        λ i.
            low_byte-to_jbyte jni res Field.int_desc_b_length d.b_length small.b_length h0 i
            ∷ low_byte-to_jbyte jni res Field.int_desc_b_descriptor_type d.b_descriptor_type
                small.b_descriptor_type h1 i
            ∷ low_byte-to_jbyte jni res Field.int_desc_b_interface_number d.b_interface_number
                small.b_interface_number h2 i
            ∷ low_byte-to_jbyte jni res Field.int_desc_b_alternate_setting d.b_alternate_setting
                small.b_alternate_setting h3 i
            ∷ low_byte-to_jbyte jni res Field.int_desc_b_num_endpoints d.b_num_endpoints
                small.b_num_endpoints h4 i
            ∷ low_byte-to_jbyte jni res Field.int_desc_b_interface_class d.b_interface_class
                small.b_interface_class h5 i
            ∷ low_byte-to_jbyte jni res Field.int_desc_b_interface_sub_class d.b_interface_sub_class
                small.b_interface_sub_class h6 i
            ∷ low_byte-to_jbyte jni res Field.int_desc_b_interface_protocol d.b_interface_protocol
                small.b_interface_protocol h7 i
            ∷ low_byte-to_jbyte jni res Field.int_desc_i_interface d.i_interface small.i_interface
                h8 i
            ∷ [],
        len,
      )

  -- The same numbers as Java code reads them from the fields of the object, as unsigned.
  abbrev pub read_config : jni.Vm → Ref → List ℕ
  read_config w o =
      low_byte (jni.get w o (slot res Field.conf_desc_b_length))
      ∷ low_byte (jni.get w o (slot res Field.conf_desc_b_descriptor_type))
      ∷ low_short (jni.get w o (slot res Field.conf_desc_w_total_length))
      ∷ low_byte (jni.get w o (slot res Field.conf_desc_b_num_interfaces))
      ∷ low_byte (jni.get w o (slot res Field.conf_desc_b_configuration_value))
      ∷ low_byte (jni.get w o (slot res Field.conf_desc_i_configuration))
      ∷ low_byte (jni.get w o (slot res Field.conf_desc_bm_attributes))
      ∷ low_byte (jni.get w o (slot res Field.conf_desc_max_power))
      ∷ []

  pub read_config-Holds :
      {w : jni.Vm} {o : Ref} (d : UsbConfigDescriptor)
      → IsConfigWords d
      → Holds jni res w o (config_fields d)
      → (read_config w o ≡ config_numbers d)
        × (jni.get w o (slot res Field.conf_desc_extralen) ≡ int d.extralen)
  read_config-Holds d small (h0, (h1, (h2, (h3, (h4, (h5, (h6, (h7, (len, rest))))))))) = (
    λ i.
        low_byte-to_jbyte jni res Field.conf_desc_b_length d.b_length small.b_length h0 i
        ∷ low_byte-to_jbyte jni res Field.conf_desc_b_descriptor_type d.b_descriptor_type
            small.b_descriptor_type h1 i
        ∷ low_short-to_jshort jni res Field.conf_desc_w_total_length d.w_total_length
            small.w_total_length h2 i
        ∷ low_byte-to_jbyte jni res Field.conf_desc_b_num_interfaces d.b_num_interfaces
            small.b_num_interfaces h3 i
        ∷ low_byte-to_jbyte jni res Field.conf_desc_b_configuration_value d.b_configuration_value
            small.b_configuration_value h4 i
        ∷ low_byte-to_jbyte jni res Field.conf_desc_i_configuration d.i_configuration
            small.i_configuration h5 i
        ∷ low_byte-to_jbyte jni res Field.conf_desc_bm_attributes d.bm_attributes
            small.bm_attributes h6 i
        ∷ low_byte-to_jbyte jni res Field.conf_desc_max_power d.max_power small.max_power h7 i
        ∷ [],
    len,
  )

  -- Where the IDs are resolved and the object exists: once `usb_get_busses` has written the numbers
  -- of an endpoint, an interface descriptor or a configuration to the object, Java code that reads
  -- its bytes and shorts as unsigned gets them back, and `extralen` as it is.
  pub puts-read_configs :
      (laws : Laws jni) (a : UsbEndpointDescriptor) (b : UsbInterfaceDescriptor)
      (c : UsbConfigDescriptor) (o : Ref) (v : jni.Vm)
      → IsEndpointWords a
      → IsInterfaceDescriptorWords b
      → IsConfigWords c
      → jni.live v o ≡ true
      → Ends
          (IsRefusal jni)
          (λ _ w.
            (read_endpoint w o ≡ endpoint_numbers a)
            × (jni.get w o (slot res Field.ep_desc_extralen) ≡ int a.extralen))
          (puts jni refs o (endpoint_fields a) v)
        × Ends
            (IsRefusal jni)
            (λ _ w.
              (read_interface_descriptor w o ≡ interface_descriptor_numbers b)
              × (jni.get w o (slot res Field.int_desc_extralen) ≡ int b.extralen))
            (puts jni refs o (interface_descriptor_fields b) v)
        × Ends
            (IsRefusal jni)
            (λ _ w.
              (read_config w o ≡ config_numbers c)
              × (jni.get w o (slot res Field.conf_desc_extralen) ≡ int c.extralen))
            (puts jni refs o (config_fields c) v)
  puts-read_configs laws a b c o v small_a small_b small_c there = (
    mono (puts-Put jni res laws o (endpoint_fields a) v there refl)
        λ _ w p. read_endpoint-Holds a small_a p.holds,
    mono (puts-Put jni res laws o (interface_descriptor_fields b) v there refl)
        λ _ w p. read_interface_descriptor-Holds b small_b p.holds,
    mono (puts-Put jni res laws o (config_fields c) v there refl)
        λ _ w p. read_config-Holds c small_c p.holds,
  )
