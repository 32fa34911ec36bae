-- ===== src/Tests/Readbacks.antt =====
-- The theorems on what Java can tell from the copy, at inputs that meet their hypotheses.
use owon_vds.Base.{◌≡◌, refl, [], ◌∷◌, arith}
use owon_vds.Base.Int.{pos}
use owon_vds.Jni.Laws.{IsRefusal}
use owon_vds.Busses.Action.{puts}
use owon_vds.Busses.Ends.{Ends}
use owon_vds.Busses.Descriptors.{endpoint_fields, interface_descriptor_fields, config_fields}
use owon_vds.Busses.Devices.{device_descriptor_fields}
use owon_vds.Busses.Readback.{IsDescriptor, read_descriptor, puts-read_descriptor}
use owon_vds.Busses.ReadbackConfigs.{
  read_endpoint, read_interface_descriptor, read_config, interface_descriptor_numbers,
  config_numbers, puts-read_configs,
}
use owon_vds.Busses.Puts.{slot}
use owon_vds.Jni.Api.{int}
use owon_vds.Native.Fields.{Field}
use owon_vds.Tests.Machine.{machine, machine-Laws, known, known-IsResolved}
use owon_vds.Tests.Memory.{bulk_in, setting, config, descriptor}
use owon_vds.Tests.Topology.{empty_heap}

descriptor-IsDescriptor : IsDescriptor (descriptor 1)
descriptor-IsDescriptor = record {
  b_length = omega arith;
  b_descriptor_type = omega arith;
  bcd_usb = omega arith;
  b_device_class = omega arith;
  b_device_sub_class = omega arith;
  b_device_protocol = omega arith;
  b_max_packet_size0 = omega arith;
  id_vendor = omega arith;
  id_product = omega arith;
  bcd_device = omega arith;
  i_manufacturer = omega arith;
  i_product = omega arith;
  i_serial_number = omega arith;
  b_num_configurations = omega arith;
}

puts-read_descriptor_example :
    Ends
      (IsRefusal (machine 100))
      (λ _ w. read_descriptor (machine 100) known-IsResolved w 0 ≡ descriptor 1)
      (puts (machine 100) known 0 (device_descriptor_fields (descriptor 1)) empty_heap)
puts-read_descriptor_example =
    puts-read_descriptor (machine 100) known-IsResolved (machine-Laws 100) (descriptor 1) 0
      empty_heap descriptor-IsDescriptor refl

puts-read_configs_example :
    Ends
      (IsRefusal (machine 100))
      (λ _ w.
        (read_endpoint (machine 100) known-IsResolved w 0 ≡ 7 ∷ 5 ∷ 0x81 ∷ 2 ∷ 512 ∷ 0 ∷ 0 ∷ 0 ∷ [])
        × ((machine 100).get w 0 (slot known-IsResolved Field.ep_desc_extralen) ≡ int (pos 2)))
      (puts (machine 100) known 0 (endpoint_fields bulk_in) empty_heap)
    × Ends
        (IsRefusal (machine 100))
        (λ _ w.
          (read_interface_descriptor (machine 100) known-IsResolved w 0
            ≡ interface_descriptor_numbers setting)
          × ((machine 100).get w 0 (slot known-IsResolved Field.int_desc_extralen) ≡ int (pos 0)))
        (puts (machine 100) known 0 (interface_descriptor_fields setting) empty_heap)
    × Ends
        (IsRefusal (machine 100))
        (λ _ w.
          (read_config (machine 100) known-IsResolved w 0 ≡ config_numbers config)
          × ((machine 100).get w 0 (slot known-IsResolved Field.conf_desc_extralen) ≡ int (pos 0)))
        (puts (machine 100) known 0 (config_fields config) empty_heap)
puts-read_configs_example =
    puts-read_configs (machine 100) known-IsResolved (machine-Laws 100) bulk_in setting config 0
      empty_heap
      (record {
        b_length = omega arith;
        b_descriptor_type = omega arith;
        b_endpoint_address = omega arith;
        bm_attributes = omega arith;
        w_max_packet_size = omega arith;
        b_interval = omega arith;
        b_refresh = omega arith;
        b_synch_address = omega arith;
      })
      (record {
        b_length = omega arith;
        b_descriptor_type = omega arith;
        b_interface_number = omega arith;
        b_alternate_setting = omega arith;
        b_num_endpoints = omega arith;
        b_interface_class = omega arith;
        b_interface_sub_class = omega arith;
        b_interface_protocol = omega arith;
        i_interface = omega arith;
      })
      (record {
        b_length = omega arith;
        b_descriptor_type = omega arith;
        w_total_length = omega arith;
        b_num_interfaces = omega arith;
        b_configuration_value = omega arith;
        i_configuration = omega arith;
        bm_attributes = omega arith;
        max_power = omega arith;
      })
      refl
