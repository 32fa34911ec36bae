-- ===== src/Native/Fields.antt =====
-- The Java classes and fields that LibusbJava.c refers to: one constructor for each of the global
-- class and field ID variables.
use owon_vds.Base.{ℕ}

-- The variables `usb_busClazz` to `usb_epDescClazz`, each with its `Mid`.
pub data JavaClass : Type 0 where
  bus device device_descriptor config_descriptor interface interface_descriptor
        endpoint_descriptor :
      JavaClass

abbrev pub class_key : JavaClass → ℕ
class_key bus = 0
class_key device = 1
class_key device_descriptor = 2
class_key config_descriptor = 3
class_key interface = 4
class_key interface_descriptor = 5
class_key endpoint_descriptor = 6

-- The variables `usb_busFID_next` to `usb_epDescFID_extralen`.
pub data Field : Type 0 where
  bus_next bus_prev bus_dirname : Field
  bus_devices bus_location bus_root_dev : Field
  dev_next dev_prev dev_filename : Field
  dev_bus dev_descriptor dev_config : Field
  dev_devnum dev_num_children dev_children : Field
  dev_dev_struct_addr : Field
  dev_desc_b_length dev_desc_b_descriptor_type dev_desc_bcd_usb : Field
  dev_desc_b_device_class dev_desc_b_device_sub_class dev_desc_b_device_protocol : Field
  dev_desc_b_max_packet_size0 dev_desc_id_vendor dev_desc_id_product : Field
  dev_desc_bcd_device dev_desc_i_manufacturer dev_desc_i_product : Field
  dev_desc_i_serial_number dev_desc_b_num_configurations : Field
  conf_desc_b_length conf_desc_b_descriptor_type conf_desc_w_total_length : Field
  conf_desc_b_num_interfaces conf_desc_b_configuration_value conf_desc_i_configuration : Field
  conf_desc_bm_attributes conf_desc_max_power conf_desc_interface : Field
  conf_desc_extra conf_desc_extralen : Field
  int_altsetting int_num_altsetting : Field
  int_desc_b_length int_desc_b_descriptor_type int_desc_b_interface_number : Field
  int_desc_b_alternate_setting int_desc_b_num_endpoints int_desc_b_interface_class : Field
  int_desc_b_interface_sub_class int_desc_b_interface_protocol int_desc_i_interface : Field
  int_desc_endpoint int_desc_extra int_desc_extralen : Field
  ep_desc_b_length ep_desc_b_descriptor_type ep_desc_b_endpoint_address : Field
  ep_desc_bm_attributes ep_desc_w_max_packet_size ep_desc_b_interval : Field
  ep_desc_b_refresh ep_desc_b_synch_address ep_desc_extra : Field
  ep_desc_extralen : Field

abbrev pub field_key : Field → ℕ
field_key bus_next = 0
field_key bus_prev = 1
field_key bus_dirname = 2
field_key bus_devices = 3
field_key bus_location = 4
field_key bus_root_dev = 5
field_key dev_next = 6
field_key dev_prev = 7
field_key dev_filename = 8
field_key dev_bus = 9
field_key dev_descriptor = 10
field_key dev_config = 11
field_key dev_devnum = 12
field_key dev_num_children = 13
field_key dev_children = 14
field_key dev_dev_struct_addr = 15
field_key dev_desc_b_length = 16
field_key dev_desc_b_descriptor_type = 17
field_key dev_desc_bcd_usb = 18
field_key dev_desc_b_device_class = 19
field_key dev_desc_b_device_sub_class = 20
field_key dev_desc_b_device_protocol = 21
field_key dev_desc_b_max_packet_size0 = 22
field_key dev_desc_id_vendor = 23
field_key dev_desc_id_product = 24
field_key dev_desc_bcd_device = 25
field_key dev_desc_i_manufacturer = 26
field_key dev_desc_i_product = 27
field_key dev_desc_i_serial_number = 28
field_key dev_desc_b_num_configurations = 29
field_key conf_desc_b_length = 30
field_key conf_desc_b_descriptor_type = 31
field_key conf_desc_w_total_length = 32
field_key conf_desc_b_num_interfaces = 33
field_key conf_desc_b_configuration_value = 34
field_key conf_desc_i_configuration = 35
field_key conf_desc_bm_attributes = 36
field_key conf_desc_max_power = 37
field_key conf_desc_interface = 38
field_key conf_desc_extra = 39
field_key conf_desc_extralen = 40
field_key int_altsetting = 41
field_key int_num_altsetting = 42
field_key int_desc_b_length = 43
field_key int_desc_b_descriptor_type = 44
field_key int_desc_b_interface_number = 45
field_key int_desc_b_alternate_setting = 46
field_key int_desc_b_num_endpoints = 47
field_key int_desc_b_interface_class = 48
field_key int_desc_b_interface_sub_class = 49
field_key int_desc_b_interface_protocol = 50
field_key int_desc_i_interface = 51
field_key int_desc_endpoint = 52
field_key int_desc_extra = 53
field_key int_desc_extralen = 54
field_key ep_desc_b_length = 55
field_key ep_desc_b_descriptor_type = 56
field_key ep_desc_b_endpoint_address = 57
field_key ep_desc_bm_attributes = 58
field_key ep_desc_w_max_packet_size = 59
field_key ep_desc_b_interval = 60
field_key ep_desc_b_refresh = 61
field_key ep_desc_b_synch_address = 62
field_key ep_desc_extra = 63
field_key ep_desc_extralen = 64

abbrev pub class_of : Field → JavaClass
class_of bus_next = bus
class_of bus_prev = bus
class_of bus_dirname = bus
class_of bus_devices = bus
class_of bus_location = bus
class_of bus_root_dev = bus
class_of dev_next = device
class_of dev_prev = device
class_of dev_filename = device
class_of dev_bus = device
class_of dev_descriptor = device
class_of dev_config = device
class_of dev_devnum = device
class_of dev_num_children = device
class_of dev_children = device
class_of dev_dev_struct_addr = device
class_of dev_desc_b_length = device_descriptor
class_of dev_desc_b_descriptor_type = device_descriptor
class_of dev_desc_bcd_usb = device_descriptor
class_of dev_desc_b_device_class = device_descriptor
class_of dev_desc_b_device_sub_class = device_descriptor
class_of dev_desc_b_device_protocol = device_descriptor
class_of dev_desc_b_max_packet_size0 = device_descriptor
class_of dev_desc_id_vendor = device_descriptor
class_of dev_desc_id_product = device_descriptor
class_of dev_desc_bcd_device = device_descriptor
class_of dev_desc_i_manufacturer = device_descriptor
class_of dev_desc_i_product = device_descriptor
class_of dev_desc_i_serial_number = device_descriptor
class_of dev_desc_b_num_configurations = device_descriptor
class_of conf_desc_b_length = config_descriptor
class_of conf_desc_b_descriptor_type = config_descriptor
class_of conf_desc_w_total_length = config_descriptor
class_of conf_desc_b_num_interfaces = config_descriptor
class_of conf_desc_b_configuration_value = config_descriptor
class_of conf_desc_i_configuration = config_descriptor
class_of conf_desc_bm_attributes = config_descriptor
class_of conf_desc_max_power = config_descriptor
class_of conf_desc_interface = config_descriptor
class_of conf_desc_extra = config_descriptor
class_of conf_desc_extralen = config_descriptor
class_of int_altsetting = interface
class_of int_num_altsetting = interface
class_of int_desc_b_length = interface_descriptor
class_of int_desc_b_descriptor_type = interface_descriptor
class_of int_desc_b_interface_number = interface_descriptor
class_of int_desc_b_alternate_setting = interface_descriptor
class_of int_desc_b_num_endpoints = interface_descriptor
class_of int_desc_b_interface_class = interface_descriptor
class_of int_desc_b_interface_sub_class = interface_descriptor
class_of int_desc_b_interface_protocol = interface_descriptor
class_of int_desc_i_interface = interface_descriptor
class_of int_desc_endpoint = interface_descriptor
class_of int_desc_extra = interface_descriptor
class_of int_desc_extralen = interface_descriptor
class_of ep_desc_b_length = endpoint_descriptor
class_of ep_desc_b_descriptor_type = endpoint_descriptor
class_of ep_desc_b_endpoint_address = endpoint_descriptor
class_of ep_desc_bm_attributes = endpoint_descriptor
class_of ep_desc_w_max_packet_size = endpoint_descriptor
class_of ep_desc_b_interval = endpoint_descriptor
class_of ep_desc_b_refresh = endpoint_descriptor
class_of ep_desc_b_synch_address = endpoint_descriptor
class_of ep_desc_extra = endpoint_descriptor
class_of ep_desc_extralen = endpoint_descriptor
