-- ===== src/Native/Names.antt =====
-- The names by which `usb_get_busses` of LibusbJava.c looks up classes and fields, and the order in
-- which it does so.
use owon_vds.Base.{String, List, [], ◌∷◌}
use owon_vds.Native.Fields.{
  JavaClass, Field, bus, device, device_descriptor, config_descriptor, interface,
  interface_descriptor, endpoint_descriptor, bus_next, bus_prev, bus_dirname, bus_devices,
  bus_location, bus_root_dev, dev_next, dev_prev, dev_filename, dev_bus, dev_descriptor, dev_config,
  dev_devnum, dev_num_children, dev_children, dev_dev_struct_addr, dev_desc_b_length,
  dev_desc_b_descriptor_type, dev_desc_bcd_usb, dev_desc_b_device_class,
  dev_desc_b_device_sub_class, dev_desc_b_device_protocol, dev_desc_b_max_packet_size0,
  dev_desc_id_vendor, dev_desc_id_product, dev_desc_bcd_device, dev_desc_i_manufacturer,
  dev_desc_i_product, dev_desc_i_serial_number, dev_desc_b_num_configurations, conf_desc_b_length,
  conf_desc_b_descriptor_type, conf_desc_w_total_length, conf_desc_b_num_interfaces,
  conf_desc_b_configuration_value, conf_desc_i_configuration, conf_desc_bm_attributes,
  conf_desc_max_power, conf_desc_interface, conf_desc_extra, conf_desc_extralen, int_altsetting,
  int_num_altsetting, int_desc_b_length, int_desc_b_descriptor_type, int_desc_b_interface_number,
  int_desc_b_alternate_setting, int_desc_b_num_endpoints, int_desc_b_interface_class,
  int_desc_b_interface_sub_class, int_desc_b_interface_protocol, int_desc_i_interface,
  int_desc_endpoint, int_desc_extra, int_desc_extralen, ep_desc_b_length, ep_desc_b_descriptor_type,
  ep_desc_b_endpoint_address, ep_desc_bm_attributes, ep_desc_w_max_packet_size, ep_desc_b_interval,
  ep_desc_b_refresh, ep_desc_b_synch_address, ep_desc_extra, ep_desc_extralen,
}

-- The argument of `FindClass`.
abbrev pub class_name : JavaClass → String
class_name bus = "ch/ntb/usb/Usb_Bus"
class_name device = "ch/ntb/usb/Usb_Device"
class_name device_descriptor = "ch/ntb/usb/Usb_Device_Descriptor"
class_name config_descriptor = "ch/ntb/usb/Usb_Config_Descriptor"
class_name interface = "ch/ntb/usb/Usb_Interface"
class_name interface_descriptor = "ch/ntb/usb/Usb_Interface_Descriptor"
class_name endpoint_descriptor = "ch/ntb/usb/Usb_Endpoint_Descriptor"

-- The field's Java name and signature in the call of `GetFieldID`.
abbrev pub field_name : Field → String
field_name bus_next = "next"
field_name bus_prev = "prev"
field_name bus_dirname = "dirname"
field_name bus_devices = "devices"
field_name bus_location = "location"
field_name bus_root_dev = "root_dev"
field_name dev_next = "next"
field_name dev_prev = "prev"
field_name dev_filename = "filename"
field_name dev_bus = "bus"
field_name dev_descriptor = "descriptor"
field_name dev_config = "config"
field_name dev_devnum = "devnum"
field_name dev_num_children = "num_children"
field_name dev_children = "children"
field_name dev_dev_struct_addr = "devStructAddr"
field_name dev_desc_b_length = "bLength"
field_name dev_desc_b_descriptor_type = "bDescriptorType"
field_name dev_desc_bcd_usb = "bcdUSB"
field_name dev_desc_b_device_class = "bDeviceClass"
field_name dev_desc_b_device_sub_class = "bDeviceSubClass"
field_name dev_desc_b_device_protocol = "bDeviceProtocol"
field_name dev_desc_b_max_packet_size0 = "bMaxPacketSize0"
field_name dev_desc_id_vendor = "idVendor"
field_name dev_desc_id_product = "idProduct"
field_name dev_desc_bcd_device = "bcdDevice"
field_name dev_desc_i_manufacturer = "iManufacturer"
field_name dev_desc_i_product = "iProduct"
field_name dev_desc_i_serial_number = "iSerialNumber"
field_name dev_desc_b_num_configurations = "bNumConfigurations"
field_name conf_desc_b_length = "bLength"
field_name conf_desc_b_descriptor_type = "bDescriptorType"
field_name conf_desc_w_total_length = "wTotalLength"
field_name conf_desc_b_num_interfaces = "bNumInterfaces"
field_name conf_desc_b_configuration_value = "bConfigurationValue"
field_name conf_desc_i_configuration = "iConfiguration"
field_name conf_desc_bm_attributes = "bmAttributes"
field_name conf_desc_max_power = "MaxPower"
field_name conf_desc_interface = "interface_"
field_name conf_desc_extra = "extra"
field_name conf_desc_extralen = "extralen"
field_name int_altsetting = "altsetting"
field_name int_num_altsetting = "num_altsetting"
field_name int_desc_b_length = "bLength"
field_name int_desc_b_descriptor_type = "bDescriptorType"
field_name int_desc_b_interface_number = "bInterfaceNumber"
field_name int_desc_b_alternate_setting = "bAlternateSetting"
field_name int_desc_b_num_endpoints = "bNumEndpoints"
field_name int_desc_b_interface_class = "bInterfaceClass"
field_name int_desc_b_interface_sub_class = "bInterfaceSubClass"
field_name int_desc_b_interface_protocol = "bInterfaceProtocol"
field_name int_desc_i_interface = "iInterface"
field_name int_desc_endpoint = "endpoint"
field_name int_desc_extra = "extra"
field_name int_desc_extralen = "extralen"
field_name ep_desc_b_length = "bLength"
field_name ep_desc_b_descriptor_type = "bDescriptorType"
field_name ep_desc_b_endpoint_address = "bEndpointAddress"
field_name ep_desc_bm_attributes = "bmAttributes"
field_name ep_desc_w_max_packet_size = "wMaxPacketSize"
field_name ep_desc_b_interval = "bInterval"
field_name ep_desc_b_refresh = "bRefresh"
field_name ep_desc_b_synch_address = "bSynchAddress"
field_name ep_desc_extra = "extra"
field_name ep_desc_extralen = "extralen"

abbrev pub field_signature : Field → String
field_signature bus_next = "Lch/ntb/usb/Usb_Bus;"
field_signature bus_prev = "Lch/ntb/usb/Usb_Bus;"
field_signature bus_dirname = "Ljava/lang/String;"
field_signature bus_devices = "Lch/ntb/usb/Usb_Device;"
field_signature bus_location = "J"
field_signature bus_root_dev = "Lch/ntb/usb/Usb_Device;"
field_signature dev_next = "Lch/ntb/usb/Usb_Device;"
field_signature dev_prev = "Lch/ntb/usb/Usb_Device;"
field_signature dev_filename = "Ljava/lang/String;"
field_signature dev_bus = "Lch/ntb/usb/Usb_Bus;"
field_signature dev_descriptor = "Lch/ntb/usb/Usb_Device_Descriptor;"
field_signature dev_config = "[Lch/ntb/usb/Usb_Config_Descriptor;"
field_signature dev_devnum = "B"
field_signature dev_num_children = "B"
field_signature dev_children = "Lch/ntb/usb/Usb_Device;"
field_signature dev_dev_struct_addr = "J"
field_signature dev_desc_b_length = "B"
field_signature dev_desc_b_descriptor_type = "B"
field_signature dev_desc_bcd_usb = "S"
field_signature dev_desc_b_device_class = "B"
field_signature dev_desc_b_device_sub_class = "B"
field_signature dev_desc_b_device_protocol = "B"
field_signature dev_desc_b_max_packet_size0 = "B"
field_signature dev_desc_id_vendor = "S"
field_signature dev_desc_id_product = "S"
field_signature dev_desc_bcd_device = "S"
field_signature dev_desc_i_manufacturer = "B"
field_signature dev_desc_i_product = "B"
field_signature dev_desc_i_serial_number = "B"
field_signature dev_desc_b_num_configurations = "B"
field_signature conf_desc_b_length = "B"
field_signature conf_desc_b_descriptor_type = "B"
field_signature conf_desc_w_total_length = "S"
field_signature conf_desc_b_num_interfaces = "B"
field_signature conf_desc_b_configuration_value = "B"
field_signature conf_desc_i_configuration = "B"
field_signature conf_desc_bm_attributes = "B"
field_signature conf_desc_max_power = "B"
field_signature conf_desc_interface = "[Lch/ntb/usb/Usb_Interface;"
field_signature conf_desc_extra = "[B"
field_signature conf_desc_extralen = "I"
field_signature int_altsetting = "[Lch/ntb/usb/Usb_Interface_Descriptor;"
field_signature int_num_altsetting = "I"
field_signature int_desc_b_length = "B"
field_signature int_desc_b_descriptor_type = "B"
field_signature int_desc_b_interface_number = "B"
field_signature int_desc_b_alternate_setting = "B"
field_signature int_desc_b_num_endpoints = "B"
field_signature int_desc_b_interface_class = "B"
field_signature int_desc_b_interface_sub_class = "B"
field_signature int_desc_b_interface_protocol = "B"
field_signature int_desc_i_interface = "B"
field_signature int_desc_endpoint = "[Lch/ntb/usb/Usb_Endpoint_Descriptor;"
field_signature int_desc_extra = "[B"
field_signature int_desc_extralen = "I"
field_signature ep_desc_b_length = "B"
field_signature ep_desc_b_descriptor_type = "B"
field_signature ep_desc_b_endpoint_address = "B"
field_signature ep_desc_bm_attributes = "B"
field_signature ep_desc_w_max_packet_size = "S"
field_signature ep_desc_b_interval = "B"
field_signature ep_desc_b_refresh = "B"
field_signature ep_desc_b_synch_address = "B"
field_signature ep_desc_extra = "[B"
field_signature ep_desc_extralen = "I"

-- The fields of a class in the order in which they are looked up.
abbrev pub fields_of : JavaClass → List Field
fields_of bus = bus_next ∷ bus_prev ∷ bus_dirname ∷ bus_devices ∷ bus_location ∷ bus_root_dev ∷ []
fields_of device =
    dev_next ∷ dev_prev ∷ dev_filename ∷ dev_bus ∷ dev_descriptor ∷ dev_config ∷ dev_devnum
    ∷ dev_num_children ∷ dev_children ∷ dev_dev_struct_addr ∷ []
fields_of device_descriptor =
    dev_desc_b_length ∷ dev_desc_b_descriptor_type ∷ dev_desc_bcd_usb ∷ dev_desc_b_device_class
    ∷ dev_desc_b_device_sub_class ∷ dev_desc_b_device_protocol ∷ dev_desc_b_max_packet_size0
    ∷ dev_desc_id_vendor ∷ dev_desc_id_product ∷ dev_desc_bcd_device ∷ dev_desc_i_manufacturer
    ∷ dev_desc_i_product ∷ dev_desc_i_serial_number ∷ dev_desc_b_num_configurations ∷ []
fields_of config_descriptor =
    conf_desc_b_length ∷ conf_desc_b_descriptor_type ∷ conf_desc_w_total_length
    ∷ conf_desc_b_num_interfaces ∷ conf_desc_b_configuration_value ∷ conf_desc_i_configuration
    ∷ conf_desc_bm_attributes ∷ conf_desc_max_power ∷ conf_desc_interface ∷ conf_desc_extra
    ∷ conf_desc_extralen ∷ []
fields_of interface = int_altsetting ∷ int_num_altsetting ∷ []
fields_of interface_descriptor =
    int_desc_b_length ∷ int_desc_b_descriptor_type ∷ int_desc_b_interface_number
    ∷ int_desc_b_alternate_setting ∷ int_desc_b_num_endpoints ∷ int_desc_b_interface_class
    ∷ int_desc_b_interface_sub_class ∷ int_desc_b_interface_protocol ∷ int_desc_i_interface
    ∷ int_desc_endpoint ∷ int_desc_extra ∷ int_desc_extralen ∷ []
fields_of endpoint_descriptor =
    ep_desc_b_length ∷ ep_desc_b_descriptor_type ∷ ep_desc_b_endpoint_address
    ∷ ep_desc_bm_attributes ∷ ep_desc_w_max_packet_size ∷ ep_desc_b_interval ∷ ep_desc_b_refresh
    ∷ ep_desc_b_synch_address ∷ ep_desc_extra ∷ ep_desc_extralen ∷ []

-- The classes in the order in which they are looked up.
abbrev pub all_classes : List JavaClass
all_classes =
    bus ∷ device ∷ device_descriptor ∷ config_descriptor ∷ interface ∷ interface_descriptor
    ∷ endpoint_descriptor ∷ []
