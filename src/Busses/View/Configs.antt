-- ===== src/Busses/View/Configs.antt =====
-- How Java code reads the objects of configurations, with all that belongs to them, that
-- `usb_get_busses` of LibusbJava.c makes.
use owon_vds.Base.{◌≡◌}
use owon_vds.Base.Int.{pos, rounds}
use owon_vds.Libusb.Structs.{
  UsbEndpointDescriptor, UsbInterfaceDescriptor, UsbInterface, UsbConfigDescriptor,
}
use owon_vds.Jni.Api.{Jni, Ref}
use owon_vds.Native.Fields.{Field}
use owon_vds.Native.State.{References}
use owon_vds.Busses.Puts.{IsResolved}
use owon_vds.Busses.ArraySpec.{AllFirst}
use owon_vds.Busses.Tree.{IsEndpoint, IsInterfaceDescriptor, IsInterface, IsConfig}
use owon_vds.Busses.ReadbackConfigs.{
  IsEndpointWords, IsInterfaceDescriptorWords, IsConfigWords, read_endpoint-Holds,
  read_interface_descriptor-Holds, read_config-Holds,
}
use owon_vds.Busses.View.{
  seen_endpoint, seen_setting, seen_interface, seen_config, view_endpoint, view_setting,
  view_interface, view_config,
}
use owon_vds.Busses.View.Arrays.{read_held, read_extra-seen_extra}

-- The numbers of a configuration and of all its parts are words of their types.
abbrev pub IsSettingWords : UsbInterfaceDescriptor → Type 0
IsSettingWords d =
    IsInterfaceDescriptorWords d × AllFirst IsEndpointWords d.b_num_endpoints d.endpoint

abbrev pub IsInterfaceWords : UsbInterface → Type 0
IsInterfaceWords d = AllFirst IsSettingWords (rounds d.num_altsetting) d.altsetting

abbrev pub IsConfigTreeWords : UsbConfigDescriptor → Type 0
IsConfigTreeWords d = IsConfigWords d × AllFirst IsInterfaceWords d.b_num_interfaces d.interface

module _ (jni : Jni) {refs : References} (res : IsResolved refs) (w : jni.Vm) where
  view_endpoint-seen :
      (base : jni.Vm) (o : Ref) (d : UsbEndpointDescriptor)
      → IsEndpoint jni res base w o d
      → IsEndpointWords d
      → view_endpoint jni res w o ≡ seen_endpoint d
  view_endpoint-seen base o d is small = λ i. record {
    numbers = (read_endpoint-Holds jni res d small is.fields).0 i;
    extra =
        read_extra-seen_extra jni res w base o Field.ep_desc_extra d.extra d.extralen is.extra i;
  }

  view_setting-seen :
      (base : jni.Vm) (o : Ref) (d : UsbInterfaceDescriptor)
      → IsInterfaceDescriptor jni res base w o d
      → IsSettingWords d
      → view_setting jni res w o ≡ seen_setting d
  view_setting-seen base o d is (small, parts) = λ i. record {
    numbers = (read_interface_descriptor-Holds jni res d small is.fields).0 i;
    extra =
        read_extra-seen_extra jni res w base o Field.int_desc_extra d.extra d.extralen is.extra i;
    endpoints =
        read_held jni res w (view_endpoint jni res w) seen_endpoint IsEndpointWords
          view_endpoint-seen base (pos d.b_num_endpoints) d.endpoint o Field.int_desc_endpoint
          is.endpoints parts i;
  }

  view_interface-seen :
      (base : jni.Vm) (o : Ref) (d : UsbInterface)
      → IsInterface jni res base w o d
      → IsInterfaceWords d
      → view_interface jni res w o ≡ seen_interface d
  view_interface-seen base o d is parts =
      read_held jni res w (view_setting jni res w) seen_setting IsSettingWords view_setting-seen
        base d.num_altsetting d.altsetting o Field.int_altsetting is.altsettings parts

  pub view_config-seen :
      (base : jni.Vm) (o : Ref) (d : UsbConfigDescriptor)
      → IsConfig jni res base w o d
      → IsConfigTreeWords d
      → view_config jni res w o ≡ seen_config d
  view_config-seen base o d is (small, parts) = λ i. record {
    numbers = (read_config-Holds jni res d small is.fields).0 i;
    extra =
        read_extra-seen_extra jni res w base o Field.conf_desc_extra d.extra d.extralen is.extra i;
    interfaces =
        read_held jni res w (view_interface jni res w) seen_interface IsInterfaceWords
          view_interface-seen base (pos d.b_num_interfaces) d.interface o Field.conf_desc_interface
          is.interfaces parts i;
  }
