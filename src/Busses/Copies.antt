-- ===== src/Busses/Copies.antt =====
-- The copies of the descriptors of a device in `usb_get_busses` of LibusbJava.c: an endpoint, an
-- interface descriptor, an interface, a configuration, with all that hangs on them.
use owon_vds.Base.{ℕ, refl, Option, List}
use owon_vds.Base.Int.{pos}
use owon_vds.Libusb.Structs.{UsbInterfaceDescriptor, UsbInterface, UsbConfigDescriptor}
use owon_vds.Jni.Api.{Jni, Ref}
use owon_vds.Jni.Laws.{Laws, HasRoom, IsRefusal}
use owon_vds.Native.Fields.{Field}
use owon_vds.Native.State.{References}
use owon_vds.Busses.Descriptors.{
  endpoint_fields, interface_descriptor_fields, interface_fields, config_fields, fill_endpoint,
  copy_endpoints, fill_interface_descriptor, copy_altsettings, fill_interface, copy_interfaces,
  fill_config, copy_configs,
}
use owon_vds.Busses.Ends.{Ends, bind, mono}
use owon_vds.Busses.Frame.{Below, Grow, Only-trans}
use owon_vds.Busses.Puts.{IsResolved, puts-Put, Holds-spared}
use owon_vds.Busses.Arrays.{copy_array-IsArray}
use owon_vds.Busses.ArraySpec.{AllFirst, Fills, IsArray}
use owon_vds.Busses.Tree.{
  IsEndpointOk, IsInterfaceDescriptorOk, IsInterfaceOk, IsConfigOk, IsEndpoint,
  IsInterfaceDescriptor, IsInterface, IsConfig,
}
use owon_vds.Busses.Stable.{
  IsEndpoint-stable, IsInterfaceDescriptor-stable, IsInterface-stable, IsConfig-stable,
}
use owon_vds.Busses.Extra.{put_extra-Extra}
use owon_vds.Busses.Bodies.{put_array-Tail, fill-Body}

module _ (jni : Jni) (laws : Laws jni) (room : HasRoom jni) {refs : References}
    (res : IsResolved refs) where
  -- `main` is what an early return would give; with enough elements there is none.
  module _ (main : Option Ref) where
    pub fill_endpoint-Fills :
        Fills jni (IsEndpoint jni res) IsEndpointOk (fill_endpoint jni refs main)
    unfolding fill_endpoint
    fill_endpoint-Fills base v o d below new there fine =
        let l = endpoint_fields d in
        bind (puts-Put jni res laws o l v there refl) λ _ w p.
          let old = p.writes.only.live o there in
          mono
            (put_extra-Extra jni laws room res Field.ep_desc_extra
              (λ q h. p.writes.only.live q (below q h)) old d.extra d.extralen fine.extra)
            λ _ u x. (
              Only-trans jni p.writes.only x.writes.only,
              record {
                own = (new, x.writes.only.live o old);
                fields = Holds-spared jni res l _ refl x.writes p.holds;
                extra = x.extra;
              },
            )

    copy_endpoints-IsArray :
        (base v : jni.Vm) (d : UsbInterfaceDescriptor)
        → Below jni base v
        → IsInterfaceDescriptorOk d
        → Ends
            (IsRefusal jni)
            (λ a w.
              Grow jni v w
              × IsArray jni (IsEndpoint jni res) base w (pos d.b_num_endpoints) d.endpoint a)
            (copy_endpoints jni refs main d v)
    unfolding copy_endpoints
    copy_endpoints-IsArray base v d below fine =
        copy_array-IsArray jni laws res (IsEndpoint-stable jni res) fill_endpoint-Fills _ _ _ main
          d.endpoint _ (pos d.b_num_endpoints) base v below fine.endpoints

    pub fill_interface_descriptor-Fills :
        Fills jni
          (IsInterfaceDescriptor jni res)
          IsInterfaceDescriptorOk
          (fill_interface_descriptor jni refs main)
    unfolding fill_interface_descriptor
    fill_interface_descriptor-Fills base v o d below new there fine =
        mono
          (fill-Body jni laws room res (IsEndpoint-stable jni res) (interface_descriptor_fields d)
            Field.int_desc_extra d.extra d.extralen Field.int_desc_endpoint below there refl refl
            refl fine.extra (λ u. copy_endpoints-IsArray u u d (λ q h. h) fine))
          λ _ w b. (
            b.only,
            record {
              own = (new, b.only.live o there);
              fields = b.fields;
              extra = b.extra;
              endpoints = b.array;
            },
          )

    copy_altsettings-IsArray :
        (base v : jni.Vm) (d : UsbInterface)
        → Below jni base v
        → IsInterfaceOk d
        → Ends
            (IsRefusal jni)
            (λ a w.
              Grow jni v w
              × IsArray jni (IsInterfaceDescriptor jni res) base w d.num_altsetting d.altsetting a)
            (copy_altsettings jni refs main d v)
    unfolding copy_altsettings
    copy_altsettings-IsArray base v d below fine =
        copy_array-IsArray jni laws res (IsInterfaceDescriptor-stable jni res)
          fill_interface_descriptor-Fills _ _ _ main d.altsetting _ d.num_altsetting base v below
          fine.altsettings

    pub fill_interface-Fills :
        Fills jni (IsInterface jni res) IsInterfaceOk (fill_interface jni refs main)
    unfolding fill_interface
    fill_interface-Fills base v o d below new there fine =
        let l = interface_fields d in
        bind (puts-Put jni res laws o l v there refl) λ _ w p.
          let old = p.writes.only.live o there in
          mono
            (put_array-Tail jni laws room res (IsInterfaceDescriptor-stable jni res)
              Field.int_altsetting (λ q h. p.writes.only.live q (below q h)) old
              (copy_altsettings-IsArray w w d (λ q h. h) fine))
            λ _ z t. (
              Only-trans jni p.writes.only t.writes.only,
              record {
                own = (new, t.writes.only.live o old);
                fields = Holds-spared jni res l _ refl t.writes p.holds;
                altsettings = t.array;
              },
            )

    copy_interfaces-IsArray :
        (base v : jni.Vm) (d : UsbConfigDescriptor)
        → Below jni base v
        → IsConfigOk d
        → Ends
            (IsRefusal jni)
            (λ a w.
              Grow jni v w
              × IsArray jni (IsInterface jni res) base w (pos d.b_num_interfaces) d.interface a)
            (copy_interfaces jni refs main d v)
    unfolding copy_interfaces
    copy_interfaces-IsArray base v d below fine =
        copy_array-IsArray jni laws res (IsInterface-stable jni res) fill_interface-Fills _ _ _ main
          d.interface _ (pos d.b_num_interfaces) base v below fine.interfaces

    pub fill_config-Fills : Fills jni (IsConfig jni res) IsConfigOk (fill_config jni refs main)
    unfolding fill_config
    fill_config-Fills base v o d below new there fine =
        mono
          (fill-Body jni laws room res (IsInterface-stable jni res) (config_fields d)
            Field.conf_desc_extra d.extra d.extralen Field.conf_desc_interface below there refl refl
            refl fine.extra (λ u. copy_interfaces-IsArray u u d (λ q h. h) fine))
          λ _ w b. (
            b.only,
            record {
              own = (new, b.only.live o there);
              fields = b.fields;
              extra = b.extra;
              interfaces = b.array;
            },
          )

    -- Where the IDs are resolved and the virtual machine has room for byte arrays: given as many
    -- descriptors as the counts say, the configurations of a device, with their interfaces,
    -- interface descriptors, endpoints and extra bytes, are copied whole to a new array of new
    -- objects, and no object that was there is changed; or the machine refused an object, and the
    -- call returns NULL with an error.
    pub copy_configs-IsArray :
        (base v : jni.Vm) (n : ℕ) (configs : Option (List UsbConfigDescriptor))
        → Below jni base v
        → AllFirst IsConfigOk n configs
        → Ends
            (IsRefusal jni)
            (λ a w. Grow jni v w × IsArray jni (IsConfig jni res) base w (pos n) configs a)
            (copy_configs jni refs main n configs v)
    unfolding copy_configs
    copy_configs-IsArray base v n configs below fine =
        copy_array-IsArray jni laws res (IsConfig-stable jni res) fill_config-Fills _ _ _ main
          configs _ (pos n) base v below fine
