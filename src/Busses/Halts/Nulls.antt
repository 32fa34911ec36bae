-- ===== src/Busses/Halts/Nulls.antt =====
-- The copies of the descriptors of a device in `usb_get_busses` of LibusbJava.c, where an array in them
-- is NULL though its count says that it has elements.
use owon_vds.Base.{ℕ, ◌≡◌, ◌⊎◌, refl, inl, inr, true, Option, none, some, List}
use owon_vds.Base.Int.{ℤ, pos, rounds}
use owon_vds.Libusb.Structs.{UsbInterfaceDescriptor, UsbInterface, UsbConfigDescriptor, UsbDevice}
use owon_vds.Jni.Api.{Jni, Ref, Value}
use owon_vds.Jni.Laws.{Laws, HasRoom, IsRefusal}
use owon_vds.Native.Fields.{Field}
use owon_vds.Native.State.{References, Message}
use owon_vds.Busses.Action.{Action, and_then, puts, put_extra, ◌>>=◌, ◌>>◌}
use owon_vds.Busses.Descriptors.{
  interface_descriptor_fields, interface_fields, config_fields, copy_endpoints,
  fill_interface_descriptor, copy_altsettings, fill_interface, copy_interfaces, fill_config,
  copy_configs,
}
use owon_vds.Busses.Frame.{Only, Grow, Only-trans, Grow-Only}
use owon_vds.Busses.Puts.{IsResolved, distinct, puts-Put}
use owon_vds.Busses.Tree.{IsInterfaceDescriptorOk, IsInterfaceOk, IsConfigOk, IsExtraOk}
use owon_vds.Busses.Stable.{IsInterfaceDescriptor-stable, IsInterface-stable, IsConfig-stable}
use owon_vds.Busses.Extra.{put_extra-Extra}
use owon_vds.Busses.Copies.{
  fill_interface_descriptor-Fills, fill_interface-Fills, fill_config-Fills,
}
use owon_vds.Busses.Halts.{Halts, later, at_once, weaken}
use owon_vds.Busses.Halts.Arrays.{IsNull, FirstBad, FillHalts, copy_array-null, copy_array-Halts}

-- The endpoints are NULL.
pub record LacksEndpoints (d : UsbInterfaceDescriptor) : Type 0 where
  pub extra : IsExtraOk d.extra d.extralen
  pub endpoints : IsNull d.b_num_endpoints d.endpoint

-- The interface descriptors are NULL, or the first that is not whole lacks its endpoints.
abbrev pub LacksSettings : UsbInterface → Type 0
LacksSettings d =
    IsNull (rounds d.num_altsetting) d.altsetting
    ⊎ FirstBad IsInterfaceDescriptorOk LacksEndpoints (rounds d.num_altsetting) d.altsetting

-- The interfaces are NULL, or the first that is not whole lacks interface descriptors or endpoints.
pub record LacksInterfaces (d : UsbConfigDescriptor) : Type 0 where
  pub extra : IsExtraOk d.extra d.extralen
  pub interfaces :
      IsNull d.b_num_interfaces d.interface
      ⊎ FirstBad IsInterfaceOk LacksSettings d.b_num_interfaces d.interface

-- The first array of the device that is NULL though its count is not 0, with the error that is set
-- for it: for configurations there is one, and for all that is below them there is none.
abbrev pub Lacks : Option Message → UsbDevice → Type 0
Lacks m d =
    ((m ≡ some Message.config_null) × IsNull d.descriptor.b_num_configurations d.config)
    ⊎ ((m ≡ none) × FirstBad IsConfigOk LacksInterfaces d.descriptor.b_num_configurations d.config)

module _ (jni : Jni) (laws : Laws jni) (room : HasRoom jni) {refs : References}
    (res : IsResolved refs) (main : Option Ref) where
  -- The numbers and the extra bytes are written, and then a copy ends the call.
  fill-Halts :
      (l : List (Field × Value)) (f : Field) (e : Option (List ℕ)) (len : ℤ)
      {copy : Action jni.Vm Ref} (next : Ref → Action jni.Vm (Unit {0})) (o : Ref) (v : jni.Vm)
      → jni.live v o ≡ true
      → distinct l ≡ true
      → IsExtraOk e len
      → ((u : jni.Vm) → Halts (IsRefusal jni) main none (Grow jni u) (copy u))
      → Halts
          (IsRefusal jni)
          main
          none
          (Only jni o v)
          (and_then (puts jni refs o l v) (λ _. put_extra jni refs o f e len >> (copy >>= next)))
  fill-Halts l f e len next o v there apart fine copied =
      later (puts-Put jni res laws o l v there apart) λ _ w p.
        later
          (put_extra-Extra jni laws room res {base = w} f (λ q h. h) (p.writes.only.live o there) e
            len fine)
          λ _ u x. at_once _ (
            weaken (copied u) λ z g.
              Only-trans jni p.writes.only (Only-trans jni x.writes.only (Grow-Only jni o g)))

  fill_interface_descriptor-Halts :
      FillHalts jni laws res main LacksEndpoints (fill_interface_descriptor jni refs main)
  unfolding fill_interface_descriptor copy_endpoints
  fill_interface_descriptor-Halts o d v is there =
      fill-Halts (interface_descriptor_fields d) Field.int_desc_extra d.extra d.extralen _ o v there
        refl is.extra
        λ u.
          copy_array-null jni laws res main _ _ _ none _ (pos d.b_num_endpoints) d.endpoint u
            is.endpoints

  copy_altsettings-Halts :
      (d : UsbInterface) (v : jni.Vm)
      → LacksSettings d
      → Halts (IsRefusal jni) main none (Grow jni v) (copy_altsettings jni refs main d v)
  unfolding copy_altsettings
  copy_altsettings-Halts d v (inl null) =
      copy_array-null jni laws res main _ _ _ none _ d.num_altsetting d.altsetting v null
  copy_altsettings-Halts d v (inr bad) =
      copy_array-Halts jni laws res main (IsInterfaceDescriptor-stable jni res)
        (fill_interface_descriptor-Fills jni laws room res main) fill_interface_descriptor-Halts _ _
        none d.altsetting _ d.num_altsetting v bad

  fill_interface-Halts : FillHalts jni laws res main LacksSettings (fill_interface jni refs main)
  unfolding fill_interface
  fill_interface-Halts o d v is there =
      later (puts-Put jni res laws o (interface_fields d) v there refl) λ _ w p. at_once _ (
        weaken (copy_altsettings-Halts d w is)
          λ u g. Only-trans jni p.writes.only (Grow-Only jni o g))

  copy_interfaces-Halts :
      (d : UsbConfigDescriptor) (v : jni.Vm)
      → IsNull d.b_num_interfaces d.interface
        ⊎ FirstBad IsInterfaceOk LacksSettings d.b_num_interfaces d.interface
      → Halts (IsRefusal jni) main none (Grow jni v) (copy_interfaces jni refs main d v)
  unfolding copy_interfaces
  copy_interfaces-Halts d v (inl null) =
      copy_array-null jni laws res main _ _ _ none _ (pos d.b_num_interfaces) d.interface v null
  copy_interfaces-Halts d v (inr bad) =
      copy_array-Halts jni laws res main (IsInterface-stable jni res)
        (fill_interface-Fills jni laws room res main) fill_interface-Halts _ _ none d.interface _
        (pos d.b_num_interfaces) v bad

  fill_config-Halts : FillHalts jni laws res main LacksInterfaces (fill_config jni refs main)
  unfolding fill_config
  fill_config-Halts o d v is there =
      fill-Halts (config_fields d) Field.conf_desc_extra d.extra d.extralen _ o v there refl
        is.extra λ u. copy_interfaces-Halts d u is.interfaces

  pub copy_configs-Halts :
      (m : Option Message) (d : UsbDevice) (v : jni.Vm)
      → Lacks m d
      → Halts
          (IsRefusal jni)
          main
          m
          (Grow jni v)
          (copy_configs jni refs main d.descriptor.b_num_configurations d.config v)
  unfolding copy_configs
  copy_configs-Halts m d v (inl (e, null)) = rw e (
      copy_array-null jni laws res main _ _ _ _ _ (pos d.descriptor.b_num_configurations) d.config v
        null)
  copy_configs-Halts m d v (inr (e, bad)) = rw e (
      copy_array-Halts jni laws res main (IsConfig-stable jni res)
        (fill_config-Fills jni laws room res main) fill_config-Halts _ _ _ d.config _
        (pos d.descriptor.b_num_configurations) v bad)
