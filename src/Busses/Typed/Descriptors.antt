-- ===== src/Busses/Typed/Descriptors.antt =====
-- The copies of configurations, interfaces, interface descriptors and endpoints in `usb_get_busses` of
-- LibusbJava.c on a virtual machine that checks types.
use package.text.Mathlib.Text.{◌==◌ as str_eq}
use owon_vds.Base.{ℕ, ◌≡◌, refl, true, false, Option, some, List}
use owon_vds.Base.Int.{pos}
use owon_vds.Libusb.Structs.{UsbConfigDescriptor}
use owon_vds.Jni.Api.{Jni, Ref, object}
use owon_vds.Jni.Types.{typed, array_of}
use owon_vds.Native.Fields
use owon_vds.Native.Fields.{JavaClass, Field, class_of}
use owon_vds.Native.Names.{field_signature}
use owon_vds.Busses.Action.{put}
use owon_vds.Busses.Descriptors.{
  endpoint_fields, interface_descriptor_fields, interface_fields, config_fields, fill_endpoint,
  copy_endpoints, fill_interface_descriptor, copy_altsettings, fill_interface, copy_interfaces,
  fill_config, copy_configs,
}
use owon_vds.Busses.Typed.{
  Setting, Machine, kind, Has, Has-Onward, Ready, Ready-Onward, Onward-trans, WellTyped, bind, Any,
}
use owon_vds.Busses.Typed.Extra.{put_extra-WellTyped}
use owon_vds.Busses.Typed.Steps.{array_signature, array-fits, put-WellTyped, puts-WellTyped, forget}
use owon_vds.Busses.Typed.Copies.{FillsTyped, AnyArray, copy_array-WellTyped}

module _ {jni : Jni} (t : Setting jni) where
  -- An array of a class is written to a field of that type.
  pub put_array-WellTyped :
      (c : JavaClass) (o a : Ref) (f : Field) (v : Machine jni t.has)
      → Has jni t.has (kind jni t.has (class_of f)) o v
      → Has jni t.has (array_of (t.has.class_id c)) a v
      → v.misfit ≡ false
      → str_eq (array_signature c) (field_signature f) ≡ true
      → WellTyped jni t.has v
          (Any jni t.has)
          (put (typed t.classes jni) t.refs o f (object (some a)) v)
  put_array-WellTyped c o a f v has_o has_a fit e = forget t (
      put-WellTyped t o f (object (some a)) v fit has_o
        (array-fits t c a v (field_signature f) has_a.1 e))

  module _ (main : Option Ref) where
    -- The numbers, then the extra bytes, then the array of the descriptor's parts.
    fill_endpoint-WellTyped :
        FillsTyped t main Fields.endpoint_descriptor
          (fill_endpoint (typed t.classes jni) t.refs main)
    unfolding fill_endpoint
    fill_endpoint-WellTyped o d v ready born =
        bind jni t.has
          (puts-WellTyped t Fields.endpoint_descriptor o (endpoint_fields d) v ready.0 born refl)
          λ _ v1 on1 _.
            put_extra-WellTyped t o Field.ep_desc_extra v1 on1.fit (Has-Onward jni t.has o on1 born)
              d.extra d.extralen refl refl

    fill_interface_descriptor-WellTyped :
        FillsTyped t main Fields.interface_descriptor
          (fill_interface_descriptor (typed t.classes jni) t.refs main)
    unfolding fill_interface_descriptor copy_endpoints
    fill_interface_descriptor-WellTyped o d v ready born =
        bind jni t.has
          (puts-WellTyped t Fields.interface_descriptor o (interface_descriptor_fields d) v ready.0
            born refl)
          λ _ v1 on1 _.
            bind jni t.has
              (put_extra-WellTyped t o Field.int_desc_extra v1 on1.fit
                (Has-Onward jni t.has o on1 born) d.extra d.extralen refl refl)
              λ _ v2 on2 _.
                let on = Onward-trans jni t.has on1 on2 in
                bind jni t.has
                  (copy_array-WellTyped t main Fields.endpoint_descriptor fill_endpoint-WellTyped _
                    _ d.endpoint _ (pos d.b_num_endpoints) v2
                    (Ready-Onward jni t.has main on ready))
                  λ a v3 on3 array.
                    put_array-WellTyped Fields.endpoint_descriptor o a Field.int_desc_endpoint v3
                      (Has-Onward jni t.has o (Onward-trans jni t.has on on3) born) array on3.fit
                      refl

    fill_interface-WellTyped :
        FillsTyped t main Fields.interface (fill_interface (typed t.classes jni) t.refs main)
    unfolding fill_interface copy_altsettings
    fill_interface-WellTyped o d v ready born =
        bind jni t.has
          (puts-WellTyped t Fields.interface o (interface_fields d) v ready.0 born refl)
          λ _ v1 on1 _.
            bind jni t.has
              (copy_array-WellTyped t main Fields.interface_descriptor
                fill_interface_descriptor-WellTyped _ _ d.altsetting _ d.num_altsetting v1
                (Ready-Onward jni t.has main on1 ready))
              λ a v2 on2 array.
                put_array-WellTyped Fields.interface_descriptor o a Field.int_altsetting v2
                  (Has-Onward jni t.has o (Onward-trans jni t.has on1 on2) born) array on2.fit refl

    fill_config-WellTyped :
        FillsTyped t main Fields.config_descriptor (fill_config (typed t.classes jni) t.refs main)
    unfolding fill_config copy_interfaces
    fill_config-WellTyped o d v ready born =
        bind jni t.has
          (puts-WellTyped t Fields.config_descriptor o (config_fields d) v ready.0 born refl)
          λ _ v1 on1 _.
            bind jni t.has
              (put_extra-WellTyped t o Field.conf_desc_extra v1 on1.fit
                (Has-Onward jni t.has o on1 born) d.extra d.extralen refl refl)
              λ _ v2 on2 _.
                let on = Onward-trans jni t.has on1 on2 in
                bind jni t.has
                  (copy_array-WellTyped t main Fields.interface fill_interface-WellTyped _ _
                    d.interface _ (pos d.b_num_interfaces) v2
                    (Ready-Onward jni t.has main on ready))
                  λ a v3 on3 array.
                    put_array-WellTyped Fields.interface o a Field.conf_desc_interface v3
                      (Has-Onward jni t.has o (Onward-trans jni t.has on on3) born) array on3.fit
                      refl

    pub copy_configs-WellTyped :
        (n : ℕ) (xs : Option (List UsbConfigDescriptor)) (v : Machine jni t.has)
        → Ready jni t.has main v
        → WellTyped jni t.has v
            (AnyArray t main Fields.config_descriptor)
            (copy_configs (typed t.classes jni) t.refs main n xs v)
    unfolding copy_configs
    copy_configs-WellTyped n xs v ready =
        copy_array-WellTyped t main Fields.config_descriptor fill_config-WellTyped _ _ xs _ (pos n)
          v ready
