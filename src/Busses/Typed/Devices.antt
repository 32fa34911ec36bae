-- ===== src/Busses/Typed/Devices.antt =====
-- The loop over the devices of a bus in `usb_get_busses` of LibusbJava.c on a virtual machine that
-- checks types.
use owon_vds.Base.{ℕ, zero, suc, refl, Option, some, Bool-cases, inl, inr, ◌==◌}
use owon_vds.Libusb.Structs.{Ptr, UsbDevice}
use owon_vds.Jni.Api.{Jni, Ref, object}
use owon_vds.Jni.Types.{typed}
use owon_vds.Native.Fields
use owon_vds.Native.Fields.{JavaClass, Field}
use owon_vds.Native.Names.{field_signature}
use owon_vds.Native.State.{Message}
use owon_vds.Busses.Devices.{
  device_links, device_numbers, device_descriptor_fields, fill_device, device_loop,
}
use owon_vds.Busses.Typed.{
  Setting, Machine, kind, Has, HasIf, Onward-refl, Onward-trans, Has-Onward, HasIf-Onward, Ready,
  Ready-Onward, WellTyped, bind, Any, goes_on, lacks_rounds,
}
use owon_vds.Busses.Typed.Extra.{put_string-WellTyped}
use owon_vds.Busses.Typed.Steps.{Has-fits, new-WellTyped, put-WellTyped, puts-WellTyped}
use owon_vds.Busses.Typed.Descriptors.{put_array-WellTyped, copy_configs-WellTyped}
use owon_vds.Busses.Typed.Links.{
  read-WellTyped, current-WellTyped, new_next-WellTyped, device_links-fit,
}

module _ {jni : Jni} (t : Setting jni) where
  -- The fields of a device, its descriptor and its configurations.
  fill_device-WellTyped :
      (main : Option Ref) (bus o : Ref) (next prev : Option Ref) (p : Ptr) (d : UsbDevice)
      (v : Machine jni t.has)
      → Ready jni t.has main v
      → Has jni t.has (kind jni t.has Fields.device) o v
      → Has jni t.has (kind jni t.has Fields.bus) bus v
      → HasIf jni t.has Fields.device next v
      → HasIf jni t.has Fields.device prev v
      → WellTyped jni t.has v
          (Any jni t.has)
          (fill_device (typed t.classes jni) t.refs main bus o next prev p d v)
  unfolding fill_device
  fill_device-WellTyped main bus o next prev p d v ready has_o has_bus has_next has_prev =
      bind jni t.has
        (puts-WellTyped t Fields.device o (device_links next prev bus) v ready.0 has_o
          (device_links-fit t next prev bus v has_next has_prev has_bus))
        λ _ v1 on1 _.
          bind jni t.has
            (put_string-WellTyped t o Field.dev_filename v1 on1.fit
              (Has-Onward jni t.has o on1 has_o) d.filename refl)
            λ _ v2 on' _.
              let on2 = Onward-trans jni t.has on1 on' in
              bind jni t.has
                (puts-WellTyped t Fields.device o (device_numbers p d) v2 on2.fit
                  (Has-Onward jni t.has o on2 has_o) refl)
                λ _ v3 on' _.
                  let on3 = Onward-trans jni t.has on2 on' in
                  bind jni t.has
                    (new-WellTyped t Fields.device_descriptor Message.dev_desc_object v3 on3.fit)
                    λ desc v4 on' born.
                      let on4 = Onward-trans jni t.has on3 on' in
                      bind jni t.has
                        (puts-WellTyped t Fields.device_descriptor desc
                          (device_descriptor_fields d.descriptor) v4 on4.fit born refl)
                        λ _ v5 on' _.
                          let on5 = Onward-trans jni t.has on4 on' in
                          bind jni t.has
                            (put-WellTyped t o Field.dev_descriptor (object (some desc)) v5 on5.fit
                              (Has-Onward jni t.has o on5 has_o)
                              (Has-fits t Fields.device_descriptor desc v5
                                (field_signature Field.dev_descriptor)
                                (Has-Onward jni t.has desc on' born) refl))
                            λ _ v6 on' _.
                              let on6 = Onward-trans jni t.has on5 on' in
                              bind jni t.has
                                (copy_configs-WellTyped t main d.descriptor.b_num_configurations
                                  d.config v6 (Ready-Onward jni t.has main on6 ready))
                                λ a v7 on' array.
                                  put_array-WellTyped t Fields.config_descriptor o a
                                    Field.dev_config v7
                                    (Has-Onward jni t.has o (Onward-trans jni t.has on6 on') has_o)
                                    array on'.fit refl

  pub device_loop-WellTyped :
      (at : Ptr → Option UsbDevice) (main : Option Ref) (bus : Ref) (fuel : ℕ) (p : Ptr)
      (o prev main_dev : Option Ref) (v : Machine jni t.has)
      → Ready jni t.has main v
      → Has jni t.has (kind jni t.has Fields.bus) bus v
      → HasIf jni t.has Fields.device o v
      → HasIf jni t.has Fields.device prev v
      → HasIf jni t.has Fields.device main_dev v
      → WellTyped jni t.has v
          (HasIf jni t.has Fields.device)
          (device_loop (typed t.classes jni) t.refs at main bus fuel p o prev main_dev v)
  unfolding device_loop
  device_loop-WellTyped at main bus zero p o prev main_dev v ready has_bus has_o has_prev has_main =
      lacks_rounds
  device_loop-WellTyped at main bus (suc fuel) p o prev main_dev v ready has_bus has_o has_prev
        has_main =
      elim (Bool-cases (p == 0)) [
        | inl e ↦ rw (e, device_loop) (goes_on (Onward-refl jni t.has ready.0) has_main)
        | inr e ↦
            rw (e, device_loop)
              (bind jni t.has (read-WellTyped t at p v ready.0) λ d v1 on1 _.
                bind jni t.has
                  (current-WellTyped t Fields.device Message.dev_object o main_dev v1 on1.fit
                    (HasIf-Onward jni t.has Fields.device o on1 has_o)
                    (HasIf-Onward jni t.has Fields.device main_dev on1 has_main))
                  λ (obj, main_dev') v2 on' (born, first).
                    let on2 = Onward-trans jni t.has on1 on' in
                    bind jni t.has
                      (new_next-WellTyped t Fields.device Message.dev_object_next d.next v2 on2.fit)
                      λ next v3 on' ahead.
                        let on3 = Onward-trans jni t.has on2 on' in
                        let has_obj = Has-Onward jni t.has obj on' born in
                        let first3 = HasIf-Onward jni t.has Fields.device main_dev' on' first in
                        bind jni t.has
                          (fill_device-WellTyped main bus obj next prev p d v3
                            (Ready-Onward jni t.has main on3 ready) has_obj
                            (Has-Onward jni t.has bus on3 has_bus) ahead
                            (HasIf-Onward jni t.has Fields.device prev on3 has_prev))
                          λ _ v4 on' _.
                            let on4 = Onward-trans jni t.has on3 on' in
                            device_loop-WellTyped at main bus fuel d.next next (some obj) main_dev'
                              v4 (Ready-Onward jni t.has main on4 ready)
                              (Has-Onward jni t.has bus on4 has_bus)
                              (HasIf-Onward jni t.has Fields.device next on' ahead)
                              (Has-Onward jni t.has obj on' has_obj)
                              (HasIf-Onward jni t.has Fields.device main_dev' on' first3))
      ]
