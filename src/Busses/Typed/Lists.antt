-- ===== src/Busses/Typed/Lists.antt =====
-- The loop over the busses in `usb_get_busses` of LibusbJava.c on a virtual machine that checks types.
use owon_vds.Base.{ℕ, zero, suc, ◌≡◌, refl, false, Option, none, some, Bool-cases, inl, inr, ◌==◌}
use owon_vds.Base.Int.{pos}
use owon_vds.Libusb.Structs.{Ptr, UsbDevice, UsbBus}
use owon_vds.Jni.Api.{Jni, Ref, long}
use owon_vds.Jni.Types.{typed}
use owon_vds.Native.Fields
use owon_vds.Native.Fields.{JavaClass, Field}
use owon_vds.Native.State.{Message}
use owon_vds.Busses.Devices.{bus_links, bus_devices_fields, fill_bus, bus_loop}
use owon_vds.Busses.Typed.{
  Setting, Machine, kind, Has, HasIf, Onward-refl, Onward-trans, Has-Onward, HasIf-Onward, Ready,
  Ready-Onward, WellTyped, bind, Any, goes_on, lacks_rounds,
}
use owon_vds.Busses.Typed.Extra.{put_string-WellTyped}
use owon_vds.Busses.Typed.Steps.{put-WellTyped, puts-WellTyped, forget}
use owon_vds.Busses.Typed.Links.{
  read-WellTyped, current-WellTyped, new_next-WellTyped, bus_links-fit, bus_devices_fields-fit,
}
use owon_vds.Busses.Typed.Devices.{device_loop-WellTyped}

module _ {jni : Jni} (t : Setting jni) where
  fill_bus-WellTyped :
      (at : Ptr → Option UsbDevice) (main : Option Ref) (fuel : ℕ) (o : Ref)
      (next prev : Option Ref) (b : UsbBus) (v : Machine jni t.has)
      → Ready jni t.has main v
      → Has jni t.has (kind jni t.has Fields.bus) o v
      → HasIf jni t.has Fields.bus next v
      → HasIf jni t.has Fields.bus prev v
      → WellTyped jni t.has v
          (Any jni t.has)
          (fill_bus (typed t.classes jni) t.refs at main fuel o next prev b v)
  unfolding fill_bus
  fill_bus-WellTyped at main fuel o next prev b v ready has_o has_next has_prev =
      bind jni t.has
        (puts-WellTyped t Fields.bus o (bus_links next prev) v ready.0 has_o
          (bus_links-fit t next prev v has_next has_prev))
        λ _ v1 on1 _.
          bind jni t.has
            (put_string-WellTyped t o Field.bus_dirname v1 on1.fit
              (Has-Onward jni t.has o on1 has_o) b.dirname refl)
            λ _ v2 on' _.
              let on2 = Onward-trans jni t.has on1 on' in
              bind jni t.has
                (put-WellTyped t o Field.bus_location (long (pos b.location)) v2 on2.fit
                  (Has-Onward jni t.has o on2 has_o) refl)
                λ _ v3 on' _.
                  let on3 = Onward-trans jni t.has on2 on' in
                  let has_o3 = Has-Onward jni t.has o on3 has_o in
                  bind jni t.has
                    (device_loop-WellTyped t at main o fuel b.devices none none none v3
                      (Ready-Onward jni t.has main on3 ready) has_o3 tt tt tt)
                    λ first v4 on' has_first. forget t (
                      puts-WellTyped t Fields.bus o (bus_devices_fields first) v4 on'.fit
                        (Has-Onward jni t.has o on' has_o3)
                        (bus_devices_fields-fit t first v4 has_first))

  pub bus_loop-WellTyped :
      (at : Ptr → Option UsbBus) (devices_at : Ptr → Option UsbDevice) (devices fuel : ℕ) (p : Ptr)
      (o prev main : Option Ref) (v : Machine jni t.has)
      → v.misfit ≡ false
      → HasIf jni t.has Fields.bus o v
      → HasIf jni t.has Fields.bus prev v
      → HasIf jni t.has Fields.bus main v
      → WellTyped jni t.has v
          (HasIf jni t.has Fields.bus)
          (bus_loop (typed t.classes jni) t.refs at devices_at devices fuel p o prev main v)
  unfolding bus_loop
  bus_loop-WellTyped at devices_at devices zero p o prev main v fit has_o has_prev has_main =
      lacks_rounds
  bus_loop-WellTyped at devices_at devices (suc fuel) p o prev main v fit has_o has_prev has_main =
      elim (Bool-cases (p == 0)) [
        | inl e ↦ rw (e, bus_loop) (goes_on (Onward-refl jni t.has fit) has_main)
        | inr e ↦
            rw (e, bus_loop)
              (bind jni t.has (read-WellTyped t at p v fit) λ b v1 on1 _.
                bind jni t.has
                  (current-WellTyped t Fields.bus Message.bus_object o main v1 on1.fit
                    (HasIf-Onward jni t.has Fields.bus o on1 has_o)
                    (HasIf-Onward jni t.has Fields.bus main on1 has_main))
                  λ (obj, main') v2 on' (born, first).
                    let on2 = Onward-trans jni t.has on1 on' in
                    bind jni t.has
                      (new_next-WellTyped t Fields.bus Message.bus_object_next b.next v2 on2.fit)
                      λ next v3 on' ahead.
                        let on3 = Onward-trans jni t.has on2 on' in
                        let has_obj = Has-Onward jni t.has obj on' born in
                        let first3 = HasIf-Onward jni t.has Fields.bus main' on' first in
                        bind jni t.has
                          (fill_bus-WellTyped devices_at main' devices obj next prev b v3
                            (on3.fit, first3) has_obj ahead
                            (HasIf-Onward jni t.has Fields.bus prev on3 has_prev))
                          λ _ v4 on' _.
                            bus_loop-WellTyped at devices_at devices fuel b.next next (some obj)
                              main' v4 on'.fit (HasIf-Onward jni t.has Fields.bus next on' ahead)
                              (Has-Onward jni t.has obj on' has_obj)
                              (HasIf-Onward jni t.has Fields.bus main' on' first3))
      ]
