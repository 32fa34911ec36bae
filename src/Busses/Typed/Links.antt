-- ===== src/Busses/Typed/Links.antt =====
-- The steps of a round of the loops over linked lists in `usb_get_busses` of LibusbJava.c, and the links
-- that it writes, on a virtual machine that checks types.
use owon_vds.Base.{
  ◌≡◌, refl, true, false, Option, none, some, Option-cases, Bool-cases, inl, inr, ◌==◌,
}
use owon_vds.Libusb.Structs.{Ptr}
use owon_vds.Jni.Api.{Jni, Ref}
use owon_vds.Jni.Types.{typed}
use owon_vds.Native.Fields
use owon_vds.Native.Fields.{JavaClass, Field}
use owon_vds.Native.Names.{field_signature}
use owon_vds.Native.State.{Message}
use owon_vds.Busses.Devices.{read, current, new_next, device_links, bus_links, bus_devices_fields}
use owon_vds.Busses.Typed.{
  Setting, Machine, kind, Has, HasIf, Onward-refl, WellTyped, bind, Any, goes_on, faults,
}
use owon_vds.Busses.Typed.Steps.{all_fit, Has-fits, HasIf-fits, new-WellTyped}

module _ {jni : Jni} (t : Setting jni) where
  pub read-WellTyped :
      {A : Type 0} (at : Ptr → Option A) (p : Ptr) (v : Machine jni t.has)
      → v.misfit ≡ false
      → WellTyped jni t.has v (Any jni t.has) (read at p v)
  unfolding read
  read-WellTyped at p v fit = elim (Option-cases (at p)) [
    | inl e ↦ rw (e, read) faults
    | inr (x, e) ↦ rw (e, read) (goes_on (Onward-refl jni t.has fit) tt)
  ]

  -- The object of this round, and `main`.
  pub current-WellTyped :
      (c : JavaClass) (m : Message) (o main : Option Ref) (v : Machine jni t.has)
      → v.misfit ≡ false
      → HasIf jni t.has c o v
      → HasIf jni t.has c main v
      → WellTyped jni t.has v
          (λ (obj, main') w. Has jni t.has (kind jni t.has c) obj w × HasIf jni t.has c main' w)
          (current (typed t.classes jni) t.refs c m o main v)
  unfolding current
  current-WellTyped c m none main v fit has_o has_main =
      bind jni t.has (new-WellTyped t c m v fit)
        λ o w on born. goes_on (Onward-refl jni t.has on.fit) (born, born)
  current-WellTyped c m (some o) main v fit has_o has_main =
      goes_on (Onward-refl jni t.has fit) (has_o, has_main)

  pub new_next-WellTyped :
      (c : JavaClass) (m : Message) (p : Ptr) (v : Machine jni t.has)
      → v.misfit ≡ false
      → WellTyped jni t.has v (HasIf jni t.has c) (new_next (typed t.classes jni) t.refs c m p v)
  unfolding new_next
  new_next-WellTyped c m p v fit = elim (Bool-cases (p == 0)) [
    | inl e ↦ rw (e, new_next) (goes_on (Onward-refl jni t.has fit) tt)
    | inr e ↦
        rw (e, new_next)
          (bind jni t.has (new-WellTyped t c m v fit)
            λ o w on born. goes_on (Onward-refl jni t.has on.fit) born)
  ]

  pub device_links-fit :
      (next prev : Option Ref) (bus : Ref) (v : Machine jni t.has)
      → HasIf jni t.has Fields.device next v
      → HasIf jni t.has Fields.device prev v
      → Has jni t.has (kind jni t.has Fields.bus) bus v
      → all_fit t.classes Fields.device v.kinds (device_links next prev bus) ≡ true
  device_links-fit next prev bus v has_next has_prev has_bus =
      let fits_device = λ (o : Option Ref) (h : HasIf jni t.has Fields.device o v) (f : Field).
        HasIf-fits t Fields.device o v (field_signature f) h in
      rw
        (
          fits_device next has_next Field.dev_next refl refl,
          fits_device prev has_prev Field.dev_prev refl refl,
          Has-fits t Fields.bus bus v (field_signature Field.dev_bus) has_bus refl,
        )
        refl

  pub bus_links-fit :
      (next prev : Option Ref) (v : Machine jni t.has)
      → HasIf jni t.has Fields.bus next v
      → HasIf jni t.has Fields.bus prev v
      → all_fit t.classes Fields.bus v.kinds (bus_links next prev) ≡ true
  bus_links-fit next prev v has_next has_prev =
      rw
        (
          HasIf-fits t Fields.bus next v (field_signature Field.bus_next) has_next refl refl,
          HasIf-fits t Fields.bus prev v (field_signature Field.bus_prev) has_prev refl refl,
        )
        refl

  pub bus_devices_fields-fit :
      (first : Option Ref) (v : Machine jni t.has)
      → HasIf jni t.has Fields.device first v
      → all_fit t.classes Fields.bus v.kinds (bus_devices_fields first) ≡ true
  bus_devices_fields-fit first v has_first =
      rw
        (HasIf-fits t Fields.device first v (field_signature Field.bus_devices) has_first refl refl)
        refl
