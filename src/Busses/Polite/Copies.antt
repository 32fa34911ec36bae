-- ===== src/Busses/Polite/Copies.antt =====
-- The copies of arrays and descriptors in `usb_get_busses` of LibusbJava.c on a virtual machine that
-- notes how it is used.
use owon_vds.Base.{
  ℕ, zero, suc, ◌+◌, ◌≤◌, ◌≡◌, ◌∙◌, true, Option, none, some, List, arith, Option-cases, inl, inr,
  get_elem?,
}
use owon_vds.Base.Int.{ℤ, pos}
use owon_vds.Libusb.Structs.{UsbConfigDescriptor}
use owon_vds.Jni.Api.{Jni, Ref, object, size, extent}
use owon_vds.Jni.Laws.{Laws, RefusesNegative}
use owon_vds.Jni.Watch.{watch}
use owon_vds.Native.Fields.{JavaClass, Field}
use owon_vds.Native.State.{References, Message}
use owon_vds.Busses.Action.{Action, element_or_leave, fill_array, copy_array}
use owon_vds.Busses.Descriptors.{
  endpoint_fields, interface_descriptor_fields, interface_fields, config_fields, fill_endpoint,
  copy_endpoints, fill_interface_descriptor, copy_altsettings, fill_interface, copy_interfaces,
  fill_config, copy_configs,
}
use owon_vds.Busses.Polite.{
  Machine, IsCalm, Onward-refl, Polite, goes_on, leaves, faults, bind, Any,
}
use owon_vds.Busses.Polite.Steps.{
  new-Polite, new_array-Polite, puts-Polite, put-Polite, set_element-Polite, put_extra-Polite,
}

element-Polite :
    (jni : Jni) {A : Type 0} (xs : Option (List A)) (i : ℕ) (main : Option Ref) (m : Option Message)
    (v : Machine jni)
    → IsCalm jni v
    → Polite jni v (Any jni) (element_or_leave xs i main m v)
unfolding element_or_leave
element-Polite jni none i main m v calm = leaves calm.misused
element-Polite jni (some xs) i main m v calm = elim (Option-cases (get_elem? xs i)) [
  | inl e ↦ rw (e, element_or_leave) faults
  | inr (x, e) ↦ rw (e, element_or_leave) (goes_on (Onward-refl jni calm) tt)
]

module _ (jni : Jni) (laws : Laws jni) (refuses : RefusesNegative jni) (refs : References)
    (main : Option Ref) where
  -- Filling an object that exists uses the machine as it should.
  abbrev pub FillsPolitely : {A : Type 0} → (Ref → A → Action (Machine jni) (Unit {0})) → Type 0
  FillsPolitely {A} fill =
      (o : Ref) (x : A) (v : Machine jni)
      → IsCalm jni v
      → jni.live v.machine o ≡ true
      → Polite jni v (Any jni) (fill o x v)

  module _ {A : Type 0} {fill : Ref → A → Action (Machine jni) (Unit {0})}
      (fills : FillsPolitely fill) (c : JavaClass) (object_error : Message)
      (null_error : Option Message) (xs : Option (List A)) where
    fill_array-Polite :
        (a : Ref) (n k i : ℕ) (v : Machine jni)
        → IsCalm jni v
        → jni.live v.machine a ≡ true
        → jni.get v.machine a extent ≡ size (pos n)
        → i + k ≤ n
        → Polite jni v
            (Any jni)
            (fill_array (watch jni) refs c object_error null_error fill main xs a k i v)
    unfolding fill_array
    fill_array-Polite a n zero i v calm there len le = goes_on (Onward-refl jni calm) tt
    fill_array-Polite a n (suc k) i v calm there len le =
        bind jni (element-Polite jni xs i main null_error v calm) λ x v1 on1 _.
          bind jni (new-Polite jni laws refs c object_error v1 on1.calm) λ o v2 on2 born.
            let there2 = on2.live a (on1.live a there) in
            let len2 = on2.extents a (on1.live a there) ∙ on1.extents a there ∙ len in
            bind jni
              (set_element-Polite jni laws refs a i n o v2 on2.calm there2 len2 (omega arith))
              λ _ v3 on3 _. bind jni (fills o x v3 on3.calm (on3.live o born)) λ _ v4 on4 _.
                fill_array-Polite a n k (i + 1) v4 on4.calm (on4.live a (on3.live a there2))
                  (on4.extents a (on3.live a there2) ∙ on3.extents a there2 ∙ len2) (omega arith)

    copy_array-Polite :
        (array_error : Message) (n : ℤ) (v : Machine jni)
        → IsCalm jni v
        → Polite jni v
            (Any jni)
            (copy_array (watch jni) refs c object_error null_error fill main array_error n xs v)
    unfolding copy_array fill_array
    copy_array-Polite array_error (pos n) v calm =
        bind jni (new_array-Polite jni laws refs (pos n) c array_error v calm)
          λ a v1 on1 (there, len).
            bind jni (fill_array-Polite a n n 0 v1 on1.calm there len (omega arith))
              λ _ v2 on2 _. goes_on (Onward-refl jni on2.calm) tt
    copy_array-Polite array_error (ℤ.negsuc n) v calm =
        bind jni (new_array-Polite jni laws refs (ℤ.negsuc n) c array_error v calm)
          λ a v1 on1 _. goes_on (Onward-refl jni on1.calm) tt

  -- The numbers, then the extra bytes, then the array of the descriptor's parts.
  fill_endpoint-Polite : FillsPolitely (fill_endpoint (watch jni) refs main)
  unfolding fill_endpoint
  fill_endpoint-Polite o d v calm there =
      bind jni (puts-Polite jni laws refs o (endpoint_fields d) v calm there) λ _ v1 on1 _.
        put_extra-Polite jni laws refs o Field.ep_desc_extra v1 on1.calm (on1.live o there) refuses
          d.extra d.extralen

  fill_interface_descriptor-Polite : FillsPolitely (fill_interface_descriptor (watch jni) refs main)
  unfolding fill_interface_descriptor copy_endpoints
  fill_interface_descriptor-Polite o d v calm there =
      bind jni (puts-Polite jni laws refs o (interface_descriptor_fields d) v calm there)
        λ _ v1 on1 _.
          bind jni
            (put_extra-Polite jni laws refs o Field.int_desc_extra v1 on1.calm (on1.live o there)
              refuses d.extra d.extralen)
            λ _ v2 on2 _.
              bind jni
                (copy_array-Polite fill_endpoint-Polite _ _ _ d.endpoint _ (pos d.b_num_endpoints)
                  v2 on2.calm)
                λ a v3 on3 _.
                  put-Polite jni laws refs o Field.int_desc_endpoint (object (some a)) v3 on3.calm
                    (on3.live o (on2.live o (on1.live o there)))

  fill_interface-Polite : FillsPolitely (fill_interface (watch jni) refs main)
  unfolding fill_interface copy_altsettings
  fill_interface-Polite o d v calm there =
      bind jni (puts-Polite jni laws refs o (interface_fields d) v calm there) λ _ v1 on1 _.
        bind jni
          (copy_array-Polite fill_interface_descriptor-Polite _ _ _ d.altsetting _ d.num_altsetting
            v1 on1.calm)
          λ a v2 on2 _.
            put-Polite jni laws refs o Field.int_altsetting (object (some a)) v2 on2.calm
              (on2.live o (on1.live o there))

  fill_config-Polite : FillsPolitely (fill_config (watch jni) refs main)
  unfolding fill_config copy_interfaces
  fill_config-Polite o d v calm there =
      bind jni (puts-Polite jni laws refs o (config_fields d) v calm there) λ _ v1 on1 _.
        bind jni
          (put_extra-Polite jni laws refs o Field.conf_desc_extra v1 on1.calm (on1.live o there)
            refuses d.extra d.extralen)
          λ _ v2 on2 _.
            bind jni
              (copy_array-Polite fill_interface-Polite _ _ _ d.interface _ (pos d.b_num_interfaces)
                v2 on2.calm)
              λ a v3 on3 _.
                put-Polite jni laws refs o Field.conf_desc_interface (object (some a)) v3 on3.calm
                  (on3.live o (on2.live o (on1.live o there)))

  pub copy_configs-Polite :
      (n : ℕ) (xs : Option (List UsbConfigDescriptor)) (v : Machine jni)
      → IsCalm jni v
      → Polite jni v (Any jni) (copy_configs (watch jni) refs main n xs v)
  unfolding copy_configs
  copy_configs-Polite n xs v calm = copy_array-Polite fill_config-Polite _ _ _ xs _ (pos n) v calm
