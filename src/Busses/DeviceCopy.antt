-- ===== src/Busses/DeviceCopy.antt =====
-- The body of the loop over devices in `usb_get_busses` of LibusbJava.c: the object of one device.
use owon_vds.Base.{◌≡◌, ◌≢◌, refl, sym, ◌∙◌, true, Option, none, some, [], ◌∷◌}
use owon_vds.Base.Int.{pos}
use owon_vds.Libusb.Structs.{Ptr, UsbDevice}
use owon_vds.Jni.Api.{Jni, Ref, object}
use owon_vds.Jni.Laws.{Laws, HasRoom, IsCreated, IsRefusal}
use owon_vds.Native.Fields.{JavaClass, Field}
use owon_vds.Native.State.{References, Message}
use owon_vds.Busses.Action.{and_then, ◌>>=◌, ◌>>◌, new, put, puts}
use owon_vds.Busses.Descriptors.{copy_configs}
use owon_vds.Busses.Devices.{device_links, device_numbers, device_descriptor_fields, fill_device}
use owon_vds.Busses.Ends.{Ends, bind, mono}
use owon_vds.Busses.Frame.{
  Below, Only, Grow, Only-trans, Only-Grow, Grow-Only, Only-Keeps, Created-Grow, ne_of_live,
  not-live_of_Below,
}
use owon_vds.Busses.Puts.{
  IsResolved, slot, Put, Writes, Writes-trans, Holds, puts-Put, put-Put, Holds-rest, Holds-spared,
}
use owon_vds.Busses.Arrays.{new-Created}
use owon_vds.Busses.Tree.{IsConfig}
use owon_vds.Busses.Stable.{IsConfig-stable}
use owon_vds.Busses.Bodies.{Tail, put_array-Tail}
use owon_vds.Busses.Copies.{copy_configs-IsArray}
use owon_vds.Busses.Strings.{Named, IsText, IsText-keep, IsText-widen, put_string-Named}
use owon_vds.Busses.DeviceTree.{IsDeviceOk, IsDevice, HoldsDescriptor}

module _ (jni : Jni) (laws : Laws jni) (room : HasRoom jni) {refs : References}
    (res : IsResolved refs) where
  -- A new object is made, filled and put into the device's field.
  record Described (v : jni.Vm) (o : Ref) (d : UsbDevice) (w : jni.Vm) : Type 0 where
    writes : Writes jni res o ((Field.dev_descriptor, object none) ∷ []) v w
    descriptor : HoldsDescriptor jni res v w o d

  module _ {v : jni.Vm} {o : Ref} (d : UsbDevice) (there : jni.live v o ≡ true) where
    Put-Described :
        {v1 v2 w : jni.Vm} {r : Ref}
        → IsCreated jni v r v1
        → Put jni res r (device_descriptor_fields d.descriptor) v1 v2
        → Put jni res o ((Field.dev_descriptor, object (some r)) ∷ []) v2 w
        → Described v o d w
    Put-Described {v2} {w} {r} made p q = record {
      writes = record {
        only = Only-trans jni (Grow-Only jni o grown) q.writes.only;
        rest = λ f h. q.writes.rest f h ∙ grown.same o (slot res f) there;
      };
      descriptor = (
        r,
        q.holds.0,
        (made.fresh, q.writes.only.live r live2),
        Holds-rest jni res (device_descriptor_fields d.descriptor)
            (λ f. q.writes.only.same r (slot res f) live2 r≢o) p.holds,
      );
    }
      where
        grown : Grow jni v v2
        grown = Only-Grow jni made.fresh (Created-Grow jni made) p.writes.only

        live2 : jni.live v2 r ≡ true
        live2 = p.writes.only.live r made.born

        r≢o : r ≢ o
        r≢o e = ne_of_live jni {v = v} o r there made.fresh (sym e)

  HoldsDescriptor-later :
      {base v w u : jni.Vm} {o : Ref} (d : UsbDevice)
      → Below jni base v
      → jni.live v o ≡ true
      → Writes jni res o ((Field.dev_config, object none) ∷ []) w u
      → HoldsDescriptor jni res v w o d
      → HoldsDescriptor jni res base u o d
  HoldsDescriptor-later {v} {o} d below there e (r, at, own, holds) = (
    r,
    e.rest Field.dev_descriptor refl ∙ at,
    (not-live_of_Below jni r below own.0, e.only.live r own.1),
    Holds-rest jni res (device_descriptor_fields d.descriptor)
        (λ f.
          e.only.same r (slot res f) own.1 (λ q. ne_of_live jni {v = v} o r there own.0 (sym q)))
        holds,
  )

  -- What the object holds once its numbers are written.
  record Plain (v : jni.Vm) (bus o : Ref) (next prev : Option Ref) (p : Ptr) (d : UsbDevice)
      (w : jni.Vm) : Type 0 where
    only : Only jni o v w
    links : Holds jni res w o (device_links next prev bus)
    filename : IsText jni res v w o Field.dev_filename d.filename
    numbers : Holds jni res w o (device_numbers p d)

  module _ {v : jni.Vm} {bus o : Ref} {next prev : Option Ref} (p : Ptr) (d : UsbDevice)
      (there : jni.live v o ≡ true) where
    Named-Plain :
        {w1 w2 w3 : jni.Vm}
        → Put jni res o (device_links next prev bus) v w1
        → Named jni res w1 w1 o Field.dev_filename d.filename w2
        → Put jni res o (device_numbers p d) w2 w3
        → Plain v bus o next prev p d w3
    Named-Plain a b c = record {
      only = Only-trans jni a.writes.only (Only-trans jni b.writes.only c.writes.only);
      links =
          Holds-spared jni res (device_links next prev bus) _ refl
            (Writes-trans jni res b.writes c.writes) a.holds;
      filename = IsText-widen jni res Field.dev_filename a.writes.only.live (
          IsText-keep jni res Field.dev_filename
            (Only-Keeps jni (a.writes.only.live o there) c.writes.only)
            (c.writes.rest Field.dev_filename refl) b.name);
      numbers = c.holds;
    }

    Plain-IsDevice :
        {w w' u : jni.Vm}
        → Plain v bus o next prev p d w
        → Described w o d w'
        → Tail jni laws room res
            (IsConfig jni res)
            v
            w'
            o
            Field.dev_config
            (pos d.descriptor.b_num_configurations)
            d.config
            u
        → Only jni o v u × IsDevice jni res v u bus next prev o (p, d)
    Plain-IsDevice {w} {u} a b t = (
      Only-trans jni a.only later.only,
      record {
        links = Holds-spared jni res (device_links next prev bus) _ refl later a.links;
        filename =
            IsText-keep jni res Field.dev_filename (Only-Keeps jni there later.only)
              (later.rest Field.dev_filename refl) a.filename;
        numbers = Holds-spared jni res (device_numbers p d) _ refl later a.numbers;
        descriptor =
            HoldsDescriptor-later d a.only.live (a.only.live o there) t.writes b.descriptor;
        configs = t.array;
      },
    )
      where
        later :
            Writes jni res o
              ((Field.dev_descriptor, object none) ∷ (Field.dev_config, object none) ∷ [])
              w
              u
        later = Writes-trans jni res b.writes t.writes

    -- The steps from the descriptor's object on.
    tail_steps :
        (main : Option Ref) {w : jni.Vm}
        → IsDeviceOk (p, d)
        → Plain v bus o next prev p d w
        → Ends
            (IsRefusal jni)
            (λ _ u. Only jni o v u × IsDevice jni res v u bus next prev o (p, d))
            (and_then (new jni refs JavaClass.device_descriptor Message.dev_desc_object w) (λ desc.
              puts jni refs desc (device_descriptor_fields d.descriptor)
              >> (put jni refs o Field.dev_descriptor (object (some desc))
                  >> (copy_configs jni refs main d.descriptor.b_num_configurations d.config >>= λ a.
                      put jni refs o Field.dev_config (object (some a))))))
    tail_steps main {w} fine plain =
        let there1 = plain.only.live o there in
        bind (new-Created jni laws res JavaClass.device_descriptor Message.dev_desc_object w)
          λ r w1 made.
            bind (puts-Put jni res laws r (device_descriptor_fields d.descriptor) w1 made.born refl)
              λ _ w2 p'.
                bind
                  (put-Put jni res laws o Field.dev_descriptor (object (some r)) w2
                    (p'.writes.only.live o (made.keeps_live o there1)))
                  λ _ w3 q.
                    let b = Put-Described d there1 made p' q in
                    mono
                      (put_array-Tail jni laws room res (IsConfig-stable jni res) Field.dev_config
                        (λ k h. b.writes.only.live k (plain.only.live k h))
                        (b.writes.only.live o there1)
                        (copy_configs-IsArray jni laws room res main w3 w3
                          d.descriptor.b_num_configurations d.config (λ k h. h) fine))
                      λ _ u t. Plain-IsDevice plain b t

    -- The object of a device stands for it.
    pub fill_device-IsDevice :
        (main : Option Ref)
        → IsDeviceOk (p, d)
        → Ends
            (IsRefusal jni)
            (λ _ w. Only jni o v w × IsDevice jni res v w bus next prev o (p, d))
            (fill_device jni refs main bus o next prev p d v)
    unfolding fill_device
    fill_device-IsDevice main fine =
        bind (puts-Put jni res laws o (device_links next prev bus) v there refl) λ _ w1 a.
          let there1 = a.writes.only.live o there in
          bind (put_string-Named jni res laws room Field.dev_filename d.filename (λ q h. h) there1)
            λ _ w2 b.
              let there2 = b.writes.only.live o there1 in
              bind (puts-Put jni res laws o (device_numbers p d) w2 there2 refl)
                λ _ w3 c. tail_steps main fine (Named-Plain a b c)
