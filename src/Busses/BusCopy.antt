-- ===== src/Busses/BusCopy.antt =====
-- The body of the loop over busses in `usb_get_busses` of LibusbJava.c: the object of one bus.
use owon_vds.Base.{ℕ, ◌≡◌, refl, ◌∙◌, true, Option, none, some, List, [], ◌∷◌}
use owon_vds.Base.Int.{pos}
use owon_vds.Libusb.Structs.{Ptr, UsbDevice, UsbBus}
use owon_vds.Jni.Api.{Jni, Ref, Slot, long}
use owon_vds.Jni.Laws.{Laws, HasRoom, IsRefusal}
use owon_vds.Native.Fields.{Field}
use owon_vds.Native.State.{References}
use owon_vds.Busses.Devices.{bus_links, bus_devices_fields, fill_bus}
use owon_vds.Busses.Ends.{Ends, bind, mono}
use owon_vds.Busses.Frame.{Below, Only, Keeps, Only-trans, Only-Keeps}
use owon_vds.Busses.Puts.{
  IsResolved, slot, Writes-trans, Grow-Writes, puts-Put, put-Put, Holds-rest, Holds-spared,
}
use owon_vds.Busses.Stable.{Own-keep, Own-widen, get-keep}
use owon_vds.Busses.Strings.{IsText-keep, IsText-widen, put_string-Named}
use owon_vds.Busses.DeviceTree.{Chain, IsBusOk, IsDeviceList, IsBus}
use owon_vds.Busses.DeviceList.{IsDevice-later, device_loop-IsDeviceList}

module _ (jni : Jni) (laws : Laws jni) (room : HasRoom jni) {refs : References}
    (res : IsResolved refs) where
  -- A list of devices stands for them as long as its objects are left alone.
  pub IsDeviceList-later :
      {base mid v w : jni.Vm} (bus : Ref) (prev o : Option Ref) (l : List (Ptr × UsbDevice))
      → Below jni base mid
      → Keeps jni mid v w
      → IsDeviceList jni res mid v bus prev o l
      → IsDeviceList jni res base w bus prev o l
  IsDeviceList-later bus prev o [] b k e = e
  IsDeviceList-later bus prev o (x ∷ l) b k (r, next, e, own, is, rest) = (
    r,
    next,
    e,
    Own-widen jni b (Own-keep jni k own),
    IsDevice-later jni laws room res b k (λ s. get-keep jni s k own) is,
    IsDeviceList-later bus (some r) next l b k rest,
  )

  pub IsBus-later :
      {base mid v w : jni.Vm} {r : Ref} {next prev : Option Ref} {b : UsbBus}
      {devices : List (Ptr × UsbDevice)}
      → Below jni base mid
      → Keeps jni mid v w
      → ((s : Slot) → jni.get w r s ≡ jni.get v r s)
      → IsBus jni res mid v next prev r b devices
      → IsBus jni res base w next prev r b devices
  IsBus-later {r} {next} {prev} {devices} b k same h = record {
    first = h.first;
    links = Holds-rest jni res (bus_links next prev) (λ f. same (slot res f)) h.links;
    dirname =
        IsText-widen jni res Field.bus_dirname b
          (IsText-keep jni res Field.bus_dirname k (same (slot res Field.bus_dirname)) h.dirname);
    location = same (slot res Field.bus_location) ∙ h.location;
    roots = Holds-rest jni res (bus_devices_fields h.first) (λ f. same (slot res f)) h.roots;
    list = IsDeviceList-later r none h.first devices b k h.list;
  }

  pub fill_bus-IsBus :
      (at : Ptr → Option UsbDevice) (main : Option Ref) (fuel : ℕ) {v : jni.Vm} {o : Ref}
      {next prev : Option Ref} (p : Ptr) (b : UsbBus) (devices : List (Ptr × UsbDevice))
      → jni.live v o ≡ true
      → Chain at (λ d. d.next) b.devices devices
      → IsBusOk fuel (p, b, devices)
      → Ends
          (IsRefusal jni)
          (λ _ w. Only jni o v w × IsBus jni res v w next prev o b devices)
          (fill_bus jni refs at main fuel o next prev b v)
  unfolding fill_bus
  fill_bus-IsBus at main fuel {v} {o} {next} {prev} p b devices there chain (fine, enough) =
      bind (puts-Put jni res laws o (bus_links next prev) v there refl) λ _ w1 p1.
        let there1 = p1.writes.only.live o there in
        bind
          (put_string-Named jni res laws room {base = v} Field.bus_dirname b.dirname
            p1.writes.only.live there1)
          λ _ w2 p2.
            let there2 = p2.writes.only.live o there1 in
            bind (put-Put jni res laws o Field.bus_location (long (pos b.location)) w2 there2)
              λ _ w3 p3.
                let there3 = p3.writes.only.live o there2 in
                bind
                  (device_loop-IsDeviceList jni laws room res at main o devices fuel b.devices v w3
                    (λ q h. p3.writes.only.live q (p2.writes.only.live q (p1.writes.only.live q h)))
                    chain fine enough)
                  λ first w4 (grown, list).
                    mono
                      (puts-Put jni res laws o (bus_devices_fields first) w4 (grown.live o there3)
                        refl)
                      λ _ w5 p5.
                        let e4 =
                          Writes-trans jni res (Grow-Writes jni res there3 grown) p5.writes in
                        let e3 = Writes-trans jni res p3.writes e4 in
                        let e2 = Writes-trans jni res p2.writes e3 in
                        (
                          Only-trans jni p1.writes.only e2.only,
                          record {
                            first = first;
                            links = Holds-spared jni res (bus_links next prev) _ refl e2 p1.holds;
                            dirname =
                                IsText-keep jni res Field.bus_dirname (Only-Keeps jni there e3.only)
                                  (e3.rest Field.bus_dirname refl) p2.name;
                            location = e4.rest Field.bus_location refl ∙ p3.holds.0;
                            roots = p5.holds;
                            list =
                                IsDeviceList-later o none first devices (λ q h. h)
                                  (Only-Keeps jni there p5.writes.only) list;
                          },
                        )
