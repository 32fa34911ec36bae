-- ===== src/Busses/Halts/Busses.antt =====
-- The loop over the busses in `usb_get_busses` of LibusbJava.c, where it meets a bus with a device that
-- lacks an array.
use owon_vds.Base.{
  ℕ, zero, suc, ◌<◌, ◌≡◌, ◌∙◌, refl, ap, true, false, Option, none, some, List, [], ◌∷◌, arith,
  ◌==◌, length,
}
use owon_vds.Base.Int.{pos}
use owon_vds.Libusb.Structs.{Ptr, UsbDevice, UsbBus}
use owon_vds.Jni.Api.{Jni, Ref, long}
use owon_vds.Jni.Laws.{Laws, HasRoom}
use owon_vds.Native.Fields.{Field}
use owon_vds.Native.State.{References, Message}
use owon_vds.Busses.Devices.{current, bus_links, fill_bus, bus_loop}
use owon_vds.Busses.Frame.{
  Below, Only, Grow, Own, Only-trans, Only-Grow, Grow-Only, Only-Keeps, Created-Grow,
  not-live_of_Below,
}
use owon_vds.Busses.Puts.{
  IsResolved, slot, Holds, Writes-trans, Grow-Writes, puts-Put, put-Put, Holds-spared,
}
use owon_vds.Busses.Strings.{IsText, IsText-keep, IsText-widen, put_string-Named}
use owon_vds.Busses.DeviceTree.{Chain, All, IsDeviceOk, IsBusOk, IsBus}
use owon_vds.Busses.DeviceList.{read-some}
use owon_vds.Busses.BusCopy.{fill_bus-IsBus}
use owon_vds.Busses.BusList.{Topology, keep_head, current-none}
use owon_vds.Busses.Halts.{later, later_some, at_once, weaken, Reaches}
use owon_vds.Busses.Halts.Nulls.{Lacks}
use owon_vds.Busses.Halts.Devices.{Stops, new_next-Grow, new_next-some, device_loop-Stops}

-- From `p` the `next` pointers lead through these busses, with their devices, to the bus at `q`.
abbrev pub BusReaches :
    (Ptr → Option UsbBus) → (Ptr → Option UsbDevice) → Ptr → Topology → Ptr → Type 0
BusReaches bus_at device_at p [] q = (p ≡ q) × ((p == 0) ≡ false)
BusReaches bus_at device_at p ((p', b, devices) ∷ l) q =
    (p' ≡ p)
    × ((p == 0) ≡ false)
    × (bus_at p ≡ some b)
    × Chain device_at (λ d. d.next) b.devices devices
    × BusReaches bus_at device_at b.next l q

pub BusReaches-ne :
    (bus_at : Ptr → Option UsbBus) (device_at : Ptr → Option UsbDevice) (p : Ptr) (l : Topology)
    (q : Ptr)
    → BusReaches bus_at device_at p l q
    → (p == 0) ≡ false
BusReaches-ne bus_at device_at p [] q h = h.1
BusReaches-ne bus_at device_at p (x ∷ l) q h = h.1

module _ (jni : Jni) {refs : References} (res : IsResolved refs) where
  -- The object of the bus at which the copy stopped: its links, its name and its location.
  pub record IsHead (base w : jni.Vm) (next prev : Option Ref) (o : Ref) (b : UsbBus) : Type 0 where
    pub links : Holds jni res w o (bus_links next prev)
    pub dirname : IsText jni res base w o Field.bus_dirname b.dirname
    pub location : jni.get w o (slot res Field.bus_location) ≡ long (pos b.location)

  -- A list of new objects that stand for the busses `l`, up to the bus `b`.
  abbrev pub IsListTo : (base w : jni.Vm) (prev o : Option Ref) → Topology → (b : UsbBus) → Type 0
  IsListTo base w prev o [] b =
      (r : Ref) × (next : Option Ref) × (o ≡ some r)
      × Own jni base w r
      × IsHead base w next prev r b
  IsListTo base w prev o ((p, x, devices) ∷ l) b =
      (r : Ref) × (next : Option Ref) × (o ≡ some r)
      × Own jni base w r
      × IsBus jni res base w next prev r x devices
      × IsListTo base w (some r) next l b

module _ (jni : Jni) (laws : Laws jni) (room : HasRoom jni) {refs : References}
    (res : IsResolved refs) (devices_at : Ptr → Option UsbDevice) (q : Ptr) (d : UsbDevice)
    (there_is : devices_at q ≡ some d) (m : Option Message) (un : Lacks m d) (b : UsbBus)
    (before : List (Ptr × UsbDevice)) (leads : Reaches devices_at (λ x. x.next) b.devices before q)
    (fine_before : All IsDeviceOk before) (rounds : ℕ) (enough : length before < rounds) where
  fill_bus-Stops :
      (main : Option Ref) (v : jni.Vm) (o : Ref) (next prev : Option Ref)
      → jni.live v o ≡ true
      → Stops jni laws room res main m
          (λ w. Only jni o v w × IsHead jni res v w next prev o b)
          (fill_bus jni refs devices_at main rounds o next prev b v)
  unfolding fill_bus
  fill_bus-Stops main v o next prev there =
      later (puts-Put jni res laws o (bus_links next prev) v there refl) λ _ w1 p1.
        let there1 = p1.writes.only.live o there in
        later
          (put_string-Named jni res laws room {base = v} Field.bus_dirname b.dirname
            p1.writes.only.live there1)
          λ _ w2 p2.
            let there2 = p2.writes.only.live o there1 in
            later (put-Put jni res laws o Field.bus_location (long (pos b.location)) w2 there2)
              λ _ w3 p3.
                let there3 = p3.writes.only.live o there2 in
                at_once _ (
                  weaken
                    (device_loop-Stops jni laws room res main m devices_at o q d there_is un before
                      rounds b.devices w3 leads fine_before enough)
                    λ w grown.
                      let e4 = Grow-Writes jni res there3 grown in
                      let e3 = Writes-trans jni res p3.writes e4 in
                      let e2 = Writes-trans jni res p2.writes e3 in
                      (
                        Only-trans jni p1.writes.only e2.only,
                        record {
                          links = Holds-spared jni res (bus_links next prev) _ refl e2 p1.holds;
                          dirname =
                              IsText-keep jni res Field.bus_dirname (Only-Keeps jni there e3.only)
                                (e3.rest Field.bus_dirname refl) p2.name;
                          location = e4.rest Field.bus_location refl ∙ p3.holds.0;
                        },
                      ))

  IsHead-widen :
      {base mid w : jni.Vm} {r : Ref} {next prev : Option Ref}
      → Below jni base mid
      → IsHead jni res mid w next prev r b
      → IsHead jni res base w next prev r b
  IsHead-widen below h = record {
    links = h.links;
    dirname = IsText-widen jni res Field.bus_dirname below h.dirname;
    location = h.location;
  }

  module _ (at : Ptr → Option UsbBus) (bus : Ptr) (here : at bus ≡ some b) where
    bus_loop-Stops_from :
        (l : Topology) (fuel : ℕ) (p : Ptr) (base v : jni.Vm) (r : Ref) (prev main : Option Ref)
        → Below jni base v
        → Own jni base v r
        → BusReaches at devices_at p l bus
        → All (IsBusOk rounds) l
        → length l < fuel
        → Stops jni laws room res main m
            (λ w. Only jni r v w × IsListTo jni res base w prev (some r) l b)
            (bus_loop jni refs at devices_at rounds fuel p (some r) prev main v)
    unfolding bus_loop current
    bus_loop-Stops_from l zero p base v r prev main below own way fine lt = absurd (omega arith)
    bus_loop-Stops_from [] (suc fuel) p base v r prev main below own (e, ne) fine lt =
        rw (ne, read-some at p b v (ap at e ∙ here))
          (later (new_next-Grow jni laws room res main m _ _ b.next v) λ next w g. at_once _ (
            weaken (fill_bus-Stops main w r next prev (g.live r own.1)) λ u (only, head). (
              Only-trans jni (Grow-Only jni r g) only,
              (
                r,
                next,
                refl,
                (own.0, only.live r (g.live r own.1)),
                IsHead-widen (λ k h. g.live k (below k h)) head,
              ),
            )))
    bus_loop-Stops_from ((p', x, ds) ∷ l) (suc fuel) p base v r prev main below own
          (e, ne, first, chain, way) fine lt =
        rw (ne, read-some at p x v first)
          (later
            (new_next-some jni laws room res main m _ _ x.next v
              (BusReaches-ne at devices_at x.next l bus way))
            λ next w (o, e', made). rw e' (
              later
                (fill_bus-IsBus jni laws room res devices_at main rounds p x ds
                  (made.keeps_live r own.1) chain fine.0)
                λ _ w2 (only, is).
                  weaken
                    (bus_loop-Stops_from l fuel x.next base w2 o (some r) main
                      (λ k h. only.live k (made.keeps_live k (below k h)))
                      (not-live_of_Below jni o below made.fresh, only.live o made.born) way fine.1
                      (omega arith))
                    λ u (others, list).
                      let (whole, own', is') =
                        keep_head jni laws room res below own made only is others in
                      (whole, (r, some o, refl, own', is', list))))

    -- The whole loop, which starts with no object.
    pub bus_loop-Stops :
        (l : Topology) (fuel : ℕ) (p : Ptr) (v : jni.Vm)
        → BusReaches at devices_at p l bus
        → All (IsBusOk rounds) l
        → length l < fuel
        → (main : Option Ref) × Stops jni laws room res main m
            (λ w. Grow jni v w × IsListTo jni res v w none main l b)
            (bus_loop jni refs at devices_at rounds fuel p none none none v)
    unfolding bus_loop current
    bus_loop-Stops l zero p v way fine lt = absurd (omega arith)
    bus_loop-Stops [] (suc fuel) p v (e, ne) fine lt =
        rw (ne, read-some at p b v (ap at e ∙ here))
          (later_some _ (current-none jni laws room res at devices_at rounds v)
            λ a w (is_first, made). (
              a.1,
              weaken
                  (rw (ne, read-some at p b w (ap at e ∙ here)) at
                    (bus_loop-Stops_from [] (suc fuel) p v w a.0 none a.1 made.keeps_live
                      (made.fresh, made.born) (e, ne) fine lt))
                  λ u (only, list).
                    (Only-Grow jni made.fresh (Created-Grow jni made) only, rw is_first list),
            ))
    bus_loop-Stops ((p', x, ds) ∷ l) (suc fuel) p v (e, ne, first, chain, way) fine lt =
        rw (ne, read-some at p x v first)
          (later_some _ (current-none jni laws room res at devices_at rounds v)
            λ a w (is_first, made). (
              a.1,
              weaken
                  (rw (ne, read-some at p x w first) at
                    (bus_loop-Stops_from ((p', x, ds) ∷ l) (suc fuel) p v w a.0 none a.1
                      made.keeps_live (made.fresh, made.born) (e, ne, first, chain, way) fine lt))
                  λ u (only, list).
                    (Only-Grow jni made.fresh (Created-Grow jni made) only, rw is_first list),
            ))
