-- ===== src/Busses/Halts/Devices.antt =====
-- The loop over the devices of a bus in `usb_get_busses` of LibusbJava.c, where it meets a device that
-- lacks an array.
use owon_vds.Base.{
  ℕ, zero, suc, ◌<◌, ◌≡◌, ◌∙◌, refl, ap, true, false, Option, none, some, List, [], ◌∷◌, arith,
  ◌==◌, length, Bool-cases, inl, inr,
}
use owon_vds.Libusb.Structs.{Ptr, UsbDevice}
use owon_vds.Jni.Api.{Jni, Ref, object}
use owon_vds.Jni.Laws.{Laws, HasRoom, IsCreated, IsRefusal}
use owon_vds.Native.Fields.{JavaClass, Field}
use owon_vds.Native.State.{References, Message}
use owon_vds.Busses.Action.{Step}
use owon_vds.Busses.Devices.{
  current, new_next, device_links, device_numbers, device_descriptor_fields, fill_device,
  device_loop,
}
use owon_vds.Busses.Ends.{Ends, ends, bind}
use owon_vds.Busses.Frame.{
  Only, Grow, Only-trans, Only-Only, Only-Grow, Grow-Only, Grow-refl, Created-Grow,
}
use owon_vds.Busses.Puts.{IsResolved, puts-Put, put-Put}
use owon_vds.Busses.Arrays.{new-Created}
use owon_vds.Busses.Strings.{put_string-Named}
use owon_vds.Busses.DeviceTree.{All, IsDeviceOk}
use owon_vds.Busses.DeviceCopy.{fill_device-IsDevice}
use owon_vds.Busses.DeviceList.{read-some, current-none}
use owon_vds.Busses.Halts.Nulls.{Lacks, copy_configs-Halts}
use owon_vds.Busses.Halts.{Halts, later, at_once, weaken, Reaches, Reaches-ne}

module _ (jni : Jni) (laws : Laws jni) (room : HasRoom jni) {refs : References}
    (res : IsResolved refs) (main : Option Ref) (m : Option Message) where
  -- The whole call returns `main`, with the error `m` if that is one.
  abbrev pub Stops : {A : Type 0} → (jni.Vm → Type 0) → Step jni.Vm A → Type 0
  Stops = Halts (IsRefusal jni) main m

  fill_device-Stops :
      (bus o : Ref) (next prev : Option Ref) (p : Ptr) (d : UsbDevice) (v : jni.Vm)
      → Lacks m d
      → jni.live v o ≡ true
      → Stops (Only jni o v) (fill_device jni refs main bus o next prev p d v)
  unfolding fill_device
  fill_device-Stops bus o next prev p d v un there =
      later (puts-Put jni res laws o (device_links next prev bus) v there refl) λ _ w1 a.
        let there1 = a.writes.only.live o there in
        later
          (put_string-Named jni res laws room {base = w1} Field.dev_filename d.filename (λ q h. h)
            there1)
          λ _ w2 b.
            let there2 = b.writes.only.live o there1 in
            later (puts-Put jni res laws o (device_numbers p d) w2 there2 refl) λ _ w3 c.
              later
                (new-Created jni laws res JavaClass.device_descriptor Message.dev_desc_object w3)
                λ r w4 made.
                  later
                    (puts-Put jni res laws r (device_descriptor_fields d.descriptor) w4 made.born
                      refl)
                    λ _ w5 e.
                      let grown = Only-Grow jni made.fresh (Created-Grow jni made) e.writes.only in
                      let there5 = grown.live o (c.writes.only.live o there2) in
                      later
                        (put-Put jni res laws o Field.dev_descriptor (object (some r)) w5 there5)
                        λ _ w6 f.
                          let before = Only-trans jni a.writes.only (
                            Only-trans jni b.writes.only (
                              Only-trans jni c.writes.only
                                (Only-trans jni (Grow-Only jni o grown) f.writes.only))) in
                          at_once _ (
                            weaken (copy_configs-Halts jni laws room res main m d w6 un)
                              λ w g. Only-trans jni before (Grow-Only jni o g))

  -- The object for the next device, if there is one.
  pub new_next-Grow :
      (c : JavaClass) (m : Message) (p : Ptr) (v : jni.Vm)
      → Ends (IsRefusal jni) (λ _ w. Grow jni v w) (new_next jni refs c m p v)
  unfolding new_next
  new_next-Grow c m p v = elim (Bool-cases (p == 0)) [
    | inl e ↦ rw (e, new_next) (ends (Grow-refl jni v))
    | inr e ↦
        rw (e, new_next)
          (bind (new-Created jni laws res c m v) λ o w made. ends (Created-Grow jni made))
  ]

  pub new_next-some :
      (c : JavaClass) (m : Message) (p : Ptr) (v : jni.Vm)
      → (p == 0) ≡ false
      → Ends
          (IsRefusal jni)
          (λ o w. (r : Ref) × (o ≡ some r) × IsCreated jni v r w)
          (new_next jni refs c m p v)
  unfolding new_next
  new_next-some c m p v ne =
      rw (ne, new_next) (bind (new-Created jni laws res c m v) λ o w made. ends (o, refl, made))

  module _ (at : Ptr → Option UsbDevice) (bus : Ref) (q : Ptr) (d : UsbDevice)
      (here : at q ≡ some d) (un : Lacks m d) where
    abbrev Way : Ptr → List (Ptr × UsbDevice) → Type 0
    Way p l = Reaches at (λ x. x.next) p l q

    device_loop-Stops_from :
        (l : List (Ptr × UsbDevice)) (fuel : ℕ) (p : Ptr) (v : jni.Vm) (r : Ref)
        (prev main_dev : Option Ref)
        → jni.live v r ≡ true
        → Way p l
        → All IsDeviceOk l
        → length l < fuel
        → Stops (Only jni r v) (device_loop jni refs at main bus fuel p (some r) prev main_dev v)
    unfolding device_loop current
    device_loop-Stops_from l zero p v r prev main_dev there way fine lt = absurd (omega arith)
    device_loop-Stops_from [] (suc fuel) p v r prev main_dev there (e, ne) fine lt =
        rw (ne, read-some at p d v (ap at e ∙ here))
          (later (new_next-Grow _ _ d.next v) λ next w g. at_once _ (
            weaken (fill_device-Stops bus r next prev p d w un (g.live r there))
              λ u only. Only-trans jni (Grow-Only jni r g) only))
    device_loop-Stops_from ((p', x) ∷ l) (suc fuel) p v r prev main_dev there (e, ne, first, way)
          fine lt =
        rw (ne, read-some at p x v first)
          (later (new_next-some _ _ x.next v (Reaches-ne at (λ y. y.next) x.next l q way))
            λ next w (o, e', made). rw e' (
              later
                (fill_device-IsDevice jni laws room res p x (made.keeps_live r there) main fine.0)
                λ _ w2 (only, _).
                  weaken
                    (device_loop-Stops_from l fuel x.next w2 o (some r) main_dev
                      (only.live o made.born) way fine.1 (omega arith))
                    λ u others.
                      Only-Only jni r made.fresh
                        (Only-trans jni (Grow-Only jni r (Created-Grow jni made)) only) others))

    -- The whole loop, which starts with no object.
    pub device_loop-Stops :
        (l : List (Ptr × UsbDevice)) (fuel : ℕ) (p : Ptr) (v : jni.Vm)
        → Way p l
        → All IsDeviceOk l
        → length l < fuel
        → Stops (Grow jni v) (device_loop jni refs at main bus fuel p none none none v)
    unfolding device_loop current
    device_loop-Stops l zero p v way fine lt = absurd (omega arith)
    device_loop-Stops [] (suc fuel) p v (e, ne) fine lt =
        rw (ne, read-some at p d v (ap at e ∙ here))
          (later (current-none jni laws room res at main bus v) λ a w (_, made).
            weaken
              (rw (ne, read-some at p d w (ap at e ∙ here)) at
                (device_loop-Stops_from [] (suc fuel) p w a.0 none a.1 made.born (e, ne) fine lt))
              λ u only. Only-Grow jni made.fresh (Created-Grow jni made) only)
    device_loop-Stops ((p', x) ∷ l) (suc fuel) p v (e, ne, first, way) fine lt =
        rw (ne, read-some at p x v first)
          (later (current-none jni laws room res at main bus v) λ a w (_, made).
            weaken
              (rw (ne, read-some at p x w first) at
                (device_loop-Stops_from ((p', x) ∷ l) (suc fuel) p w a.0 none a.1 made.born
                  (e, ne, first, way) fine lt))
              λ u only. Only-Grow jni made.fresh (Created-Grow jni made) only)
