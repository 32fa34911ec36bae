-- ===== src/Busses/Polite/Lists.antt =====
-- The loops over linked lists in `usb_get_busses` of LibusbJava.c, and the whole call, on a virtual
-- machine that notes how it is used.
use owon_vds.Base.{
  ℕ, zero, suc, ◌≡◌, true, Option, none, some, Option-cases, Bool-cases, inl, inr, ◌==◌,
}
use owon_vds.Base.Int.{pos}
use owon_vds.Libusb.Structs.{Ptr, UsbDevice, UsbBus}
use owon_vds.Jni.Api.{Jni, Ref, object, long}
use owon_vds.Jni.Laws.{Laws, HasRoom, RefusesNegative}
use owon_vds.Jni.Watch.{watch}
use owon_vds.Native.Fields
use owon_vds.Native.Fields.{JavaClass, Field}
use owon_vds.Native.State.{References, Message}
use owon_vds.Busses.Devices.{
  read, current, new_next, device_links, device_numbers, device_descriptor_fields, bus_links,
  bus_devices_fields, fill_device, device_loop, fill_bus, bus_loop,
}
use owon_vds.Busses.Polite.{
  Machine, IsCalm, Onward, Onward-refl, Polite, goes_on, faults, lacks_rounds, bind, Any,
}
use owon_vds.Busses.Polite.Steps.{new-Polite, puts-Polite, put-Polite, put_string-Polite}
use owon_vds.Busses.Polite.Copies.{copy_configs-Polite}

read-Polite :
    (jni : Jni) {A : Type 0} (at : Ptr → Option A) (p : Ptr) (v : Machine jni)
    → IsCalm jni v
    → Polite jni v (Any jni) (read at p v)
unfolding read
read-Polite jni at p v calm = elim (Option-cases (at p)) [
  | inl e ↦ rw (e, read) faults
  | inr (x, e) ↦ rw (e, read) (goes_on (Onward-refl jni calm) tt)
]

-- An object that a loop has made ahead exists.
abbrev pub BornIf : (jni : Jni) → Option Ref → Machine jni → Type 0
BornIf jni none w = Unit
BornIf jni (some o) w = jni.live w.machine o ≡ true

BornIf-Onward :
    (jni : Jni) {v w : Machine jni} (o : Option Ref)
    → Onward jni v w
    → BornIf jni o v
    → BornIf jni o w
BornIf-Onward jni none on h = tt
BornIf-Onward jni (some o) on h = on.live o h

module _ (jni : Jni) (laws : Laws jni) (room : HasRoom jni) (refuses : RefusesNegative jni)
    (refs : References) where
  current-Polite :
      (c : JavaClass) (m : Message) (o main : Option Ref) (v : Machine jni)
      → IsCalm jni v
      → BornIf jni o v
      → Polite jni v
          (λ (obj, _) w. jni.live w.machine obj ≡ true)
          (current (watch jni) refs c m o main v)
  unfolding current
  current-Polite c m none main v calm there =
      bind jni (new-Polite jni laws refs c m v calm)
        λ o w on born. goes_on (Onward-refl jni on.calm) born
  current-Polite c m (some o) main v calm there = goes_on (Onward-refl jni calm) there

  new_next-Polite :
      (c : JavaClass) (m : Message) (p : Ptr) (v : Machine jni)
      → IsCalm jni v
      → Polite jni v (BornIf jni) (new_next (watch jni) refs c m p v)
  unfolding new_next
  new_next-Polite c m p v calm = elim (Bool-cases (p == 0)) [
    | inl e ↦ rw (e, new_next) (goes_on (Onward-refl jni calm) tt)
    | inr e ↦
        rw (e, new_next)
          (bind jni (new-Polite jni laws refs c m v calm)
            λ o w on born. goes_on (Onward-refl jni on.calm) born)
  ]

  fill_device-Polite :
      (main : Option Ref) (bus o : Ref) (next prev : Option Ref) (p : Ptr) (d : UsbDevice)
      (v : Machine jni)
      → IsCalm jni v
      → jni.live v.machine o ≡ true
      → Polite jni v (Any jni) (fill_device (watch jni) refs main bus o next prev p d v)
  unfolding fill_device
  fill_device-Polite main bus o next prev p d v calm there =
      bind jni (puts-Polite jni laws refs o (device_links next prev bus) v calm there) λ _ v1 on1 _.
        let there1 = on1.live o there in
        bind jni
          (put_string-Polite jni laws refs o Field.dev_filename v1 on1.calm there1 room d.filename)
          λ _ v2 on2 _.
            let there2 = on2.live o there1 in
            bind jni (puts-Polite jni laws refs o (device_numbers p d) v2 on2.calm there2)
              λ _ v3 on3 _.
                let there3 = on3.live o there2 in
                bind jni
                  (new-Polite jni laws refs Fields.device_descriptor Message.dev_desc_object v3
                    on3.calm)
                  λ desc v4 on4 born.
                    bind jni
                      (puts-Polite jni laws refs desc (device_descriptor_fields d.descriptor) v4
                        on4.calm born)
                      λ _ v5 on5 _.
                        let there5 = on5.live o (on4.live o there3) in
                        bind jni
                          (put-Polite jni laws refs o Field.dev_descriptor (object (some desc)) v5
                            on5.calm there5)
                          λ _ v6 on6 _.
                            bind jni
                              (copy_configs-Polite jni laws refuses refs main
                                d.descriptor.b_num_configurations d.config v6 on6.calm)
                              λ a v7 on7 _.
                                put-Polite jni laws refs o Field.dev_config (object (some a)) v7
                                  on7.calm (on7.live o (on6.live o there5))

  device_loop-Polite :
      (at : Ptr → Option UsbDevice) (main : Option Ref) (bus : Ref) (fuel : ℕ) (p : Ptr)
      (o prev main_dev : Option Ref) (v : Machine jni)
      → IsCalm jni v
      → BornIf jni o v
      → Polite jni v (Any jni) (device_loop (watch jni) refs at main bus fuel p o prev main_dev v)
  unfolding device_loop
  device_loop-Polite at main bus zero p o prev main_dev v calm there = lacks_rounds
  device_loop-Polite at main bus (suc fuel) p o prev main_dev v calm there =
      elim (Bool-cases (p == 0)) [
        | inl e ↦ rw (e, device_loop) (goes_on (Onward-refl jni calm) tt)
        | inr e ↦
            rw (e, device_loop)
              (bind jni (read-Polite jni at p v calm) λ d v1 on1 _.
                bind jni
                  (current-Polite Fields.device Message.dev_object o main_dev v1 on1.calm
                    (BornIf-Onward jni o on1 there))
                  λ (obj, main_dev') v2 on2 born.
                    bind jni
                      (new_next-Polite Fields.device Message.dev_object_next d.next v2 on2.calm)
                      λ next v3 on3 ahead.
                        bind jni
                          (fill_device-Polite main bus obj next prev p d v3 on3.calm
                            (on3.live obj born))
                          λ _ v4 on4 _.
                            device_loop-Polite at main bus fuel d.next next (some obj) main_dev' v4
                              on4.calm (BornIf-Onward jni next on4 ahead))
      ]

  fill_bus-Polite :
      (at : Ptr → Option UsbDevice) (main : Option Ref) (fuel : ℕ) (o : Ref)
      (next prev : Option Ref) (b : UsbBus) (v : Machine jni)
      → IsCalm jni v
      → jni.live v.machine o ≡ true
      → Polite jni v (Any jni) (fill_bus (watch jni) refs at main fuel o next prev b v)
  unfolding fill_bus
  fill_bus-Polite at main fuel o next prev b v calm there =
      bind jni (puts-Polite jni laws refs o (bus_links next prev) v calm there) λ _ v1 on1 _.
        let there1 = on1.live o there in
        bind jni
          (put_string-Polite jni laws refs o Field.bus_dirname v1 on1.calm there1 room b.dirname)
          λ _ v2 on2 _.
            let there2 = on2.live o there1 in
            bind jni
              (put-Polite jni laws refs o Field.bus_location (long (pos b.location)) v2 on2.calm
                there2)
              λ _ v3 on3 _.
                bind jni (device_loop-Polite at main o fuel b.devices none none none v3 on3.calm tt)
                  λ first v4 on4 _.
                    puts-Polite jni laws refs o (bus_devices_fields first) v4 on4.calm
                      (on4.live o (on3.live o there2))

  pub bus_loop-Polite :
      (at : Ptr → Option UsbBus) (devices_at : Ptr → Option UsbDevice) (devices fuel : ℕ) (p : Ptr)
      (o prev main : Option Ref) (v : Machine jni)
      → IsCalm jni v
      → BornIf jni o v
      → Polite jni v
          (Any jni)
          (bus_loop (watch jni) refs at devices_at devices fuel p o prev main v)
  unfolding bus_loop
  bus_loop-Polite at devices_at devices zero p o prev main v calm there = lacks_rounds
  bus_loop-Polite at devices_at devices (suc fuel) p o prev main v calm there =
      elim (Bool-cases (p == 0)) [
        | inl e ↦ rw (e, bus_loop) (goes_on (Onward-refl jni calm) tt)
        | inr e ↦
            rw (e, bus_loop)
              (bind jni (read-Polite jni at p v calm) λ b v1 on1 _.
                bind jni
                  (current-Polite Fields.bus Message.bus_object o main v1 on1.calm
                    (BornIf-Onward jni o on1 there))
                  λ (obj, main') v2 on2 born.
                    bind jni (new_next-Polite Fields.bus Message.bus_object_next b.next v2 on2.calm)
                      λ next v3 on3 ahead.
                        bind jni
                          (fill_bus-Polite devices_at main' devices obj next prev b v3 on3.calm
                            (on3.live obj born))
                          λ _ v4 on4 _.
                            bus_loop-Polite at devices_at devices fuel b.next next (some obj) main'
                              v4 on4.calm (BornIf-Onward jni next on4 ahead))
      ]
