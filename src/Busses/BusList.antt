-- ===== src/Busses/BusList.antt =====
-- The loop over the busses in `usb_get_busses` of LibusbJava.c.
use owon_vds.Base.{
  ℕ, zero, suc, ◌<◌, ◌≡◌, refl, ◌∙◌, true, Option, none, some, List, [], ◌∷◌, arith, length,
}
use owon_vds.Libusb.Structs.{Ptr, UsbDevice, UsbBus}
use owon_vds.Jni.Api.{Jni, Ref}
use owon_vds.Jni.Laws.{Laws, HasRoom, IsCreated, IsRefusal}
use owon_vds.Native.Fields.{JavaClass}
use owon_vds.Native.State.{References, Message}
use owon_vds.Busses.Devices.{current, bus_loop}
use owon_vds.Busses.Ends.{Ends, ends, bind, mono}
use owon_vds.Busses.Frame.{
  Below, Only, Grow, Own, Only-trans, Only-Only, Only-Keeps, Grow-Only, Grow-refl, Created-Grow,
  ne_of_live, not-live_of_Below, Only-Grow,
}
use owon_vds.Busses.Puts.{IsResolved}
use owon_vds.Busses.Arrays.{new-Created}
use owon_vds.Busses.DeviceTree.{All, BusChain, IsBusOk, IsBus, IsBusList}
use owon_vds.Busses.DeviceList.{read-some, new_next-Next}
use owon_vds.Busses.BusCopy.{IsBus-later, fill_bus-IsBus}

-- The busses, each with its devices.
abbrev pub Topology : Type 0
Topology = List (Ptr × UsbBus × List (Ptr × UsbDevice))

module _ (jni : Jni) (laws : Laws jni) (room : HasRoom jni) {refs : References}
    (res : IsResolved refs) where
  abbrev Listed : (base v : jni.Vm) (r : Ref) (prev : Option Ref) (l : Topology) → jni.Vm → Type 0
  Listed base v r prev l w = Only jni r v w × IsBusList jni res base w prev (some r) l

  -- The bus at the head of the list is done, and from the object `q` on nothing else was written.
  pub keep_head :
      {base v v1 v2 w : jni.Vm} {r q : Ref} {prev : Option Ref} {b : UsbBus}
      {devices : List (Ptr × UsbDevice)}
      → Below jni base v
      → Own jni base v r
      → IsCreated jni v q v1
      → Only jni r v1 v2
      → IsBus jni res v1 v2 (some q) prev r b devices
      → Only jni q v2 w
      → Only jni r v w × Own jni base w r × IsBus jni res base w (some q) prev r b devices
  keep_head {v} {v2} {r} {q} below own made filled is only = (
    Only-Only jni r made.fresh before only,
    (own.0, only.live r live2),
    IsBus-later jni laws room res (λ k h. made.keeps_live k (below k h))
        (Only-Keeps jni made.born only)
        (λ s. only.same r s live2 (ne_of_live jni {v = v} r q own.1 made.fresh)) is,
  )
    where
      before : Only jni r v v2
      before = Only-trans jni (Grow-Only jni r (Created-Grow jni made)) filled

      live2 : jni.live v2 r ≡ true
      live2 = before.live r own.1

  module _ (at : Ptr → Option UsbBus) (devices_at : Ptr → Option UsbDevice) (rounds : ℕ) where
    bus_loop-Listed :
        (l : Topology) (fuel : ℕ) (p : Ptr) (x : Ptr × UsbBus × List (Ptr × UsbDevice))
        (base v : jni.Vm) (r : Ref) (prev main : Option Ref)
        → Below jni base v
        → Own jni base v r
        → BusChain at devices_at p (x ∷ l)
        → All (IsBusOk rounds) (x ∷ l)
        → length (x ∷ l) < fuel
        → Ends
            (IsRefusal jni)
            (λ res' w. (res' ≡ main) × Listed base v r prev (x ∷ l) w)
            (bus_loop jni refs at devices_at rounds fuel p (some r) prev main v)
    unfolding bus_loop current
    bus_loop-Listed l zero p x base v r prev main below own chain fine lt = absurd (omega arith)
    bus_loop-Listed [] (suc zero) p x base v r prev main below own chain fine lt =
        absurd (omega arith)
    bus_loop-Listed [] (suc (suc fuel)) p (p', b, ds) base v r prev main below own
          (e, ne, here, chain, last) fine lt =
        rw (ne, read-some at p b v here)
          (bind
            (new_next-Next jni {A = Ptr × UsbBus × List (Ptr × UsbDevice)} laws res _ _ b.next [] v
              last)
            λ next v1 (none_left, grown).
              bind
                (fill_bus-IsBus jni laws room res devices_at main rounds p b ds (grown.live r own.1)
                  chain fine.0)
                λ _ v2 (only, is).
                  let is' =
                    IsBus-later jni laws room res (λ q h. grown.live q (below q h))
                      (λ q a b. (b, λ s. refl)) (λ s. refl) is in
                  let own' : Own jni base v2 r = (own.0, only.live r (grown.live r own.1)) in
                  simp last (
                    ends (
                      refl,
                      (
                        Only-trans jni (Grow-Only jni r grown) only,
                        (r, next, refl, own', is', none_left),
                      ),
                    )))
    bus_loop-Listed (y ∷ l) (suc fuel) p (p', b, ds) base v r prev main below own
          (e, ne, here, chain, chains) fine lt =
        rw (ne, read-some at p b v here)
          (bind (new_next-Next jni laws res _ _ b.next (y ∷ l) v chains.1) λ next v1 (q, e', made).
            rw e' (
              bind
                (fill_bus-IsBus jni laws room res devices_at main rounds p b ds
                  (made.keeps_live r own.1) chain fine.0)
                λ _ v2 (only, is).
                  mono
                    (bus_loop-Listed l fuel b.next y base v2 q (some r) main
                      (λ k h. only.live k (made.keeps_live k (below k h)))
                      (not-live_of_Below jni q below made.fresh, only.live q made.born) chains
                      fine.1 (omega arith))
                    λ res' w (same, (others, list)).
                      let (whole, own', is') = keep_head below own made only is others in
                      (same, (whole, (r, some q, refl, own', is', list)))))

    pub current-none :
        (v : jni.Vm)
        → Ends
            (IsRefusal jni)
            (λ (a : Ref × Option Ref) w. (a.1 ≡ some a.0) × IsCreated jni v a.0 w)
            (current jni refs JavaClass.bus Message.bus_object none none v)
    unfolding current
    current-none v =
        bind (new-Created jni laws res JavaClass.bus Message.bus_object v)
          λ o w made. ends (refl, made)

    -- The whole loop, from the first bus on: its list is returned, and nothing that was there is
    -- changed.
    pub bus_loop-IsBusList :
        (l : Topology) (fuel : ℕ) (p : Ptr) (v : jni.Vm)
        → BusChain at devices_at p l
        → All (IsBusOk rounds) l
        → length l < fuel
        → Ends
            (IsRefusal jni)
            (λ first w. Grow jni v w × IsBusList jni res v w none first l)
            (bus_loop jni refs at devices_at rounds fuel p none none none v)
    unfolding bus_loop current
    bus_loop-IsBusList l zero p v chain fine lt = absurd (omega arith)
    bus_loop-IsBusList [] (suc fuel) p v last fine lt = rw last (ends (Grow-refl jni v, refl))
    bus_loop-IsBusList ((p', b, ds) ∷ l) (suc fuel) p v (e, ne, here, chain, chains) fine lt =
        rw (ne, read-some at p b v here)
          (bind (current-none v) λ a w (is_first, made).
            mono
              (rw (ne, read-some at p b w here) at
                (bus_loop-Listed l (suc fuel) p (p', b, ds) v w a.0 none a.1 made.keeps_live
                  (made.fresh, made.born) (e, ne, here, chain, chains) fine lt))
              λ first u (same, (only, list)).
                (Only-Grow jni made.fresh (Created-Grow jni made) only, rw (same ∙ is_first) list))
