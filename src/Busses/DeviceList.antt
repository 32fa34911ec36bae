-- ===== src/Busses/DeviceList.antt =====
-- The loop over the devices of a bus in `usb_get_busses` of LibusbJava.c.
use owon_vds.Base.{
  ℕ, zero, suc, ◌<◌, ◌≡◌, refl, ◌∙◌, true, false, Option, none, some, List, [], ◌∷◌, arith, ◌==◌,
  length,
}
use owon_vds.Libusb.Structs.{Ptr, UsbDevice}
use owon_vds.Jni.Api.{Jni, Ref, Slot}
use owon_vds.Jni.Laws.{Laws, HasRoom, IsCreated, IsRefusal}
use owon_vds.Native.Fields.{JavaClass, Field}
use owon_vds.Native.State.{References, Message}
use owon_vds.Busses.Action.{ok}
use owon_vds.Busses.Devices.{
  read, current, new_next, device_loop, device_links, device_numbers, device_descriptor_fields,
}
use owon_vds.Busses.Ends.{Ends, ends, bind, mono}
use owon_vds.Busses.Frame.{
  Below, Only, Grow, Keeps, Own, Only-trans, Only-Only, Only-Keeps, Grow-Only, Grow-refl,
  Created-Grow, ne_of_live, not-live_of_Below, Only-Grow,
}
use owon_vds.Busses.Puts.{IsResolved, slot, Holds-rest}
use owon_vds.Busses.Arrays.{new-Created}
use owon_vds.Busses.DeviceTree.{Chain, All, IsDeviceOk, IsDevice, IsDeviceList}
use owon_vds.Busses.Stable.{
  Own-keep, Own-widen, get-keep, IsArray-keep, IsArray-widen, IsConfig-stable,
}
use owon_vds.Busses.Strings.{IsText-keep, IsText-widen}
use owon_vds.Busses.DeviceCopy.{fill_device-IsDevice}

pub read-some :
    {V A : Type 0} (at : Ptr → Option A) (p : Ptr) (x : A) (v : V)
    → at p ≡ some x
    → read at p v ≡ ok x v
unfolding read
read-some at p x v e = rw (e, read)

module _ (jni : Jni) where
  -- The object for the rest of a list: none where nothing is left, else a new one.
  abbrev pub Next : {A : Type 0} → jni.Vm → List A → Option Ref → jni.Vm → Type 0
  Next v [] r w = (r ≡ none) × Grow jni v w
  Next v (x ∷ l) r w = (q : Ref) × (r ≡ some q) × IsCreated jni v q w

  -- The pointer to a list is NULL just where the list is empty.
  abbrev pub Leads : {A : Type 0} → Ptr → List A → Type 0
  Leads p [] = p ≡ 0
  Leads p (x ∷ l) = (p == 0) ≡ false

  pub new_next-Next :
      {A : Type 0} (laws : Laws jni) {refs : References} (res : IsResolved refs) (c : JavaClass)
      (m : Message) (p : Ptr) (l : List A) (v : jni.Vm)
      → Leads p l
      → Ends (IsRefusal jni) (λ r w. Next v l r w) (new_next jni refs c m p v)
  unfolding new_next
  new_next-Next laws res c m p [] v e = rw (e, new_next) (ends (refl, Grow-refl jni v))
  new_next-Next laws res c m p (x ∷ l) v ne =
      rw (ne, new_next) (bind (new-Created jni laws res c m v) λ o w made. ends (o, refl, made))

module _ (jni : Jni) (laws : Laws jni) (room : HasRoom jni) {refs : References}
    (res : IsResolved refs) where
  -- A device's object stands for it as long as it and what hangs on it are left alone.
  pub IsDevice-later :
      {base mid v w : jni.Vm} {bus r : Ref} {next prev : Option Ref} {x : Ptr × UsbDevice}
      → Below jni base mid
      → Keeps jni mid v w
      → ((s : Slot) → jni.get w r s ≡ jni.get v r s)
      → IsDevice jni res mid v bus next prev r x
      → IsDevice jni res base w bus next prev r x
  IsDevice-later {bus} {next} {prev} {x} b k same h = record {
    links = Holds-rest jni res (device_links next prev bus) (λ f. same (slot res f)) h.links;
    filename =
        IsText-widen jni res Field.dev_filename b (
          IsText-keep jni res Field.dev_filename k (same (slot res Field.dev_filename)) h.filename);
    numbers = Holds-rest jni res (device_numbers x.0 x.1) (λ f. same (slot res f)) h.numbers;
    descriptor =
        let (d, at, own, holds) = h.descriptor in
        (
          d,
          same (slot res Field.dev_descriptor) ∙ at,
          Own-widen jni b (Own-keep jni k own),
          Holds-rest jni res (device_descriptor_fields x.1.descriptor)
              (λ f. get-keep jni (slot res f) k own) holds,
        );
    configs =
        let (a, at, is) = h.configs in
        let stable = IsConfig-stable jni res in
        (
          a,
          same (slot res Field.dev_config) ∙ at,
          IsArray-widen jni stable b (IsArray-keep jni stable k is),
        );
  }

  module _ (at : Ptr → Option UsbDevice) (main : Option Ref) (bus : Ref) where
    -- The list of `x ∷ l`, whose first object is `r`, was made, and nothing older than `v` but `r`
    -- was written.
    abbrev pub Listed :
        (base v : jni.Vm) (r : Ref) (prev : Option Ref) (l : List (Ptr × UsbDevice))
        → jni.Vm
        → Type 0
    Listed base v r prev l w = Only jni r v w × IsDeviceList jni res base w bus prev (some r) l

    -- The device at the head of the list is done, and so is the rest, from the object `q` on.
    cons-Listed :
        {base v v1 v2 w : jni.Vm} {r q : Ref} {prev : Option Ref} {x y : Ptr × UsbDevice}
        (l : List (Ptr × UsbDevice))
        → Below jni base v
        → Own jni base v r
        → IsCreated jni v q v1
        → Only jni r v1 v2
        → IsDevice jni res v1 v2 bus (some q) prev r x
        → Listed base v2 q (some r) (y ∷ l) w
        → Listed base v r prev (x ∷ y ∷ l) w
    cons-Listed {v} {v2} {r} {q} l below own made filled is (only, list) = (
      Only-Only jni r made.fresh before only,
      (
        r,
        some q,
        refl,
        (own.0, only.live r live2),
        IsDevice-later (λ p h. made.keeps_live p (below p h)) (Only-Keeps jni made.born only)
            (λ s. only.same r s live2 (ne_of_live jni {v = v} r q own.1 made.fresh)) is,
        list,
      ),
    )
      where
        before : Only jni r v v2
        before = Only-trans jni (Grow-Only jni r (Created-Grow jni made)) filled

        live2 : jni.live v2 r ≡ true
        live2 = before.live r own.1

    device_loop-Listed :
        (l : List (Ptr × UsbDevice)) (fuel : ℕ) (p : Ptr) (x : Ptr × UsbDevice) (base v : jni.Vm)
        (r : Ref) (prev main_dev : Option Ref)
        → Below jni base v
        → Own jni base v r
        → Chain at (λ d. d.next) p (x ∷ l)
        → All IsDeviceOk (x ∷ l)
        → length (x ∷ l) < fuel
        → Ends
            (IsRefusal jni)
            (λ res' w. (res' ≡ main_dev) × Listed base v r prev (x ∷ l) w)
            (device_loop jni refs at main bus fuel p (some r) prev main_dev v)
    unfolding device_loop current
    device_loop-Listed l zero p x base v r prev main_dev below own chain fine lt =
        absurd (omega arith)
    device_loop-Listed [] (suc zero) p x base v r prev main_dev below own chain fine lt =
        absurd (omega arith)
    device_loop-Listed [] (suc (suc fuel)) p (p', d) base v r prev main_dev below own
          (e, ne, here, last) fine lt =
        rw (e, ne, read-some at p d v here)
          (bind (new_next-Next jni {A = Ptr × UsbDevice} laws res _ _ d.next [] v last)
            λ next v1 (none_left, grown).
              bind (fill_device-IsDevice jni laws room res p d (grown.live r own.1) main fine.0)
                λ _ v2 (only, is).
                  let is' =
                    IsDevice-later (λ q h. grown.live q (below q h)) (λ q a b. (b, λ s. refl))
                      (λ s. refl) is in
                  let own' : Own jni base v2 r = (own.0, only.live r (grown.live r own.1)) in
                  simp last (
                    ends (
                      refl,
                      (
                        Only-trans jni (Grow-Only jni r grown) only,
                        (r, next, refl, own', is', none_left),
                      ),
                    )))
    device_loop-Listed (y ∷ l) (suc fuel) p (p', d) base v r prev main_dev below own
          (e, ne, here, chain) fine lt =
        rw (e, ne, read-some at p d v here)
          (bind (new_next-Next jni laws res _ _ d.next (y ∷ l) v chain.1) λ next v1 (q, e', made).
            rw e' (
              bind
                (fill_device-IsDevice jni laws room res p d (made.keeps_live r own.1) main fine.0)
                λ _ v2 (only, is).
                  mono
                    (device_loop-Listed l fuel d.next y base v2 q (some r) main_dev
                      (λ k h. only.live k (made.keeps_live k (below k h)))
                      (not-live_of_Below jni q below made.fresh, only.live q made.born) chain fine.1
                      (omega arith))
                    λ res' w (same, list). (same, cons-Listed l below own made only is list)))

    pub current-none :
        (v : jni.Vm)
        → Ends
            (IsRefusal jni)
            (λ (a : Ref × Option Ref) w. (a.1 ≡ some a.0) × IsCreated jni v a.0 w)
            (current jni refs JavaClass.device Message.dev_object none none v)
    unfolding current
    current-none v =
        bind (new-Created jni laws res JavaClass.device Message.dev_object v)
          λ o w made. ends (refl, made)

    -- Where the virtual machine has room for strings and byte arrays, the IDs are resolved, the
    -- devices' list ends within the rounds given and their configurations are as their counts say:
    -- the loop over the devices of a bus ends. It gives a doubly linked list of new objects that
    -- stand for the devices, in order, and no object that was there is changed; or the machine
    -- refused an object, and the call returns NULL with an error.
    pub device_loop-IsDeviceList :
        (l : List (Ptr × UsbDevice)) (fuel : ℕ) (p : Ptr) (base v : jni.Vm)
        → Below jni base v
        → Chain at (λ d. d.next) p l
        → All IsDeviceOk l
        → length l < fuel
        → Ends
            (IsRefusal jni)
            (λ first w. Grow jni v w × IsDeviceList jni res base w bus none first l)
            (device_loop jni refs at main bus fuel p none none none v)
    unfolding device_loop current
    device_loop-IsDeviceList l zero p base v below chain fine lt = absurd (omega arith)
    device_loop-IsDeviceList [] (suc fuel) p base v below last fine lt =
        rw last (ends (Grow-refl jni v, refl))
    device_loop-IsDeviceList ((p', d) ∷ l) (suc fuel) p base v below (e, ne, here, chain) fine lt =
        rw (ne, read-some at p d v here)
          (bind (current-none v) λ a w (is_first, made).
            mono
              (rw (ne, read-some at p d w here) at
                (device_loop-Listed l (suc fuel) p (p', d) base w a.0 none a.1
                  (λ q h. made.keeps_live q (below q h))
                  (not-live_of_Below jni a.0 below made.fresh, made.born) (e, ne, here, chain) fine
                  lt))
              λ first u (same, (only, list)).
                (Only-Grow jni made.fresh (Created-Grow jni made) only, rw (same ∙ is_first) list))
