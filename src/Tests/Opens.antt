-- ===== src/Tests/Opens.antt =====
-- The theorems on `usb_open` and the error texts at inputs that meet their hypotheses.
use owon_vds.Base.{ℕ, ◌≡◌, refl, some, List, [], ◌∷◌, arith, ◌≢◌}
use mathlib.Core.List.{Memᴰ}
use mathlib.Core.List.Memᴰ
use owon_vds.Base.Int.{ℤ, pos, to_jlong}
use owon_vds.Jni.Api.{long}
use owon_vds.Native.Fields.{Field, field_key}
use owon_vds.Native.State.{State, Message, returned, message_text}
use owon_vds.Handlers.Control.{close}
use owon_vds.Handlers.Open.{open_device}
use owon_vds.Handlers.OpenLaws.{open_device-opens, open_device-refuses, open_device-close}
use owon_vds.Handlers.Errors.{strerror, error_no}
use owon_vds.Handlers.ErrorLaws.{IsTold, strerror-twice, Errno, java_number, error_no-errno_value}
use owon_vds.Tests.Machine.{Heap, machine, machine-Laws, machine-HasRoom, known}
use owon_vds.Tests.Memory.{topology, stub, start}
use owon_vds.Tests.Topology.{empty_heap}

-- The IDs are looked up, and libusb's busses are stored.
abbrev loaded : Heap → State Heap (List ℕ)
loaded h = record (start h) { references = known; busses = 16 }

-- Each `long` field of each object holds `x`.
abbrev holding : ℤ → Heap
holding x = record { next = 6; cells = λ o s. long x }

address-100 : pos 100 ≡ to_jlong 100
unfolding to_jlong
address-100 = refl

handle-101 : to_jlong 101 ≡ pos 101
unfolding to_jlong
handle-101 = refl

not_there : (p : ℕ) → Memᴰ p (100 ∷ 200 ∷ []) → to_jlong p ≢ pos 300
unfolding to_jlong
not_there p (Memᴰ.head e) h = ground arith
not_there p (Memᴰ.tail (Memᴰ.head e)) h = ground arith
not_there p (Memᴰ.tail (Memᴰ.tail i)) h = absurd (Memᴰ.not-nil i)

open_device-opens_example :
    open_device (machine 100) stub 3 2 5 (loaded (holding (pos 100)))
    ≡ returned (to_jlong 101) (record (loaded (holding (pos 100))) { usb = 100 ∷ [] })
open_device-opens_example =
    open_device-opens (machine 100) stub 3 2 5 (loaded (holding (pos 100)))
      (field_key Field.dev_dev_struct_addr) refl topology
      (refl, refl, refl, (refl, refl, refl, (refl, refl, refl, refl)), refl) (omega arith, tt)
      (omega arith) 100 (omega arith) (omega arith, (omega arith, tt)) (Memᴰ.head refl) address-100

open_device-close_example :
    (v : ℤ) × (s : State Heap (List ℕ)) × (open_device
        (machine 100)
        stub
        3
        2
        5
        (loaded (holding (pos 100)))
      ≡ returned v s)
    × (close {V = Heap} stub v s
        ≡ (pos 0, record (loaded (holding (pos 100))) { usb = 101 ∷ 100 ∷ [] }))
open_device-close_example =
    open_device-close (machine 100) stub 3 2 5 (loaded (holding (pos 100)))
      (field_key Field.dev_dev_struct_addr) refl topology
      (refl, refl, refl, (refl, refl, refl, (refl, refl, refl, refl)), refl) (omega arith, tt)
      (omega arith) 100 (omega arith) (omega arith, (omega arith, tt)) (Memᴰ.head refl) address-100
      (omega arith)

open_device-refuses_example :
    open_device (machine 100) stub 3 2 5 (loaded (holding (pos 300)))
    ≡ returned
        (pos 0)
        (record (loaded (holding (pos 300))) { libusb_java_error = some Message.no_device })
open_device-refuses_example =
    open_device-refuses (machine 100) stub 3 2 5 (loaded (holding (pos 300)))
      (field_key Field.dev_dev_struct_addr) refl topology
      (refl, refl, refl, (refl, refl, refl, (refl, refl, refl, refl)), refl) (omega arith, tt)
      (omega arith) not_there

strerror-twice_example :
    let s : State Heap (List ℕ) = record (start empty_heap) {
      libusb_java_error = some Message.no_device;
    } in
    let (r, s') = strerror (machine 100) stub s in
    IsTold
      (machine 100)
      stub
      (machine-Laws 100)
      (machine-HasRoom 100)
      s
      (message_text Message.no_device)
      (r, s')
    × IsTold
        (machine 100)
        stub
        (machine-Laws 100)
        (machine-HasRoom 100)
        s'
        (63 ∷ [])
        (strerror (machine 100) stub s')
strerror-twice_example =
    strerror-twice (machine 100) stub (machine-Laws 100) (machine-HasRoom 100)
      (record (start empty_heap) { libusb_java_error = some Message.no_device }) Message.no_device
      refl

error_no-errno_value_example :
    (error_no (pos 3) ≡ 16)
    × (error_no (pos 9) ≡ 16 → pos 9 ≡ pos 3)
    × (((d : Errno) → pos 9 ≢ java_number d) → error_no (pos 9) ≡ 100000)
error_no-errno_value_example = error_no-errno_value Errno.busy (pos 9)
