-- ===== src/Handlers/ShortArrays.antt =====
-- The reads of LibusbJava.c into arrays that may be shorter than the size that Java asks for, on a
-- virtual machine that notes exceptions.
use owon_vds.Base.{ℕ, ◌≡◌, refl, Bool, false, ◌||◌, some, List, arith, ltb}
use owon_vds.Base.Int.{ℤ, pos, of_jlong}
use owon_vds.Libusb.Api.{Libusb}
use owon_vds.Jni.Api.{Jni, Ref, size, extent}
use owon_vds.Jni.Watch.{Watched, watch}
use owon_vds.Native.State.{State}
use owon_vds.Busses.Polite.{IsCalm}
use owon_vds.Handlers.Transfers.{held, bulk_read, interrupt_read}

module _ (jni : Jni) (usb : Libusb) where
  -- The number is libusb's, the block is freed, and an exception is pending just where the array is
  -- shorter than the size.
  abbrev pub RaisesIf :
      (raises : Bool)
      → State (Watched jni.Vm) usb.Usb
      → ℤ × List ℕ × usb.Usb
      → ℤ × State (Watched jni.Vm) usb.Usb
      → Type 0
  RaisesIf raises s (n, _, u) (r, s') =
      (r ≡ n)
      × (s'.usb ≡ u)
      × (s'.vm.pending ≡ raises)
      × (s'.vm.misused ≡ false)
      × (s'.malloced ≡ s.malloced)

  -- Where `malloc` returns a block and no exception is pending: a read of `n` bytes into an array of
  -- `m` returns libusb's number and frees the block, and calls nothing of the Java Native Interface
  -- while an exception is pending. It leaves an exception if `m` is less than `n`, and else none.
  pub reads-RaisesIf :
      (memory : ℕ → ℕ) (h ep timeout : ℤ) (jbytes : Ref) (m n : ℕ)
      (s : State (Watched jni.Vm) usb.Usb)
      → jni.get s.vm.machine jbytes extent ≡ size (pos m)
      → IsCalm jni s.vm
      → RaisesIf
          (ltb m n)
          s
          (usb.usb_bulk_read (of_jlong h) ep (some (held memory n)) (pos n) timeout s.usb)
          (bulk_read (watch jni) usb (some memory) h ep jbytes (pos n) timeout s)
        × RaisesIf
            (ltb m n)
            s
            (usb.usb_interrupt_read (of_jlong h) ep (some (held memory n)) (pos n) timeout s.usb)
            (interrupt_read (watch jni) usb (some memory) h ep jbytes (pos n) timeout s)
  unfolding bulk_read interrupt_read
  reads-RaisesIf memory h ep timeout jbytes m n s len calm =
      let pending : ((watch jni).set_byte_array_region jbytes (pos 0) (pos n) (held memory n)
            s.vm).pending
          ≡ ltb m n =
        rw len (ground (arith, calm.pending)) in
      let misused : (s.vm.misused || s.vm.pending) ≡ false =
        ground (arith, calm.misused, calm.pending) in
      ((refl, refl, pending, misused, omega arith), (refl, refl, pending, misused, omega arith))
