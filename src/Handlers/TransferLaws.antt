-- ===== src/Handlers/TransferLaws.antt =====
-- The reads of LibusbJava.c: `usb_bulk_read` and `usb_interrupt_read` on both outcomes of `malloc`.
use owon_vds.Base.{arith, ℕ, ◌≡◌, refl, none, some, List, true, drop}
use owon_vds.Base.Int.{ℤ, of_jlong}
use owon_vds.Libusb.Api.{Libusb, Buffer}
use owon_vds.Jni.Api.{Jni, Ref, bytes, size, extent, contents}
use owon_vds.Jni.Laws.{Laws, IsWritten}
use owon_vds.Native.State.{State}
use owon_vds.Handlers.Transfers.{Memory, malloc, bulk_read, interrupt_read, read_with}

module _ (jni : Jni) (usb : Libusb) where
  -- What every read does: libusb's number goes back to Java, the error is cleared, and no block
  -- stays allocated.
  pub record IsAnswered (answer : ℤ × List ℕ × usb.Usb) (s : State jni.Vm usb.Usb)
      (r : ℤ × State jni.Vm usb.Usb) : Type 0 where
    pub value : r.0 ≡ answer.0
    pub device : r.1.usb ≡ answer.2
    pub error : r.1.libusb_java_error ≡ none
    pub balanced : r.1.malloced ≡ s.malloced

  -- With a block, the array then holds the block's bytes, however many were received; without one,
  -- the virtual machine is untouched.
  abbrev pub Fetched :
      Buffer
      → Ref
      → (answer : ℤ × List ℕ × usb.Usb) → State jni.Vm usb.Usb
      → ℤ × State jni.Vm usb.Usb
      → Type 0
  Fetched (some _) jbytes answer s r = IsWritten jni s.vm jbytes contents (bytes answer.1) r.1.vm
  Fetched none jbytes answer s r = r.1.vm ≡ s.vm

  abbrev pub IsRead :
      Buffer
      → Ref
      → (answer : ℤ × List ℕ × usb.Usb) → State jni.Vm usb.Usb
      → ℤ × State jni.Vm usb.Usb
      → Type 0
  IsRead block jbytes answer s r = IsAnswered answer s r × Fetched block jbytes answer s r

  module _ (laws : Laws jni) (jbytes : Ref) (len : ℤ) (s : State jni.Vm usb.Usb)
      (there : jni.live s.vm jbytes ≡ true) (whole : jni.get s.vm jbytes extent ≡ size len) where
    read_with-IsRead :
        (receive : Buffer → usb.Usb → ℤ × List ℕ × usb.Usb) (block : Buffer)
        → IsRead block jbytes (receive block s.usb) s (read_with jni usb receive block jbytes len s)
    read_with-IsRead receive none =
        (record { value = refl; device = refl; error = refl; balanced = refl }, refl)
    read_with-IsRead receive (some l) = (
      record { value = refl; device = refl; error = refl; balanced = ground arith },
      laws.set_byte_array_region jbytes len (receive (some l) s.usb).1 s.vm there whole,
    )

    -- A read into a whole Java array, by either kind of transfer and on both outcomes of `malloc`:
    -- Java gets the number that libusb returned, the error is cleared, and as many blocks are
    -- allocated as before. With a block, the array holds what libusb left in it, and nothing else
    -- that Java sees has changed; without one, Java's objects are untouched.
    pub reads-IsRead :
        (memory : Memory) (dev_handle ep timeout : ℤ)
        → let block = malloc memory len in
          IsRead block jbytes
            (usb.usb_bulk_read (of_jlong dev_handle) ep block len timeout s.usb)
            s
            (bulk_read jni usb memory dev_handle ep jbytes len timeout s)
          × IsRead block jbytes
              (usb.usb_interrupt_read (of_jlong dev_handle) ep block len timeout s.usb)
              s
              (interrupt_read jni usb memory dev_handle ep jbytes len timeout s)
    unfolding bulk_read interrupt_read
    reads-IsRead memory dev_handle ep timeout = (
      read_with-IsRead (λ b. usb.usb_bulk_read (of_jlong dev_handle) ep b len timeout) _,
      read_with-IsRead (λ b. usb.usb_interrupt_read (of_jlong dev_handle) ep b len timeout) _,
    )

    -- Where `malloc` returns a block, and libusb leaves it alone from byte `n` on, for instance
    -- because it received `n` bytes or, with 0, none: the array holds, from byte `n` on, what the
    -- block held when it was allocated, and the bytes that were in the array before are lost.
    pub bulk_read-stale :
        (memory : Memory) (l : List ℕ) (dev_handle ep timeout : ℤ) (n : ℕ)
        → malloc memory len ≡ some l
        → drop n (usb.usb_bulk_read (of_jlong dev_handle) ep (some l) len timeout s.usb).1
          ≡ drop n l
        → let (_, s') = bulk_read jni usb memory dev_handle ep jbytes len timeout s in
          (got : List ℕ) × (jni.get s'.vm jbytes contents ≡ bytes got) × (drop n got ≡ drop n l)
    unfolding bulk_read
    bulk_read-stale memory l dev_handle ep timeout n e alone = rw e (
      _,
      (read_with-IsRead (λ b. usb.usb_bulk_read (of_jlong dev_handle) ep b len timeout)
          (some l)).1.written,
      alone,
    )
