-- ===== src/Handlers/Transfers.antt =====
-- The transfers of LibusbJava.c: `usb_control_msg`, `usb_bulk_write`, `usb_bulk_read`,
-- `usb_interrupt_write` and `usb_interrupt_read`. `memory` is what `malloc` finds, `block` what it
-- returned.
use owon_vds.Base.{
  ℕ, zero, suc, Option, ◌+◌, ◌-◌, Bool, [], ◌∷◌, true, none, some, List, ltb, if◌then◌else◌,
}
use owon_vds.Base.Int.{ℤ, pos, of_jlong, rounds}
use owon_vds.Libusb.Api.{Libusb, Buffer}
use owon_vds.Jni.Api.{Jni, Ref, Value, Slot}
use owon_vds.Native.State.{State, Outcome, returned, clear_libusb_java_error}

-- What `malloc` finds: no room, or memory, with what is in it, since `malloc` does not clear it.
abbrev pub Memory : Type 0
Memory = Option (ℕ → ℕ)

-- The first `n` bytes.
abbrev pub held : (ℕ → ℕ) → (n : ℕ) → List ℕ
held memory zero = []
held memory (suc n) = memory 0 ∷ held (λ i. memory (i + 1)) n

-- `malloc(size * sizeof(char))`: NULL, or a block of `size` bytes. A negative size is, as a `size_t`,
-- more than there is.
abbrev pub malloc : Memory → (size : ℤ) → Buffer
malloc (some memory) (pos n) = some (held memory n)
malloc _ _ = none

-- The count of blocks after `malloc` returned `block`, and after a block was freed.
abbrev pub counted : {V U : Type 0} → (block : Buffer) → State V U → State V U
counted none s = s
counted (some _) s = record s { malloced = s.malloced + 1 }

abbrev pub free : {V U : Type 0} → State V U → State V U
free s = record s { malloced = s.malloced - 1 }

-- libusb would go past the end of an array of that of which it is told `len` bytes.
abbrev pub exceeds : (len : ℤ) → Value → Bool
exceeds len (Value.size n) = ltb (rounds n) (rounds len)
exceeds len _ = true

module _ (jni : Jni) (usb : Libusb) where
  -- `SetByteArrayRegion` from a NULL buffer is undefined, and so is a size that is larger than the
  -- array whose elements libusb is given.
  unfoldable pub control_msg :
      (dev_handle requesttype request value index : ℤ) (jbytes : Ref) (size timeout : ℤ)
      → State jni.Vm usb.Usb
      → Outcome (State jni.Vm usb.Usb) ℤ
  control_msg dev_handle requesttype request value index jbytes size timeout s0 =
      let s = clear_libusb_java_error s0 in
      let (bytes, v) = jni.get_byte_array_elements jbytes s.vm in
      let (n, bytes', u) =
        usb.usb_control_msg (of_jlong dev_handle) requesttype request value index bytes size timeout
          s.usb in
      elim bytes [
        | none ↦ Outcome.fault
        | some _ ↦
            if exceeds size (jni.get s.vm jbytes Slot.extent)
            then Outcome.fault
            else (let w = jni.set_byte_array_region jbytes (pos 0) size bytes' v in
                returned n (record s {
                  usb = u;
                  vm = jni.release_byte_array_elements jbytes (some bytes') w;
                }))
      ]

  -- The two writes: the elements of the array are handed out, sent and released. To send more bytes
  -- than the array has is undefined.
  abbrev pub write_with :
      (Buffer → usb.Usb → ℤ × usb.Usb)
      → (jbytes : Ref) (size : ℤ) → State jni.Vm usb.Usb
      → Outcome (State jni.Vm usb.Usb) ℤ
  write_with send jbytes size s0 =
      let s = clear_libusb_java_error s0 in
      let (bytes, v) = jni.get_byte_array_elements jbytes s.vm in
      let (n, u) = send bytes s.usb in
      if exceeds size (jni.get s.vm jbytes Slot.extent)
      then Outcome.fault
      else returned n (record s { usb = u; vm = jni.release_byte_array_elements jbytes bytes v })

  unfoldable pub bulk_write :
      (dev_handle ep : ℤ) (jbytes : Ref) (size timeout : ℤ)
      → State jni.Vm usb.Usb
      → Outcome (State jni.Vm usb.Usb) ℤ
  bulk_write dev_handle ep jbytes size timeout =
      write_with (λ b. usb.usb_bulk_write (of_jlong dev_handle) ep b size timeout) jbytes size

  unfoldable pub interrupt_write :
      (dev_handle ep : ℤ) (jbytes : Ref) (size timeout : ℤ)
      → State jni.Vm usb.Usb
      → Outcome (State jni.Vm usb.Usb) ℤ
  interrupt_write dev_handle ep jbytes size timeout =
      write_with (λ b. usb.usb_interrupt_write (of_jlong dev_handle) ep b size timeout) jbytes size

  -- The two reads: `bytes` is tested only after libusb has been given it, and `size` bytes go to the
  -- array whatever the number read.
  abbrev pub read_with :
      (Buffer → usb.Usb → ℤ × List ℕ × usb.Usb)
      → (block : Buffer) (jbytes : Ref) (size : ℤ) → State jni.Vm usb.Usb
      → ℤ × State jni.Vm usb.Usb
  read_with receive block jbytes size s0 =
      let s = counted block (clear_libusb_java_error s0) in
      let (n, bytes, u) = receive block s.usb in
      elim block [
        | none ↦ (n, record s { usb = u })
        | some _ ↦ (
          n,
          free
              (record s { usb = u; vm = jni.set_byte_array_region jbytes (pos 0) size bytes s.vm }),
        )
      ]

  unfoldable pub bulk_read :
      (memory : Memory) (dev_handle ep : ℤ) (jbytes : Ref) (size timeout : ℤ)
      → State jni.Vm usb.Usb
      → ℤ × State jni.Vm usb.Usb
  bulk_read memory dev_handle ep jbytes size timeout =
      read_with (λ b. usb.usb_bulk_read (of_jlong dev_handle) ep b size timeout)
        (malloc memory size) jbytes size

  unfoldable pub interrupt_read :
      (memory : Memory) (dev_handle ep : ℤ) (jbytes : Ref) (size timeout : ℤ)
      → State jni.Vm usb.Usb
      → ℤ × State jni.Vm usb.Usb
  interrupt_read memory dev_handle ep jbytes size timeout =
      read_with (λ b. usb.usb_interrupt_read (of_jlong dev_handle) ep b size timeout)
        (malloc memory size) jbytes size
