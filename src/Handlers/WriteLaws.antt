-- ===== src/Handlers/WriteLaws.antt =====
-- `usb_bulk_write`, `usb_interrupt_write` and `usb_control_msg` of LibusbJava.c.
use owon_vds.Base.{
  ℕ, ◌≤◌, ltb, arith, false, if◌then◌else◌, ◌≡◌, ◌≢◌, refl, sym, ap, ◌∙◌, none, some, List, true,
}
use native.Mathlib.Decide.{ℕ_discrete}
use owon_vds.Base.Int.{ℤ, pos, of_jlong, rounds}
use owon_vds.Libusb.Api.{Libusb, Buffer}
use owon_vds.Jni.Api.{Jni, Ref, Slot, bytes, size, field, element, extent, contents}
use owon_vds.Jni.Laws.{Laws, ElementLaws, IsWritten}
use owon_vds.Native.State.{State, Outcome, returned, clear_libusb_java_error}
use owon_vds.Handlers.Transfers.{bulk_write, interrupt_write, write_with, control_msg, exceeds}

module _ (jni : Jni) (usb : Libusb) where
  rewritten :
      {v w : jni.Vm} {a : Ref} {l : List ℕ}
      → jni.get v a contents ≡ bytes l
      → IsWritten jni v a contents (bytes l) w
      → (t : Slot) → jni.get w a t ≡ jni.get v a t
  rewritten same e contents = e.written ∙ sym same
  rewritten same e extent = e.other_slot extent (λ q. cc)
  rewritten same e (field i) = e.other_slot (field i) (λ q. cc)
  rewritten same e (element i) = e.other_slot (element i) (λ q. cc)

  module _ (laws : ElementLaws jni) (jbytes : Ref) (l : List ℕ) (s : State jni.Vm usb.Usb)
      (there : jni.live s.vm jbytes ≡ true) (holds : jni.get s.vm jbytes contents ≡ bytes l) where
    -- The call returns libusb's number, with the error cleared and nothing but libusb's state and that
    -- of the virtual machine changed, which took back the elements `l`; and Java's objects hold what
    -- they held.
    abbrev pub IsSent : (answer : ℤ × usb.Usb) → Outcome (State jni.Vm usb.Usb) ℤ → Type 0
    IsSent (n, u) r =
        let w = jni.release_byte_array_elements jbytes (some l) s.vm in
        (r ≡ returned n (record (clear_libusb_java_error s) { usb = u; vm = w }))
        × ((p : Ref) (t : Slot) → jni.get w p t ≡ jni.get s.vm p t)

    -- What follows `GetByteArrayElements`.
    abbrev sent :
        (Buffer → usb.Usb → ℤ × usb.Usb)
        → (len : ℤ) → Buffer × jni.Vm
        → Outcome (State jni.Vm usb.Usb) ℤ
    sent send len (b, v) =
        let (n, u) = send b s.usb in
        if exceeds len (jni.get s.vm jbytes extent)
        then Outcome.fault
        else returned n (record (clear_libusb_java_error s) {
          usb = u;
          vm = jni.release_byte_array_elements jbytes b v;
        })

    write_with-IsSent :
        (send : Buffer → usb.Usb → ℤ × usb.Usb) (m n : ℕ)
        → jni.get s.vm jbytes extent ≡ size (pos m)
        → n ≤ m
        → IsSent (send (some l) s.usb) (write_with jni usb send jbytes (pos n) s)
    write_with-IsSent send m n whole le =
        let e = laws.release_byte_array_elements jbytes l s.vm there in
        let fits : ltb m n ≡ false = ground arith in
        (
          ap (sent send (pos n)) (laws.get_byte_array_elements jbytes l s.vm there holds)
              ∙ rw (whole, fits) refl,
          λ p t. elim (ℕ_discrete p jbytes) [
            | yes q ↦ rw q (rewritten holds e t)
            | no ne ↦ e.other_object p t ne
          ],
        )

    -- A write of either kind of as many bytes as a Java byte array has, or of fewer, where the
    -- machine hands out the elements `l` of the array: libusb is given `l`, Java gets the number
    -- that libusb returned, the error is cleared, the machine gets the elements back, and no object
    -- of Java holds anything else than before.
    pub writes-IsSent :
        (dev_handle ep timeout : ℤ) (m n : ℕ)
        → jni.get s.vm jbytes extent ≡ size (pos m)
        → n ≤ m
        → IsSent
            (usb.usb_bulk_write (of_jlong dev_handle) ep (some l) (pos n) timeout s.usb)
            (bulk_write jni usb dev_handle ep jbytes (pos n) timeout s)
          × IsSent
              (usb.usb_interrupt_write (of_jlong dev_handle) ep (some l) (pos n) timeout s.usb)
              (interrupt_write jni usb dev_handle ep jbytes (pos n) timeout s)
    unfolding bulk_write interrupt_write
    writes-IsSent dev_handle ep timeout m n whole le = (
      write_with-IsSent (λ b. usb.usb_bulk_write (of_jlong dev_handle) ep b (pos n) timeout) m n
          whole le,
      write_with-IsSent (λ b. usb.usb_interrupt_write (of_jlong dev_handle) ep b (pos n) timeout) m
          n whole le,
    )

    -- What follows `GetByteArrayElements` in a control message, with libusb's part as `exchange`.
    abbrev exchanged :
        (exchange : Buffer → ℤ × List ℕ × usb.Usb) (len : ℤ)
        → Buffer × jni.Vm
        → Outcome (State jni.Vm usb.Usb) ℤ
    exchanged exchange len (b, v) =
        let (n, got, u) = exchange b in
        elim b [
          | none ↦ Outcome.fault
          | some _ ↦
              if exceeds len (jni.get s.vm jbytes extent)
              then Outcome.fault
              else returned n (record (clear_libusb_java_error s) {
                usb = u;
                vm =
                    jni.release_byte_array_elements jbytes (some got)
                      (jni.set_byte_array_region jbytes (pos 0) len got v);
              })
        ]

    -- A control message from a Java byte array that holds `l`, with the array's length as its size,
    -- where the machine hands out the elements: libusb is given all of `l`, Java gets its number,
    -- the error is cleared, and the array then holds the bytes as libusb left them; no other object
    -- changes.
    pub control_msg-Fetched :
        (array_laws : Laws jni) (dev_handle requesttype request value index len timeout : ℤ)
        → jni.get s.vm jbytes extent ≡ size len
        → let (n, got, u) =
            usb.usb_control_msg
              (of_jlong dev_handle)
              requesttype
              request
              value
              index
              (some l)
              len
              timeout
              s.usb in
          (w : jni.Vm) × (control_msg jni usb dev_handle requesttype request value index jbytes len
              timeout s
            ≡ returned n (record (clear_libusb_java_error s) { usb = u; vm = w }))
          × (jni.get w jbytes contents ≡ bytes got)
          × ((p : Ref) (t : Slot) → p ≢ jbytes → jni.get w p t ≡ jni.get s.vm p t)
    unfolding control_msg
    control_msg-Fetched array_laws dev_handle requesttype request value index len timeout whole =
        let (n, got, u) =
          usb.usb_control_msg (of_jlong dev_handle) requesttype request value index (some l) len
            timeout s.usb in
        let e = array_laws.set_byte_array_region jbytes len got s.vm there whole in
        let v = jni.set_byte_array_region jbytes (pos 0) len got s.vm in
        let fits : ltb (rounds len) (rounds len) ≡ false = ground arith in
        let f = laws.release_byte_array_elements jbytes got v (e.keeps_live jbytes ∙ there) in
        (
          jni.release_byte_array_elements jbytes (some got) v,
          ap
                (exchanged
                  (λ b.
                    usb.usb_control_msg (of_jlong dev_handle) requesttype request value index b len
                      timeout s.usb)
                  len)
                (laws.get_byte_array_elements jbytes l s.vm there holds)
              ∙ rw (whole, fits) refl,
          f.written,
          λ p t ne. f.other_object p t ne ∙ e.other_object p t ne,
        )
