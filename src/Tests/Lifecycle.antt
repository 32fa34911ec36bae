-- ===== src/Tests/Lifecycle.antt =====
-- A device that is opened, configured, used and closed, at an input that meets the hypotheses.
use owon_vds.Base.{ℕ, ◌≡◌, refl, none, some, List, [], ◌∷◌, arith, if◌then◌else◌, ◌==◌}
use mathlib.Core.List.{Memᴰ}
use owon_vds.Base.Int.{pos, to_jlong}
use owon_vds.Libusb.Logging.{Request, Logged, logging}
use owon_vds.Jni.Api.{long, size}
use owon_vds.Jni.Laws.{KeepsLengths}
use owon_vds.Native.Fields.{Field, field_key}
use owon_vds.Native.State.{State}
use owon_vds.Busses.Refinement.{Ended}
use owon_vds.Calls.{Call, run}
use owon_vds.Calls.Uses.{Use, uses_of}
use owon_vds.Calls.Lifecycle.{Served, run-serves}
use owon_vds.Tests.Machine.{Heap, machine, known}
use owon_vds.Tests.Memory.{topology, stub}

-- The busses were copied, the object 5 holds the address of the oscilloscope, and the object 0 is an
-- array of two bytes.
abbrev listed : State Heap (Logged (List ℕ))
listed = record {
  vm = record { next = 6; cells = λ o s. if o == 5 then long (pos 100) else size (pos 2) };
  usb = record { inner = []; log = [] };
  busses = 16;
  java_references_loaded = 0;
  libusb_java_error = none;
  config_done = 0;
  references = known;
  malloced = 0;
}

address_of_scope : pos 100 ≡ to_jlong 100
unfolding to_jlong
address_of_scope = refl

abbrev measuring : List Use
measuring =
    Use.claim (pos 0)
    ∷ Use.bulk_write (pos 3) 0 (pos 1) (pos 100)
    ∷ Use.bulk_read (some (λ _. 0)) (pos 0x81) 0 (pos 2) (pos 100)
    ∷ Use.release (pos 0)
    ∷ []

machine-KeepsLengths : KeepsLengths (machine 100)
machine-KeepsLengths = record {
  get_byte_array_elements = λ a p v. refl;
  release_byte_array_elements = λ a p b v. ground arith;
  set_byte_array_region = λ a p start len l v. ground arith;
}

run-serves_example :
    Ended
      (Served (machine 100) stub 7 (
        Request.close 101
        ∷ Request.release_interface 101 (pos 0)
        ∷ Request.bulk_read 101 (pos 0x81) (pos 2) (pos 100)
        ∷ Request.bulk_write 101 (pos 3) (pos 1) (pos 100)
        ∷ Request.claim_interface 101 (pos 0)
        ∷ Request.set_configuration 101 (pos 1)
        ∷ Request.open_device 100
        ∷ []))
      (run
        (machine 100)
        (logging stub)
        (Call.open_device 3 2 5
          ∷ Call.set_configuration (to_jlong 101) (pos 1)
          ∷ uses_of (to_jlong 101) measuring)
        listed)
run-serves_example =
    run-serves (machine 100) stub machine-KeepsLengths 3 2 5 listed
      (field_key Field.dev_dev_struct_addr) topology 100 (pos 1) measuring refl
      (refl, refl, refl, (refl, refl, refl, (refl, refl, refl, refl)), refl) (omega arith, tt)
      (omega arith) (omega arith) (omega arith, (omega arith, tt)) (Memᴰ.head refl) address_of_scope
      refl (tt, (refl, (tt, (tt, tt)))) (omega arith)
