-- ===== src/Tests/ShortArrays.antt =====
-- A read into an array that is too short, at an input that meets the hypotheses.
use owon_vds.Base.{ℕ, refl, true, false, some, List, [], ◌∷◌}
use owon_vds.Base.Int.{pos}
use owon_vds.Jni.Api.{size}
use owon_vds.Jni.Watch.{Watched, watch}
use owon_vds.Native.State.{State}
use owon_vds.Handlers.Transfers.{bulk_read, interrupt_read}
use owon_vds.Handlers.ShortArrays.{RaisesIf, reads-RaisesIf}
use owon_vds.Tests.Machine.{Heap, machine}
use owon_vds.Tests.Memory.{stub, start}

-- An array of one byte is too short for the two bytes that are asked for.
abbrev short_array : State (Watched Heap) (List ℕ)
short_array = start (record {
  machine = record { next = 2; cells = λ o s. size (pos 1) };
  pending = false;
  misused = false;
})

reads-RaisesIf_example :
    let s = short_array in
    RaisesIf
      (machine 100)
      stub
      true
      s
      (pos 2, 65 ∷ 66 ∷ [], 15 ∷ [])
      (bulk_read
        (watch (machine 100))
        stub
        (some (λ _. 0))
        (pos 101)
        (pos 0x81)
        1
        (pos 2)
        (pos 100)
        s)
    × RaisesIf
        (machine 100)
        stub
        true
        s
        (pos 2, 65 ∷ 66 ∷ [], 17 ∷ [])
        (interrupt_read
          (watch (machine 100))
          stub
          (some (λ _. 0))
          (pos 101)
          (pos 0x81)
          1
          (pos 2)
          (pos 100)
          s)
reads-RaisesIf_example =
    reads-RaisesIf (machine 100) stub (λ _. 0) (pos 101) (pos 0x81) (pos 100) 1 1 2 short_array refl
      (record { pending = refl; misused = refl })
