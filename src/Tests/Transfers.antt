-- ===== src/Tests/Transfers.antt =====
-- The theorems on reads, writes and strings at inputs that meet their hypotheses.
use owon_vds.Base.{◌≢◌, ℕ, ◌+◌, ◌≡◌, refl, some, List, [], ◌∷◌, drop, arith, ◌==◌, if◌then◌else◌}
use owon_vds.Base.Int.{pos, negsuc, of_jbyte}
use owon_vds.Jni.Api.{Slot, bytes, contents, size}
use owon_vds.Native.State.{returned, State, Outcome}
use owon_vds.Busses.DeviceTree.{All}
use owon_vds.Handlers.Transfers.{
  Memory, bulk_read, interrupt_read, bulk_write, interrupt_write, control_msg,
}
use owon_vds.Handlers.WriteLaws.{IsSent, writes-IsSent, control_msg-Fetched}
use owon_vds.Handlers.TransferLaws.{IsRead, reads-IsRead, bulk_read-stale}
use owon_vds.Handlers.Strings.{
  get_string, get_string_simple, get_descriptor, get_descriptor_by_endpoint,
}
use owon_vds.Handlers.StringLaws.{
  IsCharacter, Replies, get_string-Replies, get_string_simple-Replies, get_descriptor-Replies,
  get_descriptor-unterminated, get_descriptor_by_endpoint-Replies,
}
use owon_vds.Tests.Machine.{machine-ElementLaws, Heap, machine, machine-Laws, machine-HasRoom}
use owon_vds.Tests.Memory.{stub, start}

-- An array of four bytes at reference 2.
abbrev four : Heap
four = record { next = 3; cells = λ o s. size (pos 4) }

abbrev reading : State Heap (List ℕ)
reading = start four

-- What `malloc` finds.
abbrev nines : Memory
nines = some λ _. 9

abbrev nines_and_nul : Memory
nines_and_nul = some λ i. if i == 2 then 0 else 9

reads-IsRead_example :
    IsRead
      (machine 100)
      stub
      (some (9 ∷ 9 ∷ 9 ∷ 9 ∷ []))
      2
      (pos 2, 65 ∷ 66 ∷ 9 ∷ 9 ∷ [], 15 ∷ [])
      reading
      (bulk_read (machine 100) stub nines (pos 101) (pos 1) 2 (pos 4) (pos 0) reading)
    × IsRead
        (machine 100)
        stub
        (some (9 ∷ 9 ∷ 9 ∷ 9 ∷ []))
        2
        (pos 2, 65 ∷ 66 ∷ 9 ∷ 9 ∷ [], 17 ∷ [])
        reading
        (interrupt_read (machine 100) stub nines (pos 101) (pos 1) 2 (pos 4) (pos 0) reading)
reads-IsRead_example =
    reads-IsRead (machine 100) stub (machine-Laws 100) 2 (pos 4) reading refl refl nines (pos 101)
      (pos 1) (pos 0)

bulk_read-stale_example :
    let (_, s') = bulk_read (machine 100) stub nines (pos 101) (pos 1) 2 (pos 4) (pos 0) reading in
    (got : List ℕ) × (s'.vm.cells 2 contents ≡ bytes got) × (drop 2 got ≡ 9 ∷ 9 ∷ [])
bulk_read-stale_example =
    bulk_read-stale (machine 100) stub (machine-Laws 100) 2 (pos 4) reading refl refl nines
      (9 ∷ 9 ∷ 9 ∷ 9 ∷ []) (pos 101) (pos 1) (pos 0) 2 refl refl

letters : All IsCharacter (65 ∷ 66 ∷ [])
letters = (λ e. ground arith, (λ e. ground arith, tt))

get_string-Replies_example :
    Replies
      (machine 100)
      stub
      (pos 2)
      (record reading { usb = 12 ∷ [] })
      (65 ∷ 66 ∷ [])
      (get_string (machine 100) stub (9 ∷ 9 ∷ 0 ∷ 9 ∷ []) (pos 101) (pos 2) (pos 1033) reading)
get_string-Replies_example =
    get_string-Replies (machine 100) stub (machine-Laws 100) (machine-HasRoom 100)
      (9 ∷ 9 ∷ 0 ∷ 9 ∷ []) (pos 101) (pos 2) (pos 1033) reading (65 ∷ 66 ∷ []) (9 ∷ []) refl letters

get_string_simple-Replies_example :
    Replies
      (machine 100)
      stub
      (pos 2)
      (record reading { usb = 13 ∷ [] })
      (65 ∷ 66 ∷ [])
      (get_string_simple (machine 100) stub (9 ∷ 9 ∷ 0 ∷ 9 ∷ []) (pos 101) (pos 2) reading)
get_string_simple-Replies_example =
    get_string_simple-Replies (machine 100) stub (machine-Laws 100) (machine-HasRoom 100)
      (9 ∷ 9 ∷ 0 ∷ 9 ∷ []) (pos 101) (pos 2) reading (65 ∷ 66 ∷ []) (9 ∷ []) refl letters

-- The type is the byte -127.
get_descriptor-Replies_example :
    Replies
      (machine 100)
      stub
      (pos 2)
      (record reading { usb = of_jbyte (negsuc 126) ∷ of_jbyte (pos 0) ∷ []; malloced = 0 + 1 })
      (65 ∷ 66 ∷ [])
      (get_descriptor
        (machine 100)
        stub
        nines_and_nul
        (pos 101)
        (negsuc 126)
        (pos 0)
        (pos 3)
        reading)
get_descriptor-Replies_example =
    get_descriptor-Replies (machine 100) stub (machine-Laws 100) (machine-HasRoom 100) nines_and_nul
      (9 ∷ 9 ∷ 0 ∷ []) (pos 101) (negsuc 126) (pos 0) (pos 3) reading (65 ∷ 66 ∷ []) [] refl refl
      letters

get_descriptor-unterminated_example :
    get_descriptor (machine 100) stub nines (pos 101) (pos 1) (pos 0) (pos 2) reading
    ≡ Outcome.fault
get_descriptor-unterminated_example =
    get_descriptor-unterminated (machine 100) stub nines (9 ∷ 9 ∷ []) (pos 101) (pos 1) (pos 0)
      (pos 2) reading refl refl letters

-- An array of two bytes at reference 2.
abbrev two : Heap
two = record {
  next = 3;
  cells = λ o t. elim t [ contents ↦ bytes (1 ∷ 2 ∷ []) | _ ↦ size (pos 2) ];
}

writes-IsSent_example :
    let sends =
      IsSent (machine 100) stub (machine-ElementLaws 100) 2 (1 ∷ 2 ∷ []) (start two) refl refl in
    sends
      (pos 0, 14 ∷ [])
      (bulk_write (machine 100) stub (pos 101) (pos 2) 2 (pos 1) (pos 0) (start two))
    × sends
        (pos 0, 16 ∷ [])
        (interrupt_write (machine 100) stub (pos 101) (pos 2) 2 (pos 1) (pos 0) (start two))
writes-IsSent_example =
    writes-IsSent (machine 100) stub (machine-ElementLaws 100) 2 (1 ∷ 2 ∷ []) (start two) refl refl
      (pos 101) (pos 2) (pos 0) 2 1 refl (omega arith)

control_msg-Fetched_example :
    (w : Heap) × (control_msg
        (machine 100)
        stub
        (pos 101)
        (pos 0)
        (pos 0)
        (pos 0)
        (pos 0)
        2
        (pos 2)
        (pos 0)
        (start two)
      ≡ returned (pos 2) (record (start two) { usb = 11 ∷ []; vm = w }))
    × (w.cells 2 contents ≡ bytes (65 ∷ 66 ∷ []))
    × ((p : ℕ) (t : Slot) → p ≢ 2 → w.cells p t ≡ two.cells p t)
control_msg-Fetched_example =
    control_msg-Fetched (machine 100) stub (machine-ElementLaws 100) 2 (1 ∷ 2 ∷ []) (start two) refl
      refl (machine-Laws 100) (pos 101) (pos 0) (pos 0) (pos 0) (pos 0) (pos 2) (pos 0) refl

get_descriptor_by_endpoint-Replies_example :
    Replies
      (machine 100)
      stub
      (pos 2)
      (record reading { usb = of_jbyte (negsuc 126) ∷ of_jbyte (pos 0) ∷ []; malloced = 0 + 1 })
      (65 ∷ 66 ∷ [])
      (get_descriptor_by_endpoint
        (machine 100)
        stub
        nines_and_nul
        (pos 101)
        (pos 129)
        (negsuc 126)
        (pos 0)
        (pos 3)
        reading)
get_descriptor_by_endpoint-Replies_example =
    get_descriptor_by_endpoint-Replies (machine 100) stub (machine-Laws 100) (machine-HasRoom 100)
      nines_and_nul (9 ∷ 9 ∷ 0 ∷ []) (pos 101) (pos 129) (negsuc 126) (pos 0) (pos 3) reading
      (65 ∷ 66 ∷ []) [] refl refl letters
