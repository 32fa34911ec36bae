-- ===== src/Tests/Sessions.antt =====
-- The theorems on sequences of calls at inputs that meet their hypotheses.
use owon_vds.Base.{if◌then◌else◌, ◌==◌, ℕ, ◌+◌, ◌≡◌, refl, none, some, List, [], ◌∷◌, ◌≤◌}
use owon_vds.Base.Int.{pos}
use owon_vds.Native.Names.{all_classes}
use owon_vds.Native.State.{State, returned}
use owon_vds.Busses.References.{find_classes}
use owon_vds.Busses.Get.{find_references}
use owon_vds.Handlers.Control.{set_configuration}
use owon_vds.Handlers.Transfers.{bulk_read}
use owon_vds.Handlers.Strings.{get_descriptor, c_string}
use owon_vds.Calls.{Call, Reply, perform, run}
use owon_vds.Libusb.Logging.{Logged, logging}
use owon_vds.Calls.Effects.{After}
use owon_vds.Calls.Configured.{configurations, Accounts, perform-Accounts, run-configures_once}
use owon_vds.Calls.Runs.{total_leaked, run-blocks, run-leaks, run-looks_up_again}
use owon_vds.Tests.Machine.{Heap, machine}
use owon_vds.Tests.Memory.{stub, start}
use owon_vds.Tests.Topology.{empty_heap}

-- Two configurations, of different devices, a read and a descriptor.
abbrev session : List Call
session =
    Call.set_configuration (pos 101) (pos 1)
    ∷ Call.set_configuration (pos 202) (pos 2)
    ∷ Call.bulk_read (some (λ _. 9)) (pos 101) (pos 1) 0 (pos 2) (pos 0)
    ∷ Call.get_descriptor (some (λ i. if i == 2 then 0 else 9)) (pos 101) (pos 1) (pos 0) (pos 3)
    ∷ []

abbrev begin : State Heap (List ℕ)
begin = start empty_heap

-- The same state, with a libusb that logs its calls.
abbrev logged : State Heap (Logged (List ℕ))
logged = record {
  vm = empty_heap;
  usb = record { inner = []; log = [] };
  busses = 0;
  java_references_loaded = 0;
  libusb_java_error = none;
  config_done = 0;
  references = begin.references;
  malloced = 0;
}

run-configures_once_example :
    After
      (λ rs s'.
        (configurations s'.usb.log ≤ 0 + 1) × (configurations s'.usb.log ≡ 0 + s'.config_done))
      (run (machine 100) (logging stub) session logged)
run-configures_once_example = run-configures_once (machine 100) stub session logged refl

run-leaks_example :
    After (λ rs s'. s'.malloced ≡ 0 + total_leaked session) (run (machine 100) stub session begin)
run-leaks_example = run-leaks (machine 100) stub session begin

run-looks_up_again_example :
    After
      (λ rs s'. find_references (machine 100) stub s' ≡ (
        let (all_found, refs, v) = find_classes (machine 100) all_classes s'.references s'.vm in
        (all_found, record s' { references = refs; vm = v })))
      (run (machine 100) stub session begin)
run-looks_up_again_example = run-looks_up_again (machine 100) stub session begin refl

perform-Accounts_example :
    After
      (Accounts (machine 100) stub (Call.set_configuration (pos 101) (pos 1)) logged)
      (perform (machine 100) (logging stub) (Call.set_configuration (pos 101) (pos 1)) logged)
perform-Accounts_example =
    perform-Accounts (machine 100) stub (Call.set_configuration (pos 101) (pos 1)) logged

-- The session returns; the second configuration has no value.
session-returns :
    (elim (run (machine 100) stub session begin) [ returned rs s ↦ some rs | _ ↦ none ])
    ≡ some (
        Reply.number (pos 0)
        ∷ Reply.no_value
        ∷ Reply.number (pos 2)
        ∷ Reply.reference (some 1)
        ∷ [])
unfolding run perform get_descriptor c_string set_configuration bulk_read
session-returns = refl

abbrev sent : State Heap (List ℕ)
sent = record begin { config_done = 1 }

run-blocks_example :
    After
      (λ rs s'.
        perform (machine 100) stub (Call.set_configuration (pos 202) (pos 2)) s'
        ≡ returned Reply.no_value s')
      (run (machine 100) stub (Call.close (pos 101) ∷ Call.reset (pos 202) ∷ []) sent)
run-blocks_example =
    run-blocks (machine 100) stub (Call.close (pos 101) ∷ Call.reset (pos 202) ∷ []) sent (pos 202)
      (pos 2) refl
