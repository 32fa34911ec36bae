-- ===== src/Tests/Protocols.antt =====
-- The theorems on what libusb and the virtual machine are asked, and on ranges, at inputs that meet
-- their hypotheses.
use owon_vds.Base.{
  ℕ, ◌≡◌, refl, sym, subst, some, none, true, false, List, [], ◌∷◌, arith, if◌then◌else◌, ◌==◌,
}
use owon_vds.Base.Int.{pos}
use owon_vds.Jni.Api.{size, object, Jni}
use owon_vds.Jni.Laws.{RefusesNegative}
use owon_vds.Jni.Watch.{Watched, watch}
use owon_vds.Libusb.Logging.{Logged, logging}
use owon_vds.Native.Fields.{Field, class_of}
use owon_vds.Native.Names.{field_name, field_signature}
use owon_vds.Native.State.{State}
use owon_vds.Busses.References.{find_fields}
use owon_vds.Busses.Action.{put_string}
use owon_vds.Busses.Polite.Misuse.{GoesOnMisused, untested-misused}
use owon_vds.Handlers.Open.{search_busses}
use owon_vds.Handlers.OpenSearch.{lookup, all_addresses, search_busses-lookup}
use owon_vds.Calls.{Call, perform, run}
use owon_vds.Calls.Effects.{After}
use owon_vds.Calls.Polite.{HasFields, Unmisused, perform-Unmisused}
use owon_vds.Calls.Requests.{Session}
use owon_vds.Calls.Transparent.{forget, forgotten, run-sends}
use owon_vds.Tests.Machine.{
  Heap, machine, machine-Laws, machine-HasRoom, machine-HasClasses, known, known-IsResolved,
}
use owon_vds.Tests.Memory.{stub, start, topology}
use owon_vds.Tests.Topology.{empty_heap}

machine-RefusesNegative : RefusesNegative (machine 100)
machine-RefusesNegative n v = refl

machine-HasFields : HasFields (machine 100)
machine-HasFields f class v w e =
    let has = machine-HasClasses 100 in
    let same : class ≡ has.class_id (class_of f) = cc (has.classes (class_of f) v) in
    (
      has.field_id f,
      subst
          (λ k.
            ((machine 100).get_field_id k (field_name f) (field_signature f) w).0
            ≡ some (has.field_id f))
          (sym same) (has.fields f w),
    )

abbrev quiet : Watched Heap
quiet = record { machine = empty_heap; pending = false; misused = false }

perform-Unmisused_example :
    After Unmisused (perform (watch (machine 100)) stub (Call.get_busses 3 2) (start quiet))
perform-Unmisused_example =
    perform-Unmisused (machine 100) machine-HasFields (machine-Laws 100) (machine-HasRoom 100)
      machine-RefusesNegative stub (Call.get_busses 3 2) (start quiet)
      (record { pending = refl; misused = refl })

-- A session with two configurations.
abbrev session : List Call
session =
    Call.get_busses 3 2
    ∷ Call.open_device 3 2 3
    ∷ Call.set_configuration (pos 101) (pos 1)
    ∷ Call.set_configuration (pos 101) (pos 2)
    ∷ Call.bulk_write (pos 101) (pos 1) 0 (pos 2) (pos 0)
    ∷ Call.close (pos 101)
    ∷ []

-- The object 0 is an array of two bytes.
abbrev logged : State Heap (Logged (List ℕ))
logged = record {
  vm = record empty_heap { cells = λ o s. if o == 0 then size (pos 2) else object none };
  usb = record { inner = []; log = [] };
  busses = 0;
  java_references_loaded = 0;
  libusb_java_error = none;
  config_done = 0;
  references = (start empty_heap).references;
  malloced = 0;
}

run-sends_example :
    (forgotten (run (machine 100) (logging stub) session logged)
      ≡ run (machine 100) stub session (forget logged))
    × After
        (λ rs s'. Session 0 session [] s'.usb.log)
        (run (machine 100) (logging stub) session logged)
run-sends_example = run-sends (machine 100) stub session logged

search_busses-lookup_example :
    search_busses (stub.bus_at []) (stub.device_at []) (pos 200) 3 2 16
    ≡ lookup (pos 200) (all_addresses topology)
search_busses-lookup_example =
    search_busses-lookup (stub.bus_at []) (stub.device_at []) (pos 200) 3 topology 2 16
      (refl, refl, refl, (refl, refl, refl, (refl, refl, refl, refl)), refl) (omega arith, tt)
      (omega arith)

-- A machine that makes no strings and knows no fields.
abbrev poor : Jni
poor = record (machine 100) {
  new_string_utf = λ l h. (none, h);
  get_field_id = λ class name signature h. (none, h);
}

untested-misused_example :
    GoesOnMisused poor (put_string (watch poor) known 0 Field.bus_dirname (b'7' ∷ []) quiet)
    × ((find_fields (watch poor) 0 (Field.bus_next ∷ Field.bus_prev ∷ []) known quiet).1.misused
        ≡ true)
untested-misused_example =
    untested-misused poor known-IsResolved 0 Field.bus_dirname Field.bus_next Field.bus_prev
      (b'7' ∷ []) [] 0 quiet refl refl
