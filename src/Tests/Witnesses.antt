-- ===== src/Tests/Witnesses.antt =====
-- The theorems on `usb_get_busses` at inputs that meet their hypotheses.
use owon_vds.Base.{◌≡◌, refl, none, some, [], ◌∷◌, true, arith, ◌⊎◌}
use owon_vds.Base.Int.{pos}
use owon_vds.Jni.Laws.{IsRefusal}
use owon_vds.Native.Names.{all_classes}
use owon_vds.Busses.References.{find_classes}
use owon_vds.Busses.Ends.{Ends}
use owon_vds.Busses.Descriptors.{copy_configs}
use owon_vds.Busses.Devices.{device_loop}
use owon_vds.Busses.Get.{get_busses}
use owon_vds.Busses.Frame.{Grow}
use owon_vds.Busses.Tree.{IsConfig}
use owon_vds.Busses.ArraySpec.{IsArray}
use owon_vds.Busses.DeviceTree.{IsDeviceList}
use owon_vds.Busses.Copies.{copy_configs-IsArray}
use owon_vds.Busses.DeviceList.{device_loop-IsDeviceList}
use owon_vds.Busses.Lookup.{Known, find_classes-Known}
use owon_vds.Busses.Refinement.{Ended, IsReply, IsRefused, get_busses-IsReply}
use owon_vds.Handlers.OpenCopied.{Opens, get_busses-Opens}
use owon_vds.Busses.UnknownClass.{get_busses-unknown_class}
use owon_vds.Native.Fields
use owon_vds.Native.Fields.{JavaClass, Field}
use owon_vds.Tests.Machine.{
  machine, machine-Laws, machine-HasRoom, machine-HasClasses, known, known-IsResolved,
}
use owon_vds.Tests.Memory.{config, scope, other, topology, stub, start}
use owon_vds.Tests.Topology.{
  empty_heap, one, config-IsConfigOk, scope-IsDeviceOk, other-IsDeviceOk, topology-IsBusOk,
}

get_busses-IsReply_example :
    Ended
      (IsReply
        (machine 100)
        stub
        (find_classes (machine 100) all_classes (start empty_heap).references empty_heap).2
        (16, [])
        topology)
      (get_busses (machine 100) stub 3 2 (start empty_heap))
get_busses-IsReply_example =
    get_busses-IsReply (machine 100) stub (machine-Laws 100) (machine-HasRoom 100)
      (machine-HasClasses 100) 3 2 (start empty_heap) topology refl
      ((refl, refl, refl, (refl, refl, refl, (refl, refl, refl, refl)), refl)) topology-IsBusOk
      (omega arith)

get_busses-Opens_example :
    Ended
      (λ o s.
        Opens
          (machine 100)
          stub
          (machine-Laws 100)
          3
          2
          topology
          (omega arith)
          (find_classes (machine 100) all_classes (start empty_heap).references empty_heap).2
          o
          s
        ⊎ IsRefused (machine 100) stub o s)
      (get_busses (machine 100) stub 3 2 (start empty_heap))
get_busses-Opens_example =
    get_busses-Opens (machine 100) stub (machine-Laws 100) 3 2 topology (omega arith)
      (machine-HasRoom 100) (machine-HasClasses 100) (start empty_heap) refl
      (refl, refl, refl, (refl, refl, refl, (refl, refl, refl, refl)), refl) topology-IsBusOk
      (omega arith, (omega arith, tt))

find_classes-Known_example :
    let (found, refs, w) =
      find_classes (machine 100) all_classes (start empty_heap).references empty_heap in
    (found ≡ true) × ((c : JavaClass) → Known (machine 100) (machine-HasClasses 100) refs c)
find_classes-Known_example =
    find_classes-Known (machine 100) (machine-HasClasses 100) (start empty_heap).references
      empty_heap

copy_configs-IsArray_example :
    Ends
      (IsRefusal (machine 100))
      (λ a w.
        Grow (machine 100) empty_heap w
        × IsArray
            (machine 100)
            (IsConfig (machine 100) known-IsResolved)
            empty_heap
            w
            (pos 1)
            (some (config ∷ []))
            a)
      (copy_configs (machine 100) known none 1 (some (config ∷ [])) empty_heap)
copy_configs-IsArray_example =
    copy_configs-IsArray (machine 100) (machine-Laws 100) (machine-HasRoom 100) known-IsResolved
      none empty_heap empty_heap 1 (some (config ∷ [])) (λ p h. h) (one config config-IsConfigOk)

device_loop-IsDeviceList_example :
    Ends
      (IsRefusal (machine 100))
      (λ first w.
        Grow (machine 100) empty_heap w
        × IsDeviceList
            (machine 100)
            known-IsResolved
            empty_heap
            w
            0
            none
            first
            ((100, scope) ∷ (200, other) ∷ []))
      (device_loop (machine 100) known (stub.device_at []) none 0 3 100 none none none empty_heap)
device_loop-IsDeviceList_example =
    device_loop-IsDeviceList (machine 100) (machine-Laws 100) (machine-HasRoom 100) known-IsResolved
      (stub.device_at []) none 0 ((100, scope) ∷ (200, other) ∷ []) 3 100 empty_heap empty_heap
      (λ p h. h) (refl, refl, refl, (refl, refl, refl, refl))
      (scope-IsDeviceOk, (other-IsDeviceOk, tt)) (omega arith)

-- A machine that finds no constructors.
get_busses-unknown_class_example :
    Ended
      (λ o s'. (o ≡ none) × (s'.libusb_java_error ≡ none) × (s'.usb ≡ []) × (s'.busses ≡ 0))
      (get_busses
        (record (machine 100) { get_method_id = λ class name signature h. (none, h) })
        stub
        3
        2
        (start empty_heap))
get_busses-unknown_class_example =
    get_busses-unknown_class
      (record (machine 100) { get_method_id = λ class name signature h. (none, h) }) stub
      Fields.interface 3 2 (start empty_heap) refl (λ class v w e. refl)
