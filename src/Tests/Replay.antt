-- ===== src/Tests/Replay.antt =====
-- A run of `usb_get_busses` and `usb_open` of LibusbJava.c on the machine and the libusb of the tests.
use owon_vds.Base.{ℕ, ◌≡◌, refl, Option, none, some, List, [], ◌∷◌}
use owon_vds.Base.Int.{pos, to_jbyte, to_jshort, to_jlong}
use owon_vds.Native.State.{State, Outcome, returned}
use owon_vds.Calls.{Call, Reply, run, perform}
use owon_vds.Tests.Machine.{Heap, machine}
use owon_vds.Tests.Memory.{stub, start}
use owon_vds.Tests.Topology.{empty_heap}
use owon_vds.Busses.Get.{get_busses, copy_busses, find_references, finish}
use owon_vds.Busses.References.{find_classes, find_class_ids, find_members, find_fields}
use owon_vds.Busses.Devices.{bus_loop, read, current, new_next, fill_bus, fill_device, device_loop}
use owon_vds.Busses.Descriptors.{
  copy_configs, fill_config, copy_interfaces, fill_interface, copy_altsettings,
  fill_interface_descriptor, copy_endpoints, fill_endpoint,
}
use owon_vds.Busses.Action.{
  new, new_array, or_give_up, puts, put, put_string, put_bytes, put_extra, set_element, fill_array,
  copy_array, element_or_leave,
}
use owon_vds.Handlers.Open.{open_device, search_busses, search_devices, open_found}

-- The lists are copied, and the first device is opened by its object, the third made.
abbrev opening : List Call
opening = Call.get_busses 3 2 ∷ Call.open_device 3 2 3 ∷ []

abbrev replies : Outcome (State Heap (List ℕ)) (List Reply) → Option (List Reply)
replies (returned rs s) = some rs
replies _ = none

opening-returns :
    replies (run (machine 100) stub opening (start empty_heap))
    ≡ some (Reply.reference (some 1) ∷ Reply.number (pos 101) ∷ [])
unfolding to_jbyte to_jshort to_jlong get_busses copy_busses find_references finish find_classes
    find_class_ids find_members find_fields bus_loop read current new_next fill_bus fill_device
    device_loop copy_configs fill_config copy_interfaces fill_interface copy_altsettings
    fill_interface_descriptor copy_endpoints fill_endpoint new new_array or_give_up puts put
    put_string put_bytes put_extra set_element fill_array copy_array element_or_leave open_device
    search_busses search_devices open_found run perform
opening-returns = refl
