-- ===== src/Tests/Trees.antt =====
-- The theorems on the tree that Java reads and on an early return, at inputs that meet their hypotheses.
use owon_vds.Base.{inl, refl, none, some, [], ◌∷◌, arith, ◌==◌, if◌then◌else◌, ◌⊎◌}
use owon_vds.Libusb.Structs.{UsbDevice}
use owon_vds.Libusb.Api.{Libusb}
use owon_vds.Native.Names.{all_classes}
use owon_vds.Native.State.{Message}
use owon_vds.Busses.References.{find_classes}
use owon_vds.Busses.Get.{get_busses}
use owon_vds.Busses.DeviceTree.{All}
use owon_vds.Busses.Refinement.{Ended, IsRefused}
use owon_vds.Busses.View.Configs.{IsConfigTreeWords}
use owon_vds.Busses.View.Lists.{IsDeviceWords, IsBusWords, IsSeen, get_busses-IsSeen}
use owon_vds.Busses.Halts.Get.{Culprit, IsPartialReply, get_busses-IsPartialReply}
use owon_vds.Tests.Machine.{machine, machine-Laws, machine-HasRoom, machine-HasClasses}
use owon_vds.Tests.Memory.{
  bulk_in, setting, interface_0, config, descriptor, scope, other, bus, topology, stub, start,
}
use owon_vds.Tests.Topology.{empty_heap, one, scope-IsDeviceOk, topology-IsBusOk}

config-IsConfigTreeWords : IsConfigTreeWords config
config-IsConfigTreeWords =
    (omega arith, one interface_0 (one setting (omega arith, one bulk_in (omega arith))))

scope-IsDeviceWords : IsDeviceWords (100, scope)
scope-IsDeviceWords = record {
  address = omega arith;
  devnum = omega arith;
  num_children = omega arith;
  descriptor = omega arith;
  configs = one config config-IsConfigTreeWords;
}

other-IsDeviceWords : IsDeviceWords (200, other)
other-IsDeviceWords = record {
  address = omega arith;
  devnum = omega arith;
  num_children = omega arith;
  descriptor = omega arith;
  configs = λ j lt. absurd (omega arith);
}

topology-IsBusWords : All IsBusWords topology
topology-IsBusWords = ((omega arith, (scope-IsDeviceWords, (other-IsDeviceWords, tt))), tt)

get_busses-IsSeen_example :
    Ended
      (λ o s'. IsSeen (machine 100) stub 3 2 topology o s' ⊎ IsRefused (machine 100) stub o s')
      (get_busses (machine 100) stub 3 2 (start empty_heap))
get_busses-IsSeen_example =
    get_busses-IsSeen (machine 100) stub (machine-Laws 100) (machine-HasRoom 100)
      (machine-HasClasses 100) 3 2 (start empty_heap) topology refl
      (refl, refl, refl, (refl, refl, refl, (refl, refl, refl, refl)), refl) topology-IsBusOk
      topology-IsBusWords (omega arith)

-- The second device counts a configuration, and libusb could not read it.
abbrev unread : UsbDevice
unread = record other { descriptor = descriptor 1 }

abbrev unread_stub : Libusb
unread_stub = record stub {
  device_at = λ u p. if p == 100 then some scope else if p == 200 then some unread else none;
}

unread-Culprit :
    Culprit
      (unread_stub.bus_at [])
      (unread_stub.device_at [])
      16
      3
      2
      (some Message.config_null)
      []
      bus
unread-Culprit = record {
  at = 16;
  before = (100, scope) ∷ [];
  device_ptr = 200;
  device = unread;
  way = (refl, refl);
  busses = tt;
  here = refl;
  leads = (refl, refl, refl, (refl, refl));
  devices = (scope-IsDeviceOk, tt);
  found = refl;
  lacks = inl (refl, record { more = 0; count = refl; null = refl });
  enough = omega arith;
  enough_devices = omega arith;
}

get_busses-IsPartialReply_example :
    Ended
      (IsPartialReply
        (machine 100)
        unread_stub
        (find_classes (machine 100) all_classes (start empty_heap).references empty_heap).2
        (16, [])
        (some Message.config_null)
        []
        bus)
      (get_busses (machine 100) unread_stub 3 2 (start empty_heap))
get_busses-IsPartialReply_example =
    get_busses-IsPartialReply (machine 100) unread_stub (machine-Laws 100) (machine-HasRoom 100)
      (machine-HasClasses 100) 3 2 (start empty_heap) (some Message.config_null) [] bus refl
      unread-Culprit
