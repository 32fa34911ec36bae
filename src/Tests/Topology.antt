-- ===== src/Tests/Topology.antt =====
-- The lists of the running libusb meet the hypotheses of the theorems.
use owon_vds.Base.{zero, suc, refl, none, some, [], ◌∷◌, arith}
use owon_vds.Jni.Api.{object}
use owon_vds.Busses.Tree.{IsConfigOk}
use owon_vds.Busses.ArraySpec.{AllFirst}
use owon_vds.Busses.DeviceTree.{All, IsBusOk, IsDeviceOk}
use owon_vds.Tests.Machine.{Heap}
use owon_vds.Tests.Memory.{bulk_in, setting, interface_0, config, scope, other, topology}

abbrev pub empty_heap : Heap
empty_heap = record { next = 1; cells = λ o s. object none }

pub one : {A : Type 0} {P : A → Type 0} (x : A) → P x → AllFirst P 1 (some (x ∷ []))
one x p zero lt = (x, refl, p)
one x p (suc j) lt = absurd (omega arith)

pub config-IsConfigOk : IsConfigOk config
config-IsConfigOk = record {
  extra = tt;
  interfaces = one interface_0 (record {
    altsettings = one setting (record {
      extra = tt;
      endpoints = one bulk_in (record { extra = (2, refl, omega arith) });
    });
  });
}

pub scope-IsDeviceOk : IsDeviceOk (100, scope)
scope-IsDeviceOk = one config config-IsConfigOk

pub other-IsDeviceOk : IsDeviceOk (200, other)
other-IsDeviceOk j lt = absurd (omega arith)

pub topology-IsBusOk : All (IsBusOk 3) topology
topology-IsBusOk = (((scope-IsDeviceOk, (other-IsDeviceOk, tt)), omega arith), tt)
