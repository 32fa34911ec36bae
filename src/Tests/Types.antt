-- ===== src/Tests/Types.antt =====
-- The theorem on the types of what `usb_get_busses` makes, at an input that meets its hypotheses.
use owon_vds.Base.{refl, ap, some, none, false, ◌==◌, ==-refl}
use owon_vds.Jni.Types.{Classes, Typed, typed}
use owon_vds.Native.Fields.{class_key}
use owon_vds.Native.Names.{class_name, field_signature, all_classes}
use owon_vds.Busses.Get.{get_busses}
use owon_vds.Busses.Tables.{class_at, class_at-class_key, fields_from, field_at, field_at-field_key}
use owon_vds.Busses.Typed.{Describes}
use owon_vds.Busses.Typed.Get.{IsWellTyped, get_busses-IsWellTyped}
use owon_vds.Calls.Effects.{After}
use owon_vds.Tests.Machine.{Heap, machine, machine-Laws, machine-HasRoom, machine-HasClasses}
use owon_vds.Tests.Memory.{stub, start}
use owon_vds.Tests.Topology.{empty_heap}

-- The classes of the machine: their references are their keys, and so are their constructors.
abbrev class_table : Classes
class_table = record {
  class_named = λ k. class_name (class_at all_classes k);
  constructs = λ class method. class == method;
  field_type = λ class i. some (field_signature (field_at (fields_from all_classes) i));
}

knows_classes : Describes (machine 100) (machine-HasClasses 100) class_table
unfolding machine-HasClasses
knows_classes = record {
  named = λ c. ap class_name (class_at-class_key c);
  constructs = λ c. ==-refl (class_key c);
  field_type = λ f. ap (λ g. some (field_signature g)) (field_at-field_key f);
}

abbrev untyped : Typed Heap
untyped = record { machine = empty_heap; kinds = λ o. none; misfit = false }

get_busses-IsWellTyped_example :
    After
      (IsWellTyped (machine 100) (machine-HasClasses 100) class_table stub)
      (get_busses (typed class_table (machine 100)) stub 3 2 (start untyped))
get_busses-IsWellTyped_example =
    get_busses-IsWellTyped (machine 100) (machine-HasClasses 100) class_table stub
      (machine-Laws 100) (machine-HasRoom 100) knows_classes (λ n v. refl) 3 2 (start untyped) refl
      refl
