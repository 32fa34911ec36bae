-- ===== src/Jni/Watch.antt =====
-- A virtual machine that notes how the functions of the Java Native Interface are used: whether an
-- exception is pending, and whether a function was called while one was. By the JNI specification the
-- lookups and creations raise one where they return NULL, writes to an array where they are out of
-- range, and of the functions that LibusbJava.c calls only `ReleaseByteArrayElements` may be called
-- while one is pending. `GetLongField` changes no state here, and is not noted.
use owon_vds.Base.{ℕ, Bool, true, false, ◌||◌, ◌+◌, Option, none, some, ltb, leb}
use owon_vds.Base.Int.{ℤ, pos}
use owon_vds.Jni.Api.{Jni, Value, size, extent}

pub record Watched (V : Type 0) : Type 0 where
  pub machine : V
  pub pending : Bool
  pub misused : Bool

abbrev pub is_null : {A : Type 0} → Option A → Bool
is_null none = true
is_null (some _) = false

-- The state after a call; `raises` tells whether it left an exception.
abbrev pub called : {V : Type 0} → (raises : Bool) → V → Watched V → Watched V
called raises v w = record {
  machine = v;
  pending = raises || w.pending;
  misused = w.misused || w.pending;
}

abbrev pub tested : {V A : Type 0} → Option A × V → Watched V → Option A × Watched V
tested (r, v) w = (r, called (is_null r) v w)

abbrev pub in_range : Value → ℕ → Bool
in_range (size (pos n)) i = ltb i n
in_range _ i = false

abbrev pub region_in_range : Value → (start len : ℤ) → Bool
region_in_range (size (pos n)) (pos a) (pos l) = leb (a + l) n
region_in_range _ _ _ = false

abbrev pub not : Bool → Bool
not true = false
not false = true

abbrev pub watch : Jni → Jni
watch jni = record {
  Vm = Watched jni.Vm;
  find_class = λ name w. tested (jni.find_class name w.machine) w;
  get_method_id =
      λ class name signature w. tested (jni.get_method_id class name signature w.machine) w;
  get_field_id =
      λ class name signature w. tested (jni.get_field_id class name signature w.machine) w;
  new_object = λ class method w. tested (jni.new_object class method w.machine) w;
  new_object_array = λ n class w. tested (jni.new_object_array n class w.machine) w;
  new_byte_array = λ n w. tested (jni.new_byte_array n w.machine) w;
  new_string_utf = λ l w. tested (jni.new_string_utf l w.machine) w;
  set_field = λ o i x w. called false (jni.set_field o i x w.machine) w;
  get_long_field = λ o i w. jni.get_long_field o i w.machine;
  set_object_array_element = λ a i r w.
      called (not (in_range (jni.get w.machine a extent) i))
        (jni.set_object_array_element a i r w.machine) w;
  set_byte_array_region = λ a start len l w.
      called (not (region_in_range (jni.get w.machine a extent) start len))
        (jni.set_byte_array_region a start len l w.machine) w;
  get_byte_array_elements = λ a w. tested (jni.get_byte_array_elements a w.machine) w;
  release_byte_array_elements =
      λ a l w. record w { machine = jni.release_byte_array_elements a l w.machine };
  live = λ w. jni.live w.machine;
  get = λ w. jni.get w.machine;
}
