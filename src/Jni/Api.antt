-- ===== src/Jni/Api.antt =====
-- The JNI functions as parameters. A reference is a number, `none` for NULL; the virtual machine's
-- state holds the objects and a pending exception, and every function may change it.
use owon_vds.Base.{ℕ, Bool, Option, List, String}
use owon_vds.Base.Int.{ℤ}
use owon_vds.Libusb.Api.{Buffer}

-- An object, identified by the reference that its creation returned.
abbrev pub Ref : Type 0
Ref = ℕ

-- A value of a field, by the `Set<Type>Field` function that writes it; `size`, `text` and `bytes`
-- are what the slots of arrays and strings hold.
pub data Value : Type 0 where
  object : Option Ref → Value
  byte short int long : ℤ → Value
  size : ℤ → Value
  text bytes : List ℕ → Value

-- What can be read of an object: a field by its ID, an element, an array's length, the characters
-- of a string or the bytes of a byte array.
pub data Slot : Type 0 where
  field element : ℕ → Slot
  extent contents : Slot

pub record Jni : Type 1 where
  pub Vm : Type 0
  pub find_class : String → Vm → Option Ref × Vm
  pub get_method_id : Ref → (name signature : String) → Vm → Option ℕ × Vm
  pub get_field_id : Ref → (name signature : String) → Vm → Option ℕ × Vm
  pub new_object : (class method : ℕ) → Vm → Option Ref × Vm
  pub new_object_array : ℤ → (class : Ref) → Vm → Option Ref × Vm
  pub new_byte_array : ℤ → Vm → Option Ref × Vm
  pub new_string_utf : List ℕ → Vm → Option Ref × Vm
  pub set_field : Ref → (id : ℕ) → Value → Vm → Vm
  pub get_long_field : Ref → (id : ℕ) → Vm → ℤ
  pub set_object_array_element : Ref → ℕ → Option Ref → Vm → Vm
  pub set_byte_array_region : Ref → (start len : ℤ) → List ℕ → Vm → Vm
  pub get_byte_array_elements : Ref → Vm → Buffer × Vm
  pub release_byte_array_elements : Ref → Buffer → Vm → Vm
  -- what Java code sees: which objects exist, and what their slots hold
  pub live : Vm → Ref → Bool
  pub get : Vm → Ref → Slot → Value
