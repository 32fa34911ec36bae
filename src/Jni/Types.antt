-- ===== src/Jni/Types.antt =====
-- A virtual machine that checks the types of what LibusbJava.c gives to it, as the checks of JNI calls
-- do that virtual machines offer: it notes of which kind each object is, and whether an object was
-- made with the constructor of another class, or a value was written to a field, an element or bytes
-- of another type. The lookups and `GetLongField` make no objects and write none.
use package.text.Mathlib.Text.{◌==◌ as str_eq}
use Prim.Native.String.{◌++◌ as str_append}
use owon_vds.Base.{ℕ, Bool, true, false, ◌||◌, Option, none, some, String, ◌==◌, if◌then◌else◌}
use owon_vds.Jni.Api.{Jni, Ref, Value, object, byte, short, int, long}

pub data Kind : Type 0 where
  instance_of array_of : (class : Ref) → Kind
  text_string byte_array : Kind

-- What the machine knows of its classes: their names, which methods are constructors of a class, and
-- the signatures of its fields.
pub record Classes : Type 0 where
  pub class_named : Ref → String
  pub constructs : (class : Ref) (method : ℕ) → Bool
  pub field_type : (class : Ref) (field : ℕ) → Option String

pub record Typed (V : Type 0) : Type 0 where
  pub machine : V
  pub kinds : Ref → Option Kind
  pub misfit : Bool

abbrev pub tag : Option Ref → Kind → (Ref → Option Kind) → Ref → Option Kind
tag none k kinds p = kinds p
tag (some o) k kinds p = if o == p then some k else kinds p

-- The state after a creation, which is a misfit where it was not `fine`.
abbrev pub created :
    {V : Type 0} → (fine : Bool) → Kind → Option Ref × V → Typed V → Option Ref × Typed V
created fine k (o, v) w =
    (o, record { machine = v; kinds = tag o k w.kinds; misfit = if fine then w.misfit else true })

abbrev pub wrote : {V : Type 0} → (fine : Bool) → V → Typed V → Typed V
wrote fine v w = record w { machine = v; misfit = if fine then w.misfit else true }

module _ (classes : Classes) where
  -- The signature of the type of an object.
  abbrev pub type_of : Kind → String
  type_of (instance_of c) = str_append "L" (str_append (classes.class_named c) ";")
  type_of (array_of c) = str_append "[L" (str_append (classes.class_named c) ";")
  type_of text_string = "Ljava/lang/String;"
  type_of byte_array = "[B"

  abbrev pub is_primitive : String → Bool
  is_primitive s =
      str_eq s "Z"
      || str_eq s "B"
      || str_eq s "C"
      || str_eq s "S"
      || str_eq s "I"
      || str_eq s "J"
      || str_eq s "F"
      || str_eq s "D"

  abbrev pub not_primitive : String → Bool
  not_primitive s = if is_primitive s then false else true

  abbrev pub is_kind : Option Kind → String → Bool
  is_kind none s = false
  is_kind (some k) s = str_eq (type_of k) s

  -- The value may be written to a field of that signature.
  abbrev pub fits : (Ref → Option Kind) → Value → String → Bool
  fits kinds (byte x) s = str_eq "B" s
  fits kinds (short x) s = str_eq "S" s
  fits kinds (int x) s = str_eq "I" s
  fits kinds (long x) s = str_eq "J" s
  fits kinds (object none) s = not_primitive s
  fits kinds (object (some o)) s = is_kind (kinds o) s
  fits kinds _ s = false

  abbrev pub fits_type : (Ref → Option Kind) → Value → Option String → Bool
  fits_type kinds x none = false
  fits_type kinds x (some s) = fits kinds x s

  abbrev pub fits_field : (Ref → Option Kind) → Option Kind → (field : ℕ) → Value → Bool
  fits_field kinds (some (instance_of c)) i x = fits_type kinds x (classes.field_type c i)
  fits_field kinds _ i x = false

  abbrev pub is_instance : Option Kind → Ref → Bool
  is_instance (some (instance_of d)) c = d == c
  is_instance _ c = false

  abbrev pub fits_element : (Ref → Option Kind) → Option Kind → Option Ref → Bool
  fits_element kinds (some (array_of c)) none = true
  fits_element kinds (some (array_of c)) (some o) = is_instance (kinds o) c
  fits_element kinds _ o = false

  abbrev pub is_byte_array : Option Kind → Bool
  is_byte_array (some byte_array) = true
  is_byte_array _ = false

  abbrev pub typed : Jni → Jni
  typed jni = record {
    Vm = Typed jni.Vm;
    find_class = λ name w. let (r, v) = jni.find_class name w.machine in (r, wrote true v w);
    get_method_id = λ class name signature w.
        let (r, v) = jni.get_method_id class name signature w.machine in (r, wrote true v w);
    get_field_id = λ class name signature w.
        let (r, v) = jni.get_field_id class name signature w.machine in (r, wrote true v w);
    new_object = λ class method w.
        created (classes.constructs class method) (instance_of class)
          (jni.new_object class method w.machine) w;
    new_object_array =
        λ n class w. created true (array_of class) (jni.new_object_array n class w.machine) w;
    new_byte_array = λ n w. created true byte_array (jni.new_byte_array n w.machine) w;
    new_string_utf = λ l w. created true text_string (jni.new_string_utf l w.machine) w;
    set_field =
        λ o i x w. wrote (fits_field w.kinds (w.kinds o) i x) (jni.set_field o i x w.machine) w;
    get_long_field = λ o i w. jni.get_long_field o i w.machine;
    set_object_array_element = λ a i r w.
        wrote (fits_element w.kinds (w.kinds a) r) (jni.set_object_array_element a i r w.machine) w;
    set_byte_array_region = λ a start len l w.
        wrote (is_byte_array (w.kinds a)) (jni.set_byte_array_region a start len l w.machine) w;
    get_byte_array_elements =
        λ a w. let (b, v) = jni.get_byte_array_elements a w.machine in (b, wrote true v w);
    release_byte_array_elements =
        λ a b w. wrote true (jni.release_byte_array_elements a b w.machine) w;
    live = λ w. jni.live w.machine;
    get = λ w. jni.get w.machine;
  }
