-- ===== src/Jni/Laws.antt =====
-- What the JNI specification promises of the functions that LibusbJava.c calls: a creation gives a
-- new object and leaves the others alone, a write changes one slot of one object.
use owon_vds.Base.{ℕ, ◌<◌, ◌≡◌, ◌≢◌, true, false, ◌⊎◌, none, some, Option, List}
use owon_vds.Base.Int.{ℤ, pos, negsuc}
use owon_vds.Jni.Api.{
  Jni, Ref, Slot, Value, object, long, size, text, bytes, field, element, extent, contents,
}

module _ (jni : Jni) where
  pub record IsCreated (v : jni.Vm) (o : Ref) (w : jni.Vm) : Type 0 where
    pub fresh : jni.live v o ≡ false
    pub born : jni.live w o ≡ true
    pub keeps_live : (p : Ref) → jni.live v p ≡ true → jni.live w p ≡ true
    pub keeps : (p : Ref) (s : Slot) → jni.live v p ≡ true → jni.get w p s ≡ jni.get v p s

  pub record IsWritten (v : jni.Vm) (o : Ref) (s : Slot) (x : Value) (w : jni.Vm) : Type 0 where
    pub keeps_live : (p : Ref) → jni.live w p ≡ jni.live v p
    pub written : jni.get w o s ≡ x
    pub other_object : (p : Ref) (t : Slot) → p ≢ o → jni.get w p t ≡ jni.get v p t
    pub other_slot : (t : Slot) → t ≢ s → jni.get w o t ≡ jni.get v o t

  pub record Laws : Type 0 where
    pub new_object :
        (class method : ℕ) (v : jni.Vm) (o : Ref)
        → (jni.new_object class method v).0 ≡ some o
        → IsCreated v o (jni.new_object class method v).1
    pub new_object_array :
        (n : ℤ) (class : Ref) (v : jni.Vm) (a : Ref)
        → (jni.new_object_array n class v).0 ≡ some a
        → let w = (jni.new_object_array n class v).1 in
          IsCreated v a w × (jni.get w a extent ≡ size n)
    pub new_byte_array :
        (n : ℤ) (v : jni.Vm) (a : Ref)
        → (jni.new_byte_array n v).0 ≡ some a
        → let w = (jni.new_byte_array n v).1 in IsCreated v a w × (jni.get w a extent ≡ size n)
    pub new_string_utf :
        (l : List ℕ) (v : jni.Vm) (s : Ref)
        → (jni.new_string_utf l v).0 ≡ some s
        → let w = (jni.new_string_utf l v).1 in IsCreated v s w × (jni.get w s contents ≡ text l)
    pub set_field :
        (o : Ref) (i : ℕ) (x : Value) (v : jni.Vm)
        → jni.live v o ≡ true
        → IsWritten v o (field i) x (jni.set_field o i x v)
    pub set_object_array_element :
        (a : Ref) (i n : ℕ) (r : Option Ref) (v : jni.Vm)
        → jni.live v a ≡ true
        → jni.get v a extent ≡ size (pos n)
        → i < n
        → IsWritten v a (element i) (object r) (jni.set_object_array_element a i r v)
    -- a region that is the whole array
    pub set_byte_array_region :
        (a : Ref) (n : ℤ) (l : List ℕ) (v : jni.Vm)
        → jni.live v a ≡ true
        → jni.get v a extent ≡ size n
        → IsWritten v a contents (bytes l) (jni.set_byte_array_region a (pos 0) n l v)
    pub get_long_field :
        (o : Ref) (i : ℕ) (x : ℤ) (v : jni.Vm)
        → jni.get v o (field i) ≡ long x
        → jni.get_long_field o i v ≡ x

  -- The virtual machine has room for the strings and byte arrays, whose creation the code does not
  -- test.
  pub record HasRoom : Type 0 where
    pub byte_array : (n : ℕ) (v : jni.Vm) → (a : Ref) × ((jni.new_byte_array (pos n) v).0 ≡ some a)
    pub string : (l : List ℕ) (v : jni.Vm) → (s : Ref) × ((jni.new_string_utf l v).0 ≡ some s)

  -- A negative length raises an exception.
  abbrev pub RefusesNegative : Type 0
  RefusesNegative = (n : ℕ) (v : jni.Vm) → (jni.new_byte_array (negsuc n) v).0 ≡ none

  -- The machine came to `w` by the creation of an object or an array for which it returned NULL.
  abbrev pub IsRefusal : jni.Vm → Type 0
  IsRefusal w =
      ((class : ℕ) × (method : ℕ) × (v : jni.Vm) × ((jni.new_object class method v).0 ≡ none)
        × ((jni.new_object class method v).1 ≡ w))
      ⊎ ((n : ℤ) × (class : Ref) × (v : jni.Vm) × ((jni.new_object_array n class v).0 ≡ none)
          × ((jni.new_object_array n class v).1 ≡ w))

  -- The elements of a byte array are handed out as they are, and come back when they are released
  -- with mode 0; the machine has room for the copy.
  pub record ElementLaws : Type 0 where
    pub get_byte_array_elements :
        (a : Ref) (l : List ℕ) (v : jni.Vm)
        → jni.live v a ≡ true
        → jni.get v a contents ≡ bytes l
        → jni.get_byte_array_elements a v ≡ (some l, v)
    pub release_byte_array_elements :
        (a : Ref) (l : List ℕ) (v : jni.Vm)
        → jni.live v a ≡ true
        → IsWritten v a contents (bytes l) (jni.release_byte_array_elements a (some l) v)

  -- An array keeps its length, whatever is done with its elements.
  pub record KeepsLengths : Type 0 where
    pub get_byte_array_elements :
        (a p : Ref) (v : jni.Vm)
        → jni.get (jni.get_byte_array_elements a v).1 p extent ≡ jni.get v p extent
    pub release_byte_array_elements :
        (a p : Ref) (b : Option (List ℕ)) (v : jni.Vm)
        → jni.get (jni.release_byte_array_elements a b v) p extent ≡ jni.get v p extent
    pub set_byte_array_region :
        (a p : Ref) (start len : ℤ) (l : List ℕ) (v : jni.Vm)
        → jni.get (jni.set_byte_array_region a start len l v) p extent ≡ jni.get v p extent
