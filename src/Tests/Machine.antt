-- ===== src/Tests/Machine.antt =====
-- A virtual machine that satisfies what the JNI specification promises: objects are numbered, and it
-- makes no objects past a limit. Byte arrays and strings it always makes.
use package.text.Mathlib.Text.{◌==◌ as str_eq}
use owon_vds.Base.{
  ℕ, ◌+◌, ◌≡◌, ◌≢◌, refl, Bool, true, false, ◌&&◌, Option, none, some, List, [], ◌∷◌, String, arith,
  ltb, ◌==◌, if◌then◌else◌,
}
use owon_vds.Base.Int.{ℤ, pos, negsuc}
use owon_vds.Jni.Api.{
  Jni, Ref, Slot, Value, object, long, size, text, bytes, field, element, extent, contents,
}
use owon_vds.Jni.Laws.{Laws, ElementLaws, HasRoom, IsCreated, IsWritten}
use owon_vds.Native.Fields
use owon_vds.Native.Fields.{JavaClass, Field, class_key, field_key}
use owon_vds.Native.Names.{class_name, field_name, fields_of, all_classes}
use owon_vds.Native.State.{References}
use owon_vds.Busses.Puts.{IsResolved}
use owon_vds.Busses.Lookup.{HasClasses}

pub record Heap : Type 0 where
  pub next : ℕ
  pub cells : Ref → Slot → Value

abbrev pub slot_eq : Slot → Slot → Bool
slot_eq (field i) (field j) = i == j
slot_eq (element i) (element j) = i == j
slot_eq extent extent = true
slot_eq contents contents = true
slot_eq _ _ = false

slot_eq-ne : (s t : Slot) → t ≢ s → slot_eq s t ≡ false
slot_eq-ne (field i) (field j) h = ground arith
slot_eq-ne (element i) (element j) h = ground arith
slot_eq-ne extent extent h = absurd (h refl)
slot_eq-ne contents contents h = absurd (h refl)
slot_eq-ne (field i) (element j) h = refl
slot_eq-ne (field i) extent h = refl
slot_eq-ne (field i) contents h = refl
slot_eq-ne (element i) (field j) h = refl
slot_eq-ne (element i) extent h = refl
slot_eq-ne (element i) contents h = refl
slot_eq-ne extent (field j) h = refl
slot_eq-ne extent (element j) h = refl
slot_eq-ne extent contents h = refl
slot_eq-ne contents (field j) h = refl
slot_eq-ne contents (element j) h = refl
slot_eq-ne contents extent h = refl

slot_eq_refl : (s : Slot) → slot_eq s s ≡ true
slot_eq_refl (field i) = ground arith
slot_eq_refl (element i) = ground arith
slot_eq_refl extent = refl
slot_eq_refl contents = refl

abbrev pub write : Ref → Slot → Value → Heap → Heap
write o s x h = record h {
  cells = λ p t. if o == p then (if slot_eq s t then x else h.cells p t) else h.cells p t;
}

-- A new object whose slot `s` holds `x`.
abbrev pub create : Slot → Value → Heap → Option Ref × Heap
create s x h = (some h.next, write h.next s x (record h { next = h.next + 1 }))

abbrev pub create_if : Bool → Slot → Value → Heap → Option Ref × Heap
create_if true s x h = create s x h
create_if false s x h = (none, h)

abbrev is_size : ℤ → Bool
is_size (pos _) = true
is_size (negsuc _) = false

abbrev find_name : String → List Field → Option ℕ
find_name name [] = none
find_name name (f ∷ l) = if str_eq (field_name f) name then some (field_key f) else find_name name l

abbrev find_class_key : String → List JavaClass → Option ℕ
find_class_key name [] = none
find_class_key name (c ∷ l) =
    if str_eq (class_name c) name then some (class_key c) else find_class_key name l

abbrev fields_at : ℕ → List JavaClass → List Field
fields_at k [] = []
fields_at k (c ∷ l) = if class_key c == k then fields_of c else fields_at k l

abbrev long_of : Value → ℤ
long_of (long x) = x
long_of _ = pos 0

abbrev pub machine : (limit : ℕ) → Jni
machine limit = record {
  Vm = Heap;
  find_class = λ name h. (find_class_key name all_classes, h);
  get_method_id = λ class name signature h. (some class, h);
  get_field_id = λ class name signature h. (find_name name (fields_at class all_classes), h);
  new_object = λ class method h. create_if (ltb h.next limit) extent (object none) h;
  new_object_array = λ n class h. create_if (is_size n && ltb h.next limit) extent (size n) h;
  new_byte_array = λ n h. create_if (is_size n) extent (size n) h;
  new_string_utf = λ l h. create contents (text l) h;
  set_field = λ o i x h. write o (field i) x h;
  get_long_field = λ o i h. long_of (h.cells o (field i));
  set_object_array_element = λ a i r h. write a (element i) (object r) h;
  set_byte_array_region = λ a start len l h. write a contents (bytes l) h;
  get_byte_array_elements =
      λ a h. (elim (h.cells a contents) [ bytes l ↦ some l | _ ↦ some [] ], h);
  release_byte_array_elements =
      λ a l h. elim l [ none ↦ h | some b ↦ write a contents (bytes b) h ];
  live = λ h p. ltb p h.next;
  get = λ h p s. h.cells p s;
}

write-IsWritten :
    (limit : ℕ) (o : Ref) (s : Slot) (x : Value) (h : Heap)
    → IsWritten (machine limit) h o s x (write o s x h)
write-IsWritten limit o s x h = record {
  keeps_live = λ p. refl;
  written = ground (arith, slot_eq_refl s);
  other_object = λ p t ne. ground arith;
  other_slot = λ t ne. ground (arith, slot_eq-ne s t ne);
}

create_if-IsCreated :
    (limit : ℕ) (b : Bool) (s : Slot) (x : Value) (h : Heap) (o : Ref)
    → (create_if b s x h).0 ≡ some o
    → let w = (create_if b s x h).1 in IsCreated (machine limit) h o w × (w.cells o s ≡ x)
create_if-IsCreated limit false s x h o e = cc
create_if-IsCreated limit true s x h o e = (
  record {
    fresh = ground arith;
    born = ground arith;
    keeps_live = λ p l. ground arith;
    keeps = λ p t l. ground arith;
  },
  ground (arith, slot_eq_refl s),
)

pub machine-Laws : (limit : ℕ) → Laws (machine limit)
machine-Laws limit = record {
  new_object = λ class method v o e. (create_if-IsCreated limit _ extent (object none) v o e).0;
  new_object_array = λ n class v a e. create_if-IsCreated limit _ extent (size n) v a e;
  new_byte_array = λ n v a e. create_if-IsCreated limit _ extent (size n) v a e;
  new_string_utf = λ l v s e. create_if-IsCreated limit true contents (text l) v s e;
  set_field = λ o i x v there. write-IsWritten limit o (field i) x v;
  set_object_array_element =
      λ a i n r v there len lt. write-IsWritten limit a (element i) (object r) v;
  set_byte_array_region = λ a n l v there len. write-IsWritten limit a contents (bytes l) v;
  get_long_field = λ o i x v e. rw (e, long_of) refl;
}

pub machine-HasRoom : (limit : ℕ) → HasRoom (machine limit)
machine-HasRoom limit = record {
  byte_array = λ n v. (v.next, refl);
  string = λ l v. (v.next, refl);
}

pub find_class_key-class_key :
    (c : JavaClass) → find_class_key (class_name c) all_classes ≡ some (class_key c)
find_class_key-class_key Fields.bus = refl
find_class_key-class_key _ = refl

pub find_name-field_key :
    (f : Field)
    → find_name (field_name f) (fields_at (class_key (Fields.class_of f)) all_classes)
      ≡ some (field_key f)
find_name-field_key Field.bus_next = refl
find_name-field_key _ = refl

unfoldable pub machine-HasClasses : (limit : ℕ) → HasClasses (machine limit)
machine-HasClasses limit = record {
  class_id = class_key;
  method_id = class_key;
  field_id = field_key;
  classes = λ c v. find_class_key-class_key c;
  methods = λ c v. refl;
  fields = λ f v. find_name-field_key f;
  apart = λ f g same ne. ne;
}

-- The IDs that the machine gives, and the lookup of them.
abbrev pub known : References
known = record {
  clazz = λ c. some (class_key c);
  mid = λ c. some (class_key c);
  fid = λ f. some (field_key f);
}

pub known-IsResolved : IsResolved known
known-IsResolved = record {
  class_id = class_key;
  method_id = class_key;
  field_id = field_key;
  classes = λ c. refl;
  methods = λ c. refl;
  fields = λ f. refl;
  apart = λ f g same ne. ne;
}

pub machine-ElementLaws : (limit : ℕ) → ElementLaws (machine limit)
machine-ElementLaws limit = record {
  get_byte_array_elements = λ a l v there e. rw (e, machine) refl;
  release_byte_array_elements = λ a l v there. write-IsWritten limit a contents (bytes l) v;
}
