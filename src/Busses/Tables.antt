-- ===== src/Busses/Tables.antt =====
-- The tables of the classes and fields that `usb_get_busses` of LibusbJava.c looks up.
use owon_vds.Base.{
  ℕ, ◌≡◌, refl, ◌∙◌, Bool, true, false, ◌||◌, List, [], ◌∷◌, ◌++◌, zero, suc, sym, ap, arith, ◌==◌,
  ◌&&◌,
}
use owon_vds.Native.Fields
use owon_vds.Native.Fields.{JavaClass, Field, class_key, field_key, class_of}
use owon_vds.Native.Names.{fields_of, all_classes}

abbrev pub has_field : Field → List Field → Bool
has_field f [] = false
has_field f (g ∷ l) = (field_key g == field_key f) || has_field f l

abbrev pub has_class : JavaClass → List JavaClass → Bool
has_class c [] = false
has_class c (d ∷ l) = (class_key d == class_key c) || has_class c l

-- The tables of the program are complete.
pub fields_of_complete : (f : Field) → has_field f (fields_of (class_of f)) ≡ true
fields_of_complete Field.bus_next = refl
fields_of_complete _ = refl

pub all_classes_complete : (c : JavaClass) → has_class c all_classes ≡ true
all_classes_complete Fields.bus = refl
all_classes_complete _ = refl

-- The fields of all classes, in the order of their keys.
abbrev pub fields_from : List JavaClass → List Field
fields_from [] = []
fields_from (c ∷ l) = fields_of c ++ fields_from l

abbrev pub field_at : List Field → ℕ → Field
field_at [] n = Field.bus_next
field_at (f ∷ l) zero = f
field_at (f ∷ l) (suc n) = field_at l n

abbrev pub class_at : List JavaClass → ℕ → JavaClass
class_at [] n = Fields.bus
class_at (c ∷ l) zero = c
class_at (c ∷ l) (suc n) = class_at l n

pub field_at-field_key : (f : Field) → field_at (fields_from all_classes) (field_key f) ≡ f
field_at-field_key Field.bus_next = refl
field_at-field_key _ = refl

pub class_at-class_key : (c : JavaClass) → class_at all_classes (class_key c) ≡ c
class_at-class_key Fields.bus = refl
class_at-class_key _ = refl

pub field_key-injective : (f g : Field) → (field_key f == field_key g) ≡ true → f ≡ g
field_key-injective f g h =
    let e : field_key f ≡ field_key g = ground arith in
    sym (field_at-field_key f) ∙ ap (field_at (fields_from all_classes)) e ∙ field_at-field_key g

pub class_key-injective : (c d : JavaClass) → (class_key c == class_key d) ≡ true → c ≡ d
class_key-injective c d h =
    let e : class_key c ≡ class_key d = ground arith in
    sym (class_at-class_key c) ∙ ap (class_at all_classes) e ∙ class_at-class_key d

abbrev pub all_of : JavaClass → List Field → Bool
all_of c [] = true
all_of c (f ∷ l) = (class_key (class_of f) == class_key c) && all_of c l

pub fields_of-all_of : (c : JavaClass) → all_of c (fields_of c) ≡ true
fields_of-all_of Fields.bus = refl
fields_of-all_of _ = refl
