-- ===== src/Native/State.antt =====
-- The file-scope variables of LibusbJava.c, with the states of libusb and of the virtual machine.
use owon_vds.Base.{ℕ, Option, none, some, List, String, ◌==◌, if◌then◌else◌}
use owon_vds.Base.Text.{codes}
use owon_vds.Libusb.Structs.{Ptr}
use owon_vds.Jni.Api.{Ref}
use owon_vds.Native.Fields.{JavaClass, Field, class_key, field_key}

-- The arguments of `setLibusbJavaError`.
pub data Message : Type 0 where
  bus_object bus_object_next : Message
  dev_object dev_object_next : Message
  dev_desc_object conf_desc_array : Message
  config_null : Message
  conf_desc_object int_array int_object : Message
  int_desc_array int_desc_object ep_desc_array ep_desc_object : Message
  busses_null no_device : Message

abbrev pub message_string : Message → String
message_string bus_object = "shared library error: Error NewObject (usb_busObj)"
message_string bus_object_next = "shared library error: Error NewObject (usb_busObj_next)"
message_string dev_object = "shared library error: Error NewObject (usb_devObj)"
message_string dev_object_next = "shared library error: Error NewObject (usb_devObj_next)"
message_string dev_desc_object = "shared library error: Error NewObject (usb_devDescObj)"
message_string conf_desc_array = "shared library error: Error NewObject 6"
message_string config_null = "shared library error: dev->config == NULL"
message_string conf_desc_object = "shared library error: Error NewObject (usb_confDescObj)"
message_string int_array = "shared library error: Error NewObject (usb_intObjArray)"
message_string int_object = "shared library error: Error NewObject (usb_intObj)"
message_string int_desc_array = "shared library error: Error NewObject (usb_intDescObjArray)"
message_string int_desc_object = "shared library error: Error NewObject (usb_intDescObj)"
message_string ep_desc_array = "shared library error: Error NewObject (usb_epDescObjArray)"
message_string ep_desc_object = "shared library error: Error NewObject (usb_epDescObj)"
message_string busses_null = "shared library error: busses is null"
message_string no_device = "shared library error: no device with dev.devnum found on busses"

unfoldable pub message_text : Message → List ℕ
message_text m = codes (message_string m)

-- The class, method and field IDs; NULL before they are looked up, or if the lookup failed.
pub record References : Type 0 where
  pub clazz : JavaClass → Option Ref
  pub mid : JavaClass → Option ℕ
  pub fid : Field → Option ℕ

-- Assignments to one of the variables.
abbrev pub set_class {ℓ} : {A : Type ℓ} → JavaClass → A → (JavaClass → A) → JavaClass → A
set_class c v t c' = if class_key c == class_key c' then v else t c'

abbrev pub set_fid {ℓ} : {A : Type ℓ} → Field → A → (Field → A) → Field → A
set_fid f v t f' = if field_key f == field_key f' then v else t f'

-- `malloced` counts the blocks that `malloc` returned and `free` did not take back.
pub record State (V U : Type 0) : Type 0 where
  pub vm : V
  pub usb : U
  pub busses : Ptr
  pub java_references_loaded : ℕ
  pub libusb_java_error : Option Message
  pub config_done : ℕ
  pub references : References
  pub malloced : ℕ

-- How a call ends: it returns, or it meets undefined behaviour. `out_of_fuel` belongs to the model:
-- the rounds given to a loop over a linked list were not enough.
pub data Outcome (S A : Type 0) : Type 0 where
  returned : A → S → Outcome S A
  fault : Outcome S A
  out_of_fuel : Outcome S A

-- `clearLibusbJavaError`
abbrev pub clear_libusb_java_error : {V U : Type 0} → State V U → State V U
clear_libusb_java_error s = record s { libusb_java_error = none }

-- `setLibusbJavaError`
abbrev pub set_libusb_java_error : {V U : Type 0} → Message → State V U → State V U
set_libusb_java_error m s = record s { libusb_java_error = some m }
