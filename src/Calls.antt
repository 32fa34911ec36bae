-- ===== src/Calls.antt =====
-- The shared library as a state machine: one call of a native method of LibusbJava.c after the
-- other, on the variables that they share.
pub mod Effects
pub mod Runs
pub mod Polite
pub mod Requests
pub mod Configured
pub mod Transparent
pub mod Uses
pub mod Lifecycle
use owon_vds.Base.{ℕ, Option, none, some, List, [], ◌∷◌}
use owon_vds.Base.Int.{ℤ, pos}
use owon_vds.Libusb.Api.{Libusb}
use owon_vds.Jni.Api.{Jni, Ref}
use owon_vds.Native.State.{State, Outcome, returned}
use owon_vds.Busses.Get
use owon_vds.Handlers.Control
use owon_vds.Handlers.Open
use owon_vds.Handlers.Transfers
use owon_vds.Handlers.Transfers.{Memory}
use owon_vds.Handlers.Strings
use owon_vds.Handlers.Errors

-- The native methods with their arguments. `memory` is what `malloc` finds in the call, `string`
-- what the local array holds before it, `devices` and `fuel` are the rounds given to the loops.
pub data Call : Type 0 where
  set_debug : (level : ℤ) → Call
  init find_busses find_devices : Call
  get_busses : (devices fuel : ℕ) → Call
  open_device : (devices fuel : ℕ) (dev : Ref) → Call
  close reset : (dev_handle : ℤ) → Call
  set_configuration : (dev_handle configuration : ℤ) → Call
  set_altinterface : (dev_handle alternate : ℤ) → Call
  clear_halt : (dev_handle ep : ℤ) → Call
  claim_interface release_interface : (dev_handle interface : ℤ) → Call
  control_msg :
      (dev_handle requesttype request value index : ℤ) (jbytes : Ref) (size timeout : ℤ) → Call
  get_string : (string : List ℕ) (dev_handle index langid : ℤ) → Call
  get_string_simple : (string : List ℕ) (dev_handle index : ℤ) → Call
  get_descriptor : (memory : Memory) (dev_handle type index size : ℤ) → Call
  get_descriptor_by_endpoint : (memory : Memory) (dev_handle ep type index size : ℤ) → Call
  bulk_write interrupt_write : (dev_handle ep : ℤ) (jbytes : Ref) (size timeout : ℤ) → Call
  bulk_read interrupt_read :
      (memory : Memory) (dev_handle ep : ℤ) (jbytes : Ref) (size timeout : ℤ) → Call
  strerror : Call
  error_no : (java_error_no : ℤ) → Call

-- What Java gets: nothing from a void method, a number, a reference, or the value that a method does
-- not have whose body ends without a `return`.
pub data Reply : Type 0 where
  done : Reply
  number : ℤ → Reply
  reference : Option Ref → Reply
  no_value : Reply

abbrev pub numbered : {S : Type 0} → ℤ × S → Outcome S Reply
numbered (n, s) = returned (Reply.number n) s

abbrev pub referenced : {S : Type 0} → Outcome S (Option Ref) → Outcome S Reply
referenced (returned r s) = returned (Reply.reference r) s
referenced Outcome.fault = Outcome.fault
referenced Outcome.out_of_fuel = Outcome.out_of_fuel

abbrev pub computed : {S : Type 0} → Outcome S ℤ → Outcome S Reply
computed (returned n s) = returned (Reply.number n) s
computed Outcome.fault = Outcome.fault
computed Outcome.out_of_fuel = Outcome.out_of_fuel

-- A call that did not return has no successor.
abbrev pub after : {S A B : Type 0} → Outcome S A → (A → S → Outcome S B) → Outcome S B
after (returned a s) k = k a s
after Outcome.fault k = Outcome.fault
after Outcome.out_of_fuel k = Outcome.out_of_fuel

module _ (jni : Jni) (usb : Libusb) where
  unfoldable pub perform : Call → State jni.Vm usb.Usb → Outcome (State jni.Vm usb.Usb) Reply
  perform (Call.set_debug level) s = returned Reply.done (Control.set_debug usb level s)
  perform Call.init s = returned Reply.done (Control.init usb s)
  perform Call.find_busses s = numbered (Control.find_busses usb s)
  perform Call.find_devices s = numbered (Control.find_devices usb s)
  perform (Call.get_busses devices fuel) s = referenced (Get.get_busses jni usb devices fuel s)
  perform (Call.open_device devices fuel dev) s =
      computed (Open.open_device jni usb devices fuel dev s)
  perform (Call.close h) s = numbered (Control.close usb h s)
  perform (Call.reset h) s = numbered (Control.reset usb h s)
  perform (Call.set_configuration h c) s =
      let (r, s') = Control.set_configuration usb h c s in
      returned (elim r [ none ↦ Reply.no_value | some n ↦ Reply.number n ]) s'
  perform (Call.set_altinterface h a) s = numbered (Control.set_altinterface usb h a s)
  perform (Call.clear_halt h ep) s = numbered (Control.clear_halt usb h ep s)
  perform (Call.claim_interface h i) s = numbered (Control.claim_interface usb h i s)
  perform (Call.release_interface h i) s = numbered (Control.release_interface usb h i s)
  perform (Call.control_msg h t r v i a n w) s =
      computed (Transfers.control_msg jni usb h t r v i a n w s)
  perform (Call.get_string b h i l) s = referenced (Strings.get_string jni usb b h i l s)
  perform (Call.get_string_simple b h i) s = referenced (Strings.get_string_simple jni usb b h i s)
  perform (Call.get_descriptor b h t i n) s =
      referenced (Strings.get_descriptor jni usb b h t i n s)
  perform (Call.get_descriptor_by_endpoint b h ep t i n) s =
      referenced (Strings.get_descriptor_by_endpoint jni usb b h ep t i n s)
  perform (Call.bulk_write h ep a n w) s = computed (Transfers.bulk_write jni usb h ep a n w s)
  perform (Call.interrupt_write h ep a n w) s =
      computed (Transfers.interrupt_write jni usb h ep a n w s)
  perform (Call.bulk_read b h ep a n w) s = numbered (Transfers.bulk_read jni usb b h ep a n w s)
  perform (Call.interrupt_read b h ep a n w) s =
      numbered (Transfers.interrupt_read jni usb b h ep a n w s)
  perform Call.strerror s =
      let (r, s') = Errors.strerror jni usb s in returned (Reply.reference r) s'
  perform (Call.error_no n) s = returned (Reply.number (pos (Errors.error_no n))) s

  -- The calls in turn, with their replies, up to the first that does not return.
  unfoldable pub run :
      List Call → State jni.Vm usb.Usb → Outcome (State jni.Vm usb.Usb) (List Reply)
  run [] s = returned [] s
  run (c ∷ cs) s = after (perform c s) λ r s'. after (run cs s') λ rs s''. returned (r ∷ rs) s''
