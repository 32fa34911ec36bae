-- ===== src/Calls/Uses.antt =====
-- What a program does with a device that it has opened by `usb_open` of LibusbJava.c, as calls of the
-- native methods and as the requests that libusb gets for them.
use owon_vds.Base.{List, [], ◌∷◌}
use owon_vds.Base.Int.{ℤ, of_jint}
use owon_vds.Libusb.Structs.{Ptr}
use owon_vds.Handlers.Transfers.{Memory}
use owon_vds.Libusb.Logging.{Request}
use owon_vds.Jni.Api.{Ref}
use owon_vds.Calls.{Call}

-- What a program may do with a device that it has opened.
pub data Use : Type 0 where
  claim release : (interface : ℤ) → Use
  set_altinterface : (alternate : ℤ) → Use
  clear_halt : (ep : ℤ) → Use
  reset : Use
  bulk_write interrupt_write : (ep : ℤ) (jbytes : Ref) (size timeout : ℤ) → Use
  bulk_read interrupt_read : (memory : Memory) (ep : ℤ) (jbytes : Ref) (size timeout : ℤ) → Use

-- The call with the number that `usb_open` returned.
abbrev pub call_of : ℤ → Use → Call
call_of h (claim i) = Call.claim_interface h i
call_of h (release i) = Call.release_interface h i
call_of h (set_altinterface a) = Call.set_altinterface h a
call_of h (clear_halt ep) = Call.clear_halt h ep
call_of h reset = Call.reset h
call_of h (bulk_write ep a n w) = Call.bulk_write h ep a n w
call_of h (interrupt_write ep a n w) = Call.interrupt_write h ep a n w
call_of h (bulk_read b ep a n w) = Call.bulk_read b h ep a n w
call_of h (interrupt_read b ep a n w) = Call.interrupt_read b h ep a n w

-- The request to the handle that libusb gave.
abbrev pub request_of : Ptr → Use → Request
request_of h (claim i) = Request.claim_interface h i
request_of h (release i) = Request.release_interface h i
request_of h (set_altinterface a) = Request.set_altinterface h a
request_of h (clear_halt ep) = Request.clear_halt h (of_jint ep)
request_of h reset = Request.reset h
request_of h (bulk_write ep a n w) = Request.bulk_write h ep n w
request_of h (interrupt_write ep a n w) = Request.interrupt_write h ep n w
request_of h (bulk_read b ep a n w) = Request.bulk_read h ep n w
request_of h (interrupt_read b ep a n w) = Request.interrupt_read h ep n w

-- The uses in turn, and then the close.
abbrev pub uses_of : ℤ → List Use → List Call
uses_of h [] = Call.close h ∷ []
uses_of h (x ∷ xs) = call_of h x ∷ uses_of h xs

abbrev pub log_of : Ptr → List Use → List Request → List Request
log_of h [] l = Request.close h ∷ l
log_of h (x ∷ xs) l = log_of h xs (request_of h x ∷ l)
