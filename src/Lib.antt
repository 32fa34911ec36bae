-- ===== src/Lib.antt =====
-- A model of libusb/linux/LibusbJava.c, the C code that makes the C library libusb available to the
-- Java program of the OWON VDS2062 oscilloscope, with the theorems that make it correct.
--
-- The program. Java calls the native methods of LibusbJava.c, which are declared in
-- libusb/linux/LibusbJava.h. `usb_get_busses` copies libusb's linked lists of busses and devices, with
-- their descriptors, into Java objects, and stores the list in the variable `busses`. `usb_open` looks
-- a device up in that list by the address that its Java object carries, and returns libusb's handle
-- as a number; the other methods take such a number. The methods share the variables of the file: the
-- list of busses, the error of the wrapper, the flag of `usb_set_configuration`, and the IDs of
-- classes, constructors and fields.
--
-- The files.
-- - Base: names of the libraries, Boolean tests and lists on native numbers. Base/Int: signed integers
--   and C's conversions between the types of usb.h and those of Java. Base/Text: characters.
-- - Libusb/Structs: the structs of libusb/linux/usb.h. Libusb/Api: libusb's functions, a parameter.
-- - Jni/Api: the functions of the Java Native Interface, a parameter. Jni/Laws: what its
--   specification promises of them, as hypotheses. Jni/Watch, Jni/Types and Libusb/Logging:
--   machines that note which functions are called, and with what.
-- - Native/Fields: the variables for classes and fields. Native/Names: the names that they are looked
--   up by. Native/State: the other variables of the file, with the states of libusb and of the virtual
--   machine.
-- - Busses: `usb_get_busses`. Action: its steps, each of which may end the call. References: the
--   lookup of the IDs. Descriptors: the copies of configurations, interfaces, interface descriptors
--   and endpoints. Devices: the loops over devices and busses. Get: the whole method. The other files
--   hold its specification (ArraySpec, Tree, DeviceTree) and the proofs: Ends, Frame, Puts, Arrays,
--   Extra, Strings and Stable are about single steps; Copies, DeviceCopy, DeviceList, BusCopy, BusList,
--   Bodies, Tables and Lookup about the parts; Refinement about the whole; Readback and
--   ReadbackConfigs about what Java can tell from it; UnknownClass about a lookup that fails; Polite,
--   with its children Steps, Copies, Lists and Misuse, about the use of the virtual machine; View, with
--   Arrays, Configs and Lists, about the tree that Java code reads; Halts, with Arrays, Nulls, Devices,
--   Busses and Get, about the return at an array of libusb that is NULL; Typed, with its children,
--   about the types of the objects and values. Follows is what Polite and Typed share.
-- - Handlers: the other native methods. Control: those that hand one call to libusb. Open: `usb_open`.
--   Transfers: control messages, reads and writes. Strings: strings and descriptors. Errors:
--   `usb_strerror` and `usb_error_no`. OpenSearch, OpenLaws, OpenCopied, TransferLaws, WriteLaws,
--   StringLaws, ShortArrays and ErrorLaws hold the theorems.
-- - Calls: all native methods as one state machine. Effects: what one call does to the variables.
--   Runs: what holds of every sequence of calls. Polite, Requests, Transparent and Configured are
--   about the use of the virtual machine and the calls that libusb gets. Uses and Lifecycle: a
--   device that is opened, used and closed.
-- - Tests: a virtual machine and a libusb that run, and the theorems at concrete inputs.
--
-- How the model stands to the code. A C function is a function on the state of Native/State. A
-- `return` from within the loops of `usb_get_busses` is a step `leave`. Undefined behaviour, such as
-- a read where there is no struct, past the end of an array, or through a NULL field ID, is `fault`. An
-- array of libusb is a list, or `none` for NULL; a struct at an address is what libusb's memory holds
-- there. Numbers of C that are unsigned are natural numbers, and each cast is written out as
-- arithmetic. What `malloc` finds is an argument: no room, or memory with what it holds, of which it
-- returns a block of the size that is asked for. In a write or a control message, a size that is
-- larger than the Java array, by which libusb would go past the end of the bytes, is `fault`.
--
-- Bounds. The loops over the linked lists of busses and devices take a number of rounds. The theorems
-- ask for one round more than there are busses, and than there are devices on any bus; with these the
-- loops end. The loops over arrays recurse on the counts and need none. Addresses and handles are
-- words of 64 bits.
--
-- Not modelled: libusb and the virtual machine, which are parameters; the output that `printf` makes;
-- threads that call native methods at the same time; the Java, Python and shell code of the
-- repository.
pub mod Base
pub mod Libusb
pub mod Jni
pub mod Native
pub mod Busses
pub mod Handlers
pub mod Calls
pub mod Tests
