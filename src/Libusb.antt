-- ===== src/Libusb.antt =====
-- libusb-0.1 as usb.h declares it: the structs, and the functions that LibusbJava.c calls.
pub mod Structs
pub mod Api
pub mod Logging
