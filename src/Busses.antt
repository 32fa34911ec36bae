-- ===== src/Busses.antt =====
-- `usb_get_busses`: the copy of libusb's tree of busses into Java objects.
pub mod Action
pub mod References
pub mod Descriptors
pub mod Devices
pub mod Get
pub mod Frame
pub mod Ends
pub mod Puts
pub mod ArraySpec
pub mod Arrays
pub mod Tree
pub mod Stable
pub mod Extra
pub mod Bodies
pub mod Copies
pub mod Strings
pub mod DeviceTree
pub mod DeviceCopy
pub mod DeviceList
pub mod BusCopy
pub mod BusList
pub mod Tables
pub mod Lookup
pub mod Refinement
pub mod Readback
pub mod ReadbackConfigs
pub mod UnknownClass
pub mod View
pub mod Halts
pub mod Follows
pub mod Typed
pub mod Polite
