-- ===== src/Tests.antt =====
-- A virtual machine and a libusb that run, tests of the code on them, and the theorems at inputs.
pub mod Machine
pub mod Memory
pub mod Topology
mod Witnesses
mod Opens
mod Transfers
mod Sessions
mod Readbacks
mod Replay
mod Protocols
mod Trees
mod Types
mod Lifecycle
mod ShortArrays
