-- ===== src/Handlers.antt =====
-- The native methods of LibusbJava.c other than `usb_get_busses`.
pub mod Control
pub mod Open
pub mod OpenSearch
pub mod OpenLaws
pub mod OpenCopied
pub mod Transfers
pub mod Strings
pub mod Errors
pub mod TransferLaws
pub mod StringLaws
pub mod ShortArrays
pub mod ErrorLaws
pub mod WriteLaws
