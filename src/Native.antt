-- ===== src/Native.antt =====
-- The file-scope variables of LibusbJava.c.
pub mod Fields
pub mod Names
pub mod State
