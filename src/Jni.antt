-- ===== src/Jni.antt =====
-- The Java virtual machine as jni.h gives it to native code.
pub mod Api
pub mod Laws
pub mod Watch
pub mod Types
