-- ===== src/TinyLfu.antt =====
-- internal/tinylfu: the W-TinyLFU frequency policy.
pub mod Words
pub mod Nibbles
pub mod Sketch
pub mod Doorkeeper
pub mod Buffer
pub mod Policy
