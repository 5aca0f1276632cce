-- ===== src/Codec.antt =====
-- node-addon/src/common.cc: the representation codes of the file format.
pub mod Memory
pub mod Number
pub mod Text
pub mod Outcome
pub mod Value
pub mod Serialize
mod Tests
