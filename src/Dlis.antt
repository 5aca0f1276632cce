-- ===== src/Dlis.antt =====
-- node-addon/src/dlis.cc: the parser of a stream of chunks.
pub mod State
pub mod Flags
pub mod Trailing
pub mod Template
pub mod Headers
pub mod Skip
pub mod Strings
pub mod Eflr
pub mod Iflr
pub mod Heap
pub mod Events
pub mod NextState
pub mod Rounds
pub mod Parse
pub mod Measure
pub mod Sound
pub mod Curve
pub mod Input
pub mod Reading
mod Samples
mod Tests
