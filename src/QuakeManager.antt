-- ===== src/QuakeManager.antt =====
-- The radio: src/fsw/FCCode/QuakeControlTask.cpp and QuakeManager.cpp.
pub mod ControlTask
pub mod Manager
pub mod Sequence
pub mod Transitions
pub mod Packets
