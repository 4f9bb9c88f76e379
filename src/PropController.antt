-- ===== src/PropController.antt =====
-- The propulsion state machine, src/fsw/FCCode/PropController.cpp and PropController.hpp.
pub mod State
pub mod Guards
pub mod Cycle
pub mod Evaluate
pub mod Execute
pub mod Frame
pub mod Transitions
pub mod Firing
pub mod Faults
