-- ===== src/MissionManager.antt =====
-- The mission manager, src/fsw/FCCode/MissionManager.cpp and MissionManager.hpp.
pub mod State
pub mod Execute
pub mod FaultResponse
pub mod Transitions
pub mod Docking
