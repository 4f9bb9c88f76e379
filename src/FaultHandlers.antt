-- ===== src/FaultHandlers.antt =====
-- The fault handlers of src/fsw/FCCode: each recommends a mission state, and the main one combines
-- what they say.
pub mod Simple
pub mod Main
pub mod Quake
pub mod Piksi
pub mod Propulsion
