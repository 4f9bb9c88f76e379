-- ===== src/Examples/Adcs.antt =====
-- The attitude control system at concrete inputs.
mod Cycles
mod Values
