-- ===== src/Examples.antt =====
-- Tests, and the theorems of the components at concrete inputs.
mod Values
mod Faults
mod Propulsion
mod Mission
mod Radio
mod Streams
mod Tasks
mod Memory
mod Timing
mod Adcs
