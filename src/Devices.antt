-- ===== src/Devices.antt =====
-- Control tasks of single devices.
pub mod Dcdc
pub mod Piksi
pub mod Gomspace
