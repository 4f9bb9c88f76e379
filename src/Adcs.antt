-- ===== src/Adcs.antt =====
-- The attitude control system: its computer, src/adcs, and the tasks of the flight computer that
-- command it and read it over I2C.
pub mod Convert
pub mod Registers
pub mod Receive
pub mod Request
pub mod Bitset
pub mod Driver
pub mod Readout
pub mod Protocol
pub mod Rods
pub mod Wheels
pub mod Loop
pub mod Commander
pub mod Controller
pub mod Pipeline
pub mod Havt
pub mod Monitor
pub mod Imu
pub mod SunSensors
