-- ===== src/Adcs/Registers.antt =====
-- The registers of the ADCS computer: src/adcs/state.hpp, src/adcs/state_registers.hpp, and the enumerations
-- of src/adcs/constants.hpp, which are stored as bytes.
use flight_software.Base.{ℕ, Option, List, [], ◌∷◌, get_elem?}

pub data Register : Type 0 where
  who_am_i adcs_mode read_pointer rwa_mode rwa_command rwa_command_flag : Register
  rwa_speed_filter rwa_ramp_filter rwa_speed_rd rwa_ramp_read mtr_mode mtr_command : Register
  mtr_limit mtr_command_flag ssa_mode ssa_sun_vector ssa_voltage_filter : Register
  ssa_voltage_read ssa_voltage_threshold imu_mag1_mode imu_mag2_mode imu_read : Register
  imu_mag_filter imu_gyr_filter imu_gyr_temp_filter imu_gyr_temp_pwm : Register
  imu_gyr_temp_desired havt_read havt_command_reset havt_command_disable : Register

-- The values of the enumeration.
abbrev pub address_of : Register → ℕ
address_of Register.who_am_i = 0
address_of Register.adcs_mode = 1
address_of Register.read_pointer = 2
address_of Register.rwa_mode = 3
address_of Register.rwa_command = 4
address_of Register.rwa_command_flag = 5
address_of Register.rwa_speed_filter = 6
address_of Register.rwa_ramp_filter = 7
address_of Register.rwa_speed_rd = 8
address_of Register.rwa_ramp_read = 9
address_of Register.mtr_mode = 10
address_of Register.mtr_command = 11
address_of Register.mtr_limit = 12
address_of Register.mtr_command_flag = 13
address_of Register.ssa_mode = 14
address_of Register.ssa_sun_vector = 15
address_of Register.ssa_voltage_filter = 16
address_of Register.ssa_voltage_read = 17
address_of Register.ssa_voltage_threshold = 18
address_of Register.imu_mag1_mode = 19
address_of Register.imu_mag2_mode = 20
address_of Register.imu_read = 21
address_of Register.imu_mag_filter = 22
address_of Register.imu_gyr_filter = 23
address_of Register.imu_gyr_temp_filter = 24
address_of Register.imu_gyr_temp_pwm = 25
address_of Register.imu_gyr_temp_desired = 26
address_of Register.havt_read = 27
address_of Register.havt_command_reset = 28
address_of Register.havt_command_disable = 29

abbrev registers_in_order : List Register
registers_in_order =
    Register.who_am_i ∷ Register.adcs_mode ∷ Register.read_pointer ∷ Register.rwa_mode
    ∷ Register.rwa_command ∷ Register.rwa_command_flag ∷ Register.rwa_speed_filter
    ∷ Register.rwa_ramp_filter ∷ Register.rwa_speed_rd ∷ Register.rwa_ramp_read ∷ Register.mtr_mode
    ∷ Register.mtr_command ∷ Register.mtr_limit ∷ Register.mtr_command_flag ∷ Register.ssa_mode
    ∷ Register.ssa_sun_vector ∷ Register.ssa_voltage_filter ∷ Register.ssa_voltage_read
    ∷ Register.ssa_voltage_threshold ∷ Register.imu_mag1_mode ∷ Register.imu_mag2_mode
    ∷ Register.imu_read ∷ Register.imu_mag_filter ∷ Register.imu_gyr_filter
    ∷ Register.imu_gyr_temp_filter ∷ Register.imu_gyr_temp_pwm ∷ Register.imu_gyr_temp_desired
    ∷ Register.havt_read ∷ Register.havt_command_reset ∷ Register.havt_command_disable ∷ []

-- The register that a byte stands for, if any: the cases of a `switch` on it.
abbrev pub register_at : ℕ → Option Register
register_at address = get_elem? registers_in_order address

-- A `float[3]`, an `unsigned short[3]`.
pub record Vector {ℓ} (A : Type ℓ) : Type ℓ where
  pub x : A
  pub y : A
  pub z : A

abbrev pub map_vector {ℓ} : {A B : Type ℓ} → (A → B) → Vector A → Vector B
map_vector f v = record { x = f v.x; y = f v.y; z = f v.z }

pub record ReactionWheelRegisters (Float : Type 0) : Type 0 where
  pub mode : ℕ
  pub cmd : Vector Float
  pub cmd_flg : ℕ
  pub momentum_flt : Float
  pub ramp_flt : Float
  pub momentum_rd : Vector Float
  pub ramp_rd : Vector Float

pub record MagnetorquerRegisters (Float : Type 0) : Type 0 where
  pub mode : ℕ
  pub cmd : Vector Float
  pub moment_limit : Float
  pub cmd_flg : ℕ

pub record SunSensorRegisters (Float : Type 0) : Type 0 where
  pub mode : ℕ
  pub sun_vec_rd : Vector Float
  pub voltage_flt : Float
  pub voltage_rd : List Float

pub record ImuRegisters (Float : Type 0) : Type 0 where
  pub mag1_mode : ℕ
  pub mag1_rd : Vector Float
  pub mag2_mode : ℕ
  pub mag2_rd : Vector Float
  pub gyr_rd : Vector Float
  pub gyr_temp_rd : Float
  pub mag_flt : Float
  pub gyr_flt : Float
  pub gyr_temp_flt : Float
  pub gyr_temp_pwm : ℕ
  pub gyr_desired_temp : Float

pub record HavtRegisters : Type 0 where
  pub read_table : ℕ
  pub cmd_reset_table : ℕ
  pub cmd_reset_flg : ℕ
  pub cmd_disable_table : ℕ
  pub cmd_disable_flg : ℕ

-- The endianness byte, which nothing reads or writes, is left out.
pub record Registers (Float : Type 0) : Type 0 where
  pub who_am_i : ℕ
  pub mode : ℕ
  pub read_ptr : ℕ
  pub rwa : ReactionWheelRegisters Float
  pub mtr : MagnetorquerRegisters Float
  pub ssa : SunSensorRegisters Float
  pub imu : ImuRegisters Float
  pub havt : HavtRegisters

-- ADCSMode.
abbrev pub adcs_passive : ℕ
adcs_passive = 0

abbrev pub adcs_active : ℕ
adcs_active = 1

-- MTRMode.
abbrev pub mtr_disabled : ℕ
mtr_disabled = 0

abbrev pub mtr_enabled : ℕ
mtr_enabled = 1

-- RWAMode.
abbrev pub rwa_disabled : ℕ
rwa_disabled = 0

abbrev pub rwa_speed_ctrl : ℕ
rwa_speed_ctrl = 1

abbrev pub rwa_accel_ctrl : ℕ
rwa_accel_ctrl = 2

-- SSAMode.
abbrev pub ssa_failure : ℕ
ssa_failure = 0

abbrev pub ssa_in_progress : ℕ
ssa_in_progress = 1

abbrev pub ssa_complete : ℕ
ssa_complete = 2

-- IMUMAGMode.
abbrev pub imu_mag_normal : ℕ
imu_mag_normal = 0

abbrev pub imu_mag_calibrate : ℕ
imu_mag_calibrate = 1

-- CMDFlag.
abbrev pub outdated : ℕ
outdated = 0

abbrev pub updated : ℕ
updated = 1
