-- ===== src/Examples/Adcs/Values.antt =====
-- Concrete values for the attitude control system. Natural numbers, with a subtraction and a
-- negation that stop at 0, stand for floating-point numbers.
use flight_software.Base.{
  ℕ, ◌+◌, ◌-◌, ◌*◌, ◌/◌, ◌%◌, ◌<◌, Bool, true, false, some, ltb, leb, List, [], ◌∷◌, arith,
}
use flight_software.Modes.{AdcsState}
use flight_software.Floats.{FloatArith, CastLaws}
use flight_software.Fault
use flight_software.Adcs.Registers.{Registers, Vector}
use flight_software.Adcs.Bitset.{none_set}
use flight_software.Adcs.Commander.{AdcsFields}
use flight_software.Adcs.Wheels.{WheelSensors, WheelReads}
use flight_software.Adcs.Wheels.Actuate.{MaxonEc45, Wheels}
use flight_software.Adcs.Rods.{Magnetorquer}
use flight_software.Adcs.Havt.{DeviceOps}
use flight_software.Adcs.Monitor.{AdcsMonitor}
use flight_software.Adcs.SunSensors.{Converters}

instance abbrev pub nat_arith : FloatArith ℕ
nat_arith = record {
  decimal = λ m n. m;
  add = λ a b. a + b;
  sub = λ a b. a - b;
  times = λ a b. a * b;
  div = λ a b. a / b;
  neg = λ a. 0;
  less = ltb;
  at_least = λ a b. leb b a;
  not_a_number = 0;
  to_u8 = λ a. a % 256;
  to_u16 = λ a. a % 65536;
  to_int = λ a. (false, a);
}

pub byte_small : (x : ℕ) → x % 256 < 256
byte_small x = omega arith

pub word_small : (x : ℕ) → x % 65536 < 65536
word_small x = omega arith

instance abbrev pub nat_laws : CastLaws ℕ
nat_laws = record { to_u8-lt = byte_small; to_u16-lt = word_small }

-- A device is whether it is functional.
instance abbrev pub bool_device : DeviceOps Bool
bool_device = record { is_functional = λ b. b; reset = λ b. true; disable = λ b. false }

abbrev pub vector : ℕ → Vector ℕ
vector n = record { x = n; y = n + 1; z = n + 2 }

abbrev pub twenty : List ℕ
twenty = 1 ∷ 2 ∷ 3 ∷ 0 ∷ 0 ∷ 1 ∷ 2 ∷ 3 ∷ 0 ∷ 0 ∷ 1 ∷ 2 ∷ 3 ∷ 0 ∷ 0 ∷ 1 ∷ 2 ∷ 3 ∷ 0 ∷ 0 ∷ []

-- The ADCS computer in a mode, with a wheel command that waits or has been carried out.
abbrev pub registers : ℕ → ℕ → Registers ℕ
registers mode flg = record {
  who_am_i = 15;
  mode = mode;
  read_ptr = 0;
  rwa = record {
    mode = 1;
    cmd = vector 600;
    cmd_flg = flg;
    momentum_flt = 1;
    ramp_flt = 1;
    momentum_rd = vector 400;
    ramp_rd = vector 2;
  };
  mtr = record { mode = 1; cmd = vector 3; moment_limit = 9; cmd_flg = flg };
  ssa = record { mode = 2; sun_vec_rd = vector 0; voltage_flt = 1; voltage_rd = twenty };
  imu = record {
    mag1_mode = 0;
    mag1_rd = vector 1;
    mag2_mode = 0;
    mag2_rd = vector 1;
    gyr_rd = vector 3;
    gyr_temp_rd = 42;
    mag_flt = 1;
    gyr_flt = 1;
    gyr_temp_flt = 1;
    gyr_temp_pwm = 117;
    gyr_desired_temp = 20;
  };
  havt = record {
    read_table = 952;
    cmd_reset_table = 0;
    cmd_reset_flg = 0;
    cmd_disable_table = 0;
    cmd_disable_flg = 0;
  };
}

-- A reset of the first device and the disabling of the second.
abbrev pub fields : AdcsState → AdcsFields ℕ
fields state = record {
  adcs_state = state;
  rwa_mode = 0;
  rwa_speed_cmd = vector 0;
  rwa_torque_cmd = vector 0;
  rwa_speed_filter = 1;
  rwa_ramp_filter = 1;
  mtr_mode = 0;
  mtr_cmd = vector 0;
  mtr_limit = 5;
  ssa_mode = 2;
  ssa_voltage_filter = 1;
  mag1_mode = 0;
  mag2_mode = 0;
  imu_mag_filter = 1;
  imu_gyr_filter = 1;
  imu_gyr_temp_filter = 1;
  imu_gyr_temp_pwm = 255;
  imu_gyr_temp_desired = 20;
  havt_reset = true ∷ false ∷ false ∷ [];
  havt_disable = false ∷ true ∷ false ∷ [];
  pointer_rwa_torque_cmd = vector 7;
  pointer_mtr_cmd = vector 4;
}

abbrev pub sensors : WheelSensors ℕ
sensors = record { speed_rd = vector 400; ramp_rd = vector 2 }

abbrev pub reads : WheelReads
reads = record {
  speed = record { x = some (false, 10); y = some (false, 11); z = some (true, 12) };
  ramp = record { x = some (false, 1); y = some (false, 1); z = some (false, 1) };
}

abbrev pub rod : Magnetorquer
rod = record { functional = true; f_pwm = 4; r_pwm = 0 }

abbrev pub rods : Vector Magnetorquer
rods = record { x = rod; y = rod; z = rod }

abbrev pub wheel : Bool → MaxonEc45
wheel functional = record {
  functional = functional;
  axl_ramp = 0;
  speed = (false, 1000);
  cw_pin = false;
  ccw_pin = true;
  servo = 1500;
}

abbrev pub wheels : Wheels
wheels = record {
  wheels = record { x = wheel true; y = wheel true; z = wheel false };
  potentiometer = record { functional = true; rdac = vector 0 };
}

-- Two converters of four sensors, one of which is broken.
abbrev pub converters : Converters ℕ
converters = (true, 20 ∷ 21 ∷ 22 ∷ 23 ∷ []) ∷ (false, 30 ∷ 31 ∷ 32 ∷ 33 ∷ []) ∷ []

unfoldable pub monitor : AdcsMonitor ℕ
unfolding Fault.new none_set
monitor = record {
  adcs_is_functional = false;
  adcs_functional_fault = Fault.new 5;
  wheel1_adc_fault = Fault.new 5;
  wheel2_adc_fault = Fault.new 5;
  wheel3_adc_fault = Fault.new 5;
  wheel_pot_fault = Fault.new 5;
  rwa_speed_rd = vector 0;
  rwa_torque_rd = vector 0;
  ssa_mode = 0;
  ssa_vec = vector 0;
  ssa_voltages = twenty;
  mag1_vec = vector 0;
  mag2_vec = vector 0;
  gyr_vec = vector 0;
  gyr_temp = 0;
  havt_read = none_set 19;
  rwa_speed_rd_flag = false;
  rwa_torque_rd_flag = false;
  mag1_vec_flag = false;
  mag2_vec_flag = false;
  gyr_vec_flag = false;
  gyr_temp_flag = false;
}
