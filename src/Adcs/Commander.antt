-- ===== src/Adcs/Commander.antt =====
-- src/fsw/FCCode/ADCSCommander.cpp: the commands for the ADCS computer in each state of adcs.state.
use flight_software.Base.{ℕ, Bool, List}
use flight_software.Floats.{FloatArith}
use flight_software.Modes.{AdcsState}
use flight_software.Adcs.Convert.{max_moment}
use flight_software.Adcs.Registers.{
  Vector, rwa_disabled, rwa_accel_ctrl, mtr_disabled, mtr_enabled, imu_mag_normal,
}

-- adcs.state, the fields adcs_cmd.* and ssa_mode, and the outputs of the attitude computer.
pub record AdcsFields (Float : Type 0) : Type 0 where
  pub adcs_state : AdcsState
  pub rwa_mode : ℕ
  pub rwa_speed_cmd : Vector Float
  pub rwa_torque_cmd : Vector Float
  pub rwa_speed_filter : Float
  pub rwa_ramp_filter : Float
  pub mtr_mode : ℕ
  pub mtr_cmd : Vector Float
  pub mtr_limit : Float
  pub ssa_mode : ℕ
  pub ssa_voltage_filter : Float
  pub mag1_mode : ℕ
  pub mag2_mode : ℕ
  pub imu_mag_filter : Float
  pub imu_gyr_filter : Float
  pub imu_gyr_temp_filter : Float
  pub imu_gyr_temp_pwm : ℕ
  pub imu_gyr_temp_desired : Float
  pub havt_reset : List Bool
  pub havt_disable : List Bool
  pub pointer_rwa_torque_cmd : Vector Float
  pub pointer_mtr_cmd : Vector Float

module _ {Float : Type 0} ⦃o : FloatArith Float⦄ where
  unfoldable pub zero_vector : Vector Float
  zero_vector = record { x = o.decimal 0 0; y = o.decimal 0 0; z = o.decimal 0 0 }

  -- What the constructor sets; the table fields are one for each of the 19 devices.
  unfoldable pub set_defaults : AdcsFields Float → AdcsFields Float
  set_defaults f = record f {
    rwa_mode = rwa_disabled;
    rwa_speed_cmd = zero_vector;
    rwa_torque_cmd = zero_vector;
    rwa_speed_filter = o.decimal 1 0;
    rwa_ramp_filter = o.decimal 1 0;
    mtr_mode = mtr_disabled;
    mtr_cmd = zero_vector;
    mtr_limit = max_moment;
    ssa_voltage_filter = o.decimal 1 0;
    mag1_mode = imu_mag_normal;
    mag2_mode = imu_mag_normal;
    imu_mag_filter = o.decimal 1 0;
    imu_gyr_filter = o.decimal 1 0;
    imu_gyr_temp_filter = o.decimal 1 0;
    imu_gyr_temp_pwm = 255;
    imu_gyr_temp_desired = o.decimal 20 0;
  }

  -- The states `limited` and `detumble`.
  unfoldable pub command_rods : AdcsFields Float → AdcsFields Float
  command_rods f = record f {
    rwa_mode = rwa_disabled;
    rwa_torque_cmd = zero_vector;
    mtr_mode = mtr_enabled;
    mtr_cmd = f.pointer_mtr_cmd;
  }

  -- The three states of pointing.
  unfoldable pub command_pointing : AdcsFields Float → AdcsFields Float
  command_pointing f = record f {
    rwa_mode = rwa_accel_ctrl;
    rwa_torque_cmd = f.pointer_rwa_torque_cmd;
    mtr_mode = mtr_enabled;
    mtr_cmd = f.pointer_mtr_cmd;
  }

  unfoldable pub command_in : AdcsState → AdcsFields Float → AdcsFields Float
  command_in AdcsState.startup f = record f { rwa_torque_cmd = zero_vector; mtr_cmd = zero_vector }
  command_in AdcsState.manual f = f
  command_in AdcsState.limited f = command_rods f
  command_in AdcsState.detumble f = command_rods f
  command_in AdcsState.zero_torque f = record f {
    rwa_mode = rwa_accel_ctrl;
    rwa_torque_cmd = zero_vector;
    mtr_mode = mtr_disabled;
    mtr_cmd = zero_vector;
  }
  command_in AdcsState.zero_l f = record f {
    rwa_mode = rwa_disabled;
    rwa_speed_cmd = zero_vector;
    mtr_mode = mtr_enabled;
    mtr_cmd = f.pointer_mtr_cmd;
  }
  command_in AdcsState.point_manual f = command_pointing f
  command_in AdcsState.point_standby f = command_pointing f
  command_in AdcsState.point_docking f = command_pointing f
  -- The default case prints the state.
  command_in (AdcsState.undefined n) f = f

  unfoldable pub execute : AdcsFields Float → AdcsFields Float
  execute f = command_in f.adcs_state f
