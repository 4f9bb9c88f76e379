-- ===== src/Adcs/Protocol.antt =====
-- What the calls of src/fsw/FCCode/Drivers/ADCS.cpp do to the registers of the ADCS computer, through
-- the messages that they send and `on_i2c_recieve` of src/adcs/state_controller.cpp.
pub mod Words
pub mod Effects
use flight_software.Base.{
  ℕ, ◌+◌, ◌*◌, ◌/◌, ◌%◌, ◌<◌, ◌≡◌, refl, ap, subst, Bool, true, false, ◌||◌, ◌==◌, if◌then◌else◌,
  inl, inr, Bool-cases, List, [], ◌∷◌, ◌++◌, length, arith,
}
use flight_software.Floats.{FloatArith, CastLaws}
use flight_software.Adcs.Convert.{
  fp_u8, fp_u16, uc, us, zero_f, one_f, min_torque, max_torque, min_speed_command,
  max_speed_command, min_moment, max_moment, min_eq_temp, max_eq_temp,
}
use flight_software.Adcs.Registers.{
  Register, Registers, Vector, map_vector, ssa_complete, ssa_failure, updated, rwa_speed_ctrl,
  rwa_accel_ctrl,
}
use flight_software.Adcs.Bitset.{to_ulong, to_ulong-lt}
use flight_software.Adcs.Receive
use flight_software.Adcs.Receive.{
  endian_read_u16, endian_read_u32, endian_read_vector, on_i2c_recieve, receive_all,
}
use flight_software.Adcs.Driver
use flight_software.Adcs.Driver.{split_u16, split_vector, split_u32, rwa_word}

-- A call of the driver.
pub data Command (Float : Type 0) : Type 0 where
  mode read_ptr mtr_mode ssa_mode mag1_mode mag2_mode gyr_temp_pwm : ℕ → Command Float
  rwa : ℕ → Vector Float → Command Float
  mtr_cmd : Vector Float → Command Float
  speed_filter ramp_filter mtr_limit voltage_filter mag_filter : Float → Command Float
  gyr_filter gyr_temp_filter gyr_temp_desired : Float → Command Float
  havt_reset havt_disable : List Bool → Command Float

-- A `std::bitset` of `max_devices` bits.
abbrev pub IsSized : {Float : Type 0} → Command Float → Type 0
IsSized (Command.havt_reset table) = length table ≡ 32
IsSized (Command.havt_disable table) = length table ≡ 32
IsSized (Command.mode _) = Unit {0}
IsSized _ = Unit {0}

module _ {Float : Type 0} ⦃o : FloatArith Float⦄ where
  unfoldable pub messages : Command Float → List (List ℕ)
  messages (Command.mode n) = Driver.set_mode n
  messages (Command.read_ptr n) = Driver.set_read_ptr n
  messages (Command.mtr_mode n) = Driver.set_mtr_mode n
  messages (Command.ssa_mode n) = Driver.set_ssa_mode n
  messages (Command.mag1_mode n) = Driver.set_mag1_mode n
  messages (Command.mag2_mode n) = Driver.set_mag2_mode n
  messages (Command.gyr_temp_pwm n) = Driver.set_imu_gyr_temp_pwm n
  messages (Command.rwa n v) = Driver.set_rwa_mode n v
  messages (Command.mtr_cmd v) = Driver.set_mtr_cmd v
  messages (Command.speed_filter f) = Driver.set_rwa_speed_filter f
  messages (Command.ramp_filter f) = Driver.set_ramp_filter f
  messages (Command.mtr_limit f) = Driver.set_mtr_limit f
  messages (Command.voltage_filter f) = Driver.set_ssa_voltage_filter f
  messages (Command.mag_filter f) = Driver.set_imu_mag_filter f
  messages (Command.gyr_filter f) = Driver.set_imu_gyr_filter f
  messages (Command.gyr_temp_filter f) = Driver.set_imu_gyr_temp_filter f
  messages (Command.gyr_temp_desired f) = Driver.set_imu_gyr_temp_desired f
  messages (Command.havt_reset table) = Driver.set_havt_reset table
  messages (Command.havt_disable table) = Driver.set_havt_disable table

  -- A value after its way through a byte, and through two.
  unfoldable pub through_u8 : Float → Float → Float → Float
  through_u8 f min max = fp_u8 (uc f min max) min max

  unfoldable pub through_u16 : Float → Float → Float → Float
  through_u16 f min max = fp_u16 (us f min max) min max

  -- The wheel command that a mode makes of the one that was given, and of the one that was stored.
  unfoldable pub rwa_command : ℕ → Vector Float → Vector Float → Vector Float
  rwa_command n v old =
      if n == rwa_speed_ctrl
      then map_vector (λ f. through_u16 f min_speed_command max_speed_command) v
      else if n == rwa_accel_ctrl
      then map_vector (λ f. through_u16 f min_torque max_torque) v
      else old

  -- The specification: the registers that a call is to set.
  unfoldable pub effect : Command Float → Registers Float → Registers Float
  effect (Command.mode n) r = record r { mode = n }
  effect (Command.read_ptr n) r = record r { read_ptr = n }
  effect (Command.mtr_mode n) r = record r { mtr = record r.mtr { mode = n } }
  effect (Command.ssa_mode n) r =
      if (r.ssa.mode == ssa_complete) || (r.ssa.mode == ssa_failure)
      then record r { ssa = record r.ssa { mode = n } }
      else r
  effect (Command.mag1_mode n) r = record r { imu = record r.imu { mag1_mode = n } }
  effect (Command.mag2_mode n) r = record r { imu = record r.imu { mag2_mode = n } }
  effect (Command.gyr_temp_pwm n) r = record r { imu = record r.imu { gyr_temp_pwm = n } }
  effect (Command.rwa n v) r = record r {
    rwa = record r.rwa {
      mode = n;
      cmd = rwa_command n v r.rwa.cmd;
      cmd_flg = if (n == rwa_speed_ctrl) || (n == rwa_accel_ctrl) then updated else r.rwa.cmd_flg;
    };
  }
  effect (Command.mtr_cmd v) r = record r {
    mtr = record r.mtr {
      cmd = map_vector (λ f. through_u16 f min_moment max_moment) v;
      cmd_flg = updated;
    };
  }
  effect (Command.speed_filter f) r = record r {
    rwa = record r.rwa { momentum_flt = through_u8 f zero_f one_f };
  }
  effect (Command.ramp_filter f) r = record r {
    rwa = record r.rwa { ramp_flt = through_u8 f zero_f one_f };
  }
  effect (Command.mtr_limit f) r = record r {
    mtr = record r.mtr { moment_limit = through_u16 f min_moment max_moment; cmd_flg = updated };
  }
  effect (Command.voltage_filter f) r = record r {
    ssa = record r.ssa { voltage_flt = through_u8 f zero_f one_f };
  }
  effect (Command.mag_filter f) r = record r {
    imu = record r.imu { mag_flt = through_u8 f zero_f one_f };
  }
  effect (Command.gyr_filter f) r = record r {
    imu = record r.imu { gyr_flt = through_u8 f zero_f one_f };
  }
  effect (Command.gyr_temp_filter f) r = record r {
    imu = record r.imu { gyr_temp_flt = through_u8 f zero_f one_f };
  }
  effect (Command.gyr_temp_desired f) r = record r {
    imu = record r.imu { gyr_desired_temp = through_u8 f min_eq_temp max_eq_temp };
  }
  effect (Command.havt_reset table) r = record r {
    havt = record r.havt { cmd_reset_table = to_ulong table; cmd_reset_flg = updated };
  }
  effect (Command.havt_disable table) r = record r {
    havt = record r.havt { cmd_disable_table = to_ulong table; cmd_disable_flg = updated };
  }
