-- ===== src/Adcs/Receive.antt =====
-- `on_i2c_recieve` of src/adcs/state_controller.cpp: what a message of the flight computer does to the
-- registers. A case without a `break` goes on with the next one and what is left of the message.
-- `absent` is the byte that the bus driver, a library, gives when the message has no more.
use flight_software.Base.{
  ℕ, ◌+◌, ◌*◌, none, some, List, [], ◌∷◌, ltb, ◌==◌, ◌||◌, if◌then◌else◌, length,
}
use flight_software.Floats.{FloatArith}
use flight_software.Adcs.Convert.{
  fp_u8, fp_u16, zero_f, one_f, min_torque, max_torque, min_speed_command, max_speed_command,
  min_moment, max_moment, min_eq_temp, max_eq_temp,
}
use flight_software.Adcs.Registers.{
  Register, register_at, Registers, Vector, map_vector, rwa_accel_ctrl, rwa_speed_ctrl,
  ssa_complete, ssa_failure, updated,
}

module _ (absent : ℕ) where
  -- `umb::wire->read()`: a byte, and what is left.
  unfoldable pub read : List ℕ → ℕ × List ℕ
  read [] = (absent, [])
  read (b ∷ bs) = (b, bs)

  -- `endian_read` of an `unsigned short`, of three and of an `unsigned int`, on a little-endian
  -- processor.
  unfoldable pub endian_read_u16 : List ℕ → ℕ × List ℕ
  unfolding read
  endian_read_u16 bs = let low = read bs in let high = read low.1 in (low.0 + 256 * high.0, high.1)

  unfoldable pub endian_read_vector : List ℕ → Vector ℕ × List ℕ
  unfolding endian_read_u16
  endian_read_vector bs =
      let t₀ = endian_read_u16 bs in
      let t₁ = endian_read_u16 t₀.1 in
      let t₂ = endian_read_u16 t₁.1 in (record { x = t₀.0; y = t₁.0; z = t₂.0 }, t₂.1)

  unfoldable pub endian_read_u32 : List ℕ → ℕ × List ℕ
  unfolding endian_read_u16
  endian_read_u32 bs =
      let low = endian_read_u16 bs in
      let high = endian_read_u16 low.1 in (low.0 + 65536 * high.0, high.1)

module _ {Float : Type 0} ⦃o : FloatArith Float⦄ (absent : ℕ) where
  -- READ_POINTER.
  unfoldable pub receive_read_pointer : List ℕ → Registers Float → Registers Float
  receive_read_pointer bs r =
      if ltb (length bs) 1 then r else record r { read_ptr = (read absent bs).0 }

  -- ADCS_MODE.
  unfoldable pub receive_adcs_mode : List ℕ → Registers Float → Registers Float
  receive_adcs_mode bs r =
      if ltb (length bs) 1
      then r
      else receive_read_pointer (read absent bs).1 (record r { mode = (read absent bs).0 })

  unfoldable pub store_rwa_command : Vector Float → Registers Float → Registers Float
  store_rwa_command f r = record r { rwa = record r.rwa { cmd = f; cmd_flg = updated } }

  -- RWA_COMMAND.
  unfoldable pub receive_rwa_command : List ℕ → Registers Float → Registers Float
  receive_rwa_command bs r =
      if ltb (length bs) 6
      then r
      else (let t = (endian_read_vector absent bs).0 in
          if r.rwa.mode == rwa_accel_ctrl
          then store_rwa_command (map_vector (λ n. fp_u16 n min_torque max_torque) t) r
          else if r.rwa.mode == rwa_speed_ctrl
          then store_rwa_command (map_vector (λ n. fp_u16 n min_speed_command max_speed_command) t)
              r
          else r)

  -- RWA_MODE.
  unfoldable pub receive_rwa_mode : List ℕ → Registers Float → Registers Float
  receive_rwa_mode bs r =
      if ltb (length bs) 1
      then r
      else receive_rwa_command (read absent bs).1
          (record r { rwa = record r.rwa { mode = (read absent bs).0 } })

  -- RWA_RAMP_FILTER.
  unfoldable pub receive_rwa_ramp_filter : List ℕ → Registers Float → Registers Float
  receive_rwa_ramp_filter bs r =
      if ltb (length bs) 1
      then r
      else record r { rwa = record r.rwa { ramp_flt = fp_u8 (read absent bs).0 zero_f one_f } }

  -- RWA_SPEED_FILTER.
  unfoldable pub receive_rwa_speed_filter : List ℕ → Registers Float → Registers Float
  receive_rwa_speed_filter bs r =
      if ltb (length bs) 1
      then r
      else receive_rwa_ramp_filter (read absent bs).1
          (record r { rwa = record r.rwa { momentum_flt = fp_u8 (read absent bs).0 zero_f one_f } })

  -- MTR_LIMIT, which asks for one byte and reads two.
  unfoldable pub receive_mtr_limit : List ℕ → Registers Float → Registers Float
  receive_mtr_limit bs r = if ltb (length bs) 1 then r else record r {
    mtr = record r.mtr {
      moment_limit = fp_u16 (endian_read_u16 absent bs).0 min_moment max_moment;
      cmd_flg = updated;
    };
  }

  -- MTR_COMMAND.
  unfoldable pub receive_mtr_command : List ℕ → Registers Float → Registers Float
  receive_mtr_command bs r =
      if ltb (length bs) 6
      then r
      else (let t = endian_read_vector absent bs in
          receive_mtr_limit t.1 (record r {
            mtr = record r.mtr {
              cmd = map_vector (λ n. fp_u16 n min_moment max_moment) t.0;
              cmd_flg = updated;
            };
          }))

  -- MTR_MODE.
  unfoldable pub receive_mtr_mode : List ℕ → Registers Float → Registers Float
  receive_mtr_mode bs r =
      if ltb (length bs) 1
      then r
      else receive_mtr_command (read absent bs).1
          (record r { mtr = record r.mtr { mode = (read absent bs).0 } })

  -- SSA_MODE.
  unfoldable pub receive_ssa_mode : List ℕ → Registers Float → Registers Float
  receive_ssa_mode bs r =
      if ltb (length bs) 1
      then r
      else (if (r.ssa.mode == ssa_complete) || (r.ssa.mode == ssa_failure)
          then record r { ssa = record r.ssa { mode = (read absent bs).0 } }
          else r)

  -- SSA_VOLTAGE_FILTER.
  unfoldable pub receive_ssa_voltage_filter : List ℕ → Registers Float → Registers Float
  receive_ssa_voltage_filter bs r =
      if ltb (length bs) 1
      then r
      else record r { ssa = record r.ssa { voltage_flt = fp_u8 (read absent bs).0 zero_f one_f } }

  -- IMU_MAG2_MODE.
  unfoldable pub receive_imu_mag2_mode : List ℕ → Registers Float → Registers Float
  receive_imu_mag2_mode bs r =
      if ltb (length bs) 1
      then r
      else record r { imu = record r.imu { mag2_mode = (read absent bs).0 } }

  -- IMU_MAG1_MODE.
  unfoldable pub receive_imu_mag1_mode : List ℕ → Registers Float → Registers Float
  receive_imu_mag1_mode bs r =
      if ltb (length bs) 1
      then r
      else receive_imu_mag2_mode (read absent bs).1
          (record r { imu = record r.imu { mag1_mode = (read absent bs).0 } })

  -- IMU_GYR_TEMP_FILTER.
  unfoldable pub receive_imu_gyr_temp_filter : List ℕ → Registers Float → Registers Float
  receive_imu_gyr_temp_filter bs r =
      if ltb (length bs) 1
      then r
      else record r { imu = record r.imu { gyr_temp_flt = fp_u8 (read absent bs).0 zero_f one_f } }

  -- IMU_GYR_FILTER.
  unfoldable pub receive_imu_gyr_filter : List ℕ → Registers Float → Registers Float
  receive_imu_gyr_filter bs r =
      if ltb (length bs) 1
      then r
      else receive_imu_gyr_temp_filter (read absent bs).1
          (record r { imu = record r.imu { gyr_flt = fp_u8 (read absent bs).0 zero_f one_f } })

  -- IMU_MAG_FILTER.
  unfoldable pub receive_imu_mag_filter : List ℕ → Registers Float → Registers Float
  receive_imu_mag_filter bs r =
      if ltb (length bs) 1
      then r
      else receive_imu_gyr_filter (read absent bs).1
          (record r { imu = record r.imu { mag_flt = fp_u8 (read absent bs).0 zero_f one_f } })

  -- IMU_GYR_TEMP_PWM.
  unfoldable pub receive_imu_gyr_temp_pwm : List ℕ → Registers Float → Registers Float
  receive_imu_gyr_temp_pwm bs r =
      if ltb (length bs) 1
      then r
      else record r { imu = record r.imu { gyr_temp_pwm = (read absent bs).0 } }

  -- IMU_GYR_TEMP_DESIRED.
  unfoldable pub receive_imu_gyr_temp_desired : List ℕ → Registers Float → Registers Float
  receive_imu_gyr_temp_desired bs r = if ltb (length bs) 1 then r else record r {
    imu = record r.imu { gyr_desired_temp = fp_u8 (read absent bs).0 min_eq_temp max_eq_temp };
  }

  -- HAVT_COMMAND_RESET, which asks for one byte and reads four.
  unfoldable pub receive_havt_command_reset : List ℕ → Registers Float → Registers Float
  receive_havt_command_reset bs r = if ltb (length bs) 1 then r else record r {
    havt = record r.havt {
      cmd_reset_table = (endian_read_u32 absent bs).0;
      cmd_reset_flg = updated;
    };
  }

  -- HAVT_COMMAND_DISABLE, which asks for one byte and reads four.
  unfoldable pub receive_havt_command_disable : List ℕ → Registers Float → Registers Float
  receive_havt_command_disable bs r = if ltb (length bs) 1 then r else record r {
    havt = record r.havt {
      cmd_disable_table = (endian_read_u32 absent bs).0;
      cmd_disable_flg = updated;
    };
  }

  -- The `switch`: the registers that it names, and its default.
  unfoldable pub receive_at : Register → List ℕ → Registers Float → Registers Float
  receive_at Register.adcs_mode bs r = receive_adcs_mode bs r
  receive_at Register.read_pointer bs r = receive_read_pointer bs r
  receive_at Register.rwa_mode bs r = receive_rwa_mode bs r
  receive_at Register.rwa_command bs r = receive_rwa_command bs r
  receive_at Register.rwa_speed_filter bs r = receive_rwa_speed_filter bs r
  receive_at Register.rwa_ramp_filter bs r = receive_rwa_ramp_filter bs r
  receive_at Register.mtr_mode bs r = receive_mtr_mode bs r
  receive_at Register.mtr_command bs r = receive_mtr_command bs r
  receive_at Register.mtr_limit bs r = receive_mtr_limit bs r
  receive_at Register.ssa_mode bs r = receive_ssa_mode bs r
  receive_at Register.ssa_voltage_filter bs r = receive_ssa_voltage_filter bs r
  receive_at Register.imu_mag1_mode bs r = receive_imu_mag1_mode bs r
  receive_at Register.imu_mag2_mode bs r = receive_imu_mag2_mode bs r
  receive_at Register.imu_mag_filter bs r = receive_imu_mag_filter bs r
  receive_at Register.imu_gyr_filter bs r = receive_imu_gyr_filter bs r
  receive_at Register.imu_gyr_temp_filter bs r = receive_imu_gyr_temp_filter bs r
  receive_at Register.imu_gyr_temp_pwm bs r = receive_imu_gyr_temp_pwm bs r
  receive_at Register.imu_gyr_temp_desired bs r = receive_imu_gyr_temp_desired bs r
  receive_at Register.havt_command_reset bs r = receive_havt_command_reset bs r
  receive_at Register.havt_command_disable bs r = receive_havt_command_disable bs r
  receive_at _ bs r = r

  unfoldable pub on_i2c_recieve : List ℕ → Registers Float → Registers Float
  on_i2c_recieve [] r = r
  on_i2c_recieve (address ∷ bs) r = elim (register_at address) [
    | none ↦ r
    | some register ↦ receive_at register bs r
  ]

  -- The messages of a sequence of calls, in their order.
  unfoldable pub receive_all : List (List ℕ) → Registers Float → Registers Float
  receive_all [] r = r
  receive_all (message ∷ messages) r = receive_all messages (on_i2c_recieve message r)
