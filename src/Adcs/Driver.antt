-- ===== src/Adcs/Driver.antt =====
-- src/fsw/FCCode/Drivers/ADCS.cpp, the flight computer's driver of the ADCS computer: the messages that
-- its calls send, and what its reads make of the bytes that come back.
use flight_software.Base.{
  ℕ, ◌+◌, ◌*◌, ◌/◌, ◌%◌, Bool, ◌==◌, if◌then◌else◌, List, [], ◌∷◌, ◌++◌, get_or,
}
use flight_software.Floats.{FloatArith}
use flight_software.Adcs.Convert.{
  uc, us, zero_f, one_f, min_torque, max_torque, min_speed_command, max_speed_command, min_moment,
  max_moment, min_eq_temp, max_eq_temp,
}
use flight_software.Adcs.Registers.{Register, address_of, Vector, map_vector}
use flight_software.Adcs.Bitset.{to_ulong}

-- I2CDevice::i2c_write_to_subaddr: one message.
abbrev pub write_to_subaddr : Register → List ℕ → List (List ℕ)
write_to_subaddr register bytes = (address_of register ∷ bytes) ∷ []

-- `cmd[2 * i] = comp; cmd[2 * i + 1] = comp >> 8;`
unfoldable pub split_u16 : ℕ → List ℕ
split_u16 comp = comp % 256 ∷ comp / 256 % 256 ∷ []

unfoldable pub split_vector : Vector ℕ → List ℕ
unfolding split_u16
split_vector v = split_u16 v.x ++ (split_u16 v.y ++ split_u16 v.z)

-- The four bytes of an `unsigned int`, and the `unsigned int` of four bytes.
unfoldable pub split_u32 : ℕ → List ℕ
split_u32 n = n % 256 ∷ n / 256 % 256 ∷ n / 65536 % 256 ∷ n / 16777216 % 256 ∷ []

unfoldable pub join_u32 : List ℕ → ℕ
join_u32 bytes =
    get_or bytes 0 0
    + 256 * get_or bytes 1 0
    + 65536 * get_or bytes 2 0
    + 16777216 * get_or bytes 3 0

-- `(readin[i + 1] << 8) | (0xFF & readin[i])`
unfoldable pub word_at : List ℕ → ℕ → ℕ
word_at readin i = get_or readin (i + 1) 0 * 256 + get_or readin i 0

-- The three words from an offset on.
unfoldable pub words_at : List ℕ → ℕ → Vector ℕ
unfolding word_at
words_at readin i = record {
  x = word_at readin i;
  y = word_at readin (i + 2);
  z = word_at readin (i + 4);
}

unfoldable pub set_mode : ℕ → List (List ℕ)
set_mode mode = write_to_subaddr Register.adcs_mode (mode ∷ [])

unfoldable pub set_read_ptr : ℕ → List (List ℕ)
set_read_ptr read_ptr = write_to_subaddr Register.read_pointer (read_ptr ∷ [])

unfoldable pub set_mtr_mode : ℕ → List (List ℕ)
set_mtr_mode mode = write_to_subaddr Register.mtr_mode (mode ∷ [])

unfoldable pub set_ssa_mode : ℕ → List (List ℕ)
set_ssa_mode mode = write_to_subaddr Register.ssa_mode (mode ∷ [])

unfoldable pub set_mag1_mode : ℕ → List (List ℕ)
set_mag1_mode mode = write_to_subaddr Register.imu_mag1_mode (mode ∷ [])

unfoldable pub set_mag2_mode : ℕ → List (List ℕ)
set_mag2_mode mode = write_to_subaddr Register.imu_mag2_mode (mode ∷ [])

unfoldable pub set_imu_gyr_temp_pwm : ℕ → List (List ℕ)
set_imu_gyr_temp_pwm pwm = write_to_subaddr Register.imu_gyr_temp_pwm (pwm ∷ [])

unfoldable pub set_havt_reset : List Bool → List (List ℕ)
unfolding split_u32
set_havt_reset table = write_to_subaddr Register.havt_command_reset (split_u32 (to_ulong table))

unfoldable pub set_havt_disable : List Bool → List (List ℕ)
unfolding split_u32
set_havt_disable table = write_to_subaddr Register.havt_command_disable (split_u32 (to_ulong table))

module _ {Float : Type 0} ⦃o : FloatArith Float⦄ where
  -- The word of one component of a wheel command: 0 in a mode that is neither speed nor torque.
  unfoldable pub rwa_word : ℕ → Float → ℕ
  rwa_word rwa_mode f =
      if rwa_mode == 1
      then us f min_speed_command max_speed_command
      else if rwa_mode == 2
      then us f min_torque max_torque
      else 0

  unfoldable pub set_rwa_mode : ℕ → Vector Float → List (List ℕ)
  unfolding split_vector
  set_rwa_mode rwa_mode rwa_cmd =
      write_to_subaddr Register.rwa_mode (rwa_mode ∷ [])
      ++ write_to_subaddr Register.rwa_command
          (split_vector (map_vector (rwa_word rwa_mode) rwa_cmd))

  unfoldable pub set_rwa_speed_filter : Float → List (List ℕ)
  set_rwa_speed_filter f = write_to_subaddr Register.rwa_speed_filter (uc f zero_f one_f ∷ [])

  unfoldable pub set_ramp_filter : Float → List (List ℕ)
  set_ramp_filter f = write_to_subaddr Register.rwa_ramp_filter (uc f zero_f one_f ∷ [])

  unfoldable pub set_mtr_cmd : Vector Float → List (List ℕ)
  unfolding split_vector
  set_mtr_cmd mtr_cmd =
      write_to_subaddr Register.mtr_command
        (split_vector (map_vector (λ f. us f min_moment max_moment) mtr_cmd))

  unfoldable pub set_mtr_limit : Float → List (List ℕ)
  unfolding split_u16
  set_mtr_limit mtr_limit =
      write_to_subaddr Register.mtr_limit (split_u16 (us mtr_limit min_moment max_moment))

  unfoldable pub set_ssa_voltage_filter : Float → List (List ℕ)
  set_ssa_voltage_filter f = write_to_subaddr Register.ssa_voltage_filter (uc f zero_f one_f ∷ [])

  unfoldable pub set_imu_mag_filter : Float → List (List ℕ)
  set_imu_mag_filter f = write_to_subaddr Register.imu_mag_filter (uc f zero_f one_f ∷ [])

  unfoldable pub set_imu_gyr_filter : Float → List (List ℕ)
  set_imu_gyr_filter f = write_to_subaddr Register.imu_gyr_filter (uc f zero_f one_f ∷ [])

  unfoldable pub set_imu_gyr_temp_filter : Float → List (List ℕ)
  set_imu_gyr_temp_filter f = write_to_subaddr Register.imu_gyr_temp_filter (uc f zero_f one_f ∷ [])

  unfoldable pub set_imu_gyr_temp_desired : Float → List (List ℕ)
  set_imu_gyr_temp_desired f =
      write_to_subaddr Register.imu_gyr_temp_desired (uc f min_eq_temp max_eq_temp ∷ [])
