-- ===== src/Adcs/Protocol/Effects.antt =====
-- Each call of src/fsw/FCCode/Drivers/ADCS.cpp has its specified effect on the registers of the ADCS
-- computer.
use flight_software.Base.{ℕ, ◌^◌, ◌<◌, ◌≡◌, refl, ap, subst, Bool, List, [], length, arith}
use flight_software.Floats.{FloatArith, CastLaws}
use flight_software.Adcs.Convert.{
  fp_u16, us, min_torque, max_torque, min_speed_command, max_speed_command, min_moment, max_moment,
}
use flight_software.Adcs.Registers.{Registers, Vector, map_vector, updated}
use flight_software.Adcs.Bitset.{to_ulong, to_ulong-lt}
use flight_software.Adcs.Receive
use flight_software.Adcs.Receive.{
  endian_read_u16, endian_read_u32, endian_read_vector, on_i2c_recieve, receive_all,
}
use flight_software.Adcs.Driver
use flight_software.Adcs.Driver.{split_u16, split_vector, split_u32, rwa_word}
use flight_software.Adcs.Protocol.{
  Command, IsSized, messages, effect, through_u8, through_u16, rwa_command,
}
use flight_software.Adcs.Protocol.Words.{
  read-split_u16, read-split_u32, read-split_vector, length-split_vector,
}

module _ {Float : Type 0} ⦃o : FloatArith Float⦄ ⦃laws : CastLaws Float⦄ where
  us-lt : (f min max : Float) → us f min max < 65536
  unfolding us
  us-lt f min max = laws.to_u16-lt _

  rwa_word-lt : (n : ℕ) (f : Float) → rwa_word n f < 65536
  unfolding rwa_word
  rwa_word-lt n f =
      ground (arith, us-lt f min_speed_command max_speed_command, us-lt f min_torque max_torque)

  module _ (absent : ℕ) (r : Registers Float) where
    -- The wheel command that is read is the one that was split.
    wheel_words :
        (n : ℕ) (v : Vector Float)
        → endian_read_vector absent (split_vector (map_vector (rwa_word n) v))
          ≡ (map_vector (rwa_word n) v, [])
    wheel_words n v =
        read-split_vector absent (map_vector (rwa_word n) v) (rwa_word-lt n v.x) (rwa_word-lt n v.y)
          (rwa_word-lt n v.z)

    receive-rwa_command :
        (n : ℕ) (v : Vector Float)
        → Receive.receive_rwa_command absent
            (split_vector (map_vector (rwa_word n) v))
            (record r { rwa = record r.rwa { mode = n } })
          ≡ effect (Command.rwa n v) r
    unfolding effect rwa_command through_u16 rwa_word Receive.receive_rwa_command
        Receive.store_rwa_command
    receive-rwa_command n v = rw (length-split_vector, wheel_words n v) (ground arith)

    receive-mtr_command :
        (v : Vector Float)
        → Receive.receive_mtr_command absent
            (split_vector (map_vector (λ f. us f min_moment max_moment) v))
            r
          ≡ effect (Command.mtr_cmd v) r
    unfolding effect through_u16 Receive.receive_mtr_limit Receive.receive_mtr_command
    receive-mtr_command v =
        rw
          (
            length-split_vector,
            read-split_vector absent (map_vector (λ f. us f min_moment max_moment) v)
                (us-lt v.x min_moment max_moment) (us-lt v.y min_moment max_moment)
                (us-lt v.z min_moment max_moment),
          )
          refl

    table-read :
        (table : List Bool)
        → length table ≡ 32
        → (endian_read_u32 absent (split_u32 (to_ulong table))).0 ≡ to_ulong table
    table-read table h =
        read-split_u32 absent (to_ulong table)
          (subst (λ (k : ℕ). to_ulong table < 2 ^ k) h (to_ulong-lt table))

    -- Each call of the driver, delivered to the ADCS computer, has exactly its specified effect on the
    -- registers: the messages that it sends set the register that it is named after, to the given
    -- byte or table, or to the number rounded to a byte or a word, mark a command as new, and change
    -- nothing else. A sun sensor mode is taken only when no calculation is in progress, and a wheel
    -- command only in a mode of speed or torque. A table has 32 bits.
    pub receive_all-messages :
        (c : Command Float) → IsSized c → receive_all absent (messages c) r ≡ effect c r
    unfolding receive_all messages effect on_i2c_recieve through_u8 through_u16 Receive.receive_at
        Receive.read Receive.receive_adcs_mode Receive.receive_read_pointer Receive.receive_rwa_mode
        Receive.receive_rwa_command Receive.receive_rwa_speed_filter Receive.receive_rwa_ramp_filter
        Receive.receive_mtr_mode Receive.receive_mtr_command Receive.receive_mtr_limit
        Receive.receive_ssa_mode Receive.receive_ssa_voltage_filter Receive.receive_imu_mag1_mode
        Receive.receive_imu_mag2_mode Receive.receive_imu_mag_filter Receive.receive_imu_gyr_filter
        Receive.receive_imu_gyr_temp_filter Receive.receive_imu_gyr_temp_pwm
        Receive.receive_imu_gyr_temp_desired Receive.receive_havt_command_reset
        Receive.receive_havt_command_disable split_u16 split_u32 Driver.set_mode Driver.set_read_ptr
        Driver.set_rwa_mode Driver.set_rwa_speed_filter Driver.set_ramp_filter Driver.set_mtr_mode
        Driver.set_mtr_cmd Driver.set_mtr_limit Driver.set_ssa_mode Driver.set_ssa_voltage_filter
        Driver.set_mag1_mode Driver.set_mag2_mode Driver.set_imu_mag_filter
        Driver.set_imu_gyr_filter Driver.set_imu_gyr_temp_filter Driver.set_imu_gyr_temp_pwm
        Driver.set_imu_gyr_temp_desired Driver.set_havt_reset Driver.set_havt_disable
    receive_all-messages (Command.rwa n v) h = receive-rwa_command n v
    receive_all-messages (Command.mtr_cmd v) h = receive-mtr_command v
    receive_all-messages (Command.mtr_limit f) h =
        ap
          (λ (t : ℕ × List ℕ). record r {
            mtr = record r.mtr {
              moment_limit = fp_u16 t.0 min_moment max_moment;
              cmd_flg = updated;
            };
          })
          (read-split_u16 absent (us f min_moment max_moment) [] (us-lt f min_moment max_moment))
    receive_all-messages (Command.havt_reset table) h =
        ap
          (λ (t : ℕ). record r {
            havt = record r.havt { cmd_reset_table = t; cmd_reset_flg = updated };
          })
          (table-read table h)
    receive_all-messages (Command.havt_disable table) h =
        ap
          (λ (t : ℕ). record r {
            havt = record r.havt { cmd_disable_table = t; cmd_disable_flg = updated };
          })
          (table-read table h)
    receive_all-messages (Command.mode n) h = refl
    receive_all-messages _ h = refl
