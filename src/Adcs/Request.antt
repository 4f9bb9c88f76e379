-- ===== src/Adcs/Request.antt =====
-- `on_i2c_request` of src/adcs/state_controller.cpp: the bytes that the ADCS computer sends when the
-- flight computer reads from the register that the read pointer names.
use flight_software.Base.{ℕ, ◌/◌, ◌%◌, none, some, List, [], ◌∷◌, ◌++◌}
use mathlib.Core.List.{map}
use flight_software.Floats.{FloatArith}
use flight_software.Adcs.Convert.{
  uc, us, one_f, min_speed_read, max_speed_read, min_ramp_rd, max_ramp_rd, min_voltage_rd,
  max_voltage_rd, min_mag1_rd_mag, max_mag1_rd_mag, min_mag2_rd_mag, max_mag2_rd_mag, min_rd_omega,
  max_rd_omega, min_rd_temp, max_rd_temp,
}
use flight_software.Adcs.Registers.{Register, register_at, Registers, Vector, map_vector}

-- `endian_write` of an `unsigned short`, of three and of an `unsigned int`.
unfoldable pub endian_write_u16 : ℕ → List ℕ
endian_write_u16 n = n % 256 ∷ n / 256 % 256 ∷ []

unfoldable pub endian_write_vector : Vector ℕ → List ℕ
unfolding endian_write_u16
endian_write_vector v = endian_write_u16 v.x ++ (endian_write_u16 v.y ++ endian_write_u16 v.z)

unfoldable pub endian_write_u32 : ℕ → List ℕ
endian_write_u32 n = n % 256 ∷ n / 256 % 256 ∷ n / 65536 % 256 ∷ n / 16777216 % 256 ∷ []

module _ {Float : Type 0} ⦃o : FloatArith Float⦄ where
  -- A `float[3]`, each component as an `unsigned short`.
  unfoldable pub write_scaled : Float → Float → Vector Float → List ℕ
  unfolding endian_write_vector
  write_scaled min max v = endian_write_vector (map_vector (λ f. us f min max) v)

  -- The `switch`: the registers that it names, and its default.
  unfoldable pub request_at : Register → Registers Float → List ℕ
  request_at Register.who_am_i r = r.who_am_i ∷ []
  request_at Register.rwa_speed_rd r =
      write_scaled min_speed_read max_speed_read r.rwa.momentum_rd
      ++ write_scaled min_ramp_rd max_ramp_rd r.rwa.ramp_rd
  request_at Register.ssa_mode r = r.ssa.mode ∷ []
  request_at Register.ssa_sun_vector r = write_scaled (o.neg one_f) one_f r.ssa.sun_vec_rd
  request_at Register.ssa_voltage_read r =
      map (λ f. uc f min_voltage_rd max_voltage_rd) r.ssa.voltage_rd
  request_at Register.imu_read r =
      write_scaled min_mag1_rd_mag max_mag1_rd_mag r.imu.mag1_rd
      ++ (write_scaled min_mag2_rd_mag max_mag2_rd_mag r.imu.mag2_rd
          ++ (write_scaled min_rd_omega max_rd_omega r.imu.gyr_rd
              ++ endian_write_u16 (us r.imu.gyr_temp_rd min_rd_temp max_rd_temp)))
  request_at Register.havt_read r = endian_write_u32 r.havt.read_table
  request_at _ r = []

  unfoldable pub on_i2c_request : Registers Float → List ℕ
  on_i2c_request r = elim (register_at r.read_ptr) [
    | none ↦ []
    | some register ↦ request_at register r
  ]
