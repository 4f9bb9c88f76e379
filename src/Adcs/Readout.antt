-- ===== src/Adcs/Readout.antt =====
-- The reads of src/fsw/FCCode/Drivers/ADCS.cpp: a message sets the read pointer, and the ADCS computer
-- answers from the register that it names. `absent` is the byte that a bus driver, a library, gives
-- when there are no more.
pub mod ReadBack
use flight_software.Base.{ℕ, zero, suc, ◌+◌, Bool, ◌==◌, List, [], ◌∷◌, get_or}
use mathlib.Core.List.{map}
use flight_software.Floats.{FloatArith}
use flight_software.Adcs.Convert.{
  fp_u8, fp_u16, one_f, min_speed_read, max_speed_read, min_ramp_rd, max_ramp_rd, min_voltage_rd,
  max_voltage_rd, min_mag1_rd_mag, max_mag1_rd_mag, min_mag2_rd_mag, max_mag2_rd_mag, min_rd_omega,
  max_rd_omega, min_rd_temp, max_rd_temp,
}
use flight_software.Adcs.Registers.{Register, address_of, Registers, Vector, map_vector}
use flight_software.Adcs.Bitset.{of_ulong}
use flight_software.Adcs.Driver.{set_read_ptr, word_at, words_at, join_u32}
use flight_software.Adcs.Receive.{receive_all}
use flight_software.Adcs.Request.{on_i2c_request}

-- As many bytes as were asked for.
unfoldable pub fill : ℕ → ℕ → List ℕ → List ℕ
fill absent zero bytes = []
fill absent (suc n) [] = absent ∷ fill absent n []
fill absent (suc n) (b ∷ bytes) = b ∷ fill absent n bytes

pub record ImuReadout (Float : Type 0) : Type 0 where
  pub mag1_rd : Vector Float
  pub mag2_rd : Vector Float
  pub gyr_rd : Vector Float
  pub gyr_temp_rd : Float

module _ {Float : Type 0} ⦃o : FloatArith Float⦄ (absent : ℕ) where
  unfoldable pub i2c_point_and_read : Register → ℕ → Registers Float → List ℕ × Registers Float
  i2c_point_and_read register len r =
      let r' = receive_all absent (set_read_ptr (address_of register)) r in
      (fill absent len (on_i2c_request r'), r')

  unfoldable pub get_who_am_i : Registers Float → ℕ × Registers Float
  get_who_am_i r = let t = i2c_point_and_read Register.who_am_i 1 r in (get_or t.0 0 0, t.1)

  -- WHO_AM_I_EXPECTED is 15.
  unfoldable pub i2c_ping : Registers Float → Bool × Registers Float
  i2c_ping r = let t = get_who_am_i r in (t.0 == 15, t.1)

  unfoldable pub get_rwa : Registers Float → (Vector Float × Vector Float) × Registers Float
  get_rwa r =
      let t = i2c_point_and_read Register.rwa_speed_rd 12 r in
      (
        (
          map_vector (λ c. fp_u16 c min_speed_read max_speed_read) (words_at t.0 0),
          map_vector (λ c. fp_u16 c min_ramp_rd max_ramp_rd) (words_at t.0 6),
        ),
        t.1,
      )

  unfoldable pub get_imu : Registers Float → ImuReadout Float × Registers Float
  get_imu r =
      let t = i2c_point_and_read Register.imu_read 20 r in
      (
        record {
          mag1_rd = map_vector (λ c. fp_u16 c min_mag1_rd_mag max_mag1_rd_mag) (words_at t.0 0);
          mag2_rd = map_vector (λ c. fp_u16 c min_mag2_rd_mag max_mag2_rd_mag) (words_at t.0 6);
          gyr_rd = map_vector (λ c. fp_u16 c min_rd_omega max_rd_omega) (words_at t.0 12);
          gyr_temp_rd = fp_u16 (word_at t.0 18) min_rd_temp max_rd_temp;
        },
        t.1,
      )

  unfoldable pub get_ssa_mode : Registers Float → ℕ × Registers Float
  get_ssa_mode r = let t = i2c_point_and_read Register.ssa_mode 1 r in (get_or t.0 0 0, t.1)

  unfoldable pub get_ssa_vector : Registers Float → Vector Float × Registers Float
  get_ssa_vector r =
      let t = i2c_point_and_read Register.ssa_sun_vector 6 r in
      (map_vector (λ c. fp_u16 c (o.neg one_f) one_f) (words_at t.0 0), t.1)

  unfoldable pub get_ssa_voltage : Registers Float → List Float × Registers Float
  get_ssa_voltage r =
      let t = i2c_point_and_read Register.ssa_voltage_read 20 r in
      (map (λ c. fp_u8 c min_voltage_rd max_voltage_rd) t.0, t.1)

  unfoldable pub get_havt : Registers Float → List Bool × Registers Float
  get_havt r =
      let t = i2c_point_and_read Register.havt_read 4 r in (of_ulong 32 (join_u32 t.0), t.1)
