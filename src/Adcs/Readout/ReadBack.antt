-- ===== src/Adcs/Readout/ReadBack.antt =====
-- What the reads of src/fsw/FCCode/Drivers/ADCS.cpp give of the registers of the ADCS computer.
use mathlib.Core.List.{map}
use flight_software.Base.{
  ℕ, zero, suc, ◌+◌, ◌*◌, ◌/◌, ◌%◌, ◌<◌, ◌≡◌, refl, ap, ◌∙◌, ◌==◌, List, [], ◌∷◌, length, arith,
}
use flight_software.Floats.{FloatArith, CastLaws}
use flight_software.Adcs.Convert.{
  us, one_f, min_speed_read, max_speed_read, min_ramp_rd, max_ramp_rd, min_voltage_rd,
  max_voltage_rd, min_mag1_rd_mag, max_mag1_rd_mag, min_mag2_rd_mag, max_mag2_rd_mag, min_rd_omega,
  max_rd_omega, min_rd_temp, max_rd_temp,
}
use flight_software.Adcs.Registers.{Register, address_of, Registers, map_vector}
use flight_software.Adcs.Bitset.{of_ulong}
use flight_software.Adcs.Driver.{set_read_ptr, word_at, words_at, join_u32}
use flight_software.Adcs.Receive
use flight_software.Adcs.Receive.{receive_all, on_i2c_recieve}
use flight_software.Adcs.Request.{
  endian_write_u16, endian_write_vector, endian_write_u32, write_scaled, request_at, on_i2c_request,
}
use flight_software.Adcs.Readout
use flight_software.Adcs.Readout.{ImuReadout, fill, i2c_point_and_read}
use flight_software.Adcs.Protocol.{through_u8, through_u16}

word-bytes : (n : ℕ) → n < 65536 → n / 256 % 256 * 256 + n % 256 ≡ n
word-bytes n h = omega arith

table-bytes :
    (n : ℕ)
    → n < 4294967296
    → n % 256 + 256 * (n / 256 % 256) + 65536 * (n / 65536 % 256) + 16777216 * (n / 16777216 % 256)
      ≡ n
table-bytes n h = omega arith

fill-length : (absent : ℕ) (n : ℕ) (bs : List ℕ) → length bs ≡ n → fill absent n bs ≡ bs
unfolding fill
fill-length absent zero [] h = refl
fill-length absent zero (b ∷ bs) h = ground arith
fill-length absent (suc n) [] h = ground arith
fill-length absent (suc n) (b ∷ bs) h = ap (λ t. b ∷ t) (fill-length absent n bs (omega arith))

length-map {ℓ} : {A B : Type ℓ} (f : A → B) (xs : List A) → length (map f xs) ≡ length xs
length-map f [] = refl
length-map f (x ∷ xs) = ap suc (length-map f xs)

map-map {ℓ} :
    {A B C : Type ℓ} (g : B → C) (f : A → B) (xs : List A)
    → map g (map f xs) ≡ map (λ x. g (f x)) xs
map-map g f [] = refl
map-map g f (x ∷ xs) = ap (λ t. g (f x) ∷ t) (map-map g f xs)

module _ {Float : Type 0} ⦃o : FloatArith Float⦄ ⦃laws : CastLaws Float⦄ where
  us_word : (f min max : Float) → us f min max / 256 % 256 * 256 + us f min max % 256 ≡ us f min max
  unfolding us
  us_word f min max = word-bytes _ (laws.to_u16-lt _)

  module _ (absent : ℕ) (r : Registers Float) where
    pub get_rwa_lem : Readout.get_rwa absent r ≡ (
      (
        map_vector (λ f. through_u16 f min_speed_read max_speed_read) r.rwa.momentum_rd,
        map_vector (λ f. through_u16 f min_ramp_rd max_ramp_rd) r.rwa.ramp_rd,
      ),
      record r { read_ptr = address_of Register.rwa_speed_rd },
    )
    unfolding Readout.get_rwa i2c_point_and_read fill on_i2c_request request_at write_scaled
        endian_write_vector endian_write_u16 receive_all on_i2c_recieve set_read_ptr
        Receive.receive_at Receive.receive_read_pointer Receive.read words_at word_at through_u16
    get_rwa_lem = simp us_word

    pub get_imu_lem : Readout.get_imu absent r ≡ (
      record {
        mag1_rd = map_vector (λ f. through_u16 f min_mag1_rd_mag max_mag1_rd_mag) r.imu.mag1_rd;
        mag2_rd = map_vector (λ f. through_u16 f min_mag2_rd_mag max_mag2_rd_mag) r.imu.mag2_rd;
        gyr_rd = map_vector (λ f. through_u16 f min_rd_omega max_rd_omega) r.imu.gyr_rd;
        gyr_temp_rd = through_u16 r.imu.gyr_temp_rd min_rd_temp max_rd_temp;
      },
      record r { read_ptr = address_of Register.imu_read },
    )
    unfolding Readout.get_imu i2c_point_and_read fill on_i2c_request request_at write_scaled
        endian_write_vector endian_write_u16 receive_all on_i2c_recieve set_read_ptr
        Receive.receive_at Receive.receive_read_pointer Receive.read words_at word_at through_u16
    get_imu_lem = simp us_word

    pub get_ssa_vector_lem : Readout.get_ssa_vector absent r ≡ (
      map_vector (λ f. through_u16 f (o.neg one_f) one_f) r.ssa.sun_vec_rd,
      record r { read_ptr = address_of Register.ssa_sun_vector },
    )
    unfolding Readout.get_ssa_vector i2c_point_and_read fill on_i2c_request request_at write_scaled
        endian_write_vector endian_write_u16 receive_all on_i2c_recieve set_read_ptr
        Receive.receive_at Receive.receive_read_pointer Receive.read words_at word_at through_u16
    get_ssa_vector_lem = simp us_word

    pub get_ssa_mode_lem :
        Readout.get_ssa_mode absent r
        ≡ (r.ssa.mode, record r { read_ptr = address_of Register.ssa_mode })
    unfolding Readout.get_ssa_mode i2c_point_and_read fill on_i2c_request request_at receive_all
        on_i2c_recieve set_read_ptr Receive.receive_at Receive.receive_read_pointer Receive.read
    get_ssa_mode_lem = refl

    pub i2c_ping_lem :
        Readout.i2c_ping absent r
        ≡ (r.who_am_i == 15, record r { read_ptr = address_of Register.who_am_i })
    unfolding Readout.i2c_ping Readout.get_who_am_i i2c_point_and_read fill on_i2c_request
        request_at receive_all on_i2c_recieve set_read_ptr Receive.receive_at
        Receive.receive_read_pointer Receive.read
    i2c_ping_lem = refl

    pub get_ssa_voltage_lem :
        length r.ssa.voltage_rd ≡ 20
        → Readout.get_ssa_voltage absent r ≡ (
          map (λ f. through_u8 f min_voltage_rd max_voltage_rd) r.ssa.voltage_rd,
          record r { read_ptr = address_of Register.ssa_voltage_read },
        )
    unfolding Readout.get_ssa_voltage i2c_point_and_read on_i2c_request request_at receive_all
        on_i2c_recieve set_read_ptr Receive.receive_at Receive.receive_read_pointer Receive.read
        through_u8
    get_ssa_voltage_lem h =
        rw (fill-length absent 20 _ (length-map _ r.ssa.voltage_rd ∙ h), map-map) refl

    pub get_havt_lem :
        r.havt.read_table < 4294967296
        → Readout.get_havt absent r
          ≡ (of_ulong 32 r.havt.read_table, record r { read_ptr = address_of Register.havt_read })
    unfolding Readout.get_havt i2c_point_and_read fill on_i2c_request request_at endian_write_u32
        receive_all on_i2c_recieve set_read_ptr Receive.receive_at Receive.receive_read_pointer
        Receive.read join_u32
    get_havt_lem h = rw (table-bytes r.havt.read_table h) refl
