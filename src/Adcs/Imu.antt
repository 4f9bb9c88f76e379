-- ===== src/Adcs/Imu.antt =====
-- The gyroscope and its heater: `update_gyr` of src/adcs/imu.cpp and src/adcs/dev/GyroHeaterTransistor.cpp.
-- `fix` is what the linear algebra library and src/adcs/imu_calibration.cpp make of the angular rates.
use flight_software.Base.{
  ℕ, ◌*◌, ◌≡◌, Bool, true, false, not, ◌&&◌, if◌then◌else◌, Option, none, some, arith,
}
use flight_software.Floats.{FloatArith}
use flight_software.Adcs.Convert.{min_rd_omega, max_rd_omega, min_rd_temp, max_rd_temp}
use flight_software.Adcs.Registers.{Vector, map_vector}
use flight_software.Adcs.Wheels.{of_int, zip_vector}

-- The values of a read, each an `int16_t`.
pub record GyrRead : Type 0 where
  pub omega : Vector (Bool × ℕ)
  pub temp : Bool × ℕ

-- The sensor in a pass: whether it is functional before and behind the read, and what it gives,
-- `none` when it is not ready or the read fails.
pub record GyrPass : Type 0 where
  pub functional_before : Bool
  pub functional_after : Bool
  pub result : Option GyrRead

pub record Gyroscope (Float : Type 0) : Type 0 where
  pub gyr_rd : Vector Float
  pub gyr_temp_rd : Float

pub record GyrHeater : Type 0 where
  pub functional : Bool
  pub pwm : ℕ

abbrev pub is_some {ℓ} : {A : Type ℓ} → Option A → Bool
is_some none = false
is_some (some x) = true

-- GyroHeaterTransistor::actuate, reset and disable.
unfoldable pub actuate : ℕ → GyrHeater → GyrHeater
actuate pwm h = record h { pwm = pwm }

unfoldable pub reset : GyrHeater → GyrHeater
reset h = record { functional = true; pwm = 0 }

unfoldable pub disable : GyrHeater → GyrHeater
disable h = record { functional = false; pwm = 0 }

module _ {Float : Type 0} ⦃o : FloatArith Float⦄ where
  -- `fp` of a `signed short`.
  unfoldable pub fp_s16 : Bool × ℕ → Float → Float → Float
  fp_s16 si min max =
      o.add min (
        o.div (o.times (o.add (of_int si) (o.decimal 32768 0)) (o.sub max min)) (o.decimal 65535 0))

  -- `rd + (new - rd) * flt`
  unfoldable pub filter : Float → Float → Float → Float
  filter flt rd new = o.add rd (o.times (o.sub new rd) flt)

  module _ (fix : Vector Float → Float → Vector Float) where
    unfoldable pub take_reading : Float → Float → GyrRead → Gyroscope Float → Gyroscope Float
    take_reading gyr_flt gyr_temp_flt read g =
        let temp = filter gyr_temp_flt g.gyr_temp_rd (fp_s16 read.temp min_rd_temp max_rd_temp) in
        record {
          gyr_rd =
              zip_vector (filter gyr_flt) g.gyr_rd
                (fix (map_vector (λ n. fp_s16 n min_rd_omega max_rd_omega) read.omega) temp);
          gyr_temp_rd = temp;
        }

    -- The part behind the label HEATER.
    unfoldable pub command_heater : Bool → Bool → Float → Float → ℕ → GyrHeater → GyrHeater
    command_heater gyr_functional took_reading temp target gyr_temp_pwm h =
        if not h.functional
        then actuate 0 h
        else if not gyr_functional
        then actuate 0 h
        else if took_reading
        then (if o.at_least temp target then actuate 0 h else actuate (gyr_temp_pwm * 128) h)
        else h

    unfoldable pub pass_with :
        Float
        → Float
        → Float
        → ℕ
        → Bool
        → Option GyrRead
        → Gyroscope Float
        → GyrHeater
        → Gyroscope Float × GyrHeater
    pass_with gyr_flt target gyr_temp_flt gyr_temp_pwm after none g h =
        (g, command_heater after false g.gyr_temp_rd target gyr_temp_pwm h)
    pass_with gyr_flt target gyr_temp_flt gyr_temp_pwm after (some read) g h =
        let g' = take_reading gyr_flt gyr_temp_flt read g in
        (g', command_heater after true g'.gyr_temp_rd target gyr_temp_pwm h)

    unfoldable pub update_gyr :
        Float
        → Float
        → Float
        → ℕ
        → GyrPass
        → Gyroscope Float
        → GyrHeater
        → Gyroscope Float × GyrHeater
    update_gyr gyr_flt target gyr_temp_flt gyr_temp_pwm pass g h =
        pass_with gyr_flt target gyr_temp_flt gyr_temp_pwm pass.functional_after
          (if pass.functional_before then pass.result else none) g h

    pass_with_heater :
        (gyr_flt target gyr_temp_flt : Float) (gyr_temp_pwm : ℕ) (after : Bool)
        (result : Option GyrRead) (g : Gyroscope Float) (h : GyrHeater)
        → let n = pass_with gyr_flt target gyr_temp_flt gyr_temp_pwm after result g h in
          n.1.pwm ≡ (
            if not (h.functional && after)
            then 0
            else if not (is_some result)
            then h.pwm
            else if o.at_least n.0.gyr_temp_rd target
            then 0
            else gyr_temp_pwm * 128)
    unfolding pass_with command_heater actuate
    pass_with_heater gyr_flt target gyr_temp_flt gyr_temp_pwm after none g h = ground arith
    pass_with_heater gyr_flt target gyr_temp_flt gyr_temp_pwm after (some read) g h = ground arith

    -- The heater after a pass: it is off if it or the gyroscope is not functional, whatever it was
    -- before; with a new reading it heats, at 128 times the duty cycle that is asked for, unless the
    -- filtered temperature has reached the target; and without a reading it stays as it was.
    update_gyr_heater :
        (gyr_flt target gyr_temp_flt : Float) (gyr_temp_pwm : ℕ) (pass : GyrPass)
        (g : Gyroscope Float) (h : GyrHeater)
        → let n = update_gyr gyr_flt target gyr_temp_flt gyr_temp_pwm pass g h in
          n.1.pwm ≡ (
            if not (h.functional && pass.functional_after)
            then 0
            else if not (is_some (if pass.functional_before then pass.result else none))
            then h.pwm
            else if o.at_least n.0.gyr_temp_rd target
            then 0
            else gyr_temp_pwm * 128)
    unfolding update_gyr
    update_gyr_heater gyr_flt target gyr_temp_flt gyr_temp_pwm pass g h =
        pass_with_heater gyr_flt target gyr_temp_flt gyr_temp_pwm pass.functional_after
          (if pass.functional_before then pass.result else none) g h
