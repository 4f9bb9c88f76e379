-- ===== src/Adcs/Wheels.antt =====
-- The sensors of the reaction wheels: `update_sensors` of src/adcs/rwa.cpp. A reading is what the
-- converter of a wheel gives, `none` when it is not functional or the read fails. The product with
-- the calibration matrix `rwa_to_body` is the linear algebra library's and a parameter.
pub mod Actuate
pub mod Pins
use flight_software.Base.{ℕ, ◌≡◌, refl, ap, ◌∙◌, Bool, if◌then◌else◌, Option, none, some}
use flight_software.Floats.{FloatArith}
use flight_software.Adcs.Convert.{one_f, max_speed_read, min_speed_read, max_ramp_rd, min_ramp_rd}
use flight_software.Adcs.Registers.{Vector, map_vector}

pub record WheelSensors (Float : Type 0) : Type 0 where
  pub speed_rd : Vector Float
  pub ramp_rd : Vector Float

-- The `int16_t` values, as a sign and a magnitude, that the two rounds of reads give.
pub record WheelReads : Type 0 where
  pub speed : Vector (Option (Bool × ℕ))
  pub ramp : Vector (Option (Bool × ℕ))

abbrev pub zip_vector : {A B C : Type 0} → (A → B → C) → Vector A → Vector B → Vector C
zip_vector f v w = record { x = f v.x w.x; y = f v.y w.y; z = f v.z w.z }

module _ {Float : Type 0} ⦃o : FloatArith Float⦄ where
  unfoldable pub of_int : Bool × ℕ → Float
  of_int n = if n.0 then o.neg (o.decimal n.1 0) else o.decimal n.1 0

  -- The value that is kept on an error, or `4.096f * ((float)val) / 2048.0f`.
  unfoldable pub to_volts : Float → Option (Bool × ℕ) → Float
  to_volts kept none = kept
  to_volts kept (some val) = o.div (o.times (o.decimal 4096 3) (of_int val)) (o.decimal 2048 0)

  unfoldable pub to_speed : Float → Float
  to_speed f =
      o.add (o.div (o.times (o.sub max_speed_read min_speed_read) f) (o.decimal 33 1))
        (o.times min_speed_read one_f)

  unfoldable pub to_torque : Float → Float
  to_torque f = o.add (o.div (o.times max_ramp_rd f) (o.decimal 33 1)) (o.times min_ramp_rd one_f)

  -- `rd + flt * (new - rd)`
  unfoldable pub filter_reading : Float → Float → Float → Float
  filter_reading flt rd new = o.add rd (o.times flt (o.sub new rd))

  module _ (rwa_to_body : Vector Float → Vector Float) where
    -- `ramp_flt` is not used: the ramp reading is filtered by `speed_flt` too.
    unfoldable pub update_sensors :
        Float → Float → WheelReads → WheelSensors Float → WheelSensors Float
    update_sensors speed_flt ramp_flt reads s =
        let speeds = map_vector to_speed (zip_vector to_volts s.speed_rd reads.speed) in
        let ramps = map_vector to_torque (zip_vector to_volts s.ramp_rd reads.ramp) in
        record {
          speed_rd = zip_vector (filter_reading speed_flt) s.speed_rd (rwa_to_body speeds);
          ramp_rd = zip_vector (filter_reading speed_flt) s.ramp_rd (rwa_to_body ramps);
        }
