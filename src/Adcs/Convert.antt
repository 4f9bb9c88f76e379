-- ===== src/Adcs/Convert.antt =====
-- src/adcs/utl/convert.inl, of which src/fsw/FCCode/Drivers/ADCS.cpp has a copy, and the bounds of
-- src/adcs/constants.hpp that it is used with.
use flight_software.Base.{ℕ}
use flight_software.Floats.{FloatArith}

module _ {Float : Type 0} ⦃o : FloatArith Float⦄ where
  -- `fp` of an `unsigned char` and of an `unsigned short`.
  unfoldable pub fp_u8 : ℕ → Float → Float → Float
  fp_u8 ui min max = o.add min (o.div (o.times (o.decimal ui 0) (o.sub max min)) (o.decimal 255 0))

  unfoldable pub fp_u16 : ℕ → Float → Float → Float
  fp_u16 ui min max =
      o.add min (o.div (o.times (o.decimal ui 0) (o.sub max min)) (o.decimal 65535 0))

  unfoldable pub uc : Float → Float → Float → ℕ
  uc f min max = o.to_u8 (o.div (o.times (o.decimal 255 0) (o.sub f min)) (o.sub max min))

  unfoldable pub us : Float → Float → Float → ℕ
  us f min max = o.to_u16 (o.div (o.times (o.decimal 65535 0) (o.sub f min)) (o.sub max min))

  unfoldable pub zero_f : Float
  zero_f = o.decimal 0 0

  unfoldable pub one_f : Float
  one_f = o.decimal 1 0

  unfoldable pub max_eq_temp : Float
  max_eq_temp = o.decimal 85 0

  unfoldable pub min_eq_temp : Float
  min_eq_temp = o.neg (o.decimal 40 0)

  unfoldable pub max_rd_temp : Float
  max_rd_temp = o.add (o.decimal 25 0) (o.decimal 128 0)

  unfoldable pub min_rd_temp : Float
  min_rd_temp = o.sub (o.decimal 25 0) (o.decimal 128 0)

  unfoldable pub max_rd_omega : Float
  max_rd_omega = o.times (o.decimal 125 0) (o.decimal 1745329251 11)

  unfoldable pub min_rd_omega : Float
  min_rd_omega = o.neg max_rd_omega

  unfoldable pub max_mag1_rd_mag : Float
  max_mag1_rd_mag = o.decimal 49152 7

  unfoldable pub min_mag1_rd_mag : Float
  min_mag1_rd_mag = o.neg max_mag1_rd_mag

  unfoldable pub max_mag2_rd_mag : Float
  max_mag2_rd_mag = o.decimal 16 4

  unfoldable pub min_mag2_rd_mag : Float
  min_mag2_rd_mag = o.neg max_mag2_rd_mag

  unfoldable pub max_moment : Float
  max_moment = o.div (o.decimal 113337 6) (o.decimal 2 0)

  unfoldable pub min_moment : Float
  min_moment = o.neg max_moment

  unfoldable pub max_torque : Float
  max_torque = o.times (o.decimal 3101852 4) (o.decimal 135 7)

  unfoldable pub min_torque : Float
  min_torque = o.neg max_torque

  unfoldable pub max_ramp_rd : Float
  max_ramp_rd = max_torque

  unfoldable pub min_ramp_rd : Float
  min_ramp_rd = o.decimal 0 0

  unfoldable pub max_speed_read : Float
  max_speed_read = o.decimal 104720 2

  unfoldable pub min_speed_read : Float
  min_speed_read = o.neg max_speed_read

  unfoldable pub max_speed_command : Float
  max_speed_command = o.decimal 680678 3

  unfoldable pub min_speed_command : Float
  min_speed_command = o.neg max_speed_command

  unfoldable pub min_voltage_rd : Float
  min_voltage_rd = o.decimal 0 0

  unfoldable pub max_voltage_rd : Float
  max_voltage_rd = o.decimal 33 1
