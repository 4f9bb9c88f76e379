-- ===== src/Adcs/Wheels/Actuate.antt =====
-- `actuate` of src/adcs/rwa.cpp, with src/adcs/dev/MaxonEC45.cpp. The product with the calibration
-- matrix `body_to_rwa` is the linear algebra library's, and `write_rdac` is what the potentiometer's
-- I2C transfer makes of it: both are parameters. An `int` is a sign and a magnitude.
use flight_software.Base.{ℕ, Bool, true, false, not, ◌==◌, if◌then◌else◌}
use flight_software.Floats.{FloatArith}
use flight_software.Adcs.Convert.{uc, max_torque, max_speed_command}
use flight_software.Adcs.Registers.{Vector, map_vector, rwa_speed_ctrl, rwa_accel_ctrl}

-- A wheel's settings and its pins.
pub record MaxonEc45 : Type 0 where
  pub functional : Bool
  pub axl_ramp : ℕ
  pub speed : Bool × ℕ
  pub cw_pin : Bool
  pub ccw_pin : Bool
  pub servo : ℕ

-- The potentiometer AD5254, whose first three channels are the wheels' ramps.
pub record Potentiometer : Type 0 where
  pub functional : Bool
  pub rdac : Vector ℕ

pub record Wheels : Type 0 where
  pub wheels : Vector MaxonEc45
  pub potentiometer : Potentiometer

unfoldable pub stop : MaxonEc45 → MaxonEc45
stop w = record w { cw_pin = false; ccw_pin = false }

-- MaxonEC45::actuate but for the potentiometer's channel.
unfoldable pub actuate_pins : MaxonEc45 → MaxonEc45
actuate_pins w =
    if w.speed.0
    then record w { cw_pin = true; ccw_pin = false; servo = w.speed.1 }
    else record w { cw_pin = false; ccw_pin = true; servo = w.speed.1 }

-- MaxonEC45::reset and MaxonEC45::disable.
unfoldable pub reset : MaxonEc45 → MaxonEc45
unfolding stop
reset w = stop (record w { functional = true; axl_ramp = 0; speed = (false, 1000) })

unfoldable pub disable : MaxonEc45 → MaxonEc45
unfolding stop
disable w = stop (record w { functional = false; axl_ramp = 0; speed = (false, 1000) })

-- A functional wheel's channel, and the pins of a functional wheel.
unfoldable pub channel : MaxonEc45 → ℕ → ℕ
channel w rdac = if w.functional then w.axl_ramp else rdac

unfoldable pub drive : MaxonEc45 → MaxonEc45
drive w = if w.functional then actuate_pins w else w

unfoldable pub actuate_functional : Wheels → Wheels
actuate_functional s = record {
  wheels = map_vector drive s.wheels;
  potentiometer = record s.potentiometer {
    rdac = record {
      x = channel s.wheels.x s.potentiometer.rdac.x;
      y = channel s.wheels.y s.potentiometer.rdac.y;
      z = channel s.wheels.z s.potentiometer.rdac.z;
    };
  };
}

module _ {Float : Type 0} ⦃o : FloatArith Float⦄ where
  unfoldable pub set_acceleration : Float → MaxonEc45 → MaxonEc45
  set_acceleration cmd w =
      if o.at_least cmd (o.decimal 0 0)
      then record w { speed = (false, 2000); axl_ramp = uc cmd (o.decimal 0 0) max_torque }
      else record w { speed = (true, 2000); axl_ramp = uc (o.neg cmd) (o.decimal 0 0) max_torque }

  unfoldable pub set_speed : Float → MaxonEc45 → MaxonEc45
  set_speed cmd w =
      if w.functional
      then record w {
        axl_ramp = 255;
        speed =
            o.to_int
              (o.add (o.div (o.times (o.decimal 1000 0) cmd) max_speed_command) (o.decimal 1000 0));
      }
      else w

  -- The settings of the three wheels, each by its component.
  unfoldable pub set_wheels : (Float → MaxonEc45 → MaxonEc45) → Vector Float → Wheels → Wheels
  set_wheels f cmd s = record s {
    wheels = record { x = f cmd.x s.wheels.x; y = f cmd.y s.wheels.y; z = f cmd.z s.wheels.z };
  }

  module _ (body_to_rwa : Vector Float → Vector Float)
      (write_rdac : Potentiometer → Potentiometer) where
    unfoldable pub write : Wheels → Wheels
    write s = record s { potentiometer = write_rdac s.potentiometer }

    unfoldable pub actuate : ℕ → Vector Float → Wheels → Wheels
    actuate rwa_mode rwa_cmd s =
        let cmd = body_to_rwa rwa_cmd in
        let fast = actuate_functional (set_wheels set_speed cmd s) in
        if rwa_mode == rwa_accel_ctrl
        then (if not s.potentiometer.functional
            then s
            else write (actuate_functional (set_wheels set_acceleration cmd s)))
        else if rwa_mode == rwa_speed_ctrl
        then (if s.potentiometer.functional then write fast else fast)
        else record s { wheels = map_vector (λ w. if w.functional then stop w else w) s.wheels }
