-- ===== src/Adcs/Wheels/Pins.antt =====
-- What `actuate` of src/adcs/rwa.cpp may do to the pins of a reaction wheel.
use flight_software.Base.{
  ℕ, ◌≡◌, false, not, ◌&&◌, ◌==◌, if◌then◌else◌, Bool-cases, inl, inr, both_branches, arith,
}
use flight_software.Floats.{FloatArith}
use flight_software.Adcs.Registers.{Vector, rwa_speed_ctrl, rwa_accel_ctrl}
use flight_software.Adcs.Wheels.Actuate.{
  MaxonEc45, Potentiometer, Wheels, stop, actuate_pins, drive, set_acceleration, set_speed,
  set_wheels, actuate_functional, write, actuate,
}

-- It stays functional or not, its two direction pins are not both set if they were not, and if it
-- is not functional no pin changes.
abbrev pub Turned : MaxonEc45 → MaxonEc45 → Type 0
Turned w n =
    (n.functional ≡ w.functional)
    × ((n.cw_pin && n.ccw_pin && not (w.cw_pin && w.ccw_pin)) ≡ false)
    × ((if w.functional then w.cw_pin else n.cw_pin) ≡ w.cw_pin)
    × ((if w.functional then w.ccw_pin else n.ccw_pin) ≡ w.ccw_pin)
    × ((if w.functional then w.servo else n.servo) ≡ w.servo)

abbrev AllTurned : Wheels → Wheels → Type 0
AllTurned s n =
    Turned s.wheels.x n.wheels.x × Turned s.wheels.y n.wheels.y × Turned s.wheels.z n.wheels.z

stop-Turned : (w : MaxonEc45) → Turned w (if w.functional then stop w else w)
unfolding stop
stop-Turned w = ground arith

same-Turned : (w : MaxonEc45) → Turned w w
same-Turned w = ground arith

module _ {Float : Type 0} ⦃o : FloatArith Float⦄ where
  fast-Turned : (c : Float) (w : MaxonEc45) → Turned w (drive (set_speed c w))
  unfolding set_speed drive actuate_pins
  fast-Turned c w = ground arith

  torque-Turned : (c : Float) (w : MaxonEc45) → Turned w (drive (set_acceleration c w))
  unfolding set_acceleration drive actuate_pins
  torque-Turned c w = ground arith

  module _ (body_to_rwa : Vector Float → Vector Float)
      (write_rdac : Potentiometer → Potentiometer) where
    -- Whatever the mode, the command and the state: each wheel stays functional or not, never gets
    -- both its direction pins set if they were not, and keeps its direction pins and its servo's
    -- value if it is not functional. Its speed and ramp settings may be overwritten all the same.
    pub actuate-Turned :
        (rwa_mode : ℕ) (rwa_cmd : Vector Float) (s : Wheels)
        → let n = actuate body_to_rwa write_rdac rwa_mode rwa_cmd s in
          Turned s.wheels.x n.wheels.x × Turned s.wheels.y n.wheels.y × Turned s.wheels.z n.wheels.z
    unfolding actuate set_wheels actuate_functional write
    actuate-Turned rwa_mode rwa_cmd s = elim (Bool-cases (rwa_mode == rwa_accel_ctrl)) [
      | inl accel ↦ elim (Bool-cases s.potentiometer.functional) [
        | inl works ↦
            rw (accel, works)
              (
                torque-Turned (body_to_rwa rwa_cmd).x s.wheels.x,
                torque-Turned (body_to_rwa rwa_cmd).y s.wheels.y,
                torque-Turned (body_to_rwa rwa_cmd).z s.wheels.z,
              )
        | inr broken ↦
            rw (accel, broken)
              (same-Turned s.wheels.x, same-Turned s.wheels.y, same-Turned s.wheels.z)
      ]
      | inr other ↦ elim (Bool-cases (rwa_mode == rwa_speed_ctrl)) [
        | inl speed ↦
            rw (other, speed)
              (both_branches (λ (n : Wheels). AllTurned s n) s.potentiometer.functional turned
                turned)
        | inr off ↦
            rw (other, off) (stop-Turned s.wheels.x, stop-Turned s.wheels.y, stop-Turned s.wheels.z)
      ]
    ]
      where
        turned : AllTurned s (actuate_functional (set_wheels set_speed (body_to_rwa rwa_cmd) s))
        turned = (
          fast-Turned (body_to_rwa rwa_cmd).x s.wheels.x,
          fast-Turned (body_to_rwa rwa_cmd).y s.wheels.y,
          fast-Turned (body_to_rwa rwa_cmd).z s.wheels.z,
        )
