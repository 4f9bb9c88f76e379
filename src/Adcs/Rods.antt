-- ===== src/Adcs/Rods.antt =====
-- The magnetic torque rods: src/adcs/mtr.cpp and src/adcs/dev/Magnetorquer.cpp. The product with the
-- calibration matrix `body_to_mtr` is the linear algebra library's and a parameter.
use flight_software.Base.{
  ℕ, ◌≡◌, Bool, true, false, not, ◌+◌, ◌&&◌, ◌==◌, if◌then◌else◌, arith, inl, inr, Bool-cases,
}
use flight_software.Floats.{FloatArith}
use flight_software.Adcs.Convert.{max_moment}
use flight_software.Adcs.Registers.{Vector, map_vector, mtr_enabled}

-- A rod and what was written to its two pins.
pub record Magnetorquer : Type 0 where
  pub functional : Bool
  pub f_pwm : ℕ
  pub r_pwm : ℕ

-- Magnetorquer::actuate, of a sign and a magnitude.
unfoldable pub actuate_rod : Bool × ℕ → Magnetorquer → Magnetorquer
actuate_rod signed_pwm m =
    if signed_pwm.0
    then record m { f_pwm = 0; r_pwm = signed_pwm.1 }
    else record m { f_pwm = signed_pwm.1; r_pwm = 0 }

-- Magnetorquer::reset and Magnetorquer::disable.
unfoldable pub reset : Magnetorquer → Magnetorquer
unfolding actuate_rod
reset m = actuate_rod (false, 0) (record m { functional = true })

unfoldable pub disable : Magnetorquer → Magnetorquer
unfolding actuate_rod
disable m = actuate_rod (false, 0) (record m { functional = false })

-- What is done to a rod that is functional.
unfoldable pub when_functional : (Magnetorquer → Magnetorquer) → Magnetorquer → Magnetorquer
when_functional f m = if m.functional then f m else m

-- What becomes of a rod, by whether the rods are enabled and by the signed duty `p` that it is to
-- get: it is functional or not as before; if it is not, nothing changes; if it is and the rods are
-- disabled, both pins are off; and if they are enabled, one pin has the duty and the other is off.
abbrev pub Driven : Bool → Bool × ℕ → Magnetorquer → Magnetorquer → Type 0
Driven enabled p m n =
    (n.functional ≡ m.functional)
    × ((if m.functional then m else n) ≡ m)
    × ((if m.functional && not enabled then n.f_pwm + n.r_pwm else 0) ≡ 0)
    × ((if m.functional && enabled then n.f_pwm == (if p.0 then 0 else p.1) else true) ≡ true)
    × ((if m.functional && enabled then n.r_pwm == (if p.0 then p.1 else 0) else true) ≡ true)

drive-on : (p : Bool × ℕ) (m : Magnetorquer) → Driven true p m (when_functional (actuate_rod p) m)
unfolding when_functional actuate_rod
drive-on p m = ground arith

drive-off :
    (p : Bool × ℕ) (m : Magnetorquer)
    → Driven false p m (when_functional (actuate_rod (false, 0)) m)
unfolding when_functional actuate_rod
drive-off p m = ground arith

module _ {Float : Type 0} ⦃o : FloatArith Float⦄ where
  -- The second assignment of `cmd` starts again from the command that was given.
  unfoldable pub clamp : Float → Float → Float
  clamp mtr_lim f =
      let cmd = if o.less mtr_lim f then mtr_lim else f in
      let cmd' = if o.less f (o.neg mtr_lim) then o.neg mtr_lim else f in cmd'

  unfoldable pub pwm : Float → Bool × ℕ
  pwm cmd = o.to_int (o.div (o.times (o.decimal 32768 0) cmd) max_moment)

  -- The duty of a component of the calibrated command: it is limited below only.
  abbrev pub duty : Float → Float → Bool × ℕ
  duty mtr_lim f = pwm (if o.less f (o.neg mtr_lim) then o.neg mtr_lim else f)

  module _ (body_to_mtr : Vector Float → Vector Float) where
    unfoldable pub actuate : ℕ → Vector Float → Float → Vector Magnetorquer → Vector Magnetorquer
    actuate mtr_mode mtr_cmd mtr_lim mtrs =
        let cmd = body_to_mtr mtr_cmd in
        if not (mtr_mode == mtr_enabled)
        then map_vector (when_functional (actuate_rod (false, 0))) mtrs
        else record {
          x = when_functional (actuate_rod (pwm (clamp mtr_lim cmd.x))) mtrs.x;
          y = when_functional (actuate_rod (pwm (clamp mtr_lim cmd.y))) mtrs.y;
          z = when_functional (actuate_rod (pwm (clamp mtr_lim cmd.z))) mtrs.z;
        }

    -- Whatever the mode, the command and the limit, for each of the three rods: a rod that is not
    -- functional is left as it was; a functional rod stays so, and has both pins off in a mode other
    -- than enabled, and in that mode the duty of its component of the calibrated command on one pin
    -- and the other off. The duty is of the command as it is also above the limit; only below the
    -- limit's negative it is of that.
    pub actuate-Driven :
        (mtr_mode : ℕ) (mtr_cmd : Vector Float) (mtr_lim : Float) (mtrs : Vector Magnetorquer)
        → let n = actuate mtr_mode mtr_cmd mtr_lim mtrs in
          let cmd = body_to_mtr mtr_cmd in
          Driven (mtr_mode == mtr_enabled) (duty mtr_lim cmd.x) mtrs.x n.x
          × Driven (mtr_mode == mtr_enabled) (duty mtr_lim cmd.y) mtrs.y n.y
          × Driven (mtr_mode == mtr_enabled) (duty mtr_lim cmd.z) mtrs.z n.z
    unfolding actuate clamp
    actuate-Driven mtr_mode mtr_cmd mtr_lim mtrs = elim (Bool-cases (mtr_mode == mtr_enabled)) [
      | inl on ↦ rw on (drive-on _ mtrs.x, drive-on _ mtrs.y, drive-on _ mtrs.z)
      | inr off ↦ rw off (
        drive-off (duty mtr_lim (body_to_mtr mtr_cmd).x) mtrs.x,
        drive-off (duty mtr_lim (body_to_mtr mtr_cmd).y) mtrs.y,
        drive-off (duty mtr_lim (body_to_mtr mtr_cmd).z) mtrs.z,
      )
    ]
