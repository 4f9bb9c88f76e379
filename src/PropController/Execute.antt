-- ===== src/PropController/Execute.antt =====
-- One control cycle of the propulsion controller.
use flight_software.Base.{ℕ, ◌-◌, ltb, if◌then◌else◌}
use flight_software.Modes.{PropState, same_prop}
use flight_software.Fault
use flight_software.Floats.{FloatOps}
use flight_software.PropController.State.{
  PropController, Readings, M, pure, ◌>>=◌, ◌>>◌, get, modify, when, is_tank2_overpressured,
  is_tank2_temp_high, is_tank1_temp_high,
}
use flight_software.PropController.Guards.{can_enter}
use flight_software.PropController.Evaluate.{enter, evaluate}

module _ {Float : Type 0} where
  -- The transition to a state other than the current one: into `disabled` if it is barred.
  unfoldable pub transition_to : PropState → M Float (Unit {0})
  transition_to next = do
    allowed ← can_enter next
    when allowed (do modify (λ s. record s { prop_state = next }); enter next)
        (modify (λ s. record s { prop_state = PropState.disabled }))

  -- `if (cycles_until_firing.get() > 0)` it is decremented.
  unfoldable pub count_down : PropController Float → PropController Float
  count_down s =
      if ltb 0 s.cycles_until_firing
      then record s { cycles_until_firing = s.cycles_until_firing - 1 }
      else s

  -- `Tank2.get_pressure()` and the two `get_temp()`, stored at the end of the cycle.
  unfoldable pub read_sensors : Readings Float → PropController Float → PropController Float
  read_sensors r s = record s {
    tank2_pressure = r.pressure2;
    tank2_temp = r.temp2;
    tank1_temp = r.temp1;
  }

module _ {Float : Type 0} ⦃o : FloatOps Float⦄ where
  unfoldable pub check_faults : ℕ → PropController Float → PropController Float
  check_faults cc s = record s {
    overpressure = Fault.evaluate cc (is_tank2_overpressured s) s.overpressure;
    tank2_temp_high = Fault.evaluate cc (is_tank2_temp_high s) s.tank2_temp_high;
    tank1_temp_high = Fault.evaluate cc (is_tank1_temp_high s) s.tank1_temp_high;
  }

  -- The state machine's part of `execute`.
  unfoldable pub step : ℕ → M Float (Unit {0})
  step cc = do
    s ← get
    next ← evaluate cc s.prop_state
    when (same_prop next s.prop_state) (pure tt) (transition_to next)

  -- `execute` in control cycle `cc`, with what the sensors read in it.
  unfoldable pub execute : ℕ → Readings Float → PropController Float → PropController Float
  execute cc r s = read_sensors r (step cc (count_down (check_faults cc s))).1
