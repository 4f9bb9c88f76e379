-- ===== src/PropController/Faults.antt =====
-- What the propulsion controller does on a fault, and when it is disabled.
use flight_software.Base.{ℕ, ◌≡◌, ◌∙◌, true, false, not, ◌||◌, ◌==◌, arith}
use flight_software.Modes.{PropState, same_prop}
use flight_software.Floats.{FloatOps}
use flight_software.Propulsion.{Propulsion, set_schedule, reset}
use flight_software.Propulsion.Schedule.{IsOff, reset-IsOff}
use flight_software.PropController.Frame.{
  can_enter_handling_fault_again, can_enter_handling_fault-Kept,
  can_enter_handling_fault-propulsion, prepare-Prepared,
}
use flight_software.PropController.Guards.{can_enter, can_enter_handling_fault}
use flight_software.PropController.State.{PropController, Readings, is_valid_schedule}
use flight_software.PropController.Evaluate.{evaluate, evaluate_disabled, evaluate_firing, enter}
use flight_software.PropController.Execute.{
  step, transition_to, execute, count_down, check_faults, read_sensors,
}

module _ {Float : Type 0} ⦃o : FloatOps Float⦄ (cc : ℕ) (r : Readings Float)
    (s : PropController Float) where
  -- A disabled controller stays disabled and keeps its driver off: no interrupt, every valve closed
  -- and an empty schedule.
  pub execute_disabled :
      s.prop_state ≡ PropState.disabled
      → let t = execute cc r s in (t.prop_state ≡ PropState.disabled) × IsOff t.propulsion
  unfolding execute read_sensors count_down check_faults step evaluate evaluate_disabled same_prop
  execute_disabled h = ground (arith, reset-IsOff s.propulsion)

module _ {Float : Type 0} (s : PropController Float) where
  -- A reset of the driver does not change the answer of the guard.
  can_enter_after_reset :
      let v = record s { propulsion = reset s.propulsion } in
      (can_enter_handling_fault v).0 ≡ (can_enter_handling_fault s).0
  unfolding can_enter_handling_fault reset
  can_enter_after_reset = ground arith

  guard_after_count_down :
      (can_enter_handling_fault (count_down s)).0 ≡ (can_enter_handling_fault s).0
  unfolding can_enter_handling_fault count_down
  guard_after_count_down = ground arith

module _ {Float : Type 0} ⦃o : FloatOps Float⦄ (cc : ℕ) (s : PropController Float) where
  step_firing_faulted :
      s.prop_state ≡ PropState.firing
      → (can_enter_handling_fault s).0 ≡ true
      → let t = (step cc s).1 in (t.prop_state ≡ PropState.handling_fault) × IsOff t.propulsion
  unfolding step evaluate evaluate_firing transition_to can_enter enter same_prop
  step_firing_faulted h k =
      let u = (can_enter_handling_fault s).1 in
      let v = record u { propulsion = reset u.propulsion } in
      ground (
        arith,
        can_enter_handling_fault_again s,
        can_enter_after_reset u,
        reset-IsOff u.propulsion,
        (can_enter_handling_fault-Kept s).same_state,
        (can_enter_handling_fault-Kept v).same_state,
        can_enter_handling_fault-propulsion v,
      )

-- A fault ends a firing: in the control cycle in which the guard of `handling_fault` says yes, the
-- faults of that cycle included, the controller goes to `handling_fault` and its driver is off: no
-- interrupt, every valve closed and an empty schedule.
pub execute_firing_faulted :
    {Float : Type 0} ⦃o : FloatOps Float⦄ (cc : ℕ) (r : Readings Float) (s : PropController Float)
    → s.prop_state ≡ PropState.firing
    → (can_enter_handling_fault (check_faults cc s)).0 ≡ true
    → let t = execute cc r s in (t.prop_state ≡ PropState.handling_fault) × IsOff t.propulsion
unfolding execute read_sensors
execute_firing_faulted cc r s h k =
    let s' = count_down (check_faults cc s) in
    step_firing_faulted cc s' ((prepare-Prepared cc s).still_state ∙ h)
      (guard_after_count_down (check_faults cc s) ∙ k)

-- A valid schedule is accepted by the idle driver exactly if no valve is to open for 1000 ms.
pub set_schedule_valid :
    (v1 v2 v3 v4 n : ℕ) (p : Propulsion)
    → is_valid_schedule v1 v2 v3 v4 n ≡ true
    → p.is_interval_enabled ≡ false
    → (set_schedule v1 v2 v3 v4 p).0
      ≡ not ((v1 == 1000) || (v2 == 1000) || (v3 == 1000) || (v4 == 1000))
unfolding is_valid_schedule set_schedule
set_schedule_valid v1 v2 v3 v4 n p h k = ground arith
