-- ===== src/PropController/Frame.antt =====
-- What the evaluation of a state leaves as it was, and guards that are asked twice.
use flight_software.Base.{ℕ, ◌-◌, ◌≡◌, arith, true}
use flight_software.Fault.Commands.{is_faulted-is_faulted}
use flight_software.Modes.{PropState}
use flight_software.Floats.{FloatOps}
use flight_software.PropController.State.{PropController}
use flight_software.PropController.Cycle.{
  Action, pressurize, vent, handle_out_of_cycles, handle_valve_is_open, start_cycle,
  select_valve_index, handle_valve_is_close, has_succeeded, tick, cycle, set_cycle, evaluate_cycle,
  evaluate_pressurizing,
}
use flight_software.PropController.Evaluate.{
  evaluate, evaluate_disabled, evaluate_idle, evaluate_await_pressurizing, write_tank2_schedule,
  evaluate_await_firing, evaluate_firing, evaluate_handling_fault, manual_eval, evaluate_manual,
}
use flight_software.PropController.Execute.{count_down, check_faults}
use flight_software.Propulsion.{
  reset, disable, open_valve, close_valve, set_schedule, Tank, tank1, tank2,
}
use flight_software.PropController.Guards.{can_enter_handling_fault, can_enter_venting}

-- What no `evaluate` does: it writes none of these fields, and does not start the interrupt.
pub record Kept {Float : Type 0} (s t : PropController Float) : Type 0 where
  pub same_state : t.prop_state ≡ s.prop_state
  pub same_countdown : t.cycles_until_firing ≡ s.cycles_until_firing
  pub same_valve1 : t.sched_valve1 ≡ s.sched_valve1
  pub same_valve2 : t.sched_valve2 ≡ s.sched_valve2
  pub same_valve3 : t.sched_valve3 ≡ s.sched_valve3
  pub same_valve4 : t.sched_valve4 ≡ s.sched_valve4
  pub same_firings : t.num_prop_firings ≡ s.num_prop_firings
  pub same_functional : t.propulsion.is_functional ≡ s.propulsion.is_functional
  -- The interrupt is not started.
  pub no_start : t.propulsion.is_interval_enabled ≡ true → s.propulsion.is_interval_enabled ≡ true

module _ {Float : Type 0} (s : PropController Float) where
  pub can_enter_handling_fault-Kept : Kept s (can_enter_handling_fault s).1
  unfolding can_enter_handling_fault
  can_enter_handling_fault-Kept = ground arith

  pub can_enter_handling_fault-propulsion : (can_enter_handling_fault s).1.propulsion ≡ s.propulsion
  unfolding can_enter_handling_fault
  can_enter_handling_fault-propulsion = ground arith

  pub can_enter_venting-Kept : Kept s (can_enter_venting s).1
  unfolding can_enter_venting
  can_enter_venting-Kept = ground arith

  pub can_enter_venting-propulsion : (can_enter_venting s).1.propulsion ≡ s.propulsion
  unfolding can_enter_venting
  can_enter_venting-propulsion = ground arith

  -- A guard has the same answer when it is asked again.
  pub can_enter_handling_fault_again :
      can_enter_handling_fault (can_enter_handling_fault s).1 ≡ can_enter_handling_fault s
  unfolding can_enter_handling_fault
  can_enter_handling_fault_again = ground (
    arith,
    is_faulted-is_faulted s.pressurize_fail,
    is_faulted-is_faulted s.overpressure,
    is_faulted-is_faulted s.tank2_temp_high,
    is_faulted-is_faulted s.tank1_temp_high,
  )

  pub can_enter_venting_again : can_enter_venting (can_enter_venting s).1 ≡ can_enter_venting s
  unfolding can_enter_venting
  can_enter_venting_again = ground (
    arith,
    is_faulted-is_faulted s.overpressure,
    is_faulted-is_faulted s.tank2_temp_high,
    is_faulted-is_faulted s.tank1_temp_high,
  )

module _ {Float : Type 0} ⦃o : FloatOps Float⦄ (cc : ℕ) (s : PropController Float) where
  pub handle_out_of_cycles-Kept : (a : Action) → Kept s (handle_out_of_cycles cc a s).1
  unfolding handle_out_of_cycles reset
  handle_out_of_cycles-Kept pressurize = ground arith
  handle_out_of_cycles-Kept vent = ground arith

  pub handle_valve_is_open-Kept : (a : Action) → Kept s (handle_valve_is_open a s).1
  unfolding handle_valve_is_open close_valve
  handle_valve_is_open-Kept pressurize = ground arith
  handle_valve_is_open-Kept vent = ground arith

  pub start_cycle-Kept : (a : Action) → Kept s (start_cycle a s).1
  unfolding start_cycle select_valve_index open_valve
  start_cycle-Kept pressurize = ground arith
  start_cycle-Kept vent = ground arith

  pub handle_valve_is_close-Kept : (a : Action) → Kept s (handle_valve_is_close cc a s).1
  unfolding handle_valve_is_close
  handle_valve_is_close-Kept pressurize =
      ground (arith, handle_out_of_cycles-Kept pressurize, start_cycle-Kept pressurize)
  handle_valve_is_close-Kept vent =
      ground (arith, handle_out_of_cycles-Kept vent, start_cycle-Kept vent)

  pub has_succeeded-Kept : (a : Action) → Kept s (has_succeeded a s).1
  unfolding has_succeeded
  has_succeeded-Kept pressurize = ground arith
  has_succeeded-Kept vent = ground arith

module _ {Float : Type 0} where
  close_valve-Kept :
      (t : Tank) (i : ℕ) (s : PropController Float)
      → Kept s (record s { propulsion = close_valve t i s.propulsion })
  unfolding close_valve
  close_valve-Kept tank1 i s = ground arith
  close_valve-Kept tank2 i s = ground arith

  reset-Kept : (s : PropController Float) → Kept s (record s { propulsion = reset s.propulsion })
  unfolding reset
  reset-Kept s = ground arith

  tick-Kept : (a : Action) (s : PropController Float) → Kept s (set_cycle a (tick (cycle a s)) s)
  tick-Kept pressurize s = ground arith
  tick-Kept vent s = ground arith

  Kept-trans : {s t u : PropController Float} → Kept s t → Kept t u → Kept s u
  Kept-trans h k = ground arith

module _ {Float : Type 0} ⦃o : FloatOps Float⦄ (cc : ℕ) where
  pub evaluate_cycle-Kept :
      (a : Action) (s : PropController Float) → Kept s (evaluate_cycle cc a s).1
  unfolding evaluate_cycle
  evaluate_cycle-Kept a s =
      let s₁ = set_cycle a (tick (cycle a s)) s in
      let s₂ = (has_succeeded a s₁).1 in
      let c = cycle a s₂ in
      Kept-trans (Kept-trans (tick-Kept a s) (has_succeeded-Kept cc s₁ a)) (
        ground (
          arith,
          close_valve-Kept c.p_tank c.cur_valve_index s₂,
          handle_valve_is_open-Kept cc s₂ a,
          handle_valve_is_close-Kept cc s₂ a,
        ))

  pub evaluate_pressurizing-Kept :
      (s : PropController Float) → Kept s (evaluate_pressurizing cc s).1
  unfolding evaluate_pressurizing
  evaluate_pressurizing-Kept s =
      let t = (can_enter_handling_fault s).1 in
      ground (
        arith,
        reset-Kept s,
        can_enter_handling_fault-Kept s,
        reset-Kept t,
        evaluate_cycle-Kept pressurize t,
      )

module _ {Float : Type 0} (s : PropController Float) where
  evaluate_waiting-Kept :
      Kept s (evaluate_disabled s).1
      × Kept s (evaluate_idle s).1
      × Kept s (evaluate_await_pressurizing s).1
  unfolding evaluate_disabled evaluate_idle evaluate_await_pressurizing
  evaluate_waiting-Kept = ground (arith, reset-Kept s, can_enter_handling_fault-Kept s)

  write_tank2_schedule-Kept : Kept s (write_tank2_schedule s).1
  unfolding write_tank2_schedule set_schedule
  write_tank2_schedule-Kept = ground arith

  disable-Kept : Kept s (record s { propulsion = disable s.propulsion })
  unfolding disable
  disable-Kept = ground arith

  manual_eval-Kept : (sched i : ℕ) (t : Tank) → Kept s (manual_eval sched t i s).1
  unfolding manual_eval open_valve
  manual_eval-Kept sched i tank1 = ground (arith, close_valve-Kept tank1 i s)
  manual_eval-Kept sched i tank2 = ground (arith, close_valve-Kept tank2 i s)

module _ {Float : Type 0} (s : PropController Float) where
  evaluate_firing_states-Kept :
      Kept s (evaluate_await_firing s).1
      × Kept s (evaluate_firing s).1
      × Kept s (evaluate_handling_fault s).1
  unfolding evaluate_await_firing evaluate_firing evaluate_handling_fault
  evaluate_firing_states-Kept =
      let t = (can_enter_handling_fault s).1 in
      let u = (can_enter_venting s).1 in
      ground (
        arith,
        can_enter_handling_fault-Kept s,
        write_tank2_schedule-Kept t,
        reset-Kept t,
        disable-Kept t,
        can_enter_venting-Kept s,
        can_enter_handling_fault-Kept u,
      )

  evaluate_manual-Kept : Kept s (evaluate_manual s).1
  unfolding evaluate_manual
  evaluate_manual-Kept = grind (arith, manual_eval-Kept)

module _ {Float : Type 0} ⦃o : FloatOps Float⦄ (cc : ℕ) where
  -- To evaluate a state writes none of these fields.
  pub evaluate-Kept : (st : PropState) (s : PropController Float) → Kept s (evaluate cc st s).1
  unfolding evaluate
  evaluate-Kept PropState.disabled s = (evaluate_waiting-Kept s).0
  evaluate-Kept PropState.idle s = (evaluate_waiting-Kept s).1
  evaluate-Kept PropState.await_pressurizing s = (evaluate_waiting-Kept s).2
  evaluate-Kept PropState.pressurizing s = evaluate_pressurizing-Kept cc s
  evaluate-Kept PropState.venting s = evaluate_cycle-Kept cc vent s
  evaluate-Kept PropState.firing s = (evaluate_firing_states-Kept s).1
  evaluate-Kept PropState.await_firing s = (evaluate_firing_states-Kept s).0
  evaluate-Kept PropState.handling_fault s = (evaluate_firing_states-Kept s).2
  evaluate-Kept PropState.manual s = evaluate_manual-Kept s
  evaluate-Kept (PropState.undefined n) s = (evaluate_waiting-Kept s).0

-- What happens before the state is evaluated.
pub record Prepared {Float : Type 0} (s t : PropController Float) : Type 0 where
  pub still_state : t.prop_state ≡ s.prop_state
  pub one_less : t.cycles_until_firing ≡ s.cycles_until_firing - 1
  pub still_firings : t.num_prop_firings ≡ s.num_prop_firings
  pub still_propulsion : t.propulsion ≡ s.propulsion

pub prepare-Prepared :
    {Float : Type 0} ⦃o : FloatOps Float⦄ (cc : ℕ) (s : PropController Float)
    → Prepared s (count_down (check_faults cc s))
unfolding count_down check_faults
prepare-Prepared cc s = ground arith
