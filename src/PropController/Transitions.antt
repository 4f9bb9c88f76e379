-- ===== src/PropController/Transitions.antt =====
-- The transition diagram of the propulsion controller.
use flight_software.Base.{ℕ, ◌≡◌, refl, subst, ◌⊎◌, ◌||◌, if◌then◌else◌, arith}
use flight_software.Modes.{PropState, same_prop, same_prop→eq}
use flight_software.Floats.{FloatOps}
use flight_software.PropController.State.{PropController, Readings, when, pure}
use flight_software.PropController.Guards.{can_enter, can_enter_handling_fault}
use flight_software.PropController.Evaluate.{
  evaluate_await_firing, evaluate_firing, evaluate_handling_fault, evaluate_manual,
  evaluate_disabled, enter, enter_firing, evaluate, evaluate_idle, evaluate_await_pressurizing,
}
use flight_software.PropController.Execute.{
  transition_to, step, execute, read_sensors, count_down, check_faults,
}
use flight_software.PropController.Cycle.{
  evaluate_pressurizing, pressurize, vent, evaluate_cycle, handle_valve_is_open,
  handle_valve_is_close, handle_out_of_cycles, enter_venting, determine_faulted_tank,
}
use flight_software.PropController.Frame.{
  can_enter_handling_fault_again, can_enter_venting_again, evaluate-Kept, prepare-Prepared,
}

-- `a ⟶ b`: in one control cycle the state can go from `a` to `b`.
infix 4 ◌⟶◌
pub data ◌⟶◌ : PropState → PropState → Type 0 where
  stay : {a : PropState} → a ⟶ a
  accept : PropState.idle ⟶ PropState.await_pressurizing
  hurry : PropState.idle ⟶ PropState.pressurizing
  fill : PropState.await_pressurizing ⟶ PropState.pressurizing
  filled : PropState.pressurizing ⟶ PropState.await_firing
  too_late : PropState.pressurizing ⟶ PropState.idle
  fire : PropState.await_firing ⟶ PropState.firing
  fired : PropState.firing ⟶ PropState.idle
  fault_idle : PropState.idle ⟶ PropState.handling_fault
  fault_waiting : PropState.await_pressurizing ⟶ PropState.handling_fault
  fault_pressurizing : PropState.pressurizing ⟶ PropState.handling_fault
  fault_ready : PropState.await_firing ⟶ PropState.handling_fault
  fault_firing : PropState.firing ⟶ PropState.handling_fault
  cured : PropState.handling_fault ⟶ PropState.idle
  relieve : PropState.handling_fault ⟶ PropState.venting
  relieved : PropState.venting ⟶ PropState.idle
  next_tank : PropState.venting ⟶ PropState.handling_fault
  -- A successor that cannot be entered, a schedule that is no longer valid, or venting in vain.
  give_up_pressurizing : PropState.pressurizing ⟶ PropState.disabled
  give_up_ready : PropState.await_firing ⟶ PropState.disabled
  give_up_firing : PropState.firing ⟶ PropState.disabled
  give_up_fault : PropState.handling_fault ⟶ PropState.disabled
  give_up_venting : PropState.venting ⟶ PropState.disabled
  unknown : (n : ℕ) → PropState.undefined n ⟶ PropState.disabled

ruleset arrows = (
  stay, accept, hurry, fill, filled, too_late, fire, fired, fault_idle, fault_waiting,
  fault_pressurizing, fault_ready, fault_firing, cured, relieve, relieved, next_tank,
  give_up_pressurizing, give_up_ready, give_up_firing, give_up_fault, give_up_venting, unknown,
)

module _ {Float : Type 0} ⦃o : FloatOps Float⦄ (cc : ℕ) (s : PropController Float) where
  pressurize_next :
      let n = (evaluate_cycle cc pressurize s).0 in
      (n ≡ PropState.pressurizing)
      ⊎ (n ≡ PropState.await_firing)
      ⊎ (n ≡ PropState.handling_fault)
      ⊎ (n ≡ PropState.disabled)
  unfolding evaluate_cycle handle_valve_is_open handle_valve_is_close handle_out_of_cycles
  pressurize_next = ground arith

  vent_next :
      let n = (evaluate_cycle cc vent s).0 in
      (n ≡ PropState.venting)
      ⊎ (n ≡ PropState.idle)
      ⊎ (n ≡ PropState.handling_fault)
      ⊎ (n ≡ PropState.disabled)
  unfolding evaluate_cycle handle_valve_is_open handle_valve_is_close handle_out_of_cycles
  vent_next = ground arith

module _ {Float : Type 0} where
  pub enter-state :
      (s : PropController Float) (next : PropState) → (enter next s).1.prop_state ≡ s.prop_state
  unfolding enter enter_venting determine_faulted_tank enter_firing
  enter-state s PropState.venting = ground arith
  enter-state s PropState.disabled = refl
  enter-state s _ = refl

  -- A barred transition ends in `disabled`, any other where it leads.
  transition_to-state :
      (s : PropController Float) (next : PropState)
      → (transition_to next s).1.prop_state
        ≡ (if (can_enter next s).0 then next else PropState.disabled)
  unfolding transition_to
  transition_to-state s next =
      let t = (can_enter next s).1 in
      ground (arith, enter-state (record t { prop_state = next }) next)

  pub resolve-state :
      (next st : PropState) (t : PropController Float)
      → t.prop_state ≡ st
      → (when (same_prop next st) (pure tt) (transition_to next) t).1.prop_state
        ≡ (if same_prop next st || (can_enter next t).0 then next else PropState.disabled)
  resolve-state next st t h = ground (arith, transition_to-state t next, same_prop→eq next st)

module _ {Float : Type 0} ⦃o : FloatOps Float⦄ (cc : ℕ) (s : PropController Float) where
  -- The next state from what the current one evaluates to.
  pub step-state :
      (st : PropState)
      → s.prop_state ≡ st
      → let r = evaluate cc st s in
        (step cc s).1.prop_state
        ≡ (if same_prop r.0 st || (can_enter r.0 r.1).0 then r.0 else PropState.disabled)
  unfolding step
  step-state st h =
      let r = evaluate cc s.prop_state s in
      subst
        (λ (q : PropState).
          let r = evaluate cc q s in
          (step cc s).1.prop_state
          ≡ (if same_prop r.0 q || (can_enter r.0 r.1).0 then r.0 else PropState.disabled))
        h (resolve-state r.0 s.prop_state r.1 (evaluate-Kept cc s.prop_state s).same_state)

  pub step_from : (st : PropState) → s.prop_state ≡ st → st ⟶ (step cc s).1.prop_state
  unfolding evaluate evaluate_idle evaluate_disabled evaluate_await_pressurizing
      evaluate_pressurizing evaluate_await_firing evaluate_firing evaluate_handling_fault
      evaluate_manual same_prop can_enter
  step_from PropState.disabled h = grind (arith, step-state PropState.disabled h, arrows)
  step_from PropState.idle h =
      grind (arith, step-state PropState.idle h, can_enter_handling_fault_again s, arrows)
  step_from PropState.await_pressurizing h =
      grind
        (arith, step-state PropState.await_pressurizing h, can_enter_handling_fault_again s, arrows)
  step_from PropState.pressurizing h =
      let t = (can_enter_handling_fault s).1 in
      grind (arith, step-state PropState.pressurizing h, pressurize_next cc t, arrows)
  step_from PropState.venting h =
      grind (arith, step-state PropState.venting h, vent_next cc s, arrows)
  step_from PropState.firing h = grind (arith, step-state PropState.firing h, arrows)
  step_from PropState.await_firing h = grind (arith, step-state PropState.await_firing h, arrows)
  step_from PropState.handling_fault h =
      grind (arith, step-state PropState.handling_fault h, can_enter_venting_again s, arrows)
  step_from PropState.manual h = grind (arith, step-state PropState.manual h, arrows)
  step_from (PropState.undefined n) h =
      grind (arith, step-state (PropState.undefined n) h, unknown n)

-- In one control cycle the state follows an arrow of the diagram, whatever the sensors, the faults
-- and the ground's fields are.
pub execute-⟶ :
    {Float : Type 0} ⦃o : FloatOps Float⦄ (cc : ℕ) (r : Readings Float) (s : PropController Float)
    → s.prop_state ⟶ (execute cc r s).prop_state
unfolding execute read_sensors
execute-⟶ cc r s =
    let s' = count_down (check_faults cc s) in
    subst (λ (q : PropState). q ⟶ (step cc s').1.prop_state) (prepare-Prepared cc s).still_state
      (step_from cc s' s'.prop_state refl)
