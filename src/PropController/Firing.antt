-- ===== src/PropController/Firing.antt =====
-- When the propulsion controller fires.
use flight_software.Base.{ℕ, ◌+◌, ◌≤◌, ◌≡◌, ◌≢◌, ◌⊎◌, refl, sym, ◌∙◌, true, false, arith, u32}
use flight_software.Modes.{PropState, same_prop, same_prop→eq, same_prop_refl}
use flight_software.Floats.{FloatOps}
use flight_software.Propulsion.{reset, disable, start_firing}
use flight_software.PropController.State.{PropController, Readings, when, pure}
use flight_software.PropController.Guards.{can_enter, can_enter_firing}
use flight_software.PropController.Cycle.{enter_venting, determine_faulted_tank}
use flight_software.PropController.Evaluate.{enter, enter_firing, evaluate, evaluate_firing}
use flight_software.PropController.Execute.{
  transition_to, step, execute, count_down, check_faults, read_sensors,
}
use flight_software.PropController.Frame.{
  Kept, can_enter_handling_fault-Kept, can_enter_venting-Kept, evaluate-Kept, prepare-Prepared,
}
use flight_software.PropController.Transitions.{enter-state, resolve-state}

module _ {Float : Type 0} where
  -- The interrupt runs in the state `firing` only.
  abbrev pub IsGuarded : PropController Float → Type 0
  IsGuarded s = (s.propulsion.is_interval_enabled ≡ false) ⊎ (s.prop_state ≡ PropState.firing)

  can_enter-Kept : (next : PropState) (s : PropController Float) → Kept s (can_enter next s).1
  unfolding can_enter
  can_enter-Kept PropState.venting s = can_enter_venting-Kept s
  can_enter-Kept PropState.handling_fault s = can_enter_handling_fault-Kept s
  can_enter-Kept PropState.disabled s = ground arith
  can_enter-Kept _ s = ground arith

  enter_no_start :
      (next : PropState) (s : PropController Float)
      → next ≢ PropState.firing
      → (enter next s).1.propulsion.is_interval_enabled ≡ true
      → s.propulsion.is_interval_enabled ≡ true
  unfolding enter reset enter_venting determine_faulted_tank
  enter_no_start PropState.firing s h k = absurd (h refl)
  enter_no_start PropState.venting s h k = ground arith
  enter_no_start PropState.disabled s h k = ground arith
  enter_no_start _ s h k = ground arith

  -- What a state machine that evaluated to `next` does then.
  abbrev resolve : PropState → PropState → PropController Float → PropController Float
  resolve next st t = (when (same_prop next st) (pure tt) (transition_to next) t).1

  resolve-IsGuarded :
      (next st : PropState) (t : PropController Float)
      → t.prop_state ≡ st
      → (t.propulsion.is_interval_enabled ≡ true
          → (st ≡ PropState.firing) × (next ≡ PropState.firing))
      → IsGuarded (resolve next st t)
  unfolding transition_to can_enter
  resolve-IsGuarded PropState.firing st t h k = ground (
    arith,
    k,
    enter-state (record t { prop_state = PropState.firing }) PropState.firing,
    same_prop→eq PropState.firing st,
    same_prop_refl PropState.firing,
  )
  resolve-IsGuarded next st t h k =
      let u = (can_enter next t).1 in
      let v = record u { prop_state = next } in
      ground (arith, k, can_enter-Kept next t, enter_no_start next v, same_prop→eq next st)

  -- The state becomes `firing` by entering it.
  resolve_firing :
      (next st : PropState) (t : PropController Float)
      → t.prop_state ≡ st
      → st ≢ PropState.firing
      → (resolve next st t).prop_state ≡ PropState.firing
      → (can_enter_firing t ≡ true)
        × (resolve next st t ≡ (enter_firing (record t { prop_state = PropState.firing })).1)
  unfolding transition_to can_enter enter
  resolve_firing PropState.firing st t h k e = ground (arith, same_prop→eq PropState.firing st)
  resolve_firing PropState.idle st t h k e = ground (arith, resolve-state PropState.idle st t h)
  resolve_firing next st t h k e = ground (arith, resolve-state next st t h)

-- How a control cycle, from `s` to `t`, comes to fire.
pub record Fires {Float : Type 0} (s t : PropController Float) : Type 0 where
  pub was_ready : s.prop_state ≡ PropState.await_firing
  pub counted_down : s.cycles_until_firing ≤ 1
  pub powered : s.propulsion.is_functional ≡ true
  pub interrupt_on : t.propulsion.is_interval_enabled ≡ true
  pub counted : t.num_prop_firings ≡ u32 (s.num_prop_firings + 1)

module _ {Float : Type 0} ⦃o : FloatOps Float⦄ (cc : ℕ) where
  -- An evaluation that leaves `firing` stops the interrupt.
  evaluate_firing_stops :
      (s : PropController Float)
      → (evaluate cc PropState.firing s).1.propulsion.is_interval_enabled ≡ true
      → (evaluate cc PropState.firing s).0 ≡ PropState.firing
  unfolding evaluate evaluate_firing reset disable
  evaluate_firing_stops s h = ground arith

  step-IsGuarded_from :
      (st : PropState) (s : PropController Float)
      → s.prop_state ≡ st
      → IsGuarded s
      → let r = evaluate cc st s in IsGuarded (resolve r.0 st r.1)
  step-IsGuarded_from PropState.firing s h g =
      let r = evaluate cc PropState.firing s in
      let k = evaluate-Kept cc PropState.firing s in
      resolve-IsGuarded r.0 PropState.firing r.1 (k.same_state ∙ h)
        (λ on. (refl, evaluate_firing_stops s on))
  step-IsGuarded_from PropState.idle s h g =
      let r = evaluate cc PropState.idle s in
      let k = evaluate-Kept cc PropState.idle s in
      resolve-IsGuarded r.0 PropState.idle r.1 (k.same_state ∙ h)
        (λ on. ground (arith, k.no_start on))
  step-IsGuarded_from st s h g =
      let r = evaluate cc st s in
      let k = evaluate-Kept cc st s in
      resolve-IsGuarded r.0 st r.1 (k.same_state ∙ h) (λ on. ground (arith, k.no_start on))

  step-IsGuarded : (s : PropController Float) → IsGuarded s → IsGuarded (step cc s).1
  unfolding step
  step-IsGuarded s g = step-IsGuarded_from s.prop_state s refl g

  prepare-IsGuarded :
      (s : PropController Float) → IsGuarded s → IsGuarded (count_down (check_faults cc s))
  unfolding count_down check_faults
  prepare-IsGuarded s g = ground arith

  -- A control cycle keeps the thrust interrupt to the state `firing`: if it was off in every other
  -- state before, it is so after.
  pub execute-IsGuarded :
      (r : Readings Float) (s : PropController Float) → IsGuarded s → IsGuarded (execute cc r s)
  unfolding execute read_sensors
  execute-IsGuarded r s g = step-IsGuarded (count_down (check_faults cc s)) (prepare-IsGuarded s g)

  step_firing_from :
      (st : PropState) (s : PropController Float)
      → s.prop_state ≡ st
      → st ≢ PropState.firing
      → IsGuarded s
      → let r = evaluate cc st s in
        let t = resolve r.0 st r.1 in
        t.prop_state ≡ PropState.firing
        → (s.prop_state ≡ PropState.await_firing)
          × (s.cycles_until_firing ≡ 0)
          × (s.propulsion.is_functional ≡ true)
          × (t.propulsion.is_interval_enabled ≡ true)
          × (t.num_prop_firings ≡ u32 (s.num_prop_firings + 1))
  unfolding can_enter_firing enter_firing start_firing same_prop
  step_firing_from st s h k g e =
      let r = evaluate cc st s in
      ground (
        arith,
        resolve_firing r.0 st r.1 ((evaluate-Kept cc st s).same_state ∙ h) k e,
        evaluate-Kept cc st s,
      )

  -- The controller enters `firing` only from `await_firing`, with its countdown run out and the
  -- propulsion powered; then the interrupt is on and the firing is counted. The interrupt is taken
  -- to be kept to the state `firing` before.
  pub execute_firing :
      (r : Readings Float) (s : PropController Float)
      → IsGuarded s
      → s.prop_state ≢ PropState.firing
      → (execute cc r s).prop_state ≡ PropState.firing
      → Fires s (execute cc r s)
  unfolding execute read_sensors step
  execute_firing r s g k e =
      let s' = count_down (check_faults cc s) in
      let p = prepare-Prepared cc s in
      ground (
        arith,
        p,
        step_firing_from s'.prop_state s' refl (λ f. k (sym p.still_state ∙ f))
            (prepare-IsGuarded s g) e,
      )
