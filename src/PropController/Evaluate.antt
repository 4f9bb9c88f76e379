-- ===== src/PropController/Evaluate.antt =====
-- `enter` and `evaluate` of the nine state objects.
use flight_software.Base.{ℕ, ◌+◌, Bool, ltb, ◌==◌, u32, if◌then◌else◌}
use flight_software.Modes.{PropState}
use flight_software.Floats.{FloatOps}
use flight_software.Propulsion.{
  Tank, tank1, tank2, get_schedule_at, open_valve, close_valve, reset, disable, start_firing,
  set_schedule,
}
use flight_software.PropController.State.{
  PropController, M, pure, ◌>>=◌, ◌>>◌, get, modify, drive, when,
}
use flight_software.PropController.Guards.{
  can_enter_pressurizing, can_enter_await_pressurizing, can_enter_handling_fault, can_enter_venting,
}
use flight_software.PropController.Cycle.{
  pressurize, vent, enter_cycle, enter_venting, evaluate_cycle, evaluate_pressurizing,
}

module _ {Float : Type 0} where
  unfoldable pub enter_firing : M Float (Unit {0})
  enter_firing = do
    drive (λ p. (start_firing p).1)
    modify (λ s. record s { num_prop_firings = u32 (s.num_prop_firings + 1) })

  unfoldable pub enter : PropState → M Float (Unit {0})
  enter PropState.disabled = drive reset
  enter PropState.idle = pure tt
  enter PropState.await_pressurizing = pure tt
  enter PropState.pressurizing = enter_cycle pressurize
  enter PropState.await_firing = pure tt
  enter PropState.firing = enter_firing
  enter PropState.venting = enter_venting
  enter PropState.handling_fault = pure tt
  enter PropState.manual = drive reset
  enter (PropState.undefined n) = drive reset

  unfoldable pub evaluate_disabled : M Float PropState
  evaluate_disabled = do drive reset; pure PropState.disabled

  unfoldable pub evaluate_idle : M Float PropState
  evaluate_idle = do
    faulted ← can_enter_handling_fault
    s ← get
    when faulted (pure PropState.handling_fault) (
        when (can_enter_pressurizing s) (pure PropState.pressurizing) (
          when (can_enter_await_pressurizing s) (pure PropState.await_pressurizing)
            (pure PropState.idle)))

  unfoldable pub evaluate_await_pressurizing : M Float PropState
  evaluate_await_pressurizing = do
    faulted ← can_enter_handling_fault
    s ← get
    when faulted (pure PropState.handling_fault) (
        when (can_enter_pressurizing s) (pure PropState.pressurizing)
          (pure PropState.await_pressurizing))

  -- The answer of `set_schedule` is not read.
  unfoldable pub write_tank2_schedule : M Float (Unit {0})
  write_tank2_schedule = do
    s ← get
    drive (λ p. (set_schedule s.sched_valve1 s.sched_valve2 s.sched_valve3 s.sched_valve4 p).1)

  unfoldable pub evaluate_await_firing : M Float PropState
  evaluate_await_firing = do
    faulted ← can_enter_handling_fault
    s ← get
    when faulted (pure PropState.handling_fault) (
        when (s.cycles_until_firing == 0) (do write_tank2_schedule; pure PropState.firing)
          (pure PropState.await_firing))

  -- The sum of the four entries, in `unsigned int`.
  unfoldable pub is_schedule_empty : PropController Float → Bool
  is_schedule_empty s =
      let at = λ (i : ℕ). get_schedule_at i s.propulsion in u32 (at 0 + at 1 + at 2 + at 3) == 0

  unfoldable pub evaluate_firing : M Float PropState
  evaluate_firing = do
    faulted ← can_enter_handling_fault
    s ← get
    when faulted (do drive reset; pure PropState.handling_fault)
        (when (is_schedule_empty s) (do drive disable; pure PropState.idle) (pure PropState.firing))

  unfoldable pub evaluate_handling_fault : M Float PropState
  evaluate_handling_fault = do
    vents ← can_enter_venting
    when vents (pure PropState.venting) do
      faulted ← can_enter_handling_fault
      pure (if faulted then PropState.handling_fault else PropState.idle)

  unfoldable pub manual_eval : ℕ → Tank → ℕ → M Float (Unit {0})
  manual_eval sched tank valve_num =
      when (ltb 0 sched) (drive (λ p. (open_valve tank valve_num p).1))
        (drive (close_valve tank valve_num))

  unfoldable pub evaluate_manual : M Float PropState
  evaluate_manual = do
    s ← get
    manual_eval s.sched_valve1 tank2 0
    manual_eval s.sched_valve2 tank2 1
    manual_eval s.sched_valve3 tank2 2
    manual_eval s.sched_valve4 tank2 3
    manual_eval s.sched_intertank1 tank1 0
    manual_eval s.sched_intertank2 tank1 1
    pure PropState.manual

module _ {Float : Type 0} ⦃o : FloatOps Float⦄ where
  -- `get_state(state).evaluate()`, in control cycle `cc`.
  unfoldable pub evaluate : ℕ → PropState → M Float PropState
  evaluate cc PropState.disabled = evaluate_disabled
  evaluate cc PropState.idle = evaluate_idle
  evaluate cc PropState.await_pressurizing = evaluate_await_pressurizing
  evaluate cc PropState.pressurizing = evaluate_pressurizing cc
  evaluate cc PropState.venting = evaluate_cycle cc vent
  evaluate cc PropState.firing = evaluate_firing
  evaluate cc PropState.await_firing = evaluate_await_firing
  evaluate cc PropState.handling_fault = evaluate_handling_fault
  evaluate cc PropState.manual = evaluate_manual
  evaluate cc (PropState.undefined n) = evaluate_disabled
