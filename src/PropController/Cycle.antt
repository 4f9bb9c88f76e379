-- ===== src/PropController/Cycle.antt =====
-- ActionCycleOpenClose, the open-close cycles of one valve, with the virtual functions that
-- PropState_Pressurizing and PropState_Venting give it, and what else those two states do.
use flight_software.Base.{
  ℕ, ◌+◌, ◌-◌, ◌%◌, Bool, false, not, ◌||◌, ltb, leb, ◌==◌, u32, if◌then◌else◌,
}
use flight_software.Modes.{PropState}
use flight_software.Fault
use flight_software.Fault.{Fault}
use flight_software.Floats.{FloatOps}
use flight_software.Propulsion.{tank1, tank2, is_valve_open, open_valve, close_valve, reset}
use flight_software.PropController.State.{
  PropController, ActionCycle, M, pure, ◌>>=◌, ◌>>◌, get, modify, drive, when, and_also, or_else,
  negated, validate_schedule, is_at_threshold_pressure, pressurize_fail_is_faulted,
  overpressure_is_faulted, tank2_temp_high_is_faulted, tank1_temp_high_is_faulted,
}
use flight_software.PropController.Guards.{can_enter_handling_fault}

-- The two classes that inherit from ActionCycleOpenClose.
pub data Action : Type 0 where
  pressurize vent : Action

-- CountdownTimer.
unfoldable pub tick : ActionCycle → ActionCycle
tick c = if ltb 0 c.cycles_left then record c { cycles_left = c.cycles_left - 1 } else c

abbrev pub is_timer_zero : ActionCycle → Bool
is_timer_zero c = c.cycles_left == 0

abbrev pub set_timer_cc : ℕ → ActionCycle → ActionCycle
set_timer_cc n c = record c { cycles_left = n }

abbrev pub this_state : Action → PropState
this_state pressurize = PropState.pressurizing
this_state vent = PropState.venting

abbrev pub success_state : Action → PropState
success_state pressurize = PropState.await_firing
success_state vent = PropState.idle

module _ {Float : Type 0} where
  abbrev pub cycle : Action → PropController Float → ActionCycle
  cycle pressurize s = s.pressurizing
  cycle vent s = s.venting

  abbrev pub set_cycle : Action → ActionCycle → PropController Float → PropController Float
  set_cycle pressurize c s = record s { pressurizing = c }
  set_cycle vent c s = record s { venting = c }

  abbrev pub on_cycle : Action → (ActionCycle → ActionCycle) → M Float (Unit {0})
  on_cycle a f s = (tt, set_cycle a (f (cycle a s)) s)

  unfoldable pub get_ctrl_cycles_per_close_period : Action → PropController Float → ℕ
  get_ctrl_cycles_per_close_period pressurize s = s.ctrl_cycles_per_cooling_period
  get_ctrl_cycles_per_close_period vent s = s.ctrl_cycles_per_close_period

  unfoldable pub get_max_cycles : Action → PropController Float → ℕ
  get_max_cycles pressurize s = s.max_pressurizing_cycles
  get_max_cycles vent s = s.max_venting_cycles

  unfoldable pub has_failed : Action → PropController Float → Bool
  has_failed pressurize s = not (validate_schedule s)
  has_failed vent s = false

  unfoldable pub select_valve_index : Action → M Float ℕ
  select_valve_index pressurize s = (s.tank1_valve, s)
  select_valve_index vent s = if s.tank_choice == 1 then (s.tank1_valve, s) else (
    s.saved_tank2_valve_choice % 4,
    record s { saved_tank2_valve_choice = u32 (s.saved_tank2_valve_choice + 1) },
  )

  abbrev pub tank1_wants_to_vent : M Float Bool
  tank1_wants_to_vent = tank1_temp_high_is_faulted

  abbrev pub tank2_wants_to_vent : M Float Bool
  tank2_wants_to_vent = or_else tank2_temp_high_is_faulted overpressure_is_faulted

  -- `pressurize_fail_fault_f.signal()` in control cycle `cc`.
  unfoldable pub handle_out_of_cycles : ℕ → Action → M Float PropState
  handle_out_of_cycles cc pressurize = do
    modify (λ s. record s { pressurize_fail = Fault.signal cc s.pressurize_fail })
    faulted ← pressurize_fail_is_faulted
    when faulted (do drive reset; pure PropState.handling_fault) (pure PropState.await_firing)
  handle_out_of_cycles cc vent = do
    s ← get
    when (s.max_venting_cycles == 1) (pure PropState.handling_fault) do
      tank1_vented ← and_also (pure (s.tank_choice == 1)) tank2_wants_to_vent
      tank2_vented ← and_also (pure (s.tank_choice == 2)) tank1_wants_to_vent
      when (tank1_vented || tank2_vented) (pure PropState.handling_fault) (pure PropState.disabled)

  unfoldable pub handle_valve_is_open : Action → M Float PropState
  handle_valve_is_open a = do
    s ← get
    let c = cycle a s
    when (is_timer_zero c)
        (do
          drive (close_valve c.p_tank c.cur_valve_index)
          on_cycle a (set_timer_cc (get_ctrl_cycles_per_close_period a s))
          pure (this_state a))
        (pure (this_state a))

  unfoldable pub start_cycle : Action → M Float (Unit {0})
  start_cycle a = do
    on_cycle a (λ c. record c { cycle_count = u32 (c.cycle_count + 1) })
    i ← select_valve_index a
    on_cycle a (λ c. record c { cur_valve_index = i })
    s ← get
    drive (λ p. (open_valve (cycle a s).p_tank i p).1)
    on_cycle a (set_timer_cc s.ctrl_cycles_per_filling_period)

  unfoldable pub handle_valve_is_close : ℕ → Action → M Float PropState
  handle_valve_is_close cc a = do
    s ← get
    let c = cycle a s
    when (is_timer_zero c)
        (when (leb (get_max_cycles a s) c.cycle_count) (handle_out_of_cycles cc a)
          do start_cycle a; pure (this_state a))
        (pure (this_state a))

  -- ActionCycleOpenClose::enter.
  abbrev pub enter_cycle : Action → M Float (Unit {0})
  enter_cycle a = on_cycle a (λ c. record c { cycle_count = 0; cycles_left = 0 })

  unfoldable pub determine_faulted_tank : M Float ℕ
  determine_faulted_tank = do
    both ← and_also tank1_wants_to_vent tank2_wants_to_vent
    s ← get
    let other : ℕ = if s.tank_choice == 1 then 2 else 1
    choice ← when both (pure other) do first ← tank1_wants_to_vent; pure (if first then 1 else 2)
    modify (λ t. record t { tank_choice = choice })
    pure choice

  -- PropState_Venting::enter.
  unfoldable pub enter_venting : M Float (Unit {0})
  enter_venting = do
    choice ← determine_faulted_tank
    s ← get
    on_cycle vent (λ c.
        if choice == 2
        then record c { p_tank = tank2; cur_valve_index = s.saved_tank2_valve_choice }
        else record c { p_tank = tank1 })
    enter_cycle vent

module _ {Float : Type 0} ⦃o : FloatOps Float⦄ where
  unfoldable pub has_succeeded : Action → M Float Bool
  has_succeeded pressurize s = (is_at_threshold_pressure s, s)
  has_succeeded vent s =
      if s.tank_choice == 1
      then negated tank1_temp_high_is_faulted s
      else and_also (negated tank2_temp_high_is_faulted) (negated overpressure_is_faulted) s

  -- ActionCycleOpenClose::evaluate, in control cycle `cc`. The fail state of both classes is
  -- `disabled`.
  unfoldable pub evaluate_cycle : ℕ → Action → M Float PropState
  evaluate_cycle cc a = do
    on_cycle a tick
    succeeded ← has_succeeded a
    s ← get
    let c = cycle a s
    when succeeded (do drive (close_valve c.p_tank c.cur_valve_index); pure (success_state a))
        (when (has_failed a s) (pure PropState.disabled) (
          when (is_valve_open c.p_tank c.cur_valve_index s.propulsion) (handle_valve_is_open a)
            (handle_valve_is_close cc a)))

  -- PropState_Pressurizing::evaluate.
  unfoldable pub evaluate_pressurizing : ℕ → M Float PropState
  evaluate_pressurizing cc = do
    s ← get
    when (leb s.cycles_until_firing 1) (do drive reset; pure PropState.idle)
        do
          faulted ← can_enter_handling_fault
          when faulted (do drive reset; pure PropState.handling_fault)
              (evaluate_cycle cc pressurize)
