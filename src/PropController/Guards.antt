-- ===== src/PropController/Guards.antt =====
-- `can_enter` of the nine state objects. A guard asks faults whether they are faulted, which changes
-- the faults.
use flight_software.Base.{Bool, true, ◌&&◌, ◌||◌, leb, ◌==◌, sub32}
use flight_software.Modes.{PropState, same_prop}
use flight_software.PropController.State.{
  PropController, M, pure, ◌>>=◌, get, when, validate_schedule, min_cycles_needed,
  pressurize_fail_is_faulted, overpressure_is_faulted, tank2_temp_high_is_faulted,
  tank1_temp_high_is_faulted,
}

module _ {Float : Type 0} where
  abbrev pub check_current_state : PropState → PropController Float → Bool
  check_current_state expected s = same_prop expected s.prop_state

  unfoldable pub can_enter_await_pressurizing : PropController Float → Bool
  can_enter_await_pressurizing s =
      check_current_state PropState.idle s && validate_schedule s && s.propulsion.is_functional

  unfoldable pub can_enter_pressurizing : PropController Float → Bool
  can_enter_pressurizing s =
      (check_current_state PropState.await_pressurizing s || check_current_state PropState.idle s)
      && leb s.cycles_until_firing (sub32 (min_cycles_needed s) 1)
      && validate_schedule s
      && s.propulsion.is_functional

  unfoldable pub can_enter_await_firing : PropController Float → Bool
  can_enter_await_firing s =
      validate_schedule s
      && check_current_state PropState.pressurizing s
      && s.propulsion.is_functional

  unfoldable pub can_enter_firing : PropController Float → Bool
  can_enter_firing s =
      check_current_state PropState.await_firing s
      && (s.cycles_until_firing == 0)
      && s.propulsion.is_functional

  unfoldable pub can_enter_handling_fault : M Float Bool
  can_enter_handling_fault = do
    s ← get
    when (check_current_state PropState.disabled s) (pure Bool.false) do
      pressurize_fail ← pressurize_fail_is_faulted
      overpressured ← overpressure_is_faulted
      tank2_temp ← tank2_temp_high_is_faulted
      tank1_temp ← tank1_temp_high_is_faulted
      pure (
          s.propulsion.is_functional
          && (pressurize_fail || overpressured || tank2_temp || tank1_temp))

  unfoldable pub can_enter_venting : M Float Bool
  can_enter_venting = do
    s ← get
    overpressured ← overpressure_is_faulted
    tank2_temp ← tank2_temp_high_is_faulted
    tank1_temp ← tank1_temp_high_is_faulted
    pure (s.propulsion.is_functional && (overpressured || tank2_temp || tank1_temp))

  -- `can_enter_state`, through `get_state`.
  unfoldable pub can_enter : PropState → M Float Bool
  can_enter PropState.disabled s = (true, s)
  can_enter PropState.idle s = (s.propulsion.is_functional, s)
  can_enter PropState.await_pressurizing s = (can_enter_await_pressurizing s, s)
  can_enter PropState.pressurizing s = (can_enter_pressurizing s, s)
  can_enter PropState.await_firing s = (can_enter_await_firing s, s)
  can_enter PropState.firing s = (can_enter_firing s, s)
  can_enter PropState.venting s = can_enter_venting s
  can_enter PropState.handling_fault s = can_enter_handling_fault s
  can_enter PropState.manual s = (true, s)
  can_enter (PropState.undefined n) s = (true, s)
