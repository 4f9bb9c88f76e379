-- ===== src/Examples/Propulsion.antt =====
-- The propulsion driver and its controller at concrete inputs.
use flight_software.Base.{◌≡◌, ◌≢◌, refl, inl, true, false, not, ◌||◌, ◌==◌, [], ◌∷◌, arith}
use flight_software.Modes.{PropState, same_prop}
use flight_software.Propulsion
use flight_software.Propulsion.{
  AllClosed, start_firing, reset, set_schedule, clear_schedule, thrust_valve_loop,
  thrust_valve_pass, thrust_valve_passes,
}
use flight_software.Propulsion.Schedule.{IsOff, set_schedule_running}
use flight_software.Propulsion.Thrust.{open_intervals, thirds, open_intervals-thirds}
use flight_software.PropController.State.{
  PropController, is_valid_schedule, validate_schedule, is_tank1_temp_high, is_tank2_temp_high,
  is_tank2_overpressured,
}
use flight_software.PropController.Execute.{
  execute, read_sensors, step, count_down, check_faults, transition_to,
}
use flight_software.PropController.Evaluate.{
  evaluate, evaluate_await_firing, enter, enter_firing, write_tank2_schedule,
}
use flight_software.PropController.Guards.{can_enter, can_enter_firing, can_enter_handling_fault}
use flight_software.Fault
use flight_software.Fault.{is_faulted, new}
use flight_software.PropController.Transitions.{◌⟶◌, execute-⟶}
use flight_software.PropController.Firing.{IsGuarded, Fires, execute-IsGuarded, execute_firing}
use flight_software.PropController.Faults.{execute_firing_faulted, set_schedule_valid}
use flight_software.Examples.Values.{Number, number_ops, drivers, thruster, readings, fault}

-- The schedule of 10, 7, 0 and 3 ms, run down.
runs_down : open_intervals 20 drivers ≡ 3 ∷ 2 ∷ 0 ∷ 1 ∷ []
unfolding open_intervals thrust_valve_loop
runs_down = refl

abbrev firing_drivers : Propulsion.Propulsion
firing_drivers = record drivers { is_interval_enabled = true }

set_schedule_running_example :
    (set_schedule 1 2 3 4 firing_drivers ≡ (false, firing_drivers))
    × (clear_schedule firing_drivers ≡ (false, firing_drivers))
set_schedule_running_example = set_schedule_running 1 2 3 4 firing_drivers refl

open_intervals-thirds_example : open_intervals 20 drivers ≡ thirds drivers.schedule
open_intervals-thirds_example = open_intervals-thirds 20 drivers refl (omega arith)

execute-⟶_example :
    PropState.await_firing ⟶ (execute 9 readings (thruster PropState.await_firing)).prop_state
execute-⟶_example = execute-⟶ 9 readings (thruster PropState.await_firing)

execute-IsGuarded_example : IsGuarded (execute 9 readings (thruster PropState.await_firing))
execute-IsGuarded_example =
    execute-IsGuarded 9 readings (thruster PropState.await_firing) (inl refl)

await≢firing : PropState.await_firing ≢ PropState.firing
await≢firing = λ e. ground (arith, e)

-- The controller that is ready fires.
fires : (execute 9 readings (thruster PropState.await_firing)).prop_state ≡ PropState.firing
unfolding execute read_sensors step count_down check_faults transition_to evaluate
    evaluate_await_firing can_enter can_enter_firing can_enter_handling_fault enter enter_firing
    write_tank2_schedule start_firing set_schedule is_faulted Fault.evaluate new same_prop
    validate_schedule is_valid_schedule is_tank1_temp_high is_tank2_temp_high is_tank2_overpressured
    fault
fires = refl

execute_firing_example :
    Fires (thruster PropState.await_firing) (execute 9 readings (thruster PropState.await_firing))
execute_firing_example =
    execute_firing 9 readings (thruster PropState.await_firing) (inl refl) await≢firing fires

-- A controller that fires, with a fault that the ground overrides.
abbrev faulted_thruster : PropController Number
faulted_thruster = record (thruster PropState.firing) {
  pressurize_fail = record fault { override = true };
}

is_guarded : (can_enter_handling_fault (check_faults 9 faulted_thruster)).0 ≡ true
unfolding can_enter_handling_fault check_faults is_faulted Fault.evaluate new fault
    is_tank1_temp_high is_tank2_temp_high is_tank2_overpressured same_prop
is_guarded = refl

execute_firing_faulted_example :
    let t = execute 9 readings faulted_thruster in
    (t.prop_state ≡ PropState.handling_fault) × IsOff t.propulsion
execute_firing_faulted_example = execute_firing_faulted 9 readings faulted_thruster refl is_guarded

set_schedule_valid_example :
    (set_schedule 1000 0 0 0 drivers).0
    ≡ not ((1000 == 1000) || (0 == 1000) || (0 == 1000) || (0 == 1000))
unfolding is_valid_schedule
set_schedule_valid_example = set_schedule_valid 1000 0 0 0 5 drivers refl refl
