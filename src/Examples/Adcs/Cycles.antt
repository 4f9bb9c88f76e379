-- ===== src/Examples/Adcs/Cycles.antt =====
-- The theorems on the attitude control system at concrete inputs.
use flight_software.Base.{
  ℕ, ◌≤◌, ◌<◌, ◌≡◌, ◌⊎◌, refl, true, false, ◌==◌, none, some, List, [], ◌∷◌, length, get_or, Option,
  ◌*◌, if◌then◌else◌, arith,
}
use flight_software.Modes.{AdcsState}
use flight_software.Adcs.Convert.{min_moment, max_moment, min_torque, max_torque}
use flight_software.Adcs.Registers.{
  Register, address_of, Registers, map_vector, adcs_passive, rwa_disabled, rwa_accel_ctrl,
  mtr_enabled,
}
use flight_software.Adcs.Receive.{receive_all}
use flight_software.Adcs.Driver.{set_rwa_mode}
use flight_software.Adcs.Protocol.{Command, messages, effect, through_u16}
use flight_software.Adcs.Protocol.Effects.{receive_all-messages}
use flight_software.Adcs.Controller
use flight_software.Adcs.Controller.{some_set}
use flight_software.Adcs.Controller.Delivery.{all_messages, expected, receive_all-execute}
use flight_software.Adcs.Loop.{update_mtr, update_rwa, outdate_mtr}
use flight_software.Adcs.Loop.Atomic.{MtrOutcome, update_mtr_atomic}
use flight_software.Adcs.Loop.Race.{set_rwa_mode_race}
use flight_software.Adcs.Pipeline.{
  cycle, quiet, is_pointing, stops_wheels, startup_is_passive, pointing_actuates,
  disabled_wheels_not_stopped,
}
use flight_software.Adcs.Readout
use flight_software.Adcs.Havt.{update_havt}
use flight_software.Adcs.Havt.Commands.{at, commands_reach_device, get_havt-update_havt}
use flight_software.Adcs.Monitor.{set_flags, evaluate_faults}
use flight_software.Adcs.Monitor
use flight_software.Adcs.Monitor.Report.{readings, execute_report}
use flight_software.Adcs.SunSensors.{update_voltages, update_ssa}
use flight_software.Adcs.SunSensors.Numbered.{IsAscending, lookup}
use flight_software.Adcs.SunSensors.Selection.{usable, update_ssa_answers}
use flight_software.Adcs.Rods
use flight_software.Adcs.Rods.{Driven, duty}
use flight_software.Adcs.Wheels.Actuate
use flight_software.Adcs.Wheels.Pins.{Turned, actuate-Turned}
use flight_software.Examples.Adcs.Values.{
  nat_arith, nat_laws, bool_device, registers, fields, vector, sensors, reads, rods, wheels,
  converters, monitor,
}

-- A magnetorquer command comes in while the one before is copied.
abbrev busy : ℕ → List (List ℕ)
busy k = if k == 4 then (address_of Register.mtr_command ∷ 1 ∷ 0 ∷ 2 ∷ 0 ∷ 3 ∷ 0 ∷ []) ∷ [] else []

receive_all-messages_example :
    receive_all 255 (messages (Command.rwa 2 (vector 300))) (registers 1 0)
    ≡ effect (Command.rwa 2 (vector 300)) (registers 1 0)
receive_all-messages_example =
    receive_all-messages 255 (registers 1 0) (Command.rwa 2 (vector 300)) tt

receive_all-execute_example :
    receive_all 255
      (all_messages (Controller.execute (fields AdcsState.detumble)).0)
      (registers 0 1)
    ≡ expected (fields AdcsState.detumble) (registers 0 1)
receive_all-execute_example = receive_all-execute 255 (fields AdcsState.detumble) (registers 0 1)

startup_is_passive_example :
    let n = cycle 255 (fields AdcsState.startup) (registers 1 1) in
    (n.mode ≡ adcs_passive)
    × ((update_mtr 255 quiet n).0 ≡ none)
    × ((update_rwa 255 quiet (λ v. v) reads sensors n).0 ≡ none)
startup_is_passive_example =
    startup_is_passive 255 (λ v. v) reads sensors (registers 1 1) (fields AdcsState.startup) quiet
      refl

pointing_actuates_example :
    let n = cycle 255 (fields AdcsState.point_docking) (registers 0 0) in
    ((update_mtr 255 quiet n).0
      ≡ some (record {
        mtr_mode = mtr_enabled;
        mtr_cmd = map_vector (λ x. through_u16 x min_moment max_moment) (vector 4);
        moment_limit = through_u16 5 min_moment max_moment;
      }))
    × ((update_rwa 255 quiet (λ v. v) reads sensors n).0
        ≡ some (record {
          rwa_mode = rwa_accel_ctrl;
          rwa_cmd = map_vector (λ x. through_u16 x min_torque max_torque) (vector 7);
        }))
unfolding is_pointing
pointing_actuates_example =
    pointing_actuates 255 (λ v. v) reads sensors (registers 0 0) (fields AdcsState.point_docking)
      refl

disabled_wheels_not_stopped_example :
    let n = cycle 255 (fields AdcsState.zero_l) (registers 1 0) in
    (n.mode ≡ 1)
    × (n.rwa.mode ≡ rwa_disabled)
    × ((update_rwa 255 quiet (λ v. v) reads sensors n).0 ≡ none)
unfolding stops_wheels
disabled_wheels_not_stopped_example =
    disabled_wheels_not_stopped 255 (λ v. v) reads sensors (registers 1 0) (fields AdcsState.zero_l)
      refl refl

update_mtr_atomic_example :
    MtrOutcome
      (outdate_mtr (receive_all 255 (busy 1) (receive_all 255 (busy 0) (registers 1 1))))
      (update_mtr 255 busy (registers 1 1))
update_mtr_atomic_example = update_mtr_atomic 255 busy (registers 1 1) refl refl

set_rwa_mode_race_example :
    (first : List ℕ) × (second : List ℕ) × (set_rwa_mode 2 (vector 1) ≡ first ∷ second ∷ [])
    × ((update_rwa 255
          (λ _. [])
          (λ v. v)
          reads
          sensors
          (receive_all 255 (first ∷ []) (registers 1 1))).0
        ≡ some (record { rwa_mode = 2; rwa_cmd = vector 600 }))
set_rwa_mode_race_example =
    set_rwa_mode_race 255 (λ v. v) reads sensors 2 (vector 1) (registers 1 1) refl refl

execute_report_example : Monitor.execute 255 9 monitor (registers 1 0) ≡ (
  set_flags (record (readings 255 9 monitor (registers 1 0)) {
    adcs_functional_fault = (evaluate_faults 9 monitor).adcs_functional_fault;
    wheel1_adc_fault = (evaluate_faults 9 monitor).wheel1_adc_fault;
    wheel2_adc_fault = (evaluate_faults 9 monitor).wheel2_adc_fault;
    wheel3_adc_fault = (evaluate_faults 9 monitor).wheel3_adc_fault;
    wheel_pot_fault = (evaluate_faults 9 monitor).wheel_pot_fault;
  }),
  record (registers 1 0) { read_ptr = address_of Register.havt_read },
)
execute_report_example = execute_report 255 9 monitor (registers 1 0) refl (omega arith)

-- The first device is reset and, since the second is disabled, disabled too.
commands_reach_device_example :
    at
      (update_havt 255 quiet (true ∷ true ∷ true ∷ []) (
        receive_all 255
          (all_messages (Controller.execute (fields AdcsState.manual)).0)
          (registers 1 0))).0
      0
    ≡ some false
unfolding some_set
commands_reach_device_example =
    commands_reach_device 255 (fields AdcsState.manual) (registers 1 0) (true ∷ true ∷ true ∷ []) 0
      true (omega arith) (omega arith) (omega arith) refl refl refl

get_havt-update_havt_example :
    let table =
      (Readout.get_havt 255
        (update_havt 255 quiet (true ∷ false ∷ true ∷ []) (registers 1 0)).1).0 in
    (length table ≡ 32) × (get_or table 2 false ≡ true)
get_havt-update_havt_example =
    get_havt-update_havt 255 (true ∷ false ∷ true ∷ []) (registers 1 0) 2 (omega arith)

-- Two converters of four sensors, the second of which is broken; the first one's second read fails.
abbrev asked : Registers ℕ
asked = record (registers 1 0) { ssa = record (registers 1 0).ssa { mode = 1 } }

abbrev values : List (List (Option ℕ))
values = (some 10 ∷ none ∷ some 12 ∷ some 13 ∷ []) ∷ []

update_ssa_answers_example :
    let sampled = update_voltages 255 quiet values converters asked in
    let n = update_ssa (λ rows. vector 5) (vector 0) 255 quiet values converters asked in
    (found : List (ℕ × ℕ)) × IsAscending 0 (4 * length sampled.0) found
    × ((k : ℕ) → lookup k found ≡ usable sampled.0 k)
    × (((n.1.ssa.mode ≡ 2) × (4 ≤ length found) × (n.1.ssa.sun_vec_rd ≡ vector 5))
        ⊎ ((n.1.ssa.mode ≡ 0) × (length found < 4)))
unfolding update_voltages receive_all quiet
update_ssa_answers_example =
    update_ssa_answers (λ rows. vector 5) (vector 0) 255 quiet values converters asked
      (refl, (refl, refl)) refl

actuate-Driven_example :
    let n = Rods.actuate (λ v. v) mtr_enabled (vector 8) 5 rods in
    Driven true (duty {Float = ℕ} 5 8) rods.x n.x
    × Driven true (duty {Float = ℕ} 5 9) rods.y n.y
    × Driven true (duty {Float = ℕ} 5 10) rods.z n.z
actuate-Driven_example = Rods.actuate-Driven (λ v. v) mtr_enabled (vector 8) 5 rods

actuate-Turned_example :
    let n = Actuate.actuate (λ v. v) (λ p. p) 1 (vector 300) wheels in
    Turned wheels.wheels.x n.wheels.x
    × Turned wheels.wheels.y n.wheels.y
    × Turned wheels.wheels.z n.wheels.z
actuate-Turned_example = actuate-Turned (λ v. v) (λ p. p) 1 (vector 300) wheels
