-- ===== src/Examples/Values.antt =====
-- Concrete values: numbers with a NaN for the floating-point numbers, and states to start from.
use flight_software.Base.{ℕ, ◌*◌, refl, Bool, true, false, Option, none, some, [], ◌∷◌, ltb, leb}
use flight_software.Modes.{
  MissionState, AdcsState, PropState, RadioState, PiksiMode, QfhState, SatDesignation,
}
use flight_software.Floats.{FloatOps, NanLaws}
use flight_software.Fault
use flight_software.Fault.{Fault}
use flight_software.Propulsion
use flight_software.Propulsion.{Tank, tank1, tank2}
use flight_software.PropController.State.{ActionCycle, PropController, Readings}
use flight_software.FaultHandlers.Quake.{QuakeFaultHandler}
use flight_software.FaultHandlers.Propulsion.{Pair}
use flight_software.MissionManager.State.{MissionManager, Wheels}
use flight_software.QuakeManager.ControlTask.{RadioStatus}
use flight_software.QuakeManager.Manager.{QuakeManager, Surroundings}
use flight_software.Devices.Piksi.{GpsTime, Readout, PiksiControlTask}

-- `none` is NaN.
abbrev pub Number : Type 0
Number = Option ℕ

abbrev pub number_lt : Number → Number → Bool
number_lt (some a) (some b) = ltb a b
number_lt _ _ = false

abbrev pub number_le : Number → Number → Bool
number_le (some a) (some b) = leb a b
number_le _ _ = false

abbrev pub number_mul : Number → Number → Number
number_mul (some a) (some b) = some (a * b)
number_mul _ _ = none

instance abbrev pub number_ops : FloatOps Number
number_ops = record {
  of_ℕ = some;
  lt = number_lt;
  le = number_le;
  mul = number_mul;
  to_float = λ x. x;
  nan = none;
}

instance abbrev pub number_laws : NanLaws Number
number_laws = record { nan-lt = λ x. refl }

unfoldable pub fault : Fault
unfolding Fault.new
fault = Fault.new 3

abbrev pub drivers : Propulsion.Propulsion
drivers = record {
  tank1_opened = false ∷ false ∷ [];
  tank2_opened = false ∷ false ∷ false ∷ false ∷ [];
  schedule = 10 ∷ 7 ∷ 0 ∷ 3 ∷ [];
  is_interval_enabled = false;
  is_functional = true;
}

abbrev pub action_cycle : ActionCycle
action_cycle = record { cycle_count = 0; p_tank = tank1; cur_valve_index = 0; cycles_left = 0 }

abbrev pub thruster : PropState → PropController Number
thruster state = record {
  prop_state = state;
  cycles_until_firing = 1;
  sched_valve1 = 10;
  sched_valve2 = 7;
  sched_valve3 = 0;
  sched_valve4 = 3;
  sched_intertank1 = 0;
  sched_intertank2 = 0;
  max_venting_cycles = 20;
  ctrl_cycles_per_close_period = 50;
  max_pressurizing_cycles = 20;
  threshold_firing_pressure = some 25;
  ctrl_cycles_per_filling_period = 6;
  ctrl_cycles_per_cooling_period = 58;
  tank1_valve = 0;
  tank2_pressure = some 30;
  tank2_temp = some 20;
  tank1_temp = some 20;
  num_prop_firings = 0;
  pressurize_fail = fault;
  overpressure = fault;
  tank2_temp_high = fault;
  tank1_temp_high = fault;
  pressurizing = action_cycle;
  venting = action_cycle;
  saved_tank2_valve_choice = 0;
  tank_choice = 0;
  propulsion = drivers;
}

abbrev pub readings : Readings Number
readings = record { pressure2 = some 30; temp2 = some 20; temp1 = some 20 }

abbrev pub quake_handler : QuakeFaultHandler
quake_handler = record {
  cur_state = QfhState.powercycle_1;
  cur_state_entry_ccno = 600000;
  qfh_enable = true;
  radio_state = RadioState.config;
  last_checkin_cycle = 0;
  radio_power_cycle = false;
}

abbrev pub prop_pair : Pair Number
prop_pair = record {
  handler = record {
    saved_max_venting_cycles = 20;
    num_cycles_both_venting = 1;
    has_not_init = false;
  };
  controller = record (thruster PropState.handling_fault) { max_venting_cycles = 1 };
}

abbrev pub satellite : MissionState → MissionManager Number
satellite state = record {
  mission_state = state;
  adcs_state = AdcsState.point_standby;
  prop_state = PropState.idle;
  radio_state = RadioState.wait;
  sat_designation = SatDesignation.follower;
  detumble_safety_factor = some 1;
  close_approach_trigger_dist = some 2000;
  docking_trigger_dist = some 1;
  docking_timeout_limit = 5;
  docking_config_cmd = true;
  enter_docking_cycle = 0;
  have_set_docking_entry_ccno = false;
  is_deployed = true;
  deployment_wait_elapsed = 200;
  enter_close_approach_ccno = 0;
  safehold_begin_ccno = 10;
  kill_switch = 0;
  reset_cmd = false;
  docked = false;
  sph_dcdc = true;
  adcs_dcdc = true;
  piksi_off = false;
  piksi_powercycle = false;
  attitude_estimator_valid = true;
  momentum = some 0;
  rel_orbit_valid = false;
  rel_orbit_distance = some 100;
  adcs_functional_fault = fault;
  wheel1_adc_fault = fault;
  wheel2_adc_fault = fault;
  wheel3_adc_fault = fault;
  wheel_pot_fault = fault;
}

abbrev pub wheels : Wheels Number
wheels = record { max_speed_read = some 680; moment_of_inertia = some 1 }

-- The radio with memory for one packet, before `init`.
abbrev pub new_radio : QuakeManager
new_radio = record {
  qct = record { fn_seq_num = 0; mo_msg_p = none; mo_msg_len = 0 };
  radio_state = RadioState.write;
  cycle_of_entry = 8;
  max_snapshot_size = 0;
  mo_buffer_copy = [];
  mo_idx = 0;
  unexpected_flag = false;
  max_wait_cycles = 1;
  max_transceive_cycles = 500;
  radio_err = RadioStatus.ok;
  radio_mt_len = 0;
  last_checkin_cycle = 0;
}

abbrev pub surroundings : Surroundings
surroundings = record {
  answer = λ c. RadioStatus.ok;
  mo_status = 0;
  mt_status = 1;
  mt_length = 12;
  radio_mo_packet = λ i. i;
  radio_power_cycle = false;
}

abbrev pub gps_time : GpsTime
gps_time = record { wn = 2100; tow = 5000; ns = 0; is_set = true }

abbrev pub readout : Readout ℕ
readout = record {
  read_out = 1;
  read_microdelta = 900;
  msg_time = gps_time;
  pos_tow = 5000;
  msg_pos = 7;
  vel_tow = 5000;
  msg_vel = 8;
  baseline_tow = 5000;
  msg_baseline_pos = 9;
  nsats = 6;
  baseline_flag = 1;
}

abbrev pub receiver : PiksiControlTask ℕ
receiver = record {
  current_state = PiksiMode.no_fix;
  microdelta = 0;
  time = gps_time;
  pos = 0;
  vel = 0;
  baseline_pos = 0;
}
