-- ===== src/MissionManager/State.antt =====
-- The fields of the mission manager, with those of the registry that it reads and writes, and its
-- setters.
use flight_software.Base.{ℕ, ◌+◌, ◌/◌, Bool, true, false, ltb, if◌then◌else◌, sub32}
use flight_software.Modes.{MissionState, AdcsState, PropState, RadioState, SatDesignation}
use flight_software.Fault.{Fault, is_faulted}
use flight_software.Floats.{FloatOps}
use flight_software.FaultHandlers.Quake.{one_day_ccno}

pub record MissionManager (Float : Type 0) : Type 0 where
  pub mission_state : MissionState
  pub adcs_state : AdcsState
  pub prop_state : PropState
  pub radio_state : RadioState
  pub sat_designation : SatDesignation
  pub detumble_safety_factor : Float
  pub close_approach_trigger_dist : Float
  pub docking_trigger_dist : Float
  pub docking_timeout_limit : ℕ
  pub docking_config_cmd : Bool
  pub enter_docking_cycle : ℕ
  -- The static variable of `dispatch_docking`.
  pub have_set_docking_entry_ccno : Bool
  pub is_deployed : Bool
  pub deployment_wait_elapsed : ℕ
  pub enter_close_approach_ccno : ℕ
  pub safehold_begin_ccno : ℕ
  pub kill_switch : ℕ
  pub reset_cmd : Bool
  pub docked : Bool
  pub sph_dcdc : Bool
  pub adcs_dcdc : Bool
  pub piksi_off : Bool
  pub piksi_powercycle : Bool
  pub attitude_estimator_valid : Bool
  -- `lin::fro` of attitude_estimator.L_body.
  pub momentum : Float
  -- Whether rel_orbit.state is not 0, and `lin::norm` of rel_orbit.rel_pos.
  pub rel_orbit_valid : Bool
  pub rel_orbit_distance : Float
  pub adcs_functional_fault : Fault
  pub wheel1_adc_fault : Fault
  pub wheel2_adc_fault : Fault
  pub wheel3_adc_fault : Fault
  pub wheel_pot_fault : Fault

-- adcs::rwa::max_speed_read and adcs::rwa::moment_of_inertia.
pub record Wheels (Float : Type 0) : Type 0 where
  pub max_speed_read : Float
  pub moment_of_inertia : Float

abbrev pub deployment_wait_batch_size : ℕ
deployment_wait_batch_size = 100

abbrev pub deployment_wait : ℕ
deployment_wait = one_day_ccno / 48

abbrev pub deployment_wait_batch_thresh : ℕ
deployment_wait_batch_thresh = deployment_wait / deployment_wait_batch_size + 1

abbrev pub kill_switch_value : ℕ
kill_switch_value = 127

abbrev pub is_safehold : MissionState → Bool
is_safehold MissionState.safehold = true
is_safehold _ = false

abbrev pub is_disabled : PropState → Bool
is_disabled PropState.disabled = true
is_disabled _ = false

module _ {Float : Type 0} where
  -- `set(mission_state_t)`, in control cycle `cc`.
  unfoldable pub set_mission : ℕ → MissionState → MissionManager Float → MissionManager Float
  set_mission cc MissionState.safehold m = record m {
    mission_state = MissionState.safehold;
    safehold_begin_ccno = cc;
  }
  set_mission cc MissionState.leader_close_approach m = record m {
    mission_state = MissionState.leader_close_approach;
    enter_close_approach_ccno = cc;
  }
  set_mission cc MissionState.follower_close_approach m = record m {
    mission_state = MissionState.follower_close_approach;
    enter_close_approach_ccno = cc;
  }
  set_mission cc state m = record m { mission_state = state }

  -- `transition_to` with two arguments.
  unfoldable pub transition_to :
      ℕ → MissionState → AdcsState → MissionManager Float → MissionManager Float
  unfolding set_mission
  transition_to cc mission adcs m =
      let n = if is_safehold mission then record m { adcs_dcdc = false } else m in
      record (set_mission cc mission n) { adcs_state = adcs }

  -- `transition_to` with three arguments.
  unfoldable pub transition_with_prop :
      ℕ → MissionState → AdcsState → PropState → MissionManager Float → MissionManager Float
  unfolding transition_to
  transition_with_prop cc mission adcs prop m =
      let n = record m { sph_dcdc = if is_disabled prop then false else true } in
      record (transition_to cc mission adcs n) { prop_state = prop }

  -- The five questions in their order; one that says yes is the last.
  unfoldable pub check_adcs_hardware_faults : MissionManager Float → Bool × MissionManager Float
  check_adcs_hardware_faults m =
      let (b0, f0) = is_faulted m.adcs_functional_fault in
      let m0 = record m { adcs_functional_fault = f0 } in
      if b0
      then (true, m0)
      else (let (b1, f1) = is_faulted m0.wheel1_adc_fault in
          let m1 = record m0 { wheel1_adc_fault = f1 } in
          if b1
          then (true, m1)
          else (let (b2, f2) = is_faulted m1.wheel2_adc_fault in
              let m2 = record m1 { wheel2_adc_fault = f2 } in
              if b2
              then (true, m2)
              else (let (b3, f3) = is_faulted m2.wheel3_adc_fault in
                  let m3 = record m2 { wheel3_adc_fault = f3 } in
                  if b3
                  then (true, m3)
                  else (let (b4, f4) = is_faulted m3.wheel_pot_fault in
                      (b4, record m3 { wheel_pot_fault = f4 })))))

  unfoldable pub too_long_in_docking : ℕ → MissionManager Float → Bool
  too_long_in_docking cc m = ltb m.docking_timeout_limit (sub32 cc m.enter_docking_cycle)

module _ {Float : Type 0} ⦃o : FloatOps Float⦄ where
  unfoldable pub distance_to_other_sat : MissionManager Float → Float
  distance_to_other_sat m = if m.rel_orbit_valid then m.rel_orbit_distance else o.nan
