-- ===== src/MissionManager/Execute.antt =====
-- The dispatch functions of the mission manager and its control cycle. The control cycle count is an
-- argument, and the main fault handler a function, as it is behind a pointer in the source. `none`
-- stands for a control cycle that does not return, which the kill switch asks for.
use flight_software.Base.{
  ℕ, ◌+◌, ◌%◌, Bool, true, false, not, ◌&&◌, Option, none, some, ltb, leb, ◌==◌, if◌then◌else◌,
  sub32,
}
use flight_software.Modes.{
  MissionState, AdcsState, PropState, RadioState, SatDesignation, FaultResponse,
}
use flight_software.Floats.{FloatOps}
use flight_software.FaultHandlers.Quake.{one_day_ccno}
use flight_software.MissionManager.State.{
  MissionManager, Wheels, deployment_wait_batch_size, deployment_wait_batch_thresh,
  kill_switch_value, transition_to, transition_with_prop, check_adcs_hardware_faults,
  too_long_in_docking, distance_to_other_sat,
}

abbrev pub is_radio_disabled : RadioState → Bool
is_radio_disabled RadioState.disabled = true
is_radio_disabled _ = false

-- The states in which no fault response is taken.
abbrev pub is_deaf : MissionState → Bool
is_deaf MissionState.startup = true
is_deaf MissionState.manual = true
is_deaf _ = false

-- The states that a recommendation of standby does not move.
abbrev pub stays_on_standby : MissionState → Bool
stays_on_standby MissionState.safehold = true
stays_on_standby MissionState.initialization_hold = true
stays_on_standby MissionState.detumble = true
stays_on_standby MissionState.standby = true
stays_on_standby _ = false

module _ {Float : Type 0} where
  -- Step 2 of the startup state, when the deployment wait is over.
  unfoldable pub finish_deployment : ℕ → MissionManager Float → MissionManager Float
  unfolding transition_with_prop check_adcs_hardware_faults
  finish_deployment cc m =
      let m = record m {
        piksi_off = false;
        piksi_powercycle = true;
        radio_state = if is_radio_disabled m.radio_state then RadioState.config else m.radio_state;
      } in
      let (faulted, m) = check_adcs_hardware_faults m in
      if faulted
      then transition_with_prop cc MissionState.initialization_hold AdcsState.detumble
          PropState.idle m
      else transition_with_prop cc MissionState.detumble AdcsState.detumble PropState.idle
          (record m { is_deployed = true })

  unfoldable pub dispatch_startup : ℕ → MissionManager Float → Option (MissionManager Float)
  unfolding finish_deployment
  dispatch_startup cc m =
      if m.kill_switch == kill_switch_value
      then none
      else if ltb m.deployment_wait_elapsed deployment_wait_batch_thresh
      then some (
          if cc % deployment_wait_batch_size == 0
          then record m { deployment_wait_elapsed = (m.deployment_wait_elapsed + 1) % 256 }
          else m)
      else some (finish_deployment cc m)

  unfoldable pub dispatch_standby : ℕ → MissionManager Float → MissionManager Float
  unfolding transition_to
  dispatch_standby cc m = elim m.sat_designation [
    | SatDesignation.follower ↦ transition_to cc MissionState.follower AdcsState.point_standby m
    | SatDesignation.leader ↦ transition_to cc MissionState.leader AdcsState.point_standby m
    | _ ↦ m
  ]

  unfoldable pub dispatch_docking : ℕ → MissionManager Float → MissionManager Float
  unfolding transition_to too_long_in_docking
  dispatch_docking cc m =
      let m =
        if not m.have_set_docking_entry_ccno
        then record m { enter_docking_cycle = cc; have_set_docking_entry_ccno = true }
        else m in
      if m.docked
      then record (transition_to cc MissionState.docked AdcsState.zero_torque
          (record m { have_set_docking_entry_ccno = false })) {
            sat_designation = SatDesignation.undecided;
          }
      else if too_long_in_docking cc m
      then transition_to cc MissionState.standby AdcsState.point_standby
          (record m { have_set_docking_entry_ccno = false })
      else m

  unfoldable pub dispatch_safehold : ℕ → MissionManager Float → MissionManager Float
  dispatch_safehold cc m =
      if leb one_day_ccno (sub32 cc m.safehold_begin_ccno) then record m { reset_cmd = true } else m

module _ {Float : Type 0} ⦃o : FloatOps Float⦄ where
  -- The DC-DC converter of the wheels is switched on one cycle before the state is left.
  unfoldable pub dispatch_detumble : Wheels Float → ℕ → MissionManager Float → MissionManager Float
  unfolding transition_to
  dispatch_detumble w cc m =
      let threshold =
        o.to_float (o.mul (o.mul w.max_speed_read w.moment_of_inertia) m.detumble_safety_factor) in
      if m.attitude_estimator_valid && o.le m.momentum (o.mul threshold threshold)
      then (if not m.adcs_dcdc
          then record m { adcs_dcdc = true }
          else transition_to cc MissionState.standby AdcsState.point_standby m)
      else m

  -- `dispatch_follower` and `dispatch_leader`, which differ in the state that they lead to.
  unfoldable pub dispatch_far : MissionState → ℕ → MissionManager Float → MissionManager Float
  unfolding transition_to distance_to_other_sat
  dispatch_far next cc m =
      if o.lt (distance_to_other_sat m) m.close_approach_trigger_dist
      then transition_to cc next AdcsState.point_docking m
      else m

  -- `dispatch_follower_close_approach` and `dispatch_leader_close_approach`, which are alike.
  unfoldable pub dispatch_close_approach : ℕ → MissionManager Float → MissionManager Float
  unfolding transition_to distance_to_other_sat
  dispatch_close_approach cc m =
      if o.lt (distance_to_other_sat m) m.docking_trigger_dist && m.docking_config_cmd
      then transition_to cc MissionState.docking AdcsState.zero_torque m
      else m

  -- Step 2 of `execute`.
  unfoldable pub dispatch :
      Wheels Float → MissionState → ℕ → MissionManager Float → Option (MissionManager Float)
  unfolding transition_to dispatch_startup dispatch_detumble dispatch_standby dispatch_far
      dispatch_close_approach dispatch_docking dispatch_safehold
  dispatch w MissionState.startup cc m = dispatch_startup cc m
  dispatch w MissionState.detumble cc m = some (dispatch_detumble w cc m)
  dispatch w MissionState.initialization_hold cc m = some m
  dispatch w MissionState.standby cc m = some (dispatch_standby cc m)
  dispatch w MissionState.follower cc m =
      some (dispatch_far MissionState.follower_close_approach cc m)
  dispatch w MissionState.leader cc m = some (dispatch_far MissionState.leader_close_approach cc m)
  dispatch w MissionState.follower_close_approach cc m = some (dispatch_close_approach cc m)
  dispatch w MissionState.leader_close_approach cc m = some (dispatch_close_approach cc m)
  dispatch w MissionState.docking cc m = some (dispatch_docking cc m)
  dispatch w MissionState.docked cc m = some m
  dispatch w MissionState.safehold cc m = some (dispatch_safehold cc m)
  dispatch w MissionState.manual cc m = some m
  dispatch w (MissionState.undefined n) cc m =
      some (transition_to cc MissionState.safehold AdcsState.startup m)

  abbrev pub undesignated : MissionManager Float → MissionManager Float
  undesignated m = record m { sat_designation = SatDesignation.undecided }

  -- `execute`, in control cycle `cc`. The state is the one before the fault handler runs.
  unfoldable pub execute :
      Wheels Float
      → (MissionManager Float → FaultResponse × MissionManager Float)
      → ℕ
      → MissionManager Float
      → Option (MissionManager Float)
  unfolding dispatch transition_to transition_with_prop
  execute w handler cc m =
      let state = m.mission_state in
      let (response, n) = handler m in
      let proceed = dispatch w state cc n in
      if is_deaf state then proceed else elim response [
        | FaultResponse.safehold ↦ some (
            undesignated (
              transition_with_prop cc MissionState.safehold AdcsState.startup PropState.disabled n))
        | FaultResponse.standby ↦
            if stays_on_standby state
            then proceed
            else some
                (undesignated (transition_to cc MissionState.standby AdcsState.point_standby n))
        | FaultResponse.none ↦ proceed
      ]
