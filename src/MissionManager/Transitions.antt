-- ===== src/MissionManager/Transitions.antt =====
-- The mission states that a control cycle leads to.
use flight_software.Base.{ℕ, ◌≡◌, Bool, true, false, some, arith}
use flight_software.Modes.{MissionState, FaultResponse}
use flight_software.Floats.{FloatOps, NanLaws}
use flight_software.MissionManager.State.{
  MissionManager, Wheels, transition_to, transition_with_prop, set_mission, distance_to_other_sat,
  check_adcs_hardware_faults,
}
use flight_software.MissionManager.Execute.{
  execute, is_deaf, stays_on_standby, dispatch, dispatch_startup, finish_deployment,
  dispatch_detumble, dispatch_standby, dispatch_far, dispatch_close_approach, dispatch_docking,
  dispatch_safehold,
}

-- `a ↝ b`: in one control cycle the mission can go from `a` to `b`.
infix 4 ◌↝◌
pub data ◌↝◌ : MissionState → MissionState → Type 0 where
  stays : {a : MissionState} → a ↝ a
  deploys : MissionState.startup ↝ MissionState.detumble
  holds : MissionState.startup ↝ MissionState.initialization_hold
  slows : MissionState.detumble ↝ MissionState.standby
  follows : MissionState.standby ↝ MissionState.follower
  leads : MissionState.standby ↝ MissionState.leader
  follower_nears : MissionState.follower ↝ MissionState.follower_close_approach
  leader_nears : MissionState.leader ↝ MissionState.leader_close_approach
  follower_docks : MissionState.follower_close_approach ↝ MissionState.docking
  leader_docks : MissionState.leader_close_approach ↝ MissionState.docking
  docks : MissionState.docking ↝ MissionState.docked
  gives_up : MissionState.docking ↝ MissionState.standby
  falls_back :
      {a : MissionState} → stays_on_standby a ≡ false → is_deaf a ≡ false → a ↝ MissionState.standby
  shelters : {a : MissionState} → is_deaf a ≡ false → a ↝ MissionState.safehold

-- The states of the approach, up to docking.
abbrev pub is_near : MissionState → Bool
is_near MissionState.follower_close_approach = true
is_near MissionState.leader_close_approach = true
is_near MissionState.docking = true
is_near _ = false

ruleset arrows = (
  stays, deploys, holds, slows, follows, leads, follower_nears, leader_nears, follower_docks,
  leader_docks, docks, gives_up, falls_back, shelters,
)

module _ {Float : Type 0} ⦃o : FloatOps Float⦄ where
  -- The dispatch function of a state alone.
  dispatch-↝ :
      (w : Wheels Float) (state : MissionState) (cc : ℕ) (m n : MissionManager Float)
      → m.mission_state ≡ state
      → dispatch w state cc m ≡ some n
      → state ↝ n.mission_state
  unfolding dispatch dispatch_startup finish_deployment dispatch_detumble dispatch_standby
      dispatch_far dispatch_close_approach dispatch_docking dispatch_safehold transition_to
      transition_with_prop set_mission check_adcs_hardware_faults
  dispatch-↝ w MissionState.startup cc m n h k = grind (arith, arrows)
  dispatch-↝ w MissionState.detumble cc m n h k = grind (arith, arrows)
  dispatch-↝ w MissionState.initialization_hold cc m n h k = grind (arith, arrows)
  dispatch-↝ w MissionState.standby cc m n h k = grind (arith, arrows)
  dispatch-↝ w MissionState.follower cc m n h k = grind (arith, arrows)
  dispatch-↝ w MissionState.leader cc m n h k = grind (arith, arrows)
  dispatch-↝ w MissionState.follower_close_approach cc m n h k = grind (arith, arrows)
  dispatch-↝ w MissionState.leader_close_approach cc m n h k = grind (arith, arrows)
  dispatch-↝ w MissionState.docking cc m n h k = grind (arith, arrows)
  dispatch-↝ w MissionState.docked cc m n h k = grind (arith, arrows)
  dispatch-↝ w MissionState.safehold cc m n h k = grind (arith, arrows)
  dispatch-↝ w MissionState.manual cc m n h k = grind (arith, arrows)
  dispatch-↝ w (MissionState.undefined x) cc m n h k = grind (arith, arrows)

  -- In one control cycle that returns the mission follows an arrow of the diagram, whatever the fault
  -- handler answers, the sensors read and the ground has set, as long as the fault handler leaves
  -- the mission state alone.
  pub execute-↝ :
      (w : Wheels Float) (handler : MissionManager Float → FaultResponse × MissionManager Float)
      (cc : ℕ) (m n : MissionManager Float)
      → (handler m).1.mission_state ≡ m.mission_state
      → execute w handler cc m ≡ some n
      → m.mission_state ↝ n.mission_state
  unfolding execute transition_to transition_with_prop set_mission
  execute-↝ w handler cc m n h k =
      grind (arith, arrows, dispatch-↝ w m.mission_state cc (handler m).1 n h)

  -- Without an estimate of the relative orbit no control cycle starts a close approach or docking,
  -- whatever the distances that the ground has set.
  pub execute_without_orbit :
      ⦃l : NanLaws Float⦄ (w : Wheels Float)
      (handler : MissionManager Float → FaultResponse × MissionManager Float) (cc : ℕ)
      (m n : MissionManager Float)
      → (handler m).1.mission_state ≡ m.mission_state
      → (handler m).1.rel_orbit_valid ≡ false
      → execute w handler cc m ≡ some n
      → is_near n.mission_state ≡ true
      → n.mission_state ≡ m.mission_state
  unfolding execute dispatch dispatch_startup finish_deployment dispatch_detumble dispatch_standby
      dispatch_far dispatch_close_approach dispatch_docking dispatch_safehold transition_to
      transition_with_prop set_mission check_adcs_hardware_faults distance_to_other_sat
  execute_without_orbit ⦃l⦄ w handler cc m n h k e i =
      let n' = (handler m).1 in
      ground (arith, l.nan-lt n'.close_approach_trigger_dist, l.nan-lt n'.docking_trigger_dist)
