-- ===== src/Examples/Mission.antt =====
-- The mission manager at concrete inputs.
use flight_software.Base.{ℕ, ◌%◌, ◌==◌, if◌then◌else◌, both_branches, ◌≡◌, refl, some, arith}
use flight_software.Modes.{MissionState, FaultResponse}
use flight_software.MissionManager.State.{
  MissionManager, transition_to, set_mission, distance_to_other_sat,
}
use flight_software.MissionManager.Execute.{
  execute, dispatch, dispatch_standby, dispatch_close_approach, undesignated,
}
use flight_software.MissionManager.FaultResponse.{IsSafe, LeavesFields, cycles_with, safehold_lasts}
use flight_software.MissionManager.Transitions.{◌↝◌, execute-↝}
use flight_software.MissionManager.Docking.{
  cycles, entered, given_up, docking_gives_up, execute_stale_docking,
}
use flight_software.Examples.Values.{Number, number_ops, number_laws, satellite, wheels}

-- Fault handlers that always answer alike and change nothing.
abbrev answers : FaultResponse → MissionManager Number → FaultResponse × MissionManager Number
answers response m = (response, m)

-- Safe hold in cycle 40, then standby, none and safe hold in turn.
abbrev in_turn : ℕ → MissionManager Number → FaultResponse × MissionManager Number
in_turn k =
    if k % 3 == 1
    then answers FaultResponse.safehold
    else if k % 3 == 2
    then answers FaultResponse.standby
    else answers FaultResponse.none

same : {response : FaultResponse} → LeavesFields (answers response)
same = record {
  mission = λ m. refl;
  adcs = λ m. refl;
  prop = λ m. refl;
  sph = λ m. refl;
  wheels = λ m. refl;
  designation = λ m. refl;
}

in_turn-LeavesFields : (k : ℕ) → LeavesFields (in_turn k)
in_turn-LeavesFields k =
    both_branches LeavesFields (k % 3 == 1) same (both_branches LeavesFields (k % 3 == 2) same same)

safehold_lasts_example :
    (r : MissionManager Number) × (cycles_with wheels in_turn 21 40 (satellite MissionState.docking)
      ≡ some r)
    × IsSafe r
safehold_lasts_example =
    safehold_lasts wheels in_turn 20 40 (satellite MissionState.docking) in_turn-LeavesFields refl
      refl

-- A follower in standby starts to follow, and stays at it while the orbit is unknown.
starts :
    execute wheels (answers FaultResponse.none) 40 (satellite MissionState.standby)
    ≡ some (satellite MissionState.follower)
unfolding execute dispatch dispatch_standby transition_to set_mission
starts = refl

execute-↝_example : MissionState.standby ↝ MissionState.follower
execute-↝_example =
    execute-↝ wheels (answers FaultResponse.none) 40 (satellite MissionState.standby)
      (satellite MissionState.follower) refl starts

-- A satellite in a close approach, whose orbit is unknown, stays there.
waits :
    execute wheels (answers FaultResponse.none) 40 (satellite MissionState.follower_close_approach)
    ≡ some (satellite MissionState.follower_close_approach)
unfolding execute dispatch dispatch_close_approach distance_to_other_sat
waits = refl

docking_gives_up_example :
    (cycles wheels (answers FaultResponse.none) 4 40 (satellite MissionState.docking)
      ≡ some (entered 40 (satellite MissionState.docking)))
    × (cycles wheels (answers FaultResponse.none) 7 40 (satellite MissionState.docking)
        ≡ some (given_up 46 (entered 40 (satellite MissionState.docking))))
docking_gives_up_example =
    docking_gives_up wheels (answers FaultResponse.none) (λ m. refl) 3 40
      (satellite MissionState.docking) refl refl refl (omega arith) (omega arith)

-- A satellite that has noted the start of docking, after the fault response, and when it docks again.
abbrev docking : MissionManager Number
docking = entered 20 (satellite MissionState.docking)

abbrev fallen_back : MissionManager Number
fallen_back = undesignated (record docking { mission_state = MissionState.standby })

falls_back : execute wheels (answers FaultResponse.standby) 22 docking ≡ some fallen_back
unfolding execute transition_to set_mission
falls_back = refl

execute_stale_docking_example :
    (MissionState.standby ≡ MissionState.standby)
    × (execute wheels (answers FaultResponse.none) 90 docking ≡ some (given_up 90 docking))
execute_stale_docking_example =
    execute_stale_docking wheels (answers FaultResponse.standby) (answers FaultResponse.none) 22 90
      docking fallen_back docking refl refl refl falls_back refl refl refl refl refl (omega arith)
