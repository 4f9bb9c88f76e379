-- ===== src/FaultHandlers/Simple.antt =====
-- SimpleFaultHandler and SuperSimpleFaultHandler, src/fsw/FCCode/SimpleFaultHandler.cpp.
use flight_software.Base.{◌≡◌, Bool, true, false, ◌||◌, List, [], ◌∷◌, if◌then◌else◌, arith}
use flight_software.Modes.{MissionState, FaultResponse, same_mission, mission_code}
use flight_software.Fault.{Fault, is_faulted}

-- `std::find` over the active states.
unfoldable pub is_active : MissionState → List MissionState → Bool
unfolding same_mission
is_active state [] = false
is_active state (a ∷ active) = same_mission a state || is_active state active

-- determine_recommended_state, and `execute` of SuperSimpleFaultHandler. The fault is asked only in
-- an active state.
unfoldable pub execute :
    List MissionState → MissionState → MissionState → Fault → FaultResponse × Fault
execute active_states recommended_state state fault =
    if is_active state active_states
    then (let (faulted, fault') = is_faulted fault in
        (
          if faulted
              then (if same_mission recommended_state MissionState.standby
                  then FaultResponse.standby
                  else FaultResponse.safehold)
              else FaultResponse.none,
          fault',
        ))
    else (FaultResponse.none, fault)

-- active_state_lists. List 0: low battery.
abbrev pub active_states_0 : List MissionState
active_states_0 =
    MissionState.initialization_hold ∷ MissionState.detumble ∷ MissionState.standby
    ∷ MissionState.follower ∷ MissionState.leader ∷ MissionState.follower_close_approach
    ∷ MissionState.leader_close_approach ∷ MissionState.docked ∷ []

-- List 1: the ADCS faults.
abbrev pub active_states_1 : List MissionState
active_states_1 =
    MissionState.standby ∷ MissionState.detumble ∷ MissionState.follower ∷ MissionState.leader
    ∷ MissionState.follower_close_approach ∷ MissionState.leader_close_approach
    ∷ MissionState.docked ∷ []

-- List 2: low pressure.
abbrev pub active_states_2 : List MissionState
active_states_2 =
    MissionState.standby ∷ MissionState.follower ∷ MissionState.leader
    ∷ MissionState.follower_close_approach ∷ MissionState.leader_close_approach
    ∷ MissionState.docked ∷ []

-- List 3: the attitude estimator.
abbrev pub active_states_3 : List MissionState
active_states_3 =
    MissionState.standby ∷ MissionState.follower ∷ MissionState.leader
    ∷ MissionState.follower_close_approach ∷ MissionState.leader_close_approach ∷ []

-- The four lists of active states.
pub data IsActiveList : List MissionState → Type 0 where
  list_0 : IsActiveList active_states_0
  list_1 : IsActiveList active_states_1
  list_2 : IsActiveList active_states_2
  list_3 : IsActiveList active_states_3

-- The states in which no simple fault handler acts.
abbrev pub is_quiet : MissionState → Bool
is_quiet MissionState.startup = true
is_quiet MissionState.docking = true
is_quiet MissionState.safehold = true
is_quiet MissionState.manual = true
is_quiet _ = false

-- On startup, in docking, in safe hold and in manual mode a simple fault handler with any of the four
-- lists recommends nothing and does not ask its fault.
pub execute_quiet :
    (active : List MissionState) (recommended state : MissionState) (fault : Fault)
    → IsActiveList active
    → is_quiet state ≡ true
    → execute active recommended state fault ≡ (FaultResponse.none, fault)
unfolding execute is_active same_mission mission_code
execute_quiet active recommended state fault list_0 h = ground arith
execute_quiet active recommended state fault list_1 h = ground arith
execute_quiet active recommended state fault list_2 h = ground arith
execute_quiet active recommended state fault list_3 h = ground arith
