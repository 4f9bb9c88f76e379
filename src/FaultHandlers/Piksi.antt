-- ===== src/FaultHandlers/Piksi.antt =====
-- PiksiFaultHandler, src/fsw/FCCode/PiksiFaultHandler.cpp. The control cycle count is an argument.
use flight_software.Base.{
  ℕ, ◌+◌, ◌≤◌, ◌<◌, ◌≡◌, ◌↔◌, ◌⊎◌, Bool, true, false, not, ◌&&◌, ltb, leb, if◌then◌else◌, sub32,
  max, u32_mod, arith,
}
use flight_software.Modes.{MissionState, PiksiMode, FaultResponse}
use flight_software.Fault
use flight_software.Fault.{Fault, is_faulted}

-- The handler, with the fields of the registry that it reads.
pub record PiksiFaultHandler : Type 0 where
  pub piksi_state : PiksiMode
  pub mission_state : MissionState
  pub enter_close_approach_ccno : ℕ
  pub no_cdgps_max_wait : ℕ
  pub cdgps_delay_max_wait : ℕ
  pub fault_handler_enabled : Bool
  pub last_rtkfix_ccno : ℕ
  pub piksi_dead : Fault

unfoldable pub check_cdgps : ℕ → PiksiFaultHandler → FaultResponse
check_cdgps cc p =
    let close_appr_time = p.enter_close_approach_ccno in
    let last_rtkfix_time = p.last_rtkfix_ccno in
    let duration = sub32 cc (max close_appr_time last_rtkfix_time) in
    if leb last_rtkfix_time close_appr_time && ltb p.no_cdgps_max_wait duration
    then FaultResponse.standby
    else if ltb close_appr_time last_rtkfix_time && ltb p.cdgps_delay_max_wait duration
    then FaultResponse.standby
    else FaultResponse.none

-- The states in which a dead Piksi is no fault.
abbrev pub is_early : MissionState → Bool
is_early MissionState.startup = true
is_early MissionState.detumble = true
is_early MissionState.initialization_hold = true
is_early _ = false

abbrev pub is_dead : PiksiMode → Bool
is_dead PiksiMode.crc_error = true
is_dead PiksiMode.no_data_error = true
is_dead PiksiMode.data_error = true
is_dead _ = false

abbrev pub is_fixed_rtk : PiksiMode → Bool
is_fixed_rtk PiksiMode.fixed_rtk = true
is_fixed_rtk _ = false

abbrev pub is_close_approach : MissionState → Bool
is_close_approach MissionState.follower_close_approach = true
is_close_approach MissionState.leader_close_approach = true
is_close_approach _ = false

-- The section on RTK fixes.
unfoldable pub check_rtk : ℕ → PiksiFaultHandler → FaultResponse × PiksiFaultHandler
check_rtk cc p =
    let q = if is_fixed_rtk p.piksi_state then record p { last_rtkfix_ccno = cc } else p in
    (if is_close_approach q.mission_state then check_cdgps cc q else FaultResponse.none, q)

unfoldable pub execute : ℕ → PiksiFaultHandler → FaultResponse × PiksiFaultHandler
execute cc p =
    if not p.fault_handler_enabled
    then (FaultResponse.none, p)
    else (let should_fault = not (is_early p.mission_state) && is_dead p.piksi_state in
        let (faulted, f) = is_faulted (Fault.evaluate cc should_fault p.piksi_dead) in
        let q = record p { piksi_dead = f } in
        if faulted then (FaultResponse.standby, q) else check_rtk cc q)

-- In a close approach the handler asks for standby exactly if the wait since the later of the entry
-- and the last RTK fix is longer than allowed: the one wait if there was no fix since the entry, the
-- other if there was. Both times lie in the past.
pub check_cdgps-standby :
    (cc : ℕ) (p : PiksiFaultHandler)
    → p.enter_close_approach_ccno ≤ cc
    → p.last_rtkfix_ccno ≤ cc
    → cc < u32_mod
    → (check_cdgps cc p ≡ FaultResponse.standby) ↔ (
        ((p.last_rtkfix_ccno ≤ p.enter_close_approach_ccno)
          × (p.enter_close_approach_ccno + p.no_cdgps_max_wait < cc))
        ⊎ ((p.enter_close_approach_ccno < p.last_rtkfix_ccno)
            × (p.last_rtkfix_ccno + p.cdgps_delay_max_wait < cc)))
unfolding check_cdgps
check_cdgps-standby cc p h k b = (λ e. ground arith, λ e. ground arith)

-- Before the satellite has detumbled the handler asks for nothing, unless the ground overrides the
-- fault of a dead Piksi.
pub execute_early :
    (cc : ℕ) (p : PiksiFaultHandler)
    → is_early p.mission_state ≡ true
    → p.piksi_dead.override ≡ false
    → (execute cc p).0 ≡ FaultResponse.none
unfolding execute check_rtk is_faulted Fault.evaluate
execute_early cc p h k = ground arith
