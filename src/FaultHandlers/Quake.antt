-- ===== src/FaultHandlers/Quake.antt =====
-- QuakeFaultHandler, src/fsw/FCCode/QuakeFaultHandler.cpp: what to do when the radio has lost the
-- ground. The control cycle count is an argument.
pub mod Responses
pub mod Escalation
use flight_software.Base.{
  ℕ, ◌+◌, ◌*◌, ◌/◌, Bool, true, false, ◌&&◌, ◌||◌, not, ltb, leb, ◌==◌, if◌then◌else◌, u32, sub32,
}
use flight_software.Modes.{QfhState, RadioState, FaultResponse}

-- PAN::one_day_ccno: a day in control cycles of 170 ms.
abbrev pub one_day_ccno : ℕ
one_day_ccno = 24 * 60 * 60 * 1000 / 170

-- The handler, with the fields of the registry that it reads and writes.
pub record QuakeFaultHandler : Type 0 where
  pub cur_state : QfhState
  pub cur_state_entry_ccno : ℕ
  pub qfh_enable : Bool
  pub radio_state : RadioState
  pub last_checkin_cycle : ℕ
  pub radio_power_cycle : Bool

unfoldable pub less_than_one_day_since_successful_comms : ℕ → QuakeFaultHandler → Bool
less_than_one_day_since_successful_comms cc q = ltb (sub32 cc q.last_checkin_cycle) one_day_ccno

unfoldable pub in_state_for_more_than_time : ℕ → ℕ → QuakeFaultHandler → Bool
in_state_for_more_than_time cc time q = leb time (sub32 cc q.cur_state_entry_ccno)

abbrev pub radio_is_disabled : QuakeFaultHandler → Bool
radio_is_disabled q = elim q.radio_state [ RadioState.disabled ↦ true | _ ↦ false ]

unfoldable pub transition_to : ℕ → QfhState → QuakeFaultHandler → QuakeFaultHandler
transition_to cc next q = record q { cur_state = next; cur_state_entry_ccno = cc }

-- `radio_state_fp->set(disabled); radio_power_cycle_fp->set(true);`
unfoldable pub power_cycle : QuakeFaultHandler → QuakeFaultHandler
power_cycle q = record q { radio_state = RadioState.disabled; radio_power_cycle = true }

unfoldable pub dispatch_unfaulted : ℕ → QuakeFaultHandler → FaultResponse × QuakeFaultHandler
unfolding less_than_one_day_since_successful_comms transition_to
dispatch_unfaulted cc q =
    if radio_is_disabled q || less_than_one_day_since_successful_comms cc q
    then (FaultResponse.none, q)
    else (FaultResponse.standby, transition_to cc QfhState.forced_standby q)

unfoldable pub dispatch_forced_standby : ℕ → QuakeFaultHandler → FaultResponse × QuakeFaultHandler
unfolding less_than_one_day_since_successful_comms in_state_for_more_than_time transition_to
    power_cycle
dispatch_forced_standby cc q =
    if in_state_for_more_than_time cc one_day_ccno q
    then (FaultResponse.standby, transition_to cc QfhState.powercycle_1 (power_cycle q))
    else if radio_is_disabled q || less_than_one_day_since_successful_comms cc q
    then (FaultResponse.none, transition_to cc QfhState.unfaulted q)
    else (FaultResponse.standby, q)

abbrev pub is_safehold : QfhState → Bool
is_safehold QfhState.safehold = true
is_safehold _ = false

-- In the first cycle after the entry the radio is set to configure itself.
unfoldable pub wake_radio : ℕ → QuakeFaultHandler → QuakeFaultHandler
wake_radio cc q =
    if leb cc (u32 (q.cur_state_entry_ccno + 1))
    then record q { radio_state = RadioState.config }
    else q

unfoldable pub dispatch_powercycle :
    ℕ → QfhState → QuakeFaultHandler → FaultResponse × QuakeFaultHandler
unfolding less_than_one_day_since_successful_comms in_state_for_more_than_time transition_to
    power_cycle wake_radio
dispatch_powercycle cc next q =
    let q = wake_radio cc q in
    if in_state_for_more_than_time cc (one_day_ccno / 3) q
    then (
      FaultResponse.standby,
      transition_to cc next (if not (is_safehold next) then power_cycle q else q),
    )
    else if less_than_one_day_since_successful_comms cc q
    then (FaultResponse.none, transition_to cc QfhState.unfaulted q)
    else (FaultResponse.standby, q)

unfoldable pub dispatch_safehold : ℕ → QuakeFaultHandler → FaultResponse × QuakeFaultHandler
unfolding less_than_one_day_since_successful_comms transition_to
dispatch_safehold cc q =
    if radio_is_disabled q || less_than_one_day_since_successful_comms cc q
    then (FaultResponse.none, transition_to cc QfhState.unfaulted q)
    else (FaultResponse.safehold, q)

-- The `switch` of `execute`.
unfoldable pub dispatch : QfhState → ℕ → QuakeFaultHandler → FaultResponse × QuakeFaultHandler
unfolding dispatch_unfaulted dispatch_forced_standby dispatch_powercycle dispatch_safehold
    transition_to
dispatch QfhState.unfaulted cc q = dispatch_unfaulted cc q
dispatch QfhState.forced_standby cc q = dispatch_forced_standby cc q
dispatch QfhState.powercycle_1 cc q = dispatch_powercycle cc QfhState.powercycle_2 q
dispatch QfhState.powercycle_2 cc q = dispatch_powercycle cc QfhState.powercycle_3 q
dispatch QfhState.powercycle_3 cc q = dispatch_powercycle cc QfhState.safehold q
dispatch QfhState.safehold cc q = dispatch_safehold cc q
dispatch (QfhState.undefined n) cc q = (FaultResponse.none, transition_to cc QfhState.unfaulted q)

unfoldable pub execute : ℕ → QuakeFaultHandler → FaultResponse × QuakeFaultHandler
unfolding dispatch
execute cc q = if q.qfh_enable then dispatch q.cur_state cc q else (FaultResponse.none, q)
