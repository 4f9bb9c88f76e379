-- ===== src/Modes.antt =====
-- The enumerations of src/fsw/FCCode/*.enum. Their fields hold a number that the ground can write
-- to some of them; the n-th number past the last enumerator is kept as `undefined n`, which the
-- `default` branches take.
use flight_software.Base.{ℕ, ◌+◌, ◌≡◌, Bool, true, ◌==◌, arith}

-- mission_state_t, the values of pan.state.
pub data MissionState : Type 0 where
  startup detumble initialization_hold standby follower leader : MissionState
  follower_close_approach leader_close_approach docking docked safehold manual : MissionState
  undefined : ℕ → MissionState

unfoldable pub mission_code : MissionState → ℕ
mission_code startup = 0
mission_code detumble = 1
mission_code initialization_hold = 2
mission_code standby = 3
mission_code follower = 4
mission_code leader = 5
mission_code follower_close_approach = 6
mission_code leader_close_approach = 7
mission_code docking = 8
mission_code docked = 9
mission_code safehold = 10
mission_code manual = 11
mission_code (undefined n) = n + 12

unfoldable pub same_mission : MissionState → MissionState → Bool
unfolding mission_code
same_mission a b = mission_code a == mission_code b

-- adcs_state_t, the values of adcs.state.
pub data AdcsState : Type 0 where
  manual startup limited zero_torque zero_l detumble point_manual point_standby : AdcsState
  point_docking : AdcsState
  undefined : ℕ → AdcsState

-- prop_state_t, the values of prop.state.
pub data PropState : Type 0 where
  disabled idle await_pressurizing pressurizing venting firing await_firing : PropState
  handling_fault manual : PropState
  undefined : ℕ → PropState

-- The number of an enumerator, and the comparison of two values.
unfoldable pub prop_code : PropState → ℕ
prop_code disabled = 0
prop_code idle = 1
prop_code await_pressurizing = 2
prop_code pressurizing = 3
prop_code venting = 4
prop_code firing = 5
prop_code await_firing = 6
prop_code handling_fault = 7
prop_code manual = 8
prop_code (undefined n) = n + 9

unfoldable pub same_prop : PropState → PropState → Bool
unfolding prop_code
same_prop a b = prop_code a == prop_code b

pub same_prop→eq : (a b : PropState) → same_prop a b ≡ true → a ≡ b
unfolding same_prop
same_prop→eq a b h = ground arith

pub same_prop_refl : (a : PropState) → same_prop a a ≡ true
unfolding same_prop
same_prop_refl a = ground arith

-- radio_state_t, the values of radio.state.
pub data RadioState : Type 0 where
  wait transceive read write config disabled : RadioState
  undefined : ℕ → RadioState

-- piksi_mode_t, the values of piksi.state.
pub data PiksiMode : Type 0 where
  spp fixed_rtk float_rtk no_fix sync_error nsat_error crc_error time_limit_error : PiksiMode
  data_error no_data_error : PiksiMode
  undefined : ℕ → PiksiMode

-- qfh_state_t, the values of qfh.state.
pub data QfhState : Type 0 where
  unfaulted forced_standby powercycle_1 powercycle_2 powercycle_3 safehold : QfhState
  undefined : ℕ → QfhState

-- sat_designation_t, the values of pan.sat_designation.
pub data SatDesignation : Type 0 where
  undecided leader follower : SatDesignation
  undefined : ℕ → SatDesignation

-- fault_response_t.
pub data FaultResponse : Type 0 where
  none safehold standby : FaultResponse
