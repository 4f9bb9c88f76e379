-- ===== src/Devices/Piksi.antt =====
-- The GPS receiver's control task, src/fsw/FCCode/PiksiControlTask.cpp. What the driver has read is
-- an argument, and vectors are of any type.
use flight_software.Base.{
  ℕ, ◌≤◌, ◌≡◌, ◌⊎◌, ◌↔◌, Bool, true, false, not, ◌&&◌, ◌==◌, ltb, if◌then◌else◌, arith,
}
use flight_software.Modes.{PiksiMode}

-- gps_time_t of src/common/GPSTime.hpp.
pub record GpsTime : Type 0 where
  pub wn : ℕ
  pub tow : ℕ
  pub ns : ℕ
  pub is_set : Bool

-- The driver's answers in a control cycle; `msg_time` is its time as a gps_time_t.
pub record Readout (Vector : Type 0) : Type 0 where
  pub read_out : ℕ
  pub read_microdelta : ℕ
  pub msg_time : GpsTime
  pub pos_tow : ℕ
  pub msg_pos : Vector
  pub vel_tow : ℕ
  pub msg_vel : Vector
  pub baseline_tow : ℕ
  pub msg_baseline_pos : Vector
  pub nsats : ℕ
  pub baseline_flag : ℕ

pub record PiksiControlTask (Vector : Type 0) : Type 0 where
  pub current_state : PiksiMode
  pub microdelta : ℕ
  pub time : GpsTime
  pub pos : Vector
  pub vel : Vector
  pub baseline_pos : Vector

abbrev pub piksi_md_threshold : ℕ
piksi_md_threshold = 100000

-- The modes with a position.
abbrev pub is_fix : PiksiMode → Bool
is_fix PiksiMode.spp = true
is_fix PiksiMode.fixed_rtk = true
is_fix PiksiMode.float_rtk = true
is_fix _ = false

module _ {Vector : Type 0} where
  -- The times of the messages that the readout promises agree.
  unfoldable pub check_time : Readout Vector → ℕ → Bool
  check_time r read_out =
      let tow = r.msg_time.tow in
      if read_out == 1
      then tow == r.pos_tow && tow == r.vel_tow && tow == r.baseline_tow
      else tow == r.pos_tow && tow == r.vel_tow

  -- The end of `execute`.
  unfoldable pub store :
      Readout Vector → ℕ → PiksiMode → PiksiControlTask Vector → PiksiControlTask Vector
  store r read_out state p = record p {
    current_state = state;
    time = r.msg_time;
    pos = r.msg_pos;
    vel = r.msg_vel;
    baseline_pos = if read_out == 1 then r.msg_baseline_pos else p.baseline_pos;
  }

  -- The branch of `execute` for a readout with a position.
  unfoldable pub take_fix : Readout Vector → ℕ → PiksiControlTask Vector → PiksiControlTask Vector
  unfolding check_time store
  take_fix r read_out p =
      if not (check_time r read_out)
      then record p { current_state = PiksiMode.sync_error }
      else if ltb r.nsats 4
      then record p { current_state = PiksiMode.nsat_error }
      else if read_out == 0
      then store r read_out PiksiMode.spp p
      else if r.baseline_flag == 1
      then store r read_out PiksiMode.fixed_rtk p
      else if r.baseline_flag == 0
      then store r read_out PiksiMode.float_rtk p
      else record p { current_state = PiksiMode.data_error }

  unfoldable pub execute : Readout Vector → PiksiControlTask Vector → PiksiControlTask Vector
  unfolding take_fix
  execute r p =
      let p = record p { microdelta = r.read_microdelta } in
      let read_out =
        if ltb piksi_md_threshold r.read_microdelta && ltb r.read_out 2 then 3 else r.read_out in
      if read_out == 5
      then record p { current_state = PiksiMode.time_limit_error }
      else if read_out == 4
      then record p { current_state = PiksiMode.no_data_error }
      else if read_out == 3
      then record p { current_state = PiksiMode.crc_error }
      else if read_out == 2
      then record p { current_state = PiksiMode.no_fix }
      else if ltb read_out 2
      then take_fix r read_out p
      else record p { current_state = PiksiMode.data_error }

  -- A control cycle either ends in a mode with a position, with time, position and velocity from this
  -- readout, whose messages are of one time and rest on four satellites at least, or in another mode
  -- with all of them and the baseline as they were.
  pub execute_fix :
      (r : Readout Vector) (p : PiksiControlTask Vector)
      → let n = execute r p in
        ((is_fix n.current_state ≡ true)
          × (n.time ≡ r.msg_time)
          × (n.pos ≡ r.msg_pos)
          × (n.vel ≡ r.msg_vel)
          × (r.pos_tow ≡ r.msg_time.tow)
          × (r.vel_tow ≡ r.msg_time.tow)
          × (4 ≤ r.nsats)
          × (r.read_microdelta ≤ piksi_md_threshold))
        ⊎ ((is_fix n.current_state ≡ false)
            × (n.time ≡ p.time)
            × (n.pos ≡ p.pos)
            × (n.vel ≡ p.vel)
            × (n.baseline_pos ≡ p.baseline_pos))
  unfolding execute take_fix check_time store
  execute_fix r p = ground arith

  -- The mode is a fixed RTK solution exactly if the readout has a baseline marked as fixed, on time,
  -- with the position and the velocity of the same time and four satellites or more.
  pub execute_fixed_rtk :
      (r : Readout Vector) (p : PiksiControlTask Vector)
      → ((execute r p).current_state ≡ PiksiMode.fixed_rtk) ↔ (
          (r.read_out ≡ 1)
          × (r.read_microdelta ≤ piksi_md_threshold)
          × (r.pos_tow ≡ r.msg_time.tow)
          × (r.vel_tow ≡ r.msg_time.tow)
          × (r.baseline_tow ≡ r.msg_time.tow)
          × (4 ≤ r.nsats)
          × (r.baseline_flag ≡ 1))
  unfolding execute take_fix check_time store
  execute_fixed_rtk r p = (λ e. ground arith, λ e. ground arith)
