-- ===== src/QuakeManager/Manager.antt =====
-- QuakeManager, src/fsw/FCCode/QuakeManager.cpp: its fields and its control cycle in the flight
-- build. The control cycle count is an argument.
use flight_software.Base.{
  ℕ, zero, suc, ◌+◌, ◌*◌, ◌/◌, ◌%◌, max, Bool, true, false, not, ◌&&◌, ◌||◌, List, [], ◌∷◌, ◌++◌,
  some, ltb, leb, ◌==◌, if◌then◌else◌, sub32,
}
use flight_software.Modes.{RadioState}
use flight_software.QuakeManager.ControlTask
use flight_software.QuakeManager.ControlTask.{RadioStatus, Command, QuakeControlTask}

-- What the manager meets in a control cycle: the driver's answers, its latest SBDIX results, the
-- bytes from the snapshot pointer on, and whether the radio is being power cycled.
pub record Surroundings : Type 0 where
  pub answer : Command → RadioStatus
  pub mo_status : ℕ
  pub mt_status : ℕ
  pub mt_length : ℕ
  pub radio_mo_packet : ℕ → ℕ
  pub radio_power_cycle : Bool

pub record QuakeManager : Type 0 where
  pub qct : QuakeControlTask
  pub radio_state : RadioState
  pub cycle_of_entry : ℕ
  pub max_snapshot_size : ℕ
  pub mo_buffer_copy : List ℕ
  pub mo_idx : ℕ
  pub unexpected_flag : Bool
  pub max_wait_cycles : ℕ
  pub max_transceive_cycles : ℕ
  pub radio_err : RadioStatus
  pub radio_mt_len : ℕ
  pub last_checkin_cycle : ℕ

abbrev pub max_config_cycles : ℕ
max_config_cycles = 5

abbrev pub max_write_cycles : ℕ
max_write_cycles = 5

abbrev pub max_read_cycles : ℕ
max_read_cycles = 5

abbrev pub packet_size : ℕ
packet_size = 70

-- The first `n` bytes from a pointer on, as memcpy reads them.
abbrev pub bytes_from : ℕ → (ℕ → ℕ) → List ℕ
bytes_from zero f = []
bytes_from (suc n) f = bytes_from n f ++ (f n ∷ [])

-- `init`, with the snapshot size of the downlink producer and new memory filled with zeros.
unfoldable pub init : ℕ → QuakeManager → QuakeManager
init snapshot_size m =
    let size = max (snapshot_size + 1) packet_size in
    record m { max_snapshot_size = size; mo_buffer_copy = bytes_from size (λ i. 0) }

unfoldable pub transition_radio_state : ℕ → RadioState → QuakeManager → QuakeManager
transition_radio_state cc new_state m = record m {
  cycle_of_entry = cc;
  qct = record m.qct { fn_seq_num = 0 };
  radio_state = new_state;
}

unfoldable pub no_more_cycles : ℕ → ℕ → QuakeManager → Bool
no_more_cycles cc max_cycles m = ltb max_cycles (sub32 cc m.cycle_of_entry)

unfoldable pub has_finished : ℕ → QuakeManager → Bool
has_finished cc m = m.qct.fn_seq_num == 0 && ltb 1 (sub32 cc m.cycle_of_entry)

unfoldable pub has_just_entered : ℕ → QuakeManager → Bool
has_just_entered cc m = m.qct.fn_seq_num == 0 && leb (sub32 cc m.cycle_of_entry) 1

unfoldable pub is_actual_error : RadioStatus → Bool
is_actual_error RadioStatus.ok = false
is_actual_error RadioStatus.port_unavailable = false
is_actual_error _ = true

unfoldable pub handle_err : ℕ → RadioStatus → QuakeManager → QuakeManager
unfolding transition_radio_state
handle_err cc err_code m =
    transition_radio_state cc RadioState.wait
      (record m { radio_err = err_code; unexpected_flag = true })

unfoldable pub copy_next_snapshot : Surroundings → QuakeManager → QuakeManager
copy_next_snapshot s m = record m {
  mo_buffer_copy = bytes_from m.max_snapshot_size s.radio_mo_packet;
}

unfoldable pub copy_next_packet : QuakeManager → QuakeManager
copy_next_packet m = record m {
  qct = record m.qct { mo_msg_p = some (packet_size * m.mo_idx); mo_msg_len = packet_size };
  mo_idx = (m.mo_idx + 1) % (m.max_snapshot_size / packet_size);
}

-- Runs the next command of the sequence of a state.
unfoldable pub run_command : Surroundings → RadioState → QuakeManager → RadioStatus × QuakeManager
unfolding ControlTask.execute
run_command s state m =
    let (err_code, q) = ControlTask.execute s.answer state m.qct in (err_code, record m { qct = q })

unfoldable pub dispatch_disabled : ℕ → QuakeManager → QuakeManager
unfolding transition_radio_state
dispatch_disabled cc m = transition_radio_state cc RadioState.disabled m

unfoldable pub dispatch_config : Surroundings → ℕ → QuakeManager → QuakeManager
unfolding no_more_cycles handle_err run_command is_actual_error has_finished transition_radio_state
dispatch_config s cc m =
    let (err_code, n) = run_command s RadioState.config m in
    if no_more_cycles cc max_config_cycles m
    then handle_err cc RadioStatus.timeout m
    else if is_actual_error err_code
    then handle_err cc err_code n
    else if has_finished cc n
    then transition_radio_state cc RadioState.write (record n { mo_idx = 0 })
    else n

unfoldable pub dispatch_wait : Surroundings → ℕ → QuakeManager → QuakeManager
unfolding no_more_cycles transition_radio_state
dispatch_wait s cc m =
    let powered = not s.radio_power_cycle in
    if not (no_more_cycles cc m.max_wait_cycles m) || not powered
    then m
    else if m.unexpected_flag
    then transition_radio_state cc RadioState.config (record m { unexpected_flag = false })
    else transition_radio_state cc RadioState.write (record m { mo_idx = 0 })

-- The copying at the start of `dispatch_write`.
unfoldable pub load_next : Surroundings → ℕ → QuakeManager → QuakeManager
unfolding has_just_entered copy_next_snapshot copy_next_packet
load_next s cc m =
    if has_just_entered cc m
    then copy_next_packet (if m.mo_idx == 0 then copy_next_snapshot s m else m)
    else m

unfoldable pub dispatch_write : Surroundings → ℕ → QuakeManager → QuakeManager
unfolding no_more_cycles handle_err load_next run_command is_actual_error has_finished
    transition_radio_state
dispatch_write s cc m =
    let (err_code, n) = run_command s RadioState.write (load_next s cc m) in
    if no_more_cycles cc max_write_cycles m
    then handle_err cc RadioStatus.timeout m
    else if is_actual_error err_code
    then handle_err cc err_code n
    else if has_finished cc n
    then transition_radio_state cc RadioState.transceive n
    else n

unfoldable pub handle_no_comms : ℕ → QuakeManager → QuakeManager
unfolding transition_radio_state
handle_no_comms cc m =
    let cycles_left = sub32 m.max_transceive_cycles (sub32 cc m.cycle_of_entry) in
    if ltb (m.max_transceive_cycles / 3 + 1) cycles_left
    then m
    else transition_radio_state cc RadioState.write (record m { mo_idx = 0 })

unfoldable pub dispatch_transceive : Surroundings → ℕ → QuakeManager → QuakeManager
unfolding no_more_cycles handle_err run_command is_actual_error has_finished handle_no_comms
    transition_radio_state
dispatch_transceive s cc m =
    let (err_code, n) = run_command s RadioState.transceive m in
    if no_more_cycles cc m.max_transceive_cycles m
    then handle_err cc RadioStatus.timeout m
    else if is_actual_error err_code
    then handle_err cc err_code n
    else if has_finished cc n
    then (if ltb 4 s.mo_status
        then handle_no_comms cc n
        else transition_radio_state cc
            (if s.mt_status == 1 then RadioState.read else RadioState.write)
            (record n { last_checkin_cycle = cc }))
    else n

unfoldable pub dispatch_read : Surroundings → ℕ → QuakeManager → QuakeManager
unfolding no_more_cycles handle_err run_command is_actual_error has_finished transition_radio_state
dispatch_read s cc m =
    let (err_code, n) = run_command s RadioState.read m in
    if no_more_cycles cc max_read_cycles m
    then handle_err cc RadioStatus.timeout m
    else if is_actual_error err_code
    then handle_err cc err_code n
    else if has_finished cc n
    then transition_radio_state cc RadioState.write (record n { radio_mt_len = s.mt_length })
    else n

-- The switch of `execute`.
unfoldable pub dispatch : Surroundings → RadioState → ℕ → QuakeManager → QuakeManager
unfolding dispatch_disabled dispatch_config dispatch_wait dispatch_transceive dispatch_read
    dispatch_write
dispatch s RadioState.disabled cc m = dispatch_disabled cc m
dispatch s RadioState.config cc m = dispatch_config s cc m
dispatch s RadioState.wait cc m = dispatch_wait s cc m
dispatch s RadioState.transceive cc m = dispatch_transceive s cc m
dispatch s RadioState.read cc m = dispatch_read s cc m
dispatch s RadioState.write cc m = dispatch_write s cc m
dispatch s (RadioState.undefined n) cc m = dispatch_wait s cc (record m { unexpected_flag = true })

unfoldable pub execute : Surroundings → ℕ → QuakeManager → QuakeManager
unfolding dispatch
execute s cc m = dispatch s m.radio_state cc m
