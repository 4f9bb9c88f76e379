-- ===== src/QuakeManager/ControlTask.antt =====
-- QuakeControlTask, src/fsw/FCCode/QuakeControlTask.cpp: the commands of a sequence in their order.
-- The driver behind it talks to the serial port; what it answers to a command is an argument.
use flight_software.Base.{ℕ, ◌+◌, ◌%◌, Bool, true, false, Option, ◌==◌, if◌then◌else◌}
use flight_software.Modes.{RadioState}

-- Devices::radio_status_t of src/fsw/FCCode/Drivers/QLocate.hpp.
pub data RadioStatus : Type 0 where
  ok timeout bad_checksum wrong_length unexpected_response consume_fail write_fail : RadioStatus
  port_unavailable unknown wrong_fn_order : RadioStatus

-- The driver's methods, with their arguments. A message is its offset in the manager's copy of the
-- snapshot and its length.
pub data Command : Type 0 where
  query_sbdwb_1 : ℕ → Command
  query_sbdwb_2 : Option ℕ → ℕ → Command
  get_sbdwb query_sbdrb_1 get_sbdrb query_sbdix_1 get_sbdix : Command
  query_config_1 query_config_2 query_config_3 get_config : Command

pub record QuakeControlTask : Type 0 where
  pub fn_seq_num : ℕ
  pub mo_msg_p : Option ℕ
  pub mo_msg_len : ℕ

unfoldable pub is_ok : RadioStatus → Bool
is_ok RadioStatus.ok = true
is_ok _ = false

-- The end of each dispatch function: on success the sequence of `n` commands advances.
abbrev pub advance : ℕ → RadioStatus → QuakeControlTask → RadioStatus × QuakeControlTask
advance n err_code q =
    (err_code, if is_ok err_code then record q { fn_seq_num = (q.fn_seq_num + 1) % n } else q)

unfoldable pub dispatch_sbdwb :
    (Command → RadioStatus) → QuakeControlTask → RadioStatus × QuakeControlTask
dispatch_sbdwb answer q =
    if q.fn_seq_num == 0
    then advance 3 (answer (Command.query_sbdwb_1 q.mo_msg_len)) q
    else if q.fn_seq_num == 1
    then advance 3 (answer (Command.query_sbdwb_2 q.mo_msg_p q.mo_msg_len)) q
    else if q.fn_seq_num == 2
    then advance 3 (answer Command.get_sbdwb) q
    else (RadioStatus.wrong_fn_order, q)

unfoldable pub dispatch_sbdrb :
    (Command → RadioStatus) → QuakeControlTask → RadioStatus × QuakeControlTask
dispatch_sbdrb answer q =
    if q.fn_seq_num == 0
    then advance 2 (answer Command.query_sbdrb_1) q
    else if q.fn_seq_num == 1
    then advance 2 (answer Command.get_sbdrb) q
    else (RadioStatus.wrong_fn_order, q)

unfoldable pub dispatch_sbdix :
    (Command → RadioStatus) → QuakeControlTask → RadioStatus × QuakeControlTask
dispatch_sbdix answer q =
    if q.fn_seq_num == 0
    then advance 2 (answer Command.query_sbdix_1) q
    else if q.fn_seq_num == 1
    then advance 2 (answer Command.get_sbdix) q
    else (RadioStatus.wrong_fn_order, q)

unfoldable pub dispatch_config :
    (Command → RadioStatus) → QuakeControlTask → RadioStatus × QuakeControlTask
dispatch_config answer q =
    if q.fn_seq_num == 0
    then advance 4 (answer Command.query_config_1) q
    else if q.fn_seq_num == 1
    then advance 4 (answer Command.query_config_2) q
    else if q.fn_seq_num == 2
    then advance 4 (answer Command.query_config_3) q
    else if q.fn_seq_num == 3
    then advance 4 (answer Command.get_config) q
    else (RadioStatus.wrong_fn_order, q)

-- `execute`. Its result `false`, where it runs no command, is the code of OK.
unfoldable pub execute :
    (Command → RadioStatus) → RadioState → QuakeControlTask → RadioStatus × QuakeControlTask
unfolding dispatch_sbdwb dispatch_sbdrb dispatch_sbdix dispatch_config
execute answer RadioState.write q = dispatch_sbdwb answer q
execute answer RadioState.read q = dispatch_sbdrb answer q
execute answer RadioState.transceive q = dispatch_sbdix answer q
execute answer RadioState.config q = dispatch_config answer q
execute answer _ q = (RadioStatus.ok, record q { fn_seq_num = 0 })
