-- ===== src/Fault.antt =====
-- The fault object of src/common/Fault.cpp: a debounced flag with commands from the ground. The
-- control cycle count that `Fault::cc` points to is an argument.
pub mod Commands
pub mod Persistence
use flight_software.Base.{ℕ, ◌+◌, Bool, true, false, not, ◌&&◌, ◌||◌, ltb, ◌==◌, if◌then◌else◌, u32}

-- `base` is the state field that the fault itself is.
pub record Fault : Type 0 where
  pub base : Bool
  pub suppress : Bool
  pub override : Bool
  pub unsignal_cmd : Bool
  pub persistence : ℕ
  pub last_fault_time : ℕ
  pub num_consecutive_signals : ℕ
  pub prev_suppress : Bool
  pub prev_override : Bool

-- The constructor.
unfoldable pub new : ℕ → Fault
new persistence = record {
  base = false;
  suppress = false;
  override = false;
  unsignal_cmd = false;
  persistence = persistence;
  last_fault_time = 0;
  num_consecutive_signals = 0;
  prev_suppress = false;
  prev_override = false;
}

-- `if (num_consecutive_signals > persistence_f.get()) set(true); else set(false);`
unfoldable pub update_base : Fault → Fault
update_base f = record f { base = ltb f.persistence f.num_consecutive_signals }

-- A second signal in one control cycle is not counted, but at cycle 0.
unfoldable pub count_signal : ℕ → Fault → Fault
count_signal cc f =
    if ltb f.last_fault_time cc || cc == 0
    then record f {
      num_consecutive_signals = u32 (f.num_consecutive_signals + 1);
      last_fault_time = cc;
    }
    else f

unfoldable pub signal : ℕ → Fault → Fault
unfolding update_base count_signal
signal cc f = update_base (count_signal cc f)

unfoldable pub unsignal : Fault → Fault
unsignal f = record f { num_consecutive_signals = 0 }

unfoldable pub evaluate : ℕ → Bool → Fault → Fault
unfolding signal unsignal
evaluate cc flag f = if flag then signal cc f else unsignal f

-- The two rising edges, of `override` and of `suppress`, clear the count.
unfoldable pub clear_on_edges : Fault → Fault
clear_on_edges f = record f {
  num_consecutive_signals =
      if not f.prev_override && f.override
      then 0
      else if not f.prev_suppress && f.suppress
      then 0
      else f.num_consecutive_signals;
  prev_override = f.override;
  prev_suppress = f.suppress;
}

unfoldable pub process_commands : Fault → Fault
unfolding clear_on_edges
process_commands f =
    let g = clear_on_edges f in
    if g.unsignal_cmd then record g { unsignal_cmd = false; num_consecutive_signals = 0 } else g

-- The question changes the fault: it takes the pending commands first.
unfoldable pub is_faulted : Fault → Bool × Fault
unfolding update_base process_commands
is_faulted f =
    let g = update_base (process_commands f) in
    (if g.override then true else if g.suppress then false else g.base, g)
