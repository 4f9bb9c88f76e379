-- ===== src/QuakeManager/Transitions.antt =====
-- The state machine of the radio.
use flight_software.Base.{ℕ, ◌≤◌, ◌≡◌, refl, Bool, true, false, arith, sub32, ◌⊎◌}
use flight_software.Modes.{RadioState}
use flight_software.QuakeManager.Manager
use flight_software.QuakeManager.Manager.{
  Surroundings, QuakeManager, transition_radio_state, no_more_cycles, has_finished, is_actual_error,
  handle_err, run_command, dispatch_disabled, dispatch_wait, load_next, dispatch_write,
  handle_no_comms, dispatch_transceive, dispatch_read, dispatch, execute, copy_next_packet,
  copy_next_snapshot, max_config_cycles, max_write_cycles, max_read_cycles,
}

-- `a ⇝ b`: in one control cycle the radio can go from `a` to `b`.
infix 4 ◌⇝◌
pub data ◌⇝◌ : RadioState → RadioState → Type 0 where
  stays : {a : RadioState} → a ⇝ a
  configured : RadioState.config ⇝ RadioState.write
  written : RadioState.write ⇝ RadioState.transceive
  heard : RadioState.transceive ⇝ RadioState.read
  renews : RadioState.transceive ⇝ RadioState.write
  received : RadioState.read ⇝ RadioState.write
  resumes : RadioState.wait ⇝ RadioState.write
  restarts : RadioState.wait ⇝ RadioState.config
  recovers : (n : ℕ) → RadioState.undefined n ⇝ RadioState.config
  config_fails : RadioState.config ⇝ RadioState.wait
  write_fails : RadioState.write ⇝ RadioState.wait
  transceive_fails : RadioState.transceive ⇝ RadioState.wait
  read_fails : RadioState.read ⇝ RadioState.wait

ruleset arrows = (
  stays, configured, written, heard, renews, received, resumes, restarts, recovers, config_fails,
  write_fails, transceive_fails, read_fails,
)

dispatch-⇝ :
    (s : Surroundings) (state : RadioState) (cc : ℕ) (m : QuakeManager)
    → m.radio_state ≡ state
    → state ⇝ (dispatch s state cc m).radio_state
unfolding dispatch dispatch_disabled Manager.dispatch_config dispatch_wait dispatch_write
    dispatch_transceive dispatch_read handle_no_comms handle_err transition_radio_state run_command
    load_next copy_next_packet copy_next_snapshot
dispatch-⇝ s RadioState.disabled cc m h = grind (arith, arrows)
dispatch-⇝ s RadioState.config cc m h = grind (arith, arrows)
dispatch-⇝ s RadioState.wait cc m h = grind (arith, arrows)
dispatch-⇝ s RadioState.transceive cc m h = grind (arith, arrows)
dispatch-⇝ s RadioState.read cc m h = grind (arith, arrows)
dispatch-⇝ s RadioState.write cc m h = grind (arith, arrows)
dispatch-⇝ s (RadioState.undefined n) cc m h = grind (arith, arrows)

-- In one control cycle the radio follows an arrow of its diagram, whatever the driver answers.
pub execute-⇝ :
    (s : Surroundings) (cc : ℕ) (m : QuakeManager) → m.radio_state ⇝ (execute s cc m).radio_state
unfolding execute
execute-⇝ s cc m = dispatch-⇝ s m.radio_state cc m refl

-- The most cycles that a state with a sequence of commands may take.
abbrev pub limit : RadioState → QuakeManager → ℕ
limit RadioState.config m = max_config_cycles
limit RadioState.write m = max_write_cycles
limit RadioState.read m = max_read_cycles
limit _ m = m.max_transceive_cycles

-- The states with a sequence of commands.
abbrev pub is_active : RadioState → Bool
is_active RadioState.config = true
is_active RadioState.write = true
is_active RadioState.read = true
is_active RadioState.transceive = true
is_active _ = false

dispatch-limit :
    (s : Surroundings) (state : RadioState) (cc : ℕ) (m : QuakeManager)
    → is_active state ≡ true
    → m.radio_state ≡ state
    → let n = dispatch s state cc m in
      ((n.cycle_of_entry ≡ cc) × (n.qct.fn_seq_num ≡ 0))
      ⊎ ((n.radio_state ≡ state)
          × (n.cycle_of_entry ≡ m.cycle_of_entry)
          × (sub32 cc n.cycle_of_entry ≤ limit state n))
unfolding dispatch Manager.dispatch_config dispatch_write dispatch_transceive dispatch_read
    handle_no_comms handle_err transition_radio_state run_command load_next copy_next_packet
    copy_next_snapshot no_more_cycles
dispatch-limit s RadioState.config cc m a h = ground arith
dispatch-limit s RadioState.transceive cc m a h = ground arith
dispatch-limit s RadioState.read cc m a h = ground arith
dispatch-limit s RadioState.write cc m a h = ground arith
dispatch-limit s RadioState.wait cc m a h = ground (arith, a)
dispatch-limit s RadioState.disabled cc m a h = ground (arith, a)
dispatch-limit s (RadioState.undefined n) cc m a h = ground (arith, a)

-- After a control cycle in a state with a sequence of commands, either the radio has entered a state
-- in this very cycle, with no command of its sequence done, or it is where it was and has not been
-- there for longer than the state's limit.
pub execute-limit :
    (s : Surroundings) (cc : ℕ) (m : QuakeManager)
    → is_active m.radio_state ≡ true
    → let n = execute s cc m in
      ((n.cycle_of_entry ≡ cc) × (n.qct.fn_seq_num ≡ 0))
      ⊎ ((n.radio_state ≡ m.radio_state)
          × (n.cycle_of_entry ≡ m.cycle_of_entry)
          × (sub32 cc n.cycle_of_entry ≤ limit m.radio_state n))
unfolding execute
execute-limit s cc m a = dispatch-limit s m.radio_state cc m a refl

dispatch-checkin :
    (s : Surroundings) (state : RadioState) (cc : ℕ) (m : QuakeManager)
    → let n = dispatch s state cc m in
      (n.last_checkin_cycle ≡ m.last_checkin_cycle)
      ⊎ ((state ≡ RadioState.transceive)
          × (s.mo_status ≤ 4)
          × (n.last_checkin_cycle ≡ cc)
          × ((n.radio_state ≡ RadioState.read) ⊎ (n.radio_state ≡ RadioState.write)))
unfolding dispatch dispatch_disabled Manager.dispatch_config dispatch_wait dispatch_write
    dispatch_transceive dispatch_read handle_no_comms handle_err transition_radio_state run_command
    load_next copy_next_packet copy_next_snapshot
dispatch-checkin s RadioState.disabled cc m = ground arith
dispatch-checkin s RadioState.config cc m = ground arith
dispatch-checkin s RadioState.wait cc m = ground arith
dispatch-checkin s RadioState.transceive cc m = ground arith
dispatch-checkin s RadioState.read cc m = ground arith
dispatch-checkin s RadioState.write cc m = ground arith
dispatch-checkin s (RadioState.undefined n) cc m = ground arith

-- The cycle of the last contact changes only to the present one, at the end of a transmission that
-- reports a contact, which leads to reading or to the next packet.
pub execute-checkin :
    (s : Surroundings) (cc : ℕ) (m : QuakeManager)
    → let n = execute s cc m in
      (n.last_checkin_cycle ≡ m.last_checkin_cycle)
      ⊎ ((m.radio_state ≡ RadioState.transceive)
          × (s.mo_status ≤ 4)
          × (n.last_checkin_cycle ≡ cc)
          × ((n.radio_state ≡ RadioState.read) ⊎ (n.radio_state ≡ RadioState.write)))
unfolding execute
execute-checkin s cc m = dispatch-checkin s m.radio_state cc m
