-- ===== src/QuakeManager/Packets.antt =====
-- The downlink packets that the manager hands to the radio lie within its copy of the snapshot.
use flight_software.Base.{
  ℕ, zero, suc, ◌+◌, ◌/◌, ◌≤◌, ◌<◌, ◌≡◌, refl, ◌∙◌, ap, true, List, [], ◌∷◌, ◌++◌, Option, some,
  none, max, length, arith, sym, ◌⊎◌, inl, inr,
}
use native.Mathlib.Nat.{mod-lt}
use flight_software.Modes.{RadioState}
use flight_software.QuakeManager.ControlTask
use flight_software.QuakeManager.ControlTask.{
  QuakeControlTask, Command, RadioStatus, dispatch_sbdwb, dispatch_sbdrb, dispatch_sbdix,
  dispatch_config,
}
use flight_software.QuakeManager.Manager
use flight_software.QuakeManager.Manager.{
  Surroundings, QuakeManager, packet_size, bytes_from, init, transition_radio_state, no_more_cycles,
  has_finished, has_just_entered, is_actual_error, handle_err, copy_next_snapshot, copy_next_packet,
  run_command, dispatch_disabled, dispatch_wait, load_next, dispatch_write, handle_no_comms,
  dispatch_transceive, dispatch_read, dispatch, execute,
}

-- A message that is set, at an offset and of a length, ends within a size.
abbrev pub EndsWithin : Option ℕ → ℕ → ℕ → Type 0
EndsWithin none len size = Unit
EndsWithin (some p) len size = p + len ≤ size

-- The copy has its size, the index is that of a whole packet in it, and so is the message that the
-- radio is to send.
pub record IsWithin (m : QuakeManager) : Type 0 where
  pub has_room : packet_size ≤ m.max_snapshot_size
  pub is_sized : length m.mo_buffer_copy ≡ m.max_snapshot_size
  pub is_indexed : m.mo_idx < m.max_snapshot_size / packet_size
  pub is_inside : EndsWithin m.qct.mo_msg_p m.qct.mo_msg_len m.max_snapshot_size

length-snoc : (xs : List ℕ) (x : ℕ) → length (xs ++ (x ∷ [])) ≡ suc (length xs)
length-snoc [] x = refl
length-snoc (y ∷ xs) x = ap suc (length-snoc xs x)

length-bytes_from : (n : ℕ) (f : ℕ → ℕ) → length (bytes_from n f) ≡ n
length-bytes_from zero f = refl
length-bytes_from (suc n) f = length-snoc (bytes_from n f) (f n) ∙ ap suc (length-bytes_from n f)

load_next-IsWithin :
    (s : Surroundings) (cc : ℕ) (m : QuakeManager) → IsWithin m → IsWithin (load_next s cc m)
unfolding load_next copy_next_snapshot copy_next_packet has_just_entered
load_next-IsWithin s cc m h = record {
  has_room = ground (arith, h.has_room);
  is_sized = ground (arith, h.is_sized, length-bytes_from m.max_snapshot_size s.radio_mo_packet);
  is_indexed = ground (
    arith,
    h.is_indexed,
    h.has_room,
    mod-lt (m.mo_idx + 1) {m = m.max_snapshot_size / packet_size},
  );
  is_inside = ground (arith, h.has_room, h.is_indexed, h.is_inside);
}

-- Nothing of the message has changed, but for a return to the first packet.
abbrev IsKept : QuakeManager → QuakeManager → Type 0
IsKept m n =
    (n.max_snapshot_size ≡ m.max_snapshot_size)
    × (n.mo_buffer_copy ≡ m.mo_buffer_copy)
    × (n.qct.mo_msg_p ≡ m.qct.mo_msg_p)
    × (n.qct.mo_msg_len ≡ m.qct.mo_msg_len)
    × ((n.mo_idx ≡ m.mo_idx) ⊎ (n.mo_idx ≡ 0))

IsKept-IsWithin : (m n : QuakeManager) → IsKept m n → IsWithin m → IsWithin n
IsKept-IsWithin m n (size, copy, msg, len, idx) h = record {
  has_room = ground (arith, size, h.has_room);
  is_sized = ap length copy ∙ h.is_sized ∙ sym size;
  is_indexed = ground (arith, size, idx, h.is_indexed, h.has_room);
  is_inside = ground (arith, size, msg, len, h.is_inside);
}

abbrev IsSame : QuakeControlTask → QuakeControlTask → Type 0
IsSame q r = (r.mo_msg_p ≡ q.mo_msg_p) × (r.mo_msg_len ≡ q.mo_msg_len)

execute-IsSame :
    (answer : Command → RadioStatus) (state : RadioState) (q : QuakeControlTask)
    → IsSame q (ControlTask.execute answer state q).1
unfolding ControlTask.execute dispatch_sbdwb dispatch_sbdrb dispatch_sbdix dispatch_config
execute-IsSame answer RadioState.write q = ground arith
execute-IsSame answer RadioState.read q = ground arith
execute-IsSame answer RadioState.transceive q = ground arith
execute-IsSame answer RadioState.config q = ground arith
execute-IsSame answer _ q = (refl, refl)

run_command-IsKept :
    (s : Surroundings) (state : RadioState) (m : QuakeManager) → IsKept m (run_command s state m).1
unfolding run_command
run_command-IsKept s state m =
    let (msg, len) = execute-IsSame s.answer state m.qct in (refl, refl, msg, len, inl refl)

reset-IsKept : (m n : QuakeManager) → IsKept m n → IsKept m (record n { mo_idx = 0 })
reset-IsKept m n (size, copy, msg, len, idx) = (size, copy, msg, len, inr refl)

module _ (s : Surroundings) (cc : ℕ) (m : QuakeManager) where
  config-IsKept : IsKept m (Manager.dispatch_config s cc m)
  unfolding Manager.dispatch_config handle_err transition_radio_state
  config-IsKept = let k = run_command-IsKept s RadioState.config m in ground (arith, k)

  wait-IsKept : IsKept m (dispatch_wait s cc m)
  unfolding dispatch_wait transition_radio_state
  wait-IsKept = ground arith

  read-IsKept : IsKept m (dispatch_read s cc m)
  unfolding dispatch_read handle_err transition_radio_state
  read-IsKept = let k = run_command-IsKept s RadioState.read m in ground (arith, k)

  transceive-IsKept : IsKept m (dispatch_transceive s cc m)
  unfolding dispatch_transceive handle_err handle_no_comms transition_radio_state
  transceive-IsKept = let k = run_command-IsKept s RadioState.transceive m in ground (arith, k)

  write-IsKept :
      IsKept m (dispatch_write s cc m) ⊎ IsKept (load_next s cc m) (dispatch_write s cc m)
  unfolding dispatch_write handle_err transition_radio_state
  write-IsKept =
      let k = run_command-IsKept s RadioState.write (load_next s cc m) in ground (arith, k)

dispatch-IsWithin :
    (s : Surroundings) (state : RadioState) (cc : ℕ) (m : QuakeManager)
    → IsWithin m
    → IsWithin (dispatch s state cc m)
unfolding dispatch dispatch_disabled transition_radio_state
dispatch-IsWithin s RadioState.disabled cc m h =
    IsKept-IsWithin m (dispatch_disabled cc m) (refl, refl, refl, refl, inl refl) h
dispatch-IsWithin s RadioState.config cc m h =
    IsKept-IsWithin m (Manager.dispatch_config s cc m) (config-IsKept s cc m) h
dispatch-IsWithin s RadioState.wait cc m h =
    IsKept-IsWithin m (dispatch_wait s cc m) (wait-IsKept s cc m) h
dispatch-IsWithin s RadioState.transceive cc m h =
    IsKept-IsWithin m (dispatch_transceive s cc m) (transceive-IsKept s cc m) h
dispatch-IsWithin s RadioState.read cc m h =
    IsKept-IsWithin m (dispatch_read s cc m) (read-IsKept s cc m) h
dispatch-IsWithin s RadioState.write cc m h = elim (write-IsKept s cc m) [
  | inl k ↦ IsKept-IsWithin m (dispatch_write s cc m) k h
  | inr k ↦
      IsKept-IsWithin (load_next s cc m) (dispatch_write s cc m) k (load_next-IsWithin s cc m h)
]
dispatch-IsWithin s (RadioState.undefined n) cc m h =
    let m' = record m { unexpected_flag = true } in
    IsKept-IsWithin m (dispatch_wait s cc m') (wait-IsKept s cc m') h

-- Before a packet has been loaded `init` puts the downlink within the copy of the snapshot.
pub init-IsWithin :
    (size : ℕ) (m : QuakeManager) → m.mo_idx ≡ 0 → m.qct.mo_msg_p ≡ none → IsWithin (init size m)
unfolding init
init-IsWithin size m e f = record {
  has_room = omega arith;
  is_sized = length-bytes_from (max (size + 1) packet_size) (λ i. 0);
  is_indexed = omega arith;
  is_inside = ground (arith, f);
}

-- Every control cycle keeps the downlink within the copy of the snapshot: the copy keeps its size,
-- which leaves room for a packet, the index is that of a whole packet in it, and the message that the
-- radio is to send ends before the copy does.
pub execute-IsWithin :
    (s : Surroundings) (cc : ℕ) (m : QuakeManager) → IsWithin m → IsWithin (execute s cc m)
unfolding execute
execute-IsWithin s cc m h = dispatch-IsWithin s m.radio_state cc m h
