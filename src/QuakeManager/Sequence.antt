-- ===== src/QuakeManager/Sequence.antt =====
-- A session of the radio with a driver that answers every command with OK.
use flight_software.Base.{
  ℕ, zero, suc, ◌+◌, ◌%◌, ◌≤◌, ◌<◌, ◌≡◌, refl, sym, subst, ◌==◌, if◌then◌else◌, arith, u32_mod,
}
use flight_software.Modes.{RadioState}
use flight_software.QuakeManager.ControlTask
use flight_software.QuakeManager.ControlTask.{
  RadioStatus, Command, QuakeControlTask, is_ok, dispatch_sbdwb, dispatch_sbdrb, dispatch_sbdix,
  dispatch_config,
}
use flight_software.QuakeManager.Manager
use flight_software.QuakeManager.Manager.{
  Surroundings, QuakeManager, transition_radio_state, no_more_cycles, has_finished,
  has_just_entered, is_actual_error, handle_err, run_command, load_next, dispatch_write,
  handle_no_comms, dispatch_transceive, dispatch_read, dispatch, execute, copy_next_packet,
  copy_next_snapshot, max_config_cycles, max_write_cycles, max_read_cycles,
}

-- In `state` since cycle `entry`, with `done` commands of its sequence done, and two cycles or more
-- for a transmission.
pub record IsAt (state : RadioState) (entry done : ℕ) (m : QuakeManager) : Type 0 where
  pub in_state : m.radio_state ≡ state
  pub since : m.cycle_of_entry ≡ entry
  pub progress : m.qct.fn_seq_num ≡ done
  pub is_patient : 2 ≤ m.max_transceive_cycles

-- The `n` control cycles from number `cc` on.
unfoldable pub cycles : Surroundings → ℕ → ℕ → QuakeManager → QuakeManager
cycles s zero cc m = m
cycles s (suc n) cc m = cycles s n (cc + 1) (execute s cc m)

-- The commands of a state's sequence.
abbrev pub steps : RadioState → ℕ
steps RadioState.config = 4
steps RadioState.write = 3
steps RadioState.read = 2
steps RadioState.transceive = 2
steps _ = 0

-- Where the end of a sequence leads, if the transmission reports a contact.
abbrev pub successor : Surroundings → RadioState → RadioState
successor s RadioState.config = RadioState.write
successor s RadioState.write = RadioState.transceive
successor s RadioState.transceive = if s.mt_status == 1 then RadioState.read else RadioState.write
successor s RadioState.read = RadioState.write
successor s state = state

module _ (s : Surroundings) (obliging : (c : Command) → s.answer c ≡ RadioStatus.ok) where
  task_next :
      (state : RadioState) (q : QuakeControlTask)
      → q.fn_seq_num < steps state
      → let (err_code, r) = ControlTask.execute s.answer state q in
        (err_code ≡ RadioStatus.ok) × (r.fn_seq_num ≡ (q.fn_seq_num + 1) % steps state)
  unfolding ControlTask.execute dispatch_sbdwb dispatch_sbdrb dispatch_sbdix dispatch_config is_ok
  task_next RadioState.config q h = ground (
    arith,
    obliging Command.query_config_1,
    obliging Command.query_config_2,
    obliging Command.query_config_3,
    obliging Command.get_config,
  )
  task_next RadioState.write q h = ground (
    arith,
    obliging (Command.query_sbdwb_1 q.mo_msg_len),
    obliging (Command.query_sbdwb_2 q.mo_msg_p q.mo_msg_len),
    obliging Command.get_sbdwb,
  )
  task_next RadioState.read q h =
      ground (arith, obliging Command.query_sbdrb_1, obliging Command.get_sbdrb)
  task_next RadioState.transceive q h =
      ground (arith, obliging Command.query_sbdix_1, obliging Command.get_sbdix)
  task_next RadioState.wait q h = ground arith
  task_next RadioState.disabled q h = ground arith
  task_next (RadioState.undefined n) q h = ground arith

  load_next-fn_seq_num :
      (cc : ℕ) (m : QuakeManager)
      → ((load_next s cc m).qct.fn_seq_num ≡ m.qct.fn_seq_num)
        × ((load_next s cc m).radio_state ≡ m.radio_state)
        × ((load_next s cc m).cycle_of_entry ≡ m.cycle_of_entry)
        × ((load_next s cc m).max_transceive_cycles ≡ m.max_transceive_cycles)
  unfolding load_next copy_next_packet copy_next_snapshot
  load_next-fn_seq_num cc m = ground arith

  -- A cycle in the middle of a sequence.
  dispatch_next :
      (state : RadioState) (entry d : ℕ) (m : QuakeManager)
      → IsAt state entry d m
      → d + 1 < steps state
      → entry + d + 1 < u32_mod
      → IsAt state entry (d + 1) (dispatch s state (entry + d + 1) m)
  unfolding dispatch Manager.dispatch_config dispatch_write dispatch_read dispatch_transceive
      run_command is_actual_error has_finished no_more_cycles
  dispatch_next RadioState.config entry d m h l b =
      let t = task_next RadioState.config m.qct (omega (arith, h.progress)) in ground (arith, t, h)
  dispatch_next RadioState.write entry d m h l b =
      let k = load_next-fn_seq_num (entry + d + 1) m in
      let t =
        task_next RadioState.write (load_next s (entry + d + 1) m).qct
          (omega (arith, h.progress, k.0)) in
      ground (arith, t, h, k)
  dispatch_next RadioState.read entry d m h l b =
      let t = task_next RadioState.read m.qct (omega (arith, h.progress)) in ground (arith, t, h)
  dispatch_next RadioState.transceive entry d m h l b =
      let t = task_next RadioState.transceive m.qct (omega (arith, h.progress)) in
      ground (arith, t, h)
  dispatch_next RadioState.wait entry d m h l b = elim l [ ]
  dispatch_next RadioState.disabled entry d m h l b = elim l [ ]
  dispatch_next (RadioState.undefined _) entry d m h l b = elim l [ ]

  -- The cycle that ends a sequence.
  dispatch_last :
      (state : RadioState) (entry d : ℕ) (m : QuakeManager)
      → IsAt state entry d m
      → d + 1 ≡ steps state
      → s.mo_status ≤ 4
      → entry + d + 1 < u32_mod
      → IsAt (successor s state) (entry + d + 1) 0 (dispatch s state (entry + d + 1) m)
  unfolding dispatch Manager.dispatch_config dispatch_write dispatch_read dispatch_transceive
      run_command is_actual_error has_finished no_more_cycles transition_radio_state
  dispatch_last RadioState.config entry d m h l c b =
      let t = task_next RadioState.config m.qct (omega (arith, h.progress)) in ground (arith, t, h)
  dispatch_last RadioState.read entry d m h l c b =
      let t = task_next RadioState.read m.qct (omega (arith, h.progress)) in ground (arith, t, h)
  dispatch_last RadioState.transceive entry d m h l c b =
      let t = task_next RadioState.transceive m.qct (omega (arith, h.progress)) in
      ground (arith, t, h)
  dispatch_last RadioState.write entry d m h l c b =
      let k = load_next-fn_seq_num (entry + d + 1) m in
      let t =
        task_next RadioState.write (load_next s (entry + d + 1) m).qct
          (omega (arith, h.progress, k.0)) in
      ground (arith, t, h, k)
  dispatch_last RadioState.wait entry d m h l c b = ground (arith, h)
  dispatch_last RadioState.disabled entry d m h l c b = ground (arith, h)
  dispatch_last (RadioState.undefined _) entry d m h l c b = ground (arith, h)

  finish :
      (state : RadioState) (n entry d : ℕ) (m : QuakeManager)
      → IsAt state entry d m
      → d + n + 1 ≡ steps state
      → s.mo_status ≤ 4
      → entry + d + n + 1 < u32_mod
      → IsAt (successor s state) (entry + d + n + 1) 0 (cycles s (suc n) (entry + d + 1) m)
  unfolding cycles execute
  finish state zero entry d m h l c b =
      let e : entry + d + 1 ≡ entry + d + zero + 1 = omega arith in
      let r : IsAt (successor s state) (entry + d + 1) 0 (dispatch s state (entry + d + 1) m) =
        dispatch_last state entry d m h (omega arith) c (omega arith) in
      subst (λ k. IsAt (successor s state) k 0 (execute s (entry + d + 1) m)) e
        (subst (λ q. IsAt (successor s state) (entry + d + 1) 0 (dispatch s q (entry + d + 1) m))
          (sym h.in_state) r)
  finish state (suc n) entry d m h l c b =
      let r : IsAt state entry (d + 1) (dispatch s state (entry + d + 1) m) =
        dispatch_next state entry d m h (omega arith) (omega arith) in
      let r' : IsAt state entry (d + 1) (execute s (entry + d + 1) m) =
        subst (λ q. IsAt state entry (d + 1) (dispatch s q (entry + d + 1) m)) (sym h.in_state) r in
      let e : entry + (d + 1) + n + 1 ≡ entry + d + suc n + 1 = omega arith in
      let e' : entry + (d + 1) + 1 ≡ entry + d + 1 + 1 = omega arith in
      let m' = execute s (entry + d + 1) m in
      subst (λ k. IsAt (successor s state) k 0 (cycles s (suc n) (entry + d + 1 + 1) m')) e
        (subst (λ k. IsAt (successor s state) (entry + (d + 1) + n + 1) 0 (cycles s (suc n) k m'))
          e' (finish state n entry (d + 1) m' r' (omega arith) c (omega arith)))

  -- `finish` from the start of a sequence of `k` commands.
  sequence_of :
      (k : ℕ) (state : RadioState) (entry : ℕ) (m : QuakeManager)
      → k ≡ steps state
      → 0 < k
      → IsAt state entry 0 m
      → s.mo_status ≤ 4
      → entry + k < u32_mod
      → IsAt (successor s state) (entry + k) 0 (cycles s k (entry + 1) m)
  sequence_of zero state entry m e l h c b = ground arith
  sequence_of (suc n) state entry m e l h c b =
      let f : entry + 0 + n + 1 ≡ entry + suc n = omega arith in
      let g : entry + 0 + 1 ≡ entry + 1 = omega arith in
      subst (λ j. IsAt (successor s state) j 0 (cycles s (suc n) (entry + 1) m)) f
        (subst (λ j. IsAt (successor s state) (entry + 0 + n + 1) 0 (cycles s (suc n) j m)) g
          (finish state n entry 0 m h (omega arith) c (omega arith)))

-- With a driver that answers OK to every command and reports a contact, a state whose sequence has
-- at least one command ends after exactly as many cycles as the sequence has commands, from the
-- cycle after its entry on, and leads to its successor with no command of that one done. The
-- transmission must be allowed two cycles, and the cycle count does not wrap.
pub cycles_sequence :
    (s : Surroundings) (obliging : (c : Command) → s.answer c ≡ RadioStatus.ok) (state : RadioState)
    (entry : ℕ) (m : QuakeManager)
    → 0 < steps state
    → IsAt state entry 0 m
    → s.mo_status ≤ 4
    → entry + steps state < u32_mod
    → IsAt (successor s state) (entry + steps state) 0 (cycles s (steps state) (entry + 1) m)
cycles_sequence s obliging state entry m l h c b =
    sequence_of s obliging (steps state) state entry m refl l h c b
