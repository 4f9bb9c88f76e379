-- ===== src/MissionManager/Docking.antt =====
-- Runs of control cycles: the timers of docking and of safe hold.
use flight_software.Base.{
  ℕ, zero, suc, ◌+◌, ◌≤◌, ◌<◌, ◌≡◌, refl, subst, true, false, Option, none, some, arith, sub32,
  u32_mod,
}
use flight_software.Modes.{MissionState, AdcsState, FaultResponse}
use flight_software.Floats.{FloatOps}
use flight_software.FaultHandlers.Quake.{one_day_ccno}
use flight_software.MissionManager.State.{
  MissionManager, Wheels, transition_to, set_mission, too_long_in_docking,
}
use flight_software.MissionManager.Execute.{execute, dispatch, dispatch_docking, dispatch_safehold}

module _ {Float : Type 0} ⦃o : FloatOps Float⦄ where
  -- The `n` control cycles from number `cc` on.
  unfoldable pub cycles :
      Wheels Float
      → (MissionManager Float → FaultResponse × MissionManager Float)
      → ℕ
      → ℕ
      → MissionManager Float
      → Option (MissionManager Float)
  cycles w handler zero cc m = some m
  cycles w handler (suc n) cc m = elim (cycles w handler n cc m) [
    | none ↦ none
    | some k ↦ execute w handler (cc + n) k
  ]

  -- The first cycle of docking has noted its number.
  abbrev pub entered : ℕ → MissionManager Float → MissionManager Float
  entered cc m = record m { enter_docking_cycle = cc; have_set_docking_entry_ccno = true }

  -- Docking has given up.
  abbrev pub given_up : ℕ → MissionManager Float → MissionManager Float
  given_up cc m =
      transition_to cc MissionState.standby AdcsState.point_standby
        (record m { have_set_docking_entry_ccno = false })

module _ {Float : Type 0} ⦃o : FloatOps Float⦄ (w : Wheels Float)
    (handler : MissionManager Float → FaultResponse × MissionManager Float)
    (quiet : (m : MissionManager Float) → handler m ≡ (FaultResponse.none, m)) where
  docking_first :
      (cc : ℕ) (m : MissionManager Float)
      → m.mission_state ≡ MissionState.docking
      → m.docked ≡ false
      → m.have_set_docking_entry_ccno ≡ false
      → cc < u32_mod
      → execute w handler cc m ≡ some (entered cc m)
  unfolding execute dispatch dispatch_docking too_long_in_docking
  docking_first cc m h d f b = ground (arith, quiet m)

  docking_next :
      (cc e : ℕ) (m : MissionManager Float)
      → m.mission_state ≡ MissionState.docking
      → m.docked ≡ false
      → e ≤ cc
      → cc ≤ e + m.docking_timeout_limit
      → cc < u32_mod
      → execute w handler cc (entered e m) ≡ some (entered e m)
  unfolding execute dispatch dispatch_docking too_long_in_docking
  docking_next cc e m h d f g b = ground (arith, quiet (entered e m))

  docking_last :
      (cc : ℕ) (m : MissionManager Float)
      → m.mission_state ≡ MissionState.docking
      → m.docked ≡ false
      → m.have_set_docking_entry_ccno ≡ true
      → m.docking_timeout_limit < sub32 cc m.enter_docking_cycle
      → execute w handler cc m ≡ some (given_up cc m)
  unfolding execute dispatch dispatch_docking too_long_in_docking transition_to set_mission
  docking_last cc m h d f g = ground (arith, quiet m)

  docking_waits :
      (n cc : ℕ) (m : MissionManager Float)
      → m.mission_state ≡ MissionState.docking
      → m.docked ≡ false
      → m.have_set_docking_entry_ccno ≡ false
      → n ≤ m.docking_timeout_limit
      → cc + n < u32_mod
      → cycles w handler (suc n) cc m ≡ some (entered cc m)
  unfolding cycles
  docking_waits zero cc m h d f g b =
      let same : cc ≡ cc + 0 = omega arith in
      subst (λ c. execute w handler c m ≡ some (entered cc m)) same
        (docking_first cc m h d f (omega arith))
  docking_waits (suc n) cc m h d f g b = ground (
    arith,
    docking_waits n cc m h d f (omega arith) (omega arith),
    docking_next (cc + suc n) cc m h d (omega arith) (omega arith) b,
  )

  safehold_next :
      (cc : ℕ) (m : MissionManager Float)
      → m.mission_state ≡ MissionState.safehold
      → m.safehold_begin_ccno ≤ cc
      → cc < u32_mod
      → ((cc < m.safehold_begin_ccno + one_day_ccno) → execute w handler cc m ≡ some m)
        × ((m.safehold_begin_ccno + one_day_ccno ≤ cc)
            → execute w handler cc m ≡ some (record m { reset_cmd = true }))
  unfolding execute dispatch dispatch_safehold
  safehold_next cc m h k b = (λ e. ground (arith, quiet m), λ e. ground (arith, quiet m))

-- Docking that does not succeed, with a fault handler that asks for nothing and no note of an
-- earlier start: from the cycle in which it starts, number `cc`, the mission is in docking for as
-- many further cycles as the timeout limit says, and in the cycle after those it goes to standby
-- and clears the note of its start. The cycle count does not wrap on the way.
pub docking_gives_up :
    {Float : Type 0} ⦃o : FloatOps Float⦄ (w : Wheels Float)
    (handler : MissionManager Float → FaultResponse × MissionManager Float)
    (quiet : (m : MissionManager Float) → handler m ≡ (FaultResponse.none, m)) (n cc : ℕ)
    (m : MissionManager Float)
    → m.mission_state ≡ MissionState.docking
    → m.docked ≡ false
    → m.have_set_docking_entry_ccno ≡ false
    → n ≤ m.docking_timeout_limit
    → cc + m.docking_timeout_limit + 1 < u32_mod
    → (cycles w handler (n + 1) cc m ≡ some (entered cc m))
      × (cycles w handler (m.docking_timeout_limit + 2) cc m
          ≡ some (given_up (cc + m.docking_timeout_limit + 1) (entered cc m)))
unfolding cycles
docking_gives_up w handler quiet n cc m h d f g b =
    let l = m.docking_timeout_limit in
    let c : cc + suc l ≡ cc + l + 1 = omega arith in
    let last : execute w handler (cc + suc l) (entered cc m)
        ≡ some (given_up (cc + suc l) (entered cc m)) =
      docking_last w handler quiet (cc + suc l) (entered cc m) h d refl (omega arith) in
    let all : cycles w handler (suc (suc l)) cc m ≡ some (given_up (cc + suc l) (entered cc m)) =
      ground
        (arith, docking_waits w handler quiet l cc m h d f (omega arith) (omega arith), last) in
    let two : suc (suc l) ≡ l + 2 = omega arith in
    let one : suc n ≡ n + 1 = omega arith in
    (
      subst (λ k. cycles w handler k cc m ≡ some (entered cc m)) one
          (docking_waits w handler quiet n cc m h d f g (omega arith)),
      subst (λ k. cycles w handler k cc m ≡ some (given_up (cc + l + 1) (entered cc m))) two
          (subst (λ k. cycles w handler (suc (suc l)) cc m ≡ some (given_up k (entered cc m))) c
            all),
    )

module _ {Float : Type 0} ⦃o : FloatOps Float⦄ (w : Wheels Float)
    (handler : MissionManager Float → FaultResponse × MissionManager Float)
    (quiet : (m : MissionManager Float) → handler m ≡ (FaultResponse.none, m)) where
  safehold_waits :
      (n cc : ℕ) (m : MissionManager Float)
      → m.mission_state ≡ MissionState.safehold
      → m.safehold_begin_ccno ≡ cc
      → n < one_day_ccno
      → cc + n + 1 < u32_mod
      → cycles w handler n (cc + 1) m ≡ some m
  unfolding cycles
  safehold_waits zero cc m h k l b = refl
  safehold_waits (suc n) cc m h k l b = ground (
    arith,
    safehold_waits n cc m h k (omega arith) (omega arith),
    (safehold_next w handler quiet (cc + 1 + n) m h (omega arith) (omega arith)).0 (omega arith),
  )

-- Safe hold that began in cycle `cc`, with a fault handler that asks for nothing: fewer cycles than
-- a day has change nothing, and the cycle that completes the day asks for a reset. The cycle count
-- does not wrap on the way.
cycles_safehold_day :
    {Float : Type 0} ⦃o : FloatOps Float⦄ (w : Wheels Float)
    (handler : MissionManager Float → FaultResponse × MissionManager Float)
    (quiet : (m : MissionManager Float) → handler m ≡ (FaultResponse.none, m)) (n cc : ℕ)
    (m : MissionManager Float)
    → m.mission_state ≡ MissionState.safehold
    → m.safehold_begin_ccno ≡ cc
    → n < one_day_ccno
    → cc + one_day_ccno < u32_mod
    → (cycles w handler n (cc + 1) m ≡ some m)
      × (cycles w handler one_day_ccno (cc + 1) m ≡ some (record m { reset_cmd = true }))
unfolding cycles
cycles_safehold_day w handler quiet n cc m h k l b =
    (safehold_waits w handler quiet n cc m h k l (omega arith), day one_day_ccno refl)
  where
    day :
        (d : ℕ)
        → d ≡ one_day_ccno
        → cycles w handler d (cc + 1) m ≡ some (record m { reset_cmd = true })
    day zero e = ground (arith)
    day (suc d) e = ground (
      arith,
      safehold_waits w handler quiet d cc m h k (omega arith) (omega arith),
      (safehold_next w handler quiet (cc + 1 + d) m h (omega arith) (omega arith)).1 (omega arith),
    )

-- The note of the start of docking is stale after a fault: a fault response of standby takes the
-- mission out of docking without clearing it, so that a later docking, not yet docked and with the
-- note as it was left, is given up in its first cycle if that lies more than the timeout limit
-- after the old start.
pub execute_stale_docking :
    {Float : Type 0} ⦃o : FloatOps Float⦄ (w : Wheels Float)
    (faulted quiet : MissionManager Float → FaultResponse × MissionManager Float) (cc₁ cc₂ : ℕ)
    (m n m₂ : MissionManager Float)
    → m.mission_state ≡ MissionState.docking
    → m.have_set_docking_entry_ccno ≡ true
    → faulted m ≡ (FaultResponse.standby, m)
    → execute w faulted cc₁ m ≡ some n
    → quiet m₂ ≡ (FaultResponse.none, m₂)
    → m₂.mission_state ≡ MissionState.docking
    → m₂.docked ≡ false
    → m₂.have_set_docking_entry_ccno ≡ n.have_set_docking_entry_ccno
    → m₂.enter_docking_cycle ≡ n.enter_docking_cycle
    → m₂.docking_timeout_limit < sub32 cc₂ m.enter_docking_cycle
    → (n.mission_state ≡ MissionState.standby) × (execute w quiet cc₂ m₂ ≡ some (given_up cc₂ m₂))
unfolding execute dispatch dispatch_docking too_long_in_docking transition_to set_mission
execute_stale_docking w faulted quiet cc₁ cc₂ m n m₂ a b c d e f g h i j =
    (ground arith, ground arith)
