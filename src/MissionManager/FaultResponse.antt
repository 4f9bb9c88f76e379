-- ===== src/MissionManager/FaultResponse.antt =====
-- What the mission manager does on the main fault handler's answer.
use flight_software.Base.{
  ap, ℕ, zero, suc, ◌⊎◌, inl, inr, both_branches, leb, sub32, ◌∙◌, Option, ◌≡◌, refl, false, none,
  some, arith, ◌↔◌,
}
use flight_software.Modes.{MissionState, AdcsState, PropState, SatDesignation, FaultResponse}
use flight_software.FaultHandlers.Quake.{one_day_ccno}
use flight_software.Floats.{FloatOps}
use flight_software.MissionManager.State.{
  MissionManager, Wheels, transition_to, transition_with_prop, set_mission, kill_switch_value,
}
use flight_software.MissionManager.Execute.{
  execute, undesignated, is_deaf, stays_on_standby, dispatch, dispatch_startup, dispatch_safehold,
}

module _ {Float : Type 0} where
  -- Every actuator off: what safe hold keeps.
  abbrev pub IsSafe : MissionManager Float → Type 0
  IsSafe m =
      (m.mission_state ≡ MissionState.safehold)
      × (m.adcs_state ≡ AdcsState.startup)
      × (m.prop_state ≡ PropState.disabled)
      × (m.sph_dcdc ≡ false)
      × (m.adcs_dcdc ≡ false)
      × (m.sat_designation ≡ SatDesignation.undecided)

  -- A fault handler that leaves these fields.
  pub record LeavesFields (handler : MissionManager Float → FaultResponse × MissionManager Float)
      : Type 0 where
    pub mission : (m : MissionManager Float) → (handler m).1.mission_state ≡ m.mission_state
    pub adcs : (m : MissionManager Float) → (handler m).1.adcs_state ≡ m.adcs_state
    pub prop : (m : MissionManager Float) → (handler m).1.prop_state ≡ m.prop_state
    pub sph : (m : MissionManager Float) → (handler m).1.sph_dcdc ≡ m.sph_dcdc
    pub wheels : (m : MissionManager Float) → (handler m).1.adcs_dcdc ≡ m.adcs_dcdc
    pub designation : (m : MissionManager Float) → (handler m).1.sat_designation ≡ m.sat_designation

  -- The satellite back in standby; `n` is the state before.
  abbrev pub IsBack : MissionManager Float → MissionManager Float → Type 0
  IsBack n m =
      (m.mission_state ≡ MissionState.standby)
      × (m.adcs_state ≡ AdcsState.point_standby)
      × (m.sat_designation ≡ SatDesignation.undecided)
      × (m.prop_state ≡ n.prop_state)
      × (m.sph_dcdc ≡ n.sph_dcdc)
      × (m.adcs_dcdc ≡ n.adcs_dcdc)

FaultResponse-cases :
    (r : FaultResponse)
    → (r ≡ FaultResponse.safehold) ⊎ ((r ≡ FaultResponse.none) ⊎ (r ≡ FaultResponse.standby))
FaultResponse-cases FaultResponse.safehold = inl refl
FaultResponse-cases FaultResponse.none = inr (inl refl)
FaultResponse-cases FaultResponse.standby = inr (inr refl)

module _ {Float : Type 0} ⦃o : FloatOps Float⦄ where
  execute_on_safehold :
      (w : Wheels Float) (handler : MissionManager Float → FaultResponse × MissionManager Float)
      (cc : ℕ) (m : MissionManager Float)
      → is_deaf m.mission_state ≡ false
      → (handler m).0 ≡ FaultResponse.safehold
      → (n : MissionManager Float) × (execute w handler cc m ≡ some n) × IsSafe n
  unfolding execute transition_with_prop transition_to set_mission
  execute_on_safehold w handler cc m h k =
      let n = (handler m).1 in
      (
        undesignated
            (transition_with_prop cc MissionState.safehold AdcsState.startup PropState.disabled n),
        ground (arith),
        (refl, refl, refl, refl, refl, refl),
      )

  -- In safe hold, whatever the answer.
  execute-IsSafe :
      (w : Wheels Float) (handler : MissionManager Float → FaultResponse × MissionManager Float)
      (cc : ℕ) (m : MissionManager Float)
      → LeavesFields handler
      → IsSafe m
      → (n : MissionManager Float) × (execute w handler cc m ≡ some n) × IsSafe n
  unfolding execute dispatch dispatch_safehold
  execute-IsSafe w handler cc m leaves safe = elim (FaultResponse-cases (handler m).0) [
    | inl asks ↦ execute_on_safehold w handler cc m (ground (arith, safe.0)) asks
    | inr (inl nothing) ↦ (stay, ground (arith, safe.0, nothing), stays)
    | inr (inr standby) ↦ (stay, ground (arith, safe.0, standby), stays)
  ]
    where
      stay : MissionManager Float
      stay = dispatch_safehold cc (handler m).1

      kept : IsSafe (handler m).1
      kept = (
        leaves.mission m ∙ safe.0,
        leaves.adcs m ∙ safe.1,
        leaves.prop m ∙ safe.2,
        leaves.sph m ∙ safe.3,
        leaves.wheels m ∙ safe.4,
        leaves.designation m ∙ safe.5,
      )

      stays : IsSafe stay
      stays =
          both_branches IsSafe (leb one_day_ccno (sub32 cc (handler m).1.safehold_begin_ccno)) kept
            kept

  -- Control cycles one after the other; `handlers k` is the main fault handler in cycle `k`.
  unfoldable pub cycles_with :
      Wheels Float
      → (ℕ → MissionManager Float → FaultResponse × MissionManager Float)
      → ℕ
      → ℕ
      → MissionManager Float
      → Option (MissionManager Float)
  cycles_with w handlers zero cc m = some m
  cycles_with w handlers (suc n) cc m = elim (execute w (handlers cc) cc m) [
    | none ↦ none
    | some m' ↦ cycles_with w handlers n (suc cc) m'
  ]

  cycles_with-suc :
      (w : Wheels Float)
      (handlers : ℕ → MissionManager Float → FaultResponse × MissionManager Float) (n cc : ℕ)
      (m next : MissionManager Float)
      → execute w (handlers cc) cc m ≡ some next
      → cycles_with w handlers (suc n) cc m ≡ cycles_with w handlers n (suc cc) next
  unfolding cycles_with
  cycles_with-suc w handlers n cc m next step =
      ap
        (λ (s : Option (MissionManager Float)). elim s [
          | none ↦ none
          | some m' ↦ cycles_with w handlers n (suc cc) m'
        ])
        step

  cycles_with-IsSafe :
      (w : Wheels Float)
      (handlers : ℕ → MissionManager Float → FaultResponse × MissionManager Float) (n cc : ℕ)
      (m : MissionManager Float)
      → ((k : ℕ) → LeavesFields (handlers k))
      → IsSafe m
      → (r : MissionManager Float) × (cycles_with w handlers n cc m ≡ some r) × IsSafe r
  unfolding cycles_with
  cycles_with-IsSafe w handlers zero cc m leaves safe = (m, refl, safe)
  cycles_with-IsSafe w handlers (suc n) cc m leaves safe =
      let (next, step, safe') = execute-IsSafe w (handlers cc) cc m (leaves cc) safe in
      let (last, run, safe'') = cycles_with-IsSafe w handlers n (suc cc) next leaves safe' in
      (last, cycles_with-suc w handlers n cc m next step ∙ run, safe'')

  -- Safe hold is entered from any state but startup and manual, and not left again: if the main fault
  -- handler asks for it in cycle `cc`, then after that cycle and any number `n` of further ones,
  -- whatever the handler answers in them, the mission is in safe hold, with the propulsion disabled,
  -- both DC-DC converters off, the ADCS in startup and no designation. This goes also for detumble,
  -- docking, docked and initialization_hold, which MissionManager.hpp lists as not responding to
  -- faults. The handler leaves these six fields, and between the cycles nothing writes the state.
  pub safehold_lasts :
      (w : Wheels Float)
      (handlers : ℕ → MissionManager Float → FaultResponse × MissionManager Float) (n cc : ℕ)
      (m : MissionManager Float)
      → ((k : ℕ) → LeavesFields (handlers k))
      → is_deaf m.mission_state ≡ false
      → (handlers cc m).0 ≡ FaultResponse.safehold
      → (r : MissionManager Float) × (cycles_with w handlers (suc n) cc m ≡ some r) × IsSafe r
  unfolding cycles_with
  safehold_lasts w handlers n cc m leaves listens asks =
      let (next, step, safe) = execute_on_safehold w (handlers cc) cc m listens asks in
      let (last, run, safe') = cycles_with-IsSafe w handlers n (suc cc) next leaves safe in
      (last, cycles_with-suc w handlers n cc m next step ∙ run, safe')

  -- When the fault handler asks for standby in a state that listens to it and that standby moves, the
  -- control cycle returns with the satellite in standby, pointing, with no designation, and with the
  -- propulsion and the DC-DC converters as the fault handler left them.
  pub execute_on_standby :
      (w : Wheels Float) (handler : MissionManager Float → FaultResponse × MissionManager Float)
      (cc : ℕ) (m : MissionManager Float)
      → is_deaf m.mission_state ≡ false
      → stays_on_standby m.mission_state ≡ false
      → (handler m).0 ≡ FaultResponse.standby
      → (n : MissionManager Float) × (execute w handler cc m ≡ some n) × IsBack (handler m).1 n
  unfolding execute transition_to set_mission
  execute_on_standby w handler cc m h k l = (
    undesignated (transition_to cc MissionState.standby AdcsState.point_standby (handler m).1),
    ground (arith),
    (refl, refl, refl, refl, refl, refl),
  )

  -- A control cycle fails to return exactly if it starts in startup with the kill switch set.
  pub execute-none :
      (w : Wheels Float) (handler : MissionManager Float → FaultResponse × MissionManager Float)
      (cc : ℕ) (m : MissionManager Float)
      → (execute w handler cc m ≡ none) ↔ (
          (m.mission_state ≡ MissionState.startup)
          × ((handler m).1.kill_switch ≡ kill_switch_value))
  unfolding execute dispatch dispatch_startup
  execute-none w handler cc m = (λ e. ground arith, λ e. ground arith)
