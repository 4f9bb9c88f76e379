-- ===== src/FaultHandlers/Main.antt =====
-- MainFaultHandler::execute, src/fsw/FCCode/MainFaultHandler.cpp, over any list of machines that
-- share a state `W`, as its vector of pointers to machines is.
use flight_software.Base.{
  ◌≡◌, refl, ◌⊎◌, inl, inr, Bool, true, false, List, [], ◌∷◌, if◌then◌else◌, arith,
}
use flight_software.Modes.{FaultResponse}
use flight_software.Modes.FaultResponse.{none, safehold, standby}

abbrev pub Machine : Type 0 → Type 0
Machine W = W → FaultResponse × W

module _ {W : Type 0} where
  -- The loop, with the response `ret` so far.
  unfoldable pub run_machines : FaultResponse → List (Machine W) → W → FaultResponse × W
  run_machines ret [] w = (ret, w)
  run_machines ret (m ∷ ms) w =
      let (response, w') = m w in
      elim response [
        | none ↦ run_machines ret ms w'
        | safehold ↦ (safehold, w')
        | standby ↦ run_machines standby ms w'
      ]

  unfoldable pub execute : Bool → List (Machine W) → W → FaultResponse × W
  unfolding run_machines
  execute enabled ms w = if enabled then run_machines none ms w else (none, w)

  -- What the machines would answer if each were run, whatever the ones before it say.
  unfoldable pub answers : List (Machine W) → W → List FaultResponse
  answers [] w = []
  answers (m ∷ ms) w = let (response, w') = m w in response ∷ answers ms w'

-- The graver of two responses, and the gravest of a list.
abbrev pub graver : FaultResponse → FaultResponse → FaultResponse
graver none b = b
graver safehold b = safehold
graver standby safehold = safehold
graver standby _ = standby

abbrev pub gravest : List FaultResponse → FaultResponse
gravest [] = none
gravest (r ∷ rs) = graver r (gravest rs)

module _ {W : Type 0} where
  run_machines-standby :
      (ms : List (Machine W)) (w : W)
      → (run_machines standby ms w).0 ≡ graver standby (gravest (answers ms w))
  unfolding run_machines answers
  run_machines-standby [] w = refl
  run_machines-standby (m ∷ ms) w = ground (arith, run_machines-standby ms (m w).1)

  run_machines-none :
      (ms : List (Machine W)) (w : W) → (run_machines none ms w).0 ≡ gravest (answers ms w)
  unfolding run_machines answers
  run_machines-none [] w = refl
  run_machines-none (m ∷ ms) w =
      ground (arith, run_machines-none ms (m w).1, run_machines-standby ms (m w).1)

  -- The enabled main handler answers the gravest of what its machines would answer if all were run,
  -- although it stops at the first that asks for safe hold. Disabled, it asks for nothing and runs
  -- none.
  pub execute-gravest :
      (enabled : Bool) (ms : List (Machine W)) (w : W)
      → ((enabled ≡ true) × ((execute enabled ms w).0 ≡ gravest (answers ms w)))
        ⊎ ((enabled ≡ false) × (execute enabled ms w ≡ (none, w)))
  unfolding execute
  execute-gravest true ms w = inl (refl, run_machines-none ms w)
  execute-gravest false ms w = inr (refl, refl)
