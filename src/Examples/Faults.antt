-- ===== src/Examples/Faults.antt =====
-- The fault object and the fault handlers at concrete inputs.
use flight_software.Base.{
  ℕ, ◌+◌, ◌*◌, ◌≡◌, ◌⊎◌, inl, inr, refl, true, false, ltb, List, [], ◌∷◌, arith,
}
use flight_software.Modes.{QfhState, FaultResponse}
use flight_software.Fault.{new, signal, unsignal, is_faulted}
use flight_software.Fault.Persistence.{signals, is_faulted-signals, IsUncommanded}
use flight_software.FaultHandlers.Main
use flight_software.FaultHandlers.Main.{Machine, answers, gravest, execute-gravest}
use flight_software.FaultHandlers.Quake.Escalation.{cycles, IsStuck, third_of_day, cycles-safehold}
use flight_software.FaultHandlers.Propulsion.BothTanks.{IsSound}
use flight_software.Examples.Values.{fault, quake_handler, prop_pair}

-- Four signals trip a fault with a persistence of 3, three do not.
four_signals : (is_faulted (signals 5 4 (new 3))).0 ≡ true
unfolding is_faulted signals signal new
four_signals = refl

three_signals : (is_faulted (signals 5 3 (new 3))).0 ≡ false
unfolding is_faulted signals signal new
three_signals = refl

fault-IsUncommanded : IsUncommanded fault
unfolding fault new
fault-IsUncommanded = record { no_override = refl; no_suppress = refl; no_unsignal = refl }

is_faulted-signals_example : (is_faulted (signals 5 4 (unsignal fault))).0 ≡ ltb fault.persistence 4
unfolding fault new
is_faulted-signals_example =
    is_faulted-signals 4 5 fault (omega arith) (omega arith) fault-IsUncommanded

-- Two machines that count how often they run.
abbrev machines : List (Machine ℕ)
machines = (λ n. (FaultResponse.standby, n + 1)) ∷ (λ n. (FaultResponse.safehold, n + 1)) ∷ []

execute-gravest_example :
    ((true ≡ true) × ((Main.execute true machines 0).0 ≡ gravest (answers machines 0)))
    ⊎ ((true ≡ false) × (Main.execute true machines 0 ≡ (FaultResponse.none, 0)))
execute-gravest_example = execute-gravest true machines 0

quake_handler-IsStuck : IsStuck QfhState.powercycle_1 600000 quake_handler
quake_handler-IsStuck = record {
  enabled = refl;
  in_state = refl;
  entered = refl;
  silent = omega arith;
}

cycles-safehold_example :
    IsStuck QfhState.safehold
      (600000 + 3 * third_of_day)
      (cycles (3 * third_of_day) (600000 + 1) quake_handler)
cycles-safehold_example = cycles-safehold 600000 quake_handler quake_handler-IsStuck (omega arith)

prop_pair-IsSound : IsSound prop_pair
prop_pair-IsSound = record { bounded = inl (omega arith); borrowed = inr refl; fresh = inl refl }
