-- ===== src/FaultHandlers/Quake/Responses.antt =====
-- What the radio's fault handler recommends, state by state.
use flight_software.Base.{ℕ, ◌≡◌, ◌↔◌, true, arith}
use flight_software.Modes.{QfhState, FaultResponse}
use flight_software.FaultHandlers.Quake.{QuakeFaultHandler, execute}

-- An enabled handler recommends nothing exactly if it is left unfaulted, and safe hold exactly if it
-- was in its state `safehold` and stays there.
pub execute-response :
    (cc : ℕ) (q : QuakeFaultHandler)
    → q.qfh_enable ≡ true
    → let (response, q') = execute cc q in
      ((response ≡ FaultResponse.none) ↔ (q'.cur_state ≡ QfhState.unfaulted))
      × ((response ≡ FaultResponse.safehold)
          ↔ ((q.cur_state ≡ QfhState.safehold) × (q'.cur_state ≡ QfhState.safehold)))
unfolding execute
execute-response cc q h =
    ((λ e. ground arith, λ e. ground arith), (λ e. ground arith, λ e. ground arith))
