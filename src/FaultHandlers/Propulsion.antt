-- ===== src/FaultHandlers/Propulsion.antt =====
-- PropFaultHandler, src/fsw/FCCode/PropFaultHandler.cpp, over the fields of the propulsion controller,
-- which has been constructed (`PropState::controller` is not null).
pub mod BothTanks
use flight_software.Base.{
  ℕ, ◌+◌, ◌≤◌, ◌<◌, ◌≡◌, ◌↔◌, ◌⊎◌, Bool, true, false, not, ◌||◌, ltb, ◌==◌, u32, if◌then◌else◌, max,
  arith,
}
use flight_software.Modes.{PropState, FaultResponse, same_prop}
use flight_software.PropController.State.{
  PropController, M, pure, ◌>>=◌, and_also, or_else, tank1_temp_high_is_faulted,
  tank2_temp_high_is_faulted, overpressure_is_faulted,
}

pub record PropFaultHandler : Type 0 where
  pub saved_max_venting_cycles : ℕ
  pub num_cycles_both_venting : ℕ
  pub has_not_init : Bool

-- The handler and the controller whose fields it points to.
pub record Pair (Float : Type 0) : Type 0 where
  pub handler : PropFaultHandler
  pub controller : PropController Float

abbrev pub is_faulty : PropState → Bool
is_faulty PropState.handling_fault = true
is_faulty PropState.venting = true
is_faulty _ = false

module _ {Float : Type 0} where
  abbrev pub set_max_venting : ℕ → Pair Float → Pair Float
  set_max_venting n p = record p { controller = record (p.controller) { max_venting_cycles = n } }

  unfoldable pub init : Pair Float → Pair Float
  init p = record p {
    handler = record (p.handler) {
      saved_max_venting_cycles = p.controller.max_venting_cycles;
      has_not_init = false;
    };
  }

  -- Both questions are asked; the second of tank 2 only if the first says no.
  unfoldable pub both_tanks_want_to_vent : M Float Bool
  both_tanks_want_to_vent = do
    tank1 ← tank1_temp_high_is_faulted
    tank2 ← or_else tank2_temp_high_is_faulted overpressure_is_faulted
    pure (if tank1 then tank2 else false)

  unfoldable pub handle_restore_values : Pair Float → Pair Float
  handle_restore_values p =
      let q = set_max_venting p.handler.saved_max_venting_cycles p in
      record q { handler = record (q.handler) { num_cycles_both_venting = 0 } }

  unfoldable pub handle_both_tanks_want_to_vent : Pair Float → Pair Float
  handle_both_tanks_want_to_vent p =
      if p.handler.num_cycles_both_venting == 0
      then set_max_venting 1 (record p {
        handler = record (p.handler) {
          saved_max_venting_cycles = p.controller.max_venting_cycles;
          num_cycles_both_venting = 1;
        };
      })
      else if same_prop p.controller.prop_state PropState.handling_fault
      then (let n = u32 (p.handler.num_cycles_both_venting + 1) in
          let q = record p { handler = record (p.handler) { num_cycles_both_venting = n } } in
          if ltb q.handler.saved_max_venting_cycles n
          then handle_restore_values
              (record q { controller = record (q.controller) { prop_state = PropState.disabled } })
          else q)
      else p

  unfoldable pub execute : Pair Float → FaultResponse × Pair Float
  execute p =
      let q = if p.handler.has_not_init then init p else p in
      if not (is_faulty q.controller.prop_state)
      then (FaultResponse.none, q)
      else (let (both, c) = both_tanks_want_to_vent q.controller in
          let r = record q { controller = c } in
          (
            FaultResponse.standby,
            if both then handle_both_tanks_want_to_vent r else handle_restore_values r,
          ))
