-- ===== src/FaultHandlers/Propulsion/BothTanks.antt =====
-- The propulsion fault handler while both tanks want to vent.
use flight_software.Base.{
  ℕ, zero, suc, ◌+◌, ◌≤◌, ◌<◌, ◌≡◌, ◌↔◌, ◌⊎◌, true, false, if◌then◌else◌, u32_mod, arith,
}
use flight_software.Modes.{PropState, FaultResponse, same_prop}
use flight_software.PropController.State.{PropController}
use flight_software.FaultHandlers.Propulsion.{
  Pair, init, both_tanks_want_to_vent, handle_restore_values, handle_both_tanks_want_to_vent,
  is_faulty, execute,
}

module _ {Float : Type 0} where
  both_tanks_frame :
      (s : PropController Float)
      → let t = (both_tanks_want_to_vent s).1 in
        (t.prop_state ≡ s.prop_state) × (t.max_venting_cycles ≡ s.max_venting_cycles)
  unfolding both_tanks_want_to_vent
  both_tanks_frame s = ground arith

  -- The count of the turns stays within the saved limit, the limit is replaced by 1 while the count is
  -- not 0, and the count is 0 until the handler has initialised itself.
  pub record IsSound (p : Pair Float) : Type 0 where
    pub bounded :
        (p.handler.num_cycles_both_venting ≤ p.handler.saved_max_venting_cycles)
        ⊎ (p.handler.num_cycles_both_venting ≤ 1)
    pub borrowed : (p.handler.num_cycles_both_venting ≡ 0) ⊎ (p.controller.max_venting_cycles ≡ 1)
    pub fresh : (p.handler.has_not_init ≡ false) ⊎ (p.handler.num_cycles_both_venting ≡ 0)

  handle_both-IsSound :
      (p : Pair Float)
      → IsSound p
      → p.handler.has_not_init ≡ false
      → IsSound (handle_both_tanks_want_to_vent p)
  unfolding handle_both_tanks_want_to_vent handle_restore_values
  handle_both-IsSound p h i = ground arith

  init-IsSound :
      (p : Pair Float)
      → IsSound p
      → p.handler.has_not_init ≡ true
      → IsSound (init p) × ((init p).handler.has_not_init ≡ false)
  unfolding init
  init-IsSound p h k = ground arith

  restore-IsSound : (p : Pair Float) → IsSound p → IsSound (handle_restore_values p)
  unfolding handle_restore_values
  restore-IsSound p h = ground arith

  -- An execution in a state of fault, initialised.
  respond-IsSound :
      (p : Pair Float)
      → IsSound p
      → p.handler.has_not_init ≡ false
      → let (both, c) = both_tanks_want_to_vent p.controller in
        let r = record p { controller = c } in
        IsSound (if both then handle_both_tanks_want_to_vent r else handle_restore_values r)
  respond-IsSound p h i =
      let (both, c) = both_tanks_want_to_vent p.controller in
      let r = record p { controller = c } in
      let sound : IsSound r = ground (arith, both_tanks_frame p.controller) in
      ground (arith, handle_both-IsSound r sound i, restore-IsSound r sound)

  -- Every execution keeps the handler sound: the count of the turns stays within the saved limit,
  -- or at 1, the limit of the controller is 1 while the count is not 0, and the count is 0 until
  -- the handler has initialised itself.
  pub execute-IsSound : (p : Pair Float) → IsSound p → IsSound (execute p).1
  unfolding execute
  execute-IsSound p h =
      ground (arith, init-IsSound p h, respond-IsSound p h, respond-IsSound (init p))

  -- Standby is recommended exactly while the propulsion is handling a fault or venting.
  pub execute-standby :
      (p : Pair Float)
      → ((execute p).0 ≡ FaultResponse.standby) ↔ (is_faulty p.controller.prop_state ≡ true)
  unfolding execute init
  execute-standby p = (λ e. ground arith, λ e. ground arith)

  -- Turn after turn in `handling_fault` with both tanks wanting to vent.
  unfoldable pub turns : ℕ → Pair Float → Pair Float
  turns zero p = p
  turns (suc n) p = turns n (handle_both_tanks_want_to_vent p)

  -- The turns end: from a count above 0, turn after turn in `handling_fault` with both tanks
  -- wanting to vent, the turn that makes the count exceed the saved limit disables the propulsion,
  -- gives the limit back and clears the count. The limit and one more fit 32 bits.
  pub turns_give_up :
      (k : ℕ) (p : Pair Float)
      → p.controller.prop_state ≡ PropState.handling_fault
      → 0 < p.handler.num_cycles_both_venting
      → p.handler.num_cycles_both_venting + k ≡ p.handler.saved_max_venting_cycles
      → p.handler.saved_max_venting_cycles + 1 < u32_mod
      → let q = turns (suc k) p in
        (q.controller.prop_state ≡ PropState.disabled)
        × (q.controller.max_venting_cycles ≡ p.handler.saved_max_venting_cycles)
        × (q.handler.num_cycles_both_venting ≡ 0)
  unfolding turns handle_both_tanks_want_to_vent handle_restore_values same_prop
  turns_give_up zero p h a e b = ground arith
  turns_give_up (suc k) p h a e b =
      let q = handle_both_tanks_want_to_vent p in ground (arith, turns_give_up k q)
