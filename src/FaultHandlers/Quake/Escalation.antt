-- ===== src/FaultHandlers/Quake/Escalation.antt =====
-- What the radio's fault handler comes to while the ground stays silent.
use flight_software.Base.{
  ℕ, zero, suc, ◌+◌, ◌-◌, ◌*◌, ◌/◌, ◌≡◌, ◌≤◌, ◌<◌, subst, true, arith, u32_mod,
}
use native.Mathlib.Nat.{add-zero, zero-add, suc-add}
use flight_software.Modes.{QfhState}
use flight_software.FaultHandlers.Quake.{
  QuakeFaultHandler, execute, one_day_ccno, dispatch, dispatch_powercycle,
}

-- The handler after `n` control cycles, the first of which is number `cc`, in which nothing else
-- writes its fields.
unfoldable pub cycles : ℕ → ℕ → QuakeFaultHandler → QuakeFaultHandler
cycles zero cc q = q
cycles (suc n) cc q = cycles n (cc + 1) (execute cc q).1

-- In `st` since cycle `entry`, with no contact for a day at cycle `entry` or later.
pub record IsStuck (st : QfhState) (entry : ℕ) (q : QuakeFaultHandler) : Type 0 where
  pub enabled : q.qfh_enable ≡ true
  pub in_state : q.cur_state ≡ st
  pub entered : q.cur_state_entry_ccno ≡ entry
  pub silent : q.last_checkin_cycle + one_day_ccno ≤ entry

abbrev pub third_of_day : ℕ
third_of_day = one_day_ccno / 3

-- A stage of power cycling is left for `next`.
abbrev IsStage : QfhState → QfhState → Type 0
IsStage st next =
    (cc : ℕ) (q : QuakeFaultHandler)
    → q.qfh_enable ≡ true
    → q.cur_state ≡ st
    → execute cc q ≡ dispatch_powercycle cc next q

stage_holds :
    (st next : QfhState) (entry cc : ℕ) (q : QuakeFaultHandler)
    → IsStage st next
    → IsStuck st entry q
    → entry < cc
    → cc < entry + third_of_day
    → cc < u32_mod
    → IsStuck st entry (execute cc q).1
unfolding dispatch_powercycle
stage_holds st next entry cc q is_stage stuck h k b = ground (arith, is_stage cc q)

stage_ends :
    (st next : QfhState) (entry cc : ℕ) (q : QuakeFaultHandler)
    → IsStage st next
    → IsStuck st entry q
    → cc ≡ entry + third_of_day
    → cc < u32_mod
    → IsStuck next cc (execute cc q).1
unfolding dispatch_powercycle
stage_ends st next entry cc q is_stage stuck h b = ground (arith, is_stage cc q)

stage :
    (n : ℕ) (st next : QfhState) (entry cc : ℕ) (q : QuakeFaultHandler)
    → IsStage st next
    → IsStuck st entry q
    → entry < cc
    → cc + n ≡ entry + third_of_day
    → cc + n < u32_mod
    → IsStuck next (cc + n) (cycles (suc n) cc q)
unfolding cycles
stage zero st next entry cc q is_stage stuck h k b =
    let same : cc ≡ cc + 0 = omega arith in
    subst (λ c. IsStuck next c (execute cc q).1) same
      (stage_ends st next entry cc q is_stage stuck (omega arith) (omega arith))
stage (suc n) st next entry cc q is_stage stuck h k b =
    let same : cc + 1 + n ≡ cc + suc n = omega arith in
    let q' = (execute cc q).1 in
    let kept = stage_holds st next entry cc q is_stage stuck h (omega arith) (omega arith) in
    subst (λ c. IsStuck next c (cycles (suc n) (cc + 1) q')) same
      (stage n st next entry (cc + 1) q' is_stage kept (omega arith) (omega arith) (omega arith))

cycles-add :
    (m n cc : ℕ) (q : QuakeFaultHandler) → cycles (m + n) cc q ≡ cycles n (cc + m) (cycles m cc q)
unfolding cycles
cycles-add zero n cc q = simp (zero-add, add-zero)
cycles-add (suc m) n cc q =
    let same : cc + 1 + m ≡ cc + suc m = omega arith in
    let q' = (execute cc q).1 in
    rw suc-add (
      subst (λ c. cycles (m + n) (cc + 1) q' ≡ cycles n c (cycles m (cc + 1) q')) same
        (cycles-add m n (cc + 1) q'))

powercycle_1-IsStage : IsStage QfhState.powercycle_1 QfhState.powercycle_2
unfolding execute dispatch
powercycle_1-IsStage cc q h k = ground arith

powercycle_2-IsStage : IsStage QfhState.powercycle_2 QfhState.powercycle_3
unfolding execute dispatch
powercycle_2-IsStage cc q h k = ground arith

powercycle_3-IsStage : IsStage QfhState.powercycle_3 QfhState.safehold
unfolding execute dispatch
powercycle_3-IsStage cc q h k = ground arith

cycles_thrice :
    (t entry : ℕ) (q : QuakeFaultHandler)
    → cycles (t + t + t) (entry + 1) q
      ≡ cycles t (entry + t + t + 1) (cycles t (entry + t + 1) (cycles t (entry + 1) q))
cycles_thrice t entry q =
    let e₁ : entry + 1 + t ≡ entry + t + 1 = omega arith in
    let e₂ : entry + 1 + (t + t) ≡ entry + t + t + 1 = omega arith in
    ground (arith, cycles-add (t + t) t (entry + 1) q, cycles-add t t (entry + 1) q, e₁, e₂)

whole_stage :
    (st next : QfhState) (entry : ℕ) (q : QuakeFaultHandler)
    → IsStage st next
    → IsStuck st entry q
    → entry + third_of_day < u32_mod
    → IsStuck next (entry + third_of_day) (cycles third_of_day (entry + 1) q)
whole_stage st next entry q is_stage stuck b =
    let n : ℕ = third_of_day - 1 in
    let same : entry + 1 + n ≡ entry + third_of_day = omega arith in
    subst (λ c. IsStuck next c (cycles third_of_day (entry + 1) q)) same
      (stage n st next entry (entry + 1) q is_stage stuck (omega arith) (omega arith) (omega arith))

-- Power cycling ends: a handler that enters `powercycle_1` in silence, and is left alone, is in its
-- state `safehold` after three thirds of a day, in control cycles. The control cycle count does not
-- wrap on the way.
pub cycles-safehold :
    (entry : ℕ) (q : QuakeFaultHandler)
    → IsStuck QfhState.powercycle_1 entry q
    → entry + 3 * third_of_day < u32_mod
    → IsStuck QfhState.safehold (entry + 3 * third_of_day) (cycles (3 * third_of_day) (entry + 1) q)
cycles-safehold entry q stuck b =
    let t : ℕ = third_of_day in
    let q₁ = cycles t (entry + 1) q in
    let q₂ = cycles t (entry + t + 1) q₁ in
    let s₁ =
      whole_stage QfhState.powercycle_1 QfhState.powercycle_2 entry q powercycle_1-IsStage stuck
        (omega arith) in
    let s₂ =
      whole_stage QfhState.powercycle_2 QfhState.powercycle_3 (entry + t) q₁ powercycle_2-IsStage s₁
        (omega arith) in
    let s₃ =
      whole_stage QfhState.powercycle_3 QfhState.safehold (entry + t + t) q₂ powercycle_3-IsStage s₂
        (omega arith) in
    let same : entry + t + t + t ≡ entry + 3 * t = omega arith in
    rw (cycles_thrice t entry q)
      (subst (λ c. IsStuck QfhState.safehold c (cycles t (entry + t + t + 1) q₂)) same s₃)
