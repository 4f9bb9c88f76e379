-- ===== src/Propulsion/Thrust.antt =====
-- The interrupt that runs the schedule down, taken as often as it takes.
use flight_software.Base.{
  ℕ, zero, suc, ◌+◌, ◌/◌, ◌≤◌, ◌<◌, ◌≡◌, refl, ap, ◌∙◌, arith, Bool, false, not, ◌&&◌, List, [],
  ◌∷◌, length, if◌then◌else◌,
}
use flight_software.Propulsion.{
  Propulsion, AllClosed, thrust_valve_pass, thrust_valve_passes, thrust_valve_loop,
}

abbrev pub total : List ℕ → ℕ
total [] = 0
total (s ∷ ss) = s + total ss

-- How many valves are open in the second list and closed in the first.
abbrev pub newly_opened : List Bool → List Bool → ℕ
newly_opened [] _ = 0
newly_opened (o ∷ os) [] = 0
newly_opened (o ∷ os) (o' ∷ os') = (if not o && o' then 1 else 0) + newly_opened os os'

newly_opened_self : (os : List Bool) → newly_opened os os ≡ 0
newly_opened_self [] = refl
newly_opened_self (o ∷ os) = ground (arith, newly_opened_self os)

passes-newly_opened :
    (did : Bool) (os : List Bool) (ss : List ℕ)
    → newly_opened os (thrust_valve_passes did os ss).0 + (if did then 1 else 0) ≤ 1
unfolding thrust_valve_passes
passes-newly_opened did [] ss = ground arith
passes-newly_opened did (o ∷ os) [] = ground (arith, newly_opened_self (o ∷ os))
passes-newly_opened did (o ∷ os) (s ∷ ss) =
    ground (arith, passes-newly_opened (thrust_valve_pass did o s).did_open_valve os ss)

-- One interrupt opens at most one valve that was closed.
pub thrust_valve_loop-newly_opened :
    (p : Propulsion) → newly_opened p.tank2_opened (thrust_valve_loop p).tank2_opened ≤ 1
unfolding thrust_valve_loop
thrust_valve_loop-newly_opened p =
    omega (arith, passes-newly_opened false p.tank2_opened p.schedule)

total-passes-le :
    (did : Bool) (os : List Bool) (ss : List ℕ) → total (thrust_valve_passes did os ss).1 ≤ total ss
unfolding thrust_valve_passes
total-passes-le did [] ss = omega arith
total-passes-le did (o ∷ os) [] = omega arith
total-passes-le did (o ∷ os) (s ∷ ss) =
    ground (arith, total-passes-le (thrust_valve_pass did o s).did_open_valve os ss)

total-passes-lt :
    (os : List Bool) (ss : List ℕ)
    → length os ≡ length ss
    → 0 < total ss
    → total (thrust_valve_passes false os ss).1 < total ss
unfolding thrust_valve_passes
total-passes-lt [] [] h k = omega arith
total-passes-lt [] (s ∷ ss) h k = omega arith
total-passes-lt (o ∷ os) [] h k = omega arith
total-passes-lt (o ∷ os) (s ∷ ss) h k =
    let did = (thrust_valve_pass false o s).did_open_valve in
    ground (arith, total-passes-le did os ss, total-passes-lt os ss)

lengths-passes :
    (did : Bool) (os : List Bool) (ss : List ℕ)
    → let r = thrust_valve_passes did os ss in (length r.0 ≡ length os) × (length r.1 ≡ length ss)
unfolding thrust_valve_passes
lengths-passes did [] ss = omega arith
lengths-passes did (o ∷ os) [] = omega arith
lengths-passes did (o ∷ os) (s ∷ ss) =
    ground (arith, lengths-passes (thrust_valve_pass did o s).did_open_valve os ss)

-- There is a schedule entry for each valve of tank 2.
abbrev pub IsAligned : Propulsion → Type 0
IsAligned p = length p.tank2_opened ≡ length p.schedule

thrust_valve_loop-IsAligned : (p : Propulsion) → IsAligned p → IsAligned (thrust_valve_loop p)
unfolding thrust_valve_loop
thrust_valve_loop-IsAligned p h = omega (arith, lengths-passes false p.tank2_opened p.schedule)

total-thrust_valve_loop-le :
    (n : ℕ) (p : Propulsion)
    → IsAligned p
    → total p.schedule ≤ suc n
    → total (thrust_valve_loop p).schedule ≤ n
unfolding thrust_valve_loop
total-thrust_valve_loop-le n p h k = grind (
  arith,
  total-passes-le false p.tank2_opened p.schedule,
  total-passes-lt p.tank2_opened p.schedule h,
)

-- In how many of the intervals after `n` interrupts each valve stands open.
abbrev pub add_open : List Bool → List ℕ → List ℕ
add_open [] _ = []
add_open (o ∷ os) [] = []
add_open (o ∷ os) (c ∷ cs) = (if o then c + 1 else c) ∷ add_open os cs

abbrev pub zeros : List Bool → List ℕ
zeros [] = []
zeros (o ∷ os) = 0 ∷ zeros os

unfoldable pub open_intervals : ℕ → Propulsion → List ℕ
open_intervals zero p = zeros p.tank2_opened
open_intervals (suc n) p =
    let q = thrust_valve_loop p in add_open q.tank2_opened (open_intervals n q)

abbrev pub thirds : List ℕ → List ℕ
thirds [] = []
thirds (s ∷ ss) = (s / 3) ∷ thirds ss

zeros-thirds :
    (os : List Bool) (ss : List ℕ) → length os ≡ length ss → total ss ≡ 0 → zeros os ≡ thirds ss
zeros-thirds [] [] h k = refl
zeros-thirds [] (s ∷ ss) h k = absurd (omega arith)
zeros-thirds (o ∷ os) [] h k = absurd (omega arith)
zeros-thirds (o ∷ os) (s ∷ ss) h k = ground (arith, zeros-thirds os ss)

thirds-passes :
    (did : Bool) (os : List Bool) (ss : List ℕ)
    → length os ≡ length ss
    → let r = thrust_valve_passes did os ss in add_open r.0 (thirds r.1) ≡ thirds ss
unfolding thrust_valve_passes
thirds-passes did [] [] h = refl
thirds-passes did [] (s ∷ ss) h = absurd (omega arith)
thirds-passes did (o ∷ os) [] h = absurd (omega arith)
thirds-passes did (o ∷ os) (s ∷ ss) h =
    ground (arith, thirds-passes (thrust_valve_pass did o s).did_open_valve os ss)

thirds-thrust_valve_loop :
    (p : Propulsion)
    → IsAligned p
    → add_open (thrust_valve_loop p).tank2_opened (thirds (thrust_valve_loop p).schedule)
      ≡ thirds p.schedule
unfolding thrust_valve_loop
thirds-thrust_valve_loop p h = thirds-passes false p.tank2_opened p.schedule h

-- Enough interrupts open each valve of an aligned driver for a third of its schedule, rounded down,
-- in intervals of 3 ms: as many interrupts as the whole schedule has milliseconds are enough.
pub open_intervals-thirds :
    (n : ℕ) (p : Propulsion)
    → IsAligned p
    → total p.schedule ≤ n
    → open_intervals n p ≡ thirds p.schedule
unfolding open_intervals
open_intervals-thirds zero p h k = zeros-thirds p.tank2_opened p.schedule h (omega arith)
open_intervals-thirds (suc n) p h k =
    let q = thrust_valve_loop p in
    let rest =
      open_intervals-thirds n q (thrust_valve_loop-IsAligned p h)
        (total-thrust_valve_loop-le n p h k) in
    ap (add_open q.tank2_opened) rest ∙ thirds-thrust_valve_loop p h

-- `n` interrupts in a row.
unfoldable pub interrupts : ℕ → Propulsion → Propulsion
interrupts zero p = p
interrupts (suc n) p = interrupts n (thrust_valve_loop p)

AllClosed-passes :
    (did : Bool) (os : List Bool) (ss : List ℕ)
    → length os ≡ length ss
    → total ss ≡ 0
    → AllClosed (thrust_valve_passes did os ss).0
unfolding thrust_valve_passes
AllClosed-passes did [] ss h k = tt
AllClosed-passes did (o ∷ os) [] h k = absurd (omega arith)
AllClosed-passes did (o ∷ os) (s ∷ ss) h k =
    ground (arith, AllClosed-passes (thrust_valve_pass did o s).did_open_valve os ss)

thrust_valve_loop_empty :
    (p : Propulsion)
    → IsAligned p
    → total p.schedule ≡ 0
    → let q = thrust_valve_loop p in (total q.schedule ≡ 0) × AllClosed q.tank2_opened
unfolding thrust_valve_loop
thrust_valve_loop_empty p h k = (
  omega (arith, total-passes-le false p.tank2_opened p.schedule),
  AllClosed-passes false p.tank2_opened p.schedule h k,
)

-- Firing ends: one interrupt after the schedule's total of an aligned driver at the latest, the
-- schedule is all zeros and every valve of tank 2 is closed.
pub interrupts_run_dry :
    (n : ℕ) (p : Propulsion)
    → IsAligned p
    → total p.schedule < n
    → let q = interrupts n p in (total q.schedule ≡ 0) × AllClosed q.tank2_opened
unfolding interrupts
interrupts_run_dry zero p h k = absurd (omega arith)
interrupts_run_dry (suc zero) p h k = thrust_valve_loop_empty p h (omega arith)
interrupts_run_dry (suc (suc n)) p h k =
    interrupts_run_dry (suc n) (thrust_valve_loop p) (thrust_valve_loop-IsAligned p h)
      (omega (arith, total-thrust_valve_loop-le n p h))
