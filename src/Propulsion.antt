-- ===== src/Propulsion.antt =====
-- The propulsion driver, src/fsw/FCCode/Drivers/PropulsionSystem.cpp: the valves of two tanks, the
-- firing schedule of tank 2, and the interrupt that runs it down.
--
-- The level of a valve's pin and the flag `is_valve_opened` are written together wherever either is,
-- so one Boolean stands for both. The length of a tank's list is its `num_valves`.
pub mod Schedule
pub mod Thrust
use flight_software.Base.{
  ℕ, ◌-◌, ◌≡◌, Bool, true, false, not, ◌&&◌, ◌||◌, List, [], ◌∷◌, ltb, leb, ◌==◌, if◌then◌else◌,
  length, get_or, set,
}

pub data Tank : Type 0 where
  tank1 tank2 : Tank

pub record Propulsion : Type 0 where
  pub tank1_opened : List Bool
  pub tank2_opened : List Bool
  pub schedule : List ℕ
  pub is_interval_enabled : Bool
  -- The level of the pin `DCDC::SpikeDockDCDC_EN`.
  pub is_functional : Bool

-- Every valve of a tank is closed.
abbrev pub AllClosed : List Bool → Type 0
AllClosed [] = Unit
AllClosed (o ∷ os) = (o ≡ false) × AllClosed os

abbrev pub min_firing_duration_ms : ℕ
min_firing_duration_ms = 10

abbrev pub thrust_valve_loop_interval_ms : ℕ
thrust_valve_loop_interval_ms = 3

-- The drivers after the constructors of the two tanks.
unfoldable pub new : Bool → Propulsion
new functional = record {
  tank1_opened = false ∷ false ∷ [];
  tank2_opened = false ∷ false ∷ false ∷ false ∷ [];
  schedule = 0 ∷ 0 ∷ 0 ∷ 0 ∷ [];
  is_interval_enabled = false;
  is_functional = functional;
}

abbrev pub is_valve_opened : Tank → Propulsion → List Bool
is_valve_opened tank1 p = p.tank1_opened
is_valve_opened tank2 p = p.tank2_opened

abbrev pub set_valves : Tank → List Bool → Propulsion → Propulsion
set_valves tank1 v p = record p { tank1_opened = v }
set_valves tank2 v p = record p { tank2_opened = v }

unfoldable pub is_valve_open : Tank → ℕ → Propulsion → Bool
is_valve_open t i p =
    let valves = is_valve_opened t p in
    if leb (length valves) i then false else get_or valves i false

unfoldable pub close_all : List Bool → List Bool
close_all [] = []
close_all (_ ∷ valves) = false ∷ close_all valves

unfoldable pub close_all_valves : Tank → Propulsion → Propulsion
unfolding close_all
close_all_valves t p = set_valves t (close_all (is_valve_opened t p)) p

-- The result says whether the valve exists.
unfoldable pub open_valve : Tank → ℕ → Propulsion → Bool × Propulsion
open_valve t i p =
    let valves = is_valve_opened t p in
    if leb (length valves) i then (false, p) else (true, set_valves t (set valves i true) p)

unfoldable pub close_valve : Tank → ℕ → Propulsion → Propulsion
close_valve t i p =
    let valves = is_valve_opened t p in
    if leb (length valves) i then p else set_valves t (set valves i false) p

unfoldable pub get_schedule_at : ℕ → Propulsion → ℕ
get_schedule_at i p = if leb (length p.tank2_opened) i then 0 else get_or p.schedule i 0

unfoldable pub disable : Propulsion → Propulsion
unfolding close_all_valves
disable p = record (close_all_valves tank2 p) { is_interval_enabled = false }

-- Refused while the interrupt runs.
unfoldable pub clear_schedule : Propulsion → Bool × Propulsion
clear_schedule p =
    if p.is_interval_enabled then (false, p) else (true, record p { schedule = 0 ∷ 0 ∷ 0 ∷ 0 ∷ [] })

unfoldable pub reset : Propulsion → Propulsion
unfolding disable close_all_valves clear_schedule
reset p = (clear_schedule (close_all_valves tank1 (disable p))).1

unfoldable pub start_firing : Propulsion → Bool × Propulsion
unfolding disable
start_firing p =
    if p.is_interval_enabled
    then (false, disable p)
    else (true, record p { is_interval_enabled = true })

-- The duration that a valve is given, which is 0 if it is too short.
unfoldable pub scheduled : ℕ → ℕ
scheduled a = if leb min_firing_duration_ms a then a else 0

-- Refused while the interrupt runs, or if a duration is a second or more.
unfoldable pub set_schedule : ℕ → ℕ → ℕ → ℕ → Propulsion → Bool × Propulsion
unfolding scheduled
set_schedule a b c d p =
    if p.is_interval_enabled
    then (false, p)
    else if leb 1000 a || leb 1000 b || leb 1000 c || leb 1000 d
    then (false, p)
    else (true, record p { schedule = scheduled a ∷ scheduled b ∷ scheduled c ∷ scheduled d ∷ [] })

-- What one pass of the interrupt's loop makes of a valve and its schedule, and whether the interrupt
-- has opened a valve by then.
pub record Pass : Type 0 where
  pub did_open_valve : Bool
  pub opened : Bool
  pub remaining : ℕ

unfoldable pub thrust_valve_pass : Bool → Bool → ℕ → Pass
thrust_valve_pass did opened remaining =
    if ltb remaining thrust_valve_loop_interval_ms
    then (if opened || not (remaining == 0)
        then record { did_open_valve = did; opened = false; remaining = 0 }
        else record { did_open_valve = did; opened = opened; remaining = remaining })
    else (let opens = not opened && not did in
        let opened' = opened || opens in
        record {
          did_open_valve = did || opens;
          opened = opened';
          remaining = if opened' then remaining - thrust_valve_loop_interval_ms else remaining;
        })

-- The loop from some valve on: the valves and the schedule from there.
unfoldable pub thrust_valve_passes : Bool → List Bool → List ℕ → List Bool × List ℕ
unfolding thrust_valve_pass
thrust_valve_passes did [] ss = ([], ss)
thrust_valve_passes did (o ∷ os) [] = (o ∷ os, [])
thrust_valve_passes did (o ∷ os) (s ∷ ss) =
    let pass = thrust_valve_pass did o s in
    let (os', ss') = thrust_valve_passes pass.did_open_valve os ss in
    (pass.opened ∷ os', pass.remaining ∷ ss')

-- The interrupt, every 3 ms while `is_interval_enabled`.
unfoldable pub thrust_valve_loop : Propulsion → Propulsion
unfolding thrust_valve_passes
thrust_valve_loop p =
    let (opened, schedule) = thrust_valve_passes false p.tank2_opened p.schedule in
    record p { tank2_opened = opened; schedule = schedule }
