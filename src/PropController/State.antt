-- ===== src/PropController/State.antt =====
-- The fields of the propulsion controller and of its nine state objects, and the monad of code that
-- reads and changes them.
use flight_software.Base.{ℕ, ◌+◌, ◌*◌, Bool, true, false, ◌&&◌, ltb, leb, u32}
use flight_software.Modes.{PropState}
use flight_software.Fault.{Fault, is_faulted}
use flight_software.Propulsion.{Propulsion, Tank}
use flight_software.Floats.{FloatOps}

-- ActionCycleOpenClose: `cycles_left` is its CountdownTimer.
pub record ActionCycle : Type 0 where
  pub cycle_count : ℕ
  pub p_tank : Tank
  pub cur_valve_index : ℕ
  pub cycles_left : ℕ

pub record PropController (Float : Type 0) : Type 0 where
  pub prop_state : PropState
  pub cycles_until_firing : ℕ
  pub sched_valve1 : ℕ
  pub sched_valve2 : ℕ
  pub sched_valve3 : ℕ
  pub sched_valve4 : ℕ
  pub sched_intertank1 : ℕ
  pub sched_intertank2 : ℕ
  pub max_venting_cycles : ℕ
  pub ctrl_cycles_per_close_period : ℕ
  pub max_pressurizing_cycles : ℕ
  pub threshold_firing_pressure : Float
  pub ctrl_cycles_per_filling_period : ℕ
  pub ctrl_cycles_per_cooling_period : ℕ
  pub tank1_valve : ℕ
  pub tank2_pressure : Float
  pub tank2_temp : Float
  pub tank1_temp : Float
  pub num_prop_firings : ℕ
  pub pressurize_fail : Fault
  pub overpressure : Fault
  pub tank2_temp_high : Fault
  pub tank1_temp_high : Fault
  -- PropState_Pressurizing.
  pub pressurizing : ActionCycle
  -- PropState_Venting.
  pub venting : ActionCycle
  pub saved_tank2_valve_choice : ℕ
  pub tank_choice : ℕ
  -- The devices behind `PropulsionSystem`, `Tank1` and `Tank2`.
  pub propulsion : Propulsion

-- The sensors, as they are read at the end of a control cycle.
pub record Readings (Float : Type 0) : Type 0 where
  pub pressure2 : Float
  pub temp2 : Float
  pub temp1 : Float

abbrev pub M : Type 0 → Type 0 → Type 0
M Float A = PropController Float → A × PropController Float

module _ {Float : Type 0} where
  abbrev pub pure : {A : Type 0} → A → M Float A
  pure a s = (a, s)

  infixl 5 ◌>>=◌ ◌>>◌
  abbrev pub ◌>>=◌ : {A B : Type 0} → M Float A → (A → M Float B) → M Float B
  ◌>>=◌ m f s = let (a, t) = m s in f a t

  abbrev pub ◌>>◌ : {B : Type 0} → M Float (Unit {0}) → M Float B → M Float B
  ◌>>◌ m k s = k (m s).1

  abbrev pub get : M Float (PropController Float)
  get s = (s, s)

  abbrev pub modify : (PropController Float → PropController Float) → M Float (Unit {0})
  modify f s = (tt, f s)

  -- A command to the driver whose result is not read.
  abbrev pub drive : (Propulsion → Propulsion) → M Float (Unit {0})
  drive f s = (tt, record s { propulsion = f s.propulsion })

  -- `&&` and `||` of C++: the right side is run only if it matters.
  abbrev pub and_also : M Float Bool → M Float Bool → M Float Bool
  and_also m k s = let (b, t) = m s in elim b [ true ↦ k t | false ↦ (false, t) ]

  abbrev pub or_else : M Float Bool → M Float Bool → M Float Bool
  or_else m k s = let (b, t) = m s in elim b [ true ↦ (true, t) | false ↦ k t ]

  abbrev pub negated : M Float Bool → M Float Bool
  negated m s = let (b, t) = m s in (elim b [ true ↦ false | false ↦ true ], t)

  abbrev pub when : {A : Type 0} → Bool → M Float A → M Float A → M Float A
  when b m k s = elim b [ true ↦ m s | false ↦ k s ]

  -- The questions to the four faults.
  abbrev pub pressurize_fail_is_faulted : M Float Bool
  pressurize_fail_is_faulted s =
      let (b, f) = is_faulted s.pressurize_fail in (b, record s { pressurize_fail = f })

  abbrev pub overpressure_is_faulted : M Float Bool
  overpressure_is_faulted s =
      let (b, f) = is_faulted s.overpressure in (b, record s { overpressure = f })

  abbrev pub tank2_temp_high_is_faulted : M Float Bool
  tank2_temp_high_is_faulted s =
      let (b, f) = is_faulted s.tank2_temp_high in (b, record s { tank2_temp_high = f })

  abbrev pub tank1_temp_high_is_faulted : M Float Bool
  tank1_temp_high_is_faulted s =
      let (b, f) = is_faulted s.tank1_temp_high in (b, record s { tank1_temp_high = f })

-- is_valid_schedule.
unfoldable pub is_valid_schedule : ℕ → ℕ → ℕ → ℕ → ℕ → Bool
is_valid_schedule v1 v2 v3 v4 ctrl_cycles_from_now =
    leb v1 1000 && leb v2 1000 && leb v3 1000 && leb v4 1000 && ltb 1 ctrl_cycles_from_now

module _ {Float : Type 0} where
  unfoldable pub validate_schedule : PropController Float → Bool
  unfolding is_valid_schedule
  validate_schedule s =
      is_valid_schedule s.sched_valve1 s.sched_valve2 s.sched_valve3 s.sched_valve4
        s.cycles_until_firing

  unfoldable pub min_cycles_needed : PropController Float → ℕ
  min_cycles_needed s = u32 (
      s.max_pressurizing_cycles
        * (s.ctrl_cycles_per_filling_period + s.ctrl_cycles_per_cooling_period)
      + 4)

module _ {Float : Type 0} ⦃o : FloatOps Float⦄ where
  abbrev pub max_safe_pressure : Float
  max_safe_pressure = o.of_ℕ 75

  abbrev pub max_safe_temp : Float
  max_safe_temp = o.of_ℕ 49

  unfoldable pub is_at_threshold_pressure : PropController Float → Bool
  is_at_threshold_pressure s = o.le s.threshold_firing_pressure s.tank2_pressure

  unfoldable pub is_tank2_overpressured : PropController Float → Bool
  is_tank2_overpressured s = o.lt max_safe_pressure s.tank2_pressure

  unfoldable pub is_tank1_temp_high : PropController Float → Bool
  is_tank1_temp_high s = o.lt max_safe_temp s.tank1_temp

  unfoldable pub is_tank2_temp_high : PropController Float → Bool
  is_tank2_temp_high s = o.lt max_safe_temp s.tank2_temp
