-- ===== src/Eeprom.antt =====
-- The fields that survive a power cycle: src/fsw/FCCode/EEPROMControllerCommon.cpp and
-- EEPROMControllerTeensy.cpp. The memory is the Arduino library's: its operations are a parameter.
pub mod Fields
pub mod Restore
pub mod Unwritten
use flight_software.Base.{
  ℕ, zero, suc, ◌+◌, ◌*◌, ◌%◌, ◌<◌, ◌≡◌, ◌≢◌, Bool, true, false, not, ◌&&◌, ◌==◌, if◌then◌else◌,
  List, [], ◌∷◌,
}
use flight_software.Modes.{MissionState, mission_code}
use flight_software.Eeprom.Fields.{Field, get_eeprom_repr, set_from_eeprom, same_name}

-- EEPROM.length, EEPROM.read and EEPROM.update of a memory.
pub record EepromOps (Memory : Type 0) : Type 0 where
  pub size : ℕ
  pub read : Memory → ℕ → ℕ
  pub update : ℕ → ℕ → Memory → Memory

-- What its documentation says: a byte that is written to a cell is read from it, and the other
-- cells keep theirs.
pub record EepromLaws (Memory : Type 0) ⦃o : EepromOps Memory⦄ : Type 0 where
  pub read-update : (a v : ℕ) (m : Memory) → a < o.size → v < 256 → o.read (o.update a v m) a ≡ v
  pub read-update_other : (a b v : ℕ) (m : Memory) → a ≢ b → o.read (o.update a v m) b ≡ o.read m b

-- "pan.state".
abbrev pub pan_state : List ℕ
pan_state = 112 ∷ 97 ∷ 110 ∷ 46 ∷ 115 ∷ 116 ∷ 97 ∷ 116 ∷ 101 ∷ []

-- addresses[i], as `init` fills it.
unfoldable pub address : ℕ → ℕ
address i = i * 5

-- The mission state is taken over from before the power cycle only if it is docking or docked.
unfoldable pub is_refused : Field → ℕ → Bool
unfolding same_name mission_code
is_refused f field_val =
    same_name f.name pan_state
    && not (field_val == mission_code MissionState.docking)
    && not (field_val == mission_code MissionState.docked)

unfoldable pub restore : Field → ℕ → Field
unfolding is_refused
restore f field_val =
    if is_refused f field_val then f else record f { val = set_from_eeprom field_val f.val }

module _ {Memory : Type 0} ⦃o : EepromOps Memory⦄ where
  -- The loop of read_EEPROM from field `i` on.
  unfoldable pub read_fields : ℕ → List Field → Memory → List Field
  unfolding address restore
  read_fields i [] m = []
  read_fields i (f ∷ fs) m = restore f (o.read m (address i)) ∷ read_fields (suc i) fs m

  unfoldable pub read_eeprom : List Field → Memory → List Field
  unfolding read_fields
  read_eeprom fields m = read_fields 0 fields m

  -- EEPROM.update takes a byte.
  unfoldable pub update_eeprom : ℕ → Field → Memory → Memory
  unfolding address get_eeprom_repr
  update_eeprom position f m =
      if o.read m (address position) == get_eeprom_repr f.val
      then m
      else o.update (address position) (get_eeprom_repr f.val % 256) m

  -- Whether the `n` cells from `i` on were never written.
  unfoldable pub check_cells : ℕ → ℕ → Memory → Bool
  check_cells i zero m = true
  check_cells i (suc n) m =
      let rest = check_cells (suc i) n m in if not (o.read m i == 255) then false else rest

  unfoldable pub check_empty : Memory → Bool
  unfolding check_cells
  check_empty m = check_cells 0 o.size m

  -- The fields after `init`, at power-up.
  unfoldable pub init : List Field → Memory → List Field
  unfolding check_empty read_eeprom
  init fields m = if not (check_empty m) then read_eeprom fields m else fields

  -- The loop of `execute` from field `i` on.
  unfoldable pub save_fields : ℕ → ℕ → List Field → Memory → Memory
  unfolding update_eeprom
  save_fields control_cycle_count i [] m = m
  save_fields control_cycle_count i (f ∷ fs) m =
      save_fields control_cycle_count (suc i) fs
        (if control_cycle_count % f.eeprom_save_period == 0 then update_eeprom i f m else m)

  unfoldable pub execute : ℕ → List Field → Memory → Memory
  unfolding save_fields
  execute control_cycle_count fields m = save_fields control_cycle_count 0 fields m
