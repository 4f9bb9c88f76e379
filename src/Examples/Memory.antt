-- ===== src/Examples/Memory.antt =====
-- The EEPROM controller at concrete inputs.
use flight_software.Base.{
  ℕ, ◌≡◌, refl, true, false, ◌==◌, if◌then◌else◌, List, [], ◌∷◌, get_elem?, some, arith,
}
use flight_software.Eeprom.{
  EepromOps, EepromLaws, execute, init, pan_state, address, check_empty, check_cells, save_fields,
  is_refused,
}
use flight_software.Eeprom.Fields.{Field, Value, ℤ, same_name, get_eeprom_repr}
use flight_software.Eeprom.Restore.{init-execute}
use flight_software.Eeprom.Unwritten.{cycles, init_unwritten}

-- A memory is a function from addresses to bytes.
instance unfoldable functions : EepromOps (ℕ → ℕ)
functions = record { size = 4096; read = λ m a. m a; update = λ a v m b. if a == b then v else m b }

functions_laws : EepromLaws (ℕ → ℕ)
unfolding functions
functions_laws = record {
  read-update = λ a v m lt small. ground arith;
  read-update_other = λ a b v m ne. ground (arith, ne);
}

abbrev empty : ℕ → ℕ
empty a = 255

abbrev field : List ℕ → ℕ → Value → Field
field name period val = record { name = name; eeprom_save_period = period; val = val }

abbrev before : List Field
before =
    field pan_state 1 (Value.unsigned_char 9)
    ∷ field (107 ∷ []) 100 (Value.signed_char (ℤ.negsuc 4))
    ∷ field (98 ∷ []) 1 (Value.boolean true)
    ∷ []

abbrev reset : List Field
reset =
    field pan_state 1 (Value.unsigned_char 0)
    ∷ field (107 ∷ []) 100 (Value.signed_char (ℤ.pos 0))
    ∷ field (98 ∷ []) 1 (Value.boolean false)
    ∷ []

init-execute_example :
    get_elem? (init reset (execute 300 before empty)) 1
    ≡ some (field (107 ∷ []) 100 (Value.signed_char (ℤ.negsuc 4)))
unfolding functions get_eeprom_repr is_refused
init-execute_example =
    init-execute functions_laws 300 1 before reset
      (field (107 ∷ []) 100 (Value.signed_char (ℤ.negsuc 4))) (Value.signed_char (ℤ.pos 0)) empty
      refl refl (omega arith) (omega arith) refl (omega arith)

-- A restart in the third cycle of the mission.
abbrev bootcount : ℕ → Value → Field
bootcount period val = field (98 ∷ 99 ∷ []) period val

abbrev first_fields : ℕ → List Field
first_fields k =
    field pan_state 1 (Value.unsigned_char 0) ∷ bootcount 100 (Value.unsigned_char 1) ∷ []

init_unwritten_example :
    get_elem?
      (init
        (field pan_state 1 (Value.unsigned_char 0) ∷ bootcount 100 (Value.unsigned_char 0) ∷ [])
        (cycles first_fields 3 empty))
      1
    ≡ some (bootcount 100 (Value.unsigned_char 255))
unfolding functions address same_name check_empty cycles execute check_cells save_fields
init_unwritten_example =
    init_unwritten functions_laws 3 1 0 first_fields
      (field pan_state 1 (Value.unsigned_char 0) ∷ bootcount 100 (Value.unsigned_char 0) ∷ [])
      (bootcount 100 (Value.unsigned_char 0)) (λ k. Value.unsigned_char 1) empty (λ k. refl) refl
      refl refl (omega arith) (omega arith) refl
