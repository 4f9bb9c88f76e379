-- ===== src/Eeprom/Unwritten.antt =====
-- The first cycles after the first power-up, before the fields with long periods are saved:
-- src/fsw/FCCode/EEPROMControllerCommon.cpp with the count of src/fsw/FCCode/ClockManager.cpp.
use flight_software.Base.{
  ℕ, zero, suc, ◌+◌, ◌%◌, ◌<◌, ◌≡◌, ◌≢◌, refl, ap, subst, sym, ◌∙◌, Bool, false, not, ◌&&◌, ◌==◌,
  if◌then◌else◌, List, [], ◌∷◌, get_elem?, some, arith, both_branches, u32,
}
use native.Mathlib.Nat.{mod-eq_of_lt}
use mathlib.Core.Option.{some-injective, none-ne-some}
use flight_software.Eeprom.{
  EepromOps, EepromLaws, address, is_refused, restore, read_eeprom, pan_state, update_eeprom,
  check_empty, init, save_fields, execute,
}
use flight_software.Eeprom.Fields.{Field, Value, same_name, set_from_eeprom}
use flight_software.Eeprom.Restore.{
  read-save_fields_before, read-update_eeprom_other, get_elem?-read_fields,
}

not_due :
    (count period : ℕ)
    → 0 < count
    → count < period
    → period < 4294967296
    → (u32 count % period == 0) ≡ false
not_due count period positive lt small =
    ap (λ c. c % period == 0) (mod-eq_of_lt (omega (arith, lt, small)))
    ∙ ap (λ c. c == 0) (mod-eq_of_lt lt)
    ∙ ground (arith, positive)

restore-255 :
    (f : Field) (default : ℕ)
    → same_name f.name pan_state ≡ false
    → restore (record f { val = Value.unsigned_char default }) 255
      ≡ record f { val = Value.unsigned_char 255 }
unfolding restore is_refused set_from_eeprom
restore-255 f default other =
    ap
      (λ b.
        if b && not false && not false
        then record f { val = Value.unsigned_char default }
        else record f { val = Value.unsigned_char 255 })
      other

module _ {Memory : Type 0} ⦃o : EepromOps Memory⦄ where
  -- Some cycles from power-up on: the count is incremented at the start of each. The fields in the
  -- k-th cycle are `fields k`.
  unfoldable pub cycles : (ℕ → List Field) → ℕ → Memory → Memory
  unfolding execute
  cycles fields zero m = m
  cycles fields (suc k) m = execute (u32 (suc k)) (fields (suc k)) (cycles fields k m)

  module _ (l : EepromLaws Memory) where
    update_when_due :
        (b : Bool) (p q : ℕ) (f : Field) (m : Memory)
        → p ≢ q
        → o.read (if b then update_eeprom p f m else m) (address q) ≡ o.read m (address q)
    update_when_due b p q f m ne =
        both_branches (λ m'. o.read m' (address q) ≡ o.read m (address q)) b
          (read-update_eeprom_other l p q f m ne) refl

    -- A field that is not due is not saved.
    read-save_fields_idle :
        (count j i : ℕ) (fs : List Field) (f : Field) (m : Memory)
        → get_elem? fs i ≡ some f
        → (count % f.eeprom_save_period == 0) ≡ false
        → o.read (save_fields count j fs m) (address (j + i)) ≡ o.read m (address (j + i))
    unfolding save_fields
    read-save_fields_idle count j i [] f m here idle = absurd (none-ne-some f here)
    read-save_fields_idle count j zero (g ∷ fs) f m here idle =
        subst (λ k. o.read (save_fields count j (g ∷ fs) m) (address k) ≡ o.read m (address k))
          (omega arith)
          (read-save_fields_before l count (suc j) j fs _ (omega arith)
            ∙ subst
                (λ b.
                  o.read (if b then update_eeprom j g m else m) (address j) ≡ o.read m (address j))
                (sym (ap (λ h. count % h.eeprom_save_period == 0) (some-injective g f here) ∙ idle))
                refl)
    read-save_fields_idle count j (suc i) (g ∷ fs) f m here idle =
        subst (λ k. o.read (save_fields count j (g ∷ fs) m) (address k) ≡ o.read m (address k))
          (omega arith)
          (read-save_fields_idle count (suc j) i fs f _ here idle
            ∙ update_when_due (count % g.eeprom_save_period == 0) j (suc j + i) g m
                (λ e. omega (arith, e)))

    read-cycles :
        (n i : ℕ) (fields : ℕ → List Field) (f : Field) (val : ℕ → Value) (m : Memory)
        → ((k : ℕ) → get_elem? (fields k) i ≡ some (record f { val = val k }))
        → n < f.eeprom_save_period
        → f.eeprom_save_period < 4294967296
        → o.read (cycles fields n m) (address i) ≡ o.read m (address i)
    unfolding cycles execute
    read-cycles zero i fields f val m here lt small = refl
    read-cycles (suc n) i fields f val m here lt small =
        subst
          (λ k.
            o.read (cycles fields (suc n) m) (address k) ≡ o.read (cycles fields n m) (address k))
          zero_first
          (read-save_fields_idle (u32 (suc n)) 0 i (fields (suc n)) (record f { val = val (suc n) })
            (cycles fields n m) (here (suc n))
            (not_due (suc n) f.eeprom_save_period (omega arith) lt small))
        ∙ read-cycles n i fields f val m here (omega (arith, lt)) small
      where
        zero_first : 0 + i ≡ i
        zero_first = omega arith

    -- A field of one byte, not `pan.state`, is not saved in the cycles before its period is over. If
    -- its cell was never written and the satellite restarts then, with another cell written, the
    -- field is set to 255, whatever its values were and whatever the default is.
    pub init_unwritten :
        (n i default : ℕ) (fields : ℕ → List Field) (fresh : List Field) (f : Field)
        (val : ℕ → Value) (m : Memory)
        → ((k : ℕ) → get_elem? (fields k) i ≡ some (record f { val = val k }))
        → get_elem? fresh i ≡ some (record f { val = Value.unsigned_char default })
        → same_name f.name pan_state ≡ false
        → o.read m (address i) ≡ 255
        → n < f.eeprom_save_period
        → f.eeprom_save_period < 4294967296
        → check_empty (cycles fields n m) ≡ false
        → get_elem? (init fresh (cycles fields n m)) i
          ≡ some (record f { val = Value.unsigned_char 255 })
    unfolding init
    init_unwritten n i default fields fresh f val m here there other blank lt small used =
        ap (λ b. get_elem? (if not b then read_eeprom fresh after else fresh) i) used
        ∙ get_elem?-read_fields 0 i fresh (record f { val = Value.unsigned_char default }) after
            there
        ∙ ap some (
            ap (λ k. restore default_field (o.read after (address k))) zero_first
            ∙ ap (restore default_field) (read-cycles n i fields f val m here lt small ∙ blank)
            ∙ restore-255 f default other)
      where
        default_field : Field
        default_field = record f { val = Value.unsigned_char default }

        after : Memory
        after = cycles fields n m

        zero_first : 0 + i ≡ i
        zero_first = omega arith
