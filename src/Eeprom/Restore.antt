-- ===== src/Eeprom/Restore.antt =====
-- What the EEPROM controller restores after a power cycle of what it has saved.
use flight_software.Base.{
  ℕ, zero, suc, ◌+◌, ◌*◌, ◌%◌, ◌≤◌, ◌<◌, ◌≡◌, ◌≢◌, refl, sym, ap, subst, ◌∙◌, Bool, true, false,
  not, ◌==◌, if◌then◌else◌, List, [], ◌∷◌, get_elem?, some, arith, inl, inr, Bool-cases, ltb,
  both_branches,
}
use mathlib.Core.Path.{Path}
use mathlib.Core.Option.{some-injective, none-ne-some}
use flight_software.Eeprom.{
  EepromOps, EepromLaws, address, is_refused, restore, read_fields, read_eeprom, update_eeprom,
  check_cells, check_empty, init, save_fields, execute,
}
use flight_software.Eeprom.Fields.{
  Field, Value, Replaces, get_eeprom_repr, set_from_eeprom, set_from_eeprom-get_eeprom_repr,
}

module _ {Memory : Type 0} ⦃o : EepromOps Memory⦄ where
  pub get_elem?-read_fields :
      (j i : ℕ) (fs : List Field) (f : Field) (m : Memory)
      → get_elem? fs i ≡ some f
      → get_elem? (read_fields j fs m) i ≡ some (restore f (o.read m (address (j + i))))
  unfolding read_fields
  get_elem?-read_fields j i [] f m here = absurd (none-ne-some f here)
  get_elem?-read_fields j zero (g ∷ fs) f m here = ap some (
      ap (λ k. restore g (o.read m (address k))) (omega arith)
      ∙ ap (λ h. restore h (o.read m (address (j + 0)))) (some-injective g f here))
  get_elem?-read_fields j (suc i) (g ∷ fs) f m here =
      subst (λ k. get_elem? (read_fields (suc j) fs m) i ≡ some (restore f (o.read m (address k))))
        (omega arith) (get_elem?-read_fields (suc j) i fs f m here)

  -- One written cell is enough.
  check_cells_written :
      (i n a : ℕ) (m : Memory) → o.read m a ≢ 255 → i ≤ a → a < i + n → check_cells i n m ≡ false
  unfolding check_cells
  check_cells_written i zero a m w le lt = ground (arith, le, lt)
  check_cells_written i (suc n) a m w le lt = elim (Bool-cases (o.read m i == 255)) [
    | inl e ↦ ground (arith, e, check_cells_written (suc i) n a m w (later e) (omega (arith, lt)))
    | inr e ↦ ground (arith, e)
  ]
    where
      here : ltb i a ≡ false → a ≡ i
      here h = ground (arith, le, h)

      later : o.read m i == 255 ≡ true → suc i ≤ a
      later e = elim (Bool-cases (ltb i a)) [
        | inl h ↦ ground (arith, h)
        | inr h ↦ absurd (w (ap (o.read m) (here h) ∙ ground (arith, e)))
      ]

  module _ (l : EepromLaws Memory) where
    read-update_eeprom :
        (p : ℕ) (f : Field) (m : Memory)
        → p * 5 < o.size
        → get_eeprom_repr f.val < 256
        → o.read (update_eeprom p f m) (address p) ≡ get_eeprom_repr f.val
    unfolding update_eeprom address
    read-update_eeprom p f m lt small =
        go (o.read m (p * 5) == get_eeprom_repr f.val) (λ e. ground (arith, e))
      where
        go :
            (b : Bool)
            → (b ≡ true → o.read m (p * 5) ≡ get_eeprom_repr f.val)
            → o.read (if b then m else o.update (p * 5) (get_eeprom_repr f.val % 256) m) (p * 5)
              ≡ get_eeprom_repr f.val
        go true e = e refl
        go false e =
            l.read-update (p * 5) (get_eeprom_repr f.val % 256) m lt (omega arith)
            ∙ omega (arith, small)

    pub read-update_eeprom_other :
        (p q : ℕ) (f : Field) (m : Memory)
        → p ≢ q
        → o.read (update_eeprom p f m) (address q) ≡ o.read m (address q)
    unfolding update_eeprom address
    read-update_eeprom_other p q f m ne =
        both_branches (λ m'. o.read m' (q * 5) ≡ o.read m (q * 5))
          (o.read m (p * 5) == get_eeprom_repr f.val) refl
          (l.read-update_other (p * 5) (q * 5) (get_eeprom_repr f.val % 256) m
            (λ e. ne (omega (arith, e))))

    -- The loop leaves the cells of the fields before its own.
    pub read-save_fields_before :
        (count j q : ℕ) (fs : List Field) (m : Memory)
        → q < j
        → o.read (save_fields count j fs m) (address q) ≡ o.read m (address q)
    unfolding save_fields
    read-save_fields_before count j q [] m lt = refl
    read-save_fields_before count j q (f ∷ fs) m lt =
        read-save_fields_before count (suc j) q fs _ (omega (arith, lt))
        ∙ both_branches (λ m'. o.read m' (address q) ≡ o.read m (address q))
            (count % f.eeprom_save_period == 0)
            (read-update_eeprom_other j q f m (λ e. omega (arith, lt, e))) refl

    read-due :
        (count j : ℕ) (f : Field) (m : Memory)
        → j * 5 < o.size
        → count % f.eeprom_save_period ≡ 0
        → get_eeprom_repr f.val < 256
        → o.read (if count % f.eeprom_save_period == 0 then update_eeprom j f m else m) (address j)
          ≡ get_eeprom_repr f.val
    read-due count j f m lt due small =
        subst
          (λ r.
            o.read (if r == 0 then update_eeprom j f m else m) (address j) ≡ get_eeprom_repr f.val)
          (sym due) (read-update_eeprom j f m lt small)

    read-save_fields :
        (count j i : ℕ) (fs : List Field) (f : Field) (m : Memory)
        → get_elem? fs i ≡ some f
        → (j + i) * 5 < o.size
        → count % f.eeprom_save_period ≡ 0
        → get_eeprom_repr f.val < 256
        → o.read (save_fields count j fs m) (address (j + i)) ≡ get_eeprom_repr f.val
    unfolding save_fields
    read-save_fields count j i [] f m here lt due small = absurd (none-ne-some f here)
    read-save_fields count j zero (g ∷ fs) f m here lt due small =
        subst (λ k. o.read (save_fields count j (g ∷ fs) m) (address k) ≡ get_eeprom_repr f.val)
          (omega arith)
          (subst (λ h. o.read (save_fields count j (h ∷ fs) m) (address j) ≡ get_eeprom_repr f.val)
            (sym (some-injective g f here))
            (read-save_fields_before count (suc j) j fs _ (omega arith)
              ∙ read-due count j f m (omega (arith, lt)) due small))
    read-save_fields count j (suc i) (g ∷ fs) f m here lt due small =
        subst (λ k. o.read (save_fields count j (g ∷ fs) m) (address k) ≡ get_eeprom_repr f.val)
          (omega arith) (read-save_fields count (suc j) i fs f _ here (omega (arith, lt)) due small)

    restored :
        (f : Field) (old : Value)
        → Replaces f.val old
        → restore (record f { val = old }) (get_eeprom_repr f.val)
          ≡ record f { val = if is_refused f (get_eeprom_repr f.val) then old else f.val }
    unfolding restore is_refused
    restored f old fits = go (is_refused f (get_eeprom_repr f.val))
      where
        go :
            (b : Bool)
            → Path Field
                (if b
                  then record f { val = old }
                  else record f { val = set_from_eeprom (get_eeprom_repr f.val) old })
                (record f { val = if b then old else f.val })
        go true = refl
        go false = ap (λ v. record f { val = v }) (set_from_eeprom-get_eeprom_repr f.val old fits)

    -- In a cycle in which a field is due, it is saved. If its representation is below 255, the next
    -- power-up restores it into the field that stands in its place in the registry, with the same
    -- name, period and type and any value; a refused one, of `pan.state`, leaves that as it was.
    pub init-execute :
        (count i : ℕ) (fields fresh : List Field) (f : Field) (old : Value) (m : Memory)
        → get_elem? fields i ≡ some f
        → get_elem? fresh i ≡ some (record f { val = old })
        → Replaces f.val old
        → i * 5 < o.size
        → count % f.eeprom_save_period ≡ 0
        → get_eeprom_repr f.val < 255
        → get_elem? (init fresh (execute count fields m)) i
          ≡ some (record f { val = if is_refused f (get_eeprom_repr f.val) then old else f.val })
    unfolding init execute check_empty read_eeprom address
    init-execute count i fields fresh f old m here there fits lt due small =
        ap (λ b. get_elem? (if not b then read_eeprom fresh after else fresh) i) written
        ∙ get_elem?-read_fields 0 i fresh (record f { val = old }) after there
        ∙ ap some (
            ap (λ k. restore (record f { val = old }) (o.read after (address k))) zero_first
            ∙ ap (restore (record f { val = old })) cell
            ∙ restored f old fits)
      where
        zero_first : 0 + i ≡ i
        zero_first = omega arith

        after : Memory
        after = save_fields count 0 fields m

        cell : o.read after (address i) ≡ get_eeprom_repr f.val
        cell =
            subst (λ k. o.read after (address k) ≡ get_eeprom_repr f.val) zero_first
              (read-save_fields count 0 i fields f m here (omega (arith, lt)) due
                (omega (arith, small)))

        inside : i * 5 < 0 + o.size
        inside = omega (arith, lt)

        written : check_cells 0 o.size after ≡ false
        written =
            check_cells_written 0 o.size (address i) after (λ e. omega (arith, small, sym cell ∙ e))
              (omega arith) inside
