-- ===== src/Adcs/SunSensors/Selection.antt =====
-- Which sensors `calculate_sun_vector` of src/adcs/ssa.cpp uses, and what becomes of a calculation
-- that was asked for.
use flight_software.Base.{
  ℕ, zero, suc, ◌+◌, ◌*◌, ◌-◌, ◌/◌, ◌%◌, ◌≤◌, ◌<◌, ◌≡◌, refl, ap, ◌∙◌, ◌⊎◌, inl, inr, Bool, true,
  false, ltb, if◌then◌else◌, List, [], ◌∷◌, ◌++◌, Option, none, some, Bool-cases, both_branches,
  subst, sym, length, get_elem?, arith,
}
use flight_software.Floats.{FloatArith}
use flight_software.Adcs.Registers.{Registers, Vector, ssa_failure, ssa_in_progress, ssa_complete}
use flight_software.Adcs.SunSensors.Numbered.{
  or_else, lookup, IsAscending, or_else-none, lookup-++, IsAscending-weaken, lookup-ascending,
  IsAscending-++,
}
use flight_software.Adcs.SunSensors.{
  sensor_count_thresh, Converters, select, select_all, calculate_sun_vector, update_voltages,
  update_ssa,
}

abbrev AreFour : {Float : Type 0} → Converters Float → Type 0
AreFour [] = true ≡ true
AreFour ((functional, volts) ∷ adcs) = (length volts ≡ 4) × AreFour adcs

module _ {Float : Type 0} ⦃o : FloatArith Float⦄ where
  abbrev above : Option Float → Option Float
  above none = none
  above (some v) = if o.less (o.decimal 10 1) v then some v else none

  -- Sensor `s` of converter `c`.
  abbrev usable_at : Converters Float → ℕ → ℕ → Option Float
  usable_at adcs c s = elim (get_elem? adcs c) [
    | none ↦ none
    | some adc ↦ if adc.0 then above (get_elem? adc.1 s) else none
  ]

  -- The voltage of sensor `k`, the `k % 4`-th of converter `k / 4`, if that is functional and the
  -- voltage is above 1 V.
  abbrev pub usable : Converters Float → ℕ → Option Float
  usable adcs k = usable_at adcs (k / 4) (k % 4)

  select-IsAscending :
      (j : ℕ) (volts : List Float) → IsAscending j (j + length volts) (select j volts)
  unfolding select
  select-IsAscending j [] = omega arith
  select-IsAscending j (v ∷ volts) =
      let one : j + 1 ≡ suc j = omega arith in
      let all : j + 1 + length volts ≡ j + suc (length volts) = omega arith in
      let rest : IsAscending (suc j) (j + suc (length volts)) (select (j + 1) volts) =
        subst (λ b. IsAscending (suc j) b (select (j + 1) volts)) all
          (subst (λ k. IsAscending k (j + 1 + length volts) (select (j + 1) volts)) one
            (select-IsAscending (j + 1) volts)) in
      both_branches (IsAscending j (j + suc (length volts))) (o.less (o.decimal 10 1) v)
        (omega arith, rest)
        (IsAscending-weaken j (suc j) (j + suc (length volts)) (select (j + 1) volts) (omega arith)
          rest)

  lookup-select :
      (j d : ℕ) (volts : List Float) → lookup (j + d) (select j volts) ≡ above (get_elem? volts d)
  unfolding select
  lookup-select j d [] = refl
  lookup-select j zero (v ∷ volts) = ground (arith, none_before)
    where
      none_before : lookup (j + 0) (select (j + 1) volts) ≡ none
      none_before =
          lookup-ascending (j + 0) (j + 1) (j + 1 + length volts) (select (j + 1) volts)
            (select-IsAscending (j + 1) volts) (inl (omega arith))
  lookup-select j (suc d) (v ∷ volts) =
      let next : j + 1 + d ≡ j + suc d = omega arith in
      let later : lookup (j + suc d) (select (j + 1) volts) ≡ above (get_elem? volts d) =
        subst (λ k. lookup k (select (j + 1) volts) ≡ above (get_elem? volts d)) next
          (lookup-select (j + 1) d volts) in
      ground (arith, later)

  converter-IsAscending :
      (j bound : ℕ) (functional : Bool) (volts : List Float) (rest : List (ℕ × Float))
      → length volts ≡ 4
      → IsAscending (j + 4) bound rest
      → IsAscending j bound (if functional then select j volts ++ rest else rest)
  converter-IsAscending j bound true volts rest four up =
      IsAscending-++ j (j + 4) bound (select j volts) rest
        (subst (λ n. IsAscending j (j + n) (select j volts)) four (select-IsAscending j volts)) up
  converter-IsAscending j bound false volts rest four up =
      IsAscending-weaken j (j + 4) bound rest (omega arith) up

  lookup-converter :
      (j d : ℕ) (functional : Bool) (volts : List Float) (rest : List (ℕ × Float))
      → lookup (j + d) (if functional then select j volts ++ rest else rest)
        ≡ or_else (if functional then above (get_elem? volts d) else none) (lookup (j + d) rest)
  lookup-converter j d true volts rest =
      lookup-++ (j + d) (select j volts) rest
      ∙ ap (λ a. or_else a (lookup (j + d) rest)) (lookup-select j d volts)
  lookup-converter j d false volts rest = refl

  usable-first :
      (functional : Bool) (volts : List Float) (adcs : Converters Float) (d : ℕ)
      → d < 4
      → usable ((functional, volts) ∷ adcs) d
        ≡ (if functional then above (get_elem? volts d) else none)
  usable-first functional volts adcs d lt =
      let c : d / 4 ≡ 0 = omega (arith, lt) in
      let s : d % 4 ≡ d = omega (arith, lt) in
      ap (λ k. usable_at ((functional, volts) ∷ adcs) k (d % 4)) c
      ∙ ap (λ k. usable_at ((functional, volts) ∷ adcs) 0 k) s

  usable-rest :
      (adc : Bool × List Float) (adcs : Converters Float) (d : ℕ)
      → usable (adc ∷ adcs) (4 + d) ≡ usable adcs d
  usable-rest adc adcs d =
      let c : (4 + d) / 4 ≡ suc (d / 4) = omega arith in
      let s : (4 + d) % 4 ≡ d % 4 = omega arith in
      ap (λ k. usable_at (adc ∷ adcs) k ((4 + d) % 4)) c
      ∙ ap (λ k. usable_at (adc ∷ adcs) (suc (d / 4)) k) s

  above-beyond : (volts : List Float) (d : ℕ) → length volts ≤ d → above (get_elem? volts d) ≡ none
  above-beyond [] d le = refl
  above-beyond (v ∷ volts) zero le = absurd (omega (arith, le))
  above-beyond (v ∷ volts) (suc d) le = above-beyond volts d (omega (arith, le))

  none-above :
      (functional : Bool) (volts : List Float) (d : ℕ)
      → length volts ≤ d
      → (if functional then above (get_elem? volts d) else none) ≡ none
  none-above true volts d le = above-beyond volts d le
  none-above false volts d le = refl

  select_all-IsAscending :
      (j : ℕ) (adcs : Converters Float)
      → AreFour adcs
      → IsAscending j (j + 4 * length adcs) (select_all j adcs)
  unfolding select_all
  select_all-IsAscending j [] four = omega arith
  select_all-IsAscending j ((functional, volts) ∷ adcs) four =
      let bound : j + 4 + 4 * length adcs ≡ j + 4 * suc (length adcs) = omega arith in
      converter-IsAscending j (j + 4 * suc (length adcs)) functional volts (select_all (j + 4) adcs)
        four.0
        (subst (λ b. IsAscending (j + 4) b (select_all (j + 4) adcs)) bound
          (select_all-IsAscending (j + 4) adcs four.1))

  lookup-select_all :
      (j d : ℕ) (adcs : Converters Float)
      → AreFour adcs
      → lookup (j + d) (select_all j adcs) ≡ usable adcs d
  unfolding select_all
  lookup-select_all j d [] four = refl
  lookup-select_all j d ((functional, volts) ∷ adcs) four =
      let rest = select_all (j + 4) adcs in
      elim (Bool-cases (ltb d 4)) [
        | inl here ↦
            lookup-converter j d functional volts rest
            ∙ ap (or_else (if functional then above (get_elem? volts d) else none)) (
                lookup-ascending (j + d) (j + 4) (j + 4 + 4 * length adcs) rest
                  (select_all-IsAscending (j + 4) adcs four.1) (inl (ground (arith, here))))
            ∙ or_else-none (if functional then above (get_elem? volts d) else none)
            ∙ sym (usable-first functional volts adcs d (ground (arith, here)))
        | inr later ↦
            let behind : 4 + (d - 4) ≡ d = ground (arith, later) in
            let place : j + 4 + (d - 4) ≡ j + d = omega (arith, behind) in
            lookup-converter j d functional volts rest
            ∙ ap (λ a. or_else a (lookup (j + d) rest))
                (none-above functional volts d (omega (arith, four.0, behind)))
            ∙ subst (λ k. lookup k rest ≡ usable adcs (d - 4)) place
                (lookup-select_all (j + 4) (d - 4) adcs four.1)
            ∙ sym (usable-rest (functional, volts) adcs (d - 4))
            ∙ ap (usable ((functional, volts) ∷ adcs)) behind
      ]

  -- A calculation that was asked for when the voltages are stored is over after one pass, whatever
  -- messages interrupt it. Let each of the converters have four sensors. The sensors in use are those
  -- of functional converters whose new filtered voltage is above 1 V, in the order of their numbers,
  -- with these voltages. If they are at least four, the calculation is complete with the solution for
  -- them, and otherwise it has failed.
  pub update_ssa_answers :
      (solve : List (ℕ × Float) → Vector Float) (unset : Vector Float) (absent : ℕ)
      (isr : ℕ → List (List ℕ)) (reads : List (List (Option Float))) (adcs : Converters Float)
      (r : Registers Float)
      → let sampled = update_voltages absent isr reads adcs r in
        let n = update_ssa solve unset absent isr reads adcs r in
        AreFour sampled.0
        → sampled.1.ssa.mode ≡ ssa_in_progress
        → (found : List (ℕ × Float)) × IsAscending 0 (4 * length sampled.0) found
          × ((k : ℕ) → lookup k found ≡ usable sampled.0 k)
          × (((n.1.ssa.mode ≡ ssa_complete)
                × (4 ≤ length found)
                × (n.1.ssa.sun_vec_rd ≡ solve found))
              ⊎ ((n.1.ssa.mode ≡ ssa_failure) × (length found < 4)))
  unfolding update_ssa calculate_sun_vector
  update_ssa_answers solve unset absent isr reads adcs r four asked =
      let sampled = update_voltages absent isr reads adcs r in
      let found = select_all 0 sampled.0 in
      let zero_first : 0 + 4 * length sampled.0 ≡ 4 * length sampled.0 = omega arith in
      (
        found,
        subst (λ b. IsAscending 0 b found) zero_first (select_all-IsAscending 0 sampled.0 four),
        λ k.
            let same : 0 + k ≡ k = omega arith in
            subst (λ i. lookup i found ≡ usable sampled.0 k) same
              (lookup-select_all 0 k sampled.0 four),
        elim (Bool-cases (ltb (length found) sensor_count_thresh)) [
          | inl few ↦ inr (ground (arith, asked, few))
          | inr many ↦ inl (ground (arith, asked, many))
        ],
      )
