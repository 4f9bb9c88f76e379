-- ===== src/Adcs/SunSensors.antt =====
-- The sun sensors: src/adcs/ssa.cpp and `update_ssa` of src/adcs/main.cpp. The least squares solution
-- is the linear algebra library's and the parameter `solve`, of the numbers of the sensors in use
-- and their voltages. `unset` is the vector that `update_ssa` leaves uninitialized. A converter is
-- whether it is functional when the sun vector is calculated, and the filtered voltages of its
-- sensors; what the converters are read to give is an argument. `isr k` are the messages that come
-- in at the k-th place between two uses of the registers.
pub mod Numbered
pub mod Selection
use flight_software.Base.{
  ℕ, suc, ◌+◌, Bool, ◌==◌, ltb, if◌then◌else◌, List, [], ◌∷◌, ◌++◌, length, set, Option, none, some,
}
use flight_software.Floats.{FloatArith}
use flight_software.Adcs.Registers.{Registers, Vector, ssa_failure, ssa_in_progress, ssa_complete}
use flight_software.Adcs.Receive.{receive_all}

abbrev pub sensor_count_thresh : ℕ
sensor_count_thresh = 4

abbrev pub Converters : Type 0 → Type 0
Converters Float = List (Bool × List Float)

unfoldable pub all_voltages : {Float : Type 0} → Converters Float → List Float
all_voltages [] = []
all_voltages ((functional, volts) ∷ adcs) = volts ++ all_voltages adcs

module _ {Float : Type 0} ⦃o : FloatArith Float⦄ where
  -- The filtered voltage of a sensor, by the value that its converter gave, if it is functional and
  -- gave one.
  unfoldable pub filter : Float → Option Float → Float → Float
  filter adc_flt none v = o.add v (o.times adc_flt (o.sub v v))
  filter adc_flt (some val) v =
      o.add v
        (o.times adc_flt (o.sub (o.div (o.times (o.decimal 4096 3) val) (o.decimal 2048 0)) v))

  unfoldable pub filter_all : Float → List (Option Float) → List Float → List Float
  unfolding filter
  filter_all adc_flt vals [] = []
  filter_all adc_flt [] (v ∷ volts) = filter adc_flt none v ∷ filter_all adc_flt [] volts
  filter_all adc_flt (val ∷ vals) (v ∷ volts) = filter adc_flt val v ∷ filter_all adc_flt vals volts

  unfoldable pub update_sensors :
      Float → List (List (Option Float)) → Converters Float → Converters Float
  unfolding filter_all
  update_sensors adc_flt reads [] = []
  update_sensors adc_flt [] ((functional, volts) ∷ adcs) =
      (functional, filter_all adc_flt [] volts) ∷ update_sensors adc_flt [] adcs
  update_sensors adc_flt (vals ∷ reads) ((functional, volts) ∷ adcs) =
      (functional, filter_all adc_flt vals volts) ∷ update_sensors adc_flt reads adcs

  -- The sensors of one converter, from a number on, above `sensor_voltage_thresh`.
  unfoldable pub select : ℕ → List Float → List (ℕ × Float)
  select j [] = []
  select j (v ∷ volts) =
      let rest = select (j + 1) volts in if o.less (o.decimal 10 1) v then (j, v) ∷ rest else rest

  -- One converter after another; those that are not functional are skipped.
  unfoldable pub select_all : ℕ → Converters Float → List (ℕ × Float)
  select_all j [] = []
  select_all j ((functional, volts) ∷ adcs) =
      let rest = select_all (j + 4) adcs in if functional then select j volts ++ rest else rest

  -- The loop that stores the voltages from the `i`-th on.
  unfoldable pub store_voltages :
      ℕ → (ℕ → List (List ℕ)) → ℕ → List Float → Registers Float → Registers Float
  store_voltages absent isr i [] r = r
  store_voltages absent isr i (v ∷ volts) r =
      let stored = record r { ssa = record r.ssa { voltage_rd = set r.ssa.voltage_rd i v } } in
      store_voltages absent isr (suc i) volts (receive_all absent (isr (suc i)) stored)

  -- Up to the test of the mode.
  unfoldable pub update_voltages :
      ℕ
      → (ℕ → List (List ℕ))
      → List (List (Option Float))
      → Converters Float
      → Registers Float
      → Converters Float × Registers Float
  unfolding update_sensors store_voltages all_voltages
  update_voltages absent isr reads adcs r =
      let r₀ = receive_all absent (isr 0) r in
      let adcs' = update_sensors r₀.ssa.voltage_flt reads adcs in
      (adcs', store_voltages absent isr 0 (all_voltages adcs') r₀)

  module _ (solve : List (ℕ × Float) → Vector Float) (unset : Vector Float) where
    unfoldable pub calculate_sun_vector : Converters Float → ℕ × Vector Float
    calculate_sun_vector adcs =
        if ltb (length (select_all 0 adcs)) sensor_count_thresh
        then (ssa_failure, unset)
        else (ssa_complete, solve (select_all 0 adcs))

    unfoldable pub update_ssa :
        ℕ
        → (ℕ → List (List ℕ))
        → List (List (Option Float))
        → Converters Float
        → Registers Float
        → Converters Float × Registers Float
    update_ssa absent isr reads adcs r =
        let sampled = update_voltages absent isr reads adcs r in
        let found = calculate_sun_vector sampled.0 in
        let r' = receive_all absent (isr 21) sampled.1 in
        if sampled.1.ssa.mode == ssa_in_progress
        then (sampled.0, record r' { ssa = record r'.ssa { sun_vec_rd = found.1; mode = found.0 } })
        else sampled
