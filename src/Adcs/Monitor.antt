-- ===== src/Adcs/Monitor.antt =====
-- src/fsw/FCCode/ADCSBoxMonitor.cpp: a control cycle reads the ADCS computer and fills the fields
-- adcs_monitor.*. A field of three components stands for the vector field and for its component
-- fields, which are set from the same reading.
pub mod Report
use flight_software.Base.{
  ℕ, Bool, true, false, not, ◌||◌, ◌==◌, if◌then◌else◌, List, get_or, [], ◌∷◌, zero, suc,
}
use flight_software.Floats.{FloatArith}
use flight_software.Fault.{Fault}
use flight_software.Fault
use flight_software.Adcs.Convert.{
  min_speed_read, max_speed_read, min_torque, max_torque, min_mag1_rd_mag, max_mag1_rd_mag,
  min_rd_omega, max_rd_omega, min_rd_temp, max_rd_temp,
}
use flight_software.Adcs.Registers.{Registers, Vector, ssa_complete}
use flight_software.Adcs.Readout.{
  ImuReadout, i2c_ping, get_rwa, get_imu, get_ssa_voltage, get_ssa_mode, get_ssa_vector, get_havt,
}

pub record AdcsMonitor (Float : Type 0) : Type 0 where
  pub adcs_is_functional : Bool
  pub adcs_functional_fault : Fault
  pub wheel1_adc_fault : Fault
  pub wheel2_adc_fault : Fault
  pub wheel3_adc_fault : Fault
  pub wheel_pot_fault : Fault
  pub rwa_speed_rd : Vector Float
  pub rwa_torque_rd : Vector Float
  pub ssa_mode : ℕ
  pub ssa_vec : Vector Float
  pub ssa_voltages : List Float
  pub mag1_vec : Vector Float
  pub mag2_vec : Vector Float
  pub gyr_vec : Vector Float
  pub gyr_temp : Float
  pub havt_read : List Bool
  pub rwa_speed_rd_flag : Bool
  pub rwa_torque_rd_flag : Bool
  pub mag1_vec_flag : Bool
  pub mag2_vec_flag : Bool
  pub gyr_vec_flag : Bool
  pub gyr_temp_flag : Bool

-- The fault of a device of the table is signalled where its bit is clear.
unfoldable pub evaluate_bit : ℕ → List Bool → ℕ → Fault → Fault
evaluate_bit cc havt_read index fault = Fault.evaluate cc (not (get_or havt_read index false)) fault

-- The bits of the devices: the loop over the fields.
unfoldable pub test_bits : ℕ → List Bool → List Bool
test_bits zero bits = []
test_bits (suc n) [] = false ∷ test_bits n []
test_bits (suc n) (bit ∷ bits) = bit ∷ test_bits n bits

-- Index::RWA_POT, Index::RWA_ADC1 to Index::RWA_ADC3 and Index::_LENGTH.
abbrev rwa_pot : ℕ
rwa_pot = 6

abbrev rwa_adc1 : ℕ
rwa_adc1 = 10

abbrev rwa_adc2 : ℕ
rwa_adc2 = 11

abbrev rwa_adc3 : ℕ
rwa_adc3 = 12

abbrev pub index_length : ℕ
index_length = 19

module _ {Float : Type 0} ⦃o : FloatArith Float⦄ where
  unfoldable pub exceed_bounds : Float → Float → Float → Bool
  exceed_bounds input min max = o.less input min || o.less max input

  unfoldable pub exceed_bounds_vector : Vector Float → Float → Float → Bool
  unfolding exceed_bounds
  exceed_bounds_vector input min max =
      exceed_bounds input.x min max
      || exceed_bounds input.y min max
      || exceed_bounds input.z min max

  -- `max - 1`
  unfoldable pub less_one : Float → Float
  less_one max = o.sub max (o.decimal 1 0)

  unfoldable pub nan_vector : Vector Float
  nan_vector = record { x = o.not_a_number; y = o.not_a_number; z = o.not_a_number }

  -- The flags, cleared and set by the readings.
  unfoldable pub set_flags : AdcsMonitor Float → AdcsMonitor Float
  set_flags m = record m {
    rwa_speed_rd_flag =
        exceed_bounds_vector m.rwa_speed_rd min_speed_read (less_one max_speed_read);
    rwa_torque_rd_flag = exceed_bounds_vector m.rwa_torque_rd min_torque (less_one max_torque);
    mag1_vec_flag = exceed_bounds_vector m.mag1_vec min_mag1_rd_mag (less_one max_mag1_rd_mag);
    mag2_vec_flag = exceed_bounds_vector m.mag2_vec min_mag1_rd_mag (less_one max_mag1_rd_mag);
    gyr_vec_flag = exceed_bounds_vector m.gyr_vec min_rd_omega (less_one max_rd_omega);
    gyr_temp_flag = exceed_bounds m.gyr_temp min_rd_temp (less_one max_rd_temp);
  }

  -- The faults, which go by what the fields held before.
  unfoldable pub evaluate_faults : ℕ → AdcsMonitor Float → AdcsMonitor Float
  evaluate_faults cc m = record m {
    adcs_functional_fault = Fault.evaluate cc (not m.adcs_is_functional) m.adcs_functional_fault;
    wheel1_adc_fault = evaluate_bit cc m.havt_read rwa_adc1 m.wheel1_adc_fault;
    wheel2_adc_fault = evaluate_bit cc m.havt_read rwa_adc2 m.wheel2_adc_fault;
    wheel3_adc_fault = evaluate_bit cc m.havt_read rwa_adc3 m.wheel3_adc_fault;
    wheel_pot_fault = evaluate_bit cc m.havt_read rwa_pot m.wheel_pot_fault;
  }

  module _ (absent : ℕ) where
    -- The sun vector is asked for only when a calculation is complete.
    unfoldable pub read_sun : Registers Float → (ℕ × Vector Float) × Registers Float
    read_sun r =
        let mode = get_ssa_mode absent r in
        let vec = get_ssa_vector absent mode.1 in
        if mode.0 == ssa_complete then ((mode.0, vec.0), vec.1) else ((mode.0, nan_vector), mode.1)

    -- The faults do not depend on the readings of this cycle, and no reading on a fault, so the
    -- faults are evaluated first here, and the wheels' in the source between two reads.
    unfoldable pub execute :
        ℕ → AdcsMonitor Float → Registers Float → AdcsMonitor Float × Registers Float
    execute cc m r =
        let ping = i2c_ping absent r in
        let rwa = get_rwa absent ping.1 in
        let volts = get_ssa_voltage absent rwa.1 in
        let imu = get_imu absent volts.1 in
        let sun = read_sun imu.1 in
        let havt = get_havt absent sun.1 in
        (
          set_flags (record (evaluate_faults cc m) {
            adcs_is_functional = ping.0;
            rwa_speed_rd = rwa.0.0;
            rwa_torque_rd = rwa.0.1;
            ssa_mode = sun.0.0;
            ssa_vec = sun.0.1;
            ssa_voltages = volts.0;
            mag1_vec = imu.0.mag1_rd;
            mag2_vec = imu.0.mag2_rd;
            gyr_vec = imu.0.gyr_rd;
            gyr_temp = imu.0.gyr_temp_rd;
            havt_read = test_bits index_length havt.0;
          }),
          havt.1,
        )
