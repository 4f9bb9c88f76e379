-- ===== src/Adcs/Monitor/Report.antt =====
-- What src/fsw/FCCode/ADCSBoxMonitor.cpp reports of the registers of the ADCS computer.
use mathlib.Core.List.{map}
use flight_software.Base.{ℕ, ◌<◌, ◌≡◌, refl, ◌==◌, if◌then◌else◌, inl, inr, Bool-cases, length}
use flight_software.Floats.{FloatArith, CastLaws}
use flight_software.Adcs.Convert.{
  one_f, min_speed_read, max_speed_read, min_ramp_rd, max_ramp_rd, min_voltage_rd, max_voltage_rd,
  min_mag1_rd_mag, max_mag1_rd_mag, min_mag2_rd_mag, max_mag2_rd_mag, min_rd_omega, max_rd_omega,
  min_rd_temp, max_rd_temp,
}
use flight_software.Adcs.Registers.{Registers, Register, address_of, map_vector, ssa_complete}
use flight_software.Adcs.Bitset.{of_ulong}
use flight_software.Adcs.Protocol.{through_u8, through_u16}
use flight_software.Adcs.Readout.ReadBack.{
  i2c_ping_lem, get_rwa_lem, get_imu_lem, get_ssa_mode_lem, get_ssa_vector_lem, get_ssa_voltage_lem,
  get_havt_lem,
}
use flight_software.Adcs.Monitor.{
  AdcsMonitor, set_flags, evaluate_faults, read_sun, execute, nan_vector, test_bits, index_length,
}

read_sun_lem :
    {Float : Type 0} ⦃o : FloatArith Float⦄ ⦃laws : CastLaws Float⦄
    → (absent : ℕ) (r : Registers Float)
    → read_sun absent r ≡ (
      (
        r.ssa.mode,
        if r.ssa.mode == ssa_complete
            then map_vector (λ f. through_u16 f (o.neg one_f) one_f) r.ssa.sun_vec_rd
            else nan_vector,
      ),
      record r {
        read_ptr =
            if r.ssa.mode == ssa_complete
            then address_of Register.ssa_sun_vector
            else address_of Register.ssa_mode;
      },
    )
unfolding read_sun
read_sun_lem absent r =
    rw (get_ssa_mode_lem absent r, get_ssa_vector_lem)
      (elim (Bool-cases (r.ssa.mode == ssa_complete)) [
        | inl done ↦ rw done
        | inr waiting ↦ rw waiting
      ])

module _ {Float : Type 0} ⦃o : FloatArith Float⦄ ⦃laws : CastLaws Float⦄ (absent : ℕ) (cc : ℕ)
    (m : AdcsMonitor Float) (r : Registers Float) where
  -- What the fields are to hold after a cycle, but for the faults and the flags.
  unfoldable pub readings : AdcsMonitor Float
  readings = record m {
    adcs_is_functional = r.who_am_i == 15;
    rwa_speed_rd = map_vector (λ f. through_u16 f min_speed_read max_speed_read) r.rwa.momentum_rd;
    rwa_torque_rd = map_vector (λ f. through_u16 f min_ramp_rd max_ramp_rd) r.rwa.ramp_rd;
    ssa_mode = r.ssa.mode;
    ssa_vec =
        if r.ssa.mode == ssa_complete
        then map_vector (λ f. through_u16 f (o.neg one_f) one_f) r.ssa.sun_vec_rd
        else nan_vector;
    ssa_voltages = map (λ f. through_u8 f min_voltage_rd max_voltage_rd) r.ssa.voltage_rd;
    mag1_vec = map_vector (λ f. through_u16 f min_mag1_rd_mag max_mag1_rd_mag) r.imu.mag1_rd;
    mag2_vec = map_vector (λ f. through_u16 f min_mag2_rd_mag max_mag2_rd_mag) r.imu.mag2_rd;
    gyr_vec = map_vector (λ f. through_u16 f min_rd_omega max_rd_omega) r.imu.gyr_rd;
    gyr_temp = through_u16 r.imu.gyr_temp_rd min_rd_temp max_rd_temp;
    havt_read = test_bits index_length (of_ulong 32 r.havt.read_table);
  }

  -- A cycle of the monitor fills the fields with what the registers of the ADCS computer hold, the
  -- measurements rounded to a word or a byte and a sun vector only when its calculation is
  -- complete, not-a-number otherwise. The faults are evaluated on what the fields held before, and
  -- the flags on the new readings. The registers are as before, but for the read pointer. There are
  -- twenty sun sensors, and the table is an `unsigned int`.
  pub execute_report :
      length r.ssa.voltage_rd ≡ 20
      → r.havt.read_table < 4294967296
      → execute absent cc m r ≡ (
        set_flags (record readings {
          adcs_functional_fault = (evaluate_faults cc m).adcs_functional_fault;
          wheel1_adc_fault = (evaluate_faults cc m).wheel1_adc_fault;
          wheel2_adc_fault = (evaluate_faults cc m).wheel2_adc_fault;
          wheel3_adc_fault = (evaluate_faults cc m).wheel3_adc_fault;
          wheel_pot_fault = (evaluate_faults cc m).wheel_pot_fault;
        }),
        record r { read_ptr = address_of Register.havt_read },
      )
  unfolding execute readings evaluate_faults
  execute_report twenty fits =
      rw
        (
          i2c_ping_lem,
          get_rwa_lem,
          get_ssa_voltage_lem absent (record r { read_ptr = 8 }) twenty,
          get_imu_lem,
          read_sun_lem,
          get_havt_lem absent
              (record r {
                read_ptr =
                    if r.ssa.mode == ssa_complete
                    then address_of Register.ssa_sun_vector
                    else address_of Register.ssa_mode;
              })
              fits,
        )
        refl
