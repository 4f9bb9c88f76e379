-- ===== src/Adcs/Loop/Interrupts.antt =====
-- What the messages that interrupt `update_mtr` and `update_rwa` of src/adcs/main.cpp may change.
use flight_software.Base.{
  ℕ, ◌≡◌, refl, sym, ◌∙◌, false, ◌==◌, ◌⊎◌, inl, inr, Option, none, some, List, [], ◌∷◌, arith,
}
use flight_software.Floats.{FloatArith}
use flight_software.Adcs.Registers.{Register, register_at, Registers, Vector, updated, outdated}
use flight_software.Adcs.Receive
use flight_software.Adcs.Receive.{on_i2c_recieve, receive_all, receive_at}

-- A flag of the registers and the command that it is about.
module _ {Float : Type 0} (flag : Registers Float → ℕ) (cmd : Registers Float → Vector Float) where
  -- From one state of the registers to another either a new command came in, or flag and command
  -- are what they were.
  abbrev pub Step : Registers Float → Registers Float → Type 0
  Step r r' = (flag r' ≡ updated) ⊎ ((flag r' ≡ flag r) × (cmd r' ≡ cmd r))

  pub Step-trans : (r r' r'' : Registers Float) → Step r r' → Step r' r'' → Step r r''
  Step-trans r r' r'' p (inl new) = inl new
  Step-trans r r' r'' (inl new) (inr (same, kept)) = inl (same ∙ new)
  Step-trans r r' r'' (inr (same, kept)) (inr (same', kept')) = inr (same' ∙ same, kept' ∙ kept)

  -- Where the flag is still clear, nothing came in.
  Step-clear :
      (r r' : Registers Float)
      → Step r r'
      → flag r' ≡ outdated
      → (flag r ≡ outdated) × (cmd r' ≡ cmd r)
  Step-clear r r' (inl new) clear = ground arith
  Step-clear r r' (inr (same, kept)) clear = (sym same ∙ clear, kept)

  pub Step-waiting : (r r' : Registers Float) → Step r r' → flag r ≡ updated → flag r' ≡ updated
  Step-waiting r r' (inl new) waiting = new
  Step-waiting r r' (inr (same, kept)) waiting = same ∙ waiting

  -- Five steps at the end of which the flag is clear, or is not.
  module _ (r r₂ r₃ r₄ r₅ r₆ : Registers Float) (s₂ : Step r r₂) (s₃ : Step r₂ r₃) (s₄ : Step r₃ r₄)
      (s₅ : Step r₄ r₅) (s₆ : Step r₅ r₆) where
    pub Steps-clear :
        flag r₆ ≡ outdated
        → (cmd r₃ ≡ cmd r) × (cmd r₄ ≡ cmd r) × (cmd r₅ ≡ cmd r) × (cmd r₆ ≡ cmd r)
    Steps-clear still =
        let (c₅, k₆) = Step-clear r₅ r₆ s₆ still in
        let (c₄, k₅) = Step-clear r₄ r₅ s₅ c₅ in
        let (c₃, k₄) = Step-clear r₃ r₄ s₄ c₄ in
        let (c₂, k₃) = Step-clear r₂ r₃ s₃ c₃ in
        let (c₁, k₂) = Step-clear r r₂ s₂ c₂ in
        (k₃ ∙ k₂, k₄ ∙ (k₃ ∙ k₂), k₅ ∙ (k₄ ∙ (k₃ ∙ k₂)), k₆ ∙ (k₅ ∙ (k₄ ∙ (k₃ ∙ k₂))))

    pub Steps-new : flag r ≡ outdated → (flag r₆ == outdated) ≡ false → flag r₆ ≡ updated
    Steps-new clear new = ended (
        Step-trans r r₂ r₆ s₂
          (Step-trans r₂ r₃ r₆ s₃ (Step-trans r₃ r₄ r₆ s₄ (Step-trans r₄ r₅ r₆ s₅ s₆))))
      where
        ended : Step r r₆ → flag r₆ ≡ updated
        ended (inl set) = set
        ended (inr (same, kept)) = ground arith

abbrev pub mtr_flag : {Float : Type 0} → Registers Float → ℕ
mtr_flag r = r.mtr.cmd_flg

abbrev pub mtr_cmd : {Float : Type 0} → Registers Float → Vector Float
mtr_cmd r = r.mtr.cmd

abbrev pub rwa_flag : {Float : Type 0} → Registers Float → ℕ
rwa_flag r = r.rwa.cmd_flg

abbrev pub rwa_cmd : {Float : Type 0} → Registers Float → Vector Float
rwa_cmd r = r.rwa.cmd

module _ {Float : Type 0} ⦃o : FloatArith Float⦄ (absent : ℕ) where
  receive_at-mtr :
      (register : Register) (bs : List ℕ) (r : Registers Float)
      → Step mtr_flag mtr_cmd r (receive_at absent register bs r)
  unfolding receive_at Receive.receive_adcs_mode Receive.receive_read_pointer
      Receive.receive_rwa_mode Receive.receive_rwa_command Receive.store_rwa_command
      Receive.receive_rwa_speed_filter Receive.receive_rwa_ramp_filter Receive.receive_mtr_mode
      Receive.receive_mtr_command Receive.receive_mtr_limit Receive.receive_ssa_mode
      Receive.receive_ssa_voltage_filter Receive.receive_imu_mag1_mode Receive.receive_imu_mag2_mode
      Receive.receive_imu_mag_filter Receive.receive_imu_gyr_filter
      Receive.receive_imu_gyr_temp_filter Receive.receive_imu_gyr_temp_pwm
      Receive.receive_imu_gyr_temp_desired Receive.receive_havt_command_reset
      Receive.receive_havt_command_disable
  receive_at-mtr Register.mtr_mode bs r = ground arith
  receive_at-mtr Register.mtr_command bs r = ground arith
  receive_at-mtr Register.mtr_limit bs r = ground arith
  receive_at-mtr Register.adcs_mode bs r = inr (ground arith)
  receive_at-mtr _ bs r = inr (ground arith)

  receive_at-rwa :
      (register : Register) (bs : List ℕ) (r : Registers Float)
      → Step rwa_flag rwa_cmd r (receive_at absent register bs r)
  unfolding receive_at Receive.receive_adcs_mode Receive.receive_read_pointer
      Receive.receive_rwa_mode Receive.receive_rwa_command Receive.store_rwa_command
      Receive.receive_rwa_speed_filter Receive.receive_rwa_ramp_filter Receive.receive_mtr_mode
      Receive.receive_mtr_command Receive.receive_mtr_limit Receive.receive_ssa_mode
      Receive.receive_ssa_voltage_filter Receive.receive_imu_mag1_mode Receive.receive_imu_mag2_mode
      Receive.receive_imu_mag_filter Receive.receive_imu_gyr_filter
      Receive.receive_imu_gyr_temp_filter Receive.receive_imu_gyr_temp_pwm
      Receive.receive_imu_gyr_temp_desired Receive.receive_havt_command_reset
      Receive.receive_havt_command_disable
  receive_at-rwa Register.rwa_mode bs r = ground arith
  receive_at-rwa Register.rwa_command bs r = ground arith
  receive_at-rwa Register.adcs_mode bs r = inr (ground arith)
  receive_at-rwa _ bs r = inr (ground arith)

  on_i2c_recieve-mtr :
      (message : List ℕ) (r : Registers Float)
      → Step mtr_flag mtr_cmd r (on_i2c_recieve absent message r)
  unfolding on_i2c_recieve
  on_i2c_recieve-mtr [] r = inr (refl, refl)
  on_i2c_recieve-mtr (address ∷ bs) r = served (register_at address)
    where
      served :
          (register : Option Register)
          → Step mtr_flag mtr_cmd r (elim register [ none ↦ r | some g ↦ receive_at absent g bs r ])
      served none = inr (refl, refl)
      served (some g) = receive_at-mtr g bs r

  on_i2c_recieve-rwa :
      (message : List ℕ) (r : Registers Float)
      → Step rwa_flag rwa_cmd r (on_i2c_recieve absent message r)
  unfolding on_i2c_recieve
  on_i2c_recieve-rwa [] r = inr (refl, refl)
  on_i2c_recieve-rwa (address ∷ bs) r = served (register_at address)
    where
      served :
          (register : Option Register)
          → Step rwa_flag rwa_cmd r (elim register [ none ↦ r | some g ↦ receive_at absent g bs r ])
      served none = inr (refl, refl)
      served (some g) = receive_at-rwa g bs r

  pub receive_all-mtr :
      (ms : List (List ℕ)) (r : Registers Float) → Step mtr_flag mtr_cmd r (receive_all absent ms r)
  unfolding receive_all
  receive_all-mtr [] r = inr (refl, refl)
  receive_all-mtr (m ∷ ms) r =
      Step-trans mtr_flag mtr_cmd r (on_i2c_recieve absent m r)
        (receive_all absent ms (on_i2c_recieve absent m r)) (on_i2c_recieve-mtr m r)
        (receive_all-mtr ms (on_i2c_recieve absent m r))

  pub receive_all-rwa :
      (ms : List (List ℕ)) (r : Registers Float) → Step rwa_flag rwa_cmd r (receive_all absent ms r)
  unfolding receive_all
  receive_all-rwa [] r = inr (refl, refl)
  receive_all-rwa (m ∷ ms) r =
      Step-trans rwa_flag rwa_cmd r (on_i2c_recieve absent m r)
        (receive_all absent ms (on_i2c_recieve absent m r)) (on_i2c_recieve-rwa m r)
        (receive_all-rwa ms (on_i2c_recieve absent m r))
