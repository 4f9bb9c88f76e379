-- ===== src/Adcs/Controller.antt =====
-- src/fsw/FCCode/ADCSBoxController.cpp: the calls of the ADCS driver that a control cycle makes, in
-- their order, and the fields that it clears.
pub mod Tables
pub mod Delivery
use flight_software.Base.{ℕ, Bool, true, false, not, ◌||◌, ◌==◌, if◌then◌else◌, List, [], ◌∷◌, ◌++◌}
use flight_software.Floats.{FloatArith}
use flight_software.Modes.{AdcsState}
use flight_software.Adcs.Registers.{
  adcs_passive, adcs_active, rwa_disabled, rwa_speed_ctrl, rwa_accel_ctrl, ssa_in_progress,
}
use flight_software.Adcs.Bitset.{none_set}
use flight_software.Adcs.Protocol.{Command}
use flight_software.Adcs.Commander.{AdcsFields, zero_vector}

-- `adcs_state_fp->get() == startup`
unfoldable pub is_startup : AdcsState → Bool
is_startup AdcsState.startup = true
is_startup _ = false

-- The loops over the devices: the bits that they set in the table, whether one was set, and the
-- fields, cleared where they were.
unfoldable pub load : List Bool → List Bool → List Bool
load [] table = table
load (get ∷ fields) [] = []
load (get ∷ fields) (bit ∷ table) = (if get then true else bit) ∷ load fields table

unfoldable pub some_set : List Bool → Bool
some_set [] = false
some_set (get ∷ fields) = get || some_set fields

unfoldable pub clear : List Bool → List Bool
clear [] = []
clear (get ∷ fields) = (if get then false else get) ∷ clear fields

module _ {Float : Type 0} ⦃o : FloatArith Float⦄ where
  unfoldable pub command_mode : AdcsFields Float → Command Float
  command_mode f = Command.mode (if is_startup f.adcs_state then adcs_passive else adcs_active)

  unfoldable pub command_wheels : AdcsFields Float → List (Command Float)
  command_wheels f =
      if f.rwa_mode == rwa_speed_ctrl
      then Command.rwa f.rwa_mode f.rwa_speed_cmd ∷ []
      else if f.rwa_mode == rwa_accel_ctrl
      then Command.rwa f.rwa_mode f.rwa_torque_cmd ∷ []
      else if f.rwa_mode == rwa_disabled
      then Command.rwa f.rwa_mode zero_vector ∷ []
      else []

  unfoldable pub command_filters_and_rods : AdcsFields Float → List (Command Float)
  command_filters_and_rods f =
      Command.speed_filter f.rwa_speed_filter
      ∷ Command.ramp_filter f.rwa_ramp_filter
      ∷ Command.mtr_mode f.mtr_mode
      ∷ Command.mtr_cmd f.mtr_cmd
      ∷ Command.mtr_limit f.mtr_limit
      ∷ []

  unfoldable pub command_sun_sensors : AdcsFields Float → List (Command Float)
  command_sun_sensors f =
      if not (f.ssa_mode == ssa_in_progress)
      then Command.ssa_mode ssa_in_progress ∷ Command.voltage_filter f.ssa_voltage_filter ∷ []
      else Command.voltage_filter f.ssa_voltage_filter ∷ []

  unfoldable pub command_imu : AdcsFields Float → List (Command Float)
  command_imu f =
      Command.mag1_mode f.mag1_mode
      ∷ Command.mag2_mode f.mag2_mode
      ∷ Command.mag_filter f.imu_mag_filter
      ∷ Command.gyr_filter f.imu_gyr_filter
      ∷ Command.gyr_temp_filter f.imu_gyr_temp_filter
      ∷ Command.gyr_temp_pwm f.imu_gyr_temp_pwm
      ∷ Command.gyr_temp_desired f.imu_gyr_temp_desired
      ∷ []

  -- One table serves both loops, and is not emptied in between.
  unfoldable pub reset_table : AdcsFields Float → List Bool
  reset_table f = load f.havt_reset (none_set 32)

  unfoldable pub disable_table : AdcsFields Float → List Bool
  disable_table f = load f.havt_disable (reset_table f)

  unfoldable pub command_tables : AdcsFields Float → List (Command Float)
  command_tables f =
      (if some_set f.havt_reset then Command.havt_reset (reset_table f) ∷ [] else [])
      ++ (if some_set f.havt_disable then Command.havt_disable (disable_table f) ∷ [] else [])

  unfoldable pub execute : AdcsFields Float → List (Command Float) × AdcsFields Float
  execute f = (
    command_mode f
        ∷ (command_wheels f
            ++ (command_filters_and_rods f
                ++ (command_sun_sensors f ++ (command_imu f ++ command_tables f)))),
    record f { havt_reset = clear f.havt_reset; havt_disable = clear f.havt_disable },
  )
