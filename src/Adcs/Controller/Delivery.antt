-- ===== src/Adcs/Controller/Delivery.antt =====
-- The calls of src/fsw/FCCode/ADCSBoxController.cpp, delivered to the ADCS computer.
use flight_software.Base.{
  ℕ, ◌≡◌, refl, ap, ◌∙◌, Bool, true, false, not, ◌||◌, ◌&&◌, ◌==◌, if◌then◌else◌, List, [], ◌∷◌,
  ◌++◌, arith,
}
use flight_software.Floats.{FloatArith, CastLaws}
use flight_software.Adcs.Convert.{zero_f, one_f, min_moment, max_moment, min_eq_temp, max_eq_temp}
use flight_software.Adcs.Registers.{
  Registers, ReactionWheelRegisters, SunSensorRegisters, HavtRegisters, map_vector, adcs_passive,
  adcs_active, rwa_speed_ctrl, ssa_in_progress, ssa_complete, ssa_failure, updated,
}
use flight_software.Adcs.Receive.{receive_all}
use flight_software.Adcs.Bitset.{to_ulong}
use flight_software.Adcs.Protocol.{
  Command, IsSized, messages, effect, through_u8, through_u16, rwa_command,
}
use flight_software.Adcs.Protocol.Effects.{receive_all-messages}
use flight_software.Adcs.Commander.{AdcsFields}
use flight_software.Adcs.Controller.{
  command_mode, command_wheels, command_filters_and_rods, command_sun_sensors, command_imu,
  command_tables, reset_table, disable_table, some_set, execute, is_startup,
}
use flight_software.Adcs.Controller.Tables.{length-reset_table, length-disable_table}

module _ {Float : Type 0} ⦃o : FloatArith Float⦄ where
  -- The messages and the specified effects of a sequence of calls.
  unfoldable pub all_messages : List (Command Float) → List (List ℕ)
  all_messages [] = []
  all_messages (c ∷ cs) = messages c ++ all_messages cs

  unfoldable pub effects : List (Command Float) → Registers Float → Registers Float
  effects [] r = r
  effects (c ∷ cs) r = effects cs (effect c r)

  abbrev AllSized : List (Command Float) → Type 0
  AllSized [] = Unit {0}
  AllSized (c ∷ cs) = IsSized c × AllSized cs

  receive_all-++ :
      (absent : ℕ) (ms ns : List (List ℕ)) (r : Registers Float)
      → receive_all absent (ms ++ ns) r ≡ receive_all absent ns (receive_all absent ms r)
  unfolding receive_all
  receive_all-++ absent [] ns r = refl
  receive_all-++ absent (m ∷ ms) ns r = receive_all-++ absent ms ns _

  effects-++ :
      (cs ds : List (Command Float)) (r : Registers Float)
      → effects (cs ++ ds) r ≡ effects ds (effects cs r)
  unfolding effects
  effects-++ [] ds r = refl
  effects-++ (c ∷ cs) ds r = effects-++ cs ds (effect c r)

  AllSized-++ : (cs ds : List (Command Float)) → AllSized cs → AllSized ds → AllSized (cs ++ ds)
  AllSized-++ [] ds h k = k
  AllSized-++ (c ∷ cs) ds (p, h) k = (p, AllSized-++ cs ds h k)

  AllSized-if :
      (b : Bool) (cs ds : List (Command Float))
      → AllSized cs
      → AllSized ds
      → AllSized (if b then cs else ds)
  AllSized-if true cs ds h k = h
  AllSized-if false cs ds h k = k

  AllSized-tables : (f : AdcsFields Float) → AllSized (command_tables f)
  unfolding command_tables
  AllSized-tables f =
      AllSized-++ _ _ (AllSized-if (some_set f.havt_reset) _ [] (length-reset_table f, tt) tt)
        (AllSized-if (some_set f.havt_disable) _ [] (length-disable_table f, tt) tt)

  AllSized-execute : (f : AdcsFields Float) → AllSized (execute f).0
  unfolding execute command_mode command_wheels command_filters_and_rods command_sun_sensors
      command_imu
  AllSized-execute f = (
    tt,
    AllSized-++ (command_wheels f) _
        (AllSized-if (f.rwa_mode == 1) _ _ (tt, tt)
          (AllSized-if (f.rwa_mode == 2) _ _ (tt, tt)
            (AllSized-if (f.rwa_mode == 0) _ [] (tt, tt) tt)))
        (AllSized-++ (command_filters_and_rods f) _ (tt, (tt, (tt, (tt, (tt, tt)))))
          (AllSized-++ (command_sun_sensors f) _
            (AllSized-if (not (f.ssa_mode == ssa_in_progress)) _ _ (tt, (tt, tt)) (tt, tt))
            (AllSized-++ (command_imu f) _ (tt, (tt, (tt, (tt, (tt, (tt, (tt, tt)))))))
              (AllSized-tables f)))),
  )

  -- The specification of a control cycle: what the registers are to be after its messages.
  unfoldable pub expected_rwa :
      AdcsFields Float → ReactionWheelRegisters Float → ReactionWheelRegisters Float
  expected_rwa f r = record r {
    mode = if f.rwa_mode == 1 || f.rwa_mode == 2 || f.rwa_mode == 0 then f.rwa_mode else r.mode;
    cmd =
        rwa_command f.rwa_mode
          (if f.rwa_mode == rwa_speed_ctrl then f.rwa_speed_cmd else f.rwa_torque_cmd) r.cmd;
    cmd_flg = if f.rwa_mode == 1 || f.rwa_mode == 2 then updated else r.cmd_flg;
  }

  unfoldable pub expected_ssa :
      AdcsFields Float → SunSensorRegisters Float → SunSensorRegisters Float
  expected_ssa f r = record r {
    mode =
        if not (f.ssa_mode == ssa_in_progress) && (r.mode == ssa_complete || r.mode == ssa_failure)
        then ssa_in_progress
        else r.mode;
    voltage_flt = through_u8 f.ssa_voltage_filter zero_f one_f;
  }

  unfoldable pub expected_havt : AdcsFields Float → HavtRegisters → HavtRegisters
  expected_havt f r = record r {
    cmd_reset_table = if some_set f.havt_reset then to_ulong (reset_table f) else r.cmd_reset_table;
    cmd_reset_flg = if some_set f.havt_reset then updated else r.cmd_reset_flg;
    cmd_disable_table =
        if some_set f.havt_disable then to_ulong (disable_table f) else r.cmd_disable_table;
    cmd_disable_flg = if some_set f.havt_disable then updated else r.cmd_disable_flg;
  }

  unfoldable pub expected : AdcsFields Float → Registers Float → Registers Float
  expected f r = record r {
    mode = if is_startup f.adcs_state then adcs_passive else adcs_active;
    rwa = record (expected_rwa f r.rwa) {
      momentum_flt = through_u8 f.rwa_speed_filter zero_f one_f;
      ramp_flt = through_u8 f.rwa_ramp_filter zero_f one_f;
    };
    mtr = record {
      mode = f.mtr_mode;
      cmd = map_vector (λ x. through_u16 x min_moment max_moment) f.mtr_cmd;
      moment_limit = through_u16 f.mtr_limit min_moment max_moment;
      cmd_flg = updated;
    };
    ssa = expected_ssa f r.ssa;
    imu = record r.imu {
      mag1_mode = f.mag1_mode;
      mag2_mode = f.mag2_mode;
      mag_flt = through_u8 f.imu_mag_filter zero_f one_f;
      gyr_flt = through_u8 f.imu_gyr_filter zero_f one_f;
      gyr_temp_flt = through_u8 f.imu_gyr_temp_filter zero_f one_f;
      gyr_temp_pwm = f.imu_gyr_temp_pwm;
      gyr_desired_temp = through_u8 f.imu_gyr_temp_desired min_eq_temp max_eq_temp;
    };
    havt = expected_havt f r.havt;
  }

  module _ (f : AdcsFields Float) (r : Registers Float) where
    effects-wheels : effects (command_wheels f) r ≡ record r { rwa = expected_rwa f r.rwa }
    unfolding effects effect command_wheels expected_rwa rwa_command
    effects-wheels = ground arith

    effects-filters_and_rods : effects (command_filters_and_rods f) r ≡ record r {
      rwa = record r.rwa {
        momentum_flt = through_u8 f.rwa_speed_filter zero_f one_f;
        ramp_flt = through_u8 f.rwa_ramp_filter zero_f one_f;
      };
      mtr = (expected f r).mtr;
    }
    unfolding effects effect command_filters_and_rods expected
    effects-filters_and_rods = refl

    effects-sun_sensors :
        effects (command_sun_sensors f) r ≡ record r { ssa = expected_ssa f r.ssa }
    unfolding effects effect command_sun_sensors expected_ssa
    effects-sun_sensors = ground arith

    effects-imu : effects (command_imu f) r ≡ record r { imu = (expected f r).imu }
    unfolding effects effect command_imu expected
    effects-imu = refl

    effects-tables : effects (command_tables f) r ≡ record r { havt = expected_havt f r.havt }
    unfolding effects effect command_tables expected_havt
    effects-tables = ground arith

  effects-execute :
      (f : AdcsFields Float) (r : Registers Float) → effects (execute f).0 r ≡ expected f r
  unfolding execute effects effect command_mode expected
  effects-execute f r =
      rw
        (
          effects-++, effects-wheels, effects-++, effects-filters_and_rods, effects-++,
          effects-sun_sensors, effects-++, effects-imu, effects-tables,
        )
        refl

module _ {Float : Type 0} ⦃o : FloatArith Float⦄ ⦃laws : CastLaws Float⦄ (absent : ℕ) where
  receive_all-all_messages :
      (cs : List (Command Float)) (r : Registers Float)
      → AllSized cs
      → receive_all absent (all_messages cs) r ≡ effects cs r
  unfolding all_messages effects receive_all
  receive_all-all_messages [] r h = refl
  receive_all-all_messages (c ∷ cs) r (p, h) =
      receive_all-++ absent (messages c) (all_messages cs) r
      ∙ (ap (receive_all absent (all_messages cs)) (receive_all-messages absent r c p)
          ∙ receive_all-all_messages cs (effect c r) h)

  -- The messages of a control cycle of the box controller leave the registers of the ADCS computer
  -- as specified, whatever they held: the mode, passive exactly in startup, the wheel command in
  -- the units of its mode, the rods' mode, command and limit, a request for a sun vector unless one
  -- is in progress on either side, the filters, the IMU's modes and heater settings, and the tables
  -- of devices to reset and to disable where there are such. Numbers arrive rounded to a byte or a
  -- word. The measurements, the read pointer and the rest are as before.
  pub receive_all-execute :
      (f : AdcsFields Float) (r : Registers Float)
      → receive_all absent (all_messages (execute f).0) r ≡ expected f r
  receive_all-execute f r =
      receive_all-all_messages (execute f).0 r (AllSized-execute f) ∙ effects-execute f r
