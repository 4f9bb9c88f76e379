-- ===== src/Adcs/Pipeline.antt =====
-- A control cycle from the state of the attitude control system to its actuators:
-- src/fsw/FCCode/ADCSCommander.cpp sets the commands, src/fsw/FCCode/ADCSBoxController.cpp sends them,
-- src/adcs/state_controller.cpp receives them, and src/adcs/main.cpp actuates.
use flight_software.Base.{
  ℕ, ◌≡◌, refl, sym, ap, ◌∙◌, subst, Bool, true, false, ◌==◌, if◌then◌else◌, none, some, List, [],
  arith,
}
use flight_software.Floats.{FloatArith, CastLaws}
use flight_software.Modes.{AdcsState}
use flight_software.Adcs.Convert.{min_moment, max_moment, min_torque, max_torque}
use flight_software.Adcs.Registers.{
  Registers, Vector, map_vector, adcs_active, adcs_passive, mtr_enabled, rwa_accel_ctrl,
  rwa_disabled, updated, outdated,
}
use flight_software.Adcs.Receive.{receive_all}
use flight_software.Adcs.Protocol.{through_u16, rwa_command}
use flight_software.Adcs.Wheels.{WheelReads, WheelSensors}
use flight_software.Adcs.Loop.{
  MtrActuation, RwaActuation, outdate_mtr, outdate_rwa, finish_mtr, copy_mtr, update_mtr, copy_rwa,
  update_rwa,
}
use flight_software.Adcs.Commander
use flight_software.Adcs.Commander.{
  AdcsFields, zero_vector, command_in, command_rods, command_pointing,
}
use flight_software.Adcs.Controller
use flight_software.Adcs.Controller.{is_startup}
use flight_software.Adcs.Controller.Delivery.{
  all_messages, expected, expected_rwa, receive_all-execute,
}

-- No message interrupts.
unfoldable pub quiet : ℕ → List (List ℕ)
quiet k = []

unfoldable pub is_pointing : AdcsState → Bool
is_pointing AdcsState.point_manual = true
is_pointing AdcsState.point_standby = true
is_pointing AdcsState.point_docking = true
is_pointing _ = false

-- The states in which the commander disables the wheels.
unfoldable pub stops_wheels : AdcsState → Bool
stops_wheels AdcsState.limited = true
stops_wheels AdcsState.detumble = true
stops_wheels AdcsState.zero_l = true
stops_wheels _ = false

pointing_not_startup : (s : AdcsState) → is_pointing s ≡ true → is_startup s ≡ false
unfolding is_pointing is_startup
pointing_not_startup AdcsState.startup e = ground arith
pointing_not_startup _ e = refl

stopping_not_startup : (s : AdcsState) → stops_wheels s ≡ true → is_startup s ≡ false
unfolding stops_wheels is_startup
stopping_not_startup AdcsState.startup e = ground arith
stopping_not_startup _ e = refl

module _ {Float : Type 0} ⦃o : FloatArith Float⦄ where
  -- The registers after the messages of a control cycle of both tasks.
  unfoldable pub cycle : ℕ → AdcsFields Float → Registers Float → Registers Float
  cycle absent f r =
      receive_all absent (all_messages (Controller.execute (Commander.execute f)).0) r

  command_in_state :
      (s : AdcsState) (f : AdcsFields Float) → (command_in s f).adcs_state ≡ f.adcs_state
  unfolding command_in command_rods command_pointing
  command_in_state AdcsState.startup f = refl
  command_in_state _ f = refl

  command_in-pointing :
      (s : AdcsState) (f : AdcsFields Float)
      → is_pointing s ≡ true
      → command_in s f ≡ command_pointing f
  unfolding is_pointing command_in
  command_in-pointing AdcsState.startup f e = absurd (ground (arith, e))
  command_in-pointing AdcsState.point_manual f e = refl
  command_in-pointing AdcsState.point_standby f e = refl
  command_in-pointing AdcsState.point_docking f e = refl
  command_in-pointing _ f e = absurd (ground (arith, e))

  command_in-stops :
      (s : AdcsState) (f : AdcsFields Float)
      → stops_wheels s ≡ true
      → (command_in s f).rwa_mode ≡ rwa_disabled
  unfolding stops_wheels command_in command_rods
  command_in-stops AdcsState.limited f e = refl
  command_in-stops AdcsState.detumble f e = refl
  command_in-stops AdcsState.zero_l f e = refl
  command_in-stops _ f e = absurd (ground (arith, e))

  execute-pointing :
      (f : AdcsFields Float)
      → is_pointing f.adcs_state ≡ true
      → Commander.execute f ≡ command_pointing f
  unfolding Commander.execute
  execute-pointing f = command_in-pointing f.adcs_state f

  execute-stops :
      (f : AdcsFields Float)
      → stops_wheels f.adcs_state ≡ true
      → (Commander.execute f).rwa_mode ≡ rwa_disabled
  unfolding Commander.execute
  execute-stops f = command_in-stops f.adcs_state f

  expected_disabled :
      (f : AdcsFields Float) (r : Registers Float)
      → (Commander.execute f).rwa_mode ≡ rwa_disabled
      → ((expected (Commander.execute f) r).rwa.mode ≡ rwa_disabled)
        × ((expected (Commander.execute f) r).rwa.cmd_flg ≡ r.rwa.cmd_flg)
  unfolding expected expected_rwa
  expected_disabled f r e = ground (arith, e)

  -- What the loop of the ADCS computer does with the rods when nothing interrupts it.
  update_mtr-quiet :
      (absent : ℕ) (r : Registers Float)
      → r.mode ≡ adcs_active
      → r.mtr.cmd_flg ≡ updated
      → (update_mtr absent quiet r).0
        ≡ some (record {
          mtr_mode = r.mtr.mode;
          mtr_cmd = r.mtr.cmd;
          moment_limit = r.mtr.moment_limit;
        })
  unfolding update_mtr copy_mtr finish_mtr outdate_mtr receive_all quiet
  update_mtr-quiet absent r active waiting = ground (arith, active, waiting)

  update_rwa-quiet :
      (absent : ℕ) (to_body : Vector Float → Vector Float) (reads : WheelReads)
      (s : WheelSensors Float) (r : Registers Float)
      → r.mode ≡ adcs_active
      → (update_rwa absent quiet to_body reads s r).0 ≡ (
          if r.rwa.cmd_flg == updated
          then some (record { rwa_mode = r.rwa.mode; rwa_cmd = r.rwa.cmd })
          else none)
  unfolding update_rwa copy_rwa outdate_rwa receive_all quiet
  update_rwa-quiet absent to_body reads s r active = ground (arith, active)

module _ {Float : Type 0} ⦃o : FloatArith Float⦄ ⦃laws : CastLaws Float⦄ (absent : ℕ)
    (to_body : Vector Float → Vector Float) (reads : WheelReads) (s : WheelSensors Float)
    (r : Registers Float) (f : AdcsFields Float) where
  cycle_lem : cycle absent f r ≡ expected (Commander.execute f) r
  unfolding cycle
  cycle_lem = receive_all-execute absent (Commander.execute f) r

  cycle_mode :
      (cycle absent f r).mode ≡ (if is_startup f.adcs_state then adcs_passive else adcs_active)
  unfolding expected Commander.execute
  cycle_mode =
      ap (λ (n : Registers Float). n.mode) cycle_lem ∙ rw (command_in_state f.adcs_state f) refl

  -- In startup the cycle leaves the ADCS computer passive, and neither the rods nor the wheels are
  -- actuated, whatever messages interrupt the loop's copies.
  pub startup_is_passive :
      (isr : ℕ → List (List ℕ))
      → f.adcs_state ≡ AdcsState.startup
      → ((cycle absent f r).mode ≡ adcs_passive)
        × ((update_mtr absent isr (cycle absent f r)).0 ≡ none)
        × ((update_rwa absent isr to_body reads s (cycle absent f r)).0 ≡ none)
  unfolding update_mtr update_rwa is_startup
  startup_is_passive isr e = (passive, rw passive, rw passive)
    where
      passive : (cycle absent f r).mode ≡ adcs_passive
      passive = cycle_mode ∙ rw e

  -- In the three states of pointing the cycle makes the next pass of the ADCS computer's loop, if no
  -- message interrupts it, actuate the rods with the magnetic moment and the wheels with the torque that the attitude computer asks for, each
  -- rounded to a word, and with the limit of the fields.
  pub pointing_actuates :
      is_pointing f.adcs_state ≡ true
      → ((update_mtr absent quiet (cycle absent f r)).0
          ≡ some (record {
            mtr_mode = mtr_enabled;
            mtr_cmd = map_vector (λ x. through_u16 x min_moment max_moment) f.pointer_mtr_cmd;
            moment_limit = through_u16 f.mtr_limit min_moment max_moment;
          }))
        × ((update_rwa absent quiet to_body reads s (cycle absent f r)).0
            ≡ some (record {
              rwa_mode = rwa_accel_ctrl;
              rwa_cmd =
                  map_vector (λ x. through_u16 x min_torque max_torque) f.pointer_rwa_torque_cmd;
            }))
  unfolding expected command_pointing expected_rwa rwa_command
  pointing_actuates e =
      subst
        (λ (n : Registers Float).
          ((update_mtr absent quiet n).0 ≡ some rods)
          × ((update_rwa absent quiet to_body reads s n).0 ≡ some wheels))
        (sym shape)
        (
          update_mtr-quiet absent (expected (command_pointing f) r) active refl,
          update_rwa-quiet absent to_body reads s (expected (command_pointing f) r) active,
        )
    where
      shape : cycle absent f r ≡ expected (command_pointing f) r
      shape = cycle_lem ∙ ap (λ (g : AdcsFields Float). expected g r) (execute-pointing f e)

      active : (expected (command_pointing f) r).mode ≡ adcs_active
      active = rw (pointing_not_startup f.adcs_state e) refl

      rods : MtrActuation Float
      rods = record {
        mtr_mode = mtr_enabled;
        mtr_cmd = map_vector (λ x. through_u16 x min_moment max_moment) f.pointer_mtr_cmd;
        moment_limit = through_u16 f.mtr_limit min_moment max_moment;
      }

      wheels : RwaActuation Float
      wheels = record {
        rwa_mode = rwa_accel_ctrl;
        rwa_cmd = map_vector (λ x. through_u16 x min_torque max_torque) f.pointer_rwa_torque_cmd;
      }

  -- In the states that disable the wheels, the last of which is to stop them hard, the wheels are
  -- not actuated at all by the next pass, if no message interrupts it and the command before was
  -- carried out: they keep turning as they did.
  pub disabled_wheels_not_stopped :
      stops_wheels f.adcs_state ≡ true
      → r.rwa.cmd_flg ≡ outdated
      → ((cycle absent f r).mode ≡ adcs_active)
        × ((cycle absent f r).rwa.mode ≡ rwa_disabled)
        × ((update_rwa absent quiet to_body reads s (cycle absent f r)).0 ≡ none)
  disabled_wheels_not_stopped e done =
      (active, mode, update_rwa-quiet absent to_body reads s (cycle absent f r) active ∙ rw flag)
    where
      active : (cycle absent f r).mode ≡ adcs_active
      active = cycle_mode ∙ rw (stopping_not_startup f.adcs_state e)

      mode : (cycle absent f r).rwa.mode ≡ rwa_disabled
      mode =
          ap (λ (n : Registers Float). n.rwa.mode) cycle_lem
          ∙ (expected_disabled f r (execute-stops f e)).0

      flag : (cycle absent f r).rwa.cmd_flg ≡ outdated
      flag =
          ap (λ (n : Registers Float). n.rwa.cmd_flg) cycle_lem
          ∙ ((expected_disabled f r (execute-stops f e)).1 ∙ done)
