-- ===== src/Adcs/Loop.antt =====
-- `update_mtr` and `update_rwa` of src/adcs/main.cpp, with the interrupts that `on_i2c_recieve` serves.
-- `isr k` are the messages that come in at the k-th place between two reads or writes of the
-- registers. The result is the call of `mtr::actuate` or `rwa::actuate` that is made, if any.
pub mod Interrupts
pub mod Atomic
pub mod Race
use flight_software.Base.{ℕ, Bool, not, ◌==◌, if◌then◌else◌, Option, none, some, List}
use flight_software.Floats.{FloatArith}
use flight_software.Adcs.Registers.{Registers, Vector, adcs_active, updated, outdated}
use flight_software.Adcs.Receive.{receive_all}
use flight_software.Adcs.Wheels.{WheelReads, WheelSensors, update_sensors}

-- A call of `mtr::actuate`.
pub record MtrActuation (Float : Type 0) : Type 0 where
  pub mtr_mode : ℕ
  pub mtr_cmd : Vector Float
  pub moment_limit : Float

-- A call of `rwa::actuate`.
pub record RwaActuation (Float : Type 0) : Type 0 where
  pub rwa_mode : ℕ
  pub rwa_cmd : Vector Float

module _ {Float : Type 0} ⦃o : FloatArith Float⦄ where
  unfoldable pub outdate_mtr : Registers Float → Registers Float
  outdate_mtr r = record r { mtr = record r.mtr { cmd_flg = outdated } }

  unfoldable pub outdate_rwa : Registers Float → Registers Float
  outdate_rwa r = record r { rwa = record r.rwa { cmd_flg = outdated } }

  module _ (absent : ℕ) (isr : ℕ → List (List ℕ)) where
    -- From the check that the copy was atomic on.
    unfoldable pub finish_mtr :
        ℕ → Vector Float → Registers Float → Option (MtrActuation Float) × Registers Float
    finish_mtr mtr_mode mtr_cmd r =
        let r' = receive_all absent (isr 7) r in
        if r.mtr.cmd_flg == outdated
        then (
          some (record {
            mtr_mode = mtr_mode;
            mtr_cmd = mtr_cmd;
            moment_limit = r'.mtr.moment_limit;
          }),
          r',
        )
        else (none, r)

    -- From the copy on.
    unfoldable pub copy_mtr : Registers Float → Option (MtrActuation Float) × Registers Float
    copy_mtr r =
        let r₂ = receive_all absent (isr 2) r in
        let r₃ = receive_all absent (isr 3) r₂ in
        let r₄ = receive_all absent (isr 4) r₃ in
        let r₅ = receive_all absent (isr 5) r₄ in
        finish_mtr r₂.mtr.mode (record { x = r₃.mtr.cmd.x; y = r₄.mtr.cmd.y; z = r₅.mtr.cmd.z })
          (receive_all absent (isr 6) r₅)

    unfoldable pub update_mtr : Registers Float → Option (MtrActuation Float) × Registers Float
    update_mtr r =
        let r' = receive_all absent (isr 0) r in
        if not (r.mode == adcs_active)
        then (none, r)
        else if not (r'.mtr.cmd_flg == updated)
        then (none, r')
        else copy_mtr (outdate_mtr (receive_all absent (isr 1) r'))

    -- The wheels' part up to the actuation: whether the loop goes on to the sensors, and the call.
    unfoldable pub copy_rwa : Registers Float → Option (RwaActuation Float) × Registers Float
    copy_rwa r =
        let r₂ = receive_all absent (isr 2) r in
        let r₃ = receive_all absent (isr 3) r₂ in
        let r₄ = receive_all absent (isr 4) r₃ in
        let r₅ = receive_all absent (isr 5) r₄ in
        let r₆ = receive_all absent (isr 6) r₅ in
        (
          if r₆.rwa.cmd_flg == outdated
              then some (record {
                rwa_mode = r₂.rwa.mode;
                rwa_cmd = record { x = r₃.rwa.cmd.x; y = r₄.rwa.cmd.y; z = r₅.rwa.cmd.z };
              })
              else none,
          r₆,
        )

    module _ (rwa_to_body : Vector Float → Vector Float) (reads : WheelReads) where
      -- The sensors are read with the filters of the registers, and the readings are copied with
      -- the interrupts off.
      unfoldable pub read_rwa :
          WheelSensors Float → Registers Float → WheelSensors Float × Registers Float
      read_rwa s r =
          let r₇ = receive_all absent (isr 7) r in
          let r₈ = receive_all absent (isr 8) r₇ in
          let s' = update_sensors rwa_to_body r₇.rwa.momentum_flt r₈.rwa.ramp_flt reads s in
          (
            s',
            let r₉ = receive_all absent (isr 9) r₈ in
                record r₉ {
                  rwa = record r₉.rwa { momentum_rd = s'.speed_rd; ramp_rd = s'.ramp_rd };
                },
          )

      unfoldable pub update_rwa :
          WheelSensors Float
          → Registers Float
          → Option (RwaActuation Float) × (WheelSensors Float × Registers Float)
      update_rwa s r =
          let r' = receive_all absent (isr 0) r in
          let copied = copy_rwa (outdate_rwa (receive_all absent (isr 1) r')) in
          if not (r.mode == adcs_active)
          then (none, (s, r))
          else if not (r'.rwa.cmd_flg == updated)
          then (none, (s, r'))
          else (copied.0, read_rwa s copied.1)
