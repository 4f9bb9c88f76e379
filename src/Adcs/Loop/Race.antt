-- ===== src/Adcs/Loop/Race.antt =====
-- The two messages of a wheel command, with a pass of the loop of the ADCS computer in between.
use flight_software.Base.{ℕ, ◌≡◌, refl, some, List, [], ◌∷◌, arith}
use flight_software.Floats.{FloatArith}
use flight_software.Adcs.Registers.{Registers, Vector, adcs_active, updated}
use flight_software.Adcs.Receive
use flight_software.Adcs.Receive.{receive_all, on_i2c_recieve, receive_at}
use flight_software.Adcs.Driver.{set_rwa_mode}
use flight_software.Adcs.Wheels.{WheelReads, WheelSensors}
use flight_software.Adcs.Loop.{update_rwa, copy_rwa, outdate_rwa}

module _ {Float : Type 0} ⦃o : FloatArith Float⦄ (absent : ℕ)
    (to_body : Vector Float → Vector Float) (reads : WheelReads) (s : WheelSensors Float) where
  -- `set_rwa_mode` sends the mode and the command as two messages. If the command before still waits
  -- and the loop passes between the two, the wheels are actuated with that old command, which is in
  -- the units of the old mode, in the new mode.
  pub set_rwa_mode_race :
      (mode : ℕ) (cmd : Vector Float) (r : Registers Float)
      → r.mode ≡ adcs_active
      → r.rwa.cmd_flg ≡ updated
      → (first : List ℕ) × (second : List ℕ) × (set_rwa_mode mode cmd ≡ first ∷ second ∷ [])
        × ((update_rwa absent (λ _. []) to_body reads s (receive_all absent (first ∷ []) r)).0
            ≡ some (record { rwa_mode = mode; rwa_cmd = r.rwa.cmd }))
  unfolding set_rwa_mode receive_all on_i2c_recieve receive_at Receive.receive_rwa_mode
      Receive.receive_rwa_command Receive.read update_rwa copy_rwa outdate_rwa
  set_rwa_mode_race mode cmd r active waiting = (_, _, refl, ground (arith, active, waiting))
