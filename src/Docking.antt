-- ===== src/Docking.antt =====
-- The docking motor and its controller: src/fsw/FCCode/Drivers/DockingSystem.cpp and
-- DockingController.cpp. The parameter stands for `180.0f / step_angle` as an `unsigned int`: a
-- floating-point division, which is the machine's.
pub mod Interrupts
pub mod Turn
use flight_software.Base.{
  ℕ, zero, suc, ◌-◌, Bool, true, false, not, ◌&&◌, ltb, leb, ◌==◌, if◌then◌else◌,
}

pub record DockingSystem (Angle : Type 0) : Type 0 where
  pub steps : ℕ
  pub motor_on : Bool
  pub motor_sleep_pin : Bool
  pub motor_step_pin : Bool
  pub timer : Bool
  pub step_angle : Angle
  pub step_delay : ℕ

abbrev pub get_steps : {Angle : Type 0} → DockingSystem Angle → ℕ
get_steps d = d.steps

unfoldable pub enable : {Angle : Type 0} → DockingSystem Angle → DockingSystem Angle
enable d = record d { motor_sleep_pin = true }

unfoldable pub disable : {Angle : Type 0} → DockingSystem Angle → DockingSystem Angle
disable d = record d { motor_sleep_pin = false }

unfoldable pub cancel : {Angle : Type 0} → DockingSystem Angle → DockingSystem Angle
unfolding disable
cancel d = record (disable d) { timer = false }

-- The timer's interrupt. A step is a rise of the pin.
unfoldable pub step_motor : {Angle : Type 0} → DockingSystem Angle → DockingSystem Angle
step_motor d =
    if leb 1 d.steps
    then (if d.motor_on
        then record d { motor_step_pin = false; motor_on = false }
        else record d { motor_step_pin = true; steps = d.steps - 1; motor_on = true })
    else d

-- Some interrupts, which come while the timer runs.
unfoldable pub interrupts : {Angle : Type 0} → ℕ → DockingSystem Angle → DockingSystem Angle
unfolding step_motor
interrupts zero d = d
interrupts (suc n) d = let rest = interrupts n (step_motor d) in if d.timer then rest else d

-- The controller and its fields, with the field of the command.
pub record DockingController (Angle : Type 0) : Type 0 where
  pub docksys : DockingSystem Angle
  pub docking_config_cmd : Bool
  pub docking_step_angle : Angle
  pub docking_step_delay : ℕ
  pub docked : Bool
  pub dock_config : Bool
  pub is_turning : Bool

abbrev pub differ : Bool → Bool → Bool
differ true b = not b
differ false b = b

module _ {Angle : Type 0} (halfturn_steps : Angle → ℕ) where
  unfoldable pub set_turn_angle : DockingSystem Angle → DockingSystem Angle
  set_turn_angle d = record d { steps = halfturn_steps d.step_angle }

  unfoldable pub start_halfturn : DockingSystem Angle → DockingSystem Angle
  unfolding set_turn_angle enable
  start_halfturn d = record (enable (set_turn_angle d)) { timer = true }

  -- The two setters at the start of `execute`.
  unfoldable pub update : DockingController Angle → DockingController Angle
  update c = record c {
    docksys = record c.docksys {
      step_angle = c.docking_step_angle;
      step_delay = c.docking_step_delay;
    };
  }

  -- `execute` where the command and the configuration differ.
  unfoldable pub turn : DockingController Angle → DockingController Angle
  unfolding start_halfturn cancel
  turn c =
      let c₁ =
        if not c.is_turning
        then record c { docksys = start_halfturn c.docksys; is_turning = true }
        else c in
      if get_steps c₁.docksys == 0
      then record c₁ {
        dock_config = not c₁.dock_config;
        docksys = cancel c₁.docksys;
        is_turning = false;
      }
      else c₁

  -- The argument is what `check_docked` reads from the switch.
  unfoldable pub execute : Bool → DockingController Angle → DockingController Angle
  unfolding update turn cancel
  execute switch c =
      let c₁ = update c in
      let c₂ =
        if differ c₁.docking_config_cmd c₁.dock_config
        then turn c₁
        else record c₁ { docksys = cancel c₁.docksys; is_turning = false } in
      record c₂ { docked = switch }
