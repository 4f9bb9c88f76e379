-- ===== src/Docking/Turn.antt =====
-- A half turn of the docking motor, through the timer's interrupts: Drivers/DockingSystem.cpp and
-- DockingController.cpp of src/fsw/FCCode.
use flight_software.Base.{
  ℕ, ◌+◌, ◌-◌, ◌*◌, ◌/◌, ◌<◌, ◌≡◌, refl, ap, ◌∙◌, Bool, true, false, ltb, ◌==◌, if◌then◌else◌,
  arith, Bool-cases, lt→ltb, inl, inr, List, [], ◌∷◌,
}
use flight_software.Docking.{
  DockingSystem, DockingController, cancel, disable, interrupts, differ, enable, set_turn_angle,
  start_halfturn, update, turn, execute,
}
use flight_software.Docking.Interrupts.{
  interrupts-steps, interrupts-timer, half-le, none_left, still_left, interrupts-half, half,
}

-- The interrupts of some passes.
unfoldable pub total : List (ℕ × Bool) → ℕ
total [] = 0
total ((n, switch) ∷ rest) = n + total rest

-- Equal tests and branches.
differ_eq : {a a' b b' : Bool} → a' ≡ a → b' ≡ b → differ a b ≡ true → differ a' b' ≡ true
differ_eq {a} {a'} {b} {b'} p q d = ap (λ x. differ x b') p ∙ ap (differ a) q ∙ d

branch_eq :
    {A : Type 0} {b : Bool} (b' : Bool) {x x' y y' z : A}
    → b ≡ b'
    → x ≡ x'
    → y ≡ y'
    → z ≡ (if b then x else y)
    → z ≡ (if b' then x' else y')
branch_eq b' {x} {x'} {y} {y'} p q r e =
    e
    ∙ ap (λ t. if t then x else y) p
    ∙ ap (λ t. if b' then t else y) q
    ∙ ap (λ t. if b' then x' else t) r

abbrev on_motor :
    {Angle : Type 0}
    → (DockingSystem Angle → DockingSystem Angle)
    → DockingController Angle
    → DockingController Angle
on_motor f c = record c { docksys = f c.docksys }

module _ {Angle : Type 0} (halfturn_steps : Angle → ℕ) where
  -- The first cycle after a command starts the motor.
  starts :
      (switch : Bool) (c : DockingController Angle)
      → differ c.docking_config_cmd c.dock_config ≡ true
      → c.is_turning ≡ false
      → 0 < halfturn_steps c.docking_step_angle
      → let c' = execute halfturn_steps switch c in
        (c'.is_turning ≡ true)
        × (c'.docksys.timer ≡ true)
        × (c'.docksys.steps ≡ halfturn_steps c.docking_step_angle)
        × (c'.docksys.motor_on ≡ c.docksys.motor_on)
        × (c'.dock_config ≡ c.dock_config)
        × (c'.docking_config_cmd ≡ c.docking_config_cmd)
  unfolding execute turn update start_halfturn set_turn_angle enable
  starts switch c d t pos = ground (arith, d, t, pos)

  -- A cycle in the turn goes on while a step is left, and takes over the command when none is.
  goes_on :
      (switch : Bool) (c : DockingController Angle)
      → differ c.docking_config_cmd c.dock_config ≡ true
      → c.is_turning ≡ true
      → (c.docksys.steps == 0) ≡ false
      → let c' = execute halfturn_steps switch c in
        (c'.is_turning ≡ true)
        × (c'.docksys.timer ≡ c.docksys.timer)
        × (c'.docksys.steps ≡ c.docksys.steps)
        × (c'.docksys.motor_on ≡ c.docksys.motor_on)
        × (c'.dock_config ≡ c.dock_config)
        × (c'.docking_config_cmd ≡ c.docking_config_cmd)
  unfolding execute turn update
  goes_on switch c d t left = ground (arith, d, t, left)

  ends :
      (switch : Bool) (c : DockingController Angle)
      → differ c.docking_config_cmd c.dock_config ≡ true
      → c.is_turning ≡ true
      → (c.docksys.steps == 0) ≡ true
      → let c' = execute halfturn_steps switch c in
        (c'.dock_config ≡ c'.docking_config_cmd)
        × (c'.docking_config_cmd ≡ c.docking_config_cmd)
        × (c'.is_turning ≡ false)
  unfolding execute turn update cancel disable
  ends switch c d t none_left = ground (arith, d, t, none_left)

  -- A cycle in which command and configuration agree keeps the configuration and ends any turn.
  resting :
      (switch : Bool) (c : DockingController Angle)
      → c.dock_config ≡ c.docking_config_cmd
      → let c' = execute halfturn_steps switch c in
        (c'.dock_config ≡ c'.docking_config_cmd)
        × (c'.docking_config_cmd ≡ c.docking_config_cmd)
        × (c'.is_turning ≡ false)
  unfolding execute turn update cancel disable
  resting switch c e = ground (arith, e)

  -- Control cycles one after the other: before each, the timer interrupts some times, and in it
  -- `check_docked` reads the switch.
  unfoldable pub cycles : List (ℕ × Bool) → DockingController Angle → DockingController Angle
  cycles [] c = c
  cycles ((n, switch) ∷ rest) c =
      cycles rest (execute halfturn_steps switch (on_motor (interrupts n) c))

  cycles-resting :
      (passes : List (ℕ × Bool)) (c : DockingController Angle)
      → c.dock_config ≡ c.docking_config_cmd
      → c.is_turning ≡ false
      → ((cycles passes c).dock_config ≡ c.docking_config_cmd)
        × ((cycles passes c).is_turning ≡ false)
  unfolding cycles
  cycles-resting [] c e t = (e, t)
  cycles-resting ((n, switch) ∷ rest) c e t =
      let now = resting switch (on_motor (interrupts n) c) e in
      let later =
        cycles-resting rest (execute halfturn_steps switch (on_motor (interrupts n) c)) now.0
          now.2 in
      (later.0 ∙ now.1, later.1)

  cycles-turning :
      (passes : List (ℕ × Bool)) (c : DockingController Angle)
      → differ c.docking_config_cmd c.dock_config ≡ true
      → c.is_turning ≡ true
      → c.docksys.timer ≡ true
      → 0 < c.docksys.steps
      → let before = ltb (total passes + half c.docksys.motor_on) (2 * c.docksys.steps) in
        ((cycles passes c).dock_config ≡ (if before then c.dock_config else c.docking_config_cmd))
        × ((cycles passes c).is_turning ≡ before)
  unfolding cycles total
  cycles-turning [] c d t on pos =
      let before : ltb (0 + half c.docksys.motor_on) (2 * c.docksys.steps) ≡ true =
        lt→ltb (0 + half c.docksys.motor_on) (2 * c.docksys.steps)
          (omega (arith, half-le c.docksys.motor_on, pos)) in
      rw before (refl, t)
  cycles-turning ((n, switch) ∷ rest) c d t on pos = elim (Bool-cases (first.docksys.steps == 0)) [
    | inl none ↦
        let now = ends switch first d t none in
        let later = cycles-resting rest (execute halfturn_steps switch first) now.0 now.2 in
        rw
          (none_left c.docksys.steps first.docksys.steps n (total rest) (half c.docksys.motor_on)
            left none)
          (later.0 ∙ now.1, later.1)
    | inr some ↦
        let c' = execute halfturn_steps switch first in
        let g = goes_on switch first d t some in
        let pos' : 0 < first.docksys.steps = nonzero some in
        let same : ltb (total rest + half c'.docksys.motor_on) (2 * c'.docksys.steps) ≡ before =
          still_left steps c'.docksys.steps n (total rest) h (half c'.docksys.motor_on) (g.2 ∙ left)
            (ap half g.3 ∙ interrupts-half n c.docksys on pos') (omega (arith, g.2, pos')) in
        let later =
          cycles-turning rest c' (differ_eq g.5 g.4 d) g.0 (g.1 ∙ interrupts-timer n c.docksys ∙ on)
            (omega (arith, g.2, pos')) in
        (branch_eq before same g.4 g.5 later.0, later.1 ∙ same)
  ]
    where
      first : DockingController Angle
      first = on_motor (interrupts n) c

      left : first.docksys.steps ≡ c.docksys.steps - (n + half c.docksys.motor_on) / 2
      left = interrupts-steps n c.docksys on

      h : ℕ
      h = half c.docksys.motor_on

      steps : ℕ
      steps = c.docksys.steps

      before : Bool
      before = ltb (n + total rest + h) (2 * steps)

      nonzero : (first.docksys.steps == 0) ≡ false → 0 < first.docksys.steps
      nonzero e = ground (arith, e)

  -- A half turn over several control cycles, started by a command that differs from the
  -- configuration while the motor is at rest with its step pin low and at least one step to make, and
  -- with the command kept. However the interrupts of the timer fall between the cycles: after any
  -- number of cycles, the configuration is the old one and the turn goes on while the interrupts up
  -- to the last cycle, plus one, are fewer than twice the number of steps; from the first cycle on
  -- in which they are not, the configuration is the commanded one and the turn is over.
  pub halfturn_lem :
      (switch : Bool) (passes : List (ℕ × Bool)) (c : DockingController Angle)
      → differ c.docking_config_cmd c.dock_config ≡ true
      → c.is_turning ≡ false
      → c.docksys.motor_on ≡ false
      → 0 < halfturn_steps c.docking_step_angle
      → let n = cycles passes (execute halfturn_steps switch c) in
        let before = ltb (total passes + 1) (2 * halfturn_steps c.docking_step_angle) in
        (n.dock_config ≡ (if before then c.dock_config else c.docking_config_cmd))
        × (n.is_turning ≡ before)
  halfturn_lem switch passes c d t off pos =
      let c' = execute halfturn_steps switch c in
      let first = starts switch c d t pos in
      let same : ltb (total passes + half c'.docksys.motor_on) (2 * c'.docksys.steps)
          ≡ ltb (total passes + 1) (2 * halfturn_steps c.docking_step_angle) =
        ap (λ h. ltb (total passes + h) (2 * c'.docksys.steps)) (ap half (first.3 ∙ off))
        ∙ ap (λ k. ltb (total passes + 1) (2 * k)) first.2 in
      let later =
        cycles-turning passes c' (differ_eq first.5 first.4 d) first.0 first.1
          (omega (arith, first.2, pos)) in
      (
        branch_eq (ltb (total passes + 1) (2 * halfturn_steps c.docking_step_angle)) same first.4
            first.5 later.0,
        later.1 ∙ same,
      )
