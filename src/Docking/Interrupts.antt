-- ===== src/Docking/Interrupts.antt =====
-- The steps that the timer's interrupts make: Drivers/DockingSystem.cpp of src/fsw/FCCode.
use flight_software.Base.{
  ℕ, zero, suc, ◌+◌, ◌-◌, ◌*◌, ◌/◌, ◌%◌, ◌<◌, ◌≡◌, refl, ap, ◌∙◌, Bool, true, false, ltb, ◌==◌,
  if◌then◌else◌, arith, both_branches, ◌≤◌, subst,
}
use flight_software.Docking.{DockingSystem, step_motor, interrupts}

-- The interrupts that the pending half of a step leaves for whole ones.
abbrev pub half : Bool → ℕ
half true = 0
half false = 1

step_motor-timer : {Angle : Type 0} (d : DockingSystem Angle) → (step_motor d).timer ≡ d.timer
unfolding step_motor
step_motor-timer d = ground arith

step_motor-steps :
    {Angle : Type 0} (n : ℕ) (d : DockingSystem Angle)
    → (step_motor d).steps - (n + half (step_motor d).motor_on) / 2
      ≡ d.steps - (suc n + half d.motor_on) / 2
unfolding step_motor
step_motor-steps n d = ground arith

taken : {A : Type 0} (b : Bool) (x y : A) → b ≡ true → (if b then x else y) ≡ x
taken true x y h = refl
taken false x y h = absurd (ground (arith, h))

interrupts-more :
    {Angle : Type 0} (n : ℕ) (d : DockingSystem Angle)
    → d.timer ≡ true
    → interrupts (suc n) d ≡ interrupts n (step_motor d)
unfolding interrupts
interrupts-more n d on = taken d.timer (interrupts n (step_motor d)) d on

-- While the timer runs, each second interrupt takes a step from those left, the first one at once
-- where the motor's phase is off.
pub interrupts-steps :
    {Angle : Type 0} (n : ℕ) (d : DockingSystem Angle)
    → d.timer ≡ true
    → (interrupts n d).steps ≡ d.steps - (n + half d.motor_on) / 2
unfolding interrupts
interrupts-steps zero d on = ground arith
interrupts-steps (suc n) d on =
    ap (λ b. b.steps) (interrupts-more n d on)
    ∙ interrupts-steps n (step_motor d) (step_motor-timer d ∙ on)
    ∙ step_motor-steps n d

pub interrupts-timer :
    {Angle : Type 0} (n : ℕ) (d : DockingSystem Angle) → (interrupts n d).timer ≡ d.timer
unfolding interrupts
interrupts-timer zero d = refl
interrupts-timer (suc n) d =
    both_branches (λ (b : DockingSystem _). b.timer ≡ d.timer) d.timer
      (interrupts-timer n (step_motor d) ∙ step_motor-timer d) refl

step_motor-half :
    {Angle : Type 0} (n : ℕ) (d : DockingSystem Angle)
    → 0 < d.steps
    → (n + half (step_motor d).motor_on) % 2 ≡ (suc n + half d.motor_on) % 2
unfolding step_motor
step_motor-half n d pos = ground (arith, pos)

pub half-le : (b : Bool) → half b ≤ 1
half-le true = omega arith
half-le false = omega arith

-- Whether `n` and `more` interrupts, with the pending half `h`, leave a step of `S`, and the same
-- after the first `n`.
pub none_left :
    (S S' n more h : ℕ)
    → S' ≡ S - (n + h) / 2
    → (S' == 0) ≡ true
    → ltb (n + more + h) (2 * S) ≡ false
none_left S S' n more h e z = ground (arith, e, z)

pub still_left :
    (S S' n more h h' : ℕ)
    → S' ≡ S - (n + h) / 2
    → h' ≡ (n + h) % 2
    → 0 < S'
    → ltb (more + h') (2 * S') ≡ ltb (n + more + h) (2 * S)
still_left S S' n more h h' e e' pos = ground (arith, e, e', pos)

-- Interrupts that leave a step have each toggled the pin.
pub interrupts-half :
    {Angle : Type 0} (n : ℕ) (d : DockingSystem Angle)
    → d.timer ≡ true
    → 0 < (interrupts n d).steps
    → half (interrupts n d).motor_on ≡ (n + half d.motor_on) % 2
unfolding interrupts
interrupts-half zero d on pos = ground arith
interrupts-half (suc n) d on pos =
    ap (λ b. half b.motor_on) more
    ∙ interrupts-half n (step_motor d) (step_motor-timer d ∙ on) (subst (λ b. 0 < b.steps) more pos)
    ∙ step_motor-half n d (omega (arith, pos, interrupts-steps (suc n) d on))
  where
    more : interrupts (suc n) d ≡ interrupts n (step_motor d)
    more = interrupts-more n d on
