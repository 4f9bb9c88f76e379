-- ===== src/Propulsion/Schedule.antt =====
-- The commands on the firing schedule.
use flight_software.Base.{ℕ, ◌≡◌, refl, arith, Bool, true, false, List, [], ◌∷◌}
use flight_software.Propulsion.{
  Propulsion, AllClosed, close_all, reset, set_schedule, clear_schedule,
}

AllClosed-close_all : (os : List Bool) → AllClosed (close_all os)
unfolding close_all
AllClosed-close_all [] = tt
AllClosed-close_all (o ∷ os) = (refl, AllClosed-close_all os)

-- The driver is off: no interrupt, no valve open, nothing scheduled.
pub record IsOff (p : Propulsion) : Type 0 where
  pub no_interrupt : p.is_interval_enabled ≡ false
  pub tank1_closed : AllClosed p.tank1_opened
  pub tank2_closed : AllClosed p.tank2_opened
  pub empty : p.schedule ≡ 0 ∷ 0 ∷ 0 ∷ 0 ∷ []

-- `reset` switches the driver off, whatever it was doing.
pub reset-IsOff : (p : Propulsion) → IsOff (reset p)
unfolding reset
reset-IsOff p =
    ground (arith, AllClosed-close_all p.tank1_opened, AllClosed-close_all p.tank2_opened)

-- The commands on the schedule take no effect while the interrupt runs.
pub set_schedule_running :
    (a b c d : ℕ) (p : Propulsion)
    → p.is_interval_enabled ≡ true
    → (set_schedule a b c d p ≡ (false, p)) × (clear_schedule p ≡ (false, p))
unfolding set_schedule clear_schedule
set_schedule_running a b c d p h = ground arith
