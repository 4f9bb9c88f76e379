-- ===== src/Fault/Commands.antt =====
-- How the ground's commands act on a fault.
use flight_software.Base.{◌≡◌, true, false, Bool, not, arith}
use flight_software.Fault.{Fault, is_faulted}

-- To ask a fault twice gives the same answer and the same fault as to ask it once.
pub is_faulted-is_faulted : (f : Fault) → is_faulted (is_faulted f).1 ≡ is_faulted f
unfolding is_faulted
is_faulted-is_faulted f = ground arith

-- The ground clears a fault with an override or a suppression that it raises and takes back: if the
-- fault is asked while the command is up and again when it is down, the second answer is no. Neither
-- command was up when it was asked before, and no other command is given.
pub is_faulted_cleared :
    (raised_override : Bool) (f : Fault)
    → f.override ≡ false
    → f.suppress ≡ false
    → f.prev_override ≡ false
    → f.prev_suppress ≡ false
    → let up = record f { override = raised_override; suppress = not raised_override } in
      let down = record (is_faulted up).1 { override = false; suppress = false } in
      ((is_faulted up).0 ≡ raised_override) × ((is_faulted down).0 ≡ false)
unfolding is_faulted
is_faulted_cleared true f a b c d = ground arith
is_faulted_cleared false f a b c d = ground arith
