-- ===== src/Devices/Gomspace/Cycling.antt =====
-- What src/fsw/FCCode/GomspaceController.cpp does about the power cycling of its outputs.
use flight_software.Base.{
  ℕ, ◌%◌, ◌≡◌, ◌≢◌, refl, Bool, true, false, ◌&&◌, ◌||◌, ◌==◌, if◌then◌else◌, List, [], ◌∷◌, ◌++◌,
  arith, both_branches,
}
use flight_software.Devices.Gomspace.{
  Call, Six, Readout, GomspaceController, powercycle_logic, power_cycle_outputs, adopt,
  command_power, command_resets, check_faults, execute, when,
}

-- Whether a call turns on the first output, the Piksi's.
abbrev pub is_piksi_on : Call → Bool
is_piksi_on (Call.set_single_output idx value) = (idx == 0) && (value == 1)
is_piksi_on _ = false

unfoldable pub turns_on_piksi : List Call → Bool
turns_on_piksi [] = false
turns_on_piksi (call ∷ calls) = is_piksi_on call || turns_on_piksi calls

turns_on_piksi-++ :
    (xs ys : List Call)
    → turns_on_piksi xs ≡ false
    → turns_on_piksi ys ≡ false
    → turns_on_piksi (xs ++ ys) ≡ false
unfolding turns_on_piksi
turns_on_piksi-++ [] ys h h' = h'
turns_on_piksi-++ (x ∷ xs) ys h h' = ground (arith, turns_on_piksi-++ xs ys, h, h')

powercycle-quiet :
    (cmd output : Bool) (idx : ℕ)
    → idx ≢ 0
    → turns_on_piksi (powercycle_logic cmd output idx).0 ≡ false
unfolding turns_on_piksi powercycle_logic
powercycle-quiet cmd output idx h = ground (arith, h)

cycling-quiet :
    (c : GomspaceController) → c.piksi_off ≡ true → turns_on_piksi (power_cycle_outputs c).0 ≡ false
unfolding power_cycle_outputs
cycling-quiet c off =
    rw (off, power_cycle_outputs)
      (turns_on_piksi-++ (r₂ ++ r₃ ++ r₄ ++ r₅) r₆
        (turns_on_piksi-++ (r₂ ++ r₃ ++ r₄) r₅
          (turns_on_piksi-++ (r₂ ++ r₃) r₄
            (turns_on_piksi-++ r₂ r₃ (powercycle-quiet cmd.second out.second 1 (omega arith))
              (powercycle-quiet cmd.third out.third 2 (omega arith)))
            (powercycle-quiet cmd.fourth out.fourth 3 (omega arith)))
          (powercycle-quiet cmd.fifth out.fifth 4 (omega arith)))
        (powercycle-quiet cmd.sixth out.sixth 5 (omega arith)))
  where
    cmd : Six Bool
    cmd = c.power_cycle_cmd

    out : Six Bool
    out = c.hk.output

    r₂ : List Call
    r₂ = (powercycle_logic cmd.second out.second 1).0

    r₃ : List Call
    r₃ = (powercycle_logic cmd.third out.third 2).0

    r₄ : List Call
    r₄ = (powercycle_logic cmd.fourth out.fourth 3).0

    r₅ : List Call
    r₅ = (powercycle_logic cmd.fifth out.fifth 4).0

    r₆ : List Call
    r₆ = (powercycle_logic cmd.sixth out.sixth 5).0

power-quiet : (r : Readout) (c : GomspaceController) → turns_on_piksi (command_power r c) ≡ false
unfolding turns_on_piksi command_power
power-quiet r c = ground arith

resets-quiet : (c : GomspaceController) → turns_on_piksi (command_resets c).0 ≡ false
unfolding turns_on_piksi command_resets
resets-quiet c = ground arith

empty-quiet : turns_on_piksi [] ≡ false
unfolding turns_on_piksi
empty-quiet = refl

last_call-quiet : turns_on_piksi (Call.set_single_output 0 0 ∷ []) ≡ false
unfolding turns_on_piksi
last_call-quiet = refl

adopt-off :
    (cc : ℕ) (r : Readout) (c : GomspaceController)
    → c.piksi_off ≡ true
    → (adopt r (check_faults cc r c)).piksi_off ≡ true
unfolding adopt check_faults
adopt-off cc r c off = off

-- While the ground keeps the Piksi off, no cycle turns it on.
pub execute_quiet_piksi :
    (cc : ℕ) (r : Readout) (c : GomspaceController)
    → c.piksi_off ≡ true
    → turns_on_piksi (execute cc r c).0 ≡ false
unfolding execute check_faults
execute_quiet_piksi cc r c off =
    turns_on_piksi-++ (cycled.0 ++ power ++ resets) last
      (turns_on_piksi-++ (cycled.0 ++ power) resets
        (turns_on_piksi-++ cycled.0 power (due (cc % c₂.period == 0)) (power-quiet r cycled.1))
        (resets-quiet cycled.1))
      (last-quiet c.piksi_off)
  where
    c₂ : GomspaceController
    c₂ = if cc == 1 then adopt r (check_faults cc r c) else check_faults cc r c

    still : c₂.piksi_off ≡ true
    still =
        both_branches (λ (b : GomspaceController). b.piksi_off ≡ true) (cc == 1)
          (adopt-off cc r c off) off

    cycled : List Call × GomspaceController
    cycled = if cc % c₂.period == 0 then power_cycle_outputs c₂ else ([], c₂)

    power : List Call
    power = command_power r cycled.1

    resets : List Call
    resets = (command_resets cycled.1).0

    last : List Call
    last = when c.piksi_off (Call.set_single_output 0 0)

    due : (b : Bool) → turns_on_piksi (if b then power_cycle_outputs c₂ else ([], c₂)).0 ≡ false
    due true = cycling-quiet c₂ still
    due false = empty-quiet

    last-quiet : (b : Bool) → turns_on_piksi (when b (Call.set_single_output 0 0)) ≡ false
    last-quiet true = last_call-quiet
    last-quiet false = empty-quiet

-- A command to power cycle the third output, the radio's, is gone after two cycles that are due and
-- are not cycle 1, when behind the first of them the device shows the output as off.
pub execute_cycles :
    (cc cc' : ℕ) (r r' : Readout) (c : GomspaceController)
    → cc ≢ 1
    → cc' ≢ 1
    → cc % c.period ≡ 0
    → cc' % c.period ≡ 0
    → c.power_cycle_cmd.third ≡ true
    → r.hk.output.third ≡ false
    → (execute cc' r' (execute cc r c).1).1.power_cycle_cmd.third ≡ false
unfolding execute adopt check_faults power_cycle_outputs powercycle_logic command_resets
execute_cycles cc cc' r r' c n n' due due' cmd off = ground (arith, n, n', due, due', cmd, off)
