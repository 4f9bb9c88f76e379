-- ===== src/Examples/Radio.antt =====
-- The radio at concrete inputs.
use flight_software.Base.{◌+◌, refl, arith}
use flight_software.Modes.{RadioState}
use flight_software.QuakeManager.Manager.{init, execute}
use flight_software.QuakeManager.Packets.{IsWithin, init-IsWithin, execute-IsWithin}
use flight_software.QuakeManager.Sequence.{IsAt, steps, successor, cycles, cycles_sequence}
use flight_software.Examples.Values.{new_radio, surroundings}

radio-IsWithin : IsWithin (init 200 new_radio)
radio-IsWithin = init-IsWithin 200 new_radio refl refl

execute-IsWithin_example : IsWithin (execute surroundings 9 (init 200 new_radio))
execute-IsWithin_example = execute-IsWithin surroundings 9 (init 200 new_radio) radio-IsWithin

new_radio-IsAt : IsAt RadioState.write 8 0 new_radio
new_radio-IsAt = record { in_state = refl; since = refl; progress = refl; is_patient = omega arith }

cycles_sequence_example :
    IsAt
      (successor surroundings RadioState.write)
      (8 + steps RadioState.write)
      0
      (cycles surroundings (steps RadioState.write) (8 + 1) new_radio)
cycles_sequence_example =
    cycles_sequence surroundings (λ c. refl) RadioState.write 8 new_radio (omega arith)
      new_radio-IsAt (omega arith) (omega arith)
