-- ===== src/Examples/Timing.antt =====
-- The schedule of a control cycle at concrete inputs.
use flight_software.Base.{ℕ, ◌+◌, ◌≤◌, arith}
use flight_software.Schedule.{Timing, Load, execute, execute-lasts}

-- Just before the clock's wrap-around.
abbrev start : Timing
start = record {
  clock = 4294900000;
  control_task_end_time = 0;
  control_cycle_count = 25000;
  num_lates = λ k. 0;
}

abbrev loads : ℕ → Load
loads k = record { excess = 3; run = 700 }

execute-lasts_example : start.clock + 169900 ≤ (execute loads start).clock
execute-lasts_example = execute-lasts loads start (λ k. omega arith)
