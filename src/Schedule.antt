-- ===== src/Schedule.antt =====
-- When the tasks of a control cycle run: src/fsw/FCCode/TimedControlTask.hpp, ClockManager.cpp and
-- MainControlLoop.cpp. The clock counts the microseconds from power-up; `micros()` is its low 32
-- bits. How long a task runs, and by how much a wait is longer than asked for, are arguments.
use flight_software.Base.{
  ℕ, suc, ◌+◌, ◌*◌, ◌%◌, ◌≤◌, ◌≡◌, sym, ap, subst, ◌∙◌, true, ltb, ◌==◌, if◌then◌else◌, ◌⊎◌, inl,
  inr, sub32, u32, List, [], ◌∷◌, length, arith,
}

pub record Timing : Type 0 where
  pub clock : ℕ
  pub control_task_end_time : ℕ
  pub control_cycle_count : ℕ
  -- Of the task with this place in the cycle.
  pub num_lates : ℕ → ℕ

-- What a task takes: the excess of its wait and its run, in microseconds.
pub record Load : Type 0 where
  pub excess : ℕ
  pub run : ℕ

-- get_system_time.
unfoldable pub micros : ℕ → ℕ
micros clock = u32 clock

-- The wait: a difference that is negative as a `signed int` is none.
unfoldable pub wait_time : ℕ → ℕ → ℕ
unfolding micros
wait_time time clock =
    if ltb 2147483647 (sub32 time (micros clock)) then 0 else sub32 time (micros clock)

unfoldable pub wait_until_time : ℕ → ℕ → Timing → Timing
unfolding wait_time micros
wait_until_time i excess t = record t {
  clock = t.clock + wait_time t.control_task_end_time t.clock + excess;
  num_lates =
      if ltb 2147483647 (sub32 t.control_task_end_time (micros t.clock))
      then (λ k. if k == i then u32 (t.num_lates i + 1) else t.num_lates k)
      else t.num_lates;
}

unfoldable pub execute_on_time : ℕ → ℕ → Load → Timing → Timing
unfolding wait_until_time
execute_on_time i duration_us load t =
    let t' = wait_until_time i load.excess t in
    record t' {
      control_task_end_time = u32 (t'.control_task_end_time + duration_us);
      clock = t'.clock + load.run;
    }

-- ClockManager::execute.
unfoldable pub clock_execute : Timing → Timing
unfolding micros
clock_execute t = record t {
  control_task_end_time = u32 (micros t.clock + 1100);
  control_cycle_count = u32 (t.control_cycle_count + 1);
}

-- The tasks' durations in their order, from the GPS receiver to the docking motor, and the EEPROM's.
abbrev pub durations : List ℕ
durations =
    6400 ∷ 15000 ∷ 28000 ∷ 16400 ∷ 10000 ∷ 5000 ∷ 1000 ∷ 1000 ∷ 1000 ∷ 1000 ∷ 10000 ∷ 5000 ∷ 28000
    ∷ 1000 ∷ 30000 ∷ 10000 ∷ []

abbrev pub eeprom_duration : ℕ
eeprom_duration = 16600

-- The tasks from the `i`-th on.
unfoldable pub run_tasks : (ℕ → Load) → ℕ → List ℕ → Timing → Timing
unfolding execute_on_time
run_tasks loads i [] t = t
run_tasks loads i (duration ∷ rest) t =
    run_tasks loads (suc i) rest (execute_on_time i duration (loads i) t)

-- MainControlLoop::execute.
unfoldable pub execute : (ℕ → Load) → Timing → Timing
execute loads t =
    execute_on_time 16 eeprom_duration (loads 16) (run_tasks loads 0 durations (clock_execute t))

-- The end of the current task's time on the clock itself, at most a second ahead and `late` behind.
record IsDue (late slot : ℕ) (t : Timing) : Type 0 where
  end_time : t.control_task_end_time ≡ slot % 4294967296
  ahead : slot ≤ t.clock + 1000000
  behind : t.clock ≤ slot + late

wait_time-bounds :
    (slot clock : ℕ)
    → slot ≤ clock + 1000000
    → clock ≤ slot + 1000000000
    → (slot ≤ clock + wait_time (slot % 4294967296) clock)
      × ((clock + wait_time (slot % 4294967296) clock ≤ clock)
          ⊎ (clock + wait_time (slot % 4294967296) clock ≤ slot))
unfolding wait_time micros
wait_time-bounds slot clock ahead behind = ground (arith, ahead, behind)

execute_on_time-IsDue :
    (i duration late slot : ℕ) (load : Load) (t : Timing)
    → duration ≤ 1000000
    → late ≤ 900000000
    → load.excess + load.run ≤ 1000000
    → IsDue late slot t
    → IsDue (late + 1000000) (slot + duration) (execute_on_time i duration load t)
      × (slot ≤ (execute_on_time i duration load t).clock)
unfolding execute_on_time wait_until_time
execute_on_time-IsDue i duration late slot load t short small light due = (
  record {
    end_time = ap (λ e. (e + duration) % 4294967296) due.end_time ∙ omega arith;
    ahead = omega (arith, waits.0, short);
    behind = elim waits.1 [
      | inl no_wait ↦ omega (arith, no_wait, due.behind, light)
      | inr wait ↦ omega (arith, wait, light)
    ];
  },
  omega (arith, waits.0),
)
  where
    clock : ℕ
    clock = t.clock + wait_time t.control_task_end_time t.clock

    waits : (slot ≤ clock) × ((clock ≤ t.clock) ⊎ (clock ≤ slot))
    waits =
        subst
          (λ e.
            (slot ≤ t.clock + wait_time e t.clock)
            × ((t.clock + wait_time e t.clock ≤ t.clock) ⊎ (t.clock + wait_time e t.clock ≤ slot)))
          (sym due.end_time)
          (wait_time-bounds slot t.clock due.ahead (omega (arith, due.behind, small)))

abbrev sum : List ℕ → ℕ
sum [] = 0
sum (x ∷ xs) = x + sum xs

abbrev AreShort : List ℕ → Type 0
AreShort [] = true ≡ true
AreShort (d ∷ ds) = (d ≤ 1000000) × AreShort ds

run_tasks-IsDue :
    (loads : ℕ → Load) (i slot : ℕ) (ds : List ℕ) (t : Timing)
    → AreShort ds
    → ((k : ℕ) → (loads k).excess + (loads k).run ≤ 1000000)
    → i + length ds ≤ 800
    → IsDue (i * 1000000) slot t
    → IsDue ((i + length ds) * 1000000) (slot + sum ds) (run_tasks loads i ds t)
unfolding run_tasks
run_tasks-IsDue loads i slot [] t short light few due =
    subst (λ n. IsDue (n * 1000000) (slot + 0) t) (omega arith)
      (subst (λ n. IsDue (i * 1000000) n t) (omega arith) due)
run_tasks-IsDue loads i slot (d ∷ ds) t short light few due =
    subst (λ n. IsDue (n * 1000000) (slot + (d + sum ds)) (run_tasks loads i (d ∷ ds) t))
      (omega arith)
      (subst (λ n. IsDue ((suc i + length ds) * 1000000) n (run_tasks loads i (d ∷ ds) t))
        (omega arith)
        (run_tasks-IsDue loads (suc i) (slot + d) ds (execute_on_time i d (loads i) t) short.1 light
          (omega (arith, few))
          (subst (λ n. IsDue n (slot + d) (execute_on_time i d (loads i) t)) (omega arith)
            (execute_on_time-IsDue i d (i * 1000000) slot (loads i) t short.0 (omega (arith, few))
              (light i) due).0)))

-- The task after the tasks `ds` does not start before their time is over.
last_starts :
    (loads : ℕ → Load) (duration i slot : ℕ) (ds : List ℕ) (t : Timing)
    → duration ≤ 1000000
    → AreShort ds
    → ((k : ℕ) → (loads k).excess + (loads k).run ≤ 1000000)
    → length ds ≤ 800
    → IsDue 0 slot t
    → slot + sum ds ≤ (execute_on_time i duration (loads i) (run_tasks loads 0 ds t)).clock
last_starts loads duration i slot ds t d short light few due =
    (execute_on_time-IsDue i duration ((0 + length ds) * 1000000) (slot + sum ds) (loads i)
      (run_tasks loads 0 ds t) d (omega (arith, few)) (light i)
      (run_tasks-IsDue loads 0 slot ds t short light (omega (arith, few)) due)).1

clock_execute-IsDue : (t : Timing) → IsDue 0 (t.clock + 1100) (clock_execute t)
unfolding clock_execute micros
clock_execute-IsDue t = record { end_time = omega arith; ahead = omega arith; behind = omega arith }

durations-AreShort : AreShort durations
durations-AreShort = ground arith

-- A control cycle takes at least 169.9 ms, also across the wrap-around of the 32-bit clock, if no
-- task with the excess of its wait takes more than a second: its last task does not start earlier.
pub execute-lasts :
    (loads : ℕ → Load) (t : Timing)
    → ((k : ℕ) → (loads k).excess + (loads k).run ≤ 1000000)
    → t.clock + 169900 ≤ (execute loads t).clock
unfolding execute
execute-lasts loads t light =
    subst (λ n. n ≤ (execute loads t).clock) (omega arith)
      (last_starts loads eeprom_duration 16 (t.clock + 1100) durations (clock_execute t)
        (omega arith) durations-AreShort light (omega arith) (clock_execute-IsDue t))
