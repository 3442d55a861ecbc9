-- ===== src/Sched/Tests.antt =====
-- Runs of the scheduler, and its theorems at concrete inputs.
use morion_os.Prelude.{ℕ, zero, suc, ◌≡◌, refl, true, none, some, [], ◌∷◌, replicate, arith}
use morion_os.Sched.{ready, running, Task, Scheduler, ms_to_ticks, task_at, schedule_next, new_task}
use morion_os.Sched.Ops.{wake_all_due}
use morion_os.Sched.Switch.{ready_at, IsValid}
use morion_os.Sched.Valid.{schedule_next-IsValid}
use morion_os.Sched.Turns.{ticks, yields, turns, turns-IsValid}
use morion_os.Sched.Fair.{gets_cpu, gets_cpu_in_time}
use morion_os.Sched.Wake.{ms_to_ticks_lem}

abbrev runner : Task
runner = record (new_task 0 0 0x4000 0 0) { state = running }

abbrev waiter : Task
waiter = new_task 1 5 0x5000 0 0

-- The task of domain 0 runs, that of domain 5 is ready.
abbrev two : Scheduler
two = record {
  tasks = some runner ∷ some waiter ∷ replicate 30 none;
  current = 0;
  ticks = 7;
  loaded_cr3 = 0x4000;
}

task_at-replicate : (n i : ℕ) → task_at (replicate n none) i ≡ none
unfolding task_at
task_at-replicate zero i = refl
task_at-replicate (suc n) zero = refl
task_at-replicate (suc n) (suc i) = task_at-replicate n i

two_alone : (i : ℕ) (t : Task) → task_at two.tasks i ≡ some t → t.state ≡ running → i ≡ 0
unfolding task_at
two_alone zero t e r = refl
two_alone (suc zero) t e r = absurd (cc)
two_alone (suc (suc i)) t e r = absurd (cc (task_at-replicate 30 i, e))

two-IsValid : IsValid two
unfolding task_at
two-IsValid = record {
  table = refl;
  task = runner;
  here = refl;
  runs = refl;
  mapped = refl;
  alone = two_alone;
}

-- Domain 5 is switched to, and its page table with it.
abbrev switched : Scheduler
switched = record {
  tasks =
      some (record runner { state = ready })
      ∷ some (record waiter { state = running })
      ∷ replicate 30 none;
  current = 1;
  ticks = 7;
  loaded_cr3 = 0x5000;
}

two_yields : schedule_next two ready ≡ some switched
unfolding schedule_next
two_yields = refl

schedule_next-IsValid_example : IsValid switched
schedule_next-IsValid_example =
    schedule_next-IsValid two two-IsValid ready (λ e. cc) switched two_yields

one_yield_run : turns two (yields ∷ []) ≡ some switched
unfolding turns
one_yield_run = refl

turns-IsValid_example : IsValid switched
turns-IsValid_example = turns-IsValid two switched (yields ∷ []) two-IsValid one_yield_run

two_ready : ready_at two.tasks 1 ≡ true
unfolding ready_at task_at
two_ready = refl

gets_cpu_in_time_example : gets_cpu two (replicate 31 ticks) 1 ≡ true
gets_cpu_in_time_example =
    gets_cpu_in_time two (replicate 31 ticks) 1 two-IsValid two_ready (omega arith)

ms_to_ticks_lem_example : ms_to_ticks 250 ≡ 250
ms_to_ticks_lem_example = ms_to_ticks_lem 250 (omega arith)

woken_two : task_at (wake_all_due two).tasks 1 ≡ some waiter
unfolding wake_all_due task_at
woken_two = refl
