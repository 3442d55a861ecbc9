-- ===== src/Sched/Ops.antt =====
-- The calls on the scheduler: the rest of kernel/src/scheduler/mod.rs. `tick` begins with
-- `domain::reclaim_pending`, which is in Kernel; here is what follows.
use morion_os.Prelude.{
  ℕ, ◌+◌, ◌-◌, Bool, not, ◌&&◌, Option, none, some, List, [], ◌∷◌, leb, ◌==◌, if◌then◌else◌, ◌>>=◌,
}
use morion_os.Sched.{
  ready, running, sleeping, blocked, terminated, Task, Scheduler, max_tasks, ms_to_ticks,
  is_blocked, is_sleeping, is_terminated, task_at, next_ready, update, with_state, schedule_next,
}

-- What `tick` does to one task at the new tick count.
unfoldable pub wake_due : ℕ → Task → Task
wake_due ticks t =
    if is_sleeping t.state && leb t.sleep_until ticks
    then with_state ready t
    else if is_blocked t.state && (not (t.wake_deadline == 0) && leb t.wake_deadline ticks)
    then record t { state = ready; wake_deadline = 0 }
    else t

-- `for task in sched.tasks.iter_mut().flatten()`
unfoldable pub map_tasks : (Task → Task) → List (Option Task) → List (Option Task)
map_tasks f [] = []
map_tasks f (none ∷ ts) = none ∷ map_tasks f ts
map_tasks f (some t ∷ ts) = some (f t) ∷ map_tasks f ts

unfoldable pub wake_all_due : Scheduler → Scheduler
unfolding map_tasks wake_due
wake_all_due s = record s {
  ticks = s.ticks + 1;
  tasks = map_tasks (wake_due (s.ticks + 1)) s.tasks;
}

-- `tick`
unfoldable pub tick : Scheduler → Option Scheduler
unfolding wake_all_due schedule_next
tick s = schedule_next (wake_all_due s) ready

-- `yield_now`
unfoldable pub yield_now : Scheduler → Option Scheduler
unfolding schedule_next
yield_now s = schedule_next s ready

-- The write to the current task that several calls begin with; without one they panic.
unfoldable pub with_current : (Task → Task) → Scheduler → Option Scheduler
unfolding task_at update
with_current f s = elim (task_at s.tasks s.current) [
  | none ↦ none
  | some t ↦ some (record s { tasks = update f s.tasks s.current })
]

-- `sleep`
unfoldable pub sleep : Scheduler → ℕ → Option Scheduler
unfolding with_current schedule_next
sleep s ms = do
  s' ← with_current (λ t. record t { sleep_until = s.ticks + ms_to_ticks ms }) s
  schedule_next s' sleeping

-- `block_current`
unfoldable pub block_current : Scheduler → ℕ → Option Scheduler
unfolding with_current schedule_next
block_current s on = do
  s' ← with_current (λ t. record t { wait_on = on; wake_deadline = 0 }) s
  schedule_next s' blocked

-- `block_current_timeout_ms`
unfoldable pub block_current_timeout_ms : Scheduler → ℕ → ℕ → Option Scheduler
unfolding with_current schedule_next
block_current_timeout_ms s on ms = do
  s' ← with_current (λ t. record t { wait_on = on; wake_deadline = s.ticks + ms_to_ticks ms }) s
  schedule_next s' blocked

-- `current_domain`
unfoldable pub current_domain : Scheduler → Option ℕ
unfolding task_at
current_domain s = task_at s.tasks s.current >>= λ t. some t.domain

-- `current_reply_target`
unfoldable pub current_reply_target : Scheduler → Option ℕ
unfolding task_at
current_reply_target s = task_at s.tasks s.current >>= λ t. some t.reply_target

-- `set_current_reply_target`
unfoldable pub set_current_reply_target : Scheduler → ℕ → Option Scheduler
unfolding with_current
set_current_reply_target s target = with_current (λ t. record t { reply_target = target }) s

abbrev pub waits_on : ℕ → Task → Bool
waits_on key t = is_blocked t.state && (t.wait_on == key)

abbrev pub woken : Task → Task
woken t = record t { state = ready; wake_deadline = 0 }

-- The loop of `wake_one`.
unfoldable pub wake_first : ℕ → List (Option Task) → List (Option Task)
wake_first key [] = []
wake_first key (none ∷ ts) = none ∷ wake_first key ts
wake_first key (some t ∷ ts) =
    if waits_on key t then some (woken t) ∷ ts else some t ∷ wake_first key ts

-- `wake_one`
unfoldable pub wake_one : Scheduler → ℕ → Scheduler
unfolding wake_first
wake_one s key = record s { tasks = wake_first key s.tasks }

abbrev pub wake_waiter : ℕ → Task → Task
wake_waiter key t = if waits_on key t then woken t else t

-- The first loop of `remove_domain`, and the loop of `reap_terminated`.
unfoldable pub drop_tasks : (Task → Bool) → List (Option Task) → List (Option Task)
drop_tasks p [] = []
drop_tasks p (none ∷ ts) = none ∷ drop_tasks p ts
drop_tasks p (some t ∷ ts) = (if p t then none else some t) ∷ drop_tasks p ts

unfoldable pub count_tasks : (Task → Bool) → List (Option Task) → ℕ
count_tasks p [] = 0
count_tasks p (none ∷ ts) = count_tasks p ts
count_tasks p (some t ∷ ts) = (if p t then 1 else 0) + count_tasks p ts

-- `remove_domain`
unfoldable pub remove_domain : Scheduler → ℕ → Scheduler
unfolding drop_tasks map_tasks
remove_domain s domain = record s {
  tasks = map_tasks (wake_waiter domain) (drop_tasks (λ t. t.domain == domain) s.tasks);
}

abbrev pub is_live_in : ℕ → Task → Bool
is_live_in domain t = (t.domain == domain) && not (is_terminated t.state)

-- `live_tasks`
unfoldable pub live_tasks : Scheduler → ℕ → ℕ
unfolding count_tasks
live_tasks s domain = count_tasks (is_live_in domain) s.tasks

abbrev pub is_dead_in : ℕ → Task → Bool
is_dead_in domain t = (t.domain == domain) && is_terminated t.state

-- `reap_terminated`, with how many it removed.
unfoldable pub reap_terminated : Scheduler → ℕ → Scheduler × ℕ
unfolding drop_tasks count_tasks
reap_terminated s domain = (
  record s { tasks = drop_tasks (is_dead_in domain) s.tasks },
  count_tasks (is_dead_in domain) s.tasks,
)

-- `run`: the first ready task from slot 0 on; its page table is always loaded.
unfoldable pub run : Scheduler → Option Scheduler
unfolding next_ready task_at update
run s = do
  first ← next_ready s.tasks (max_tasks - 1)
  t ← task_at s.tasks first
  some (record s {
    tasks = update (with_state running) s.tasks first;
    current = first;
    loaded_cr3 = t.cr3;
  })

-- `exit_current`: the domain that is to be reclaimed, if this was its last task, and the switch.
unfoldable pub exit_current : Scheduler → Option (Option ℕ × Scheduler)
unfolding current_domain live_tasks schedule_next
exit_current s = do
  domain ← current_domain s
  s' ← schedule_next s terminated
  some (if leb (live_tasks s domain) 1 then some domain else none, s')
