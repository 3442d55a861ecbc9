-- ===== src/Sched/Turns.antt =====
-- The calls by which a task gives up the CPU, one after the other, and who gets it.
use morion_os.Prelude.{
  ℕ, zero, suc, ◌+◌, ◌≡◌, ◌≢◌, inl, inr, refl, sym, ap, ◌∙◌, true, Option, none, some, List, [],
  ◌∷◌, length, arith, ℕ_discrete, leb, if◌then◌else◌, Option-cases, ◌>>=◌, >>=-eq-some, some_inj,
}
use morion_os.Sched.{
  TaskState, ready, running, sleeping, blocked, terminated, Task, Scheduler, ms_to_ticks, is_ready,
  task_at, update, schedule_next,
}
use morion_os.Sched.Ops.{
  wake_due, map_tasks, wake_all_due, tick, yield_now, live_tasks, with_current, sleep,
  block_current, block_current_timeout_ms, current_domain, exit_current,
}
use morion_os.Sched.Switch.{ready_at, ready_at-inv, update_self, update-ne, length-update, IsValid}
use morion_os.Sched.Valid.{schedule_next-IsValid}

-- A timer tick, or a call of the current task.
pub data Turn : Type 0 where
  ticks yields exits : Turn
  sleeps : ℕ → Turn
  blocks : ℕ → Turn
  blocks_for : ℕ → ℕ → Turn

unfoldable pub turn : Scheduler → Turn → Option Scheduler
unfolding tick yield_now sleep block_current block_current_timeout_ms exit_current
turn s ticks = tick s
turn s yields = yield_now s
turn s exits = exit_current s >>= λ r. some r.1
turn s (sleeps ms) = sleep s ms
turn s (blocks on) = block_current s on
turn s (blocks_for on ms) = block_current_timeout_ms s on ms

-- The scheduler at the switch of a turn: as before, but for fields that have nothing to do with who
-- runs, and for tasks that are woken.
pub record Prepared (s s' : Scheduler) : Type 0 where
  pub valid : IsValid s'
  pub same : s'.current ≡ s.current
  pub keeps : (j : ℕ) → j ≢ s.current → ready_at s.tasks j ≡ true → ready_at s'.tasks j ≡ true

task_at-map_tasks :
    (f : Task → Task) (ts : List (Option Task)) (i : ℕ)
    → task_at (map_tasks f ts) i ≡ elim (task_at ts i) [ none ↦ none | some t ↦ some (f t) ]
unfolding task_at map_tasks
task_at-map_tasks f [] i = refl
task_at-map_tasks f (none ∷ ts) zero = refl
task_at-map_tasks f (some t ∷ ts) zero = refl
task_at-map_tasks f (none ∷ ts) (suc i) = task_at-map_tasks f ts i
task_at-map_tasks f (some t ∷ ts) (suc i) = task_at-map_tasks f ts i

length-map_tasks : (f : Task → Task) (ts : List (Option Task)) → length (map_tasks f ts) ≡ length ts
unfolding map_tasks
length-map_tasks f [] = refl
length-map_tasks f (none ∷ ts) = ap suc (length-map_tasks f ts)
length-map_tasks f (some t ∷ ts) = ap suc (length-map_tasks f ts)

map_tasks-inv :
    (f : Task → Task) (ts : List (Option Task)) (i : ℕ) (x : Task)
    → task_at (map_tasks f ts) i ≡ some x
    → (t : Task) × (task_at ts i ≡ some t) × (f t ≡ x)
map_tasks-inv f ts i x h = elim (Option-cases (task_at ts i)) [
  | inl e ↦ absurd (ground (arith, task_at-map_tasks f ts i))
  | inr (t, e) ↦ (t, e, ground (arith, task_at-map_tasks f ts i))
]

wake_due-running : (n : ℕ) (t : Task) → t.state ≡ running → wake_due n t ≡ t
unfolding wake_due
wake_due-running n t r = rw r refl

wake_due_ran : (n : ℕ) (t : Task) → (wake_due n t).state ≡ running → t.state ≡ running
unfolding wake_due
wake_due_ran n t r = ground arith

wake_due-is_ready :
    (n : ℕ) (t : Task) → is_ready t.state ≡ true → is_ready (wake_due n t).state ≡ true
unfolding wake_due
wake_due-is_ready n t r = ground arith

ready_at-intro :
    (ts : List (Option Task)) (i : ℕ) (t : Task)
    → task_at ts i ≡ some t
    → is_ready t.state ≡ true
    → ready_at ts i ≡ true
unfolding ready_at
ready_at-intro ts i t e r = rw (e, ready_at) r

wake_all_due-Prepared : (s : Scheduler) → IsValid s → Prepared s (wake_all_due s)
unfolding wake_all_due
wake_all_due-Prepared s v = record {
  valid = record {
    table = length-map_tasks (wake_due (s.ticks + 1)) s.tasks ∙ v.table;
    task = v.task;
    here =
        task_at-map_tasks (wake_due (s.ticks + 1)) s.tasks s.current
        ∙ rw v.here (ap some (wake_due-running (s.ticks + 1) v.task v.runs));
    runs = v.runs;
    mapped = v.mapped;
    alone = λ i x e r.
        let (t, was, woken) = map_tasks-inv (wake_due (s.ticks + 1)) s.tasks i x e in
        v.alone i t was (wake_due_ran (s.ticks + 1) t (ap (λ (y : Task). y.state) woken ∙ r));
  };
  same = refl;
  keeps = λ j _ h.
      let (t, was, r) = ready_at-inv s.tasks j h in
      let now = task_at-map_tasks (wake_due (s.ticks + 1)) s.tasks j ∙ rw was refl in
      ready_at-intro _ j (wake_due (s.ticks + 1) t) now (wake_due-is_ready (s.ticks + 1) t r);
}

-- A write that leaves the state and the page table alone.
record IsAside (f : Task → Task) : Type 0 where
  state_kept : (t : Task) → (f t).state ≡ t.state
  cr3_kept : (t : Task) → (f t).cr3 ≡ t.cr3

aside : (f : Task → Task) → Scheduler → Scheduler
aside f s = record s { tasks = update f s.tasks s.current }

with_current-aside :
    (f : Task → Task) (s : Scheduler) → IsValid s → with_current f s ≡ some (aside f s)
unfolding with_current aside
with_current-aside f s v = rw (v.here, with_current) refl

aside-Prepared : (f : Task → Task) (s : Scheduler) → IsAside f → IsValid s → Prepared s (aside f s)
unfolding aside
aside-Prepared f s k v = record {
  valid = record {
    table = length-update f s.tasks s.current ∙ v.table;
    task = f v.task;
    here = update_self f s.tasks s.current v.task v.here;
    runs = k.state_kept v.task ∙ v.runs;
    mapped = k.cr3_kept v.task ∙ v.mapped;
    alone = λ i x e r. elim (ℕ_discrete s.current i) [
      | yes p ↦ sym p
      | no n ↦ v.alone i x (sym (update-ne f s.tasks s.current i n) ∙ e) r
    ];
  };
  same = refl;
  keeps = λ j n h.
      let (t, was, r) = ready_at-inv s.tasks j h in
      ready_at-intro _ j t (update-ne f s.tasks s.current j (λ e. n (sym e)) ∙ was) r;
}

refl-Prepared : (s : Scheduler) → IsValid s → Prepared s s
refl-Prepared s v = record { valid = v; same = refl; keeps = λ j _ h. h }

second :
    (m : Option Scheduler) (o : Option ℕ)
    → ◌>>=◌ {A = Option ℕ × Scheduler} (m >>= λ s'. some (o, s')) (λ r. some r.1) ≡ m
second none o = refl
second (some s) o = refl

current_domain-valid : (s : Scheduler) (v : IsValid s) → current_domain s ≡ some v.task.domain
unfolding current_domain
current_domain-valid s v = rw (v.here, current_domain) refl

turn_exits : (s : Scheduler) → IsValid s → turn s exits ≡ schedule_next s terminated
unfolding turn exit_current
turn_exits s v = rw (current_domain-valid s v) (
    second (schedule_next s terminated)
      (if leb (live_tasks s v.task.domain) 1 then some v.task.domain else none))

-- A turn is some preparation and a switch away from a task that does not go on running.
pub record Turned (s : Scheduler) (o : Turn) : Type 0 where
  pub middle : Scheduler
  pub left_as : TaskState
  pub prepared : Prepared s middle
  pub stops : left_as ≢ running
  pub switches : turn s o ≡ schedule_next middle left_as

pub turn-Turned : (s : Scheduler) (o : Turn) → IsValid s → Turned s o
unfolding turn tick yield_now sleep block_current block_current_timeout_ms exit_current
    current_domain
turn-Turned s ticks v = record {
  middle = wake_all_due s;
  left_as = ready;
  prepared = wake_all_due-Prepared s v;
  stops = λ e. cc;
  switches = refl;
}
turn-Turned s yields v = record {
  middle = s;
  left_as = ready;
  prepared = refl-Prepared s v;
  stops = λ e. cc;
  switches = refl;
}
turn-Turned s exits v = record {
  middle = s;
  left_as = terminated;
  prepared = refl-Prepared s v;
  stops = λ e. cc;
  switches = turn_exits s v;
}
turn-Turned s (sleeps ms) v = record {
  middle = aside (λ t. record t { sleep_until = s.ticks + ms_to_ticks ms }) s;
  left_as = sleeping;
  prepared = aside-Prepared _ s (record { state_kept = λ t. refl; cr3_kept = λ t. refl }) v;
  stops = λ e. cc;
  switches =
      rw (with_current-aside (λ t. record t { sleep_until = s.ticks + ms_to_ticks ms }) s v) refl;
}
turn-Turned s (blocks on) v = record {
  middle = aside (λ t. record t { wait_on = on; wake_deadline = 0 }) s;
  left_as = blocked;
  prepared = aside-Prepared _ s (record { state_kept = λ t. refl; cr3_kept = λ t. refl }) v;
  stops = λ e. cc;
  switches = rw (with_current-aside (λ t. record t { wait_on = on; wake_deadline = 0 }) s v) refl;
}
turn-Turned s (blocks_for on ms) v = record {
  middle = aside (λ t. record t { wait_on = on; wake_deadline = s.ticks + ms_to_ticks ms }) s;
  left_as = blocked;
  prepared = aside-Prepared _ s (record { state_kept = λ t. refl; cr3_kept = λ t. refl }) v;
  stops = λ e. cc;
  switches =
      rw
        (with_current-aside
          (λ t. record t { wait_on = on; wake_deadline = s.ticks + ms_to_ticks ms }) s v)
        refl;
}

-- Every turn keeps one task running in its own address space.
pub turn-IsValid : (s u : Scheduler) (o : Turn) → IsValid s → turn s o ≡ some u → IsValid u
turn-IsValid s u o v h =
    let c = turn-Turned s o v in
    schedule_next-IsValid c.middle c.prepared.valid c.left_as c.stops u (sym c.switches ∙ h)

unfoldable pub turns : Scheduler → List Turn → Option Scheduler
unfolding turn
turns s [] = some s
turns s (o ∷ os) = let rest = λ (u : Scheduler). turns u os in turn s o >>= rest

-- However often tasks are preempted, yield, sleep, block and exit, as long as the kernel does not panic
-- for want of a runnable task there is exactly one running task, the one in the slot `current`, and
-- the page table that is loaded is that task's.
pub turns-IsValid : (s u : Scheduler) (os : List Turn) → IsValid s → turns s os ≡ some u → IsValid u
unfolding turns
turns-IsValid s u [] v h = rw (← some_inj h) v
turns-IsValid s u (o ∷ os) v h =
    let (w, first, rest) = >>=-eq-some (turn s o) _ u h in
    turns-IsValid w u os (turn-IsValid s w o v first) rest
