-- ===== src/Sched/Valid.antt =====
-- Every switch of kernel/src/scheduler/mod.rs leaves one task running in its own address space.
use morion_os.Prelude.{
  ℕ, ◌<◌, ◌≡◌, ◌≢◌, refl, sym, ap, ◌∙◌, some, arith, ℕ_discrete, ◌==◌, if◌then◌else◌, some_inj,
}
use morion_os.Sched.{
  TaskState, running, Task, Scheduler, max_tasks, task_at, next_ready, with_state, schedule_next,
}
use morion_os.Sched.Switch.{
  slot, FirstFrom, next_ready_from-some, update_self, update-ne, length-update, IsValid, leaving,
  entering, schedule_next-inv,
}

-- The task that is switched to is the first ready one at a distance of 1 to 32.
abbrev pub Picks : Scheduler → TaskState → Scheduler → Type 0
Picks s st u =
    (k : ℕ) × (k < 33) × (u.current ≡ slot s.current k) × FirstFrom (leaving s st) s.current 1 k

module _ (s : Scheduler) (v : IsValid s) (st : TaskState) (stops : st ≢ running) where
  left_here : task_at (leaving s st) s.current ≡ some (with_state st v.task)
  left_here = update_self (with_state st) s.tasks s.current v.task v.here

  -- After the current task has stopped none runs.
  nobody_runs : (i : ℕ) (t : Task) → task_at (leaving s st) i ≡ some t → t.state ≢ running
  nobody_runs i t e r = elim (ℕ_discrete s.current i) [
    | yes p ↦
        let same : with_state st v.task ≡ t = some_inj (sym left_here ∙ (rw (← p) at e)) in
        stops (ap (λ (x : Task). x.state) same ∙ r)
    | no n ↦ n (sym (v.alone i t (sym (update-ne (with_state st) s.tasks s.current i n) ∙ e) r))
  ]

  entering-IsValid :
      (old t : Task) (next : ℕ)
      → task_at (leaving s st) s.current ≡ some old
      → task_at (leaving s st) next ≡ some t
      → IsValid (entering s st old t next)
  entering-IsValid old t next was found = record {
    table =
        length-update (with_state running) (leaving s st) next
        ∙ length-update (with_state st) s.tasks s.current
        ∙ v.table;
    task = with_state running t;
    here = update_self (with_state running) (leaving s st) next t found;
    runs = refl;
    mapped = root;
    alone = λ i x e r. elim (ℕ_discrete next i) [
      | yes p ↦ sym p
      | no n ↦
          absurd
            (nobody_runs i x (sym (update-ne (with_state running) (leaving s st) next i n) ∙ e) r)
    ];
  }
    where
      same : with_state st v.task ≡ old
      same = some_inj (sym left_here ∙ was)

      root : t.cr3 ≡ (if old.cr3 == t.cr3 then s.loaded_cr3 else t.cr3)
      root = ground (arith, v.mapped, ap (λ (x : Task). x.cr3) same)

  -- A switch away from a task that stops running, to whatever other state, leaves exactly one running
  -- task, in the slot `current`, with its page table loaded.
  pub schedule_next-IsValid : (u : Scheduler) → schedule_next s st ≡ some u → IsValid u
  schedule_next-IsValid u h =
      let (next, old, t, _, was, found, e) = schedule_next-inv s u st h in
      rw (← e) (entering-IsValid old t next was found)

  -- The next task is the first ready one behind the current slot, round the table; the task that
  -- gives up the CPU comes last itself.
  pub schedule_next-Picks : (u : Scheduler) → schedule_next s st ≡ some u → Picks s st u
  unfolding next_ready
  schedule_next-Picks u h =
      let (next, old, t, picked, _, _, e) = schedule_next-inv s u st h in
      let (k, lt, at, first) =
        next_ready_from-some (leaving s st) s.current max_tasks 1 next picked in
      (k, omega arith, ap (λ (x : Scheduler). x.current) (sym e) ∙ at, first)
