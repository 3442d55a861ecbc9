-- ===== src/Sched.antt =====
-- The scheduler: kernel/src/scheduler/mod.rs. The saved registers, the stacks and the switch itself
-- (scheduler/context.rs) are left out; the CPU's page-table root is kept as `loaded_cr3`, since the
-- switch loads it. Each function runs with interrupts off, so it is one step; a panic is `none`.
pub mod Ops
pub mod Switch
pub mod Valid
pub mod Fair
pub mod Wake
pub mod Spawn
mod Tests
pub mod Turns
use morion_os.Prelude.{
  ℕ, zero, suc, ◌+◌, ◌-◌, ◌*◌, ◌/◌, ◌%◌, ◌^◌, ◌≤◌, ◌<◌, ◌≡◌, ◌≢◌, ◌↔◌, ◌⊎◌, inl, inr, refl, sym, ap,
  ◌∙◌, Bool, true, false, not, ◌&&◌, ◌||◌, Option, none, some, List, [], ◌∷◌, ◌++◌, map, length,
  get_elem?, get_or, set, take, drop, replicate, length-append, length-set, get_elem?-set_self,
  get_elem?-set_ne, get_or-set_self, get_or-set_ne, get_elem?_lt, set-set, set_same, get_elem?-none,
  get_elem?-eq-get_or, length-replicate, length-take, drop_all, take_nil, get_or-append_left,
  get_or-append_end, drop-split, set_padded, set_padded_self, set_padded_other, set_padded_ne,
  length-set_padded, arith, ite, if_pos, if_neg, dec_lt, dec_le, ℕ_discrete, ltb, leb, ◌==◌,
  if◌then◌else◌, ltb→lt, lt→ltb, leb→le, le→leb, ==_iff, ==_self, ==_ne, Bool-cases, Option-cases,
  ◌>>=◌, >>=-eq-some, some_inj, u64_max, bit_or-disjoint, min, max,
}

-- `TaskState`
pub data TaskState : Type 0 where
  ready running sleeping blocked terminated : TaskState

-- `Task`, without `ctx`, `kernel_stack_top` and `_stack`.
pub record Task : Type 0 where
  pub id : ℕ
  pub state : TaskState
  pub cr3 : ℕ
  pub domain : ℕ
  pub user_entry : ℕ
  pub user_stack : ℕ
  pub sleep_until : ℕ
  pub wait_on : ℕ
  pub wake_deadline : ℕ
  pub reply_target : ℕ

-- `Scheduler`, with the CR3 of the CPU.
pub record Scheduler : Type 0 where
  pub tasks : List (Option Task)
  pub current : ℕ
  pub ticks : ℕ
  pub loaded_cr3 : ℕ

-- `MAX_TASKS`
abbrev pub max_tasks : ℕ
max_tasks = 32

-- `KEY_WAIT`
abbrev pub key_wait : ℕ
key_wait = u64_max - 1

-- `IRQ_WAIT_MARK`
abbrev pub irq_wait_mark : ℕ
irq_wait_mark = u64_max - 0x300

-- `irq_wait_token`
abbrev pub irq_wait_token : ℕ → ℕ
irq_wait_token domain = irq_wait_mark - domain

-- `arch::pit::TARGET_FREQ`
abbrev pub target_freq : ℕ
target_freq = 1000

-- `ms_to_ticks`: a product that saturates, a quotient that is rounded up, and at least 1.
unfoldable pub ms_to_ticks : ℕ → ℕ
ms_to_ticks ms = max ((min (ms * target_freq) u64_max + 999) / 1000) 1

abbrev pub is_ready : TaskState → Bool
is_ready ready = true
is_ready _ = false

abbrev pub is_blocked : TaskState → Bool
is_blocked blocked = true
is_blocked _ = false

abbrev pub is_sleeping : TaskState → Bool
is_sleeping sleeping = true
is_sleeping _ = false

abbrev pub is_terminated : TaskState → Bool
is_terminated terminated = true
is_terminated _ = false

-- The task in a slot of the table; no task where the slot is empty or there is none.
unfoldable pub task_at : List (Option Task) → ℕ → Option Task
task_at tasks i = elim (get_elem? tasks i) [ none ↦ none | some o ↦ o ]

-- `Scheduler::new`
unfoldable pub new : Scheduler
new = record { tasks = replicate max_tasks none; current = 0; ticks = 0; loaded_cr3 = 0 }

-- The first empty slot: `tasks.iter().position(|t| t.is_none())`.
unfoldable pub free_slot : List (Option Task) → Option ℕ
free_slot [] = none
free_slot (none ∷ ts) = some 0
free_slot (some t ∷ ts) = elim (free_slot ts) [ none ↦ none | some i ↦ some (suc i) ]

-- The `Task` that `spawn_inner` makes; the page-table root is what `domain::pml4_of` gives.
abbrev pub new_task : ℕ → ℕ → ℕ → ℕ → ℕ → Task
new_task slot domain pml4 user_entry user_stack = record {
  id = slot;
  state = ready;
  cr3 = pml4;
  domain = domain;
  user_entry = user_entry;
  user_stack = user_stack;
  sleep_until = 0;
  wait_on = 0;
  wake_deadline = 0;
  reply_target = u64_max;
}

-- `spawn_inner`, with the slot, which is the id of the task.
unfoldable pub spawn_inner : Scheduler → ℕ → ℕ → ℕ → ℕ → Option (ℕ × Scheduler)
unfolding free_slot
spawn_inner s domain pml4 user_entry user_stack = elim (free_slot s.tasks) [
  | none ↦ none
  | some slot ↦ some (
    slot,
    record s { tasks = set s.tasks slot (some (new_task slot domain pml4 user_entry user_stack)) },
  )
]

-- The loop of `next_ready`, with the rounds that are left.
unfoldable pub next_ready_from : List (Option Task) → ℕ → ℕ → ℕ → Option ℕ
unfolding task_at
next_ready_from tasks after i zero = none
next_ready_from tasks after i (suc n) =
    let rest = next_ready_from tasks after (i + 1) n in
    elim (task_at tasks ((after + i) % max_tasks)) [
      | none ↦ rest
      | some t ↦ if is_ready t.state then some ((after + i) % max_tasks) else rest
    ]

-- `next_ready`
unfoldable pub next_ready : List (Option Task) → ℕ → Option ℕ
unfolding next_ready_from
next_ready tasks after = next_ready_from tasks after 1 max_tasks

-- A write to the fields of the task in a slot, if there is one.
unfoldable pub update : (Task → Task) → List (Option Task) → ℕ → List (Option Task)
unfolding task_at
update f tasks i = elim (task_at tasks i) [ none ↦ tasks | some t ↦ set tasks i (some (f t)) ]

abbrev pub with_state : TaskState → Task → Task
with_state state t = record t { state = state }

-- The end of `schedule_next`: the chosen task's page table is loaded if it is another, and the task
-- runs.
unfoldable pub switch_to : Scheduler → Task → ℕ → Option Scheduler
unfolding task_at update
switch_to s old next = elim (task_at s.tasks next) [
  | none ↦ none
  | some t ↦ some (record s {
    tasks = update (with_state running) s.tasks next;
    current = next;
    loaded_cr3 = if old.cr3 == t.cr3 then s.loaded_cr3 else t.cr3;
  })
]

-- `schedule_next`; it panics with no runnable task and with no current one.
unfoldable pub schedule_next : Scheduler → TaskState → Option Scheduler
unfolding task_at update next_ready switch_to
schedule_next s state = do
  let tasks = update (with_state state) s.tasks s.current
  next ← next_ready tasks s.current
  old ← task_at tasks s.current
  switch_to (record s { tasks = tasks }) old next
