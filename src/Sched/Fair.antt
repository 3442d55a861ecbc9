-- ===== src/Sched/Fair.antt =====
-- No ready task starves: it gets the CPU within 31 turns.
use morion_os.Prelude.{
  ℕ, ◌+◌, ◌-◌, ◌%◌, ◌≤◌, ◌<◌, ◌≡◌, ◌≢◌, ◌⊎◌, inl, inr, refl, sym, ap, ◌∙◌, Bool, true, false, ◌||◌,
  Option, none, some, List, [], ◌∷◌, length, arith, dec_lt, ℕ_discrete, ◌==◌, Option-cases,
}
use morion_os.Sched.{
  TaskState, running, Task, Scheduler, max_tasks, task_at, next_ready, update, with_state,
  schedule_next,
}
use morion_os.Sched.Switch.{
  ready_at, ready_at-inv, schedule_next-eq, slot, FirstFrom, next_ready_from-some,
  next_ready_from_total, task_at_lt, update_self, update-ne, IsValid, leaving, entering,
  schedule_next-inv,
}
use morion_os.Sched.Valid.{schedule_next-Picks}
use morion_os.Sched.Turns.{Turn, turn, turn-Turned, turn-IsValid}

-- Does the task in slot `j` get the CPU during these turns?
unfoldable pub gets_cpu : Scheduler → List Turn → ℕ → Bool
unfolding turn
gets_cpu s [] j = s.current == j
gets_cpu s (o ∷ os) j =
    let rest = λ (u : Scheduler). gets_cpu u os j in
    s.current == j || (elim (turn s o) [ none ↦ false | some u ↦ rest u ])

-- How far a slot is behind the current one.
abbrev distance : ℕ → ℕ → ℕ
distance current j = (j + max_tasks - current) % max_tasks

ready_at_lt : (ts : List (Option Task)) (j : ℕ) → ready_at ts j ≡ true → j < length ts
unfolding ready_at
ready_at_lt ts j h = elim (Option-cases (task_at ts j)) [
  | inl e ↦ absurd (ground arith)
  | inr (t, e) ↦ task_at_lt ts j t e
]

ready_at-update :
    (f : Task → Task) (ts : List (Option Task)) (i j : ℕ)
    → i ≢ j
    → ready_at (update f ts i) j ≡ ready_at ts j
unfolding ready_at
ready_at-update f ts i j n = rw (update-ne f ts i j n, ready_at) refl

module _ (s : Scheduler) (v : IsValid s) (st : TaskState) (stops : st ≢ running) where
  there : (j : ℕ) → ready_at s.tasks j ≡ true → slot s.current (distance s.current j) ≡ j
  there j h =
      omega (arith, ready_at_lt s.tasks j h, task_at_lt s.tasks s.current v.task v.here, v.table)

  away : (j : ℕ) → j ≢ s.current → ready_at s.tasks j ≡ true → 1 ≤ distance s.current j
  away j apart h =
      omega (arith, ready_at_lt s.tasks j h, task_at_lt s.tasks s.current v.task v.here, v.table)

  still_ready :
      (j : ℕ)
      → j ≢ s.current
      → ready_at s.tasks j ≡ true
      → ready_at (leaving s st) (slot s.current (distance s.current j)) ≡ true
  still_ready j apart h =
      rw (there j h, ready_at-update (with_state st) s.tasks s.current j (λ e. apart (sym e))) h

  -- With another ready task a switch does not panic.
  switch_total :
      (j : ℕ)
      → j ≢ s.current
      → ready_at s.tasks j ≡ true
      → (u : Scheduler) × (schedule_next s st ≡ some u)
  unfolding next_ready
  switch_total j apart h =
      let (r, picked) =
        next_ready_from_total (leaving s st) s.current max_tasks 1 (distance s.current j)
          (away j apart h) (omega arith) (still_ready j apart h) in
      let (k, _, at, first) = next_ready_from-some (leaving s st) s.current max_tasks 1 r picked in
      let (t, found, _) = ready_at-inv (leaving s st) r (rw at first.is_ready_there) in
      let was = update_self (with_state st) s.tasks s.current v.task v.here in
      (entering s st (with_state st v.task) t r, schedule_next-eq s st _ t r picked was found)

  tasks_after :
      (u : Scheduler) (j : ℕ)
      → schedule_next s st ≡ some u
      → j ≢ s.current
      → u.current ≢ j
      → ready_at u.tasks j ≡ ready_at s.tasks j
  tasks_after u j e apart other =
      let (next, old, t, _, _, _, eq) = schedule_next-inv s u st e in
      let here : next ≡ u.current = ap (λ (x : Scheduler). x.current) eq in
      let tasks : update (with_state running) (leaving s st) next ≡ u.tasks =
        ap (λ (x : Scheduler). x.tasks) eq in
      rw (← tasks) (
        ready_at-update (with_state running) (leaving s st) next j (λ p. other (sym here ∙ p))
        ∙ ready_at-update (with_state st) s.tasks s.current j (λ p. apart (sym p)))

  no_skip :
      (j k : ℕ)
      → j ≢ s.current
      → ready_at s.tasks j ≡ true
      → FirstFrom (leaving s st) s.current 1 k
      → k ≤ distance s.current j
  no_skip j k apart h first = elim (dec_lt (distance s.current j) k) [
    | yes p ↦ absurd (cc (first.none_nearer _ (away j apart h) p, still_ready j apart h))
    | no n ↦ omega arith
  ]

  -- A ready task gets nearer at each switch, or runs.
  switch_nearer :
      (u : Scheduler) (j : ℕ)
      → schedule_next s st ≡ some u
      → j ≢ s.current
      → ready_at s.tasks j ≡ true
      → (u.current ≡ j)
        ⊎ (distance u.current j < distance s.current j) × (ready_at u.tasks j ≡ true)
  switch_nearer u j e apart h = elim (ℕ_discrete u.current j) [
    | yes p ↦ inl p
    | no other ↦
        let (k, lt, at, first) = schedule_next-Picks s v st stops u e in
        let near = no_skip j k apart h first in
        let jlt = ready_at_lt s.tasks j h in
        let clt = task_at_lt s.tasks s.current v.task v.here in
        inr (omega (arith, v.table, first.from), tasks_after u j e apart other ∙ h)
  ]

gets_cpu_self : (s : Scheduler) (os : List Turn) (j : ℕ) → s.current ≡ j → gets_cpu s os j ≡ true
unfolding gets_cpu
gets_cpu_self s [] j e = ground arith
gets_cpu_self s (o ∷ os) j e = ground arith

gets_cpu_step :
    (s u : Scheduler) (o : Turn) (os : List Turn) (j : ℕ)
    → turn s o ≡ some u
    → gets_cpu u os j ≡ true
    → gets_cpu s (o ∷ os) j ≡ true
unfolding gets_cpu
gets_cpu_step s u o os j e h = ground arith

gets_cpu_within :
    (os : List Turn) (s : Scheduler) (j : ℕ)
    → IsValid s
    → ready_at s.tasks j ≡ true
    → distance s.current j ≤ length os
    → gets_cpu s os j ≡ true
gets_cpu_within [] s j v h near =
    gets_cpu_self s [] j
      (omega (arith, ready_at_lt s.tasks j h, task_at_lt s.tasks s.current v.task v.here, v.table))
gets_cpu_within (o ∷ os) s j v h near = elim (ℕ_discrete s.current j) [
  | yes p ↦ gets_cpu_self s (o ∷ os) j p
  | no n ↦
      let c = turn-Turned s o v in
      let apart : j ≢ c.middle.current = λ e. n (sym (e ∙ c.prepared.same)) in
      let h' = c.prepared.keeps j (λ e. n (sym e)) h in
      let (u, switched) = switch_total c.middle c.prepared.valid c.left_as c.stops j apart h' in
      let turned = c.switches ∙ switched in
      gets_cpu_step s u o os j turned
        (elim (switch_nearer c.middle c.prepared.valid c.left_as c.stops u j switched apart h') [
          | inl here ↦ gets_cpu_self u os j here
          | inr (closer, h'') ↦
              gets_cpu_within os u j (turn-IsValid s u o v turned) h''
                (omega (arith, c.prepared.same, closer))
        ])
]

-- No starvation: whatever the tasks that run do, be preempted, yield, sleep, block or exit, a ready task
-- gets the CPU within 31 turns, and no switch panics until then.
pub gets_cpu_in_time :
    (s : Scheduler) (os : List Turn) (j : ℕ)
    → IsValid s
    → ready_at s.tasks j ≡ true
    → 31 ≤ length os
    → gets_cpu s os j ≡ true
gets_cpu_in_time s os j v h long = gets_cpu_within os s j v h (omega arith)
