-- ===== src/Sched/Spawn.antt =====
-- Starting a task: `spawn_inner` of kernel/src/scheduler/mod.rs.
use morion_os.Prelude.{
  ℕ, zero, suc, ◌+◌, ◌≡◌, ◌⊎◌, inl, inr, refl, ap, ◌∙◌, Bool, true, ◌&&◌, Option, none, some, List,
  [], ◌∷◌, length, get_elem?, set, take, arith, ◌==◌, if◌then◌else◌, Bool-cases,
}
use morion_os.Sched.{ready, Task, Scheduler, free_slot, spawn_inner, new_task}
use morion_os.Sched.Ops.{count_tasks, is_live_in, live_tasks}

count_tasks-set :
    (p : Task → Bool) (ts : List (Option Task)) (i : ℕ) (t : Task)
    → get_elem? ts i ≡ some none
    → count_tasks p (set ts i (some t)) ≡ (if p t then 1 else 0) + count_tasks p ts
unfolding count_tasks
count_tasks-set p [] i t h = absurd (cc)
count_tasks-set p (none ∷ ts) zero t h = refl
count_tasks-set p (some u ∷ ts) zero t h = absurd (cc)
count_tasks-set p (none ∷ ts) (suc i) t h = count_tasks-set p ts i t h
count_tasks-set p (some u ∷ ts) (suc i) t h = omega (arith, count_tasks-set p ts i t h)

free_slot_lem :
    (ts : List (Option Task))
    → ((free_slot ts ≡ none) × (count_tasks (λ t. true) ts ≡ length ts))
      ⊎ ((i : ℕ) × (free_slot ts ≡ some i)
          × (get_elem? ts i ≡ some none)
          × (count_tasks (λ t. true) (take i ts) ≡ i))
unfolding free_slot count_tasks
free_slot_lem [] = inl (refl, refl)
free_slot_lem (none ∷ ts) = inr (0, refl, refl, refl)
free_slot_lem (some t ∷ ts) = elim (free_slot_lem ts) [
  | inl (e, n) ↦
      inl
        (ap (λ o. elim o as (λ x. Option ℕ) [ none ↦ none | some i ↦ some (suc i) ]) e, omega arith)
  | inr (i, e, h, n) ↦ inr (
    suc i,
    ap (λ o. elim o as (λ x. Option ℕ) [ none ↦ none | some j ↦ some (suc j) ]) e,
    h,
    omega arith,
  )
]

new_live :
    (d other n : ℕ)
    → (if (d == other) && true then 1 else 0) + n ≡ (if d == other then 1 else 0) + n
new_live d other n = elim (Bool-cases (d == other)) [ inl y ↦ rw y | inr y ↦ rw y ]

-- `spawn_inner` fails exactly when every slot of the table is taken. Otherwise the new task is in the
-- first empty slot, ready, in its domain and with its page table, and every other slot and the rest of
-- the scheduler are as before: its domain has one live task more, and another domain as many as before.
pub spawn_inner_lem :
    (s : Scheduler) (d pml4 entry stack other : ℕ)
    → ((spawn_inner s d pml4 entry stack ≡ none)
        × (count_tasks (λ t. true) s.tasks ≡ length s.tasks))
      ⊎ ((i : ℕ) × (t : Task) × (s' : Scheduler) × (spawn_inner s d pml4 entry stack ≡ some (i, s'))
          × (get_elem? s.tasks i ≡ some none)
          × (count_tasks (λ u. true) (take i s.tasks) ≡ i)
          × (s' ≡ record s { tasks = set s.tasks i (some t) })
          × (t.id ≡ i)
          × (t.state ≡ ready)
          × (t.domain ≡ d)
          × (t.cr3 ≡ pml4)
          × (live_tasks s' other ≡ (if d == other then 1 else 0) + live_tasks s other))
unfolding spawn_inner live_tasks
spawn_inner_lem s d pml4 entry stack other =
    let started : Option ℕ → Option (ℕ × Scheduler) = λ o. elim o [
      | none ↦ none
      | some i ↦ some (i, record s { tasks = set s.tasks i (some (new_task i d pml4 entry stack)) })
    ] in
    elim (free_slot_lem s.tasks) [
      | inl (e, n) ↦ inl (ap started e, n)
      | inr (i, e, h, n) ↦ inr (
        i,
        new_task i d pml4 entry stack,
        record s { tasks = set s.tasks i (some (new_task i d pml4 entry stack)) },
        ap started e,
        h,
        n,
        refl,
        refl,
        refl,
        refl,
        refl,
        count_tasks-set (is_live_in other) s.tasks i (new_task i d pml4 entry stack) h
            ∙ new_live d other (live_tasks s other),
      )
    ]
