-- ===== src/Sched/Wake.antt =====
-- Waiting and waking in kernel/src/scheduler/mod.rs.
use morion_os.Prelude.{
  ℕ, zero, suc, ◌+◌, ◌*◌, ◌≤◌, ◌≡◌, ◌↔◌, ◌⊎◌, inl, inr, refl, sym, ap, ◌∙◌, Bool, true, false, not,
  ◌&&◌, ◌||◌, Option, none, some, List, [], ◌∷◌, set, take, arith, leb, ◌==◌, if◌then◌else◌,
  Bool-cases, some_inj, u64_max, max,
}
use morion_os.Sched.{Task, Scheduler, ms_to_ticks, is_blocked, is_sleeping, task_at}
use morion_os.Sched.Ops.{
  wake_due, map_tasks, wake_all_due, wake_first, wake_one, waits_on, woken, wake_waiter, drop_tasks,
  count_tasks, remove_domain, is_live_in, live_tasks,
}

-- A time-out in milliseconds is that many ticks, and at least one, so long as the product fits 64 bits.
pub ms_to_ticks_lem : (ms : ℕ) → ms * 1000 ≤ u64_max → ms_to_ticks ms ≡ max ms 1
unfolding ms_to_ticks
ms_to_ticks_lem ms h = omega arith

-- A sleeper, or a task that is blocked with a time-out, whose time has come.
abbrev pub overdue : ℕ → Task → Bool
overdue now t =
    is_sleeping t.state && leb t.sleep_until now
    || is_blocked t.state && (not (t.wake_deadline == 0) && leb t.wake_deadline now)

unfoldable task_at-map :
    (f : Task → Task) (ts : List (Option Task)) (i : ℕ)
    → task_at (map_tasks f ts) i ≡ elim (task_at ts i) [ none ↦ none | some t ↦ some (f t) ]
unfolding task_at map_tasks
task_at-map f [] i = refl
task_at-map f (none ∷ ts) zero = refl
task_at-map f (none ∷ ts) (suc i) = task_at-map f ts i
task_at-map f (some t ∷ ts) zero = refl
task_at-map f (some t ∷ ts) (suc i) = task_at-map f ts i

overdue-wake_due : (now : ℕ) (t : Task) → overdue now (wake_due now t) ≡ false
unfolding wake_due
overdue-wake_due now t = ground arith

wake_due-overdue : (now : ℕ) (t : Task) → overdue now t ≡ false → wake_due now t ≡ t
unfolding wake_due
wake_due-overdue now t h = ground arith

map-eq-some :
    (f : Task → Task) (o : Option Task) (t : Task)
    → (elim o [ none ↦ none | some u ↦ some (f u) ]) ≡ some t
    → (u : Task) × (o ≡ some u) × (f u ≡ t)
map-eq-some f none t h = absurd (cc)
map-eq-some f (some u) t h = (u, refl, some_inj h)

-- After `tick` has looked at the tasks, no task of the table is overdue at the new tick count, and a
-- task that is in a slot then was in that slot before, overdue or just as it is now.
pub wake_all_due_lem :
    (s : Scheduler) (i : ℕ) (t : Task)
    → task_at (wake_all_due s).tasks i ≡ some t
    → (overdue (s.ticks + 1) t ≡ false)
      × (u : Task) × (task_at s.tasks i ≡ some u)
      × ((overdue (s.ticks + 1) u ≡ true) ⊎ (u ≡ t))
unfolding wake_all_due
wake_all_due_lem s i t h =
    let (u, q, w) =
      map-eq-some (wake_due (s.ticks + 1)) (task_at s.tasks i) t
        (sym (task_at-map (wake_due (s.ticks + 1)) s.tasks i) ∙ h) in
    (
      sym (ap (overdue (s.ticks + 1)) w) ∙ overdue-wake_due (s.ticks + 1) u,
      u,
      q,
      elim (Bool-cases (overdue (s.ticks + 1) u)) [
        | inl y ↦ inl y
        | inr y ↦ inr (sym (wake_due-overdue (s.ticks + 1) u y) ∙ w)
      ],
    )

wake_first_lem :
    (key : ℕ) (ts : List (Option Task))
    → ((wake_first key ts ≡ ts) × (count_tasks (waits_on key) ts ≡ 0))
      ⊎ ((i : ℕ) × (t : Task) × (task_at ts i ≡ some t)
          × (waits_on key t ≡ true)
          × (count_tasks (waits_on key) (take i ts) ≡ 0)
          × (wake_first key ts ≡ set ts i (some (woken t))))
unfolding wake_first count_tasks task_at
wake_first_lem key [] = inl (refl, refl)
wake_first_lem key (none ∷ ts) = elim (wake_first_lem key ts) [
  | inl (a, b) ↦ inl (ap (λ x. none ∷ x) a, b)
  | inr (i, t, a, b, c, d) ↦ inr (suc i, t, a, b, c, ap (λ x. none ∷ x) d)
]
wake_first_lem key (some t ∷ ts) = elim (Bool-cases (waits_on key t)) [
  | inl y ↦ inr (0, t, refl, y, refl, rw y)
  | inr n ↦ elim (wake_first_lem key ts) [
    | inl (a, b) ↦ inl (cc, cc)
    | inr (i, u, a, b, c, d) ↦ inr (suc i, u, a, b, cc, cc)
  ]
]

-- `wake_one` changes nothing when no task waits on the key; otherwise it makes ready the first task
-- that waits on it, and no other.
pub wake_one_lem :
    (s : Scheduler) (key : ℕ)
    → ((wake_one s key ≡ s) × (count_tasks (waits_on key) s.tasks ≡ 0))
      ⊎ ((i : ℕ) × (t : Task) × (task_at s.tasks i ≡ some t)
          × (waits_on key t ≡ true)
          × (count_tasks (waits_on key) (take i s.tasks) ≡ 0)
          × (wake_one s key ≡ record s { tasks = set s.tasks i (some (woken t)) }))
unfolding wake_one
wake_one_lem s key = elim (wake_first_lem key s.tasks) [
  | inl (a, b) ↦ inl (ap (λ x. record s { tasks = x }) a, b)
  | inr (i, t, a, b, c, d) ↦ inr (i, t, a, b, c, ap (λ x. record s { tasks = x }) d)
]

task_at-drop_tasks :
    (p : Task → Bool) (ts : List (Option Task)) (i : ℕ)
    → task_at (drop_tasks p ts) i
      ≡ elim (task_at ts i) [ none ↦ none | some t ↦ if p t then none else some t ]
unfolding task_at drop_tasks
task_at-drop_tasks p [] i = refl
task_at-drop_tasks p (none ∷ ts) zero = refl
task_at-drop_tasks p (none ∷ ts) (suc i) = task_at-drop_tasks p ts i
task_at-drop_tasks p (some t ∷ ts) zero = refl
task_at-drop_tasks p (some t ∷ ts) (suc i) = task_at-drop_tasks p ts i

kept :
    (f : Task → Task) (b : Bool) (u t : Task)
    → (elim (if b then none else some u) as (λ x. Option Task) [
      | none ↦ none
      | some v ↦ some (f v)
    ])
      ≡ some t
    → (b ≡ false) × (f u ≡ t)
kept f true u t h = absurd (cc)
kept f false u t h = (refl, some_inj h)

unkept :
    (f : Task → Task) (b : Bool) (u t : Task)
    → b ≡ false
    → f u ≡ t
    → (elim (if b then none else some u) as (λ x. Option Task) [
      | none ↦ none
      | some v ↦ some (f v)
    ])
      ≡ some t
unkept f true u t h e = absurd (cc)
unkept f false u t h e = ap (λ x. some x) e

dropped-eq-some :
    (p : Task → Bool) (f : Task → Task) (o : Option Task) (t : Task)
    → ((elim (elim o as (λ x. Option Task) [ none ↦ none | some u ↦ if p u then none else some u ])
          as (λ x. Option Task) [ none ↦ none | some u ↦ some (f u) ])
        ≡ some t)
      ↔ ((u : Task) × (o ≡ some u) × (p u ≡ false) × (f u ≡ t))
dropped-eq-some p f none t = (λ h. absurd (cc), λ (u, e, _, _). absurd (cc))
dropped-eq-some p f (some u) t = (
  λ h. let (n, w) = kept f (p u) u t h in (u, refl, n, w),
  λ (v, e, n, w). let q = some_inj e in unkept f (p u) u t (ap p q ∙ n) (ap f q ∙ w),
)

count-remove :
    (p q : Task → Bool) (f : Task → Task) (ts : List (Option Task))
    → ((t : Task) → p t ≡ false → q (f t) ≡ false)
    → count_tasks q (map_tasks f (drop_tasks p ts)) ≡ 0
unfolding count_tasks map_tasks drop_tasks
count-remove p q f [] h = refl
count-remove p q f (none ∷ ts) h = count-remove p q f ts h
count-remove p q f (some t ∷ ts) h = elim (Bool-cases (p t)) [
  | inl y ↦ cc (count-remove p q f ts h, y)
  | inr n ↦ cc (count-remove p q f ts h, n, h t n)
]

-- After `remove_domain` the tasks are those of the other domains, each in its slot, and those that
-- waited on the domain are ready; no task of the domain is left that is not terminated, and no task
-- waits on it.
pub remove_domain_task :
    (s : Scheduler) (d i : ℕ) (t : Task)
    → ((task_at (remove_domain s d).tasks i ≡ some t) ↔ (
        (u : Task) × (task_at s.tasks i ≡ some u)
        × ((u.domain == d) ≡ false)
        × (wake_waiter d u ≡ t)))
      × (live_tasks (remove_domain s d) d ≡ 0)
      × (count_tasks (waits_on d) (remove_domain s d).tasks ≡ 0)
unfolding remove_domain live_tasks
remove_domain_task s d i t = (
  rw
      (
        task_at-map (wake_waiter d) (drop_tasks (λ x. x.domain == d) s.tasks) i,
        task_at-drop_tasks (λ x. x.domain == d) s.tasks i,
      )
      (dropped-eq-some (λ x. x.domain == d) (wake_waiter d) (task_at s.tasks i) t),
  count-remove (λ x. x.domain == d) (is_live_in d) (wake_waiter d) s.tasks (λ x h. ground arith),
  count-remove (λ x. x.domain == d) (waits_on d) (wake_waiter d) s.tasks (λ x h. ground arith),
)
