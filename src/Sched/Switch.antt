-- ===== src/Sched/Switch.antt =====
-- `schedule_next` of kernel/src/scheduler/mod.rs: whom it picks, and what it keeps.
use morion_os.Prelude.{
  ℕ, zero, suc, ◌+◌, ◌%◌, ◌≤◌, ◌<◌, ◌≡◌, ◌≢◌, inl, inr, refl, sym, ap, ◌∙◌, Bool, true, false,
  Option, none, some, List, length, get_elem?, set, length-set, get_elem?-set_self,
  get_elem?-set_ne, get_elem?_lt, arith, ℕ_discrete, ◌==◌, if◌then◌else◌, Bool-cases, Option-cases,
  >>=-eq-some, some_inj,
}
use morion_os.Sched.{
  TaskState, running, Task, Scheduler, max_tasks, is_ready, task_at, next_ready, next_ready_from,
  update, with_state, switch_to, schedule_next,
}

-- Is there a ready task in this slot?
unfoldable pub ready_at : List (Option Task) → ℕ → Bool
ready_at ts i = elim (task_at ts i) [ none ↦ false | some t ↦ is_ready t.state ]

abbrev pub slot : ℕ → ℕ → ℕ
slot after k = (after + k) % max_tasks

-- The first ready slot at a distance from `i` on: it is `k` away, and none nearer is ready.
pub record FirstFrom (ts : List (Option Task)) (after i k : ℕ) : Type 0 where
  pub from : i ≤ k
  pub is_ready_there : ready_at ts (slot after k) ≡ true
  pub none_nearer : (m : ℕ) → i ≤ m → m < k → ready_at ts (slot after m) ≡ false

next_ready_step :
    (ts : List (Option Task)) (after i n : ℕ)
    → next_ready_from ts after i (suc n) ≡ (
        if ready_at ts (slot after i)
        then some (slot after i)
        else next_ready_from ts after (i + 1) n)
unfolding next_ready_from ready_at
next_ready_step ts after i n = ground arith

pub next_ready_from-some :
    (ts : List (Option Task)) (after n i r : ℕ)
    → next_ready_from ts after i n ≡ some r
    → (k : ℕ) × (k < i + n) × (r ≡ slot after k) × FirstFrom ts after i k
unfolding next_ready_from
next_ready_from-some ts after zero i r h = absurd (cc)
next_ready_from-some ts after (suc n) i r h = elim (Bool-cases (ready_at ts (slot after i))) [
  | inl yes_ready ↦
      let e : slot after i ≡ r = some_inj (sym (next_ready_step ts after i n ∙ rw yes_ready) ∙ h) in
      (
        i,
        omega arith,
        sym e,
        record {
          from = omega arith;
          is_ready_there = yes_ready;
          none_nearer = λ m p q. absurd (omega arith);
        },
      )
  | inr not_ready ↦
      let e : next_ready_from ts after (i + 1) n ≡ some r =
        sym (next_ready_step ts after i n ∙ rw not_ready) ∙ h in
      let (k, lt, here, first) = next_ready_from-some ts after n (i + 1) r e in
      (
        k,
        omega arith,
        here,
        record {
          from = omega (arith, first.from);
          is_ready_there = first.is_ready_there;
          none_nearer = λ m p q. elim (ℕ_discrete i m) [
            | yes same ↦ rw (← same) not_ready
            | no n' ↦ first.none_nearer m (omega arith) q
          ];
        },
      )
]

-- With a ready task at some distance one is found.
pub next_ready_from_total :
    (ts : List (Option Task)) (after n i k : ℕ)
    → i ≤ k
    → k < i + n
    → ready_at ts (slot after k) ≡ true
    → (r : ℕ) × (next_ready_from ts after i n ≡ some r)
next_ready_from_total ts after zero i k p q h = absurd (omega arith)
next_ready_from_total ts after (suc n) i k p q h = elim (Bool-cases (ready_at ts (slot after i))) [
  | inl yes_ready ↦ (slot after i, rw (next_ready_step ts after i n, yes_ready))
  | inr not_ready ↦
      let apart : i ≢ k = λ e. cc (ap (λ x. ready_at ts (slot after x)) e, h, not_ready) in
      let (r, e) = next_ready_from_total ts after n (i + 1) k (omega arith) (omega arith) h in
      (r, next_ready_step ts after i n ∙ (rw not_ready e))
]

task_at-set_self :
    (ts : List (Option Task)) (i : ℕ) (o : Option Task) → i < length ts → task_at (set ts i o) i ≡ o
unfolding task_at
task_at-set_self ts i o h = rw (get_elem?-set_self ts i o h, task_at)

task_at-set_ne :
    (ts : List (Option Task)) (i j : ℕ) (o : Option Task)
    → i ≢ j
    → task_at (set ts i o) j ≡ task_at ts j
unfolding task_at
task_at-set_ne ts i j o n = rw (get_elem?-set_ne ts i j o n, task_at)

pub task_at_lt :
    (ts : List (Option Task)) (i : ℕ) (t : Task) → task_at ts i ≡ some t → i < length ts
unfolding task_at
task_at_lt ts i t h = elim (Option-cases (get_elem? ts i)) [
  | inl e ↦ absurd (ground arith)
  | inr (o, e) ↦ get_elem?_lt ts i o e
]

pub update_self :
    (f : Task → Task) (ts : List (Option Task)) (i : ℕ) (t : Task)
    → task_at ts i ≡ some t
    → task_at (update f ts i) i ≡ some (f t)
unfolding update
update_self f ts i t h = rw (h, update) (task_at-set_self ts i (some (f t)) (task_at_lt ts i t h))

pub update-ne :
    (f : Task → Task) (ts : List (Option Task)) (i j : ℕ)
    → i ≢ j
    → task_at (update f ts i) j ≡ task_at ts j
unfolding update
update-ne f ts i j n = elim (Option-cases (task_at ts i)) [
  | inl e ↦ rw (e, update) refl
  | inr (t, e) ↦ rw (e, update) (task_at-set_ne ts i j (some (f t)) n)
]

pub length-update :
    (f : Task → Task) (ts : List (Option Task)) (i : ℕ) → length (update f ts i) ≡ length ts
unfolding update
length-update f ts i = elim (Option-cases (task_at ts i)) [
  | inl e ↦ rw (e, update) refl
  | inr (t, e) ↦ rw (e, update) (length-set ts i (some (f t)))
]

-- One task runs, in the slot `current`, and its page table is the one that is loaded.
pub record IsValid (s : Scheduler) : Type 0 where
  pub table : length s.tasks ≡ max_tasks
  pub task : Task
  pub here : task_at s.tasks s.current ≡ some task
  pub runs : task.state ≡ running
  pub mapped : task.cr3 ≡ s.loaded_cr3
  pub alone : (i : ℕ) (t : Task) → task_at s.tasks i ≡ some t → t.state ≡ running → i ≡ s.current

abbrev pub leaving : Scheduler → TaskState → List (Option Task)
leaving s st = update (with_state st) s.tasks s.current

abbrev pub entering : Scheduler → TaskState → Task → Task → ℕ → Scheduler
entering s st old t next = record s {
  tasks = update (with_state running) (leaving s st) next;
  current = next;
  loaded_cr3 = if old.cr3 == t.cr3 then s.loaded_cr3 else t.cr3;
}

switch_to-inv :
    (s u : Scheduler) (old : Task) (next : ℕ)
    → switch_to s old next ≡ some u
    → (t : Task) × (task_at s.tasks next ≡ some t)
      × (record s {
        tasks = update (with_state running) s.tasks next;
        current = next;
        loaded_cr3 = if old.cr3 == t.cr3 then s.loaded_cr3 else t.cr3;
      }
          ≡ u)
unfolding switch_to
switch_to-inv s u old next h = elim (Option-cases (task_at s.tasks next)) [
  | inl e ↦ absurd (ground arith)
  | inr (t, e) ↦ (t, e, some_inj (rw (e, switch_to) at h))
]

-- What a switch consists of.
pub schedule_next-inv :
    (s u : Scheduler) (st : TaskState)
    → schedule_next s st ≡ some u
    → (next : ℕ) × (old : Task) × (t : Task) × (next_ready (leaving s st) s.current ≡ some next)
      × (task_at (leaving s st) s.current ≡ some old)
      × (task_at (leaving s st) next ≡ some t)
      × (entering s st old t next ≡ u)
unfolding schedule_next
schedule_next-inv s u st h =
    let (next, picked, h') = >>=-eq-some (next_ready (leaving s st) s.current) _ u h in
    let (old, was, h'') = >>=-eq-some (task_at (leaving s st) s.current) _ u h' in
    let (t, found, e) = switch_to-inv (record s { tasks = leaving s st }) u old next h'' in
    (next, old, t, picked, was, found, e)

pub schedule_next-eq :
    (s : Scheduler) (st : TaskState) (old t : Task) (next : ℕ)
    → next_ready (leaving s st) s.current ≡ some next
    → task_at (leaving s st) s.current ≡ some old
    → task_at (leaving s st) next ≡ some t
    → schedule_next s st ≡ some (entering s st old t next)
unfolding schedule_next switch_to
schedule_next-eq s st old t next picked was found = rw picked (rw was (rw (found, switch_to) refl))

pub ready_at-inv :
    (ts : List (Option Task)) (i : ℕ)
    → ready_at ts i ≡ true
    → (t : Task) × (task_at ts i ≡ some t) × (is_ready t.state ≡ true)
unfolding ready_at
ready_at-inv ts i h = elim (Option-cases (task_at ts i)) [
  | inl e ↦ absurd (ground arith)
  | inr (t, e) ↦ (t, e, ground arith)
]
