-- ===== src/Domains/Ends.antt =====
-- The end of a domain, and what is left of it: `destroy` and `reclaim_pending` of
-- kernel/src/domain.rs.
use morion_os.Prelude.{
  ℕ, zero, suc, ◌≡◌, ◌↔◌, inl, inr, refl, sym, ap, ◌∙◌, Bool, true, false, not, ◌&&◌, Option, none,
  some, List, [], ◌∷◌, length, get_or, set, replicate, set_padded, get_or-set_padded, suc_test,
  arith, ◌==◌, if◌then◌else◌, ==_self, ==_ne, Option-cases,
}
use morion_os.Cap.{Capability}
use morion_os.Cap.Slots.{slot_at}
use morion_os.Cap.Table.{holds}
use morion_os.Cap.Delegate.{remove_domain_lem}
use morion_os.Cap.Handles.{HandleTable, no_handles, handle_lookup}
use morion_os.Sched.{Task, ready, is_blocked, task_at}
use morion_os.Sched.Ops.{live_tasks, count_tasks, waits_on}
use morion_os.Sched.Wake.{remove_domain_task}
use morion_os.Irq.{any_max_domains, is_domain, is_registered_by}
use morion_os.Irq.Waiting.{remove_domain_irq_lem}
use morion_os.Net.{owner}
use morion_os.Pager.{of}
use morion_os.Pager.Registry.{of_lem}
use morion_os.Domains.Slots.{create_lem}
use morion_os.Domains.{
  Domain, World, slot_for, create, is_some, is_alive, clear_tables, destroy, last_first,
  destroy_all, reclaim_pending,
}

slot_at-replicate : (n k : ℕ) → slot_at {A = ℕ} (replicate n none) k ≡ none
unfolding slot_at
slot_at-replicate zero k = refl
slot_at-replicate (suc n) zero = refl
slot_at-replicate (suc n) (suc k) = slot_at-replicate n k

handle_lookup-row :
    (t : HandleTable) (e k : ℕ) → handle_lookup t e k ≡ slot_at (get_or t e no_handles) k
unfolding handle_lookup
handle_lookup-row [] e k = sym (slot_at-replicate 32 k)
handle_lookup-row (s ∷ t) zero k = refl
handle_lookup-row (s ∷ t) (suc e) k = handle_lookup-row t e k

slot_at-if :
    (b : Bool) (s : List (Option ℕ)) (k : ℕ) (x : Option ℕ)
    → x ≡ slot_at s k
    → slot_at (if b then no_handles else s) k ≡ (if b then none else x)
slot_at-if true s k x h = slot_at-replicate 32 k
slot_at-if false s k x h = sym h

handle_lookup-removed :
    (t : HandleTable) (id e k : ℕ)
    → handle_lookup (morion_os.Cap.Handles.remove_domain t id) e k
      ≡ (if id == e then none else handle_lookup t e k)
unfolding morion_os.Cap.Handles.remove_domain
handle_lookup-removed t id e k =
    handle_lookup-row (set_padded no_handles t id no_handles) e k
    ∙ (ap (λ s. slot_at s k) (get_or-set_padded no_handles t id e no_handles)
        ∙ slot_at-if (id == e) (get_or t e no_handles) k (handle_lookup t e k)
            (handle_lookup-row t e k))

get_or-cleared :
    (ds : List (Option Domain)) (id e : ℕ)
    → is_some (get_or ds id none) ≡ true
    → get_or (set ds id none) e none ≡ (if id == e then none else get_or ds e none)
get_or-cleared [] id e h = absurd (cc)
get_or-cleared (o ∷ ds) zero zero h = refl
get_or-cleared (o ∷ ds) zero (suc e) h = rw (==_ne 0 (suc e) (omega arith)) refl
get_or-cleared (o ∷ ds) (suc id) zero h = rw (==_ne (suc id) 0 (omega arith)) refl
get_or-cleared (o ∷ ds) (suc id) (suc e) h = rw (suc_test id e) (get_or-cleared ds id e h)

destroyed :
    (w : World) (id : ℕ) (d : Domain)
    → get_or w.domains id none ≡ some d
    → destroy w id ≡ (clear_tables (record w { domains = set w.domains id none }) id, true)
unfolding destroy
destroyed w id d h = rw (h, destroy) refl

-- After the end of a living domain it has no place in the table of domains, no capability, no handle,
-- no message in its box, no pager, no interrupt vector, no PIC line, no mask of awaited vectors and no
-- task that is not terminated, and nobody waits for it. Of every other domain the place, the
-- capabilities, the handles, the box, the pager, the vectors, the lines and the mask are as before, and
-- its tasks are there in their slots, with no change but that those that waited on the ended domain are
-- ready. The mask table of the interrupts has its 64 rows.
pub destroy_lem :
    (w : World) (id e k v : ℕ) (c : Capability) (t : Task)
    → is_alive w.domains id ≡ true
    → length w.irqs.any_mask ≡ any_max_domains
    → ((destroy w id).1 ≡ true)
      × (get_or (destroy w id).0.domains e none
          ≡ (if id == e then none else get_or w.domains e none))
      × (holds (destroy w id).0.caps e c ≡ (if id == e then false else holds w.caps e c))
      × (handle_lookup (destroy w id).0.handles e k
          ≡ (if id == e then none else handle_lookup w.handles e k))
      × (get_or (destroy w id).0.boxes e [] ≡ (if id == e then [] else get_or w.boxes e []))
      × (of (destroy w id).0.pagers e ≡ (if id == e then none else of w.pagers e))
      × (is_registered_by (destroy w id).0.irqs v e ≡ is_registered_by w.irqs v e && not (id == e))
      × (is_domain (get_or (destroy w id).0.irqs.handlers v none) e
          ≡ is_domain (get_or w.irqs.handlers v none) e && not (id == e))
      × (get_or (destroy w id).0.irqs.any_mask e 0
          ≡ (if id == e then 0 else get_or w.irqs.any_mask e 0))
      × ((task_at (destroy w id).0.sched.tasks k ≡ some t) ↔ (
          (u : Task) × (task_at w.sched.tasks k ≡ some u)
          × ((u.domain == id) ≡ false)
          × ((if is_blocked u.state && (u.wait_on == id)
                then record u { state = ready; wake_deadline = 0 }
                else u)
              ≡ t)))
      × (live_tasks (destroy w id).0.sched id ≡ 0)
      × (count_tasks (waits_on id) (destroy w id).0.sched.tasks ≡ 0)
unfolding clear_tables is_alive morion_os.Ipc.remove_domain morion_os.Ipc.set_mailbox
destroy_lem w id e k v c t h m = elim (Option-cases (get_or w.domains id none)) [
  | inl x ↦ absurd (cc (ap is_some x, h))
  | inr (d, x) ↦
      let (tasks, gone, idle) = remove_domain_task w.sched id k t in
      let (vectors, lines, mask) = remove_domain_irq_lem w.irqs id e v m in
      rw (destroyed w id d x) (
        refl,
        get_or-cleared w.domains id e h,
        (remove_domain_lem w.caps id e c).0,
        handle_lookup-removed w.handles id e k,
        get_or-set_padded [] w.boxes id e [],
        (of_lem w.pagers id 0 e).1,
        vectors,
        lines,
        mask,
        tasks,
        gone,
        idle,
      )
]

-- What a `destroy` does to the places and the capabilities, and that it does nothing to a domain that
-- is not alive.
pub destroy_living :
    (w : World) (id e : ℕ) (c : Capability)
    → is_alive w.domains id ≡ true
    → ((destroy w id).1 ≡ true)
      × (is_alive (destroy w id).0.domains e ≡ is_alive w.domains e && not (id == e))
      × (holds (destroy w id).0.caps e c ≡ holds w.caps e c && not (id == e))
unfolding clear_tables is_alive
destroy_living w id e c h = elim (Option-cases (get_or w.domains id none)) [
  | inl x ↦ absurd (cc (ap is_some x, h))
  | inr (d, x) ↦ rw (destroyed w id d x) (
    refl,
    ap is_some (get_or-cleared w.domains id e h) ∙ cleared (id == e) (get_or w.domains e none),
    (remove_domain_lem w.caps id e c).0 ∙ unless (id == e) (holds w.caps e c),
  )
]
  where
    unless : (d b : Bool) → (if d then false else b) ≡ (b && not d)
    unless true true = refl
    unless true false = refl
    unless false true = refl
    unless false false = refl

    cleared :
        (d : Bool) (o : Option Domain) → is_some (if d then none else o) ≡ (is_some o && not d)
    cleared true none = refl
    cleared true (some x) = refl
    cleared false none = refl
    cleared false (some x) = refl

pub destroy_dead : (w : World) (id : ℕ) → is_alive w.domains id ≡ false → destroy w id ≡ (w, false)
unfolding is_alive destroy
destroy_dead w id h = elim (Option-cases (get_or w.domains id none)) [
  | inl x ↦ rw (x, destroy) refl
  | inr (d, x) ↦ absurd (cc (ap is_some x, h))
]

-- The port bindings are not among them: a port of a domain that has ended is owned by the next domain
-- that gets its number.
pub owner-destroy :
    (w : World) (id p pml4 : ℕ)
    → owner w.ports p ≡ id
    → slot_for (destroy w id).0.domains ≡ id
    → ((create (destroy w id).0.domains pml4).1 ≡ id) × (owner (destroy w id).0.ports p ≡ id)
unfolding create destroy clear_tables
owner-destroy w id p pml4 h s = (
  s,
  elim (Option-cases (get_or w.domains id none)) [
    | inl x ↦ rw (x, destroy) h
    | inr (d, x) ↦ rw (destroyed w id d x) h
  ],
)

alive_if : (id : ℕ) (o : Option Domain) → is_some (if id == id then none else o) ≡ false
alive_if id o = rw (==_self id) refl

is_alive-destroy : (w : World) (id : ℕ) → is_alive (destroy w id).0.domains id ≡ false
unfolding is_alive clear_tables destroy
is_alive-destroy w id = elim (Option-cases (get_or w.domains id none)) [
  | inl x ↦ rw (x, destroy) (ap is_some x)
  | inr (d, x) ↦ rw (destroyed w id d x) (
      ap is_some (get_or-cleared w.domains id id (ap is_some x))
      ∙ alive_if id (get_or w.domains id none))
]

reclaim_one :
    (w : World) (id : ℕ)
    → w.pending ≡ id ∷ []
    → reclaim_pending w ≡ (destroy (record w { pending = [] }) id).0
unfolding reclaim_pending destroy_all last_first
reclaim_one w id h = ap (λ l. destroy_all (record w { pending = [] }) (last_first l)) h

made_alive :
    (ds : List (Option Domain)) (id pml4 : ℕ) (s : (create ds pml4).1 ≡ id)
    → get_or (create ds pml4).0 id none ≡ (
        if (create ds pml4).1 == id
        then some (record { id = (create ds pml4).1; pml4 = pml4 })
        else get_or ds id none)
    → is_alive (create ds pml4).0 id ≡ true
unfolding is_alive
made_alive ds id pml4 s made = rw (made, s, ==_self id) refl

-- A request that is still in the queue is for a number, not for a domain: when the domain has been
-- destroyed otherwise in the meantime and its number is taken again, the new domain is destroyed.
pub reclaim_pending-reused :
    (w : World) (id pml4 : ℕ)
    → w.pending ≡ id ∷ []
    → (create w.domains pml4).1 ≡ id
    → (is_alive (create w.domains pml4).0 id ≡ true)
      × (is_alive (reclaim_pending (record w { domains = (create w.domains pml4).0 })).domains id
          ≡ false)
unfolding is_alive
reclaim_pending-reused w id pml4 h s =
    let (_, _, made, _) = create_lem w.domains pml4 id in
    let now : World = record w { domains = (create w.domains pml4).0 } in
    (
      made_alive w.domains id pml4 s made,
      ap (λ (x : World). is_alive x.domains id) (reclaim_one now id h)
          ∙ is_alive-destroy (record now { pending = [] }) id,
    )
