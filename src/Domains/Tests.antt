-- ===== src/Domains/Tests.antt =====
-- Runs of the domain table, and its theorems at concrete inputs.
use morion_os.Prelude.{
  ◌≡◌, ◌↔◌, refl, true, false, not, ◌&&◌, Option, none, some, List, [], ◌∷◌, ◌++◌, length, get_or,
  take, replicate, ◌==◌, if◌then◌else◌,
}
use morion_os.Cap.{send_to}
use morion_os.Cap.Table.{holds}
use morion_os.Cap.Handles.{handle_lookup}
use morion_os.Sched.{Task, new, new_task, ready, blocked, is_blocked, task_at}
use morion_os.Sched.Ops.{live_tasks, count_tasks, waits_on}
use morion_os.Irq.{fresh, any_max_domains, is_domain, is_registered_by}
use morion_os.Net.{owner}
use morion_os.Pager.{of}
use morion_os.Domains.{
  Domain, World, boot_domains, is_boot, slot_for, create, is_alive, alive_count, destroy,
  reclaim_pending,
}
use morion_os.Domains.Ends.{destroy_lem, owner-destroy, reclaim_pending-reused}

-- The 26 boot domains and one more, which owns port 80.
abbrev boot : List (Option Domain)
boot = replicate 26 (some (record { id = 0; pml4 = 0x1000 }))

-- A task of domain 3, which waits for domain 26 until it ends.
abbrev waiter_ready : Task
waiter_ready = record (new_task 1 3 0x1000 0 0) { state = ready; wait_on = 26 }

abbrev world : World
world = record {
  domains = boot ++ some (record { id = 26; pml4 = 0x2000 }) ∷ [];
  pending = [];
  caps = [];
  handles = [];
  boxes = [];
  pagers = [];
  irqs = fresh;
  ports = record { domain = 26; port = 80 } ∷ [];
  sched = record new {
    tasks =
        some (record (new_task 0 26 0x2000 0 0) { state = ready })
        ∷ some (record waiter_ready { state = blocked; wait_on = 26 })
        ∷ replicate 30 none;
  };
}

boot_alive : alive_count (take boot_domains boot) ≡ boot_domains
unfolding alive_count
boot_alive = refl

world_alive : is_alive world.domains 26 ≡ true
unfolding is_alive
world_alive = refl

world_masks : length world.irqs.any_mask ≡ any_max_domains
unfolding fresh
world_masks = refl

destroy_lem_example :
    ((destroy world 26).1 ≡ true)
    × (get_or (destroy world 26).0.domains 3 none
        ≡ (if 26 == 3 then none else get_or world.domains 3 none))
    × (holds (destroy world 26).0.caps 3 (send_to 1)
        ≡ (if 26 == 3 then false else holds world.caps 3 (send_to 1)))
    × (handle_lookup (destroy world 26).0.handles 3 1
        ≡ (if 26 == 3 then none else handle_lookup world.handles 3 1))
    × (get_or (destroy world 26).0.boxes 3 [] ≡ (if 26 == 3 then [] else get_or world.boxes 3 []))
    × (of (destroy world 26).0.pagers 3 ≡ (if 26 == 3 then none else of world.pagers 3))
    × (is_registered_by (destroy world 26).0.irqs 80 3
        ≡ is_registered_by world.irqs 80 3 && not (26 == 3))
    × (is_domain (get_or (destroy world 26).0.irqs.handlers 80 none) 3
        ≡ is_domain (get_or world.irqs.handlers 80 none) 3 && not (26 == 3))
    × (get_or (destroy world 26).0.irqs.any_mask 3 0
        ≡ (if 26 == 3 then 0 else get_or world.irqs.any_mask 3 0))
    × ((task_at (destroy world 26).0.sched.tasks 1 ≡ some waiter_ready) ↔ (
        (u : Task) × (task_at world.sched.tasks 1 ≡ some u)
        × ((u.domain == 26) ≡ false)
        × ((if is_blocked u.state && (u.wait_on == 26)
              then record u { state = ready; wake_deadline = 0 }
              else u)
            ≡ waiter_ready)))
    × (live_tasks (destroy world 26).0.sched 26 ≡ 0)
    × (count_tasks (waits_on 26) (destroy world 26).0.sched.tasks ≡ 0)
destroy_lem_example = destroy_lem world 26 3 1 80 (send_to 1) waiter_ready world_alive world_masks

port_owner : owner world.ports 80 ≡ 26
unfolding owner
port_owner = refl

freed : slot_for (destroy world 26).0.domains ≡ 26
unfolding destroy slot_for morion_os.Domains.clear_tables
freed = refl

owner-destroy_example :
    ((create (destroy world 26).0.domains 0x3000).1 ≡ 26)
    × (owner (destroy world 26).0.ports 80 ≡ 26)
owner-destroy_example = owner-destroy world 26 80 0x3000 port_owner freed

-- Domain 26 has exited and was destroyed by its loader before the next tick.
abbrev requested : World
requested = record world { domains = boot; pending = 26 ∷ [] }

next_number : (create requested.domains 0x3000).1 ≡ 26
unfolding create slot_for
next_number = refl

reclaim_pending-reused_example :
    (is_alive (create requested.domains 0x3000).0 26 ≡ true)
    × (is_alive
          (reclaim_pending
            (record requested { domains = (create requested.domains 0x3000).0 })).domains
          26
        ≡ false)
reclaim_pending-reused_example = reclaim_pending-reused requested 26 0x3000 refl next_number
