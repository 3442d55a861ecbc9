-- ===== src/Syscalls/Tests.antt =====
-- Runs of the gates, and their theorems at concrete inputs.
use morion_os.Prelude.{
  ◌%◌, ◌≡◌, ◌⊎◌, refl, true, not, ◌&&◌, ◌||◌, none, some, [], ◌∷◌, length, get_or, replicate, ltb,
  leb, ◌==◌, if◌then◌else◌,
}
use morion_os.Cap.{Capability-discrete, irq, spawn}
use morion_os.Cap.Slots.{contains}
use morion_os.Cap.Table.{has, holds}
use morion_os.Sched.{new_task, running, task_at}
use morion_os.Sched.Ops.{current_domain}
use morion_os.Irq.{fresh}
use morion_os.Pager.{of}
use morion_os.Domains.{World, is_alive}
use morion_os.Syscalls.{domain_destroy, register_irq, is_it}
use morion_os.Syscalls.Gates.{domain_destroy_lem, register_irq_lem}

-- Domain 0 runs, may make domains and take interrupt 33, and is the pager of domain 1.
abbrev world : World
world = record {
  domains = some (record { id = 0; pml4 = 0x1000 }) ∷ some (record { id = 1; pml4 = 0x2000 }) ∷ [];
  pending = [];
  caps = (some spawn ∷ some (irq 33) ∷ replicate 30 none) ∷ replicate 32 none ∷ [];
  handles = [];
  boxes = [];
  pagers = none ∷ some 0 ∷ [];
  irqs = fresh;
  ports = [];
  sched = record {
    tasks = some (record (new_task 0 0 0x1000 0 0) { state = running }) ∷ replicate 31 none;
    current = 0;
    ticks = 0;
    loaded_cr3 = 0x1000;
  };
}

runs_as : current_domain world.sched ≡ some 0
unfolding current_domain task_at
runs_as = refl

may_spawn : has world.caps 0 spawn ≡ some true
unfolding has contains Capability-discrete
may_spawn = refl

may_interrupt : has world.caps 0 (irq (33 % 256)) ≡ some true
unfolding has contains Capability-discrete
may_interrupt = refl

line_table : length world.irqs.handlers ≡ 16
unfolding fresh
line_table = refl

vector_table : length world.irqs.vectors ≡ 256
unfolding fresh
vector_table = refl

domain_destroy_lem_example :
    let ends = (true && is_it (of world.pagers 1) 0) && is_alive world.domains 1 in
    (w' : World) × (domain_destroy world 1 ≡ some (w', if ends then 1 else 0))
    × ((ends ≡ true) ⊎ (w' ≡ world))
    × (is_alive w'.domains 0 ≡ is_alive world.domains 0 && not (ends && (1 == 0)))
    × (holds w'.caps 0 spawn ≡ holds world.caps 0 spawn && not (ends && (1 == 0)))
domain_destroy_lem_example = domain_destroy_lem world 0 1 0 spawn true runs_as may_spawn

register_irq_lem_example :
    let line = true && ltb (33 % 256) 16 in
    let vector = true && leb 32 (33 % 256) in
    (w' : World) × (register_irq world 33 ≡ some (w', if line || vector then 1 else 0))
    × (get_or w'.irqs.handlers 33 none
        ≡ (if line && (33 % 256 == 33) then some 0 else get_or world.irqs.handlers 33 none))
    × (get_or w'.irqs.vectors 33 none
        ≡ (if vector && (33 % 256 == 33) then some 0 else get_or world.irqs.vectors 33 none))
    × (w' ≡ record world {
      irqs = record world.irqs { handlers = w'.irqs.handlers; vectors = w'.irqs.vectors };
    })
register_irq_lem_example =
    register_irq_lem world 0 33 33 true runs_as may_interrupt line_table vector_table
