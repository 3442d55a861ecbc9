-- ===== src/Domains.antt =====
-- Domains, from their creation to their end: kernel/src/domain.rs. The page tables and the frames are
-- left out: the root of a new page table is an argument, and the release of the user space
-- (`paging::free_user_space`) is not part of `destroy` here.
pub mod Slots
pub mod Ends
mod Tests
use morion_os.Prelude.{
  ℕ, zero, suc, ◌+◌, ◌-◌, ◌*◌, ◌/◌, ◌%◌, ◌^◌, ◌≤◌, ◌<◌, ◌≡◌, ◌≢◌, ◌↔◌, ◌⊎◌, inl, inr, refl, sym, ap,
  ◌∙◌, Bool, true, false, not, ◌&&◌, ◌||◌, Option, none, some, List, [], ◌∷◌, ◌++◌, map, length,
  get_elem?, get_or, set, take, drop, replicate, length-append, length-set, get_elem?-set_self,
  get_elem?-set_ne, get_or-set_self, get_or-set_ne, get_elem?_lt, set-set, set_same, get_elem?-none,
  get_elem?-eq-get_or, length-replicate, length-take, drop_all, take_nil, get_or-append_left,
  get_or-append_end, drop-split, set_padded, set_padded_self, set_padded_other, set_padded_ne,
  length-set_padded, arith, ite, if_pos, if_neg, dec_lt, dec_le, ℕ_discrete, ltb, leb, ◌==◌,
  if◌then◌else◌, ltb→lt, lt→ltb, leb→le, le→leb, ==_iff, ==_self, ==_ne, Bool-cases, Option-cases,
  ◌>>=◌, >>=-eq-some, some_inj, if-inv, u64_max, bit_or-disjoint, min, max,
}
use morion_os.Cap.Table.{CapTable}
use morion_os.Cap.Handles.{HandleTable}
use morion_os.Sched.{Scheduler}
use morion_os.Ipc.{Mailboxes}
use morion_os.Irq.{Irqs}
use morion_os.Net.{Binding}
use morion_os.Pager.{Pagers}

-- `Domain`
pub record Domain : Type 0 where
  pub id : ℕ
  pub pml4 : ℕ

-- `BOOT_DOMAINS`
abbrev pub boot_domains : ℕ
boot_domains = 26

-- The state of the kernel by domain: `DOMAINS`, `PENDING` and the tables of the other modules.
pub record World : Type 0 where
  pub domains : List (Option Domain)
  pub pending : List ℕ
  pub caps : CapTable
  pub handles : HandleTable
  pub boxes : Mailboxes
  pub pagers : Pagers
  pub irqs : Irqs
  pub ports : List Binding
  pub sched : Scheduler

-- `is_boot`
unfoldable pub is_boot : ℕ → Bool
is_boot id = ltb id boot_domains

-- `slot_for`
unfoldable pub slot_for : List (Option Domain) → ℕ
slot_for [] = 0
slot_for (none ∷ ds) = 0
slot_for (some d ∷ ds) = suc (slot_for ds)

-- The end of `create`: the slot is filled, or the table grows by one.
unfoldable pub place : List (Option Domain) → ℕ → Domain → List (Option Domain)
place domains id domain = elim (get_elem? domains id) [
  | none ↦ domains ++ some domain ∷ []
  | some o ↦ set domains id (some domain)
]

-- `create`, with the root of the new page table.
unfoldable pub create : List (Option Domain) → ℕ → List (Option Domain) × ℕ
unfolding slot_for place
create domains pml4 =
    let id = slot_for domains in (place domains id (record { id = id; pml4 = pml4 }), id)

abbrev pub is_some {ℓ} : {A : Type ℓ} → Option A → Bool
is_some none = false
is_some (some a) = true

-- `is_alive`
unfoldable pub is_alive : List (Option Domain) → ℕ → Bool
is_alive domains id = is_some (get_or domains id none)

-- `pml4_of`: it panics for a domain that does not exist.
unfoldable pub pml4_of : List (Option Domain) → ℕ → Option ℕ
pml4_of domains id = get_or domains id none >>= λ d. some d.pml4

-- `alive_count`
unfoldable pub alive_count : List (Option Domain) → ℕ
alive_count [] = 0
alive_count (o ∷ ds) = (if is_some o then 1 else 0) + alive_count ds

-- The calls of `destroy` on the tables of the other modules.
unfoldable pub clear_tables : World → ℕ → World
unfolding morion_os.Cap.Table.remove_domain morion_os.Cap.Handles.remove_domain
    morion_os.Ipc.remove_domain morion_os.Pager.remove_domain morion_os.Irq.remove_domain
    morion_os.Sched.Ops.remove_domain
clear_tables w id = record w {
  caps = morion_os.Cap.Table.remove_domain w.caps id;
  handles = morion_os.Cap.Handles.remove_domain w.handles id;
  boxes = morion_os.Ipc.remove_domain w.boxes id;
  pagers = morion_os.Pager.remove_domain w.pagers id;
  irqs = morion_os.Irq.remove_domain w.irqs id;
  sched = morion_os.Sched.Ops.remove_domain w.sched id;
}

-- `destroy`
unfoldable pub destroy : World → ℕ → World × Bool
unfolding clear_tables
destroy w id = elim (get_or w.domains id none) [
  | none ↦ (w, false)
  | some d ↦ (clear_tables (record w { domains = set w.domains id none }) id, true)
]

-- `request_destroy`
unfoldable pub request_destroy : World → ℕ → World
unfolding is_boot
request_destroy w id = if is_boot id then w else record w { pending = w.pending ++ id ∷ [] }

-- `PENDING.lock().pop()` takes the last one.
unfoldable pub last_first : List ℕ → List ℕ
last_first [] = []
last_first (x ∷ xs) = last_first xs ++ x ∷ []

unfoldable pub destroy_all : World → List ℕ → World
unfolding destroy
destroy_all w [] = w
destroy_all w (id ∷ ids) = destroy_all (destroy w id).0 ids

-- `reclaim_pending`: none of the calls of `destroy` adds to the queue, so that the loop takes the
-- identifiers that are in it, the last one first.
unfoldable pub reclaim_pending : World → World
unfolding destroy_all last_first
reclaim_pending w = destroy_all (record w { pending = [] }) (last_first w.pending)
