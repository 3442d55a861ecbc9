-- ===== src/Irq.antt =====
-- Interrupts for drivers: kernel/src/irq.rs. Vectors and PIC lines are below 256 and 16, since they are
-- of type u8 or checked before.
pub mod Waiting
mod Tests
use morion_os.Prelude.{
  ℕ, zero, suc, ◌+◌, ◌-◌, ◌*◌, ◌/◌, ◌%◌, ◌^◌, ◌≤◌, ◌<◌, ◌≡◌, ◌≢◌, ◌↔◌, ◌⊎◌, inl, inr, refl, sym, ap,
  ◌∙◌, Bool, true, false, not, ◌&&◌, ◌||◌, Option, none, some, List, [], ◌∷◌, ◌++◌, map, length,
  get_elem?, get_or, set, take, drop, replicate, length-append, length-set, get_elem?-set_self,
  get_elem?-set_ne, get_or-set_self, get_or-set_ne, get_elem?_lt, set-set, set_same, get_elem?-none,
  get_elem?-eq-get_or, length-replicate, length-take, drop_all, take_nil, get_or-append_left,
  get_or-append_end, drop-split, set_padded, set_padded_self, set_padded_other, set_padded_ne,
  length-set_padded, arith, ite, if_pos, if_neg, dec_lt, dec_le, ℕ_discrete, ltb, leb, ◌==◌,
  if◌then◌else◌, ltb→lt, lt→ltb, leb→le, le→leb, ==_iff, ==_self, ==_ne, Bool-cases, Option-cases,
  ◌>>=◌, >>=-eq-some, some_inj, if-inv, u64_max, bit_or-disjoint, min, max,
}
use morion_os.Sched.{Scheduler, irq_wait_token}
use morion_os.Sched.Ops.{wake_one}
use morion_os.Ipc.{Kernel, deliver}
use morion_os.Cap.{Capability, irq}
use morion_os.Cap.Table.{CapTable, has}

-- `arch::idt::MSI_VECTOR_BASE`
abbrev pub msi_vector_base : ℕ
msi_vector_base = 0x50

-- `arch::idt::MSI_VECTOR_COUNT`
abbrev pub msi_vector_count : ℕ
msi_vector_count = 16

-- `ANY_MAX_DOMAINS`
abbrev pub any_max_domains : ℕ
any_max_domains = 64

-- `HANDLERS`, `VECTORS`, `PENDING` and `ANY_MASK`
pub record Irqs : Type 0 where
  pub handlers : List (Option ℕ)
  pub vectors : List (Option ℕ)
  pub pending : List Bool
  pub any_mask : List ℕ

unfoldable pub fresh : Irqs
fresh = record {
  handlers = replicate 16 none;
  vectors = replicate 256 none;
  pending = replicate 256 false;
  any_mask = replicate any_max_domains 0;
}

-- Is a bit of the mask set: `mask & (1 << i) != 0`.
abbrev pub has_bit : ℕ → ℕ → Bool
has_bit mask i = (mask / 2 ^ i) % 2 == 1

-- `vector_bit`, with the number of the bit for the bit.
unfoldable pub vector_bit : ℕ → Option ℕ
vector_bit vector =
    if leb msi_vector_base vector && ltb vector (msi_vector_base + msi_vector_count)
    then some (vector - msi_vector_base)
    else none

-- `register`
unfoldable pub register : Irqs → ℕ → ℕ → Irqs
register q line domain = record q { handlers = set q.handlers line (some domain) }

-- `dispatch`
unfoldable pub dispatch : Irqs → Kernel → ℕ → ℕ → Option Kernel
unfolding deliver
dispatch q k line value = elim (get_or q.handlers line none) [
  | none ↦ some k
  | some domain ↦ deliver k 0 domain value [] >>= λ r. some r.0
]

-- `register_vector`
unfoldable pub register_vector : Irqs → ℕ → ℕ → Irqs
register_vector q vector domain = record q { vectors = set q.vectors vector (some domain) }

abbrev pub is_domain : Option ℕ → ℕ → Bool
is_domain none domain = false
is_domain (some d) domain = d == domain

-- `is_registered_by`
unfoldable pub is_registered_by : Irqs → ℕ → ℕ → Bool
is_registered_by q vector domain = is_domain (get_or q.vectors vector none) domain

-- The loop of `take_pending_any`, from bit `i` on, for the `n` bits that are left.
unfoldable pub take_pending_from : Irqs → ℕ → ℕ → ℕ → ℕ → Irqs × Option ℕ
unfolding is_registered_by
take_pending_from q mask domain i zero = (q, none)
take_pending_from q mask domain i (suc n) =
    let rest = take_pending_from q mask domain (i + 1) n in
    if not (has_bit mask i)
    then rest
    else if not (is_registered_by q (msi_vector_base + i) domain)
    then rest
    else if get_or q.pending (msi_vector_base + i) false
    then (
      record q { pending = set q.pending (msi_vector_base + i) false },
      some (msi_vector_base + i),
    )
    else rest

-- `take_pending_any`
unfoldable pub take_pending_any : Irqs → ℕ → ℕ → Irqs × Option ℕ
unfolding take_pending_from
take_pending_any q mask domain = take_pending_from q mask domain 0 msi_vector_count

-- `set_any_mask`
unfoldable pub set_any_mask : Irqs → ℕ → ℕ → Irqs × Bool
set_any_mask q domain mask =
    if leb any_max_domains domain
    then (q, false)
    else (record q { any_mask = set q.any_mask domain mask }, true)

-- `clear_any_mask`
unfoldable pub clear_any_mask : Irqs → ℕ → Irqs
clear_any_mask q domain =
    if ltb domain any_max_domains then record q { any_mask = set q.any_mask domain 0 } else q

-- The last loops of `set_pending`: each domain from `domain` on whose mask has the bit is woken.
unfoldable pub wake_hit : List ℕ → ℕ → ℕ → Scheduler → Scheduler
unfolding wake_one
wake_hit [] domain bit s = s
wake_hit (mask ∷ masks) domain bit s =
    wake_hit masks (domain + 1) bit
      (if has_bit mask bit then wake_one s (irq_wait_token domain) else s)

-- `set_pending`
unfoldable pub set_pending : Irqs → Scheduler → ℕ → Irqs × Scheduler
unfolding vector_bit wake_hit
set_pending q s vector = elim (get_or q.vectors vector none) [
  | none ↦ (q, s)
  | some d ↦ (
    record q { pending = set q.pending vector true },
    elim (vector_bit vector) [ none ↦ s | some bit ↦ wake_hit q.any_mask 0 bit s ],
  )
]

-- The loops of `remove_domain`: a registration of the domain is taken off.
unfoldable pub unregister : List (Option ℕ) → ℕ → List (Option ℕ)
unregister [] domain = []
unregister (o ∷ os) domain = (if is_domain o domain then none else o) ∷ unregister os domain

-- `remove_domain`
unfoldable pub remove_domain : Irqs → ℕ → Irqs
unfolding unregister
remove_domain q domain = record q {
  any_mask = if ltb domain any_max_domains then set q.any_mask domain 0 else q.any_mask;
  vectors = unregister q.vectors domain;
  handlers = unregister q.handlers domain;
}

-- The loop of `irq_mask_ok` (kernel/src/syscall.rs), from bit `i` on, for the `n` bits that are left.
unfoldable pub mask_ok_from : CapTable → Irqs → ℕ → ℕ → ℕ → ℕ → Option Bool
unfolding is_registered_by
mask_ok_from caps q domain mask i zero = some true
mask_ok_from caps q domain mask i (suc n) =
    let rest = mask_ok_from caps q domain mask (i + 1) n in
    if not (has_bit mask i)
    then rest
    else (has caps domain (irq (msi_vector_base + i)) >>= λ may.
        if not may || not (is_registered_by q (msi_vector_base + i) domain)
        then some false
        else rest)

-- `irq_mask_ok`
unfoldable pub irq_mask_ok : CapTable → Irqs → ℕ → ℕ → Option Bool
unfolding mask_ok_from
irq_mask_ok caps q domain mask = mask_ok_from caps q domain mask 0 msi_vector_count

abbrev vector_or_zero : Option ℕ → ℕ
vector_or_zero none = 0
vector_or_zero (some v) = v

-- `SYS_IRQ_POLL`
unfoldable pub irq_poll : CapTable → Irqs → ℕ → ℕ → Option (Irqs × ℕ)
unfolding irq_mask_ok take_pending_any
irq_poll caps q domain mask = if mask == 0 then some (q, 0) else (do
  ok ← irq_mask_ok caps q domain mask
  if not ok
      then some (q, 0)
      else some
          ((take_pending_any q mask domain).0, vector_or_zero (take_pending_any q mask domain).1))

-- `SYS_IRQ_WAIT` up to where it blocks: a vector or 0 at once, or no answer, and the mask is noted and
-- the task is to be blocked.
unfoldable pub irq_wait : CapTable → Irqs → ℕ → ℕ → Option (Irqs × Option ℕ)
unfolding irq_mask_ok take_pending_any set_any_mask
irq_wait caps q domain mask = if mask == 0 then some (q, some 0) else (do
  ok ← irq_mask_ok caps q domain mask
  if not ok then some (q, some 0) else (elim (take_pending_any q mask domain).1 [
    | some v ↦ some ((take_pending_any q mask domain).0, some v)
    | none ↦
        let r = set_any_mask q domain mask in if not r.1 then some (q, some 0) else some (r.0, none)
  ]))

-- `SYS_IRQ_WAIT` from where the task has been woken.
unfoldable pub irq_woken : Irqs → ℕ → ℕ → Irqs × ℕ
unfolding clear_any_mask take_pending_any
irq_woken q domain mask =
    let r = take_pending_any (clear_any_mask q domain) mask domain in (r.0, vector_or_zero r.1)
