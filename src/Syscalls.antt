-- ===== src/Syscalls.antt =====
-- System calls with a gate: arms of `syscall_dispatch` in kernel/src/syscall.rs. The calling domain is
-- that of the current task; the answer is the value that the call returns.
pub mod Gates
mod Tests
use morion_os.Prelude.{
  ℕ, zero, suc, ◌+◌, ◌-◌, ◌*◌, ◌/◌, ◌%◌, ◌^◌, ◌≤◌, ◌<◌, ◌≡◌, ◌≢◌, ◌↔◌, ◌⊎◌, inl, inr, refl, sym, ap,
  ◌∙◌, Bool, true, false, not, ◌&&◌, ◌||◌, Option, none, some, List, [], ◌∷◌, ◌++◌, map, length,
  get_elem?, get_or, set, take, drop, replicate, length-append, length-set, get_elem?-set_self,
  get_elem?-set_ne, get_or-set_self, get_or-set_ne, get_elem?_lt, set-set, set_same, get_elem?-none,
  get_elem?-eq-get_or, length-replicate, length-take, drop_all, take_nil, get_or-append_left,
  get_or-append_end, drop-split, set_padded, set_padded_self, set_padded_other, set_padded_ne,
  length-set_padded, get_or-set_padded, suc_test, arith, ite, if_pos, if_neg, dec_lt, dec_le,
  ℕ_discrete, ltb, leb, ◌==◌, if◌then◌else◌, ltb→lt, lt→ltb, leb→le, le→leb, ==_iff, ==_self, ==_ne,
  Bool-cases, Option-cases, ◌>>=◌, >>=-eq-some, some_inj, if-inv, u64_max, bit_or-disjoint, min,
  max,
}
use morion_os.Cap.{Capability, irq, spawn, send_to, pack_audit}
use morion_os.Cap.Table.{CapTable, has, audit_slot}
use morion_os.Cap.Handles.{HandleTable, handle_move}
use morion_os.Sched.{Scheduler}
use morion_os.Sched.Ops.{current_domain, current_reply_target, wake_one, live_tasks}
use morion_os.Irq.{Irqs, register, register_vector}
use morion_os.Net.{bind, owner}
use morion_os.Pager.{of}
use morion_os.Domains.{World, destroy, is_alive}

abbrev pub is_it : Option ℕ → ℕ → Bool
is_it none d = false
is_it (some e) d = e == d

-- `SYS_DOMAIN_DESTROY`
unfoldable pub domain_destroy : World → ℕ → Option (World × ℕ)
unfolding destroy
domain_destroy w a1 = do
  from ← current_domain w.sched
  may ← has w.caps from spawn
  if not may
      then some (w, 0)
      else if not (is_it (of w.pagers a1) from)
      then some (w, 0)
      else some ((destroy w a1).0, if (destroy w a1).1 then 1 else 0)

-- `SYS_REGISTER_IRQ`
unfoldable pub register_irq : World → ℕ → Option (World × ℕ)
unfolding register register_vector
register_irq w a1 = do
  domain ← current_domain w.sched
  may ← has w.caps domain (irq (a1 % 256))
  if not may
      then some (w, 0)
      else if ltb (a1 % 256) 16
      then some (record w { irqs = register w.irqs (a1 % 256) domain }, 1)
      else if leb 32 (a1 % 256)
      then some (record w { irqs = register_vector w.irqs (a1 % 256) domain }, 1)
      else some (w, 0)

-- `SYS_HANDLE_SEND`
unfoldable pub handle_send : World → ℕ → ℕ → Option (World × ℕ)
unfolding handle_move
handle_send w a1 a2 = do
  me ← current_domain w.sched
  may ← has w.caps me (send_to a1)
  if not may
      then some (w, u64_max)
      else some (
        record w { handles = (handle_move w.handles me a1 a2).0 },
        (handle_move w.handles me a1 a2).1,
      )

-- `SYS_CAP_AUDIT`
unfoldable pub cap_audit : World → ℕ → ℕ → Option ℕ
unfolding audit_slot
cap_audit w a1 a2 = do
  me ← current_domain w.sched
  may ← has w.caps me spawn
  if not may then some 0 else (elim (audit_slot w.caps a1 a2) [
    | some (some cap) ↦ some (pack_audit cap)
    | some none ↦ some 0
    | none ↦ some u64_max
  ])

-- `SYS_NET_BIND`
unfoldable pub net_bind : World → ℕ → Option (World × ℕ)
unfolding bind
net_bind w a1 = do
  me ← current_domain w.sched
  some (
    record w { ports = (bind w.caps w.ports me (a1 % 2 ^ 16)).0 },
    if (bind w.caps w.ports me (a1 % 2 ^ 16)).1 then 1 else 0,
  )

-- `SYS_NET_OWNER`
unfoldable pub net_owner : World → ℕ → ℕ
unfolding owner
net_owner w a1 = owner w.ports (a1 % 2 ^ 16)

-- `SYS_PAGE_FAULT_REPLY`
unfoldable pub page_fault_reply : World → Option (World × ℕ)
unfolding wake_one
page_fault_reply w = do
  target ← current_reply_target w.sched
  if target == u64_max then some (w, 0) else some (record w { sched = wake_one w.sched target }, 1)

-- `SYS_DOMAIN_ALIVE`
unfoldable pub domain_alive : World → ℕ → ℕ
unfolding is_alive live_tasks
domain_alive w a1 = if is_alive w.domains a1 && ltb 0 (live_tasks w.sched a1) then 1 else 0
