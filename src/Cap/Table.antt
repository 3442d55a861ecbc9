-- ===== src/Cap/Table.antt =====
-- The capability table of all domains: `CAP_TABLE` of kernel/src/cap.rs and the functions on it.
-- Where the source indexes by `table[domain as usize]`, an index out of range panics: `none`.
-- Interrupts are off and the lock is held in each function, so each is one step.
use morion_os.Prelude.{
  ℕ, Bool, true, false, ◌||◌, Option, none, some, List, [], ◌∷◌, get_elem?, set, replicate,
  set_padded, if◌then◌else◌,
}
use morion_os.Cap.{
  Capability, Capability-discrete, cap_slots, io_port, net, port_in_range, net_port_in_range,
}
use morion_os.Cap.Slots.{Slots, first_empty, position, contains}

-- `CAP_TABLE`
abbrev pub CapTable : Type 0
CapTable = List (Slots Capability)

abbrev pub empty_row : Slots Capability
empty_row = replicate cap_slots none

-- The capability half of `init`.
unfoldable pub init : ℕ → CapTable
init domain_count = replicate domain_count empty_row

-- `set_row` at the capability table.
unfoldable pub set_row : CapTable → ℕ → Slots Capability → CapTable
unfolding set_padded
set_row table id row = set_padded row table id row

-- `add_domain` and `remove_domain`: the row is emptied.
unfoldable pub add_domain : CapTable → ℕ → CapTable
unfolding set_row
add_domain table id = set_row table id empty_row

unfoldable pub remove_domain : CapTable → ℕ → CapTable
unfolding set_row
remove_domain table id = set_row table id empty_row

-- `has`; `none` is the panic of an index out of range.
unfoldable pub has : CapTable → ℕ → Capability → Option Bool
has table domain cap = elim (get_elem? table domain) [
  | none ↦ none
  | some slots ↦ some (contains Capability-discrete slots cap)
]

-- Does the domain have the capability? Out of range: no.
unfoldable pub holds : CapTable → ℕ → Capability → Bool
holds table domain cap = elim (get_elem? table domain) [
  | none ↦ false
  | some slots ↦ contains Capability-discrete slots cap
]

abbrev covers_port : ℕ → Option Capability → Bool
covers_port port (some (io_port base len)) = port_in_range base len port
covers_port port _ = false

abbrev covers_net_port : ℕ → Option Capability → Bool
covers_net_port port (some (net lo hi)) = net_port_in_range lo hi port
covers_net_port port _ = false

-- `slots.iter().any(…)`
unfoldable pub any_slot : (Option Capability → Bool) → Slots Capability → Bool
any_slot test [] = false
any_slot test (o ∷ s) = test o || any_slot test s

-- `has_port`
unfoldable pub has_port : CapTable → ℕ → ℕ → Bool
unfolding any_slot
has_port table domain port = elim (get_elem? table domain) [
  | none ↦ false
  | some slots ↦ any_slot (covers_port port) slots
]

-- `has_net_port`
unfoldable pub has_net_port : CapTable → ℕ → ℕ → Bool
unfolding any_slot
has_net_port table domain port = elim (get_elem? table domain) [
  | none ↦ false
  | some slots ↦ any_slot (covers_net_port port) slots
]

-- `audit_slot`: an index out of range and an empty slot are told apart.
unfoldable pub audit_slot : CapTable → ℕ → ℕ → Option (Option Capability)
audit_slot table domain slot = elim (get_elem? table domain) [
  | none ↦ none
  | some row ↦ get_elem? row slot
]

-- The loop of `grant` and `delegate`: the first empty slot of the row takes the capability.
unfoldable pub store : CapTable → ℕ → Slots Capability → Capability → CapTable × Bool
store table domain slots cap = elim (first_empty slots) [
  | none ↦ (table, false)
  | some i ↦ (set table domain (set slots i (some cap)), true)
]

-- `grant`
unfoldable pub grant : CapTable → ℕ → Capability → Option (CapTable × Bool)
unfolding store
grant table domain cap = elim (get_elem? table domain) [
  | none ↦ none
  | some slots ↦ some (store table domain slots cap)
]

-- The loop of `revoke`: the first slot with the capability is emptied.
unfoldable pub erase : CapTable → ℕ → Slots Capability → Capability → CapTable × Bool
erase table domain slots cap = elim (position Capability-discrete slots cap) [
  | none ↦ (table, false)
  | some i ↦ (set table domain (set slots i none), true)
]

-- `revoke`
unfoldable pub revoke : CapTable → ℕ → Capability → Option (CapTable × Bool)
unfolding erase
revoke table domain cap = elim (get_elem? table domain) [
  | none ↦ none
  | some slots ↦ some (erase table domain slots cap)
]

-- The part of `delegate` behind `held`.
unfoldable pub give : CapTable → ℕ → Capability → CapTable × Bool
unfolding store
give table to cap = elim (get_elem? table to) [
  | none ↦ (table, false)
  | some slots ↦
      if contains Capability-discrete slots cap then (table, true) else store table to slots cap
]

-- `delegate`
unfoldable pub delegate : CapTable → ℕ → ℕ → Capability → CapTable × Bool
unfolding give
delegate table from to cap = if holds table from cap then give table to cap else (table, false)
