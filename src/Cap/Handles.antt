-- ===== src/Cap/Handles.antt =====
-- Handles: `HANDLE_TABLE` of kernel/src/cap.rs and the functions on it. A handle is the index of a
-- slot of its domain's row, and the slot holds an opaque object.
pub mod Lookup
pub mod Issue
pub mod Move
use morion_os.Prelude.{
  ℕ, zero, suc, ◌+◌, ◌-◌, ◌*◌, ◌/◌, ◌%◌, ◌^◌, ◌≤◌, ◌<◌, ◌≡◌, ◌≢◌, ◌↔◌, ◌⊎◌, inl, inr, refl, sym, ap,
  ◌∙◌, Bool, true, false, not, ◌&&◌, ◌||◌, Option, none, some, List, [], ◌∷◌, ◌++◌, map, length,
  get_elem?, get_or, set, take, drop, replicate, length-append, length-set, get_elem?-set_self,
  get_elem?-set_ne, get_or-set_self, get_or-set_ne, get_elem?_lt, get_elem?-none,
  get_elem?-eq-get_or, length-replicate, length-take, set_padded, set_padded_self, set_padded_other,
  set_padded_ne, length-set_padded, arith, ite, if_pos, if_neg, dec_lt, dec_le, ℕ_discrete, ltb,
  leb, ◌==◌, if◌then◌else◌, ltb→lt, lt→ltb, leb→le, le→leb, ==_iff, ==_self, ==_ne, Bool-cases,
  Option-cases, ◌>>=◌, >>=-eq-some, some_inj, u64_max, bit_or-disjoint, min, max,
}
use morion_os.Cap.{handle_slots}
use morion_os.Cap.Slots.{Slots, first_empty, slot_at}

-- `HANDLE_TABLE`
abbrev pub HandleTable : Type 0
HandleTable = List (Slots ℕ)

abbrev pub no_handles : Slots ℕ
no_handles = replicate handle_slots none

-- The handle half of `init`.
unfoldable pub init : ℕ → HandleTable
init domain_count = replicate domain_count no_handles

-- `set_row` at the handle table, and the handle halves of `add_domain` and `remove_domain`.
unfoldable pub add_domain : HandleTable → ℕ → HandleTable
unfolding set_padded
add_domain table id = set_padded no_handles table id no_handles

unfoldable pub remove_domain : HandleTable → ℕ → HandleTable
unfolding set_padded
remove_domain table id = set_padded no_handles table id no_handles

-- `handle_issue`: the index of the first empty slot, or `u64::MAX`.
unfoldable pub handle_issue : HandleTable → ℕ → ℕ → HandleTable × ℕ
handle_issue table domain obj = elim (get_elem? table domain) [
  | none ↦ (table, u64_max)
  | some slots ↦ elim (first_empty slots) [
    | none ↦ (table, u64_max)
    | some i ↦ (set table domain (set slots i (some obj)), i)
  ]
]

-- `handle_lookup`
unfoldable pub handle_lookup : HandleTable → ℕ → ℕ → Option ℕ
unfolding slot_at
handle_lookup table domain handle = elim (get_elem? table domain) [
  | none ↦ none
  | some slots ↦ slot_at slots handle
]

-- The write that follows a `slots.get_mut(handle as usize)`.
unfoldable pub write : HandleTable → ℕ → ℕ → Option ℕ → HandleTable
write table domain handle value = elim (get_elem? table domain) [
  | none ↦ table
  | some slots ↦ set table domain (set slots handle value)
]

-- `handle_drop`
unfoldable pub handle_drop : HandleTable → ℕ → ℕ → HandleTable × Bool
unfolding handle_lookup write
handle_drop table domain handle = elim (handle_lookup table domain handle) [
  | none ↦ (table, false)
  | some obj ↦ (write table domain handle none, true)
]

-- The end of `handle_move`: a target with no room has the object put back.
unfoldable pub settle : ℕ → ℕ → ℕ → HandleTable × ℕ → HandleTable × ℕ
unfolding write
settle from handle obj (table, out) =
    if out == u64_max then (write table from handle (some obj), u64_max) else (table, out)

-- `handle_move`: the object is taken out of its slot first, and then finds one in the target's row
-- by the loop that `handle_issue` has too.
unfoldable pub handle_move : HandleTable → ℕ → ℕ → ℕ → HandleTable × ℕ
unfolding handle_lookup write handle_issue settle
handle_move table from to handle = elim (handle_lookup table from handle) [
  | none ↦ (table, u64_max)
  | some obj ↦ settle from handle obj (handle_issue (write table from handle none) to obj)
]
