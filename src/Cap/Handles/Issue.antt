-- ===== src/Cap/Handles/Issue.antt =====
-- New handles, and writes to a row: `handle_issue` of kernel/src/cap.rs.
use morion_os.Prelude.{
  ℕ, ◌<◌, ◌≡◌, ◌≢◌, ◌⊎◌, inl, inr, sym, ap, ◌∙◌, Option, none, some, length, get_elem?, set,
  length-set, get_elem?-set_self, get_elem?-set_ne, get_elem?_lt, set-set, set_same, arith,
  ℕ_discrete, ◌==◌, if◌then◌else◌, some_inj, u64_max,
}
use morion_os.Cap.{handle_slots}
use morion_os.Cap.Slots.{Slots, slot_at}
use morion_os.Cap.Handles.{HandleTable, handle_issue, handle_lookup, write}
use morion_os.Cap.Handles.Lookup.{HasNoRoom, lookup-set, handle_issue_cases, write_row}

-- Every row has its 32 slots.
abbrev pub IsSized : HandleTable → Type 0
IsSized t = (d : ℕ) (s : Slots ℕ) → get_elem? t d ≡ some s → length s ≡ handle_slots

-- The table after a slot of it has been written.
abbrev pub Written : HandleTable → ℕ → ℕ → Option ℕ → HandleTable → Type 0
Written t d h v u =
    (e k : ℕ)
    → handle_lookup u e k
      ≡ (if d == e then (if h == k then v else handle_lookup t e k) else handle_lookup t e k)

-- An index that `handle_issue` finds in a sized table is no `u64::MAX`.
small_index :
    (t : HandleTable) (d i : ℕ) (s : Slots ℕ) (v : Option ℕ)
    → IsSized t
    → get_elem? t d ≡ some s
    → get_elem? s i ≡ some v
    → i < handle_slots
small_index t d i s v sized row slot = omega (arith, sized d s row, get_elem?_lt s i v slot)

module _ (t : HandleTable) (d o : ℕ) (sized : IsSized t) where
  pub issue_full : (handle_issue t d o).1 ≡ u64_max → ((handle_issue t d o).0 ≡ t) × HasNoRoom t d
  issue_full h = elim (handle_issue_cases t d o) [
    | inl (e, full) ↦ (ap (λ (p : HandleTable × ℕ). p.0) e, full)
    | inr (s, i, row, slot, e) ↦ absurd (
        omega (arith, small_index t d i s none sized row slot, ap (λ (p : HandleTable × ℕ). p.1) e))
  ]

  pub issue_Written :
      (handle_issue t d o).1 ≢ u64_max
      → (handle_lookup t d (handle_issue t d o).1 ≡ none)
        × Written t d (handle_issue t d o).1 (some o) (handle_issue t d o).0
  unfolding handle_lookup slot_at
  issue_Written h = elim (handle_issue_cases t d o) [
    | inl (e, _) ↦ absurd (h (ap (λ (p : HandleTable × ℕ). p.1) e))
    | inr (s, i, row, slot, e) ↦ rw e (
      rw (row, handle_lookup) (ground arith),
      λ b k. lookup-set t d s i (some o) none b k row slot,
    )
  ]

  -- A handle that is issued is the number of a slot that was empty: from then on it leads to the
  -- object, and every other handle of every domain to what it led before. With no room, or no such
  -- domain, nothing changes.
  pub handle_issue_lem :
      (handle_issue t d o ≡ (t, u64_max))
      ⊎ ((handle_issue t d o).1 ≢ u64_max)
        × (handle_lookup t d (handle_issue t d o).1 ≡ none)
        × ((e k : ℕ)
            → handle_lookup (handle_issue t d o).0 e k ≡ (
                if d == e
                then (if (handle_issue t d o).1 == k then some o else handle_lookup t e k)
                else handle_lookup t e k))
  handle_issue_lem = elim (ℕ_discrete (handle_issue t d o).1 u64_max) [
    | yes full ↦ inl (ground (arith, (issue_full full).0))
    | no room ↦ inr (room, (issue_Written room).0, (issue_Written room).1)
  ]

pub write-IsSized :
    (t : HandleTable) (d h : ℕ) (v : Option ℕ) (s : Slots ℕ)
    → IsSized t
    → get_elem? t d ≡ some s
    → IsSized (write t d h v)
write-IsSized t d h v s sized row = rw (write_row t d h v s row) each
  where
    each : IsSized (set t d (set s h v))
    each e r found = elim (ℕ_discrete d e) [
      | yes p ↦
          let here = get_elem?-set_self t d (set s h v) (get_elem?_lt t d s row) in
          let same : set s h v ≡ r = some_inj (sym here ∙ (rw (← p) at found)) in
          omega (arith, ap length same, length-set s h v, sized d s row)
      | no n ↦ sized e r (sym (get_elem?-set_ne t d e (set s h v) n) ∙ found)
    ]

-- Putting back what was taken out.
pub restore :
    (t : HandleTable) (d h o : ℕ) (s : Slots ℕ)
    → get_elem? t d ≡ some s
    → get_elem? s h ≡ some (some o)
    → write (write t d h none) d h (some o) ≡ t
restore t d h o s row slot =
    let taken = write_row t d h none s row in
    let row' = get_elem?-set_self t d (set s h none) (get_elem?_lt t d s row) in
    let again = write_row (set t d (set s h none)) d h (some o) (set s h none) row' in
    rw taken (
      again
      ∙ set-set t d (set s h none) (set (set s h none) h (some o))
      ∙ ap (λ r. set t d r) (set-set s h none (some o) ∙ set_same s h (some o) slot)
      ∙ set_same t d s row)
