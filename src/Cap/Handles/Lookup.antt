-- ===== src/Cap/Handles/Lookup.antt =====
-- What a lookup finds after each write to the handle table.
use morion_os.Prelude.{
  ℕ, zero, suc, ◌≡◌, ◌≢◌, ◌⊎◌, inl, inr, refl, ◌∙◌, Option, none, some, [], ◌∷◌, get_elem?, set,
  get_elem?-set_self, get_elem?-set_ne, get_elem?_lt, arith, ◌==◌, if◌then◌else◌, Bool-cases,
  Option-cases, u64_max,
}
use morion_os.Cap.Slots.{Slots, first_empty, first_empty-some, first_empty-none, slot_at}
use morion_os.Cap.Handles.{HandleTable, handle_issue, handle_lookup, write}

lookup_row :
    (t : HandleTable) (d h : ℕ) (s : Slots ℕ)
    → get_elem? t d ≡ some s
    → handle_lookup t d h ≡ slot_at s h
unfolding handle_lookup
lookup_row t d h s e = rw (e, handle_lookup)

slot_at-set :
    (s : Slots ℕ) (i : ℕ) (v old : Option ℕ) (k : ℕ)
    → get_elem? s i ≡ some old
    → slot_at (set s i v) k ≡ (if i == k then v else slot_at s k)
unfolding slot_at
slot_at-set [] i v old k h = absurd (cc)
slot_at-set (x ∷ s) zero v old zero h = refl
slot_at-set (x ∷ s) zero v old (suc k) h = ground arith
slot_at-set (x ∷ s) (suc i) v old zero h = ground arith
slot_at-set (x ∷ s) (suc i) v old (suc k) h = ground (arith, slot_at-set s i v old k h)

-- A write to an existing slot is what is found there, and nothing else changes.
pub lookup-set :
    (t : HandleTable) (d : ℕ) (s : Slots ℕ) (i : ℕ) (v old : Option ℕ) (e k : ℕ)
    → get_elem? t d ≡ some s
    → get_elem? s i ≡ some old
    → handle_lookup (set t d (set s i v)) e k
      ≡ (if d == e then (if i == k then v else handle_lookup t e k) else handle_lookup t e k)
unfolding handle_lookup
lookup-set t d s i v old e k row slot = elim (Bool-cases (d == e)) [
  | inl y ↦
      let p : d ≡ e = ground arith in
      rw y (
        rw (← p) (
          lookup_row _ d k _ (get_elem?-set_self t d (set s i v) (get_elem?_lt t d s row))
          ∙ slot_at-set s i v old k slot
          ∙ rw (row, handle_lookup)))
  | inr n ↦ rw (n, get_elem?-set_ne t d e (set s i v) (ground arith), handle_lookup)
]

-- A found object lies in a slot of a row.
pub lookup_some :
    (t : HandleTable) (d h o : ℕ)
    → handle_lookup t d h ≡ some o
    → (s : Slots ℕ) × (get_elem? t d ≡ some s) × (get_elem? s h ≡ some (some o))
unfolding handle_lookup slot_at
lookup_some t d h o e = elim (Option-cases (get_elem? t d)) [
  | inl out ↦ absurd (ground arith)
  | inr (s, row) ↦ (s, row, ground arith)
]

-- The domain has no row, or every slot of its row is taken.
abbrev pub HasNoRoom : HandleTable → ℕ → Type 0
HasNoRoom t d =
    (get_elem? t d ≡ none)
    ⊎ ((s : Slots ℕ) × (get_elem? t d ≡ some s) × ((k : ℕ) → get_elem? s k ≢ some none))

-- `handle_issue` finds no room, or fills a slot that was empty.
pub handle_issue_cases :
    (t : HandleTable) (d o : ℕ)
    → ((handle_issue t d o ≡ (t, u64_max)) × HasNoRoom t d)
      ⊎ ((s : Slots ℕ) × (i : ℕ) × (get_elem? t d ≡ some s)
          × (get_elem? s i ≡ some none)
          × (handle_issue t d o ≡ (set t d (set s i (some o)), i)))
unfolding handle_issue
handle_issue_cases t d o = elim (Option-cases (get_elem? t d)) [
  | inl out ↦ rw (out, handle_issue) (inl (refl, inl refl))
  | inr (s, row) ↦ elim (Option-cases (first_empty s)) [
    | inl full ↦
        inl (rw (row, handle_issue) (rw full refl), inr (s, row, λ k. first_empty-none s k full))
    | inr (i, free) ↦
        inr (s, i, row, first_empty-some s i free, rw (row, handle_issue) (rw free refl))
  ]
]

pub write_row :
    (t : HandleTable) (d h : ℕ) (v : Option ℕ) (s : Slots ℕ)
    → get_elem? t d ≡ some s
    → write t d h v ≡ set t d (set s h v)
unfolding write
write_row t d h v s row = rw (row, write)
