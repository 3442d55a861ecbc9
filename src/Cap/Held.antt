-- ===== src/Cap/Held.antt =====
-- How often a domain holds a capability, under each function of Cap/Table.antt.
use morion_os.Prelude.{
  ℕ, ◌+◌, ◌*◌, ◌≤◌, ◌<◌, ◌≡◌, ◌≢◌, ◌↔◌, ◌⊎◌, inl, inr, refl, sym, ap, ◌∙◌, Bool, true, false,
  Option, none, some, get_elem?, set, get_elem?-set_self, get_elem?-set_ne, get_elem?_lt,
  set_padded, set_padded_self, set_padded_other, set_padded_ne, arith, ite, ℕ_discrete, Bool-cases,
  Option-cases,
}
use morion_os.Cap.{Capability, Capability-discrete, cap_slots}
use morion_os.Cap.Slots.{
  Slots, first_empty, first_empty-some, position, position-some, contains, contains_iff, count,
  count-set, count-replicate, occurs, occurs_self, occurs_pos,
}
use morion_os.Cap.Table.{CapTable, empty_row, set_row, holds, grant, store, revoke, erase, give}

abbrev pub count_of : Slots Capability → Capability → ℕ
count_of = count Capability-discrete

-- The number of slots in which a domain holds a capability.
unfoldable pub held : CapTable → ℕ → Capability → ℕ
held table domain cap = elim (get_elem? table domain) [ none ↦ 0 | some slots ↦ count_of slots cap ]

pub holds_iff : (t : CapTable) (d : ℕ) (c : Capability) → (holds t d c ≡ true) ↔ (0 < held t d c)
unfolding holds held
holds_iff t d c = elim (Option-cases (get_elem? t d)) [
  | inl e ↦ rw (e, holds, held) (ground arith)
  | inr (s, e) ↦ rw (e, holds, held) (contains_iff Capability-discrete s c)
]

pub held_row :
    (t : CapTable) (d : ℕ) (s : Slots Capability) (c : Capability)
    → get_elem? t d ≡ some s
    → held t d c ≡ count_of s c
unfolding held
held_row t d s c e = rw (e, held)

pub held-set_self :
    (t : CapTable) (d : ℕ) (old s : Slots Capability) (c : Capability)
    → get_elem? t d ≡ some old
    → held (set t d s) d c ≡ count_of s c
held-set_self t d old s c e =
    held_row (set t d s) d s c (get_elem?-set_self t d s (get_elem?_lt t d old e))

pub held-set_ne :
    (t : CapTable) (d e : ℕ) (s : Slots Capability) (c : Capability)
    → d ≢ e
    → held (set t d s) e c ≡ held t e c
unfolding held
held-set_ne t d e s c n = rw (get_elem?-set_ne t d e s n, held)

-- 1 at the domain and the capability that are written, else 0.
unfoldable pub hit : ℕ → Capability → ℕ → Capability → ℕ
hit d c e x = ite (ℕ_discrete d e) (occurs Capability-discrete x (some c)) 0

pub hit_pos : (d e : ℕ) (c x : Capability) → 0 < hit d c e x → (d ≡ e) × (c ≡ x)
unfolding hit
hit_pos d e c x h = elim (ℕ_discrete d e) [
  | yes p ↦ (p, occurs_pos Capability-discrete x c (ground arith))
  | no n ↦ absurd (ground arith)
]

pub hit_self : (d : ℕ) (c : Capability) → hit d c d c ≡ 1
unfolding hit
hit_self d c = ground (arith, occurs_self Capability-discrete c)

abbrev pub as_ℕ : Bool → ℕ
as_ℕ true = 1
as_ℕ false = 0

pub held-store :
    (t : CapTable) (d : ℕ) (s : Slots Capability) (c : Capability) (e : ℕ) (x : Capability)
    → get_elem? t d ≡ some s
    → held (store t d s c).0 e x ≡ held t e x + as_ℕ (store t d s c).1 * hit d c e x
unfolding store hit occurs
held-store t d s c e x row = elim (Option-cases (first_empty s)) [
  | inl full ↦ rw (full, store) (omega arith)
  | inr (i, free) ↦
      rw (free, store)
        (ground (
          arith,
          held-set_self t d s (set s i (some c)) x row,
          held-set_ne t d e (set s i (some c)) x,
          count-set Capability-discrete s i none (some c) x (first_empty-some s i free),
          held_row t d s x row,
        ))
]

pub held-erase :
    (t : CapTable) (d : ℕ) (s : Slots Capability) (c : Capability) (e : ℕ) (x : Capability)
    → get_elem? t d ≡ some s
    → held (erase t d s c).0 e x + as_ℕ (erase t d s c).1 * hit d c e x ≡ held t e x
unfolding erase hit occurs
held-erase t d s c e x row = elim (Option-cases (position Capability-discrete s c)) [
  | inl absent ↦ rw (absent, erase) (omega arith)
  | inr (i, found) ↦
      rw (found, erase)
        (ground (
          arith,
          held-set_self t d s (set s i none) x row,
          held-set_ne t d e (set s i none) x,
          count-set Capability-discrete s i (some c) none x
              (position-some Capability-discrete s c i found),
          held_row t d s x row,
        ))
]

-- A capability that is given is one more there, and nothing else changes; one that is held already is
-- not stored again.
pub held-give :
    (t : CapTable) (to : ℕ) (c : Capability) (e : ℕ) (x : Capability)
    → (held (give t to c).0 e x ≡ held t e x)
      ⊎ (held (give t to c).0 e x ≡ held t e x + hit to c e x) × ((give t to c).1 ≡ true)
unfolding give
held-give t to c e x = elim (Option-cases (get_elem? t to)) [
  | inl e₁ ↦ rw (e₁, give) (inl refl)
  | inr (s, row) ↦ elim (Bool-cases (contains Capability-discrete s c)) [
    | inl old ↦ rw (row, give) (rw old (inl refl))
    | inr new ↦ rw (row, give) (rw new (ground (arith, held-store t to s c e x row)))
  ]
]

pub held-none : (t : CapTable) (d : ℕ) (c : Capability) → get_elem? t d ≡ none → held t d c ≡ 0
unfolding held
held-none t d c e = rw (e, held)

count-empty_row : (x : Capability) → count_of empty_row x ≡ 0
count-empty_row x = count-replicate Capability-discrete cap_slots x

pub held-set_row_self :
    (t : CapTable) (id : ℕ) (x : Capability) → held (set_row t id empty_row) id x ≡ 0
unfolding set_row held
held-set_row_self t id x =
    rw (set_padded_self empty_row t id empty_row, held)
      (count-replicate Capability-discrete cap_slots x)

pub held-set_row_ne :
    (t : CapTable) (id e : ℕ) (x : Capability)
    → id ≢ e
    → held (set_row t id empty_row) e x ≡ held t e x
unfolding set_row
held-set_row_ne t id e x n = elim (Option-cases (get_elem? t e)) [
  | inr (s, old) ↦
      let row = set_padded_ne empty_row t id e empty_row s n old in
      held_row (set_row t id empty_row) e s x row ∙ sym (held_row t e s x old)
  | inl out ↦
      held_padding out (get_elem? (set_padded empty_row t id empty_row) e) refl
      ∙ sym (held-none t e x out)
]
  where
    held_padding :
        get_elem? t e ≡ none
        → (o : Option (Slots Capability)) → get_elem? (set_padded empty_row t id empty_row) e ≡ o
        → held (set_row t id empty_row) e x ≡ 0
    held_padding out none row = held-none (set_row t id empty_row) e x row
    held_padding out (some s) row = elim (set_padded_other empty_row t id e empty_row s n row) [
      | inl old ↦ absurd (cc old)
      | inr new ↦
          held_row (set_row t id empty_row) e s x row
          ∙ ap (λ r. count_of r x) new
          ∙ count-empty_row x
    ]

-- A row that is reset or added gives nobody a capability.
pub held-set_row :
    (t : CapTable) (id e : ℕ) (x : Capability) → held (set_row t id empty_row) e x ≤ held t e x
held-set_row t id e x = elim (ℕ_discrete id e) [
  | yes p ↦ rw (← p) (omega (arith, held-set_row_self t id x))
  | no n ↦ omega (arith, held-set_row_ne t id e x n)
]

pub held-grant :
    (t : CapTable) (d : ℕ) (c : Capability) (r : CapTable × Bool) (e : ℕ) (x : Capability)
    → grant t d c ≡ some r
    → held r.0 e x ≡ held t e x + as_ℕ r.1 * hit d c e x
unfolding grant
held-grant t d c r e x h = elim (Option-cases (get_elem? t d)) [
  | inl out ↦ absurd (ground arith)
  | inr (s, row) ↦ ground (arith, held-store t d s c e x row)
]

pub held-revoke :
    (t : CapTable) (d : ℕ) (c : Capability) (r : CapTable × Bool) (e : ℕ) (x : Capability)
    → revoke t d c ≡ some r
    → held r.0 e x + as_ℕ r.1 * hit d c e x ≡ held t e x
unfolding revoke
held-revoke t d c r e x h = elim (Option-cases (get_elem? t d)) [
  | inl out ↦ absurd (ground arith)
  | inr (s, row) ↦ ground (arith, held-erase t d s c e x row)
]
