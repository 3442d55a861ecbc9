-- ===== src/Cap/Delegate.antt =====
-- What `delegate`, `grant` and `revoke` of kernel/src/cap.rs do to every domain's capabilities.
use morion_os.Prelude.{
  ℕ, ◌+◌, ◌*◌, ◌<◌, ◌≡◌, ◌≢◌, ◌↔◌, ◌⊎◌, inl, inr, Bool, true, false, none, some, get_elem?, arith,
  dec_lt, ℕ_discrete, ◌==◌, if◌then◌else◌, ==_ne, Option-cases,
}
use morion_os.Cap.{Capability, Capability-discrete}
use morion_os.Cap.Slots.{Slots, first_empty, first_empty-none, contains_iff}
use morion_os.Cap.Table.{
  CapTable, empty_row, set_row, add_domain, remove_domain, holds, grant, store, revoke, give,
  delegate,
}
use morion_os.Cap.Held.{
  held, held_row, holds_iff, hit, hit_pos, hit_self, as_ℕ, held-store, held-give, held-grant,
  held-revoke, held-set_row_ne, held-set_row_self,
}

-- A delegation that is refused leaves the table as it was, and one from a domain without the
-- capability is refused.
refused_unchanged :
    (t : CapTable) (from to : ℕ) (c : Capability)
    → (delegate t from to c).1 ≡ false
    → (delegate t from to c).0 ≡ t
unfolding delegate give store
refused_unchanged t from to c h = ground arith

give_holds :
    (t : CapTable) (to : ℕ) (c : Capability)
    → (give t to c).1 ≡ true
    → 0 < held (give t to c).0 to c
unfolding give
give_holds t to c h = elim (Option-cases (get_elem? t to)) [
  | inl out ↦ absurd (ground arith)
  | inr (s, row) ↦ ground (
    arith,
    contains_iff Capability-discrete s c,
    held_row t to s c row,
    held-store t to s c to c row,
    hit_self to c,
  )
]

give_room :
    (t : CapTable) (to : ℕ) (s : Slots Capability) (c : Capability) (i : ℕ)
    → get_elem? t to ≡ some s
    → first_empty s ≡ some i
    → (give t to c).1 ≡ true
unfolding give store
give_room t to s c i row free = ground arith

module _ (t : CapTable) (from to : ℕ) (c : Capability) where
  delegate_owner : holds t from c ≡ true → delegate t from to c ≡ give t to c
  unfolding delegate
  delegate_owner own = rw own

  delegate_stranger : holds t from c ≡ false → delegate t from to c ≡ (t, false)
  unfolding delegate
  delegate_stranger stranger = rw stranger

  delegate-held :
      (e : ℕ) (x : Capability)
      → (held (delegate t from to c).0 e x ≡ held t e x)
        ⊎ ((held (delegate t from to c).0 e x ≡ held t e x + hit to c e x)
            × ((delegate t from to c).1 ≡ true))
  unfolding delegate
  delegate-held e x = ground (arith, held-give t to c e x)

  delegate_owned : (delegate t from to c).1 ≡ true → holds t from c ≡ true
  unfolding delegate
  delegate_owned h = ground arith

module _ (t : CapTable) (from to : ℕ) (c : Capability) where
  after_holds : (delegate t from to c).1 ≡ true → holds (delegate t from to c).0 to c ≡ true
  after_holds h =
      let e = delegate_owner t from to c (delegate_owned t from to c h) in
      (holds_iff (delegate t from to c).0 to c).1 (rw e (give_holds t to c (rw e at h)))

  after_iff :
      (delegate t from to c).1 ≡ true
      → (e : ℕ) (x : Capability)
      → (holds (delegate t from to c).0 e x ≡ true) ↔ ((holds t e x ≡ true) ⊎ (to ≡ e) × (c ≡ x))
  after_iff h e x = (forth, back)
    where
      forth : holds (delegate t from to c).0 e x ≡ true → (holds t e x ≡ true) ⊎ (to ≡ e) × (c ≡ x)
      forth own = elim (dec_lt 0 (held t e x)) [
        | yes p ↦ inl ((holds_iff t e x).1 p)
        | no n ↦
            let pos = (holds_iff (delegate t from to c).0 e x).0 own in
            inr (hit_pos to e c x (omega (arith, delegate-held t from to c e x)))
      ]

      back : (holds t e x ≡ true) ⊎ (to ≡ e) × (c ≡ x) → holds (delegate t from to c).0 e x ≡ true
      back (inl old) =
          let pos = (holds_iff t e x).0 old in
          (holds_iff (delegate t from to c).0 e x).1 (omega (arith, delegate-held t from to c e x))
      back (inr (p, q)) = rw (← p, ← q) (after_holds h)

  -- A delegation that succeeds is one by a domain that has the capability; afterwards the target has
  -- it, and that is all that changes in what any domain has.
  pub delegate_success :
      (delegate t from to c).1 ≡ true
      → (holds t from c ≡ true)
        × (holds (delegate t from to c).0 to c ≡ true)
        × ((e : ℕ) (x : Capability)
            → (holds (delegate t from to c).0 e x ≡ true)
              ↔ ((holds t e x ≡ true) ⊎ (to ≡ e) × (c ≡ x)))
  delegate_success h = (delegate_owned t from to c h, after_holds h, after_iff h)

  -- A delegation by a domain that has the capability fails only where every slot of the target is
  -- taken, and then changes nothing.
  pub delegate_failure :
      (s : Slots Capability) (i : ℕ)
      → (delegate t from to c).1 ≡ false
      → holds t from c ≡ true
      → get_elem? t to ≡ some s
      → ((delegate t from to c).0 ≡ t) × (get_elem? s i ≢ some none)
  delegate_failure s i h own row = elim (Option-cases (first_empty s)) [
    | inl full ↦ (refused_unchanged t from to c h, first_empty-none s i full)
    | inr (k, free) ↦ absurd (cc (delegate_owner t from to c own, give_room t to s c k row free))
  ]

holds_eq :
    (t u : CapTable) (d e : ℕ) (c : Capability)
    → held t d c ≡ held u e c
    → holds t d c ≡ holds u e c
holds_eq t u d e c h = ground (arith, holds_iff t d c, holds_iff u e c)

holds-set_row :
    (t : CapTable) (id e : ℕ) (x : Capability)
    → holds (set_row t id empty_row) e x ≡ (if id == e then false else holds t e x)
holds-set_row t id e x = elim (ℕ_discrete id e) [
  | yes p ↦
      rw (← p) (ground (arith, holds_iff (set_row t id empty_row) id x, held-set_row_self t id x))
  | no n ↦
      rw (==_ne id e n) (holds_eq (set_row t id empty_row) t e e x (held-set_row_ne t id e x n))
]

-- `revoke` empties one slot only. A capability that was granted to a domain which had it already, as
-- `grant` allows, is therefore still there when it has been revoked.
pub revoke_after_grant_twice :
    (t u v : CapTable) (d : ℕ) (c : Capability) (b : Bool)
    → holds t d c ≡ true
    → grant t d c ≡ some (u, true)
    → revoke u d c ≡ some (v, b)
    → holds v d c ≡ true
revoke_after_grant_twice t u v d c b own g r =
    let had = (holds_iff t d c).0 own in
    let more = held-grant t d c (u, true) d c g in
    let less = held-revoke u d c (v, b) d c r in
    (holds_iff v d c).1 (left b less (omega (arith, more, hit_self d c)))
  where
    left :
        (o : Bool)
        → held v d c + as_ℕ o * hit d c d c ≡ held u d c
        → 1 < held u d c
        → 0 < held v d c
    left true e p = omega (arith, hit_self d c)
    left false e p = omega arith

-- The end of a domain takes all its capabilities and none of any other domain's; so does the start of
-- a new domain under its number.
pub remove_domain_lem :
    (t : CapTable) (id e : ℕ) (x : Capability)
    → (holds (remove_domain t id) e x ≡ (if id == e then false else holds t e x))
      × (holds (add_domain t id) e x ≡ (if id == e then false else holds t e x))
unfolding remove_domain add_domain
remove_domain_lem t id e x = (holds-set_row t id e x, holds-set_row t id e x)
