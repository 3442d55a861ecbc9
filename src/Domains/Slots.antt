-- ===== src/Domains/Slots.antt =====
-- The slots of the domain table: `slot_for` and `create` of kernel/src/domain.rs.
use morion_os.Prelude.{
  ℕ, zero, suc, ◌+◌, ◌≤◌, ◌<◌, ◌≡◌, inl, inr, refl, ap, true, false, Option, none, some, List, [],
  ◌∷◌, length, get_elem?, get_or, take, arith, dec_lt, ◌==◌, if◌then◌else◌, ==_ne, Option-cases,
}
use morion_os.Domains.{
  Domain, boot_domains, is_boot, slot_for, place, create, is_some, is_alive, alive_count,
}

-- The slot is the first that is free; all below it are taken.
slot_for_lem :
    (ds : List (Option Domain))
    → (get_or ds (slot_for ds) none ≡ none)
      × (alive_count (take (slot_for ds) ds) ≡ slot_for ds)
      × (slot_for ds ≤ length ds)
unfolding slot_for alive_count
slot_for_lem [] = (refl, refl, omega arith)
slot_for_lem (none ∷ ds) = (refl, refl, omega arith)
slot_for_lem (some d ∷ ds) = let (a, b, c) = slot_for_lem ds in (a, omega arith, omega arith)

place_cons :
    (o : Option Domain) (ds : List (Option Domain)) (i : ℕ) (d : Domain)
    → place (o ∷ ds) (suc i) d ≡ o ∷ place ds i d
unfolding place
place_cons o ds i d = elim (Option-cases (get_elem? ds i)) [
  | inl e ↦ rw (e, place) refl
  | inr (v, e) ↦ rw (e, place) refl
]

get_or-place :
    (ds : List (Option Domain)) (id j : ℕ) (d : Domain)
    → id ≤ length ds
    → get_or (place ds id d) j none ≡ (if id == j then some d else get_or ds j none)
unfolding place
get_or-place [] zero zero d h = refl
get_or-place [] zero (suc j) d h = rw (==_ne 0 (suc j) (omega arith)) refl
get_or-place [] (suc id) j d h = absurd (omega arith)
get_or-place (o ∷ ds) zero zero d h = refl
get_or-place (o ∷ ds) zero (suc j) d h = rw (==_ne 0 (suc j) (omega arith)) refl
get_or-place (o ∷ ds) (suc id) zero d h =
    rw (place_cons o ds id d, ==_ne (suc id) 0 (omega arith)) refl
get_or-place (o ∷ ds) (suc id) (suc j) d h =
    let test : (suc id == suc j) ≡ (id == j) = ground arith in
    rw (place_cons o ds id d, test) (get_or-place ds id j d (omega arith))

alive_count-place :
    (ds : List (Option Domain)) (d : Domain)
    → alive_count (place ds (slot_for ds) d) ≡ alive_count ds + 1
unfolding place slot_for alive_count
alive_count-place [] d = refl
alive_count-place (none ∷ ds) d = omega arith
alive_count-place (some e ∷ ds) d =
    let ih = alive_count-place ds d in
    rw (place_cons (some e) ds (slot_for ds) d) (omega (arith, ih))

alive_count-le : (n : ℕ) (ds : List (Option Domain)) → alive_count (take n ds) ≤ n
unfolding alive_count
alive_count-le zero ds = omega arith
alive_count-le (suc n) [] = omega arith
alive_count-le (suc n) (some d ∷ ds) = omega (arith, alive_count-le n ds)
alive_count-le (suc n) (none ∷ ds) = omega (arith, alive_count-le n ds)

alive_count-take :
    (n m : ℕ) (ds : List (Option Domain))
    → alive_count (take n ds) ≡ n
    → m < n
    → is_some (get_or ds m none) ≡ true
unfolding alive_count
alive_count-take zero m ds h lt = absurd (omega arith)
alive_count-take (suc n) m [] h lt = absurd (omega arith)
alive_count-take (suc n) zero (some d ∷ ds) h lt = refl
alive_count-take (suc n) zero (none ∷ ds) h lt = absurd (omega (arith, alive_count-le n ds))
alive_count-take (suc n) (suc m) (some d ∷ ds) h lt =
    alive_count-take n m ds (omega arith) (omega arith)
alive_count-take (suc n) (suc m) (none ∷ ds) h lt = absurd (omega (arith, alive_count-le n ds))

-- A new domain gets the lowest number that no living domain has, and its own page table; no other
-- domain changes.
pub create_lem :
    (ds : List (Option Domain)) (pml4 other : ℕ)
    → (is_alive ds (create ds pml4).1 ≡ false)
      × (alive_count (take (create ds pml4).1 ds) ≡ (create ds pml4).1)
      × (get_or (create ds pml4).0 other none ≡ (
          if (create ds pml4).1 == other
          then some (record { id = (create ds pml4).1; pml4 = pml4 })
          else get_or ds other none))
      × (alive_count (create ds pml4).0 ≡ alive_count ds + 1)
unfolding create is_alive
create_lem ds pml4 other =
    let (free, below, bound) = slot_for_lem ds in
    (
      ap is_some free,
      below,
      get_or-place ds (slot_for ds) other (record { id = slot_for ds; pml4 = pml4 }) bound,
      alive_count-place ds (record { id = slot_for ds; pml4 = pml4 }),
    )

-- As long as the boot domains live, a new domain is none of them, and so may be reclaimed when it ends.
pub is_boot-create :
    (ds : List (Option Domain)) (pml4 : ℕ)
    → alive_count (take boot_domains ds) ≡ boot_domains
    → is_boot (create ds pml4).1 ≡ false
unfolding create is_boot
is_boot-create ds pml4 h = elim (dec_lt (slot_for ds) boot_domains) [
  | yes lt ↦
      let (free, _, _) = slot_for_lem ds in
      absurd (cc (alive_count-take boot_domains (slot_for ds) ds h lt, ap is_some free))
  | no ge ↦ ground arith
]
