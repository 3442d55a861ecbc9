-- ===== src/Net/Ports.antt =====
-- Who owns a port: kernel/src/net.rs.
use morion_os.Prelude.{
  ℕ, ◌≡◌, ◌⊎◌, inl, inr, refl, sym, ap, ◌∙◌, Bool, true, false, not, ◌&&◌, ◌||◌, List, [], ◌∷◌,
  ◌++◌, length, length-append, arith, dec_lt, ℕ_discrete, ltb, leb, ◌==◌, if◌then◌else◌, lt→ltb,
  Bool-cases, u64_max,
}
use morion_os.Cap.Table.{CapTable, has_net_port}
use morion_os.Net.{Binding, max_bindings, is_bound, bind, owner, remove_domain}
use morion_os.Net.Owners.{
  Distinct, Distinct-append, Distinct-remove_domain, IsValid, is_bound-append,
  is_bound-remove_domain, length-remove_domain, owner-append, owner-grown, owner-is_bound_by,
  owner-unbound, same_owner,
}

-- A call of `bind`, with the capabilities that hold at the time. No system call reaches the table
-- otherwise: nothing calls `remove_domain`.
pub data Call : Type 0 where
  binds : CapTable → ℕ → ℕ → Call

unfoldable pub run : List Binding → List Call → List Binding
unfolding bind
run b [] = b
run b (binds caps d p ∷ cs) = run (bind caps b d p).0 cs

if_true : {b : Bool} (x y : ℕ) → b ≡ true → (if b then x else y) ≡ x
if_true x y h = rw h

if_false : {b : Bool} (x y : ℕ) → b ≡ false → (if b then x else y) ≡ y
if_false x y h = rw h

-- In a table of at most 64 bindings with no port bound twice, `bind` succeeds exactly for a domain
-- that may use the port when the port is its own already, or is free and the table is not full.
-- After a success the port belongs to the domain; no other port changes hands. The table grows by
-- that one binding exactly when a free port is bound; a failure, and a success on a port that is
-- the domain's own already, leave it as it is.
pub bind_lem :
    (caps : CapTable) (b : List Binding) (d p q : ℕ)
    → IsValid b
    → ((bind caps b d p).1 ≡ (
        has_net_port caps d p
        && (if is_bound b p then owner b p == d else ltb (length b) max_bindings)))
      × (owner (bind caps b d p).0 q ≡ (if (bind caps b d p).1 && (p == q) then d else owner b q))
      × ((bind caps b d p).0 ≡ (
          if (bind caps b d p).1 && not (is_bound b p)
          then b ++ record { domain = d; port = p } ∷ []
          else b))
unfolding bind
bind_lem caps b d p q v = elim (Bool-cases (has_net_port caps d p)) [
  | inr bars ↦ rw bars (refl, refl, refl)
  | inl may ↦ rw may (elim (Bool-cases (is_bound b p)) [
    | inl taken ↦
        rw (taken, owner-is_bound_by b d p v.distinct taken)
          (refl, same_owner b d p q, no_growth (owner b p == d))
    | inr free ↦ rw free (elim (dec_lt (length b) max_bindings) [
      | yes room ↦
          let test : leb max_bindings (length b) ≡ false = ground arith in
          rw (test, lt→ltb (length b) max_bindings room) (refl, owner-grown b d p q free, refl)
      | no full ↦
          let test : leb max_bindings (length b) ≡ true = ground arith in
          let test' : ltb (length b) max_bindings ≡ false = ground arith in
          rw (test, test') (refl, refl, refl)
    ])
  ])
]
  where
    no_growth :
        (own : Bool) → b ≡ (if own && false then b ++ record { domain = d; port = p } ∷ [] else b)
    no_growth true = refl
    no_growth false = refl

bind-IsValid :
    (caps : CapTable) (b : List Binding) (d p : ℕ) → IsValid b → IsValid (bind caps b d p).0
unfolding bind
bind-IsValid caps b d p v = elim (Bool-cases (has_net_port caps d p)) [
  | inr bars ↦ rw bars v
  | inl may ↦ rw may (elim (Bool-cases (is_bound b p)) [
    | inl taken ↦ rw taken v
    | inr free ↦ rw free (elim (dec_lt (length b) max_bindings) [
      | yes room ↦
          let test : leb max_bindings (length b) ≡ false = ground arith in
          rw test (record {
            distinct = Distinct-append b (record { domain = d; port = p }) v.distinct free;
            bounded = rw (length-append b (record { domain = d; port = p } ∷ [])) (omega arith);
          })
      | no full ↦ let test : leb max_bindings (length b) ≡ true = ground arith in rw test v
    ])
  ])
]

removed-IsValid : (b : List Binding) (d : ℕ) → IsValid b → IsValid (remove_domain b d)
removed-IsValid b d v = record {
  distinct = Distinct-remove_domain b d v.distinct;
  bounded = omega (arith, length-remove_domain b d, v.bounded);
}

empty-IsValid : IsValid []
unfolding Distinct
empty-IsValid = record { distinct = tt; bounded = omega arith }

run-IsValid : (b : List Binding) (cs : List Call) → IsValid b → IsValid (run b cs)
unfolding run
run-IsValid b [] v = v
run-IsValid b (binds caps d p ∷ cs) v =
    run-IsValid (bind caps b d p).0 cs (bind-IsValid caps b d p v)

-- `remove_domain` frees the ports of the domain and no other.
pub owner-remove_domain :
    (b : List Binding) (d q : ℕ)
    → Distinct b
    → owner (remove_domain b d) q ≡ (if owner b q == d then u64_max else owner b q)
unfolding owner remove_domain Distinct
owner-remove_domain [] d q v = ground arith
owner-remove_domain (y ∷ b) d q v =
    let ih = owner-remove_domain b d q v.1 in
    let free : y.port ≡ q → is_bound b q ≡ false = λ e. ap (is_bound b) (sym e) ∙ v.0 in
    elim (ℕ_discrete y.port q) [
      | yes e ↦
          let gone : owner (remove_domain b d) q ≡ u64_max =
            owner-unbound (remove_domain b d) q (is_bound-remove_domain b d q (free e)) in
          elim (Bool-cases (y.domain == d)) [
            | inl t ↦ rw t (ground arith)
            | inr t ↦ rw t (ground arith)
          ]
      | no n ↦ elim (Bool-cases (y.domain == d)) [
        | inl t ↦ rw t (ground arith)
        | inr t ↦ rw t (ground arith)
      ]
    ]

-- Some bind of the port by a domain with this number, with the capability for it at the time.
unfoldable pub earned : List Call → ℕ → ℕ → Bool
earned [] d p = false
earned (binds caps e q ∷ cs) d p = ((e == d) && (q == p) && has_net_port caps e q) || earned cs d p

-- A port that is bound stays with its owner.
bind-owned :
    (caps : CapTable) (b : List Binding) (d p q : ℕ)
    → IsValid b
    → is_bound b q ≡ true
    → (owner (bind caps b d p).0 q ≡ owner b q) × (is_bound (bind caps b d p).0 q ≡ true)
bind-owned caps b d p q v h =
    let (_, _, grown) = bind_lem caps b d p q v in
    elim (Bool-cases ((bind caps b d p).1 && not (is_bound b p))) [
      | inl e ↦
          let x : Binding = record { domain = d; port = p } in
          let same : (bind caps b d p).0 ≡ b ++ x ∷ [] = grown ∙ rw e refl in
          rw same (owner-append b x q ∙ rw h refl, is_bound-append b x q ∙ rw h refl)
      | inr e ↦ let same : (bind caps b d p).0 ≡ b = grown ∙ rw e refl in rw same (refl, h)
    ]

run-owned :
    (b : List Binding) (cs : List Call) (q : ℕ)
    → IsValid b
    → is_bound b q ≡ true
    → owner (run b cs) q ≡ owner b q
unfolding run
run-owned b [] q v h = refl
run-owned b (binds caps d p ∷ cs) q v h =
    let (same, still) = bind-owned caps b d p q v h in
    run-owned (bind caps b d p).0 cs q (bind-IsValid caps b d p v) still ∙ same

run-owner :
    (b : List Binding) (cs : List Call) (p : ℕ)
    → IsValid b
    → (owner (run b cs) p ≡ owner b p) ⊎ (earned cs (owner (run b cs) p) p ≡ true)
unfolding run earned
run-owner b [] p v = inl refl
run-owner b (binds caps d q ∷ cs) p v =
    let (done, whose, _) = bind_lem caps b d q p v in
    elim (run-owner (bind caps b d q).0 cs p (bind-IsValid caps b d q v)) [
      | inl e ↦ elim (Bool-cases ((bind caps b d q).1 && (q == p))) [
        | inl t ↦ inr (ground (arith, e, whose, done, t))
        | inr t ↦ inl (e ∙ (whose ∙ if_false _ _ t))
      ]
      | inr e ↦ inr (ground (arith, e))
    ]

-- From an empty table on, whatever binds `cs` there were: a port has no owner, or the number of its
-- owner has bound it among `cs` with a capability for it at the time, and keeps it through all
-- binds `ds` that follow. No port is bound twice, and there are at most 64 bindings. The owner is
-- the number of a domain.
pub run-owner-earned :
    (cs ds : List Call) (p : ℕ)
    → ((owner (run [] cs) p ≡ u64_max)
        ⊎ ((earned cs (owner (run [] cs) p) p ≡ true)
            × (owner (run (run [] cs) ds) p ≡ owner (run [] cs) p)))
      × IsValid (run [] cs)
unfolding owner
run-owner-earned cs ds p =
    let valid = run-IsValid [] cs empty-IsValid in
    (
      elim (Bool-cases (is_bound (run [] cs) p)) [
        | inr free ↦ inl (owner-unbound (run [] cs) p free)
        | inl bound ↦ elim (run-owner [] cs p empty-IsValid) [
          | inl e ↦ inl e
          | inr e ↦ inr (e, run-owned (run [] cs) ds p valid bound)
        ]
      ],
      valid,
    )
