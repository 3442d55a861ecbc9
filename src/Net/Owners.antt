-- ===== src/Net/Owners.antt =====
-- The lists of port bindings of kernel/src/net.rs: who owns a port, and what an addition and a removal
-- change.
use morion_os.Prelude.{
  ℕ, ◌≤◌, ◌≡◌, inl, inr, refl, sym, ap, ◌∙◌, true, false, ◌&&◌, ◌||◌, List, [], ◌∷◌, ◌++◌, length,
  arith, ℕ_discrete, ◌==◌, if◌then◌else◌, Bool-cases, u64_max,
}
use morion_os.Net.{Binding, max_bindings, is_bound, is_bound_by, owner, remove_domain}

-- No port is bound twice.
unfoldable pub Distinct : List Binding → Type 0
Distinct [] = Unit
Distinct (x ∷ xs) = (is_bound xs x.port ≡ false) × Distinct xs

pub record IsValid (b : List Binding) : Type 0 where
  pub distinct : Distinct b
  pub bounded : length b ≤ max_bindings

pub is_bound-append :
    (b : List Binding) (x : Binding) (q : ℕ)
    → is_bound (b ++ x ∷ []) q ≡ is_bound b q || (x.port == q)
unfolding is_bound
is_bound-append [] x q = ground arith
is_bound-append (y ∷ b) x q = rw (is_bound-append b x q) (ground arith)

pub owner-append :
    (b : List Binding) (x : Binding) (q : ℕ)
    → owner (b ++ x ∷ []) q
      ≡ (if is_bound b q then owner b q else (if x.port == q then x.domain else u64_max))
unfolding owner is_bound
owner-append [] x q = refl
owner-append (y ∷ b) x q = rw (owner-append b x q) (ground arith)

pub owner-unbound : (b : List Binding) (q : ℕ) → is_bound b q ≡ false → owner b q ≡ u64_max
unfolding owner is_bound
owner-unbound [] q h = refl
owner-unbound (y ∷ b) q h = let ih = owner-unbound b q in ground arith

pub unbound_by : (b : List Binding) (d q : ℕ) → is_bound b q ≡ false → is_bound_by b d q ≡ false
unfolding is_bound is_bound_by
unbound_by [] d q h = refl
unbound_by (y ∷ b) d q h = let ih = unbound_by b d q in ground arith

-- With no port bound twice, one of its bindings is by a domain exactly when the first one is.
pub owner-is_bound_by :
    (b : List Binding) (d q : ℕ)
    → Distinct b
    → is_bound b q ≡ true
    → is_bound_by b d q ≡ (owner b q == d)
unfolding owner is_bound is_bound_by Distinct
owner-is_bound_by [] d q v h = absurd (cc)
owner-is_bound_by (y ∷ b) d q v h = elim (ℕ_discrete y.port q) [
  | yes e ↦
      let free : is_bound_by b d q ≡ false = unbound_by b d q (ap (is_bound b) (sym e) ∙ v.0) in
      ground arith
  | no n ↦ let ih = owner-is_bound_by b d q v.1 in ground arith
]

pub Distinct-append :
    (b : List Binding) (x : Binding)
    → Distinct b
    → is_bound b x.port ≡ false
    → Distinct (b ++ x ∷ [])
unfolding Distinct is_bound
Distinct-append [] x v h = (refl, tt)
Distinct-append (y ∷ b) x v h =
    (rw (is_bound-append b x y.port) (ground (arith, v.0)), Distinct-append b x v.1 (ground arith))

pub is_bound-remove_domain :
    (b : List Binding) (d q : ℕ) → is_bound b q ≡ false → is_bound (remove_domain b d) q ≡ false
unfolding is_bound remove_domain
is_bound-remove_domain [] d q h = refl
is_bound-remove_domain (y ∷ b) d q h =
    let ih = is_bound-remove_domain b d q in
    elim (Bool-cases (y.domain == d)) [
      | inl e ↦ rw e (ih (ground arith))
      | inr e ↦ rw e (ground arith)
    ]

pub Distinct-remove_domain : (b : List Binding) (d : ℕ) → Distinct b → Distinct (remove_domain b d)
unfolding Distinct remove_domain
Distinct-remove_domain [] d v = v
Distinct-remove_domain (y ∷ b) d v = elim (Bool-cases (y.domain == d)) [
  | inl e ↦ rw e (Distinct-remove_domain b d v.1)
  | inr e ↦ rw e (is_bound-remove_domain b d y.port v.0, Distinct-remove_domain b d v.1)
]

pub length-remove_domain : (b : List Binding) (d : ℕ) → length (remove_domain b d) ≤ length b
unfolding remove_domain
length-remove_domain [] d = omega arith
length-remove_domain (y ∷ b) d =
    let ih = length-remove_domain b d in
    elim (Bool-cases (y.domain == d)) [ inl e ↦ rw e (omega arith) | inr e ↦ rw e (omega arith) ]

pub same_owner :
    (b : List Binding) (d p q : ℕ)
    → owner b q ≡ (if (owner b p == d) && (p == q) then d else owner b q)
same_owner b d p q = elim (ℕ_discrete p q) [ yes e ↦ rw e (ground arith) | no n ↦ ground arith ]

pub owner-grown :
    (b : List Binding) (d p q : ℕ)
    → is_bound b p ≡ false
    → owner (b ++ record { domain = d; port = p } ∷ []) q ≡ (if p == q then d else owner b q)
owner-grown b d p q h = elim (Bool-cases (is_bound b q)) [
  | inl e ↦
      rw (owner-append b (record { domain = d; port = p }) q, e)
        (elim (ℕ_discrete p q) [ yes x ↦ absurd (cc (ap (is_bound b) x)) | no n ↦ ground arith ])
  | inr e ↦ rw (owner-append b (record { domain = d; port = p }) q, e, owner-unbound b q e) refl
]
