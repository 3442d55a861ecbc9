-- ===== src/Irq/Waiting.antt =====
-- Who gets an interrupt: kernel/src/irq.rs.
use morion_os.Prelude.{
  ℕ, zero, suc, ◌+◌, ◌≤◌, ◌<◌, ◌≡◌, ◌⊎◌, inl, inr, refl, sym, ap, ◌∙◌, Bool, true, false, not, ◌&&◌,
  Option, none, some, List, [], ◌∷◌, length, get_or, set, get_or-set_self, get_or-set_ne, arith,
  dec_lt, ℕ_discrete, ltb, ◌==◌, if◌then◌else◌, lt→ltb, ==_self, ==_ne, Bool-cases,
}
use morion_os.Irq.{
  Irqs, msi_vector_base, msi_vector_count, any_max_domains, has_bit, is_domain, is_registered_by,
  take_pending_from, take_pending_any, unregister, remove_domain,
}

-- A vector of the mask that the domain has registered and that is pending.
abbrev pub is_due : Irqs → ℕ → ℕ → ℕ → Bool
is_due q mask domain i =
    has_bit mask i
    && is_registered_by q (msi_vector_base + i) domain
    && get_or q.pending (msi_vector_base + i) false

-- How many of `n` vectors from bit `i` on are due.
unfoldable pub due_count : Irqs → ℕ → ℕ → ℕ → ℕ → ℕ
due_count q mask domain i zero = 0
due_count q mask domain i (suc n) =
    (if is_due q mask domain i then 1 else 0) + due_count q mask domain (i + 1) n

three_tests {ℓ} :
    {A : Type ℓ} (a b c : Bool) (x r : A)
    → (if not a then r else if not b then r else if c then x else r)
      ≡ (if a && b && c then x else r)
three_tests true true true x r = refl
three_tests true true false x r = refl
three_tests true false c x r = refl
three_tests false b c x r = refl

abbrev pub Found : Irqs → ℕ → ℕ → ℕ → ℕ → Irqs × Option ℕ → Type 0
Found q mask domain i n r =
    ((r ≡ (q, none)) × (due_count q mask domain i n ≡ 0))
    ⊎ ((k : ℕ) × (k < n)
        × (is_due q mask domain (i + k) ≡ true)
        × (due_count q mask domain i k ≡ 0)
        × (r ≡ (
          record q { pending = set q.pending (msi_vector_base + (i + k)) false },
          some (msi_vector_base + (i + k)),
        )))

Found-now :
    (q : Irqs) (mask domain i n : ℕ)
    → is_due q mask domain i ≡ true
    → Found q mask domain i (suc n) (
      record q { pending = set q.pending (msi_vector_base + i) false },
      some (msi_vector_base + i),
    )
unfolding due_count
Found-now q mask domain i n due =
    let z : i + 0 ≡ i = omega arith in
    inr (
      0,
      omega arith,
      ap (is_due q mask domain) z ∙ due,
      refl,
      ap
          (λ j. (
            record q { pending = set q.pending (msi_vector_base + j) false },
            some (msi_vector_base + j),
          ))
          (sym z),
    )

Found-later :
    (q : Irqs) (mask domain i n : ℕ) (r : Irqs × Option ℕ)
    → is_due q mask domain i ≡ false
    → Found q mask domain (i + 1) n r
    → Found q mask domain i (suc n) r
unfolding due_count
Found-later q mask domain i n r idle (inl (e, c)) = inl (e, rw idle (omega (arith, c)))
Found-later q mask domain i n r idle (inr (k, lt, due, c, e)) =
    let z : (i + 1) + k ≡ i + suc k = omega arith in
    inr (
      suc k,
      omega (arith, lt),
      ap (is_due q mask domain) (sym z) ∙ due,
      rw idle (omega (arith, c)),
      e
          ∙ ap
              (λ j. (
                record q { pending = set q.pending (msi_vector_base + j) false },
                some (msi_vector_base + j),
              ))
              z,
    )

Found-test :
    (q : Irqs) (mask domain i n : ℕ) (r : Irqs × Option ℕ) (b : Bool)
    → is_due q mask domain i ≡ b
    → Found q mask domain (i + 1) n r
    → Found q mask domain i (suc n) (
        if◌then◌else◌ {A = Irqs × Option ℕ} b
          (
            record q { pending = set q.pending (msi_vector_base + i) false },
            some (msi_vector_base + i),
          )
          r)
Found-test q mask domain i n r true e f = Found-now q mask domain i n e
Found-test q mask domain i n r false e f = Found-later q mask domain i n r e f

take_pending_from-Found :
    (q : Irqs) (mask domain i n : ℕ) → Found q mask domain i n (take_pending_from q mask domain i n)
unfolding take_pending_from due_count
take_pending_from-Found q mask domain i zero = inl (refl, refl)
take_pending_from-Found q mask domain i (suc n) =
    let same =
      three_tests (has_bit mask i) (is_registered_by q (msi_vector_base + i) domain)
        (get_or q.pending (msi_vector_base + i) false)
        (
          record q { pending = set q.pending (msi_vector_base + i) false },
          some (msi_vector_base + i),
        )
        (take_pending_from q mask domain (i + 1) n) in
    rw same (
      Found-test q mask domain i n (take_pending_from q mask domain (i + 1) n)
        (is_due q mask domain i) refl (take_pending_from-Found q mask domain (i + 1) n))

-- `take_pending_any` gives nothing, and changes nothing, exactly when none of the 16 vectors is due:
-- chosen by the mask, registered by the domain and pending. Otherwise it gives the lowest one that is
-- due, and clears its pending flag and no other.
pub take_pending_any-Found :
    (q : Irqs) (mask domain : ℕ)
    → Found q mask domain 0 msi_vector_count (take_pending_any q mask domain)
unfolding take_pending_any
take_pending_any-Found q mask domain = take_pending_from-Found q mask domain 0 msi_vector_count

get_or-unregister :
    (os : List (Option ℕ)) (domain i : ℕ)
    → get_or (unregister os domain) i none
      ≡ (if is_domain (get_or os i none) domain then none else get_or os i none)
unfolding unregister
get_or-unregister [] domain i = refl
get_or-unregister (o ∷ os) domain zero = refl
get_or-unregister (o ∷ os) domain (suc i) = get_or-unregister os domain i

get_or_past : (xs : List ℕ) (i : ℕ) → length xs ≤ i → get_or xs i 0 ≡ 0
get_or_past [] i h = refl
get_or_past (x ∷ xs) zero h = absurd (omega arith)
get_or_past (x ∷ xs) (suc i) h = get_or_past xs i (omega arith)

is_domain_after :
    (o : Option ℕ) (domain other : ℕ)
    → is_domain (if is_domain o domain then none else o) other
      ≡ is_domain o other && not (domain == other)
is_domain_after none domain other = refl
is_domain_after (some d) domain other = elim (Bool-cases (d == domain)) [
  | inl e ↦ rw e (ground arith)
  | inr e ↦ rw e (ground arith)
]

masked :
    (masks : List ℕ) (domain other : ℕ)
    → length masks ≡ any_max_domains
    → get_or (if ltb domain any_max_domains then set masks domain 0 else masks) other 0
      ≡ (if domain == other then 0 else get_or masks other 0)
masked masks domain other h = elim (dec_lt domain any_max_domains) [
  | yes lt ↦ rw (lt→ltb domain any_max_domains lt) (elim (ℕ_discrete domain other) [
    | yes e ↦ rw (← e) (rw (==_self domain) (get_or-set_self masks domain 0 0 (omega (arith, h))))
    | no n ↦ rw (==_ne domain other n) (get_or-set_ne masks domain other 0 0 n)
  ])
  | no ge ↦
      let past : ltb domain any_max_domains ≡ false = ground arith in
      rw past (elim (ℕ_discrete domain other) [
        | yes e ↦ rw (← e) (rw (==_self domain) (get_or_past masks domain (omega (arith, h))))
        | no n ↦ rw (==_ne domain other n) refl
      ])
]

-- After `remove_domain` no vector and no PIC line is the domain's, and it waits for no vector; those of
-- every other domain are as before.
pub remove_domain_irq_lem :
    (q : Irqs) (domain other i : ℕ)
    → length q.any_mask ≡ any_max_domains
    → (is_registered_by (remove_domain q domain) i other
        ≡ is_registered_by q i other && not (domain == other))
      × (is_domain (get_or (remove_domain q domain).handlers i none) other
          ≡ is_domain (get_or q.handlers i none) other && not (domain == other))
      × (get_or (remove_domain q domain).any_mask other 0
          ≡ (if domain == other then 0 else get_or q.any_mask other 0))
unfolding remove_domain is_registered_by
remove_domain_irq_lem q domain other i h = (
  ap (λ o. is_domain o other) (get_or-unregister q.vectors domain i)
      ∙ is_domain_after (get_or q.vectors i none) domain other,
  ap (λ o. is_domain o other) (get_or-unregister q.handlers domain i)
      ∙ is_domain_after (get_or q.handlers i none) domain other,
  masked q.any_mask domain other h,
)
