-- ===== src/Cap/Slots.antt =====
-- A row of slots: kernel/src/cap.rs keeps one of capabilities and one of handles for each domain.
-- A value is stored in the first empty slot, and is looked for from the first slot on.
use morion_os.Prelude.{
  ℕ, zero, suc, ◌+◌, ◌<◌, ◌≡◌, ◌≢◌, ◌↔◌, refl, Bool, true, false, Option, none, some, List, [], ◌∷◌,
  get_elem?, set, replicate, arith, ite,
}

abbrev pub Slots : Type 0 → Type 0
Slots A = List (Option A)

module _ {A : Type 0} where
  -- `slots.iter_mut().enumerate()` up to the first slot with `is_none()`.
  unfoldable pub first_empty : Slots A → Option ℕ
  first_empty [] = none
  first_empty (none ∷ s) = some 0
  first_empty (some x ∷ s) = elim (first_empty s) [ none ↦ none | some i ↦ some (suc i) ]

  -- `slots.get(i).copied().flatten()`
  unfoldable pub slot_at : Slots A → ℕ → Option A
  slot_at s i = elim (get_elem? s i) [ none ↦ none | some o ↦ o ]

  pub first_empty-some : (s : Slots A) (i : ℕ) → first_empty s ≡ some i → get_elem? s i ≡ some none
  unfolding first_empty
  first_empty-some [] i h = absurd (cc)
  first_empty-some (none ∷ s) zero h = refl
  first_empty-some (none ∷ s) (suc i) h = absurd (ground arith)
  first_empty-some (some x ∷ s) zero h = absurd (ground arith)
  first_empty-some (some x ∷ s) (suc i) h = first_empty-some s i (ground arith)

  -- A full row: no slot of it is empty.
  pub first_empty-none : (s : Slots A) (i : ℕ) → first_empty s ≡ none → get_elem? s i ≢ some none
  unfolding first_empty
  first_empty-none [] i h e = cc
  first_empty-none (none ∷ s) i h e = cc
  first_empty-none (some x ∷ s) zero h e = cc
  first_empty-none (some x ∷ s) (suc i) h e = first_empty-none s i (ground arith) e

module _ {A : Type 0} (d : Discrete A) where
  -- `slots.iter_mut()` up to the first slot that is `Some(a)`.
  unfoldable pub position : Slots A → A → Option ℕ
  position [] a = none
  position (none ∷ s) a = elim (position s a) [ none ↦ none | some i ↦ some (suc i) ]
  position (some x ∷ s) a =
      let rest = position s a in
      ite (d x a) (some 0) (elim rest [ none ↦ none | some i ↦ some (suc i) ])

  -- `slots.contains(&Some(a))`
  unfoldable pub contains : Slots A → A → Bool
  contains [] a = false
  contains (none ∷ s) a = contains s a
  contains (some x ∷ s) a = ite (d x a) true (contains s a)

  unfoldable pub occurs : A → Option A → ℕ
  occurs a none = 0
  occurs a (some x) = ite (d x a) 1 0

  -- How many slots hold the value.
  unfoldable pub count : Slots A → A → ℕ
  count [] a = 0
  count (o ∷ s) a = occurs a o + count s a

  pub contains_iff : (s : Slots A) (a : A) → (contains s a ≡ true) ↔ (0 < count s a)
  unfolding contains count occurs
  contains_iff [] a = ground arith
  contains_iff (none ∷ s) a = ground (arith, contains_iff s a)
  contains_iff (some x ∷ s) a = ground (arith, contains_iff s a)

  pub position-some :
      (s : Slots A) (a : A) (i : ℕ) → position s a ≡ some i → get_elem? s i ≡ some (some a)
  unfolding position
  position-some [] a i h = absurd (cc)
  position-some (none ∷ s) a zero h = absurd (ground arith)
  position-some (none ∷ s) a (suc i) h = position-some s a i (ground arith)
  position-some (some x ∷ s) a zero h = ground arith
  position-some (some x ∷ s) a (suc i) h = position-some s a i (ground arith)

  pub position-none : (s : Slots A) (a : A) → position s a ≡ none → count s a ≡ 0
  unfolding position count occurs
  position-none [] a h = refl
  position-none (none ∷ s) a h = ground (arith, position-none s a)
  position-none (some x ∷ s) a h = ground (arith, position-none s a)

  -- A write changes the count by what it puts in and what it puts out.
  pub count-set :
      (s : Slots A) (i : ℕ) (old new : Option A) (a : A)
      → get_elem? s i ≡ some old
      → count (set s i new) a + occurs a old ≡ count s a + occurs a new
  unfolding count
  count-set [] i old new a h = absurd (cc)
  count-set (o ∷ s) zero old new a h = ground arith
  count-set (o ∷ s) (suc i) old new a h = omega (arith, count-set s i old new a h)

  pub count-replicate : (n : ℕ) (a : A) → count (replicate n none) a ≡ 0
  unfolding count occurs
  count-replicate zero a = refl
  count-replicate (suc n) a = omega (arith, count-replicate n a)

  pub occurs_self : (a : A) → occurs a (some a) ≡ 1
  unfolding occurs
  occurs_self a = ground arith

  pub occurs_ne : (a b : A) → b ≢ a → occurs a (some b) ≡ 0
  unfolding occurs
  occurs_ne a b n = ground arith

  pub occurs_pos : (a b : A) → 0 < occurs a (some b) → b ≡ a
  unfolding occurs
  occurs_pos a b h = ground arith
