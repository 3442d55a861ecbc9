-- ===== src/Prelude/Lists.antt =====
-- Arrays and vectors as lists that are measured and indexed by the native numbers.
use Prim.Native.Nat.{ℕ, zero, suc, ◌+◌, ◌≤◌, ◌<◌, min}
use mathlib.Core.Path.{◌≡◌, refl, ap}
use mathlib.Core.Logic.{◌≢◌, ◌⊎◌, inl, inr}
use mathlib.Core.List.{List, [], ◌∷◌, ◌++◌}
use mathlib.Core.Option.{Option, none, some}
use native.Mathlib.Omega.{arith}

module _ {ℓ} {A : Type ℓ} where
  abbrev pub length : List A → ℕ
  length [] = 0
  length (x ∷ xs) = suc (length xs)

  abbrev pub get_elem? : List A → ℕ → Option A
  get_elem? [] i = none
  get_elem? (x ∷ xs) zero = some x
  get_elem? (x ∷ xs) (suc i) = get_elem? xs i

  abbrev pub get_or : List A → ℕ → A → A
  get_or [] i d = d
  get_or (x ∷ xs) zero d = x
  get_or (x ∷ xs) (suc i) d = get_or xs i d

  -- A write out of bounds changes nothing.
  abbrev pub set : List A → ℕ → A → List A
  set [] i v = []
  set (x ∷ xs) zero v = v ∷ xs
  set (x ∷ xs) (suc i) v = x ∷ set xs i v

  abbrev pub take : ℕ → List A → List A
  take zero xs = []
  take (suc n) [] = []
  take (suc n) (x ∷ xs) = x ∷ take n xs

  abbrev pub drop : ℕ → List A → List A
  drop zero xs = xs
  drop (suc n) [] = []
  drop (suc n) (x ∷ xs) = drop n xs

  abbrev pub replicate : ℕ → A → List A
  replicate zero a = []
  replicate (suc n) a = a ∷ replicate n a

  pub length-append : (xs ys : List A) → length (xs ++ ys) ≡ length xs + length ys
  length-append [] ys = omega arith
  length-append (x ∷ xs) ys = omega (arith, length-append xs ys)

module _ {ℓ} {A : Type ℓ} where
  pub length-set : (xs : List A) (i : ℕ) (v : A) → length (set xs i v) ≡ length xs
  length-set [] i v = refl
  length-set (x ∷ xs) zero v = refl
  length-set (x ∷ xs) (suc i) v = ap suc (length-set xs i v)

  pub get_elem?-set_self :
      (xs : List A) (i : ℕ) (v : A) → i < length xs → get_elem? (set xs i v) i ≡ some v
  get_elem?-set_self [] i v h = elim h [ ]
  get_elem?-set_self (x ∷ xs) zero v h = refl
  get_elem?-set_self (x ∷ xs) (suc i) v h = get_elem?-set_self xs i v (omega arith)

  pub get_elem?-set_ne :
      (xs : List A) (i j : ℕ) (v : A) → i ≢ j → get_elem? (set xs i v) j ≡ get_elem? xs j
  get_elem?-set_ne [] i j v h = refl
  get_elem?-set_ne (x ∷ xs) zero zero v h = absurd (h refl)
  get_elem?-set_ne (x ∷ xs) zero (suc j) v h = refl
  get_elem?-set_ne (x ∷ xs) (suc i) zero v h = refl
  get_elem?-set_ne (x ∷ xs) (suc i) (suc j) v h = get_elem?-set_ne xs i j v (λ e. h (ap suc e))

  pub get_or-set_self :
      (xs : List A) (i : ℕ) (v d : A) → i < length xs → get_or (set xs i v) i d ≡ v
  get_or-set_self [] i v d h = elim h [ ]
  get_or-set_self (x ∷ xs) zero v d h = refl
  get_or-set_self (x ∷ xs) (suc i) v d h = get_or-set_self xs i v d (omega arith)

  pub get_or-set_ne :
      (xs : List A) (i j : ℕ) (v d : A) → i ≢ j → get_or (set xs i v) j d ≡ get_or xs j d
  get_or-set_ne [] i j v d h = refl
  get_or-set_ne (x ∷ xs) zero zero v d h = absurd (h refl)
  get_or-set_ne (x ∷ xs) zero (suc j) v d h = refl
  get_or-set_ne (x ∷ xs) (suc i) zero v d h = refl
  get_or-set_ne (x ∷ xs) (suc i) (suc j) v d h = get_or-set_ne xs i j v d (λ e. h (ap suc e))

  -- A second write to an index replaces the first, and the value that is there changes nothing.
  pub set-set : (xs : List A) (i : ℕ) (a b : A) → set (set xs i a) i b ≡ set xs i b
  set-set [] i a b = refl
  set-set (x ∷ xs) zero a b = refl
  set-set (x ∷ xs) (suc i) a b = ap (λ l. x ∷ l) (set-set xs i a b)

  pub set_same : (xs : List A) (i : ℕ) (a : A) → get_elem? xs i ≡ some a → set xs i a ≡ xs
  set_same [] i a h = refl
  set_same (x ∷ xs) zero a h = cc
  set_same (x ∷ xs) (suc i) a h = ap (λ l. x ∷ l) (set_same xs i a h)

  pub get_elem?_lt : (xs : List A) (i : ℕ) (a : A) → get_elem? xs i ≡ some a → i < length xs
  get_elem?_lt [] i a h = absurd (cc)
  get_elem?_lt (x ∷ xs) zero a h = omega arith
  get_elem?_lt (x ∷ xs) (suc i) a h = omega (arith, get_elem?_lt xs i a h)

  pub get_elem?-none : (xs : List A) (i : ℕ) → length xs ≤ i → get_elem? xs i ≡ none
  get_elem?-none [] i h = refl
  get_elem?-none (x ∷ xs) zero h = absurd (omega arith)
  get_elem?-none (x ∷ xs) (suc i) h = get_elem?-none xs i (omega arith)

  pub get_elem?-eq-get_or :
      (xs : List A) (i : ℕ) (d : A) → i < length xs → get_elem? xs i ≡ some (get_or xs i d)
  get_elem?-eq-get_or [] i d h = elim h [ ]
  get_elem?-eq-get_or (x ∷ xs) zero d h = refl
  get_elem?-eq-get_or (x ∷ xs) (suc i) d h = get_elem?-eq-get_or xs i d (omega arith)

  pub length-replicate : (n : ℕ) (a : A) → length (replicate n a) ≡ n
  length-replicate zero a = refl
  length-replicate (suc n) a = ap suc (length-replicate n a)

  pub length-take : (n : ℕ) (xs : List A) → length (take n xs) ≡ min n (length xs)
  length-take zero xs = omega arith
  length-take (suc n) [] = omega arith
  length-take (suc n) (x ∷ xs) = omega (arith, length-take n xs)

-- A table that grows: rows are added until row `i` exists, which then becomes `v`.
module _ {ℓ} {A : Type ℓ} where
  unfoldable pub set_padded : A → List A → ℕ → A → List A
  set_padded fill [] zero v = v ∷ []
  set_padded fill [] (suc i) v = fill ∷ set_padded fill [] i v
  set_padded fill (x ∷ xs) zero v = v ∷ xs
  set_padded fill (x ∷ xs) (suc i) v = x ∷ set_padded fill xs i v

  pub set_padded_self :
      (fill : A) (xs : List A) (i : ℕ) (v : A) → get_elem? (set_padded fill xs i v) i ≡ some v
  unfolding set_padded
  set_padded_self fill [] zero v = refl
  set_padded_self fill [] (suc i) v = set_padded_self fill [] i v
  set_padded_self fill (x ∷ xs) zero v = refl
  set_padded_self fill (x ∷ xs) (suc i) v = set_padded_self fill xs i v

  -- Another row is what it was, or a new one that holds `fill`.
  pub set_padded_other :
      (fill : A) (xs : List A) (i j : ℕ) (v a : A)
      → i ≢ j
      → get_elem? (set_padded fill xs i v) j ≡ some a
      → (get_elem? xs j ≡ some a) ⊎ (a ≡ fill)
  unfolding set_padded
  set_padded_other fill [] zero zero v a n h = absurd (n refl)
  set_padded_other fill [] zero (suc j) v a n h = inl h
  set_padded_other fill [] (suc i) zero v a n h = inr (cc)
  set_padded_other fill [] (suc i) (suc j) v a n h =
      set_padded_other fill [] i j v a (λ e. n (ap suc e)) h
  set_padded_other fill (x ∷ xs) zero zero v a n h = absurd (n refl)
  set_padded_other fill (x ∷ xs) zero (suc j) v a n h = inl h
  set_padded_other fill (x ∷ xs) (suc i) zero v a n h = inl h
  set_padded_other fill (x ∷ xs) (suc i) (suc j) v a n h =
      set_padded_other fill xs i j v a (λ e. n (ap suc e)) h

  pub set_padded_ne :
      (fill : A) (xs : List A) (i j : ℕ) (v a : A)
      → i ≢ j
      → get_elem? xs j ≡ some a
      → get_elem? (set_padded fill xs i v) j ≡ some a
  unfolding set_padded
  set_padded_ne fill [] i j v a n h = absurd (cc)
  set_padded_ne fill (x ∷ xs) zero zero v a n h = absurd (n refl)
  set_padded_ne fill (x ∷ xs) zero (suc j) v a n h = h
  set_padded_ne fill (x ∷ xs) (suc i) zero v a n h = h
  set_padded_ne fill (x ∷ xs) (suc i) (suc j) v a n h =
      set_padded_ne fill xs i j v a (λ e. n (ap suc e)) h

  -- An existing row is replaced, and the table does not grow.
  pub length-set_padded :
      (fill : A) (xs : List A) (i : ℕ) (v : A)
      → i < length xs
      → length (set_padded fill xs i v) ≡ length xs
  unfolding set_padded
  length-set_padded fill [] i v h = elim h [ ]
  length-set_padded fill (x ∷ xs) zero v h = refl
  length-set_padded fill (x ∷ xs) (suc i) v h = ap suc (length-set_padded fill xs i v (omega arith))

module _ {ℓ} {A : Type ℓ} where
  pub get_or-append_left :
      (xs ys : List A) (i : ℕ) (d : A) → i < length xs → get_or (xs ++ ys) i d ≡ get_or xs i d
  get_or-append_left [] ys i d h = elim h [ ]
  get_or-append_left (x ∷ xs) ys zero d h = refl
  get_or-append_left (x ∷ xs) ys (suc i) d h = get_or-append_left xs ys i d (omega arith)

  pub get_or-append_end : (xs : List A) (a d : A) → get_or (xs ++ a ∷ []) (length xs) d ≡ a
  get_or-append_end [] a d = refl
  get_or-append_end (x ∷ xs) a d = get_or-append_end xs a d

  -- What is dropped up to an index begins with the value there.
  pub drop-split :
      (xs : List A) (i : ℕ) (d : A) → i < length xs → drop i xs ≡ get_or xs i d ∷ drop (i + 1) xs
  drop-split [] i d h = elim h [ ]
  drop-split (x ∷ xs) zero d h = refl
  drop-split (x ∷ xs) (suc i) d h =
      let e : suc i + 1 ≡ suc (i + 1) = omega arith in rw e (drop-split xs i d (omega arith))

  pub drop_all : (xs : List A) (i : ℕ) → length xs ≤ i → drop i xs ≡ []
  drop_all [] zero h = refl
  drop_all [] (suc i) h = refl
  drop_all (x ∷ xs) zero h = absurd (omega arith)
  drop_all (x ∷ xs) (suc i) h = drop_all xs i (omega arith)

pub take_nil {ℓ} : (A : Type ℓ) (n : ℕ) → take {A = A} n [] ≡ []
take_nil A zero = refl
take_nil A (suc n) = refl
