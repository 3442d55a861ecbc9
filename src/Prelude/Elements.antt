-- ===== src/Prelude/Elements.antt =====
-- A property of all elements of a list.
use Prim.Native.Nat.{ℕ, zero, suc}
use mathlib.Core.Path.{◌≡◌, subst}
use mathlib.Core.List.{List, [], ◌∷◌, ◌++◌}
use mathlib.Core.Option.{some}
use morion_os.Prelude.Tests.{some_inj}
use morion_os.Prelude.Lists.{set, get_or, get_elem?}

abbrev pub All {ℓ κ} : {A : Type ℓ} → (A → Type κ) → List A → Type κ
All P [] = Unit {κ}
All P (x ∷ xs) = P x × All P xs

pub All-append {ℓ κ} :
    {A : Type ℓ} (P : A → Type κ) (xs ys : List A) → All P xs → All P ys → All P (xs ++ ys)
All-append P [] ys _ q = q
All-append P (x ∷ xs) ys (h, p) q = (h, All-append P xs ys p q)

pub All-map {ℓ κ} :
    {A : Type ℓ} {P Q : A → Type κ} (xs : List A) → ((x : A) → P x → Q x) → All P xs → All Q xs
All-map [] f _ = _
All-map (x ∷ xs) f (p, ps) = (f x p, All-map xs f ps)

module _ {ℓ κ} {A : Type ℓ} (P : A → Type κ) where
  pub All-set : (xs : List A) (i : ℕ) (v : A) → All P xs → P v → All P (set xs i v)
  All-set [] i v _ h = _
  All-set (x ∷ xs) zero v (p, ps) h = (h, ps)
  All-set (x ∷ xs) (suc i) v (p, ps) h = (p, All-set xs i v ps h)

  pub All-get_or : (xs : List A) (i : ℕ) (d : A) → All P xs → P d → P (get_or xs i d)
  All-get_or [] i d _ h = h
  All-get_or (x ∷ xs) zero d (p, ps) h = p
  All-get_or (x ∷ xs) (suc i) d (p, ps) h = All-get_or xs i d ps h

  pub All-get_elem? : (xs : List A) (i : ℕ) (a : A) → All P xs → get_elem? xs i ≡ some a → P a
  All-get_elem? [] i a _ h = absurd (cc)
  All-get_elem? (x ∷ xs) zero a (p, ps) h = subst P (some_inj h) p
  All-get_elem? (x ∷ xs) (suc i) a (p, ps) h = All-get_elem? xs i a ps h
