-- ===== src/Prelude/Outcomes.antt =====
-- The result of code that can panic, refuse with `None`, or succeed.
use mathlib.Core.Path.{◌≡◌, refl}
use mathlib.Core.Option.{Option, none, some}

pub data Outcome {ℓ} (A : Type ℓ) : Type ℓ where
  panics : Outcome A
  refused : Outcome A
  done : A → Outcome A

-- The `?` operator; a panic goes through as well.
infixl 5 ◌>>=◌
abbrev pub ◌>>=◌ {ℓ κ} : {A : Type ℓ} {B : Type κ} → Outcome A → (A → Outcome B) → Outcome B
panics >>= f = panics
refused >>= f = refused
done a >>= f = f a

abbrev pub or_refused {ℓ} : {A : Type ℓ} → Option A → Outcome A
or_refused none = refused
or_refused (some a) = done a

pub done_inj {ℓ} : {A : Type ℓ} {a b : A} → done a ≡ done b → a ≡ b
done_inj h = cc

pub >>=-eq-done {ℓ κ} :
    {A : Type ℓ} {B : Type κ} (m : Outcome A) (f : A → Outcome B) (b : B)
    → (m >>= f) ≡ done b
    → (a : A) × (m ≡ done a) × (f a ≡ done b)
>>=-eq-done panics f b h = cc
>>=-eq-done refused f b h = cc
>>=-eq-done (done a) f b h = (a, refl, h)

pub or_refused-inv {ℓ} : {A : Type ℓ} (o : Option A) (a : A) → or_refused o ≡ done a → o ≡ some a
or_refused-inv none a h = cc
or_refused-inv (some x) a h = cc
