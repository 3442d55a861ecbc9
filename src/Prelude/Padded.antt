-- ===== src/Prelude/Padded.antt =====
-- Tables that grow by filling: a write at an index, read with the filling as the default.
use Prim.Native.Nat.{ℕ, zero, suc}
use mathlib.Core.Path.{◌≡◌, refl}
use mathlib.Core.List.{List, [], ◌∷◌}
use native.Mathlib.Omega.{arith}
use morion_os.Prelude.Tests.{◌==◌, if◌then◌else◌, ==_ne}
use morion_os.Prelude.Lists.{get_or, set_padded}

pub suc_test : (i j : ℕ) → (suc i == suc j) ≡ (i == j)
suc_test i j = ground arith

pub get_or-set_padded {ℓ} :
    {A : Type ℓ} (fill : A) (xs : List A) (i j : ℕ) (v : A)
    → get_or (set_padded fill xs i v) j fill ≡ (if i == j then v else get_or xs j fill)
unfolding set_padded
get_or-set_padded fill [] zero zero v = refl
get_or-set_padded fill [] zero (suc j) v = rw (==_ne 0 (suc j) (omega arith)) refl
get_or-set_padded fill [] (suc i) zero v = rw (==_ne (suc i) 0 (omega arith)) refl
get_or-set_padded fill [] (suc i) (suc j) v = rw (suc_test i j) (get_or-set_padded fill [] i j v)
get_or-set_padded fill (x ∷ xs) zero zero v = refl
get_or-set_padded fill (x ∷ xs) zero (suc j) v = rw (==_ne 0 (suc j) (omega arith)) refl
get_or-set_padded fill (x ∷ xs) (suc i) zero v = rw (==_ne (suc i) 0 (omega arith)) refl
get_or-set_padded fill (x ∷ xs) (suc i) (suc j) v =
    rw (suc_test i j) (get_or-set_padded fill xs i j v)
