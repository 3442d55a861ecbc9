-- ===== src/Prelude/Bytes.antt =====
-- Equality of byte strings as a test, and a few laws of lists of bytes.
use Prim.Native.Nat.{ℕ, zero, suc, ◌≤◌}
use mathlib.Core.Path.{◌≡◌, refl, ap}
use mathlib.Core.Bool.{Bool, true, false, ◌&&◌}
use mathlib.Core.List.{List, [], ◌∷◌, ◌++◌}
use native.Mathlib.Omega.{arith}
use morion_os.Prelude.Tests.{◌==◌, ==_iff, ==_self, &&_inv}
use morion_os.Prelude.Lists.{take, drop, length, take_nil}

unfoldable pub bytes_eq : List ℕ → List ℕ → Bool
bytes_eq [] [] = true
bytes_eq [] (b ∷ bs) = false
bytes_eq (a ∷ xs) [] = false
bytes_eq (a ∷ xs) (b ∷ bs) = a == b && bytes_eq xs bs

pub bytes_eq-inv : (xs ys : List ℕ) → bytes_eq xs ys ≡ true → xs ≡ ys
unfolding bytes_eq
bytes_eq-inv [] [] h = refl
bytes_eq-inv [] (b ∷ bs) h = cc
bytes_eq-inv (a ∷ xs) [] h = cc
bytes_eq-inv (a ∷ xs) (b ∷ bs) h =
    let (e, es) = &&_inv (a == b) (bytes_eq xs bs) h in
    let e' = (==_iff a b).0 e in let es' = bytes_eq-inv xs bs es in cc

pub bytes_eq_self : (xs : List ℕ) → bytes_eq xs xs ≡ true
unfolding bytes_eq
bytes_eq_self [] = refl
bytes_eq_self (a ∷ xs) = rw (==_self a) (bytes_eq_self xs)

pub take-append : (xs ys : List ℕ) → take (length xs) (xs ++ ys) ≡ xs
take-append [] ys = refl
take-append (x ∷ xs) ys = ap (λ l. x ∷ l) (take-append xs ys)

pub drop-append : (xs ys : List ℕ) → drop (length xs) (xs ++ ys) ≡ ys
drop-append [] ys = refl
drop-append (x ∷ xs) ys = drop-append xs ys

pub take-drop_append : (xs : List ℕ) (n : ℕ) → take n xs ++ drop n xs ≡ xs
take-drop_append xs zero = refl
take-drop_append [] (suc n) = refl
take-drop_append (x ∷ xs) (suc n) = ap (λ l. x ∷ l) (take-drop_append xs n)

pub take_all : (xs : List ℕ) (n : ℕ) → length xs ≤ n → take n xs ≡ xs
take_all [] n h = take_nil ℕ n
take_all (x ∷ xs) zero h = absurd (omega arith)
take_all (x ∷ xs) (suc n) h = ap (λ l. x ∷ l) (take_all xs n (omega arith))

pub append_nil : (xs : List ℕ) → xs ++ [] ≡ xs
append_nil [] = refl
append_nil (x ∷ xs) = ap (λ l. x ∷ l) (append_nil xs)
