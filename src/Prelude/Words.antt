-- ===== src/Prelude/Words.antt =====
-- Machine words: the largest `u64`, and `|` of two fields that share no bit.
use Prim.Native.Nat.{ℕ, zero, suc, ◌+◌, ◌-◌, ◌*◌, ◌/◌, ◌%◌, ◌^◌, ◌≤◌, ◌<◌, max}
use Prim.Native.Nat.{bit_or, digits, bit_or-bitwise}
use mathlib.Core.Path.{◌≡◌, refl, ap}
use native.Mathlib.Nat.{pow-suc}
use native.Mathlib.Decide.{dec_le}
use native.Mathlib.Omega.{arith}

-- `u64::MAX`
abbrev pub u64_max : ℕ
u64_max = 2 ^ 64 - 1

-- The digits of `a | b` from the lowest on, by as much fuel as `a` is large.
abbrev or_digits : ℕ → ℕ → ℕ → ℕ
or_digits fuel a b = digits (λ y. y) max fuel a b

or_digits_fuel : (a b i j : ℕ) → a ≤ i → a ≤ j → or_digits i a b ≡ or_digits j a b
or_digits_fuel zero b zero zero p q = refl
or_digits_fuel zero b zero (suc j) p q = refl
or_digits_fuel zero b (suc i) zero p q = refl
or_digits_fuel zero b (suc i) (suc j) p q = refl
or_digits_fuel (suc a) b zero j p q = absurd (omega arith)
or_digits_fuel (suc a) b (suc i) zero p q = absurd (omega arith)
or_digits_fuel (suc a) b (suc i) (suc j) p q =
    let ih = or_digits_fuel (suc a / 2) (b / 2) i j (omega arith) (omega arith) in rw ih

bit_or-halve : (a b : ℕ) → bit_or a b ≡ bit_or (a / 2) (b / 2) * 2 + max (a % 2) (b % 2)
bit_or-halve zero b = omega (arith, bit_or-bitwise 0 b, bit_or-bitwise 0 (b / 2))
bit_or-halve (suc a) b =
    let fuel = or_digits_fuel (suc a / 2) (b / 2) a (suc a / 2) (omega arith) (omega arith) in
    omega (arith, bit_or-bitwise (suc a) b, bit_or-bitwise (suc a / 2) (b / 2), fuel)

bit_or_zero-le : (n a : ℕ) → a ≤ n → bit_or a 0 ≡ a
bit_or_zero-le zero zero h = refl
bit_or_zero-le zero (suc a) h = absurd (omega arith)
bit_or_zero-le (suc n) a h = elim (dec_le 1 a) [
  | yes p ↦ omega (arith, bit_or-halve a 0, bit_or_zero-le n (a / 2) (omega arith))
  | no p ↦ let e : a ≡ 0 = omega arith in rw e
]

-- `(high << k) | low` is the sum where `low` has `k` bits.
pub bit_or-disjoint :
    (k high low : ℕ) → low < 2 ^ k → bit_or (high * 2 ^ k) low ≡ high * 2 ^ k + low
bit_or-disjoint zero high low h =
    let e : low ≡ 0 = omega arith in
    let f : high * 2 ^ zero ≡ high = omega arith in
    rw (e, f, bit_or_zero-le high high (omega arith)) (omega arith)
bit_or-disjoint (suc k) high low h =
    let power : high * 2 ^ suc k ≡ 2 * (high * 2 ^ k) =
      omega (arith, ap (λ (t : ℕ). high * t) (pow-suc 2 k)) in
    let half : high * 2 ^ suc k / 2 ≡ high * 2 ^ k = omega arith in
    let ih = bit_or-disjoint k high (low / 2) (omega (arith, pow-suc 2 k)) in
    rw (bit_or-halve (high * 2 ^ suc k) low, half, ih) (omega arith)
