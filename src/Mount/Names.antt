-- ===== src/Mount/Names.antt =====
-- The names of automatic mount points: `dec_to_str` and `mount_auto` of user/srv/src/mount_srv.rs.
use morion_os.Prelude.{
  ℕ, zero, suc, ◌+◌, ◌-◌, ◌*◌, ◌/◌, ◌^◌, ◌≤◌, ◌<◌, ◌≡◌, inl, inr, refl, ap, ◌∙◌, List, [], ◌∷◌,
  length, arith, ◌==◌, ==_iff, Bool-cases,
}
use native.Mathlib.Nat.{pow-suc}
use morion_os.Prelude.Bytes.{take_all}
use morion_os.Mount.{digits_from, reverse_onto, dec_to_str}

-- the number that decimal digits stand for, after those that were read already
abbrev pub decimal : List ℕ → ℕ → ℕ
decimal [] acc = acc
decimal (b ∷ bs) acc = decimal bs (acc * 10 + (b - b'0'))

-- the same for digits from the lowest on
lowest_first : List ℕ → ℕ
lowest_first [] = 0
lowest_first (b ∷ bs) = (b - b'0') + 10 * lowest_first bs

decimal-reverse_onto :
    (bs acc : List ℕ) → decimal (reverse_onto bs acc) 0 ≡ decimal acc (lowest_first bs)
unfolding lowest_first
decimal-reverse_onto [] acc = refl
decimal-reverse_onto (b ∷ bs) acc =
    let e : lowest_first bs * 10 + (b - b'0') ≡ b - b'0' + 10 * lowest_first bs = omega arith in
    decimal-reverse_onto bs (b ∷ acc) ∙ ap (decimal acc) e

lowest_first-digits_from : (room x : ℕ) → x < 10 ^ room → lowest_first (digits_from room x) ≡ x
unfolding lowest_first digits_from
lowest_first-digits_from zero x h = omega (arith, h)
lowest_first-digits_from (suc room) x h =
    let ih = lowest_first-digits_from room (x / 10) (omega (arith, h, pow-suc 10 room)) in
    elim (Bool-cases (x / 10 == 0)) [
      | inl e ↦ let z = (==_iff (x / 10) 0).0 e in rw e (omega (arith, z))
      | inr e ↦ rw e (omega (arith, ih))
    ]

length-digits_from : (room x : ℕ) → length (digits_from room x) ≤ room
unfolding digits_from
length-digits_from zero x = omega arith
length-digits_from (suc room) x =
    let ih = length-digits_from room (x / 10) in
    elim (Bool-cases (x / 10 == 0)) [
      | inl e ↦ rw e (omega arith)
      | inr e ↦ rw e (omega (arith, ih))
    ]

-- `dec_to_str` writes a number of 64 bits in decimal, if the buffer has 20 bytes: what it writes reads
-- as that number again.
pub decimal-dec_to_str : (v room : ℕ) → v < 2 ^ 64 → 20 ≤ room → decimal (dec_to_str v room) 0 ≡ v
unfolding dec_to_str
decimal-dec_to_str v room small big =
    let few = length-digits_from 20 v in
    rw (take_all (digits_from 20 v) room (omega (arith, few, big))) (
      decimal-reverse_onto (digits_from 20 v) []
      ∙ lowest_first-digits_from 20 v (omega (arith, small)))
