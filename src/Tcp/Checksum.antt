-- ===== src/Tcp/Checksum.antt =====
-- The checksum of a TCP segment of user/srv/src/netstack_srv.rs: `csum_acc`, `csum_fold` and
-- `tcp_csum`.
use morion_os.Prelude.{
  ℕ, zero, suc, ◌+◌, ◌*◌, ◌%◌, ◌-◌, ◌/◌, ◌^◌, ◌≤◌, ◌<◌, ◌≡◌, refl, List, [], ◌∷◌, ◌++◌, length,
  length-append, ℕ_discrete, arith, ◌==◌, if◌then◌else◌,
}

-- `rd16be`: two bytes, the more significant one first.
unfoldable pub rd16be : ℕ → ℕ → ℕ
rd16be a b = (a % 256) * 256 + b % 256

-- `csum_acc`: the sum of the 16-bit words of some bytes is added to a `u32`; a last odd byte is the
-- more significant half of a word.
unfoldable pub csum_acc : List ℕ → ℕ → ℕ
unfolding rd16be
csum_acc [] sum = sum
csum_acc (a ∷ []) sum = (sum + (a % 256) * 256) % 2 ^ 32
csum_acc (a ∷ b ∷ bytes) sum = csum_acc bytes ((sum + rd16be a b) % 2 ^ 32)

-- The loop of `csum_fold`, on fuel.
unfoldable pub fold_carries : ℕ → ℕ → ℕ
fold_carries zero s = s
fold_carries (suc fuel) s =
    let rest = fold_carries fuel (s % 65536 + s / 65536) in if s / 65536 == 0 then s else rest

-- The loop is over after two turns, whatever the `u32` is.
fold_carries-ends : (s : ℕ) → s < 2 ^ 32 → fold_carries 2 s / 65536 ≡ 0
unfolding fold_carries
fold_carries-ends s h = ground arith

-- `csum_fold`: two turns of the loop are enough for every `u32`.
unfoldable pub csum_fold : ℕ → ℕ
csum_fold s = fold_carries 2 s % 65536

-- The pseudo header of `tcp_csum`: the two addresses, a zero, the protocol and the length.
unfoldable pub pseudo_header : List ℕ → List ℕ → ℕ → List ℕ
pseudo_header src dst len = src ++ (dst ++ (0 ∷ 6 ∷ (len / 256) % 256 ∷ len % 256 ∷ []))

-- `tcp_csum`.
unfoldable pub tcp_csum : List ℕ → List ℕ → List ℕ → ℕ
tcp_csum src dst seg =
    65535 - csum_fold (csum_acc seg (csum_acc (pseudo_header src dst (length seg)) 0))

-- The sum of the 16-bit words without the wrap-around of a `u32`.
unfoldable word_sum : List ℕ → ℕ
unfolding rd16be
word_sum [] = 0
word_sum (a ∷ []) = (a % 256) * 256
word_sum (a ∷ b ∷ bytes) = rd16be a b + word_sum bytes

word_sum-length : (bytes : List ℕ) → word_sum bytes ≤ 65536 * length bytes
unfolding word_sum rd16be
word_sum-length [] = omega arith
word_sum-length (a ∷ []) = omega arith
word_sum-length (a ∷ b ∷ bytes) = let ih = word_sum-length bytes in omega arith

csum_acc-word_sum :
    (bytes : List ℕ) (sum : ℕ)
    → sum + word_sum bytes < 2 ^ 32
    → csum_acc bytes sum ≡ sum + word_sum bytes
unfolding word_sum csum_acc rd16be
csum_acc-word_sum [] sum h = omega arith
csum_acc-word_sum (a ∷ []) sum h = omega arith
csum_acc-word_sum (a ∷ b ∷ bytes) sum h =
    let ih = csum_acc-word_sum bytes ((sum + rd16be a b) % 2 ^ 32) (omega arith) in omega arith

word_sum-append :
    (head tail : List ℕ)
    → length head % 2 ≡ 0
    → word_sum (head ++ tail) ≡ word_sum head + word_sum tail
unfolding word_sum
word_sum-append [] tail h = omega arith
word_sum-append (a ∷ []) tail h = absurd (omega arith)
word_sum-append (a ∷ b ∷ head) tail h =
    let ih = word_sum-append head tail (omega arith) in omega arith

-- The fold keeps the remainder modulo 65535, fits a `u16` and is zero for zero alone.
csum_fold_lem :
    (s : ℕ)
    → s < 2 ^ 32
    → csum_fold s % 65535 ≡ s % 65535
      × (csum_fold s < 65536 × ((csum_fold s ≡ 0 → s ≡ 0) × (s ≡ 0 → csum_fold s ≡ 0)))
unfolding csum_fold fold_carries
csum_fold_lem s h = ground arith

-- The words around a word at an even place.
word_sum-at :
    (head : List ℕ) (a b : ℕ) (tail : List ℕ)
    → length head % 2 ≡ 0
    → word_sum (head ++ (a ∷ b ∷ tail)) ≡ word_sum head + (rd16be a b + word_sum tail)
unfolding word_sum
word_sum-at head a b tail h = word_sum-append head (a ∷ b ∷ tail) h

rd16be_small : (a b : ℕ) → rd16be a b < 65536
unfolding rd16be
rd16be_small a b = omega arith

pseudo-small :
    (src dst : List ℕ) (len : ℕ)
    → length src ≡ 4
    → length dst ≡ 4
    → word_sum (pseudo_header src dst len) < 1000000
unfolding pseudo_header
pseudo-small src dst len s4 d4 =
    let tail = 0 ∷ 6 ∷ (len / 256) % 256 ∷ len % 256 ∷ [] in
    let bound = word_sum-length (src ++ (dst ++ tail)) in
    let l1 = length-append src (dst ++ tail) in let l2 = length-append dst tail in omega arith

-- `tcp_csum` of a segment with the two bytes `a` and `b` at an even place, by the sum of all words.
tcp_csum-at :
    (src dst head : List ℕ) (a b : ℕ) (tail : List ℕ)
    → length head % 2 ≡ 0
    → length src ≡ 4
    → length dst ≡ 4
    → length head + length tail ≤ 60000
    → tcp_csum src dst (head ++ (a ∷ b ∷ tail))
      ≡ 65535
        - csum_fold (
            word_sum (pseudo_header src dst (length (head ++ (a ∷ b ∷ tail))))
            + (word_sum head + (rd16be a b + word_sum tail)))
unfolding tcp_csum
tcp_csum-at src dst head a b tail even s4 d4 short =
    let seg = head ++ (a ∷ b ∷ tail) in
    let small = pseudo-small src dst (length seg) s4 d4 in
    let split = word_sum-at head a b tail even in
    let in_head = word_sum-length head in
    let in_tail = word_sum-length tail in
    let word = rd16be_small a b in
    let e1 = csum_acc-word_sum (pseudo_header src dst (length seg)) 0 (omega arith) in
    let e2 = csum_acc-word_sum seg (word_sum (pseudo_header src dst (length seg))) (omega arith) in
    let e0 : 0 + word_sum (pseudo_header src dst (length seg))
        ≡ word_sum (pseudo_header src dst (length seg)) =
      omega arith in
    cc

-- The complement of the fold, added to the sum, makes the fold 65535.
fold-filled : (s c : ℕ) → s < 4000000000 → c ≡ 65535 - csum_fold s → 65535 - csum_fold (s + c) ≡ 0
fold-filled s c small e =
    let (e0, (l0, z0)) = csum_fold_lem s (omega arith) in
    let (e1, (l1, z1)) = csum_fold_lem (s + c) (omega arith) in
    elim (ℕ_discrete (csum_fold (s + c)) 0) [
      | yes z ↦
          let none_left = z1.0 z in let none_before = z0.1 (omega arith) in absurd (omega arith)
      | no some_left ↦ omega arith
    ]

rd16be_zero : rd16be 0 0 ≡ 0
unfolding rd16be
rd16be_zero = refl

rd16be_split : (c : ℕ) → c < 65536 → rd16be (c / 256) (c % 256) ≡ c
unfolding rd16be
rd16be_split c h = omega arith

-- A segment with a zero word at an even place, whose checksum is then written there as `tcp_build`
-- does, has the checksum 0 when the peer computes it over the whole segment, for addresses of four
-- bytes and a segment of at most 60002 bytes.
pub tcp_csum-filled :
    (src dst head tail : List ℕ)
    → length head % 2 ≡ 0
    → length src ≡ 4
    → length dst ≡ 4
    → length head + length tail ≤ 60000
    → (let c = tcp_csum src dst (head ++ (0 ∷ 0 ∷ tail)) in
        tcp_csum src dst (head ++ (c / 256 ∷ c % 256 ∷ tail)))
      ≡ 0
tcp_csum-filled src dst head tail even s4 d4 short =
    let c = tcp_csum src dst (head ++ (0 ∷ 0 ∷ tail)) in
    let e0 = tcp_csum-at src dst head 0 0 tail even s4 d4 short in
    let e1 = tcp_csum-at src dst head (c / 256) (c % 256) tail even s4 d4 short in
    let p = word_sum (pseudo_header src dst (length (head ++ (0 ∷ 0 ∷ tail)))) in
    let s = p + (word_sum head + (rd16be 0 0 + word_sum tail)) in
    let small = pseudo-small src dst (length (head ++ (0 ∷ 0 ∷ tail))) s4 d4 in
    let in_head = word_sum-length head in
    let in_tail = word_sum-length tail in
    let full = fold-filled s c (omega (arith, rd16be_zero)) e0 in
    let w = rd16be_split c (omega arith) in
    let len : length (head ++ (c / 256 ∷ c % 256 ∷ tail)) ≡ length (head ++ (0 ∷ 0 ∷ tail)) =
      omega
        (arith, length-append head (0 ∷ 0 ∷ tail), length-append head (c / 256 ∷ c % 256 ∷ tail)) in
    let sum : p + (word_sum head + (rd16be (c / 256) (c % 256) + word_sum tail)) ≡ s + c =
      omega (arith, w, rd16be_zero) in
    cc
