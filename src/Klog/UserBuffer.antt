-- ===== src/Klog/UserBuffer.antt =====
-- The user addresses: `is_user_address` of kernel/src/memory/paging.rs; and SYS_LOG_READ, that is
-- `handle_read` of kernel/src/klog.rs, on top of it.
use morion_os.Prelude.{
  ℕ, zero, suc, ◌+◌, ◌-◌, ◌/◌, ◌%◌, ◌^◌, ◌≤◌, ◌<◌, ◌≡◌, inl, inr, ap, Bool, true, false, not, ◌||◌,
  Option, none, some, List, [], length, arith, ltb, leb, ◌==◌, if◌then◌else◌, ==_iff, Bool-cases,
  some_inj, if-inv, u64_max,
}
use morion_os.Klog.{Log, log_read_max, read, read_loop, oldest}

-- `is_user_address`: the ninth to fortieth lowest bits are left out, the next nine are 1.
unfoldable pub is_user_address : ℕ → Bool
is_user_address vaddr = (vaddr / 2 ^ 39) % 512 == 1

-- `handle_read`: the bytes that are written from `a1` on, whose number is the answer. `a1 + len - 1`
-- beyond 64 bits overflows, which is `none`.
unfoldable pub handle_read : ℕ → Log → ℕ → ℕ → ℕ → Option (List ℕ)
unfolding is_user_address read
handle_read cap log a1 a2 a3 =
    let len = if ltb log_read_max a2 then log_read_max else a2 in
    if a1 == 0 || a2 == 0
    then some []
    else if not (is_user_address a1)
    then some []
    else if ltb u64_max (a1 + len)
    then none
    else if not (is_user_address (a1 + len - 1))
    then some []
    else some (read cap log a3 len)

-- A range of at most 2^39 bytes lies in the user space when its first and its last byte do.
is_user_address-between :
    (a b x : ℕ)
    → a ≤ x
    → x ≤ b
    → b < a + 2 ^ 39
    → is_user_address a ≡ true
    → is_user_address b ≡ true
    → is_user_address x ≡ true
unfolding is_user_address
is_user_address-between a b x h i j p q =
    let p' = (==_iff ((a / 2 ^ 39) % 512) 1).0 p in
    let q' = (==_iff ((b / 2 ^ 39) % 512) 1).0 q in (==_iff ((x / 2 ^ 39) % 512) 1).1 (omega arith)

length-read_loop : (cap : ℕ) (log : Log) (s n : ℕ) → length (read_loop cap log s n) ≤ n
unfolding read_loop
length-read_loop cap log s zero = omega arith
length-read_loop cap log s (suc n) =
    let ih = length-read_loop cap log (s + 1) n in
    elim (Bool-cases (ltb s log.total)) [ inl e ↦ rw e (omega arith) | inr e ↦ rw e (omega arith) ]

length-read : (cap : ℕ) (log : Log) (start len : ℕ) → length (read cap log start len) ≤ len
unfolding read oldest
length-read cap log start len =
    let s = if ltb start (oldest cap log) then oldest cap log else start in
    elim (Bool-cases (leb log.total s)) [
      | inl e ↦ rw e (omega arith)
      | inr e ↦ rw e (length-read_loop cap log s len)
    ]

from_not : {b : Bool} → not b ≡ false → b ≡ true
from_not h = ground (arith, h)

-- SYS_LOG_READ writes into the user space alone: every address of a byte that it writes is a user
-- address.
pub handle_read_lem :
    (cap : ℕ) (log : Log) (a1 a2 a3 i : ℕ) (bytes : List ℕ)
    → handle_read cap log a1 a2 a3 ≡ some bytes
    → i < length bytes
    → is_user_address (a1 + i) ≡ true
unfolding handle_read
handle_read_lem cap log a1 a2 a3 i bytes h lt =
    let len = if ltb log_read_max a2 then log_read_max else a2 in
    let small : len ≤ log_read_max = ground arith in
    elim (if-inv (a1 == 0 || a2 == 0) _ _ (some bytes) h) [
      | inl (_, e) ↦ absurd (omega (arith, nothing e))
      | inr (_, h1) ↦ elim (if-inv (not (is_user_address a1)) _ _ (some bytes) h1) [
        | inl (_, e) ↦ absurd (omega (arith, nothing e))
        | inr (p, h2) ↦ elim (if-inv (ltb u64_max (a1 + len)) _ _ (some bytes) h2) [
          | inl (_, e) ↦ absurd (cc)
          | inr (_, h3) ↦ elim (if-inv (not (is_user_address (a1 + len - 1))) _ _ (some bytes) h3) [
            | inl (_, e) ↦ absurd (omega (arith, nothing e))
            | inr (q, e) ↦
                let size = length-read cap log a3 len in
                let same : length (read cap log a3 len) ≡ length bytes = ap length (some_inj e) in
                is_user_address-between a1 (a1 + len - 1) (a1 + i) (omega arith)
                  (omega (arith, size, same, lt)) (omega (arith, small, size, same, lt))
                  (from_not p) (from_not q)
          ]
        ]
      ]
    ]
  where
    nothing : some [] ≡ some bytes → i < 0
    nothing e = omega (arith, lt, ap length (some_inj e))
