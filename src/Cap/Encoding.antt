-- ===== src/Cap/Encoding.antt =====
-- The codes of a capability, `decode` and `pack_audit` of kernel/src/cap.rs, against one another.
use morion_os.Prelude.{
  ℕ, ◌+◌, ◌-◌, ◌*◌, ◌/◌, ◌%◌, ◌^◌, ◌≤◌, ◌<◌, ◌≡◌, ◌↔◌, refl, some, arith, bit_or-disjoint,
}
use Prim.Native.Nat.{bit_or}
use morion_os.Cap.{
  Capability, send_to, map_into, irq, mmio, io_port, net, fb, spawn, decode, code, pack_audit,
}

-- The ranges that `decode` checks for.
abbrev pub IsGrantable : Capability → Type 0
IsGrantable (send_to d) = Unit
IsGrantable (map_into d) = Unit
IsGrantable (irq v) = v < 256
IsGrantable (mmio p) = p % 4096 ≡ 0
IsGrantable (io_port base len) = (0 < len) × (len < 2 ^ 16) × (base + len ≤ 0x10000)
IsGrantable (net lo hi) = (lo ≤ hi) × (hi < 2 ^ 16)
IsGrantable fb = Unit
IsGrantable spawn = Unit

decode-IsGrantable : (kind arg : ℕ) (c : Capability) → decode kind arg ≡ some c → IsGrantable c
unfolding decode
decode-IsGrantable kind arg (send_to d) h = tt
decode-IsGrantable kind arg (map_into d) h = tt
decode-IsGrantable kind arg (irq v) h = ground arith
decode-IsGrantable kind arg (mmio p) h = ground arith
decode-IsGrantable kind arg (io_port base len) h = ground arith
decode-IsGrantable kind arg (net lo hi) h = ground arith
decode-IsGrantable kind arg fb h = tt
decode-IsGrantable kind arg spawn h = tt

pair-sum : (hi lo : ℕ) → lo < 2 ^ 16 → bit_or (hi * 2 ^ 16) lo ≡ hi * 2 ^ 16 + lo
pair-sum hi lo h = bit_or-disjoint 16 hi lo h

decode-code : (c : Capability) → IsGrantable c → decode (code c).0 (code c).1 ≡ some c
unfolding decode code
decode-code (send_to d) v = refl
decode-code (map_into d) v = refl
decode-code (irq i) v = ground arith
decode-code (mmio p) v = ground arith
decode-code (io_port base len) v = rw (pair-sum base len v.1) (ground arith)
decode-code (net lo hi) v = rw (pair-sum lo hi v.1) (ground arith)
decode-code fb v = refl
decode-code spawn v = refl

code-kind_lt : (c : Capability) → (code c).0 < 8
unfolding code
code-kind_lt (send_to d) = omega arith
code-kind_lt (map_into d) = omega arith
code-kind_lt (irq v) = omega arith
code-kind_lt (mmio p) = omega arith
code-kind_lt (io_port base len) = omega arith
code-kind_lt (net lo hi) = omega arith
code-kind_lt fb = omega arith
code-kind_lt spawn = omega arith

-- `decode` reaches exactly the capabilities in range: no code of `SYS_CAP_SEND` is good for a port range
-- that is empty or leaves the 16 bits, nor for an MMIO address inside a page, and every other
-- capability has a code.
pub decode-range :
    (c : Capability) → IsGrantable c ↔ ((kind : ℕ) × (arg : ℕ) × (decode kind arg ≡ some c))
decode-range c = (
  λ range. ((code c).0, (code c).1, decode-code c range),
  λ (kind, arg, e). decode-IsGrantable kind arg c e,
)

-- The argument fits the low 56 bits of the audit word.
abbrev pub FitsAudit : Capability → Type 0
FitsAudit c = (code c).1 < 2 ^ 56

pack_audit-sum :
    (c : Capability) → FitsAudit c → pack_audit c ≡ ((code c).0 + 1) * 2 ^ 56 + (code c).1
unfolding pack_audit
pack_audit-sum c fits =
    let word : ((code c).0 + 1) * 2 ^ 56 % 2 ^ 64 ≡ ((code c).0 + 1) * 2 ^ 56 =
      omega (arith, code-kind_lt c) in
    rw word (bit_or-disjoint 56 ((code c).0 + 1) (code c).1 fits)

-- For a capability in the ranges that `decode` checks for, whose argument fits 56 bits: an auditor that
-- takes the audit word apart as its comment says, and decodes it, gets the very capability, and the
-- word is not the 0 of an empty slot.
pub decode-pack_audit :
    (c : Capability)
    → IsGrantable c
    → FitsAudit c
    → (decode (pack_audit c / 2 ^ 56 - 1) (pack_audit c % 2 ^ 56) ≡ some c) × (0 < pack_audit c)
decode-pack_audit c range fits =
    let kind : pack_audit c / 2 ^ 56 - 1 ≡ (code c).0 = omega (arith, pack_audit-sum c fits) in
    let arg : pack_audit c % 2 ^ 56 ≡ (code c).1 = omega (arith, pack_audit-sum c fits) in
    (rw (kind, arg) (decode-code c range), omega (arith, pack_audit-sum c fits))

-- Without the bound the words collide: a target 2 ^ 56 is audited as the target 0.
pub pack_audit_collides : pack_audit (send_to (2 ^ 56)) ≡ pack_audit (send_to 0)
unfolding pack_audit code
pack_audit_collides = refl
