-- ===== src/Cap/Authority.antt =====
-- The capability table as a running system changes it: `SYS_CAP_SEND` of kernel/src/syscall.rs,
-- the grants of `spawn_elf` in kernel/src/exec.rs, `revoke`, and the end of a domain. What a domain
-- holds comes from some domain that held it before.
use morion_os.Prelude.{
  ℕ, ◌≤◌, ◌<◌, ◌≡◌, ◌⊎◌, inl, inr, refl, ap, ◌∙◌, Bool, true, false, Option, none, some, List, [],
  ◌∷◌, arith, dec_lt, if◌then◌else◌, Bool-cases, ◌>>=◌, >>=-eq-some, some_inj,
}
use morion_os.Cap.{Capability, send_to, map_into, decode}
use morion_os.Cap.Table.{
  CapTable, add_domain, remove_domain, has, holds, grant, revoke, give, delegate,
}
use morion_os.Cap.Held.{held, holds_iff, hit_pos, held-grant, held-revoke, held-give, held-set_row}

-- `MOUNT_SRV_DOMAIN` and `MFS_SRV_DOMAIN`
abbrev pub mount_srv_domain : ℕ
mount_srv_domain = 9

abbrev pub mfs_srv_domain : ℕ
mfs_srv_domain = 11

send_decoded : CapTable → ℕ → ℕ → Option Capability → CapTable × Bool
send_decoded table me to none = (table, false)
send_decoded table me to (some cap) = delegate table me to cap

-- The arm `SYS_CAP_SEND`; `none` is the panic of `has`.
unfoldable pub cap_send : CapTable → ℕ → ℕ → ℕ → ℕ → Option (CapTable × Bool)
unfolding send_decoded
cap_send table me to kind arg = do
  allowed ← has table me (send_to to)
  some (if allowed then send_decoded table me to (decode kind arg) else (table, false))

-- What `spawn_elf` does to the table for its new domain: an empty row and three grants.
unfoldable pub spawn_caps : CapTable → ℕ → Option CapTable
spawn_caps table domain = do
  r ← grant (add_domain table domain) domain (send_to mount_srv_domain)
  r' ← grant r.0 domain (send_to mfs_srv_domain)
  r'' ← grant r'.0 domain (map_into mfs_srv_domain)
  some r''.0

pub data Op : Type 0 where
  sends : ℕ → ℕ → ℕ → ℕ → Op
  spawns : ℕ → Op
  revokes : ℕ → Capability → Op
  destroys : ℕ → Op

unfoldable pub step : CapTable → Op → Option CapTable
unfolding cap_send spawn_caps
step t (sends me to kind arg) = do r ← cap_send t me to kind arg; some r.0
step t (spawns domain) = spawn_caps t domain
step t (revokes domain cap) = do r ← revoke t domain cap; some r.0
step t (destroys domain) = some (remove_domain t domain)

unfoldable pub run : CapTable → List Op → Option CapTable
unfolding step
run t [] = some t
run t (o ∷ os) = let rest = λ (u : CapTable). run u os in step t o >>= rest

-- What `spawn_elf` gives to every program.
abbrev pub IsDefault : Capability → Type 0
IsDefault x =
    (x ≡ send_to mount_srv_domain) ⊎ (x ≡ send_to mfs_srv_domain) ⊎ (x ≡ map_into mfs_srv_domain)

-- What is held in `u` was held in `t`, by that domain or another, or is given at a spawn.
abbrev From : CapTable → CapTable → Type 0
From t u = (d : ℕ) (x : Capability) → 0 < held u d x → ((e : ℕ) × (0 < held t e x)) ⊎ IsDefault x

From-refl : (t : CapTable) → From t t
From-refl t d x h = inl (d, h)

From-trans : (t u v : CapTable) → From t u → From u v → From t v
From-trans t u v p q d x h = elim (q d x h) [ inl (e, k) ↦ p e x k | inr given ↦ inr given ]

From-of_le : (t u : CapTable) → ((d : ℕ) (x : Capability) → held u d x ≤ held t d x) → From t u
From-of_le t u le d x h = inl (d, omega (arith, le d x))

give-From :
    (t : CapTable) (from to : ℕ) (c : Capability) → 0 < held t from c → From t (give t to c).0
give-From t from to c owned d x h = elim (dec_lt 0 (held t d x)) [
  | yes p ↦ inl (d, p)
  | no n ↦ inl (from, rw (← (hit_pos to d c x (omega (arith, held-give t to c d x))).1) owned)
]

delegate-From : (t : CapTable) (from to : ℕ) (c : Capability) → From t (delegate t from to c).0
unfolding delegate
delegate-From t from to c = elim (Bool-cases (holds t from c)) [
  | inl e ↦ rw (e, delegate) (give-From t from to c ((holds_iff t from c).0 e))
  | inr e ↦ rw (e, delegate) (From-refl t)
]

send_decoded-From :
    (t : CapTable) (me to : ℕ) (o : Option Capability) → From t (send_decoded t me to o).0
unfolding send_decoded
send_decoded-From t me to none = From-refl t
send_decoded-From t me to (some cap) = delegate-From t me to cap

send_if-From :
    (t u : CapTable) (me to : ℕ) (o : Option Capability) (b : Bool)
    → (if b then send_decoded t me to o else (t, false)).0 ≡ u
    → From t u
send_if-From t u me to o true e = rw (← e) (send_decoded-From t me to o)
send_if-From t u me to o false e = rw (← e) (From-refl t)

grant-From :
    (t : CapTable) (d : ℕ) (c : Capability) (r : CapTable × Bool)
    → grant t d c ≡ some r
    → IsDefault c
    → From t r.0
grant-From t d c r h given e x pos = elim (dec_lt 0 (held t e x)) [
  | yes p ↦ inl (e, p)
  | no n ↦ inr (rw (← (hit_pos d e c x (grind (arith, held-grant t d c r e x h))).1) given)
]

add_domain-From : (t : CapTable) (id : ℕ) → From t (add_domain t id)
unfolding add_domain
add_domain-From t id = From-of_le t _ (λ d x. held-set_row t id d x)

remove_domain-From : (t : CapTable) (id : ℕ) → From t (remove_domain t id)
unfolding remove_domain
remove_domain-From t id = From-of_le t _ (λ d x. held-set_row t id d x)

spawn_caps-From : (t u : CapTable) (id : ℕ) → spawn_caps t id ≡ some u → From t u
unfolding spawn_caps
spawn_caps-From t u id h =
    let (r, g, h') = >>=-eq-some (grant (add_domain t id) id (send_to mount_srv_domain)) _ u h in
    let (r', g', h'') = >>=-eq-some (grant r.0 id (send_to mfs_srv_domain)) _ u h' in
    let (r'', g'', e) = >>=-eq-some (grant r'.0 id (map_into mfs_srv_domain)) _ u h'' in
    let last : r''.0 ≡ u = some_inj e in
    rw (← last) (
      From-trans t r'.0 r''.0
        (From-trans t r.0 r'.0
          (From-trans t (add_domain t id) r.0 (add_domain-From t id)
            (grant-From _ id _ r g (inl refl)))
          (grant-From r.0 id _ r' g' (inr (inl refl))))
        (grant-From r'.0 id _ r'' g'' (inr (inr refl))))

step-From : (t u : CapTable) (o : Op) → step t o ≡ some u → From t u
unfolding step cap_send
step-From t u (sends me to kind arg) h =
    let (r, g, e) = >>=-eq-some (cap_send t me to kind arg) _ u h in
    let (b, _, e') = >>=-eq-some (has t me (send_to to)) _ r g in
    send_if-From t u me to (decode kind arg) b
      (ap (λ (p : CapTable × Bool). p.0) (some_inj e') ∙ some_inj e)
step-From t u (spawns id) h = spawn_caps-From t u id h
step-From t u (revokes d c) h =
    let (r, g, e) = >>=-eq-some (revoke t d c) _ u h in
    let last : r.0 ≡ u = some_inj e in
    rw (← last) (From-of_le t r.0 (λ e x. omega (arith, held-revoke t d c r e x g)))
step-From t u (destroys id) h =
    let last : remove_domain t id ≡ u = some_inj h in rw (← last) (remove_domain-From t id)

run-From : (t u : CapTable) (os : List Op) → run t os ≡ some u → From t u
unfolding run
run-From t u [] h = let last : t ≡ u = some_inj h in rw (← last) (From-refl t)
run-From t u (o ∷ os) h =
    let (v, g, h') = >>=-eq-some (step t o) _ u h in
    From-trans t v u (step-From t v o g) (run-From v u os h')

-- Authority is never made: whatever programs send one another, start, lose and end, a capability that
-- a domain holds afterwards was held by some domain before, or is one of the three that `spawn_elf`
-- gives to every program.
pub run_no_amplification :
    (t u : CapTable) (os : List Op) (d : ℕ) (x : Capability)
    → run t os ≡ some u
    → holds u d x ≡ true
    → ((e : ℕ) × (holds t e x ≡ true)) ⊎ IsDefault x
run_no_amplification t u os d x h own = elim (run-From t u os h d x ((holds_iff u d x).0 own)) [
  | inl (e, k) ↦ inl (e, (holds_iff t e x).1 k)
  | inr given ↦ inr given
]
