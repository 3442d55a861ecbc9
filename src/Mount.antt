-- ===== src/Mount.antt =====
-- The mount table: user/srv/src/mount_srv.rs. Paths and prefixes are lists of bytes; an entry keeps
-- the bytes of its prefix that are in use, so `plen` is their number.
pub mod Paths
pub mod Resolve
pub mod Invariant
pub mod Names
mod Tests
use morion_os.Prelude.{
  ℕ, zero, suc, ◌+◌, ◌-◌, ◌*◌, ◌/◌, ◌%◌, ◌^◌, ◌≤◌, ◌<◌, ◌≡◌, ◌≢◌, ◌↔◌, ◌⊎◌, inl, inr, refl, sym, ap,
  subst, ◌∙◌, Bool, true, false, not, ◌&&◌, ◌||◌, Option, none, some, List, [], ◌∷◌, ◌++◌, map,
  length, get_elem?, get_or, set, take, drop, replicate, length-append, length-set,
  get_elem?-set_self, get_elem?-set_ne, get_or-set_self, get_or-set_ne, get_elem?_lt, set-set,
  set_same, get_elem?-none, get_elem?-eq-get_or, length-replicate, length-take, drop_all, take_nil,
  get_or-append_left, get_or-append_end, drop-split, set_padded, set_padded_self, set_padded_other,
  set_padded_ne, length-set_padded, get_or-set_padded, suc_test, arith, ite, if_pos, if_neg, dec_lt,
  dec_le, ℕ_discrete, ltb, leb, ◌==◌, if◌then◌else◌, ltb→lt, lt→ltb, leb→le, le→leb, ==_iff,
  ==_self, ==_ne, Bool-cases, Option-cases, ◌>>=◌, >>=-eq-some, some_inj, case_option,
  case_option-inv, if-inv, reject-inv, &&_inv, ||_inv, not_inv, ltb-false, u64_max, bit_or-disjoint,
  min, max,
}
use Prim.Native.Nat.{bit_or}
use morion_os.Prelude.Bytes.{bytes_eq}

abbrev pub mount_max : ℕ
mount_max = 16

abbrev pub mount_prefix_max : ℕ
mount_prefix_max = 24

pub record MountEntry : Type 0 where
  pub used : Bool
  pub vol_enc : ℕ
  pub domain : ℕ
  pub prefix : List ℕ

abbrev pub mount_empty : MountEntry
mount_empty = record { used = false; vol_enc = 0; domain = 0; prefix = [] }

-- `MOUNTS`
abbrev pub Mounts : Type 0
Mounts = List MountEntry

abbrev pub no_mounts : Mounts
no_mounts = replicate mount_max mount_empty

abbrev pub root : List ℕ
root = b'/' ∷ []

abbrev pub is_absolute : List ℕ → Bool
is_absolute [] = false
is_absolute (b ∷ bs) = b == b'/'

unfoldable pub mount_prefix_match : List ℕ → List ℕ → Option ℕ
unfolding bytes_eq
mount_prefix_match path prefix =
    let n = length prefix in
    if not (is_absolute path)
    then none
    else if bytes_eq prefix root
    then some 1
    else if ltb (length path) n || not (bytes_eq (take n path) prefix)
    then none
    else if length path == n || get_or path n 0 == b'/'
    then some n
    else none

-- the first entry from index `i` on that is used and has the prefix
unfoldable pub find_entry : Mounts → List ℕ → ℕ → Option ℕ
unfolding bytes_eq
find_entry [] prefix i = none
find_entry (e ∷ es) prefix i =
    let rest = find_entry es prefix (i + 1) in
    if e.used && bytes_eq e.prefix prefix then some i else rest

unfoldable pub mount_find : Mounts → List ℕ → Option ℕ
unfolding find_entry
mount_find mounts prefix = find_entry mounts prefix 0

unfoldable pub first_unused : Mounts → ℕ → Option ℕ
first_unused [] i = none
first_unused (e ∷ es) i = let rest = first_unused es (i + 1) in if e.used then rest else some i

-- the checks of `mount_add` on its arguments
abbrev pub bad_prefix : List ℕ → ℕ → Bool
bad_prefix prefix domain =
    (not (is_absolute prefix) || leb mount_prefix_max (length prefix)) || domain == 0

unfoldable pub mount_add : Mounts → List ℕ → ℕ → ℕ → Mounts × ℕ
unfolding mount_find first_unused
mount_add mounts prefix domain vol_enc =
    if bad_prefix prefix domain
    then (mounts, u64_max)
    else case_option (mount_find mounts prefix)
        (case_option (first_unused mounts 0) (mounts, u64_max)
          (λ i. (
            set mounts i
                (record { used = true; vol_enc = vol_enc; domain = domain; prefix = prefix }),
            i + 1,
          )))
        (λ _. (mounts, u64_max))

-- `/mnt` and the byte `b'0' + n`
abbrev pub mnt_name : ℕ → List ℕ
mnt_name n = b'/' ∷ b'm' ∷ b'n' ∷ b't' ∷ (b'0' + n % 256) ∷ []

-- the loop of `mount_auto` from `n` on
unfoldable pub auto_from : ℕ → ℕ → Mounts → ℕ → Mounts × ℕ
unfolding mount_find mount_add
auto_from zero n mounts domain = (mounts, u64_max)
auto_from (suc k) n mounts domain =
    let rest = auto_from k (n + 1) mounts domain in
    case_option (mount_find mounts (mnt_name n)) (mount_add mounts (mnt_name n) domain 0)
      (λ _. rest)

unfoldable pub mount_auto : Mounts → ℕ → Mounts × ℕ
unfolding auto_from
mount_auto mounts domain = auto_from mount_max 0 mounts domain

-- the loop of `dec_to_str`: the digits from the lowest on, as many as `tmp` holds
unfoldable pub digits_from : ℕ → ℕ → List ℕ
digits_from zero x = []
digits_from (suc room) x =
    let rest = digits_from room (x / 10) in (b'0' + x % 10) ∷ (if x / 10 == 0 then [] else rest)

abbrev pub reverse_onto : List ℕ → List ℕ → List ℕ
reverse_onto [] acc = acc
reverse_onto (b ∷ bs) acc = reverse_onto bs (b ∷ acc)

-- the bytes that are written to a buffer of `room` bytes
unfoldable pub dec_to_str : ℕ → ℕ → List ℕ
unfolding digits_from
dec_to_str v room = reverse_onto (take room (digits_from 20 v)) []

-- `vfs::enc_of_vol`
unfoldable pub enc_of_vol : ℕ → ℕ
enc_of_vol vol = (vol + 1) % 2 ^ 32

unfoldable pub mount_auto_vol : Mounts → ℕ → ℕ → Mounts × ℕ
unfolding dec_to_str enc_of_vol mount_find mount_add
mount_auto_vol mounts domain vol =
    let name = b'/' ∷ b'u' ∷ b's' ∷ b'b' ∷ dec_to_str vol (mount_prefix_max - 4) in
    case_option (mount_find mounts name) (mount_add mounts name domain (enc_of_vol vol)) (λ i.
      let e = get_or mounts i mount_empty in
      (mounts, if e.domain == domain && e.vol_enc == enc_of_vol vol then i + 1 else u64_max))

unfoldable pub mount_del : Mounts → List ℕ → Mounts × ℕ
unfolding bytes_eq mount_find
mount_del mounts prefix =
    if bytes_eq prefix root
    then (mounts, u64_max)
    else case_option (mount_find mounts prefix) (mounts, u64_max)
        (λ i. (set mounts i (record (get_or mounts i mount_empty) { used = false }), 1))

-- the entry and its match, if it is longer than the best one so far
abbrev pub Route : Type 0
Route = Option ((ℕ × ℕ) × ℕ)

abbrev pub route_len : Route → ℕ
route_len none = 0
route_len (some (_, n)) = n

abbrev pub is_none_or_shorter : Route → ℕ → Bool
is_none_or_shorter none n = true
is_none_or_shorter (some (_, m)) n = ltb m n

unfoldable pub better : List ℕ → Route → MountEntry → Route
unfolding mount_prefix_match
better path best e =
    if not e.used
    then best
    else case_option (mount_prefix_match path e.prefix) best
        (λ n. if is_none_or_shorter best n then some ((e.domain, e.vol_enc), n) else best)

unfoldable pub resolve_from : Mounts → List ℕ → Route → Route
unfolding better
resolve_from [] path best = best
resolve_from (e ∷ es) path best = resolve_from es path (better path best e)

unfoldable pub mount_resolve : Mounts → List ℕ → Route
unfolding resolve_from
mount_resolve mounts path = resolve_from mounts path none

-- The default mounts: the root, `/tmp`, `/mfs`, `/ext2`, `/usb` and `/cdrom` with the domains of their
-- file services.
abbrev pub default_mounts : List (List ℕ × ℕ)
default_mounts =
    (root, 6)
    ∷ (b'/' ∷ b't' ∷ b'm' ∷ b'p' ∷ [], 10)
    ∷ (b'/' ∷ b'm' ∷ b'f' ∷ b's' ∷ [], 11)
    ∷ (b'/' ∷ b'e' ∷ b'x' ∷ b't' ∷ b'2' ∷ [], 12)
    ∷ (b'/' ∷ b'u' ∷ b's' ∷ b'b' ∷ [], 13)
    ∷ (b'/' ∷ b'c' ∷ b'd' ∷ b'r' ∷ b'o' ∷ b'm' ∷ [], 20)
    ∷ []

abbrev pub add_all : Mounts → List (List ℕ × ℕ) → Mounts
add_all mounts [] = mounts
add_all mounts ((prefix, domain) ∷ rest) = add_all (mount_add mounts prefix domain 0).0 rest

unfoldable pub mounts_init : Mounts
unfolding mount_add
mounts_init = add_all no_mounts default_mounts

-- The requests that `run` serves. A path ends at the first NUL of the message.
pub data Request : Type 0 where
  lookup unmount : List ℕ → Request
  mount : ℕ → List ℕ → Request
  mount_vol : ℕ → ℕ → Request
  other : Request

abbrev pub c_str : List ℕ → List ℕ
c_str [] = []
c_str (b ∷ bs) = let rest = c_str bs in if b == 0 then [] else b ∷ rest

-- the answer to a lookup: the volume, the domain and the length in one word
unfoldable pub pack_route : Route → ℕ
pack_route none = u64_max
pack_route (some ((domain, vol_enc), n)) =
    bit_or (bit_or (vol_enc * 2 ^ 40 % 2 ^ 64) (domain * 2 ^ 32 % 2 ^ 64)) n

-- one round of the loop of `run`: the table afterwards and the reply
unfoldable pub serve : Mounts → Request → Mounts × ℕ
unfolding mount_resolve pack_route mount_auto mount_add mount_auto_vol mount_del
serve mounts (lookup payload) = (mounts, pack_route (mount_resolve mounts (c_str payload)))
serve mounts (mount domain prefix) =
    if length (c_str prefix) == 0
    then mount_auto mounts domain
    else mount_add mounts (c_str prefix) domain 0
serve mounts (mount_vol domain vol) = mount_auto_vol mounts domain vol
serve mounts (unmount payload) = mount_del mounts (c_str payload)
serve mounts other = (mounts, u64_max)

unfoldable pub serve_all : Mounts → List Request → Mounts
unfolding serve
serve_all mounts [] = mounts
serve_all mounts (r ∷ rs) = serve_all (serve mounts r).0 rs
