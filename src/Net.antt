-- ===== src/Net.antt =====
-- The ownership of network ports: `bind`, `owner` and `remove_domain` of kernel/src/net.rs. The NIC
-- table page of the same file is not modelled.
pub mod Owners
pub mod Ports
mod Tests
use morion_os.Prelude.{
  ℕ, zero, suc, ◌+◌, ◌-◌, ◌*◌, ◌/◌, ◌%◌, ◌^◌, ◌≤◌, ◌<◌, ◌≡◌, ◌≢◌, ◌↔◌, ◌⊎◌, inl, inr, refl, sym, ap,
  ◌∙◌, Bool, true, false, not, ◌&&◌, ◌||◌, Option, none, some, List, [], ◌∷◌, ◌++◌, map, length,
  get_elem?, get_or, set, take, drop, replicate, length-append, length-set, get_elem?-set_self,
  get_elem?-set_ne, get_or-set_self, get_or-set_ne, get_elem?_lt, set-set, set_same, get_elem?-none,
  get_elem?-eq-get_or, length-replicate, length-take, drop_all, take_nil, get_or-append_left,
  get_or-append_end, drop-split, set_padded, set_padded_self, set_padded_other, set_padded_ne,
  length-set_padded, arith, ite, if_pos, if_neg, dec_lt, dec_le, ℕ_discrete, ltb, leb, ◌==◌,
  if◌then◌else◌, ltb→lt, lt→ltb, leb→le, le→leb, ==_iff, ==_self, ==_ne, Bool-cases, Option-cases,
  ◌>>=◌, >>=-eq-some, some_inj, u64_max, bit_or-disjoint, min, max,
}
use morion_os.Cap.Table.{CapTable, has_net_port}

-- `MAX_BINDINGS`
abbrev pub max_bindings : ℕ
max_bindings = 64

-- `Binding`; `BINDINGS` is a list of them.
pub record Binding : Type 0 where
  pub domain : ℕ
  pub port : ℕ

-- `b.iter().any(|x| x.port == port)`
unfoldable pub is_bound : List Binding → ℕ → Bool
is_bound [] port = false
is_bound (x ∷ xs) port = (x.port == port) || is_bound xs port

-- `b.iter().any(|x| x.port == port && x.domain == domain)`
unfoldable pub is_bound_by : List Binding → ℕ → ℕ → Bool
is_bound_by [] domain port = false
is_bound_by (x ∷ xs) domain port =
    ((x.port == port) && (x.domain == domain)) || is_bound_by xs domain port

-- `bind`, with the capability tables that it asks.
unfoldable pub bind : CapTable → List Binding → ℕ → ℕ → List Binding × Bool
unfolding is_bound is_bound_by
bind caps b domain port =
    if not (has_net_port caps domain port)
    then (b, false)
    else if is_bound b port
    then (b, is_bound_by b domain port)
    else if leb max_bindings (length b)
    then (b, false)
    else (b ++ (record { domain = domain; port = port }) ∷ [], true)

-- `owner`
unfoldable pub owner : List Binding → ℕ → ℕ
owner [] port = u64_max
owner (x ∷ xs) port = if x.port == port then x.domain else owner xs port

-- `remove_domain`
unfoldable pub remove_domain : List Binding → ℕ → List Binding
remove_domain [] domain = []
remove_domain (x ∷ xs) domain =
    let rest = remove_domain xs domain in if x.domain == domain then rest else x ∷ rest
