-- ===== src/Pager.antt =====
-- The pager of each domain: kernel/src/pager.rs.
pub mod Registry
mod Tests
use morion_os.Prelude.{
  ℕ, zero, suc, ◌+◌, ◌-◌, ◌*◌, ◌/◌, ◌%◌, ◌^◌, ◌≤◌, ◌<◌, ◌≡◌, ◌≢◌, ◌↔◌, ◌⊎◌, inl, inr, refl, sym, ap,
  ◌∙◌, Bool, true, false, not, ◌&&◌, ◌||◌, Option, none, some, List, [], ◌∷◌, ◌++◌, map, length,
  get_elem?, get_or, set, take, drop, replicate, length-append, length-set, get_elem?-set_self,
  get_elem?-set_ne, get_or-set_self, get_or-set_ne, get_elem?_lt, set-set, set_same, get_elem?-none,
  get_elem?-eq-get_or, length-replicate, length-take, drop_all, take_nil, get_or-append_left,
  get_or-append_end, drop-split, set_padded, set_padded_self, set_padded_other, set_padded_ne,
  length-set_padded, arith, ite, if_pos, if_neg, dec_lt, dec_le, ℕ_discrete, ltb, leb, ◌==◌,
  if◌then◌else◌, ltb→lt, lt→ltb, leb→le, le→leb, ==_iff, ==_self, ==_ne, Bool-cases, Option-cases,
  ◌>>=◌, >>=-eq-some, some_inj, if-inv, u64_max, bit_or-disjoint, min, max,
}
use morion_os.Ipc.{Kernel, deliver}

-- `PAGERS`
abbrev pub Pagers : Type 0
Pagers = List (Option ℕ)

-- `FAULT_TAG`
abbrev pub fault_tag : ℕ
fault_tag = 0x504641554C54

-- `PageFaultInfo`
pub record PageFaultInfo : Type 0 where
  pub fault_domain : ℕ
  pub fault_addr : ℕ
  pub error_code : ℕ

-- `init`
unfoldable pub init : ℕ → ℕ → Pagers
init domain_count pager_domain = replicate domain_count (some pager_domain)

-- `set_pager`
unfoldable pub set_pager : Pagers → ℕ → Option ℕ → Pagers
set_pager pagers id pager = set_padded none pagers id pager

-- `add_domain`
unfoldable pub add_domain : Pagers → ℕ → ℕ → Pagers
unfolding set_pager
add_domain pagers id pager_domain = set_pager pagers id (some pager_domain)

-- `remove_domain`
unfoldable pub remove_domain : Pagers → ℕ → Pagers
unfolding set_pager
remove_domain pagers id = set_pager pagers id none

-- `of`
unfoldable pub of : Pagers → ℕ → Option ℕ
of pagers domain = get_or pagers domain none

-- A u64 in memory: eight bytes, the lowest first.
unfoldable pub bytes_of : ℕ → ℕ → List ℕ
bytes_of zero x = []
bytes_of (suc n) x = x % 256 ∷ bytes_of n (x / 256)

-- `deliver_fault`
unfoldable pub deliver_fault : Kernel → ℕ → PageFaultInfo → Option (Kernel × Bool)
unfolding deliver bytes_of
deliver_fault k pager info =
    deliver k info.fault_domain pager fault_tag
      (bytes_of 8 info.fault_domain ++ (bytes_of 8 info.fault_addr ++ bytes_of 8 info.error_code))
