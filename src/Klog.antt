-- ===== src/Klog.antt =====
-- The log of kernel/src/klog.rs: a ring of `cap` bytes that keeps the newest. `LOG_CAP` is 64 KiB
-- there; here the capacity is a parameter, so that a test can run on a small one.
pub mod History
pub mod UserBuffer
mod Tests
use morion_os.Prelude.{
  ℕ, zero, suc, ◌+◌, ◌-◌, ◌*◌, ◌/◌, ◌%◌, ◌^◌, ◌≤◌, ◌<◌, ◌≡◌, ◌≢◌, ◌↔◌, ◌⊎◌, inl, inr, refl, sym, ap,
  ◌∙◌, Bool, true, false, not, ◌&&◌, ◌||◌, Option, none, some, List, [], ◌∷◌, ◌++◌, map, length,
  get_elem?, get_or, set, take, drop, replicate, length-append, length-set, get_elem?-set_self,
  get_elem?-set_ne, get_or-set_self, get_or-set_ne, get_elem?_lt, set-set, set_same, get_elem?-none,
  get_elem?-eq-get_or, length-replicate, length-take, set_padded, set_padded_self, set_padded_other,
  set_padded_ne, length-set_padded, arith, ite, if_pos, if_neg, dec_lt, dec_le, ℕ_discrete, ltb,
  leb, ◌==◌, if◌then◌else◌, ltb→lt, lt→ltb, leb→le, le→leb, ==_iff, ==_self, ==_ne, Bool-cases,
  Option-cases, ◌>>=◌, >>=-eq-some, some_inj, u64_max, bit_or-disjoint, min, max,
}

-- `LOG_BUF`, `LOG_HEAD` and `LOG_TOTAL`
pub record Log : Type 0 where
  pub buf : List ℕ
  pub head : ℕ
  pub total : ℕ

-- `LOG_CAP`
abbrev pub log_cap : ℕ
log_cap = 64 * 1024

-- `LOG_READ_MAX`
abbrev pub log_read_max : ℕ
log_read_max = 2 ^ 20

module _ (cap : ℕ) where
  unfoldable pub fresh : Log
  fresh = record { buf = replicate cap 0; head = 0; total = 0 }

  -- One round of `capture_bytes`. An index out of range would panic; `History.Holds` rules it out.
  unfoldable pub capture_byte : Log → ℕ → Log
  capture_byte log b = record {
    buf = set log.buf log.head b;
    head = (log.head + 1) % cap;
    total = (log.total + 1) % 2 ^ 64;
  }

  -- `capture_bytes`
  unfoldable pub capture_bytes : Log → List ℕ → Log
  unfolding capture_byte
  capture_bytes log [] = log
  capture_bytes log (b ∷ bs) = capture_bytes (capture_byte log b) bs

  -- `oldest`: the subtraction saturates.
  unfoldable pub oldest : Log → ℕ
  oldest log = log.total - cap

  -- The loop of `read`, for the `n` bytes that `dst` has room for.
  unfoldable pub read_loop : Log → ℕ → ℕ → List ℕ
  read_loop log s zero = []
  read_loop log s (suc n) =
      let rest = read_loop log (s + 1) n in
      if ltb s log.total then get_or log.buf (s % cap) 0 ∷ rest else []

  -- `read` into a destination of `len` bytes: the bytes that it writes, from the first on.
  unfoldable pub read : Log → ℕ → ℕ → List ℕ
  unfolding oldest read_loop
  read log start len =
      let s = if ltb start (oldest log) then oldest log else start in
      if leb log.total s then [] else read_loop log s len
