-- ===== src/Key.antt =====
-- The key queue: kernel/src/key.rs, without the wake-up of the reader (Kernel has it).
pub mod Fifo
mod Tests
use morion_os.Prelude.{
  ℕ, zero, suc, ◌+◌, ◌-◌, ◌*◌, ◌/◌, ◌%◌, ◌^◌, ◌≤◌, ◌<◌, ◌≡◌, ◌≢◌, ◌↔◌, ◌⊎◌, inl, inr, refl, sym, ap,
  ◌∙◌, Bool, true, false, not, ◌&&◌, ◌||◌, Option, none, some, List, [], ◌∷◌, ◌++◌, map, length,
  get_elem?, get_or, set, take, drop, replicate, length-append, length-set, get_elem?-set_self,
  get_elem?-set_ne, get_or-set_self, get_or-set_ne, get_elem?_lt, set-set, set_same, get_elem?-none,
  get_elem?-eq-get_or, length-replicate, length-take, set_padded, set_padded_self, set_padded_other,
  set_padded_ne, length-set_padded, arith, ite, if_pos, if_neg, dec_lt, dec_le, ℕ_discrete, ltb,
  leb, ◌==◌, if◌then◌else◌, ltb→lt, lt→ltb, leb→le, le→leb, ==_iff, ==_self, ==_ne, Bool-cases,
  Option-cases, ◌>>=◌, >>=-eq-some, some_inj, u64_max, bit_or-disjoint, min, max,
}

-- `QUEUE_LEN`
abbrev pub queue_len : ℕ
queue_len = 64

-- `KeyQueue`
pub record KeyQueue : Type 0 where
  pub buf : List ℕ
  pub head : ℕ
  pub tail : ℕ
  pub count : ℕ

-- `KeyQueue::new`
unfoldable pub empty : KeyQueue
empty = record { buf = replicate queue_len 0; head = 0; tail = 0; count = 0 }

-- `KeyQueue::push`. An index out of range would panic; `Fifo.IsValid` rules it out.
unfoldable pub push : KeyQueue → ℕ → KeyQueue × Bool
push q c = if leb queue_len q.count then (q, false) else (
  record q { buf = set q.buf q.tail c; tail = (q.tail + 1) % queue_len; count = q.count + 1 },
  true,
)

-- `KeyQueue::pop`
unfoldable pub pop : KeyQueue → KeyQueue × Option ℕ
pop q =
    if q.count == 0
    then (q, none)
    else (record q { head = (q.head + 1) % queue_len; count = q.count - 1 }, get_elem? q.buf q.head)

-- The calls of the two system calls, `SYS_KEY_PUSH` and `SYS_KEY_TRY_READ`, with what each returns.
pub data Call : Type 0 where
  put : ℕ → Call
  take_key : Call

pub data Reply : Type 0 where
  stored : Bool → Reply
  taken : Option ℕ → Reply

unfoldable pub run : KeyQueue → List Call → List Reply
unfolding push pop
run q [] = []
run q (put c ∷ cs) = let (q', b) = push q c in stored b ∷ run q' cs
run q (take_key ∷ cs) = let (q', k) = pop q in taken k ∷ run q' cs
