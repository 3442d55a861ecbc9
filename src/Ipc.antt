-- ===== src/Ipc.antt =====
-- Messages between domains: kernel/src/ipc.rs. Each function runs with interrupts off up to the point
-- where it blocks, so it is one step up to there: `receive` and `call` are split at that point. An index
-- out of range panics and is `none`, as are the panics of the scheduler.
pub mod Boxes
pub mod Authentic
pub mod Wakes
mod Tests
use morion_os.Prelude.{
  ℕ, zero, suc, ◌+◌, ◌-◌, ◌*◌, ◌/◌, ◌%◌, ◌^◌, ◌≤◌, ◌<◌, ◌≡◌, ◌≢◌, ◌↔◌, ◌⊎◌, inl, inr, refl, sym, ap,
  ◌∙◌, Bool, true, false, not, ◌&&◌, ◌||◌, Option, none, some, List, [], ◌∷◌, ◌++◌, map, length,
  get_elem?, get_or, set, take, drop, replicate, length-append, length-set, get_elem?-set_self,
  get_elem?-set_ne, get_or-set_self, get_or-set_ne, get_elem?_lt, set-set, set_same, get_elem?-none,
  get_elem?-eq-get_or, length-replicate, length-take, drop_all, take_nil, get_or-append_left,
  get_or-append_end, drop-split, set_padded, set_padded_self, set_padded_other, set_padded_ne,
  length-set_padded, arith, ite, if_pos, if_neg, dec_lt, dec_le, ℕ_discrete, ltb, leb, ◌==◌,
  if◌then◌else◌, ltb→lt, lt→ltb, leb→le, le→leb, ==_iff, ==_self, ==_ne, Bool-cases, Option-cases,
  ◌>>=◌, >>=-eq-some, some_inj, u64_max, bit_or-disjoint, min, max,
}
use morion_os.Cap.{Capability, send_to}
use morion_os.Cap.Table.{CapTable, has}
use morion_os.Sched.{Scheduler}
use morion_os.Sched.Ops.{
  current_domain, current_reply_target, set_current_reply_target, block_current,
  block_current_timeout_ms, wake_one, live_tasks,
}

-- `PAYLOAD_LEN`
abbrev pub payload_len : ℕ
payload_len = 96

-- `MAILBOX_CAP`
abbrev pub mailbox_cap : ℕ
mailbox_cap = 16

-- `CALL_POLL_MS`
abbrev pub call_poll_ms : ℕ
call_poll_ms = 200

-- `Message`
pub record Message : Type 0 where
  pub from : ℕ
  pub to : ℕ
  pub tag : ℕ
  pub payload : List ℕ

-- `MAILBOXES`
abbrev pub Mailboxes : Type 0
Mailboxes = List (List Message)

-- What the functions of the module read and write.
pub record Kernel : Type 0 where
  pub caps : CapTable
  pub boxes : Mailboxes
  pub sched : Scheduler

-- `init`
unfoldable pub init : ℕ → Mailboxes
init domain_count = replicate domain_count []

-- `set_mailbox`: the table is filled up with empty boxes.
unfoldable pub set_mailbox : Mailboxes → ℕ → List Message → Mailboxes
set_mailbox boxes id box = set_padded [] boxes id box

-- `add_domain`
unfoldable pub add_domain : Mailboxes → ℕ → Mailboxes
unfolding set_mailbox
add_domain boxes id = set_mailbox boxes id []

-- `remove_domain`
unfoldable pub remove_domain : Mailboxes → ℕ → Mailboxes
unfolding set_mailbox
remove_domain boxes id = set_mailbox boxes id []

-- The message that the senders make: the payload is cut, or filled up with zeros.
abbrev pub message : ℕ → ℕ → ℕ → List ℕ → Message
message from to tag payload = record {
  from = from;
  to = to;
  tag = tag;
  payload = take payload_len payload ++ replicate (payload_len - length payload) 0;
}

-- `failed`
abbrev pub failed : Message
failed = message 0 0 u64_max []

-- `push_back` on a box of the table, and the waking that follows it.
unfoldable pub push_and_wake : Kernel → Message → Option Kernel
push_and_wake k msg = do
  mbox ← get_elem? k.boxes msg.to
  some (record k { boxes = set k.boxes msg.to (mbox ++ msg ∷ []); sched = wake_one k.sched msg.to })

-- `deliver`
unfoldable pub deliver : Kernel → ℕ → ℕ → ℕ → List ℕ → Option (Kernel × Bool)
unfolding push_and_wake
deliver k from to tag payload = do
  mbox ← get_elem? k.boxes to
  if leb mailbox_cap (length mbox)
      then some (k, false)
      else (push_and_wake k (message from to tag payload) >>= λ k'. some (k', true))

-- `send`
unfoldable pub send : Kernel → ℕ → ℕ → List ℕ → Option (Kernel × Bool)
unfolding deliver
send k to tag payload = do
  from ← current_domain k.sched
  may ← has k.caps from (send_to to)
  if may then deliver k from to tag payload else some (k, false)

-- `pop_front`, with what is left.
unfoldable pub pop : List Message → List Message × Option Message
pop [] = ([], none)
pop (msg ∷ mbox) = (mbox, some msg)

-- `boxes[me as usize].pop_front()`
unfoldable pub pop_front : Mailboxes → ℕ → Option (Mailboxes × Option Message)
unfolding pop
pop_front boxes me = do mbox ← get_elem? boxes me; some (set boxes me (pop mbox).0, (pop mbox).1)

-- The message is handed out, and its sender becomes the reply target.
unfoldable pub take_message : Kernel → Mailboxes → Message → Option (Kernel × Option Message)
take_message k boxes msg = do
  sched ← set_current_reply_target k.sched msg.from
  some (record k { boxes = boxes; sched = sched }, some msg)

-- `try_receive`
unfoldable pub try_receive : Kernel → Option (Kernel × Option Message)
unfolding pop_front take_message
try_receive k = do
  me ← current_domain k.sched
  got ← pop_front k.boxes me
  elim got.1 [
    | none ↦ some (record k { boxes = got.0 }, none)
    | some msg ↦ take_message k got.0 msg
  ]

-- One round of the loop of `receive`: no message means that the task is blocked, and runs the next
-- round when it has been woken.
unfoldable pub receive_round : Kernel → Option (Kernel × Option Message)
unfolding pop_front take_message
receive_round k = do
  me ← current_domain k.sched
  got ← pop_front k.boxes me
  elim got.1 [
    | none ↦
        block_current k.sched me >>= λ sched. some (record k { boxes = got.0; sched = sched }, none)
    | some msg ↦ take_message k got.0 msg
  ]

-- `call` up to the first time it blocks. No failure is reported as `true`: then it waits.
unfoldable pub call : Kernel → ℕ → ℕ → List ℕ → Option (Kernel × Bool)
unfolding push_and_wake
call k to tag payload = do
  me ← current_domain k.sched
  may ← has k.caps me (send_to to)
  if not may then some (k, false) else if live_tasks k.sched to == 0 then some (k, false) else (do
    k' ← push_and_wake k (message me to tag payload)
    sched ← block_current_timeout_ms k'.sched me call_poll_ms
    some (record k' { sched = sched }, true))

-- `mbox.iter().position(|m| m.from == to)` and `mbox.remove(i)`
unfoldable pub remove_from : List Message → ℕ → List Message × Option Message
remove_from [] to = ([], none)
remove_from (m ∷ ms) to =
    let rest = remove_from ms to in if m.from == to then (ms, some m) else (m ∷ rest.0, rest.1)

-- One round of the loop of `call` after the task has been woken: the reply, a failure, or nothing yet,
-- and then the task is blocked again.
unfoldable pub call_round : Kernel → ℕ → Option (Kernel × Option Message)
unfolding remove_from
call_round k to = do
  me ← current_domain k.sched
  mbox ← get_elem? k.boxes me
  let (mbox', found) = remove_from mbox to in
      elim found [
        | some r ↦ some (record k { boxes = set k.boxes me mbox' }, some r)
        | none ↦
            if live_tasks k.sched to == 0
            then some (k, some failed)
            else (block_current_timeout_ms k.sched me call_poll_ms >>= λ sched.
                some (record k { sched = sched }, none))
      ]

-- `reply`
unfoldable pub reply : Kernel → ℕ → List ℕ → Option (Kernel × Bool)
unfolding push_and_wake
reply k tag payload = do
  me ← current_domain k.sched
  target ← current_reply_target k.sched
  if target == u64_max
      then some (k, false)
      else (push_and_wake k (message me target tag payload) >>= λ k'. some (k', true))
