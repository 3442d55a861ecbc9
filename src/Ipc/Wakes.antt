-- ===== src/Ipc/Wakes.antt =====
-- What a send, a receive and a reply do: kernel/src/ipc.rs.
use morion_os.Prelude.{
  ℕ, ◌-◌, ◌≤◌, ◌<◌, ◌≡◌, ◌≢◌, ◌⊎◌, inl, inr, refl, sym, ap, ◌∙◌, Bool, true, false, Option, none,
  some, List, [], ◌∷◌, ◌++◌, length, get_elem?, get_or, set, get_elem?-set_self, get_elem?-set_ne,
  get_elem?_lt, arith, dec_lt, ℕ_discrete, leb, ◌==◌, if◌then◌else◌, ==_self, ==_ne, Bool-cases,
  Option-cases, >>=-eq-some, some_inj, u64_max,
}
use morion_os.Sched.Switch.{update_self}
use morion_os.Cap.{send_to}
use morion_os.Cap.Table.{has}
use morion_os.Sched.{Task, Scheduler, task_at}
use morion_os.Sched.Ops.{
  current_domain, current_reply_target, set_current_reply_target, wake_one, wake_first,
  with_current, waits_on, count_tasks,
}
use morion_os.Ipc.{
  Message, Mailboxes, Kernel, mailbox_cap, message, push_and_wake, deliver, send, pop, pop_front,
  take_message, try_receive, reply,
}

-- How many messages are in the box of a domain.
abbrev pub box_of : Mailboxes → ℕ → List Message
box_of boxes d = get_or boxes d []

-- How many tasks wait on a key.
abbrev pub waiters : Scheduler → ℕ → ℕ
waiters s key = count_tasks (waits_on key) s.tasks

count-idle :
    (key : ℕ) (t : Task) (ts : List (Option Task))
    → waits_on key t ≡ false
    → count_tasks (waits_on key) (some t ∷ ts) ≡ count_tasks (waits_on key) ts
unfolding count_tasks
count-idle key t ts e = rw e (omega arith)

left_alone :
    (key : ℕ) (t : Task) (ts : List (Option Task))
    → waits_on key t ≡ false
    → wake_first key (some t ∷ ts) ≡ some t ∷ wake_first key ts
unfolding wake_first
left_alone key t ts e = rw e refl

count-woken :
    (key : ℕ) (ts : List (Option Task))
    → count_tasks (waits_on key) (wake_first key ts) ≡ count_tasks (waits_on key) ts - 1
unfolding count_tasks wake_first
count-woken key [] = refl
count-woken key (none ∷ ts) = count-woken key ts
count-woken key (some t ∷ ts) = elim (Bool-cases (waits_on key t)) [
  | inl e ↦ rw e (omega arith)
  | inr e ↦
      ap (count_tasks (waits_on key)) (left_alone key t ts e)
      ∙ (count-idle key t (wake_first key ts) e
          ∙ (count-woken key ts ∙ ap (λ n. n - 1) (sym (count-idle key t ts e))))
]

get_elem?-set :
    (boxes : Mailboxes) (to other : ℕ) (v : List Message)
    → to < length boxes
    → get_elem? (set boxes to v) other ≡ (if to == other then some v else get_elem? boxes other)
get_elem?-set boxes to other v h = elim (ℕ_discrete to other) [
  | yes e ↦ rw (← e) (rw (==_self to) (get_elem?-set_self boxes to v h))
  | no n ↦ rw (==_ne to other n) (get_elem?-set_ne boxes to other v n)
]

-- A send fails, and changes nothing, exactly without the capability or at a full box; otherwise the
-- message is the last one in the box of the receiver, no other box changes, and one of the tasks that
-- wait for messages of the receiver waits no longer, if there is one.
pub send_lem :
    (k : Kernel) (me to tag other : ℕ) (payload : List ℕ) (may : Bool) (mbox : List Message)
    → current_domain k.sched ≡ some me
    → has k.caps me (send_to to) ≡ some may
    → get_elem? k.boxes to ≡ some mbox
    → ((send k to tag payload ≡ some (k, false)) × ((may ≡ false) ⊎ (mailbox_cap ≤ length mbox)))
      ⊎ ((k' : Kernel) × (send k to tag payload ≡ some (k', true))
          × (may ≡ true)
          × (length mbox < mailbox_cap)
          × (get_elem? k'.boxes other ≡ (
              if to == other
              then some (mbox ++ message me to tag payload ∷ [])
              else get_elem? k.boxes other))
          × (waiters k'.sched to ≡ waiters k.sched to - 1))
unfolding send deliver push_and_wake wake_one
send_lem k me to tag other payload false mbox e g h = inl (rw (e, g) refl, inl refl)
send_lem k me to tag other payload true mbox e g h = elim (dec_lt (length mbox) mailbox_cap) [
  | no n ↦
      let full : leb mailbox_cap (length mbox) ≡ true = ground arith in
      inl (rw (e, g, h, full) refl, inr (omega arith))
  | yes room ↦
      let test : leb mailbox_cap (length mbox) ≡ false = ground arith in
      inr (
        record k {
          boxes = set k.boxes to (mbox ++ message me to tag payload ∷ []);
          sched = wake_one k.sched to;
        },
        rw (e, g, h, test) refl,
        refl,
        room,
        get_elem?-set k.boxes to other (mbox ++ message me to tag payload ∷ [])
            (get_elem?_lt k.boxes to mbox h),
        count-woken to k.sched.tasks,
      )
]

-- The reply target is written to the current task, whose domain stays.
targeted :
    (s s' : Scheduler) (target me : ℕ)
    → current_domain s ≡ some me
    → set_current_reply_target s target ≡ some s'
    → (current_domain s' ≡ some me) × (current_reply_target s' ≡ some target)
unfolding current_domain current_reply_target set_current_reply_target with_current
targeted s s' target me h e = elim (Option-cases (task_at s.tasks s.current)) [
  | inl n ↦ absurd (cc)
  | inr (t, here) ↦
      let written = rw (here, set_current_reply_target, with_current) at e in
      let known = rw (here, current_domain) at h in
      let found = update_self (λ t. record t { reply_target = target }) s.tasks s.current t here in
      rw (← some_inj written, found) (known, refl)
]

taken-inv :
    (k k' : Kernel) (boxes : Mailboxes) (msg m : Message)
    → take_message k boxes msg ≡ some (k', some m)
    → (set_current_reply_target k.sched m.from ≡ some k'.sched) × (k'.boxes ≡ boxes) × (msg ≡ m)
unfolding take_message
taken-inv k k' boxes msg m h =
    let (sched, e, q) = >>=-eq-some (set_current_reply_target k.sched msg.from) _ (k', some m) h in
    let same : msg ≡ m = some_inj (ap (λ (y : Kernel × Option Message). y.1) (some_inj q)) in
    (
      rw (← same) (e ∙ ap (λ (y : Kernel × Option Message). some y.0.sched) (some_inj q)),
      sym (ap (λ (y : Kernel × Option Message). y.0.boxes) (some_inj q)),
      same,
    )

-- A round trip: what `try_receive` gives to a task is the oldest message in the box of its domain, and
-- a reply then goes to the sender of that message, in whose box it is the last one.
pub reply-try_receive :
    (k k' : Kernel) (me tag : ℕ) (payload : List ℕ) (m : Message) (mbox : List Message)
    → current_domain k.sched ≡ some me
    → try_receive k ≡ some (k', some m)
    → get_elem? k'.boxes m.from ≡ some mbox
    → m.from ≢ u64_max
    → ((rest : List Message) × (get_elem? k.boxes me ≡ some (m ∷ rest))
        × (k'.boxes ≡ set k.boxes me rest))
      × ((k'' : Kernel) × (reply k' tag payload ≡ some (k'', true))
          × (get_elem? k''.boxes m.from ≡ some (mbox ++ message me m.from tag payload ∷ [])))
unfolding try_receive pop_front reply push_and_wake pop
reply-try_receive k k' me tag payload m mbox e h g n = elim (Option-cases (get_elem? k.boxes me)) [
  | inl x ↦ absurd (cc (rw (e, x) at h))
  | inr ([], x) ↦ absurd (cc (rw (e, x) at h))
  | inr (msg ∷ rest, x) ↦
      let (target, boxes, same) = taken-inv k k' (set k.boxes me rest) msg m (rw (e, x) at h) in
      let (as_me, to_sender) = targeted k.sched k'.sched m.from me e target in
      (
        (rest, x ∙ ap (λ y. some (y ∷ rest)) same, boxes),
        (
          record k' {
            boxes = set k'.boxes m.from (mbox ++ message me m.from tag payload ∷ []);
            sched = wake_one k'.sched m.from;
          },
          rw (as_me, to_sender, ==_ne m.from u64_max n, g) refl,
          get_elem?-set_self k'.boxes m.from (mbox ++ message me m.from tag payload ∷ [])
              (get_elem?_lt k'.boxes m.from mbox g),
        ),
      )
]
