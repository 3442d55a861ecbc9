-- ===== src/Ipc/Authentic.antt =====
-- Who sends a message: every step of kernel/src/ipc.rs.
use morion_os.Prelude.{
  ℕ, ◌≡◌, ◌⊎◌, inl, inr, refl, ap, ◌∙◌, Bool, true, false, not, ◌&&◌, ◌||◌, Option, none, some,
  List, [], ◌∷◌, get_elem?, set, arith, ◌==◌, if◌then◌else◌, ◌>>=◌, >>=-eq-some, some_inj, if-inv,
  u64_max,
}
use morion_os.Cap.{send_to}
use morion_os.Cap.Table.{CapTable, has}
use morion_os.Sched.{Scheduler}
use morion_os.Sched.Ops.{
  current_domain, current_reply_target, block_current, block_current_timeout_ms, live_tasks,
}
use morion_os.Ipc.{
  Message, Mailboxes, Kernel, call_poll_ms, message, failed, push_and_wake, deliver, send,
  pop_front, take_message, try_receive, receive_round, call, remove_from, call_round, reply,
}
use morion_os.Ipc.Boxes.{InBox, pushed, delivered, In-remove_from, shrunk, popped, taken}

-- What happens in the kernel: the calls of the current task, messages that the kernel itself sends (a
-- page fault, an interrupt), and anything else that changes the capabilities and the tasks.
pub data Step : Type 0 where
  sends calls : ℕ → ℕ → List ℕ → Step
  replies : ℕ → List ℕ → Step
  receives tries : Step
  waits : ℕ → Step
  delivers : ℕ → ℕ → ℕ → List ℕ → Step
  others : CapTable → Scheduler → Step

abbrev pub first {ℓ} : {A : Type ℓ} → Option (Kernel × A) → Option Kernel
first o = o >>= λ r. some r.0

unfoldable pub step : Kernel → Step → Option Kernel
unfolding send call reply receive_round try_receive call_round deliver
step k (sends to tag payload) = first (send k to tag payload)
step k (calls to tag payload) = first (call k to tag payload)
step k (replies tag payload) = first (reply k tag payload)
step k receives = first (receive_round k)
step k tries = first (try_receive k)
step k (waits to) = first (call_round k to)
step k (delivers from to tag payload) = first (deliver k from to tag payload)
step k (others caps sched) = some (record k { caps = caps; sched = sched })

unfoldable pub run : Kernel → List Step → Option Kernel
unfolding step
run k [] = some k
run k (s ∷ ss) = let rest = λ (k' : Kernel). run k' ss in step k s >>= rest

abbrev is : Option ℕ → ℕ → Bool
is none n = false
is (some m) n = m == n

abbrev granted : Option Bool → Bool
granted none = false
granted (some b) = b

-- May the step make a message with this sender and this receiver? A task sends in the name of its own
-- domain, with a capability for the receiver or as a reply; the kernel sends as it likes.
unfoldable pub makes : Kernel → Step → Message → Bool
makes k (sends to tag payload) m =
    is (current_domain k.sched) m.from && (to == m.to) && granted (has k.caps m.from (send_to m.to))
makes k (calls to tag payload) m =
    is (current_domain k.sched) m.from && (to == m.to) && granted (has k.caps m.from (send_to m.to))
makes k (replies tag payload) m =
    is (current_domain k.sched) m.from && is (current_reply_target k.sched) m.to
makes k receives m = false
makes k tries m = false
makes k (waits to) m = false
makes k (delivers from to tag payload) m = (from == m.from) && (to == m.to)
makes k (others caps sched) m = false

entitled :
    (k : Kernel) (me to : ℕ) (may : Bool) (m : Message)
    → current_domain k.sched ≡ some me
    → has k.caps me (send_to to) ≡ some may
    → may ≡ true
    → m.from ≡ me
    → m.to ≡ to
    → (is (current_domain k.sched) m.from
        && (to == m.to)
        && granted (has k.caps m.from (send_to m.to)))
      ≡ true
entitled k me to may m e g x p q = rw (p, q, e, g, x) (ground arith)

sent :
    (k k' : Kernel) (to tag d : ℕ) (payload : List ℕ) (ok : Bool) (m : Message)
    → send k to tag payload ≡ some (k', ok)
    → InBox k'.boxes d m
    → InBox k.boxes d m ⊎ ((m.to ≡ d) × (makes k (sends to tag payload) m ≡ true))
unfolding send makes
sent k k' to tag d payload ok m h i =
    let (me, e, q) = >>=-eq-some (current_domain k.sched) _ (k', ok) h in
    let (may, g, r) = >>=-eq-some (has k.caps me (send_to to)) _ (k', ok) q in
    elim (if-inv may _ _ (some (k', ok)) r) [
      | inr (bars, same) ↦ inl (rw (ap (λ (y : Kernel × Bool). y.0.boxes) (some_inj same)) i)
      | inl (allows, more) ↦ elim (delivered k k' me to tag d payload ok m more i) [
        | inl j ↦ inl j
        | inr (at, same) ↦ inr (
          ap (λ (x : Message). x.to) same ∙ at,
          entitled k me to may m e g allows (ap (λ (x : Message). x.from) same)
              (ap (λ (x : Message). x.to) same),
        )
      ]
    ]

called :
    (k k' : Kernel) (to tag d : ℕ) (payload : List ℕ) (ok : Bool) (m : Message)
    → call k to tag payload ≡ some (k', ok)
    → InBox k'.boxes d m
    → InBox k.boxes d m ⊎ ((m.to ≡ d) × (makes k (calls to tag payload) m ≡ true))
unfolding call makes
called k k' to tag d payload ok m h i =
    let (me, e, q) = >>=-eq-some (current_domain k.sched) _ (k', ok) h in
    let (may, g, r) = >>=-eq-some (has k.caps me (send_to to)) _ (k', ok) q in
    elim (if-inv (not may) _ _ (some (k', ok)) r) [
      | inl (bars, same) ↦ inl (rw (ap (λ (y : Kernel × Bool). y.0.boxes) (some_inj same)) i)
      | inr (allows, more) ↦ elim (if-inv (live_tasks k.sched to == 0) _ _ (some (k', ok)) more) [
        | inl (dead, same) ↦ inl (rw (ap (λ (y : Kernel × Bool). y.0.boxes) (some_inj same)) i)
        | inr (alive, on) ↦
            let (x, p, t) =
              >>=-eq-some (push_and_wake k (message me to tag payload)) _ (k', ok) on in
            let (sched, _, u) =
              >>=-eq-some (block_current_timeout_ms x.sched me call_poll_ms) _ (k', ok) t in
            elim (pushed k x (message me to tag payload) m d p
              (rw (ap (λ (y : Kernel × Bool). y.0.boxes) (some_inj u)) i)) [
                | inl j ↦ inl j
                | inr (at, same) ↦ inr (
                  ap (λ (x : Message). x.to) same ∙ at,
                  entitled k me to may m e g (ground (arith, allows))
                      (ap (λ (x : Message). x.from) same) (ap (λ (x : Message). x.to) same),
                )
              ]
      ]
    ]

replied :
    (k k' : Kernel) (tag d : ℕ) (payload : List ℕ) (ok : Bool) (m : Message)
    → reply k tag payload ≡ some (k', ok)
    → InBox k'.boxes d m
    → InBox k.boxes d m ⊎ ((m.to ≡ d) × (makes k (replies tag payload) m ≡ true))
unfolding reply makes
replied k k' tag d payload ok m h i =
    let (me, e, q) = >>=-eq-some (current_domain k.sched) _ (k', ok) h in
    let (target, g, r) = >>=-eq-some (current_reply_target k.sched) _ (k', ok) q in
    elim (if-inv (target == u64_max) _ _ (some (k', ok)) r) [
      | inl (nobody, same) ↦ inl (rw (ap (λ (y : Kernel × Bool). y.0.boxes) (some_inj same)) i)
      | inr (someone, more) ↦
          let (x, p, t) =
            >>=-eq-some (push_and_wake k (message me target tag payload)) _ (k', ok) more in
          elim (pushed k x (message me target tag payload) m d p
            (rw (ap (λ (y : Kernel × Bool). y.0.boxes) (some_inj t)) i)) [
              | inl j ↦ inl j
              | inr (at, same) ↦ inr (
                ap (λ (x : Message). x.to) same ∙ at,
                rw (ap (λ (x : Message). x.from) same, ap (λ (x : Message). x.to) same, e, g)
                    (ground arith),
              )
            ]
    ]

received :
    (k k' : Kernel) (d : ℕ) (o : Option Message) (m : Message)
    → receive_round k ≡ some (k', o)
    → InBox k'.boxes d m
    → InBox k.boxes d m
unfolding receive_round
received k k' d o m h i =
    let (me, _, q) = >>=-eq-some (current_domain k.sched) _ (k', o) h in
    let (got, e, r) = >>=-eq-some (pop_front k.boxes me) _ (k', o) q in
    popped k.boxes got.0 me d got.1 m e (rw (go got.0 got.1 me r) i)
  where
    go :
        (boxes : Mailboxes) (got : Option Message) (me : ℕ)
        → (elim got as (λ x. Option (Kernel × Option Message)) [
          | none ↦ block_current k.sched me >>= λ sched.
              some (record k { boxes = boxes; sched = sched }, none)
          | some msg ↦ take_message k boxes msg
        ])
          ≡ some (k', o)
        → boxes ≡ k'.boxes
    go boxes none me t =
        let (_, _, u) = >>=-eq-some (block_current k.sched me) _ (k', o) t in
        ap (λ (y : Kernel × Option Message). y.0.boxes) (some_inj u)
    go boxes (some msg) me t = taken k k' boxes msg o t

tried :
    (k k' : Kernel) (d : ℕ) (o : Option Message) (m : Message)
    → try_receive k ≡ some (k', o)
    → InBox k'.boxes d m
    → InBox k.boxes d m
unfolding try_receive
tried k k' d o m h i =
    let (me, _, q) = >>=-eq-some (current_domain k.sched) _ (k', o) h in
    let (got, e, r) = >>=-eq-some (pop_front k.boxes me) _ (k', o) q in
    popped k.boxes got.0 me d got.1 m e (rw (go got.0 got.1 r) i)
  where
    go :
        (boxes : Mailboxes) (got : Option Message)
        → (elim got as (λ x. Option (Kernel × Option Message)) [
          | none ↦ some (record k { boxes = boxes }, none)
          | some msg ↦ take_message k boxes msg
        ])
          ≡ some (k', o)
        → boxes ≡ k'.boxes
    go boxes none t = ap (λ (y : Kernel × Option Message). y.0.boxes) (some_inj t)
    go boxes (some msg) t = taken k k' boxes msg o t

waited :
    (k k' : Kernel) (to d : ℕ) (o : Option Message) (m : Message)
    → call_round k to ≡ some (k', o)
    → InBox k'.boxes d m
    → InBox k.boxes d m
unfolding call_round
waited k k' to d o m h i =
    let (me, _, q) = >>=-eq-some (current_domain k.sched) _ (k', o) h in
    let (mbox, e, r) = >>=-eq-some (get_elem? k.boxes me) _ (k', o) q in
    elim (go me (remove_from mbox to).0 (remove_from mbox to).1 r) [
      | inl same ↦
          shrunk k.boxes me d mbox (remove_from mbox to).0 m e (In-remove_from mbox to m)
            (rw same i)
      | inr same ↦ rw same i
    ]
  where
    go :
        (me : ℕ) (mbox' : List Message) (found : Option Message)
        → (elim found as (λ x. Option (Kernel × Option Message)) [
          | some r ↦ some (record k { boxes = set k.boxes me mbox' }, some r)
          | none ↦
              if live_tasks k.sched to == 0
              then some (k, some failed)
              else (block_current_timeout_ms k.sched me call_poll_ms >>= λ sched.
                  some (record k { sched = sched }, none))
        ])
          ≡ some (k', o)
        → (set k.boxes me mbox' ≡ k'.boxes) ⊎ (k.boxes ≡ k'.boxes)
    go me mbox' (some r) t = inl (ap (λ (y : Kernel × Option Message). y.0.boxes) (some_inj t))
    go me mbox' none t = elim (if-inv (live_tasks k.sched to == 0) _ _ (some (k', o)) t) [
      | inl (_, u) ↦ inr (ap (λ (y : Kernel × Option Message). y.0.boxes) (some_inj u))
      | inr (_, u) ↦
          let (_, _, w) =
            >>=-eq-some (block_current_timeout_ms k.sched me call_poll_ms) _ (k', o) u in
          inr (ap (λ (y : Kernel × Option Message). y.0.boxes) (some_inj w))
    ]

-- The same for any step.
step-authentic :
    (k k' : Kernel) (s : Step) (d : ℕ) (m : Message)
    → step k s ≡ some k'
    → InBox k'.boxes d m
    → InBox k.boxes d m ⊎ ((m.to ≡ d) × (makes k s m ≡ true))
unfolding step makes
step-authentic k k' (sends to tag p) d m h i =
    let (r, e, q) = >>=-eq-some (send k to tag p) _ k' h in
    sent k r.0 to tag d p r.1 m e (rw (ap (λ (y : Kernel). y.boxes) (some_inj q)) i)
step-authentic k k' (calls to tag p) d m h i =
    let (r, e, q) = >>=-eq-some (call k to tag p) _ k' h in
    called k r.0 to tag d p r.1 m e (rw (ap (λ (y : Kernel). y.boxes) (some_inj q)) i)
step-authentic k k' (replies tag p) d m h i =
    let (r, e, q) = >>=-eq-some (reply k tag p) _ k' h in
    replied k r.0 tag d p r.1 m e (rw (ap (λ (y : Kernel). y.boxes) (some_inj q)) i)
step-authentic k k' receives d m h i =
    let (r, e, q) = >>=-eq-some (receive_round k) _ k' h in
    inl (received k r.0 d r.1 m e (rw (ap (λ (y : Kernel). y.boxes) (some_inj q)) i))
step-authentic k k' tries d m h i =
    let (r, e, q) = >>=-eq-some (try_receive k) _ k' h in
    inl (tried k r.0 d r.1 m e (rw (ap (λ (y : Kernel). y.boxes) (some_inj q)) i))
step-authentic k k' (waits to) d m h i =
    let (r, e, q) = >>=-eq-some (call_round k to) _ k' h in
    inl (waited k r.0 to d r.1 m e (rw (ap (λ (y : Kernel). y.boxes) (some_inj q)) i))
step-authentic k k' (delivers from to tag p) d m h i =
    let (r, e, q) = >>=-eq-some (deliver k from to tag p) _ k' h in
    elim (delivered k r.0 from to tag d p r.1 m e
      (rw (ap (λ (y : Kernel). y.boxes) (some_inj q)) i)) [
        | inl j ↦ inl j
        | inr (at, same) ↦ inr (
          ap (λ (x : Message). x.to) same ∙ at,
          rw (ap (λ (x : Message). x.from) same, ap (λ (x : Message). x.to) same) (ground arith),
        )
      ]
step-authentic k k' (others caps sched) d m h i =
    inl (rw (ap (λ (y : Kernel). y.boxes) (some_inj h)) i)

-- Did one of the steps make a message with this sender and this receiver?
unfoldable pub made : Kernel → List Step → Message → Bool
unfolding step makes
made k [] m = false
made k (s ∷ ss) m =
    let later = λ (k' : Kernel). made k' ss m in
    makes k s m || (elim (step k s) [ none ↦ false | some k' ↦ later k' ])

made-later :
    (k w : Kernel) (s : Step) (ss : List Step) (m : Message)
    → step k s ≡ some w
    → made w ss m ≡ true
    → made k (s ∷ ss) m ≡ true
unfolding made
made-later k w s ss m e h = rw (e, h) (ground arith)

made-now :
    (k : Kernel) (s : Step) (ss : List Step) (m : Message)
    → makes k s m ≡ true
    → made k (s ∷ ss) m ≡ true
unfolding made
made-now k s ss m h = rw h refl

-- No forged messages: a message that lies in a box after any sequence of steps lay there at the start,
-- or it lies in the box of its receiver and one of the steps made it: a call of a task of the domain
-- that it names as sender, which held the capability to send to the receiver or answered it, or the
-- kernel itself.
pub run-authentic :
    (k k' : Kernel) (ss : List Step) (d : ℕ) (m : Message)
    → run k ss ≡ some k'
    → InBox k'.boxes d m
    → InBox k.boxes d m ⊎ ((m.to ≡ d) × (made k ss m ≡ true))
unfolding run
run-authentic k k' [] d m h i = inl (rw (ap (λ (y : Kernel). y.boxes) (some_inj h)) i)
run-authentic k k' (s ∷ ss) d m h i =
    let (w, e, q) = >>=-eq-some (step k s) _ k' h in
    elim (run-authentic w k' ss d m q i) [
      | inr (at, now) ↦ inr (at, made-later k w s ss m e now)
      | inl j ↦ elim (step-authentic k w s d m e j) [
        | inl before ↦ inl before
        | inr (at, now) ↦ inr (at, made-now k s ss m now)
      ]
    ]
