-- ===== src/Ipc/Boxes.antt =====
-- Where the messages in the boxes come from: kernel/src/ipc.rs.
use morion_os.Prelude.{
  ℕ, zero, suc, ◌≡◌, ◌⊎◌, inl, inr, sym, ap, ◌∙◌, Bool, true, false, Option, some, List, [], ◌∷◌,
  ◌++◌, length, get_elem?, set, get_elem?-set_self, get_elem?-set_ne, get_elem?_lt, ℕ_discrete, leb,
  ◌==◌, if◌then◌else◌, >>=-eq-some, some_inj, if-inv,
}
use morion_os.Sched.Ops.{set_current_reply_target}
use morion_os.Ipc.{
  Message, Mailboxes, Kernel, mailbox_cap, message, push_and_wake, deliver, pop, pop_front,
  take_message, remove_from,
}

abbrev pub In : Message → List Message → Type 0
In m ms = (i : ℕ) × (get_elem? ms i ≡ some m)

-- The message is in the box of the domain.
abbrev pub InBox : Mailboxes → ℕ → Message → Type 0
InBox boxes d m = (mbox : List Message) × (get_elem? boxes d ≡ some mbox) × In m mbox

In-append : (ms : List Message) (x m : Message) → In m (ms ++ x ∷ []) → In m ms ⊎ (m ≡ x)
In-append [] x m (zero, h) = inr (sym (some_inj h))
In-append [] x m (suc i, h) = absurd (cc)
In-append (y ∷ ms) x m (zero, h) = inl (0, h)
In-append (y ∷ ms) x m (suc i, h) = elim (In-append ms x m (i, h)) [
  | inl (j, e) ↦ inl (suc j, e)
  | inr e ↦ inr e
]

-- A box is replaced by one that has nothing new but perhaps one message.
pub InBox-set :
    (boxes : Mailboxes) (to d : ℕ) (mbox mbox' : List Message) (Q : Type 0) (m : Message)
    → get_elem? boxes to ≡ some mbox
    → (In m mbox' → In m mbox ⊎ Q)
    → InBox (set boxes to mbox') d m
    → InBox boxes d m ⊎ ((to ≡ d) × Q)
InBox-set boxes to d mbox mbox' Q m old new (box, at, i) = elim (ℕ_discrete to d) [
  | no n ↦ inl (box, sym (get_elem?-set_ne boxes to d mbox' n) ∙ at, i)
  | yes e ↦
      let same : mbox' ≡ box = some_inj (
        sym (get_elem?-set_self boxes to mbox' (get_elem?_lt boxes to mbox old))
        ∙ (ap (get_elem? (set boxes to mbox')) e ∙ at)) in
      elim (new (rw same i)) [ inl j ↦ inl (mbox, rw (← e) old, j) | inr p ↦ inr (e, p) ]
]

pub pushed :
    (k k' : Kernel) (x m : Message) (d : ℕ)
    → push_and_wake k x ≡ some k'
    → InBox k'.boxes d m
    → InBox k.boxes d m ⊎ ((x.to ≡ d) × (m ≡ x))
unfolding push_and_wake
pushed k k' x m d h i =
    let (mbox, e, q) = >>=-eq-some (get_elem? k.boxes x.to) _ k' h in
    let b : set k.boxes x.to (mbox ++ x ∷ []) ≡ k'.boxes =
      ap (λ (y : Kernel). y.boxes) (some_inj q) in
    InBox-set k.boxes x.to d mbox (mbox ++ x ∷ []) (m ≡ x) m e (In-append mbox x m) (rw b i)

pub delivered :
    (k k' : Kernel) (from to tag d : ℕ) (payload : List ℕ) (ok : Bool) (m : Message)
    → deliver k from to tag payload ≡ some (k', ok)
    → InBox k'.boxes d m
    → InBox k.boxes d m ⊎ ((to ≡ d) × (m ≡ message from to tag payload))
unfolding deliver
delivered k k' from to tag d payload ok m h i =
    let (mbox, e, q) = >>=-eq-some (get_elem? k.boxes to) _ (k', ok) h in
    elim (if-inv (leb mailbox_cap (length mbox)) _ _ (some (k', ok)) q) [
      | inl (full, same) ↦ inl (rw (ap (λ (y : Kernel × Bool). y.0.boxes) (some_inj same)) i)
      | inr (room, more) ↦
          let (x, p, r) =
            >>=-eq-some (push_and_wake k (message from to tag payload)) _ (k', ok) more in
          pushed k x (message from to tag payload) m d p
            (rw (ap (λ (y : Kernel × Bool). y.0.boxes) (some_inj r)) i)
    ]

In-pop : (ms : List Message) (m : Message) → In m (pop ms).0 → In m ms
unfolding pop
In-pop [] m i = i
In-pop (x ∷ ms) m (i, h) = (suc i, h)

In-split :
    (x m : Message) (ms : List Message) (rest : List Message × Option Message)
    → (In m rest.0 → In m ms)
    → (b : Bool)
    → In m (if◌then◌else◌ {A = List Message × Option Message} b (ms, some x) (x ∷ rest.0, rest.1)).0
    → In m (x ∷ ms)
In-split x m ms rest less true (i, h) = (suc i, h)
In-split x m ms rest less false (zero, h) = (0, h)
In-split x m ms rest less false (suc i, h) = let (j, e) = less (i, h) in (suc j, e)

pub In-remove_from :
    (ms : List Message) (to : ℕ) (m : Message) → In m (remove_from ms to).0 → In m ms
unfolding remove_from
In-remove_from [] to m i = i
In-remove_from (x ∷ ms) to m i =
    In-split x m ms (remove_from ms to) (λ k. In-remove_from ms to m k) (x.from == to) i

pub shrunk :
    (boxes : Mailboxes) (me d : ℕ) (mbox mbox' : List Message) (m : Message)
    → get_elem? boxes me ≡ some mbox
    → (In m mbox' → In m mbox)
    → InBox (set boxes me mbox') d m
    → InBox boxes d m
shrunk boxes me d mbox mbox' m e less i =
    elim (InBox-set boxes me d mbox mbox' (false ≡ true) m e (λ j. inl (less j)) i) [
      | inl j ↦ j
      | inr (_, bad) ↦ absurd (cc)
    ]

pub popped :
    (boxes boxes' : Mailboxes) (me d : ℕ) (o : Option Message) (m : Message)
    → pop_front boxes me ≡ some (boxes', o)
    → InBox boxes' d m
    → InBox boxes d m
unfolding pop_front
popped boxes boxes' me d o m h i =
    let (mbox, e, q) = >>=-eq-some (get_elem? boxes me) _ (boxes', o) h in
    let b : set boxes me (pop mbox).0 ≡ boxes' =
      ap (λ (y : Mailboxes × Option Message). y.0) (some_inj q) in
    shrunk boxes me d mbox (pop mbox).0 m e (In-pop mbox m) (rw b i)

pub taken :
    (k k' : Kernel) (boxes : Mailboxes) (msg : Message) (o : Option Message)
    → take_message k boxes msg ≡ some (k', o)
    → boxes ≡ k'.boxes
unfolding take_message
taken k k' boxes msg o h =
    let (_, _, q) = >>=-eq-some (set_current_reply_target k.sched msg.from) _ (k', o) h in
    ap (λ (y : Kernel × Option Message). y.0.boxes) (some_inj q)
