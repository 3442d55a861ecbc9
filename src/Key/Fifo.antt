-- ===== src/Key/Fifo.antt =====
-- The ring of kernel/src/key.rs is a queue of at most 64 keys, oldest first.
use morion_os.Prelude.{
  ℕ, zero, suc, ◌+◌, ◌-◌, ◌%◌, ◌≤◌, ◌<◌, ◌≡◌, ◌≢◌, refl, ap, Bool, true, false, Option, none, some,
  List, [], ◌∷◌, ◌++◌, length, get_or, set, length-set, get_or-set_self, get_or-set_ne,
  get_elem?-eq-get_or, arith, leb, if◌then◌else◌,
}
use morion_os.Key.{
  KeyQueue, queue_len, empty, push, pop, Call, put, take_key, Reply, stored, taken, run,
}

-- A bounded queue of keys that drops what finds no room.
unfoldable pub fifo_push : List ℕ → ℕ → List ℕ × Bool
fifo_push keys c = if leb queue_len (length keys) then (keys, false) else (keys ++ c ∷ [], true)

unfoldable pub fifo_pop : List ℕ → List ℕ × Option ℕ
fifo_pop [] = ([], none)
fifo_pop (c ∷ keys) = (keys, some c)

unfoldable pub fifo_run : List ℕ → List Call → List Reply
unfolding fifo_push fifo_pop
fifo_run keys [] = []
fifo_run keys (put c ∷ cs) = let (keys', b) = fifo_push keys c in stored b ∷ fifo_run keys' cs
fifo_run keys (take_key ∷ cs) = let (keys', k) = fifo_pop keys in taken k ∷ fifo_run keys' cs

pub record IsValid (q : KeyQueue) : Type 0 where
  pub storage : length q.buf ≡ queue_len
  pub head_in : q.head < queue_len
  pub count_in : q.count ≤ queue_len
  pub tail_at : q.tail ≡ (q.head + q.count) % queue_len

-- The `n` keys from an index on, round the end of the buffer.
unfoldable pub keys_from : List ℕ → ℕ → ℕ → List ℕ
keys_from buf h zero = []
keys_from buf h (suc n) = get_or buf h 0 ∷ keys_from buf ((h + 1) % queue_len) n

abbrev pub keys : KeyQueue → List ℕ
keys q = keys_from q.buf q.head q.count

length-keys_from : (buf : List ℕ) (h n : ℕ) → length (keys_from buf h n) ≡ n
unfolding keys_from
length-keys_from buf h zero = refl
length-keys_from buf h (suc n) = ap suc (length-keys_from buf ((h + 1) % queue_len) n)

-- A key that is written behind the last one is the last one.
keys_from-set :
    (n : ℕ) (buf : List ℕ) (h i c : ℕ)
    → length buf ≡ queue_len
    → h < queue_len
    → n < queue_len
    → i ≡ (h + n) % queue_len
    → keys_from (set buf i c) h (suc n) ≡ keys_from buf h n ++ c ∷ []
unfolding keys_from
keys_from-set zero buf h i c size hh hn e =
    let here : i ≡ h = omega arith in
    rw here (ap (λ k. k ∷ []) (get_or-set_self buf h c 0 (omega arith)))
keys_from-set (suc n) buf h i c size hh hn e =
    let apart : i ≢ h = omega arith in
    let ih =
      keys_from-set n buf ((h + 1) % queue_len) i c size (omega arith) (omega arith)
        (omega arith) in
    rw (get_or-set_ne buf i h c 0 apart) (ap (λ l. get_or buf h 0 ∷ l) ih)

keys_from-split :
    (buf : List ℕ) (h n : ℕ)
    → n ≢ 0
    → keys_from buf h n ≡ get_or buf h 0 ∷ keys_from buf ((h + 1) % queue_len) (n - 1)
unfolding keys_from
keys_from-split buf h zero p = absurd (p refl)
keys_from-split buf h (suc n) p =
    ap (λ k. get_or buf h 0 ∷ keys_from buf ((h + 1) % queue_len) k) (omega arith)

push-IsValid : (q : KeyQueue) (c : ℕ) → IsValid q → IsValid (push q c).0
unfolding push
push-IsValid q c v = ground (arith, length-set q.buf q.tail c)

pop-IsValid : (q : KeyQueue) → IsValid q → IsValid (pop q).0
unfolding pop
pop-IsValid q v = ground arith

push_refines :
    (q : KeyQueue) (c : ℕ) → IsValid q → (keys (push q c).0, (push q c).1) ≡ fifo_push (keys q) c
unfolding push fifo_push
push_refines q c v =
    ground
      (arith, length-keys_from q.buf q.head q.count, keys_from-set q.count q.buf q.head q.tail c)

pop_refines : (q : KeyQueue) → IsValid q → (keys (pop q).0, (pop q).1) ≡ fifo_pop (keys q)
unfolding pop fifo_pop keys_from
pop_refines q v =
    ground (arith, keys_from-split q.buf q.head q.count, get_elem?-eq-get_or q.buf q.head 0)

run_valid : (cs : List Call) (q : KeyQueue) → IsValid q → run q cs ≡ fifo_run (keys q) cs
unfolding run fifo_run
run_valid [] q v = refl
run_valid (put c ∷ cs) q v =
    ground (arith, push_refines q c v, run_valid cs (push q c).0 (push-IsValid q c v))
run_valid (take_key ∷ cs) q v =
    ground (arith, pop_refines q v, run_valid cs (pop q).0 (pop-IsValid q v))

empty-IsValid : IsValid empty
unfolding empty
empty-IsValid = omega arith

-- From the empty queue on, any sequence of key presses and reads answers as a first-in first-out queue
-- of at most 64 keys that drops a new key when it is full: no key is lost otherwise, made up or
-- reordered, also where the indices go round the end of the buffer.
pub run-fifo_run : (cs : List Call) → run empty cs ≡ fifo_run [] cs
unfolding empty keys_from
run-fifo_run cs = run_valid cs empty empty-IsValid

-- The queue behind the calls.
abbrev pub after : KeyQueue → List Call → KeyQueue
after q [] = q
after q (put c ∷ cs) = after (push q c).0 cs
after q (take_key ∷ cs) = after (pop q).0 cs

after-IsValid : (cs : List Call) (q : KeyQueue) → IsValid q → IsValid (after q cs)
after-IsValid [] q v = v
after-IsValid (put c ∷ cs) q v = after-IsValid cs (push q c).0 (push-IsValid q c v)
after-IsValid (take_key ∷ cs) q v = after-IsValid cs (pop q).0 (pop-IsValid q v)

-- After any calls on the empty queue both indices lie in the buffer, so that no push and no pop
-- panics, and the tail is the head plus the count, round the end of the buffer.
pub after-empty-IsValid : (cs : List Call) → IsValid (after empty cs)
after-empty-IsValid cs = after-IsValid cs empty empty-IsValid
