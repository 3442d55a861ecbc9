-- ===== src/Ipc/Tests.antt =====
-- Runs of the mailboxes, and their theorems at concrete inputs.
use morion_os.Prelude.{
  ◌-◌, ◌≤◌, ◌<◌, ◌≡◌, ◌⊎◌, refl, true, false, none, some, List, [], ◌∷◌, get_elem?, set, replicate,
  arith, ◌==◌, if◌then◌else◌,
}
use morion_os.Cap.{send_to, Capability-discrete}
use morion_os.Cap.Slots.{contains}
use morion_os.Cap.Table.{has}
use morion_os.Sched.{Task, running, new_task, task_at}
use morion_os.Sched.Ops.{current_domain, set_current_reply_target, with_current, wake_one}
use morion_os.Ipc.{Message, Kernel, mailbox_cap, message, send, reply, try_receive}
use morion_os.Ipc.Boxes.{InBox}
use morion_os.Ipc.Authentic.{sends, run, made, run-authentic}
use morion_os.Ipc.Wakes.{waiters, send_lem, reply-try_receive}

abbrev sender : Task
sender = record (new_task 0 0 0x4000 0 0) { state = running }

-- Domain 0 runs and may send to domain 1, whose box is empty; in its own box is a message of domain 1.
abbrev before : Kernel
before = record {
  caps = (some (send_to 1) ∷ replicate 31 none) ∷ replicate 32 none ∷ [];
  boxes = (message 1 0 7 [] ∷ []) ∷ [] ∷ [];
  sched = record {
    tasks = some sender ∷ replicate 31 none;
    current = 0;
    ticks = 0;
    loaded_cr3 = 0x4000;
  };
}

abbrev sent : Kernel
sent = record before { boxes = (message 1 0 7 [] ∷ []) ∷ (message 0 1 5 (1 ∷ []) ∷ []) ∷ [] }

runs_as : current_domain before.sched ≡ some 0
unfolding current_domain task_at
runs_as = refl

may_send : has before.caps 0 (send_to 1) ≡ some true
unfolding has contains Capability-discrete
may_send = refl

one_send : run before (sends 1 5 (1 ∷ []) ∷ []) ≡ some sent
unfolding run has current_domain task_at wake_one contains Capability-discrete
one_send = refl

run-authentic_example :
    InBox before.boxes 1 (message 0 1 5 (1 ∷ []))
    ⊎ (((message 0 1 5 (1 ∷ [])).to ≡ 1)
        × (made before (sends 1 5 (1 ∷ []) ∷ []) (message 0 1 5 (1 ∷ [])) ≡ true))
run-authentic_example =
    run-authentic before sent (sends 1 5 (1 ∷ []) ∷ []) 1 (message 0 1 5 (1 ∷ [])) one_send
      (message 0 1 5 (1 ∷ []) ∷ [], refl, (0, refl))

send_lem_example :
    ((send before 1 5 [] ≡ some (before, false)) × ((true ≡ false) ⊎ (mailbox_cap ≤ 0)))
    ⊎ ((k' : Kernel) × (send before 1 5 [] ≡ some (k', true))
        × (true ≡ true)
        × (0 < mailbox_cap)
        × (get_elem? k'.boxes 0
            ≡ (if 1 == 0 then some (message 0 1 5 [] ∷ []) else get_elem? before.boxes 0))
        × (waiters k'.sched 1 ≡ waiters before.sched 1 - 1))
send_lem_example = send_lem before 0 1 5 0 [] true [] runs_as may_send refl

abbrev received : Kernel
received = record {
  caps = before.caps;
  boxes = [] ∷ [] ∷ [];
  sched = record before.sched {
    tasks = some (record sender { reply_target = 1 }) ∷ replicate 31 none;
  };
}

first_message : try_receive before ≡ some (received, some (message 1 0 7 []))
unfolding try_receive current_domain task_at set_current_reply_target with_current
first_message = refl

reply-try_receive_example :
    ((rest : List Message) × (get_elem? before.boxes 0 ≡ some (message 1 0 7 [] ∷ rest))
      × (received.boxes ≡ set before.boxes 0 rest))
    × ((k'' : Kernel) × (reply received 8 [] ≡ some (k'', true))
        × (get_elem? k''.boxes 1 ≡ some (message 0 1 8 [] ∷ [])))
reply-try_receive_example =
    reply-try_receive before received 0 8 [] (message 1 0 7 []) [] runs_as first_message refl
      (omega arith)
