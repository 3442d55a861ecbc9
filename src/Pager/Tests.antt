-- ===== src/Pager/Tests.antt =====
-- Runs of the pager table, and its theorems at concrete inputs.
use morion_os.Prelude.{
  ◌≤◌, ◌<◌, ◌≡◌, ◌⊎◌, refl, true, false, none, some, [], ◌∷◌, get_elem?, drop, set_padded, arith,
}
use morion_os.Sched.{new}
use morion_os.Ipc.{Kernel, Message, mailbox_cap}
use morion_os.Pager.{PageFaultInfo, fault_tag, init, add_domain, remove_domain, of, deliver_fault}
use morion_os.Pager.Registry.{word_at, deliver_fault_lem}

-- The test of the source: a new domain is paged by its loader, a removed one by nobody.
registered :
    (of (add_domain (init 2 7) 2 9) 2 ≡ some 9)
    × (of (remove_domain (init 2 7) 1) 1 ≡ none)
    × (of (init 2 7) 2 ≡ none)
unfolding of add_domain init remove_domain set_padded
registered = (refl, refl, refl)

abbrev quiet : Kernel
quiet = record { caps = []; boxes = [] ∷ [] ∷ []; sched = new }

abbrev fault : PageFaultInfo
fault = record { fault_domain = 1; fault_addr = 0x8000001000; error_code = 6 }

deliver_fault_lem_example :
    ((deliver_fault quiet 0 fault ≡ some (quiet, false)) × (mailbox_cap ≤ 0))
    ⊎ ((k' : Kernel) × (m : Message) × (deliver_fault quiet 0 fault ≡ some (k', true))
        × (0 < mailbox_cap)
        × (get_elem? k'.boxes 0 ≡ some (m ∷ []))
        × (m.from ≡ 1)
        × (m.tag ≡ fault_tag)
        × (word_at 8 m.payload ≡ 1)
        × (word_at 8 (drop 8 m.payload) ≡ 0x8000001000)
        × (word_at 8 (drop 16 m.payload) ≡ 6))
deliver_fault_lem_example =
    deliver_fault_lem quiet 0 fault [] refl (omega arith) (omega arith) (omega arith)
