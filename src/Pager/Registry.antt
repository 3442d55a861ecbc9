-- ===== src/Pager/Registry.antt =====
-- Page faults and their pagers: kernel/src/pager.rs.
use morion_os.Prelude.{
  ℕ, zero, suc, ◌+◌, ◌*◌, ◌/◌, ◌^◌, ◌≤◌, ◌<◌, ◌≡◌, ◌⊎◌, inl, inr, refl, true, false, none, some,
  List, [], ◌∷◌, ◌++◌, length, get_elem?, set, drop, get_elem?-set_self, get_elem?_lt,
  get_or-set_padded, arith, dec_lt, leb, ◌==◌, if◌then◌else◌,
}
use morion_os.Ipc.{Kernel, Message, message, deliver, push_and_wake, mailbox_cap}
use morion_os.Sched.Ops.{wake_one}
use morion_os.Pager.{
  Pagers, PageFaultInfo, fault_tag, set_pager, add_domain, remove_domain, of, bytes_of,
  deliver_fault,
}

-- Eight bytes as a u64, the way the pager reads them.
unfoldable pub word_at : ℕ → List ℕ → ℕ
word_at zero bs = 0
word_at (suc n) [] = 0
word_at (suc n) (b ∷ bs) = b + 256 * word_at n bs

word_at-bytes_of : (n x : ℕ) (bs : List ℕ) → x < 256 ^ n → word_at n (bytes_of n x ++ bs) ≡ x
unfolding word_at bytes_of
word_at-bytes_of zero x bs h = omega arith
word_at-bytes_of (suc n) x bs h = rw (word_at-bytes_of n (x / 256) bs (omega arith)) (omega arith)

-- The pager of a domain is the one that was registered last, until it is removed, and none other
-- changes.
pub of_lem :
    (ps : Pagers) (id pager d : ℕ)
    → (of (add_domain ps id pager) d ≡ (if id == d then some pager else of ps d))
      × (of (remove_domain ps id) d ≡ (if id == d then none else of ps d))
unfolding of add_domain remove_domain set_pager
of_lem ps id pager d =
    (get_or-set_padded none ps id d (some pager), get_or-set_padded none ps id d none)

-- The message that a pager gets.
abbrev pub fault_message : ℕ → PageFaultInfo → Message
fault_message pager info =
    message info.fault_domain pager fault_tag
      (bytes_of 8 info.fault_domain ++ (bytes_of 8 info.fault_addr ++ bytes_of 8 info.error_code))

fault_words :
    (pager : ℕ) (info : PageFaultInfo)
    → info.fault_domain < 256 ^ 8
    → info.fault_addr < 256 ^ 8
    → info.error_code < 256 ^ 8
    → (word_at 8 (fault_message pager info).payload ≡ info.fault_domain)
      × (word_at 8 (drop 8 (fault_message pager info).payload) ≡ info.fault_addr)
      × (word_at 8 (drop 16 (fault_message pager info).payload) ≡ info.error_code)
unfolding bytes_of
fault_words pager info a b c = (
  word_at-bytes_of 8 info.fault_domain _ a,
  word_at-bytes_of 8 info.fault_addr _ b,
  word_at-bytes_of 8 info.error_code _ c,
)

-- A page fault is dropped exactly when the box of the pager is full. Otherwise the last message in it
-- names the domain as its sender and gives back, word by word, the domain, the address and the code.
pub deliver_fault_lem :
    (k : Kernel) (pager : ℕ) (info : PageFaultInfo) (mbox : List Message)
    → get_elem? k.boxes pager ≡ some mbox
    → info.fault_domain < 256 ^ 8
    → info.fault_addr < 256 ^ 8
    → info.error_code < 256 ^ 8
    → ((deliver_fault k pager info ≡ some (k, false)) × (mailbox_cap ≤ length mbox))
      ⊎ ((k' : Kernel) × (m : Message) × (deliver_fault k pager info ≡ some (k', true))
          × (length mbox < mailbox_cap)
          × (get_elem? k'.boxes pager ≡ some (mbox ++ m ∷ []))
          × (m.from ≡ info.fault_domain)
          × (m.tag ≡ fault_tag)
          × (word_at 8 m.payload ≡ info.fault_domain)
          × (word_at 8 (drop 8 m.payload) ≡ info.fault_addr)
          × (word_at 8 (drop 16 m.payload) ≡ info.error_code))
unfolding deliver_fault deliver push_and_wake
deliver_fault_lem k pager info mbox h a b c =
    let (one, two, three) = fault_words pager info a b c in
    elim (dec_lt (length mbox) mailbox_cap) [
      | no n ↦
          let full : leb mailbox_cap (length mbox) ≡ true = ground arith in
          inl (rw (h, full) refl, omega arith)
      | yes room ↦
          let test : leb mailbox_cap (length mbox) ≡ false = ground arith in
          inr (
            record k {
              boxes = set k.boxes pager (mbox ++ fault_message pager info ∷ []);
              sched = wake_one k.sched pager;
            },
            fault_message pager info,
            rw (h, test) refl,
            room,
            get_elem?-set_self k.boxes pager (mbox ++ fault_message pager info ∷ [])
                (get_elem?_lt k.boxes pager mbox h),
            refl,
            refl,
            one,
            two,
            three,
          )
    ]
