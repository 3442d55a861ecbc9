-- ===== src/Elf/Loading.antt =====
-- The loading of an image into the address space of a domain: kernel/src/exec.rs, on the parser and
-- the frame allocator. The page tables of the domain are a list of mappings, and the memory gives
-- the byte at each physical address.
use morion_os.Prelude.{
  ℕ, zero, suc, ◌+◌, ◌-◌, ◌*◌, ◌/◌, ◌%◌, Bool, true, false, ◌&&◌, ◌||◌, Option, none, some, List,
  [], ◌∷◌, get_or, ltb, leb, ◌==◌, if◌then◌else◌, case_option, min, max,
}
use morion_os.Prelude.Outcomes.{Outcome, panics, refused, done, ◌>>=◌, or_refused}
use morion_os.Elf.{Segment, Image, user_space_base, executable, writable}
use morion_os.Frames.{Frames, frame_size, allocate_frame}

abbrev pub max_image_pages : ℕ
max_image_pages = 4096

abbrev pub user_stack_top : ℕ
user_stack_top = user_space_base + 0x401000

abbrev pub user_stack_pages : ℕ
user_stack_pages = 8

pub data UserPagePerm : Type 0 where
  read_only read_write read_execute : UserPagePerm

-- the present entry of the page table for a page of 4 KiB
pub record Mapping : Type 0 where
  pub page : ℕ
  pub paddr : ℕ
  pub perm : UserPagePerm

abbrev pub Space : Type 0
Space = List Mapping

abbrev pub Memory : Type 0
Memory = ℕ → ℕ

-- the address of the page of an address: `vaddr & !(FRAME_SIZE - 1)`
abbrev pub page_of : ℕ → ℕ
page_of vaddr = vaddr / frame_size * frame_size

-- `resolve_user_page`: the physical address of an address, if its page is mapped
unfoldable pub resolve_user_page : Space → ℕ → Option ℕ
resolve_user_page [] vaddr = none
resolve_user_page (m ∷ ms) vaddr =
    let rest = resolve_user_page ms vaddr in
    if m.page == page_of vaddr then some (m.paddr + vaddr % frame_size) else rest

-- `map_user_page`, which panics on a page that is mapped
unfoldable pub map_user_page : Space → ℕ → ℕ → UserPagePerm → Outcome Space
map_user_page space vaddr paddr perm =
    case_option (resolve_user_page space vaddr)
      (done (record { page = page_of vaddr; paddr = paddr; perm = perm } ∷ space)) (λ _. panics)

-- the number of pages that `spawn_elf` counts against the limit
unfoldable pub budget : List Segment → ℕ
budget [] = user_stack_pages
budget (s ∷ ss) = s.memsz / frame_size + 1 + budget ss

unfoldable pub within_budget : List Segment → Bool
within_budget segments = leb (budget segments) max_image_pages

-- `while page_vaddr < end`: the pages that the loop visits from `page` on
unfoldable pub pages_from : ℕ → ℕ → ℕ → List ℕ
pages_from zero page end = []
pages_from (suc fuel) page end =
    let rest = pages_from fuel (page + frame_size) end in if ltb page end then page ∷ rest else []

-- The loop goes at most once for each page that the memory of the segment can touch.
unfoldable pub pages : Segment → List ℕ
pages s = pages_from (s.memsz / frame_size + 2) (page_of s.vaddr) (s.vaddr + s.memsz)

abbrev pub covers : ℕ → Segment → Bool
covers page_vaddr s = leb (page_of s.vaddr) page_vaddr && ltb page_vaddr (s.vaddr + s.memsz)

-- the loop of `page_perm`, with its two variables
unfoldable pub union_of : ℕ → List Segment → Bool → Bool → Bool × Bool
union_of page_vaddr [] w x = (w, x)
union_of page_vaddr (s ∷ ss) w x =
    let here = covers page_vaddr s in
    union_of page_vaddr ss (w || (here && writable s)) (x || (here && executable s))

unfoldable pub perm_of : Bool × Bool → Option UserPagePerm
perm_of (true, true) = none
perm_of (false, true) = some read_execute
perm_of (true, false) = some read_write
perm_of (false, false) = some read_only

unfoldable pub page_perm : List Segment → ℕ → Option UserPagePerm
page_perm segments page_vaddr = perm_of (union_of page_vaddr segments false false)

-- `copy_segment_page`: the bytes of the segment's file contents in a page go to the page's frame
unfoldable pub copy_segment_page : List ℕ → Segment → ℕ → ℕ → Memory → Memory
copy_segment_page image seg page_vaddr paddr memory =
    let file_end = seg.vaddr + seg.filesz in
    let page_end = page_vaddr + frame_size in
    let lo = max page_vaddr seg.vaddr in
    let hi = min page_end file_end in
    if leb hi lo
    then memory
    else let src_off = seg.offset + (lo - seg.vaddr) in
      let dst_off = lo - page_vaddr in
      let n = hi - lo in
      λ p.
        if leb (paddr + dst_off) p && ltb p (paddr + dst_off + n)
        then get_or image (src_off + (p - (paddr + dst_off))) 0
        else memory p

-- `write_bytes(p, 0, FRAME_SIZE)`
unfoldable pub clear_frame : ℕ → Memory → Memory
clear_frame paddr memory p = if leb paddr p && ltb p (paddr + frame_size) then 0 else memory p

-- what the loading changes
pub record Loading : Type 0 where
  pub frames : Frames
  pub space : Space
  pub memory : Memory

-- `allocate_frame()?`
abbrev pub allocated : Option (Frames × Option ℕ) → Outcome (Frames × ℕ)
allocated none = panics
allocated (some (frames, none)) = refused
allocated (some (frames, some p)) = done (frames, p)

-- a fresh frame of zeros at a page
unfoldable pub map_zeroed : ℕ → UserPagePerm → Loading → Outcome Loading
map_zeroed page_vaddr perm l = do
  (frames, p) ← allocated (allocate_frame l.frames)
  space ← map_user_page l.space page_vaddr p perm
  done (record { frames = frames; space = space; memory = clear_frame p l.memory })

-- one step of the first pass
unfoldable pub map_page : List Segment → ℕ → Loading → Outcome Loading
map_page segments page_vaddr l =
    case_option (resolve_user_page l.space page_vaddr)
      (do perm ← or_refused (page_perm segments page_vaddr); map_zeroed page_vaddr perm l)
      (λ _. done l)

-- one step of the second pass
unfoldable pub fill_page : List ℕ → Segment → ℕ → Loading → Outcome Loading
fill_page image s page_vaddr l = do
  paddr ← or_refused (resolve_user_page l.space page_vaddr)
  done (record l { memory = copy_segment_page image s page_vaddr paddr l.memory })

-- a loop: a step for each value of a list, up to a refusal or a panic
abbrev pub each {ℓ} :
    {A : Type ℓ} → (A → Loading → Outcome Loading) → List A → Loading → Outcome Loading
each step [] l = done l
each step (a ∷ rest) l = do l' ← step a l; each step rest l'

unfoldable pub map_segment : List Segment → Segment → Loading → Outcome Loading
map_segment segments s = each (map_page segments) (pages s)

unfoldable pub fill_segment : List ℕ → Segment → Loading → Outcome Loading
fill_segment image s = each (fill_page image s) (pages s)

-- the pages of the user stack
unfoldable pub stack_pages : List ℕ
stack_pages =
    pages_from user_stack_pages (user_stack_top - user_stack_pages * frame_size) user_stack_top

unfoldable pub map_stack : Loading → Outcome Loading
map_stack = each (λ page. map_zeroed page read_write) stack_pages

unfoldable pub map_image : List ℕ → Image → Loading → Outcome Loading
map_image image elf l = do
  mapped ← each (map_segment elf.segments) elf.segments l
  filled ← each (fill_segment image) elf.segments mapped
  map_stack filled
