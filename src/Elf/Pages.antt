-- ===== src/Elf/Pages.antt =====
-- The pages of a segment, their permissions and what is copied into one of them, for
-- kernel/src/exec.rs.
use morion_os.Prelude.{
  ℕ, zero, suc, ◌+◌, ◌-◌, ◌*◌, ◌/◌, ◌≤◌, ◌<◌, ◌≡◌, ◌⊎◌, inl, inr, refl, sym, ap, subst, ◌∙◌, Bool,
  true, false, ◌&&◌, ◌||◌, none, some, List, [], ◌∷◌, length, get_elem?, get_or, arith, ltb, leb,
  if◌then◌else◌, ltb→lt, lt→ltb, leb→le, le→leb, Bool-cases, &&_inv, min, max,
}
use morion_os.Elf.{Segment, executable, writable}
use morion_os.Frames.{frame_size}
use morion_os.Elf.Loading.{
  Memory, UserPagePerm, read_only, read_write, read_execute, page_of, pages_from, pages, covers,
  union_of, perm_of, page_perm, copy_segment_page, max_image_pages, user_stack_pages, budget,
  within_budget,
}

-- The loop visits the pages from the first one on, up to the end, if it has the fuel.
pub pages_from_lem :
    (fuel page end k : ℕ)
    → end ≤ page + fuel * frame_size
    → get_elem? (pages_from fuel page end) k
      ≡ (if ltb (page + k * frame_size) end then some (page + k * frame_size) else none)
unfolding pages_from
pages_from_lem zero page end k h =
    let e : ltb (page + k * frame_size) end ≡ false = ground arith in rw e refl
pages_from_lem (suc fuel) page end zero h =
    first (pages_from fuel (page + frame_size) end) page (Bool-cases (ltb page end))
  where
    first :
        (rest : List ℕ) (page : ℕ)
        → (ltb page end ≡ true) ⊎ (ltb page end ≡ false)
        → get_elem? (if ltb page end then page ∷ rest else []) 0
          ≡ (if ltb (page + 0 * frame_size) end then some (page + 0 * frame_size) else none)
    first rest page c =
        let e : page + 0 * frame_size ≡ page = omega arith in
        rw e (elim c [ inl t ↦ rw t refl | inr f ↦ rw f refl ])
pages_from_lem (suc fuel) page end (suc k) h =
    let ih = pages_from_lem fuel (page + frame_size) end k (omega arith) in
    let e : page + frame_size + k * frame_size ≡ page + suc k * frame_size = omega arith in
    elim (Bool-cases (ltb page end)) [
      | inl t ↦ rw t (
          subst
            (λ x.
              get_elem? (pages_from fuel (page + frame_size) end) k
              ≡ (if ltb x end then some x else none))
            e ih)
      | inr f ↦
          let f' : ltb (page + suc k * frame_size) end ≡ false = ground arith in rw (f, f') refl
    ]

-- The pages of a segment are those that its memory touches, in order and each once: the `k`th is
-- `k` pages behind the first one, as long as that lies below the end.
pub pages_lem :
    (s : Segment) (k : ℕ)
    → let at = page_of s.vaddr + k * frame_size in
      get_elem? (pages s) k ≡ (if ltb at (s.vaddr + s.memsz) then some at else none)
unfolding pages
pages_lem s k =
    pages_from_lem (s.memsz / frame_size + 2) (page_of s.vaddr) (s.vaddr + s.memsz) k (omega arith)

length-pages_from : (fuel page end : ℕ) → length (pages_from fuel page end) ≤ fuel
unfolding pages_from
length-pages_from zero page end = omega arith
length-pages_from (suc fuel) page end =
    let ih = length-pages_from fuel (page + frame_size) end in
    elim (Bool-cases (ltb page end)) [ inl t ↦ rw t (omega arith) | inr f ↦ rw f (omega arith) ]

-- the pages that the loops over all segments visit
abbrev pub page_visits : List Segment → ℕ
page_visits [] = 0
page_visits (s ∷ ss) = length (pages s) + page_visits ss

page_visits-budget : (ss : List Segment) → page_visits ss + user_stack_pages ≤ budget ss + length ss
unfolding budget pages
page_visits-budget [] = omega arith
page_visits-budget (s ∷ ss) = omega (
  arith,
  page_visits-budget ss,
  length-pages_from (s.memsz / frame_size + 2) (page_of s.vaddr) (s.vaddr + s.memsz),
)

-- An image within the budget has at most 4096 pages and one more for each segment, the stack
-- included.
pub within_budget_lem :
    (ss : List Segment)
    → within_budget ss ≡ true
    → page_visits ss + user_stack_pages ≤ max_image_pages + length ss
unfolding within_budget
within_budget_lem ss h = omega (arith, page_visits-budget ss, leb→le _ _ h)

-- what a segment demands of a page
abbrev pub demands : (Segment → Bool) → ℕ → List Segment → Bool
demands right page [] = false
demands right page (s ∷ ss) = (covers page s && right s) || demands right page ss

||_assoc : (a b c : Bool) → ((a || b) || c) ≡ (a || (b || c))
||_assoc true b c = refl
||_assoc false b c = refl

union_of_lem :
    (page : ℕ) (ss : List Segment) (w x : Bool)
    → union_of page ss w x ≡ ((w || demands writable page ss), (x || demands executable page ss))
unfolding union_of
union_of_lem page [] true true = refl
union_of_lem page [] true false = refl
union_of_lem page [] false true = refl
union_of_lem page [] false false = refl
union_of_lem page (s ∷ ss) w x =
    let here = covers page s in
    rw
      (
        sym (||_assoc w (here && writable s) (demands writable page ss)),
        sym (||_assoc x (here && executable s) (demands executable page ss)),
      )
      (union_of_lem page ss (w || (here && writable s)) (x || (here && executable s)))

abbrev pub can_write : UserPagePerm → Bool
can_write read_write = true
can_write _ = false

abbrev pub can_execute : UserPagePerm → Bool
can_execute read_execute = true
can_execute _ = false

perm_of_lem :
    (r : Bool × Bool)
    → ((perm_of r ≡ none) × (r ≡ (true, true)))
      ⊎ ((p : UserPagePerm) × (perm_of r ≡ some p) × (r ≡ (can_write p, can_execute p)))
unfolding perm_of
perm_of_lem (true, true) = inl (refl, refl)
perm_of_lem (true, false) = inr (read_write, refl, refl)
perm_of_lem (false, true) = inr (read_execute, refl, refl)
perm_of_lem (false, false) = inr (read_only, refl, refl)

-- A page is refused exactly when some segment in it is to be written and some other executed; else it
-- can be written exactly if a segment in it is writable, and executed if one is executable.
pub page_perm_lem :
    (ss : List Segment) (page : ℕ)
    → ((page_perm ss page ≡ none)
        × (demands writable page ss ≡ true)
        × (demands executable page ss ≡ true))
      ⊎ ((p : UserPagePerm) × (page_perm ss page ≡ some p)
          × (can_write p ≡ demands writable page ss)
          × (can_execute p ≡ demands executable page ss))
unfolding page_perm
page_perm_lem ss page =
    let e = union_of_lem page ss false false in
    elim (perm_of_lem (union_of page ss false false)) [
      | inl (n, r) ↦ let both = sym e ∙ r in inl (n, ap (λ q. q.0) both, ap (λ q. q.1) both)
      | inr (p, n, r) ↦ let both = sym r ∙ e in inr (p, n, ap (λ q. q.0) both, ap (λ q. q.1) both)
    ]

-- A copy into a frame writes exactly the bytes whose addresses lie in the file part of the segment,
-- each with the byte of the file that the segment has there.
pub copy_segment_page_lem :
    (image : List ℕ) (s : Segment) (page paddr : ℕ) (memory : Memory) (i : ℕ)
    → i < frame_size
    → copy_segment_page image s page paddr memory (paddr + i) ≡ (
        if leb s.vaddr (page + i) && ltb (page + i) (s.vaddr + s.filesz)
        then get_or image (s.offset + (page + i - s.vaddr)) 0
        else memory (paddr + i))
unfolding copy_segment_page
copy_segment_page_lem image s page paddr memory i h =
    let lo = max page s.vaddr in
    let hi = min (page + frame_size) (s.vaddr + s.filesz) in
    let start = paddr + (lo - page) in
    elim (Bool-cases (leb s.vaddr (page + i) && ltb (page + i) (s.vaddr + s.filesz))) [
      | inl e ↦
          let (a, b) = &&_inv (leb s.vaddr (page + i)) _ e in
          let a' = leb→le _ _ a in
          let b' = ltb→lt _ _ b in
          let c : leb hi lo ≡ false = ground (arith, a', b', h) in
          let d : leb start (paddr + i) ≡ true = le→leb _ _ (omega (arith, a', h)) in
          let d' : ltb (paddr + i) (start + (hi - lo)) ≡ true =
            lt→ltb _ _ (omega (arith, a', b', h)) in
          let at : s.offset + (lo - s.vaddr) + (paddr + i - start)
              ≡ s.offset + (page + i - s.vaddr) =
            omega (arith, a', h) in
          rw (c, d, d', a, b, at) refl
      | inr e ↦ elim (Bool-cases (leb hi lo)) [
        | inl c ↦ rw (c, e) refl
        | inr c ↦
            let no = outside s.vaddr (page + i) (s.vaddr + s.filesz) e in
            let d : (leb start (paddr + i) && ltb (paddr + i) (start + (hi - lo))) ≡ false =
              ground (arith, c, no, h) in
            rw (c, d, e) refl
      ]
    ]
  where
    outside : (a b c : ℕ) → (leb a b && ltb b c) ≡ false → (b < a) ⊎ (c ≤ b)
    outside a b c h = ground (arith, h)

-- It writes nothing outside of the frame.
pub copy_segment_page_other :
    (image : List ℕ) (s : Segment) (page paddr : ℕ) (memory : Memory) (p : ℕ)
    → (p < paddr) ⊎ (paddr + frame_size ≤ p)
    → copy_segment_page image s page paddr memory p ≡ memory p
unfolding copy_segment_page
copy_segment_page_other image s page paddr memory p h =
    let lo = max page s.vaddr in
    let hi = min (page + frame_size) (s.vaddr + s.filesz) in
    let start = paddr + (lo - page) in
    elim (Bool-cases (leb hi lo)) [
      | inl c ↦ rw c refl
      | inr c ↦
          let d : (leb start p && ltb p (start + (hi - lo))) ≡ false = ground (arith, c, h) in
          rw (c, d) refl
    ]
