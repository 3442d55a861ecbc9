-- ===== src/Elf/Contents.antt =====
-- The memory that `map_image` of kernel/src/exec.rs builds.
use morion_os.Prelude.{
  ℕ, zero, suc, ◌+◌, ◌-◌, ◌*◌, ◌/◌, ◌%◌, ◌≤◌, ◌<◌, ◌≡◌, ◌≢◌, ◌⊎◌, inl, inr, refl, sym, subst, ◌∙◌,
  true, Option, none, some, List, [], ◌∷◌, length, get_elem?, arith, ℕ_discrete, ltb, leb,
  if◌then◌else◌, ltb→lt, lt→ltb, leb→le, Bool-cases, ◌>>=◌, some_inj, case_option-inv, &&_inv,
}
use morion_os.Prelude.Outcomes.{done, done_inj, >>=-eq-done, or_refused}
use morion_os.Elf.{Segment}
use morion_os.Frames.{frame_size}
use morion_os.Prelude.Elements.{All}
use morion_os.Elf.Valid.{IsLoadable}
use morion_os.Elf.Loading.{
  Loading, page_of, resolve_user_page, page_perm, map_page, fill_page, fill_segment, each, pages,
  pages_from,
}
use morion_os.Elf.Pages.{pages_lem}
use morion_os.Elf.Mapped.{
  peek, peek_lem, frame_at, IsFresh, map_zeroed-IsFresh, peek-map_zeroed, resolve_user_page_lem,
}
use morion_os.Elf.Filled.{in_file, overlay, fill_page-IsFresh, peek-fill_page}

abbrev pub IsAligned : ℕ → Type 0
IsAligned page = page_of page ≡ page

pub pages_from-IsAligned :
    (fuel page end : ℕ) → IsAligned page → All IsAligned (pages_from fuel page end)
unfolding pages_from
pages_from-IsAligned zero page end h = _
pages_from-IsAligned (suc fuel) page end h =
    let rest = pages_from-IsAligned fuel (page + frame_size) end (omega (arith, h)) in
    elim (Bool-cases (ltb page end)) [ inl e ↦ rw e (h, rest) | inr e ↦ rw e _ ]

pub pages-IsAligned : (s : Segment) → All IsAligned (pages s)
unfolding pages
pages-IsAligned s =
    pages_from-IsAligned (s.memsz / frame_size + 2) (page_of s.vaddr) (s.vaddr + s.memsz)
      (omega arith)

-- The page of an address in the memory of a segment is one of its pages.
pub page_index :
    (s : Segment) (x : ℕ)
    → s.vaddr ≤ x
    → x < s.vaddr + s.memsz
    → get_elem? (pages s) (x / frame_size - s.vaddr / frame_size) ≡ some (page_of x)
page_index s x lo hi =
    let at = page_of s.vaddr + (x / frame_size - s.vaddr / frame_size) * frame_size in
    let e : at ≡ page_of x = omega (arith, lo) in
    let below : ltb (page_of x) (s.vaddr + s.memsz) ≡ true = lt→ltb _ _ (omega (arith, hi)) in
    pages_lem s (x / frame_size - s.vaddr / frame_size)
    ∙ subst (λ y. (if ltb y (s.vaddr + s.memsz) then some y else none) ≡ some (page_of x)) (sym e)
        (rw below refl)

-- the second pass: `b` is the byte that is read before it
module _ (image : List ℕ) (s : Segment) (x : ℕ) where
  keeps :
      (ps : List ℕ) (l l' : Loading) (c : ℕ)
      → overlay image s x c ≡ c
      → All IsAligned ps
      → IsFresh l
      → peek l x ≡ some c
      → each (fill_page image s) ps l ≡ done l'
      → IsFresh l' × (peek l' x ≡ some c)
  keeps [] l l' c same _ fresh h e =
      subst (λ k. IsFresh k × (peek k x ≡ some c)) (done_inj e) (fresh, h)
  keeps (page ∷ ps) l l' c same (al, als) fresh h e =
      let (m, a, e') = >>=-eq-done (fill_page image s page l) _ l' e in
      let fresh' = fill_page-IsFresh image s page l m al a fresh in
      elim (peek-fill_page image s page l m x al a fresh) [
        | inl (_, now) ↦ keeps ps m l' c same als fresh' (now ∙ rw (h, same) refl) e'
        | inr (_, now) ↦ keeps ps m l' c same als fresh' (now ∙ h) e'
      ]

  overlay-overlay : (b : ℕ) → overlay image s x (overlay image s x b) ≡ overlay image s x b
  overlay-overlay b = elim (Bool-cases (in_file s x)) [ inl e ↦ rw e refl | inr e ↦ rw e refl ]

  sets :
      (ps : List ℕ) (k : ℕ) (l l' : Loading) (b : ℕ)
      → get_elem? ps k ≡ some (page_of x)
      → All IsAligned ps
      → IsFresh l
      → peek l x ≡ some b
      → each (fill_page image s) ps l ≡ done l'
      → IsFresh l' × (peek l' x ≡ some (overlay image s x b))
  sets [] k l l' b at _ fresh h e = absurd (cc)
  sets (page ∷ ps) zero l l' b at (al, als) fresh h e =
      let (m, a, e') = >>=-eq-done (fill_page image s page l) _ l' e in
      let fresh' = fill_page-IsFresh image s page l m al a fresh in
      elim (peek-fill_page image s page l m x al a fresh) [
        | inl (_, now) ↦
            keeps ps m l' (overlay image s x b) (overlay-overlay b) als fresh' (now ∙ rw h refl) e'
        | inr (other, _) ↦ absurd (other (some_inj at))
      ]
  sets (page ∷ ps) (suc k) l l' b at (al, als) fresh h e =
      let (m, a, e') = >>=-eq-done (fill_page image s page l) _ l' e in
      let fresh' = fill_page-IsFresh image s page l m al a fresh in
      elim (peek-fill_page image s page l m x al a fresh) [
        | inl (_, now) ↦
            keeps ps m l' (overlay image s x b) (overlay-overlay b) als fresh' (now ∙ rw h refl) e'
        | inr (_, now) ↦ sets ps k m l' b at als fresh' (now ∙ h) e'
      ]

fill_segment_lem :
    (image : List ℕ) (s : Segment) (x : ℕ) (l l' : Loading) (b : ℕ)
    → s.filesz ≤ s.memsz
    → IsFresh l
    → peek l x ≡ some b
    → fill_segment image s l ≡ done l'
    → IsFresh l' × (peek l' x ≡ some (overlay image s x b))
unfolding fill_segment
fill_segment_lem image s x l l' b fits fresh h e = elim (Bool-cases (in_file s x)) [
  | inl inside ↦
      let (lo, hi) = &&_inv (leb s.vaddr x) _ inside in
      let at = page_index s x (leb→le _ _ lo) (omega (arith, fits, ltb→lt _ _ hi)) in
      sets image s x (pages s) _ l l' b at (pages-IsAligned s) fresh h e
  | inr outside ↦
      let same : overlay image s x b ≡ b = rw outside refl in
      subst (λ c. IsFresh l' × (peek l' x ≡ some c)) (sym same)
        (keeps image s x (pages s) l l' b same (pages-IsAligned s) fresh h e)
]

-- The byte of the image at an address: that of the last segment whose contents have one, and 0 if
-- there is none.
abbrev pub content : List ℕ → List Segment → ℕ → ℕ → ℕ
content image [] x b = b
content image (s ∷ ss) x b = content image ss x (overlay image s x b)

pub fill_segments_lem :
    (image : List ℕ) (ss : List Segment) (x : ℕ) (l l' : Loading) (b : ℕ)
    → All (IsLoadable (length image)) ss
    → IsFresh l
    → peek l x ≡ some b
    → each (fill_segment image) ss l ≡ done l'
    → IsFresh l' × (peek l' x ≡ some (content image ss x b))
unfolding IsLoadable
fill_segments_lem image [] x l l' b _ fresh h e =
    subst (λ k. IsFresh k × (peek k x ≡ some b)) (done_inj e) (fresh, h)
fill_segments_lem image (s ∷ ss) x l l' b (ok, oks) fresh h e =
    let (m, a, e') = >>=-eq-done (fill_segment image s l) _ l' e in
    let (fresh', now) = fill_segment_lem image s x l m b (ok.1) fresh h a in
    fill_segments_lem image ss x m l' (overlay image s x b) oks fresh' now e'

-- The first pass: every address is unmapped, or read as 0.
abbrev pub IsZeroed : Loading → ℕ → Type 0
IsZeroed l x = (peek l x ≡ none) ⊎ (peek l x ≡ some 0)

mapped_page :
    (l : Loading) (page x p : ℕ)
    → IsAligned page
    → page ≡ page_of x
    → resolve_user_page l.space page ≡ some p
    → peek l x ≢ none
mapped_page l page x p al same h =
    let here : page_of page ≡ page_of x = al ∙ same in
    shown (frame_at l.space (page_of x))
      (subst (λ pg. (do q ← frame_at l.space pg; some (q + page % frame_size)) ≡ some p) here
        (sym (resolve_user_page_lem l.space page) ∙ h))
      (peek_lem l x)
  where
    shown :
        (o : Option ℕ)
        → (do q ← o; some (q + page % frame_size)) ≡ some p
        → peek l x ≡ (do q ← o; some (l.memory (q + x % frame_size)))
        → peek l x ≢ none
    shown none e _ _ = cc
    shown (some q) e now n = differ (sym n ∙ now)
      where
        differ : {y : ℕ} → none ≡ some y → ⊥
        differ e = cc

zeroed-mapped : (l : Loading) (x : ℕ) → IsZeroed l x → peek l x ≢ none → peek l x ≡ some 0
zeroed-mapped l x (inl e) n = absurd (n e)
zeroed-mapped l x (inr e) n = e

module _ (segments : List Segment) (x : ℕ) where
  -- One step: the address stays zeroed, and it is mapped if it was or if its page is the step's.
  pub map_page_lem :
      (page : ℕ) (l l' : Loading)
      → IsAligned page
      → IsFresh l
      → IsZeroed l x
      → map_page segments page l ≡ done l'
      → IsFresh l' × ((peek l' x ≡ some 0) ⊎ ((page ≢ page_of x) × (peek l' x ≡ peek l x)))
  unfolding map_page
  map_page_lem page l l' al fresh z h =
      elim (case_option-inv (resolve_user_page l.space page) _ _ (done l') h) [
        | inr (p, at, e) ↦
            subst
              (λ k.
                IsFresh k × ((peek k x ≡ some 0) ⊎ ((page ≢ page_of x) × (peek k x ≡ peek l x))))
              (done_inj e)
              (
                fresh,
                elim (ℕ_discrete page (page_of x)) [
                  | yes same ↦ inl (zeroed-mapped l x z (mapped_page l page x p al same at))
                  | no other ↦ inr (other, refl)
                ],
              )
        | inl (_, e) ↦
            let (perm, _, e') = >>=-eq-done (or_refused (page_perm segments page)) _ l' e in
            (
              map_zeroed-IsFresh page perm l l' e' fresh,
              elim (peek-map_zeroed page perm l l' x e' fresh) [
                | inl (_, _, now) ↦ inl now
                | inr (other, now) ↦ inr ((λ same. other (al ∙ same)), now)
              ],
            )
      ]
