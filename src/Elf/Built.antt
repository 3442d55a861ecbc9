-- ===== src/Elf/Built.antt =====
-- `map_image` of kernel/src/exec.rs as a whole: the memory and the permissions that a program starts
-- with.
use morion_os.Prelude.{
  ℕ, zero, suc, ◌+◌, ◌-◌, ◌*◌, ◌/◌, ◌≤◌, ◌<◌, ◌≡◌, ◌≢◌, ◌⊎◌, inl, inr, refl, sym, subst, ◌∙◌, true,
  Option, none, some, List, [], ◌∷◌, length, get_elem?, arith, dec_lt, dec_le, ltb, lt→ltb,
  some_inj,
}
use morion_os.Prelude.Outcomes.{done, done_inj, >>=-eq-done}
use morion_os.Elf.{Segment, Image}
use morion_os.Frames.{frame_size}
use morion_os.Prelude.Elements.{All}
use morion_os.Elf.Valid.{IsLoadable}
use morion_os.Elf.Loading.{
  Loading, read_write, page_of, resolve_user_page, map_zeroed, map_page, map_segment, fill_segment,
  each, pages, stack_pages, map_stack, map_image, user_stack_top, user_stack_pages,
}
use morion_os.Elf.Pages.{pages_from_lem}
use morion_os.Elf.Mapped.{peek, IsFresh, map_zeroed-IsFresh, peek-map_zeroed}
use morion_os.Elf.Contents.{
  IsAligned, pages-IsAligned, page_index, content, fill_segments_lem, IsZeroed, map_page_lem,
}

-- What holds of an address through the first pass: a property `Q` of the byte there that a fresh byte
-- has.
module _ (segments : List Segment) (x : ℕ) (Q : Option ℕ → Type 0) (fresh_byte : Q (some 0))
    (weaken : (o : Option ℕ) → Q o → (o ≡ none) ⊎ (o ≡ some 0)) where
  map_pages-keeps :
      (ps : List ℕ) (l l' : Loading)
      → All IsAligned ps
      → IsFresh l
      → Q (peek l x)
      → each (map_page segments) ps l ≡ done l'
      → IsFresh l' × Q (peek l' x)
  map_pages-keeps [] l l' _ fresh q e =
      subst (λ k. IsFresh k × Q (peek k x)) (done_inj e) (fresh, q)
  map_pages-keeps (page ∷ ps) l l' (al, als) fresh q e =
      let (m, a, e') = >>=-eq-done (map_page segments page l) _ l' e in
      let (fresh', now) = map_page_lem segments x page l m al fresh (weaken (peek l x) q) a in
      map_pages-keeps ps m l' als fresh'
        (elim now [
          | inl zeroed ↦ subst Q (sym zeroed) fresh_byte
          | inr (_, same) ↦ subst Q (sym same) q
        ])
        e'

  map_segments-keeps :
      (ss : List Segment) (l l' : Loading)
      → IsFresh l
      → Q (peek l x)
      → each (map_segment segments) ss l ≡ done l'
      → IsFresh l' × Q (peek l' x)
  unfolding map_segment
  map_segments-keeps [] l l' fresh q e =
      subst (λ k. IsFresh k × Q (peek k x)) (done_inj e) (fresh, q)
  map_segments-keeps (s ∷ ss) l l' fresh q e =
      let (m, a, e') = >>=-eq-done (map_segment segments s l) _ l' e in
      let (fresh', q') = map_pages-keeps (pages s) l m (pages-IsAligned s) fresh q a in
      map_segments-keeps ss m l' fresh' q' e'

module _ (segments : List Segment) (x : ℕ) where
  stays_zero :
      (ps : List ℕ) (l l' : Loading)
      → All IsAligned ps
      → IsFresh l
      → peek l x ≡ some 0
      → each (map_page segments) ps l ≡ done l'
      → IsFresh l' × (peek l' x ≡ some 0)
  stays_zero = map_pages-keeps segments x (λ o. o ≡ some 0) refl (λ o e. inr e)

  maps :
      (ps : List ℕ) (k : ℕ) (l l' : Loading)
      → get_elem? ps k ≡ some (page_of x)
      → All IsAligned ps
      → IsFresh l
      → IsZeroed l x
      → each (map_page segments) ps l ≡ done l'
      → IsFresh l' × (peek l' x ≡ some 0)
  maps [] k l l' at _ fresh z e = absurd (cc)
  maps (page ∷ ps) zero l l' at (al, als) fresh z e =
      let (m, a, e') = >>=-eq-done (map_page segments page l) _ l' e in
      let (fresh', now) = map_page_lem segments x page l m al fresh z a in
      elim now [
        | inl zeroed ↦ stays_zero ps m l' als fresh' zeroed e'
        | inr (other, _) ↦ absurd (other (some_inj at))
      ]
  maps (page ∷ ps) (suc k) l l' at (al, als) fresh z e =
      let (m, a, e') = >>=-eq-done (map_page segments page l) _ l' e in
      let (fresh', now) = map_page_lem segments x page l m al fresh z a in
      elim now [
        | inl zeroed ↦ stays_zero ps m l' als fresh' zeroed e'
        | inr (_, same) ↦
            maps ps k m l' at als fresh' (subst (λ o. (o ≡ none) ⊎ (o ≡ some 0)) (sym same) z) e'
      ]

  -- After the first pass the memory of every segment is mapped and zeroed.
  map_segments_lem :
      (ss : List Segment) (k : ℕ) (s : Segment) (l l' : Loading)
      → get_elem? ss k ≡ some s
      → s.vaddr ≤ x
      → x < s.vaddr + s.memsz
      → IsFresh l
      → IsZeroed l x
      → each (map_segment segments) ss l ≡ done l'
      → IsFresh l' × (peek l' x ≡ some 0)
  unfolding map_segment
  map_segments_lem [] k s l l' at lo hi fresh z e = absurd (cc)
  map_segments_lem (s ∷ ss) zero t l l' at lo hi fresh z e =
      let (m, a, e') = >>=-eq-done (map_segment segments s l) _ l' e in
      let same = some_inj at in
      let index =
        page_index s x (subst (λ r. r.vaddr ≤ x) (sym same) lo)
          (subst (λ r. x < r.vaddr + r.memsz) (sym same) hi) in
      let (fresh', now) = maps (pages s) _ l m index (pages-IsAligned s) fresh z a in
      map_segments-keeps segments x (λ o. o ≡ some 0) refl (λ o e. inr e) ss m l' fresh' now e'
  map_segments_lem (s ∷ ss) (suc k) t l l' at lo hi fresh z e =
      let (m, a, e') = >>=-eq-done (map_segment segments s l) _ l' e in
      let (fresh', z') =
        map_pages-keeps segments x (λ o. (o ≡ none) ⊎ (o ≡ some 0)) (inr refl) (λ o e. e) (pages s)
          l m (pages-IsAligned s) fresh z a in
      map_segments_lem ss k t m l' at lo hi fresh' z' e'

-- The stack goes to pages that were not mapped, and so leaves every byte as it was.
map_stack-keeps :
    (ps : List ℕ) (x b : ℕ) (l l' : Loading)
    → IsFresh l
    → peek l x ≡ some b
    → each (λ page. map_zeroed page read_write) ps l ≡ done l'
    → peek l' x ≡ some b
map_stack-keeps [] x b l l' fresh h e = subst (λ k. peek k x ≡ some b) (done_inj e) h
map_stack-keeps (page ∷ ps) x b l l' fresh h e =
    let (m, a, e') = >>=-eq-done (map_zeroed page read_write l) _ l' e in
    let fresh' = map_zeroed-IsFresh page read_write l m a fresh in
    elim (peek-map_zeroed page read_write l m x a fresh) [
      | inl (_, unmapped, _) ↦ absurd (differ (sym unmapped ∙ h))
      | inr (_, same) ↦ map_stack-keeps ps x b m l' fresh' (same ∙ h) e'
    ]
  where
    differ : none ≡ some b → ⊥
    differ e = cc

-- A stack page is never one that was mapped before.
map_stack-apart :
    (ps : List ℕ) (k page x b : ℕ) (l l' : Loading)
    → get_elem? ps k ≡ some page
    → IsFresh l
    → peek l x ≡ some b
    → each (λ pg. map_zeroed pg read_write) ps l ≡ done l'
    → page_of page ≢ page_of x
map_stack-apart [] k page x b l l' at fresh h e = absurd (cc)
map_stack-apart (pg ∷ ps) zero page x b l l' at fresh h e =
    let (m, a, _) = >>=-eq-done (map_zeroed pg read_write l) _ l' e in
    elim (peek-map_zeroed pg read_write l m x a fresh) [
      | inl (_, unmapped, _) ↦ absurd (differ (sym unmapped ∙ h))
      | inr (other, _) ↦ subst (λ q. page_of q ≢ page_of x) (some_inj at) other
    ]
  where
    differ : none ≡ some b → ⊥
    differ e = cc
map_stack-apart (pg ∷ ps) (suc k) page x b l l' at fresh h e =
    let (m, a, e') = >>=-eq-done (map_zeroed pg read_write l) _ l' e in
    let fresh' = map_zeroed-IsFresh pg read_write l m a fresh in
    elim (peek-map_zeroed pg read_write l m x a fresh) [
      | inl (_, unmapped, _) ↦ absurd (differ (sym unmapped ∙ h))
      | inr (_, same) ↦ map_stack-apart ps k page x b m l' at fresh' (same ∙ h) e'
    ]
  where
    differ : none ≡ some b → ⊥
    differ e = cc

map_image-filled :
    (image : List ℕ) (elf : Image) (l l' : Loading) (k x : ℕ) (s : Segment)
    → All (IsLoadable (length image)) elf.segments
    → l.space ≡ []
    → map_image image elf l ≡ done l'
    → get_elem? elf.segments k ≡ some s
    → s.vaddr ≤ x
    → x < s.vaddr + s.memsz
    → (filled : Loading) × IsFresh filled
      × (peek filled x ≡ some (content image elf.segments x 0))
      × (map_stack filled ≡ done l')
unfolding map_image IsFresh resolve_user_page
map_image-filled image elf l l' k x s oks empty h at lo hi =
    let (mapped, a, h1) = >>=-eq-done (each (map_segment elf.segments) elf.segments l) _ l' h in
    let (filled, b, h2) = >>=-eq-done (each (fill_segment image) elf.segments mapped) _ l' h1 in
    let fresh : IsFresh l = rw empty (_, _) in
    let zeroed : IsZeroed l x = inl (rw (empty, resolve_user_page) refl) in
    let (fresh', now) =
      map_segments_lem elf.segments x elf.segments k s l mapped at lo hi fresh zeroed a in
    let (fresh'', now') = fill_segments_lem image elf.segments x mapped filled 0 oks fresh' now b in
    (filled, fresh'', now', h2)

-- When `map_image` succeeds in an empty address space, on an image whose segments have their contents
-- in the file, a program reads at every address of every segment the byte of the file that the last
-- segment with contents at this address has there, and 0 where no segment has contents.
pub map_image_lem :
    (image : List ℕ) (elf : Image) (l l' : Loading) (k x : ℕ) (s : Segment)
    → All (IsLoadable (length image)) elf.segments
    → l.space ≡ []
    → map_image image elf l ≡ done l'
    → get_elem? elf.segments k ≡ some s
    → s.vaddr ≤ x
    → x < s.vaddr + s.memsz
    → peek l' x ≡ some (content image elf.segments x 0)
unfolding map_stack
map_image_lem image elf l l' k x s oks empty h at lo hi =
    let (filled, fresh, now, h') = map_image-filled image elf l l' k x s oks empty h at lo hi in
    map_stack-keeps stack_pages x _ filled l' fresh now h'

-- An image with a segment that reaches into the pages of the user stack is never loaded.
pub map_image-off_stack :
    (image : List ℕ) (elf : Image) (l l' : Loading) (k x : ℕ) (s : Segment)
    → All (IsLoadable (length image)) elf.segments
    → l.space ≡ []
    → map_image image elf l ≡ done l'
    → get_elem? elf.segments k ≡ some s
    → s.vaddr ≤ x
    → x < s.vaddr + s.memsz
    → (x < user_stack_top - user_stack_pages * frame_size) ⊎ (user_stack_top ≤ x)
unfolding map_stack stack_pages
map_image-off_stack image elf l l' k x s oks empty h at lo hi =
    let (filled, fresh, now, h') = map_image-filled image elf l l' k x s oks empty h at lo hi in
    let base = user_stack_top - user_stack_pages * frame_size in
    elim (dec_lt x base) [
      | yes below ↦ inl below
      | no above ↦ elim (dec_le user_stack_top x) [
        | yes over ↦ inr over
        | no under ↦
            let i = (x - base) / frame_size in
            let inside : ltb (base + i * frame_size) user_stack_top ≡ true =
              lt→ltb _ _ (omega arith) in
            let index = pages_from_lem user_stack_pages base user_stack_top i (omega arith) in
            absurd (
              map_stack-apart stack_pages i (base + i * frame_size) x _ filled l'
                (index ∙ rw inside refl) fresh now h' (omega arith))
      ]
    ]
