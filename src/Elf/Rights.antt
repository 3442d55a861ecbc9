-- ===== src/Elf/Rights.antt =====
-- The permissions of the pages that `map_image` of kernel/src/exec.rs maps.
use morion_os.Prelude.{
  ℕ, ◌+◌, ◌-◌, ◌*◌, ◌/◌, ◌%◌, ◌≤◌, ◌<◌, ◌≡◌, ◌⊎◌, inl, inr, refl, sym, ap, subst, ◌∙◌, Bool, true,
  false, ◌&&◌, ◌||◌, some, some_inj, List, [], ◌∷◌, arith, ltb, leb, ◌==◌, case_option-inv,
}
use morion_os.Prelude.Outcomes.{Outcome, done, done_inj, >>=-eq-done, or_refused, or_refused-inv}
use morion_os.Elf.{Segment, Image, writable, executable}
use morion_os.Elf.Pages.{demands, can_write, can_execute, page_perm_lem}
use morion_os.Frames.{frame_size}
use morion_os.Prelude.Elements.{All}
use morion_os.Elf.Loading.{
  Mapping, Loading, UserPagePerm, read_only, read_write, read_execute, page_of, covers,
  resolve_user_page, map_zeroed, page_perm, map_page, map_segment, fill_page, fill_segment, each,
  pages, pages_from, stack_pages, map_stack, map_image, user_stack_top, user_stack_pages,
}
use morion_os.Elf.Mapped.{map_zeroed-inv}
use morion_os.Elf.Contents.{IsAligned, pages-IsAligned}

-- Some segment whose memory meets the page has the bit in its flags.
unfoldable pub wanted : ℕ → List Segment → ℕ → Bool
wanted bit [] page = false
wanted bit (s ∷ ss) page =
    ((ltb s.vaddr (page + 4096) && ltb page (s.vaddr + s.memsz)) && s.flags / bit % 2 == 1)
    || wanted bit ss page

-- A page that starts at a multiple of 4096 can be written exactly if a segment in it has the flag
-- `PF_W`, 2, and executed exactly if one has `PF_X`, 1, and never both; or it belongs to the stack, and
-- can be written only.
unfoldable pub HasRights : List Segment → Mapping → Type 0
HasRights segments m =
    (m.page / 4096 * 4096 ≡ m.page)
    × (((can_write m.perm ≡ wanted 2 segments m.page)
          × (can_execute m.perm ≡ wanted 1 segments m.page)
          × ((wanted 2 segments m.page && wanted 1 segments m.page) ≡ false))
        ⊎ ((m.perm ≡ read_write)
            × (user_stack_top - user_stack_pages * frame_size ≤ m.page)
            × (m.page < user_stack_top)))

covers_aligned :
    (page : ℕ) (s : Segment)
    → IsAligned page
    → covers page s ≡ (ltb s.vaddr (page + 4096) && ltb page (s.vaddr + s.memsz))
covers_aligned page s al = ap (λ b. b && ltb page (s.vaddr + s.memsz)) below
  where
    below : leb (page_of s.vaddr) page ≡ ltb s.vaddr (page + 4096)
    below = ground (arith, al)

demands-wanted :
    (page : ℕ) (ss : List Segment)
    → IsAligned page
    → (demands writable page ss ≡ wanted 2 ss page)
      × (demands executable page ss ≡ wanted 1 ss page)
unfolding wanted
demands-wanted page [] al = (refl, refl)
demands-wanted page (s ∷ ss) al =
    let (w, x) = demands-wanted page ss al in
    let here = covers_aligned page s al in
    let one : s.flags / 1 ≡ s.flags = omega arith in (rw (here, w) refl, rw (here, x, one) refl)

never_both :
    (p : UserPagePerm) (w x : Bool) → can_write p ≡ w → can_execute p ≡ x → (w && x) ≡ false
never_both p false x a b = refl
never_both p true false a b = refl
never_both read_only true true a b = absurd (cc a)
never_both read_write true true a b = absurd (cc b)
never_both read_execute true true a b = absurd (cc a)

page_perm-HasRights :
    (segments : List Segment) (page paddr : ℕ) (perm : UserPagePerm)
    → IsAligned page
    → page_perm segments page ≡ some perm
    → HasRights segments (record { page = page; paddr = paddr; perm = perm })
unfolding HasRights
page_perm-HasRights segments page paddr perm al e = elim (page_perm_lem segments page) [
  | inl (refused, _, _) ↦ absurd (cc (refused, e))
  | inr (p, found, w, x) ↦
      let same : p ≡ perm = some_inj (sym found ∙ e) in
      let (w', x') = demands-wanted page segments al in
      let a : can_write perm ≡ wanted 2 segments page = ap can_write (sym same) ∙ (w ∙ w') in
      let b : can_execute perm ≡ wanted 1 segments page = ap can_execute (sym same) ∙ (x ∙ x') in
      (al, inl (a, b, never_both perm _ _ a b))
]

-- A loop keeps what each of its steps keeps.
each-keeps {ℓ κ} :
    {A : Type ℓ} (P : Loading → Type κ) (step : A → Loading → Outcome Loading)
    → ((a : A) (l l' : Loading) → step a l ≡ done l' → P l → P l')
    → (xs : List A) (l l' : Loading) → each step xs l ≡ done l'
    → P l
    → P l'
each-keeps P step keeps [] l l' e p = subst P (done_inj e) p
each-keeps P step keeps (x ∷ xs) l l' e p =
    let (m, a, e') = >>=-eq-done (step x l) _ l' e in
    each-keeps P step keeps xs m l' e' (keeps x l m a p)

map_zeroed-rights :
    (segments : List Segment) (page : ℕ) (perm : UserPagePerm) (l l' : Loading)
    → map_zeroed page perm l ≡ done l'
    → IsAligned page
    → ((p : ℕ) → HasRights segments (record { page = page; paddr = p; perm = perm }))
    → All (HasRights segments) l.space
    → All (HasRights segments) l'.space
map_zeroed-rights segments page perm l l' e al right rights =
    let (_, p, _, _, same) = map_zeroed-inv page perm l l' e in
    subst (λ k. All (HasRights segments) k.space) (sym same)
      (
        subst (λ q. HasRights segments (record { page = q; paddr = p; perm = perm })) (sym al)
            (right p),
        rights,
      )

map_pages-rights :
    (segments : List Segment) (ps : List ℕ) (l l' : Loading)
    → All IsAligned ps
    → each (map_page segments) ps l ≡ done l'
    → All (HasRights segments) l.space
    → All (HasRights segments) l'.space
unfolding map_page
map_pages-rights segments [] l l' _ e rights =
    subst (λ k. All (HasRights segments) k.space) (done_inj e) rights
map_pages-rights segments (page ∷ ps) l l' (al, als) e rights =
    let (m, a, e') = >>=-eq-done (map_page segments page l) _ l' e in
    map_pages-rights segments ps m l' als e'
      (elim (case_option-inv (resolve_user_page l.space page) _ _ (done m) a) [
        | inr (_, _, same) ↦ subst (λ k. All (HasRights segments) k.space) (done_inj same) rights
        | inl (_, a') ↦
            let (perm, b, a'') = >>=-eq-done (or_refused (page_perm segments page)) _ m a' in
            map_zeroed-rights segments page perm l m a'' al
              (λ p.
                page_perm-HasRights segments page p perm al
                  (or_refused-inv (page_perm segments page) perm b))
              rights
      ])

IsStackPage : ℕ → Type 0
IsStackPage page =
    IsAligned page
    × (user_stack_top - user_stack_pages * frame_size ≤ page)
    × (page < user_stack_top)

stack_pages-IsStackPage : All IsStackPage stack_pages
unfolding IsStackPage stack_pages pages_from
stack_pages-IsStackPage = (
  (refl, omega arith, omega arith),
  (
    (refl, omega arith, omega arith),
    (
      (refl, omega arith, omega arith),
      (
        (refl, omega arith, omega arith),
        (
          (refl, omega arith, omega arith),
          (
            (refl, omega arith, omega arith),
            ((refl, omega arith, omega arith), ((refl, omega arith, omega arith), _)),
          ),
        ),
      ),
    ),
  ),
)

map_stack-rights :
    (segments : List Segment) (ps : List ℕ) (l l' : Loading)
    → All IsStackPage ps
    → each (λ page. map_zeroed page read_write) ps l ≡ done l'
    → All (HasRights segments) l.space
    → All (HasRights segments) l'.space
unfolding IsStackPage HasRights
map_stack-rights segments [] l l' _ e rights =
    subst (λ k. All (HasRights segments) k.space) (done_inj e) rights
map_stack-rights segments (page ∷ ps) l l' (ok, oks) e rights =
    let (m, a, e') = >>=-eq-done (map_zeroed page read_write l) _ l' e in
    map_stack-rights segments ps m l' oks e' (
      map_zeroed-rights segments page read_write l m a ok.0 (λ _. (ok.0, inr (refl, ok.1, ok.2)))
        rights)

fill_page-space :
    (image : List ℕ) (s : Segment) (segments : List Segment) (page : ℕ) (l l' : Loading)
    → fill_page image s page l ≡ done l'
    → All (HasRights segments) l.space
    → All (HasRights segments) l'.space
unfolding fill_page
fill_page-space image s segments page l l' e rights =
    let (_, _, same) = >>=-eq-done (or_refused (resolve_user_page l.space page)) _ l' e in
    subst (λ k. All (HasRights segments) k.space) (done_inj same) rights

-- Every page that `map_image` maps into an empty address space starts at a multiple of 4096. It can be
-- written exactly if a segment whose memory meets it has the flag `PF_W`, executed exactly if one has
-- `PF_X`, and never both; or it is a page of the user stack, which can be written and not executed.
pub map_image-HasRights :
    (image : List ℕ) (elf : Image) (l l' : Loading)
    → l.space ≡ []
    → map_image image elf l ≡ done l'
    → All (HasRights elf.segments) l'.space
unfolding map_image map_stack map_segment fill_segment
map_image-HasRights image elf l l' empty h =
    let Rights : Loading → Type 0 = λ k. All (HasRights elf.segments) k.space in
    let (mapped, a, h1) = >>=-eq-done (each (map_segment elf.segments) elf.segments l) _ l' h in
    let (filled, b, h2) = >>=-eq-done (each (fill_segment image) elf.segments mapped) _ l' h1 in
    let r1 : Rights mapped =
      each-keeps Rights (map_segment elf.segments)
        (λ s m m' e r. map_pages-rights elf.segments (pages s) m m' (pages-IsAligned s) e r)
        elf.segments l mapped a (rw empty _) in
    let r2 : Rights filled =
      each-keeps Rights (fill_segment image)
        (λ s m m' e r.
          each-keeps Rights (fill_page image s)
            (λ page n n' e' r'. fill_page-space image s elf.segments page n n' e' r') (pages s) m m'
            e r)
        elf.segments mapped filled b r1 in
    map_stack-rights elf.segments stack_pages filled l' stack_pages-IsStackPage h2 r2
