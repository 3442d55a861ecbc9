-- ===== src/Elf/Filled.antt =====
-- The second pass of `map_image` of kernel/src/exec.rs: what a program reads when a segment has been
-- copied into its pages.
use morion_os.Prelude.{
  ℕ, ◌+◌, ◌-◌, ◌%◌, ◌≡◌, ◌≢◌, ◌⊎◌, inl, inr, sym, ap, subst, ◌∙◌, Bool, ◌&&◌, Option, none, some,
  List, [], ◌∷◌, get_or, arith, ℕ_discrete, ltb, leb, ◌==◌, if◌then◌else◌, ==_iff, ◌>>=◌, some_inj,
  if-inv,
}
use morion_os.Prelude.Outcomes.{done, done_inj, >>=-eq-done, or_refused, or_refused-inv}
use morion_os.Elf.{Segment}
use morion_os.Frames.{frame_size}
use morion_os.Elf.Loading.{Space, Loading, page_of, resolve_user_page, copy_segment_page, fill_page}
use morion_os.Elf.Pages.{copy_segment_page_lem, copy_segment_page_other}
use morion_os.Elf.Mapped.{
  peek, peek_lem, read, read_outside, frames_apart, frame_at, frame_at-All, IsTaken, AreDistinct,
  IsFresh, resolve_user_page_lem,
}

-- whether the contents of a segment have a byte for an address, and that byte
abbrev pub in_file : Segment → ℕ → Bool
in_file s x = leb s.vaddr x && ltb x (s.vaddr + s.filesz)

abbrev pub file_byte : List ℕ → Segment → ℕ → ℕ
file_byte image s x = get_or image (s.offset + (x - s.vaddr)) 0

abbrev pub overlay : List ℕ → Segment → ℕ → ℕ → ℕ
overlay image s x b = if in_file s x then file_byte image s x else b

frame_at-distinct :
    (space : Space) (page page' p q : ℕ)
    → AreDistinct space
    → page ≢ page'
    → frame_at space page ≡ some p
    → frame_at space page' ≡ some q
    → p ≢ q
frame_at-distinct [] page page' p q _ ne h h' same = absurd (cc)
frame_at-distinct (m ∷ ms) page page' p q (new, rest) ne h h' same =
    elim (if-inv (m.page == page) (some m.paddr) (frame_at ms page) (some p) h) [
      | inl (here, e) ↦
          elim (if-inv (m.page == page') (some m.paddr) (frame_at ms page') (some q) h') [
            | inl (here', _) ↦
                ne (sym ((==_iff m.page page).0 here) ∙ (==_iff m.page page').0 here')
            | inr (_, e') ↦ frame_at-All (λ r. m.paddr ≢ r) ms page' q new e' (some_inj e ∙ same)
          ]
      | inr (_, e) ↦
          elim (if-inv (m.page == page') (some m.paddr) (frame_at ms page') (some q) h') [
            | inl (_, e') ↦ frame_at-All (λ r. m.paddr ≢ r) ms page p new e (some_inj e' ∙ sym same)
            | inr (_, e') ↦ frame_at-distinct ms page page' p q rest ne e e' same
          ]
    ]

fill_page-inv :
    (image : List ℕ) (s : Segment) (page : ℕ) (l l' : Loading)
    → page_of page ≡ page
    → fill_page image s page l ≡ done l'
    → (p : ℕ) × (frame_at l.space page ≡ some p)
      × (l' ≡ record l { memory = copy_segment_page image s page p l.memory })
unfolding fill_page
fill_page-inv image s page l l' aligned h =
    let (p, a, e) = >>=-eq-done (or_refused (resolve_user_page l.space page)) _ l' h in
    let at = or_refused-inv (resolve_user_page l.space page) p a in
    (
      p,
      frame p (frame_at l.space page) (
          subst (λ pg. (do q ← frame_at l.space pg; some (q + page % frame_size)) ≡ some p) aligned
            (sym (resolve_user_page_lem l.space page) ∙ at)),
      sym (done_inj e),
    )
  where
    frame : (p : ℕ) (o : Option ℕ) → (do q ← o; some (q + page % frame_size)) ≡ some p → o ≡ some p
    frame p none e = absurd (cc)
    frame p (some q) e = let e' = some_inj e in ap (λ r. some r) (omega (arith, e', aligned))

pub fill_page-IsFresh :
    (image : List ℕ) (s : Segment) (page : ℕ) (l l' : Loading)
    → page_of page ≡ page
    → fill_page image s page l ≡ done l'
    → IsFresh l
    → IsFresh l'
unfolding IsFresh
fill_page-IsFresh image s page l l' aligned h fresh =
    let (_, _, e) = fill_page-inv image s page l l' aligned h in subst IsFresh (sym e) fresh

-- A copy into a page is seen at its addresses alone.
pub peek-fill_page :
    (image : List ℕ) (s : Segment) (page : ℕ) (l l' : Loading) (x : ℕ)
    → page_of page ≡ page
    → fill_page image s page l ≡ done l'
    → IsFresh l
    → ((page ≡ page_of x) × (peek l' x ≡ (do b ← peek l x; some (overlay image s x b))))
      ⊎ ((page ≢ page_of x) × (peek l' x ≡ peek l x))
unfolding IsFresh
peek-fill_page image s page l l' x aligned h fresh =
    let (p, at, e) = fill_page-inv image s page l l' aligned h in
    let now : peek l' x ≡ read l.space (copy_segment_page image s page p l.memory) x =
      ap (λ k. peek k x) e
      ∙ peek_lem (record l { memory = copy_segment_page image s page p l.memory }) x in
    elim (ℕ_discrete page (page_of x)) [
      | yes same ↦ inl (
        same,
        now
            ∙ copied p same (at' p same at)
            ∙ ap (λ o. do b ← o; some (overlay image s x b)) (sym (peek_lem l x)),
      )
      | no other ↦ inr (
        other,
        now
            ∙ read_outside l.space l.memory (copy_segment_page image s page p l.memory) p x
                (copy_segment_page_other image s page p l.memory)
                (λ q e'.
                  frames_apart l.frames p q
                    (frame_at-All (IsTaken l.frames) l.space page p fresh.0 at)
                    (frame_at-All (IsTaken l.frames) l.space (page_of x) q fresh.0 e')
                    (frame_at-distinct l.space page (page_of x) p q fresh.1 other at e'))
            ∙ sym (peek_lem l x),
      )
    ]
  where
    at' :
        (p : ℕ)
        → page ≡ page_of x
        → frame_at l.space page ≡ some p
        → frame_at l.space (page_of x) ≡ some p
    at' p same at = subst (λ pg. frame_at l.space pg ≡ some p) same at

    copied :
        (p : ℕ)
        → page ≡ page_of x
        → frame_at l.space (page_of x) ≡ some p
        → read l.space (copy_segment_page image s page p l.memory) x
          ≡ (do b ← read l.space l.memory x; some (overlay image s x b))
    copied p same at =
        let x' : page + x % frame_size ≡ x = omega (arith, same) in
        let e = copy_segment_page_lem image s page p l.memory (x % frame_size) (omega arith) in
        rw at (
          ap (λ b. some b)
            (subst
              (λ y.
                copy_segment_page image s page p l.memory (p + x % frame_size)
                ≡ overlay image s y (l.memory (p + x % frame_size)))
              x' e))
