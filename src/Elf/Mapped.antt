-- ===== src/Elf/Mapped.antt =====
-- The mappings of a domain while an image is loaded: each has a frame of its own, which the frame
-- allocator does not give again.
use morion_os.Prelude.{
  ℕ, zero, suc, ◌+◌, ◌*◌, ◌%◌, ◌≤◌, ◌<◌, ◌≡◌, ◌≢◌, ◌⊎◌, inl, inr, refl, sym, ap, subst, ◌∙◌, Bool,
  true, false, ◌&&◌, Option, none, some, List, [], ◌∷◌, get_or, set, get_or-set_self, arith, dec_lt,
  ℕ_discrete, ltb, leb, ◌==◌, if◌then◌else◌, lt→ltb, le→leb, ==_iff, ==_ne, Bool-cases,
  Option-cases, ◌>>=◌, some_inj, case_option-inv, if-inv,
}
use morion_os.Frames.{Frames, frame_size, bitmap_test, bitmap_set, allocate_frame}
use morion_os.Frames.Counts.{allocate_frame-some}
use morion_os.Prelude.Outcomes.{panics, done, done_inj, >>=-eq-done}
use morion_os.Prelude.Elements.{All, All-map}
use morion_os.Elf.Loading.{
  Space, Mapping, Memory, Loading, UserPagePerm, page_of, resolve_user_page, map_user_page,
  clear_frame, map_zeroed, allocated,
}

-- the byte that a program reads at an address
abbrev pub peek : Loading → ℕ → Option ℕ
peek l x = do p ← resolve_user_page l.space x; some (l.memory p)

-- the frame that is mapped at the address of a page
abbrev pub frame_at : Space → ℕ → Option ℕ
frame_at [] page = none
frame_at (m ∷ ms) page =
    let rest = frame_at ms page in if m.page == page then some m.paddr else rest

pub resolve_user_page_lem :
    (space : Space) (x : ℕ)
    → resolve_user_page space x ≡ (do p ← frame_at space (page_of x); some (p + x % frame_size))
unfolding resolve_user_page
resolve_user_page_lem [] x = refl
resolve_user_page_lem (m ∷ ms) x = elim (Bool-cases (m.page == page_of x)) [
  | inl e ↦ rw e refl
  | inr e ↦ rw e (resolve_user_page_lem ms x)
]

-- A frame that the allocator counts as taken.
abbrev pub IsTaken : Frames → ℕ → Type 0
IsTaken f paddr = (i : ℕ) × (paddr ≡ i * frame_size) × (bitmap_test f.bitmap i ≡ true)

abbrev pub AreDistinct : Space → Type 0
AreDistinct [] = Unit
AreDistinct (m ∷ ms) = All (λ n. m.paddr ≢ n.paddr) ms × AreDistinct ms

unfoldable pub IsFresh : Loading → Type 0
IsFresh l = All (λ m. IsTaken l.frames m.paddr) l.space × AreDistinct l.space

pub frame_at-All {κ} :
    (P : ℕ → Type κ) (space : Space) (page paddr : ℕ)
    → All (λ m. P m.paddr) space
    → frame_at space page ≡ some paddr
    → P paddr
frame_at-All P [] page paddr _ h = absurd (cc)
frame_at-All P (m ∷ ms) page paddr (p, ps) h =
    elim (if-inv (m.page == page) (some m.paddr) (frame_at ms page) (some paddr) h) [
      | inl (_, e) ↦ subst P (some_inj e) p
      | inr (_, e) ↦ frame_at-All P ms page paddr ps e
    ]

set-true_keeps :
    (bits : List Bool) (i j : ℕ)
    → get_or bits j true ≡ true
    → get_or (set bits i true) j true ≡ true
set-true_keeps [] i j h = refl
set-true_keeps (b ∷ bits) zero zero h = refl
set-true_keeps (b ∷ bits) zero (suc j) h = h
set-true_keeps (b ∷ bits) (suc i) zero h = h
set-true_keeps (b ∷ bits) (suc i) (suc j) h = set-true_keeps bits i j h

-- What an allocation gives: a frame that no mapping has.
allocate_frame-fresh :
    (l : Loading) (frames : Frames) (p : ℕ)
    → allocate_frame l.frames ≡ some (frames, some p)
    → IsFresh l
    → IsTaken frames p × All (λ m. IsTaken frames m.paddr) l.space × All (λ m. p ≢ m.paddr) l.space
unfolding IsFresh bitmap_test bitmap_set
allocate_frame-fresh l frames p h (taken, _) =
    let (i, at, lt, clear, e) = allocate_frame-some l.frames frames p h in
    (
      (
        i,
        at,
        subst (λ b. get_or b i true ≡ true) (sym e)
            (get_or-set_self l.frames.bitmap i true true lt),
      ),
      All-map l.space
          (λ m (j, at', t). (
            j,
            at',
            subst (λ b. get_or b j true ≡ true) (sym e) (set-true_keeps l.frames.bitmap i j t),
          ))
          taken,
      All-map l.space (λ m (j, at', t). other m i j at at' clear t) taken,
    )
  where
    other :
        (m : Mapping) (i j : ℕ)
        → p ≡ i * frame_size
        → m.paddr ≡ j * frame_size
        → get_or l.frames.bitmap i true ≡ false
        → get_or l.frames.bitmap j true ≡ true
        → p ≢ m.paddr
    other m i j at at' clear t same =
        let e : i ≡ j = omega (arith, at, at', same) in
        differ (sym clear ∙ ap (λ n. get_or l.frames.bitmap n true) e ∙ t)
      where
        differ : false ≡ true → ⊥
        differ e = cc

-- A page that is mapped was not mapped before.
map_user_page-inv :
    (space space' : Space) (vaddr paddr : ℕ) (perm : UserPagePerm)
    → map_user_page space vaddr paddr perm ≡ done space'
    → (frame_at space (page_of vaddr) ≡ none)
      × (space' ≡ record { page = page_of vaddr; paddr = paddr; perm = perm } ∷ space)
unfolding map_user_page
map_user_page-inv space space' vaddr paddr perm h =
    elim (case_option-inv (resolve_user_page space vaddr) _ _ (done space') h) [
      | inl (e, same) ↦ (
        unmapped (frame_at space (page_of vaddr)) (sym (resolve_user_page_lem space vaddr) ∙ e),
        sym (done_inj same),
      )
      | inr (_, _, e) ↦ absurd (lost e)
    ]
  where
    unmapped : (o : Option ℕ) → (do p ← o; some (p + vaddr % frame_size)) ≡ none → o ≡ none
    unmapped none e = refl
    unmapped (some p) e = absurd (cc)

    lost : panics ≡ done space' → ⊥
    lost e = cc

allocated-inv :
    (o : Option (Frames × Option ℕ)) (frames : Frames) (p : ℕ)
    → allocated o ≡ done (frames, p)
    → o ≡ some (frames, some p)
allocated-inv none frames p h = absurd (cc)
allocated-inv (some (f, none)) frames p h = absurd (cc)
allocated-inv (some (f, some q)) frames p h = ap (λ r. some (r.0, some r.1)) (done_inj h)

pub map_zeroed-inv :
    (page : ℕ) (perm : UserPagePerm) (l l' : Loading)
    → map_zeroed page perm l ≡ done l'
    → (frames : Frames) × (p : ℕ) × (allocate_frame l.frames ≡ some (frames, some p))
      × (frame_at l.space (page_of page) ≡ none)
      × (l' ≡ record {
        frames = frames;
        space = record { page = page_of page; paddr = p; perm = perm } ∷ l.space;
        memory = clear_frame p l.memory;
      })
unfolding map_zeroed
map_zeroed-inv page perm l l' h =
    let ((frames, p), a, h1) = >>=-eq-done (allocated (allocate_frame l.frames)) _ l' h in
    let (space, b, e) = >>=-eq-done (map_user_page l.space page p perm) _ l' h1 in
    let (none_there, same) = map_user_page-inv l.space space page p perm b in
    (
      frames,
      p,
      allocated-inv (allocate_frame l.frames) frames p a,
      none_there,
      sym (done_inj e)
          ∙ ap (λ sp. record { frames = frames; space = sp; memory = clear_frame p l.memory }) same,
    )

pub map_zeroed-IsFresh :
    (page : ℕ) (perm : UserPagePerm) (l l' : Loading)
    → map_zeroed page perm l ≡ done l'
    → IsFresh l
    → IsFresh l'
unfolding IsFresh
map_zeroed-IsFresh page perm l l' h fresh =
    let (frames, p, a, _, e) = map_zeroed-inv page perm l l' h in
    let (taken, takens, new) = allocate_frame-fresh l frames p a fresh in
    subst IsFresh (sym e) ((taken, takens), (new, fresh.1))

pub peek_lem :
    (l : Loading) (x : ℕ)
    → peek l x ≡ (do p ← frame_at l.space (page_of x); some (l.memory (p + x % frame_size)))
peek_lem l x = rw (resolve_user_page_lem l.space x) (joined (frame_at l.space (page_of x)))
  where
    joined :
        (o : Option ℕ)
        → (do q ← (do p ← o; some (p + x % frame_size)); some (l.memory q))
          ≡ (do p ← o; some (l.memory (p + x % frame_size)))
    joined none = refl
    joined (some p) = refl

abbrev pub read : Space → Memory → ℕ → Option ℕ
read space memory x = do p ← frame_at space (page_of x); some (memory (p + x % frame_size))

-- A write into the frame `p` alone is not seen through another frame.
pub read_outside :
    (space : Space) (memory memory' : Memory) (p x : ℕ)
    → ((a : ℕ) → (a < p) ⊎ (p + frame_size ≤ a) → memory' a ≡ memory a)
    → ((q : ℕ) → frame_at space (page_of x) ≡ some q → (q + frame_size ≤ p) ⊎ (p + frame_size ≤ q))
    → read space memory' x ≡ read space memory x
read_outside space memory memory' p x same apart =
    elim (Option-cases (frame_at space (page_of x))) [
      | inl e ↦ rw e refl
      | inr (q, e) ↦
          let far : (q + x % frame_size < p) ⊎ (p + frame_size ≤ q + x % frame_size) =
            elim (apart q e) [ inl lo ↦ inl (omega arith) | inr hi ↦ inr (omega arith) ] in
          rw e (ap (λ b. some b) (same (q + x % frame_size) far))
    ]

pub frames_apart :
    (f : Frames) (p q : ℕ)
    → IsTaken f p
    → IsTaken f q
    → p ≢ q
    → (q + frame_size ≤ p) ⊎ (p + frame_size ≤ q)
frames_apart f p q (i, ei, _) (j, ej, _) other = elim (dec_lt i j) [
  | yes lt ↦ inr (omega (arith, ei, ej))
  | no ge ↦ elim (dec_lt j i) [
    | yes lt ↦ inl (omega (arith, ei, ej))
    | no le ↦ absurd (other (omega (arith, ei, ej, ge, le)))
  ]
]

read-zeroed :
    (space : Space) (memory : Memory) (m : Mapping) (x : ℕ)
    → m.page ≡ page_of x
    → read (m ∷ space) (clear_frame m.paddr memory) x ≡ some 0
unfolding clear_frame
read-zeroed space memory m x e =
    let here : (m.page == page_of x) ≡ true = (==_iff m.page (page_of x)).1 e in
    let low : leb m.paddr (m.paddr + x % frame_size) ≡ true = le→leb _ _ (omega arith) in
    let high : ltb (m.paddr + x % frame_size) (m.paddr + frame_size) ≡ true =
      lt→ltb _ _ (omega arith) in
    rw (here, low, high) refl

clear_frame_other :
    (p : ℕ) (memory : Memory) (a : ℕ)
    → (a < p) ⊎ (p + frame_size ≤ a)
    → clear_frame p memory a ≡ memory a
unfolding clear_frame
clear_frame_other p memory a h =
    let e : (leb p a && ltb a (p + frame_size)) ≡ false = ground (arith, h) in rw e refl

read_other :
    (space : Space) (memory : Memory) (m : Mapping) (f : Frames) (x : ℕ)
    → m.page ≢ page_of x
    → IsTaken f m.paddr
    → All (λ n. IsTaken f n.paddr) space
    → All (λ n. m.paddr ≢ n.paddr) space
    → read (m ∷ space) (clear_frame m.paddr memory) x ≡ read space memory x
read_other space memory m f x ne taken takens new = rw (==_ne m.page (page_of x) ne) (
    read_outside space memory (clear_frame m.paddr memory) m.paddr x
      (clear_frame_other m.paddr memory)
      (λ q e.
        frames_apart f m.paddr q taken (frame_at-All (IsTaken f) space (page_of x) q takens e)
          (frame_at-All (λ r. m.paddr ≢ r) space (page_of x) q new e)))

-- A new page is read as zeros, and the others as before.
pub peek-map_zeroed :
    (page : ℕ) (perm : UserPagePerm) (l l' : Loading) (x : ℕ)
    → map_zeroed page perm l ≡ done l'
    → IsFresh l
    → ((page_of page ≡ page_of x) × (peek l x ≡ none) × (peek l' x ≡ some 0))
      ⊎ ((page_of page ≢ page_of x) × (peek l' x ≡ peek l x))
unfolding IsFresh
peek-map_zeroed page perm l l' x h fresh =
    let (frames, p, a, unmapped, e) = map_zeroed-inv page perm l l' h in
    let (taken, takens, new) = allocate_frame-fresh l frames p a fresh in
    let m : Mapping = record { page = page_of page; paddr = p; perm = perm } in
    let now : peek l' x ≡ read (m ∷ l.space) (clear_frame p l.memory) x =
      ap (λ k. peek k x) e
      ∙ peek_lem (record { frames = frames; space = m ∷ l.space; memory = clear_frame p l.memory })
          x in
    elim (ℕ_discrete (page_of page) (page_of x)) [
      | yes same ↦ inl (
        same,
        peek_lem l x
            ∙ subst
                (λ pg. (do q ← frame_at l.space pg; some (l.memory (q + x % frame_size))) ≡ none)
                same (rw unmapped refl),
        now ∙ read-zeroed l.space l.memory m x same,
      )
      | no other ↦ inr (
        other,
        now ∙ read_other l.space l.memory m frames x other taken takens new ∙ sym (peek_lem l x),
      )
    ]
