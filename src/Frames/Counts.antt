-- ===== src/Frames/Counts.antt =====
-- The bitmap and the count of free frames: kernel/src/memory/frame_allocator.rs.
use morion_os.Prelude.{
  ℕ, zero, suc, ◌+◌, ◌-◌, ◌*◌, ◌/◌, ◌<◌, ◌≡◌, ◌⊎◌, inl, inr, refl, sym, ap, subst, ◌∙◌, Bool, true,
  false, ◌&&◌, Option, none, some, List, [], ◌∷◌, length, get_or, set, take, length-set,
  get_or-set_self, arith, ltb, ◌==◌, if◌then◌else◌, ltb→lt, lt→ltb, ==_ne, Bool-cases, some_inj,
  reject-inv,
}
use morion_os.Frames.{
  Frames, frame_size, bitmap_test, bitmap_set, bitmap_clear, is_pinned, in_ranges, first_clear,
  allocate_frame, free_frame,
}

-- How many bits are clear.
unfoldable pub clear_count : List Bool → ℕ
clear_count [] = 0
clear_count (b ∷ bs) = (if b then 0 else 1) + clear_count bs

first_clear_lem :
    (bits : List Bool) (from : ℕ)
    → ((first_clear bits from ≡ none) × (clear_count bits ≡ 0))
      ⊎ ((i : ℕ) × (first_clear bits from ≡ some (from + i))
          × (get_or bits i true ≡ false)
          × (clear_count (take i bits) ≡ 0)
          × (i < length bits))
unfolding first_clear clear_count
first_clear_lem [] from = inl (refl, refl)
first_clear_lem (false ∷ bits) from =
    inr (0, ap (λ n. some n) (omega arith), refl, refl, omega arith)
first_clear_lem (true ∷ bits) from = elim (first_clear_lem bits (from + 1)) [
  | inl (e, n) ↦ inl (e, omega arith)
  | inr (i, e, h, n, lt) ↦
      inr (suc i, e ∙ ap (λ n. some n) (omega arith), h, omega arith, omega arith)
]

clear_count-set :
    (bits : List Bool) (i : ℕ)
    → get_or bits i true ≡ false
    → clear_count bits ≡ clear_count (set bits i true) + 1
unfolding clear_count
clear_count-set [] i h = absurd (cc)
clear_count-set (false ∷ bits) zero h = omega arith
clear_count-set (true ∷ bits) zero h = absurd (cc)
clear_count-set (b ∷ bits) (suc i) h = omega (arith, clear_count-set bits i h)

set_back :
    (bits : List Bool) (i : ℕ) → get_or bits i true ≡ false → set (set bits i true) i false ≡ bits
set_back [] i h = refl
set_back (false ∷ bits) zero h = refl
set_back (true ∷ bits) zero h = absurd (cc)
set_back (b ∷ bits) (suc i) h = ap (λ l. b ∷ l) (set_back bits i h)

-- A frame is taken.
abbrev takes : Frames → ℕ → Frames
takes f i = record f { bitmap = set f.bitmap i true; free_frames = f.free_frames - 1 }

freed_again :
    (f : Frames) (i : ℕ)
    → i < length f.bitmap
    → get_or f.bitmap i true ≡ false
    → 0 < f.free_frames
    → free_frame (takes f i) (i * frame_size)
      ≡ (if is_pinned f (i * frame_size) then takes f i else f)
unfolding is_pinned bitmap_test bitmap_clear free_frame
freed_again f i lt h pos = elim (Bool-cases (in_ranges f.pinned (i * frame_size))) [
  | inl p ↦ rw (p, free_frame) refl
  | inr p ↦
      let index : i * frame_size / frame_size ≡ i = omega arith in
      let inside : ltb i (length (set f.bitmap i true)) ≡ true =
        lt→ltb i (length (set f.bitmap i true)) (omega (arith, length-set f.bitmap i true, lt)) in
      let count : f.free_frames - 1 + 1 ≡ f.free_frames = omega arith in
      rw
        (
          p,
          free_frame,
          index,
          inside,
          get_or-set_self f.bitmap i true true lt,
          set_back f.bitmap i h,
          count,
        )
        refl
]

-- An allocation fails exactly when no frame is free, and then changes nothing; otherwise it gives the
-- lowest free frame, which is taken afterwards, the count of free frames stays right, and freeing the
-- frame again, unless it is pinned, undoes the allocation.
pub allocate_frame_lem :
    (f : Frames)
    → f.free_frames ≡ clear_count f.bitmap
    → ((allocate_frame f ≡ some (f, none)) × (clear_count f.bitmap ≡ 0))
      ⊎ ((i : ℕ) × (f' : Frames) × (allocate_frame f ≡ some (f', some (i * frame_size)))
          × (i < length f.bitmap)
          × (bitmap_test f.bitmap i ≡ false)
          × (clear_count (take i f.bitmap) ≡ 0)
          × (bitmap_test f'.bitmap i ≡ true)
          × (f'.free_frames ≡ clear_count f'.bitmap)
          × (free_frame f' (i * frame_size) ≡ (if is_pinned f (i * frame_size) then f' else f)))
unfolding allocate_frame bitmap_test bitmap_set
allocate_frame_lem f counted = elim (first_clear_lem f.bitmap 0) [
  | inl (e, n) ↦ inl (rw (e, allocate_frame) refl, n)
  | inr (i, e, h, n, lt) ↦
      let fewer = clear_count-set f.bitmap i h in
      let some_left : (f.free_frames == 0) ≡ false = ==_ne f.free_frames 0 (omega arith) in
      let at : first_clear f.bitmap 0 ≡ some i = e ∙ ap (λ x. some x) (omega arith) in
      inr (
        i,
        takes f i,
        rw (at, some_left, allocate_frame) refl,
        lt,
        h,
        n,
        get_or-set_self f.bitmap i true true lt,
        omega arith,
        freed_again f i lt h (omega arith),
      )
]

clear_count-cleared :
    (bits : List Bool) (i : ℕ)
    → i < length bits
    → get_or bits i true ≡ true
    → clear_count (set bits i false) ≡ clear_count bits + 1
unfolding clear_count
clear_count-cleared [] i lt h = absurd (omega arith)
clear_count-cleared (true ∷ bits) zero lt h = omega arith
clear_count-cleared (false ∷ bits) zero lt h = absurd (cc)
clear_count-cleared (b ∷ bits) (suc i) lt h =
    omega (arith, clear_count-cleared bits i (omega arith) h)

both : (a b : Bool) → (a && b) ≡ true → (a ≡ true) × (b ≡ true)
both a b h = ground (arith, h)

-- Freeing keeps the count of free frames right, and a frame of a pinned range is not freed.
pub free_frame_lem :
    (f : Frames) (addr : ℕ)
    → f.free_frames ≡ clear_count f.bitmap
    → ((free_frame f addr).free_frames ≡ clear_count (free_frame f addr).bitmap)
      × ((if is_pinned f addr then (free_frame f addr).bitmap else f.bitmap) ≡ f.bitmap)
unfolding bitmap_clear bitmap_test free_frame
free_frame_lem f addr counted = elim (Bool-cases (is_pinned f addr)) [
  | inl p ↦ rw (p, free_frame) (counted, refl)
  | inr p ↦
      elim (Bool-cases
        (ltb (addr / frame_size) (length f.bitmap) && get_or f.bitmap (addr / frame_size) true)) [
          | inr t ↦ rw (p, t, free_frame) (counted, refl)
          | inl t ↦
              let (lt, h) =
                both (ltb (addr / frame_size) (length f.bitmap))
                  (get_or f.bitmap (addr / frame_size) true) t in
              let more =
                clear_count-cleared f.bitmap (addr / frame_size)
                  (ltb→lt (addr / frame_size) (length f.bitmap) lt) h in
              rw (p, t, free_frame) (ap (λ n. n + 1) counted ∙ sym more, refl)
        ]
]

-- The frame of an allocation was free, and its bit alone is set.
pub allocate_frame-some :
    (f f' : Frames) (p : ℕ)
    → allocate_frame f ≡ some (f', some p)
    → (i : ℕ) × (p ≡ i * frame_size)
      × (i < length f.bitmap)
      × (bitmap_test f.bitmap i ≡ false)
      × (f'.bitmap ≡ bitmap_set f.bitmap i)
unfolding allocate_frame bitmap_test bitmap_set
allocate_frame-some f f' p h = elim (first_clear_lem f.bitmap 0) [
  | inl (e, _) ↦ absurd (omega (arith, lost (subst Allocates e h)))
  | inr (i, e, clear, _, lt) ↦
      let at : first_clear f.bitmap 0 ≡ some i = e ∙ ap (λ x. some x) (omega arith) in
      let (_, got) = reject-inv (f.free_frames == 0) _ (subst Allocates at h) in
      let same = some_inj got in
      (i, sym (some_inj (ap (λ r. r.1) same)), lt, clear, sym (ap (λ r. r.0.bitmap) same))
]
  where
    Allocates : Option ℕ → Type 0
    Allocates o =
        let r : Option (Frames × Option ℕ) = elim o [
          | none ↦ some (f, none)
          | some idx ↦
              if f.free_frames == 0
              then none
              else some (
                record f { bitmap = bitmap_set f.bitmap idx; free_frames = f.free_frames - 1 },
                some (idx * frame_size),
              )
        ] in
        r ≡ some (f', some p)

    lost : ◌≡◌ {A = Option (Frames × Option ℕ)} (some (f, none)) (some (f', some p)) → 0 < 0
    lost e = (differ (ap (λ r. r.1) (some_inj e)))
      where
        differ : {x : ℕ} → none ≡ some x → 0 < 0
        differ e = absurd (cc)
