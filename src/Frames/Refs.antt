-- ===== src/Frames/Refs.antt =====
-- The reference counts of shared frames: kernel/src/memory/frame_allocator.rs.
use morion_os.Prelude.{
  ℕ, ◌+◌, ◌-◌, ◌/◌, ◌≡◌, inl, inr, refl, sym, ap, ◌∙◌, Bool, true, false, ◌&&◌, ◌||◌, Option, none,
  some, List, [], ◌∷◌, length, arith, ℕ_discrete, ltb, ◌==◌, if◌then◌else◌, lt→ltb, ==_self, ==_ne,
  Bool-cases, ◌>>=◌,
}
use morion_os.Frames.{Frames, free_frame, is_pinned, bitmap_test, frame_size}

-- The first loop of `inc_ref`: a count is of type u8, and one more than 255 overflows, which is `none`;
-- the inner `none` says that no slot has the address.
unfoldable pub raise : List (ℕ × ℕ) → ℕ → Option (Option (List (ℕ × ℕ)))
raise [] addr = some none
raise ((a, n) ∷ slots) addr =
    let rest = raise slots addr in
    if (a == addr) && ltb 0 n
    then (if n == 255 then none else some (some ((a, n + 1) ∷ slots)))
    else (rest >>= λ r. some (r >>= λ l. some ((a, n) ∷ l)))

-- The second loop of `inc_ref`: the first slot with count 0; without one nothing is noted.
unfoldable pub insert : List (ℕ × ℕ) → ℕ → List (ℕ × ℕ)
insert [] addr = []
insert ((a, n) ∷ slots) addr = if n == 0 then (addr, 1) ∷ slots else (a, n) ∷ insert slots addr

-- `inc_ref`
unfoldable pub inc_ref : Frames → ℕ → Option Frames
unfolding raise insert
inc_ref f addr = do
  raised ← raise f.shared addr
  elim raised [
    | some shared ↦ some (record f { shared = shared })
    | none ↦ some (record f { shared = insert f.shared addr })
  ]

-- `dec_ref` on the table, with its answer.
unfoldable pub lower : List (ℕ × ℕ) → ℕ → List (ℕ × ℕ) × Bool
lower [] addr = ([], false)
lower ((a, n) ∷ slots) addr =
    let rest = lower slots addr in
    if (a == addr) && ltb 0 n
    then (if n == 1 then ((0, 0) ∷ slots, true) else ((a, n - 1) ∷ slots, false))
    else ((a, n) ∷ rest.0, rest.1)

-- `dec_ref`
unfoldable pub dec_ref : Frames → ℕ → Frames × Bool
unfolding lower
dec_ref f addr = let r = lower f.shared addr in (record f { shared = r.0 }, r.1)

unfoldable pub tracked : List (ℕ × ℕ) → ℕ → Bool
tracked [] addr = false
tracked ((a, n) ∷ slots) addr = ((a == addr) && ltb 0 n) || tracked slots addr

-- `is_tracked`
unfoldable pub is_tracked : Frames → ℕ → Bool
unfolding tracked
is_tracked f addr = tracked f.shared addr

-- `release_user_frame`
unfoldable pub release_user_frame : Frames → ℕ → Frames
unfolding is_tracked dec_ref free_frame
release_user_frame f addr =
    if is_tracked f addr
    then (let r = dec_ref f addr in if r.1 then free_frame r.0 addr else r.0)
    else free_frame f addr

-- The references to a frame: the count of the first slot that has its address.
unfoldable pub references : List (ℕ × ℕ) → ℕ → ℕ
references [] addr = 0
references ((a, n) ∷ slots) addr =
    let rest = references slots addr in if (a == addr) && ltb 0 n then n else rest

tracked-references : (s : List (ℕ × ℕ)) (addr : ℕ) → tracked s addr ≡ ltb 0 (references s addr)
unfolding tracked references
tracked-references [] addr = refl
tracked-references ((a, n) ∷ s) addr = let ih = tracked-references s addr in ground arith

-- A count goes down by one, and the answer is whether it was the last.
lower_lem : (s : List (ℕ × ℕ)) (addr : ℕ) → (lower s addr).1 ≡ (references s addr == 1)
unfolding lower references
lower_lem [] addr = refl
lower_lem ((a, n) ∷ s) addr = let ih = lower_lem s addr in ground arith

-- No address has two slots that count.
unfoldable pub Distinct : List (ℕ × ℕ) → Type 0
Distinct [] = Unit
Distinct ((a, n) ∷ s) = ((ltb 0 n && tracked s a) ≡ false) × Distinct s

and_false : (b : Bool) → (b && false) ≡ false
and_false true = refl
and_false false = refl

lower-head :
    (s : List (ℕ × ℕ)) (addr n : ℕ)
    → (ltb 0 n && tracked s addr) ≡ false
    → references (lower s addr).0 addr ≡ references s addr - 1
    → references (lower ((addr, n) ∷ s) addr).0 addr ≡ references ((addr, n) ∷ s) addr - 1
unfolding lower references
lower-head s addr n apart ih = elim (ℕ_discrete n 0) [
  | yes z ↦ rw (z, ==_self addr) (rw (==_self addr) ih)
  | no pos ↦ elim (ℕ_discrete n 1) [
    | yes one ↦
        let unseen : references s addr ≡ 0 =
          ground (arith, tracked-references s addr, apart, one) in
        rw (one, ==_self addr) (rw (and_false (0 == addr)) unseen)
    | no more ↦
        let test : ltb 0 n ≡ true = lt→ltb 0 n (omega arith) in
        let test' : ltb 0 (n - 1) ≡ true = lt→ltb 0 (n - 1) (omega arith) in
        rw (test, ==_self addr, ==_ne n 1 more) (rw (==_self addr, test') refl)
  ]
]

references-lower :
    (s : List (ℕ × ℕ)) (addr : ℕ)
    → Distinct s
    → references (lower s addr).0 addr ≡ references s addr - 1
unfolding lower references Distinct
references-lower [] addr v = refl
references-lower ((a, n) ∷ s) addr (apart, v) =
    let ih = references-lower s addr v in
    let seen = tracked-references s addr in
    elim (ℕ_discrete a addr) [
      | no n ↦ rw (==_ne a addr n) (rw (==_ne a addr n) ih)
      | yes e ↦ rw e (lower-head s addr n (rw (← e) apart) ih)
    ]

free_frame-shared :
    (f : Frames) (s : List (ℕ × ℕ)) (addr : ℕ)
    → ((free_frame (record f { shared = s }) addr).bitmap ≡ (free_frame f addr).bitmap)
      × ((free_frame (record f { shared = s }) addr).shared ≡ s)
unfolding free_frame is_pinned
free_frame-shared f s addr = elim (Bool-cases (is_pinned f addr)) [
  | inl p ↦ rw (p, free_frame) (refl, refl)
  | inr p ↦
      elim (Bool-cases
        (ltb (addr / frame_size) (length f.bitmap) && bitmap_test f.bitmap (addr / frame_size))) [
          | inl t ↦ rw (p, t, free_frame) (refl, refl)
          | inr t ↦ rw (p, t, free_frame) (refl, refl)
        ]
]

lower-untracked : (s : List (ℕ × ℕ)) (addr : ℕ) → tracked s addr ≡ false → references s addr ≡ 0
lower-untracked s addr h = ground (arith, tracked-references s addr)

-- A release counts down the references to the frame and frees it exactly when there was no other:
-- while more than one is noted the bitmap stays, with one or none it is as `free_frame` leaves it.
pub release_user_frame_lem :
    (f : Frames) (addr : ℕ)
    → Distinct f.shared
    → ((release_user_frame f addr).bitmap
        ≡ (if ltb 1 (references f.shared addr) then f.bitmap else (free_frame f addr).bitmap))
      × (references (release_user_frame f addr).shared addr ≡ references f.shared addr - 1)
unfolding release_user_frame is_tracked dec_ref
release_user_frame_lem f addr v =
    let last = lower_lem f.shared addr in
    let seen = tracked-references f.shared addr in
    let (bits, kept) = free_frame-shared f (lower f.shared addr).0 addr in
    let (_, same) = free_frame-shared f f.shared addr in
    let fewer = references-lower f.shared addr v in
    elim (ℕ_discrete (references f.shared addr) 0) [
      | yes z ↦
          let t : tracked f.shared addr ≡ false = ground (arith, z) in
          let u : ltb 1 (references f.shared addr) ≡ false = ground (arith, z) in
          rw (t, u) (refl, ap (λ l. references l addr) same ∙ (z ∙ ap (λ n. n - 1) (sym z)))
      | no pos ↦
          let t : tracked f.shared addr ≡ true = ground arith in
          elim (ℕ_discrete (references f.shared addr) 1) [
            | yes one ↦
                let u : ltb 1 (references f.shared addr) ≡ false = ground (arith, one) in
                let w : (lower f.shared addr).1 ≡ true = ground (arith, one) in
                rw (t, u, w) (bits, ap (λ l. references l addr) kept ∙ fewer)
            | no more ↦
                let u : ltb 1 (references f.shared addr) ≡ true =
                  lt→ltb 1 (references f.shared addr) (omega arith) in
                let w : (lower f.shared addr).1 ≡ false = ground arith in rw (t, u, w) (refl, fewer)
          ]
    ]
