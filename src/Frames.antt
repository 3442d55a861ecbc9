-- ===== src/Frames.antt =====
-- The frame allocator: kernel/src/memory/frame_allocator.rs. The bitmap is a list of bits, one for each
-- frame, where the source packs eight into a byte; a set bit is a frame that is taken. The number of
-- frames is the length of the list. `init`, which reads the memory map and the page tables of the
-- loader, is not modelled.
pub mod Refs
pub mod Counts
mod Tests
use morion_os.Prelude.{
  ℕ, zero, suc, ◌+◌, ◌-◌, ◌*◌, ◌/◌, ◌%◌, ◌^◌, ◌≤◌, ◌<◌, ◌≡◌, ◌≢◌, ◌↔◌, ◌⊎◌, inl, inr, refl, sym, ap,
  ◌∙◌, Bool, true, false, not, ◌&&◌, ◌||◌, Option, none, some, List, [], ◌∷◌, ◌++◌, map, length,
  get_elem?, get_or, set, take, drop, replicate, length-append, length-set, get_elem?-set_self,
  get_elem?-set_ne, get_or-set_self, get_or-set_ne, get_elem?_lt, set-set, set_same, get_elem?-none,
  get_elem?-eq-get_or, length-replicate, length-take, drop_all, take_nil, get_or-append_left,
  get_or-append_end, drop-split, set_padded, set_padded_self, set_padded_other, set_padded_ne,
  length-set_padded, get_or-set_padded, suc_test, arith, ite, if_pos, if_neg, dec_lt, dec_le,
  ℕ_discrete, ltb, leb, ◌==◌, if◌then◌else◌, ltb→lt, lt→ltb, leb→le, le→leb, ==_iff, ==_self, ==_ne,
  Bool-cases, Option-cases, ◌>>=◌, >>=-eq-some, some_inj, if-inv, u64_max, bit_or-disjoint, min,
  max,
}

-- `FRAME_SIZE`
abbrev pub frame_size : ℕ
frame_size = 4096

-- `MAX_PINNED_RANGES`
abbrev pub max_pinned_ranges : ℕ
max_pinned_ranges = 4

-- `MAX_SHARED_FRAMES`
abbrev pub max_shared_frames : ℕ
max_shared_frames = 1024

-- `FRAME_BITMAP`, `FREE_FRAMES`, `PINNED_RANGES` up to `PINNED_LEN`, and `SHARED_FRAMES`.
pub record Frames : Type 0 where
  pub bitmap : List Bool
  pub free_frames : ℕ
  pub pinned : List (ℕ × ℕ)
  pub shared : List (ℕ × ℕ)

-- `bitmap_test`
unfoldable pub bitmap_test : List Bool → ℕ → Bool
bitmap_test bits idx = get_or bits idx true

-- `bitmap_set`
unfoldable pub bitmap_set : List Bool → ℕ → List Bool
bitmap_set bits idx = set bits idx true

-- `bitmap_clear`
unfoldable pub bitmap_clear : List Bool → ℕ → List Bool
bitmap_clear bits idx = set bits idx false

-- `pin_range`: the range is widened to whole frames; one too many is dropped.
unfoldable pub pin_range : Frames → ℕ → ℕ → Frames
pin_range f start end =
    if ltb (length f.pinned) max_pinned_ranges
    then record f {
      pinned =
          f.pinned
          ++ (start / frame_size * frame_size, (end + frame_size - 1) / frame_size * frame_size)
            ∷ [];
    }
    else f

unfoldable pub in_ranges : List (ℕ × ℕ) → ℕ → Bool
in_ranges [] addr = false
in_ranges ((s, e) ∷ rs) addr = (leb s addr && ltb addr e) || in_ranges rs addr

-- `is_pinned`
unfoldable pub is_pinned : Frames → ℕ → Bool
unfolding in_ranges
is_pinned f addr = in_ranges f.pinned addr

-- `reserve_frame`
unfoldable pub reserve_frame : Frames → ℕ → Frames
unfolding bitmap_test bitmap_set
reserve_frame f addr =
    let idx = addr / frame_size in
    if ltb idx (length f.bitmap) && not (bitmap_test f.bitmap idx)
    then record f { bitmap = bitmap_set f.bitmap idx; free_frames = f.free_frames - 1 }
    else f

-- The loop of `allocate_frame`: the first clear bit, from an index on.
unfoldable pub first_clear : List Bool → ℕ → Option ℕ
first_clear [] idx = none
first_clear (b ∷ bs) idx = let rest = first_clear bs (idx + 1) in if not b then some idx else rest

-- `allocate_frame`; `FREE_FRAMES -= 1` at 0 overflows, which is `none`.
unfoldable pub allocate_frame : Frames → Option (Frames × Option ℕ)
unfolding first_clear bitmap_set
allocate_frame f = elim (first_clear f.bitmap 0) [
  | none ↦ some (f, none)
  | some idx ↦
      if f.free_frames == 0
      then none
      else some (
        record f { bitmap = bitmap_set f.bitmap idx; free_frames = f.free_frames - 1 },
        some (idx * frame_size),
      )
]

-- The loop of `allocate_frames`, with the length of the run so far and its start: the start of the first
-- run of `count` clear bits.
unfoldable pub find_run : List Bool → ℕ → ℕ → ℕ → ℕ → Option ℕ
find_run [] idx run run_start count = none
find_run (b ∷ bs) idx run run_start count =
    let start = if run == 0 then idx else run_start in
    let longer = find_run bs (idx + 1) (run + 1) start count in
    let again = find_run bs (idx + 1) 0 run_start count in
    if not b then (if run + 1 == count then some start else longer) else again

-- `for i in run_start..run_start + count { bitmap_set(i); }`
unfoldable pub set_run : List Bool → ℕ → ℕ → List Bool
unfolding bitmap_set
set_run bits start zero = bits
set_run bits start (suc n) = set_run (bitmap_set bits start) (start + 1) n

-- `allocate_frames`
unfoldable pub allocate_frames : Frames → ℕ → Option (Frames × Option ℕ)
unfolding find_run set_run
allocate_frames f count =
    if count == 0 then some (f, none) else (elim (find_run f.bitmap 0 0 0 count) [
      | none ↦ some (f, none)
      | some start ↦
          if ltb f.free_frames count
          then none
          else some (
            record f { bitmap = set_run f.bitmap start count; free_frames = f.free_frames - count },
            some (start * frame_size),
          )
    ])

-- `free_frame`
unfoldable pub free_frame : Frames → ℕ → Frames
unfolding is_pinned bitmap_test bitmap_clear
free_frame f addr =
    let idx = addr / frame_size in
    if is_pinned f addr
    then f
    else if ltb idx (length f.bitmap) && bitmap_test f.bitmap idx
    then record f { bitmap = bitmap_clear f.bitmap idx; free_frames = f.free_frames + 1 }
    else f
