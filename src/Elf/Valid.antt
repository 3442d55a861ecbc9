-- ===== src/Elf/Valid.antt =====
-- What `parse` of kernel/src/elf.rs guarantees of an image that it accepts.
use morion_os.Prelude.{
  ℕ, zero, suc, ◌+◌, ◌≤◌, ◌<◌, ◌≡◌, inl, inr, subst, true, false, not, ◌&&◌, ◌||◌, some, List, [],
  ◌∷◌, length, length-append, arith, ltb, leb, ◌==◌, ltb→lt, leb→le, >>=-eq-some, some_inj, if-inv,
  reject-inv, &&_inv, ||_inv, not_inv, ltb-false,
}
use morion_os.Prelude.Elements.{All, All-append}
use morion_os.Klog.UserBuffer.{is_user_address}
use morion_os.Elf.{
  Segment, Image, Header, user_space_base, user_space_end, max_segments, executable, writable,
  checked_add, in_user_space, magic, starts_with, checked_mul, u16le, u32le, u64le, phent_size,
  check_segment, check_header, parse_segment, parse_segments, parse_header, entry_in_segment, parse,
}

-- A segment that can be loaded from a file of `len` bytes: its part of the file lies in the file,
-- its memory is not empty and lies in the user space, and it is not both writable and executable.
unfoldable pub IsLoadable : ℕ → Segment → Type 0
IsLoadable len s =
    (s.offset + s.filesz ≤ len)
    × (s.filesz ≤ s.memsz)
    × (0 < s.memsz)
    × (user_space_base ≤ s.vaddr)
    × (s.vaddr + s.memsz ≤ user_space_end)
    × ((writable s && executable s) ≡ false)

-- An image that can be loaded and entered.
unfoldable pub IsWellFormed : ℕ → Image → Type 0
unfolding IsLoadable
IsWellFormed len image =
    All (IsLoadable len) image.segments
    × (0 < length image.segments)
    × (length image.segments ≤ max_segments)
    × ((s : Segment) × (s.vaddr ≤ image.entry)
        × (image.entry < s.vaddr + s.memsz)
        × IsLoadable len s)

checked_add-inv : (a b : ℕ) {c : ℕ} → checked_add a b ≡ some c → a + b ≡ c
checked_add-inv a b h = some_inj ((reject-inv _ _ h).1)

check_segment-IsLoadable :
    (bytes : List ℕ) (s : Segment) (here : List Segment)
    → check_segment bytes s ≡ some here
    → All (IsLoadable (length bytes)) here × (length here ≤ 1)
unfolding check_segment IsLoadable in_user_space
check_segment-IsLoadable bytes s here h =
    let (wx, h1) = reject-inv (writable s && executable s) _ h in
    let (file_end, a, h2) = >>=-eq-some (checked_add s.offset s.filesz) _ here h1 in
    let (inside, h3) = reject-inv (ltb (length bytes) file_end) _ h2 in
    let (fits, h4) = reject-inv (ltb s.memsz s.filesz) _ h3 in
    elim (if-inv (s.memsz == 0) _ _ (some here) h4) [
      | inl (_, e) ↦ subst Good (some_inj e) (_, omega arith)
      | inr (full, h5) ↦
          let (user, h6) = reject-inv (not (in_user_space s.vaddr)) _ h5 in
          let (mem_end, m, h7) = >>=-eq-some (checked_add s.vaddr s.memsz) _ here h6 in
          let (below, e) = reject-inv (ltb user_space_end mem_end) _ h7 in
          let start = (&&_inv (is_user_address s.vaddr) _ (not_inv _ user)).1 in
          subst Good (some_inj e) (
            (
              (
                omega (arith, checked_add-inv s.offset s.filesz a, ltb-false _ _ inside),
                ltb-false _ _ fits,
                positive full,
                leb→le _ _ start,
                omega (arith, checked_add-inv s.vaddr s.memsz m, ltb-false _ _ below),
                wx,
              ),
              _,
            ),
            omega arith,
          )
    ]
  where
    Good : List Segment → Type 0
    Good l = All (IsLoadable (length bytes)) l × (length l ≤ 1)

    positive : {n : ℕ} → (n == 0) ≡ false → 0 < n
    positive h = ground (arith, h)

parse_segment-IsLoadable :
    (bytes : List ℕ) (ph : ℕ) (here : List Segment)
    → parse_segment bytes ph ≡ some here
    → All (IsLoadable (length bytes)) here × (length here ≤ 1)
unfolding parse_segment
parse_segment-IsLoadable bytes ph here h =
    let (p_type, _, h1) = >>=-eq-some (u32le bytes ph) _ here h in
    elim (if-inv (not (p_type == 1)) _ _ (some here) h1) [
      | inl (_, e) ↦
          subst (λ l. All (IsLoadable (length bytes)) l × (length l ≤ 1)) (some_inj e)
            (_, omega arith)
      | inr (_, h2) ↦
          let (_, _, h3) = >>=-eq-some (u32le bytes (ph + 4)) _ here h2 in
          let (_, _, h4) = >>=-eq-some (u64le bytes (ph + 8)) _ here h3 in
          let (_, _, h5) = >>=-eq-some (u64le bytes (ph + 16)) _ here h4 in
          let (_, _, h6) = >>=-eq-some (u64le bytes (ph + 32)) _ here h5 in
          let (_, _, h7) = >>=-eq-some (u64le bytes (ph + 40)) _ here h6 in
          check_segment-IsLoadable bytes _ here h7
    ]

parse_segments-IsLoadable :
    (bytes : List ℕ) (n ph : ℕ) (segments : List Segment)
    → parse_segments bytes ph n ≡ some segments
    → All (IsLoadable (length bytes)) segments × (length segments ≤ n)
unfolding parse_segments
parse_segments-IsLoadable bytes zero ph segments h =
    subst (λ l. All (IsLoadable (length bytes)) l × (length l ≤ 0)) (some_inj h) (_, omega arith)
parse_segments-IsLoadable bytes (suc n) ph segments h =
    let (here, a, h1) = >>=-eq-some (parse_segment bytes ph) _ segments h in
    let (rest, b, e) = >>=-eq-some (parse_segments bytes (ph + phent_size) n) _ segments h1 in
    let (ok, one) = parse_segment-IsLoadable bytes ph here a in
    let (oks, few) = parse_segments-IsLoadable bytes n (ph + phent_size) rest b in
    subst (λ l. All (IsLoadable (length bytes)) l × (length l ≤ suc n)) (some_inj e)
      (
        All-append (IsLoadable (length bytes)) here rest ok oks,
        omega (arith, one, few, length-append here rest),
      )

entry_in_segment-inv :
    (len entry : ℕ) (ss : List Segment)
    → entry_in_segment entry ss ≡ true
    → All (IsLoadable len) ss
    → (s : Segment) × (s.vaddr ≤ entry) × (entry < s.vaddr + s.memsz) × IsLoadable len s
unfolding entry_in_segment
entry_in_segment-inv len entry [] h _ = absurd (cc)
entry_in_segment-inv len entry (s ∷ ss) h (ok, oks) =
    elim (||_inv (leb s.vaddr entry && ltb entry (s.vaddr + s.memsz)) _ h) [
      | inl e ↦ let (a, b) = &&_inv (leb s.vaddr entry) _ e in (s, leb→le _ _ a, ltb→lt _ _ b, ok)
      | inr e ↦ entry_in_segment-inv len entry ss e oks
    ]

check_header-bound :
    (bytes : List ℕ) (kind machine entry phoff phentsize phnum : ℕ) (header : Header)
    → check_header bytes kind machine entry phoff phentsize phnum ≡ some header
    → header.phnum ≤ max_segments
unfolding check_header
check_header-bound bytes kind machine entry phoff phentsize phnum header h =
    let (_, h1) = reject-inv (not (kind == 2)) _ h in
    let (_, h2) = reject-inv (not (machine == 62)) _ h1 in
    let (_, h3) = reject-inv (not (phentsize == phent_size)) _ h2 in
    let (few, h4) = reject-inv (phnum == 0 || ltb max_segments phnum) _ h3 in
    let (size, _, h5) = >>=-eq-some (checked_mul phentsize phnum) _ header h4 in
    let (ph_end, _, h6) = >>=-eq-some (checked_add phoff size) _ header h5 in
    let (_, h7) = reject-inv (ltb (length bytes) ph_end) _ h6 in
    let (_, e) = reject-inv (not (in_user_space entry)) _ h7 in
    subst (λ r. r.phnum ≤ max_segments) (some_inj e) (bound few)
  where
    bound : {n : ℕ} → (n == 0 || ltb max_segments n) ≡ false → n ≤ max_segments
    bound h = ground (arith, h)

parse_header-bound :
    (bytes : List ℕ) (header : Header)
    → parse_header bytes ≡ some header
    → header.phnum ≤ max_segments
unfolding parse_header
parse_header-bound bytes header h =
    let (_, h1) = reject-inv (ltb (length bytes) 64) _ h in
    let (_, h2) = reject-inv (not (starts_with bytes magic)) _ h1 in
    let (kind, _, h3) = >>=-eq-some (u16le bytes 16) _ header h2 in
    let (machine, _, h4) = >>=-eq-some (u16le bytes 18) _ header h3 in
    let (entry, _, h5) = >>=-eq-some (u64le bytes 24) _ header h4 in
    let (phoff, _, h6) = >>=-eq-some (u64le bytes 32) _ header h5 in
    let (phentsize, _, h7) = >>=-eq-some (u16le bytes 54) _ header h6 in
    let (phnum, _, h8) = >>=-eq-some (u16le bytes 56) _ header h7 in
    check_header-bound bytes kind machine entry phoff phentsize phnum header h8

-- Whatever the bytes of a file are, an image that `parse` accepts has 1 to 32 segments. Each has its
-- contents inside the file, memory for them inside the user space, and is not both writable and
-- executable, and the entry lies in one of them.
pub parse-IsWellFormed :
    (bytes : List ℕ) (image : Image) → parse bytes ≡ some image → IsWellFormed (length bytes) image
unfolding parse IsWellFormed
parse-IsWellFormed bytes image h =
    let (header, a, h1) = >>=-eq-some (parse_header bytes) _ image h in
    let (segments, b, h2) =
      >>=-eq-some (parse_segments bytes header.phoff header.phnum) _ image h1 in
    let (some_there, h3) = reject-inv (length segments == 0) _ h2 in
    let (entered, e) = reject-inv (not (entry_in_segment header.entry segments)) _ h3 in
    let (oks, few) = parse_segments-IsLoadable bytes header.phnum header.phoff segments b in
    let least : 0 < length segments = ground (arith, some_there) in
    let bound = parse_header-bound bytes header a in
    subst (IsWellFormed (length bytes)) (some_inj e) (
      oks,
      least,
      omega (arith, few, bound),
      entry_in_segment-inv (length bytes) header.entry segments (not_inv _ entered) oks,
    )
