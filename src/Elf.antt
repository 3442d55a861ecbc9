-- ===== src/Elf.antt =====
-- The parser of executables: kernel/src/elf.rs. The bytes of the file are a list of numbers; an
-- image keeps the segments that are in use, so its count is the length of the list.
pub mod Valid
pub mod Loading
pub mod Pages
pub mod Mapped
pub mod Filled
pub mod Contents
pub mod Built
pub mod Rights
mod Tests
use morion_os.Prelude.{
  ℕ, zero, suc, ◌+◌, ◌-◌, ◌*◌, ◌/◌, ◌%◌, ◌^◌, ◌≤◌, ◌<◌, ◌≡◌, ◌≢◌, ◌↔◌, ◌⊎◌, inl, inr, refl, sym, ap,
  ◌∙◌, Bool, true, false, not, ◌&&◌, ◌||◌, Option, none, some, List, [], ◌∷◌, ◌++◌, map, length,
  get_elem?, get_or, set, take, drop, replicate, length-append, length-set, get_elem?-set_self,
  get_elem?-set_ne, get_or-set_self, get_or-set_ne, get_elem?_lt, set-set, set_same, get_elem?-none,
  get_elem?-eq-get_or, length-replicate, length-take, drop_all, take_nil, get_or-append_left,
  get_or-append_end, drop-split, set_padded, set_padded_self, set_padded_other, set_padded_ne,
  length-set_padded, get_or-set_padded, suc_test, arith, ite, if_pos, if_neg, dec_lt, dec_le,
  ℕ_discrete, ltb, leb, ◌==◌, if◌then◌else◌, ltb→lt, lt→ltb, leb→le, le→leb, ==_iff, ==_self, ==_ne,
  Bool-cases, Option-cases, ◌>>=◌, >>=-eq-some, some_inj, if-inv, u64_max, bit_or-disjoint, min,
  max,
}
use morion_os.Klog.UserBuffer.{is_user_address}

-- `USER_SPACE_BASE` and `USER_SPACE_END`
abbrev pub user_space_base : ℕ
user_space_base = 2 ^ 39

abbrev pub user_space_end : ℕ
user_space_end = user_space_base + 2 ^ 39

abbrev pub max_segments : ℕ
max_segments = 32

abbrev pub phent_size : ℕ
phent_size = 56

pub record Segment : Type 0 where
  pub offset : ℕ
  pub vaddr : ℕ
  pub filesz : ℕ
  pub memsz : ℕ
  pub flags : ℕ

pub record Image : Type 0 where
  pub entry : ℕ
  pub segments : List Segment

-- `flags & PF_X != 0` and `flags & PF_W != 0`
abbrev pub executable : Segment → Bool
executable s = s.flags % 2 == 1

abbrev pub writable : Segment → Bool
writable s = s.flags / 2 % 2 == 1

-- `bytes.get(off..off + n)`
unfoldable pub slice : List ℕ → ℕ → ℕ → Option (List ℕ)
slice bytes off n = if ltb (length bytes) (off + n) then none else some (take n (drop off bytes))

-- the value of bytes that stand lowest first
unfoldable pub from_le_bytes : List ℕ → ℕ
from_le_bytes [] = 0
from_le_bytes (b ∷ bs) = b + 256 * from_le_bytes bs

unfoldable pub u16le : List ℕ → ℕ → Option ℕ
u16le bytes off = do s ← slice bytes off 2; some (from_le_bytes s)

unfoldable pub u32le : List ℕ → ℕ → Option ℕ
u32le bytes off = do s ← slice bytes off 4; some (from_le_bytes s)

unfoldable pub u64le : List ℕ → ℕ → Option ℕ
u64le bytes off = do s ← slice bytes off 8; some (from_le_bytes s)

abbrev pub checked_add : ℕ → ℕ → Option ℕ
checked_add a b = if ltb u64_max (a + b) then none else some (a + b)

abbrev pub checked_mul : ℕ → ℕ → Option ℕ
checked_mul a b = if ltb u64_max (a * b) then none else some (a * b)

unfoldable pub in_user_space : ℕ → Bool
in_user_space vaddr = is_user_address vaddr && leb user_space_base vaddr

pub record Header : Type 0 where
  pub entry : ℕ
  pub phoff : ℕ
  pub phnum : ℕ

-- the magic number, the class, the byte order and the version
abbrev pub magic : List ℕ
magic = 0x7f ∷ b'E' ∷ b'L' ∷ b'F' ∷ 2 ∷ 1 ∷ 1 ∷ []

-- the fields `bytes[..4]`, `bytes[4]`, `bytes[5]` and `bytes[6]` against those values
unfoldable pub starts_with : List ℕ → List ℕ → Bool
starts_with bytes [] = true
starts_with [] (m ∷ ms) = false
starts_with (b ∷ bs) (m ∷ ms) = b == m && starts_with bs ms

-- the checks on the values of the header's fields
unfoldable pub check_header : List ℕ → ℕ → ℕ → ℕ → ℕ → ℕ → ℕ → Option Header
check_header bytes kind machine entry phoff phentsize phnum =
    if not (kind == 2)
    then none
    else if not (machine == 62)
    then none
    else if not (phentsize == phent_size)
    then none
    else if phnum == 0 || ltb max_segments phnum
    then none
    else do
      size ← checked_mul phentsize phnum
      ph_end ← checked_add phoff size
      if ltb (length bytes) ph_end
          then none
          else if not (in_user_space entry)
          then none
          else some (record { entry = entry; phoff = phoff; phnum = phnum })

-- all that comes before the loop over the program headers
unfoldable pub parse_header : List ℕ → Option Header
parse_header bytes =
    if ltb (length bytes) 64 then none else if not (starts_with bytes magic) then none else do
      kind ← u16le bytes 16
      machine ← u16le bytes 18
      entry ← u64le bytes 24
      phoff ← u64le bytes 32
      phentsize ← u16le bytes 54
      phnum ← u16le bytes 56
      check_header bytes kind machine entry phoff phentsize phnum

-- A program header of type PT_LOAD by its fields: rejected, skipped when it is empty, or a segment.
unfoldable pub check_segment : List ℕ → Segment → Option (List Segment)
check_segment bytes s = if writable s && executable s then none else do
  file_end ← checked_add s.offset s.filesz
  if ltb (length bytes) file_end
      then none
      else if ltb s.memsz s.filesz
      then none
      else if s.memsz == 0
      then some []
      else if not (in_user_space s.vaddr)
      then none
      else do
        mem_end ← checked_add s.vaddr s.memsz
        if ltb user_space_end mem_end then none else some (s ∷ [])

-- one round of the loop: the segments that it adds
unfoldable pub parse_segment : List ℕ → ℕ → Option (List Segment)
parse_segment bytes ph = do
  p_type ← u32le bytes ph
  if not (p_type == 1) then some [] else do
    p_flags ← u32le bytes (ph + 4)
    p_offset ← u64le bytes (ph + 8)
    p_vaddr ← u64le bytes (ph + 16)
    p_filesz ← u64le bytes (ph + 32)
    p_memsz ← u64le bytes (ph + 40)
    check_segment bytes (record {
      offset = p_offset;
      vaddr = p_vaddr;
      filesz = p_filesz;
      memsz = p_memsz;
      flags = p_flags;
    })

-- `for i in 0..phnum`, from the header at `ph` on
unfoldable pub parse_segments : List ℕ → ℕ → ℕ → Option (List Segment)
parse_segments bytes ph zero = some []
parse_segments bytes ph (suc n) = do
  here ← parse_segment bytes ph
  rest ← parse_segments bytes (ph + phent_size) n
  some (here ++ rest)

-- `entry >= s.vaddr && entry < s.vaddr + s.memsz` for a segment
unfoldable pub entry_in_segment : ℕ → List Segment → Bool
entry_in_segment entry [] = false
entry_in_segment entry (s ∷ ss) =
    (leb s.vaddr entry && ltb entry (s.vaddr + s.memsz)) || entry_in_segment entry ss

unfoldable pub parse : List ℕ → Option Image
parse bytes = do
  header ← parse_header bytes
  segments ← parse_segments bytes header.phoff header.phnum
  if length segments == 0
      then none
      else if not (entry_in_segment header.entry segments)
      then none
      else some (record { entry = header.entry; segments = segments })
