-- ===== src/Elf/Tests.antt =====
-- Runs of the parser and of the loading on concrete files, with the cases in which the theorems on
-- them apply.
use morion_os.Prelude.{
  ℕ, zero, suc, ◌+◌, ◌/◌, ◌%◌, ◌^◌, ◌≤◌, ◌<◌, ◌≡◌, ◌⊎◌, refl, false, none, some, List, [], ◌∷◌,
  ◌++◌, length, replicate, arith,
}
use morion_os.Prelude.Outcomes.{Outcome, panics, refused, done}
use morion_os.Klog.UserBuffer.{is_user_address}
use morion_os.Frames.{Frames, frame_size}
use morion_os.Elf.{Segment, Image, parse, writable, executable}
use morion_os.Prelude.Elements.{All}
use morion_os.Elf.Valid.{IsWellFormed, IsLoadable, parse-IsWellFormed}
use morion_os.Elf.Loading.{
  UserPagePerm, pages, Loading, map_image, page_perm, copy_segment_page, read_write, within_budget,
}
use morion_os.Elf.Mapped.{peek}
use morion_os.Elf.Built.{map_image_lem, map_image-off_stack}
use morion_os.Elf.Rights.{HasRights, map_image-HasRights}

abbrev word : ℕ → ℕ → List ℕ
word zero v = []
word (suc n) v = v % 256 ∷ word n (v / 256)

-- A file with one program header behind the ELF header: flags, offset, address, sizes.
abbrev header : ℕ → List ℕ
header entry =
    0x7f ∷ b'E' ∷ b'L' ∷ b'F' ∷ 2 ∷ 1 ∷ 1 ∷ replicate 9 0
    ++ word 2 2
    ++ word 2 62
    ++ word 4 1
    ++ word 8 entry
    ++ word 8 64
    ++ word 8 0
    ++ word 4 0
    ++ word 2 64
    ++ word 2 56
    ++ word 2 1
    ++ word 6 0

abbrev program_header : ℕ → ℕ → ℕ → ℕ → ℕ → List ℕ
program_header flags offset vaddr filesz memsz =
    word 4 1
    ++ word 4 flags
    ++ word 8 offset
    ++ word 8 vaddr
    ++ word 8 vaddr
    ++ word 8 filesz
    ++ word 8 memsz
    ++ word 8 4096

abbrev base : ℕ
base = 2 ^ 39

abbrev sample : List ℕ
sample = header (base + 4096) ++ program_header 5 120 (base + 4096) 4 6 ++ 1 ∷ 2 ∷ 3 ∷ 4 ∷ []

abbrev text : Segment
text = record { offset = 120; vaddr = base + 4096; filesz = 4; memsz = 6; flags = 5 }

abbrev sample_image : Image
sample_image = record { entry = base + 4096; segments = text ∷ [] }

parse-sample : parse sample ≡ some sample_image
unfolding parse morion_os.Elf.parse_header morion_os.Elf.starts_with morion_os.Elf.u16le
    morion_os.Elf.slice morion_os.Elf.u64le morion_os.Elf.check_header morion_os.Elf.from_le_bytes
    morion_os.Elf.in_user_space is_user_address morion_os.Elf.parse_segments
    morion_os.Elf.parse_segment morion_os.Elf.u32le morion_os.Elf.check_segment
    morion_os.Elf.entry_in_segment
parse-sample = refl

parse-IsWellFormed_example : IsWellFormed (length sample) sample_image
parse-IsWellFormed_example = parse-IsWellFormed sample sample_image parse-sample

-- A writable and executable segment, an entry outside of the segments, a file that ends too early.
parse_writable_executable :
    parse (header (base + 4096) ++ program_header 7 120 (base + 4096) 4 6 ++ 1 ∷ 2 ∷ 3 ∷ 4 ∷ [])
    ≡ none
unfolding parse morion_os.Elf.parse_header morion_os.Elf.starts_with morion_os.Elf.u16le
    morion_os.Elf.slice morion_os.Elf.u64le morion_os.Elf.check_header morion_os.Elf.from_le_bytes
    morion_os.Elf.in_user_space is_user_address morion_os.Elf.parse_segments
    morion_os.Elf.parse_segment morion_os.Elf.u32le morion_os.Elf.check_segment
parse_writable_executable = refl

parse_bad_entry :
    parse (header (base + 8192) ++ program_header 5 120 (base + 4096) 4 6 ++ 1 ∷ 2 ∷ 3 ∷ 4 ∷ [])
    ≡ none
unfolding parse morion_os.Elf.parse_header morion_os.Elf.starts_with morion_os.Elf.u16le
    morion_os.Elf.slice morion_os.Elf.u64le morion_os.Elf.check_header morion_os.Elf.from_le_bytes
    morion_os.Elf.in_user_space is_user_address morion_os.Elf.parse_segments
    morion_os.Elf.parse_segment morion_os.Elf.u32le morion_os.Elf.check_segment
    morion_os.Elf.entry_in_segment
parse_bad_entry = refl

parse_short :
    parse (header (base + 4096) ++ program_header 5 120 (base + 4096) 4 6 ++ 1 ∷ 2 ∷ []) ≡ none
unfolding parse morion_os.Elf.parse_header morion_os.Elf.starts_with morion_os.Elf.u16le
    morion_os.Elf.slice morion_os.Elf.u64le morion_os.Elf.check_header morion_os.Elf.from_le_bytes
    morion_os.Elf.in_user_space is_user_address morion_os.Elf.parse_segments
    morion_os.Elf.parse_segment morion_os.Elf.u32le morion_os.Elf.check_segment
parse_short = refl

-- A machine with 16 free frames, whose memory is full of sevens.
abbrev idle : Loading
idle = record {
  frames = record { bitmap = replicate 16 false; free_frames = 16; pinned = []; shared = [] };
  space = [];
  memory = λ _. 7;
}

abbrev or_idle : Outcome Loading → Loading
or_idle panics = idle
or_idle refused = idle
or_idle (done l) = l

abbrev loaded : Loading
loaded = or_idle (map_image sample sample_image idle)

map_image-sample : map_image sample sample_image idle ≡ done loaded
unfolding map_image morion_os.Elf.Loading.map_segment pages morion_os.Elf.Loading.pages_from
    morion_os.Elf.Loading.map_page morion_os.Elf.Loading.resolve_user_page page_perm
    morion_os.Elf.Loading.perm_of morion_os.Elf.Loading.union_of morion_os.Elf.Loading.map_zeroed
    morion_os.Frames.allocate_frame morion_os.Elf.Loading.map_user_page
    morion_os.Elf.Loading.fill_segment morion_os.Elf.Loading.fill_page
    morion_os.Elf.Loading.map_stack morion_os.Elf.Loading.stack_pages
map_image-sample = refl

sample_IsLoadable : IsLoadable 124 text
unfolding IsLoadable
sample_IsLoadable = (omega arith, omega arith, omega arith, omega arith, omega arith, refl)

map_image_lem_example : peek loaded (base + 4098) ≡ some 3
map_image_lem_example =
    map_image_lem sample sample_image idle loaded 0 (base + 4098) text (sample_IsLoadable, _) refl
      map_image-sample refl (omega arith) (omega arith)

map_image-off_stack_example : (base + 4098 < base + 0x3f9000) ⊎ (base + 0x401000 ≤ base + 4098)
map_image-off_stack_example =
    map_image-off_stack sample sample_image idle loaded 0 (base + 4098) text (sample_IsLoadable, _)
      refl map_image-sample refl (omega arith) (omega arith)

map_image-HasRights_example : All (HasRights (text ∷ [])) loaded.space
map_image-HasRights_example =
    map_image-HasRights sample sample_image idle loaded refl map_image-sample

-- A segment on a page of the stack passes the parser, and loading it panics.
abbrev on_stack : Segment
on_stack = record { offset = 0; vaddr = base + 0x400000; filesz = 4; memsz = 4; flags = 4 }

map_image-on_stack :
    map_image sample (record { entry = base + 0x400000; segments = on_stack ∷ [] }) idle ≡ panics
unfolding map_image morion_os.Elf.Loading.map_segment pages morion_os.Elf.Loading.pages_from
    morion_os.Elf.Loading.map_page morion_os.Elf.Loading.resolve_user_page page_perm
    morion_os.Elf.Loading.perm_of morion_os.Elf.Loading.union_of morion_os.Elf.Loading.map_zeroed
    morion_os.Frames.allocate_frame morion_os.Elf.Loading.map_user_page
    morion_os.Elf.Loading.fill_segment morion_os.Elf.Loading.fill_page
    morion_os.Elf.Loading.map_stack morion_os.Elf.Loading.stack_pages
map_image-on_stack = refl

-- Two bytes on the edge of two pages take both, where the budget counts one.
two_pages :
    length (pages (record { offset = 0; vaddr = base + 4095; filesz = 0; memsz = 2; flags = 4 }))
    ≡ 2
unfolding pages morion_os.Elf.Loading.pages_from
two_pages = refl
