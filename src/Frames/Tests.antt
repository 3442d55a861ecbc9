-- ===== src/Frames/Tests.antt =====
-- Runs of the frame allocator, and its theorems at concrete inputs.
use morion_os.Prelude.{
  ℕ, ◌-◌, ◌*◌, ◌<◌, ◌≡◌, ◌⊎◌, refl, true, false, none, some, [], ◌∷◌, take, ltb, if◌then◌else◌,
}
use morion_os.Frames.{Frames, frame_size, bitmap_test, is_pinned, allocate_frame, free_frame}
use morion_os.Frames.Refs.{
  references, release_user_frame, tracked, Distinct, release_user_frame_lem,
}
use morion_os.Frames.Counts.{clear_count, allocate_frame_lem}

-- Four frames; the second and the fourth are free, and the third is shared by two domains.
abbrev four : Frames
four = record {
  bitmap = true ∷ false ∷ true ∷ false ∷ [];
  free_frames = 2;
  pinned = [];
  shared = (8192, 2) ∷ (0, 0) ∷ [];
}

four_counted : four.free_frames ≡ clear_count four.bitmap
unfolding clear_count
four_counted = refl

four_shared : Distinct four.shared
unfolding Distinct tracked
four_shared = (refl, (refl, tt))

allocate_frame_lem_example :
    ((allocate_frame four ≡ some (four, none)) × (clear_count four.bitmap ≡ 0))
    ⊎ ((i : ℕ) × (f' : Frames) × (allocate_frame four ≡ some (f', some (i * frame_size)))
        × (i < 4)
        × (bitmap_test four.bitmap i ≡ false)
        × (clear_count (take i four.bitmap) ≡ 0)
        × (bitmap_test f'.bitmap i ≡ true)
        × (f'.free_frames ≡ clear_count f'.bitmap)
        × (free_frame f' (i * frame_size) ≡ (if is_pinned four (i * frame_size) then f' else four)))
allocate_frame_lem_example = allocate_frame_lem four four_counted

release_user_frame_lem_example :
    ((release_user_frame four 8192).bitmap ≡ (
      if ltb 1 (references four.shared 8192) then four.bitmap else (free_frame four 8192).bitmap))
    × (references (release_user_frame four 8192).shared 8192 ≡ references four.shared 8192 - 1)
release_user_frame_lem_example = release_user_frame_lem four 8192 four_shared
