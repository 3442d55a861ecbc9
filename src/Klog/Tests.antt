-- ===== src/Klog/Tests.antt =====
-- Runs of the log, and its theorem at a concrete input.
use morion_os.Prelude.{◌+◌, ◌≡◌, refl, true, some, [], ◌∷◌, arith}
use morion_os.Klog.{fresh, capture_bytes, read}
use morion_os.Klog.History.{read-capture_bytes}
use morion_os.Klog.UserBuffer.{is_user_address, handle_read, handle_read_lem}

-- Six bytes in a ring of four: the first two are gone.
wrapped : read 4 (capture_bytes 4 (fresh 4) (1 ∷ 2 ∷ 3 ∷ 4 ∷ 5 ∷ 6 ∷ [])) 0 3 ≡ 3 ∷ 4 ∷ 5 ∷ []
unfolding read capture_bytes fresh
wrapped = refl

read-capture_bytes_example :
    read 4 (capture_bytes 4 (fresh 4) (1 ∷ 2 ∷ 3 ∷ 4 ∷ 5 ∷ 6 ∷ [])) 0 3 ≡ 3 ∷ 4 ∷ 5 ∷ []
read-capture_bytes_example =
    read-capture_bytes 4 (1 ∷ 2 ∷ 3 ∷ 4 ∷ 5 ∷ 6 ∷ []) 0 3 (omega arith) (omega arith)

-- The range begins 32 bytes into the user space.
read_into_user_space :
    handle_read 4 (capture_bytes 4 (fresh 4) (1 ∷ 2 ∷ 3 ∷ [])) 0x8000000020 2 1 ≡ some (2 ∷ 3 ∷ [])
unfolding handle_read is_user_address read capture_bytes fresh
read_into_user_space = refl

handle_read_lem_example : is_user_address (0x8000000020 + 1) ≡ true
handle_read_lem_example =
    handle_read_lem 4 (capture_bytes 4 (fresh 4) (1 ∷ 2 ∷ 3 ∷ [])) 0x8000000020 2 1 1 (2 ∷ 3 ∷ [])
      read_into_user_space (omega arith)
