-- ===== src/Key/Tests.antt =====
-- Runs of the key queue, and its theorems at concrete inputs.
use morion_os.Prelude.{◌≡◌, refl, true, none, some, List, [], ◌∷◌}
use morion_os.Key.{empty, Call, put, take_key, stored, taken, run}
use morion_os.Key.Fifo.{fifo_run, run-fifo_run}

abbrev typing : List Call
typing = take_key ∷ put 97 ∷ put 98 ∷ take_key ∷ take_key ∷ take_key ∷ []

typing_replies :
    run empty typing
    ≡ taken none ∷ stored true ∷ stored true ∷ taken (some 97) ∷ taken (some 98) ∷ taken none ∷ []
unfolding run empty
typing_replies = refl

run-fifo_run_example : run empty typing ≡ fifo_run [] typing
run-fifo_run_example = run-fifo_run typing
