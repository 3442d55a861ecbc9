-- ===== src/Klog/History.antt =====
-- What the ring of kernel/src/klog.rs holds of the bytes that were ever written to it.
use morion_os.Prelude.{
  ℕ, zero, suc, ◌+◌, ◌-◌, ◌%◌, ◌^◌, ◌≤◌, ◌<◌, ◌≡◌, ◌≢◌, refl, sym, ap, ◌∙◌, false, List, [], ◌∷◌,
  ◌++◌, length, get_or, set, take, drop, length-append, length-set, get_or-set_self, get_or-set_ne,
  length-replicate, drop_all, take_nil, get_or-append_left, get_or-append_end, drop-split, arith,
  dec_lt, dec_le, ℕ_discrete, ltb, leb, if◌then◌else◌, lt→ltb, le→leb, max,
}
use mathlib.Core.List.{append-nil, append_assoc}
use native.Mathlib.Nat.{mod-eq_of_lt, mod-add-mod, mod-lt}
use morion_os.Klog.{Log, fresh, capture_byte, capture_bytes, oldest, read_loop, read}

-- Two offsets less than a round apart lie in different cells.
distinct_cells : (cap s t : ℕ) → s < t → t < s + cap → s % cap ≢ t % cap
distinct_cells cap s t lt near e = grind (arith, mod-lt s {m = cap}, mod-lt t {m = cap})

module _ (cap : ℕ) where
  -- The log has taken the bytes `all`, oldest first, and no counter has wrapped.
  pub record Holds (log : Log) (all : List ℕ) : Type 0 where
    pub room : 0 < cap
    pub storage : length log.buf ≡ cap
    pub counted : log.total ≡ length all
    pub small : length all < 2 ^ 64
    pub head_at : log.head ≡ log.total % cap
    pub cells :
        (s : ℕ) → s < log.total → log.total ≤ s + cap → get_or log.buf (s % cap) 0 ≡ get_or all s 0

  cells_after :
      (log : Log) (all : List ℕ) (b : ℕ)
      → Holds log all
      → (s : ℕ) → s < length all + 1
      → length all + 1 ≤ s + cap
      → get_or (set log.buf log.head b) (s % cap) 0 ≡ get_or (all ++ b ∷ []) s 0
  cells_after log all b v s lt near = elim (ℕ_discrete s (length all)) [
    | yes p ↦
        let here : s % cap ≡ log.head = rw (v.head_at, v.counted, p) refl in
        let inside : log.head < length log.buf =
          omega (arith, v.head_at, v.storage, mod-lt log.total {m = cap} v.room) in
        rw (here, p) (get_or-set_self log.buf log.head b 0 inside ∙ sym (get_or-append_end all b 0))
    | no n ↦
        let apart : log.head ≢ s % cap = λ e.
          distinct_cells cap s log.total (omega (arith, v.counted)) (omega (arith, v.counted))
            (sym (sym v.head_at ∙ e)) in
        get_or-set_ne log.buf log.head (s % cap) b 0 apart
        ∙ v.cells s (omega (arith, v.counted)) (omega (arith, v.counted))
        ∙ sym (get_or-append_left all (b ∷ []) s 0 (omega arith))
  ]

  capture_byte-Holds :
      (log : Log) (all : List ℕ) (b : ℕ)
      → Holds log all
      → length all + 1 < 2 ^ 64
      → Holds (capture_byte cap log b) (all ++ b ∷ [])
  unfolding capture_byte
  capture_byte-Holds log all b v fits = record {
    room = v.room;
    storage = omega (arith, length-set log.buf log.head b, v.storage);
    counted = omega (arith, length-append all (b ∷ []), v.counted);
    small = omega (arith, length-append all (b ∷ []));
    head_at = rw (next_total, v.head_at) (mod-add-mod log.total cap 1);
    cells = λ s lt near.
        cells_after log all b v s (omega (arith, next_total, v.counted))
          (omega (arith, next_total, v.counted));
  }
    where
      next_total : (log.total + 1) % 2 ^ 64 ≡ log.total + 1
      next_total = omega (arith, v.counted)

  fresh-Holds : 0 < cap → Holds (fresh cap) []
  unfolding fresh
  fresh-Holds room = record {
    room = room;
    storage = length-replicate cap 0;
    counted = refl;
    small = omega arith;
    head_at = sym (mod-eq_of_lt room);
    cells = λ s lt near. absurd (omega arith);
  }

  capture_bytes-Holds :
      (bs : List ℕ) (log : Log) (all : List ℕ)
      → Holds log all
      → length (all ++ bs) < 2 ^ 64
      → Holds (capture_bytes cap log bs) (all ++ bs)
  unfolding capture_bytes
  capture_bytes-Holds [] log all v fits = rw (append-nil all) v
  capture_bytes-Holds (b ∷ bs) log all v fits =
      let one : length all + 1 < 2 ^ 64 = omega (arith, length-append all (b ∷ bs)) in
      let step : (all ++ b ∷ []) ++ bs ≡ all ++ b ∷ bs = append_assoc all (b ∷ []) bs in
      rw step at (
        capture_bytes-Holds bs (capture_byte cap log b) (all ++ b ∷ [])
          (capture_byte-Holds log all b v one) (rw step fits))

  read_loop-take :
      (n : ℕ) (log : Log) (all : List ℕ) (s : ℕ)
      → Holds log all
      → log.total ≤ s + cap
      → read_loop cap log s n ≡ take n (drop s all)
  unfolding read_loop
  read_loop-take zero log all s v kept = refl
  read_loop-take (suc n) log all s v kept = elim (dec_lt s log.total) [
    | yes more ↦
        let cell = v.cells s more kept in
        let split = drop-split all s 0 (omega (arith, v.counted)) in
        let ih = read_loop-take n log all (s + 1) v (omega arith) in
        rw (lt→ltb s log.total more, cell, split) (ap (λ l. get_or all s 0 ∷ l) ih)
    | no end ↦
        let test : ltb s log.total ≡ false = ground arith in
        rw (test, drop_all all s (omega (arith, v.counted))) refl
  ]

  read-take :
      (log : Log) (all : List ℕ) (start len : ℕ)
      → Holds log all
      → read cap log start len ≡ take len (drop (max start (length all - cap)) all)
  unfolding read oldest
  read-take log all start len v =
      let from : (if ltb start (log.total - cap) then log.total - cap else start)
          ≡ max start (length all - cap) =
        ground (arith, v.counted) in
      rw from (elim (dec_le log.total (max start (length all - cap))) [
        | yes past ↦
            let gone = drop_all all (max start (length all - cap)) (omega (arith, v.counted)) in
            rw (le→leb log.total _ past, gone) (sym (take_nil ℕ len))
        | no inside ↦
            let test : leb log.total (max start (length all - cap)) ≡ false = ground arith in
            rw test (read_loop-take len log all _ v (omega (arith, v.counted)))
      ])

-- The log is the ring's promise kept: when any bytes have been written to a fresh log, a read from an
-- absolute offset gives exactly the bytes of the whole history from that offset on, as many as the
-- destination takes, where an offset behind the ring's reach stands for the oldest byte that is kept,
-- and one at the end or past it gives nothing.
pub read-capture_bytes :
    (cap : ℕ) (bs : List ℕ) (start len : ℕ)
    → 0 < cap
    → length bs < 2 ^ 64
    → read cap (capture_bytes cap (fresh cap) bs) start len
      ≡ take len (drop (max start (length bs - cap)) bs)
read-capture_bytes cap bs start len room fits =
    read-take cap _ bs start len
      (capture_bytes-Holds cap bs (fresh cap) [] (fresh-Holds cap room) fits)
