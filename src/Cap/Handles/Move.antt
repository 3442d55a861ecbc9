-- ===== src/Cap/Handles/Move.antt =====
-- Handles move between domains: `handle_move` of kernel/src/cap.rs, behind `SYS_HANDLE_SEND`.
use morion_os.Prelude.{
  ℕ, ◌≡◌, ◌≢◌, ◌⊎◌, inl, inr, sym, ap, subst, ◌∙◌, ◌&&◌, none, some, get_elem?, set,
  get_elem?-set_self, get_elem?-set_ne, get_elem?_lt, arith, ℕ_discrete, ◌==◌, if◌then◌else◌,
  Option-cases, some_inj, u64_max,
}
use morion_os.Cap.Slots.{Slots}
use morion_os.Cap.Handles.{HandleTable, handle_issue, handle_lookup, write, settle, handle_move}
use morion_os.Cap.Handles.Lookup.{HasNoRoom, lookup-set, lookup_some, write_row}
use morion_os.Cap.Handles.Issue.{IsSized, issue_full, issue_Written, write-IsSized, restore}

module _ (t : HandleTable) (from to h : ℕ) (sized : IsSized t) where
  -- The move, once the object is found.
  move_found :
      (o : ℕ)
      → handle_lookup t from h ≡ some o
      → handle_move t from to h ≡ settle from h o (handle_issue (write t from h none) to o)
  unfolding handle_move
  move_found o e = rw (e, handle_move)

  move_missing : handle_lookup t from h ≡ none → handle_move t from to h ≡ (t, u64_max)
  unfolding handle_move
  move_missing e = rw (e, handle_move)

settle_full :
    (from h o : ℕ) (r : HandleTable × ℕ)
    → r.1 ≡ u64_max
    → settle from h o r ≡ (write r.0 from h (some o), u64_max)
unfolding settle
settle_full from h o (t, out) e = ground arith

settle_stored : (from h o : ℕ) (r : HandleTable × ℕ) → r.1 ≢ u64_max → settle from h o r ≡ r
unfolding settle
settle_stored from h o (t, out) e = ground arith

module _ (t : HandleTable) (from to h : ℕ) (sized : IsSized t) where
  -- What every handle leads to when the object `o` has moved to the target's slot `out`.
  abbrev pub Moved : ℕ → ℕ → HandleTable → Type 0
  Moved o out u =
      (e k : ℕ)
      → handle_lookup u e k ≡ (
          if to == e && out == k
          then some o
          else if from == e && h == k
          then none
          else handle_lookup t e k)

  -- The target has no room: no row, or a row without an empty slot, which is another row than the
  -- sender's, where a slot has just become empty.
  abbrev pub IsFull : Type 0
  IsFull =
      (from ≢ to)
      × ((get_elem? t to ≡ none)
          ⊎ ((s : Slots ℕ) × (get_elem? t to ≡ some s) × ((k : ℕ) → get_elem? s k ≢ some none)))

  full_target :
      (o : ℕ) (s : Slots ℕ)
      → get_elem? t from ≡ some s
      → get_elem? s h ≡ some (some o)
      → HasNoRoom (write t from h none) to
      → IsFull
  full_target o s row slot full =
      let r = set s h none in
      let full' : HasNoRoom (set t from r) to =
        subst (λ u. HasNoRoom u to) (write_row t from h none s row) full in
      elim (ℕ_discrete from to) [
        | yes same ↦
            let here : get_elem? (set t from r) to ≡ some r =
              subst (λ d. get_elem? (set t from r) d ≡ some r) same
                (get_elem?-set_self t from r (get_elem?_lt t from s row)) in
            let freed : get_elem? r h ≡ some none =
              get_elem?-set_self s h none (get_elem?_lt s h (some o) slot) in
            elim full' [
              | inl gone ↦ absurd (cc (gone, here))
              | inr (q, found, taken) ↦ absurd (
                  taken h
                    (subst (λ x. get_elem? x h ≡ some none) (some_inj (sym here ∙ found)) freed))
            ]
        | no other ↦
            let there = get_elem?-set_ne t from to r other in
            (
              other,
              subst
                  (λ x.
                    (x ≡ none)
                    ⊎ ((q : Slots ℕ) × (x ≡ some q) × ((k : ℕ) → get_elem? q k ≢ some none)))
                  there full',
            )
      ]

  move_full :
      (o : ℕ) (s : Slots ℕ)
      → get_elem? t from ≡ some s
      → get_elem? s h ≡ some (some o)
      → (handle_issue (write t from h none) to o).1 ≡ u64_max
      → (settle from h o (handle_issue (write t from h none) to o) ≡ (t, u64_max)) × IsFull
  move_full o s row slot full =
      let sized' = write-IsSized t from h none s sized row in
      let (kept, room) = issue_full (write t from h none) to o sized' full in
      (
        settle_full from h o (handle_issue (write t from h none) to o) full
            ∙ ap (λ u. (write u from h (some o), u64_max)) kept
            ∙ ap (λ u. (u, u64_max)) (restore t from h o s row slot),
        full_target o s row slot room,
      )

  stored_all :
      (o : ℕ) (s : Slots ℕ)
      → get_elem? t from ≡ some s
      → get_elem? s h ≡ some (some o)
      → (handle_issue (write t from h none) to o).1 ≢ u64_max
      → Moved o
          (handle_issue (write t from h none) to o).1
          (handle_issue (write t from h none) to o).0
  stored_all o s row slot room e k =
      let sized' = write-IsSized t from h none s sized row in
      let written = (issue_Written (write t from h none) to o sized' room).1 e k in
      let taken = lookup-set t from s h none (some o) e k row slot in
      let same = ap (λ u. handle_lookup u e k) (write_row t from h none s row) in
      ground (arith, written, taken, same)

  move_stored :
      (o : ℕ) (s : Slots ℕ)
      → get_elem? t from ≡ some s
      → get_elem? s h ≡ some (some o)
      → (handle_issue (write t from h none) to o).1 ≢ u64_max
      → ((handle_lookup t to (handle_issue (write t from h none) to o).1 ≡ none)
          ⊎ ((from ≡ to) × (h ≡ (handle_issue (write t from h none) to o).1)))
        × Moved o
            (handle_issue (write t from h none) to o).1
            (handle_issue (write t from h none) to o).0
  move_stored o s row slot room =
      let sized' = write-IsSized t from h none s sized row in
      let out = (handle_issue (write t from h none) to o).1 in
      let was = (issue_Written (write t from h none) to o sized' room).0 in
      let taken = lookup-set t from s h none (some o) to out row slot in
      let same = ap (λ u. handle_lookup u to out) (write_row t from h none s row) in
      (ground (arith, was, taken, same), stored_all o s row slot room)

  -- A handle that is sent names an object of the sender, which is then found under the new number in
  -- the target, in a slot that was empty (or is the very slot it came from, for a move within one
  -- domain), and no more under the old one in the sender; every other handle leads where it led. The
  -- move fails exactly if the handle is not valid or the target is another domain that has no row or no
  -- empty slot, and then nothing changes. Every row has its 32 slots.
  pub handle_move_lem :
      (((handle_move t from to h ≡ (t, u64_max)) × ((handle_lookup t from h ≡ none) ⊎ IsFull))
        ⊎ ((o : ℕ) × (handle_lookup t from h ≡ some o)
            × ((handle_move t from to h).1 ≢ u64_max)
            × ((handle_lookup t to (handle_move t from to h).1 ≡ none)
                ⊎ ((from ≡ to) × (h ≡ (handle_move t from to h).1)))
            × Moved o (handle_move t from to h).1 (handle_move t from to h).0))
  handle_move_lem = elim (Option-cases (handle_lookup t from h)) [
    | inl missing ↦ inl (move_missing t from to h sized missing, inl missing)
    | inr (o, found) ↦
        let (s, row, slot) = lookup_some t from h o found in
        let e = move_found t from to h sized o found in
        elim (ℕ_discrete (handle_issue (write t from h none) to o).1 u64_max) [
          | yes full ↦ let (same, room) = move_full o s row slot full in inl (e ∙ same, inr room)
          | no room ↦
              let e' = e ∙ settle_stored from h o (handle_issue (write t from h none) to o) room in
              let (was, moved) = move_stored o s row slot room in
              inr (o, found, rw e' room, rw e' was, rw e' moved)
        ]
  ]
