-- ===== src/Mount/Resolve.antt =====
-- The resolution of paths in the mount table of user/srv/src/mount_srv.rs.
use morion_os.Prelude.{
  ℕ, suc, ◌≤◌, ◌≡◌, ◌⊎◌, inl, inr, refl, sym, ap, subst, ◌∙◌, true, not, none, some, List, [], ◌∷◌,
  length, get_elem?, arith, ltb, if◌then◌else◌, ltb→lt, Bool-cases, Option-cases, case_option,
  ltb-false,
}
use morion_os.Prelude.Elements.{All, All-map, All-get_elem?}
use morion_os.Mount.{
  MountEntry, Mounts, root, is_absolute, mount_prefix_match, Route, route_len, is_none_or_shorter,
  better, resolve_from, mount_resolve,
}
use morion_os.Mount.Paths.{Matches, mount_prefix_match-IsUnder, mount_prefix_match_complete}

-- The route of an entry alone.
unfoldable pub entry_route : List ℕ → MountEntry → Route
unfolding mount_prefix_match
entry_route path e =
    if not e.used
    then none
    else case_option (mount_prefix_match path e.prefix) none (λ n. some ((e.domain, e.vol_enc), n))

entry_route_cases :
    (path : List ℕ) (e : MountEntry)
    → ((entry_route path e ≡ none) × (Matches path e → ⊥))
      ⊎ (Matches path e × (entry_route path e ≡ some ((e.domain, e.vol_enc), length e.prefix)))
unfolding entry_route
entry_route_cases path e = elim (Bool-cases e.used) [
  | inr u ↦ inl (rw u refl, λ (used, _). cc (u, used))
  | inl u ↦ elim (Option-cases (mount_prefix_match path e.prefix)) [
    | inl m ↦
        inl (rw (u, m) refl, λ (_, under). cc (m, mount_prefix_match_complete path e.prefix under))
    | inr (n, m) ↦
        let (size, under) = mount_prefix_match-IsUnder path e.prefix n m in
        inr ((u, under), rw (u, m) (ap (λ k. some ((e.domain, e.vol_enc), k)) size))
  ]
]

-- the better one of two routes, the first of two that are as long
abbrev longer : Route → Route → Route
longer best none = best
longer best (some r) = if is_none_or_shorter best (route_len (some r)) then some r else best

better_lem :
    (path : List ℕ) (best : Route) (e : MountEntry)
    → better path best e ≡ longer best (entry_route path e)
unfolding better entry_route
better_lem path best e = elim (Bool-cases (not e.used)) [
  | inl u ↦ rw u refl
  | inr u ↦ elim (Option-cases (mount_prefix_match path e.prefix)) [
    | inl m ↦ rw (u, m) refl
    | inr (n, m) ↦ rw (u, m) refl
  ]
]

-- where a route comes from: it is the best one before, or that of an entry
longer_lem :
    (best r : Route)
    → ((longer best r ≡ best) ⊎ (longer best r ≡ r))
      × (route_len best ≤ route_len (longer best r))
      × (route_len r ≤ route_len (longer best r))
longer_lem none none = (inl refl, omega arith, omega arith)
longer_lem (some b) none = (inl refl, omega arith, omega arith)
longer_lem none (some r) = (inr refl, omega arith, omega arith)
longer_lem (some (b, m)) (some (r, n)) = elim (Bool-cases (ltb m n)) [
  | inl e ↦ let lt = ltb→lt m n e in rw e (inr refl, omega arith, omega arith)
  | inr e ↦ let le = ltb-false m n e in rw e (inl refl, omega arith, omega arith)
]

abbrev pub IsLongest : List ℕ → Mounts → Route → Type 0
IsLongest path mounts r = All (λ e. route_len (entry_route path e) ≤ route_len r) mounts

resolve_from_lem :
    (mounts : Mounts) (path : List ℕ) (best : Route)
    → let r = resolve_from mounts path best in
      ((r ≡ best)
        ⊎ ((i : ℕ) × (e : MountEntry) × (get_elem? mounts i ≡ some e) × (r ≡ entry_route path e)))
      × (route_len best ≤ route_len r)
      × IsLongest path mounts r
unfolding resolve_from
resolve_from_lem [] path best = (inl refl, omega arith, _)
resolve_from_lem (e ∷ es) path best =
    let next = better path best e in
    let same = better_lem path best e in
    let (from, le, le') = longer_lem best (entry_route path e) in
    let (source, above, longest) = resolve_from_lem es path next in
    let r = resolve_from es path next in
    let up : route_len best ≤ route_len r = omega (arith, le, above, ap route_len same) in
    let here : route_len (entry_route path e) ≤ route_len r =
      omega (arith, le', above, ap route_len same) in
    (
      elim source [
        | inr (i, e', at, origin) ↦ inr (suc i, e', at, origin)
        | inl stays ↦ elim from [
          | inl old ↦ inl (stays ∙ same ∙ old)
          | inr mine ↦ inr (0, e, refl, stays ∙ same ∙ mine)
        ]
      ],
      up,
      (here, longest),
    )

-- nothing is found, so nothing matches
longer-eq-none : (best r : Route) → longer best r ≡ none → (best ≡ none) × (r ≡ none)
longer-eq-none none none h = (refl, refl)
longer-eq-none (some b) none h = absurd (cc)
longer-eq-none none (some r) h = absurd (cc)
longer-eq-none (some (b, m)) (some (r, n)) h = elim (Bool-cases (ltb m n)) [
  | inl e ↦ absurd (cc (rw e at h))
  | inr e ↦ absurd (cc (rw e at h))
]

resolve_from-eq-none :
    (mounts : Mounts) (path : List ℕ) (best : Route)
    → resolve_from mounts path best ≡ none
    → (best ≡ none) × All (λ e. entry_route path e ≡ none) mounts
unfolding resolve_from
resolve_from-eq-none [] path best h = (h, _)
resolve_from-eq-none (e ∷ es) path best h =
    let (now, rest) = resolve_from-eq-none es path (better path best e) h in
    let (before, here) =
      longer-eq-none best (entry_route path e) (sym (better_lem path best e) ∙ now) in
    (before, (here, rest))

-- A path resolves to nothing, and then no entry in use has a prefix that it lies under; or to the
-- domain, the volume and the length of the prefix of an entry in use that it lies under, and then it
-- lies under no longer prefix of an entry in use. An absolute path lies under the root, and under
-- every prefix that it is equal to or goes on from with a slash.
pub mount_resolve_lem :
    (mounts : Mounts) (path : List ℕ)
    → ((mount_resolve mounts path ≡ none) × All (λ e. Matches path e → ⊥) mounts)
      ⊎ ((i : ℕ) × (e : MountEntry) × (get_elem? mounts i ≡ some e)
          × Matches path e
          × (mount_resolve mounts path ≡ some ((e.domain, e.vol_enc), length e.prefix))
          × All (λ f. (Matches path f → ⊥) ⊎ (length f.prefix ≤ length e.prefix)) mounts)
unfolding mount_resolve
mount_resolve_lem mounts path = elim (Option-cases (mount_resolve mounts path)) [
  | inl gone ↦
      let (_, silent) = resolve_from-eq-none mounts path none gone in
      inl (gone, All-map mounts (λ e h. unmatched e h) silent)
  | inr (r, found) ↦
      let (source, _, longest) = resolve_from_lem mounts path none in
      elim source [
        | inl e ↦ absurd (cc (e, found))
        | inr (i, e, at, same) ↦ elim (entry_route_cases path e) [
          | inl (none_here, _) ↦ absurd (cc (same, found, none_here))
          | inr (under, route) ↦
              let here = same ∙ route in
              inr (
                i,
                e,
                at,
                under,
                here,
                All-map mounts
                    (λ f le.
                      bounded f (length e.prefix)
                        (subst (λ q. route_len (entry_route path f) ≤ route_len q) here le))
                    longest,
              )
        ]
      ]
]
  where
    unmatched : (e : MountEntry) → entry_route path e ≡ none → Matches path e → ⊥
    unmatched e h m = elim (entry_route_cases path e) [
      | inl (_, never) ↦ never m
      | inr (_, route) ↦ cc (h, route)
    ]

    bounded :
        (f : MountEntry) (n : ℕ)
        → route_len (entry_route path f) ≤ n
        → (Matches path f → ⊥) ⊎ (length f.prefix ≤ n)
    bounded f n le = elim (entry_route_cases path f) [
      | inl (_, never) ↦ inl never
      | inr (_, route) ↦ inr (omega (arith, le, ap route_len route))
    ]

-- A mounted root matches every absolute path, so that one resolves.
pub mount_resolve-root :
    (mounts : Mounts) (path : List ℕ) (i : ℕ) (e : MountEntry)
    → get_elem? mounts i ≡ some e
    → e.used ≡ true
    → e.prefix ≡ root
    → is_absolute path ≡ true
    → 1 ≤ route_len (mount_resolve mounts path)
unfolding mount_resolve mount_prefix_match entry_route
mount_resolve-root mounts path i e at used here abs =
    let (_, _, longest) = resolve_from_lem mounts path none in
    let match : route_len (entry_route path e) ≡ 1 =
      rw (used, here, abs, entry_route, mount_prefix_match) refl in
    let le =
      All-get_elem?
        (λ e. route_len (entry_route path e) ≤ route_len (resolve_from mounts path none)) mounts i e
        longest at in
    omega (arith, le, match)
