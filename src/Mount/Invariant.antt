-- ===== src/Mount/Invariant.antt =====
-- What holds of the mount table of user/srv/src/mount_srv.rs whatever requests come.
use morion_os.Prelude.{
  ℕ, zero, suc, ◌+◌, ◌-◌, ◌≤◌, ◌≡◌, ◌≢◌, ◌⊎◌, inl, inr, refl, sym, ap, subst, ◌∙◌, Bool, true,
  false, not, ◌&&◌, ◌||◌, none, some, List, [], ◌∷◌, length, get_elem?, get_or, set, drop,
  replicate, get_elem?-set_ne, arith, ◌==◌, if◌then◌else◌, Bool-cases, Option-cases, some_inj,
  case_option-either, if-inv, &&_inv, u64_max,
}
use morion_os.Prelude.Bytes.{bytes_eq, bytes_eq-inv, bytes_eq_self}
use morion_os.Prelude.Elements.{All, All-set}
use morion_os.Mount.{
  MountEntry, Mounts, mount_max, mount_prefix_max, mount_empty, root, is_absolute, find_entry,
  mount_find, first_unused, bad_prefix, mount_add, mnt_name, auto_from, mount_auto, dec_to_str,
  enc_of_vol, mount_auto_vol, mount_del, mount_resolve, route_len, default_mounts, add_all,
  mounts_init, Request, lookup, unmount, mount, mount_vol, other, c_str, serve, serve_all,
}
use morion_os.Mount.Resolve.{mount_resolve-root}

-- two mounts of one prefix
abbrev pub clash : MountEntry → MountEntry → Bool
clash e f = (e.used && f.used) && bytes_eq e.prefix f.prefix

abbrev pub AreDistinct : Mounts → Type 0
AreDistinct [] = Unit
AreDistinct (e ∷ es) = All (λ f. clash e f ≡ false) es × AreDistinct es

-- an entry that is unused, or has an absolute prefix of less than 24 bytes and a domain
abbrev pub good_entry : MountEntry → Bool
good_entry e = not e.used || not (bad_prefix e.prefix e.domain)

abbrev pub HasRoot : Mounts → Type 0
HasRoot mounts =
    (i : ℕ) × (e : MountEntry) × (get_elem? mounts i ≡ some e) × (e.used ≡ true) × (e.prefix ≡ root)

-- The root is mounted, no prefix is mounted twice, and every mount is good.
unfoldable pub IsWellFormed : Mounts → Type 0
IsWellFormed mounts = HasRoot mounts × AreDistinct mounts × All (λ e. good_entry e ≡ true) mounts

clash_comm : (e f : MountEntry) → clash e f ≡ false → clash f e ≡ false
clash_comm e f h = elim (Bool-cases (clash f e)) [
  | inr no_clash ↦ no_clash
  | inl c ↦
      let (both, same) = &&_inv (f.used && e.used) _ c in
      let (uf, ue) = &&_inv f.used _ both in
      let swap : clash e f ≡ true =
        rw (uf, ue, bytes_eq-inv f.prefix e.prefix same) (bytes_eq_self e.prefix) in
      absurd (differ (sym swap ∙ h))
]
  where
    differ : true ≡ false → ⊥
    differ e = cc

AreDistinct-set :
    (mounts : Mounts) (i : ℕ) (v : MountEntry)
    → AreDistinct mounts
    → All (λ e. clash v e ≡ false) mounts
    → AreDistinct (set mounts i v)
AreDistinct-set [] i v _ _ = _
AreDistinct-set (e ∷ es) zero v (_, d) (_, free) = (free, d)
AreDistinct-set (e ∷ es) (suc i) v (c, d) (one, free) =
    (All-set (λ f. clash e f ≡ false) es i v c (clash_comm v e one), AreDistinct-set es i v d free)

-- a prefix that is not found is free
find_entry-free :
    (mounts : Mounts) (prefix : List ℕ) (i : ℕ) (v : MountEntry)
    → find_entry mounts prefix i ≡ none
    → v.prefix ≡ prefix
    → All (λ e. clash v e ≡ false) mounts
unfolding find_entry
find_entry-free [] prefix i v h same = _
find_entry-free (e ∷ es) prefix i v h same =
    elim (if-inv (e.used && bytes_eq e.prefix prefix) (some i) (find_entry es prefix (i + 1)) none
      h) [
        | inl (_, gone) ↦ absurd (cc)
        | inr (other_one, h') ↦ (
          clash_comm e v (
              subst (λ p. ((e.used && v.used) && bytes_eq e.prefix p) ≡ false) (sym same)
                (no_clash e.used v.used (bytes_eq e.prefix prefix) other_one)),
          find_entry-free es prefix (i + 1) v h' same,
        )
      ]
  where
    no_clash : (a b c : Bool) → (a && c) ≡ false → ((a && b) && c) ≡ false
    no_clash true true c h = h
    no_clash true false c h = refl
    no_clash false b c h = refl

-- what the searches find
find_entry-found :
    (mounts : Mounts) (prefix : List ℕ) (i k : ℕ)
    → find_entry mounts prefix i ≡ some k
    → (j : ℕ) × (k ≡ i + j)
      × ((e : MountEntry) × (get_elem? mounts j ≡ some e) × (e.prefix ≡ prefix))
unfolding find_entry
find_entry-found [] prefix i k h = absurd (cc)
find_entry-found (e ∷ es) prefix i k h =
    elim (if-inv (e.used && bytes_eq e.prefix prefix) (some i) (find_entry es prefix (i + 1))
      (some k) h) [
        | inl (found, same) ↦
            let (_, eq) = &&_inv e.used _ found in
            (0, omega (arith, some_inj same), (e, refl, bytes_eq-inv e.prefix prefix eq))
        | inr (_, later) ↦
            let (j, at, rest) = find_entry-found es prefix (i + 1) k later in
            (suc j, omega (arith, at), rest)
      ]

first_unused-found :
    (mounts : Mounts) (i k : ℕ)
    → first_unused mounts i ≡ some k
    → (j : ℕ) × (k ≡ i + j) × ((e : MountEntry) × (get_elem? mounts j ≡ some e) × (e.used ≡ false))
unfolding first_unused
first_unused-found [] i k h = absurd (cc)
first_unused-found (e ∷ es) i k h =
    elim (if-inv e.used (first_unused es (i + 1)) (some i) (some k) h) [
      | inl (_, later) ↦
          let (j, at, rest) = first_unused-found es (i + 1) k later in
          (suc j, omega (arith, at), rest)
      | inr (free, same) ↦ (0, omega (arith, some_inj same), (e, refl, free))
    ]

-- The root stays when another entry is written.
HasRoot-set :
    (mounts : Mounts) (k : ℕ) (v f : MountEntry)
    → HasRoot mounts
    → get_elem? mounts k ≡ some f
    → (f.used ≡ false) ⊎ (f.prefix ≢ root)
    → HasRoot (set mounts k v)
HasRoot-set mounts k v f (i, e, at, used, here) found not_root = (
  i,
  e,
  get_elem?-set_ne mounts k i v (λ same. clashes (ap (λ n. get_elem? mounts n) same)) ∙ at,
  used,
  here,
)
  where
    clashes : get_elem? mounts k ≡ get_elem? mounts i → ⊥
    clashes same =
        let f_e = some_inj (sym found ∙ same ∙ at) in
        elim not_root [
          | inl unused ↦ differ (sym used ∙ sym (ap (λ m. m.used) f_e) ∙ unused)
          | inr other_prefix ↦ other_prefix (ap (λ m. m.prefix) f_e ∙ here)
        ]
      where
        differ : true ≡ false → ⊥
        differ e = cc

mount_add-IsWellFormed :
    (mounts : Mounts) (prefix : List ℕ) (domain vol_enc : ℕ)
    → IsWellFormed mounts
    → IsWellFormed (mount_add mounts prefix domain vol_enc).0
unfolding mount_add IsWellFormed mount_find
mount_add-IsWellFormed mounts prefix domain vol_enc (r, d, g) =
    elim (Bool-cases (bad_prefix prefix domain)) [
      | inl e ↦ rw e (r, d, g)
      | inr e ↦ elim (Option-cases (find_entry mounts prefix 0)) [
        | inr (_, f) ↦ rw (e, f) (r, d, g)
        | inl f ↦ elim (Option-cases (first_unused mounts 0)) [
          | inl u ↦ rw (e, f, u) (r, d, g)
          | inr (k, u) ↦
              let v : MountEntry = record {
                used = true;
                vol_enc = vol_enc;
                domain = domain;
                prefix = prefix;
              } in
              let (j, at, (x, there, free)) = first_unused-found mounts 0 k u in
              let there' = subst (λ n. get_elem? mounts n ≡ some x) (omega (arith, at)) there in
              rw (e, f, u)
                (
                  HasRoot-set mounts k v x r there' (inl free),
                  AreDistinct-set mounts k v d (find_entry-free mounts prefix 0 v f refl),
                  All-set (λ e. good_entry e ≡ true) mounts k v g (rw e refl),
                )
        ]
      ]
    ]

mount_del-IsWellFormed :
    (mounts : Mounts) (prefix : List ℕ)
    → IsWellFormed mounts
    → IsWellFormed (mount_del mounts prefix).0
unfolding mount_del IsWellFormed mount_find
mount_del-IsWellFormed mounts prefix (r, d, g) = elim (Bool-cases (bytes_eq prefix root)) [
  | inl e ↦ rw e (r, d, g)
  | inr e ↦ elim (Option-cases (find_entry mounts prefix 0)) [
    | inl f ↦ rw (e, f) (r, d, g)
    | inr (k, f) ↦
        let v = record (get_or mounts k mount_empty) { used = false } in
        let (j, at, (x, there, same)) = find_entry-found mounts prefix 0 k f in
        let there' = subst (λ n. get_elem? mounts n ≡ some x) (omega (arith, at)) there in
        rw (e, f)
          (
            HasRoot-set mounts k v x r there' (
                inr (λ is_root. differ (
                  sym (subst (λ p. bytes_eq p root ≡ false) (sym same ∙ is_root) e)
                  ∙ bytes_eq_self root))),
            AreDistinct-set mounts k v d (all_free v mounts),
            All-set (λ e. good_entry e ≡ true) mounts k v g refl,
          )
  ]
]
  where
    differ : false ≡ true → ⊥
    differ e = cc

    all_free :
        (v : MountEntry) (es : Mounts) → All (λ e. clash (record v { used = false }) e ≡ false) es
    all_free v [] = _
    all_free v (e ∷ es) = (refl, all_free v es)

auto_from-IsWellFormed :
    (k n : ℕ) (mounts : Mounts) (domain : ℕ)
    → IsWellFormed mounts
    → IsWellFormed (auto_from k n mounts domain).0
unfolding auto_from
auto_from-IsWellFormed zero n mounts domain w = w
auto_from-IsWellFormed (suc k) n mounts domain w =
    case_option-either (λ r. IsWellFormed r.0) (mount_find mounts (mnt_name n))
      (mount_add mounts (mnt_name n) domain 0) (λ _. auto_from k (n + 1) mounts domain)
      (mount_add-IsWellFormed mounts (mnt_name n) domain 0 w)
      (λ _. auto_from-IsWellFormed k (n + 1) mounts domain w)

mount_auto_vol-IsWellFormed :
    (mounts : Mounts) (domain vol : ℕ)
    → IsWellFormed mounts
    → IsWellFormed (mount_auto_vol mounts domain vol).0
unfolding mount_auto_vol
mount_auto_vol-IsWellFormed mounts domain vol w =
    let name = b'/' ∷ b'u' ∷ b's' ∷ b'b' ∷ dec_to_str vol (mount_prefix_max - 4) in
    case_option-either (λ r. IsWellFormed r.0) (mount_find mounts name)
      (mount_add mounts name domain (enc_of_vol vol))
      (λ i.
        let e = get_or mounts i mount_empty in
        (mounts, if e.domain == domain && e.vol_enc == enc_of_vol vol then i + 1 else u64_max))
      (mount_add-IsWellFormed mounts name domain (enc_of_vol vol) w) (λ _. w)

serve-IsWellFormed :
    (mounts : Mounts) (r : Request) → IsWellFormed mounts → IsWellFormed (serve mounts r).0
unfolding serve mount_auto
serve-IsWellFormed mounts (lookup payload) w = w
serve-IsWellFormed mounts (mount domain prefix) w = elim (Bool-cases (length (c_str prefix) == 0)) [
  | inl e ↦ rw e (auto_from-IsWellFormed mount_max 0 mounts domain w)
  | inr e ↦ rw e (mount_add-IsWellFormed mounts (c_str prefix) domain 0 w)
]
serve-IsWellFormed mounts (mount_vol domain vol) w = mount_auto_vol-IsWellFormed mounts domain vol w
serve-IsWellFormed mounts (unmount payload) w = mount_del-IsWellFormed mounts (c_str payload) w
serve-IsWellFormed mounts other w = w

-- Whatever requests come: the root stays mounted, no prefix is mounted twice, and every mount has an
-- absolute prefix of less than 24 bytes and a domain.
pub serve_all-IsWellFormed :
    (mounts : Mounts) (rs : List Request) → IsWellFormed mounts → IsWellFormed (serve_all mounts rs)
unfolding serve_all
serve_all-IsWellFormed mounts [] w = w
serve_all-IsWellFormed mounts (r ∷ rs) w =
    serve_all-IsWellFormed (serve mounts r).0 rs (serve-IsWellFormed mounts r w)

All-replicate {ℓ κ} : {A : Type ℓ} (P : A → Type κ) (n : ℕ) (a : A) → P a → All P (replicate n a)
All-replicate P zero a h = _
All-replicate P (suc n) a h = (h, All-replicate P n a h)

unused_distinct : (n : ℕ) → AreDistinct (replicate n mount_empty)
unused_distinct zero = _
unused_distinct (suc n) =
    (All-replicate (λ f. clash mount_empty f ≡ false) n mount_empty refl, unused_distinct n)

add_all-IsWellFormed :
    (rest : List (List ℕ × ℕ)) (mounts : Mounts)
    → IsWellFormed mounts
    → IsWellFormed (add_all mounts rest)
add_all-IsWellFormed [] mounts w = w
add_all-IsWellFormed ((prefix, domain) ∷ rest) mounts w =
    add_all-IsWellFormed rest (mount_add mounts prefix domain 0).0
      (mount_add-IsWellFormed mounts prefix domain 0 w)

pub mounts_init-IsWellFormed : IsWellFormed mounts_init
unfolding mounts_init mount_add mount_find find_entry first_unused bytes_eq IsWellFormed
mounts_init-IsWellFormed =
    let e : MountEntry = record { used = true; vol_enc = 0; domain = 6; prefix = root } in
    add_all-IsWellFormed (drop 1 default_mounts) (e ∷ replicate 15 mount_empty) (
      (0, e, refl, refl, refl),
      (All-replicate (λ f. clash e f ≡ false) 15 mount_empty refl, unused_distinct 15),
      (refl, All-replicate (λ f. good_entry f ≡ true) 15 mount_empty refl),
    )

-- Every absolute path resolves, whatever was mounted and unmounted since the start.
pub mount_resolve-serve_all :
    (rs : List Request) (path : List ℕ)
    → is_absolute path ≡ true
    → 1 ≤ route_len (mount_resolve (serve_all mounts_init rs) path)
unfolding IsWellFormed
mount_resolve-serve_all rs path abs =
    let ((i, e, at, used, here), _, _) =
      serve_all-IsWellFormed mounts_init rs mounts_init-IsWellFormed in
    mount_resolve-root (serve_all mounts_init rs) path i e at used here abs
