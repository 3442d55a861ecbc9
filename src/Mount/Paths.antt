-- ===== src/Mount/Paths.antt =====
-- When a path lies under the prefix of a mount: `mount_prefix_match` of user/srv/src/mount_srv.rs.
use morion_os.Prelude.{
  ℕ, ◌+◌, ◌≡◌, ◌⊎◌, inl, inr, refl, sym, ap, subst, ◌∙◌, Bool, true, false, not, ◌||◌, none, some,
  List, [], ◌∷◌, ◌++◌, length, length-append, get_or, take, drop, drop_all, drop-split, arith,
  dec_lt, ltb, ◌==◌, ==_iff, Bool-cases, some_inj, if-inv, reject-inv, ||_inv, not_inv,
}
use morion_os.Prelude.Bytes.{
  bytes_eq, bytes_eq-inv, bytes_eq_self, take-append, take-drop_append, append_nil,
}
use morion_os.Mount.{MountEntry, root, is_absolute, mount_prefix_match}

-- A path below a prefix: the prefix itself, or the prefix, a slash and more.
abbrev pub IsBelow : List ℕ → List ℕ → Type 0
IsBelow path prefix = (path ≡ prefix) ⊎ ((rest : List ℕ) × (path ≡ prefix ++ (b'/' ∷ rest)))

-- A match with another prefix than the root is the length of the prefix, and the path lies below it: it
-- ends there or goes on with a slash.
pub mount_prefix_match-IsBelow :
    (path prefix : List ℕ) (n : ℕ)
    → mount_prefix_match path prefix ≡ some n
    → bytes_eq prefix root ≡ false
    → (n ≡ length prefix) × IsBelow path prefix
unfolding mount_prefix_match
mount_prefix_match-IsBelow path prefix n h other =
    let k = length prefix in
    let (_, h1) = reject-inv (not (is_absolute path)) _ h in
    elim (if-inv (bytes_eq prefix root) (some 1) _ (some n) h1) [
      | inl (e, _) ↦ absurd (differ (sym e ∙ other))
      | inr (_, h2) ↦
          let (same, h3) =
            reject-inv (ltb (length path) k || not (bytes_eq (take k path) prefix)) _ h2 in
          elim (if-inv (length path == k || get_or path k 0 == b'/') (some k) none (some n) h3) [
            | inr (_, gone) ↦ absurd (cc)
            | inl (bound, e) ↦ (sym (some_inj e), below same (||_inv (length path == k) _ bound))
          ]
    ]
  where
    differ : true ≡ false → ⊥
    differ e = cc

    whole : (a b : Bool) → (a || not b) ≡ false → (a ≡ false) × (b ≡ true)
    whole true b e = absurd (cc)
    whole false b e = (refl, not_inv b e)

    below :
        (ltb (length path) (length prefix) || not (bytes_eq (take (length prefix) path) prefix))
          ≡ false
        → ((length path == length prefix) ≡ true) ⊎ ((get_or path (length prefix) 0 == b'/') ≡ true)
        → IsBelow path prefix
    below same bound =
        let k = length prefix in
        let (long, e) = whole (ltb (length path) k) (bytes_eq (take k path) prefix) same in
        let front = bytes_eq-inv (take k path) prefix e in
        let split : path ≡ prefix ++ drop k path =
          sym (take-drop_append path k) ∙ ap (λ l. l ++ drop k path) front in
        elim (dec_lt k (length path)) [
          | no full ↦ inl (
              split
              ∙ ap (λ l. prefix ++ l) (drop_all path k (omega (arith, full)))
              ∙ append_nil prefix)
          | yes more ↦ elim bound [
            | inl end ↦ absurd (omega (arith, more, (==_iff (length path) k).0 end))
            | inr next ↦ inr (
              drop (k + 1) path,
              split
                  ∙ ap (λ l. prefix ++ l)
                      (drop-split path k 0 more
                        ∙ ap (λ b. b ∷ drop (k + 1) path) ((==_iff (get_or path k 0) b'/').0 next)),
            )
          ]
        ]

-- A path that lies under a prefix: it is absolute, and the prefix is the root or the path is below it.
abbrev pub IsUnder : List ℕ → List ℕ → Type 0
IsUnder path prefix =
    ((rest : List ℕ) × (path ≡ b'/' ∷ rest)) × ((prefix ≡ b'/' ∷ []) ⊎ IsBelow path prefix)

-- an entry in use whose prefix the path lies under
abbrev pub Matches : List ℕ → MountEntry → Type 0
Matches path e = (e.used ≡ true) × IsUnder path e.prefix

absolute-inv : (path : List ℕ) → is_absolute path ≡ true → (rest : List ℕ) × (path ≡ b'/' ∷ rest)
absolute-inv [] h = absurd (cc)
absolute-inv (b ∷ bs) h = (bs, ap (λ x. x ∷ bs) ((==_iff b b'/').0 h))

-- Every match is the length of a prefix that the path lies under, and every such prefix matches.
pub mount_prefix_match-IsUnder :
    (path prefix : List ℕ) (n : ℕ)
    → mount_prefix_match path prefix ≡ some n
    → (n ≡ length prefix) × IsUnder path prefix
unfolding mount_prefix_match
mount_prefix_match-IsUnder path prefix n h =
    let (absolute, h1) = reject-inv (not (is_absolute path)) _ h in
    let from_root = absolute-inv path (not_inv (is_absolute path) absolute) in
    elim (Bool-cases (bytes_eq prefix root)) [
      | inl e ↦
          let same = bytes_eq-inv prefix root e in
          let one : some 1 ≡ some n = (rw e at h1) in
          (sym (some_inj one) ∙ ap length (sym same), (from_root, inl same))
      | inr e ↦
          let (size, below) = mount_prefix_match-IsBelow path prefix n h e in
          (size, (from_root, inr below))
    ]

get_or-after : (xs ys : List ℕ) → get_or (xs ++ ys) (length xs) 0 ≡ get_or ys 0 0
get_or-after [] ys = refl
get_or-after (x ∷ xs) ys = get_or-after xs ys

-- the tests of a path that goes on from a prefix with nothing or a slash
matched :
    (prefix tail : List ℕ)
    → (tail ≡ []) ⊎ (get_or tail 0 0 ≡ b'/')
    → is_absolute (prefix ++ tail) ≡ true
    → bytes_eq prefix root ≡ false
    → mount_prefix_match (prefix ++ tail) prefix ≡ some (length prefix)
unfolding mount_prefix_match
matched prefix tail ends absolute other =
    let path = prefix ++ tail in
    let size = length-append prefix tail in
    let long : ltb (length path) (length prefix) ≡ false = ground (arith, size) in
    let front : bytes_eq (take (length prefix) path) prefix ≡ true =
      rw (take-append prefix tail) (bytes_eq_self prefix) in
    let bound : (length path == length prefix || get_or path (length prefix) 0 == b'/') ≡ true =
      elim ends [
        | inl e ↦
            let zero_long : length tail ≡ 0 = ap length e in
            let full : (length path == length prefix) ≡ true =
              (==_iff _ _).1 (omega (arith, size, zero_long)) in
            rw full refl
        | inr slash ↦ rw (get_or-after prefix tail, slash) (or_true (length path == length prefix))
      ] in
    rw (absolute, other, long, front, bound) refl
  where
    or_true : (b : Bool) → (b || true) ≡ true
    or_true true = refl
    or_true false = refl

pub mount_prefix_match_complete :
    (path prefix : List ℕ)
    → IsUnder path prefix
    → mount_prefix_match path prefix ≡ some (length prefix)
unfolding mount_prefix_match
mount_prefix_match_complete path prefix ((rest, absolute), under) =
    let starts : is_absolute path ≡ true = rw absolute refl in
    elim (Bool-cases (bytes_eq prefix root)) [
      | inl e ↦
          let same = bytes_eq-inv prefix root e in rw (starts, e) (ap some (ap length (sym same)))
      | inr e ↦ elim under [
        | inl same ↦ absurd (cc (e, ap (λ p. bytes_eq p root) same))
        | inr (inl whole) ↦
            let split : prefix ++ [] ≡ path = append_nil prefix ∙ sym whole in
            subst (λ p. mount_prefix_match p prefix ≡ some (length prefix)) split
              (matched prefix [] (inl refl) (rw split starts) e)
        | inr (inr (more, longer_path)) ↦
            subst (λ p. mount_prefix_match p prefix ≡ some (length prefix)) (sym longer_path)
              (matched prefix (b'/' ∷ more) (inr refl) (rw (← longer_path) starts) e)
      ]
    ]
