-- ===== src/Mount/Tests.antt =====
-- Runs of the mount table on concrete requests, with the cases in which the theorems on it apply.
use morion_os.Prelude.{
  ℕ, zero, suc, ◌≤◌, ◌≡◌, ◌⊎◌, refl, none, some, List, [], ◌∷◌, length, get_elem?, get_or,
  replicate,
}
use morion_os.Prelude.Elements.{All}
use morion_os.Mount.{
  MountEntry, Mounts, mounts_init, mount_resolve, mount_auto, mount_empty, route_len, serve_all,
  Request, unmount, mount, mount_vol, root, dec_to_str,
}
use morion_os.Mount.Paths.{Matches}
use morion_os.Mount.Resolve.{mount_resolve_lem}
use morion_os.Mount.Invariant.{
  IsWellFormed, mounts_init-IsWellFormed, serve_all-IsWellFormed, mount_resolve-serve_all,
}

-- `/tmp/a` and `/tmpa`
abbrev in_tmp : List ℕ
in_tmp = b'/' ∷ b't' ∷ b'm' ∷ b'p' ∷ b'/' ∷ b'a' ∷ []

abbrev not_in_tmp : List ℕ
not_in_tmp = b'/' ∷ b't' ∷ b'm' ∷ b'p' ∷ b'a' ∷ []

resolve_in_tmp : mount_resolve mounts_init in_tmp ≡ some ((10, 0), 4)
unfolding mount_resolve mounts_init
resolve_in_tmp = refl

resolve_boundary : mount_resolve mounts_init not_in_tmp ≡ some ((6, 0), 1)
unfolding mount_resolve mounts_init
resolve_boundary = refl

mount_resolve_lem_example :
    ((mount_resolve mounts_init in_tmp ≡ none) × All (λ e. Matches in_tmp e → ⊥) mounts_init)
    ⊎ ((i : ℕ) × (e : MountEntry) × (get_elem? mounts_init i ≡ some e)
        × Matches in_tmp e
        × (mount_resolve mounts_init in_tmp ≡ some ((e.domain, e.vol_enc), length e.prefix))
        × All (λ f. (Matches in_tmp f → ⊥) ⊎ (length f.prefix ≤ length e.prefix)) mounts_init)
mount_resolve_lem_example = mount_resolve_lem mounts_init in_tmp

-- The root is asked to go, `/tmp` goes, and two volumes and an automatic mount come.
abbrev requests : List Request
requests =
    unmount root
    ∷ unmount (b'/' ∷ b't' ∷ b'm' ∷ b'p' ∷ [])
    ∷ mount_vol 13 12
    ∷ mount_vol 13 12
    ∷ mount 30 []
    ∷ []

serve_all-IsWellFormed_example : IsWellFormed (serve_all mounts_init requests)
serve_all-IsWellFormed_example =
    serve_all-IsWellFormed mounts_init requests mounts_init-IsWellFormed

mount_resolve-serve_all_example :
    1 ≤ route_len (mount_resolve (serve_all mounts_init requests) in_tmp)
mount_resolve-serve_all_example = mount_resolve-serve_all requests in_tmp refl

resolve_after : mount_resolve (serve_all mounts_init requests) in_tmp ≡ some ((6, 0), 1)
unfolding mount_resolve serve_all mounts_init
resolve_after = refl

-- The eleventh automatic mount is on `/mnt:`.
abbrev ten_more : Mounts → ℕ → Mounts
ten_more mounts zero = mounts
ten_more mounts (suc n) = ten_more (mount_auto mounts 30).0 n

eleventh_name :
    (get_or
      (ten_more ((get_or mounts_init 0 mount_empty) ∷ replicate 15 mount_empty) 11)
      11
      mount_empty).prefix
    ≡ b'/' ∷ b'm' ∷ b'n' ∷ b't' ∷ b':' ∷ []
unfolding mount_auto mounts_init
eleventh_name = refl

decimal_twelve : dec_to_str 120 20 ≡ b'1' ∷ b'2' ∷ b'0' ∷ []
unfolding dec_to_str
decimal_twelve = refl
