-- ===== src/Cap/Tests.antt =====
-- Runs of the functions of Cap, and its theorems at concrete inputs.
use morion_os.Prelude.{
  ℕ, zero, suc, ◌-◌, ◌/◌, ◌%◌, ◌^◌, ◌<◌, ◌≡◌, ◌≢◌, ◌↔◌, ◌⊎◌, refl, ap, true, false, none, some, [],
  ◌∷◌, length, replicate, arith, some_inj, u64_max,
}
use morion_os.Cap.{
  Capability, Capability-discrete, send_to, io_port, fb, spawn, kind_spawn, decode, code,
  pack_audit, port_in_range,
}
use morion_os.Cap.Slots.{Slots, first_empty, position, contains}
use morion_os.Cap.Table.{
  CapTable, empty_row, holds, has, has_port, grant, revoke, delegate, remove_domain, add_domain,
}
use morion_os.Cap.Table
use morion_os.Cap.Encoding.{decode-pack_audit}
use morion_os.Cap.Authority.{sends, run, IsDefault, run_no_amplification}
use morion_os.Cap.Delegate.{delegate_success, revoke_after_grant_twice}
use morion_os.Cap.Handles.{HandleTable, handle_issue, handle_lookup, handle_move}
use morion_os.Cap.Handles.Issue.{IsSized}
use morion_os.Cap.Handles.Move.{IsFull, Moved, handle_move_lem}

-- Domain 0 may send to domain 1 and may spawn; domain 1 has nothing.
abbrev first_row : Slots Capability
first_row = some (send_to 1) ∷ some spawn ∷ replicate 30 none

abbrev two_domains : CapTable
two_domains = first_row ∷ empty_row ∷ []

abbrev after_send : CapTable
after_send = first_row ∷ (some spawn ∷ replicate 31 none) ∷ []

-- A full row.
abbrev full_target : CapTable
full_target = first_row ∷ replicate 32 (some fb) ∷ []

handed_over : run two_domains (sends 0 1 kind_spawn 0 ∷ []) ≡ some after_send
unfolding run decode has holds delegate Capability-discrete contains first_empty Table.give
    Table.store
handed_over = refl

run_no_amplification_example : ((e : ℕ) × (holds two_domains e spawn ≡ true)) ⊎ IsDefault spawn
unfolding holds contains Capability-discrete
run_no_amplification_example =
    run_no_amplification two_domains after_send (sends 0 1 kind_spawn 0 ∷ []) 1 spawn handed_over
      refl

decode-pack_audit_example :
    (decode (pack_audit (io_port 0x1f0 8) / 2 ^ 56 - 1) (pack_audit (io_port 0x1f0 8) % 2 ^ 56)
      ≡ some (io_port 0x1f0 8))
    × (0 < pack_audit (io_port 0x1f0 8))
unfolding code
decode-pack_audit_example = decode-pack_audit (io_port 0x1f0 8) (omega arith) (omega arith)

delegate_ran : (delegate two_domains 0 1 spawn).1 ≡ true
unfolding holds delegate Capability-discrete contains first_empty Table.give Table.store
delegate_ran = refl

delegate_success_example :
    (holds two_domains 0 spawn ≡ true)
    × (holds (delegate two_domains 0 1 spawn).0 1 spawn ≡ true)
    × ((e : ℕ) (x : Capability)
        → (holds (delegate two_domains 0 1 spawn).0 e x ≡ true)
          ↔ ((holds two_domains e x ≡ true) ⊎ (◌≡◌ {A = ℕ} 1 e) × (spawn ≡ x)))
delegate_success_example = delegate_success two_domains 0 1 spawn delegate_ran

-- Domain 0 with `spawn` twice.
abbrev granted_twice : CapTable
granted_twice = (some (send_to 1) ∷ some spawn ∷ some spawn ∷ replicate 29 none) ∷ empty_row ∷ []

abbrev revoked_once : CapTable
revoked_once = (some (send_to 1) ∷ none ∷ some spawn ∷ replicate 29 none) ∷ empty_row ∷ []

revoke_after_grant_twice_example : holds revoked_once 0 spawn ≡ true
unfolding holds grant revoke Capability-discrete contains first_empty position Table.store
    Table.erase
revoke_after_grant_twice_example =
    revoke_after_grant_twice two_domains granted_twice revoked_once 0 spawn true refl refl refl

-- A port that the IDE range covers, and the first one behind it.
ide_ports :
    (has_port ((some (io_port 0x1f0 8) ∷ replicate 31 none) ∷ []) 0 0x1f7 ≡ true)
    × (has_port ((some (io_port 0x1f0 8) ∷ replicate 31 none) ∷ []) 0 0x1f8 ≡ false)
unfolding has_port port_in_range
ide_ports = (refl, refl)

-- Domain 0 has one handle, to the object 77.
abbrev handles : HandleTable
handles = (none ∷ some 77 ∷ replicate 30 none) ∷ replicate 32 none ∷ []

handles-IsSized : IsSized handles
handles-IsSized zero s h = omega (arith, ap length (some_inj h))
handles-IsSized (suc zero) s h = omega (arith, ap length (some_inj h))
handles-IsSized (suc (suc d)) s h = absurd (cc h)

handle_move_lem_example :
    ((handle_move handles 0 1 1 ≡ (handles, u64_max))
      × ((handle_lookup handles 0 1 ≡ none) ⊎ IsFull handles 0 1 1 handles-IsSized))
    ⊎ ((o : ℕ) × (handle_lookup handles 0 1 ≡ some o)
        × ((handle_move handles 0 1 1).1 ≢ u64_max)
        × ((handle_lookup handles 1 (handle_move handles 0 1 1).1 ≡ none)
            ⊎ (◌≡◌ {A = ℕ} 0 1 × (1 ≡ (handle_move handles 0 1 1).1)))
        × Moved handles 0 1 1 handles-IsSized o
            (handle_move handles 0 1 1).1
            (handle_move handles 0 1 1).0)
handle_move_lem_example = handle_move_lem handles 0 1 1 handles-IsSized

-- The handle 1 of domain 0 becomes the handle 0 of domain 1.
moved_to_zero : (handle_move handles 0 1 1).1 ≡ 0
unfolding handle_move handle_issue handle_lookup first_empty
moved_to_zero = refl
