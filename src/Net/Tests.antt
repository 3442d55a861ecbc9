-- ===== src/Net/Tests.antt =====
-- Runs of the port table, and its theorems at concrete inputs.
use morion_os.Prelude.{
  ◌≡◌, ◌⊎◌, refl, true, not, ◌&&◌, none, some, List, [], ◌∷◌, ◌++◌, length, replicate, arith, ltb,
  ◌==◌, if◌then◌else◌, u64_max,
}
use morion_os.Cap.{Capability, net}
use morion_os.Cap.Table.{CapTable, has_net_port}
use morion_os.Net.{Binding, max_bindings, is_bound, bind, owner}
use morion_os.Net.Owners.{IsValid, Distinct}
use morion_os.Net.Ports.{binds, run, earned, bind_lem, run-owner-earned}

-- Domain 0 may bind the ports 80 to 89.
abbrev caps : CapTable
caps = (some (net 80 89) ∷ replicate 31 none) ∷ replicate 32 none ∷ []

abbrev bound : List Binding
bound = record { domain = 0; port = 80 } ∷ []

bound-Distinct : Distinct bound
unfolding Distinct is_bound
bound-Distinct = (refl, tt)

bound-IsValid : IsValid bound
bound-IsValid = record { distinct = bound-Distinct; bounded = omega arith }

two_binds : owner (run [] (binds caps 0 80 ∷ binds caps 1 81 ∷ binds caps 1 80 ∷ [])) 80 ≡ 0
unfolding owner run has_net_port morion_os.Cap.net_port_in_range
two_binds = refl

bind_lem_example :
    ((bind caps bound 0 81).1 ≡ (
      has_net_port caps 0 81
      && (if is_bound bound 81 then owner bound 81 == 0 else ltb (length bound) max_bindings)))
    × (owner (bind caps bound 0 81).0 80
        ≡ (if (bind caps bound 0 81).1 && (81 == 80) then 0 else owner bound 80))
    × ((bind caps bound 0 81).0 ≡ (
        if (bind caps bound 0 81).1 && not (is_bound bound 81)
        then bound ++ record { domain = 0; port = 81 } ∷ []
        else bound))
bind_lem_example = bind_lem caps bound 0 81 80 bound-IsValid

run-owner-earned_example :
    ((owner (run [] (binds caps 0 80 ∷ [])) 80 ≡ u64_max)
      ⊎ ((earned (binds caps 0 80 ∷ []) (owner (run [] (binds caps 0 80 ∷ [])) 80) 80 ≡ true)
          × (owner (run (run [] (binds caps 0 80 ∷ [])) (binds caps 1 80 ∷ [])) 80
              ≡ owner (run [] (binds caps 0 80 ∷ [])) 80)))
    × IsValid (run [] (binds caps 0 80 ∷ []))
run-owner-earned_example = run-owner-earned (binds caps 0 80 ∷ []) (binds caps 1 80 ∷ []) 80
