-- ===== src/Tcp/Ownership.antt =====
-- Whose ports the TCP sockets of user/srv/src/netstack_srv.rs are on.
use morion_os.Prelude.{
  ℕ, zero, suc, ◌+◌, ◌-◌, ◌≡◌, ◌⊎◌, inl, inr, refl, sym, ap, subst, ◌∙◌, Bool, true, false, not,
  ◌&&◌, ◌||◌, none, some, [], ◌∷◌, get_elem?, get_or, set, arith, ltb, leb, ◌==◌, ==_iff,
  Bool-cases, Option-cases, >>=-eq-some, some_inj, if-inv, reject-inv, &&_inv, not_inv,
}
use morion_os.Prelude.Elements.{All, All-set, All-get_or, All-get_elem?}
use morion_os.Tcp.{
  TcpRole, client, listener, server, SrcId, v4, TcpConn, TcpSeg, new, tcp_syn, has_flag,
  is_established, tcp_handle,
}
use morion_os.Tcp.Identity.{Identity, identity, tcp_handle-identity}
use morion_os.Tcp.Sockets.{
  Tcons, Sent, max_tcons, our_ip, find_from, take_slot, tcp_listen_internal, tcp_slot,
  tcp_slot_owned, is_listener, is_server, can_accept, tcp_accept_internal, tcp_bind, seg_of,
  same_source, tcp_match, listens_for, server_conn, passive_open, tcp_input, lo_pump,
  tcp_emit_deliver,
}

-- A connection on a port belongs to the domain to which the kernel gave the port, unless it is the
-- server side of a connection that is not accepted yet.
abbrev pub EarnedBy : (ℕ → ℕ) → Identity → Type 0
EarnedBy net_owner ((owner, role), (port, accepted)) =
    (port ≡ 0) ⊎ ((net_owner port ≡ owner) ⊎ ((role ≡ server) × (accepted ≡ false)))

unfoldable pub AreEarned : (ℕ → ℕ) → Tcons → Type 0
AreEarned net_owner tcons = All (λ c. EarnedBy net_owner (identity c)) tcons

module _ (net_owner : ℕ → ℕ) where
  pub earned-set :
      (tcons : Tcons) (i : ℕ) (c d : TcpConn)
      → AreEarned net_owner tcons
      → EarnedBy net_owner (identity c)
      → identity d ≡ identity c
      → AreEarned net_owner (set tcons i d)
  unfolding AreEarned
  earned-set tcons i c d h e same =
      All-set (λ c. EarnedBy net_owner (identity c)) tcons i d h
        (subst (EarnedBy net_owner) (sym same) e)

  pub earned-slot :
      (tcons : Tcons) (id from : ℕ) (c : TcpConn)
      → AreEarned net_owner tcons
      → tcp_slot tcons id ≡ some c
      → EarnedBy net_owner (identity c)
  unfolding AreEarned tcp_slot
  earned-slot tcons zero from c h e = absurd (cc)
  earned-slot tcons (suc i) from c h e =
      let (_, e') = reject-inv (ltb max_tcons (suc i)) _ e in
      let (d, at, e'') = >>=-eq-some (get_elem? tcons i) _ c e' in
      elim (if-inv d.used (some d) none (some c) e'') [
        | inl (_, same) ↦
            subst (λ x. EarnedBy net_owner (identity x)) (some_inj same)
              (All-get_elem? (λ c. EarnedBy net_owner (identity c)) tcons i d h at)
        | inr (_, gone) ↦ absurd (cc)
      ]

  pub owned-inv :
      (tcons : Tcons) (id from : ℕ) (c : TcpConn)
      → tcp_slot_owned tcons id from ≡ some c
      → (tcp_slot tcons id ≡ some c) × (c.owner ≡ from)
  unfolding tcp_slot_owned
  owned-inv tcons id from c e =
      let (d, at, e') = >>=-eq-some (tcp_slot tcons id) _ c e in
      elim (if-inv (d.owner == from) (some d) none (some c) e') [
        | inl (own, same) ↦
            (at ∙ same, subst (λ x. x.owner ≡ from) (some_inj same) ((==_iff d.owner from).0 own))
        | inr (_, gone) ↦ absurd (cc)
      ]

  pub earned-take_slot :
      (tcons : Tcons) (c : TcpConn)
      → AreEarned net_owner tcons
      → EarnedBy net_owner (identity c)
      → AreEarned net_owner (take_slot tcons c).0
  unfolding take_slot AreEarned
  earned-take_slot tcons c h e = elim (Option-cases (find_from (λ d. not d.used) tcons 0)) [
    | inl none_free ↦ rw none_free h
    | inr (i, free) ↦ rw free (All-set (λ c. EarnedBy net_owner (identity c)) tcons i c h e)
  ]

  pub earned-tcp_listen_internal :
      (nics : ℕ) (tcons : Tcons) (nic port from : ℕ)
      → AreEarned net_owner tcons
      → AreEarned net_owner (tcp_listen_internal net_owner nics tcons nic port from).0
  unfolding tcp_listen_internal
  earned-tcp_listen_internal nics tcons nic port from h =
      elim (Bool-cases (leb nics nic || not (net_owner port == from))) [
        | inl e ↦ rw e h
        | inr e ↦ rw e (earned-take_slot tcons _ h (inr (inl (owned (leb nics nic) e))))
      ]
    where
      owned : (a : Bool) → (a || not (net_owner port == from)) ≡ false → net_owner port ≡ from
      owned true e = absurd (cc)
      owned false e = (==_iff (net_owner port) from).0 (not_inv _ e)

  find_from-passes :
      (test : TcpConn → Bool) (tcons : Tcons) (i k : ℕ)
      → find_from test tcons i ≡ some k
      → (j : ℕ) × (k ≡ i + j) × (test (get_or tcons j new) ≡ true)
  unfolding find_from
  find_from-passes test [] i k e = absurd (cc)
  find_from-passes test (c ∷ cs) i k e =
      elim (if-inv (test c) (some i) (find_from test cs (i + 1)) (some k) e) [
        | inl (passed, same) ↦ (0, omega (arith, some_inj same), passed)
        | inr (_, later) ↦
            let (j, at, passed) = find_from-passes test cs (i + 1) k later in
            (suc j, omega (arith, at), passed)
      ]

  -- An accepted connection is on the port of the listener, whose owner it gets.
  pub earned-accepted :
      (l c : TcpConn) (from : ℕ)
      → EarnedBy net_owner (identity l)
      → (is_listener l.role && l.owner == from) ≡ true
      → can_accept l.local_port l.nic c ≡ true
      → EarnedBy net_owner (identity (record c { accepted = true; owner = from }))
  earned-accepted l c from e listens found =
      let (role, owns) = &&_inv (is_listener l.role) _ listens in
      let (early, _) =
        &&_inv
          ((((c.used && is_server c.role) && is_established c.state) && not c.accepted)
            && c.local_port == l.local_port)
          _ found in
      let (_, same) =
        &&_inv (((c.used && is_server c.role) && is_established c.state) && not c.accepted) _
          early in
      let port = (==_iff c.local_port l.local_port).0 same in
      elim e [
        | inl free ↦ inl (port ∙ free)
        | inr (inl own) ↦ inr (inl (ap net_owner port ∙ own ∙ (==_iff l.owner from).0 owns))
        | inr (inr (serves, _)) ↦ absurd (not_both l.role role serves)
      ]
    where
      not_both : (r : TcpRole) → is_listener r ≡ true → r ≡ server → ⊥
      not_both client h _ = absurd (cc)
      not_both server h _ = absurd (cc)
      not_both listener h e = listener_server (sym h ∙ ap is_listener e)
        where
          listener_server : true ≡ false → ⊥
          listener_server e = cc

  pub earned-tcp_accept_internal :
      (tcons : Tcons) (id from : ℕ)
      → AreEarned net_owner tcons
      → AreEarned net_owner (tcp_accept_internal tcons id from).0
  unfolding tcp_accept_internal AreEarned
  earned-tcp_accept_internal tcons id from h = elim (Option-cases (tcp_slot tcons id)) [
    | inl e ↦ rw e h
    | inr (l, e) ↦ elim (Bool-cases (is_listener l.role && l.owner == from)) [
      | inr f ↦ rw (e, f) h
      | inl f ↦ elim (Option-cases (find_from (can_accept l.local_port l.nic) tcons 0)) [
        | inl g ↦ rw (e, f, g) h
        | inr (k, g) ↦
            let (j, at, passed) = find_from-passes (can_accept l.local_port l.nic) tcons 0 k g in
            let k_j : k ≡ j = omega (arith, at) in
            let passed' =
              subst (λ n. can_accept l.local_port l.nic (get_or tcons n new) ≡ true) (sym k_j)
                passed in
            rw (e, f, g)
              (All-set (λ c. EarnedBy net_owner (identity c)) tcons k _ h
                (earned-accepted l (get_or tcons k new) from (earned-slot tcons id from l h e) f
                  passed'))
      ]
    ]
  ]

  pub earned-tcp_bind :
      (tcons : Tcons) (id port from : ℕ)
      → AreEarned net_owner tcons
      → AreEarned net_owner (tcp_bind net_owner tcons id port from).0
  unfolding tcp_bind AreEarned
  earned-tcp_bind tcons id port from h = elim (Bool-cases (net_owner port == from)) [
    | inr e ↦ rw e h
    | inl e ↦ elim (Option-cases (tcp_slot_owned tcons id from)) [
      | inl f ↦ rw (e, f) h
      | inr (c, f) ↦ elim (Bool-cases (c.local_port == 0)) [
        | inr g ↦ rw (e, f, g) h
        | inl g ↦
            let (_, own) = owned-inv tcons id from c f in
            rw (e, f, g)
              (All-set (λ c. EarnedBy net_owner (identity c)) tcons (id - 1)
                (record c { local_port = port }) h
                (inr (inl ((==_iff (net_owner port) from).0 e ∙ sym own))))
      ]
    ]
  ]

  pub earned-get :
      (tcons : Tcons) (i : ℕ)
      → AreEarned net_owner tcons
      → EarnedBy net_owner (identity (get_or tcons i new))
  unfolding AreEarned
  earned-get tcons i h = All-get_or (λ c. EarnedBy net_owner (identity c)) tcons i new h (inl refl)

  pub earned-passive_open :
      (tcons : Tcons) (nic : ℕ) (src : SrcId) (seg : TcpSeg) (now : ℕ)
      → AreEarned net_owner tcons
      → AreEarned net_owner (passive_open tcons nic src seg now).0
  unfolding passive_open server_conn AreEarned
  earned-passive_open tcons nic src seg now h = elim (Bool-cases (not (has_flag tcp_syn seg))) [
    | inl e ↦ rw e h
    | inr e ↦ elim (Option-cases (find_from (listens_for nic seg) tcons 0)) [
      | inl f ↦ rw (e, f) h
      | inr (_, f) ↦ elim (Option-cases (find_from (λ d. not d.used) tcons 0)) [
        | inl g ↦ rw (e, f, g) h
        | inr (si, g) ↦
            rw (e, f, g)
              (All-set (λ c. EarnedBy net_owner (identity c)) tcons si
                (server_conn nic src seg now si) h (inr (inr (refl, refl))))
      ]
    ]
  ]

  pub earned-tcp_input :
      (tcons : Tcons) (nic : ℕ) (src : SrcId) (seg : TcpSeg) (now : ℕ)
      → AreEarned net_owner tcons
      → AreEarned net_owner (tcp_input tcons nic src seg now).0
  unfolding tcp_input tcp_handle
  earned-tcp_input tcons nic src seg now h =
      elim (Option-cases (find_from (tcp_match nic src seg) tcons 0)) [
        | inl e ↦ rw e (earned-passive_open tcons nic src seg now h)
        | inr (i, e) ↦
            let c = get_or tcons i new in
            rw e (
              earned-set tcons i c (tcp_handle c seg now).0 h (earned-get tcons i h)
                (tcp_handle-identity c.state c seg now))
      ]

  pub earned-lo_pump :
      (guard : ℕ) (tcons : Tcons) (nic : ℕ) (frame : Sent) (now : ℕ)
      → AreEarned net_owner tcons
      → AreEarned net_owner (lo_pump guard tcons nic frame now)
  unfolding lo_pump
  earned-lo_pump guard tcons nic none now h = h
  earned-lo_pump zero tcons nic (some (c, f)) now h = h
  earned-lo_pump (suc guard) tcons nic (some (c, f)) now h =
      let r = tcp_input tcons nic (v4 our_ip) (seg_of c f) now in
      earned-lo_pump guard r.0 nic r.1 now
        (earned-tcp_input tcons nic (v4 our_ip) (seg_of c f) now h)

  pub earned-tcp_emit_deliver :
      (tcons : Tcons) (nic : ℕ) (frame : Sent) (now : ℕ)
      → AreEarned net_owner tcons
      → AreEarned net_owner (tcp_emit_deliver tcons nic frame now).0
  unfolding tcp_emit_deliver
  earned-tcp_emit_deliver tcons nic none now h = h
  earned-tcp_emit_deliver tcons nic (some (c, f)) now h =
      elim (Bool-cases (same_source c.remote (v4 our_ip))) [
        | inl e ↦ rw e (earned-lo_pump 32 tcons nic (some (c, f)) now h)
        | inr e ↦ rw e h
      ]
