-- ===== src/Tcp/Authority.antt =====
-- The ports of the TCP sockets of user/srv/src/netstack_srv.rs, through all requests and segments.
use morion_os.Prelude.{
  ℕ, zero, suc, ◌+◌, ◌-◌, ◌*◌, ◌%◌, ◌^◌, ◌≡◌, inl, inr, refl, Bool, true, not, ◌&&◌, ◌||◌, Option,
  some, List, [], ◌∷◌, length, get_or, set, ltb, leb, ◌==◌, Bool-cases, Option-cases,
}
use Prim.Native.Nat.{bit_xor}
use morion_os.Tcp.{
  SrcId, v4, TcpConn, TcpSeg, Frame, new, tcp_mss, is_closed, tcp_connect, tcp_send, tcp_close,
  tcp_tick,
}
use morion_os.Tcp.Identity.{identity, tcp_close-identity, tcp_send-identity, tcp_tick-identity}
use morion_os.Tcp.Sockets.{
  Tcons, sent, max_tcons, tcp_open, tcp_listen_internal, tcp_slot_owned, tcp_accept_internal,
  tcp_bind, tcp_input, tcp_emit_deliver, answered, ip_bytes, tcp_connect_op, tcp_send_op,
  tcp_recv_op, tcp_close_op, tick_one, tick_from, tcp_tick_all,
}
use morion_os.Tcp.Ownership.{
  EarnedBy, AreEarned, earned-set, earned-get, earned-slot, owned-inv, earned-take_slot,
  earned-tcp_listen_internal, earned-tcp_accept_internal, earned-tcp_bind, earned-tcp_input,
  earned-tcp_emit_deliver,
}

-- The calls of the applications, a segment from a link, and the timer.
pub data Request : Type 0 where
  open_socket : ℕ → ℕ → Request
  listen_on : ℕ → ℕ → ℕ → Request
  accept : ℕ → ℕ → Request
  bind_socket : ℕ → ℕ → ℕ → Request
  connect_to : ℕ → ℕ → ℕ → ℕ → ℕ → Request
  send_bytes : ℕ → ℕ → List ℕ → ℕ → ℕ → Request
  receive_bytes close_socket : ℕ → ℕ → ℕ → Request
  arrive : ℕ → SrcId → TcpSeg → ℕ → Request
  tick_all : ℕ → Request

-- What lies outside of the sockets: the kernel's table of ports, the cards, the gateways that are known,
-- and the memory that is mapped.
pub record Outside : Type 0 where
  pub port_owner : ℕ → ℕ
  pub nics : ℕ
  pub gw_known : ℕ → Bool
  pub is_mapped : ℕ → Bool

unfoldable pub serve : Outside → Tcons → Request → Tcons
unfolding tcp_open tcp_listen_internal tcp_accept_internal tcp_bind tcp_connect_op tcp_send_op
    tcp_recv_op tcp_close_op tcp_input tcp_emit_deliver tcp_tick_all
serve o tcons (open_socket nic from) = (tcp_open o.nics tcons nic from).0
serve o tcons (listen_on nic port from) =
    (tcp_listen_internal o.port_owner o.nics tcons nic port from).0
serve o tcons (accept id from) = (tcp_accept_internal tcons id from).0
serve o tcons (bind_socket id port from) = (tcp_bind o.port_owner tcons id port from).0
serve o tcons (connect_to id addr port now from) =
    (tcp_connect_op o.gw_known tcons id addr port now from).0.0
serve o tcons (send_bytes id buf payload now from) =
    (tcp_send_op o.is_mapped tcons id buf payload now from).0.0
serve o tcons (receive_bytes id buf from) = (tcp_recv_op o.is_mapped tcons id buf from).0
serve o tcons (close_socket id now from) = (tcp_close_op tcons id now from).0.0
serve o tcons (arrive nic src seg now) = (tcp_input tcons nic src seg now).0
serve o tcons (tick_all now) = tcp_tick_all tcons now

unfoldable pub serve_all : Outside → Tcons → List Request → Tcons
unfolding serve
serve_all o tcons [] = tcons
serve_all o tcons (r ∷ rs) = serve_all o (serve o tcons r) rs

module _ (o : Outside) where
  earned-answered :
      (tcons : Tcons) (i : ℕ) (c : TcpConn) (r : TcpConn × Option Frame) (nic now : ℕ)
      → AreEarned o.port_owner tcons
      → EarnedBy o.port_owner (identity c)
      → identity r.0 ≡ identity c
      → AreEarned o.port_owner (answered tcons i r nic now).0.0
  earned-answered tcons i c r nic now h e same =
      earned-tcp_emit_deliver o.port_owner (set tcons i r.0) nic (sent r) now
        (earned-set o.port_owner tcons i c r.0 h e same)

  earned-owned :
      (tcons : Tcons) (id from : ℕ) (c : TcpConn)
      → AreEarned o.port_owner tcons
      → tcp_slot_owned tcons id from ≡ some c
      → EarnedBy o.port_owner (identity c)
  earned-owned tcons id from c h e =
      earned-slot o.port_owner tcons id from c h (owned-inv o.port_owner tcons id from c e).0

  earned-tcp_connect_op :
      (tcons : Tcons) (id addr port now from : ℕ)
      → AreEarned o.port_owner tcons
      → AreEarned o.port_owner (tcp_connect_op o.gw_known tcons id addr port now from).0.0
  unfolding tcp_connect_op tcp_connect
  earned-tcp_connect_op tcons id addr port now from h =
      elim (Option-cases (tcp_slot_owned tcons id from)) [
        | inl e ↦ rw e h
        | inr (c, e) ↦ elim (Bool-cases (not (o.gw_known c.nic))) [
          | inl f ↦ rw (e, f) h
          | inr f ↦ elim (Bool-cases (c.local_port == 0 || not (is_closed c.state))) [
            | inl g ↦ rw (e, f, g) h
            | inr g ↦
                let d = record c { remote = v4 (ip_bytes addr); remote_port = port % 2 ^ 16 } in
                let isn = bit_xor 0x4d4f0000 (id % 2 ^ 32 * 0x01010101 % 2 ^ 32) in
                rw (e, f, g)
                  (earned-answered tcons (id - 1) c (tcp_connect d isn now) c.nic now h
                    (earned-owned tcons id from c h e) refl)
          ]
        ]
      ]

  earned-tcp_send_op :
      (tcons : Tcons) (id buf : ℕ) (payload : List ℕ) (now from : ℕ)
      → AreEarned o.port_owner tcons
      → AreEarned o.port_owner (tcp_send_op o.is_mapped tcons id buf payload now from).0.0
  unfolding tcp_send_op
  earned-tcp_send_op tcons id buf payload now from h =
      elim (Bool-cases (
        ((buf == 0 || length payload == 0) || ltb tcp_mss (length payload))
        || not (o.is_mapped buf))) [
          | inl e ↦ rw e h
          | inr e ↦ elim (Option-cases (tcp_slot_owned tcons id from)) [
            | inl f ↦ rw (e, f) h
            | inr (c, f) ↦
                rw (e, f)
                  (earned-answered tcons (id - 1) c (tcp_send c payload now) c.nic now h
                    (earned-owned tcons id from c h f) (tcp_send-identity c payload now))
          ]
        ]

  earned-tcp_recv_op :
      (tcons : Tcons) (id buf from : ℕ)
      → AreEarned o.port_owner tcons
      → AreEarned o.port_owner (tcp_recv_op o.is_mapped tcons id buf from).0
  unfolding tcp_recv_op
  earned-tcp_recv_op tcons id buf from h = elim (Bool-cases (buf == 0 || not (o.is_mapped buf))) [
    | inl e ↦ rw e h
    | inr e ↦ elim (Option-cases (tcp_slot_owned tcons id from)) [
      | inl f ↦ rw (e, f) h
      | inr (c, f) ↦
          rw (e, f)
            (earned-set o.port_owner tcons (id - 1) c (record c { rx = [] }) h
              (earned-owned tcons id from c h f) refl)
    ]
  ]

  earned-tcp_close_op :
      (tcons : Tcons) (id now from : ℕ)
      → AreEarned o.port_owner tcons
      → AreEarned o.port_owner (tcp_close_op tcons id now from).0.0
  unfolding tcp_close_op tcp_close
  earned-tcp_close_op tcons id now from h = elim (Option-cases (tcp_slot_owned tcons id from)) [
    | inl e ↦ rw e h
    | inr (c, e) ↦
        let owned = earned-owned tcons id from c h e in
        elim (Option-cases (tcp_close c now).1) [
          | inl f ↦ rw (e, f) (earned-set o.port_owner tcons (id - 1) new new h (inl refl) refl)
          | inr (g, f) ↦
              rw (e, f)
                (earned-tcp_emit_deliver o.port_owner (set tcons (id - 1) (tcp_close c now).0) c.nic
                  (some ((tcp_close c now).0, g)) now
                  (earned-set o.port_owner tcons (id - 1) c (tcp_close c now).0 h owned
                    (tcp_close-identity c.state c now)))
        ]
  ]

  earned-tick_one :
      (tcons : Tcons) (i now : ℕ)
      → AreEarned o.port_owner tcons
      → AreEarned o.port_owner (tick_one tcons i now).0
  unfolding tick_one
  earned-tick_one tcons i now h =
      let c = get_or tcons i new in
      elim (Bool-cases (c.used && not (is_closed c.state))) [
        | inl e ↦ rw e (
            earned-tcp_emit_deliver o.port_owner (set tcons i (tcp_tick c now).0) c.nic
              (sent (tcp_tick c now)) now
              (earned-set o.port_owner tcons i c (tcp_tick c now).0 h
                (earned-get o.port_owner tcons i h) (tcp_tick-identity c now)))
        | inr e ↦ rw e h
      ]

  earned-tick_from :
      (n i : ℕ) (tcons : Tcons) (now : ℕ)
      → AreEarned o.port_owner tcons
      → AreEarned o.port_owner (tick_from n i tcons now)
  unfolding tick_from
  earned-tick_from zero i tcons now h = h
  earned-tick_from (suc n) i tcons now h =
      earned-tick_from n (i + 1) (tick_one tcons i now).0 now (earned-tick_one tcons i now h)

  earned-tcp_open :
      (tcons : Tcons) (nic from : ℕ)
      → AreEarned o.port_owner tcons
      → AreEarned o.port_owner (tcp_open o.nics tcons nic from).0
  unfolding tcp_open
  earned-tcp_open tcons nic from h = elim (Bool-cases (leb o.nics nic)) [
    | inl e ↦ rw e h
    | inr e ↦ rw e (
        earned-take_slot o.port_owner tcons (record new { used = true; owner = from; nic = nic }) h
          (inl refl))
  ]

  earned-serve :
      (tcons : Tcons) (r : Request)
      → AreEarned o.port_owner tcons
      → AreEarned o.port_owner (serve o tcons r)
  unfolding serve tcp_open tcp_tick_all
  earned-serve tcons (open_socket nic from) h = earned-tcp_open tcons nic from h
  earned-serve tcons (listen_on nic port from) h =
      earned-tcp_listen_internal o.port_owner o.nics tcons nic port from h
  earned-serve tcons (accept id from) h = earned-tcp_accept_internal o.port_owner tcons id from h
  earned-serve tcons (bind_socket id port from) h =
      earned-tcp_bind o.port_owner tcons id port from h
  earned-serve tcons (connect_to id addr port now from) h =
      earned-tcp_connect_op tcons id addr port now from h
  earned-serve tcons (send_bytes id buf payload now from) h =
      earned-tcp_send_op tcons id buf payload now from h
  earned-serve tcons (receive_bytes id buf from) h = earned-tcp_recv_op tcons id buf from h
  earned-serve tcons (close_socket id now from) h = earned-tcp_close_op tcons id now from h
  earned-serve tcons (arrive nic src seg now) h =
      earned-tcp_input o.port_owner tcons nic src seg now h
  earned-serve tcons (tick_all now) h = earned-tick_from max_tcons 0 tcons now h

-- Whatever the applications ask for and the network sends: a connection on a port belongs to the domain
-- to which the kernel gave this port, except for the server side of a connection before it is accepted.
pub serve_all-AreEarned :
    (o : Outside) (tcons : Tcons) (rs : List Request)
    → AreEarned o.port_owner tcons
    → AreEarned o.port_owner (serve_all o tcons rs)
unfolding serve_all
serve_all-AreEarned o tcons [] h = h
serve_all-AreEarned o tcons (r ∷ rs) h =
    serve_all-AreEarned o (serve o tcons r) rs (earned-serve o tcons r h)
