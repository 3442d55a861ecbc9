-- ===== src/Tcp/Identity.antt =====
-- No operation of a TCP connection of user/srv/src/netstack_srv.rs changes whose it is.
use morion_os.Prelude.{
  ℕ, ◌+◌, ◌%◌, ◌^◌, ◌≡◌, inl, inr, refl, Bool, not, ◌&&◌, ◌||◌, List, length, ltb, ◌==◌, Bool-cases,
}
use morion_os.Tcp.{
  TcpState, closed, listen, syn_sent, syn_rcvd, established, fin_wait1, fin_wait2, close_wait,
  time_wait, TcpRole, TcpConn, TcpSeg, tcp_syn, tcp_rst, tcp_fin, tcp_rto_ms, tcp_max_retx,
  has_flag, in_order, take_data, acks_all, is_closed, is_established, pending, is_early, tcp_send,
  close_in, handle_in, handle_syn_sent, handle_syn_rcvd, handle_established, handle_close_wait,
  handle_fin_wait1, handle_fin_wait2, tcp_tick,
}

-- who a connection belongs to
abbrev pub Identity : Type 0
Identity = (ℕ × TcpRole) × (ℕ × Bool)

abbrev pub identity : TcpConn → Identity
identity c = ((c.owner, c.role), (c.local_port, c.accepted))

take_data-identity : (c : TcpConn) (seg : TcpSeg) → identity (take_data c seg) ≡ identity c
unfolding take_data
take_data-identity c seg = elim (Bool-cases (in_order c seg)) [
  | inl e ↦ rw e refl
  | inr e ↦ rw e refl
]

pub tcp_handle-identity :
    (s : TcpState) (c : TcpConn) (seg : TcpSeg) (now : ℕ)
    → identity (handle_in s c seg now).0 ≡ identity c
unfolding handle_in handle_syn_sent handle_syn_rcvd handle_established handle_close_wait
    handle_fin_wait1 handle_fin_wait2
tcp_handle-identity closed c seg now = refl
tcp_handle-identity listen c seg now = refl
tcp_handle-identity time_wait c seg now = refl
tcp_handle-identity syn_sent c seg now = elim (Bool-cases (has_flag tcp_rst seg)) [
  | inl e ↦ rw e refl
  | inr e ↦
      elim (Bool-cases ((has_flag tcp_syn seg && has_flag 0x10 seg) && seg.ack == c.snd_nxt)) [
        | inl e' ↦ rw (e, e') refl
        | inr e' ↦ rw (e, e') refl
      ]
]
tcp_handle-identity syn_rcvd c seg now = elim (Bool-cases (has_flag tcp_rst seg)) [
  | inl e ↦ rw e refl
  | inr e ↦ elim (Bool-cases (acks_all c seg && not (c.snd_una == c.snd_nxt))) [
    | inl a ↦
        rw (e, a)
          (take_data-identity
            (record c { snd_una = c.snd_nxt; state = established; retx = 0; rto_ms = tcp_rto_ms })
            seg)
    | inr a ↦ rw (e, a) (take_data-identity c seg)
  ]
]
tcp_handle-identity established c seg now =
    let d = take_data c seg in
    let same = take_data-identity c seg in
    elim (Bool-cases (has_flag tcp_rst seg)) [
      | inl e ↦ rw e refl
      | inr e ↦ elim (Bool-cases (has_flag tcp_fin seg)) [
        | inl f ↦ elim (Bool-cases (acks_all d seg && not (d.snd_una == d.snd_nxt))) [
          | inl a ↦ rw (e, f, a) same
          | inr a ↦ rw (e, f, a) same
        ]
        | inr f ↦ elim (Bool-cases (acks_all d seg && not (d.snd_una == d.snd_nxt))) [
          | inl a ↦ rw (e, f, a) same
          | inr a ↦ rw (e, f, a) same
        ]
      ]
    ]
tcp_handle-identity close_wait c seg now = elim (Bool-cases (acks_all c seg)) [
  | inl e ↦ rw e refl
  | inr e ↦ rw e refl
]
tcp_handle-identity fin_wait1 c seg now = elim (Bool-cases (acks_all c seg)) [
  | inl e ↦ elim (Bool-cases (has_flag tcp_fin seg)) [
    | inl f ↦ rw (e, f) refl
    | inr f ↦ rw (e, f) refl
  ]
  | inr e ↦ elim (Bool-cases (has_flag tcp_fin seg)) [
    | inl f ↦ rw (e, f) refl
    | inr f ↦ rw (e, f) refl
  ]
]
tcp_handle-identity fin_wait2 c seg now = elim (Bool-cases (has_flag tcp_fin seg)) [
  | inl f ↦ rw f refl
  | inr f ↦ rw f refl
]

pub tcp_close-identity :
    (s : TcpState) (c : TcpConn) (now : ℕ) → identity (close_in s c now).0 ≡ identity c
unfolding close_in
tcp_close-identity closed c now = refl
tcp_close-identity listen c now = refl
tcp_close-identity syn_sent c now = refl
tcp_close-identity syn_rcvd c now = refl
tcp_close-identity established c now = refl
tcp_close-identity fin_wait1 c now = refl
tcp_close-identity fin_wait2 c now = refl
tcp_close-identity close_wait c now = refl
tcp_close-identity time_wait c now = refl

pub tcp_send-identity :
    (c : TcpConn) (payload : List ℕ) (now : ℕ) → identity (tcp_send c payload now).0 ≡ identity c
unfolding tcp_send
tcp_send-identity c payload now =
    elim (Bool-cases (not (is_established c.state) || ltb 0 (length c.tx))) [
      | inl e ↦ rw e refl
      | inr e ↦ rw e refl
    ]

pub tcp_tick-identity : (c : TcpConn) (now : ℕ) → identity (tcp_tick c now).0 ≡ identity c
unfolding tcp_tick
tcp_tick-identity c now = elim (Bool-cases (is_closed c.state)) [
  | inl e ↦ rw e refl
  | inr e ↦ elim (Bool-cases (not (pending c) || is_early c now)) [
    | inl e' ↦ rw (e, e') refl
    | inr e' ↦ elim (Bool-cases (ltb tcp_max_retx ((c.retx + 1) % 2 ^ 32))) [
      | inl g ↦ rw (e, e', g) refl
      | inr g ↦ rw (e, e', g) refl
    ]
  ]
]
