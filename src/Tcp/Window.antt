-- ===== src/Tcp/Window.antt =====
-- The send window of a TCP connection of user/srv/src/netstack_srv.rs, over all the events of its
-- life.
use morion_os.Prelude.{
  ℕ, ◌+◌, ◌*◌, ◌%◌, ◌^◌, ◌≤◌, ◌<◌, ◌≡◌, ◌⊎◌, inl, inr, refl, sym, ap, subst, Bool, true, false, not,
  ◌&&◌, Option, none, List, [], ◌∷◌, length, arith, ◌==◌, if◌then◌else◌, ==_iff, Bool-cases, &&_inv,
}
use morion_os.Tcp.{
  TcpState, closed, listen, syn_sent, syn_rcvd, established, fin_wait1, fin_wait2, close_wait,
  time_wait, TcpConn, TcpSeg, Frame, tcp_rto_ms, tcp_max_retx, tcp_mss, tcp_rst, tcp_fin, tcp_syn,
  tcp_ack, wrapping_add, tcp_connect, tcp_send, tcp_close, is_closed, has_flag, in_order, take_data,
  acks_all, handle_syn_sent, handle_syn_rcvd, handle_established, handle_close_wait,
  handle_fin_wait1, handle_fin_wait2, handle_in, tcp_handle, tcp_tick,
}

-- What happens to a connection: the calls of its owner, the segments of the peer and the clock.
pub data Event : Type 0 where
  connects : ℕ → ℕ → Event
  sends : List ℕ → ℕ → Event
  closes : ℕ → Event
  arrives : TcpSeg → ℕ → Event
  passes : ℕ → Event
  reads : Event

-- `tcp_connect_op` connects a closed connection alone, with a `u32`; `tcp_recv_op` empties the buffer.
unfoldable pub step : TcpConn → Event → TcpConn × Option Frame
unfolding tcp_connect tcp_send tcp_close tcp_handle tcp_tick
step conn (connects isn now) =
    if is_closed conn.state then tcp_connect conn (isn % 2 ^ 32) now else (conn, none)
step conn (sends payload now) = tcp_send conn payload now
step conn (closes now) = tcp_close conn now
step conn (arrives seg now) = tcp_handle conn seg now
step conn (passes now) = tcp_tick conn now
step conn reads = (record conn { rx = [] }, none)

unfoldable pub run : TcpConn → List Event → TcpConn
unfolding step
run conn [] = conn
run conn (e ∷ es) = run (step conn e).0 es

-- The timer: at most five retransmissions, each with twice the time of the one before.
abbrev pub IsTimed : ℕ → ℕ → Type 0
IsTimed retx rto = (retx ≤ tcp_max_retx) × (rto ≡ tcp_rto_ms * 2 ^ retx)

-- A FIN is not acknowledged, nor are up to 1400 bytes before it, which `tcp_close` has dropped.
abbrev pub IsFinOpen : ℕ → ℕ → Type 0
IsFinOpen una nxt = (k : ℕ) × (k ≤ tcp_mss) × (nxt ≡ wrapping_add una (k + 1))

-- What is sent and not acknowledged, by the state: a SYN; exactly the bytes in `tx`; in CLOSE_WAIT
-- those or nothing, where the bytes stay in `tx` when they are acknowledged; in FIN_WAIT1 the FIN with
-- what was dropped before it, in FIN_WAIT2 nothing, and in TIME_WAIT one of the two.
unfoldable pub WindowIn : TcpState → List ℕ → ℕ → ℕ → ℕ → ℕ → Type 0
WindowIn syn_sent tx una nxt retx rto =
    IsTimed retx rto × (tx ≡ []) × (nxt ≡ wrapping_add una 1) × (una < 2 ^ 32)
WindowIn syn_rcvd tx una nxt retx rto =
    IsTimed retx rto × (tx ≡ []) × (nxt ≡ wrapping_add una 1) × (una < 2 ^ 32)
WindowIn established tx una nxt retx rto =
    IsTimed retx rto × (length tx ≤ tcp_mss) × (nxt ≡ wrapping_add una (length tx)) × (una < 2 ^ 32)
WindowIn close_wait tx una nxt retx rto =
    IsTimed retx rto
    × (length tx ≤ tcp_mss)
    × ((nxt ≡ wrapping_add una (length tx)) ⊎ (una ≡ nxt))
    × (una < 2 ^ 32)
WindowIn fin_wait1 tx una nxt retx rto =
    IsTimed retx rto × (tx ≡ []) × IsFinOpen una nxt × (una < 2 ^ 32)
WindowIn fin_wait2 tx una nxt retx rto = IsTimed retx rto × (tx ≡ []) × (una ≡ nxt) × (una < 2 ^ 32)
WindowIn time_wait tx una nxt retx rto =
    IsTimed retx rto × (tx ≡ []) × ((una ≡ nxt) ⊎ IsFinOpen una nxt) × (una < 2 ^ 32)
WindowIn _ tx una nxt retx rto = Unit

unfoldable pub HasWindow : TcpConn → Type 0
unfolding WindowIn
HasWindow c = WindowIn c.state c.tx c.snd_una c.snd_nxt c.retx c.rto_ms

pub fresh_timer : IsTimed 0 tcp_rto_ms
fresh_timer = (omega arith, refl)

take_data-keeps :
    (P : TcpState → List ℕ → ℕ → ℕ → ℕ → ℕ → Type 0) (c : TcpConn) (seg : TcpSeg)
    → P c.state c.tx c.snd_una c.snd_nxt c.retx c.rto_ms
    → let d = take_data c seg in P d.state d.tx d.snd_una d.snd_nxt d.retx d.rto_ms
unfolding take_data
take_data-keeps P c seg h = elim (Bool-cases (in_order c seg)) [ inl e ↦ rw e h | inr e ↦ rw e h ]

-- everything sent is acknowledged
none_left : (tx : List ℕ) (n : ℕ) → tx ≡ [] → n < 2 ^ 32 → WindowIn established tx n n 0 tcp_rto_ms
unfolding WindowIn
none_left tx n e h =
    let zero_long : length tx ≡ 0 = ap length e in
    (fresh_timer, omega (arith, zero_long), omega (arith, zero_long, h), h)

-- the window of a connection whose state is known
pub window_in :
    (c : TcpConn) (s : TcpState)
    → c.state ≡ s
    → HasWindow c
    → WindowIn s c.tx c.snd_una c.snd_nxt c.retx c.rto_ms
unfolding HasWindow
window_in c s e h = subst (λ st. WindowIn st c.tx c.snd_una c.snd_nxt c.retx c.rto_ms) e h

pub of_window :
    (c : TcpConn) (s : TcpState)
    → c.state ≡ s
    → WindowIn s c.tx c.snd_una c.snd_nxt c.retx c.rto_ms
    → HasWindow c
unfolding HasWindow
of_window c s e w = subst (λ st. WindowIn st c.tx c.snd_una c.snd_nxt c.retx c.rto_ms) (sym e) w

handle_syn_sent-window :
    (c : TcpConn) (seg : TcpSeg) (now : ℕ)
    → c.state ≡ syn_sent
    → HasWindow c
    → HasWindow (handle_syn_sent c seg now).0
unfolding handle_syn_sent HasWindow
handle_syn_sent-window c seg now s h = elim (Bool-cases (has_flag tcp_rst seg)) [
  | inl e ↦ rw e _
  | inr e ↦
      elim (Bool-cases ((has_flag tcp_syn seg && has_flag tcp_ack seg) && seg.ack == c.snd_nxt)) [
        | inl e' ↦
            let (_, a) = &&_inv (has_flag tcp_syn seg && has_flag tcp_ack seg) _ e' in
            let same = (==_iff seg.ack c.snd_nxt).0 a in
            let (_, empty, nxt, _) = window_in c syn_sent s h in
            let w = none_left c.tx c.snd_nxt empty (omega (arith, nxt)) in
            rw (e, e')
              (subst (λ u. WindowIn established c.tx u c.snd_nxt 0 tcp_rto_ms) (sym same) w)
        | inr e' ↦ rw (e, e') h
      ]
]

handle_syn_rcvd-window :
    (c : TcpConn) (seg : TcpSeg)
    → c.state ≡ syn_rcvd
    → HasWindow c
    → HasWindow (handle_syn_rcvd c seg).0
unfolding handle_syn_rcvd HasWindow
handle_syn_rcvd-window c seg s h = elim (Bool-cases (has_flag tcp_rst seg)) [
  | inl e ↦ rw e _
  | inr e ↦ elim (Bool-cases (acks_all c seg && not (c.snd_una == c.snd_nxt))) [
    | inl e' ↦
        let (_, empty, nxt, _) = window_in c syn_rcvd s h in
        let w = none_left c.tx c.snd_nxt empty (omega (arith, nxt)) in
        rw (e, e')
          (take_data-keeps WindowIn
            (record c { snd_una = c.snd_nxt; state = established; retx = 0; rto_ms = tcp_rto_ms })
            seg w)
    | inr e' ↦ rw (e, e') (take_data-keeps WindowIn c seg h)
  ]
]

abbrev clear_sent : TcpConn → TcpConn
clear_sent c = record c { snd_una = c.snd_nxt; tx = []; retx = 0; rto_ms = tcp_rto_ms }

-- the acknowledgement in ESTABLISHED
acked_window :
    (c : TcpConn) (b : Bool)
    → WindowIn established c.tx c.snd_una c.snd_nxt c.retx c.rto_ms
    → let d = if b then clear_sent c else c in
      WindowIn established d.tx d.snd_una d.snd_nxt d.retx d.rto_ms
unfolding WindowIn
acked_window c true (_, _, nxt, _) = none_left [] c.snd_nxt refl (omega (arith, nxt))
acked_window c false w = w

-- a window in ESTABLISHED is one in CLOSE_WAIT
half_closed :
    (tx : List ℕ) (una nxt retx rto : ℕ)
    → WindowIn established tx una nxt retx rto
    → WindowIn close_wait tx una nxt retx rto
unfolding WindowIn
half_closed tx una nxt retx rto (t, few, e, b) = (t, few, inl e, b)

handle_established-window :
    (c : TcpConn) (seg : TcpSeg)
    → c.state ≡ established
    → HasWindow c
    → HasWindow (handle_established c seg).0
unfolding handle_established HasWindow
handle_established-window c seg s h =
    let d = take_data c seg in
    let b = acks_all d seg && not (d.snd_una == d.snd_nxt) in
    let (st, w) =
      take_data-keeps (λ st tx u n r o. (st ≡ established) × WindowIn established tx u n r o) c seg
        (s, window_in c established s h) in
    let w' = acked_window d b w in
    let a = if b then clear_sent d else d in
    elim (Bool-cases (has_flag tcp_rst seg)) [
      | inl e ↦ rw e _
      | inr e ↦ elim (Bool-cases (has_flag tcp_fin seg)) [
        | inl f ↦ rw (e, f) (half_closed a.tx a.snd_una a.snd_nxt a.retx a.rto_ms w')
        | inr f ↦ rw (e, f) (of_window a established (same_state d b st) w')
      ]
    ]
  where
    same_state :
        (d : TcpConn) (b : Bool)
        → d.state ≡ established
        → (if b then clear_sent d else d).state ≡ established
    same_state d true e = e
    same_state d false e = e

handle_close_wait-window :
    (c : TcpConn) (seg : TcpSeg)
    → c.state ≡ close_wait
    → HasWindow c
    → HasWindow (handle_close_wait c seg).0
unfolding handle_close_wait HasWindow
handle_close_wait-window c seg s h = elim (Bool-cases (acks_all c seg)) [
  | inl e ↦
      let (t, few, sent, b) = window_in c close_wait s h in
      let small : c.snd_nxt < 2 ^ 32 = elim sent [
        | inl n ↦ omega (arith, n)
        | inr same ↦ omega (arith, same, b)
      ] in
      rw e (
        subst (λ st. WindowIn st c.tx c.snd_nxt c.snd_nxt c.retx c.rto_ms) (sym s)
          (t, few, inr refl, small))
  | inr e ↦ rw e h
]

handle_fin_wait1-window :
    (c : TcpConn) (seg : TcpSeg)
    → c.state ≡ fin_wait1
    → HasWindow c
    → HasWindow (handle_fin_wait1 c seg).0
unfolding handle_fin_wait1 HasWindow
handle_fin_wait1-window c seg s h =
    let (t, empty, (k, few, sent), small) = window_in c fin_wait1 s h in
    let low : c.snd_nxt < 2 ^ 32 = omega (arith, sent) in
    elim (Bool-cases (acks_all c seg)) [
      | inl e ↦ elim (Bool-cases (has_flag tcp_fin seg)) [
        | inl f ↦ rw (e, f) (t, empty, inl refl, low)
        | inr f ↦ rw (e, f) (t, empty, refl, low)
      ]
      | inr e ↦ elim (Bool-cases (has_flag tcp_fin seg)) [
        | inl f ↦ rw (e, f) (t, empty, inr (k, few, sent), small)
        | inr f ↦ rw (e, f) h
      ]
    ]

handle_fin_wait2-window :
    (c : TcpConn) (seg : TcpSeg)
    → c.state ≡ fin_wait2
    → HasWindow c
    → HasWindow (handle_fin_wait2 c seg).0
unfolding handle_fin_wait2 HasWindow
handle_fin_wait2-window c seg s h =
    let (t, empty, same, small) = window_in c fin_wait2 s h in
    elim (Bool-cases (has_flag tcp_fin seg)) [
      | inl f ↦ rw f (t, empty, inl same, small)
      | inr f ↦ rw f h
    ]

pub handle_in-window :
    (s : TcpState) (c : TcpConn) (seg : TcpSeg) (now : ℕ)
    → c.state ≡ s
    → HasWindow c
    → HasWindow (handle_in s c seg now).0
unfolding handle_in
handle_in-window closed c seg now s h = h
handle_in-window listen c seg now s h = h
handle_in-window syn_sent c seg now s h = handle_syn_sent-window c seg now s h
handle_in-window syn_rcvd c seg now s h = handle_syn_rcvd-window c seg s h
handle_in-window established c seg now s h = handle_established-window c seg s h
handle_in-window fin_wait1 c seg now s h = handle_fin_wait1-window c seg s h
handle_in-window fin_wait2 c seg now s h = handle_fin_wait2-window c seg s h
handle_in-window close_wait c seg now s h = handle_close_wait-window c seg s h
handle_in-window time_wait c seg now s h = h
