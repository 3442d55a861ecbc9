-- ===== src/Tcp/Timer.antt =====
-- The timer of a TCP connection of user/srv/src/netstack_srv.rs, and the window over its whole life.
use morion_os.Prelude.{
  ℕ, zero, suc, ◌+◌, ◌*◌, ◌%◌, ◌^◌, ◌≤◌, ◌≡◌, inl, inr, refl, sym, subst, Bool, true, false, not,
  ◌||◌, List, [], ◌∷◌, length, take, length-take, arith, ltb, Bool-cases, ltb-false,
}
use morion_os.Tcp.{
  TcpState, closed, listen, syn_sent, syn_rcvd, established, fin_wait1, fin_wait2, close_wait,
  time_wait, TcpConn, tcp_rto_ms, tcp_max_retx, tcp_mss, wrapping_add, tcp_connect, tcp_send,
  close_in, tcp_close, is_established, is_closed, tcp_handle, pending, is_early, tcp_tick,
}
use morion_os.Tcp.Window.{
  Event, connects, sends, closes, arrives, passes, reads, step, run, IsFinOpen, WindowIn, HasWindow,
  window_in, handle_in-window, fresh_timer,
}

doubled :
    (retx rto : ℕ)
    → retx ≤ 4
    → rto ≡ tcp_rto_ms * 2 ^ retx
    → rto * 2 % 2 ^ 64 ≡ tcp_rto_ms * 2 ^ ((retx + 1) % 2 ^ 32)
doubled zero rto h e = omega (arith, e)
doubled (suc zero) rto h e = omega (arith, e)
doubled (suc (suc zero)) rto h e = omega (arith, e)
doubled (suc (suc (suc zero))) rto h e = omega (arith, e)
doubled (suc (suc (suc (suc zero)))) rto h e = omega (arith, e)
doubled (suc (suc (suc (suc (suc n))))) rto h e = absurd (omega (arith, h))

retried :
    (retx rto : ℕ)
    → (retx + 1) % 2 ^ 32 ≤ tcp_max_retx
    → (retx ≤ tcp_max_retx) × (rto ≡ tcp_rto_ms * 2 ^ retx)
    → ((retx + 1) % 2 ^ 32 ≤ tcp_max_retx)
      × (rto * 2 % 2 ^ 64 ≡ tcp_rto_ms * 2 ^ ((retx + 1) % 2 ^ 32))
retried retx rto few (h, e) = (few, doubled retx rto (omega arith) e)

retry_window :
    (s : TcpState) (tx : List ℕ) (una nxt retx rto : ℕ)
    → (retx + 1) % 2 ^ 32 ≤ tcp_max_retx
    → WindowIn s tx una nxt retx rto
    → WindowIn s tx una nxt ((retx + 1) % 2 ^ 32) (rto * 2 % 2 ^ 64)
unfolding WindowIn
retry_window closed tx una nxt retx rto few w = _
retry_window listen tx una nxt retx rto few w = _
retry_window syn_sent tx una nxt retx rto few (t, a, b, c) = (retried retx rto few t, a, b, c)
retry_window syn_rcvd tx una nxt retx rto few (t, a, b, c) = (retried retx rto few t, a, b, c)
retry_window established tx una nxt retx rto few (t, a, b, c) = (retried retx rto few t, a, b, c)
retry_window fin_wait1 tx una nxt retx rto few (t, a, b, c) = (retried retx rto few t, a, b, c)
retry_window fin_wait2 tx una nxt retx rto few (t, a, b, c) = (retried retx rto few t, a, b, c)
retry_window close_wait tx una nxt retx rto few (t, a, b, c) = (retried retx rto few t, a, b, c)
retry_window time_wait tx una nxt retx rto few (t, a, b, c) = (retried retx rto few t, a, b, c)

tcp_tick-window : (c : TcpConn) (now : ℕ) → HasWindow c → HasWindow (tcp_tick c now).0
unfolding tcp_tick HasWindow
tcp_tick-window c now h = elim (Bool-cases (is_closed c.state)) [
  | inl e ↦ rw e h
  | inr e ↦ elim (Bool-cases (not (pending c) || is_early c now)) [
    | inl e' ↦ rw (e, e') h
    | inr e' ↦ elim (Bool-cases (ltb tcp_max_retx ((c.retx + 1) % 2 ^ 32))) [
      | inl g ↦ rw (e, e', g) _
      | inr g ↦
          rw (e, e', g)
            (retry_window c.state c.tx c.snd_una c.snd_nxt c.retx c.rto_ms (ltb-false _ _ g) h)
    ]
  ]
]

close_in-window :
    (s : TcpState) (c : TcpConn) (now : ℕ)
    → c.state ≡ s
    → HasWindow c
    → HasWindow (close_in s c now).0
unfolding close_in HasWindow
close_in-window closed c now s h = h
close_in-window listen c now s h = h
close_in-window syn_sent c now s h = h
close_in-window syn_rcvd c now s h = h
close_in-window established c now s h =
    let (_, few, nxt, small) = window_in c established s h in
    (fresh_timer, refl, (length c.tx, few, omega (arith, nxt, small)), small)
close_in-window fin_wait1 c now s h = h
close_in-window fin_wait2 c now s h = h
close_in-window close_wait c now s h =
    let (_, few, sent, small) = window_in c close_wait s h in
    let fin : IsFinOpen c.snd_una (wrapping_add c.snd_nxt 1) = elim sent [
      | inl nxt ↦ (length c.tx, few, omega (arith, nxt, small))
      | inr same ↦ (0, omega arith, omega (arith, same))
    ] in
    (fresh_timer, refl, fin, small)
close_in-window time_wait c now s h = h

pub is_closed-inv : (s : TcpState) → is_closed s ≡ true → s ≡ closed
is_closed-inv closed h = refl
is_closed-inv listen h = absurd (cc)
is_closed-inv syn_sent h = absurd (cc)
is_closed-inv syn_rcvd h = absurd (cc)
is_closed-inv established h = absurd (cc)
is_closed-inv fin_wait1 h = absurd (cc)
is_closed-inv fin_wait2 h = absurd (cc)
is_closed-inv close_wait h = absurd (cc)
is_closed-inv time_wait h = absurd (cc)

is_established-inv : (s : TcpState) → is_established s ≡ true → s ≡ established
is_established-inv closed h = absurd (cc)
is_established-inv listen h = absurd (cc)
is_established-inv syn_sent h = absurd (cc)
is_established-inv syn_rcvd h = absurd (cc)
is_established-inv established h = refl
is_established-inv fin_wait1 h = absurd (cc)
is_established-inv fin_wait2 h = absurd (cc)
is_established-inv close_wait h = absurd (cc)
is_established-inv time_wait h = absurd (cc)

tcp_send-window :
    (c : TcpConn) (payload : List ℕ) (now : ℕ) → HasWindow c → HasWindow (tcp_send c payload now).0
unfolding tcp_send HasWindow
tcp_send-window c payload now h =
    elim (Bool-cases (not (is_established c.state) || ltb 0 (length c.tx))) [
      | inl e ↦ rw e h
      | inr e ↦
          let (open_now, idle) = neither (is_established c.state) (ltb 0 (length c.tx)) e in
          let s = is_established-inv c.state open_now in
          let (_, _, nxt, small) = window_in c established s h in
          let few = length-take tcp_mss payload in
          rw e (
            subst
              (λ st.
                WindowIn st (take tcp_mss payload) c.snd_una
                  (wrapping_add c.snd_nxt (length (take tcp_mss payload))) 0 tcp_rto_ms)
              (sym s)
              (
                fresh_timer,
                omega (arith, few),
                omega (arith, nxt, ltb-false _ _ idle, small),
                small,
              ))
    ]
  where
    neither : (a b : Bool) → (not a || b) ≡ false → (a ≡ true) × (b ≡ false)
    neither true b e = (refl, e)
    neither false b e = absurd (cc)

step-window : (c : TcpConn) (e : Event) → HasWindow c → HasWindow (step c e).0
unfolding step HasWindow tcp_connect tcp_handle tcp_close
step-window c (connects isn now) h = elim (Bool-cases (is_closed c.state)) [
  | inl e ↦ rw e (fresh_timer, refl, refl, omega arith)
  | inr e ↦ rw e h
]
step-window c (sends payload now) h = tcp_send-window c payload now h
step-window c (closes now) h = close_in-window c.state c now refl h
step-window c (arrives seg now) h = handle_in-window c.state c seg now refl h
step-window c (passes now) h = tcp_tick-window c now h
step-window c reads h = h

-- From a connection whose window and timer are as its state says on, whatever its owner calls, the
-- peer sends and the clock does, they stay so. What is not acknowledged is a SYN in SYN_SENT and
-- SYN_RCVD, exactly the bytes kept for resending, at most 1400, in ESTABLISHED, those bytes or
-- nothing in CLOSE_WAIT, the FIN and at most 1400 bytes before it in FIN_WAIT1, nothing in
-- FIN_WAIT2, and one of these two in TIME_WAIT; after the close no bytes are kept. The timer is 300
-- ms, doubled for each of at most five retransmissions. CLOSED and LISTEN promise nothing.
pub run-HasWindow : (c : TcpConn) (es : List Event) → HasWindow c → HasWindow (run c es)
unfolding run
run-HasWindow c [] h = h
run-HasWindow c (e ∷ es) h = run-HasWindow (step c e).0 es (step-window c e h)
