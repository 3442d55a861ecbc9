-- ===== src/Tcp/Resend.antt =====
-- The retransmission of a TCP connection of user/srv/src/netstack_srv.rs.
use morion_os.Prelude.{
  ℕ, ◌+◌, ◌*◌, ◌%◌, ◌^◌, ◌≤◌, ◌<◌, ◌≡◌, ◌≢◌, ◌⊎◌, inl, inr, refl, sym, ap, subst, ◌∙◌, true, false,
  not, ◌||◌, Option, List, [], ◌∷◌, length, take, length-take, arith, ltb, if◌then◌else◌, ltb→lt,
  lt→ltb, Bool-cases, ltb-false,
}
use morion_os.Prelude.Elements.{All}
use morion_os.Tcp.{
  TcpState, closed, listen, syn_sent, syn_rcvd, established, fin_wait1, fin_wait2, close_wait,
  time_wait, TcpConn, Frame, tcp_rto_ms, tcp_max_retx, tcp_mss, tcp_psh, tcp_ack, tcp_seg,
  wrapping_add, tcp_send, is_established, is_closed, is_syn_sent, pending, is_early, tcp_tick,
}
use morion_os.Tcp.Timer.{is_closed-inv}
use morion_os.Tcp.Window.{WindowIn, HasWindow, window_in}

-- Several calls of the timer, and the frames that they send.
unfoldable pub ticks : TcpConn → List ℕ → TcpConn
ticks c [] = c
ticks c (t ∷ ts) = ticks (tcp_tick c t).0 ts

unfoldable pub tick_frames : TcpConn → List ℕ → List (Option Frame)
tick_frames c [] = []
tick_frames c (t ∷ ts) = (tcp_tick c t).1 ∷ tick_frames (tcp_tick c t).0 ts

-- each of the calls comes when the time is over
unfoldable pub AreDue : TcpConn → List ℕ → Type 0
AreDue c [] = Unit
AreDue c (t ∷ ts) = (is_early c t ≡ false) × AreDue (tcp_tick c t).0 ts

pub due_tick :
    (c : TcpConn) (t : ℕ)
    → is_closed c.state ≡ false
    → pending c ≡ true
    → is_early c t ≡ false
    → c.retx ≤ tcp_max_retx
    → ((5 ≤ c.retx) × ((tcp_tick c t).0.state ≡ closed))
      ⊎ ((c.retx < 5)
          × ((tcp_tick c t).0
              ≡ record c { retx = c.retx + 1; last_tx_ms = t; rto_ms = c.rto_ms * 2 % 2 ^ 64 })
          × ((tcp_tick c t).1 ≡ (
              if is_syn_sent c.state
              then tcp_seg c.snd_una 0 2 []
              else tcp_seg c.snd_una c.rcv_nxt (tcp_psh + tcp_ack) c.tx)))
unfolding tcp_tick
due_tick c t op p due few =
    let e' : (not (pending c) || is_early c t) ≡ false = rw (p, due) refl in
    let wrap : (c.retx + 1) % 2 ^ 32 ≡ c.retx + 1 = omega arith in
    elim (Bool-cases (ltb tcp_max_retx (c.retx + 1))) [
      | inl g ↦ inl (omega (arith, ltb→lt _ _ g), rw (op, e', wrap, g) refl)
      | inr g ↦
          inr (omega (arith, ltb-false _ _ g), rw (op, e', wrap, g) refl, rw (op, e', wrap, g) refl)
    ]

is_syn_sent-inv : (s : TcpState) → is_syn_sent s ≡ true → s ≡ syn_sent
is_syn_sent-inv closed h = absurd (cc)
is_syn_sent-inv listen h = absurd (cc)
is_syn_sent-inv syn_sent h = refl
is_syn_sent-inv syn_rcvd h = absurd (cc)
is_syn_sent-inv established h = absurd (cc)
is_syn_sent-inv fin_wait1 h = absurd (cc)
is_syn_sent-inv fin_wait2 h = absurd (cc)
is_syn_sent-inv close_wait h = absurd (cc)
is_syn_sent-inv time_wait h = absurd (cc)

ticks-closed : (ts : List ℕ) (c : TcpConn) → c.state ≡ closed → (ticks c ts).state ≡ closed
unfolding ticks tcp_tick
ticks-closed [] c h = h
ticks-closed (t ∷ ts) c h =
    let e : is_closed c.state ≡ true = ap is_closed h in
    ticks-closed ts (tcp_tick c t).0 (rw (e, tcp_tick) h)

gives_up :
    (ts : List ℕ) (c : TcpConn)
    → pending c ≡ true
    → c.retx ≤ tcp_max_retx
    → AreDue c ts
    → 6 ≤ length ts + c.retx
    → (ticks c ts).state ≡ closed
unfolding ticks AreDue
gives_up [] c p few due long = absurd (omega arith)
gives_up (t ∷ ts) c p few (due, dues) long = elim (Bool-cases (is_closed c.state)) [
  | inl e ↦ ticks-closed (t ∷ ts) c (is_closed-inv c.state e)
  | inr e ↦ elim (due_tick c t e p due few) [
    | inl (_, shut) ↦ ticks-closed ts (tcp_tick c t).0 shut
    | inr (less, same, _) ↦
        gives_up ts (tcp_tick c t).0 (subst (λ d. pending d ≡ true) (sym same) p)
          (subst (λ d. d.retx ≤ tcp_max_retx) (sym same) (omega (arith, less))) dues
          (subst (λ d. 6 ≤ length ts + d.retx) (sym same) (omega arith))
  ]
]

tick_idle : (c : TcpConn) (t : ℕ) → pending c ≡ false → (tcp_tick c t).0 ≡ c
unfolding tcp_tick
tick_idle c t p = elim (Bool-cases (is_closed c.state)) [
  | inl e ↦ rw e refl
  | inr e ↦ rw (e, p) refl
]

ticks_idle : (ts : List ℕ) (c : TcpConn) → pending c ≡ false → ticks c ts ≡ c
unfolding ticks
ticks_idle [] c p = refl
ticks_idle (t ∷ ts) c p =
    let same = tick_idle c t p in ap (λ d. ticks d ts) same ∙ ticks_idle ts c p

-- Six calls of the timer that come in due time, less one for each retransmission before, close a
-- connection with at most five of these that waits in SYN_SENT or keeps bytes for resending, if
-- nothing else happens to it. Every other connection they leave as it is, such as one in SYN_RCVD
-- or FIN_WAIT1 that keeps no bytes.
pub ticks_give_up :
    (ts : List ℕ) (c : TcpConn)
    → c.retx ≤ tcp_max_retx
    → AreDue c ts
    → 6 ≤ length ts + c.retx
    → (((c.state ≡ syn_sent) ⊎ (0 < length c.tx)) × ((ticks c ts).state ≡ closed))
      ⊎ ((c.state ≢ syn_sent) × (c.tx ≡ []) × (ticks c ts ≡ c))
ticks_give_up ts c few due long = elim (Bool-cases (is_syn_sent c.state)) [
  | inl s ↦ inl (inl (is_syn_sent-inv c.state s), gives_up ts c (rw s refl) few due long)
  | inr s ↦ elim (Bool-cases (ltb 0 (length c.tx))) [
    | inl b ↦ inl (inr (ltb→lt _ _ b), gives_up ts c (rw (s, b) refl) few due long)
    | inr b ↦ inr (other c.state s, no_bytes c.tx b, ticks_idle ts c (rw (s, b) refl))
  ]
]
  where
    other : (s : TcpState) → is_syn_sent s ≡ false → s ≢ syn_sent
    other s e h = cc (e, ap is_syn_sent h)

    no_bytes : (tx : List ℕ) → ltb 0 (length tx) ≡ false → tx ≡ []
    no_bytes [] e = refl
    no_bytes (x ∷ tx) e = absurd (omega (arith, ltb-false 0 (length (x ∷ tx)) e))

resends :
    (ts : List ℕ) (d : TcpConn)
    → d.state ≡ established
    → 0 < length d.tx
    → d.retx + length ts ≤ 5
    → AreDue d ts
    → All (λ f. f ≡ tcp_seg d.snd_una d.rcv_nxt (tcp_psh + tcp_ack) d.tx) (tick_frames d ts)
unfolding AreDue tick_frames
resends [] d s some_bytes few due = _
resends (t ∷ ts) d s some_bytes few (due, dues) =
    let op : is_closed d.state ≡ false = ap is_closed s in
    let syn : is_syn_sent d.state ≡ false = ap is_syn_sent s in
    let waits : pending d ≡ true = rw (syn, lt→ltb 0 (length d.tx) some_bytes) refl in
    elim (due_tick d t op waits due (omega (arith, few))) [
      | inl (many, _) ↦ absurd (omega (arith, few, many))
      | inr (_, same, frame) ↦ (
        frame ∙ rw syn refl,
        subst
            (λ e.
              AreDue e ts
              → All (λ f. f ≡ tcp_seg d.snd_una d.rcv_nxt (tcp_psh + tcp_ack) d.tx)
                  (tick_frames e ts))
            (sym same)
            (resends ts
              (record d { retx = d.retx + 1; last_tx_ms = t; rto_ms = d.rto_ms * 2 % 2 ^ 64 }) s
              some_bytes (omega (arith, few)))
            dues,
      )
    ]

-- The frames of the timer after a `tcp_send` are the frame that it sent, as long as it is not answered:
-- the first five calls in due time send it again unchanged.
pub tcp_send-resent :
    (ts : List ℕ) (c : TcpConn) (payload : List ℕ) (now : ℕ)
    → HasWindow c
    → c.state ≡ established
    → c.tx ≡ []
    → 0 < length payload
    → length ts ≤ 5
    → AreDue (tcp_send c payload now).0 ts
    → All (λ f. f ≡ (tcp_send c payload now).1) (tick_frames (tcp_send c payload now).0 ts)
unfolding tcp_send WindowIn
tcp_send-resent ts c payload now w s idle some_bytes few due =
    let bytes = take tcp_mss payload in
    let d : TcpConn = record c {
      tx = bytes;
      retx = 0;
      rto_ms = tcp_rto_ms;
      last_tx_ms = now;
      snd_nxt = wrapping_add c.snd_nxt (length bytes);
    } in
    let blocked : (not (is_established c.state) || ltb 0 (length c.tx)) ≡ false =
      rw (s, idle) refl in
    let sent : tcp_send c payload now ≡ (d, tcp_seg c.snd_nxt c.rcv_nxt (tcp_psh + tcp_ack) bytes) =
      rw (blocked, tcp_send) refl in
    let (_, _, nxt, small) = window_in c established s w in
    let empty : length c.tx ≡ 0 = ap length idle in
    let una : c.snd_una ≡ c.snd_nxt = omega (arith, nxt, small, empty) in
    subst (λ r. AreDue r.0 ts → All (λ f. f ≡ r.1) (tick_frames r.0 ts)) (sym sent)
      (subst
        (λ u.
          AreDue d ts
          → All (λ f. f ≡ tcp_seg u c.rcv_nxt (tcp_psh + tcp_ack) bytes) (tick_frames d ts))
        una
        (resends ts d s (omega (arith, length-take tcp_mss payload, some_bytes))
          (omega (arith, few))))
      due
