-- ===== src/Tcp/Dialogue.antt =====
-- Two TCP connections of user/srv/src/netstack_srv.rs that talk to each other: the handshake, and data
-- that is sent, received and acknowledged.
use morion_os.Prelude.{
  ℕ, ◌+◌, ◌<◌, ◌≡◌, ◌≢◌, inl, inr, refl, sym, ap, subst, ◌∙◌, true, false, not, ◌&&◌, ◌||◌, Option,
  none, some, List, [], set, length, take, length-take, arith, ltb, ◌==◌, lt→ltb, ==_iff, ==_self,
  ==_ne, Bool-cases, case_option,
}
use morion_os.Tcp.{
  established, SrcId, TcpConn, TcpSeg, Frame, tcp_psh, tcp_ack, tcp_fin, tcp_rst, tcp_mss, pay_max,
  tcp_rto_ms, tcp_seg, wrapping_add, has_flag, in_order, take_data, acks_all, is_established,
  tcp_connect, tcp_send, handle_in, tcp_handle, handle_established,
}
use morion_os.Tcp.Window.{HasWindow, WindowIn, window_in}
use morion_os.Prelude.Bytes.{take_all}
use morion_os.Tcp.Sockets.{Tcons, seg_of, tcp_input}

-- What the other side does with a frame, if there is one.
abbrev pub pass_on : TcpConn → TcpConn × Option Frame → ℕ → TcpConn × Option Frame
pass_on to (from, f) now = case_option f (to, none) (λ g. tcp_handle to (seg_of from g) now)

-- Both sides are open, and each expects the number that the other one sends next.
abbrev pub InStep : TcpConn → TcpConn → Type 0
InStep a b =
    (a.state ≡ established)
    × (b.state ≡ established)
    × (a.snd_nxt ≡ b.rcv_nxt)
    × (b.snd_nxt ≡ a.rcv_nxt)

-- The SYN that a connection sends, as the other side gets it.
abbrev pub syn_of : TcpConn → ℕ → TcpSeg
syn_of c isn = record {
  sport = c.local_port;
  dport = c.remote_port;
  seq = isn;
  ack = 0;
  flags = 2;
  payload = [];
}

-- The three steps of the handshake: what `tcp_connect` sends goes to the table of the other side, what
-- that sends comes back, and what the client answers goes to the new connection.
abbrev pub Opens : TcpConn → ℕ → Tcons → ℕ → SrcId → ℕ → ℕ → Type 0
Opens c isn tcons nic src now si =
    let r1 = tcp_connect c isn now in
    let r2 = case_option r1.1 (tcons, none) (λ f. tcp_input tcons nic src (seg_of r1.0 f) now) in
    (s : TcpConn) × (f : Frame) × (r2.1 ≡ some (s, f))
    × (r2.0 ≡ set tcons si s)
    × let r3 = tcp_handle r1.0 (seg_of s f) now in
      let r4 = pass_on s r3 now in
      InStep r3.0 r4.0
      × (r4.1 ≡ none)
      × (s.local_port ≡ c.remote_port)
      × (s.remote_port ≡ c.local_port)
      × (s.remote ≡ src)

-- a side that gets the data that it expects
gets_data :
    (b : TcpConn) (seg : TcpSeg) (now : ℕ)
    → b.state ≡ established
    → seg.flags ≡ tcp_psh + tcp_ack
    → in_order b seg ≡ true
    → let r = tcp_handle b seg now in
      let next = wrapping_add b.rcv_nxt (length seg.payload) in
      (r.1 ≡ tcp_seg b.snd_nxt next tcp_ack [])
      × (r.0.state ≡ established)
      × (r.0.snd_nxt ≡ b.snd_nxt)
      × (r.0.rcv_nxt ≡ next)
      × (r.0.rx ≡ take pay_max seg.payload)
unfolding tcp_handle handle_in handle_established take_data
gets_data b seg now s flags order =
    let rst : has_flag tcp_rst seg ≡ false = rw flags refl in
    let fin : has_flag tcp_fin seg ≡ false = rw flags refl in
    let c : TcpConn = record b {
      rx = take pay_max seg.payload;
      rcv_nxt = wrapping_add b.rcv_nxt (length seg.payload);
    } in
    let next = wrapping_add b.rcv_nxt (length seg.payload) in
    subst
      (λ st.
        let r = handle_in st b seg now in
        (r.1 ≡ tcp_seg b.snd_nxt next tcp_ack [])
        × (r.0.state ≡ established)
        × (r.0.snd_nxt ≡ b.snd_nxt)
        × (r.0.rcv_nxt ≡ next)
        × (r.0.rx ≡ take pay_max seg.payload))
      (sym s)
      (elim (Bool-cases (acks_all c seg && not (b.snd_una == b.snd_nxt))) [
        | inl e ↦ rw (rst, fin, order, e) (refl, s, refl, refl, refl)
        | inr e ↦ rw (rst, fin, order, e) (refl, s, refl, refl, refl)
      ])

-- a side that gets the acknowledgement of what it sent
gets_ack :
    (a : TcpConn) (seg : TcpSeg) (now : ℕ)
    → a.state ≡ established
    → seg.flags ≡ tcp_ack
    → seg.payload ≡ []
    → seg.ack ≡ a.snd_nxt
    → a.snd_una ≢ a.snd_nxt
    → tcp_handle a seg now
      ≡ (record a { snd_una = a.snd_nxt; tx = []; retx = 0; rto_ms = tcp_rto_ms }, none)
unfolding tcp_handle handle_in handle_established take_data
gets_ack a seg now s flags empty acked open_now =
    let rst : has_flag tcp_rst seg ≡ false = rw flags refl in
    let fin : has_flag tcp_fin seg ≡ false = rw flags refl in
    let order : in_order a seg ≡ false = rw empty refl in
    let all : acks_all a seg ≡ true = rw (flags, acked, ==_self a.snd_nxt) refl in
    let e : (a.snd_una == a.snd_nxt) ≡ false = ==_ne a.snd_una a.snd_nxt open_now in
    subst
      (λ st.
        handle_in st a seg now
        ≡ (record a { snd_una = a.snd_nxt; tx = []; retx = 0; rto_ms = tcp_rto_ms }, none))
      (sym s) (rw (rst, fin, order, all, e) refl)

-- Data that is sent arrives whole, at most 1400 bytes of it, and its acknowledgement frees the sender:
-- both sides are in step again, with nothing left to resend.
pub data_round :
    (a b : TcpConn) (payload : List ℕ) (now : ℕ)
    → HasWindow a
    → InStep a b
    → a.tx ≡ []
    → 0 < length payload
    → let r1 = tcp_send a payload now in
      let r2 = pass_on b r1 now in
      let r3 = pass_on r1.0 r2 now in
      InStep r3.0 r2.0 × (r2.0.rx ≡ take tcp_mss payload) × (r3.0.tx ≡ []) × (r3.1 ≡ none)
unfolding tcp_send WindowIn
data_round a b payload now w (sa, sb, ab, ba) idle some_bytes =
    let bytes = take tcp_mss payload in
    let a1 : TcpConn = record a {
      tx = bytes;
      retx = 0;
      rto_ms = tcp_rto_ms;
      last_tx_ms = now;
      snd_nxt = wrapping_add a.snd_nxt (length bytes);
    } in
    let f : Frame = record {
      seq = a.snd_nxt;
      ack = a.rcv_nxt;
      flags = tcp_psh + tcp_ack;
      payload = bytes;
    } in
    let blocked : (not (is_established a.state) || ltb 0 (length a.tx)) ≡ false =
      rw (sa, idle) refl in
    let sent : tcp_send a payload now ≡ (a1, some f) = rw (blocked, tcp_send) refl in
    let size = length-take tcp_mss payload in
    let here : ltb 0 (length bytes) ≡ true =
      lt→ltb 0 (length bytes) (omega (arith, size, some_bytes)) in
    let order : in_order b (seg_of a1 f) ≡ true = rw here ((==_iff a.snd_nxt b.rcv_nxt).1 ab) in
    let (answer, sb', bn, br, rx) = gets_data b (seg_of a1 f) now sb refl order in
    let b1 = (tcp_handle b (seg_of a1 f) now).0 in
    let g : Frame = record {
      seq = b.snd_nxt;
      ack = wrapping_add b.rcv_nxt (length bytes);
      flags = tcp_ack;
      payload = [];
    } in
    let whole : take pay_max bytes ≡ bytes = take_all bytes pay_max (omega (arith, size)) in
    let (_, _, nxt, low) = window_in a established sa w in
    let empty : length a.tx ≡ 0 = ap length idle in
    let back =
      gets_ack a1 (seg_of b1 g) now sa refl refl (ap (λ n. wrapping_add n (length bytes)) (sym ab))
        (λ e. omega (arith, e, nxt, low, empty, size, some_bytes)) in
    subst
      (λ r1.
        let r2 = pass_on b r1 now in
        let r3 = pass_on r1.0 r2 now in
        InStep r3.0 r2.0 × (r2.0.rx ≡ bytes) × (r3.0.tx ≡ []) × (r3.1 ≡ none))
      (sym sent)
      (subst
        (λ h.
          let r3 = pass_on a1 (b1, h) now in
          InStep r3.0 b1 × (b1.rx ≡ bytes) × (r3.0.tx ≡ []) × (r3.1 ≡ none))
        (sym answer)
        (subst (λ r3. InStep r3.0 b1 × (b1.rx ≡ bytes) × (r3.0.tx ≡ []) × (r3.1 ≡ none)) (sym back)
          (
            (sa, sb', ap (λ n. wrapping_add n (length bytes)) ab ∙ sym br, bn ∙ ba),
            rx ∙ whole,
            refl,
            refl,
          )))
