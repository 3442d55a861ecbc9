-- ===== src/Tcp/Exchange.antt =====
-- Two TCP connections of user/srv/src/netstack_srv.rs that talk to each other, and two cases in which
-- what was sent is not what is sent again.
use morion_os.Prelude.{
  ℕ, ◌+◌, ◌<◌, ◌≡◌, ◌⊎◌, inl, inr, refl, sym, ap, subst, ◌∙◌, true, false, not, ◌||◌, none, List,
  [], ◌∷◌, length, arith, lt→ltb, Bool-cases,
}
use morion_os.Prelude.Elements.{All}
use morion_os.Tcp.{
  established, close_wait, TcpConn, TcpSeg, tcp_psh, tcp_ack, tcp_fin, tcp_max_retx, tcp_seg,
  acks_all, tcp_close, close_in, send_fin, handle_in, tcp_handle, handle_close_wait, is_closed,
  is_syn_sent, pending, is_early, tcp_tick,
}
use morion_os.Tcp.Resend.{tick_frames, due_tick}

-- In CLOSE_WAIT the bytes that the peer has acknowledged are sent again, as if they were new: under the
-- sequence number behind them.
pub tcp_tick-acked :
    (c : TcpConn) (seg : TcpSeg) (now t : ℕ)
    → c.state ≡ close_wait
    → 0 < length c.tx
    → acks_all c seg ≡ true
    → c.retx < tcp_max_retx
    → is_early c t ≡ false
    → (tcp_tick (tcp_handle c seg now).0 t).1 ≡ tcp_seg c.snd_nxt c.rcv_nxt (tcp_psh + tcp_ack) c.tx
unfolding tcp_handle handle_in handle_close_wait
tcp_tick-acked c seg now t s some_bytes acked few due =
    let d : TcpConn = record c { snd_una = c.snd_nxt } in
    let handled : (tcp_handle c seg now).0 ≡ d =
      subst (λ st. (handle_in st c seg now).0 ≡ d) (sym s) (rw acked refl) in
    let syn : is_syn_sent c.state ≡ false = ap is_syn_sent s in
    let waits : pending d ≡ true = rw (syn, lt→ltb 0 (length c.tx) some_bytes) refl in
    subst (λ e. (tcp_tick e t).1 ≡ tcp_seg c.snd_nxt c.rcv_nxt (tcp_psh + tcp_ack) c.tx)
      (sym handled)
      (elim (due_tick d t (ap is_closed s) waits due (omega (arith, few))) [
        | inl (many, _) ↦ absurd (omega (arith, many, few))
        | inr (_, _, frame) ↦ frame ∙ rw syn refl
      ])

quiet : (ts : List ℕ) (c : TcpConn) → pending c ≡ false → All (λ f. f ≡ none) (tick_frames c ts)
unfolding tick_frames tcp_tick
quiet [] c h = _
quiet (t ∷ ts) c h = elim (Bool-cases (is_closed c.state)) [
  | inl e ↦ rw (e, tcp_tick) (refl, quiet ts c h)
  | inr e ↦
      let e' : (not (pending c) || is_early c t) ≡ true = rw h refl in
      rw (e, e', tcp_tick) (refl, quiet ts c h)
]

-- A FIN is sent once: the timer never sends it again, however long it is not acknowledged.
pub tcp_close-quiet :
    (c : TcpConn) (now : ℕ) (ts : List ℕ)
    → (c.state ≡ established) ⊎ (c.state ≡ close_wait)
    → ((tcp_close c now).1 ≡ tcp_seg c.snd_nxt c.rcv_nxt (tcp_fin + tcp_ack) [])
      × All (λ f. f ≡ none) (tick_frames (tcp_close c now).0 ts)
unfolding tcp_close close_in
tcp_close-quiet c now ts (inl s) =
    subst
      (λ st.
        ((close_in st c now).1 ≡ tcp_seg c.snd_nxt c.rcv_nxt (tcp_fin + tcp_ack) [])
        × All (λ f. f ≡ none) (tick_frames (close_in st c now).0 ts))
      (sym s) (refl, quiet ts (send_fin c now).0 refl)
tcp_close-quiet c now ts (inr s) =
    subst
      (λ st.
        ((close_in st c now).1 ≡ tcp_seg c.snd_nxt c.rcv_nxt (tcp_fin + tcp_ack) [])
        × All (λ f. f ≡ none) (tick_frames (close_in st c now).0 ts))
      (sym s) (refl, quiet ts (send_fin c now).0 refl)
