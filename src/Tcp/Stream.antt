-- ===== src/Tcp/Stream.antt =====
-- What the owner of a TCP connection of user/srv/src/netstack_srv.rs reads, against the bytes that the
-- peer sends.
use morion_os.Prelude.{
  ℕ, zero, suc, ◌+◌, ◌^◌, ◌≤◌, ◌<◌, ◌≡◌, ◌⊎◌, inl, inr, refl, sym, ap, subst, ◌∙◌, true, not, ◌&&◌,
  List, [], ◌∷◌, ◌++◌, length, take, drop, take_nil, arith, ltb, ◌==◌, if◌then◌else◌, ltb→lt,
  ==_iff, Bool-cases, &&_inv,
}
use morion_os.Prelude.Bytes.{take_all, append_nil}
use morion_os.Prelude.Elements.{All}
use morion_os.Tcp.{
  TcpState, closed, syn_rcvd, established, close_wait, TcpConn, TcpSeg, pay_max, tcp_rst, tcp_fin,
  tcp_rto_ms, wrapping_add, has_flag, in_order, take_data, acks_all, handle_in, tcp_handle,
  handle_close_wait, handle_syn_rcvd, handle_established,
}

-- The owner reads after every segment: `tcp_recv_op` gives `rx` and empties it.
unfoldable pub read_all : TcpConn → List TcpSeg → ℕ → List ℕ
unfolding tcp_handle
read_all c [] now = []
read_all c (seg ∷ segs) now =
    let d = (tcp_handle c seg now).0 in d.rx ++ read_all (record d { rx = [] }) segs now

-- A segment of a peer whose data is `stream`, with the number `start` for the first byte: it carries
-- no data, or the bytes of the stream at its sequence number, and at most 1472 of them.
abbrev pub IsFrom : List ℕ → ℕ → TcpSeg → Type 0
IsFrom stream start seg =
    (seg.payload ≡ [])
    ⊎ ((k : ℕ) × (seg.seq ≡ wrapping_add start k)
        × (seg.payload ≡ take (length seg.payload) (drop k stream))
        × (k + length seg.payload ≤ length stream)
        × (length seg.payload ≤ pay_max))

take-drop : (xs : List ℕ) (n m : ℕ) → take n xs ++ take m (drop n xs) ≡ take (n + m) xs
take-drop xs zero m = ap (λ k. take k xs) (omega arith)
take-drop [] (suc n) m = take_nil ℕ m ∙ sym (take_nil ℕ (suc n + m))
take-drop (x ∷ xs) (suc n) m =
    let e : suc n + m ≡ suc (n + m) = omega arith in rw e (ap (λ l. x ∷ l) (take-drop xs n m))

append_assoc : (xs ys zs : List ℕ) → (xs ++ ys) ++ zs ≡ xs ++ (ys ++ zs)
append_assoc [] ys zs = refl
append_assoc (x ∷ xs) ys zs = ap (λ l. x ∷ l) (append_assoc xs ys zs)

-- A connection that takes no more data.
abbrev IsOver : TcpState → Type 0
IsOver s = (s ≡ closed) ⊎ (s ≡ close_wait)

-- What a segment does to the receiving side: it is over, or the data of the segment was taken exactly
-- if it was in order.
abbrev Received : TcpConn → TcpSeg → TcpConn → Type 0
Received c seg d =
    (d.rx ≡ (if in_order c seg then take pay_max seg.payload else c.rx))
    × (IsOver d.state
        ⊎ (((d.state ≡ established) ⊎ (d.state ≡ syn_rcvd))
            × (d.rcv_nxt ≡ (
                if in_order c seg
                then wrapping_add c.rcv_nxt (length seg.payload)
                else c.rcv_nxt))))

Handled : TcpConn → TcpSeg → TcpConn → Type 0
Handled c seg d = (IsOver d.state × (d.rx ≡ c.rx)) ⊎ Received c seg d

take_data_lem :
    (c : TcpConn) (seg : TcpSeg)
    → let d = take_data c seg in
      (d.rx ≡ (if in_order c seg then take pay_max seg.payload else c.rx))
      × (d.state ≡ c.state)
      × (d.rcv_nxt
          ≡ (if in_order c seg then wrapping_add c.rcv_nxt (length seg.payload) else c.rcv_nxt))
unfolding take_data
take_data_lem c seg = elim (Bool-cases (in_order c seg)) [
  | inl e ↦ rw e (refl, refl, refl)
  | inr e ↦ rw e (refl, refl, refl)
]

established-Handled :
    (c : TcpConn) (seg : TcpSeg)
    → c.state ≡ established
    → Handled c seg (handle_established c seg).0
unfolding handle_established Handled
established-Handled c seg s =
    let d = take_data c seg in
    let (rx, st, nxt) = take_data_lem c seg in
    let b = acks_all d seg && not (d.snd_una == d.snd_nxt) in
    elim (Bool-cases (has_flag tcp_rst seg)) [
      | inl e ↦ rw e (inl (inl refl, refl))
      | inr e ↦ elim (Bool-cases (has_flag tcp_fin seg)) [
        | inl f ↦ elim (Bool-cases b) [
          | inl a ↦ rw (e, f, a) (inr (rx, inl (inr refl)))
          | inr a ↦ rw (e, f, a) (inr (rx, inl (inr refl)))
        ]
        | inr f ↦ elim (Bool-cases b) [
          | inl a ↦ rw (e, f, a) (inr (rx, inr (inl (st ∙ s), nxt)))
          | inr a ↦ rw (e, f, a) (inr (rx, inr (inl (st ∙ s), nxt)))
        ]
      ]
    ]

syn_rcvd-Handled :
    (c : TcpConn) (seg : TcpSeg) → c.state ≡ syn_rcvd → Handled c seg (handle_syn_rcvd c seg).0
unfolding handle_syn_rcvd Handled
syn_rcvd-Handled c seg s = elim (Bool-cases (has_flag tcp_rst seg)) [
  | inl e ↦ rw e (inl (inl refl, refl))
  | inr e ↦ elim (Bool-cases (acks_all c seg && not (c.snd_una == c.snd_nxt))) [
    | inl a ↦
        let c' = record c {
          snd_una = c.snd_nxt;
          state = established;
          retx = 0;
          rto_ms = tcp_rto_ms;
        } in
        let (rx, st, nxt) = take_data_lem c' seg in rw (e, a) (inr (rx, inr (inl st, nxt)))
    | inr a ↦
        let (rx, st, nxt) = take_data_lem c seg in rw (e, a) (inr (rx, inr (inr (st ∙ s), nxt)))
  ]
]

IsOver-stays :
    (c : TcpConn) (seg : TcpSeg) (now : ℕ)
    → IsOver c.state
    → IsOver (tcp_handle c seg now).0.state × ((tcp_handle c seg now).0.rx ≡ c.rx)
unfolding tcp_handle handle_in handle_close_wait
IsOver-stays c seg now (inl e) =
    subst (λ s. IsOver (handle_in s c seg now).0.state × ((handle_in s c seg now).0.rx ≡ c.rx))
      (sym e) (inl e, refl)
IsOver-stays c seg now (inr e) =
    subst (λ s. IsOver (handle_in s c seg now).0.state × ((handle_in s c seg now).0.rx ≡ c.rx))
      (sym e)
      (elim (Bool-cases (acks_all c seg)) [
        | inl a ↦ rw a (inr e, refl)
        | inr a ↦ rw a (inr e, refl)
      ])

read_over :
    (segs : List TcpSeg) (c : TcpConn) (now : ℕ)
    → IsOver c.state
    → c.rx ≡ []
    → read_all c segs now ≡ []
unfolding read_all
read_over [] c now o e = refl
read_over (seg ∷ segs) c now o e =
    let (o', same) = IsOver-stays c seg now o in
    let d = (tcp_handle c seg now).0 in
    rw (same ∙ e) (read_over segs (record d { rx = [] }) now o' refl)

tcp_handle-Handled :
    (c : TcpConn) (seg : TcpSeg) (now : ℕ)
    → (c.state ≡ established) ⊎ (c.state ≡ syn_rcvd)
    → Handled c seg (tcp_handle c seg now).0
unfolding tcp_handle handle_in
tcp_handle-Handled c seg now (inl e) =
    subst (λ s. Handled c seg (handle_in s c seg now).0) (sym e) (established-Handled c seg e)
tcp_handle-Handled c seg now (inr e) =
    subst (λ s. Handled c seg (handle_in s c seg now).0) (sym e) (syn_rcvd-Handled c seg e)

-- The data of a segment that is in order continues what was read before.
continues :
    (stream : List ℕ) (start n : ℕ) (c : TcpConn) (seg : TcpSeg)
    → c.rcv_nxt ≡ wrapping_add start n
    → n ≤ length stream
    → length stream < 2 ^ 32
    → IsFrom stream start seg
    → in_order c seg ≡ true
    → (take n stream ++ take pay_max seg.payload ≡ take (n + length seg.payload) stream)
      × (n + length seg.payload ≤ length stream)
continues stream start n c seg at le short (inl none_there) order =
    let (some_there, _) = &&_inv (ltb 0 (length seg.payload)) _ order in
    let empty : length seg.payload ≡ 0 = ap length none_there in
    absurd (omega (arith, empty, ltb→lt _ _ some_there))
continues stream start n c seg at le short (inr (k, seq, bytes, fits, small)) order =
    let (_, same) = &&_inv (ltb 0 (length seg.payload)) _ order in
    let here = (==_iff seg.seq c.rcv_nxt).0 same in
    let k_n : k ≡ n = omega (arith, at, seq, here, le, fits, short) in
    (
      rw (take_all seg.payload pay_max small) (
          ap (λ p. take n stream ++ p)
            (bytes ∙ ap (λ i. take (length seg.payload) (drop i stream)) k_n)
          ∙ take-drop stream n (length seg.payload)),
      omega (arith, k_n, fits),
    )

-- Whatever segments of the peer arrive, in whatever order and however often: what the owner of a
-- connection reads, when it reads after every segment, is a prefix of the data that the peer sends,
-- without gap, repetition or change.
pub read_all-prefix :
    (segs : List TcpSeg) (stream : List ℕ) (start n : ℕ) (c : TcpConn) (now : ℕ)
    → (c.state ≡ established) ⊎ (c.state ≡ syn_rcvd)
    → c.rx ≡ []
    → c.rcv_nxt ≡ wrapping_add start n
    → n ≤ length stream
    → length stream < 2 ^ 32
    → All (IsFrom stream start) segs
    → (m : ℕ) × (take n stream ++ read_all c segs now ≡ take m stream)
unfolding read_all Handled
read_all-prefix [] stream start n c now s e at le short _ = (n, append_nil (take n stream))
read_all-prefix (seg ∷ segs) stream start n c now s e at le short (ok, oks) =
    let d = (tcp_handle c seg now).0 in
    elim (tcp_handle-Handled c seg now s) [
      | inl (over, same) ↦ (
        n,
        rw (same ∙ e, read_over segs (record d { rx = [] }) now over refl)
            (append_nil (take n stream)),
      )
      | inr (rx, after) ↦ elim (Bool-cases (in_order c seg)) [
        | inl order ↦
            let (more, fits) = continues stream start n c seg at le short ok order in
            let rx' : d.rx ≡ take pay_max seg.payload = rx ∙ rw order refl in
            elim after [
              | inl over ↦ (
                n + length seg.payload,
                rw
                    (
                      rx',
                      read_over segs (record d { rx = [] }) now over refl,
                      append_nil (take pay_max seg.payload),
                    )
                    more,
              )
              | inr (s', nxt) ↦
                  let nxt' : d.rcv_nxt ≡ wrapping_add start (n + length seg.payload) =
                    nxt ∙ rw (order, at) (omega arith) in
                  let (m, rest) =
                    read_all-prefix segs stream start (n + length seg.payload)
                      (record d { rx = [] }) now s' refl nxt' fits short oks in
                  (
                    m,
                    rw rx' (
                        sym (
                          append_assoc (take n stream) (take pay_max seg.payload)
                            (read_all (record d { rx = [] }) segs now))
                        ∙ ap (λ p. p ++ read_all (record d { rx = [] }) segs now) more
                        ∙ rest),
                  )
            ]
        | inr other ↦
            let rx' : d.rx ≡ [] = rx ∙ rw other e in
            elim after [
              | inl over ↦ (
                n,
                rw (rx', read_over segs (record d { rx = [] }) now over refl)
                    (append_nil (take n stream)),
              )
              | inr (s', nxt) ↦
                  let (m, rest) =
                    read_all-prefix segs stream start n (record d { rx = [] }) now s' refl
                      (nxt ∙ rw other at) le short oks in
                  (m, rw rx' rest)
            ]
      ]
    ]
