-- ===== src/Tcp/Sockets.antt =====
-- The TCP sockets of user/srv/src/netstack_srv.rs: the table of connections, the calls of the
-- applications, the segments from the links and the loopback. `sys_net_owner`, the kernel's answer, is
-- a parameter, as is which links have learnt the address of their gateway. A frame leaves with the
-- connection that sends it.
use morion_os.Prelude.{
  ℕ, zero, suc, ◌+◌, ◌-◌, ◌*◌, ◌/◌, ◌%◌, ◌^◌, Bool, true, false, not, ◌&&◌, ◌||◌, Option, none,
  some, List, [], ◌∷◌, length, get_elem?, get_or, set, ltb, leb, ◌==◌, if◌then◌else◌, ◌>>=◌,
  case_option,
}
use Prim.Native.Nat.{bit_xor}
use morion_os.Prelude.Bytes.{bytes_eq}
use morion_os.Tcp.{
  TcpState, listen, syn_rcvd, TcpRole, listener, server, SrcId, v4, v6, TcpConn, TcpSeg, Frame, new,
  tcp_syn, tcp_ack, tcp_mss, tcp_rto_ms, tcp_seg, has_flag, wrapping_add, is_closed, is_established,
  tcp_connect, tcp_send, tcp_close, tcp_handle, tcp_tick,
}

abbrev pub max_tcons : ℕ
max_tcons = 6

abbrev pub our_ip : List ℕ
our_ip = 10 ∷ 0 ∷ 2 ∷ 15 ∷ []

abbrev pub Tcons : Type 0
Tcons = List TcpConn

-- the first index from `i` on that passes a test
unfoldable pub find_from : (TcpConn → Bool) → Tcons → ℕ → Option ℕ
find_from test [] i = none
find_from test (c ∷ cs) i = let rest = find_from test cs (i + 1) in if test c then some i else rest

-- Puts a connection into the first free slot; the answer is its id, or 0.
unfoldable pub take_slot : Tcons → TcpConn → Tcons × ℕ
unfolding find_from
take_slot tcons c =
    case_option (find_from (λ d. not d.used) tcons 0) (tcons, 0) (λ i. (set tcons i c, i + 1))

unfoldable pub tcp_open : ℕ → Tcons → ℕ → ℕ → Tcons × ℕ
unfolding take_slot
tcp_open nics tcons nic from =
    if leb nics nic
    then (tcons, 0)
    else take_slot tcons (record new { used = true; owner = from; nic = nic })

unfoldable pub tcp_listen_internal : (ℕ → ℕ) → ℕ → Tcons → ℕ → ℕ → ℕ → Tcons × ℕ
unfolding take_slot
tcp_listen_internal net_owner nics tcons nic port from =
    if leb nics nic || not (net_owner port == from)
    then (tcons, 0)
    else take_slot tcons (record new {
      used = true;
      owner = from;
      role = listener;
      state = listen;
      nic = nic;
      local_port = port;
    })

-- `tcp_slot`; an id beyond the table is none
unfoldable pub tcp_slot : Tcons → ℕ → Option TcpConn
tcp_slot tcons zero = none
tcp_slot tcons (suc i) =
    if ltb max_tcons (suc i)
    then none
    else do c ← get_elem? tcons i; if c.used then some c else none

unfoldable pub tcp_slot_owned : Tcons → ℕ → ℕ → Option TcpConn
unfolding tcp_slot
tcp_slot_owned tcons id from = do c ← tcp_slot tcons id; if c.owner == from then some c else none

abbrev pub is_listener : TcpRole → Bool
is_listener listener = true
is_listener _ = false

abbrev pub is_server : TcpRole → Bool
is_server server = true
is_server _ = false

abbrev pub is_listening : TcpState → Bool
is_listening listen = true
is_listening _ = false

-- a connection that a listener on a port can accept
abbrev pub can_accept : ℕ → ℕ → TcpConn → Bool
can_accept port nic c =
    ((((c.used && is_server c.role) && is_established c.state) && not c.accepted)
      && c.local_port == port)
    && c.nic == nic

unfoldable pub tcp_accept_internal : Tcons → ℕ → ℕ → Tcons × ℕ
unfolding tcp_slot find_from
tcp_accept_internal tcons id from =
    case_option (tcp_slot tcons id) (tcons, 0)
      (λ l.
        if is_listener l.role && l.owner == from
        then case_option (find_from (can_accept l.local_port l.nic) tcons 0) (tcons, 0)
            (λ i.
              (set tcons i (record (get_or tcons i new) { accepted = true; owner = from }), i + 1))
        else (tcons, 0))

unfoldable pub tcp_bind : (ℕ → ℕ) → Tcons → ℕ → ℕ → ℕ → Tcons × ℕ
unfolding tcp_slot_owned
tcp_bind net_owner tcons id port from =
    if not (net_owner port == from)
    then (tcons, 0)
    else case_option (tcp_slot_owned tcons id from) (tcons, 0)
        (λ c.
          if c.local_port == 0
          then (set tcons (id - 1) (record c { local_port = port }), 1)
          else (tcons, 0))

-- A frame with the connection that sends it, and the segment that the other side gets.
abbrev pub Sent : Type 0
Sent = Option (TcpConn × Frame)

abbrev pub sent : TcpConn × Option Frame → Sent
sent (c, f) = case_option f none (λ g. some (c, g))

abbrev pub seg_of : TcpConn → Frame → TcpSeg
seg_of c f = record {
  sport = c.local_port;
  dport = c.remote_port;
  seq = f.seq;
  ack = f.ack;
  flags = f.flags;
  payload = f.payload;
}

unfoldable pub same_source : SrcId → SrcId → Bool
unfolding bytes_eq
same_source (v4 a) (v4 b) = bytes_eq a b
same_source (v6 a) (v6 b) = bytes_eq a b
same_source _ _ = false

unfoldable pub tcp_match : ℕ → SrcId → TcpSeg → TcpConn → Bool
unfolding same_source
tcp_match nic src seg c =
    (((c.used && c.nic == nic) && c.local_port == seg.dport) && c.remote_port == seg.sport)
    && same_source c.remote src

-- a listener for a segment
abbrev pub listens_for : ℕ → TcpSeg → TcpConn → Bool
listens_for nic seg c =
    (((c.used && is_listener c.role) && is_listening c.state) && c.nic == nic)
    && c.local_port == seg.dport

-- the server side of a new connection, in slot `si`, before its SYN-ACK
unfoldable pub server_conn : ℕ → SrcId → TcpSeg → ℕ → ℕ → TcpConn
server_conn nic src seg now si =
    let isn = bit_xor 0x4d4f9000 (si * 0x0101 % 2 ^ 32) in
    record new {
      used = true;
      role = server;
      state = syn_rcvd;
      nic = nic;
      local_port = seg.dport;
      remote = src;
      remote_port = seg.sport;
      rcv_nxt = wrapping_add seg.seq 1;
      snd_una = isn;
      snd_nxt = wrapping_add isn 1;
      rto_ms = tcp_rto_ms;
      last_tx_ms = now;
    }

-- a segment for no connection: a SYN for a listener makes one
unfoldable pub passive_open : Tcons → ℕ → SrcId → TcpSeg → ℕ → Tcons × Sent
unfolding find_from server_conn
passive_open tcons nic src seg now =
    if not (has_flag tcp_syn seg)
    then (tcons, none)
    else case_option (find_from (listens_for nic seg) tcons 0) (tcons, none)
        (λ _.
          case_option (find_from (λ d. not d.used) tcons 0) (tcons, none)
            (λ si.
              let c = server_conn nic src seg now si in
              (set tcons si c, sent (c, tcp_seg c.snd_una c.rcv_nxt (tcp_syn + tcp_ack) []))))

-- the result of an operation on the connection at an index
abbrev pub update : Tcons → ℕ → TcpConn × Option Frame → Tcons × Sent
update tcons i r = (set tcons i r.0, sent r)

unfoldable pub tcp_input : Tcons → ℕ → SrcId → TcpSeg → ℕ → Tcons × Sent
unfolding passive_open tcp_match find_from tcp_handle
tcp_input tcons nic src seg now =
    case_option (find_from (tcp_match nic src seg) tcons 0) (passive_open tcons nic src seg now)
      (λ i. update tcons i (tcp_handle (get_or tcons i new) seg now))

-- `lo_pump`: a frame to the own address comes back as a segment, 32 times at most. Answers go to the
-- own address again.
unfoldable pub lo_pump : ℕ → Tcons → ℕ → Sent → ℕ → Tcons
unfolding tcp_input
lo_pump guard tcons nic none now = tcons
lo_pump zero tcons nic (some (c, f)) now = tcons
lo_pump (suc guard) tcons nic (some (c, f)) now =
    let (tcons', answer) = tcp_input tcons nic (v4 our_ip) (seg_of c f) now in
    lo_pump guard tcons' nic answer now

-- `tcp_emit_deliver`: a frame for the own address is looped back, any other goes to the link. The
-- result is what leaves on the link.
unfoldable pub tcp_emit_deliver : Tcons → ℕ → Sent → ℕ → Tcons × Sent
unfolding lo_pump same_source
tcp_emit_deliver tcons nic none now = (tcons, none)
tcp_emit_deliver tcons nic (some (c, f)) now =
    if same_source c.remote (v4 our_ip)
    then (lo_pump 32 tcons nic (some (c, f)) now, none)
    else (tcons, some (c, f))

-- an answer of 1 for a frame that was sent
abbrev pub answered : Tcons → ℕ → TcpConn × Option Frame → ℕ → ℕ → (Tcons × Sent) × ℕ
answered tcons i r nic now =
    (tcp_emit_deliver (set tcons i r.0) nic (sent r) now, case_option r.1 0 (λ _. 1))

unfoldable pub ip_bytes : ℕ → List ℕ
ip_bytes addr = addr / 2 ^ 24 % 256 ∷ addr / 2 ^ 16 % 256 ∷ addr / 2 ^ 8 % 256 ∷ addr % 256 ∷ []

unfoldable pub tcp_connect_op : (ℕ → Bool) → Tcons → ℕ → ℕ → ℕ → ℕ → ℕ → (Tcons × Sent) × ℕ
unfolding tcp_slot_owned ip_bytes tcp_connect tcp_emit_deliver
tcp_connect_op gw_known tcons id addr port now from =
    case_option (tcp_slot_owned tcons id from) ((tcons, none), 0)
      (λ c.
        if not (gw_known c.nic)
        then ((tcons, none), 0)
        else if c.local_port == 0 || not (is_closed c.state)
        then ((tcons, none), 0)
        else let d = record c { remote = v4 (ip_bytes addr); remote_port = port % 2 ^ 16 } in
          let isn = bit_xor 0x4d4f0000 (id % 2 ^ 32 * 0x01010101 % 2 ^ 32) in
          answered tcons (id - 1) (tcp_connect d isn now) c.nic now)

-- `payload` are the bytes at `buf`; `is_mapped` is whether `sys_virt_to_phys` knows it
unfoldable pub tcp_send_op : (ℕ → Bool) → Tcons → ℕ → ℕ → List ℕ → ℕ → ℕ → (Tcons × Sent) × ℕ
unfolding tcp_slot_owned tcp_send tcp_emit_deliver
tcp_send_op is_mapped tcons id buf payload now from =
    if ((buf == 0 || length payload == 0) || ltb tcp_mss (length payload)) || not (is_mapped buf)
    then ((tcons, none), 0)
    else case_option (tcp_slot_owned tcons id from) ((tcons, none), 0)
        (λ c. answered tcons (id - 1) (tcp_send c payload now) c.nic now)

-- the bytes that are written to `buf`; their number is the answer
unfoldable pub tcp_recv_op : (ℕ → Bool) → Tcons → ℕ → ℕ → ℕ → Tcons × List ℕ
unfolding tcp_slot_owned
tcp_recv_op is_mapped tcons id buf from =
    if buf == 0 || not (is_mapped buf)
    then (tcons, [])
    else case_option (tcp_slot_owned tcons id from) (tcons, [])
        (λ c. (set tcons (id - 1) (record c { rx = [] }), c.rx))

unfoldable pub tcp_close_op : Tcons → ℕ → ℕ → ℕ → (Tcons × Sent) × ℕ
unfolding tcp_slot_owned tcp_close tcp_emit_deliver
tcp_close_op tcons id now from =
    case_option (tcp_slot_owned tcons id from) ((tcons, none), 0)
      (λ c.
        case_option (tcp_close c now).1 ((set tcons (id - 1) new, none), 1)
          (λ f. (
            tcp_emit_deliver (set tcons (id - 1) (tcp_close c now).0) c.nic
                (some ((tcp_close c now).0, f)) now,
            1,
          )))

-- one round of `tcp_tick_all`
unfoldable pub tick_one : Tcons → ℕ → ℕ → Tcons × Sent
unfolding tcp_tick tcp_emit_deliver
tick_one tcons i now =
    let c = get_or tcons i new in
    if c.used && not (is_closed c.state)
    then tcp_emit_deliver (set tcons i (tcp_tick c now).0) c.nic (sent (tcp_tick c now)) now
    else (tcons, none)

-- the rounds from index `i` on, `n` of them
unfoldable pub tick_from : ℕ → ℕ → Tcons → ℕ → Tcons
unfolding tick_one
tick_from zero i tcons now = tcons
tick_from (suc n) i tcons now = tick_from n (i + 1) (tick_one tcons i now).0 now

unfoldable pub tcp_tick_all : Tcons → ℕ → Tcons
unfolding tick_from
tcp_tick_all tcons now = tick_from max_tcons 0 tcons now
