-- ===== src/Tcp.antt =====
-- The TCP connections of user/srv/src/netstack_srv.rs: `TcpConn` and the operations on one connection.
-- The buffers are lists of what is in use, so `tx_len` and `rx_len` are lengths; a frame that an
-- operation puts into the shared page is its TCP header and payload, and no frame is the length 0.
pub mod Window
pub mod Timer
pub mod Resend
pub mod Stream
pub mod Exchange
pub mod Sockets
pub mod Ownership
pub mod Identity
pub mod Authority
pub mod Dialogue
pub mod Checksum
pub mod Wire
mod Tests
use morion_os.Prelude.{
  ℕ, zero, suc, ◌+◌, ◌-◌, ◌*◌, ◌/◌, ◌%◌, ◌^◌, ◌≤◌, ◌<◌, ◌≡◌, ◌≢◌, ◌↔◌, ◌⊎◌, inl, inr, refl, sym, ap,
  subst, ◌∙◌, Bool, true, false, not, ◌&&◌, ◌||◌, Option, none, some, List, [], ◌∷◌, ◌++◌, map,
  length, get_elem?, get_or, set, take, drop, replicate, length-append, length-set,
  get_elem?-set_self, get_elem?-set_ne, get_or-set_self, get_or-set_ne, get_elem?_lt, set-set,
  set_same, get_elem?-none, get_elem?-eq-get_or, length-replicate, length-take, drop_all, take_nil,
  get_or-append_left, get_or-append_end, drop-split, set_padded, set_padded_self, set_padded_other,
  set_padded_ne, length-set_padded, get_or-set_padded, suc_test, arith, ite, if_pos, if_neg, dec_lt,
  dec_le, ℕ_discrete, ltb, leb, ◌==◌, if◌then◌else◌, ltb→lt, lt→ltb, leb→le, le→leb, ==_iff,
  ==_self, ==_ne, Bool-cases, Option-cases, ◌>>=◌, >>=-eq-some, some_inj, case_option,
  case_option-inv, if-inv, reject-inv, &&_inv, ||_inv, not_inv, ltb-false, u64_max, bit_or-disjoint,
  min, max,
}

pub data TcpState : Type 0 where
  closed listen syn_sent syn_rcvd established fin_wait1 fin_wait2 close_wait time_wait : TcpState

pub data TcpRole : Type 0 where
  client listener server : TcpRole

abbrev pub tcp_fin : ℕ
tcp_fin = 0x01

abbrev pub tcp_syn : ℕ
tcp_syn = 0x02

abbrev pub tcp_rst : ℕ
tcp_rst = 0x04

abbrev pub tcp_psh : ℕ
tcp_psh = 0x08

abbrev pub tcp_ack : ℕ
tcp_ack = 0x10

abbrev pub tcp_rto_ms : ℕ
tcp_rto_ms = 300

abbrev pub tcp_max_retx : ℕ
tcp_max_retx = 5

abbrev pub tcp_mss : ℕ
tcp_mss = 1400

-- `PAY_MAX`, the size of `rx`
abbrev pub pay_max : ℕ
pay_max = 1472

-- `SrcId` of a connection: `family` with `remote_ip` or `remote6`
pub data SrcId : Type 0 where
  v4 v6 : List ℕ → SrcId

pub record TcpConn : Type 0 where
  pub used : Bool
  pub owner : ℕ
  pub role : TcpRole
  pub state : TcpState
  pub nic : ℕ
  pub local_port : ℕ
  pub remote : SrcId
  pub remote_port : ℕ
  pub snd_una : ℕ
  pub snd_nxt : ℕ
  pub rcv_nxt : ℕ
  pub retx : ℕ
  pub rto_ms : ℕ
  pub last_tx_ms : ℕ
  pub tx : List ℕ
  pub rx : List ℕ
  pub accepted : Bool

-- `TcpConn::new`
abbrev pub new : TcpConn
new = record {
  used = false;
  owner = 0;
  role = client;
  state = closed;
  nic = 0;
  local_port = 0;
  remote = v4 (0 ∷ 0 ∷ 0 ∷ 0 ∷ []);
  remote_port = 0;
  snd_una = 0;
  snd_nxt = 0;
  rcv_nxt = 0;
  retx = 0;
  rto_ms = tcp_rto_ms;
  last_tx_ms = 0;
  tx = [];
  rx = [];
  accepted = false;
}

-- `TcpSeg`: a segment that was received
pub record TcpSeg : Type 0 where
  pub sport : ℕ
  pub dport : ℕ
  pub seq : ℕ
  pub ack : ℕ
  pub flags : ℕ
  pub payload : List ℕ

-- `flags & bit != 0` for a flag
abbrev pub has_flag : ℕ → TcpSeg → Bool
has_flag bit seg = seg.flags / bit % 2 == 1

-- `wrapping_add` of `u32`
abbrev pub wrapping_add : ℕ → ℕ → ℕ
wrapping_add a b = (a + b) % 2 ^ 32

-- What `tcp_seg` is given besides the connection. A frame goes with the addresses of the connection.
pub record Frame : Type 0 where
  pub seq : ℕ
  pub ack : ℕ
  pub flags : ℕ
  pub payload : List ℕ

abbrev pub tcp_seg : ℕ → ℕ → ℕ → List ℕ → Option Frame
tcp_seg seq ack flags payload =
    some (record { seq = seq; ack = ack; flags = flags; payload = payload })

unfoldable pub tcp_connect : TcpConn → ℕ → ℕ → TcpConn × Option Frame
tcp_connect conn isn now = (
  record conn {
    snd_una = isn;
    snd_nxt = wrapping_add isn 1;
    rcv_nxt = 0;
    retx = 0;
    rto_ms = tcp_rto_ms;
    last_tx_ms = now;
    tx = [];
    state = syn_sent;
  },
  tcp_seg isn 0 tcp_syn [],
)

abbrev pub is_established : TcpState → Bool
is_established established = true
is_established _ = false

unfoldable pub tcp_send : TcpConn → List ℕ → ℕ → TcpConn × Option Frame
tcp_send conn payload now =
    let bytes = take tcp_mss payload in
    if not (is_established conn.state) || ltb 0 (length conn.tx) then (conn, none) else (
      record conn {
        tx = bytes;
        retx = 0;
        rto_ms = tcp_rto_ms;
        last_tx_ms = now;
        snd_nxt = wrapping_add conn.snd_nxt (length bytes);
      },
      tcp_seg conn.snd_nxt conn.rcv_nxt (tcp_psh + tcp_ack) bytes,
    )

-- the part of `tcp_close` behind the match on the state
abbrev pub send_fin : TcpConn → ℕ → TcpConn × Option Frame
send_fin conn now = (
  record conn {
    state = fin_wait1;
    retx = 0;
    rto_ms = tcp_rto_ms;
    last_tx_ms = now;
    tx = [];
    snd_nxt = wrapping_add conn.snd_nxt 1;
  },
  tcp_seg conn.snd_nxt conn.rcv_nxt (tcp_fin + tcp_ack) [],
)

unfoldable pub close_in : TcpState → TcpConn → ℕ → TcpConn × Option Frame
close_in established conn now = send_fin conn now
close_in close_wait conn now = send_fin conn now
close_in _ conn now = (conn, none)

unfoldable pub tcp_close : TcpConn → ℕ → TcpConn × Option Frame
unfolding close_in
tcp_close conn now = close_in conn.state conn now

-- `seg.payload_len > 0 && seg.seq == conn.rcv_nxt`
abbrev pub in_order : TcpConn → TcpSeg → Bool
in_order conn seg = ltb 0 (length seg.payload) && seg.seq == conn.rcv_nxt

-- the data of a segment that is in order
unfoldable pub take_data : TcpConn → TcpSeg → TcpConn
take_data conn seg =
    if in_order conn seg
    then record conn {
      rx = take pay_max seg.payload;
      rcv_nxt = wrapping_add conn.rcv_nxt (length seg.payload);
    }
    else conn

-- `seg.flags & TCP_ACK != 0 && seg.ack == conn.snd_nxt`
abbrev pub acks_all : TcpConn → TcpSeg → Bool
acks_all conn seg = has_flag tcp_ack seg && seg.ack == conn.snd_nxt

-- the answer: an ACK of everything received, if one is due
abbrev pub ack_if : Bool → TcpConn → TcpConn × Option Frame
ack_if need_ack conn =
    (conn, if need_ack then tcp_seg conn.snd_nxt conn.rcv_nxt tcp_ack [] else none)

-- a FIN counts as one in the sequence numbers
abbrev pub take_fin : TcpState → TcpConn → TcpConn
take_fin next conn = record conn { rcv_nxt = wrapping_add conn.rcv_nxt 1; state = next }

unfoldable pub handle_syn_sent : TcpConn → TcpSeg → ℕ → TcpConn × Option Frame
handle_syn_sent conn seg now =
    if has_flag tcp_rst seg
    then (record conn { state = closed }, none)
    else if (has_flag tcp_syn seg && has_flag tcp_ack seg) && seg.ack == conn.snd_nxt
    then ack_if true (record conn {
      rcv_nxt = wrapping_add seg.seq 1;
      snd_una = seg.ack;
      retx = 0;
      rto_ms = tcp_rto_ms;
      last_tx_ms = now;
      state = established;
    })
    else (conn, none)

unfoldable pub handle_syn_rcvd : TcpConn → TcpSeg → TcpConn × Option Frame
unfolding take_data
handle_syn_rcvd conn seg =
    if has_flag tcp_rst seg
    then (record conn { state = closed }, none)
    else let acked =
        if acks_all conn seg && not (conn.snd_una == conn.snd_nxt)
        then record conn {
          snd_una = conn.snd_nxt;
          state = established;
          retx = 0;
          rto_ms = tcp_rto_ms;
        }
        else conn in
      ack_if (in_order acked seg) (take_data acked seg)

unfoldable pub handle_established : TcpConn → TcpSeg → TcpConn × Option Frame
unfolding take_data
handle_established conn seg =
    if has_flag tcp_rst seg
    then (record conn { state = closed }, none)
    else let taken = take_data conn seg in
      let acked =
        if acks_all taken seg && not (taken.snd_una == taken.snd_nxt)
        then record taken { snd_una = taken.snd_nxt; tx = []; retx = 0; rto_ms = tcp_rto_ms }
        else taken in
      if has_flag tcp_fin seg
      then ack_if true (take_fin close_wait acked)
      else ack_if (in_order conn seg) acked

unfoldable pub handle_close_wait : TcpConn → TcpSeg → TcpConn × Option Frame
handle_close_wait conn seg =
    (if acks_all conn seg then record conn { snd_una = conn.snd_nxt } else conn, none)

unfoldable pub handle_fin_wait1 : TcpConn → TcpSeg → TcpConn × Option Frame
handle_fin_wait1 conn seg =
    let acked =
      if acks_all conn seg
      then record conn { snd_una = conn.snd_nxt; state = fin_wait2 }
      else conn in
    if has_flag tcp_fin seg then ack_if true (take_fin time_wait acked) else (acked, none)

unfoldable pub handle_fin_wait2 : TcpConn → TcpSeg → TcpConn × Option Frame
handle_fin_wait2 conn seg =
    if has_flag tcp_fin seg then ack_if true (take_fin time_wait conn) else (conn, none)

unfoldable pub handle_in : TcpState → TcpConn → TcpSeg → ℕ → TcpConn × Option Frame
unfolding handle_syn_sent handle_syn_rcvd handle_established handle_close_wait handle_fin_wait1
    handle_fin_wait2
handle_in syn_sent conn seg now = handle_syn_sent conn seg now
handle_in syn_rcvd conn seg now = handle_syn_rcvd conn seg
handle_in established conn seg now = handle_established conn seg
handle_in close_wait conn seg now = handle_close_wait conn seg
handle_in fin_wait1 conn seg now = handle_fin_wait1 conn seg
handle_in fin_wait2 conn seg now = handle_fin_wait2 conn seg
handle_in _ conn seg now = (conn, none)

unfoldable pub tcp_handle : TcpConn → TcpSeg → ℕ → TcpConn × Option Frame
unfolding handle_in
tcp_handle conn seg now = handle_in conn.state conn seg now

abbrev pub is_closed : TcpState → Bool
is_closed closed = true
is_closed _ = false

abbrev pub is_syn_sent : TcpState → Bool
is_syn_sent syn_sent = true
is_syn_sent _ = false

abbrev pub pending : TcpConn → Bool
pending conn = is_syn_sent conn.state || ltb 0 (length conn.tx)

-- `now.wrapping_sub(conn.last_tx_ms) < conn.rto_ms`
abbrev pub is_early : TcpConn → ℕ → Bool
is_early conn now = ltb ((now + 2 ^ 64 - conn.last_tx_ms) % 2 ^ 64) conn.rto_ms

unfoldable pub tcp_tick : TcpConn → ℕ → TcpConn × Option Frame
tcp_tick conn now =
    let retx = (conn.retx + 1) % 2 ^ 32 in
    if is_closed conn.state
    then (conn, none)
    else if not (pending conn) || is_early conn now
    then (conn, none)
    else if ltb tcp_max_retx retx
    then (record conn { retx = retx; state = closed }, none)
    else (
      record conn { retx = retx; last_tx_ms = now; rto_ms = conn.rto_ms * 2 % 2 ^ 64 },
      if is_syn_sent conn.state
          then tcp_seg conn.snd_una 0 tcp_syn []
          else tcp_seg conn.snd_una conn.rcv_nxt (tcp_psh + tcp_ack) conn.tx,
    )
