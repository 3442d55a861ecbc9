-- ===== src/Tcp/Tests.antt =====
-- Runs of TCP connections on concrete segments, with the cases in which the theorems on them apply.
use morion_os.Prelude.{
  ℕ, ◌<◌, ◌≡◌, ◌≢◌, ◌⊎◌, inl, inr, refl, true, none, some, List, [], ◌∷◌, ◌++◌, length, map, take,
  replicate, arith, ◌==◌, if◌then◌else◌, u64_max,
}
use morion_os.Prelude.Elements.{All}
use morion_os.Tcp.{
  closed, listen, listener, syn_sent, established, close_wait, TcpConn, TcpSeg, new, v4, tcp_seg,
  tcp_ack, tcp_syn, tcp_connect, tcp_send, tcp_close, tcp_handle, tcp_tick,
}
use morion_os.Tcp.Window.{Event, sends, arrives, passes, closes, run, HasWindow, WindowIn}
use morion_os.Tcp.Timer.{run-HasWindow}
use morion_os.Tcp.Resend.{ticks, tick_frames, AreDue, ticks_give_up}
use morion_os.Tcp.Stream.{read_all, IsFrom, read_all-prefix}
use morion_os.Tcp.Exchange.{tcp_tick-acked, tcp_close-quiet}
use morion_os.Tcp.Sockets.{max_tcons}
use morion_os.Tcp.Dialogue.{pass_on, InStep, data_round}
use morion_os.Tcp.Wire.{tcp_build, tcp_parse, fits, tcp_parse-tcp_build}
use morion_os.Tcp.Ownership.{AreEarned}
use morion_os.Tcp.Authority.{
  Request, open_socket, listen_on, accept, bind_socket, arrive, Outside, serve_all,
  serve_all-AreEarned,
}

-- An open connection: it sends from 101 on, and expects 501.
abbrev open_conn : TcpConn
open_conn = record new {
  used = true;
  state = established;
  snd_una = 101;
  snd_nxt = 101;
  rcv_nxt = 501;
}

abbrev peer_conn : TcpConn
peer_conn = record new {
  used = true;
  state = established;
  snd_una = 501;
  snd_nxt = 501;
  rcv_nxt = 101;
}

open_HasWindow : HasWindow open_conn
unfolding HasWindow WindowIn
open_HasWindow = ((omega arith, refl), omega arith, refl, omega arith)

-- A segment of the peer with three bytes, and one with the two after them.
abbrev first_seg : TcpSeg
first_seg = record {
  sport = 80;
  dport = 7;
  seq = 501;
  ack = 101;
  flags = 0x18;
  payload = 1 ∷ 2 ∷ 3 ∷ [];
}

abbrev second_seg : TcpSeg
second_seg = record {
  sport = 80;
  dport = 7;
  seq = 504;
  ack = 101;
  flags = 0x18;
  payload = 4 ∷ 5 ∷ [];
}

abbrev events : List Event
events = sends (9 ∷ 8 ∷ []) 10 ∷ passes 400 ∷ arrives first_seg 500 ∷ closes 600 ∷ []

run-HasWindow_example : HasWindow (run open_conn events)
run-HasWindow_example = run-HasWindow open_conn events open_HasWindow

-- A SYN that nobody answers.
abbrev waiting : TcpConn
waiting = record new { used = true; state = syn_sent; snd_una = 7; snd_nxt = 8 }

abbrev late : List ℕ
late = 300 ∷ 900 ∷ 2100 ∷ 4500 ∷ 9300 ∷ 18900 ∷ []

waiting-AreDue : AreDue waiting late
unfolding AreDue tcp_tick
waiting-AreDue = (refl, (refl, (refl, (refl, (refl, (refl, _))))))

ticks_give_up_example :
    (((waiting.state ≡ syn_sent) ⊎ (0 < length waiting.tx)) × ((ticks waiting late).state ≡ closed))
    ⊎ ((waiting.state ≢ syn_sent) × (waiting.tx ≡ []) × (ticks waiting late ≡ waiting))
ticks_give_up_example = ticks_give_up late waiting (omega arith) waiting-AreDue (omega arith)

-- The second segment comes first and again, the first one twice.
abbrev arrivals : List TcpSeg
arrivals = second_seg ∷ first_seg ∷ first_seg ∷ second_seg ∷ second_seg ∷ []

abbrev stream : List ℕ
stream = 1 ∷ 2 ∷ 3 ∷ 4 ∷ 5 ∷ []

first_IsFrom : IsFrom stream 501 first_seg
first_IsFrom = inr (0, refl, refl, omega arith, omega arith)

second_IsFrom : IsFrom stream 501 second_seg
second_IsFrom = inr (3, refl, refl, omega arith, omega arith)

read_all-prefix_example : (m : ℕ) × (take 0 stream ++ read_all open_conn arrivals 0 ≡ take m stream)
read_all-prefix_example =
    read_all-prefix arrivals stream 501 0 open_conn 0 (inl refl) refl refl (omega arith)
      (omega arith)
      (second_IsFrom, (first_IsFrom, (first_IsFrom, (second_IsFrom, (second_IsFrom, _)))))

read_arrivals : read_all open_conn arrivals 0 ≡ stream
unfolding read_all
read_arrivals = refl

-- The peer has closed its side while two bytes were on the way, and acknowledges them.
abbrev half_open : TcpConn
half_open = record new {
  used = true;
  state = close_wait;
  snd_una = 101;
  snd_nxt = 103;
  rcv_nxt = 502;
  tx = 9 ∷ 8 ∷ [];
}

abbrev ack_seg : TcpSeg
ack_seg = record { sport = 80; dport = 7; seq = 502; ack = 103; flags = 0x10; payload = [] }

tcp_tick-acked_example :
    (tcp_tick (tcp_handle half_open ack_seg 50).0 400).1 ≡ tcp_seg 103 502 0x18 (9 ∷ 8 ∷ [])
tcp_tick-acked_example =
    tcp_tick-acked half_open ack_seg 50 400 refl (omega arith) refl (omega arith) refl

tcp_close-quiet_example :
    ((tcp_close open_conn 0).1 ≡ tcp_seg 101 501 0x11 [])
    × All (λ f. f ≡ none) (tick_frames (tcp_close open_conn 0).0 late)
tcp_close-quiet_example = tcp_close-quiet open_conn 0 late (inl refl)

abbrev syn_seg : TcpSeg
syn_seg = record { sport = 7; dport = 80; seq = 100; ack = 0; flags = 2; payload = [] }

-- A client that is to connect to the port 80, and a table with a listener there.
abbrev client_conn : TcpConn
client_conn = record new { used = true; local_port = 7; remote_port = 80 }

abbrev listening : List TcpConn
listening =
    record new { used = true; role = listener; state = listen; local_port = 80 } ∷ replicate 5 new

data_round_example :
    let r1 = tcp_send open_conn (9 ∷ 8 ∷ []) 0 in
    let r2 = pass_on peer_conn r1 0 in
    let r3 = pass_on r1.0 r2 0 in
    InStep r3.0 r2.0 × (r2.0.rx ≡ 9 ∷ 8 ∷ []) × (r3.0.tx ≡ []) × (r3.1 ≡ none)
data_round_example =
    data_round open_conn peer_conn (9 ∷ 8 ∷ []) 0 open_HasWindow (refl, refl, refl, refl) refl
      (omega arith)

-- Domain 21 has port 80, domain 22 has port 81.
abbrev outside : Outside
outside = record {
  port_owner = λ p. if p == 80 then 21 else (if p == 81 then 22 else u64_max);
  nics = 1;
  gw_known = λ _. true;
  is_mapped = λ _. true;
}

abbrev requests : List Request
requests =
    listen_on 0 80 21
    ∷ listen_on 0 80 22
    ∷ open_socket 0 22
    ∷ bind_socket 2 81 22
    ∷ arrive 0 (v4 (10 ∷ 0 ∷ 2 ∷ 2 ∷ [])) syn_seg 5
    ∷ accept 1 21
    ∷ []

none_used : AreEarned outside.port_owner (replicate max_tcons new)
unfolding AreEarned
none_used = (inl refl, (inl refl, (inl refl, (inl refl, (inl refl, (inl refl, _))))))

serve_all-AreEarned_example :
    AreEarned outside.port_owner (serve_all outside (replicate max_tcons new) requests)
serve_all-AreEarned_example =
    serve_all-AreEarned outside (replicate max_tcons new) requests none_used

-- Domain 22 got no listener on the port of domain 21, and its own socket is on its port.
ports_after :
    map {B = ℕ × ℕ}
      (λ c. (c.owner, c.local_port))
      (serve_all outside (replicate max_tcons new) requests)
    ≡ (21, 80) ∷ (22, 81) ∷ (0, 80) ∷ (0, 0) ∷ (0, 0) ∷ (0, 0) ∷ []
unfolding serve_all
ports_after = refl

-- A segment of three bytes.
abbrev hello : TcpSeg
hello = record {
  sport = 49200;
  dport = 80;
  seq = 4000000000;
  ack = 77;
  flags = 24;
  payload = 104 ∷ 105 ∷ 33 ∷ [];
}

abbrev host_a : List ℕ
host_a = 10 ∷ 0 ∷ 2 ∷ 15 ∷ []

abbrev host_b : List ℕ
host_b = 10 ∷ 0 ∷ 2 ∷ 2 ∷ []

built_length : length (tcp_build host_a host_b hello 4096) ≡ 23
unfolding tcp_build morion_os.Tcp.Wire.header_before_checksum
built_length = refl

-- The peer of another address refuses it.
misdelivered : tcp_parse 6 host_a host_a (tcp_build host_a host_b hello 4096) ≡ none
unfolding tcp_parse tcp_build morion_os.Tcp.Wire.header_before_checksum morion_os.Tcp.Wire.byte_at
    morion_os.Tcp.Checksum.tcp_csum morion_os.Tcp.Checksum.csum_fold
    morion_os.Tcp.Checksum.fold_carries morion_os.Tcp.Checksum.csum_acc
    morion_os.Tcp.Checksum.pseudo_header
misdelivered = refl

tcp_parse-tcp_build_example :
    tcp_parse 6 host_a host_b (tcp_build host_a host_b hello 4096) ≡ some hello
tcp_parse-tcp_build_example =
    tcp_parse-tcp_build host_a host_b hello 4096 refl refl
      (fits (omega arith) (omega arith) (omega arith) (omega arith) (omega arith)) (omega arith)
