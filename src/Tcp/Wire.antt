-- ===== src/Tcp/Wire.antt =====
-- The bytes of a TCP segment of user/srv/src/netstack_srv.rs: the segment that `tcp_build` writes
-- behind the IPv4 header, and `tcp_parse`.
use morion_os.Prelude.{
  ℕ, zero, suc, ◌+◌, ◌*◌, ◌/◌, ◌%◌, ◌^◌, ◌≤◌, ◌<◌, ◌≡◌, refl, not, ◌||◌, Option, none, some, List,
  [], ◌∷◌, ◌++◌, length, drop, arith, ◌==◌, ltb, ap, ◌∙◌, if◌then◌else◌,
}
use morion_os.Tcp.{TcpSeg}
use morion_os.Tcp.Checksum.{rd16be, tcp_csum, tcp_csum-filled}

-- The byte at an offset; the callers stay below the length.
unfoldable pub byte_at : List ℕ → ℕ → ℕ
byte_at [] i = 0
byte_at (b ∷ bytes) zero = b
byte_at (b ∷ bytes) (suc i) = byte_at bytes i

-- `rd32be`
unfoldable pub rd32be : ℕ → ℕ → ℕ → ℕ → ℕ
rd32be a b c d = rd16be a b * 65536 + rd16be c d

-- The 16 bytes of the header before the checksum: `wr16be` and `wr32be` of the fields in order. The
-- data offset is five words.
unfoldable pub header_before_checksum : TcpSeg → ℕ → List ℕ
header_before_checksum s window =
    s.sport / 256
    ∷ s.sport % 256
    ∷ s.dport / 256
    ∷ s.dport % 256
    ∷ s.seq / 16777216
    ∷ (s.seq / 65536) % 256
    ∷ (s.seq / 256) % 256
    ∷ s.seq % 256
    ∷ s.ack / 16777216
    ∷ (s.ack / 65536) % 256
    ∷ (s.ack / 256) % 256
    ∷ s.ack % 256
    ∷ 80
    ∷ s.flags
    ∷ window / 256
    ∷ window % 256
    ∷ []

-- The segment of `tcp_build`: the checksum of the segment with zeros in its place is written there;
-- the urgent pointer and the payload follow.
unfoldable pub tcp_build : List ℕ → List ℕ → TcpSeg → ℕ → List ℕ
tcp_build src dst s window =
    let head = header_before_checksum s window in
    let c = tcp_csum src dst (head ++ (0 ∷ 0 ∷ 0 ∷ 0 ∷ s.payload)) in
    head ++ (c / 256 ∷ c % 256 ∷ 0 ∷ 0 ∷ s.payload)

-- The `TcpSeg` that `tcp_parse` returns, with the payload at `doff`.
unfoldable pub fields_at : List ℕ → ℕ → TcpSeg
fields_at seg doff = record {
  sport = rd16be (byte_at seg 0) (byte_at seg 1);
  dport = rd16be (byte_at seg 2) (byte_at seg 3);
  seq = rd32be (byte_at seg 4) (byte_at seg 5) (byte_at seg 6) (byte_at seg 7);
  ack = rd32be (byte_at seg 8) (byte_at seg 9) (byte_at seg 10) (byte_at seg 11);
  flags = byte_at seg 13 % 256;
  payload = drop doff seg;
}

-- `tcp_parse` of the payload `seg` of an IPv4 packet from `src` to `dst`. The window is not kept.
unfoldable pub tcp_parse : ℕ → List ℕ → List ℕ → List ℕ → Option TcpSeg
tcp_parse proto src dst seg =
    if not (proto == 6) || ltb (length seg) 20
    then none
    else let doff = byte_at seg 12 % 256 / 16 * 4 in
      if ltb doff 20 || ltb (length seg) doff
      then none
      else if not (tcp_csum src dst seg == 0)
      then none
      else some (fields_at seg doff)

-- The fields of a segment fit their widths.
pub data Fits (s : TcpSeg) : Type 0 where
  fits :
      s.sport < 2 ^ 16 → s.dport < 2 ^ 16 → s.seq < 2 ^ 32 → s.ack < 2 ^ 32 → s.flags < 256 → Fits s

rd16be_word : (v : ℕ) → v < 2 ^ 16 → rd16be (v / 256) (v % 256) ≡ v
unfolding rd16be
rd16be_word v h = omega arith

rd32be_word :
    (v : ℕ) → v < 2 ^ 32 → rd32be (v / 16777216) ((v / 65536) % 256) ((v / 256) % 256) (v % 256) ≡ v
unfolding rd32be rd16be
rd32be_word v h = omega arith

-- A segment with a header of five words and a good checksum is accepted.
tcp_parse_good :
    (src dst seg : List ℕ)
    → 20 ≤ length seg
    → byte_at seg 12 ≡ 80
    → tcp_csum src dst seg ≡ 0
    → tcp_parse 6 src dst seg ≡ some (fields_at seg 20)
unfolding tcp_parse
tcp_parse_good src dst seg long words good =
    let doff : byte_at seg 12 % 256 / 16 * 4 ≡ 20 = omega (arith, words) in ground arith

fields_at-build :
    (s : TcpSeg) (window a b : ℕ)
    → Fits s
    → fields_at (header_before_checksum s window ++ (a ∷ b ∷ 0 ∷ 0 ∷ s.payload)) 20 ≡ s
unfolding fields_at header_before_checksum byte_at
fields_at-build s window a b (fits sp dp sq ak fl) =
    let p1 = rd16be_word s.sport sp in
    let p2 = rd16be_word s.dport dp in
    let p3 = rd32be_word s.seq sq in
    let p4 = rd32be_word s.ack ak in
    let p5 : s.flags % 256 ≡ s.flags = omega (arith, fl) in
    rw p1 (rw p2 (rw p3 (rw p4 (rw p5 refl))))

-- What `tcp_build` writes between two hosts, `tcp_parse` reads back field by field: the checksum
-- holds, the data offset is accepted and the payload is the whole payload. The fields fit their
-- widths, the addresses have four bytes and the payload has at most 59000 bytes.
pub tcp_parse-tcp_build :
    (src dst : List ℕ) (s : TcpSeg) (window : ℕ)
    → length src ≡ 4
    → length dst ≡ 4
    → Fits s
    → length s.payload ≤ 59000
    → tcp_parse 6 src dst (tcp_build src dst s window) ≡ some s
unfolding tcp_build header_before_checksum byte_at
tcp_parse-tcp_build src dst s window s4 d4 sized short =
    let head = header_before_checksum s window in
    let c = tcp_csum src dst (head ++ (0 ∷ 0 ∷ 0 ∷ 0 ∷ s.payload)) in
    let good = tcp_csum-filled src dst head (0 ∷ 0 ∷ s.payload) refl s4 d4 (omega arith) in
    let taken = tcp_parse_good src dst (tcp_build src dst s window) (omega arith) refl good in
    taken ∙ ap some (fields_at-build s window (c / 256) (c % 256) sized)
