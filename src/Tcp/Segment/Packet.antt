-- ===== src/Tcp/Segment/Packet.antt =====
-- The packet of `send_segment` of src/tcpstack.c as `tcpstack_input` of the other end reads it.
use mathlib.Core.List.{append_assoc}
use mathlib.Core.Path.{subst}
use wgx.Base.{
  ℕ, ◌+◌, ◌*◌, ◌%◌, ◌^◌, ◌<◌, ◌≤◌, ◌≡◌, refl, ap, ◌∙◌, arith, Option, some, List, [], ◌∷◌, ◌++◌,
  if◌then◌else◌, length, take, drop, get_or, length-append, length-take,
}
use wgx.Base.Bytes.{Bytes, bytes_eq, bytes_eq_refl}
use wgx.Tcp.Types.{Family, inet, inet6, OooSeg, Conn, App, tcp_mss, tcp_window, tcpf_ack, flag_set}
use wgx.Tcp.Checksum.{cksum_fold, ip4_checksum, tcp4_checksum, tcp6_checksum}
use wgx.Tcp.Segment.{
  sack_segs, sack_blocks, tcp_options, advertised_window, tcp_of, ip4_bytes, ip6_bytes, packet_of,
  segment,
}
use wgx.Tcp.Segment.Parse.{Segment, parse_tcp, parse4, parse6, parse, payload_of}
use wgx.Tcp.Segment.RoundTrip.{FitsHeader, parse_tcp_lem, payload_at_lem, take_append, drop_append}

length-sack_blocks : (segs : List OooSeg) → length (sack_blocks segs) ≡ length segs * 8
length-sack_blocks [] = refl
length-sack_blocks (s ∷ segs) = omega (arith, length-sack_blocks segs)

pub length-sack_segs :
    (c : Conn) (flags : ℕ) (payload : Bytes) → length (sack_segs c flags payload) ≤ 3
unfolding sack_segs
length-sack_segs c flags payload = ground (arith, length-take {0} 3 c.rcv_ooo)

-- The options fill whole words, 28 bytes at most.
pub length-tcp_options :
    (flags : ℕ) (segs : List OooSeg)
    → length segs ≤ 3
    → (length (tcp_options flags segs) % 4 ≡ 0) × (length (tcp_options flags segs) ≤ 28)
unfolding tcp_options
length-tcp_options flags segs few =
    (ground (arith, length-sack_blocks segs), ground (arith, length-sack_blocks segs))

pub advertised_window-le :
    (app : App) (c : Conn) (flags : ℕ) → advertised_window app c flags ≤ tcp_window
unfolding advertised_window
advertised_window-le app c flags = ground arith

-- a connection's numbers fit their fields
pub record FitsWire (c : Conn) (seq ack : ℕ) (payload : Bytes) : Type 0 where
  pub local_fits : c.local_port < 2 ^ 16
  pub remote_fits : c.remote_port < 2 ^ 16
  pub seq_fits : seq < 2 ^ 32
  pub ack_fits : ack < 2 ^ 32
  pub payload_fits : length payload ≤ tcp_mss

-- Two addresses of `n` bytes in a row, and what follows them.
module _ (n : ℕ) (src dst q : Bytes) (src_len : length src ≡ n) (dst_len : length dst ≡ n) where
  abbrev row : Bytes
  row = (src ++ dst) ++ q

  from_dst : drop n row ≡ dst ++ q
  from_dst =
      ap (λ (t : Bytes). drop n t) (append_assoc src dst q)
      ∙ (ap (λ (t : ℕ). drop t (src ++ (dst ++ q))) {x = n} {y = length src + 0}
            (omega (arith, src_len))
          ∙ drop_append src (dst ++ q) 0)

  src_at : take n row ≡ src
  src_at =
      ap (λ (t : Bytes). take n t) (append_assoc src dst q)
      ∙ (ap (λ (t : ℕ). take t (src ++ (dst ++ q))) {x = n} {y = length src}
            (omega (arith, src_len))
          ∙ take_append src (dst ++ q))

  dst_at : take n (drop n row) ≡ dst
  dst_at =
      ap (λ (t : Bytes). take n t) from_dst
      ∙ (ap (λ (t : ℕ). take t (dst ++ q)) {x = n} {y = length dst} (omega (arith, dst_len))
          ∙ take_append dst q)

  length-row : length row ≡ n + n + length q
  length-row = omega (arith, length-append {0} (src ++ dst) q, length-append {0} src dst)

-- An IPv4 packet without options is read up to its TCP header.
parse4_lem :
    (src dst q : Bytes) (k1 k0 total : ℕ) (l6 : Option Bytes)
    → length src ≡ 4
    → length dst ≡ 4
    → total ≡ 20 + length q
    → total < 2 ^ 16
    → 20 ≤ length q
    → parse dst l6 (ip4_bytes total (k1 ∷ k0 ∷ []) src dst ++ q)
      ≡ parse_tcp inet src dst (ip4_bytes total (k1 ∷ k0 ∷ []) src dst ++ q) 20 (length q)
unfolding parse parse4
parse4_lem src dst q k1 k0 total l6 src_len dst_len size fits long = ground (
  arith,
  length-row 4 src dst q src_len dst_len,
  src_at 4 src dst q src_len dst_len,
  dst_at 4 src dst q src_len dst_len,
  ap (λ (t : Bytes). bytes_eq t dst) (dst_at 4 src dst q src_len dst_len),
  bytes_eq_refl dst,
)

-- So is an IPv6 packet.
parse6_lem :
    (src dst q l4 : Bytes) (plen : ℕ)
    → length src ≡ 16
    → length dst ≡ 16
    → plen ≡ length q
    → plen < 2 ^ 16
    → 20 ≤ length q
    → parse l4 (some dst) (ip6_bytes plen src dst ++ q)
      ≡ parse_tcp inet6 src dst (ip6_bytes plen src dst ++ q) 40 (length q)
unfolding parse parse6
parse6_lem src dst q l4 plen src_len dst_len size fits long = ground (
  arith,
  length-row 16 src dst q src_len dst_len,
  src_at 16 src dst q src_len dst_len,
  dst_at 16 src dst q src_len dst_len,
  ap (λ (t : Bytes). bytes_eq t dst) (dst_at 16 src dst q src_len dst_len),
  bytes_eq_refl dst,
)

abbrev pub addr_len : Family → ℕ
addr_len inet = 4
addr_len inet6 = 16

abbrev pub ip_len : Family → ℕ
ip_len inet = 20
ip_len inet6 = 40

-- What the other end should read of a segment.
abbrev pub reading : Family → App → Conn → ℕ → ℕ → ℕ → Bytes → Segment
reading family app c flags seq ack payload =
    let opts = tcp_options flags (sack_segs c flags payload) in
    record {
      family = family;
      src = c.local_addr;
      dst = c.remote_addr;
      src_port = c.local_port;
      dst_port = c.remote_port;
      seq = seq;
      ack = if flag_set flags tcpf_ack then ack else 0;
      flags = flags;
      window = advertised_window app c flags;
      options = opts;
      payload_at = ip_len family + (20 + length opts);
      payload_len = length payload;
    }

-- The packet goes to the stack with the addresses `l4` and `l6`, and both ends have an address of
-- their family's length.
abbrev pub IsAddressed : Family → Bytes → Option Bytes → Bytes → Bytes → Type 0
IsAddressed inet l4 l6 own peer = (l4 ≡ peer) × (length own ≡ 4) × (length peer ≡ 4)
IsAddressed inet6 l4 l6 own peer = (l6 ≡ some peer) × (length own ≡ 16) × (length peer ≡ 16)

module _ (app : App) (c : Conn) (flags seq ack : ℕ) (payload : Bytes)
    (fits : FitsWire c seq ack payload) where
  abbrev opts : Bytes
  opts = tcp_options flags (sack_segs c flags payload)

  abbrev ack_field : ℕ
  ack_field = if flag_set flags tcpf_ack then ack else 0

  abbrev tcp_with : ℕ → ℕ → Bytes
  tcp_with c1 c0 = tcp_of app c flags seq ack payload (c1 ∷ c0 ∷ [])

  opts_lem : (length opts % 4 ≡ 0) × (length opts ≤ 28)
  opts_lem = length-tcp_options flags (sack_segs c flags payload) (length-sack_segs c flags payload)

  header_fits :
      FitsHeader c.local_port c.remote_port seq ack_field (advertised_window app c flags) opts
  header_fits = record {
    sport_fits = fits.local_fits;
    dport_fits = fits.remote_fits;
    seq_fits = fits.seq_fits;
    ack_fits = ground (arith, fits.ack_fits);
    window_fits = omega (arith, advertised_window-le app c flags);
    aligned = opts_lem.0;
    opts_fit = omega (arith, opts_lem.1);
  }

  length-tcp_with : (c1 c0 : ℕ) → length (tcp_with c1 c0) ≡ 20 + length opts + length payload
  length-tcp_with c1 c0 = omega (arith, length-append {0} opts payload)

  -- The packet behind the IP header `ip`, once that is read.
  abbrev Behind : Family → Bytes → ℕ → ℕ → ℕ → Type 0
  Behind family ip size c1 c0 =
      (parse_tcp family c.local_addr c.remote_addr (ip ++ tcp_with c1 c0) size
          (length (tcp_with c1 c0))
        ≡ some (record {
          family = family;
          src = c.local_addr;
          dst = c.remote_addr;
          src_port = c.local_port;
          dst_port = c.remote_port;
          seq = seq;
          ack = ack_field;
          flags = flags;
          window = advertised_window app c flags;
          options = opts;
          payload_at = size + (20 + length opts);
          payload_len = length payload;
        }))
      × (take (length payload) (drop (size + (20 + length opts)) (ip ++ tcp_with c1 c0)) ≡ payload)

  read-Behind :
      (family : Family) (ip : Bytes) (size c1 c0 : ℕ)
      → length ip ≡ size
      → Behind family ip size c1 c0
  read-Behind family ip size c1 c0 e =
      subst (λ n. Behind family ip n c1 c0) e
        (
          parse_tcp_lem family c.local_addr c.remote_addr ip c.local_port c.remote_port seq
              ack_field flags (advertised_window app c flags) c1 c0 opts payload header_fits,
          payload_at_lem family c.local_addr c.remote_addr ip c.local_port c.remote_port seq
              ack_field flags (advertised_window app c flags) c1 c0 opts payload header_fits,
        )

  abbrev pub IsRead : Bytes → Option Bytes → Bytes → Segment → Type 0
  IsRead l4 l6 p s = (parse l4 l6 p ≡ some s) × (payload_of p s ≡ payload)

  length-ip4 :
      (total k1 k0 : ℕ)
      → length c.local_addr ≡ 4
      → length c.remote_addr ≡ 4
      → length (ip4_bytes total (k1 ∷ k0 ∷ []) c.local_addr c.remote_addr) ≡ 20
  length-ip4 total k1 k0 h g = omega (arith, length-append {0} c.local_addr c.remote_addr)

  abbrev ck4 : ℕ → ℕ
  ck4 i = get_or (tcp4_checksum c.local_addr c.remote_addr (tcp_with 0 0)) i 0

  abbrev ck6 : ℕ → ℕ
  ck6 i = get_or (tcp6_checksum c.local_addr c.remote_addr (tcp_with 0 0)) i 0

  abbrev ip4 : ℕ → ℕ → Bytes
  ip4 k1 k0 = ip4_bytes (20 + length (tcp_with 0 0)) (k1 ∷ k0 ∷ []) c.local_addr c.remote_addr

  abbrev ip6 : Bytes
  ip6 = ip6_bytes (length (tcp_with 0 0)) c.local_addr c.remote_addr

  abbrev kd : ℕ → ℕ
  kd i = get_or (ip4_checksum (ip4 0 0)) i 0

  packet4 :
      packet_of inet c.local_addr c.remote_addr (tcp_of app c flags seq ack payload)
      ≡ ip4 (kd 0) (kd 1) ++ tcp_with (ck4 0) (ck4 1)
  unfolding packet_of ip4_checksum tcp4_checksum cksum_fold
  packet4 = refl

  packet6 :
      packet_of inet6 c.local_addr c.remote_addr (tcp_of app c flags seq ack payload)
      ≡ ip6 ++ tcp_with (ck6 0) (ck6 1)
  unfolding packet_of tcp6_checksum cksum_fold
  packet6 = refl

  IsRead-by_family :
      (family : Family) (l4 : Bytes) (l6 : Option Bytes)
      → IsAddressed family l4 l6 c.local_addr c.remote_addr
      → IsRead l4 l6
          (packet_of family c.local_addr c.remote_addr (tcp_of app c flags seq ack payload))
          (reading family app c flags seq ack payload)
  IsRead-by_family inet l4 l6 (here, local_len, remote_len) =
      let size = 20 + length (tcp_with 0 0) in
      let ip_size = length-ip4 size (kd 0) (kd 1) local_len remote_len in
      let read = read-Behind inet (ip4 (kd 0) (kd 1)) 20 (ck4 0) (ck4 1) ip_size in
      let reached =
        parse4_lem c.local_addr c.remote_addr (tcp_with (ck4 0) (ck4 1)) (kd 0) (kd 1) size l6
          local_len remote_len (omega arith)
          (omega (arith, length-tcp_with 0 0, opts_lem, fits.payload_fits)) (omega arith) in
      rw (packet4, here) (reached ∙ read.0, read.1)
  IsRead-by_family inet6 l4 l6 (here, local_len, remote_len) =
      let size = length (tcp_with 0 0) in
      let ip_size : length ip6 ≡ 40 = omega (arith, length-append {0} c.local_addr c.remote_addr) in
      let read = read-Behind inet6 ip6 40 (ck6 0) (ck6 1) ip_size in
      let reached =
        parse6_lem c.local_addr c.remote_addr (tcp_with (ck6 0) (ck6 1)) l4 size local_len
          remote_len refl (omega (arith, length-tcp_with 0 0, opts_lem, fits.payload_fits))
          (omega arith) in
      rw (packet6, here) (reached ∙ read.0, read.1)

  -- A segment that one end builds for the other, whose numbers fit their fields and whose payload
  -- is at most the largest segment, is read by it with the same addresses, ports, numbers, flags,
  -- window and options, and with its payload; the number that is acknowledged only where it is one.
  pub parse-segment :
      (l4 : Bytes) (l6 : Option Bytes)
      → IsAddressed c.family l4 l6 c.local_addr c.remote_addr
      → IsRead l4 l6
          (segment app c flags seq ack payload)
          (reading c.family app c flags seq ack payload)
  unfolding segment
  parse-segment l4 l6 addressed = IsRead-by_family c.family l4 l6 addressed
