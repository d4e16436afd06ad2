-- ===== src/Tcp/Segment/Parse.antt =====
-- src/tcpstack.c: how `tcpstack_input` reads a packet, and `parse_syn_options`.
use wgx.Base.{
  ℕ, zero, suc, ◌+◌, ◌-◌, ◌*◌, ◌/◌, ◌%◌, ◌^◌, not, ◌&&◌, ◌||◌, Option, none, some, min, [], ◌∷◌,
  ◌==◌, ltb, leb, if◌then◌else◌, length, take, drop, get_or,
}
use wgx.Base.Bytes.{Bytes, bytes_eq}
use wgx.Tcp.Types.{Family, inet, inet6, tcp_mss}

-- What `tcpstack_input` reads of a packet: the addresses and header fields, where the options are, and
-- where the payload is and how long, in `size_t`.
pub record Segment : Type 0 where
  pub family : Family
  pub src : Bytes
  pub dst : Bytes
  pub src_port : ℕ
  pub dst_port : ℕ
  pub seq : ℕ
  pub ack : ℕ
  pub flags : ℕ
  pub window : ℕ
  pub options : Bytes
  pub payload_at : ℕ
  pub payload_len : ℕ

-- Beyond the packet it is 0 here, where the source reads what lies in memory: that happens only if the
-- packet says that it is shorter than its own header.
abbrev pub byte_at : Bytes → ℕ → ℕ
byte_at p i = get_or p i 0

abbrev pub be16_at : Bytes → ℕ → ℕ
be16_at p i = byte_at p i * 256 + byte_at p (i + 1)

abbrev pub be32_at : Bytes → ℕ → ℕ
be32_at p i =
    byte_at p i * 2 ^ 24
    + byte_at p (i + 1) * 2 ^ 16
    + byte_at p (i + 2) * 2 ^ 8
    + byte_at p (i + 3)

-- `a - b` of two `size_t`
abbrev pub sub_size : ℕ → ℕ → ℕ
sub_size a b = if leb b a then a - b else 2 ^ 64 - (b - a)

-- the TCP header and payload at `at`, of `tcp_len` bytes
unfoldable pub parse_tcp : Family → Bytes → Bytes → Bytes → ℕ → ℕ → Option Segment
parse_tcp family src dst p at tcp_len =
    let data_off = byte_at p (at + 12) / 16 * 4 in
    if ltb data_off 20 || ltb tcp_len data_off
    then none
    else some (record {
      family = family;
      src = src;
      dst = dst;
      src_port = be16_at p at;
      dst_port = be16_at p (at + 2);
      seq = be32_at p (at + 4);
      ack = be32_at p (at + 8);
      flags = byte_at p (at + 13);
      window = be16_at p (at + 14);
      options = take (data_off - 20) (drop (at + 20) p);
      payload_at = at + data_off;
      payload_len = tcp_len - data_off;
    })

unfoldable pub parse6 : Option Bytes → Bytes → Option Segment
parse6 none p = none
parse6 (some local_ip6) p =
    let tcp_len = be16_at p 4 in
    if ltb (length p) 60
      || (not (byte_at p 6 == 6)
          || ((ltb (length p) (40 + tcp_len) || ltb tcp_len 20)
              || not (bytes_eq (take 16 (drop 24 p)) local_ip6)))
    then none
    else parse_tcp inet6 (take 16 (drop 8 p)) (take 16 (drop 24 p)) p 40 tcp_len

abbrev pub ihl : Bytes → ℕ
ihl p = byte_at p 0 % 16 * 4

-- `tcp_len` is `ip_total - ihl` in `size_t`
unfoldable pub parse4 : Bytes → Bytes → Option Segment
parse4 local_ip p =
    let ip_total = be16_at p 2 in
    let tcp_len = sub_size ip_total (ihl p) in
    if (ltb (ihl p) 20 || ltb (length p) (ihl p))
      || (not (byte_at p 9 == 6)
          || (ltb (length p) ip_total
              || (not (bytes_eq (take 4 (drop 16 p)) local_ip) || ltb tcp_len 20)))
    then none
    else parse_tcp inet (take 4 (drop 12 p)) (take 4 (drop 16 p)) p (ihl p) tcp_len

unfoldable pub parse : Bytes → Option Bytes → Bytes → Option Segment
parse local_ip local_ip6 p =
    if ltb (length p) 40
    then none
    else (if byte_at p 0 / 16 == 6
        then parse6 local_ip6 p
        else (if byte_at p 0 / 16 == 4 then parse4 local_ip p else none))

-- the payload's bytes
abbrev pub payload_of : Bytes → Segment → Bytes
payload_of p s = take s.payload_len (drop s.payload_at p)

-- What the options say: the segment size and the window scale.
pub record SynOptions : Type 0 where
  pub mss : ℕ
  pub wscale : ℕ

-- one option of kind `kind` and length `optlen`, whose value starts `value`
unfoldable pub syn_option : ℕ → ℕ → Bytes → SynOptions → SynOptions
syn_option kind optlen value o =
    let rmss = be16_at value 0 in
    if (kind == 2) && (optlen == 4)
    then (if ltb 0 rmss && ltb rmss tcp_mss then record o { mss = rmss } else o)
    else (if (kind == 3) && (optlen == 3)
        then record o { wscale = min 14 (byte_at value 0) }
        else o)

-- The loop of `parse_syn_options`, over the bytes that are left: each round takes one at least.
unfoldable pub scan_options : ℕ → Bytes → SynOptions → SynOptions
scan_options zero opts o = o
scan_options (suc fuel) [] o = o
scan_options (suc fuel) (kind ∷ []) o = o
scan_options (suc fuel) (kind ∷ optlen ∷ value) o =
    let next = scan_options fuel (optlen ∷ value) o in
    let skip =
      scan_options fuel (drop optlen (kind ∷ optlen ∷ value)) (syn_option kind optlen value o) in
    if kind == 0
    then o
    else (if kind == 1
        then next
        else (if ltb optlen 2 || ltb (2 + length value) optlen then o else skip))

unfoldable pub parse_syn_options : Bytes → SynOptions
parse_syn_options opts = scan_options (length opts) opts (record { mss = tcp_mss; wscale = 0 })
