-- ===== src/Tcp/Segment.antt =====
-- src/tcpstack.c: the packet that `send_segment` builds, and its reading by `tcpstack_input`.
pub mod Parse
pub mod RoundTrip
pub mod Packet
pub mod Sums
pub mod Bounds
use wgx.Base.{
  ℕ, zero, suc, ◌+◌, ◌-◌, ◌*◌, ◌/◌, ◌%◌, ◌^◌, Bool, true, false, not, ◌&&◌, ◌||◌, Option, none,
  some, min, List, [], ◌∷◌, ◌++◌, map, ◌==◌, ltb, leb, if◌then◌else◌, length, take,
}
use wgx.Base.Bytes.{Bytes, be_bytes}
use wgx.Tcp.Seq.{add32}
use wgx.Tcp.Types.{
  Family, inet, inet6, OooSeg, Conn, App, Event, tcp_mss, tcp_window, tcp_window_scale,
  tcp_max_sack_blocks, tcpf_syn, tcpf_ack, flag_set,
}
use wgx.Tcp.Checksum.{ip4_checksum, tcp4_checksum, tcp6_checksum}

-- the segments out of order that an acknowledgement without data reports
unfoldable pub sack_segs : Conn → ℕ → Bytes → List OooSeg
sack_segs c flags payload =
    if not (flag_set flags tcpf_syn) && ((length payload == 0) && flag_set flags tcpf_ack)
    then take tcp_max_sack_blocks c.rcv_ooo
    else []

abbrev pub sack_blocks : List OooSeg → Bytes
sack_blocks [] = []
sack_blocks (s ∷ segs) =
    be_bytes 4 s.seq ++ (be_bytes 4 (add32 s.seq (length s.bytes)) ++ sack_blocks segs)

unfoldable pub tcp_options : ℕ → List OooSeg → Bytes
tcp_options flags segs =
    if flag_set flags tcpf_syn
    then 2 ∷ 4 ∷ be_bytes 2 tcp_mss ++ (4 ∷ 2 ∷ 1 ∷ 3 ∷ 3 ∷ tcp_window_scale ∷ 1 ∷ 1 ∷ [])
    else (if length segs == 0 then [] else 1 ∷ 1 ∷ 5 ∷ (2 + length segs * 8) ∷ sack_blocks segs)

unfoldable pub advertised_window : App → Conn → ℕ → ℕ
advertised_window app c flags =
    let scale = 2 ^ tcp_window_scale in
    let actual_window =
      if not (flag_set flags tcpf_syn) && c.on_recv_window
      then app.recv_window c % 2 ^ 32
      else tcp_window * 2 ^ tcp_window_scale in
    if flag_set flags tcpf_syn
    then tcp_window
    else (if actual_window == 0
        then 0
        else min tcp_window ((actual_window + scale - 1) % 2 ^ 32 / scale))

-- The TCP header, its checksum and options given, and the payload. `flags` is a `uint8_t`, and below
-- 32 in every call.
abbrev pub tcp_bytes :
    (sport dport seq ack hdr_len flags window : ℕ) → Bytes → Bytes → Bytes → Bytes
tcp_bytes sport dport seq ack hdr_len flags window cksum opts payload =
    be_bytes 2 sport
    ++ (be_bytes 2 dport
        ++ (be_bytes 4 seq
            ++ (be_bytes 4 ack
                ++ (hdr_len / 4 * 16 % 256 ∷ flags ∷ be_bytes 2 window
                    ++ (cksum ++ (0 ∷ 0 ∷ opts ++ payload))))))

abbrev pub ip4_bytes : ℕ → Bytes → Bytes → Bytes → Bytes
ip4_bytes ip_total cksum src dst =
    0x45 ∷ 0 ∷ be_bytes 2 ip_total ++ (0 ∷ 0 ∷ 0x40 ∷ 0 ∷ 64 ∷ 6 ∷ cksum ++ (src ++ dst))

abbrev pub ip6_bytes : ℕ → Bytes → Bytes → Bytes
ip6_bytes plen src dst = 0x60 ∷ 0 ∷ 0 ∷ 0 ∷ be_bytes 2 plen ++ (6 ∷ 64 ∷ src ++ dst)

-- the segment with its checksum field as `cksum`
abbrev pub tcp_of : App → Conn → ℕ → ℕ → ℕ → Bytes → Bytes → Bytes
tcp_of app c flags seq ack payload cksum =
    let opts = tcp_options flags (sack_segs c flags payload) in
    tcp_bytes c.local_port c.remote_port seq (if flag_set flags tcpf_ack then ack else 0)
      (20 + length opts) flags (advertised_window app c flags) cksum opts payload

-- the IP packet around a segment, which is given its checksum
unfoldable pub packet_of : Family → Bytes → Bytes → (Bytes → Bytes) → Bytes
packet_of inet6 src dst tcp =
    let unsummed = tcp (0 ∷ 0 ∷ []) in
    ip6_bytes (length unsummed) src dst ++ tcp (tcp6_checksum src dst unsummed)
packet_of inet src dst tcp =
    let unsummed = tcp (0 ∷ 0 ∷ []) in
    let ip_total = 20 + length unsummed in
    ip4_bytes ip_total (ip4_checksum (ip4_bytes ip_total (0 ∷ 0 ∷ []) src dst)) src dst
    ++ tcp (tcp4_checksum src dst unsummed)

-- the packet that `send_segment` gives to the device
unfoldable pub segment : App → Conn → ℕ → ℕ → ℕ → Bytes → Bytes
segment app c flags seq ack payload =
    packet_of c.family c.local_addr c.remote_addr (tcp_of app c flags seq ack payload)

unfoldable pub send_segment : App → Conn → ℕ → ℕ → ℕ → Bytes → Conn
send_segment app c flags seq ack payload = record c {
  log = c.log ++ (Event.packet (segment app c flags seq ack payload) ∷ []);
}
