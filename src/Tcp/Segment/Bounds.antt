-- ===== src/Tcp/Segment/Bounds.antt =====
-- Where `tcpstack_input` of src/tcpstack.c takes the payload of a packet from.
use wgx.Base.{
  ℕ, ◌+◌, ◌/◌, ◌^◌, ◌<◌, ◌≤◌, ◌≡◌, ◌⊎◌, arith, some, none, Option, length, take, drop, Bool-cases,
  inl, inr, ltb, ltb→lt, ◌==◌,
}
use wgx.Base.Bytes.{Bytes}
use wgx.Tcp.Types.{Family, inet, inet6}
use wgx.Tcp.Segment.Parse.{
  Segment, parse_tcp, parse4, parse6, parse, byte_at, be16_at, sub_size, ihl,
}

-- An IPv4 packet says that it is shorter than its own header.
abbrev pub IsShort : Bytes → Type 0
IsShort p = (byte_at p 0 / 16 ≡ 4) × (be16_at p 2 < ihl p)

abbrev pub payload_end : Segment → ℕ
payload_end s = s.payload_at + s.payload_len

parse_tcp-end :
    (family : Family) (src dst p : Bytes) (at n : ℕ) (s : Segment)
    → parse_tcp family src dst p at n ≡ some s
    → (payload_end s ≡ at + n)
unfolding parse_tcp
parse_tcp-end family src dst p at n s h = ground arith

parse4-end :
    (l4 p : Bytes) (s : Segment)
    → parse4 l4 p ≡ some s
    → (payload_end s ≡ ihl p + sub_size (be16_at p 2) (ihl p)) × (be16_at p 2 ≤ length p)
unfolding parse4
parse4-end l4 p s h =
    let tcp_len = sub_size (be16_at p 2) (ihl p) in
    let src = take 4 (drop 12 p) in
    let dst = take 4 (drop 16 p) in
    (ground (arith, parse_tcp-end inet src dst p (ihl p) tcp_len s), ground arith)

parse6-end :
    (l6 : Option Bytes) (p : Bytes) (s : Segment) → parse6 l6 p ≡ some s → payload_end s ≤ length p
unfolding parse6
parse6-end none p s h = absurd (ground arith)
parse6-end (some l6) p s h =
    ground
      (arith, parse_tcp-end inet6 (take 16 (drop 8 p)) (take 16 (drop 24 p)) p 40 (be16_at p 4) s)

-- A packet that is accepted has the end of its payload inside the packet, or it is an
-- IPv4 packet that says that it is shorter than its header; then the end lies beyond the packet.
pub payload-in_bounds :
    (l4 : Bytes) (l6 : Option Bytes) (p : Bytes) (s : Segment)
    → length p < 2 ^ 63
    → parse l4 l6 p ≡ some s
    → (IsShort p × (length p < payload_end s)) ⊎ ((¬ (IsShort p)) × (payload_end s ≤ length p))
unfolding parse
payload-in_bounds l4 l6 p s small h = elim (Bool-cases (byte_at p 0 / 16 == 4)) [
  | inl four ↦
      let read : parse4 l4 p ≡ some s = ground (arith, four, h) in
      let ends = parse4-end l4 p s read in
      elim (Bool-cases (ltb (be16_at p 2) (ihl p))) [
        | inl lt ↦
            let short : IsShort p = (ground (arith, four), ltb→lt (be16_at p 2) (ihl p) lt) in
            inl (short, ground (arith, ends, short))
        | inr ge ↦ inr (λ short. ground (arith, ge, short), ground (arith, ends, ge))
      ]
  | inr other ↦
      let read : parse6 l6 p ≡ some s = ground (arith, other, h) in
      inr (λ short. ground (arith, other, short), parse6-end l6 p s read)
]
