-- ===== src/Tcp/Checksum.antt =====
-- src/tcpstack.c: the Internet checksum of IPv4 headers and TCP segments.
pub mod Valid
use wgx.Base.{
  ℕ, zero, suc, ◌+◌, ◌-◌, ◌*◌, ◌/◌, ◌%◌, ◌^◌, true, false, List, [], ◌∷◌, ◌++◌, ◌==◌, length,
  replicate,
}
use wgx.Base.Bytes.{Bytes, be_bytes}
use wgx.Tcp.Types.{Family, inet, inet6}

-- big-endian words of 16 bits, and a last byte as the high half of one; `sum` is a `uint32_t`
unfoldable pub cksum_add : Bytes → ℕ → ℕ
cksum_add [] sum = sum
cksum_add (a ∷ []) sum = (sum + a * 256) % 2 ^ 32
cksum_add (a ∷ b ∷ rest) sum = cksum_add rest ((sum + (a * 256 + b)) % 2 ^ 32)

-- `while (sum >> 16) …`: two rounds bring every `uint32_t` below 2 ^ 16
unfoldable pub fold_carries : ℕ → ℕ → ℕ
fold_carries zero sum = sum
fold_carries (suc fuel) sum = elim (sum / 2 ^ 16 == 0) [
  | true ↦ sum
  | false ↦ fold_carries fuel (sum % 2 ^ 16 + sum / 2 ^ 16)
]

-- `htons((uint16_t)~sum)`, as bytes in memory
unfoldable pub cksum_fold : ℕ → Bytes
cksum_fold sum = be_bytes 2 (65535 - fold_carries 2 sum % 2 ^ 16)

unfoldable pub ip4_checksum : Bytes → Bytes
ip4_checksum hdr = cksum_fold (cksum_add hdr 0)

abbrev pub pseudo4 : Bytes → Bytes → ℕ → Bytes
pseudo4 src_ip dst_ip tcp_len = src_ip ++ (dst_ip ++ (0 ∷ 6 ∷ be_bytes 2 tcp_len))

abbrev pub pseudo6 : Bytes → Bytes → ℕ → Bytes
pseudo6 src_ip dst_ip tcp_len = src_ip ++ (dst_ip ++ (be_bytes 4 tcp_len ++ (0 ∷ 0 ∷ 0 ∷ 6 ∷ [])))

unfoldable pub tcp4_checksum : Bytes → Bytes → Bytes → Bytes
tcp4_checksum src_ip dst_ip tcp_seg =
    cksum_fold (cksum_add tcp_seg (cksum_add (pseudo4 src_ip dst_ip (length tcp_seg)) 0))

unfoldable pub tcp6_checksum : Bytes → Bytes → Bytes → Bytes
tcp6_checksum src_ip dst_ip tcp_seg =
    cksum_fold (cksum_add tcp_seg (cksum_add (pseudo6 src_ip dst_ip (length tcp_seg)) 0))
