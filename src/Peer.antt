-- ===== src/Peer.antt =====
-- `wg_peer_t` of src/wg.h. A timer handle of libuv is the delay that it was last started with, or
-- `none` while it is not active; all of the program's timers fire once.
use wgx.Base.{ℕ, Bool, Option, List}
use wgx.Base.Bytes.{Bytes}
use wgx.AllowedIps.{AllowedIps}
use wgx.Noise.Types.{Handshake, CookieGen}

-- `struct sockaddr_storage`: the address and the port, as they stand in memory
pub data Sockaddr : Type 0 where
  sockaddr_in sockaddr_in6 : (addr port : Bytes) → Sockaddr

pub record Timers : Type 0 where
  pub retransmit_handshake : Option ℕ
  pub send_keepalive : Option ℕ
  pub new_handshake : Option ℕ
  pub zero_key_material : Option ℕ
  pub persistent_keepalive : Option ℕ
  pub close_count : ℕ
  pub active : Bool

-- `staged_pkts` and `staged_lens` are one array of packets.
pub record Staged : Type 0 where
  pub packets : List Bytes
  pub head : ℕ
  pub tail : ℕ
  pub count : ℕ

-- `peer_id` is the peer's address. The endpoint is `none` while `endpoint_len` is 0.
pub record Peer : Type 0 where
  pub peer_id : ℕ
  pub public_key : Bytes
  pub psk : Bytes
  pub handshake : Handshake
  pub cookie : CookieGen
  pub current_keypair : Option ℕ
  pub next_keypair : Option ℕ
  pub prev_keypair : Option ℕ
  pub endpoint : Option Sockaddr
  pub tx_bytes : ℕ
  pub rx_bytes : ℕ
  pub last_handshake_ns : ℕ
  pub persistent_keepalive_ms : ℕ
  pub timers : Timers
  pub handshake_attempts : ℕ
  pub need_another_keepalive : Bool
  pub staged : Staged
  pub allowedips : AllowedIps
