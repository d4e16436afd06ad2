-- ===== src/Device.antt =====
-- src/device.c: the device around one peer, with the datagrams that it sends. Log lines and locks
-- are not modelled; a pool of buffers is the answer of its allocation.
pub mod Send
pub mod Counters
pub mod Nonce
pub mod Queue
pub mod Flush
pub mod Drain
pub mod Receive
pub mod Callbacks
mod Tests
use wgx.Base.{ℕ, Bool, List, Option}
use wgx.Base.Bytes.{Bytes}
use wgx.Noise.Types.{Initiation, Response, CookieReply}
use wgx.Noise.Mix.{Identity}
use wgx.Noise.Initiation.{Draws}
use wgx.Noise.Session.{Session}
use wgx.AllowedIps.{AllowedIps}
use wgx.Peer.{Sockaddr}

-- a message on the wire; a transport message is its header's receiver and counter and the ciphertext
pub data Datagram : Type 0 where
  initiation : Initiation → Datagram
  response : Response → Datagram
  cookie_reply : CookieReply → Datagram
  transport : (receiver counter : ℕ) (ciphertext : Bytes) → Datagram

-- `outbox` has the newest datagram last, each with its destination; `drawn` counts the random draws.
-- `routes` is `allowedips`, and `written` what the TUN device was given, the newest packet last.
pub record Device : Type 0 where
  pub identity : Identity
  pub session : Session
  pub outbox : List (Sockaddr × Datagram)
  pub drawn : ℕ
  pub routes : AllowedIps
  pub written : List Bytes

-- What the rest of the system answers during one callback of the event loop: its time, the wall
-- clock's timestamp, the random draws and jitters, whether a buffer is given, and whether a datagram
-- is sent.
pub record Env : Type 0 where
  pub now_ms : ℕ
  pub timestamp : Bytes
  pub draws : ℕ → Draws
  pub jitter : ℕ → ℕ
  pub buffer : Bool
  pub sends : Bool
