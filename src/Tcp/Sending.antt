-- ===== src/Tcp/Sending.antt =====
-- The sending side of a connection of src/tcpstack.c, as a stream of bytes.
pub mod Flush
pub mod Moves
pub mod Acks
pub mod Stream
pub mod Open
pub mod Course
mod Tests
use wgx.Base.{ℕ, zero, suc, ◌+◌, ◌-◌, ◌%◌, ◌^◌, ◌<◌, ◌≤◌, ◌≡◌, Option, some, List, [], ◌∷◌, ◌++◌}
use wgx.Base.Bytes.{Bytes}
use wgx.Tcp.Seq.{word}
use wgx.Tcp.Types.{Conn, Event, tcp_mss}
use wgx.Tcp.Segment.Parse.{Segment, parse, payload_of}
use wgx.Tcp.Segment.Packet.{IsAddressed}
use wgx.Tcp.Input.{Arrival}
use wgx.Tcp.Sendbuf.Refine.{IsRing, contents}
use wgx.Tcp.Reassembly.Stream.{slice}
use wgx.Tcp.Delivery.Arrive.{Carries}

-- what the state machine gets of a packet that was read
abbrev pub arrival_of : Bytes → Segment → Arrival
arrival_of p s = record {
  flags = s.flags;
  seq = s.seq;
  ack = s.ack;
  window = s.window;
  options = s.options;
  payload = payload_of p s;
}

-- The buffer holds the stream from the position `u` on, which is the oldest byte that is not
-- acknowledged; `fl` bytes of it are sent.
pub record IsSending (f : ℕ → ℕ) (isn u fl : ℕ) (c : Conn) : Type 0 where
  pub ring : IsRing c.sendbuf
  pub una : c.snd_una ≡ (isn + u) % word
  pub nxt : c.snd_nxt ≡ (isn + (u + fl)) % word
  pub flight : fl ≤ c.sendbuf.len
  pub holds : contents c.sendbuf ≡ slice f u c.sendbuf.len

-- The peer of a connection has the addresses `l4` and `l6`, and its numbers fit.
pub record IsWired (l4 : Bytes) (l6 : Option Bytes) (c : Conn) : Type 0 where
  pub addressed : IsAddressed c.family l4 l6 c.local_addr c.remote_addr
  pub local_fits : c.local_port < 2 ^ 16
  pub remote_fits : c.remote_port < 2 ^ 16
  pub rcv_fits : c.rcv_nxt < 2 ^ 32
  pub mss_fits : c.snd_mss ≤ tcp_mss

-- A packet that the peer reads as the `n` bytes of the stream from the position `p` on.
abbrev pub IsDataPacket : (ℕ → ℕ) → ℕ → Bytes → Option Bytes → ℕ → ℕ → Event → Type 0
IsDataPacket f isn l4 l6 p n e =
    (bytes : Bytes) × (s : Segment) × (e ≡ Event.packet bytes)
    × (parse l4 l6 bytes ≡ some s)
    × Carries f isn p n (arrival_of bytes s)

-- The events are packets only, which the peer reads as the bytes of the stream from `p` to `q`, each
-- of them with some, one after the other and without a gap.
abbrev pub Covers : (ℕ → ℕ) → ℕ → Bytes → Option Bytes → ℕ → ℕ → List Event → Type 0
Covers f isn l4 l6 p q [] = p ≡ q
Covers f isn l4 l6 p q (e ∷ events) =
    (n : ℕ) × (0 < n) × IsDataPacket f isn l4 l6 p n e × Covers f isn l4 l6 (p + n) q events
