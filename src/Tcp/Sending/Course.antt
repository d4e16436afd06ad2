-- ===== src/Tcp/Sending/Course.antt =====
-- Any course of sends, acknowledgements and flushes of an open connection of src/tcpstack.c.
use wgx.Base.{ℕ, ◌+◌, ◌%◌, ◌<◌, ◌≤◌, ◌≡◌, arith, Bool, Option, length}
use wgx.Base.Bytes.{Bytes}
use wgx.Tcp.Seq.{word}
use wgx.Tcp.Types.{Conn, App}
use wgx.Tcp.Sendbuf.Refine.{contents}
use wgx.Tcp.Conn.{tcp_flush_pending, tcp_send}
use wgx.Tcp.Input.{take_ack}
use wgx.Tcp.Reassembly.Stream.{slice}
use wgx.Tcp.Delivery.Order.{limit}
use wgx.Tcp.Sending.{IsSending}
use wgx.Tcp.Sending.Acks.{acked_by, tcp_flush_pending-IsSending, take_ack-IsSending}
use wgx.Tcp.Sending.Stream.{tcp_send-IsSending}
use wgx.Tcp.Sending.Open.{
  IsOpen, IsPolite, tcp_flush_pending-IsOpen, tcp_send-IsOpen, take_ack-IsOpen,
}

-- The application hands the next bytes of the stream to `tcp_send`, numbers are acknowledged, and
-- what waits is flushed; `u` bytes are acknowledged by then. All is within the stream's first
-- 2 ^ 30 bytes.
pub data Transfers (app : App) (f : ℕ → ℕ) (u0 : ℕ) (a : Conn) : ℕ → Conn → Type 0 where
  begins : Transfers app f u0 a u0 a
  gives :
      {u : ℕ} {b : Conn}
      → Transfers app f u0 a u b
      → (mem : Bool) (bytes : Bytes) → bytes ≡ slice f (u + b.sendbuf.len) (length bytes)
      → u + (b.sendbuf.len + length bytes) ≤ limit
      → Transfers app f u0 a u (tcp_send app mem b bytes).1
  acks :
      {u : ℕ} {b : Conn}
      → Transfers app f u0 a u b
      → (ack : ℕ) → ack < word
      → u + b.sendbuf.len ≤ limit
      → Transfers app f u0 a (u + acked_by ack b) (take_ack app ack b)
  flushes :
      {u : ℕ} {b : Conn}
      → Transfers app f u0 a u b
      → u + b.sendbuf.len ≤ limit
      → Transfers app f u0 a u (tcp_flush_pending app b)

module _ (app : App) (f : ℕ → ℕ) (isn : ℕ) (l4 : Bytes) (l6 : Option Bytes) where
  run-IsSending :
      (u0 fl0 : ℕ) (a : Conn) (u : ℕ) (b : Conn)
      → IsPolite app f isn l4 l6
      → IsOpen l4 l6 a
      → IsSending f isn u0 fl0 a
      → Transfers app f u0 a u b
      → (u0 ≤ u) × IsOpen l4 l6 b × ((fl : ℕ) × IsSending f isn u fl b)
  run-IsSending u0 fl0 a u b polite h s0 begins = (omega arith, h, (fl0, s0))
  run-IsSending u0 fl0 a u b polite h s0 (gives {b = m} before mem bytes at within) =
      let (le, ready, (fl, s)) = run-IsSending u0 fl0 a u m polite h s0 before in
      (
        le,
        tcp_send-IsOpen app l4 l6 mem m bytes ready,
        tcp_send-IsSending app f isn u fl mem l4 l6 m bytes s ready.wired at within,
      )
  run-IsSending u0 fl0 a u b polite h s0 (acks {u = v} {b = m} before ack small within) =
      let (le, ready, (fl, s)) = run-IsSending u0 fl0 a v m polite h s0 before in
      let (fl', _, s') =
        take_ack-IsSending app f isn v fl ack l4 l6 m polite.keeps s ready.wired within ready.alive
          ready.open_state small in
      (omega (arith, le), take_ack-IsOpen app l4 l6 f isn ack m polite ready, (fl', s'))
  run-IsSending u0 fl0 a u b polite h s0 (flushes {b = m} before within) =
      let (le, ready, (fl, s)) = run-IsSending u0 fl0 a u m polite h s0 before in
      (
        le,
        tcp_flush_pending-IsOpen app l4 l6 m ready,
        (
          _,
          tcp_flush_pending-IsSending app f isn u fl l4 l6 m s ready.wired within ready.alive
              ready.open_state,
        ),
      )

  -- Of an open connection whose buffer holds the stream from the position `u0` on, and whose
  -- application is polite: after any course of sends of the next bytes, taken or refused, of numbers
  -- acknowledged, valid or not, and of flushes, all within the stream's first 2 ^ 30 bytes, the
  -- buffer holds the stream from the oldest byte on that is not acknowledged, and the numbers of the
  -- connection name that byte and the next one to be sent, which is in the buffer or behind its end.
  pub run_holds_stream :
      (u0 fl0 u : ℕ) (a b : Conn)
      → IsPolite app f isn l4 l6
      → IsOpen l4 l6 a
      → IsSending f isn u0 fl0 a
      → Transfers app f u0 a u b
      → (u0 ≤ u)
        × (contents b.sendbuf ≡ slice f u b.sendbuf.len)
        × (b.snd_una ≡ (isn + u) % word)
        × ((fl : ℕ) × (fl ≤ b.sendbuf.len) × (b.snd_nxt ≡ (isn + (u + fl)) % word))
  run_holds_stream u0 fl0 u a b polite ready s run =
      let (le, _, (fl, sound)) = run-IsSending u0 fl0 a u b polite ready s run in
      (le, sound.holds, sound.una, (fl, sound.flight, sound.nxt))
