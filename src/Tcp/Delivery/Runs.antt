-- ===== src/Tcp/Delivery/Runs.antt =====
-- Everything that can happen to a connection of src/tcpstack.c after its opening, in any order.
use wgx.Base.{ℕ, ◌+◌, ◌%◌, ◌^◌, ◌≤◌, ◌≡◌, arith, Bool}
use wgx.Base.Bytes.{Bytes}
use wgx.Tcp.Types.{Conn, App}
use wgx.Tcp.Conn.{tcp_flush_pending, tcp_send, tcp_close, delayed_ack_cb}
use wgx.Tcp.Retransmit.{retransmit_cb}
use wgx.Tcp.Input.{Arrival, conn_input}
use wgx.Tcp.Reassembly.Stream.{slice}
use wgx.Tcp.Delivery.{heard, IsQuiet}
use wgx.Tcp.Delivery.Quiet.{tcp_flush_pending-Undisturbed}
use wgx.Tcp.Delivery.Local.{
  tcp_send-Undisturbed, tcp_close-Undisturbed, delayed_ack_cb-Undisturbed,
  retransmit_cb-Undisturbed,
}
use wgx.Tcp.Delivery.Order.{InOrder, InOrder-Undisturbed, Later}
use wgx.Tcp.Delivery.Arrive.{expected_end, Carries, conn_input-Received}

-- Segments of the stream arrive, the application sends and closes, and the timers fire.
pub data Runs (app : App) (f : ℕ → ℕ) (isn : ℕ) (a : Conn) : Conn → Type 0 where
  start : Runs app f isn a a
  arrives :
      {b : Conn}
      → Runs app f isn a b
      → (p n : ℕ) (mem : Bool) (s : Arrival) → Carries f isn p n s
      → Runs app f isn a (conn_input app mem s b)
  sends :
      {b : Conn}
      → Runs app f isn a b
      → (mem : Bool) (bytes : Bytes) → Runs app f isn a (tcp_send app mem b bytes).1
  closes : {b : Conn} → Runs app f isn a b → Runs app f isn a (tcp_close app b)
  flushes : {b : Conn} → Runs app f isn a b → Runs app f isn a (tcp_flush_pending app b)
  ack_fires : {b : Conn} → Runs app f isn a b → Runs app f isn a (delayed_ack_cb app b)
  retransmit_fires : {b : Conn} → Runs app f isn a b → Runs app f isn a (retransmit_cb app b)

module _ (app : App) (quiet : IsQuiet app) (f : ℕ → ℕ) (isn : ℕ) where
  moved : (r r' : ℕ) (c c' : Conn) → r ≤ r' → InOrder f isn r' c' → Later f isn r c'
  moved r r' c c' le h = (r', le, h)

  run-Later : (r : ℕ) (a b : Conn) → InOrder f isn r a → Runs app f isn a b → Later f isn r b
  run-Later r a b h start = (r, omega arith, h)
  run-Later r a b h (arrives {b = m} before p n mem s carries) =
      let (k, le, ordered) = run-Later r a m h before in
      let (k', le', _, ordered') =
        conn_input-Received f isn app quiet k p n mem s m ordered carries in
      (k', omega (arith, le, le'), ordered')
  run-Later r a b h (sends {b = m} before mem bytes) =
      let (k, le, ordered) = run-Later r a m h before in
      (k, le, InOrder-Undisturbed f isn k m b ordered (tcp_send-Undisturbed app quiet mem m bytes))
  run-Later r a b h (closes {b = m} before) =
      let (k, le, ordered) = run-Later r a m h before in
      (k, le, InOrder-Undisturbed f isn k m b ordered (tcp_close-Undisturbed app quiet m))
  run-Later r a b h (flushes {b = m} before) =
      let (k, le, ordered) = run-Later r a m h before in
      (k, le, InOrder-Undisturbed f isn k m b ordered (tcp_flush_pending-Undisturbed app m))
  run-Later r a b h (ack_fires {b = m} before) =
      let (k, le, ordered) = run-Later r a m h before in
      (k, le, InOrder-Undisturbed f isn k m b ordered (delayed_ack_cb-Undisturbed app quiet m))
  run-Later r a b h (retransmit_fires {b = m} before) =
      let (k, le, ordered) = run-Later r a m h before in
      (k, le, InOrder-Undisturbed f isn k m b ordered (retransmit_cb-Undisturbed app quiet m))

  -- Of a connection whose application was given the first `r` bytes of the peer's stream, and whose
  -- callbacks leave the receiving side alone: after segments of the first 2 ^ 30 bytes of the stream
  -- in any order, repeated, overlapping or missing, none with a FIN, between calls of `tcp_send`,
  -- `tcp_close` and `tcp_flush_pending` and timers that fire, the application was given the first
  -- `r'` bytes of the stream for some `r'` of at least `r`, and the next is expected.
  pub run_delivers_prefix :
      (r : ℕ) (a b : Conn)
      → InOrder f isn r a
      → Runs app f isn a b
      → (r' : ℕ) × (r ≤ r') × (heard b.log ≡ slice f 0 r') × (b.rcv_nxt ≡ (isn + r') % 2 ^ 32)
  run_delivers_prefix r a b h run =
      let (r', le, ordered) = run-Later r a b h run in (r', le, ordered.got, ordered.next)

  -- A segment with bytes of the stream that start at what is expected or before it, without RST
  -- and FIN, brings an open connection to its end at least: the application was given all bytes
  -- of the stream up to there.
  pub arrival_is_delivered :
      (r p n : ℕ) (mem : Bool) (s : Arrival) (c : Conn)
      → InOrder f isn r c
      → Carries f isn p n s
      → (r' : ℕ) × (expected_end r p n s c ≤ r')
        × (heard (conn_input app mem s c).log ≡ slice f 0 r')
  arrival_is_delivered r p n mem s c h carries =
      let (r', _, reach, ordered) = conn_input-Received f isn app quiet r p n mem s c h carries in
      (r', reach, ordered.got)
