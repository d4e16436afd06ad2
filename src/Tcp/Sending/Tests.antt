-- ===== src/Tcp/Sending/Tests.antt =====
-- Tests of the sending side of src/tcpstack.c, and its theorems at concrete inputs.
use wgx.Base.{
  ℕ, ◌+◌, ◌%◌, ◌^◌, ◌≤◌, ◌≡◌, refl, arith, true, none, List, [], ◌∷◌, ◌++◌, min, max, if◌then◌else◌,
}
use wgx.Tcp.Types.{Event, Conn}
use wgx.Tcp.Sendbuf.{sendbuf_grow, sendbuf_append}
use wgx.Tcp.Sendbuf.Refine.{IsRing, contents}
use wgx.Tcp.Conn.{tcp_send, tcp_flush_pending, schedule_flush}
use wgx.Tcp.Input.{take_ack}
use wgx.Tcp.Sending.{IsSending, IsWired, Covers}
use wgx.Tcp.Sending.Flush.{tcp_flush_pending_lem}
use wgx.Tcp.Sending.Moves.{contents-tcp_send}
use wgx.Tcp.Sending.Acks.{KeepsSending, acked_by, take_ack-IsSending}
use wgx.Tcp.Sending.Stream.{tcp_send-IsSending}
use wgx.Tcp.Sending.Open.{IsOpen, IsPolite}
use wgx.Tcp.Sending.Course.{Transfers, begins, gives, acks, run_holds_stream}
use wgx.Tcp.Reassembly.Stream.{slice}
use wgx.Tcp.Fixture.{mute, conn, ring-IsRing, peer4}

conn-IsSending : IsSending (λ i. i + 1) 501 0 2 conn
unfolding slice
conn-IsSending = record {
  ring = ring-IsRing;
  una = refl;
  nxt = refl;
  flight = omega arith;
  holds = refl;
}

conn-IsWired : IsWired peer4 none conn
conn-IsWired = record {
  addressed = (refl, refl, refl);
  local_fits = omega arith;
  remote_fits = omega arith;
  rcv_fits = omega arith;
  mss_fits = omega arith;
}

tcp_flush_pending_lem_example :
    (events : List Event) × ((tcp_flush_pending mute conn).log ≡ [] ++ events)
    × Covers (λ i. i + 1) 501 peer4 none (0 + 2) (0 + max 2 (min 5 4)) events
    × ((tcp_flush_pending mute conn).snd_nxt ≡ (501 + (0 + max 2 (min 5 4))) % 2 ^ 32)
tcp_flush_pending_lem_example =
    tcp_flush_pending_lem mute (λ i. i + 1) 501 0 2 peer4 none conn conn-IsSending conn-IsWired
      (omega arith) refl refl

mute-KeepsSending : KeepsSending mute (λ i. i + 1) 501
mute-KeepsSending c u fl h = (fl, h)

take_ack-IsSending_example :
    (fl' : ℕ) × (acked_by 502 conn ≤ 2)
    × IsSending (λ i. i + 1) 501 (0 + acked_by 502 conn) fl' (take_ack mute 502 conn)
take_ack-IsSending_example =
    take_ack-IsSending mute (λ i. i + 1) 501 0 2 502 peer4 none conn mute-KeepsSending
      conn-IsSending conn-IsWired (omega arith) refl refl (omega arith)

next_bytes : 6 ∷ 7 ∷ [] ≡ slice (λ i. i + 1) 5 2
unfolding slice
next_bytes = refl

tcp_send-IsSending_example :
    (fl' : ℕ) × IsSending (λ i. i + 1) 501 0 fl' (tcp_send mute true conn (6 ∷ 7 ∷ [])).1
tcp_send-IsSending_example =
    tcp_send-IsSending mute (λ i. i + 1) 501 0 2 true peer4 none conn (6 ∷ 7 ∷ []) conn-IsSending
      conn-IsWired next_bytes (omega arith)

mute-IsPolite : IsPolite mute (λ i. i + 1) 501 peer4 none
mute-IsPolite = record { keeps = mute-KeepsSending; stays = λ c h. h }

conn-IsOpen : IsOpen peer4 none conn
conn-IsOpen = record { wired = conn-IsWired; alive = refl; open_state = refl }

-- two bytes are sent, and then one is acknowledged
abbrev conn_sent : Conn
conn_sent = (tcp_send mute true conn (6 ∷ 7 ∷ [])).1

abbrev conn_later : Conn
conn_later = take_ack mute 502 conn_sent

abbrev acked_upto : ℕ
acked_upto = 0 + acked_by 502 conn_sent

sent_run : Transfers mute (λ i. i + 1) 0 conn acked_upto conn_later
unfolding tcp_send schedule_flush sendbuf_grow sendbuf_append
sent_run =
    acks (gives begins true (6 ∷ 7 ∷ []) next_bytes (omega arith)) 502 (omega arith) (omega arith)

run_holds_stream_example :
    (0 ≤ acked_upto)
    × (contents conn_later.sendbuf ≡ slice (λ i. i + 1) acked_upto conn_later.sendbuf.len)
    × (conn_later.snd_una ≡ (501 + acked_upto) % 2 ^ 32)
    × ((fl : ℕ) × (fl ≤ conn_later.sendbuf.len)
        × (conn_later.snd_nxt ≡ (501 + (acked_upto + fl)) % 2 ^ 32))
run_holds_stream_example =
    run_holds_stream mute (λ i. i + 1) 501 peer4 none 0 2 acked_upto conn conn_later mute-IsPolite
      conn-IsOpen conn-IsSending sent_run

contents-tcp_send_example :
    ((tcp_send mute true conn (6 ∷ 7 ∷ [])).0 ≡ true)
    × (IsRing (tcp_send mute true conn (6 ∷ 7 ∷ [])).1.sendbuf
        × (contents (tcp_send mute true conn (6 ∷ 7 ∷ [])).1.sendbuf ≡ (
            if (tcp_send mute true conn (6 ∷ 7 ∷ [])).0
            then 1 ∷ 2 ∷ 3 ∷ 4 ∷ 5 ∷ 6 ∷ 7 ∷ []
            else 1 ∷ 2 ∷ 3 ∷ 4 ∷ 5 ∷ [])))
contents-tcp_send_example =
    contents-tcp_send mute conn (6 ∷ 7 ∷ []) ring-IsRing refl refl (omega arith)
