-- ===== src/Tcp/Retransmit.antt =====
-- src/tcpstack.c: the retransmission timer.
pub mod GivesUp
use wgx.Base.{
  ℕ, zero, suc, ◌+◌, ◌-◌, ◌*◌, ◌%◌, ◌^◌, Bool, true, false, not, ◌&&◌, ◌||◌, Option, none, some,
  min, List, [], ◌∷◌, ◌++◌, ◌==◌, ltb, leb, if◌then◌else◌, length,
}
use wgx.Tcp.Seq.{add32, sub32}
use wgx.Tcp.Types.{
  TcpState, closed, syn_received, syn_sent, established, fin_wait, close_wait, last_ack, Conn, App,
  Event, tcp_retransmit_ms, tcp_retransmit_max_ms, tcp_max_retransmit, tcpf_fin, tcpf_syn, tcpf_psh,
  tcpf_ack,
}
use wgx.Tcp.Sendbuf.{sendbuf_copy_out}
use wgx.Tcp.Segment.{send_segment}
use wgx.Tcp.Conn.{is_state, emit, mss_of, conn_destroy}

module _ (app : App) where
  -- A FIN is ours to send again in these states.
  abbrev pub fin_sent : Conn → Bool
  fin_sent c = is_state c.state fin_wait || is_state c.state last_ack

  -- the loop that sends the whole buffer again, a byte at least in each round
  unfoldable pub resend_loop : ℕ → Conn → ℕ → Conn
  resend_loop zero c off = c
  resend_loop (suc fuel) c off =
      let seg = min (c.sendbuf.len - off) (mss_of c) in
      let fl =
        tcpf_ack
        + tcpf_psh
        + (if (off + seg == c.sendbuf.len) && fin_sent c then tcpf_fin else 0) in
      let sent =
        send_segment app c fl (add32 c.snd_una off) c.rcv_nxt
          (sendbuf_copy_out c.sendbuf off seg) in
      let rest = resend_loop fuel sent (off + seg) in if ltb off c.sendbuf.len then rest else c

  unfoldable pub resend : Conn → Conn
  resend c =
      let rest =
        if ltb 0 c.sendbuf.len
        then resend_loop c.sendbuf.len c 0
        else (if fin_sent c
            then send_segment app c (tcpf_fin + tcpf_ack) (sub32 c.snd_nxt 1) c.rcv_nxt []
            else c) in
      elim c.state [
        | syn_sent ↦ send_segment app c tcpf_syn c.iss 0 []
        | syn_received ↦ send_segment app c (tcpf_syn + tcpf_ack) c.iss c.rcv_nxt []
        | closed ↦ c
        | _ ↦ rest
      ]

  -- what the application is told when the connection is given up
  unfoldable pub give_up : Conn → Conn
  give_up c =
      let marked = record c { state = closed; close_notified = true } in
      if c.close_notified
      then record c { state = closed }
      else (if c.on_connect && (c.snd_una == c.iss)
          then app.connect false (emit (Event.connected false) marked)
          else (if c.on_close then app.close (emit Event.closing marked) else marked))

  abbrev pub backoff : ℕ → ℕ
  backoff count = min tcp_retransmit_max_ms (tcp_retransmit_ms * 2 ^ count % 2 ^ 64)

  -- the timer has fired, and is not active
  unfoldable pub retransmit_cb : Conn → Conn
  retransmit_cb c =
      let fired = record c { retransmit_timer = none; retransmit_count = c.retransmit_count + 1 } in
      if c.being_freed
      then record c { retransmit_timer = none }
      else (if ltb tcp_max_retransmit fired.retransmit_count
          then conn_destroy app (give_up fired)
          else record (resend fired) { retransmit_timer = some (backoff fired.retransmit_count) })
