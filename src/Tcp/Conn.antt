-- ===== src/Tcp/Conn.antt =====
-- src/tcpstack.c: what a connection sends, its timers and its end.
use wgx.Base.{
  ℕ, zero, suc, ◌+◌, ◌-◌, ◌*◌, ◌^◌, Bool, true, false, not, ◌&&◌, ◌||◌, Option, none, some, min, [],
  ◌∷◌, ◌++◌, ◌==◌, ltb, leb, if◌then◌else◌, length,
}
use wgx.Base.Bytes.{Bytes}
use wgx.Tcp.Seq.{add32, sub32}
use wgx.Tcp.Types.{
  TcpState, closed, syn_received, syn_sent, established, fin_wait, close_wait, last_ack, Conn, App,
  Event, tcp_mss, tcp_sendbuf_size, tcp_delayed_ack_ms, tcp_delayed_ack_segments, tcp_retransmit_ms,
  tcpf_fin, tcpf_rst, tcpf_psh, tcpf_ack,
}
use wgx.Tcp.Sendbuf.{sendbuf_grow, sendbuf_append, sendbuf_copy_out}
use wgx.Tcp.Segment.{send_segment}

abbrev pub is_active : Option ℕ → Bool
is_active none = false
is_active (some ms) = true

abbrev pub is_state : TcpState → TcpState → Bool
is_state closed closed = true
is_state syn_received syn_received = true
is_state syn_sent syn_sent = true
is_state established established = true
is_state fin_wait fin_wait = true
is_state close_wait close_wait = true
is_state last_ack last_ack = true
is_state s t = false

abbrev pub emit : Event → Conn → Conn
emit e c = record c { log = c.log ++ (e ∷ []) }

-- `conn->snd_mss ? conn->snd_mss : WG_TCP_MSS`
abbrev pub mss_of : Conn → ℕ
mss_of c = if c.snd_mss == 0 then tcp_mss else c.snd_mss

module _ (app : App) where
  -- `if (conn->on_close) conn->on_close(conn)`, with what it does before and after
  unfoldable pub notify_close : Conn → Conn
  notify_close c =
      if c.close_notified
      then c
      else (let marked = record c { close_notified = true } in
          if c.on_close then app.close (emit Event.closing marked) else marked)

  -- the loop of `tcp_flush_pending`, which sends a byte at least in each round
  unfoldable pub flush_loop : ℕ → Conn → ℕ → Conn × ℕ
  flush_loop zero c in_flight = (c, in_flight)
  flush_loop (suc fuel) c in_flight =
      let send_budget = if ltb in_flight c.snd_wnd then c.snd_wnd - in_flight else 0 in
      let seg_len = min (min (c.sendbuf.len - in_flight) (mss_of c)) send_budget in
      let sent =
        send_segment app c (tcpf_ack + tcpf_psh) (add32 c.snd_una in_flight) c.rcv_nxt
          (sendbuf_copy_out c.sendbuf in_flight seg_len) in
      let rest = flush_loop fuel sent (in_flight + seg_len) in
      if ltb in_flight c.sendbuf.len && (not (send_budget == 0) && not (seg_len == 0))
      then rest
      else (c, in_flight)

  unfoldable pub tcp_flush_pending : Conn → Conn
  tcp_flush_pending c =
      if c.being_freed || not (is_state c.state established)
      then c
      else (let flushed = flush_loop c.sendbuf.len c (sub32 c.snd_nxt c.snd_una) in
          let c' = record flushed.0 { snd_nxt = add32 c.snd_una flushed.1 } in
          if ltb 0 c'.sendbuf.len && not (is_active c'.retransmit_timer)
          then record c' { retransmit_count = 0; retransmit_timer = some tcp_retransmit_ms }
          else c')

  unfoldable pub tcp_ack_now : Conn → Conn
  tcp_ack_now c =
      if c.being_freed
      then c
      else send_segment app
          (record c {
            ack_timer = if c.ack_timer_initialized then none else c.ack_timer;
            delayed_ack_segments = 0;
            delayed_ack_bytes = 0;
          })
          tcpf_ack c.snd_nxt c.rcv_nxt []

  unfoldable pub tcp_ack_data : Conn → ℕ → Bool → Conn
  tcp_ack_data c len immediate =
      let segments = add32 c.delayed_ack_segments 1 in
      let bytes = add32 c.delayed_ack_bytes len in
      let counted = record c { delayed_ack_segments = segments; delayed_ack_bytes = bytes } in
      if c.being_freed
      then c
      else (if immediate
          then tcp_ack_now c
          else (if leb tcp_delayed_ack_segments segments
                || leb (tcp_mss * tcp_delayed_ack_segments) bytes
              then tcp_ack_now counted
              else (if c.ack_timer_initialized && not (is_active c.ack_timer)
                  then record counted { ack_timer = some tcp_delayed_ack_ms }
                  else counted)))

  -- the timer has fired, and is not active
  unfoldable pub delayed_ack_cb : Conn → Conn
  delayed_ack_cb c =
      let fired = record c { ack_timer = none } in
      if c.being_freed || (c.delayed_ack_segments == 0) then fired else tcp_ack_now fired

  -- The last of the timers' close callbacks frees the connection.
  unfoldable pub release : Conn → Conn
  release c = emit Event.released (notify_close c)

  unfoldable pub timer_close_cb : Conn → Conn
  timer_close_cb c =
      let closed_one = record c { close_pending = c.close_pending - 1 } in
      if ltb 0 closed_one.close_pending then closed_one else release closed_one

  unfoldable pub conn_destroy : Conn → Conn
  conn_destroy c =
      let unlinked = emit Event.unlinked (record c { being_freed = true; flush_queued = false }) in
      let stopped =
        if c.timer_initialized
        then record unlinked { retransmit_timer = none; close_pending = c.close_pending + 1 }
        else unlinked in
      let both =
        if c.ack_timer_initialized
        then record stopped { ack_timer = none; close_pending = stopped.close_pending + 1 }
        else stopped in
      if c.being_freed then c else (if both.close_pending == 0 then release both else both)

  -- `tcp_close`, of the application
  unfoldable pub tcp_close : Conn → Conn
  tcp_close c =
      let finish = λ (state : TcpState).
        (let moved = record c { state = state } in
          record (send_segment app moved (tcpf_fin + tcpf_ack) c.snd_nxt c.rcv_nxt []) {
            snd_nxt = add32 c.snd_nxt 1;
          }) in
      if c.being_freed then c else elim c.state [
        | established ↦ finish fin_wait
        | close_wait ↦ finish last_ack
        | syn_sent ↦
            conn_destroy (send_segment app (record c { state = closed }) tcpf_rst c.snd_nxt 0 [])
        | _ ↦ conn_destroy c
      ]

  unfoldable pub schedule_flush : Conn → Conn
  schedule_flush c =
      if c.being_freed || c.flush_queued
      then c
      else emit Event.flush_scheduled (record c { flush_queued = true })

  -- `tcp_send`, of the application: true is 0. `mem` is whether `malloc` gives memory.
  unfoldable pub tcp_send : Bool → Conn → Bytes → Bool × Conn
  tcp_send mem c payload =
      let len = length payload in
      let grown = sendbuf_grow mem c.sendbuf (c.sendbuf.len + len) in
      let filled = record c { sendbuf = sendbuf_append grown.1 payload } in
      if c.being_freed || not (is_state c.state established)
      then (false, c)
      else (if len == 0
          then (true, c)
          else (if leb (2 ^ 32) len || ltb tcp_sendbuf_size (c.sendbuf.len + len)
              then (false, c)
              else (if grown.0
                  then (
                    true,
                    if leb tcp_mss len || leb tcp_mss filled.sendbuf.len
                        then tcp_flush_pending filled
                        else schedule_flush filled,
                  )
                  else (false, record c { sendbuf = grown.1 }))))

  unfoldable pub tcp_send_available : Conn → ℕ
  tcp_send_available c =
      if c.being_freed || not (is_state c.state established)
      then 0
      else tcp_sendbuf_size - c.sendbuf.len

  unfoldable pub tcp_set_recv_window_cb : Conn → Bool → Conn
  tcp_set_recv_window_cb c cb = if c.being_freed then c else record c { on_recv_window = cb }

  unfoldable pub tcp_update_recv_window : Conn → Conn
  tcp_update_recv_window c =
      if c.being_freed || not (is_state c.state established) then c else tcp_ack_now c
