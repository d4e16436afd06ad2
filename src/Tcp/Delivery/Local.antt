-- ===== src/Tcp/Delivery/Local.antt =====
-- The application's calls and the timers of src/tcpstack.c leave the receiving side alone.
use wgx.Base.{
  ℕ, zero, suc, ◌+◌, ◌-◌, ◌≡◌, none, refl, arith, inl, inr, Bool, true, false, ◌&&◌, [], ◌==◌, ltb,
  min, Bool-cases, if◌then◌else◌, length,
}
use wgx.Base.Bytes.{Bytes}
use wgx.Tcp.Seq.{add32, sub32}
use wgx.Tcp.Types.{
  Conn, App, Event, TcpState, closed, syn_received, syn_sent, established, fin_wait, close_wait,
  last_ack, tcpf_fin, tcpf_syn, tcpf_rst, tcpf_psh, tcpf_ack,
}
use wgx.Tcp.Sendbuf.{sendbuf_grow, sendbuf_append, sendbuf_copy_out}
use wgx.Tcp.Segment.{send_segment}
use wgx.Tcp.Conn.{is_state, emit, mss_of, tcp_send, tcp_close, schedule_flush, delayed_ack_cb}
use wgx.Tcp.Retransmit.{fin_sent, resend_loop, resend, give_up, retransmit_cb}
use wgx.Tcp.Delivery.{Undisturbed, Undisturbed-refl, Undisturbed-trans, if-Undisturbed, IsQuiet}
use wgx.Tcp.Delivery.Quiet.{
  emit-Undisturbed, send_segment-Undisturbed, tcp_flush_pending-Undisturbed,
  tcp_ack_now-Undisturbed, conn_destroy-Undisturbed,
}

by_state-Undisturbed :
    {c a b d x : Conn} (state : TcpState)
    → Undisturbed c a
    → Undisturbed c b
    → Undisturbed c d
    → Undisturbed c x
    → Undisturbed c (elim state [ established ↦ a | close_wait ↦ b | syn_sent ↦ d | _ ↦ x ])
by_state-Undisturbed established h g k l = h
by_state-Undisturbed close_wait h g k l = g
by_state-Undisturbed syn_sent h g k l = k
by_state-Undisturbed closed h g k l = l
by_state-Undisturbed syn_received h g k l = l
by_state-Undisturbed fin_wait h g k l = l
by_state-Undisturbed last_ack h g k l = l

module _ (app : App) (quiet : IsQuiet app) where
  pub tcp_send-Undisturbed :
      (mem : Bool) (c : Conn) (payload : Bytes) → Undisturbed c (tcp_send app mem c payload).1
  unfolding tcp_send schedule_flush
  tcp_send-Undisturbed mem c payload =
      let grown = sendbuf_grow mem c.sendbuf (c.sendbuf.len + length payload) in
      let filled = record c { sendbuf = sendbuf_append grown.1 payload } in
      let put : Undisturbed c filled = ground arith in
      let marked = record filled { flush_queued = true } in
      let asked : Undisturbed c (emit Event.flush_scheduled marked) =
        ground (arith, emit-Undisturbed Event.flush_scheduled marked refl) in
      ground (arith, put, asked, tcp_flush_pending-Undisturbed app filled)

  pub tcp_close-Undisturbed : (c : Conn) → Undisturbed c (tcp_close app c)
  unfolding tcp_close
  tcp_close-Undisturbed c = if-Undisturbed c.being_freed (Undisturbed-refl c) (
      by_state-Undisturbed c.state (finish fin_wait refl) (finish last_ack refl)
        (Undisturbed-trans reset-Undisturbed (conn_destroy-Undisturbed app quiet reset))
        (conn_destroy-Undisturbed app quiet c))
    where
      reset : Conn
      reset = send_segment app (record c { state = closed }) tcpf_rst c.snd_nxt 0 []

      reset-Undisturbed : Undisturbed c reset
      reset-Undisturbed = ground (
        arith,
        send_segment-Undisturbed app (record c { state = closed }) tcpf_rst c.snd_nxt 0 [],
      )

      finish :
          (state : TcpState)
          → is_state state syn_sent ≡ false
          → Undisturbed c
              (record (send_segment app
                (record c { state = state })
                (tcpf_fin + tcpf_ack)
                c.snd_nxt
                c.rcv_nxt
                []) { snd_nxt = add32 c.snd_nxt 1 })
      finish state h = ground (
        arith,
        send_segment-Undisturbed app (record c { state = state }) (tcpf_fin + tcpf_ack) c.snd_nxt
            c.rcv_nxt [],
      )

  pub delayed_ack_cb-Undisturbed : (c : Conn) → Undisturbed c (delayed_ack_cb app c)
  unfolding delayed_ack_cb
  delayed_ack_cb-Undisturbed c =
      ground (arith, tcp_ack_now-Undisturbed app (record c { ack_timer = none }))

  resend_loop-Undisturbed :
      (fuel : ℕ) (c : Conn) (off : ℕ) → Undisturbed c (resend_loop app fuel c off)
  unfolding resend_loop
  resend_loop-Undisturbed zero c off = Undisturbed-refl c
  resend_loop-Undisturbed (suc fuel) c off =
      let seg = min (c.sendbuf.len - off) (mss_of c) in
      let fl =
        tcpf_ack
        + tcpf_psh
        + (if (off + seg == c.sendbuf.len) && fin_sent app c then tcpf_fin else 0) in
      let bytes = sendbuf_copy_out c.sendbuf off seg in
      let sent = send_segment app c fl (add32 c.snd_una off) c.rcv_nxt bytes in
      elim (Bool-cases (ltb off c.sendbuf.len)) [
        | inl e ↦ rw e (
            Undisturbed-trans
              (send_segment-Undisturbed app c fl (add32 c.snd_una off) c.rcv_nxt bytes)
              (resend_loop-Undisturbed fuel sent (off + seg)))
        | inr e ↦ rw e (Undisturbed-refl c)
      ]

  resend-Undisturbed : (c : Conn) → Undisturbed c (resend app c)
  unfolding resend
  resend-Undisturbed c = ground (
    arith,
    Undisturbed-refl c,
    resend_loop-Undisturbed c.sendbuf.len c 0,
    send_segment-Undisturbed app c tcpf_syn c.iss 0 [],
    send_segment-Undisturbed app c (tcpf_syn + tcpf_ack) c.iss c.rcv_nxt [],
    send_segment-Undisturbed app c (tcpf_fin + tcpf_ack) (sub32 c.snd_nxt 1) c.rcv_nxt [],
  )

  give_up-Undisturbed : (c : Conn) → Undisturbed c (give_up app c)
  unfolding give_up
  give_up-Undisturbed c =
      let marked = record c { state = closed; close_notified = true } in
      let failed = emit (Event.connected false) marked in
      let closing = emit Event.closing marked in
      let first : Undisturbed c failed =
        ground (arith, emit-Undisturbed (Event.connected false) marked refl) in
      let second : Undisturbed c closing =
        ground (arith, emit-Undisturbed Event.closing marked refl) in
      ground (
        arith,
        Undisturbed-trans first (quiet.connects false failed),
        Undisturbed-trans second (quiet.closes closing),
      )

  pub retransmit_cb-Undisturbed : (c : Conn) → Undisturbed c (retransmit_cb app c)
  unfolding retransmit_cb
  retransmit_cb-Undisturbed c =
      let fired = record c { retransmit_timer = none; retransmit_count = c.retransmit_count + 1 } in
      let gone =
        Undisturbed-trans (give_up-Undisturbed fired)
          (conn_destroy-Undisturbed app quiet (give_up app fired)) in
      ground (arith, gone, resend-Undisturbed fired)
