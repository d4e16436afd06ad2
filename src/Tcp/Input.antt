-- ===== src/Tcp/Input.antt =====
-- src/tcpstack.c: what `tcpstack_input` does with a segment of a connection.
pub mod Stale
use wgx.Base.{
  ℕ, zero, suc, ◌+◌, ◌-◌, ◌*◌, ◌/◌, ◌%◌, ◌^◌, Bool, true, false, not, ◌&&◌, ◌||◌, Option, none,
  some, min, List, [], ◌∷◌, ◌++◌, ◌==◌, ltb, leb, if◌then◌else◌, length, drop,
}
use wgx.Base.Bytes.{Bytes}
use wgx.Tcp.Seq.{add32, sub32, seq_lt, seq_le, seq_gt}
use wgx.Tcp.Types.{
  TcpState, closed, syn_received, syn_sent, established, fin_wait, close_wait, last_ack, Conn, App,
  Event, OooSeg, tcp_sendbuf_size, tcpf_fin, tcpf_syn, tcpf_rst, tcpf_ack, flag_set,
}
use wgx.Tcp.Sendbuf.{sendbuf_consume}
use wgx.Tcp.Segment.{send_segment}
use wgx.Tcp.Segment.Parse.{parse_syn_options}
use wgx.Tcp.Reassembly.{Ooo, tcp_ooo_queue}
use wgx.Tcp.Conn.{
  is_state, emit, notify_close, tcp_flush_pending, tcp_ack_now, tcp_ack_data, conn_destroy,
}

-- what the state machine reads of a segment
pub record Arrival : Type 0 where
  pub flags : ℕ
  pub seq : ℕ
  pub ack : ℕ
  pub window : ℕ
  pub options : Bytes
  pub payload : Bytes

module _ (app : App) where
  -- `if (conn->on_data) conn->on_data(conn, …)`
  unfoldable pub deliver : Bytes → Conn → Conn
  deliver payload c = if c.on_data then app.receive payload (emit (Event.received payload) c) else c

  -- The loop of `tcp_ooo_drain`, with the bytes drained: each round takes a segment out.
  unfoldable pub drain_loop : ℕ → Conn → ℕ → Conn × ℕ
  drain_loop zero c drained = (c, drained)
  drain_loop (suc fuel) c drained = if c.being_freed then (c, drained) else elim c.rcv_ooo [
    | [] ↦ (c, drained)
    | s ∷ segs ↦
        let taken = record c {
          rcv_ooo = segs;
          rcv_ooo_len = sub32 c.rcv_ooo_len (length s.bytes);
          rcv_nxt = add32 c.rcv_nxt (length s.bytes);
        } in
        let rest = drain_loop fuel (deliver s.bytes taken) (add32 drained (length s.bytes)) in
        if s.seq == c.rcv_nxt then rest else (c, drained)
  ]

  unfoldable pub tcp_ooo_drain : Conn → Conn × ℕ
  tcp_ooo_drain c = drain_loop (length c.rcv_ooo) c 0

  -- data at `rcv_nxt`: it is delivered, with what it makes ready, and acknowledged
  unfoldable pub take_data : Bytes → Bool → Conn → Conn
  take_data payload immediate c =
      let moved = record c { rcv_nxt = add32 c.rcv_nxt (length payload) } in
      let drained = tcp_ooo_drain (deliver payload moved) in
      tcp_ack_data app drained.0 (length payload + drained.1) (immediate || ltb 0 drained.1)

  unfoldable pub queue_data : Bool → ℕ → Bytes → Conn → Conn
  queue_data mem seq payload c =
      let q =
        tcp_ooo_queue mem c.rcv_nxt (record { segs = c.rcv_ooo; total = c.rcv_ooo_len }) seq
          payload in
      record c { rcv_ooo = q.segs; rcv_ooo_len = q.total }

  unfoldable pub receive_data : Bool → ℕ → Bytes → Conn → Conn
  receive_data mem seq payload c =
      let already = sub32 c.rcv_nxt seq in
      if length payload == 0
      then c
      else (if seq == c.rcv_nxt
          then take_data payload false c
          else (if seq_gt seq c.rcv_nxt
              then tcp_ack_now app (queue_data mem seq payload c)
              else (if seq_lt seq c.rcv_nxt
                  then (if ltb already (length payload)
                      then take_data (drop already payload) true c
                      else tcp_ack_now app c)
                  else c)))

  unfoldable pub stop_retransmit : Conn → Conn
  stop_retransmit c = record c { retransmit_timer = none; retransmit_count = 0 }

  -- an acknowledgement of new bytes in `TCPS_ESTABLISHED`
  unfoldable pub take_ack : ℕ → Conn → Conn
  take_ack ack c =
      let acked = sub32 ack c.snd_una in
      let consumed = record c {
        sendbuf = if leb acked c.sendbuf.len then sendbuf_consume c.sendbuf acked else c.sendbuf;
        snd_una = ack;
      } in
      let moved =
        if consumed.sendbuf.len == 0
        then stop_retransmit consumed
        else tcp_flush_pending app consumed in
      if seq_gt ack c.snd_una && seq_le ack c.snd_nxt
      then (if ltb moved.sendbuf.len (tcp_sendbuf_size / 4) && moved.on_writeable
          then app.write (emit Event.writeable moved)
          else moved)
      else c

  -- the FIN of the peer in `TCPS_ESTABLISHED`
  unfoldable pub take_fin : Conn → Conn
  take_fin c =
      let moved = record c { rcv_nxt = add32 c.rcv_nxt 1; state = close_wait } in
      let told = notify_close app (send_segment app moved tcpf_ack c.snd_nxt moved.rcv_nxt []) in
      let answering = record told { state = last_ack } in
      let answered =
        send_segment app answering (tcpf_fin + tcpf_ack) told.snd_nxt told.rcv_nxt [] in
      record answered { snd_nxt = add32 told.snd_nxt 1 }

  unfoldable pub in_established : Bool → Arrival → Conn → Conn
  in_established mem s c =
      let acked = if flag_set s.flags tcpf_ack then take_ack s.ack c else c in
      let received = receive_data mem s.seq s.payload acked in
      if flag_set s.flags tcpf_fin then take_fin received else received

  unfoldable pub in_syn_received : Arrival → Conn → Conn
  in_syn_received s c =
      let opened = stop_retransmit (record c { snd_una = s.ack; state = established }) in
      if flag_set s.flags tcpf_ack && (s.ack == c.snd_nxt)
      then (if ltb 0 (length s.payload) && (s.seq == c.rcv_nxt)
          then take_data s.payload false opened
          else opened)
      else c

  unfoldable pub in_syn_sent : Arrival → Conn → Conn
  in_syn_sent s c =
      let syn = parse_syn_options s.options in
      let opened = tcp_ack_now app (record (stop_retransmit c) {
        snd_una = s.ack;
        rcv_nxt = add32 s.seq 1;
        state = established;
        snd_mss = syn.mss;
        snd_wscale = syn.wscale;
        snd_wnd = s.window * 2 ^ syn.wscale % 2 ^ 32;
      }) in
      if flag_set s.flags tcpf_syn && flag_set s.flags tcpf_ack
      then (if not (seq_gt s.ack c.snd_una) || seq_gt s.ack c.snd_nxt
          then c
          else (if opened.on_connect
              then app.connect true (emit (Event.connected true) opened)
              else opened))
      else c

  unfoldable pub in_fin_wait : Arrival → Conn → Conn
  in_fin_wait s c =
      let moved = record c { snd_una = s.ack } in
      let acked =
        if flag_set s.flags tcpf_ack && (seq_gt s.ack c.snd_una && seq_le s.ack c.snd_nxt)
        then (if s.ack == c.snd_nxt then stop_retransmit moved else moved)
        else c in
      let ended = record acked { rcv_nxt = add32 acked.rcv_nxt 1 } in
      if flag_set s.flags tcpf_fin
      then conn_destroy app
          (record (send_segment app ended tcpf_ack ended.snd_nxt ended.rcv_nxt []) {
            state = closed;
          })
      else acked

  unfoldable pub in_last_ack : Arrival → Conn → Conn
  in_last_ack s c =
      if flag_set s.flags tcpf_ack && (s.ack == c.snd_nxt)
      then conn_destroy app (record c { retransmit_timer = none; state = closed })
      else c

  -- A segment of the connection: `mem` is whether `malloc` gives memory.
  unfoldable pub conn_input : Bool → Arrival → Conn → Conn
  conn_input mem s c =
      let windowed = record c {
        snd_wnd =
            if is_state c.state syn_sent then s.window else s.window * 2 ^ c.snd_wscale % 2 ^ 32;
      } in
      if flag_set s.flags tcpf_rst
      then conn_destroy app (record c { state = closed })
      else elim c.state [
        | syn_received ↦ in_syn_received s windowed
        | syn_sent ↦ in_syn_sent s windowed
        | established ↦ in_established mem s windowed
        | fin_wait ↦ in_fin_wait s windowed
        | last_ack ↦ in_last_ack s windowed
        | _ ↦ windowed
      ]
