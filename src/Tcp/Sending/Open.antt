-- ===== src/Tcp/Sending/Open.antt =====
-- What leaves a connection of src/tcpstack.c open towards its peer: `tcp_send`, `take_ack` and
-- `tcp_flush_pending`.
use wgx.Base.{
  ℕ, zero, suc, ◌+◌, ◌-◌, ◌^◌, ◌≡◌, inl, inr, Bool, true, false, not, ◌&&◌, ◌||◌, Option, none,
  some, min, ◌==◌, ltb, leb, Bool-cases, if◌then◌else◌, length,
}
use wgx.Base.Bytes.{Bytes}
use wgx.Tcp.Seq.{add32, sub32}
use wgx.Tcp.Types.{
  Conn, App, Event, Sendbuf, established, tcp_sendbuf_size, tcp_mss, tcp_retransmit_ms, tcpf_psh,
  tcpf_ack,
}
use wgx.Tcp.Sendbuf.{sendbuf_grow, sendbuf_append, sendbuf_copy_out, sendbuf_consume}
use wgx.Tcp.Segment.{send_segment}
use wgx.Tcp.Conn.{is_state, emit, mss_of, flush_loop, tcp_flush_pending, schedule_flush, tcp_send}
use wgx.Tcp.Input.{stop_retransmit, take_ack}
use wgx.Tcp.Sending.{IsWired}
use wgx.Tcp.Sending.Acks.{KeepsSending}

-- An open connection whose peer has the addresses `l4` and `l6`.
pub record IsOpen (l4 : Bytes) (l6 : Option Bytes) (c : Conn) : Type 0 where
  pub wired : IsWired l4 l6 c
  pub alive : c.being_freed ≡ false
  pub open_state : is_state c.state established ≡ true

-- The application's answer to room in the buffer keeps the stream and the connection open.
pub record IsPolite (app : App) (f : ℕ → ℕ) (isn : ℕ) (l4 : Bytes) (l6 : Option Bytes)
    : Type 0 where
  pub keeps : KeepsSending app f isn
  pub stays : (c : Conn) → IsOpen l4 l6 c → IsOpen l4 l6 (app.write c)

-- What does not concern the ends of a connection leaves it open.
IsOpen-with :
    (l4 : Bytes) (l6 : Option Bytes) (c : Conn) (una nxt count : ℕ) (timer : Option ℕ)
    (buf : Sendbuf) (queued : Bool)
    → IsOpen l4 l6 c
    → IsOpen l4 l6 (record c {
      snd_una = una;
      snd_nxt = nxt;
      retransmit_count = count;
      retransmit_timer = timer;
      sendbuf = buf;
      flush_queued = queued;
    })
IsOpen-with l4 l6 c una nxt count timer buf queued h = record {
  wired = record {
    addressed = h.wired.addressed;
    local_fits = h.wired.local_fits;
    remote_fits = h.wired.remote_fits;
    rcv_fits = h.wired.rcv_fits;
    mss_fits = h.wired.mss_fits;
  };
  alive = h.alive;
  open_state = h.open_state;
}

emit-IsOpen :
    (l4 : Bytes) (l6 : Option Bytes) (c : Conn) (e : Event)
    → IsOpen l4 l6 c
    → IsOpen l4 l6 (emit e c)
emit-IsOpen l4 l6 c e h = record {
  wired = record {
    addressed = h.wired.addressed;
    local_fits = h.wired.local_fits;
    remote_fits = h.wired.remote_fits;
    rcv_fits = h.wired.rcv_fits;
    mss_fits = h.wired.mss_fits;
  };
  alive = h.alive;
  open_state = h.open_state;
}

if-IsOpen :
    (l4 : Bytes) (l6 : Option Bytes) (b : Bool) {x y : Conn}
    → IsOpen l4 l6 x
    → IsOpen l4 l6 y
    → IsOpen l4 l6 (if b then x else y)
if-IsOpen l4 l6 true h g = h
if-IsOpen l4 l6 false h g = g

module _ (app : App) (l4 : Bytes) (l6 : Option Bytes) where
  flush_loop-IsOpen :
      (fuel : ℕ) (c : Conn) (n : ℕ) → IsOpen l4 l6 c → IsOpen l4 l6 (flush_loop app fuel c n).0
  unfolding flush_loop send_segment
  flush_loop-IsOpen zero c n h = h
  flush_loop-IsOpen (suc fuel) c n h =
      let budget = if ltb n c.snd_wnd then c.snd_wnd - n else 0 in
      let k = min (min (c.sendbuf.len - n) (mss_of c)) budget in
      let sent =
        send_segment app c (tcpf_ack + tcpf_psh) (add32 c.snd_una n) c.rcv_nxt
          (sendbuf_copy_out c.sendbuf n k) in
      elim (Bool-cases (ltb n c.sendbuf.len && (not (budget == 0) && not (k == 0)))) [
        | inl e ↦ rw e (flush_loop-IsOpen fuel sent (n + k) (emit-IsOpen l4 l6 c _ h))
        | inr e ↦ rw e h
      ]

  pub tcp_flush_pending-IsOpen :
      (c : Conn) → IsOpen l4 l6 c → IsOpen l4 l6 (tcp_flush_pending app c)
  unfolding tcp_flush_pending
  tcp_flush_pending-IsOpen c h =
      let flushed = flush_loop app c.sendbuf.len c (sub32 c.snd_nxt c.snd_una) in
      let d = flushed.0 in
      let nxt = add32 c.snd_una flushed.1 in
      let ready = flush_loop-IsOpen c.sendbuf.len c (sub32 c.snd_nxt c.snd_una) h in
      if-IsOpen l4 l6 _ h (
        if-IsOpen l4 l6 _
          (IsOpen-with l4 l6 d d.snd_una nxt 0 (some tcp_retransmit_ms) d.sendbuf d.flush_queued
            ready)
          (IsOpen-with l4 l6 d d.snd_una nxt d.retransmit_count d.retransmit_timer d.sendbuf
            d.flush_queued ready))

  pub tcp_send-IsOpen :
      (mem : Bool) (c : Conn) (bytes : Bytes)
      → IsOpen l4 l6 c
      → IsOpen l4 l6 (tcp_send app mem c bytes).1
  unfolding tcp_send schedule_flush
  tcp_send-IsOpen mem c bytes h =
      let grown = sendbuf_grow mem c.sendbuf (c.sendbuf.len + length bytes) in
      let with_buf = λ (buf : Sendbuf).
        IsOpen-with l4 l6 c c.snd_una c.snd_nxt c.retransmit_count c.retransmit_timer buf
          c.flush_queued h in
      let filled = record c { sendbuf = sendbuf_append grown.1 bytes } in
      let full : IsOpen l4 l6 filled = with_buf (sendbuf_append grown.1 bytes) in
      let queued : IsOpen l4 l6 (schedule_flush app filled) = if-IsOpen l4 l6 _ full (
        emit-IsOpen l4 l6 (record filled { flush_queued = true }) Event.flush_scheduled
          (IsOpen-with l4 l6 c c.snd_una c.snd_nxt c.retransmit_count c.retransmit_timer
            filled.sendbuf true h)) in
      let sent =
        if leb tcp_mss (length bytes) || leb tcp_mss filled.sendbuf.len
        then tcp_flush_pending app filled
        else schedule_flush app filled in
      let sent-IsOpen : IsOpen l4 l6 sent =
        if-IsOpen l4 l6 _ (tcp_flush_pending-IsOpen filled full) queued in
      let refused = record c { sendbuf = grown.1 } in
      let by_memory = if grown.0 then (true, sent) else (false, refused) in
      let too_long =
        leb (2 ^ 32) (length bytes) || ltb tcp_sendbuf_size (c.sendbuf.len + length bytes) in
      let by_length = if too_long then (false, c) else by_memory in
      let by_content = if length bytes == 0 then (true, c) else by_length in
      both (c.being_freed || not (is_state c.state established)) (false, c) by_content h
        (both (length bytes == 0) (true, c) by_length h
          (both too_long (false, c) by_memory h
            (both grown.0 (true, sent) (false, refused) sent-IsOpen (with_buf grown.1))))
    where
      both :
          (b : Bool) (x y : Bool × Conn)
          → IsOpen l4 l6 x.1
          → IsOpen l4 l6 y.1
          → IsOpen l4 l6 (if b then x else y).1
      both true x y h g = h
      both false x y h g = g

  pub take_ack-IsOpen :
      (f : ℕ → ℕ) (isn ack : ℕ) (c : Conn)
      → IsPolite app f isn l4 l6
      → IsOpen l4 l6 c
      → IsOpen l4 l6 (take_ack app ack c)
  unfolding take_ack stop_retransmit
  take_ack-IsOpen f isn ack c polite h =
      let acked = sub32 ack c.snd_una in
      let buf = if leb acked c.sendbuf.len then sendbuf_consume c.sendbuf acked else c.sendbuf in
      let consumed = record c { sendbuf = buf; snd_una = ack } in
      let with_timer = λ (count : ℕ) (timer : Option ℕ).
        IsOpen-with l4 l6 c ack c.snd_nxt count timer buf c.flush_queued h in
      let moved =
        if consumed.sendbuf.len == 0
        then stop_retransmit app consumed
        else tcp_flush_pending app consumed in
      let ready : IsOpen l4 l6 moved =
        if-IsOpen l4 l6 _ (with_timer 0 none)
          (tcp_flush_pending-IsOpen consumed (with_timer c.retransmit_count c.retransmit_timer)) in
      if-IsOpen l4 l6 _
        (if-IsOpen l4 l6 _
          (polite.stays (emit Event.writeable moved)
            (emit-IsOpen l4 l6 moved Event.writeable ready))
          ready)
        h
