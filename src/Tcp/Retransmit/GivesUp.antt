-- ===== src/Tcp/Retransmit/GivesUp.antt =====
-- A connection of src/tcpstack.c whose peer does not answer.
use wgx.Base.{
  ℕ, zero, suc, ◌+◌, ◌-◌, ◌*◌, ◌^◌, ◌<◌, ◌≤◌, ◌≡◌, refl, ap, ◌∙◌, arith, inl, inr, true, false,
  none, some, ltb, min, Bool-cases, if◌then◌else◌, ◌&&◌, ◌==◌,
}
use wgx.Tcp.Seq.{add32}
use wgx.Tcp.Types.{
  Conn, App, Event, closed, tcp_max_retransmit, tcp_retransmit_ms, tcp_retransmit_max_ms, tcpf_fin,
  tcpf_psh, tcpf_ack,
}
use wgx.Tcp.Sendbuf.{sendbuf_copy_out}
use wgx.Tcp.Segment.{send_segment}
use wgx.Tcp.Conn.{conn_destroy, emit, mss_of}
use wgx.Tcp.Retransmit.{fin_sent, resend_loop, resend, give_up, backoff, retransmit_cb}

module _ (app : App) where
  -- the timer fires `n` times with nothing in between
  unfoldable pub fires : ℕ → Conn → Conn
  fires zero c = c
  fires (suc n) c = retransmit_cb app (fires n c)

  abbrev KeepsCount : Conn → Conn → Type 0
  KeepsCount c c' =
      (c'.retransmit_count ≡ c.retransmit_count)
      × (c'.being_freed ≡ c.being_freed)
      × (c'.timer_initialized ≡ c.timer_initialized)

  resend_loop-KeepsCount :
      (fuel : ℕ) (c : Conn) (off : ℕ) → KeepsCount c (resend_loop app fuel c off)
  unfolding resend_loop send_segment
  resend_loop-KeepsCount zero c off = (refl, refl, refl)
  resend_loop-KeepsCount (suc fuel) c off =
      let seg = min (c.sendbuf.len - off) (mss_of c) in
      let fl =
        tcpf_ack
        + tcpf_psh
        + (if (off + seg == c.sendbuf.len) && fin_sent app c then tcpf_fin else 0) in
      let sent =
        send_segment app c fl (add32 c.snd_una off) c.rcv_nxt
          (sendbuf_copy_out c.sendbuf off seg) in
      let rest = resend_loop-KeepsCount fuel sent (off + seg) in
      elim (Bool-cases (ltb off c.sendbuf.len)) [
        | inl e ↦ rw e rest
        | inr e ↦ rw e (refl, refl, refl)
      ]

  resend-KeepsCount : (c : Conn) → KeepsCount c (resend app c)
  unfolding resend send_segment
  resend-KeepsCount c =
      let h = resend_loop-KeepsCount c.sendbuf.len c 0 in
      (ground (arith, h), ground (arith, h), ground (arith, h))

  conn_destroy-freed :
      (c : Conn) → c.timer_initialized ≡ true → (conn_destroy app c).being_freed ≡ true
  unfolding conn_destroy
  conn_destroy-freed c timed = elim (Bool-cases c.being_freed) [
    | inl e ↦ ground (arith, e)
    | inr e ↦ ground (arith, e, timed)
  ]

  -- the connection after the timer fired `n` times
  record HasWaited (n : ℕ) (c : Conn) : Type 0 where
    counted : c.retransmit_count ≡ n
    alive : c.being_freed ≡ false
    timed : c.timer_initialized ≡ true
    armed : 0 < n → c.retransmit_timer ≡ some (backoff app n)

  retransmit_cb-HasWaited :
      (n : ℕ) (c : Conn)
      → n < tcp_max_retransmit
      → HasWaited n c
      → HasWaited (suc n) (retransmit_cb app c)
  unfolding retransmit_cb
  retransmit_cb-HasWaited n c few w =
      let fired = record c { retransmit_timer = none; retransmit_count = c.retransmit_count + 1 } in
      let h = resend-KeepsCount fired in
      let count : c.retransmit_count + 1 ≡ suc n = omega (arith, w.counted) in
      record {
        counted = ground (arith, h, few, w);
        alive = ground (arith, h, few, w);
        timed = ground (arith, h, few, w);
        armed = λ _. ground (arith, few, w, ap (backoff app) count);
      }

  fires-HasWaited :
      (n : ℕ) (c : Conn) → n ≤ tcp_max_retransmit → HasWaited 0 c → HasWaited n (fires n c)
  unfolding fires
  fires-HasWaited zero c few w = w
  fires-HasWaited (suc n) c few w =
      retransmit_cb-HasWaited n (fires n c) (omega (arith, few))
        (fires-HasWaited n c (omega (arith, few)) w)

  -- the callbacks keep the timers that a connection has
  abbrev pub KeepsTimers : Type 0
  KeepsTimers =
      (c : Conn)
      → ((app.connect false c).timer_initialized ≡ c.timer_initialized)
        × ((app.close c).timer_initialized ≡ c.timer_initialized)

  -- the firing after the last retransmission
  retransmit_cb-freed :
      (c : Conn)
      → KeepsTimers
      → HasWaited tcp_max_retransmit c
      → (retransmit_cb app c).being_freed ≡ true
  retransmit_cb-freed c keeps w =
      let fired = record c { retransmit_timer = none; retransmit_count = c.retransmit_count + 1 } in
      let same : retransmit_cb app c ≡ conn_destroy app (give_up app fired) =
        unfold retransmit_cb in ground (arith, w) in
      let marked = record fired { state = closed; close_notified = true } in
      let timed : (give_up app fired).timer_initialized ≡ true =
        unfold give_up in
        ground (
          arith,
          w,
          keeps (emit (Event.connected false) marked),
          keeps (emit Event.closing marked),
        ) in
      rw same (conn_destroy-freed (give_up app fired) timed)

  -- A connection whose retransmission timer was just started and whose peer does not answer lives
  -- through six firings of the timer, counts each, and has the timer started with the doubled delay
  -- of at most 8 seconds; the seventh firing frees it. The callbacks keep its timers.
  pub retransmission_ends :
      (c : Conn) (n : ℕ)
      → KeepsTimers
      → c.retransmit_count ≡ 0
      → c.being_freed ≡ false
      → c.timer_initialized ≡ true
      → 0 < n
      → n ≤ tcp_max_retransmit
      → ((fires n c).being_freed ≡ false)
        × ((fires n c).retransmit_count ≡ n)
        × ((fires n c).retransmit_timer
            ≡ some (min tcp_retransmit_max_ms (tcp_retransmit_ms * 2 ^ n)))
        × ((fires (suc tcp_max_retransmit) c).being_freed ≡ true)
  unfolding fires
  retransmission_ends c n keeps count alive timed pos few =
      let w0 : HasWaited 0 c = record {
        counted = count;
        alive = alive;
        timed = timed;
        armed = λ h. absurd (omega arith);
      } in
      let w = fires-HasWaited n c few w0 in
      (
        w.alive,
        w.counted,
        w.armed pos ∙ ap some (no_wrap n few),
        retransmit_cb-freed (fires tcp_max_retransmit c) keeps
            (fires-HasWaited tcp_max_retransmit c (omega arith) w0),
      )
    where
      no_wrap :
          (n : ℕ)
          → n ≤ tcp_max_retransmit
          → backoff app n ≡ min tcp_retransmit_max_ms (tcp_retransmit_ms * 2 ^ n)
      no_wrap zero few = refl
      no_wrap (suc zero) few = refl
      no_wrap (suc (suc zero)) few = refl
      no_wrap (suc (suc (suc zero))) few = refl
      no_wrap (suc (suc (suc (suc zero)))) few = refl
      no_wrap (suc (suc (suc (suc (suc zero))))) few = refl
      no_wrap (suc (suc (suc (suc (suc (suc zero)))))) few = refl
      no_wrap (suc (suc (suc (suc (suc (suc (suc n))))))) few = absurd (omega arith)
