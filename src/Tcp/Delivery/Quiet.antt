-- ===== src/Tcp/Delivery/Quiet.antt =====
-- The sending side of src/tcpstack.c leaves the receiving side alone.
use mathlib.Core.List.{append_assoc}
use wgx.Base.{
  ℕ, zero, suc, ◌+◌, ◌-◌, ◌≡◌, none, refl, ap, sym, ◌∙◌, arith, inl, inr, Bool, true, false, not,
  ◌&&◌, List, [], ◌∷◌, ◌++◌, ◌==◌, ltb, leb, min, Bool-cases, if◌then◌else◌,
}
use wgx.Base.Bytes.{Bytes}
use wgx.Tcp.Seq.{add32, sub32}
use wgx.Tcp.Types.{Conn, App, Event, tcpf_psh, tcpf_ack}
use wgx.Tcp.Sendbuf.{sendbuf_copy_out, sendbuf_consume}
use wgx.Tcp.Segment.{send_segment}
use wgx.Tcp.Conn.{
  emit, mss_of, notify_close, flush_loop, tcp_flush_pending, tcp_ack_now, tcp_ack_data, release,
  conn_destroy,
}
use wgx.Tcp.Input.{stop_retransmit, take_ack}
use wgx.Tcp.Delivery.{
  heard, Undisturbed, Undisturbed-refl, Undisturbed-trans, if-Undisturbed, IsQuiet,
}

pub heard-append : (log more : List Event) → heard (log ++ more) ≡ heard log ++ heard more
heard-append [] more = refl
heard-append (Event.received bytes ∷ log) more =
    ap (λ (t : Bytes). bytes ++ t) (heard-append log more)
    ∙ sym (append_assoc bytes (heard log) (heard more))
heard-append (Event.packet bytes ∷ log) more = heard-append log more
heard-append (Event.connected status ∷ log) more = heard-append log more
heard-append (Event.closing ∷ log) more = heard-append log more
heard-append (Event.writeable ∷ log) more = heard-append log more
heard-append (Event.unlinked ∷ log) more = heard-append log more
heard-append (Event.flush_scheduled ∷ log) more = heard-append log more
heard-append (Event.released ∷ log) more = heard-append log more

pub append-nil : (xs : Bytes) → xs ++ [] ≡ xs
append-nil [] = refl
append-nil (x ∷ xs) = ap (λ (t : Bytes). x ∷ t) (append-nil xs)

-- An event that is not heard.
silent : (log : List Event) (e : Event) → heard (e ∷ []) ≡ [] → heard (log ++ (e ∷ [])) ≡ heard log
silent log e h =
    heard-append log (e ∷ []) ∙ (ap (λ (t : Bytes). heard log ++ t) h ∙ append-nil (heard log))

pub emit-Undisturbed : (e : Event) (c : Conn) → heard (e ∷ []) ≡ [] → Undisturbed c (emit e c)
emit-Undisturbed e c h = record {
  nxt = refl;
  ooo = refl;
  ooo_len = refl;
  listens = refl;
  same_heard = silent c.log e h;
  opened = λ o. o;
}

module _ (app : App) where
  pub send_segment-Undisturbed :
      (c : Conn) (flags seq ack : ℕ) (payload : Bytes)
      → Undisturbed c (send_segment app c flags seq ack payload)
  unfolding send_segment
  send_segment-Undisturbed c flags seq ack payload = record {
    nxt = refl;
    ooo = refl;
    ooo_len = refl;
    listens = refl;
    same_heard = silent c.log _ refl;
    opened = λ o. o;
  }

  flush_loop-Undisturbed : (fuel : ℕ) (c : Conn) (n : ℕ) → Undisturbed c (flush_loop app fuel c n).0
  unfolding flush_loop
  flush_loop-Undisturbed zero c n = Undisturbed-refl c
  flush_loop-Undisturbed (suc fuel) c n =
      let budget = if ltb n c.snd_wnd then c.snd_wnd - n else 0 in
      let len = min (min (c.sendbuf.len - n) (mss_of c)) budget in
      let bytes = sendbuf_copy_out c.sendbuf n len in
      let sent = send_segment app c (tcpf_ack + tcpf_psh) (add32 c.snd_una n) c.rcv_nxt bytes in
      elim (Bool-cases (ltb n c.sendbuf.len && (not (budget == 0) && not (len == 0)))) [
        | inl e ↦ rw e (
            Undisturbed-trans
              (send_segment-Undisturbed c (tcpf_ack + tcpf_psh) (add32 c.snd_una n) c.rcv_nxt bytes)
              (flush_loop-Undisturbed fuel sent (n + len)))
        | inr e ↦ rw e (Undisturbed-refl c)
      ]

  pub tcp_flush_pending-Undisturbed : (c : Conn) → Undisturbed c (tcp_flush_pending app c)
  unfolding tcp_flush_pending
  tcp_flush_pending-Undisturbed c =
      let h = flush_loop-Undisturbed c.sendbuf.len c (sub32 c.snd_nxt c.snd_una) in
      ground (arith, h)

  pub tcp_ack_now-Undisturbed : (c : Conn) → Undisturbed c (tcp_ack_now app c)
  unfolding tcp_ack_now
  tcp_ack_now-Undisturbed c =
      let stopped = record c {
        ack_timer = if c.ack_timer_initialized then none else c.ack_timer;
        delayed_ack_segments = 0;
        delayed_ack_bytes = 0;
      } in
      ground (arith, send_segment-Undisturbed stopped tcpf_ack c.snd_nxt c.rcv_nxt [])

  pub tcp_ack_data-Undisturbed :
      (c : Conn) (len : ℕ) (now : Bool) → Undisturbed c (tcp_ack_data app c len now)
  unfolding tcp_ack_data
  tcp_ack_data-Undisturbed c len now =
      let counted = record c {
        delayed_ack_segments = add32 c.delayed_ack_segments 1;
        delayed_ack_bytes = add32 c.delayed_ack_bytes len;
      } in
      ground (arith, tcp_ack_now-Undisturbed c, tcp_ack_now-Undisturbed counted)

  pub take_ack-Undisturbed : IsQuiet app → (ack : ℕ) (c : Conn) → Undisturbed c (take_ack app ack c)
  unfolding take_ack stop_retransmit
  take_ack-Undisturbed quiet ack c =
      let acked = sub32 ack c.snd_una in
      let consumed = record c {
        sendbuf = if leb acked c.sendbuf.len then sendbuf_consume c.sendbuf acked else c.sendbuf;
        snd_una = ack;
      } in
      let moved =
        if consumed.sendbuf.len == 0
        then stop_retransmit app consumed
        else tcp_flush_pending app consumed in
      let told = emit Event.writeable moved in
      let first : Undisturbed c moved = ground (arith, tcp_flush_pending-Undisturbed consumed) in
      let second : Undisturbed c (app.write told) =
        Undisturbed-trans first
          (Undisturbed-trans (emit-Undisturbed Event.writeable moved refl) (quiet.writes told)) in
      ground (arith, first, second)

  notify_close-Undisturbed : IsQuiet app → (c : Conn) → Undisturbed c (notify_close app c)
  unfolding notify_close
  notify_close-Undisturbed quiet c =
      let marked = record c { close_notified = true } in
      let told = emit Event.closing marked in
      let emitted : Undisturbed c told =
        ground (arith, emit-Undisturbed Event.closing marked refl) in
      ground (arith, Undisturbed-trans emitted (quiet.closes told))

  release-Undisturbed : IsQuiet app → (c : Conn) → Undisturbed c (release app c)
  unfolding release
  release-Undisturbed quiet c =
      Undisturbed-trans (notify_close-Undisturbed quiet c)
        (emit-Undisturbed Event.released (notify_close app c) refl)

  pub conn_destroy-Undisturbed : IsQuiet app → (c : Conn) → Undisturbed c (conn_destroy app c)
  unfolding conn_destroy
  conn_destroy-Undisturbed quiet c =
      let marked = record c { being_freed = true; flush_queued = false } in
      let unlinked = emit Event.unlinked marked in
      let gone : Undisturbed c unlinked =
        Undisturbed-trans (marks-Undisturbed c) (emit-Undisturbed Event.unlinked marked refl) in
      let stopped : Undisturbed c _ =
        if-Undisturbed c.timer_initialized
          (Undisturbed-trans gone (stops-Undisturbed unlinked (c.close_pending + 1))) gone in
      let both : Undisturbed c _ =
        if-Undisturbed c.ack_timer_initialized
          (Undisturbed-trans stopped (stops_ack-Undisturbed _ _)) stopped in
      if-Undisturbed c.being_freed (Undisturbed-refl c)
        (if-Undisturbed _ (Undisturbed-trans both (release-Undisturbed quiet _)) both)
    where
      marks-Undisturbed :
          (c : Conn) → Undisturbed c (record c { being_freed = true; flush_queued = false })
      marks-Undisturbed c = record {
        nxt = refl;
        ooo = refl;
        ooo_len = refl;
        listens = refl;
        same_heard = refl;
        opened = λ o. o;
      }

      stops-Undisturbed :
          (c : Conn) (n : ℕ)
          → Undisturbed c (record c { retransmit_timer = none; close_pending = n })
      stops-Undisturbed c n = record {
        nxt = refl;
        ooo = refl;
        ooo_len = refl;
        listens = refl;
        same_heard = refl;
        opened = λ o. o;
      }

      stops_ack-Undisturbed :
          (c : Conn) (n : ℕ) → Undisturbed c (record c { ack_timer = none; close_pending = n })
      stops_ack-Undisturbed c n = record {
        nxt = refl;
        ooo = refl;
        ooo_len = refl;
        listens = refl;
        same_heard = refl;
        opened = λ o. o;
      }
