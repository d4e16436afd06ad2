-- ===== src/Tcp/Sending/Acks.antt =====
-- What an acknowledgement does to the sending side of src/tcpstack.c: `take_ack`.
use mathlib.Core.Path.{subst}
use wgx.Base.{
  ℕ, zero, suc, ◌+◌, ◌-◌, ◌%◌, ◌^◌, ◌<◌, ◌≤◌, ◌≡◌, ◌⊎◌, refl, ap, sym, ◌∙◌, arith, inl, inr, Bool,
  true, false, not, ◌&&◌, Option, min, max, ◌==◌, ltb, leb, Bool-cases, if◌then◌else◌, drop,
}
use wgx.Base.Bytes.{Bytes}
use wgx.Tcp.Seq.{word, add32, sub32, seq_gt, seq_le}
use wgx.Tcp.Types.{Conn, App, Event, established, tcpf_psh, tcpf_ack}
use wgx.Tcp.Sendbuf.{sendbuf_copy_out, sendbuf_consume}
use wgx.Tcp.Sendbuf.Moves.{sendbuf_consume-IsRing, contents-sendbuf_consume}
use wgx.Tcp.Segment.{send_segment}
use wgx.Tcp.Conn.{is_state, emit, mss_of, flush_loop, tcp_flush_pending}
use wgx.Tcp.Input.{stop_retransmit, take_ack}
use wgx.Tcp.Reassembly.Stream.{slice, drop-slice}
use wgx.Tcp.Delivery.Order.{limit}
use wgx.Tcp.Sending.{IsSending, IsWired}
use wgx.Tcp.Sending.Flush.{tcp_flush_pending_lem}
use wgx.Tcp.Sending.Moves.{tcp_flush_pending-sendbuf}

-- A connection with the sending side of another.
pub IsSending-same :
    (f : ℕ → ℕ) (isn u fl : ℕ) (a b : Conn)
    → b.sendbuf ≡ a.sendbuf
    → b.snd_una ≡ a.snd_una
    → b.snd_nxt ≡ (isn + (u + fl)) % word
    → fl ≤ a.sendbuf.len
    → (old : ℕ) → IsSending f isn u old a
    → IsSending f isn u fl b
IsSending-same f isn u fl a b buf una nxt le old h = record {
  ring = rw buf h.ring;
  una = una ∙ h.una;
  nxt = nxt;
  flight = rw buf le;
  holds = rw buf h.holds;
}

-- how many bytes an acknowledgement takes out of the buffer
abbrev pub acked_by : ℕ → Conn → ℕ
acked_by ack c = if seq_gt ack c.snd_una && seq_le ack c.snd_nxt then sub32 ack c.snd_una else 0

module _ (app : App) (f : ℕ → ℕ) (isn : ℕ) where
  -- The application's answer to room in the buffer keeps the sending side.
  abbrev pub KeepsSending : Type 0
  KeepsSending =
      (c : Conn) (u fl : ℕ)
      → IsSending f isn u fl c
      → (fl' : ℕ) × IsSending f isn u fl' (app.write c)

  flush_loop-snd_una :
      (fuel : ℕ) (c : Conn) (n : ℕ) → (flush_loop app fuel c n).0.snd_una ≡ c.snd_una
  unfolding flush_loop send_segment
  flush_loop-snd_una zero c n = refl
  flush_loop-snd_una (suc fuel) c n =
      let budget = if ltb n c.snd_wnd then c.snd_wnd - n else 0 in
      let k = min (min (c.sendbuf.len - n) (mss_of c)) budget in
      let rest =
        flush_loop-snd_una fuel
          (send_segment app c (tcpf_ack + tcpf_psh) (add32 c.snd_una n) c.rcv_nxt
            (sendbuf_copy_out c.sendbuf n k))
          (n + k) in
      elim (Bool-cases (ltb n c.sendbuf.len && (not (budget == 0) && not (k == 0)))) [
        | inl e ↦ rw e rest
        | inr e ↦ rw e refl
      ]

  tcp_flush_pending-snd_una : (c : Conn) → (tcp_flush_pending app c).snd_una ≡ c.snd_una
  unfolding tcp_flush_pending
  tcp_flush_pending-snd_una c =
      ground (arith, flush_loop-snd_una c.sendbuf.len c (sub32 c.snd_nxt c.snd_una))

  -- `tcp_flush_pending` changes only what is in flight.
  pub tcp_flush_pending-IsSending :
      (u fl : ℕ) (l4 : Bytes) (l6 : Option Bytes) (c : Conn)
      → IsSending f isn u fl c
      → IsWired l4 l6 c
      → u + c.sendbuf.len ≤ limit
      → c.being_freed ≡ false
      → is_state c.state established ≡ true
      → IsSending f isn u (max fl (min c.sendbuf.len c.snd_wnd)) (tcp_flush_pending app c)
  tcp_flush_pending-IsSending u fl l4 l6 c h w whole alive open_state =
      let sent = tcp_flush_pending_lem app f isn u fl l4 l6 c h w whole alive open_state in
      IsSending-same f isn u (max fl (min c.sendbuf.len c.snd_wnd)) c (tcp_flush_pending app c)
        (tcp_flush_pending-sendbuf app c) (tcp_flush_pending-snd_una c) sent.3
        (omega (arith, h.flight)) fl h

  -- the connection without the first `k` bytes of the buffer
  abbrev without : ℕ → ℕ → Conn → Conn
  without u k c = record c {
    sendbuf = sendbuf_consume c.sendbuf k;
    snd_una = (isn + (u + k)) % word;
  }

  len-sendbuf_consume : (c : Conn) (k : ℕ) → (sendbuf_consume c.sendbuf k).len ≡ c.sendbuf.len - k
  unfolding sendbuf_consume
  len-sendbuf_consume c k = ground arith

  without-IsSending :
      (u fl k : ℕ) (c : Conn)
      → IsSending f isn u fl c
      → k ≤ fl
      → IsSending f isn (u + k) (fl - k) (without u k c)
  without-IsSending u fl k c h le =
      let left = len-sendbuf_consume c k in
      let inside : k ≤ c.sendbuf.len = omega (arith, le, h.flight) in
      record {
        ring = sendbuf_consume-IsRing c.sendbuf h.ring k;
        una = refl;
        nxt = h.nxt ∙ ap (λ (t : ℕ). (isn + t) % word) (omega (arith, le));
        flight = omega (arith, left, h.flight);
        holds =
            contents-sendbuf_consume c.sendbuf h.ring k
            ∙ (ap (drop k) h.holds
                ∙ (drop-slice f u c.sendbuf.len k inside ∙ ap (slice f (u + k)) (sym left)));
      }

  acked_by-in_flight :
      (u fl ack : ℕ) (c : Conn)
      → IsSending f isn u fl c
      → u + c.sendbuf.len ≤ limit
      → ack < word
      → seq_gt ack c.snd_una && seq_le ack c.snd_nxt ≡ true
      → (sub32 ack c.snd_una ≤ fl) × (ack ≡ (isn + (u + sub32 ack c.snd_una)) % word)
  unfolding seq_gt seq_le
  acked_by-in_flight u fl ack c h whole small e =
      let near : fl ≤ limit = omega (arith, h.flight, whole) in
      let ahead : sub32 ack c.snd_una < 2 ^ 31 = ground (arith, e) in
      let back : (sub32 ack c.snd_nxt ≡ 0) ⊎ (2 ^ 31 ≤ sub32 ack c.snd_nxt) = ground (arith, e) in
      (omega (arith, h.una, h.nxt, near, small, ahead, back), omega (arith, h.una, small))

  -- the connection once new bytes are acknowledged, before the application hears of it
  abbrev moved_on : Conn → Conn
  moved_on c = if c.sendbuf.len == 0 then stop_retransmit app c else tcp_flush_pending app c

  moved_on-IsSending :
      (u fl : ℕ) (l4 : Bytes) (l6 : Option Bytes) (c : Conn)
      → IsSending f isn u fl c
      → IsWired l4 l6 c
      → u + c.sendbuf.len ≤ limit
      → c.being_freed ≡ false
      → is_state c.state established ≡ true
      → (fl' : ℕ) × IsSending f isn u fl' (moved_on c)
  moved_on-IsSending u fl l4 l6 c h w whole alive open_state =
      elim (Bool-cases (c.sendbuf.len == 0)) [
        | inl e ↦ rw e (fl, stopped)
        | inr e ↦ rw e (_, tcp_flush_pending-IsSending u fl l4 l6 c h w whole alive open_state)
      ]
    where
      stopped : IsSending f isn u fl (stop_retransmit app c)
      stopped =
          unfold stop_retransmit in
          IsSending-same f isn u fl c (stop_retransmit app c) refl refl h.nxt h.flight fl h

  -- The application may hear of it.
  told-IsSending :
      (b : Bool) (u fl : ℕ) (c : Conn)
      → KeepsSending
      → IsSending f isn u fl c
      → (fl' : ℕ) × IsSending f isn u fl' (if b then app.write (emit Event.writeable c) else c)
  told-IsSending false u fl c keeps h = (fl, h)
  told-IsSending true u fl c keeps h =
      let told = emit Event.writeable c in
      keeps told u fl (IsSending-same f isn u fl c told refl refl h.nxt h.flight fl h)

  -- Of an open connection whose buffer holds the stream from the position `u` on, all within its
  -- first 2 ^ 30 bytes, and whose application keeps that: whatever number is acknowledged, the bytes
  -- that it takes out were in flight, and the buffer holds the stream from behind them on.
  pub take_ack-IsSending :
      (u fl ack : ℕ) (l4 : Bytes) (l6 : Option Bytes) (c : Conn)
      → KeepsSending
      → IsSending f isn u fl c
      → IsWired l4 l6 c
      → u + c.sendbuf.len ≤ limit
      → c.being_freed ≡ false
      → is_state c.state established ≡ true
      → ack < word
      → (fl' : ℕ) × (acked_by ack c ≤ fl)
        × IsSending f isn (u + acked_by ack c) fl' (take_ack app ack c)
  unfolding take_ack
  take_ack-IsSending u fl ack l4 l6 c keeps h w whole alive open_state small =
      elim (Bool-cases (seq_gt ack c.snd_una && seq_le ack c.snd_nxt)) [
        | inr e ↦ rw e (fl, omega arith, subst (λ p. IsSending f isn p fl c) (omega arith) h)
        | inl e ↦
            let k = sub32 ack c.snd_una in
            let (le, at) = acked_by-in_flight u fl ack c h whole small e in
            let inside : leb k c.sendbuf.len ≡ true = ground (arith, le, h.flight) in
            let consumed = record c { sendbuf = sendbuf_consume c.sendbuf k; snd_una = ack } in
            let taken : IsSending f isn (u + k) (fl - k) consumed =
              subst
                (λ a.
                  IsSending f isn (u + k) (fl - k)
                    (record c { sendbuf = sendbuf_consume c.sendbuf k; snd_una = a }))
                (sym at) (without-IsSending u fl k c h le) in
            let short : u + k + consumed.sendbuf.len ≤ limit =
              omega (arith, len-sendbuf_consume c k, le, h.flight, whole) in
            let wired : IsWired l4 l6 consumed = record {
              addressed = w.addressed;
              local_fits = w.local_fits;
              remote_fits = w.remote_fits;
              rcv_fits = w.rcv_fits;
              mss_fits = w.mss_fits;
            } in
            let moved =
              moved_on-IsSending (u + k) (fl - k) l4 l6 consumed taken wired short alive
                open_state in
            let told = told-IsSending _ (u + k) moved.0 (moved_on consumed) keeps moved.1 in
            rw (e, inside) (told.0, le, told.1)
      ]
