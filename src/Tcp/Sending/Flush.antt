-- ===== src/Tcp/Sending/Flush.antt =====
-- What `tcp_flush_pending` of src/tcpstack.c sends.
use mathlib.Core.Path.{subst}
use mathlib.Core.List.{append_assoc, append-nil}
use wgx.Base.{
  ℕ, zero, suc, ◌+◌, ◌-◌, ◌%◌, ◌^◌, ◌<◌, ◌≤◌, ◌≡◌, refl, ap, sym, ◌∙◌, arith, inl, inr, true, false,
  not, ◌&&◌, Option, min, max, List, [], ◌∷◌, ◌++◌, ◌==◌, ltb, Bool-cases, if◌then◌else◌, length,
  take, drop,
}
use wgx.Base.Bytes.{Bytes}
use wgx.Tcp.Seq.{word, add32, sub32}
use wgx.Tcp.Types.{Conn, App, Event, established, tcp_mss, tcpf_psh, tcpf_ack}
use wgx.Tcp.Sendbuf.{sendbuf_copy_out}
use wgx.Tcp.Sendbuf.Moves.{sendbuf_copy_out_lem}
use wgx.Tcp.Segment.{segment, send_segment}
use wgx.Tcp.Segment.Packet.{reading, parse-segment}
use wgx.Tcp.Conn.{is_state, mss_of, flush_loop, tcp_flush_pending}
use wgx.Tcp.Reassembly.Stream.{slice, length-slice, drop-slice, add_at, sub_at}
use wgx.Tcp.Delivery.Order.{limit}
use wgx.Tcp.Sending.{IsSending, IsWired, IsDataPacket, Covers}

pub take-slice : (f : ℕ → ℕ) (p n k : ℕ) → k ≤ n → take k (slice f p n) ≡ slice f p k
unfolding slice
take-slice f p n zero le = refl
take-slice f p zero (suc k) le = absurd (omega arith)
take-slice f p (suc n) (suc k) le =
    ap (λ (t : Bytes). f p ∷ t) (take-slice f (p + 1) n k (omega arith))

module _ (app : App) (f : ℕ → ℕ) (isn u fl : ℕ) (l4 : Bytes) (l6 : Option Bytes) where
  -- `k` bytes of the buffer from `off` on, as `tcp_flush_pending` sends them, are read by the peer
  -- as bytes of the stream.
  copied :
      (c : Conn) (off k : ℕ)
      → IsSending f isn u fl c
      → off + k ≤ c.sendbuf.len
      → sendbuf_copy_out c.sendbuf off k ≡ slice f (u + off) k
  copied c off k h fits =
      sendbuf_copy_out_lem c.sendbuf h.ring off k fits
      ∙ (ap (λ (t : Bytes). take k (drop off t)) h.holds
          ∙ (ap (take k) (drop-slice f u c.sendbuf.len off (omega (arith, fits)))
              ∙ take-slice f (u + off) (c.sendbuf.len - off) k (omega (arith, fits))))

  packet-IsDataPacket :
      (c : Conn) (off k : ℕ)
      → IsSending f isn u fl c
      → IsWired l4 l6 c
      → off + k ≤ c.sendbuf.len
      → k ≤ tcp_mss
      → u + c.sendbuf.len ≤ limit
      → IsDataPacket f isn l4 l6 (u + off) k (
          Event.packet (
            segment app c
              (tcpf_ack + tcpf_psh)
              (add32 c.snd_una off)
              c.rcv_nxt
              (sendbuf_copy_out c.sendbuf off k)))
  packet-IsDataPacket c off k h w fits small whole =
      let bytes = sendbuf_copy_out c.sendbuf off k in
      let seq = add32 c.snd_una off in
      let here : bytes ≡ slice f (u + off) k = copied c off k h fits in
      let read =
        parse-segment app c (tcpf_ack + tcpf_psh) seq c.rcv_nxt bytes
          (record {
            local_fits = w.local_fits;
            remote_fits = w.remote_fits;
            seq_fits = omega arith;
            ack_fits = w.rcv_fits;
            payload_fits = omega (arith, small, ap length here, length-slice f (u + off) k);
          })
          l4 l6 w.addressed in
      (
        segment app c (tcpf_ack + tcpf_psh) seq c.rcv_nxt bytes,
        reading c.family app c (tcpf_ack + tcpf_psh) seq c.rcv_nxt bytes,
        refl,
        read.0,
        record {
          piece = (add_at isn c.snd_una u off h.una, read.1 ∙ here);
          within = omega (arith, fits, whole);
          no_fin = refl;
        },
      )

  -- What a loop of `tcp_flush_pending` does from `n` bytes on: it sends bytes of the stream, up to
  -- the end of the buffer or of the peer's window.
  record Flushes (c c' : Conn) (n n' : ℕ) : Type 0 where
    events : List Event
    logged : c'.log ≡ c.log ++ events
    covers : Covers f isn l4 l6 (u + n) (u + n') events
    upto : n' ≡ max n (min c.sendbuf.len c.snd_wnd)

  sent_on :
      (c : Conn) (n k : ℕ)
      → IsSending f isn u fl c
      → IsSending f isn u fl (
          send_segment app c
            (tcpf_ack + tcpf_psh)
            (add32 c.snd_una n)
            c.rcv_nxt
            (sendbuf_copy_out c.sendbuf n k))
  unfolding send_segment
  sent_on c n k h = record {
    ring = h.ring;
    una = h.una;
    nxt = h.nxt;
    flight = h.flight;
    holds = h.holds;
  }

  IsWired-on :
      (c : Conn) (n k : ℕ)
      → IsWired l4 l6 c
      → IsWired l4 l6 (
          send_segment app c
            (tcpf_ack + tcpf_psh)
            (add32 c.snd_una n)
            c.rcv_nxt
            (sendbuf_copy_out c.sendbuf n k))
  unfolding send_segment
  IsWired-on c n k w = record {
    addressed = w.addressed;
    local_fits = w.local_fits;
    remote_fits = w.remote_fits;
    rcv_fits = w.rcv_fits;
    mss_fits = w.mss_fits;
  }

  flush_loop-Flushes :
      (fuel n : ℕ) (c : Conn)
      → IsSending f isn u fl c
      → IsWired l4 l6 c
      → u + c.sendbuf.len ≤ limit
      → n ≤ c.sendbuf.len
      → c.sendbuf.len ≤ n + fuel
      → Flushes c (flush_loop app fuel c n).0 n (flush_loop app fuel c n).1
  unfolding flush_loop send_segment
  flush_loop-Flushes zero n c h w whole le enough = record {
    events = [];
    logged = sym (append-nil c.log);
    covers = refl;
    upto = omega (arith, le, enough);
  }
  flush_loop-Flushes (suc fuel) n c h w whole le enough =
      let budget = if ltb n c.snd_wnd then c.snd_wnd - n else 0 in
      let k = min (min (c.sendbuf.len - n) (mss_of c)) budget in
      let sent =
        send_segment app c (tcpf_ack + tcpf_psh) (add32 c.snd_una n) c.rcv_nxt
          (sendbuf_copy_out c.sendbuf n k) in
      elim (Bool-cases (ltb n c.sendbuf.len && (not (budget == 0) && not (k == 0)))) [
        | inr e ↦
            let mss_pos : 0 < mss_of c = ground arith in
            rw e (record {
              events = [];
              logged = sym (append-nil c.log);
              covers = refl;
              upto = ground (arith, e, le, mss_pos);
            })
        | inl e ↦
            let some_bytes : 0 < k = ground (arith, e) in
            let mss_small : mss_of c ≤ tcp_mss = ground (arith, w.mss_fits) in
            let fits : n + k ≤ c.sendbuf.len = omega (arith, le) in
            let small : k ≤ tcp_mss = omega (arith, mss_small) in
            let room : n < c.snd_wnd = ground (arith, e) in
            let in_window : n + k ≤ c.snd_wnd = ground (arith, room) in
            let one = packet-IsDataPacket c n k h w fits small whole in
            let rest =
              flush_loop-Flushes fuel (n + k) sent (sent_on c n k h) (IsWired-on c n k w) (whole)
                (fits) (omega (arith, enough, some_bytes)) in
            rw e (record {
              events =
                  Event.packet (
                    segment app c (tcpf_ack + tcpf_psh) (add32 c.snd_una n) c.rcv_nxt
                      (sendbuf_copy_out c.sendbuf n k))
                  ∷ rest.events;
              logged = rest.logged ∙ append_assoc c.log _ rest.events;
              covers = (
                k,
                some_bytes,
                one,
                subst
                    (λ t.
                      Covers f isn l4 l6 t (u + (flush_loop app fuel sent (n + k)).1) rest.events)
                    {x = u + (n + k)} {y = u + n + k} (omega arith) rest.covers,
              );
              upto = rest.upto ∙ omega (arith, fits, in_window);
            })
      ]

  -- Of an open connection whose buffer holds the stream from the first byte that is not
  -- acknowledged, `fl` of them sent, all within its first 2 ^ 30 bytes: `tcp_flush_pending` sends
  -- packets only, which the peer reads one after the other as the bytes of the stream from the first
  -- that was not sent to the end of what is in flight then, which is as much of the buffer as the
  -- peer's window takes, or what was in flight already where that is more; `snd_nxt` names that end.
  pub tcp_flush_pending_lem :
      (c : Conn)
      → IsSending f isn u fl c
      → IsWired l4 l6 c
      → u + c.sendbuf.len ≤ limit
      → c.being_freed ≡ false
      → is_state c.state established ≡ true
      → (events : List Event) × ((tcp_flush_pending app c).log ≡ c.log ++ events)
        × Covers f isn l4 l6 (u + fl) (u + max fl (min c.sendbuf.len c.snd_wnd)) events
        × ((tcp_flush_pending app c).snd_nxt
            ≡ (isn + (u + max fl (min c.sendbuf.len c.snd_wnd))) % 2 ^ 32)
  tcp_flush_pending_lem c h w whole alive open_state =
      let flight : sub32 c.snd_nxt c.snd_una ≡ fl =
        sub_at isn (u + fl) u h.nxt h.una (omega arith) (omega (arith, h.flight, whole))
        ∙ omega arith in
      let n = sub32 c.snd_nxt c.snd_una in
      let r =
        flush_loop-Flushes c.sendbuf.len n c h w whole (omega (arith, flight, h.flight))
          (omega arith) in
      let out = flush_loop app c.sendbuf.len c n in
      let reached : out.1 ≡ max fl (min c.sendbuf.len c.snd_wnd) =
        r.upto ∙ ap (λ (t : ℕ). max t (min c.sendbuf.len c.snd_wnd)) flight in
      let log : (tcp_flush_pending app c).log ≡ out.0.log =
        unfold tcp_flush_pending in ground (arith, alive, open_state) in
      let end : (tcp_flush_pending app c).snd_nxt ≡ add32 c.snd_una out.1 =
        unfold tcp_flush_pending in ground (arith, alive, open_state) in
      (
        r.events,
        log ∙ r.logged,
        subst (λ m. Covers f isn l4 l6 (u + m) (u + max fl (min c.sendbuf.len c.snd_wnd)) r.events)
            flight (subst (λ m. Covers f isn l4 l6 (u + n) (u + m) r.events) reached r.covers),
        end ∙ (add_at isn c.snd_una u out.1 h.una ∙ ap (λ (t : ℕ). (isn + (u + t)) % word) reached),
      )
