-- ===== src/Tcp/Sending/Stream.antt =====
-- The sending side of a connection of src/tcpstack.c over any course of sends and acknowledgements.
use wgx.Base.{
  ℕ, ◌+◌, ◌^◌, ◌≤◌, ◌≡◌, refl, ap, sym, ◌∙◌, arith, inl, inr, Bool, true, false, not, ◌||◌, Option,
  ◌++◌, ◌==◌, ltb, leb, Bool-cases, if◌then◌else◌, length,
}
use wgx.Base.Bytes.{Bytes}
use wgx.Tcp.Types.{Conn, App, Event, established, tcp_sendbuf_size, tcp_mss}
use wgx.Tcp.Sendbuf.{sendbuf_grow, sendbuf_append}
use wgx.Tcp.Sendbuf.Refine.{IsRing, sendbuf_grow-Grows}
use wgx.Tcp.Sendbuf.Moves.{sendbuf_append-IsRing, contents-sendbuf_append}
use wgx.Tcp.Conn.{is_state, emit, tcp_flush_pending, schedule_flush, tcp_send}
use wgx.Tcp.Reassembly.Stream.{slice, slice-append, length-slice}
use wgx.Tcp.Delivery.Order.{limit}
use wgx.Tcp.Sending.{IsSending, IsWired}
use wgx.Tcp.Sending.Acks.{IsSending-same, tcp_flush_pending-IsSending}

module _ (app : App) (f : ℕ → ℕ) (isn : ℕ) where
  -- the buffer once `sendbuf_grow` had its turn, with the bytes behind
  abbrev filled : Bool → Conn → Bytes → Conn
  filled mem c bytes = record c {
    sendbuf = sendbuf_append (sendbuf_grow mem c.sendbuf (c.sendbuf.len + length bytes)).1 bytes;
  }

  len-sendbuf_append :
      (c : Conn) (bytes : Bytes)
      → (sendbuf_append c.sendbuf bytes).len ≡ c.sendbuf.len + length bytes
  unfolding sendbuf_append
  len-sendbuf_append c bytes = refl

  len-filled :
      (mem : Bool) (c : Conn) (bytes : Bytes)
      → IsRing c.sendbuf
      → (filled mem c bytes).sendbuf.len ≡ c.sendbuf.len + length bytes
  len-filled mem c bytes r =
      let need = c.sendbuf.len + length bytes in
      let g = sendbuf_grow-Grows mem c.sendbuf need r (omega arith) in
      len-sendbuf_append (record c { sendbuf = (sendbuf_grow mem c.sendbuf need).1 }) bytes
      ∙ ap (λ (t : ℕ). t + length bytes) g.2

  filled-IsSending :
      (u fl n : ℕ) (mem : Bool) (c : Conn) (bytes : Bytes)
      → IsSending f isn u fl c
      → bytes ≡ slice f (u + c.sendbuf.len) n
      → (sendbuf_grow mem c.sendbuf (c.sendbuf.len + length bytes)).0 ≡ true
      → IsSending f isn u fl (filled mem c bytes)
  filled-IsSending u fl n mem c bytes h at got =
      let need = c.sendbuf.len + length bytes in
      let b = (sendbuf_grow mem c.sendbuf need).1 in
      let g = sendbuf_grow-Grows mem c.sendbuf need h.ring (omega arith) in
      let wide : b.len + length bytes ≤ b.cap = omega (arith, g.2, g.3 got) in
      let size : length bytes ≡ n = ap length at ∙ length-slice f (u + c.sendbuf.len) n in
      let len : (sendbuf_append b bytes).len ≡ c.sendbuf.len + n =
        len-filled mem c bytes h.ring ∙ ap (λ (t : ℕ). c.sendbuf.len + t) size in
      record {
        ring = sendbuf_append-IsRing b bytes g.0 wide;
        una = h.una;
        nxt = h.nxt;
        flight = omega (arith, h.flight, len);
        holds =
            contents-sendbuf_append b bytes g.0 wide
            ∙ (ap (λ (t : Bytes). t ++ bytes) (g.1 ∙ h.holds)
                ∙ (ap (λ (t : Bytes). slice f u c.sendbuf.len ++ t) at
                    ∙ (slice-append f u c.sendbuf.len n ∙ ap (slice f u) (sym len))));
      }

  -- The buffer holds the stream from `u` on, whatever of it is in flight.
  abbrev Keeps : ℕ → Conn → Type 0
  Keeps u c = (fl : ℕ) × IsSending f isn u fl c

  schedule_flush-Keeps :
      (u fl : ℕ) (c : Conn) → IsSending f isn u fl c → Keeps u (schedule_flush app c)
  unfolding schedule_flush
  schedule_flush-Keeps u fl c h =
      let marked = emit Event.flush_scheduled (record c { flush_queued = true }) in
      elim (Bool-cases (c.being_freed || c.flush_queued)) [
        | inl e ↦ rw e (fl, h)
        | inr e ↦ rw e (fl, IsSending-same f isn u fl c marked refl refl h.nxt h.flight fl h)
      ]

  refused-IsSending :
      (u fl : ℕ) (mem : Bool) (c : Conn) (need : ℕ)
      → IsSending f isn u fl c
      → c.sendbuf.len ≤ need
      → IsSending f isn u fl (record c { sendbuf = (sendbuf_grow mem c.sendbuf need).1 })
  refused-IsSending u fl mem c need h covers =
      let g = sendbuf_grow-Grows mem c.sendbuf need h.ring covers in
      record {
        ring = g.0;
        una = h.una;
        nxt = h.nxt;
        flight = omega (arith, h.flight, g.2);
        holds = g.1 ∙ (h.holds ∙ ap (slice f u) (sym g.2));
      }

  filled-IsWired :
      (l4 : Bytes) (l6 : Option Bytes) (mem : Bool) (c : Conn) (bytes : Bytes)
      → IsWired l4 l6 c
      → IsWired l4 l6 (filled mem c bytes)
  filled-IsWired l4 l6 mem c bytes w = record {
    addressed = w.addressed;
    local_fits = w.local_fits;
    remote_fits = w.remote_fits;
    rcv_fits = w.rcv_fits;
    mss_fits = w.mss_fits;
  }

  -- Of an open connection whose buffer holds the stream from `u` on, some of it in flight, where the
  -- application hands the next bytes of the stream to `tcp_send`, all within its first 2 ^ 30 bytes:
  -- whether they are taken or not, and whether there is memory or not, the buffer holds the stream
  -- from `u` on, and what is in flight is counted.
  pub tcp_send-IsSending :
      (u fl : ℕ) (mem : Bool) (l4 : Bytes) (l6 : Option Bytes) (c : Conn) (bytes : Bytes)
      → IsSending f isn u fl c
      → IsWired l4 l6 c
      → bytes ≡ slice f (u + c.sendbuf.len) (length bytes)
      → u + (c.sendbuf.len + length bytes) ≤ limit
      → (fl' : ℕ) × IsSending f isn u fl' (tcp_send app mem c bytes).1
  unfolding tcp_send
  tcp_send-IsSending u fl mem l4 l6 c bytes h w at whole =
      let len = length bytes in
      let grown = sendbuf_grow mem c.sendbuf (c.sendbuf.len + len) in
      elim (Bool-cases (c.being_freed || not (is_state c.state established))) [
        | inl shut ↦ rw shut (fl, h)
        | inr open_conn ↦ elim (Bool-cases (len == 0)) [
          | inl nothing ↦ rw (open_conn, nothing) (fl, h)
          | inr bytes_in ↦
              elim (Bool-cases (leb (2 ^ 32) len || ltb tcp_sendbuf_size (c.sendbuf.len + len))) [
                | inl big ↦ rw (open_conn, bytes_in, big) (fl, h)
                | inr small ↦ elim (Bool-cases grown.0) [
                  | inr refused ↦
                      rw (open_conn, bytes_in, small, refused)
                        (fl, refused-IsSending u fl mem c (c.sendbuf.len + len) h (omega arith))
                  | inl got ↦ rw (open_conn, bytes_in, small, got) (taken got open_conn)
                ]
              ]
        ]
      ]
    where
      full : Conn
      full = filled mem c bytes

      taken :
          (sendbuf_grow mem c.sendbuf (c.sendbuf.len + length bytes)).0 ≡ true
          → c.being_freed || not (is_state c.state established) ≡ false
          → Keeps u (
              if leb tcp_mss (length bytes) || leb tcp_mss full.sendbuf.len
              then tcp_flush_pending app full
              else schedule_flush app full)
      taken got open_conn =
          let ready = filled-IsSending u fl (length bytes) mem c bytes h at got in
          let len : full.sendbuf.len ≡ c.sendbuf.len + length bytes =
            len-filled mem c bytes h.ring in
          elim (Bool-cases (leb tcp_mss (length bytes) || leb tcp_mss full.sendbuf.len)) [
            | inl now ↦ rw now (
              _,
              tcp_flush_pending-IsSending app f isn u fl l4 l6 full ready
                  (filled-IsWired l4 l6 mem c bytes w) (omega (arith, whole, len))
                  (ground (arith, open_conn)) (ground (arith, open_conn)),
            )
            | inr later ↦ rw later (schedule_flush-Keeps u fl full ready)
          ]
