-- ===== src/Tcp/Sending/Moves.antt =====
-- Bytes that the application hands to `tcp_send` of src/tcpstack.c, and bytes that the peer
-- acknowledges.
use mathlib.Core.List.{append-nil}
use wgx.Base.{
  ℕ, zero, suc, ◌+◌, ◌-◌, ◌^◌, ◌<◌, ◌≤◌, ◌≡◌, refl, ap, sym, ◌∙◌, arith, inl, inr, Bool, true,
  false, not, ◌&&◌, min, [], ◌∷◌, ◌++◌, ◌==◌, ltb, leb, Bool-cases, if◌then◌else◌, length,
}
use wgx.Base.Bytes.{Bytes}
use wgx.Tcp.Seq.{add32, sub32}
use wgx.Tcp.Types.{Sendbuf, Conn, App, established, tcp_sendbuf_size, tcpf_psh, tcpf_ack}
use wgx.Tcp.Sendbuf.{sendbuf_grow, sendbuf_append, sendbuf_copy_out}
use wgx.Tcp.Sendbuf.Refine.{IsRing, contents, sendbuf_grow-Grows}
use wgx.Tcp.Sendbuf.Moves.{sendbuf_append-IsRing, contents-sendbuf_append}
use wgx.Tcp.Segment.{send_segment}
use wgx.Tcp.Conn.{is_state, mss_of, flush_loop, tcp_flush_pending, schedule_flush, tcp_send}

module _ (app : App) where
  flush_loop-sendbuf :
      (fuel : ℕ) (c : Conn) (n : ℕ) → (flush_loop app fuel c n).0.sendbuf ≡ c.sendbuf
  unfolding flush_loop send_segment
  flush_loop-sendbuf zero c n = refl
  flush_loop-sendbuf (suc fuel) c n =
      let budget = if ltb n c.snd_wnd then c.snd_wnd - n else 0 in
      let k = min (min (c.sendbuf.len - n) (mss_of c)) budget in
      let rest =
        flush_loop-sendbuf fuel
          (send_segment app c (tcpf_ack + tcpf_psh) (add32 c.snd_una n) c.rcv_nxt
            (sendbuf_copy_out c.sendbuf n k))
          (n + k) in
      elim (Bool-cases (ltb n c.sendbuf.len && (not (budget == 0) && not (k == 0)))) [
        | inl e ↦ rw e rest
        | inr e ↦ rw e refl
      ]

  pub tcp_flush_pending-sendbuf : (c : Conn) → (tcp_flush_pending app c).sendbuf ≡ c.sendbuf
  unfolding tcp_flush_pending
  tcp_flush_pending-sendbuf c =
      ground (arith, flush_loop-sendbuf c.sendbuf.len c (sub32 c.snd_nxt c.snd_una))

  -- the buffer with the bytes, or as it was
  abbrev pub Taken : Bool → Bytes → Sendbuf → Sendbuf → Type 0
  Taken took payload b b' =
      IsRing b' × (contents b' ≡ (if took then contents b ++ payload else contents b))

  -- Of an open connection with a sound buffer, and where there is memory: `tcp_send` takes all of
  -- the bytes, behind those that the buffer holds, if that makes 256 KiB at most, and none
  -- otherwise; it says which. The buffer stays sound.
  pub contents-tcp_send :
      (c : Conn) (payload : Bytes)
      → IsRing c.sendbuf
      → c.being_freed ≡ false
      → is_state c.state established ≡ true
      → length payload < 2 ^ 32
      → ((tcp_send app true c payload).0 ≡ leb (c.sendbuf.len + length payload) tcp_sendbuf_size)
        × Taken
            (tcp_send app true c payload).0
            payload
            c.sendbuf
            (tcp_send app true c payload).1.sendbuf
  contents-tcp_send c payload r alive open_state short =
      let n = length payload in
      let room : c.sendbuf.len ≤ tcp_sendbuf_size = omega (arith, r.fits, r.bounded) in
      elim (Bool-cases (n == 0)) [
        | inl e ↦
            let same : tcp_send app true c payload ≡ (true, c) =
              unfold tcp_send in ground (arith, alive, open_state, e) in
            rw same (ground (arith, room, e), (r, sym (nothing payload e)))
        | inr full ↦ elim (Bool-cases (leb (c.sendbuf.len + n) tcp_sendbuf_size)) [
          | inr big ↦
              let same : tcp_send app true c payload ≡ (false, c) =
                unfold tcp_send in ground (arith, alive, open_state, full, big) in
              rw (same, big) (refl, (r, refl))
          | inl fits ↦
              let need = c.sendbuf.len + n in
              let grown = sendbuf_grow true c.sendbuf need in
              let g = sendbuf_grow-Grows true c.sendbuf need r (omega arith) in
              let got : grown.0 ≡ true = g.4 refl (ground (arith, fits)) in
              let wide : grown.1.len + n ≤ grown.1.cap = omega (arith, g.2, g.3 got) in
              let filled = record c { sendbuf = sendbuf_append grown.1 payload } in
              let kept : (tcp_send app true c payload).1.sendbuf ≡ filled.sendbuf =
                unfold tcp_send schedule_flush in
                ground (
                  arith,
                  alive,
                  open_state,
                  full,
                  fits,
                  short,
                  got,
                  tcp_flush_pending-sendbuf filled,
                ) in
              let took : (tcp_send app true c payload).0 ≡ true =
                unfold tcp_send in ground (arith, alive, open_state, full, fits, short, got) in
              rw (took, fits, kept)
                (
                  refl,
                  (
                    sendbuf_append-IsRing grown.1 payload g.0 wide,
                    contents-sendbuf_append grown.1 payload g.0 wide
                        ∙ ap (λ (t : Bytes). t ++ payload) g.1,
                  ),
                )
        ]
      ]
    where
      nothing :
          (payload : Bytes)
          → (length payload == 0) ≡ true
          → contents c.sendbuf ++ payload ≡ contents c.sendbuf
      nothing [] e = append-nil (contents c.sendbuf)
      nothing (x ∷ xs) e = absurd (ground (arith, e))
