-- ===== src/Tcp/Reassembly/Place.antt =====
-- What `tcp_ooo_queue` of src/tcpstack.c makes of the queue: pieces of the stream still.
use mathlib.Core.Path.{subst}
use wgx.Base.{
  ℕ, ◌+◌, ◌-◌, ◌%◌, ◌^◌, ◌<◌, ◌≤◌, ◌≡◌, ap, sym, ◌∙◌, arith, inl, inr, Bool, not, Option, none,
  some, List, ◌∷◌, ◌||◌, ltb, Bool-cases, length,
}
use wgx.Base.Bytes.{Bytes}
use wgx.Tcp.Seq.{word, add32, sub32}
use wgx.Tcp.Types.{OooSeg, tcp_recv_ooo_size}
use wgx.Tcp.Reassembly.{
  Ooo, Piece, ahead_of, ends_by, ends_after, behind_first, clear_upto, place, tcp_ooo_queue,
}
use wgx.Tcp.Reassembly.Stream.{length-slice, add_at}
use wgx.Tcp.Reassembly.Queue.{
  bytes_in, bytes_in-append, IsAt, InStream, InStream-le, InStream-append, ends_by-InStream,
  ends_after-InStream, ends-bytes_in,
}
use wgx.Tcp.Reassembly.Insert.{IsPiece, ahead_of-IsPiece, behind_first-IsPiece, clear_upto-InStream}

module _ (f : ℕ → ℕ) (isn : ℕ) where
  -- The queue holds pieces of the stream from `lo` on, counts their bytes, and has 2 MiB at most.
  pub record IsQueue (lo hi : ℕ) (q : Ooo) : Type 0 where
    pub in_stream : InStream f isn lo hi q.segs
    pub counted : q.total ≡ bytes_in q.segs
    pub bounded : q.total ≤ tcp_recv_ooo_size

  place-IsQueue :
      (r hi s p n : ℕ) (mem : Bool) (before after : List OooSeg) (total : ℕ) (d : Piece)
      → hi ≤ r + 2 ^ 30
      → InStream f isn r s before
      → InStream f isn r hi after
      → bytes_in before + bytes_in after ≡ total
      → total ≤ tcp_recv_ooo_size
      → IsAt f isn p n d.start d.bytes
      → s ≤ p
      → 0 < n
      → p + n ≤ hi
      → IsQueue r hi (place mem before after total d)
  unfolding place
  place-IsQueue r hi s p n mem before after total d near bh ah sum small at sp full fits =
      let size : length d.bytes ≡ n = ap length at.1 ∙ length-slice f p n in
      let low = InStream-le f isn r s before bh in
      let end = ap (add32 d.start) size ∙ add_at isn d.start p n at.0 in
      let stop = add32 d.start (length d.bytes) in
      let cleared =
        clear_upto-InStream f isn r r hi (p + n) stop after ah (omega arith) near end
          (omega (arith, low)) fits in
      let kept = (clear_upto stop after).0 in
      let freed = (clear_upto stop after).1 in
      let left : sub32 total freed ≡ total - freed = omega (arith, sum, cleared.1) in
      elim (Bool-cases (ltb tcp_recv_ooo_size (sub32 total freed + length d.bytes) || not mem)) [
        | inl e ↦ rw e (record {
          in_stream = InStream-append f isn r s (p + n) hi before kept (omega arith) bh cleared.0;
          counted = omega (arith, left, sum, cleared.1, bytes_in-append before kept);
          bounded = omega (arith, left);
        })
        | inr e ↦
            let new : OooSeg = record { seq = d.start; bytes = d.bytes } in
            rw e (record {
              in_stream =
                  InStream-append f isn r s p hi before (new ∷ kept) sp bh
                    (p, n, at, omega arith, full, cleared.0);
              counted = omega (arith, left, sum, cleared.1, bytes_in-append before (new ∷ kept));
              bounded = ground (arith, e);
            })
      ]

  -- Whatever piece of the stream is queued, with all positions within 2 ^ 30 bytes, the queue stays
  -- one of pieces of the stream, in order and apart, counts their bytes and has 2 MiB at most.
  pub tcp_ooo_queue-IsQueue :
      (b r hi p n : ℕ) (mem : Bool) (rcv_nxt : ℕ) (q : Ooo) (seq : ℕ) (payload : Bytes)
      → rcv_nxt ≡ (isn + r) % word
      → IsAt f isn p n seq payload
      → (b ≤ r) × (r ≤ hi) × (b ≤ p) × (p + n ≤ hi) × (hi ≤ b + 2 ^ 30)
      → IsQueue b hi q
      → IsQueue b hi (tcp_ooo_queue mem rcv_nxt q seq payload)
  unfolding tcp_ooo_queue
  tcp_ooo_queue-IsQueue b r hi p n mem rcv_nxt q seq payload nxt at (br, rh, bp, fits, near) h =
      let d0 : Piece = record { start = seq; bytes = payload } in
      go (ahead_of rcv_nxt d0) (
        ahead_of-IsPiece f isn r p n rcv_nxt d0 nxt at (omega (arith, bp, rh, near))
          (omega (arith, br, fits, near)))
    where
      settle :
          (d : Piece) (s : ℕ)
          → b ≤ s
          → s ≤ hi
          → d.start ≡ (isn + s) % word
          → (o : Option Piece) → IsPiece f isn s (p + n) o
          → IsQueue b hi (elim o [
            | none ↦ q
            | some d' ↦ place mem (ends_by d.start q.segs) (ends_after d.start q.segs) q.total d'
          ])
      settle d s bs sh at' none piece = h
      settle d s bs sh at' (some d') (p', n', there, le, full, ends) =
          place-IsQueue b hi s p' n' mem (ends_by d.start q.segs) (ends_after d.start q.segs)
            q.total d' near
            (ends_by-InStream f isn b s hi d.start at' near bs sh b q.segs (omega arith) bs
              h.in_stream)
            (ends_after-InStream f isn b s hi d.start at' near bs sh b q.segs (omega arith)
              h.in_stream)
            (ends-bytes_in f isn d.start q.segs ∙ sym h.counted) h.bounded there le full
            (omega (arith, fits, ends))

      go :
          (o : Option Piece)
          → IsPiece f isn r (p + n) o
          → IsQueue b hi (elim o [
            | none ↦ q
            | some d ↦ elim (behind_first (ends_after d.start q.segs) d) [
              | none ↦ q
              | some d' ↦ place mem (ends_by d.start q.segs) (ends_after d.start q.segs) q.total d'
            ]
          ])
      go none piece = h
      go (some d) (s, m, there, le, full, ends) =
          let sh : s ≤ hi = omega (arith, fits, ends) in
          let bs : b ≤ s = omega (arith, br, le) in
          let after =
            ends_after-InStream f isn b s hi d.start there.0 near bs sh b q.segs (omega arith)
              h.in_stream in
          settle d s bs sh there.0 (behind_first (ends_after d.start q.segs) d) (
            subst (λ e. IsPiece f isn s e (behind_first (ends_after d.start q.segs) d)) ends
              (behind_first-IsPiece f isn b b hi s m (ends_after d.start q.segs) d after
                (omega arith) near there bs full (omega (arith, fits, ends))))
