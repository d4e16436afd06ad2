-- ===== src/Tcp/Reassembly/Insert.antt =====
-- What `tcp_ooo_queue` of src/tcpstack.c does to the queue.

use wgx.Base.{
  ℕ, ◌+◌, ◌-◌, ◌%◌, ◌^◌, ◌<◌, ◌≤◌, ◌≡◌, refl, ap, ◌∙◌, arith, inl, inr, Option, none, some, List,
  [], ◌∷◌, ◌==◌, ◌&&◌, ◌||◌, ltb, leb, Bool-cases, length, drop,
}
use wgx.Base.Bytes.{Bytes}
use wgx.Tcp.Seq.{word, add32, sub32, seq_le}
use wgx.Tcp.Types.{OooSeg}
use wgx.Tcp.Reassembly.{seg_end, Piece, ahead_of, behind_first, clear_upto}
use wgx.Tcp.Reassembly.Stream.{slice, length-slice, drop-slice, lt_at, le_at, gt_at, sub_at, add_at}
use wgx.Tcp.Reassembly.Queue.{bytes_in, IsAt, InStream, InStream-widen, InStream-le, seg_end_at}

module _ (f : ℕ → ℕ) (isn : ℕ) where
  -- A piece of the stream from `lo` on that ends at `end`, not empty; or none.
  abbrev pub IsPiece : ℕ → ℕ → Option Piece → Type 0
  IsPiece lo end none = Unit {0}
  IsPiece lo end (some d) =
      (p : ℕ) × (n : ℕ) × IsAt f isn p n d.start d.bytes × (lo ≤ p) × (0 < n) × (p + n ≡ end)

  -- the rest of a piece, from `k` bytes on
  pub rest_of_piece :
      (p n k : ℕ) (start : ℕ) (bytes : Bytes)
      → IsAt f isn p n start bytes
      → k ≤ n
      → IsAt f isn (p + k) (n - k) (add32 start k) (drop k bytes)
  rest_of_piece p n k start bytes at le =
      (add_at isn start p k at.0, ap (drop k) at.1 ∙ drop-slice f p n k le)

  pub ahead_of-IsPiece :
      (r p n rcv_nxt : ℕ) (d : Piece)
      → rcv_nxt ≡ (isn + r) % word
      → IsAt f isn p n d.start d.bytes
      → r ≤ p + 2 ^ 30
      → p + n ≤ r + 2 ^ 30
      → IsPiece r (p + n) (ahead_of rcv_nxt d)
  unfolding ahead_of
  ahead_of-IsPiece r p n rcv_nxt d nxt at late early =
      let size : length d.bytes ≡ n = ap length at.1 ∙ length-slice f p n in
      let end = ap (add32 d.start) size ∙ add_at isn d.start p n at.0 in
      let passed = le_at isn (p + n) r end nxt (omega arith, omega arith) in
      let behind = lt_at isn p r at.0 nxt (omega arith, omega arith) in
      elim (Bool-cases ((length d.bytes == 0) || seq_le (add32 d.start (length d.bytes)) rcv_nxt)) [
        | inl e ↦ rw e tt
        | inr e ↦
            let ahead : r < p + n = ground (arith, e, passed, size) in
            let full : 0 < n = ground (arith, e, size) in
            elim (Bool-cases (ltb p r)) [
              | inl cut ↦
                  let k : sub32 rcv_nxt d.start ≡ r - p =
                    sub_at isn r p nxt at.0 (ground (arith, cut)) (omega arith) in
                  rw (e, behind, cut, k)
                    (
                      r,
                      n - (r - p),
                      (
                        nxt,
                        ap (drop (r - p)) at.1
                            ∙ (drop-slice f p n (r - p) (ground (arith, cut))
                                ∙ ap (λ (t : ℕ). slice f t (n - (r - p))) {x = p + (r - p)} {y = r}
                                    (ground (arith, cut))),
                      ),
                      omega arith,
                      ground (arith, cut),
                      ground (arith, cut),
                    )
              | inr whole ↦ rw (e, behind, whole) (p, n, at, ground (arith, whole), full, refl)
            ]
      ]

  pub behind_first-IsPiece :
      (r lo hi p n : ℕ) (segs : List OooSeg) (d : Piece)
      → InStream f isn lo hi segs
      → r ≤ lo
      → hi ≤ r + 2 ^ 30
      → IsAt f isn p n d.start d.bytes
      → r ≤ p
      → 0 < n
      → p + n ≤ hi
      → IsPiece p (p + n) (behind_first segs d)
  unfolding behind_first
  behind_first-IsPiece r lo hi p n [] d h rl near at rp full fits =
      (p, n, at, omega arith, full, refl)
  behind_first-IsPiece r lo hi p n (s ∷ segs) d (q, m, here, le, some_bytes, rest) rl near at rp
        full fits =
      let room = InStream-le f isn (q + m) hi segs rest in
      let size : length d.bytes ≡ n = ap length at.1 ∙ length-slice f p n in
      let end = seg_end_at f isn q m s here in
      let starts = le_at isn q p here.0 at.0 (omega (arith, room), omega (arith, room)) in
      let covers = gt_at isn (q + m) p end at.0 (omega (arith, room), omega (arith, room)) in
      elim (Bool-cases (leb q p && ltb p (q + m))) [
        | inl e ↦
            let k : sub32 (seg_end s) d.start ≡ q + m - p =
              sub_at isn (q + m) p end at.0 (ground (arith, e)) (omega (arith, room)) in
            elim (Bool-cases (leb n (q + m - p))) [
              | inl all ↦ rw (starts, covers, e, size, k, all) tt
              | inr part ↦
                  let cut : q + m - p ≤ n = ground (arith, part) in
                  rw (starts, covers, e, size, k, part)
                    (
                      p + (q + m - p),
                      n - (q + m - p),
                      rest_of_piece p n (q + m - p) d.start d.bytes at cut,
                      omega arith,
                      ground (arith, part),
                      ground (arith, part),
                    )
            ]
        | inr e ↦ rw (starts, covers, e) (p, n, at, omega arith, full, refl)
      ]

  -- Clearing up to the position `e` leaves segments from there on, and counts what it frees.
  pub clear_upto-InStream :
      (r lo hi e end : ℕ) (segs : List OooSeg)
      → InStream f isn lo hi segs
      → r ≤ lo
      → hi ≤ r + 2 ^ 30
      → end ≡ (isn + e) % word
      → r ≤ e
      → e ≤ hi
      → InStream f isn e hi (clear_upto end segs).0
        × (bytes_in (clear_upto end segs).0 + (clear_upto end segs).1 ≡ bytes_in segs)
  unfolding clear_upto
  clear_upto-InStream r lo hi e end [] h rl near at re eh = (eh, refl)
  clear_upto-InStream r lo hi e end (s ∷ segs) (q, m, here, le, some_bytes, rest) rl near at re eh =
      let room = InStream-le f isn (q + m) hi segs rest in
      let size : length s.bytes ≡ m = ap length here.1 ∙ length-slice f q m in
      let starts = lt_at isn q e here.0 at (omega (arith, room), omega (arith, room)) in
      let inside =
        le_at isn (q + m) e (seg_end_at f isn q m s here) at
          (omega (arith, room), omega (arith, room)) in
      let ih = clear_upto-InStream r (q + m) hi e end segs rest (omega arith) near at re eh in
      elim (Bool-cases (ltb q e)) [
        | inl before ↦ elim (Bool-cases (leb (q + m) e)) [
          | inl all ↦ rw (starts, before, inside, all) (ih.0, omega (arith, ih.1))
          | inr part ↦
              let k : sub32 end s.seq ≡ e - q =
                sub_at isn e q at here.0 (ground (arith, before)) (omega (arith, room)) in
              let moved = rest_of_piece q m (e - q) s.seq s.bytes here (ground (arith, part)) in
              let left : length (drop (e - q) s.bytes) ≡ m - (e - q) =
                ap length moved.1 ∙ length-slice f (q + (e - q)) (m - (e - q)) in
              rw (starts, before, inside, part, k)
                (
                  (
                    q + (e - q),
                    m - (e - q),
                    moved,
                    ground (arith, before),
                    ground (arith, part),
                    InStream-widen f isn (q + m) (q + (e - q) + (m - (e - q))) hi hi segs
                        (ground (arith, part)) (omega arith) rest,
                  ),
                  ground (arith, left, size, part, before),
                )
        ]
        | inr after ↦
            rw (starts, after) ((q, m, here, ground (arith, after), some_bytes, rest), omega arith)
      ]
