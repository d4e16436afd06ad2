-- ===== src/Tcp/Reassembly/Overlap.antt =====
-- A segment that overlaps the end of a queued one, in `tcp_ooo_queue` of src/tcpstack.c.
use wgx.Base.{
  ℕ, ◌+◌, ◌-◌, ◌%◌, ◌^◌, ◌<◌, ◌≤◌, ◌≡◌, ap, ◌∙◌, arith, true, some, List, [], ◌∷◌, length, drop,
}
use wgx.Base.Bytes.{Bytes}
use wgx.Tcp.Seq.{word, add32, sub32}
use wgx.Tcp.Types.{OooSeg}
use wgx.Tcp.Reassembly.{
  seg_end, Ooo, Piece, ahead_of, ends_by, ends_after, behind_first, clear_upto, place,
  tcp_ooo_queue,
}
use wgx.Tcp.Reassembly.Stream.{slice, length-slice, lt_at, le_at, gt_at, sub_at, add_at}
use wgx.Tcp.Reassembly.Queue.{IsAt, seg_end_at}
use wgx.Tcp.Reassembly.Insert.{rest_of_piece}

module _ (f : ℕ → ℕ) (isn r p n q m rcv_nxt seq : ℕ) (payload : Bytes) (s : OooSeg)
    (nxt : rcv_nxt ≡ (isn + r) % word) (old : IsAt f isn p n s.seq s.bytes)
    (new : IsAt f isn q m seq payload)
    (order : (r ≤ p) × (p ≤ q) × (q < p + n) × (p + n < q + m) × (q + m ≤ r + 2 ^ 20)) where
  abbrev before : Ooo
  before = record { segs = s ∷ []; total = length s.bytes }

  abbrev k : ℕ
  k = p + n - q

  abbrev tail : Piece
  tail = record { start = add32 seq k; bytes = drop k payload }

  size_old : length s.bytes ≡ n
  size_old = ap length old.1 ∙ length-slice f p n

  size_new : length payload ≡ m
  size_new = ap length new.1 ∙ length-slice f q m

  size_tail : length (drop k payload) ≡ m - k
  size_tail = ap length rest ∙ length-slice f (q + k) (m - k)
    where
      rest : drop k payload ≡ slice f (q + k) (m - k)
      rest = (rest_of_piece f isn q m k seq payload new (omega (arith, order))).1

  ahead :
      ahead_of rcv_nxt (record { start = seq; bytes = payload })
      ≡ some (record { start = seq; bytes = payload })
  unfolding ahead_of
  ahead =
      let end = ap (add32 seq) size_new ∙ add_at isn seq q m new.0 in
      ground (
        arith,
        order,
        size_new,
        le_at isn (q + m) r end nxt (omega (arith, order), omega (arith, order)),
        lt_at isn q r new.0 nxt (omega (arith, order), omega (arith, order)),
      )

  old_after : ends_after seq (s ∷ []) ≡ s ∷ []
  unfolding ends_after
  old_after = ground (
    arith,
    order,
    le_at isn (p + n) q (seg_end_at f isn p n s old) new.0
        (omega (arith, order), omega (arith, order)),
  )

  old_not_by : ends_by seq (s ∷ []) ≡ []
  unfolding ends_by
  old_not_by = ground (
    arith,
    order,
    le_at isn (p + n) q (seg_end_at f isn p n s old) new.0
        (omega (arith, order), omega (arith, order)),
  )

  trimmed : behind_first (s ∷ []) (record { start = seq; bytes = payload }) ≡ some tail
  unfolding behind_first
  trimmed =
      let end = seg_end_at f isn p n s old in
      let trim : sub32 (seg_end s) seq ≡ k =
        sub_at isn (p + n) q end new.0 (omega (arith, order)) (omega (arith, order)) in
      ground (
        arith,
        order,
        size_new,
        trim,
        le_at isn p q old.0 new.0 (omega (arith, order), omega (arith, order)),
        gt_at isn (p + n) q end new.0 (omega (arith, order), omega (arith, order)),
        ap (λ (t : ℕ). drop t payload) trim,
        ap (add32 seq) trim,
      )

  -- the end of what is placed
  end_at : add32 (add32 seq k) (length (drop k payload)) ≡ (isn + (q + m)) % word
  end_at =
      ap (add32 (add32 seq k)) size_tail
      ∙ (add_at isn (add32 seq k) (q + k) (m - k) (add_at isn seq q k new.0)
          ∙ ap (λ (t : ℕ). (isn + t) % word) {x = q + k + (m - k)} {y = q + m}
              (omega (arith, order)))

  cleared :
      clear_upto (add32 (add32 seq k) (length (drop k payload))) (s ∷ []) ≡ ([], length s.bytes + 0)
  unfolding clear_upto
  cleared = ground (
    arith,
    order,
    lt_at isn p (q + m) old.0 end_at (omega (arith, order), omega (arith, order)),
    le_at isn (p + n) (q + m) (seg_end_at f isn p n s old) end_at
        (omega (arith, order), omega (arith, order)),
  )

  placed :
      tcp_ooo_queue true rcv_nxt before seq payload ≡ place true [] (s ∷ []) (length s.bytes) tail
  unfolding tcp_ooo_queue
  placed = ground (
    arith,
    ahead,
    old_after,
    old_not_by,
    trimmed,
    ap (λ (t : List OooSeg). behind_first t (record { start = seq; bytes = payload })) old_after,
  )

  kept : place true [] (s ∷ []) (length s.bytes) tail ≡ record {
    segs = record { seq = add32 seq k; bytes = drop k payload } ∷ [];
    total = q + m - (p + n);
  }
  unfolding place
  kept = ground (arith, cleared, size_old, size_tail, order)

  -- A segment that begins inside the only queued one and goes on past its end replaces it: the
  -- bytes of the queued segment are thrown away, and only what lies behind them is kept, so that the
  -- queue does not hold the bytes from the first's start to the second's end. All lies ahead of
  -- what is expected, and within 2 ^ 20 bytes of it.
  pub overlap_drops_queued : tcp_ooo_queue true rcv_nxt before seq payload ≡ record {
    segs = record { seq = add32 seq k; bytes = drop k payload } ∷ [];
    total = q + m - (p + n);
  }
  overlap_drops_queued = placed ∙ kept
