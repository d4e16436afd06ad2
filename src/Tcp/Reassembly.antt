-- ===== src/Tcp/Reassembly.antt =====
-- src/tcpstack.c: the queue of segments that came before their turn.
pub mod Stream
pub mod Queue
pub mod Insert
pub mod Place
pub mod Overlap
use wgx.Base.{
  ℕ, zero, suc, ◌+◌, ◌-◌, ◌%◌, Bool, true, false, not, ◌&&◌, ◌||◌, Option, none, some, List, [],
  ◌∷◌, ◌++◌, ◌==◌, ltb, leb, if◌then◌else◌, length, drop,
}
use wgx.Base.Bytes.{Bytes}
use wgx.Tcp.Seq.{add32, sub32, seq_lt, seq_le, seq_gt}
use wgx.Tcp.Types.{OooSeg, tcp_recv_ooo_size}

abbrev pub seg_end : OooSeg → ℕ
seg_end s = add32 s.seq (length s.bytes)

-- `rcv_ooo` and `rcv_ooo_len`
pub record Ooo : Type 0 where
  pub segs : List OooSeg
  pub total : ℕ

-- A segment that is being placed: its `start` and `data`.
pub record Piece : Type 0 where
  pub start : ℕ
  pub bytes : Bytes

-- what lies behind `rcv_nxt`; `none` where nothing does
unfoldable pub ahead_of : ℕ → Piece → Option Piece
ahead_of rcv_nxt d =
    if (length d.bytes == 0) || seq_le (add32 d.start (length d.bytes)) rcv_nxt
    then none
    else (if seq_lt d.start rcv_nxt
        then some (record { start = rcv_nxt; bytes = drop (sub32 rcv_nxt d.start) d.bytes })
        else some d)

-- the segments that end at `start` or before, and those from there on
unfoldable pub ends_by : ℕ → List OooSeg → List OooSeg
ends_by start [] = []
ends_by start (s ∷ segs) = if seq_le (seg_end s) start then s ∷ ends_by start segs else []

unfoldable pub ends_after : ℕ → List OooSeg → List OooSeg
ends_after start [] = []
ends_after start (s ∷ segs) = if seq_le (seg_end s) start then ends_after start segs else s ∷ segs

-- what lies behind the first segment that is left, if that covers the start
unfoldable pub behind_first : List OooSeg → Piece → Option Piece
behind_first [] d = some d
behind_first (s ∷ segs) d =
    let trim = sub32 (seg_end s) d.start in
    if seq_le s.seq d.start && seq_gt (seg_end s) d.start
    then (if leb (length d.bytes) trim
        then none
        else some (record { start = add32 d.start trim; bytes = drop trim d.bytes }))
    else some d

-- The segments from `end` on, with the number of bytes that are freed: whole segments that end by
-- it, and the front of one that it cuts.
unfoldable pub clear_upto : ℕ → List OooSeg → List OooSeg × ℕ
clear_upto end [] = ([], 0)
clear_upto end (s ∷ segs) =
    let rest = clear_upto end segs in
    let trim = sub32 end s.seq in
    if seq_lt s.seq end
    then (if seq_le (seg_end s) end
        then (rest.0, length s.bytes + rest.1)
        else (record { seq = add32 s.seq trim; bytes = drop trim s.bytes } ∷ segs, trim))
    else (s ∷ segs, 0)

-- a piece put behind the segments `before` it, in the place of what it covers of those `after`
unfoldable pub place : Bool → List OooSeg → List OooSeg → ℕ → Piece → Ooo
place mem before after total d =
    let (kept, freed) = clear_upto (add32 d.start (length d.bytes)) after in
    let total' = sub32 total freed in
    if ltb tcp_recv_ooo_size (total' + length d.bytes) || not mem
    then record { segs = before ++ kept; total = total' }
    else record {
      segs = before ++ (record { seq = d.start; bytes = d.bytes } ∷ kept);
      total = total' + length d.bytes;
    }

-- `mem` is whether `malloc` gives memory
unfoldable pub tcp_ooo_queue : Bool → ℕ → Ooo → ℕ → Bytes → Ooo
tcp_ooo_queue mem rcv_nxt q seq payload =
    elim (ahead_of rcv_nxt (record { start = seq; bytes = payload })) [
      | none ↦ q
      | some d ↦ elim (behind_first (ends_after d.start q.segs) d) [
        | none ↦ q
        | some d' ↦ place mem (ends_by d.start q.segs) (ends_after d.start q.segs) q.total d'
      ]
    ]
