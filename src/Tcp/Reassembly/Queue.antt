-- ===== src/Tcp/Reassembly/Queue.antt =====
-- The queue of src/tcpstack.c holds pieces of the peer's stream, in order and apart.
use wgx.Base.{
  ℕ, ◌+◌, ◌%◌, ◌^◌, ◌<◌, ◌≤◌, ◌≡◌, refl, ap, ◌∙◌, arith, inl, inr, List, [], ◌∷◌, ◌++◌, leb,
  Bool-cases, length,
}
use wgx.Base.Bytes.{Bytes}
use wgx.Tcp.Seq.{word, add32}
use wgx.Tcp.Types.{OooSeg}
use wgx.Tcp.Reassembly.{seg_end, ends_by, ends_after}
use wgx.Tcp.Reassembly.Stream.{slice, length-slice, le_at, add_at}

abbrev pub bytes_in : List OooSeg → ℕ
bytes_in [] = 0
bytes_in (s ∷ segs) = length s.bytes + bytes_in segs

pub bytes_in-append : (xs ys : List OooSeg) → bytes_in (xs ++ ys) ≡ bytes_in xs + bytes_in ys
bytes_in-append [] ys = omega arith
bytes_in-append (x ∷ xs) ys = omega (arith, bytes_in-append xs ys)

-- `seq` and `bytes` are those of the `n` bytes of the stream from the position `p` on.
abbrev pub IsAt : (ℕ → ℕ) → ℕ → ℕ → ℕ → ℕ → Bytes → Type 0
IsAt f isn p n seq bytes = (seq ≡ (isn + p) % word) × (bytes ≡ slice f p n)

-- Segments of the stream between the positions `lo` and `hi`, none empty, in order and apart.
abbrev pub InStream : (ℕ → ℕ) → ℕ → ℕ → ℕ → List OooSeg → Type 0
InStream f isn lo hi [] = lo ≤ hi
InStream f isn lo hi (s ∷ segs) =
    (p : ℕ) × (n : ℕ) × IsAt f isn p n s.seq s.bytes
    × (lo ≤ p)
    × (0 < n)
    × InStream f isn (p + n) hi segs

module _ (f : ℕ → ℕ) (isn : ℕ) where
  pub InStream-widen :
      (lo lo' hi hi' : ℕ) (segs : List OooSeg)
      → lo' ≤ lo
      → hi ≤ hi'
      → InStream f isn lo hi segs
      → InStream f isn lo' hi' segs
  InStream-widen lo lo' hi hi' [] low high h = omega (arith, h)
  InStream-widen lo lo' hi hi' (s ∷ segs) low high (p, n, at, le, some_bytes, rest) = (
    p,
    n,
    at,
    omega arith,
    some_bytes,
    InStream-widen (p + n) (p + n) hi hi' segs (omega arith) high rest,
  )

  pub InStream-le : (lo hi : ℕ) (segs : List OooSeg) → InStream f isn lo hi segs → lo ≤ hi
  InStream-le lo hi [] h = h
  InStream-le lo hi (s ∷ segs) (p, n, at, le, some_bytes, rest) =
      omega (arith, InStream-le (p + n) hi segs rest)

  pub InStream-append :
      (lo mid mid' hi : ℕ) (xs ys : List OooSeg)
      → mid ≤ mid'
      → InStream f isn lo mid xs
      → InStream f isn mid' hi ys
      → InStream f isn lo hi (xs ++ ys)
  InStream-append lo mid mid' hi [] ys le h g =
      InStream-widen mid' lo hi hi ys (omega (arith, h)) (omega arith) g
  InStream-append lo mid mid' hi (s ∷ xs) ys le (p, n, at, low, some_bytes, rest) g =
      (p, n, at, low, some_bytes, InStream-append (p + n) mid mid' hi xs ys le rest g)

  -- where a segment ends
  pub seg_end_at :
      (p n : ℕ) (s : OooSeg) → IsAt f isn p n s.seq s.bytes → seg_end s ≡ (isn + (p + n)) % word
  seg_end_at p n s at =
      ap (add32 s.seq) (ap length at.1 ∙ length-slice f p n) ∙ add_at isn s.seq p n at.0

  -- Splitting at the position `q`.
  module _ (r q hi start : ℕ) (at : start ≡ (isn + q) % word) (near : hi ≤ r + 2 ^ 30) (low : r ≤ q)
      (high : q ≤ hi) where
    pub ends_by-InStream :
        (lo : ℕ) (segs : List OooSeg)
        → r ≤ lo
        → lo ≤ q
        → InStream f isn lo hi segs
        → InStream f isn lo q (ends_by start segs)
    unfolding ends_by
    ends_by-InStream lo [] rl lq h = lq
    ends_by-InStream lo (s ∷ segs) rl lq (p, n, here, le, some_bytes, rest) =
        let room = InStream-le (p + n) hi segs rest in
        let test =
          le_at isn (p + n) q (seg_end_at p n s here) at
            (omega (arith, room), omega (arith, room)) in
        elim (Bool-cases (leb (p + n) q)) [
          | inl e ↦
              rw (test, e)
                (
                  p,
                  n,
                  here,
                  le,
                  some_bytes,
                  ends_by-InStream (p + n) segs (omega arith) (ground (arith, e)) rest,
                )
          | inr e ↦ rw (test, e) lq
        ]

    pub ends_after-InStream :
        (lo : ℕ) (segs : List OooSeg)
        → r ≤ lo
        → InStream f isn lo hi segs
        → InStream f isn lo hi (ends_after start segs)
    unfolding ends_after
    ends_after-InStream lo [] rl h = h
    ends_after-InStream lo (s ∷ segs) rl (p, n, here, le, some_bytes, rest) =
        let room = InStream-le (p + n) hi segs rest in
        let test =
          le_at isn (p + n) q (seg_end_at p n s here) at
            (omega (arith, room), omega (arith, room)) in
        elim (Bool-cases (leb (p + n) q)) [
          | inl e ↦
              rw (test, e)
                (InStream-widen (p + n) lo hi hi (ends_after start segs) (omega arith) (omega arith)
                  (ends_after-InStream (p + n) segs (omega arith) rest))
          | inr e ↦ rw (test, e) (p, n, here, le, some_bytes, rest)
        ]

  pub ends-bytes_in :
      (start : ℕ) (segs : List OooSeg)
      → bytes_in (ends_by start segs) + bytes_in (ends_after start segs) ≡ bytes_in segs
  unfolding ends_by ends_after
  ends-bytes_in start [] = refl
  ends-bytes_in start (s ∷ segs) = ground (arith, ends-bytes_in start segs)
