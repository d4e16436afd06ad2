-- ===== src/Tcp/Sendbuf/Moves.antt =====
-- Bytes that enter, are read from and leave the send buffer of src/tcpstack.c.
use wgx.Base.{
  ℕ, ◌+◌, ◌-◌, ◌%◌, ◌<◌, ◌≤◌, ◌≡◌, refl, ap, sym, ◌∙◌, inl, inr, arith, ◌&&◌, min, ◌++◌, ltb, leb,
  Bool-cases, if◌then◌else◌, length, take, drop, get_or, length-append, length-take, length-drop,
  take-length, [], true,
}
use wgx.Base.Bytes.{Bytes}
use wgx.Tcp.Types.{Sendbuf}
use wgx.Tcp.Sendbuf.{write, ring_copy, sendbuf_append, sendbuf_copy_out, sendbuf_consume}
use wgx.Tcp.Sendbuf.Ring.{
  length-write, eq_of_get_or, get_or-write, get_or-append, get_or-take, get_or-drop, mod_turn,
  length-ring_copy, get_or-ring_copy,
}
use wgx.Tcp.Sendbuf.Refine.{IsRing, contents, length-contents, get_or-contents}

-- Where bytes that are appended go: the two copies write them round the end of the ring.
module _ (b : Sendbuf) (src : Bytes) (r : IsRing b) (room : b.len + length src ≤ b.cap) where
  abbrev tail : ℕ
  tail = (b.head + b.len) % b.cap

  abbrev first : ℕ
  first = min (b.cap - tail) (length src)

  tail_turn : tail ≡ (if ltb (b.head + b.len) b.cap then b.head + b.len else b.head + b.len - b.cap)
  tail_turn = mod_turn (b.head + b.len) b.cap (omega (arith, r.head_fits, r.fits))

  abbrev once : Bytes
  once = write b.bytes tail (take first src)

  pub sendbuf_append-IsRing : IsRing (sendbuf_append b src)
  unfolding sendbuf_append
  sendbuf_append-IsRing = record {
    whole =
        length-write once 0 (drop first src)
        ∙ (length-write b.bytes tail (take first src) ∙ r.whole);
    not_empty = r.not_empty;
    bounded = r.bounded;
    head_fits = r.head_fits;
    fits = room;
  }

  get_or-appended :
      (k : ℕ)
      → k < b.cap
      → get_or (sendbuf_append b src).bytes k 0 ≡ (
          if ltb k (length src - first)
          then get_or src (first + k) 0
          else (if leb tail k && ltb k (tail + first)
              then get_or src (k - tail) 0
              else get_or b.bytes k 0))
  unfolding sendbuf_append
  get_or-appended k lt = ground (
    arith,
    tail_turn,
    r.whole,
    r.head_fits,
    r.not_empty,
    length-take {0} first src,
    length-drop {0} first src,
    length-write b.bytes tail (take first src),
    get_or-write once 0 (drop first src) k (
        ground (
          arith,
          tail_turn,
          r.whole,
          r.head_fits,
          length-drop {0} first src,
          length-write b.bytes tail (take first src),
        )),
    get_or-write b.bytes tail (take first src) k
        (ground (arith, tail_turn, r.whole, r.head_fits, length-take {0} first src)),
    get_or-take first src (k - tail),
    get_or-drop first src k,
  )

  appended_at :
      (i : ℕ)
      → i < b.len + length src
      → get_or (sendbuf_append b src).bytes ((b.head + i) % b.cap) 0 ≡ (
          if ltb i b.len then get_or b.bytes ((b.head + i) % b.cap) 0 else get_or src (i - b.len) 0)
  appended_at i lt =
      let turn = mod_turn (b.head + i) b.cap (omega (arith, r.head_fits, room)) in
      ground (
        arith,
        turn,
        tail_turn,
        room,
        r.head_fits,
        r.fits,
        get_or-appended ((b.head + i) % b.cap) (ground (arith, turn, r.head_fits, room)),
        ap (λ (t : ℕ). get_or src t 0) {x = (b.head + i) % b.cap - tail} {y = i - b.len},
        ap (λ (t : ℕ). get_or src t 0) {x = first + (b.head + i) % b.cap} {y = i - b.len},
      )

  length-appended : (sendbuf_append b src).len ≡ b.len + length src
  unfolding sendbuf_append
  length-appended = refl

  get_or-contents_appended :
      (i : ℕ)
      → i < b.len + length src
      → get_or (contents (sendbuf_append b src)) i 0 ≡ get_or (contents b ++ src) i 0
  get_or-contents_appended i lt =
      get_or-contents (sendbuf_append b src) sendbuf_append-IsRing i
        (omega (arith, length-appended))
      ∙ (same_place
          ∙ (appended_at i lt
              ∙ sym (
                  get_or-append (contents b) src i
                  ∙ ground (arith, length-contents b r, get_or-contents b r i))))
    where
      same_place :
          get_or
            (sendbuf_append b src).bytes
            (((sendbuf_append b src).head + i) % (sendbuf_append b src).cap)
            0
          ≡ get_or (sendbuf_append b src).bytes ((b.head + i) % b.cap) 0
      same_place = unfold sendbuf_append in refl

  -- Appending puts the bytes behind those that the buffer holds.
  pub contents-sendbuf_append : contents (sendbuf_append b src) ≡ contents b ++ src
  contents-sendbuf_append =
      let len = length-contents (sendbuf_append b src) sendbuf_append-IsRing ∙ length-appended in
      eq_of_get_or (contents (sendbuf_append b src)) (contents b ++ src)
        (len
          ∙ sym (
              length-append (contents b) src
              ∙ ap (λ (t : ℕ). t + length src) (length-contents b r)))
        (λ i lt. get_or-contents_appended i (omega (arith, lt, len)))

module _ (b : Sendbuf) (r : IsRing b) where
  -- Copying out reads the bytes that the buffer holds, and leaves them.
  pub sendbuf_copy_out_lem :
      (off len : ℕ)
      → off + len ≤ b.len
      → sendbuf_copy_out b off len ≡ take len (drop off (contents b))
  unfolding sendbuf_copy_out
  sendbuf_copy_out_lem off len fits =
      let turn = mod_turn (b.head + off) b.cap (omega (arith, r.head_fits, r.fits)) in
      let pos_fits : (b.head + off) % b.cap < b.cap = omega (arith, r.not_empty) in
      let small : len ≤ b.cap = omega (arith, r.fits) in
      let size =
        length-ring_copy b.bytes b.cap ((b.head + off) % b.cap) len r.whole pos_fits small in
      eq_of_get_or (ring_copy b.bytes b.cap ((b.head + off) % b.cap) len)
        (take len (drop off (contents b)))
        (size
          ∙ omega (
            arith,
            length-take {0} len (drop off (contents b)),
            length-drop {0} off (contents b),
            length-contents b r,
          ))
        (λ i lt.
          let inside : i < len = omega (arith, lt, size) in
          get_or-ring_copy b.bytes b.cap ((b.head + off) % b.cap) len r.whole pos_fits small i
            inside
          ∙ (ap (λ (t : ℕ). get_or b.bytes t 0) {y = (b.head + (off + i)) % b.cap}
                (ground (
                  arith,
                  turn,
                  r.head_fits,
                  r.fits,
                  mod_turn ((b.head + off) % b.cap + i) b.cap (omega (arith, r.fits)),
                  mod_turn (b.head + (off + i)) b.cap (omega (arith, r.head_fits, r.fits)),
                ))
              ∙ sym (
                  get_or-take len (drop off (contents b)) i
                  ∙ ground (
                    arith,
                    get_or-drop off (contents b) i,
                    get_or-contents b r (off + i) (omega arith),
                  ))))

  pub sendbuf_consume-IsRing : (n : ℕ) → IsRing (sendbuf_consume b n)
  unfolding sendbuf_consume
  sendbuf_consume-IsRing n = elim (Bool-cases (leb b.len n)) [
    | inl e ↦ rw e (record {
      whole = r.whole;
      not_empty = r.not_empty;
      bounded = r.bounded;
      head_fits = r.not_empty;
      fits = omega arith;
    })
    | inr e ↦ rw e (record {
      whole = r.whole;
      not_empty = r.not_empty;
      bounded = r.bounded;
      head_fits = omega (arith, r.not_empty);
      fits = omega (arith, r.fits);
    })
  ]

  -- Consuming drops the oldest bytes.
  pub contents-sendbuf_consume : (n : ℕ) → contents (sendbuf_consume b n) ≡ drop n (contents b)
  unfolding sendbuf_consume
  contents-sendbuf_consume n = elim (Bool-cases (leb b.len n)) [
    | inl e ↦
        ap contents {x = sendbuf_consume b n} {y = record b { head = 0; len = 0 }} (rw e)
        ∙ (empty_copy ∙ sym (drop_all e))
    | inr e ↦
        let covers : n + (b.len - n) ≤ b.len = ground (arith, e) in
        ap contents {x = sendbuf_consume b n}
          {y = record b { head = (b.head + n) % b.cap; len = b.len - n }} (rw e)
        ∙ (copied
            ∙ (sendbuf_copy_out_lem n (b.len - n) covers
                ∙ take-length (b.len - n) (drop n (contents b))
                    (omega (arith, length-drop {0} n (contents b), length-contents b r))))
  ]
    where
      empty_copy : ring_copy b.bytes b.cap 0 0 ≡ []
      empty_copy = ground arith

      drop_all : leb b.len n ≡ true → drop n (contents b) ≡ []
      drop_all e =
          eq_of_get_or (drop n (contents b)) []
            (ground (arith, e, length-drop {0} n (contents b), length-contents b r))
            (λ i lt.
              absurd (ground (arith, e, length-drop {0} n (contents b), length-contents b r)))

      copied :
          ring_copy b.bytes b.cap ((b.head + n) % b.cap) (b.len - n)
          ≡ sendbuf_copy_out b n (b.len - n)
      copied = unfold sendbuf_copy_out in refl
