-- ===== src/Tcp/Delivery/Order.antt =====
-- Data that arrives at a connection of src/tcpstack.c, in any order, reaches the application in the
-- order of the stream.
use mathlib.Core.Path.{subst}
use wgx.Base.{
  ℕ, zero, suc, ◌+◌, ◌%◌, ◌^◌, ◌≤◌, ◌≡◌, ◌⊎◌, ==_iff, refl, ap, ◌∙◌, arith, inl, inr, true, false,
  List, [], ◌∷◌, ◌++◌, ◌==◌, Bool-cases, if◌then◌else◌, length,
}
use wgx.Base.Bytes.{Bytes}
use wgx.Tcp.Seq.{word, add32, sub32}
use wgx.Tcp.Types.{OooSeg, Conn, App, Event, syn_sent}
use wgx.Tcp.Reassembly.{Ooo}
use wgx.Tcp.Reassembly.Stream.{slice, length-slice, slice-append, add_at}
use wgx.Tcp.Reassembly.Queue.{bytes_in, IsAt, InStream, InStream-widen, InStream-le}
use wgx.Tcp.Reassembly.Place.{IsQueue}
use wgx.Tcp.Conn.{is_state, emit}
use wgx.Tcp.Input.{deliver, drain_loop}
use wgx.Tcp.Delivery.{heard, Undisturbed, IsQuiet}
use wgx.Tcp.Delivery.Quiet.{heard-append, append-nil}

-- the part of the stream that the theorems are about
abbrev pub limit : ℕ
limit = 2 ^ 30

abbrev pub queue_of : Conn → Ooo
queue_of c = record { segs = c.rcv_ooo; total = c.rcv_ooo_len }

pub List-cases {ℓ} :
    {A : Type ℓ} (xs : List A) → (xs ≡ []) ⊎ ((x : A) × (rest : List A) × (xs ≡ x ∷ rest))
List-cases [] = inl refl
List-cases (x ∷ rest) = inr (x, rest, refl)

module _ (f : ℕ → ℕ) (isn : ℕ) where
  -- The application was given the first `r` bytes of the stream, the next is expected, and what is
  -- queued is of the stream.
  pub record InOrder (r : ℕ) (c : Conn) : Type 0 where
    pub next : c.rcv_nxt ≡ (isn + r) % word
    pub small : r ≤ limit
    pub got : heard c.log ≡ slice f 0 r
    pub queue : IsQueue f isn 0 limit (queue_of c)
    pub listens : c.on_data ≡ true
    pub opened : is_state c.state syn_sent ≡ false

  pub InOrder-Undisturbed : (r : ℕ) (c c' : Conn) → InOrder r c → Undisturbed c c' → InOrder r c'
  InOrder-Undisturbed r c c' h g = record {
    next = g.nxt ∙ h.next;
    small = h.small;
    got = g.same_heard ∙ h.got;
    queue = record {
      in_stream = rw g.ooo h.queue.in_stream;
      counted = rw (g.ooo, g.ooo_len) h.queue.counted;
      bounded = rw g.ooo_len h.queue.bounded;
    };
    listens = g.listens ∙ h.listens;
    opened = g.opened h.opened;
  }

  -- Before the delivery of `bytes`: they are the next of the stream, and are counted already.
  pub record IsDue (r n : ℕ) (bytes : Bytes) (c : Conn) : Type 0 where
    pub next : c.rcv_nxt ≡ (isn + (r + n)) % word
    pub small : r + n ≤ limit
    pub got : heard c.log ≡ slice f 0 r
    pub here : bytes ≡ slice f r n
    pub queue : IsQueue f isn 0 limit (queue_of c)
    pub listens : c.on_data ≡ true
    pub opened : is_state c.state syn_sent ≡ false

  -- A later position, in order.
  abbrev pub Later : ℕ → Conn → Type 0
  Later r c = (r' : ℕ) × (r ≤ r') × InOrder r' c

  module _ (app : App) (quiet : IsQuiet app) where
    pub deliver-InOrder :
        (r n : ℕ) (bytes : Bytes) (c : Conn)
        → IsDue r n bytes c
        → InOrder (r + n) (deliver app bytes c)
    unfolding deliver
    deliver-InOrder r n bytes c h =
        let told = emit (Event.received bytes) c in
        let all : heard (c.log ++ (Event.received bytes ∷ [])) ≡ slice f 0 (r + n) =
          heard-append c.log (Event.received bytes ∷ [])
          ∙ (ap (λ (t : Bytes). heard c.log ++ t) (append-nil bytes ∙ h.here)
              ∙ (ap (λ (t : Bytes). t ++ slice f r n) h.got
                  ∙ (ap (λ (t : ℕ). slice f 0 r ++ slice f t n) {x = r} {y = 0 + r} (omega arith)
                      ∙ slice-append f 0 r n))) in
        let heard_it : InOrder (r + n) told = record {
          next = h.next;
          small = h.small;
          got = all;
          queue = h.queue;
          listens = h.listens;
          opened = h.opened;
        } in
        let told_on =
          InOrder-Undisturbed (r + n) told (app.receive bytes told) heard_it
            (quiet.receives bytes told) in
        let same : (if c.on_data then app.receive bytes told else c) ≡ app.receive bytes told =
          ground (arith, h.listens) in
        rw same told_on

    -- What is due next: the first queued segment, where its number is the expected one.
    head-IsDue :
        (r p n : ℕ) (s : OooSeg) (segs : List OooSeg) (c : Conn)
        → InOrder r c
        → c.rcv_ooo ≡ s ∷ segs
        → s.seq ≡ c.rcv_nxt
        → IsAt f isn p n s.seq s.bytes
        → InStream f isn (p + n) limit segs
        → bytes_in segs + n ≡ c.rcv_ooo_len
        → IsDue r n s.bytes (record c {
          rcv_ooo = segs;
          rcv_ooo_len = sub32 c.rcv_ooo_len (length s.bytes);
          rcv_nxt = add32 c.rcv_nxt (length s.bytes);
        })
    head-IsDue r p n s segs c h shape due at rest count =
        let fits = InStream-le f isn (p + n) limit segs rest in
        let size : length s.bytes ≡ n = ap length at.1 ∙ length-slice f p n in
        let same : p ≡ r = omega (arith, due, at.0, h.next, h.small, fits) in
        record {
          next = ap (add32 c.rcv_nxt) size ∙ add_at isn c.rcv_nxt r n h.next;
          small = omega (arith, same, fits);
          got = h.got;
          here = at.1 ∙ ap (λ (t : ℕ). slice f t n) same;
          queue = record {
            in_stream =
                InStream-widen f isn (p + n) 0 limit limit segs (omega arith) (omega arith) rest;
            counted = omega (arith, count, size, h.queue.bounded);
            bounded = omega (arith, count, size, h.queue.bounded);
          };
          listens = h.listens;
          opened = h.opened;
        }

    pub drain_loop-Later :
        (fuel r : ℕ) (c : Conn) (drained : ℕ)
        → InOrder r c
        → Later r (drain_loop app fuel c drained).0
    unfolding drain_loop
    drain_loop-Later zero r c drained h = (r, omega arith, h)
    drain_loop-Later (suc fuel) r c drained h = elim (Bool-cases c.being_freed) [
      | inl e ↦ stop (ground (arith, e))
      | inr alive ↦ elim (List-cases c.rcv_ooo) [
        | inl none_left ↦ stop (ground (arith, alive, none_left))
        | inr (s, segs, shape) ↦ elim (Bool-cases (s.seq == c.rcv_nxt)) [
          | inr gap ↦ stop (ground (arith, alive, shape, gap))
          | inl due ↦
              go (λ r' c' d h'. drain_loop-Later fuel r' c' d h') s segs alive shape due
                (subst (InStream f isn 0 limit) shape h.queue.in_stream)
        ]
      ]
    ]
      where
        stop :
            drain_loop app (suc fuel) c drained ≡ (c, drained)
            → Later r (drain_loop app (suc fuel) c drained).0
        stop e = rw e (r, omega arith, h)

        go :
            ((r' : ℕ) (c' : Conn) (d : ℕ) → InOrder r' c' → Later r' (drain_loop app fuel c' d).0)
            → (s : OooSeg) (segs : List OooSeg) → c.being_freed ≡ false
            → c.rcv_ooo ≡ s ∷ segs
            → (s.seq == c.rcv_nxt) ≡ true
            → InStream f isn 0 limit (s ∷ segs)
            → Later r (drain_loop app (suc fuel) c drained).0
        go again s segs alive shape due (p, n, at, low, full, rest) =
            let taken = record c {
              rcv_ooo = segs;
              rcv_ooo_len = sub32 c.rcv_ooo_len (length s.bytes);
              rcv_nxt = add32 c.rcv_nxt (length s.bytes);
            } in
            let size : length s.bytes ≡ n = ap length at.1 ∙ length-slice f p n in
            let count : bytes_in segs + n ≡ c.rcv_ooo_len =
              omega (arith, size, h.queue.counted, ap bytes_in shape) in
            let ready =
              head-IsDue r p n s segs c h shape ((==_iff s.seq c.rcv_nxt).0 due) at rest count in
            let (r', le, ordered) =
              again (r + n) (deliver app s.bytes taken) (add32 drained (length s.bytes))
                (deliver-InOrder r n s.bytes taken ready) in
            let step : drain_loop app (suc fuel) c drained
                ≡ drain_loop app fuel (deliver app s.bytes taken) (add32 drained (length s.bytes)) =
              ground (arith, alive, shape, due) in
            rw step (r', omega (arith, le), ordered)
