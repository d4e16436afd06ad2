-- ===== src/Tcp/Delivery/Receive.antt =====
-- What `tcpstack_input` of src/tcpstack.c does with the data of a segment.
use wgx.Base.{
  ℕ, ◌+◌, ◌-◌, ◌%◌, ◌<◌, ◌≤◌, ◌≡◌, ==_iff, ap, sym, ◌∙◌, arith, inl, inr, Bool, true, false, ◌==◌,
  ◌||◌, ltb, leb, Bool-cases, if◌then◌else◌, length, drop,
}
use wgx.Base.Bytes.{Bytes}
use wgx.Tcp.Seq.{word, add32, sub32}
use wgx.Tcp.Types.{Conn, App}
use wgx.Tcp.Reassembly.Stream.{slice, length-slice, drop-slice, lt_at, gt_at, sub_at, add_at}
use wgx.Tcp.Reassembly.Queue.{IsAt}
use wgx.Tcp.Reassembly.Place.{tcp_ooo_queue-IsQueue}
use wgx.Tcp.Conn.{tcp_ack_now, tcp_ack_data}
use wgx.Tcp.Input.{deliver, drain_loop, tcp_ooo_drain, take_data, queue_data, receive_data}
use wgx.Tcp.Delivery.{IsQuiet}
use wgx.Tcp.Delivery.Quiet.{tcp_ack_now-Undisturbed, tcp_ack_data-Undisturbed}
use wgx.Tcp.Delivery.Order.{
  limit, queue_of, InOrder, InOrder-Undisturbed, IsDue, deliver-InOrder, Later, drain_loop-Later,
}

-- Where the data of a segment brings a receiver at `r`: to its end, where nothing is missing before
-- it.
abbrev pub reached : ℕ → ℕ → ℕ → ℕ
reached r p n = if leb p r then p + n else 0

-- What comes of a segment's data: a later position, and `end` at least.
abbrev pub Received : (ℕ → ℕ) → ℕ → ℕ → ℕ → Conn → Type 0
Received f isn r end c = (r' : ℕ) × (r ≤ r') × (end ≤ r') × InOrder f isn r' c

module _ (f : ℕ → ℕ) (isn : ℕ) (app : App) (quiet : IsQuiet app) where
  pub take_data-Later :
      (r n : ℕ) (payload : Bytes) (now : Bool) (c : Conn)
      → InOrder f isn r c
      → payload ≡ slice f r n
      → r + n ≤ limit
      → Later f isn (r + n) (take_data app payload now c)
  unfolding take_data tcp_ooo_drain
  take_data-Later r n payload now c h here fits =
      let moved = record c { rcv_nxt = add32 c.rcv_nxt (length payload) } in
      let size : length payload ≡ n = ap length here ∙ length-slice f r n in
      let due : IsDue f isn r n payload moved = record {
        next = ap (add32 c.rcv_nxt) size ∙ add_at isn c.rcv_nxt r n h.next;
        small = fits;
        got = h.got;
        here = here;
        queue = h.queue;
        listens = h.listens;
        opened = h.opened;
      } in
      let told = deliver app payload moved in
      let (r', le, ordered) =
        drain_loop-Later f isn app quiet (length told.rcv_ooo) (r + n) told 0
          (deliver-InOrder f isn app quiet r n payload moved due) in
      let drained = drain_loop app (length told.rcv_ooo) told 0 in
      (
        r',
        le,
        InOrder-Undisturbed f isn r' drained.0
            (tcp_ack_data app drained.0 (length payload + drained.1) (now || ltb 0 drained.1))
            ordered
            (tcp_ack_data-Undisturbed app drained.0 (length payload + drained.1)
              (now || ltb 0 drained.1)),
      )

  queue_data-InOrder :
      (r p n : ℕ) (mem : Bool) (seq : ℕ) (payload : Bytes) (c : Conn)
      → InOrder f isn r c
      → IsAt f isn p n seq payload
      → p + n ≤ limit
      → InOrder f isn r (queue_data app mem seq payload c)
  unfolding queue_data
  queue_data-InOrder r p n mem seq payload c h at fits = record {
    next = h.next;
    small = h.small;
    got = h.got;
    queue =
        tcp_ooo_queue-IsQueue f isn 0 r limit p n mem c.rcv_nxt (queue_of c) seq payload h.next at
          (omega arith, h.small, omega arith, fits, omega arith) h.queue;
    listens = h.listens;
    opened = h.opened;
  }

  behind_of :
      (r p a b : ℕ) → a ≡ (isn + p) % word → b ≡ (isn + r) % word → (a == b) ≡ false → p ≤ r → p < r
  behind_of r p a b at bt apart le = elim (Bool-cases (p == r)) [
    | inl same ↦
        let e : p ≡ r = ground (arith, same) in
        absurd (ground (arith, apart, at ∙ (ap (λ (t : ℕ). (isn + t) % word) e ∙ sym bt)))
    | inr other ↦ ground (arith, other, le)
  ]

  pub receive_data-Received :
      (r p n : ℕ) (mem : Bool) (seq : ℕ) (payload : Bytes) (c : Conn)
      → InOrder f isn r c
      → IsAt f isn p n seq payload
      → p + n ≤ limit
      → Received f isn r (reached r p n) (receive_data app mem seq payload c)
  receive_data-Received r p n mem seq payload c h at fits =
      let size : length payload ≡ n = ap length at.1 ∙ length-slice f p n in
      let gap = gt_at isn p r at.0 h.next (omega (arith, h.small), omega (arith, h.small)) in
      let old = lt_at isn p r at.0 h.next (omega (arith, h.small), omega (arith, h.small)) in
      elim (Bool-cases (length payload == 0)) [
        | inl e ↦
            let same : receive_data app mem seq payload c ≡ c =
              unfold receive_data in ground (arith, e) in
            rw same (r, omega arith, ground (arith, e, size), h)
        | inr full ↦ elim (Bool-cases (seq == c.rcv_nxt)) [
          | inl e ↦
              let here : p ≡ r = omega (arith, (==_iff seq c.rcv_nxt).0 e, at.0, h.next, h.small) in
              let same : receive_data app mem seq payload c ≡ take_data app payload false c =
                unfold receive_data in ground (arith, full, e) in
              let (r', le, ordered) =
                take_data-Later r n payload false c h (at.1 ∙ ap (λ (t : ℕ). slice f t n) here)
                  (omega (arith, here)) in
              rw same (r', omega (arith, le), ground (arith, here, le), ordered)
          | inr apart ↦ elim (Bool-cases (ltb r p)) [
            | inl missing ↦
                let queued = queue_data app mem seq payload c in
                let same : receive_data app mem seq payload c ≡ tcp_ack_now app queued =
                  unfold receive_data in ground (arith, full, apart, gap, missing) in
                rw same (
                  r,
                  omega arith,
                  ground (arith, missing),
                  InOrder-Undisturbed f isn r queued (tcp_ack_now app queued)
                      (queue_data-InOrder r p n mem seq payload c h at fits)
                      (tcp_ack_now-Undisturbed app queued),
                )
            | inr reaches ↦
                let behind : p < r =
                  behind_of r p seq c.rcv_nxt at.0 h.next apart (ground (arith, reaches)) in
                let k : sub32 c.rcv_nxt seq ≡ r - p =
                  sub_at isn r p h.next at.0 (omega (arith, behind)) (omega (arith, h.small)) in
                elim (Bool-cases (ltb (r - p) n)) [
                  | inl tail ↦
                      let rest : drop (r - p) payload ≡ slice f r (n - (r - p)) =
                        ap (drop (r - p)) at.1
                        ∙ (drop-slice f p n (r - p) (ground (arith, tail))
                            ∙ ap (λ (t : ℕ). slice f t (n - (r - p))) {x = p + (r - p)} {y = r}
                                (omega (arith, behind))) in
                      let same : receive_data app mem seq payload c
                          ≡ take_data app (drop (r - p) payload) true c =
                        unfold receive_data in
                        ground (
                          arith,
                          full,
                          apart,
                          gap,
                          reaches,
                          old,
                          behind,
                          k,
                          tail,
                          size,
                          ap (λ (t : ℕ). take_data app (drop t payload) true c) k,
                        ) in
                      let (r', le, ordered) =
                        take_data-Later r (n - (r - p)) (drop (r - p) payload) true c h rest
                          (ground (arith, fits, behind, tail)) in
                      rw same (r', omega (arith, le), ground (arith, le, tail, behind), ordered)
                  | inr passed ↦
                      let same : receive_data app mem seq payload c ≡ tcp_ack_now app c =
                        unfold receive_data in
                        ground (arith, full, apart, gap, reaches, old, behind, k, passed, size) in
                      rw same (
                        r,
                        omega arith,
                        ground (arith, passed, behind),
                        InOrder-Undisturbed f isn r c (tcp_ack_now app c) h
                            (tcp_ack_now-Undisturbed app c),
                      )
                ]
          ]
        ]
      ]
