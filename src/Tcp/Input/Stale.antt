-- ===== src/Tcp/Input/Stale.antt =====
-- A queued segment that data in order has passed, in `tcp_ooo_drain` of src/tcpstack.c.
use wgx.Base.{
  ℕ, zero, suc, ◌+◌, ◌%◌, ◌^◌, ◌<◌, ◌≡◌, refl, ◌∙◌, arith, inl, inr, false, List, [], ◌∷◌, ◌==◌,
  ==_iff, Bool-cases, length,
}
use wgx.Base.Bytes.{Bytes}
use wgx.Tcp.Seq.{word, add32}
use wgx.Tcp.Types.{OooSeg, Conn, App, Event}
use wgx.Tcp.Reassembly.Stream.{add_at}
use wgx.Tcp.Conn.{emit, tcp_ack_data}
use wgx.Tcp.Input.{deliver, drain_loop, tcp_ooo_drain, take_data}
use wgx.Tcp.Delivery.{IsQuiet}
use wgx.Tcp.Delivery.Quiet.{tcp_ack_data-Undisturbed}

module _ (app : App) (quiet : IsQuiet app) (isn p : ℕ) where
  -- segments that come in order, one after the other
  unfoldable pub takes : List Bytes → Conn → Conn
  takes [] c = c
  takes (bytes ∷ more) c = takes more (take_data app bytes false c)

  abbrev pub total : List Bytes → ℕ
  total [] = 0
  total (bytes ∷ more) = length bytes + total more

  -- The head of the queue begins at `p`, before what is expected.
  record IsStale (r : ℕ) (s : OooSeg) (segs : List OooSeg) (c : Conn) : Type 0 where
    head : c.rcv_ooo ≡ s ∷ segs
    at : s.seq ≡ (isn + p) % word
    next : c.rcv_nxt ≡ (isn + r) % word
    behind : p < r

  deliver-receiver :
      (bytes : Bytes) (c : Conn)
      → ((deliver app bytes c).rcv_ooo ≡ c.rcv_ooo) × ((deliver app bytes c).rcv_nxt ≡ c.rcv_nxt)
  unfolding deliver
  deliver-receiver bytes c =
      let h = quiet.receives bytes (emit (Event.received bytes) c) in
      (ground (arith, h), ground (arith, h))

  drain_loop-stale :
      (fuel r : ℕ) (s : OooSeg) (segs : List OooSeg) (c : Conn) (drained : ℕ)
      → IsStale r s segs c
      → r < p + word
      → drain_loop app fuel c drained ≡ (c, drained)
  unfolding drain_loop
  drain_loop-stale zero r s segs c drained h lt = refl
  drain_loop-stale (suc fuel) r s segs c drained h lt =
      let apart : (s.seq == c.rcv_nxt) ≡ false = elim (Bool-cases (s.seq == c.rcv_nxt)) [
        | inl e ↦ absurd (omega (arith, (==_iff s.seq c.rcv_nxt).0 e, h.at, h.next, h.behind, lt))
        | inr e ↦ e
      ] in
      ground (arith, h.head, apart)

  take_data-IsStale :
      (r : ℕ) (s : OooSeg) (segs : List OooSeg) (bytes : Bytes) (c : Conn)
      → IsStale r s segs c
      → r + length bytes < p + word
      → IsStale (r + length bytes) s segs (take_data app bytes false c)
  take_data-IsStale r s segs bytes c h lt =
      let moved = record c { rcv_nxt = add32 c.rcv_nxt (length bytes) } in
      let told = deliver app bytes moved in
      let kept = deliver-receiver bytes moved in
      let stale : IsStale (r + length bytes) s segs told = record {
        head = kept.0 ∙ h.head;
        at = h.at;
        next = kept.1 ∙ add_at isn c.rcv_nxt r (length bytes) h.next;
        behind = omega (arith, h.behind);
      } in
      let nothing =
        drain_loop-stale (length told.rcv_ooo) (r + length bytes) s segs told 0 stale lt in
      let same : take_data app bytes false c ≡ tcp_ack_data app told (length bytes + 0) false =
        unfold take_data tcp_ooo_drain in rw nothing refl in
      let u = tcp_ack_data-Undisturbed app told (length bytes + 0) false in
      rw same (record {
        head = u.ooo ∙ stale.head;
        at = h.at;
        next = u.nxt ∙ stale.next;
        behind = stale.behind;
      })

  -- Once what is expected has passed the start of the first queued segment, data that comes in
  -- order leaves the queue as it is: nothing of it is taken out or delivered, until the numbers
  -- come round, 2 ^ 32 bytes later. The callbacks leave the receiving side alone.
  pub stale_head_stays :
      (more : List Bytes) (r : ℕ) (s : OooSeg) (segs : List OooSeg) (c : Conn)
      → c.rcv_ooo ≡ s ∷ segs
      → s.seq ≡ (isn + p) % 2 ^ 32
      → c.rcv_nxt ≡ (isn + r) % 2 ^ 32
      → p < r
      → r + total more < p + 2 ^ 32
      → (takes more c).rcv_ooo ≡ s ∷ segs
  unfolding takes
  stale_head_stays [] r s segs c head at next behind lt = head
  stale_head_stays (bytes ∷ more) r s segs c head at next behind lt =
      let h =
        take_data-IsStale r s segs bytes c
          (record { head = head; at = at; next = next; behind = behind }) (omega (arith, lt)) in
      stale_head_stays more (r + length bytes) s segs (take_data app bytes false c) h.head at h.next
        h.behind (omega (arith, lt))
