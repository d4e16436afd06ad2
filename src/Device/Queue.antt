-- ===== src/Device/Queue.antt =====
-- The packets that wait for a handshake in src/device.c: a ring of the peer, as a queue.
use wgx.Base.{ℕ, zero, suc, ◌+◌, ◌-◌, ◌%◌, ◌<◌, ◌≤◌, ◌≡◌, ◌≢◌, refl, ap, sym, ◌∙◌, arith, Bool}
use mathlib.Core.Path.{subst}
use wgx.Base.{
  leb, ◌&&◌, Bool-cases, inl, inr, List, [], ◌∷◌, ◌++◌, ltb, if◌then◌else◌, length, set, get_or,
  get_or-set_self, get_or-set_ne, length-set,
}
use wgx.Base.Bytes.{Bytes}
use wgx.Peer.{Staged}
use wgx.Device.Send.{stage_packet, unstage, peer_queue_size, default_mtu}

-- `n` packets of the ring, from the position `i` on
abbrev pub window : List Bytes → ℕ → ℕ → List Bytes
window ring i zero = []
window ring i (suc n) = get_or ring (i % peer_queue_size) [] ∷ window ring (i + 1) n

-- the packets that wait, the oldest first
abbrev pub waiting : Staged → List Bytes
waiting q = window q.packets q.head q.count

-- The ring has its slots, and the tail is where the packets end.
pub record IsRing (q : Staged) : Type 0 where
  pub slots : length q.packets ≡ peer_queue_size
  pub head_fits : q.head < peer_queue_size
  pub ends : q.tail ≡ (q.head + q.count) % peer_queue_size
  pub fits : q.count ≤ peer_queue_size

window_cong :
    (n : ℕ) (ring : List Bytes) (i j : ℕ)
    → i % peer_queue_size ≡ j % peer_queue_size
    → window ring i n ≡ window ring j n
window_cong zero ring i j h = refl
window_cong (suc n) ring i j h =
    let rest = window_cong n ring (i + 1) (j + 1) (omega (arith, h)) in
    ap (λ (t : ℕ). get_or ring t [] ∷ window ring (i + 1) n) h
    ∙ ap (λ (t : List Bytes). get_or ring (j % peer_queue_size) [] ∷ t) rest

window-set :
    (n : ℕ) (ring : List Bytes) (i : ℕ) (pkt : Bytes)
    → length ring ≡ peer_queue_size
    → n < peer_queue_size
    → window (set ring ((i + n) % peer_queue_size) pkt) i (suc n) ≡ window ring i n ++ (pkt ∷ [])
window-set zero ring i pkt len lt =
    ap (λ (t : Bytes). t ∷ [])
      (ap (λ (t : ℕ). get_or (set ring ((i + 0) % peer_queue_size) pkt) t []) (omega arith)
        ∙ get_or-set_self ring ((i + 0) % peer_queue_size) pkt [] (omega (arith, len)))
window-set (suc n) ring i pkt len lt =
    let at : (i + suc n) % peer_queue_size ≡ (i + 1 + n) % peer_queue_size = omega arith in
    let apart : (i + suc n) % peer_queue_size ≢ i % peer_queue_size = λ e. omega (arith, e, lt) in
    let first = get_or-set_ne ring pkt [] apart in
    let rest =
      ap (λ (t : ℕ). window (set ring t pkt) (i + 1) (suc n)) at
      ∙ window-set n ring (i + 1) pkt len (omega (arith, lt)) in
    ap (λ (t : Bytes). t ∷ window (set ring ((i + suc n) % peer_queue_size) pkt) (i + 1) (suc n))
      first
    ∙ ap (λ (t : List Bytes). get_or ring (i % peer_queue_size) [] ∷ t) rest

-- a packet that the queue takes
abbrev pub is_staged : Staged → Bytes → Bool
is_staged q pkt =
    ltb 0 (length pkt) && (leb (length pkt) default_mtu && ltb q.count peer_queue_size)

abbrev behind : Staged → Bytes → Staged
behind q pkt = record {
  packets = set q.packets q.tail pkt;
  head = q.head;
  tail = (q.tail + 1) % peer_queue_size;
  count = q.count + 1;
}

-- Staging a packet in a ring in order puts it behind those that wait, if it is neither empty nor
-- too long and fewer than 512 packets wait, and leaves those that wait as they were otherwise.
-- The ring stays in order.
pub waiting-stage_packet :
    (q : Staged) (pkt : Bytes)
    → IsRing q
    → (waiting (stage_packet q pkt)
        ≡ (if is_staged q pkt then waiting q ++ (pkt ∷ []) else waiting q))
      × IsRing (stage_packet q pkt)
unfolding stage_packet
waiting-stage_packet q pkt r = elim (Bool-cases (is_staged q pkt)) [
  | inl e ↦
      let lt : q.count < peer_queue_size = ground (arith, e) in
      let q1 = behind q pkt in
      let same : stage_packet q pkt ≡ q1 = ground (arith, e) in
      let put : waiting q1 ≡ waiting q ++ (pkt ∷ []) =
        ap (λ (t : ℕ). window (set q.packets t pkt) q.head (q.count + 1)) r.ends
        ∙ (ap (window (set q.packets ((q.head + q.count) % peer_queue_size) pkt) q.head)
              {y = suc q.count} (omega arith)
            ∙ window-set q.count q.packets q.head pkt r.slots lt) in
      (
        ap waiting same ∙ (put ∙ ground (arith, e)),
        subst IsRing (sym same) (record {
          slots = length-set q.packets q.tail pkt ∙ r.slots;
          head_fits = r.head_fits;
          ends = omega (arith, r.ends);
          fits = omega (arith, lt);
        }),
      )
  | inr e ↦
      let same : stage_packet q pkt ≡ q = ground (arith, e) in
      (ap waiting same ∙ ground (arith, e), subst IsRing (sym same) r)
]

-- Taking a packet out of a ring in order, where some wait, takes the oldest one, and the ring
-- stays in order.
pub waiting-unstage :
    (q : Staged)
    → IsRing q
    → q.count ≢ 0
    → (waiting q ≡ (unstage q).0 ∷ waiting (unstage q).1) × IsRing (unstage q).1
waiting-unstage q r some_wait =
    let n = q.count - 1 in
    let first : q.head % peer_queue_size ≡ q.head = omega (arith, r.head_fits) in
    let count : q.count ≡ suc n = omega (arith, some_wait) in
    (
      ap (window q.packets q.head) count
          ∙ (ap (λ (t : ℕ). get_or q.packets t [] ∷ window q.packets (q.head + 1) n) first
              ∙ ap (λ (t : List Bytes). get_or q.packets q.head [] ∷ t)
                  (window_cong n q.packets (q.head + 1) ((q.head + 1) % peer_queue_size)
                    (omega arith))),
      record {
        slots = r.slots;
        head_fits = omega arith;
        ends = omega (arith, r.ends, some_wait);
        fits = omega (arith, r.fits);
      },
    )
