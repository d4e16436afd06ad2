-- ===== src/Device/Flush.antt =====
-- The loops at the end of `handle_initiation` and `handle_response` of src/device.c, which send what
-- waits: `while (peer->staged_count > 0)`. A responder's new keypair waits as the next one, so that the
-- loop of `handle_initiation` sends with the current keypair, which may be an old one.
use mathlib.Core.Path.{subst}
use wgx.Base.{ℕ, zero, suc, ◌+◌, ◌≡◌, ◌≢◌, refl, ap, sym, ◌∙◌, arith}
use wgx.Base.{
  Bool, true, false, ◌&&◌, Option, some, List, [], ◌∷◌, ◌++◌, ◌==◌, ltb, leb, if◌then◌else◌, length,
}
use wgx.Base.Bytes.{Bytes}
use wgx.Crypto.{Primitives}
use wgx.Noise.Types.{Keypair, Initiation, sub64}
use wgx.Noise.Index.{IndexTable}
use wgx.Noise.Mix.{Identity}
use wgx.Noise.Initiation.{Draws, create_initiation, finish_initiation}
use wgx.Peer.{Peer, Staged}
use wgx.Timers.{timers_handshake_initiated, reject_after_time_ms}
use wgx.Device.{Device, Env}
use wgx.Device.Send.{
  default_mtu, blank_initiation, initiate_handshake, handshake_begin, send_with, send_to_peer,
  sending_keypair, stage, stage_packet, unstage, flush_step, set_peer,
}
use wgx.Device.Queue.{IsRing, waiting, waiting-stage_packet, waiting-unstage, is_staged}

-- the loop, for as many rounds as `fuel` at most
abbrev pub flush : Primitives → Env → ℕ → Device → Device
flush p env zero d = d
flush p env (suc fuel) d =
    if d.session.peer.staged.count == 0 then d else flush p env fuel (flush_step p env d)

-- What a handshake's first message leaves alone.
abbrev pub Keeps : Device → Device → Type 0
Keeps d d' =
    (d'.session.keypairs ≡ d.session.keypairs)
    × (d'.session.peer.current_keypair ≡ d.session.peer.current_keypair)
    × (d'.session.peer.next_keypair ≡ d.session.peer.next_keypair)
    × (d'.session.peer.staged ≡ d.session.peer.staged)

create_initiation-kept :
    (p : Primitives) (id : Identity) (table : IndexTable) (peer : Peer) (msg : Initiation)
    (draws : Draws) (ts : Bytes) (now_ms : ℕ)
    → let made = create_initiation p id table peer msg draws ts now_ms in
      (made.peer.current_keypair ≡ peer.current_keypair)
      × (made.peer.next_keypair ≡ peer.next_keypair)
      × (made.peer.staged ≡ peer.staged)
unfolding create_initiation finish_initiation
create_initiation-kept p id table peer msg draws ts now_ms = ground arith

module _ (p : Primitives) (env : Env) where
  initiate_handshake-Keeps :
      (force : Bool) (d : Device) → Keeps d (initiate_handshake p env force d).0
  unfolding initiate_handshake timers_handshake_initiated
  initiate_handshake-Keeps force d = ground (
    arith,
    create_initiation-kept p d.identity d.session.index_table
        (record d.session.peer {
          handshake = record d.session.peer.handshake { last_sent_handshake_ms = env.now_ms };
        })
        blank_initiation (env.draws d.drawn) env.timestamp env.now_ms,
  )

  pub handshake_begin-Keeps : (d : Device) → Keeps d (handshake_begin p env d)
  unfolding handshake_begin
  handshake_begin-Keeps d = ground (arith, initiate_handshake-Keeps false d)

  -- The keypair that the device sends with is past `REJECT_AFTER_TIME_MS`.
  pub record IsExpired (d : Device) : Type 0 where
    pub a : ℕ
    pub kp : Keypair
    pub chosen : sending_keypair d.session.peer ≡ some a
    pub here : d.session.keypairs a ≡ some kp
    pub old : leb reject_after_time_ms (sub64 env.now_ms kp.created_at_ms) ≡ true

  Keeps-IsExpired : (d d' : Device) → IsExpired d → Keeps d d' → IsExpired d'
  Keeps-IsExpired d d' w (q, c, n, u) = record {
    a = w.a;
    kp = w.kp;
    chosen = ground (arith, w.chosen);
    here = ap (λ (h : ℕ → Option Keypair). h w.a) q ∙ w.here;
    old = w.old;
  }

  send_expired :
      (pkt : Bytes) (d : Device)
      → IsExpired d
      → leb (length pkt) default_mtu ≡ true
      → (send_to_peer p env pkt d).0 ≡ handshake_begin p env (stage d pkt)
  unfolding send_to_peer send_with
  send_expired pkt d w fits = ground (arith, w.chosen, w.here, w.old)

abbrev pub is_sized : Bytes → Bool
is_sized pkt = ltb 0 (length pkt) && leb (length pkt) default_mtu

abbrev pub all_sized : List Bytes → Bool
all_sized [] = true
all_sized (pkt ∷ pkts) = is_sized pkt && all_sized pkts

all_sized-snoc :
    (pkts : List Bytes) (pkt : Bytes)
    → all_sized pkts ≡ true
    → is_sized pkt ≡ true
    → all_sized (pkts ++ (pkt ∷ [])) ≡ true
all_sized-snoc [] pkt h k = ground arith
all_sized-snoc (q ∷ pkts) pkt h k = ground (arith, all_sized-snoc pkts pkt)

stage_packet-count :
    (q : Staged) (pkt : Bytes) → is_staged q pkt ≡ true → (stage_packet q pkt).count ≡ q.count + 1
unfolding stage_packet
stage_packet-count q pkt h = ground arith

-- the device with the oldest packet taken out of the queue
abbrev unstaged : Device → Device
unstaged d = set_peer d (record d.session.peer { staged = (unstage d.session.peer.staged).1 })

module _ (p : Primitives) (env : Env) where
  -- Packets wait, all of a length that is staged, and the keypair to send them with is too old.
  pub record IsStuck (d : Device) : Type 0 where
    pub expired : IsExpired p env d
    pub ring : IsRing d.session.peer.staged
    pub waits : d.session.peer.staged.count ≢ 0
    pub sized : all_sized (waiting d.session.peer.staged) ≡ true

  step_again :
      (d : Device)
      → IsStuck d
      → IsStuck (flush_step p env d)
        × ((flush_step p env d).session.peer.staged.count ≡ d.session.peer.staged.count)
  unfolding flush_step
  step_again d w =
      let q = d.session.peer.staged in
      let pkt = (unstage q).0 in
      let q1 = (unstage q).1 in
      let (taken, ring1) = waiting-unstage q w.ring w.waits in
      let sized : (is_sized pkt && all_sized (waiting q1)) ≡ true =
        ap all_sized (sym taken) ∙ w.sized in
      let fits = w.ring.fits in
      let staged_again : is_staged q1 pkt ≡ true = ground (arith, sized, w.waits, fits) in
      let expired1 : IsExpired p env (unstaged d) = record {
        a = w.expired.a;
        kp = w.expired.kp;
        chosen = w.expired.chosen;
        here = w.expired.here;
        old = w.expired.old;
      } in
      let expired2 : IsExpired p env (stage (unstaged d) pkt) = record {
        a = w.expired.a;
        kp = w.expired.kp;
        chosen = w.expired.chosen;
        here = w.expired.here;
        old = w.expired.old;
      } in
      let sent = send_expired p env pkt (unstaged d) expired1 (ground (arith, sized)) in
      let after = handshake_begin p env (stage (unstaged d) pkt) in
      let kept = handshake_begin-Keeps p env (stage (unstaged d) pkt) in
      let (behind, ring2) = waiting-stage_packet q1 pkt ring1 in
      let at : (flush_step p env d).session.peer.staged ≡ stage_packet q1 pkt =
        ap (λ (t : Device). t.session.peer.staged) sent ∙ kept.3 in
      let count : (flush_step p env d).session.peer.staged.count ≡ q.count =
        ap (λ (t : Staged). t.count) at
        ∙ (stage_packet-count q1 pkt staged_again ∙ omega (arith, w.waits)) in
      let line : waiting (stage_packet q1 pkt) ≡ waiting q1 ++ (pkt ∷ []) =
        behind ∙ ground (arith, staged_again) in
      (
        record {
          expired =
              subst (IsExpired p env) (sym sent)
                (Keeps-IsExpired p env (stage (unstaged d) pkt) after expired2 kept);
          ring = subst IsRing (sym at) ring2;
          waits = λ z. w.waits (sym count ∙ z);
          sized =
              ap (λ (t : Staged). all_sized (waiting t)) at
              ∙ (ap all_sized line
                  ∙ all_sized-snoc (waiting q1) pkt (ground (arith, sized))
                      (ground (arith, sized)));
        },
        count,
      )

  -- The loop does not end where packets wait in a ring in order, each of a length that is staged,
  -- and the keypair that the device sends with is past its time: each round takes the oldest
  -- packet out and stages it again, so that after any number of rounds as many packets wait as
  -- before, and some do.
  pub flush_never_ends :
      (n : ℕ) (d : Device)
      → IsStuck d
      → ((flush p env n d).session.peer.staged.count ≡ d.session.peer.staged.count)
        × ((flush p env n d).session.peer.staged.count ≢ 0)
  flush_never_ends zero d w = (refl, w.waits)
  flush_never_ends (suc n) d w =
      let (again, same) = step_again d w in
      let (count, waits) = flush_never_ends n (flush_step p env d) again in
      let unfolds : flush p env (suc n) d ≡ flush p env n (flush_step p env d) =
        ground (arith, w.waits) in
      (
        ap (λ (t : Device). t.session.peer.staged.count) unfolds ∙ (count ∙ same),
        λ z. waits (ap (λ (t : Device). t.session.peer.staged.count) (sym unfolds) ∙ z),
      )
