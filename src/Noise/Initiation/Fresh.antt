-- ===== src/Noise/Initiation/Fresh.antt =====
-- Replay of the first message of the handshake of src/noise.c: an initiation is accepted once.
use mathlib.Core.Path.{subst}
use wgx.Base.{
  ℕ, ◌≡◌, ◌≢◌, ◌⊎◌, inl, inr, refl, ap, sym, ◌∙◌, arith, true, false, Option, none, some,
}
use wgx.Base.{List, [], ◌∷◌, ◌==◌, Option-cases, Bool-cases}
use wgx.Base.Bytes.{Bytes}
use wgx.Crypto.{Primitives}
use wgx.Tai64n.{tai64n_after}
use wgx.Tai64n.Order.{after_irreflexive, after_trans}
use wgx.Noise.Types.{Handshake, Initiation, msg_initiation}
use wgx.Noise.Mix.{Identity}
use wgx.Noise.Initiation.{
  open_static, open_timestamp, find_peer, put_peer, refused, accept_initiation, consume_initiation,
}
use wgx.Peer.{Peer}
use wgx.Noise.Initiation.Peers.{is_distinct, put_peer-distinct, find_peer_same, find_peer-put_peer}

module _ (p : Primitives) (id : Identity) where
  -- What it takes to accept a message, and what comes of it.
  record Accepts (peers : List Peer) (msg : Initiation) (now_ms : ℕ) (r : List Peer × Option Peer)
      : Type 0 where
    pk : Bytes
    hash : Bytes
    chain_key : Bytes
    peer : Peer
    ts : Bytes
    hash' : Bytes
    chain_key' : Bytes
    is_type : (msg.msg_type == msg_initiation) ≡ true
    static : open_static p id msg ≡ some (pk, hash, chain_key)
    found : find_peer peers pk ≡ some peer
    timestamp : open_timestamp p peer.handshake msg hash chain_key ≡ some (ts, hash', chain_key')
    fresh : refused peer.handshake ts now_ms ≡ false
    result : r ≡ (
      put_peer peers (record peer {
        handshake = accept_initiation peer.handshake msg ts hash' chain_key' now_ms;
      }),
      some (record peer {
        handshake = accept_initiation peer.handshake msg ts hash' chain_key' now_ms;
      }),
    )

  consume_initiation-cases :
      (peers : List Peer) (msg : Initiation) (now_ms : ℕ)
      → (consume_initiation p id peers msg now_ms ≡ (peers, none))
        ⊎ Accepts peers msg now_ms (consume_initiation p id peers msg now_ms)
  unfolding consume_initiation
  consume_initiation-cases peers msg now_ms = elim (Bool-cases (msg.msg_type == msg_initiation)) [
    | inr e ↦ inl (ground arith)
    | inl type ↦ elim (Option-cases (open_static p id msg)) [
      | inl e ↦ inl (ground arith)
      | inr ((pk, hash, chain_key), static) ↦ elim (Option-cases (find_peer peers pk)) [
        | inl e ↦ inl (ground arith)
        | inr (peer, found) ↦
            elim (Option-cases (open_timestamp p peer.handshake msg hash chain_key)) [
              | inl e ↦ inl (ground arith)
              | inr ((ts, hash', chain_key'), timestamp) ↦
                  elim (Bool-cases (refused peer.handshake ts now_ms)) [
                    | inl e ↦ inl (ground arith)
                    | inr fresh ↦ inr (record {
                      pk = pk;
                      hash = hash;
                      chain_key = chain_key;
                      peer = peer;
                      ts = ts;
                      hash' = hash';
                      chain_key' = chain_key';
                      is_type = type;
                      static = static;
                      found = found;
                      timestamp = timestamp;
                      fresh = fresh;
                      result = ground arith;
                    })
                  ]
            ]
      ]
    ]
  ]

  -- A timestamp of the peer with the key `pk` is spent: no message with it is accepted.
  record IsSpent (pk secret ts : Bytes) (peers : List Peer) : Type 0 where
    distinct : is_distinct peers ≡ true
    peer : Peer
    found : find_peer peers pk ≡ some peer
    same : peer.handshake.precomputed_static_static ≡ secret
    old : tai64n_after ts peer.handshake.last_timestamp ≡ false

  -- reading messages one after the other, at the times that they came
  abbrev pub receive_all : List Peer → List (Initiation × ℕ) → List Peer
  receive_all peers [] = peers
  receive_all peers ((msg, now_ms) ∷ rest) =
      receive_all (consume_initiation p id peers msg now_ms).0 rest

  refused_old :
      (hs : Handshake) (ts : Bytes) (now_ms : ℕ)
      → tai64n_after ts hs.last_timestamp ≡ false
      → refused hs ts now_ms ≡ true
  unfolding refused
  refused_old hs ts now_ms h = ground arith

  accept_newer :
      (hs : Handshake) (msg : Initiation) (ts hash chain_key old : Bytes) (now_ms : ℕ)
      → refused hs ts now_ms ≡ false
      → (tai64n_after old hs.last_timestamp ≡ false) ⊎ (old ≡ ts)
      → tai64n_after old (accept_initiation hs msg ts hash chain_key now_ms).last_timestamp ≡ false
  unfolding refused accept_initiation
  accept_newer hs msg ts hash chain_key old now_ms fresh h =
      ground (arith, after_trans old ts hs.last_timestamp, after_irreflexive ts)

  accept_static :
      (hs : Handshake) (msg : Initiation) (ts hash chain_key : Bytes) (now_ms : ℕ)
      → (accept_initiation hs msg ts hash chain_key now_ms).precomputed_static_static
        ≡ hs.precomputed_static_static
  unfolding accept_initiation
  accept_static hs msg ts hash chain_key now_ms = refl

  -- A message that is accepted spends its timestamp, and keeps what is spent.
  Accepts-IsSpent :
      (pk secret ts : Bytes) (peers : List Peer) (msg : Initiation) (now_ms : ℕ)
      (r : List Peer × Option Peer)
      → IsSpent pk secret ts peers
      → Accepts peers msg now_ms r
      → IsSpent pk secret ts r.0
  Accepts-IsSpent pk secret ts peers msg now_ms r w a =
      let q' : Peer = record a.peer {
        handshake = accept_initiation a.peer.handshake msg a.ts a.hash' a.chain_key' now_ms;
      } in
      let at : r.0 ≡ put_peer peers q' = ap (λ (t : List Peer × Option Peer). t.0) a.result in
      let found =
        find_peer-put_peer peers a.pk pk a.peer w.peer q' w.distinct a.found w.found refl refl in
      let distinct = put_peer-distinct peers q' w.distinct in
      subst (IsSpent pk secret ts) (sym at) (elim (Bool-cases (w.peer.peer_id == a.peer.peer_id)) [
        | inl e ↦
            let eq =
              find_peer_same peers a.pk pk a.peer w.peer w.distinct a.found w.found
                (ground arith) in
            record {
              distinct = distinct;
              peer = q';
              found = ground arith;
              same =
                  accept_static a.peer.handshake msg a.ts a.hash' a.chain_key' now_ms
                  ∙ (ap (λ (q : Peer). q.handshake.precomputed_static_static) (sym eq) ∙ w.same);
              old = accept_newer a.peer.handshake msg a.ts a.hash' a.chain_key' ts now_ms a.fresh (
                  inl (
                    ap (λ (q : Peer). tai64n_after ts q.handshake.last_timestamp) (sym eq)
                    ∙ w.old));
            }
        | inr e ↦ record {
          distinct = distinct;
          peer = w.peer;
          found = ground arith;
          same = w.same;
          old = w.old;
        }
      ])

  consume_initiation-IsSpent :
      (pk secret ts : Bytes) (peers : List Peer) (msg : Initiation) (now_ms : ℕ)
      → IsSpent pk secret ts peers
      → IsSpent pk secret ts (consume_initiation p id peers msg now_ms).0
  consume_initiation-IsSpent pk secret ts peers msg now_ms w =
      elim (consume_initiation-cases peers msg now_ms) [
        | inl e ↦ subst (λ (r : List Peer × Option Peer). IsSpent pk secret ts r.0) (sym e) w
        | inr a ↦ Accepts-IsSpent pk secret ts peers msg now_ms _ w a
      ]

  receive_all-IsSpent :
      (pk secret ts : Bytes) (rest : List (Initiation × ℕ)) (peers : List Peer)
      → IsSpent pk secret ts peers
      → IsSpent pk secret ts (receive_all peers rest)
  receive_all-IsSpent pk secret ts [] peers w = w
  receive_all-IsSpent pk secret ts ((msg, now_ms) ∷ rest) peers w =
      receive_all-IsSpent pk secret ts rest _
        (consume_initiation-IsSpent pk secret ts peers msg now_ms w)

  own_timestamp-IsSpent :
      (peers : List Peer) (msg : Initiation) (now_ms : ℕ) (r : List Peer × Option Peer)
      → is_distinct peers ≡ true
      → (a : Accepts peers msg now_ms r)
      → IsSpent a.pk a.peer.handshake.precomputed_static_static a.ts r.0
  own_timestamp-IsSpent peers msg now_ms r distinct a =
      let hs' = accept_initiation a.peer.handshake msg a.ts a.hash' a.chain_key' now_ms in
      let q' : Peer = record a.peer { handshake = hs' } in
      let at : r.0 ≡ put_peer peers q' = ap (λ (t : List Peer × Option Peer). t.0) a.result in
      let found =
        find_peer-put_peer peers a.pk a.pk a.peer a.peer q' distinct a.found a.found refl refl in
      subst (IsSpent a.pk a.peer.handshake.precomputed_static_static a.ts) (sym at) (record {
        distinct = put_peer-distinct peers q' distinct;
        peer = q';
        found = ground arith;
        same = accept_static a.peer.handshake msg a.ts a.hash' a.chain_key' now_ms;
        old =
            accept_newer a.peer.handshake msg a.ts a.hash' a.chain_key' a.ts now_ms a.fresh
              (inr refl);
      })

  -- What a message decrypts to depends on the peer through the static secret only.
  open_timestamp_cong :
      (hs hs' : Handshake) (msg : Initiation) (hash chain_key : Bytes)
      → hs.precomputed_static_static ≡ hs'.precomputed_static_static
      → open_timestamp p hs msg hash chain_key ≡ open_timestamp p hs' msg hash chain_key
  unfolding open_timestamp
  open_timestamp_cong hs hs' msg hash chain_key e =
      ap
        (λ (secret : Bytes).
          open_timestamp p (record hs { precomputed_static_static = secret }) msg hash chain_key)
        e

  spent_refused :
      (peers later : List Peer) (msg : Initiation) (now_ms t : ℕ) (r : List Peer × Option Peer)
      → (a : Accepts peers msg now_ms r)
      → IsSpent a.pk a.peer.handshake.precomputed_static_static a.ts later
      → (consume_initiation p id later msg t).1 ≡ none
  unfolding consume_initiation
  spent_refused peers later msg now_ms t r a w =
      let read =
        open_timestamp_cong w.peer.handshake a.peer.handshake msg a.hash a.chain_key w.same in
      let no = refused_old w.peer.handshake a.ts t w.old in
      ground (arith, a.is_type, a.static, w.found, read, a.timestamp, no)

  -- An initiation that was accepted is refused from then on, whatever other initiations come in
  -- between, also newer ones of the same peer. The peers of a device are different objects.
  pub initiation_accepted_once :
      (peers : List Peer) (msg : Initiation) (now_ms : ℕ) (rest : List (Initiation × ℕ))
      (later_ms : ℕ)
      → is_distinct peers ≡ true
      → (consume_initiation p id peers msg now_ms).1 ≢ none
      → (consume_initiation p id
          (receive_all (consume_initiation p id peers msg now_ms).0 rest)
          msg
          later_ms).1
        ≡ none
  initiation_accepted_once peers msg now_ms rest later_ms distinct taken =
      elim (consume_initiation-cases peers msg now_ms) [
        | inl e ↦ absurd (taken (ap (λ (r : List Peer × Option Peer). r.1) e))
        | inr a ↦ spent_refused peers _ msg now_ms later_ms _ a (
            receive_all-IsSpent a.pk a.peer.handshake.precomputed_static_static a.ts rest _
              (own_timestamp-IsSpent peers msg now_ms _ distinct a))
      ]
