-- ===== src/Noise/Pair/First.antt =====
-- The first message of the handshake of src/noise.c, from one device to the other.
use wgx.Base.{◌≡◌, ◌≢◌, ◌∙◌, sym, ap, true, false, some, arith}
use wgx.Base.Bytes.{Bytes, bytes_eq}
use wgx.Crypto.{Primitives, clamp_private_key}
use wgx.Noise.Types.{Initiation}
use wgx.Noise.Mix.{zero_key}
use wgx.Noise.Initiation.{
  Making, create_initiation, open_static, open_timestamp, find_peer, put_peer, refused,
  accept_initiation, consume_initiation,
}
use wgx.Noise.Initiation.Agree.{
  AeadLaw, Inputs, inputs, picked, Writes, create_initiation_lem, open_static_lem,
  open_timestamp_lem, hash_static, hash_end, keys_static, keys_timestamp,
}
use wgx.Noise.Pair.{DhLaw, IsPaired, Exchange, secret_agrees, secret_pair}
use wgx.Peer.{Peer}

abbrev pub ephemeral_priv : Exchange → Bytes
ephemeral_priv x = clamp_private_key x.draws.ephemeral

module _ (p : Primitives) (x : Exchange) where
  abbrev pub made : Making Initiation
  made = create_initiation p x.initiator x.table x.peer x.buffer x.draws x.timestamp x.sent_ms

  abbrev pub ephemeral_static : Bytes
  ephemeral_static =
      (Primitives.scalarmult p zero_key x.responder.private_key
        (Primitives.scalarmult_base p (ephemeral_priv x))).1

  abbrev pub transcript : Inputs
  transcript = inputs p x.initiator x.peer x.draws x.timestamp ephemeral_static

  -- what the responder's peer is after the message
  abbrev pub accepted : Peer
  accepted = record x.known {
    handshake =
        accept_initiation x.known.handshake made.msg x.timestamp made.peer.handshake.hash
          made.peer.handshake.chain_key x.received_ms;
  }

module _ (p : Primitives) (ready : Primitives.sodium_init p ≡ true) (aead : AeadLaw p)
    (law : DhLaw p) (x : Exchange)
    (paired : IsPaired p x.initiator x.responder x.peer.handshake x.known.handshake)
    (free : (picked x.table x.peer x.draws).1 ≢ 0) where
  initiator_static :
      Primitives.scalarmult p zero_key (ephemeral_priv x) x.peer.handshake.remote_static
      ≡ (true, ephemeral_static p x)
  initiator_static =
      ap (Primitives.scalarmult p zero_key (ephemeral_priv x))
        (paired.knows_responder ∙ paired.responder_key)
      ∙ secret_agrees p law zero_key zero_key (ephemeral_priv x) x.responder.private_key

  same_static_static :
      x.known.handshake.precomputed_static_static ≡ x.peer.handshake.precomputed_static_static
  same_static_static =
      ground (arith, law.agrees zero_key zero_key x.initiator.private_key x.responder.private_key)

  static_static_nonzero : bytes_eq x.peer.handshake.precomputed_static_static zero_key ≡ false
  static_static_nonzero =
      ground (arith, law.nonzero zero_key x.initiator.private_key x.responder.private_key)

  pub made_lem :
      Writes p (transcript p x) (picked x.table x.peer x.draws) x.peer (ephemeral_priv x) (made p x)
  made_lem =
      create_initiation_lem p ready aead x.initiator x.table x.peer x.buffer x.draws x.timestamp
        x.sent_ms (ephemeral_static p x) initiator_static static_static_nonzero free

  opened_static :
      open_static p x.responder (made p x).msg
      ≡ some (
        x.initiator.public_key,
        hash_static p (transcript p x),
        (keys_static p (transcript p x)).0,
      )
  opened_static =
      open_static_lem p ready aead (transcript p x) (made p x).msg made_lem.5 made_lem.6 made_lem.7
        x.responder paired.same_hash paired.same_chain_key (sym paired.knows_responder)
        (secret_pair p law zero_key x.responder.private_key (ephemeral_priv x))

  opened_timestamp :
      open_timestamp p x.known.handshake
        (made p x).msg
        (hash_static p (transcript p x))
        (keys_static p (transcript p x)).0
      ≡ some (x.timestamp, hash_end p (transcript p x), (keys_timestamp p (transcript p x)).0)
  opened_timestamp =
      open_timestamp_lem p ready aead (transcript p x) (made p x).msg made_lem.5 made_lem.6
        made_lem.7 x.known.handshake same_static_static static_static_nonzero

  -- An initiation is made, and the device that it is for accepts it if the timestamp is new and
  -- the last one is not too recent: it finds the peer by the key inside the message, stores the
  -- timestamp and the sender's ephemeral key and index, and its hash and chaining key are those of the
  -- sender. The two know each other's keys, libsodium has started and keeps its laws, and the
  -- initiator's index table has a free index.
  pub initiation_agrees :
      find_peer x.peers x.initiator.public_key ≡ some x.known
      → refused x.known.handshake x.timestamp x.received_ms ≡ false
      → ((made p x).made ≡ true)
        × (consume_initiation p x.responder x.peers (made p x).msg x.received_ms
            ≡ (put_peer x.peers (accepted p x), some (accepted p x)))
  unfolding consume_initiation
  initiation_agrees found fresh =
      (made_lem.0, ground (arith, made_lem.2, made_lem.3, opened_static, opened_timestamp))
