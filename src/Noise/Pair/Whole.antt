-- ===== src/Noise/Pair/Whole.antt =====
-- The whole handshake of src/noise.c between two devices, up to the keys of the session.
use wgx.Base.{ℕ, ◌≡◌, ◌≢◌, ◌∙◌, sym, ap, true, false, refl, some, List, arith}
use wgx.Base.Bytes.{Bytes}
use wgx.Crypto.{Primitives, clamp_private_key}
use wgx.Noise.Types.{Handshake, HandshakeState, Keypair, Response}
use wgx.Noise.Index.{IndexTable, lookup, delete}
use wgx.Noise.Index.Laws.{handshake_entry, lookup-new_for_handshake}
use wgx.Noise.Mix.{zero_key}
use wgx.Noise.Initiation.{
  Making, put_peer, find_peer, refused, accept_initiation, consume_initiation,
}
use wgx.Noise.Initiation.Agree.{AeadLaw, picked, hash_end, keys_timestamp}
use wgx.Noise.Response.{peer_at, create_response, consume_response, open_response}
use wgx.Noise.Response.Agree.{Inputs, Writes, create_response_lem, open_response_lem, keys_end}
use wgx.Noise.Response
use wgx.Noise.Session.{derive_keypair}
use wgx.Noise.Pair.{DhLaw, IsPaired, Exchange, secret_agrees, secret_pair}
use wgx.Noise.Pair.First.{made, accepted, transcript, ephemeral_priv, made_lem, initiation_agrees}
use wgx.Peer.{Peer}

abbrev pub response_priv : Exchange → Bytes
response_priv x = clamp_private_key x.response_draws.ephemeral

module _ (p : Primitives) (x : Exchange) where
  -- the responder's answer
  abbrev pub answered : Making Response
  answered =
      create_response p x.responder_table (accepted p x) x.response_buffer x.response_draws
        x.replied_ms

  abbrev ephemeral : Bytes
  ephemeral = Primitives.scalarmult_base p (response_priv x)

  abbrev pub response : Inputs
  response = record {
    hash = hash_end p (transcript p x);
    chain_key = (keys_timestamp p (transcript p x)).0;
    ephemeral = ephemeral;
    ephemeral_ephemeral = (Primitives.scalarmult p zero_key (ephemeral_priv x) ephemeral).1;
    ephemeral_static = (Primitives.scalarmult p zero_key x.initiator.private_key ephemeral).1;
    psk = x.peer.handshake.psk;
  }

  -- what the initiator's peer is after the answer
  abbrev pub finished : Peer
  finished = record (made p x).peer {
    handshake = record (made p x).peer.handshake {
      hash = answered.peer.handshake.hash;
      chain_key = answered.peer.handshake.chain_key;
      remote_index = answered.msg.sender;
      state = HandshakeState.response_consumed;
    };
  }

-- Two keypairs are the ends of one session: what one sends the other receives.
abbrev pub Match : Keypair → Keypair → Type 0
Match a b =
    (a.send_key ≡ b.recv_key)
    × (a.recv_key ≡ b.send_key)
    × (a.remote_index ≡ b.local_index)
    × (a.local_index ≡ b.remote_index)
    × (a.is_initiator ≡ true)
    × (b.is_initiator ≡ false)

derive_keypair-Match :
    (p : Primitives) (a b : Handshake) (t u : ℕ)
    → a.chain_key ≡ b.chain_key
    → a.state ≡ HandshakeState.response_consumed
    → b.state ≡ HandshakeState.response_created
    → a.remote_index ≡ b.local_index
    → a.local_index ≡ b.remote_index
    → Match (derive_keypair p a t) (derive_keypair p b u)
unfolding derive_keypair
derive_keypair-Match p a b t u same_chain consumed created there back = ground arith

-- What the responder answers, given the peer that it has after an initiation.
abbrev pub answer_of : Primitives → Exchange → Peer → Making Response
answer_of p x b =
    create_response p x.responder_table b x.response_buffer x.response_draws x.replied_ms

-- The two messages, each taken by the other side, and the keypairs at the end: `b` is the responder's
-- peer after the first message and `a` the initiator's after the second.
abbrev pub HandshakeAgrees : Primitives → Exchange → List Peer → ℕ → ℕ → Type 0
HandshakeAgrees p x own t u =
    (b : Peer) × (a : Peer) × ((made p x).made ≡ true)
    × (consume_initiation p x.responder x.peers (made p x).msg x.received_ms
        ≡ (put_peer x.peers b, some b))
    × ((answer_of p x b).made ≡ true)
    × (consume_response p x.initiator (made p x).index_table own (answer_of p x b).msg
        ≡ (put_peer own a, some a))
    × Match (derive_keypair p a.handshake t) (derive_keypair p (answer_of p x b).peer.handshake u)

module _ (p : Primitives) (ready : Primitives.sodium_init p ≡ true) (aead : AeadLaw p)
    (law : DhLaw p) (x : Exchange)
    (paired : IsPaired p x.initiator x.responder x.peer.handshake x.known.handshake)
    (free : (picked x.table x.peer x.draws).1 ≢ 0)
    (responder_free : (picked x.responder_table (accepted p x) x.response_draws).1 ≢ 0) where
  accepted_hs : (accepted p x).handshake ≡ record x.known.handshake {
    hash = hash_end p (transcript p x);
    chain_key = (keys_timestamp p (transcript p x)).0;
    remote_ephemeral = (transcript p x).ephemeral;
    remote_index = (picked x.table x.peer x.draws).1;
    last_timestamp = (accepted p x).handshake.last_timestamp;
    last_initiation_consumption_ms = (accepted p x).handshake.last_initiation_consumption_ms;
    state = HandshakeState.initiation_consumed;
  }
  unfolding accept_initiation
  accepted_hs = ground (arith, made_lem p ready aead law x paired free)

  answered_lem :
      Writes p
        (response p x)
        (picked x.responder_table (accepted p x) x.response_draws)
        (accepted p x)
        (response_priv x)
        (answered p x)
  answered_lem =
      create_response_lem p ready aead x.responder_table (accepted p x) x.response_buffer
        x.response_draws x.replied_ms (response p x) (ap Handshake.hash (sym accepted_hs))
        (ap Handshake.chain_key (sym accepted_hs))
        (sym paired.same_psk ∙ ap Handshake.psk (sym accepted_hs)) refl
        (ap
            (λ (h : Handshake).
              Primitives.scalarmult p zero_key (response_priv x) h.remote_ephemeral)
            accepted_hs
          ∙ secret_agrees p law zero_key zero_key (response_priv x) (ephemeral_priv x))
        (ap (λ (h : Handshake). Primitives.scalarmult p zero_key (response_priv x) h.remote_static)
            accepted_hs
          ∙ (ap (Primitives.scalarmult p zero_key (response_priv x))
                (paired.knows_initiator ∙ paired.initiator_key)
              ∙ secret_agrees p law zero_key _ (response_priv x) x.initiator.private_key))
        (ap Handshake.state accepted_hs) responder_free

  opened_response :
      open_response p x.initiator (made p x).peer.handshake (answered p x).msg
      ≡ some (Response.Agree.hash_end p (response p x), (keys_end p (response p x)).0)
  opened_response =
      let sent = (made_lem p ready aead law x paired free).2 in
      open_response_lem p ready aead (response p x) x.initiator (made p x).peer.handshake
        (answered p x).msg answered_lem.6 answered_lem.7 (ap Handshake.hash sent)
        (ap Handshake.chain_key sent) (ap Handshake.psk sent)
        (ap
            (λ (h : Handshake).
              Primitives.scalarmult p zero_key h.local_ephemeral_priv (ephemeral p x))
            sent
          ∙ secret_pair p law zero_key (ephemeral_priv x) (response_priv x))
        (secret_pair p law _ x.initiator.private_key (response_priv x))

  sent_entry :
      lookup (made p x).index_table (answered p x).msg.receiver
      ≡ some (handshake_entry x.peer.peer_id (picked x.table x.peer x.draws).1)
  sent_entry =
      let sent = made_lem p ready aead law x paired free in
      let registered =
        lookup-new_for_handshake (delete x.table x.peer.handshake.local_index) x.peer.peer_id
          x.draws.indices x.draws.high free in
      let to : (answered p x).msg.receiver ≡ (picked x.table x.peer x.draws).1 =
        answered_lem.5 ∙ ap Handshake.remote_index accepted_hs in
      let at = registered.1 (picked x.table x.peer x.draws).1 in
      ap (λ (t : IndexTable). lookup t (answered p x).msg.receiver) sent.1
      ∙ (ap (lookup (picked x.table x.peer x.draws).0) to ∙ (at ∙ ground arith))

  -- Two devices that know each other: the initiation is made, the responder takes it and makes an
  -- answer out of what it then holds, and the initiator, whose peer is as it was when the initiation
  -- was sent, takes the answer. The keypairs that the two sides derive then are the ends of one
  -- session: each side's sending key is the other's receiving key, and each side addresses the other
  -- by the index that the other has for itself. The two know each other's keys and have the same
  -- preshared key, the responder has the initiator among its peers, the timestamp is new and the last
  -- initiation not too recent, libsodium has started and keeps its laws, and both index tables have a
  -- free index.
  pub handshake_agrees :
      (own : List Peer) (t u : ℕ)
      → find_peer x.peers x.initiator.public_key ≡ some x.known
      → refused x.known.handshake x.timestamp x.received_ms ≡ false
      → peer_at own x.peer.peer_id ≡ some (made p x).peer
      → HandshakeAgrees p x own t u
  unfolding consume_response
  handshake_agrees own t u found fresh at =
      let sent = made_lem p ready aead law x paired free in
      let taken = initiation_agrees p ready aead law x paired free found fresh in
      (
        accepted p x,
        finished p x,
        taken.0,
        taken.1,
        answered_lem.0,
        ground (arith, sent.2, sent_entry, answered_lem.2, answered_lem.3, opened_response),
        derive_keypair-Match p (finished p x).handshake (answered p x).peer.handshake t u refl refl
            (ap Handshake.state answered_lem.2)
            (answered_lem.4 ∙ sym (ap Handshake.local_index answered_lem.2))
            (ap Handshake.local_index sent.2
              ∙ (sym (ap Handshake.remote_index accepted_hs)
                  ∙ sym (ap Handshake.remote_index answered_lem.2))),
      )
