-- ===== src/Noise/Response/Agree.antt =====
-- The second message of the handshake of src/noise.c as one transcript of both sides.
use wgx.Base.{ℕ, ◌≡◌, ◌≢◌, arith, true, some, []}
use wgx.Base.Bytes.{Bytes}
use wgx.Crypto.{Primitives, clamp_private_key, kdf3}
use wgx.Crypto.Ready.{encrypt-ready, dh-ready}
use wgx.Noise.Types.{Handshake, HandshakeState, Response, msg_response}
use wgx.Noise.Index.{IndexTable}
use wgx.Noise.Mix.{Identity, mix_hash, mix_key, zero_nonce, zero_key}
use wgx.Noise.Cookie.{add_macs}
use wgx.Noise.Initiation.{Draws, Making}
use wgx.Noise.Initiation.Agree.{
  AeadLaw, picked, generate_private_key-ready, generate_public_key-ready, decrypt-encrypted,
}
use wgx.Noise.Response.{
  begin_response, finish_response, mix_response, create_response, open_response,
}
use wgx.Peer.{Peer}

-- The hash and the chaining key that the first message ends in, the responder's ephemeral key, its
-- secrets with the initiator's ephemeral and static keys, and the preshared key.
pub record Inputs : Type 0 where
  pub hash : Bytes
  pub chain_key : Bytes
  pub ephemeral : Bytes
  pub ephemeral_ephemeral : Bytes
  pub ephemeral_static : Bytes
  pub psk : Bytes

module _ (p : Primitives) where
  abbrev pub keys_end : Inputs → Bytes × Bytes × Bytes
  keys_end i =
      kdf3 p
        (mix_key p (mix_key p (mix_key p i.chain_key i.ephemeral) i.ephemeral_ephemeral)
          i.ephemeral_static)
        i.psk

  abbrev pub hash_tau : Inputs → Bytes
  hash_tau i = mix_hash p (mix_hash p i.hash i.ephemeral) (keys_end i).1

  abbrev pub empty_enc : Inputs → Bytes
  empty_enc i = Primitives.aead_encrypt p (keys_end i).2 zero_nonce [] (hash_tau i)

  abbrev pub hash_end : Inputs → Bytes
  hash_end i = mix_hash p (hash_tau i) (empty_enc i)

  -- A message of the transcript was made, and the handshake is at the transcript's end.
  abbrev pub Writes : Inputs → IndexTable × ℕ → Peer → Bytes → Making Response → Type 0
  Writes i picked_index peer priv made =
      (made.made ≡ true)
      × (made.index_table ≡ picked_index.0)
      × (made.peer.handshake ≡ record peer.handshake {
        local_ephemeral_priv = priv;
        local_ephemeral_pub = i.ephemeral;
        hash = hash_end i;
        chain_key = (keys_end i).0;
        local_index = picked_index.1;
        state = HandshakeState.response_created;
      })
      × (made.msg.msg_type ≡ msg_response)
      × (made.msg.sender ≡ picked_index.1)
      × (made.msg.receiver ≡ peer.handshake.remote_index)
      × (made.msg.ephemeral ≡ i.ephemeral)
      × (made.msg.empty_enc ≡ empty_enc i)

module _ (p : Primitives) (ready : Primitives.sodium_init p ≡ true) (law : AeadLaw p) where
  -- The initiator reads a message of the transcript.
  pub open_response_lem :
      (i : Inputs) (id : Identity) (hs : Handshake) (msg : Response)
      → msg.ephemeral ≡ i.ephemeral
      → msg.empty_enc ≡ empty_enc p i
      → hs.hash ≡ i.hash
      → hs.chain_key ≡ i.chain_key
      → hs.psk ≡ i.psk
      → Primitives.scalarmult p zero_key hs.local_ephemeral_priv i.ephemeral
        ≡ (true, i.ephemeral_ephemeral)
      → Primitives.scalarmult p zero_key id.private_key i.ephemeral ≡ (true, i.ephemeral_static)
      → open_response p id hs msg ≡ some (hash_end p i, (keys_end p i).0)
  unfolding open_response
  open_response_lem i id hs msg same_ephemeral same_enc same_hash same_chain same_psk first second =
      let opened = decrypt-encrypted p ready law (keys_end p i).2 zero_nonce [] (hash_tau p i) in
      let secret = dh-ready p ready zero_key hs.local_ephemeral_priv i.ephemeral in
      let secret' = dh-ready p ready zero_key id.private_key i.ephemeral in
      ground (arith, opened, secret, secret')

  module _ (table : IndexTable) (peer : Peer) (msg : Response) (draws : Draws) (now_ms : ℕ)
      (i : Inputs) (same_hash : i.hash ≡ peer.handshake.hash)
      (same_chain : i.chain_key ≡ peer.handshake.chain_key) (same_psk : i.psk ≡ peer.handshake.psk)
      (drawn : i.ephemeral ≡ Primitives.scalarmult_base p (clamp_private_key draws.ephemeral))
      (first : Primitives.scalarmult p zero_key
          (clamp_private_key draws.ephemeral)
          peer.handshake.remote_ephemeral
        ≡ (true, i.ephemeral_ephemeral))
      (second : Primitives.scalarmult p zero_key
          (clamp_private_key draws.ephemeral)
          peer.handshake.remote_static
        ≡ (true, i.ephemeral_static))
      (consumed : peer.handshake.state ≡ HandshakeState.initiation_consumed)
      (free : (picked table peer draws).1 ≢ 0) where
    -- The responder writes the message of its transcript.
    pub create_response_lem :
        Writes p i
          (picked table peer draws)
          peer
          (clamp_private_key draws.ephemeral)
          (create_response p table peer msg draws now_ms)
    unfolding create_response mix_response begin_response finish_response add_macs
    create_response_lem = ground (
      arith,
      generate_private_key-ready p ready law draws.ephemeral,
      generate_public_key-ready p ready law peer.handshake.local_ephemeral_pub
          (clamp_private_key draws.ephemeral),
      dh-ready p ready zero_key (clamp_private_key draws.ephemeral) peer.handshake.remote_ephemeral,
      dh-ready p ready zero_key (clamp_private_key draws.ephemeral) peer.handshake.remote_static,
      encrypt-ready p ready (keys_end p i).2 zero_nonce [] (hash_tau p i),
    )
