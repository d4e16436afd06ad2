-- ===== src/Noise/Initiation/Agree.antt =====
-- The first message of the handshake of src/noise.c: what the initiator writes and what the
-- responder reads of it are one transcript.
use wgx.Base.{ℕ, ◌+◌, ◌≡◌, ◌≢◌, ◌∙◌, arith, true, false, some}
use wgx.Base.{length}
use wgx.Base.Bytes.{Bytes, bytes_eq}
use wgx.Crypto.{
  Primitives, clamp_private_key, generate_private_key, generate_public_key, kdf2, decrypt,
  aead_tag_len,
}
use wgx.Crypto.Ready.{random_bytes-ready, encrypt-ready, decrypt-ready, dh-ready}
use wgx.Noise.Types.{Handshake, HandshakeState, Initiation, msg_initiation}
use wgx.Noise.Index.{IndexTable, delete, new_for_handshake}
use wgx.Noise.Mix.{Identity, mix_hash, mix_key, zero_nonce, zero_key}
use wgx.Noise.Cookie.{add_macs}
use wgx.Noise.Initiation.{
  Draws, Making, begin_initiation, finish_initiation, create_initiation, open_static,
  open_timestamp,
}
use wgx.Peer.{Peer}

-- The transcript of the first message, from the values that both sides compute: the hash and the
-- chaining key that the device starts from, the responder's public key, the ephemeral key, the
-- secret of the two, the initiator's public key, the secret of the static keys and the timestamp.
pub record Inputs : Type 0 where
  pub hash : Bytes
  pub chain_key : Bytes
  pub responder : Bytes
  pub ephemeral : Bytes
  pub ephemeral_static : Bytes
  pub initiator : Bytes
  pub static_static : Bytes
  pub timestamp : Bytes

module _ (p : Primitives) where
  abbrev pub hash_start : Inputs → Bytes
  hash_start i = mix_hash p (mix_hash p i.hash i.responder) i.ephemeral

  abbrev pub keys_static : Inputs → Bytes × Bytes
  keys_static i = kdf2 p (mix_key p i.chain_key i.ephemeral) i.ephemeral_static

  abbrev pub static_enc : Inputs → Bytes
  static_enc i = Primitives.aead_encrypt p (keys_static i).1 zero_nonce i.initiator (hash_start i)

  abbrev pub hash_static : Inputs → Bytes
  hash_static i = mix_hash p (hash_start i) (static_enc i)

  abbrev pub keys_timestamp : Inputs → Bytes × Bytes
  keys_timestamp i = kdf2 p (keys_static i).0 i.static_static

  abbrev pub timestamp_enc : Inputs → Bytes
  timestamp_enc i =
      Primitives.aead_encrypt p (keys_timestamp i).1 zero_nonce i.timestamp (hash_static i)

  abbrev pub hash_end : Inputs → Bytes
  hash_end i = mix_hash p (hash_static i) (timestamp_enc i)

  -- the initiator's inputs: `ss` is the secret of its ephemeral key and the responder's static one
  abbrev pub inputs : Identity → Peer → Draws → Bytes → Bytes → Inputs
  inputs id peer draws ts ss = record {
    hash = id.noise_init_hash;
    chain_key = id.noise_init_chain_key;
    responder = peer.handshake.remote_static;
    ephemeral = Primitives.scalarmult_base p (clamp_private_key draws.ephemeral);
    ephemeral_static = ss;
    initiator = id.public_key;
    static_static = peer.handshake.precomputed_static_static;
    timestamp = ts;
  }

  -- the initiator's handshake after the message, of the ephemeral key and the index that it drew
  abbrev pub made_handshake : Inputs → Handshake → Bytes → ℕ → Handshake
  made_handshake i hs priv index = record hs {
    local_ephemeral_priv = priv;
    local_ephemeral_pub = i.ephemeral;
    hash = hash_end i;
    chain_key = (keys_timestamp i).0;
    local_index = index;
    state = HandshakeState.initiation_created;
  }

  -- A message of the transcript was made, and the handshake is at the transcript's end.
  abbrev pub Writes : Inputs → IndexTable × ℕ → Peer → Bytes → Making Initiation → Type 0
  Writes i picked_index peer priv made =
      (made.made ≡ true)
      × (made.index_table ≡ picked_index.0)
      × (made.peer.handshake ≡ made_handshake i peer.handshake priv picked_index.1)
      × (made.msg.msg_type ≡ msg_initiation)
      × (made.msg.sender ≡ picked_index.1)
      × (made.msg.ephemeral ≡ i.ephemeral)
      × (made.msg.static_enc ≡ static_enc i)
      × (made.msg.timestamp_enc ≡ timestamp_enc i)

-- the index that the message draws
abbrev pub picked : IndexTable → Peer → Draws → IndexTable × ℕ
picked table peer draws =
    new_for_handshake (delete table peer.handshake.local_index) peer.peer_id draws.indices
      draws.high

-- What libsodium documents of ChaCha20-Poly1305: decryption gives back what was encrypted, and a
-- ciphertext is longer than its message by the tag.
pub record AeadLaw (p : Primitives) : Type 0 where
  pub opens :
      (key nonce m aad : Bytes)
      → Primitives.aead_decrypt p key nonce (Primitives.aead_encrypt p key nonce m aad) aad ≡ some m
  pub sized :
      (key nonce m aad : Bytes)
      → length (Primitives.aead_encrypt p key nonce m aad) ≡ length m + aead_tag_len

module _ (p : Primitives) (ready : Primitives.sodium_init p ≡ true) (law : AeadLaw p) where
  pub generate_private_key-ready :
      (rnd : Bytes) → generate_private_key p rnd ≡ some (clamp_private_key rnd)
  unfolding generate_private_key
  generate_private_key-ready rnd = ground (arith, random_bytes-ready p ready rnd)

  pub generate_public_key-ready :
      (old priv : Bytes) → generate_public_key p old priv ≡ Primitives.scalarmult_base p priv
  unfolding generate_public_key
  generate_public_key-ready old priv = ground arith

  pub decrypt-encrypted :
      (key nonce m aad : Bytes)
      → decrypt p key nonce (Primitives.aead_encrypt p key nonce m aad) aad ≡ some m
  decrypt-encrypted key nonce m aad =
      decrypt-ready p ready key nonce (Primitives.aead_encrypt p key nonce m aad) aad
        (ground (arith, law.sized key nonce m aad))
      ∙ law.opens key nonce m aad

  -- The responder reads a message of the transcript.
  module _ (i : Inputs) (msg : Initiation) (same_ephemeral : msg.ephemeral ≡ i.ephemeral)
      (same_static : msg.static_enc ≡ static_enc p i)
      (same_timestamp : msg.timestamp_enc ≡ timestamp_enc p i) where
    pub open_static_lem :
        (id : Identity)
        → id.noise_init_hash ≡ i.hash
        → id.noise_init_chain_key ≡ i.chain_key
        → id.public_key ≡ i.responder
        → Primitives.scalarmult p zero_key id.private_key i.ephemeral ≡ (true, i.ephemeral_static)
        → open_static p id msg ≡ some (i.initiator, hash_static p i, (keys_static p i).0)
    unfolding open_static
    open_static_lem id same_hash same_chain same_key same_secret =
        let opened =
          decrypt-encrypted (keys_static p i).1 zero_nonce i.initiator (hash_start p i) in
        let secret = dh-ready p ready zero_key id.private_key i.ephemeral in
        ground (arith, opened, secret)

    pub open_timestamp_lem :
        (hs : Handshake)
        → hs.precomputed_static_static ≡ i.static_static
        → bytes_eq i.static_static zero_key ≡ false
        → open_timestamp p hs msg (hash_static p i) (keys_static p i).0
          ≡ some (i.timestamp, hash_end p i, (keys_timestamp p i).0)
    unfolding open_timestamp
    open_timestamp_lem hs same_secret nonzero =
        let opened =
          decrypt-encrypted (keys_timestamp p i).1 zero_nonce i.timestamp (hash_static p i) in
        ground (arith, opened)

  module _ (id : Identity) (table : IndexTable) (peer : Peer) (msg : Initiation) (draws : Draws)
      (ts : Bytes) (now_ms : ℕ) (ss : Bytes)
      (secret : Primitives.scalarmult p zero_key
          (clamp_private_key draws.ephemeral)
          peer.handshake.remote_static
        ≡ (true, ss))
      (nonzero : bytes_eq peer.handshake.precomputed_static_static zero_key ≡ false)
      (free : (picked table peer draws).1 ≢ 0) where
    abbrev i : Inputs
    i = inputs p id peer draws ts ss

    begin_initiation_lem :
        begin_initiation p id (clamp_private_key draws.ephemeral) peer.handshake
        ≡ record peer.handshake {
          local_ephemeral_priv = clamp_private_key draws.ephemeral;
          local_ephemeral_pub = i.ephemeral;
          hash = hash_start p i;
          chain_key = mix_key p id.noise_init_chain_key i.ephemeral;
        }
    unfolding begin_initiation
    begin_initiation_lem = ground (
      arith,
      generate_public_key-ready peer.handshake.local_ephemeral_pub
          (clamp_private_key draws.ephemeral),
    )

    -- The initiator writes the message of its transcript.
    pub create_initiation_lem :
        Writes p i
          (picked table peer draws)
          peer
          (clamp_private_key draws.ephemeral)
          (create_initiation p id table peer msg draws ts now_ms)
    unfolding create_initiation finish_initiation add_macs
    create_initiation_lem = ground (
      arith,
      generate_private_key-ready draws.ephemeral,
      begin_initiation_lem,
      secret,
      dh-ready p ready zero_key (clamp_private_key draws.ephemeral) peer.handshake.remote_static,
      encrypt-ready p ready (keys_static p i).1 zero_nonce id.public_key (hash_start p i),
      encrypt-ready p ready (keys_timestamp p i).1 zero_nonce ts (hash_static p i),
    )
