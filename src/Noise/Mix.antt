-- ===== src/Noise/Mix.antt =====
-- The running hash and chaining key of the handshake, and the values that it starts from.
use wgx.Base.{◌++◌, [], Option, none, some, replicate}
use wgx.Base.Bytes.{Bytes}
use wgx.Base.Text.{ascii}
use wgx.Crypto.{Primitives, blake2s256, kdf1, dh, key_len, hash_len}
use wgx.Noise.Types.{Handshake, HandshakeState, tai64n_size}

-- `NOISE_CONSTRUCTION`, `WG_IDENTIFIER`, `WG_LABEL_MAC1` and `WG_LABEL_COOKIE`
abbrev pub noise_construction : Bytes
noise_construction = ascii "Noise_IKpsk2_25519_ChaChaPoly_BLAKE2s"

abbrev pub wg_identifier : Bytes
wg_identifier = ascii "WireGuard v1 zx2c4 Jason@zx2c4.com"

abbrev pub label_mac1 : Bytes
label_mac1 = ascii "mac1----"

abbrev pub label_cookie : Bytes
label_cookie = ascii "cookie--"

-- the nonce of every handshake message, and the key that no peer has
abbrev pub zero_nonce : Bytes
zero_nonce = replicate 12 0

abbrev pub zero_key : Bytes
zero_key = replicate key_len 0

-- `dev->noise_init_chain_key` and `dev->noise_init_hash`, and the identity of the device
pub record Identity : Type 0 where
  pub private_key : Bytes
  pub public_key : Bytes
  pub noise_init_chain_key : Bytes
  pub noise_init_hash : Bytes

-- `noise_handshake_init`, over what the handshake holds; the psk is `none` for `NULL`
unfoldable pub handshake_init : Handshake → Bytes → Option Bytes → Handshake
handshake_init hs remote_static psk = record hs {
  state = HandshakeState.zeroed;
  remote_static = remote_static;
  psk = elim psk [ some k ↦ k | none ↦ replicate 32 0 ];
  last_timestamp = replicate tai64n_size 0;
  last_initiation_consumption_ms = 0;
  last_sent_handshake_ms = 0;
}

unfoldable pub handshake_clear : Handshake → Handshake
handshake_clear hs = record hs {
  hash = replicate 32 0;
  chain_key = replicate 32 0;
  local_ephemeral_priv = replicate 32 0;
  local_ephemeral_pub = replicate 32 0;
  remote_ephemeral = replicate 32 0;
  local_index = 0;
  remote_index = 0;
  last_sent_handshake_ms = 0;
  state = HandshakeState.zeroed;
}

module _ (p : Primitives) where
  unfoldable pub mix_hash : Bytes → Bytes → Bytes
  mix_hash h m = Primitives.blake2s p hash_len [] (h ++ m)

  unfoldable pub mix_key : Bytes → Bytes → Bytes
  mix_key ck m = kdf1 p ck m

  unfoldable pub init_device : Identity → Identity
  init_device id =
      let ck = blake2s256 p noise_construction in
      record id { noise_init_chain_key = ck; noise_init_hash = mix_hash ck wg_identifier }

  unfoldable pub precompute_static_static : Identity → Bytes → Handshake → Handshake
  precompute_static_static id peer_public_key hs = record hs {
    precomputed_static_static =
        (dh p hs.precomputed_static_static id.private_key peer_public_key).1;
  }
