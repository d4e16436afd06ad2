-- ===== src/Noise/Fixture.antt =====
-- A stand-in for libsodium that keeps its laws, and two devices, for the tests of src/noise.c and
-- src/device.c.
use wgx.Base.{
  ℕ, ◌+◌, ◌-◌, ◌≡◌, refl, ap, ◌∙◌, arith, true, false, none, some, List, [], ◌∷◌, ◌++◌, length,
  take, replicate, get_or,
}
use wgx.Base.{length-append}
use wgx.Base.Bytes.{bytes_eq}
use wgx.Crypto.{Primitives}
use wgx.Noise.Types.{Handshake, HandshakeState}
use wgx.Noise.Index.{IndexTable, zero_entry}
use wgx.Noise.Mix.{Identity}
use wgx.Noise.Initiation.{Draws}
use wgx.Noise.Initiation.Agree.{AeadLaw}
use wgx.Noise.Pair.{DhLaw, IsPaired, Exchange}
use wgx.AllowedIps.{nil}
use wgx.Peer.{Peer, sockaddr_in}

-- the tag is zeros, the public key is the private one, the secret is the sum, and the hash is the message
abbrev pub toy : Primitives
toy = record {
  sodium_init = true;
  scalarmult_base = λ a. get_or a 0 0 ∷ [];
  scalarmult = λ buf a b. (true, 1 ∷ (get_or a 0 0 + get_or b 0 0) ∷ []);
  aead_encrypt = λ key nonce m aad. m ++ replicate 16 0;
  aead_decrypt = λ key nonce c aad. some (take (length c - 16) c);
  xaead_encrypt = λ key nonce m aad. m;
  xaead_decrypt = λ key nonce c aad. some c;
  blake2s = λ n key m. take 2 m;
}

take-append_exact {ℓ} : {A : Type ℓ} (xs ys : List A) → take (length xs) (xs ++ ys) ≡ xs
take-append_exact [] ys = refl
take-append_exact (x ∷ xs) ys = ap (λ (t : List _). x ∷ t) (take-append_exact xs ys)

pub toy-AeadLaw : AeadLaw toy
toy-AeadLaw = record {
  opens = λ key nonce m aad. ap some (
      ap (λ (t : ℕ). take t (m ++ replicate 16 0))
        (ground (arith, length-append m (replicate 16 0)))
      ∙ take-append_exact m (replicate 16 0));
  sized = λ key nonce m aad. length-append m (replicate 16 0);
}

pub toy-DhLaw : DhLaw toy
unfolding bytes_eq
toy-DhLaw = record {
  succeeds = λ buf a b. refl;
  agrees = λ buf buf' a b. ap (λ (t : ℕ). 1 ∷ t ∷ []) (omega arith);
  nonzero = λ buf a b. refl;
}

abbrev pub device : ℕ → Identity
device n = record {
  private_key = n ∷ [];
  public_key = n ∷ [];
  noise_init_chain_key = 7 ∷ 8 ∷ [];
  noise_init_hash = 8 ∷ 7 ∷ [];
}

-- the handshake with the device `n`, with which the secret is `secret`
abbrev pub handshake_with : ℕ → ℕ → Handshake
handshake_with n secret = record {
  state = HandshakeState.zeroed;
  hash = [];
  chain_key = [];
  psk = replicate 32 0;
  local_ephemeral_priv = [];
  local_ephemeral_pub = [];
  local_index = 0;
  remote_index = 0;
  remote_static = n ∷ [];
  remote_ephemeral = [];
  precomputed_static_static = 1 ∷ secret ∷ [];
  last_timestamp = replicate 12 0;
  last_initiation_consumption_ms = 0;
  last_sent_handshake_ms = 0;
}

abbrev pub peer_with : ℕ → ℕ → Peer
peer_with n secret = record {
  peer_id = 100 + n;
  public_key = n ∷ [];
  psk = replicate 32 0;
  handshake = handshake_with n secret;
  cookie = record {
    mac1_key = [];
    mac2_key = [];
    cookie = [];
    cookie_set_ms = 0;
    has_last_mac1 = false;
    last_mac1 = [];
  };
  current_keypair = none;
  next_keypair = none;
  prev_keypair = none;
  endpoint = some (sockaddr_in (127 ∷ 0 ∷ 0 ∷ 1 ∷ []) (0 ∷ 1 ∷ []));
  tx_bytes = 0;
  rx_bytes = 0;
  last_handshake_ns = 0;
  persistent_keepalive_ms = 0;
  timers = record {
    retransmit_handshake = none;
    send_keepalive = none;
    new_handshake = none;
    zero_key_material = none;
    persistent_keepalive = none;
    close_count = 5;
    active = true;
  };
  handshake_attempts = 0;
  need_another_keepalive = false;
  staged = record { packets = replicate 512 []; head = 0; tail = 0; count = 0 };
  allowedips = record { root4 = nil; root6 = nil };
}

abbrev pub empty_table : IndexTable
empty_table = record { entries = λ slot. zero_entry; occupied = λ slot. false }

abbrev pub draws_of : ℕ → Draws
draws_of n = record { ephemeral = replicate 32 n; indices = n ∷ []; high = 0 }

-- the device 1 shakes hands with the device 2
abbrev pub exchange : Exchange
exchange = record {
  initiator = device 1;
  responder = device 2;
  peer = peer_with 2 3;
  table = empty_table;
  peers = peer_with 1 3 ∷ [];
  known = peer_with 1 3;
  responder_table = empty_table;
  buffer = record {
    msg_type = 0;
    sender = 0;
    ephemeral = [];
    static_enc = [];
    timestamp_enc = [];
    mac1 = [];
    mac2 = [];
  };
  draws = draws_of 21;
  timestamp = 64 ∷ replicate 11 5;
  sent_ms = 1000;
  received_ms = 1001;
  response_buffer = record {
    msg_type = 0;
    sender = 0;
    receiver = 0;
    ephemeral = [];
    empty_enc = [];
    mac1 = [];
    mac2 = [];
  };
  response_draws = draws_of 33;
  replied_ms = 1002;
}

pub exchange-IsPaired :
    IsPaired toy exchange.initiator exchange.responder exchange.peer.handshake
      exchange.known.handshake
exchange-IsPaired = record {
  initiator_key = refl;
  responder_key = refl;
  same_chain_key = refl;
  same_hash = refl;
  knows_responder = refl;
  knows_initiator = refl;
  initiator_secret = refl;
  responder_secret = refl;
  same_psk = refl;
}
