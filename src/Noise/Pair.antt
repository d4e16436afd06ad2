-- ===== src/Noise/Pair.antt =====
-- Two devices that know each other's public keys, for the handshake of src/noise.c.
pub mod First
pub mod Whole
use wgx.Base.{ℕ, List, ◌≡◌, ◌∙◌, sym, ap, true, false, refl, ◌++◌, arith}
use wgx.Base.Bytes.{Bytes, bytes_eq}
use wgx.Crypto.{Primitives}
use wgx.Noise.Types.{Handshake, Initiation, Response}
use wgx.Noise.Index.{IndexTable}
use wgx.Noise.Mix.{Identity, zero_key}
use wgx.Noise.Initiation.{Draws}
use wgx.Peer.{Peer}

-- What libsodium documents of X25519: for public keys that are honest the secret exists, it is the
-- same from both sides, and it is not all zeros.
pub record DhLaw (p : Primitives) : Type 0 where
  pub succeeds :
      (buf a b : Bytes) → (Primitives.scalarmult p buf a (Primitives.scalarmult_base p b)).0 ≡ true
  pub agrees :
      (buf buf' a b : Bytes)
      → (Primitives.scalarmult p buf a (Primitives.scalarmult_base p b)).1
        ≡ (Primitives.scalarmult p buf' b (Primitives.scalarmult_base p a)).1
  pub nonzero :
      (buf a b : Bytes)
      → bytes_eq (Primitives.scalarmult p buf a (Primitives.scalarmult_base p b)).1 zero_key ≡ false

-- The two identities, and what each side's handshake holds of the other: `device_set_private_key`,
-- `noise_init_device`, `noise_handshake_init` and `noise_precompute_static_static` make it so.
pub record IsPaired (p : Primitives) (initiator responder : Identity)
    (at_initiator at_responder : Handshake) : Type 0 where
  pub initiator_key : initiator.public_key ≡ Primitives.scalarmult_base p initiator.private_key
  pub responder_key : responder.public_key ≡ Primitives.scalarmult_base p responder.private_key
  pub same_chain_key : responder.noise_init_chain_key ≡ initiator.noise_init_chain_key
  pub same_hash : responder.noise_init_hash ≡ initiator.noise_init_hash
  pub knows_responder : at_initiator.remote_static ≡ responder.public_key
  pub knows_initiator : at_responder.remote_static ≡ initiator.public_key
  pub initiator_secret :
      at_initiator.precomputed_static_static
      ≡ (Primitives.scalarmult p zero_key initiator.private_key responder.public_key).1
  pub responder_secret :
      at_responder.precomputed_static_static
      ≡ (Primitives.scalarmult p zero_key responder.private_key initiator.public_key).1
  pub same_psk : at_responder.psk ≡ at_initiator.psk

-- One handshake: the two devices, the initiator's peer and index table, the responder's peers, the
-- one that is the initiator, and its index table, and for each message the buffer, the random words and
-- the times.
pub record Exchange : Type 0 where
  pub initiator : Identity
  pub responder : Identity
  pub peer : Peer
  pub table : IndexTable
  pub peers : List Peer
  pub known : Peer
  pub responder_table : IndexTable
  pub buffer : Initiation
  pub draws : Draws
  pub timestamp : Bytes
  pub sent_ms : ℕ
  pub received_ms : ℕ
  pub response_buffer : Response
  pub response_draws : Draws
  pub replied_ms : ℕ

module _ (p : Primitives) (law : DhLaw p) where
  pub secret_pair :
      (buf a b : Bytes)
      → Primitives.scalarmult p buf a (Primitives.scalarmult_base p b)
        ≡ (true, (Primitives.scalarmult p buf a (Primitives.scalarmult_base p b)).1)
  secret_pair buf a b =
      ap (λ t. (t, (Primitives.scalarmult p buf a (Primitives.scalarmult_base p b)).1))
        (law.succeeds buf a b)

  pub secret_agrees :
      (buf buf' a b : Bytes)
      → Primitives.scalarmult p buf a (Primitives.scalarmult_base p b)
        ≡ (true, (Primitives.scalarmult p buf' b (Primitives.scalarmult_base p a)).1)
  secret_agrees buf buf' a b =
      secret_pair buf a b ∙ ap (λ (t : Bytes). (true, t)) (law.agrees buf buf' a b)
