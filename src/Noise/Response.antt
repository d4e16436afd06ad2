-- ===== src/Noise/Response.antt =====
-- src/noise.c: `noise_create_response` and `noise_consume_response`.
pub mod Agree
use wgx.Base.{
  ℕ, Bool, true, false, ◌&&◌, not, Option, none, some, List, [], ◌∷◌, ◌==◌, if◌then◌else◌,
}
use wgx.Base.Bytes.{Bytes}
use wgx.Crypto.{Primitives, generate_private_key, generate_public_key, dh, kdf3, encrypt, decrypt}
use wgx.Noise.Types.{Handshake, HandshakeState, Response, response_head, msg_response}
use wgx.Noise.Index.{IndexTable, Entry, EntryType, delete, new_for_handshake, lookup}
use wgx.Noise.Mix.{Identity, mix_hash, mix_key, zero_nonce, zero_key}
use wgx.Noise.Cookie.{add_macs}
use wgx.Noise.Initiation.{Draws, Making, stopped, put_peer}
use wgx.Peer.{Peer}

abbrev pub is_state : HandshakeState → HandshakeState → Bool
is_state HandshakeState.zeroed HandshakeState.zeroed = true
is_state HandshakeState.initiation_created HandshakeState.initiation_created = true
is_state HandshakeState.initiation_consumed HandshakeState.initiation_consumed = true
is_state HandshakeState.response_created HandshakeState.response_created = true
is_state HandshakeState.response_consumed HandshakeState.response_consumed = true
is_state _ _ = false

-- the peer that an entry or a pointer names
unfoldable pub peer_at : List Peer → ℕ → Option Peer
peer_at [] n = none
peer_at (q ∷ peers) n = if q.peer_id == n then some q else peer_at peers n

module _ (p : Primitives) where
  -- the ephemeral key, up to `mix_key`
  unfoldable pub begin_response : Bytes → Handshake → Handshake
  begin_response priv hs =
      let eph = generate_public_key p hs.local_ephemeral_pub priv in
      record hs {
        local_ephemeral_priv = priv;
        local_ephemeral_pub = eph;
        hash = mix_hash p hs.hash eph;
        chain_key = mix_key p hs.chain_key eph;
      }

  -- from the preshared key on
  unfoldable pub finish_response : ℕ → Making Response → Making Response
  finish_response now_ms m =
      let hs = m.peer.handshake in
      let (ck, tau, key) = kdf3 p hs.chain_key hs.psk in
      let hs1 = record hs { chain_key = ck; hash = mix_hash p hs.hash tau } in
      elim (encrypt p key zero_nonce [] hs1.hash) [
        | none ↦ record m { peer = record m.peer { handshake = hs1 } }
        | some empty_enc ↦
            (let msg = record m.msg { empty_enc = empty_enc } in
              let (cookie, mac1, mac2) = add_macs p m.peer.cookie (response_head msg) now_ms in
              record m {
                peer = record m.peer {
                  handshake = record hs1 {
                    hash = mix_hash p hs1.hash empty_enc;
                    state = HandshakeState.response_created;
                  };
                  cookie = cookie;
                };
                msg = record msg { mac1 = mac1; mac2 = mac2 };
                made = true;
              })
      ]

  -- once the index is drawn: the ephemeral key and the two secrets
  unfoldable pub mix_response :
      IndexTable → Peer → Handshake → Response → Bytes → ℕ → Making Response
  mix_response table peer hs msg rnd now_ms =
      let stop = stopped {Msg = Response} table peer in
      elim (generate_private_key p rnd) [
        | none ↦ stop hs msg
        | some priv ↦
            (let hs1 = begin_response priv hs in
              let msg1 = record msg { ephemeral = hs1.local_ephemeral_pub } in
              let (ok, ss) = dh p zero_key priv hs1.remote_ephemeral in
              if not ok
              then stop hs1 msg1
              else (let hs2 = record hs1 { chain_key = mix_key p hs1.chain_key ss } in
                  let (ok', ss') = dh p zero_key priv hs2.remote_static in
                  if not ok'
                  then stop hs2 msg1
                  else finish_response now_ms
                      (stop (record hs2 { chain_key = mix_key p hs2.chain_key ss' }) msg1)))
      ]

  unfoldable pub create_response : IndexTable → Peer → Response → Draws → ℕ → Making Response
  create_response table peer msg draws now_ms =
      let hs = peer.handshake in
      if not (is_state hs.state HandshakeState.initiation_consumed)
      then stopped table peer hs msg
      else (let (table', index) =
            new_for_handshake (delete table hs.local_index) peer.peer_id draws.indices draws.high in
          let hs1 = record hs { local_index = index } in
          if index == 0
          then stopped table' peer hs1 msg
          else mix_response table' peer hs1
              (record msg { msg_type = msg_response; sender = index; receiver = hs.remote_index })
              draws.ephemeral now_ms)

  -- The hash and the chaining key that the message ends in, if it is authentic
  unfoldable pub open_response : Identity → Handshake → Response → Option (Bytes × Bytes)
  open_response id hs msg =
      let hash = mix_hash p hs.hash msg.ephemeral in
      let ck = mix_key p hs.chain_key msg.ephemeral in
      let (ok, ss) = dh p zero_key hs.local_ephemeral_priv msg.ephemeral in
      if not ok
      then none
      else (let ck1 = mix_key p ck ss in
          let (ok', ss') = dh p zero_key id.private_key msg.ephemeral in
          if not ok'
          then none
          else (let (ck3, tau, key) = kdf3 p (mix_key p ck1 ss') hs.psk in
              let hash' = mix_hash p hash tau in
              elim (decrypt p key zero_nonce msg.empty_enc hash') [
                | none ↦ none
                | some m ↦ some (mix_hash p hash' msg.empty_enc, ck3)
              ]))

  abbrev is_handshake : Entry → Bool
  is_handshake e = elim e.entry_type [
    | EntryType.idx_handshake ↦ true
    | EntryType.idx_keypair ↦ false
  ]

  -- Returns the peers, and the one that the message is from, as it is then
  unfoldable pub consume_response :
      Identity → IndexTable → List Peer → Response → List Peer × Option Peer
  consume_response id table peers msg =
      if not (msg.msg_type == msg_response)
      then (peers, none)
      else elim (lookup table msg.receiver) [
        | none ↦ (peers, none)
        | some entry ↦
            (if not (is_handshake entry) then (peers, none) else elim entry.handshake [
              | none ↦ (peers, none)
              | some at ↦ elim (peer_at peers at) [
                | none ↦ (peers, none)
                | some peer ↦
                    (if not (is_state peer.handshake.state HandshakeState.initiation_created)
                      then (peers, none)
                      else elim (open_response id peer.handshake msg) [
                        | none ↦ (peers, none)
                        | some (hash, chain_key) ↦
                            (let peer' = record peer {
                              handshake = record peer.handshake {
                                hash = hash;
                                chain_key = chain_key;
                                remote_index = msg.sender;
                                state = HandshakeState.response_consumed;
                              };
                            } in
                              (put_peer peers peer', some peer'))
                      ])
              ]
            ])
      ]
