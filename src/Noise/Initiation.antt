-- ===== src/Noise/Initiation.antt =====
-- src/noise.c: `noise_create_initiation` and `noise_consume_initiation`. What is read of a local
-- buffer before it is written, as the buffer of a Diffie-Hellman result, is zeros.
pub mod Agree
pub mod Peers
pub mod Fresh
use wgx.Base.{
  ℕ, Bool, true, false, ◌&&◌, ◌||◌, not, Option, none, some, List, [], ◌∷◌, ◌==◌, leb,
  if◌then◌else◌, max,
}
use wgx.Base.Bytes.{Bytes, bytes_eq}
use wgx.Crypto.{Primitives, generate_private_key, generate_public_key, dh, kdf2, encrypt, decrypt}
use wgx.Tai64n.{tai64n_after}
use wgx.Noise.Types.{
  Handshake, HandshakeState, Initiation, initiation_head, msg_initiation, handshake_init_rate_ms,
  sub64,
}
use wgx.Noise.Index.{IndexTable, delete, new_for_handshake}
use wgx.Noise.Mix.{Identity, mix_hash, mix_key, zero_nonce, zero_key}
use wgx.Noise.Cookie.{add_macs}
use wgx.Peer.{Peer}

-- The random words of one message: for the ephemeral key, and for the index.
pub record Draws : Type 0 where
  pub ephemeral : Bytes
  pub indices : List ℕ
  pub high : ℕ

-- What the construction of a message has written when it stops, and whether it got to the end.
pub record Making (Msg : Type 0) : Type 0 where
  pub index_table : IndexTable
  pub peer : Peer
  pub msg : Msg
  pub made : Bool

abbrev pub stopped : {Msg : Type 0} → IndexTable → Peer → Handshake → Msg → Making Msg
stopped table peer hs msg = record {
  index_table = table;
  peer = record peer { handshake = hs };
  msg = msg;
  made = false;
}

-- `wg_ct_equal(hs->precomputed_static_static, zeros)`
abbrev pub has_static_static : Handshake → Bool
has_static_static hs = not (bytes_eq hs.precomputed_static_static zero_key)

unfoldable pub find_peer : List Peer → Bytes → Option Peer
find_peer [] pk = none
find_peer (peer ∷ peers) pk = if bytes_eq peer.public_key pk then some peer else find_peer peers pk

-- `replay` and `flood`
unfoldable pub refused : Handshake → Bytes → ℕ → Bool
refused hs ts now_ms =
    not (tai64n_after ts hs.last_timestamp)
    || leb (sub64 now_ms hs.last_initiation_consumption_ms) handshake_init_rate_ms

unfoldable pub accept_initiation : Handshake → Initiation → Bytes → Bytes → Bytes → ℕ → Handshake
accept_initiation hs msg ts hash chain_key now_ms = record hs {
  hash = hash;
  chain_key = chain_key;
  remote_ephemeral = msg.ephemeral;
  remote_index = msg.sender;
  last_timestamp = if tai64n_after ts hs.last_timestamp then ts else hs.last_timestamp;
  last_initiation_consumption_ms = max now_ms hs.last_initiation_consumption_ms;
  state = HandshakeState.initiation_consumed;
}

-- writing through the pointer to a peer
unfoldable pub put_peer : List Peer → Peer → List Peer
put_peer [] peer = []
put_peer (q ∷ peers) peer =
    if q.peer_id == peer.peer_id then peer ∷ peers else q ∷ put_peer peers peer

module _ (p : Primitives) where
  -- up to `mixHash(ephemeral_pub)`
  unfoldable pub begin_initiation : Identity → Bytes → Handshake → Handshake
  begin_initiation id priv hs =
      let eph = generate_public_key p hs.local_ephemeral_pub priv in
      record hs {
        local_ephemeral_priv = priv;
        local_ephemeral_pub = eph;
        hash = mix_hash p (mix_hash p id.noise_init_hash hs.remote_static) eph;
        chain_key = mix_key p id.noise_init_chain_key eph;
      }

  -- from the index on, once the timestamp is encrypted
  unfoldable pub finish_initiation : Draws → ℕ → Making Initiation → Making Initiation
  finish_initiation draws now_ms m =
      let hs = m.peer.handshake in
      let (table, sender) =
        new_for_handshake (delete m.index_table hs.local_index) m.peer.peer_id draws.indices
          draws.high in
      if sender == 0
      then record m { index_table = table }
      else (let msg = record m.msg { sender = sender } in
          let (cookie, mac1, mac2) = add_macs p m.peer.cookie (initiation_head msg) now_ms in
          record {
            index_table = table;
            peer = record m.peer {
              handshake = record hs {
                local_index = sender;
                hash = mix_hash p hs.hash msg.timestamp_enc;
                state = HandshakeState.initiation_created;
              };
              cookie = cookie;
            };
            msg = record msg { mac1 = mac1; mac2 = mac2 };
            made = true;
          })

  -- `ts` is the answer of `tai64n_now`
  unfoldable pub create_initiation :
      Identity → IndexTable → Peer → Initiation → Draws → Bytes → ℕ → Making Initiation
  create_initiation id table peer msg draws ts now_ms =
      let stop = stopped {Msg = Initiation} table peer in
      elim (generate_private_key p draws.ephemeral) [
        | none ↦ stop peer.handshake msg
        | some priv ↦
            (let hs = begin_initiation id priv peer.handshake in
              let msg1 = record msg {
                msg_type = msg_initiation;
                ephemeral = hs.local_ephemeral_pub;
              } in
              let (ok, ss) = dh p zero_key priv hs.remote_static in
              if not ok
              then stop hs msg1
              else (let (ck, key) = kdf2 p hs.chain_key ss in
                  let hs1 = record hs { chain_key = ck } in
                  elim (encrypt p key zero_nonce id.public_key hs1.hash) [
                    | none ↦ stop hs1 msg1
                    | some static_enc ↦
                        (let msg2 = record msg1 { static_enc = static_enc } in
                          let hs2 = record hs1 { hash = mix_hash p hs1.hash static_enc } in
                          if not (has_static_static hs2)
                          then stop hs2 msg2
                          else (let (ck2, key2) =
                                kdf2 p hs2.chain_key hs2.precomputed_static_static in
                              let hs3 = record hs2 { chain_key = ck2 } in
                              elim (encrypt p key2 zero_nonce ts hs3.hash) [
                                | none ↦ stop hs3 msg2
                                | some timestamp_enc ↦
                                    finish_initiation draws now_ms
                                      (stop hs3 (record msg2 { timestamp_enc = timestamp_enc }))
                              ]))
                  ]))
      ]

  -- The peer's static key, and the hash and the chaining key so far
  unfoldable pub open_static : Identity → Initiation → Option (Bytes × Bytes × Bytes)
  open_static id msg =
      let hash = mix_hash p (mix_hash p id.noise_init_hash id.public_key) msg.ephemeral in
      let chain_key = mix_key p id.noise_init_chain_key msg.ephemeral in
      let (ok, ss) = dh p zero_key id.private_key msg.ephemeral in
      if not ok
      then none
      else (let (ck, key) = kdf2 p chain_key ss in
          elim (decrypt p key zero_nonce msg.static_enc hash) [
            | none ↦ none
            | some peer_pk ↦ some (peer_pk, mix_hash p hash msg.static_enc, ck)
          ])

  -- The timestamp, and the hash and the chaining key after it
  unfoldable pub open_timestamp :
      Handshake → Initiation → Bytes → Bytes → Option (Bytes × Bytes × Bytes)
  open_timestamp hs msg hash chain_key =
      if not (has_static_static hs)
      then none
      else (let (ck, key) = kdf2 p chain_key hs.precomputed_static_static in
          elim (decrypt p key zero_nonce msg.timestamp_enc hash) [
            | none ↦ none
            | some ts ↦ some (ts, mix_hash p hash msg.timestamp_enc, ck)
          ])

  -- Returns the peers, and the one that the message is from, as it is then
  unfoldable pub consume_initiation :
      Identity → List Peer → Initiation → ℕ → List Peer × Option Peer
  consume_initiation id peers msg now_ms =
      if not (msg.msg_type == msg_initiation) then (peers, none) else elim (open_static id msg) [
        | none ↦ (peers, none)
        | some (peer_pk, hash, chain_key) ↦ elim (find_peer peers peer_pk) [
          | none ↦ (peers, none)
          | some peer ↦ elim (open_timestamp peer.handshake msg hash chain_key) [
            | none ↦ (peers, none)
            | some (ts, hash', chain_key') ↦
                (if refused peer.handshake ts now_ms
                  then (peers, none)
                  else (let peer' = record peer {
                    handshake = accept_initiation peer.handshake msg ts hash' chain_key' now_ms;
                  } in
                      (put_peer peers peer', some peer')))
          ]
        ]
      ]
