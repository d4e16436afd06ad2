-- ===== src/Device/Receive.antt =====
-- src/device.c: a transport message that comes in, in TUN mode. The peer of the device is the one
-- that the index table has for the message.
pub mod RoundTrip
use wgx.Base.{
  ℕ, ◌+◌, ◌-◌, ◌*◌, ◌/◌, ◌%◌, ◌^◌, Bool, true, false, not, ◌&&◌, ◌||◌, Option, none, some, bit_and,
  List, [], ◌∷◌, ◌++◌,
}
use wgx.Base.{◌==◌, ltb, if◌then◌else◌, length, get_or, take, drop}
use wgx.Base.Bytes.{Bytes}
use wgx.Crypto.{Primitives, decrypt}
use wgx.Replay.{check, commit}
use wgx.AllowedIps.{AllowedIps, lookup_v4, lookup_v6}
use wgx.Noise.Types.{Keypair}
use wgx.Noise.Index.{Entry, EntryType, lookup, update}
use wgx.Noise.Session.{Session, confirm_next}
use wgx.Peer.{Peer, Sockaddr}
use wgx.Timers.{timers_data_received, timers_keepalive_received}
use wgx.Device.{Device, Env}
use wgx.Device.Send.{set_peer, nonce_bytes, reject_after_messages}

-- the version field of an IP packet
abbrev pub version_of : Bytes → ℕ
version_of pkt = bit_and (get_or pkt 0 0 / 16) 0xf

-- the word in network order at `i`
abbrev pub be16_at : Bytes → ℕ → ℕ
be16_at pkt i = get_or pkt i 0 * 256 + get_or pkt (i + 1) 0

-- `transport_plaintext_len`: the length of the packet inside the padding
unfoldable pub transport_plaintext_len : Bytes → ℕ → Option ℕ
transport_plaintext_len plaintext padded_len =
    if padded_len == 0
    then some 0
    else (if version_of plaintext == 4
        then (let ihl = bit_and (get_or plaintext 0 0) 0xf * 4 in
            let total_len = be16_at plaintext 2 in
            if ltb padded_len 20
            then none
            else (if ltb ihl 20 || (ltb total_len ihl || ltb padded_len total_len)
                then none
                else some total_len))
        else (if version_of plaintext == 6
            then (let total_len = 40 + be16_at plaintext 4 in
                if ltb padded_len 40
                then none
                else (if ltb padded_len total_len then none else some total_len))
            else none))

abbrev is_peer : Option ℕ → Peer → Bool
is_peer found peer = elim found [ some n ↦ n == peer.peer_id | none ↦ false ]

-- the source of the packet is routed to the peer, by its own table or by the device's
unfoldable pub is_allowed : AllowedIps → Peer → Bytes → ℕ → Bool
is_allowed routes peer plaintext ptlen =
    if (version_of plaintext == 4) && not (ltb ptlen 20)
    then (let saddr = take 4 (drop 12 plaintext) in
        is_peer (lookup_v4 peer.allowedips saddr) peer || is_peer (lookup_v4 routes saddr) peer)
    else (if (version_of plaintext == 6) && not (ltb ptlen 40)
        then (let src = take 16 (drop 8 plaintext) in
            is_peer (lookup_v6 peer.allowedips src) peer || is_peer (lookup_v6 routes src) peer)
        else false)

-- from `atomic_fetch_add(&peer->rx_bytes, len)` on
unfoldable pub deliver : Device → Sockaddr → ℕ → ℕ → Bytes → ℕ → Device
deliver d src a len plaintext ptlen =
    let peer = d.session.peer in
    let received =
      timers_data_received (record peer { rx_bytes = (peer.rx_bytes + len) % 2 ^ 64 }) in
    let session = confirm_next (record d.session { peer = received }) a in
    let d' = record d {
      session = record session { peer = record session.peer { endpoint = some src } };
    } in
    if ptlen == 0
    then set_peer d' (timers_keepalive_received d'.session.peer)
    else (if is_allowed d.routes d'.session.peer plaintext ptlen
        then record d' { written = d'.written ++ (take ptlen plaintext ∷ []) }
        else d')

module _ (p : Primitives) (env : Env) where
  -- once the keypair is found
  unfoldable pub receive_under : Device → Sockaddr → ℕ → Keypair → ℕ → Bytes → Device
  receive_under d src a kp counter ciphertext =
      if not (check kp.replay counter reject_after_messages)
      then d
      else (if not env.buffer
          then d
          else elim (decrypt p kp.recv_key (nonce_bytes counter) ciphertext []) [
            | none ↦ d
            | some plaintext ↦
                (let (replay, ok) = commit kp.replay counter reject_after_messages in
                  let d' = record d {
                    session = record d.session {
                      keypairs = update d.session.keypairs a (some (record kp { replay = replay }));
                    };
                  } in
                  if not ok
                  then d'
                  else elim (transport_plaintext_len plaintext (length ciphertext - 16)) [
                    | none ↦ d'
                    | some ptlen ↦ deliver d' src a (16 + length ciphertext) plaintext ptlen
                  ])
          ])

  abbrev keypair_of : Entry → Option ℕ
  keypair_of e = elim e.entry_type [
    | EntryType.idx_keypair ↦ e.keypair
    | EntryType.idx_handshake ↦ none
  ]

  unfoldable pub handle_transport : Device → Sockaddr → ℕ → ℕ → Bytes → Device
  handle_transport d src receiver counter ciphertext =
      if ltb (16 + length ciphertext) 32 then d else elim (lookup d.session.index_table receiver) [
        | none ↦ d
        | some entry ↦ elim (keypair_of entry) [
          | none ↦ d
          | some a ↦ elim (d.session.keypairs a) [
            | none ↦ d
            | some kp ↦ receive_under d src a kp counter ciphertext
          ]
        ]
      ]
