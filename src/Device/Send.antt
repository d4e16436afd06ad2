-- ===== src/Device/Send.antt =====
-- src/device.c: staging, encryption and sending of packets, and the start of a handshake.
use wgx.Base.{
  ℕ, ◌+◌, ◌-◌, ◌*◌, ◌/◌, ◌%◌, ◌^◌, Bool, true, false, not, ◌&&◌, ◌||◌, Option, none, some, min,
}
use wgx.Base.{[], ◌∷◌, ◌++◌, ◌==◌, ltb, leb, if◌then◌else◌, length, replicate, set, get_or}
use wgx.Base.Bytes.{Bytes, le_bytes}
use wgx.Crypto.{Primitives, encrypt}
use wgx.Noise.Types.{Keypair, Initiation, sub64}
use wgx.Noise.Index.{update}
use wgx.Noise.Initiation.{Making, create_initiation}
use wgx.Peer.{Peer, Staged, Sockaddr}
use wgx.Timers.{
  is_active, timers_data_sent, timers_handshake_initiated, reject_after_time_ms, rekey_timeout_ms,
}
use wgx.Device.{Device, Env, Datagram}

-- `WG_DEFAULT_MTU`, `PADDING_MULTIPLE`, `PEER_QUEUE_SIZE`, `REKEY_AFTER_MESSAGES` and
-- `REJECT_AFTER_MESSAGES`
abbrev pub default_mtu : ℕ
default_mtu = 1420

abbrev pub padding_multiple : ℕ
padding_multiple = 16

abbrev pub peer_queue_size : ℕ
peer_queue_size = 512

abbrev pub rekey_after_messages : ℕ
rekey_after_messages = 2 ^ 60

abbrev pub reject_after_messages : ℕ
reject_after_messages = 2 ^ 64 - 1 - 2 ^ 13 - 1

unfoldable pub pad_packet : ℕ → ℕ
pad_packet pktlen =
    if pktlen == 0
    then 0
    else min ((pktlen + padding_multiple - 1) / padding_multiple * padding_multiple) default_mtu

-- `peer_stage_packet`; `pkt` is not `NULL` where its length is not 0
unfoldable pub stage_packet : Staged → Bytes → Staged
stage_packet q pkt =
    if (length pkt == 0) || ltb default_mtu (length pkt)
    then q
    else (if ltb q.count peer_queue_size
        then record {
          packets = set q.packets q.tail pkt;
          head = q.head;
          tail = (q.tail + 1) % peer_queue_size;
          count = q.count + 1;
        }
        else q)

-- the head of the queue, and the queue without it: the body of the flush loops
abbrev pub unstage : Staged → Bytes × Staged
unstage q = (
  get_or q.packets q.head [],
  record q { head = (q.head + 1) % peer_queue_size; count = q.count - 1 },
)

abbrev pub set_peer : Device → Peer → Device
set_peer d peer = record d { session = record d.session { peer = peer } }

abbrev pub stage : Device → Bytes → Device
stage d pkt =
    let peer = d.session.peer in set_peer d (record peer { staged = stage_packet peer.staged pkt })

abbrev pub blank_initiation : Initiation
blank_initiation = record {
  msg_type = 0;
  sender = 0;
  ephemeral = [];
  static_enc = [];
  timestamp_enc = [];
  mac1 = [];
  mac2 = [];
}

abbrev pub nonce_bytes : ℕ → Bytes
nonce_bytes counter = replicate 4 0 ++ le_bytes 8 counter

abbrev pub padded : Bytes → Bytes
padded pkt = pkt ++ replicate (pad_packet (length pkt) - length pkt) 0

-- `current_keypair`, or else `next_keypair`
abbrev pub sending_keypair : Peer → Option ℕ
sending_keypair peer = elim peer.current_keypair [ some a ↦ some a | none ↦ peer.next_keypair ]

module _ (p : Primitives) (env : Env) where
  -- the time is noted first; `msg` is a local buffer
  abbrev pub make_initiation : Device → Making Initiation
  make_initiation d =
      let peer = d.session.peer in
      create_initiation p d.identity d.session.index_table
        (record peer { handshake = record peer.handshake { last_sent_handshake_ms = env.now_ms } })
        blank_initiation (env.draws d.drawn) env.timestamp env.now_ms

  -- `device_initiate_handshake_inner`; its status is 0 where the result is `true`
  unfoldable pub initiate_handshake : Bool → Device → Device × Bool
  initiate_handshake force d =
      let peer = d.session.peer in
      if not force && ltb (sub64 env.now_ms peer.handshake.last_sent_handshake_ms) rekey_timeout_ms
      then (d, true)
      else (let made = make_initiation d in
          let d' = record d {
            session = record d.session { index_table = made.index_table; peer = made.peer };
            drawn = d.drawn + 1;
          } in
          if not made.made then (d', false) else elim made.peer.endpoint [
            | none ↦ (d', false)
            | some ep ↦ (
              record d' {
                outbox =
                    if env.sends
                    then d'.outbox ++ ((ep, Datagram.initiation made.msg) ∷ [])
                    else d'.outbox;
                session = record d'.session {
                  peer = timers_handshake_initiated made.peer (env.jitter d.drawn);
                };
              },
              env.sends,
            )
          ])

  -- `timers_handshake_begin` of src/timers.c
  unfoldable pub handshake_begin : Device → Device
  handshake_begin d =
      let t = d.session.peer.timers in
      if not t.active
      then d
      else (if not (is_active t.retransmit_handshake) then (initiate_handshake false d).0 else d)

  -- the datagram is sent and counted, and the keepalive timer starts
  unfoldable pub transmit : Sockaddr → Keypair → ℕ → Bytes → Bytes → Device → Device
  transmit ep kp nonce pkt ciphertext d =
      let total = 16 + pad_packet (length pkt) + 16 in
      let sent =
        if env.sends
        then set_peer
            (record d {
              outbox = d.outbox ++ ((ep, Datagram.transport kp.remote_index nonce ciphertext) ∷ []);
            })
            (record d.session.peer { tx_bytes = (d.session.peer.tx_bytes + total) % 2 ^ 64 })
        else d in
      set_peer sent (timers_data_sent sent.session.peer)

  -- `if (nonce >= REKEY_AFTER_MESSAGES) timers_handshake_begin(dev, peer);`
  unfoldable pub rekey_at : ℕ → Device → Device
  rekey_at nonce d = if leb rekey_after_messages nonce then handshake_begin d else d

  -- from the transport header on: the nonce is taken
  unfoldable pub send_under : Keypair → ℕ → Bytes → Device → Device × Bool
  send_under kp nonce pkt d =
      if not env.buffer
      then (d, false)
      else elim (encrypt p kp.send_key (nonce_bytes nonce) (padded pkt) []) [
        | none ↦ (d, false)
        | some ciphertext ↦ elim d.session.peer.endpoint [
          | none ↦ (d, false)
          | some ep ↦ (rekey_at nonce (transmit ep kp nonce pkt ciphertext d), true)
        ]
      ]

  -- once a keypair is chosen
  unfoldable pub send_with : ℕ → Keypair → Bytes → Device → Device × Bool
  send_with a kp pkt d =
      if leb reject_after_time_ms (sub64 env.now_ms kp.created_at_ms)
      then (handshake_begin (stage d pkt), true)
      else (let nonce = kp.send_nonce in
          let taken = record d {
            session = record d.session {
              keypairs =
                  update d.session.keypairs a
                    (some (record kp { send_nonce = (nonce + 1) % 2 ^ 64 }));
            };
          } in
          if leb reject_after_messages nonce
          then (handshake_begin (stage taken pkt), true)
          else send_under kp nonce pkt (rekey_at nonce taken))

  -- `device_send_to_peer`; a pointer to no keypair, which does not occur, sends nothing
  unfoldable pub send_to_peer : Bytes → Device → Device × Bool
  send_to_peer pkt d =
      if ltb default_mtu (length pkt) then (d, false) else elim (sending_keypair d.session.peer) [
        | none ↦ ((initiate_handshake false (stage d pkt)).0, true)
        | some a ↦ elim (d.session.keypairs a) [
          | none ↦ (d, false)
          | some kp ↦ send_with a kp pkt d
        ]
      ]

  -- `device_send_keepalive`
  abbrev pub send_keepalive : Device → Device × Bool
  send_keepalive d = send_to_peer [] d

  -- one round of the loop at the end of `handle_initiation` and `handle_response`
  unfoldable pub flush_step : Device → Device
  flush_step d =
      let peer = d.session.peer in
      let (pkt, q) = unstage peer.staged in
      (send_to_peer pkt (set_peer d (record peer { staged = q }))).0
