-- ===== src/Device/Tests.antt =====
-- Packets through src/device.c from concrete states, and the theorems at those states.
use wgx.Base.{
  ℕ, ◌≡◌, ◌≢◌, refl, arith, true, none, some, [], ◌∷◌, ◌++◌, length, replicate, if◌then◌else◌,
}
use wgx.Base.Bytes.{Bytes, bytes_eq}
use wgx.Crypto.{generate_private_key, dh, encrypt}
use wgx.Replay
use wgx.Replay.{check, reset}
use wgx.AllowedIps.{lookup_v4, Trie, nil, node}
use wgx.Noise.Types.{Keypair}
use wgx.Noise.Index.{
  Entry, lookup, idx_keypair, update, delete, new_for_handshake, pick_random_index, pick_drawn,
}
use wgx.Noise.Initiation.{begin_initiation, create_initiation, finish_initiation}
use wgx.Noise.Fixture.{toy, toy-AeadLaw, device, peer_with, draws_of, empty_table}
use wgx.Peer.{Staged, Sockaddr, sockaddr_in}
use wgx.Device.{Device, Env}
use wgx.Device.Send.{stage_packet, unstage, padded, nonce_bytes, reject_after_messages}
use wgx.Device.Queue.{IsRing, waiting, is_staged, waiting-stage_packet, waiting-unstage}
use wgx.Device.Nonce.{is_ascending, all_below, send_all, counters_ascend}
use wgx.Device.Counters.{counters}
use wgx.Device.Flush.{flush, IsStuck, flush_never_ends}
use wgx.Device.Drain.{IsUsable, flush_ends}
use wgx.Timers.{is_active}
use wgx.Device.Callbacks.Retries.{sendable, counted, fire, retransmit_gives_up}
use wgx.Device.Receive.{is_allowed, handle_transport}
use wgx.Device.Receive.RoundTrip.{tunnel_round_trip}

-- an IPv4 packet of 24 bytes from 10.0.0.9
abbrev packet : Bytes
packet =
    69 ∷ 0 ∷ 0 ∷ 24 ∷ 0 ∷ 0 ∷ 0 ∷ 0 ∷ 64 ∷ 17 ∷ 0 ∷ 0 ∷ 10 ∷ 0 ∷ 0 ∷ 9 ∷ 10 ∷ 0 ∷ 0 ∷ 1 ∷ 1 ∷ 2 ∷ 3
    ∷ 4 ∷ []

abbrev keypair : Keypair
keypair = record {
  send_nonce = 0;
  send_key = 4 ∷ [];
  recv_key = 5 ∷ [];
  replay = Replay.reset;
  is_initiator = true;
  created_at_ms = 1000;
  local_index = 21;
  remote_index = 33;
}

-- a device with the keypair as its current one, two packets that wait, and a route to the peer
abbrev queue : Staged
queue = record { packets = packet ∷ packet ∷ replicate 510 []; head = 0; tail = 2; count = 2 }

abbrev here : Device
here = record {
  identity = device 1;
  session = record {
    index_table = record {
      entries = λ slot. record {
        entry_type = idx_keypair;
        index = slot;
        peer = some 102;
        handshake = none;
        keypair = some 500;
      };
      occupied = λ slot. true;
    };
    keypairs = update (λ a. none) 500 (some keypair);
    peer = record (peer_with 2 3) { current_keypair = some 500; staged = queue };
  };
  outbox = [];
  drawn = 0;
  routes = record { root4 = node (replicate 4 0) 0 4 (some 102) nil nil; root6 = nil };
  written = [];
}

abbrev env_at : ℕ → Env
env_at t = record {
  now_ms = t;
  timestamp = replicate 12 1;
  draws = draws_of;
  jitter = λ n. n;
  buffer = true;
  sends = true;
}

counters_ascend_example :
    (is_ascending (
        counters
          (send_all toy
            ((env_at 2000, packet) ∷ (env_at 200000, packet) ∷ (env_at 3000, packet) ∷ [])
            here).outbox)
      ≡ true)
    × (all_below reject_after_messages (
          counters
            (send_all toy
              ((env_at 2000, packet) ∷ (env_at 200000, packet) ∷ (env_at 3000, packet) ∷ [])
              here).outbox)
        ≡ true)
counters_ascend_example =
    counters_ascend toy 500 keypair
      ((env_at 2000, packet) ∷ (env_at 200000, packet) ∷ (env_at 3000, packet) ∷ []) here refl refl
      (omega arith) refl

queue-IsRing : IsRing queue
queue-IsRing = record { slots = refl; head_fits = omega arith; ends = refl; fits = omega arith }

-- ten minutes on the keypair is too old
here-IsStuck : IsStuck toy (env_at 601000) here
here-IsStuck = record {
  expired = record { a = 500; kp = keypair; chosen = refl; here = refl; old = refl };
  ring = queue-IsRing;
  waits = λ z. ground (arith, z);
  sized = refl;
}

flush_never_ends_example :
    ((flush toy (env_at 601000) 1000 here).session.peer.staged.count
      ≡ here.session.peer.staged.count)
    × ((flush toy (env_at 601000) 1000 here).session.peer.staged.count ≢ 0)
flush_never_ends_example = flush_never_ends toy (env_at 601000) 1000 here here-IsStuck

here-IsUsable : IsUsable toy (env_at 2000) 2 here
here-IsUsable = record {
  a = 500;
  kp = keypair;
  chosen = refl;
  here = refl;
  young = refl;
  room = omega arith;
}

flush_ends_example : (flush toy (env_at 2000) 2 here).session.peer.staged.count ≡ 0
flush_ends_example = flush_ends toy (env_at 2000) 2 here here-IsUsable refl

waiting-stage_packet_example :
    (waiting (stage_packet queue packet)
      ≡ (if is_staged queue packet then waiting queue ++ (packet ∷ []) else waiting queue))
    × IsRing (stage_packet queue packet)
waiting-stage_packet_example = waiting-stage_packet queue packet queue-IsRing

waiting-unstage_example :
    (waiting queue ≡ (unstage queue).0 ∷ waiting (unstage queue).1) × IsRing (unstage queue).1
waiting-unstage_example = waiting-unstage queue queue-IsRing (λ z. ground (arith, z))

-- the keypair of the other end
abbrev sender : Keypair
sender = record keypair { send_key = 5 ∷ []; remote_index = 21 }

abbrev entry : Entry
entry = record {
  entry_type = idx_keypair;
  index = 21;
  peer = some 102;
  handshake = none;
  keypair = some 500;
}

abbrev source : Sockaddr
source = sockaddr_in (192 ∷ 168 ∷ 0 ∷ 1 ∷ []) (0 ∷ 53 ∷ [])

abbrev ciphertext : Bytes
ciphertext = padded packet ++ replicate 16 0

entry_found : lookup here.session.index_table sender.remote_index ≡ some entry
unfolding lookup
entry_found = refl

counter_new : check keypair.replay 7 reject_after_messages ≡ true
unfolding check reset
counter_new = refl

source_allowed : is_allowed here.routes here.session.peer packet (length packet) ≡ true
unfolding is_allowed lookup_v4 wgx.AllowedIps.lookup
source_allowed = refl

packet_encrypted : encrypt toy sender.send_key (nonce_bytes 7) (padded packet) [] ≡ some ciphertext
unfolding encrypt
packet_encrypted = refl

tunnel_round_trip_example :
    (handle_transport toy (env_at 2000) here source sender.remote_index 7 ciphertext).written
    ≡ here.written ++ (packet ∷ [])
tunnel_round_trip_example =
    tunnel_round_trip toy (env_at 2000) refl toy-AeadLaw here source entry 500 keypair sender 7
      packet ciphertext entry_found refl refl refl refl counter_new refl refl (omega arith)
      source_allowed packet_encrypted

-- a device that has no session yet
abbrev starting : Device
starting = record here {
  session = record here.session { index_table = empty_table; peer = peer_with 2 3 };
  drawn = 5;
}

retransmit_gives_up_example :
    ((fire toy env_at 5 starting).outbox
      ≡ (fire toy env_at 4 starting).outbox
        ++ sendable toy (env_at 4) (counted (fire toy env_at 4 starting)))
    × ((fire toy env_at 5 starting).session.peer.handshake_attempts ≡ 5)
    × (is_active (fire toy env_at 5 starting).session.peer.timers.retransmit_handshake ≡ true)
    × ((fire toy env_at 19 starting).outbox ≡ (fire toy env_at 18 starting).outbox)
    × ((fire toy env_at 19 starting).session.peer.timers.retransmit_handshake ≡ none)
    × ((fire toy env_at 19 starting).session.peer.handshake_attempts ≡ 0)
    × ((fire toy env_at 19 starting).session.peer.timers.zero_key_material ≡ some 0)
retransmit_gives_up_example = retransmit_gives_up toy env_at starting refl refl 4 (omega arith)

-- An initiation can be made and sent the first time.
retry_goes_out : length (sendable toy (env_at 0) (counted starting)) ≡ 1
unfolding create_initiation finish_initiation generate_private_key dh encrypt bytes_eq
    begin_initiation new_for_handshake pick_random_index pick_drawn delete
retry_goes_out = refl
