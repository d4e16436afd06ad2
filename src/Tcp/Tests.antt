-- ===== src/Tcp/Tests.antt =====
-- Tests of the model of src/tcpstack.c, and its theorems at concrete inputs.
use wgx.Base.{length, ◌++◌}
use wgx.Base.{
  ℕ, ◌+◌, ◌-◌, ◌*◌, ◌%◌, ◌^◌, ◌<◌, ◌≤◌, ◌≡◌, ◌⊎◌, refl, arith, true, false, none, some, [], ◌∷◌,
  min, take, drop, if◌then◌else◌, not, ◌&&◌,
}
use wgx.Base.Bytes.{Bytes, bytes_eq}
use wgx.Tcp.Seq.{add32, seq_lt, seq_le, seq_gt}
use wgx.Tcp.Types.{inet, OooSeg, Conn, App, tcpf_ack, tcpf_psh}
use wgx.Tcp.Sendbuf.{sendbuf_consume}
use wgx.Tcp.Sendbuf.Refine.{contents}
use wgx.Tcp.Sendbuf.Moves.{contents-sendbuf_consume}
use wgx.Tcp.Conn.{tcp_send, tcp_ack_now, tcp_ack_data}
use wgx.Tcp.Input.{
  Arrival, conn_input, in_established, take_ack, receive_data, take_data, tcp_ooo_drain, drain_loop,
  deliver, queue_data,
}
use wgx.Tcp.Reassembly.{
  Ooo, tcp_ooo_queue, ahead_of, behind_first, ends_after, ends_by, clear_upto, place,
}
use wgx.Tcp.Reassembly.Queue.{IsAt}
use wgx.Tcp.Reassembly.Place.{IsQueue, tcp_ooo_queue-IsQueue}
use wgx.Tcp.Reassembly.Overlap.{overlap_drops_queued}
use wgx.Tcp.Checksum.Valid.{IsRight, pseudo_header}
use wgx.Tcp.Segment.{segment, send_segment}
use wgx.Tcp.Segment.Parse.{Segment, parse, parse4, parse_tcp}
use wgx.Tcp.Segment.Packet.{IsRead, reading, parse-segment}
use wgx.Tcp.Segment.Sums.{HasBytes, segment-HasRightSums}
use wgx.Tcp.Segment.Bounds.{IsShort, payload_end, payload-in_bounds}
use wgx.Tcp.Retransmit.GivesUp.{fires, KeepsTimers, retransmission_ends}
use wgx.Tcp.Reassembly.Stream.{slice}
use wgx.Tcp.Delivery.{heard, Undisturbed-refl, IsQuiet}
use wgx.Tcp.Delivery.Local.{tcp_send-Undisturbed}
use wgx.Tcp.Delivery.Order.{InOrder}
use wgx.Tcp.Delivery.Arrive.{Carries}
use wgx.Tcp.Delivery.Runs.{Runs, start, arrives, sends, run_delivers_prefix, arrival_is_delivered}
use wgx.Tcp.Stack.{Stack, Callbacks, keys_eq, bucket_lookup, link, find_conn, listener_lookup}
use wgx.Tcp.Stack.Lookup.{IsFresh, bucket_lookup-link}
use wgx.Tcp.Stack.Handshake.{IsPaired}
use wgx.Tcp.Stack.Opening.{CanMeet, Opens, handshake_opens}
use wgx.Tcp.Input.Stale.{takes, stale_head_stays}
use wgx.Tcp.Fixture.{mute, key, ring, conn, ring-IsRing, peer4}

-- an application that sends back what it hears
abbrev echo : App
echo = record {
  connect = λ status c. c;
  receive = λ bytes c. (tcp_send mute true c bytes).1;
  close = λ c. c;
  write = λ c. c;
  recv_window = λ c. 1000;
}

mute-IsQuiet : IsQuiet mute
mute-IsQuiet = record {
  receives = λ bytes c. Undisturbed-refl c;
  writes = λ c. Undisturbed-refl c;
  connects = λ status c. Undisturbed-refl c;
  closes = λ c. Undisturbed-refl c;
}

echo-IsQuiet : IsQuiet echo
echo-IsQuiet = record {
  receives = λ bytes c. tcp_send-Undisturbed mute mute-IsQuiet true c bytes;
  writes = λ c. Undisturbed-refl c;
  connects = λ status c. Undisturbed-refl c;
  closes = λ c. Undisturbed-refl c;
}

abbrev stream : ℕ → ℕ
stream i = i + 65

conn-InOrder : InOrder stream 1001 0 conn
unfolding slice
conn-InOrder = record {
  next = refl;
  small = omega arith;
  got = refl;
  queue = record { in_stream = omega arith; counted = refl; bounded = omega arith };
  listens = refl;
  opened = refl;
}

-- the bytes of the stream from 3 to 5, and from 0 to 4
abbrev second : Arrival
second = record {
  flags = tcpf_ack;
  seq = 1004;
  ack = 501;
  window = 10;
  options = [];
  payload = 68 ∷ 69 ∷ [];
}

abbrev first : Arrival
first = record {
  flags = tcpf_ack + tcpf_psh;
  seq = 1001;
  ack = 501;
  window = 10;
  options = [];
  payload = 65 ∷ 66 ∷ 67 ∷ [];
}

second-Carries : Carries stream 1001 3 2 second
unfolding slice
second-Carries = record { piece = (refl, refl); within = omega arith; no_fin = refl }

first-Carries : Carries stream 1001 0 3 first
unfolding slice
first-Carries = record { piece = (refl, refl); within = omega arith; no_fin = refl }

-- the later part arrives first, then the first part, then the application sends
abbrev later : Conn
later =
    (tcp_send echo true (conn_input echo true first (conn_input echo true second conn)) (1 ∷ [])).1

later_run : Runs echo stream 1001 conn later
later_run =
    sends (arrives (arrives start 3 2 true second second-Carries) 0 3 true first first-Carries) true
      (1 ∷ [])

run_delivers_prefix_example :
    (r' : ℕ) × (0 ≤ r')
    × (heard later.log ≡ slice stream 0 r')
    × (later.rcv_nxt ≡ (1001 + r') % 2 ^ 32)
run_delivers_prefix_example =
    run_delivers_prefix echo echo-IsQuiet stream 1001 0 conn later conn-InOrder later_run

arrival_is_delivered_example :
    (r' : ℕ) × (3 ≤ r') × (heard (conn_input echo true first conn).log ≡ slice stream 0 r')
arrival_is_delivered_example =
    arrival_is_delivered echo echo-IsQuiet stream 1001 0 0 3 true first conn conn-InOrder
      first-Carries

contents-sendbuf_consume_example : contents (sendbuf_consume ring 3) ≡ 4 ∷ 5 ∷ []
contents-sendbuf_consume_example = contents-sendbuf_consume ring ring-IsRing 3

-- The model runs: both parts are heard in order.
heard_in_order :
    heard (conn_input mute true first (conn_input mute true second conn)).log
    ≡ 65 ∷ 66 ∷ 67 ∷ 68 ∷ 69 ∷ []
unfolding conn_input in_established take_ack receive_data take_data tcp_ooo_drain drain_loop deliver
    queue_data tcp_ooo_queue ahead_of behind_first ends_after ends_by clear_upto place tcp_ack_now
    tcp_ack_data send_segment seq_lt seq_gt seq_le
heard_in_order = refl

parse-segment_example :
    IsRead mute conn 24 503 1001
      (7 ∷ 8 ∷ [])
      (record {
        local_fits = omega arith;
        remote_fits = omega arith;
        seq_fits = omega arith;
        ack_fits = omega arith;
        payload_fits = omega arith;
      })
      peer4
      none
      (segment mute conn 24 503 1001 (7 ∷ 8 ∷ []))
      (reading inet mute conn 24 503 1001 (7 ∷ 8 ∷ []))
parse-segment_example =
    parse-segment mute conn 24 503 1001 (7 ∷ 8 ∷ [])
      (record {
        local_fits = omega arith;
        remote_fits = omega arith;
        seq_fits = omega arith;
        ack_fits = omega arith;
        payload_fits = omega arith;
      })
      peer4 none (refl, refl, refl)

payload_bytes : HasBytes conn 24 (7 ∷ 8 ∷ [])
payload_bytes = record {
  local_bytes = omega arith;
  remote_bytes = omega arith;
  flags_byte = omega arith;
  payload_bytes = omega arith;
  payload_fits = omega arith;
}

segment-HasRightSums_example :
    IsRight (take 20 (segment mute conn 24 503 1001 (7 ∷ 8 ∷ [])))
    × IsRight (
        pseudo_header inet
          (10 ∷ 0 ∷ 0 ∷ 2 ∷ [])
          (10 ∷ 0 ∷ 0 ∷ 1 ∷ [])
          (length (drop 20 (segment mute conn 24 503 1001 (7 ∷ 8 ∷ []))))
        ++ drop 20 (segment mute conn 24 503 1001 (7 ∷ 8 ∷ [])))
segment-HasRightSums_example =
    segment-HasRightSums mute conn 24 503 1001 (7 ∷ 8 ∷ []) payload_bytes refl refl

mute-KeepsTimers : KeepsTimers mute
mute-KeepsTimers c = (refl, refl)

retransmission_ends_example :
    ((fires mute 3 conn).being_freed ≡ false)
    × ((fires mute 3 conn).retransmit_count ≡ 3)
    × ((fires mute 3 conn).retransmit_timer ≡ some (min 8000 (500 * 2 ^ 3)))
    × ((fires mute 7 conn).being_freed ≡ true)
retransmission_ends_example =
    retransmission_ends mute conn 3 mute-KeepsTimers refl refl refl (omega arith) (omega arith)

-- a queue with the bytes from 5 to 8 of the stream
abbrev queued : OooSeg
queued = record { seq = 1006; bytes = 70 ∷ 71 ∷ 72 ∷ [] }

abbrev queue : Ooo
queue = record { segs = queued ∷ []; total = 3 }

queued-IsAt : IsAt stream 1001 5 3 1006 (70 ∷ 71 ∷ 72 ∷ [])
unfolding slice
queued-IsAt = (refl, refl)

overlapping-IsAt : IsAt stream 1001 7 3 1008 (72 ∷ 73 ∷ 74 ∷ [])
unfolding slice
overlapping-IsAt = (refl, refl)

tcp_ooo_queue-IsQueue_example :
    IsQueue stream 1001 0 100 (tcp_ooo_queue true 1001 queue 1008 (72 ∷ 73 ∷ 74 ∷ []))
tcp_ooo_queue-IsQueue_example =
    tcp_ooo_queue-IsQueue stream 1001 0 0 100 7 3 true 1001 queue 1008 (72 ∷ 73 ∷ 74 ∷ []) refl
      overlapping-IsAt (omega arith)
      (record {
        in_stream = (5, 3, queued-IsAt, omega arith, omega arith, omega arith);
        counted = refl;
        bounded = omega arith;
      })

overlap_drops_queued_example :
    tcp_ooo_queue true 1001 queue 1008 (72 ∷ 73 ∷ 74 ∷ [])
    ≡ record { segs = record { seq = add32 1008 1; bytes = 73 ∷ 74 ∷ [] } ∷ []; total = 2 }
overlap_drops_queued_example =
    overlap_drops_queued stream 1001 0 5 3 7 3 1001 1008 (72 ∷ 73 ∷ 74 ∷ []) queued refl queued-IsAt
      overlapping-IsAt (omega arith)

-- The bytes from 0 to 6 came, the queue has those from 5 on.
abbrev passed : Conn
passed = record conn { rcv_nxt = 1007; rcv_ooo = queued ∷ []; rcv_ooo_len = 3 }

stale_head_stays_example :
    (takes echo echo-IsQuiet 1001 5 ((71 ∷ []) ∷ (72 ∷ 73 ∷ []) ∷ []) passed).rcv_ooo ≡ queued ∷ []
stale_head_stays_example =
    stale_head_stays echo echo-IsQuiet 1001 5 ((71 ∷ []) ∷ (72 ∷ 73 ∷ []) ∷ []) 6 queued [] passed
      refl refl refl (omega arith) (omega arith)

-- An IPv4 packet to 10.0.0.2 whose total length is 10, with a TCP header of 20 bytes.
abbrev short_packet : Bytes
short_packet =
    69 ∷ 0 ∷ 0 ∷ 10 ∷ 0 ∷ 0 ∷ 0 ∷ 0 ∷ 64 ∷ 6 ∷ 0 ∷ 0 ∷ 10 ∷ 0 ∷ 0 ∷ 1 ∷ 10 ∷ 0 ∷ 0 ∷ 2 ∷ 0 ∷ 80 ∷ 0
    ∷ 80 ∷ 0 ∷ 0 ∷ 0 ∷ 1 ∷ 0 ∷ 0 ∷ 0 ∷ 1 ∷ 80 ∷ 16 ∷ 0 ∷ 0 ∷ 0 ∷ 0 ∷ 0 ∷ 0 ∷ []

abbrev short_segment : Segment
short_segment = record {
  family = inet;
  src = 10 ∷ 0 ∷ 0 ∷ 1 ∷ [];
  dst = 10 ∷ 0 ∷ 0 ∷ 2 ∷ [];
  src_port = 80;
  dst_port = 80;
  seq = 1;
  ack = 1;
  flags = 16;
  window = 0;
  options = [];
  payload_at = 40;
  payload_len = 2 ^ 64 - 30;
}

-- It is accepted.
short_is_accepted : parse (10 ∷ 0 ∷ 0 ∷ 2 ∷ []) none short_packet ≡ some short_segment
unfolding parse parse4 parse_tcp bytes_eq
short_is_accepted = refl

payload-in_bounds_example :
    (IsShort short_packet × (40 < payload_end short_segment))
    ⊎ ((¬ (IsShort short_packet)) × (payload_end short_segment ≤ 40))
payload-in_bounds_example =
    payload-in_bounds (10 ∷ 0 ∷ 0 ∷ 2 ∷ []) none short_packet short_segment (omega arith)
      short_is_accepted

abbrev stack : Stack
stack = record {
  local_ip = 10 ∷ 0 ∷ 0 ∷ 2 ∷ [];
  local_ip6 = none;
  heap = λ id. none;
  next_addr = 0;
  conns = [];
  buckets = λ b. [];
  listeners = [];
  flush_list = [];
  flush_active = false;
  next_port = 32768;
}

stack-IsFresh : IsFresh stack
stack-IsFresh = record { below = λ b. tt }

bucket_lookup-link_example :
    bucket_lookup (link conn stack) key
    ≡ (if not false && keys_eq key key then some 0 else bucket_lookup stack key)
bucket_lookup-link_example = bucket_lookup-link conn stack key stack-IsFresh

abbrev callbacks : Callbacks
callbacks = record { connect = true; data_in = true; close = true }

abbrev pairing : IsPaired mute mute key 500 900 callbacks (10 ∷ 0 ∷ 0 ∷ 2 ∷ []) none peer4 none
pairing = record {
  to_server = (refl, refl, refl);
  to_client = (refl, refl, refl);
  ports = (omega arith, omega arith);
  isna_fits = omega arith;
  isnb_fits = omega arith;
}

-- a stack that listens on the port 80, where the client's packets go
abbrev listening_stack : Stack
listening_stack = record stack {
  local_ip = peer4;
  listeners = record { family = inet; local_port = 80 } ∷ [];
}

stacks_meet : CanMeet mute mute key 500 900 callbacks stack listening_stack
unfolding listener_lookup bucket_lookup find_conn
stacks_meet = record {
  own = refl;
  port = refl;
  fresh_a = stack-IsFresh;
  fresh_b = record { below = λ b. tt };
  listens = refl;
  unknown = refl;
  paired = pairing;
}

handshake_opens_example : Opens mute mute key 500 900 0 callbacks (λ c. c) stack listening_stack
handshake_opens_example =
    handshake_opens mute mute key 500 900 0 callbacks (λ c. c) stack listening_stack (λ c. refl)
      (λ c. refl) stacks_meet
