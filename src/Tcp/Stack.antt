-- ===== src/Tcp/Stack.antt =====
-- src/tcpstack.c: the stack's connections and listeners, and packets from the tunnel.
pub mod Lookup
pub mod Dispatch
pub mod Handshake
pub mod Opening
use wgx.Base.{
  ℕ, zero, suc, ◌+◌, ◌-◌, ◌*◌, ◌/◌, ◌%◌, ◌^◌, bit_and, bit_xor, Bool, true, false, not, ◌&&◌, ◌||◌,
  Option, none, some, List, [], ◌∷◌, ◌++◌, ◌==◌, ltb, leb, if◌then◌else◌, length, drop, replicate,
}
use wgx.Base.Bytes.{Bytes, bytes_eq}
use wgx.Noise.Index.{update}
use wgx.Tcp.Seq.{add32}
use wgx.Tcp.Types.{
  Family, inet, inet6, syn_received, syn_sent, closed, Conn, App, Event, tcp_mss,
  tcp_sendbuf_initial_size, tcp_conn_buckets, tcp_retransmit_ms, tcpf_syn, tcpf_ack, flag_set,
}
use wgx.Tcp.Segment.{send_segment}
use wgx.Tcp.Segment.Parse.{Segment, parse, parse_syn_options}
use wgx.Tcp.Conn.{conn_destroy, tcp_flush_pending}
use wgx.Tcp.Input.{Arrival, conn_input}
use wgx.Tcp.Sending.{arrival_of}

-- `tcp_listener_t`; its `on_accept` is an argument of the operations
pub record Listener : Type 0 where
  pub family : Family
  pub local_port : ℕ

-- `tcpstack_t`. A connection is at its address; lists have the head first. `flush_list` is the chain
-- from `flush_head` to `flush_tail`, and `flush_active` whether the check handle is started.
pub record Stack : Type 0 where
  pub local_ip : Bytes
  pub local_ip6 : Option Bytes
  pub heap : ℕ → Option Conn
  pub next_addr : ℕ
  pub conns : List ℕ
  pub buckets : ℕ → List ℕ
  pub listeners : List Listener
  pub flush_list : List ℕ
  pub flush_active : Bool
  pub next_port : ℕ

-- what a connection is found by
pub record Key : Type 0 where
  pub family : Family
  pub local_addr : Bytes
  pub remote_addr : Bytes
  pub local_port : ℕ
  pub remote_port : ℕ

abbrev pub key_of : Conn → Key
key_of c = record {
  family = c.family;
  local_addr = c.local_addr;
  remote_addr = c.remote_addr;
  local_port = c.local_port;
  remote_port = c.remote_port;
}

-- `AF_INET` and `AF_INET6` of Linux
abbrev pub family_number : Family → ℕ
family_number inet = 2
family_number inet6 = 10

abbrev pub is_family : Family → Family → Bool
is_family inet inet = true
is_family inet6 inet6 = true
is_family a b = false

unfoldable pub hash_addr32 : ℕ → Bytes → ℕ
hash_addr32 h [] = h
hash_addr32 h (b ∷ buf) = hash_addr32 (bit_xor (h * 33 % 2 ^ 32) b) buf

-- a little-endian `uint32_t` in memory
abbrev pub load32 : Bytes → ℕ
load32 [] = 0
load32 (b ∷ buf) = b + 256 * load32 buf

abbrev pub hash_addrs : Family → Bytes → Bytes → ℕ
hash_addrs inet local remote = bit_xor (load32 local) (load32 remote)
hash_addrs inet6 local remote = bit_xor (hash_addr32 0 local) (hash_addr32 0 remote)

unfoldable pub conn_hash : Key → ℕ
conn_hash k =
    let h =
      bit_xor
        (bit_xor (bit_xor (family_number k.family) (k.local_port * 2 ^ 16 % 2 ^ 32)) k.remote_port)
        (hash_addrs k.family k.local_addr k.remote_addr) in
    bit_and (bit_xor h (h / 2 ^ 16)) (tcp_conn_buckets - 1)

abbrev pub remove_id : ℕ → List ℕ → List ℕ
remove_id id [] = []
remove_id id (j ∷ ids) = if j == id then ids else j ∷ remove_id id ids

unfoldable pub bucket_insert : ℕ → Conn → Stack → Stack
bucket_insert id c st =
    let b = conn_hash (key_of c) in record st { buckets = update st.buckets b (id ∷ st.buckets b) }

unfoldable pub bucket_remove : ℕ → Conn → Stack → Stack
bucket_remove id c st =
    let b = conn_hash (key_of c) in
    record st { buckets = update st.buckets b (remove_id id (st.buckets b)) }

unfoldable pub flush_remove : ℕ → Stack → Stack
flush_remove id st =
    let left = remove_id id st.flush_list in
    record st {
      flush_list = left;
      flush_active = if length left == 0 then false else st.flush_active;
    }

abbrev pub keys_eq : Key → Key → Bool
keys_eq k j =
    is_family k.family j.family
    && ((k.local_port == j.local_port)
        && ((k.remote_port == j.remote_port)
            && (bytes_eq k.local_addr j.local_addr && bytes_eq k.remote_addr j.remote_addr)))

abbrev pub matches : Option Conn → Key → Bool
matches none k = false
matches (some c) k = not c.being_freed && keys_eq (key_of c) k

unfoldable pub find_conn : (ℕ → Option Conn) → Key → List ℕ → Option ℕ
find_conn heap k [] = none
find_conn heap k (id ∷ ids) = if matches (heap id) k then some id else find_conn heap k ids

unfoldable pub bucket_lookup : Stack → Key → Option ℕ
bucket_lookup st k = find_conn st.heap k (st.buckets (conn_hash k))

unfoldable pub listener_lookup : List Listener → Family → ℕ → Bool
listener_lookup [] family port = false
listener_lookup (l ∷ ls) family port =
    if is_family l.family family && (l.local_port == port)
    then true
    else listener_lookup ls family port

-- One event of a connection, as far as it concerns the stack's lists. `flush_queued` is whether
-- the chain has the connection.
unfoldable pub perform : ℕ → Conn → Event → Stack → Stack
perform id c Event.unlinked st =
    flush_remove id (bucket_remove id c (record st { conns = remove_id id st.conns }))
perform id c Event.flush_scheduled st = record st {
  flush_list = st.flush_list ++ (id ∷ []);
  flush_active = true;
}
perform id c Event.released st = record st { heap = update st.heap id none }
perform id c e st = st

unfoldable pub perform_all : ℕ → Conn → List Event → Stack → Stack
perform_all id c [] st = st
perform_all id c (e ∷ events) st = perform_all id c events (perform id c e st)

-- an operation on the connection at `id`, with what it does to the lists of the stack
unfoldable pub on : ℕ → (Conn → Conn) → Stack → Stack
on id op st = elim (st.heap id) [
  | none ↦ st
  | some c ↦
      perform_all id c (drop (length c.log) (op c).log)
        (record st { heap = update st.heap id (some (op c)) })
]

unfoldable pub tcpstack_listen : Bool → Family → ℕ → Stack → Bool × Stack
tcpstack_listen mem family port st =
    let no_addr : Bool = elim st.local_ip6 [ none ↦ is_family family inet6 | some a ↦ false ] in
    if (port == 0) || (no_addr || (listener_lookup st.listeners family port || not mem))
    then (false, st)
    else (
      true,
      record st { listeners = record { family = family; local_port = port } ∷ st.listeners },
    )

-- a connection as `calloc` and the code that opens it leave it
abbrev pub blank_conn : Key → ℕ → Conn
blank_conn k isn = record {
  family = k.family;
  local_addr = k.local_addr;
  remote_addr = k.remote_addr;
  local_port = k.local_port;
  remote_port = k.remote_port;
  state = closed;
  iss = isn;
  snd_una = isn;
  snd_nxt = isn;
  snd_wnd = tcp_mss;
  snd_mss = tcp_mss;
  snd_wscale = 0;
  rcv_nxt = 0;
  rcv_ooo = [];
  rcv_ooo_len = 0;
  sendbuf = record {
    bytes = replicate tcp_sendbuf_initial_size 0;
    cap = tcp_sendbuf_initial_size;
    head = 0;
    len = 0;
  };
  retransmit_timer = none;
  ack_timer = none;
  retransmit_count = 0;
  timer_initialized = true;
  ack_timer_initialized = true;
  close_pending = 0;
  delayed_ack_segments = 0;
  delayed_ack_bytes = 0;
  being_freed = false;
  close_notified = false;
  flush_queued = false;
  on_connect = false;
  on_data = false;
  on_close = false;
  on_writeable = false;
  on_recv_window = false;
  log = [];
}

-- a new connection, at the head of the list and of its bucket
unfoldable pub link : Conn → Stack → Stack
link c st =
    let id = st.next_addr in
    bucket_insert id c
      (record st { heap = update st.heap id (some c); next_addr = id + 1; conns = id ∷ st.conns })

-- which callbacks an application gives
pub record Callbacks : Type 0 where
  pub connect : Bool
  pub data_in : Bool
  pub close : Bool

-- the connection that `tcpstack_connect` opens, its SYN sent
unfoldable pub opened : App → Key → ℕ → Callbacks → Conn
opened app k isn cbs =
    let c = record (blank_conn k isn) {
      state = syn_sent;
      on_connect = cbs.connect;
      on_data = cbs.data_in;
      on_close = cbs.close;
    } in
    record (send_segment app c tcpf_syn isn 0 []) {
      snd_nxt = add32 isn 1;
      retransmit_timer = some tcp_retransmit_ms;
    }

-- the own address of a family
abbrev pub own_addr : Stack → Family → Option Bytes
own_addr st inet = some st.local_ip
own_addr st inet6 = st.local_ip6

-- `mem` is whether memory is given, and `isn` what `generate_isn` draws.
unfoldable pub tcpstack_connect :
    App → Bool → ℕ → Family → Bytes → ℕ → Callbacks → Stack → Option ℕ × Stack
tcpstack_connect app mem isn family remote_addr remote_port cbs st = elim (own_addr st family) [
  | none ↦ (none, st)
  | some local_addr ↦
      let port = (st.next_port + 1) % 2 ^ 16 in
      let k : Key = record {
        family = family;
        local_addr = local_addr;
        remote_addr = remote_addr;
        local_port = st.next_port;
        remote_port = remote_port;
      } in
      if mem
      then (
        some st.next_addr,
        link (opened app k isn cbs)
            (record st { next_port = if leb 60000 port then 32768 else port }),
      )
      else (none, st)
]

-- what the connection of a segment is found by
abbrev pub key_in : Segment → Key
key_in s = record {
  family = s.family;
  local_addr = s.dst;
  remote_addr = s.src;
  local_port = s.dst_port;
  remote_port = s.src_port;
}

-- the connection that a SYN to a listener opens, its answer sent
unfoldable pub accepted : App → Bytes → ℕ → Segment → Conn
accepted app p isn s =
    let syn = parse_syn_options s.options in
    let c = record (blank_conn (key_in s) isn) {
      state = syn_received;
      snd_nxt = add32 isn 1;
      rcv_nxt = add32 s.seq 1;
      snd_mss = syn.mss;
      snd_wscale = syn.wscale;
      snd_wnd = s.window * 2 ^ syn.wscale % 2 ^ 32;
    } in
    record (send_segment app c (tcpf_syn + tcpf_ack) isn c.rcv_nxt []) {
      retransmit_timer = some tcp_retransmit_ms;
    }

-- `on_accept` is the listener's callback, which runs once the connection is linked.
unfoldable pub tcpstack_input : App → (Conn → Conn) → Bool → ℕ → Bytes → Stack → Stack
tcpstack_input app on_accept mem isn p st = elim (parse st.local_ip st.local_ip6 p) [
  | none ↦ st
  | some s ↦ elim (bucket_lookup st (key_in s)) [
    | some id ↦ on id (conn_input app mem (arrival_of p s)) st
    | none ↦
        if (listener_lookup st.listeners s.family s.dst_port && flag_set s.flags tcpf_syn)
          && (not (flag_set s.flags tcpf_ack) && mem)
        then on st.next_addr on_accept (link (accepted app p isn s) st)
        else st
  ]
]

-- `flush_check_cb`, over the chain that it takes
unfoldable pub flush_each : App → List ℕ → Stack → Stack
flush_each app [] st = st
flush_each app (id ∷ ids) st = flush_each app ids (
    on id
      (λ c.
        let c' = record c { flush_queued = false } in
        if c.being_freed then c' else tcp_flush_pending app c')
      st)

unfoldable pub flush_check_cb : App → Stack → Stack
flush_check_cb app st =
    flush_each app st.flush_list (record st { flush_list = []; flush_active = false })

unfoldable pub destroy_each : App → List ℕ → Stack → Stack
destroy_each app [] st = st
destroy_each app (id ∷ ids) st = destroy_each app ids (on id (conn_destroy app) st)

unfoldable pub tcpstack_free : App → Stack → Stack
tcpstack_free app st = record (destroy_each app st.conns (record st { flush_active = false })) {
  conns = [];
  listeners = [];
}

unfoldable pub tcpstack_init : Bytes → Option Bytes → Stack
tcpstack_init local_ip local_ip6 = record {
  local_ip = local_ip;
  local_ip6 = local_ip6;
  heap = λ id. none;
  next_addr = 0;
  conns = [];
  buckets = λ b. [];
  listeners = [];
  flush_list = [];
  flush_active = false;
  next_port = 32768;
}
