-- ===== src/Tcp/Types.antt =====
-- src/tcpstack.h and src/tcpstack.c: the constants and the structs of the TCP stack.
use wgx.Base.{ℕ, ◌*◌, bit_and, Bool, not, Option, List, ◌==◌}
use wgx.Base.Bytes.{Bytes}

module _ where
  abbrev pub tcp_mss : ℕ
  tcp_mss = 1380

  abbrev pub tcp_window : ℕ
  tcp_window = 65535

  abbrev pub tcp_window_scale : ℕ
  tcp_window_scale = 4

  abbrev pub tcp_sendbuf_initial_size : ℕ
  tcp_sendbuf_initial_size = 32 * 1024

  abbrev pub tcp_sendbuf_size : ℕ
  tcp_sendbuf_size = 256 * 1024

  abbrev pub tcp_recv_ooo_size : ℕ
  tcp_recv_ooo_size = 2 * 1024 * 1024

  abbrev pub tcp_delayed_ack_ms : ℕ
  tcp_delayed_ack_ms = 15

  abbrev pub tcp_delayed_ack_segments : ℕ
  tcp_delayed_ack_segments = 2

  abbrev pub tcp_max_sack_blocks : ℕ
  tcp_max_sack_blocks = 3

  abbrev pub tcp_retransmit_ms : ℕ
  tcp_retransmit_ms = 500

  abbrev pub tcp_retransmit_max_ms : ℕ
  tcp_retransmit_max_ms = 8000

  abbrev pub tcp_max_retransmit : ℕ
  tcp_max_retransmit = 6

  abbrev pub tcp_conn_buckets : ℕ
  tcp_conn_buckets = 1024

-- `tcp_state_t`
pub data TcpState : Type 0 where
  closed syn_received syn_sent established fin_wait close_wait last_ack : TcpState

-- `AF_INET` and `AF_INET6`
pub data Family : Type 0 where
  inet inet6 : Family

-- the `TCPF_*` bits of a segment, and whether one of them is set
module _ where
  abbrev pub tcpf_fin : ℕ
  tcpf_fin = 0x01

  abbrev pub tcpf_syn : ℕ
  tcpf_syn = 0x02

  abbrev pub tcpf_rst : ℕ
  tcpf_rst = 0x04

  abbrev pub tcpf_psh : ℕ
  tcpf_psh = 0x08

  abbrev pub tcpf_ack : ℕ
  tcpf_ack = 0x10

abbrev pub flag_set : ℕ → ℕ → Bool
flag_set flags flag = not (bit_and flags flag == 0)

-- `tcp_ooo_seg_t`: a segment that came before its turn; its `len` is the length of its bytes
pub record OooSeg : Type 0 where
  pub seq : ℕ
  pub bytes : Bytes

-- `sendbuf` and its `_cap`, `_head` and `_len`
pub record Sendbuf : Type 0 where
  pub bytes : Bytes
  pub cap : ℕ
  pub head : ℕ
  pub len : ℕ

-- What a connection does to the outside: packets to the device, calls of the application's
-- callbacks, and changes of the stack's own lists.
pub data Event : Type 0 where
  packet received : Bytes → Event
  connected : Bool → Event
  closing writeable unlinked flush_scheduled released : Event

-- `tcp_conn_t`. Addresses are in network byte order. A timer is the delay that it was started
-- with, `none` while it is not active. A callback is whether it is set. `log` is what the
-- connection did, the newest last.
pub record Conn : Type 0 where
  pub family : Family
  pub local_addr : Bytes
  pub remote_addr : Bytes
  pub local_port : ℕ
  pub remote_port : ℕ
  pub state : TcpState
  pub iss : ℕ
  pub snd_una : ℕ
  pub snd_nxt : ℕ
  pub snd_wnd : ℕ
  pub snd_mss : ℕ
  pub snd_wscale : ℕ
  pub rcv_nxt : ℕ
  pub rcv_ooo : List OooSeg
  pub rcv_ooo_len : ℕ
  pub sendbuf : Sendbuf
  pub retransmit_timer : Option ℕ
  pub ack_timer : Option ℕ
  pub retransmit_count : ℕ
  pub timer_initialized : Bool
  pub ack_timer_initialized : Bool
  pub close_pending : ℕ
  pub delayed_ack_segments : ℕ
  pub delayed_ack_bytes : ℕ
  pub being_freed : Bool
  pub close_notified : Bool
  pub flush_queued : Bool
  pub on_connect : Bool
  pub on_data : Bool
  pub on_close : Bool
  pub on_writeable : Bool
  pub on_recv_window : Bool
  pub log : List Event

-- What the application does in its callbacks, which it may use to call the stack again, and its
-- answer to `on_recv_window`.
pub record App : Type 0 where
  pub connect : Bool → Conn → Conn
  pub receive : Bytes → Conn → Conn
  pub close : Conn → Conn
  pub write : Conn → Conn
  pub recv_window : Conn → ℕ
