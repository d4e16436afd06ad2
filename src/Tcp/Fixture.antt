-- ===== src/Tcp/Fixture.antt =====
-- A connection of src/tcpstack.c and an application, for tests.
use wgx.Base.{arith, true, [], ◌∷◌}
use wgx.Base.Bytes.{Bytes}
use wgx.Tcp.Types.{inet, established, Sendbuf, Conn, App}
use wgx.Tcp.Sendbuf.Refine.{IsRing}
use wgx.Tcp.Stack.{Key, blank_conn}

abbrev pub mute : App
mute = record {
  connect = λ status c. c;
  receive = λ bytes c. c;
  close = λ c. c;
  write = λ c. c;
  recv_window = λ c. 1000;
}

abbrev pub key : Key
key = record {
  family = inet;
  local_addr = 10 ∷ 0 ∷ 0 ∷ 2 ∷ [];
  remote_addr = 10 ∷ 0 ∷ 0 ∷ 1 ∷ [];
  local_port = 32768;
  remote_port = 80;
}

-- eight bytes, five of them held, round the end
abbrev pub ring : Sendbuf
ring = record { bytes = 3 ∷ 4 ∷ 5 ∷ 0 ∷ 0 ∷ 0 ∷ 1 ∷ 2 ∷ []; cap = 8; head = 6; len = 5 }

abbrev pub conn : Conn
conn = record (blank_conn key 500) {
  state = established;
  snd_una = 501;
  snd_nxt = 503;
  snd_wnd = 4;
  rcv_nxt = 1001;
  sendbuf = ring;
  on_data = true;
}

pub ring-IsRing : IsRing ring
ring-IsRing = omega arith

-- what the peer of `conn` has for addresses
abbrev pub peer4 : Bytes
peer4 = 10 ∷ 0 ∷ 0 ∷ 1 ∷ []
