-- ===== src/Tcp/Stack/Handshake.antt =====
-- The opening of a connection between two ends of src/tcpstack.c.
use mathlib.Core.Path.{subst}
use wgx.Base.{
  ℕ, ◌+◌, ◌^◌, ◌<◌, ◌≡◌, refl, ap, sym, ◌∙◌, arith, Bool, true, false, Option, some, List, [], ◌∷◌,
  ◌++◌, if◌then◌else◌,
}
use wgx.Base.Bytes.{Bytes}
use wgx.Tcp.Seq.{word, add32, seq_gt}
use wgx.Tcp.Types.{
  syn_received, established, Conn, App, Event, tcp_mss, tcpf_syn, tcpf_ack, flag_set,
}
use wgx.Tcp.Segment.{sack_segs, tcp_options, segment, send_segment, advertised_window}
use wgx.Tcp.Segment.Parse.{
  Segment, SynOptions, parse, parse_syn_options, scan_options, syn_option, payload_of,
}
use wgx.Tcp.Segment.Packet.{IsAddressed, reading, parse-segment}
use wgx.Tcp.Conn.{tcp_ack_now}
use wgx.Tcp.Input.{Arrival, stop_retransmit, in_syn_sent, in_syn_received, conn_input}
use wgx.Tcp.Sending.{arrival_of}
use wgx.Tcp.Stack.Dispatch.{packets, AllUnlisted}
use wgx.Tcp.Stack.{Key, key_of, key_in, Callbacks, opened, accepted}

-- What the options of a SYN of this stack say to the other end.
syn_options_lem : parse_syn_options (tcp_options tcpf_syn []) ≡ record { mss = tcp_mss; wscale = 4 }
unfolding parse_syn_options scan_options syn_option tcp_options
syn_options_lem = refl

synack_options_lem :
    parse_syn_options (tcp_options (tcpf_syn + tcpf_ack) []) ≡ record { mss = tcp_mss; wscale = 4 }
unfolding parse_syn_options scan_options syn_option tcp_options
synack_options_lem = refl

-- The application's callbacks leave a connection that was just opened as it is.
abbrev pub Idle : App → Type 0
Idle app = (c : Conn) → app.connect true c ≡ c

-- Both ends of an open connection agree: each expects what the other sends next, nothing is in
-- flight, and both know the segment size and window scale of the other.
pub record Agree (a b : Conn) : Type 0 where
  pub a_open : a.state ≡ established
  pub b_open : b.state ≡ established
  pub a_expects : a.rcv_nxt ≡ b.snd_nxt
  pub b_expects : b.rcv_nxt ≡ a.snd_nxt
  pub a_done : a.snd_una ≡ a.snd_nxt
  pub b_done : b.snd_una ≡ b.snd_nxt
  pub a_mss : a.snd_mss ≡ tcp_mss
  pub b_mss : b.snd_mss ≡ tcp_mss
  pub a_scale : a.snd_wscale ≡ 4
  pub b_scale : b.snd_wscale ≡ 4

arrival_eq :
    (flags window : ℕ) {seq seq' ack ack' : ℕ} {options options' payload payload' : Bytes}
    → seq ≡ seq'
    → ack ≡ ack'
    → options ≡ options'
    → payload ≡ payload'
    → ◌≡◌ {A = Arrival}
        (record {
          flags = flags;
          seq = seq;
          ack = ack;
          window = window;
          options = options;
          payload = payload;
        })
        (record {
          flags = flags;
          seq = seq';
          ack = ack';
          window = window;
          options = options';
          payload = payload';
        })
arrival_eq flags window seqs acks opts pays = ground (arith, seqs, acks, opts, pays)

-- the other end's key
abbrev pub flip : Key → Key
flip k = record {
  family = k.family;
  local_addr = k.remote_addr;
  remote_addr = k.local_addr;
  local_port = k.remote_port;
  remote_port = k.local_port;
}

module _ (appa appb : App) (k : Key) (isna isnb : ℕ) (cbs : Callbacks) where
  -- the three packets and the ends between them
  abbrev pub client : Conn
  client = opened appa k isna cbs

  abbrev pub syn : Bytes
  syn = segment appa client tcpf_syn client.iss 0 []

  abbrev pub server : Segment → Conn
  server s = accepted appb syn isnb s

  abbrev pub synack : Segment → Bytes
  synack s = segment appb (server s) (tcpf_syn + tcpf_ack) (server s).iss (server s).rcv_nxt []

  abbrev pub client_open : Segment → Segment → Conn
  client_open s t = conn_input appa true (arrival_of (synack s) t) client

  abbrev pub last_ack_packet : Conn → Bytes
  last_ack_packet c = segment appa c tcpf_ack c.snd_nxt c.rcv_nxt []

  abbrev pub server_open : Segment → Conn → Segment → Conn
  server_open s c u = conn_input appb true (arrival_of (last_ack_packet c) u) (server s)

  -- an end of the connection with the key `k'`, its numbers and its state
  record IsEnd (k' : Key) (una nxt rcv : ℕ) (c : Conn) : Type 0 where
    keyed : key_of c ≡ k'
    acked : c.snd_una ≡ una
    sent : c.snd_nxt ≡ nxt
    expected : c.rcv_nxt ≡ rcv
    queue : c.rcv_ooo ≡ []

  -- the SYN is what the client has sent
  pub client_log : client.log ≡ Event.packet syn ∷ []
  unfolding opened send_segment segment advertised_window sack_segs tcp_options
  client_log = refl

  client-IsEnd : IsEnd k isna (add32 isna 1) 0 client
  unfolding opened send_segment
  client-IsEnd = record { keyed = refl; acked = refl; sent = refl; expected = refl; queue = refl }

  next_gt : (isn : ℕ) → isn < word → seq_gt (add32 isn 1) isn ≡ true
  unfolding seq_gt
  next_gt isn fits = ground arith

  self_gt : (x : ℕ) → seq_gt x x ≡ false
  unfolding seq_gt
  self_gt x = ground arith

  -- what the client makes of the answer to its SYN
  abbrev answered : Arrival → Conn
  answered a = conn_input appa true a client

  record IsAnswered (c : Conn) : Type 0 where
    more : List Event
    silent : packets more ≡ []
    unlisted : AllUnlisted more
    logged : c.log ≡ client.log ++ (Event.packet (last_ack_packet c) ∷ more)
    end : IsEnd k (add32 isna 1) (add32 isna 1) (add32 isnb 1) c
    open_state : c.state ≡ established
    mss : c.snd_mss ≡ tcp_mss
    scale : c.snd_wscale ≡ 4

  told :
      Idle appa
      → (b : Bool) (x y : Conn) → IsAnswered x
      → IsAnswered y
      → IsAnswered (if b then appa.connect true x else y)
  told idle true x y h g = rw (idle x) h
  told idle false x y h g = g

  answered-IsAnswered :
      (window : ℕ)
      → Idle appa
      → isna < word
      → IsAnswered (
          answered (record {
            flags = tcpf_syn + tcpf_ack;
            seq = isnb;
            ack = add32 isna 1;
            window = window;
            options = tcp_options (tcpf_syn + tcpf_ack) [];
            payload = [];
          }))
  unfolding conn_input in_syn_sent opened send_segment tcp_ack_now stop_retransmit segment
      advertised_window sack_segs tcp_options
  answered-IsAnswered window idle fits =
      rw (next_gt isna fits, self_gt (add32 isna 1))
        (told idle cbs.connect _ _
          (record {
            more = Event.connected true ∷ [];
            silent = refl;
            unlisted = (tt, tt);
            logged = refl;
            end = record { keyed = refl; acked = refl; sent = refl; expected = refl; queue = refl };
            open_state = refl;
            mss = ap (λ (t : SynOptions). t.mss) synack_options_lem;
            scale = ap (λ (t : SynOptions). t.wscale) synack_options_lem;
          })
          (record {
            more = [];
            silent = refl;
            unlisted = tt;
            logged = refl;
            end = record { keyed = refl; acked = refl; sent = refl; expected = refl; queue = refl };
            open_state = refl;
            mss = ap (λ (t : SynOptions). t.mss) synack_options_lem;
            scale = ap (λ (t : SynOptions). t.wscale) synack_options_lem;
          }))

  -- what the server is after a SYN, and after the last acknowledgement
  record IsListening (c : Conn) : Type 0 where
    logged : c.log ≡ Event.packet (segment appb c (tcpf_syn + tcpf_ack) c.iss c.rcv_nxt []) ∷ []
    end : IsEnd (flip k) isnb (add32 isnb 1) (add32 isna 1) c
    iss : c.iss ≡ isnb
    waiting : c.state ≡ syn_received
    mss : c.snd_mss ≡ tcp_mss
    scale : c.snd_wscale ≡ 4

  server-IsListening :
      (p : Bytes) (s : Segment)
      → key_in s ≡ flip k
      → s.seq ≡ isna
      → s.options ≡ tcp_options tcpf_syn []
      → IsListening (accepted appb p isnb s)
  unfolding accepted send_segment segment advertised_window sack_segs tcp_options
  server-IsListening p s keyed seq options =
      let said = ap parse_syn_options options ∙ syn_options_lem in
      record {
        logged = refl;
        end = record {
          keyed = keyed;
          acked = refl;
          sent = refl;
          expected = ap (λ (t : ℕ). add32 t 1) seq;
          queue = refl;
        };
        iss = refl;
        waiting = refl;
        mss = ap (λ (t : SynOptions). t.mss) said;
        scale = ap (λ (t : SynOptions). t.wscale) said;
      }

  record IsServing (c : Conn) : Type 0 where
    end : IsEnd (flip k) (add32 isnb 1) (add32 isnb 1) (add32 isna 1) c
    open_state : c.state ≡ established
    mss : c.snd_mss ≡ tcp_mss
    scale : c.snd_wscale ≡ 4

  ready-IsServing :
      (c : Conn) (seq window : ℕ) (options : Bytes)
      → IsListening c
      → IsServing (
          conn_input appb true
            (record {
              flags = tcpf_ack;
              seq = seq;
              ack = add32 isnb 1;
              window = window;
              options = options;
              payload = [];
            })
            c)
  unfolding conn_input in_syn_received stop_retransmit
  ready-IsServing c seq window options l = record {
    end = record {
      keyed = ground (arith, l.waiting, l.end.sent, l.end.keyed);
      acked = ground (arith, l.waiting, l.end.sent);
      sent = ground (arith, l.waiting, l.end.sent);
      expected = ground (arith, l.waiting, l.end.sent, l.end.expected);
      queue = ground (arith, l.waiting, l.end.sent, l.end.queue);
    };
    open_state = ground (arith, l.waiting, l.end.sent);
    mss = ground (arith, l.waiting, l.end.sent, l.mss);
    scale = ground (arith, l.waiting, l.end.sent, l.scale);
  }

  -- the last acknowledgement is not answered
  ready-log :
      (c : Conn) (seq window : ℕ) (options : Bytes)
      → IsListening c
      → (conn_input appb true
          (record {
            flags = tcpf_ack;
            seq = seq;
            ack = add32 isnb 1;
            window = window;
            options = options;
            payload = [];
          })
          c).log
        ≡ c.log
  unfolding conn_input in_syn_received stop_retransmit
  ready-log c seq window options l = ground (arith, l.waiting, l.end.sent)

  -- A packet of the end `c` without a payload, as the other end reads it.
  module _ (app : App) (k' : Key) (una nxt rcv : ℕ) (c : Conn) (end : IsEnd k' una nxt rcv c)
      (l4 : Bytes) (l6 : Option Bytes)
      (addressed : IsAddressed k'.family l4 l6 k'.local_addr k'.remote_addr)
      (ports : (k'.local_port < 2 ^ 16) × (k'.remote_port < 2 ^ 16)) where
    abbrev read_as : ℕ → ℕ → ℕ → Segment
    read_as flags seq ack = reading c.family app c flags seq ack []

    end-IsAddressed : IsAddressed c.family l4 l6 c.local_addr c.remote_addr
    end-IsAddressed =
        subst (λ (t : Key). IsAddressed t.family l4 l6 t.local_addr t.remote_addr) (sym end.keyed)
          addressed

    end_read :
        (flags seq ack : ℕ)
        → seq < 2 ^ 32
        → ack < 2 ^ 32
        → (parse l4 l6 (segment app c flags seq ack []) ≡ some (read_as flags seq ack))
          × (payload_of (segment app c flags seq ack []) (read_as flags seq ack) ≡ [])
    end_read flags seq ack seq_fits ack_fits =
        let lports = ap (λ (t : Key). t.local_port) end.keyed in
        let rports = ap (λ (t : Key). t.remote_port) end.keyed in
        parse-segment app c flags seq ack []
          (record {
            local_fits = omega (arith, ports.0, lports);
            remote_fits = omega (arith, ports.1, rports);
            seq_fits = seq_fits;
            ack_fits = ack_fits;
            payload_fits = omega arith;
          })
          l4 l6 end-IsAddressed

    end_key : (flags seq ack : ℕ) → key_in (read_as flags seq ack) ≡ flip k'
    end_key flags seq ack = ap flip end.keyed

    no_sacks : (flags : ℕ) → flag_set flags tcpf_syn ≡ true → sack_segs c flags [] ≡ []
    unfolding sack_segs
    no_sacks flags syn_flag = ground (arith, syn_flag)

  -- What the ends' addresses, ports and first numbers have to be: each stack has the other's key.
  pub record IsPaired (l4a : Bytes) (l6a : Option Bytes) (l4b : Bytes) (l6b : Option Bytes)
      : Type 0 where
    pub to_server : IsAddressed k.family l4b l6b k.local_addr k.remote_addr
    pub to_client : IsAddressed k.family l4a l6a k.remote_addr k.local_addr
    pub ports : (k.local_port < 2 ^ 16) × (k.remote_port < 2 ^ 16)
    pub isna_fits : isna < 2 ^ 32
    pub isnb_fits : isnb < 2 ^ 32

  -- The three packets, each sent by one end and read by the other, and the ends at last.
  pub record Steps (l4a : Bytes) (l6a : Option Bytes) (l4b : Bytes) (l6b : Option Bytes)
      : Type 0 where
    pub s : Segment
    pub t : Segment
    pub u : Segment
    pub more : List Event
    pub syn_read : parse l4b l6b syn ≡ some s
    pub syn_key : key_in s ≡ flip k
    pub syn_flags : s.flags ≡ tcpf_syn
    pub server_log : (server s).log ≡ Event.packet (synack s) ∷ []
    pub server_key : key_of (server s) ≡ flip k
    pub synack_read : parse l4a l6a (synack s) ≡ some t
    pub synack_key : key_in t ≡ k
    pub silent : packets more ≡ []
    pub unlisted : AllUnlisted more
    pub client_open_log :
        (client_open s t).log
        ≡ client.log ++ (Event.packet (last_ack_packet (client_open s t)) ∷ more)
    pub ack_read : parse l4b l6b (last_ack_packet (client_open s t)) ≡ some u
    pub ack_key : key_in u ≡ flip k
    pub server_open_log : (server_open s (client_open s t) u).log ≡ (server s).log
    pub agree : Agree (client_open s t) (server_open s (client_open s t) u)

  -- The handshake of two ends, packet by packet.
  pub handshake-Steps :
      (l4a : Bytes) (l6a : Option Bytes) (l4b : Bytes) (l6b : Option Bytes)
      → Idle appa
      → IsPaired l4a l6a l4b l6b
      → Steps l4a l6a l4b l6b
  handshake-Steps l4a l6a l4b l6b idle w =
      let s = reading client.family appa client tcpf_syn client.iss 0 [] in
      let both = tcpf_syn + tcpf_ack in
      let iss_lem : client.iss ≡ isna = unfold opened send_segment in refl in
      let read_s =
        end_read appa k isna (add32 isna 1) 0 client client-IsEnd l4b l6b w.to_server w.ports
          tcpf_syn client.iss 0 (omega (arith, iss_lem, w.isna_fits)) (omega arith) in
      let plain_s = ap (tcp_options tcpf_syn) (
        no_sacks appa k isna (add32 isna 1) 0 client client-IsEnd l4b l6b w.to_server w.ports
          tcpf_syn refl) in
      let l =
        server-IsListening syn s
          (end_key appa k isna (add32 isna 1) 0 client client-IsEnd l4b l6b w.to_server w.ports
            tcpf_syn client.iss 0)
          iss_lem plain_s in
      let b = server s in
      let t = reading b.family appb b both b.iss b.rcv_nxt [] in
      let swapped : (k.remote_port < 2 ^ 16) × (k.local_port < 2 ^ 16) = (w.ports.1, w.ports.0) in
      let read_t =
        end_read appb (flip k) isnb (add32 isnb 1) (add32 isna 1) b l.end l4a l6a w.to_client
          swapped both b.iss b.rcv_nxt (omega (arith, l.iss, w.isnb_fits))
          (omega (arith, l.end.expected)) in
      let plain_t = ap (tcp_options both) (
        no_sacks appb (flip k) isnb (add32 isnb 1) (add32 isna 1) b l.end l4a l6a w.to_client
          swapped both refl) in
      let arrival_t =
        arrival_eq both (advertised_window appb b both) l.iss l.end.expected plain_t read_t.1 in
      let a = client_open s t in
      let open_a : IsAnswered a =
        subst (λ (x : Arrival). IsAnswered (answered x)) (sym arrival_t)
          (answered-IsAnswered (advertised_window appb b both) idle w.isna_fits) in
      let u = reading a.family appa a tcpf_ack a.snd_nxt a.rcv_nxt [] in
      let read_u =
        end_read appa k (add32 isna 1) (add32 isna 1) (add32 isnb 1) a open_a.end l4b l6b
          w.to_server w.ports tcpf_ack a.snd_nxt a.rcv_nxt (omega (arith, open_a.end.sent))
          (omega (arith, open_a.end.expected)) in
      let arrival_u =
        arrival_eq tcpf_ack (advertised_window appa a tcpf_ack) {seq = a.snd_nxt}
          {options = u.options} refl open_a.end.expected refl read_u.1 in
      let open_b : IsServing (server_open s a u) =
        subst (λ (x : Arrival). IsServing (conn_input appb true x b)) (sym arrival_u)
          (ready-IsServing b a.snd_nxt (advertised_window appa a tcpf_ack) u.options l) in
      let same_log : (server_open s a u).log ≡ b.log =
        subst (λ (x : Arrival). (conn_input appb true x b).log ≡ b.log) (sym arrival_u)
          (ready-log b a.snd_nxt (advertised_window appa a tcpf_ack) u.options l) in
      record {
        s = s;
        t = t;
        u = u;
        more = open_a.more;
        syn_read = read_s.0;
        syn_key =
            end_key appa k isna (add32 isna 1) 0 client client-IsEnd l4b l6b w.to_server w.ports
              tcpf_syn client.iss 0;
        syn_flags = refl;
        server_log = l.logged;
        server_key = l.end.keyed;
        synack_read = read_t.0;
        synack_key =
            end_key appb (flip k) isnb (add32 isnb 1) (add32 isna 1) b l.end l4a l6a w.to_client
              swapped both b.iss b.rcv_nxt;
        silent = open_a.silent;
        unlisted = open_a.unlisted;
        client_open_log = open_a.logged;
        ack_read = read_u.0;
        ack_key =
            end_key appa k (add32 isna 1) (add32 isna 1) (add32 isnb 1) a open_a.end l4b l6b
              w.to_server w.ports tcpf_ack a.snd_nxt a.rcv_nxt;
        server_open_log = same_log;
        agree = record {
          a_open = open_a.open_state;
          b_open = open_b.open_state;
          a_expects = open_a.end.expected ∙ sym open_b.end.sent;
          b_expects = open_b.end.expected ∙ sym open_a.end.sent;
          a_done = open_a.end.acked ∙ sym open_a.end.sent;
          b_done = open_b.end.acked ∙ sym open_b.end.sent;
          a_mss = open_a.mss;
          b_mss = open_b.mss;
          a_scale = open_a.scale;
          b_scale = open_b.scale;
        };
      }
