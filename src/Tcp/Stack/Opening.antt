-- ===== src/Tcp/Stack/Opening.antt =====
-- `tcpstack_connect` of one stack of src/tcpstack.c to a listener of another, through
-- `tcpstack_input` of both.
use mathlib.Core.List.{append-nil}
use wgx.Base.{
  ℕ, ◌+◌, ◌%◌, ◌^◌, ◌≡◌, refl, ap, sym, ◌∙◌, arith, true, false, none, some, List, [], ◌∷◌, ◌++◌,
  leb, if◌then◌else◌,
}
use wgx.Base.Bytes.{Bytes}
use wgx.Noise.Index.{update}
use wgx.Tcp.Types.{Conn, App, Event}
use wgx.Tcp.Segment.{send_segment}
use wgx.Tcp.Input.{conn_input}
use wgx.Tcp.Sending.{arrival_of}
use wgx.Tcp.Stack.{
  Stack, Key, Callbacks, key_of, key_in, own_addr, opened, accepted, link, bucket_lookup, keys_eq,
  listener_lookup, tcpstack_connect, tcpstack_input,
}
use wgx.Tcp.Stack.Lookup.{IsFresh, bucket_lookup-link}
use wgx.Tcp.Stack.Dispatch.{
  packets, sent_by, sent_by-heap, on_lem, update_here, link-heap, link-local, keys_eq_refl,
  bucket_lookup-put, input-known, input-syn,
}
use wgx.Tcp.Stack.Handshake.{
  Idle, Agree, flip, client, syn, server, synack, client_open, server_open, last_ack_packet,
  client_log, IsPaired, Steps, handshake-Steps,
}

-- A connection just linked is found by its key.
found-link :
    (c : Conn) (st : Stack) (k : Key)
    → IsFresh st
    → c.being_freed ≡ false
    → key_of c ≡ k
    → bucket_lookup (link c st) k ≡ some st.next_addr
found-link c st k fresh alive keyed =
    let same : keys_eq (key_of c) k ≡ true =
      ap (keys_eq (key_of c)) (sym keyed) ∙ keys_eq_refl (key_of c) in
    bucket_lookup-link c st k fresh ∙ ground (arith, alive, same)

-- The stacks `a` and `b` before: `a` has an address of the family, `b` listens on the port and has
-- no connection of that key, both give new connections new addresses, and packets of each carry
-- the addresses of the other.
pub record CanMeet (appa appb : App) (k : Key) (isna isnb : ℕ) (cbs : Callbacks) (a b : Stack)
    : Type 0 where
  pub own : own_addr a k.family ≡ some k.local_addr
  pub port : a.next_port ≡ k.local_port
  pub fresh_a : IsFresh a
  pub fresh_b : IsFresh b
  pub listens : listener_lookup b.listeners k.family k.remote_port ≡ true
  pub unknown : bucket_lookup b (flip k) ≡ none
  pub paired : IsPaired appa appb k isna isnb cbs a.local_ip a.local_ip6 b.local_ip b.local_ip6

module _ (appa appb : App) (k : Key) (isna isnb draw : ℕ) (cbs : Callbacks)
    (on_accept : Conn → Conn) (a b : Stack) where
  -- the two stacks after each step: the SYN `p`, the answer `q` and the last acknowledgement `r`
  abbrev pub connecting : Stack
  connecting = (tcpstack_connect appa true isna k.family k.remote_addr k.remote_port cbs a).1

  abbrev pub accepting : Bytes → Stack
  accepting p = tcpstack_input appb on_accept true isnb p b

  abbrev pub connected : Bytes → Stack
  connected q = tcpstack_input appa on_accept true draw q connecting

  abbrev pub serving : Bytes → Bytes → Stack
  serving p r = tcpstack_input appb on_accept true draw r (accepting p)

  -- What one stack's connection sends is what the other is given, and both ends agree at last.
  abbrev pub Opens : Type 0
  Opens =
      (p : Bytes) × (q : Bytes) × (r : Bytes) × (c : Conn) × (d : Conn) × (sent_by connecting
          a.next_addr
        ≡ p ∷ [])
      × (sent_by (accepting p) b.next_addr ≡ q ∷ [])
      × (sent_by (connected q) a.next_addr ≡ p ∷ r ∷ [])
      × ((connected q).heap a.next_addr ≡ some c)
      × ((serving p r).heap b.next_addr ≡ some d)
      × Agree c d

  module _ (idle : Idle appa) (accepts : (c : Conn) → on_accept c ≡ c)
      (meet : CanMeet appa appb k isna isnb cbs a b) where
    steps : Steps appa appb k isna isnb cbs a.local_ip a.local_ip6 b.local_ip b.local_ip6
    steps =
        handshake-Steps appa appb k isna isnb cbs a.local_ip a.local_ip6 b.local_ip b.local_ip6 idle
          meet.paired

    abbrev first : Conn
    first = client appa appb k isna isnb cbs

    abbrev ported : Stack
    ported =
        let port = (a.next_port + 1) % 2 ^ 16 in
        record a { next_port = if leb 60000 port then 32768 else port }

    abbrev key_at : ℕ → Key
    key_at port = record k { local_port = port }

    connecting_lem : connecting ≡ link first ported
    unfolding tcpstack_connect
    connecting_lem =
        let from_own : connecting ≡ link (opened appa (key_at a.next_port) isna cbs) ported =
          ground (arith, meet.own) in
        from_own ∙ ap (λ (port : ℕ). link (opened appa (key_at port) isna cbs) ported) meet.port

    abbrev taken : Conn
    taken = server appa appb k isna isnb cbs steps.s

    taken-alive : taken.being_freed ≡ false
    unfolding accepted send_segment
    taken-alive = refl

    first-alive : first.being_freed ≡ false
    unfolding opened send_segment
    first-alive = refl

    first_key : key_of first ≡ k
    unfolding opened send_segment
    first_key = refl

    abbrev listening : Stack
    listening = link taken b

    -- `on_accept` runs on the new connection
    abbrev waiting : Stack
    waiting = record listening { heap = update listening.heap b.next_addr (some taken) }

    accepting_lem : accepting (syn appa appb k isna isnb cbs) ≡ waiting
    accepting_lem =
        let no_log : (on_accept taken).log ≡ taken.log ++ [] =
          ap (λ (c : Conn). c.log) (accepts taken) ∙ sym (append-nil taken.log) in
        input-syn appb on_accept isnb (syn appa appb k isna isnb cbs) steps.s b steps.syn_read
          (ap (bucket_lookup b) steps.syn_key ∙ meet.unknown)
          (ap (λ (j : Key). listener_lookup b.listeners j.family j.local_port) steps.syn_key
            ∙ meet.listens)
          steps.syn_flags
        ∙ (on_lem b.next_addr on_accept taken [] listening (link-heap taken b) no_log tt
            ∙ ap
                (λ (c : Conn). record listening {
                  heap = update listening.heap b.next_addr (some c);
                })
                (accepts taken))

    abbrev answer : Bytes
    answer = synack appa appb k isna isnb cbs steps.s

    abbrev opened_client : Conn
    opened_client = client_open appa appb k isna isnb cbs steps.s steps.t

    abbrev last : Bytes
    last = last_ack_packet appa appb k isna isnb cbs opened_client

    abbrev opened_server : Conn
    opened_server = server_open appa appb k isna isnb cbs steps.s opened_client steps.u

    connected_lem : connected answer ≡ record (link first ported) {
      heap = update (link first ported).heap a.next_addr (some opened_client);
    }
    connected_lem =
        let st = link first ported in
        let local = link-local first ported in
        let found : bucket_lookup st (key_in steps.t) ≡ some a.next_addr =
          ap (bucket_lookup st) steps.synack_key
          ∙ found-link first ported k (record { below = meet.fresh_a.below }) first-alive
              first_key in
        ap (tcpstack_input appa on_accept true draw answer) connecting_lem
        ∙ (input-known appa on_accept draw answer steps.t st
              (rw (local.0, local.1) steps.synack_read) a.next_addr found
            ∙ on_lem a.next_addr (conn_input appa true (arrival_of answer steps.t)) first
                (Event.packet last ∷ steps.more) st (link-heap first ported) steps.client_open_log
                (tt, steps.unlisted))

    serving_lem :
        serving (syn appa appb k isna isnb cbs) last
        ≡ record waiting { heap = update waiting.heap b.next_addr (some opened_server) }
    serving_lem =
        let local = link-local taken b in
        let found : bucket_lookup waiting (key_in steps.u) ≡ some b.next_addr =
          ap (bucket_lookup waiting) steps.ack_key
          ∙ (bucket_lookup-put listening (flip k) b.next_addr taken (link-heap taken b)
              ∙ found-link taken b (flip k) meet.fresh_b taken-alive steps.server_key) in
        ap (tcpstack_input appb on_accept true draw last) accepting_lem
        ∙ (input-known appb on_accept draw last steps.u waiting
              (rw (local.0, local.1) steps.ack_read) b.next_addr found
            ∙ on_lem b.next_addr (conn_input appb true (arrival_of last steps.u)) taken [] waiting
                (update_here listening.heap b.next_addr (some taken))
                (steps.server_open_log ∙ sym (append-nil taken.log)) tt)

    -- A stack connects to a listener of another: the connection's first packet, given to the other
    -- stack, opens a connection there by way of the listener, whose first packet, given to the first
    -- stack, finds the connection that was opened and is acknowledged with its second; and once that is
    -- given to the other stack, both ends are open and agree. The callbacks of the application leave
    -- the connections as they are, memory is given, and the stacks can meet.
    pub handshake_opens : Opens
    handshake_opens =
        let syn_packet = syn appa appb k isna isnb cbs in
        let client_at : connecting.heap a.next_addr ≡ some first =
          ap (λ (st : Stack). st.heap a.next_addr) connecting_lem ∙ link-heap first ported in
        let server_at : (accepting syn_packet).heap b.next_addr ≡ some taken =
          ap (λ (st : Stack). st.heap b.next_addr) accepting_lem
          ∙ update_here listening.heap b.next_addr (some taken) in
        let client_at_last : (connected answer).heap a.next_addr ≡ some opened_client =
          ap (λ (st : Stack). st.heap a.next_addr) connected_lem
          ∙ update_here (link first ported).heap a.next_addr (some opened_client) in
        let server_at_last : (serving syn_packet last).heap b.next_addr ≡ some opened_server =
          ap (λ (st : Stack). st.heap b.next_addr) serving_lem
          ∙ update_here waiting.heap b.next_addr (some opened_server) in
        let log : first.log ≡ Event.packet syn_packet ∷ [] = client_log appa appb k isna isnb cbs in
        let client_sent : packets opened_client.log ≡ syn_packet ∷ last ∷ [] =
          ap packets steps.client_open_log
          ∙ (ap (λ (t : List Event). packets (t ++ (Event.packet last ∷ steps.more))) log
              ∙ ap (λ (t : List Bytes). syn_packet ∷ last ∷ t) steps.silent) in
        (
          syn_packet,
          answer,
          last,
          opened_client,
          opened_server,
          sent_by-heap connecting a.next_addr first client_at ∙ ap packets log,
          sent_by-heap (accepting syn_packet) b.next_addr taken server_at
              ∙ ap packets steps.server_log,
          sent_by-heap (connected answer) a.next_addr opened_client client_at_last ∙ client_sent,
          client_at_last,
          server_at_last,
          steps.agree,
        )
