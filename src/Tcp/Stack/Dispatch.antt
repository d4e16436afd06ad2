-- ===== src/Tcp/Stack/Dispatch.antt =====
-- What `tcpstack_input` of src/tcpstack.c does with a packet that was read, and what a connection's
-- events do to the stack.
use wgx.Base.{
  ℕ, ◌≡◌, refl, ap, ◌∙◌, arith, true, Option, none, some, List, [], ◌∷◌, ◌++◌, ◌==◌, ==_iff, inl,
  inr, Bool-cases, length, drop,
}
use wgx.Base.Bytes.{Bytes, bytes_eq_refl}
use wgx.Noise.Index.{update}
use wgx.Tcp.Types.{Family, inet, inet6, Conn, App, Event, tcpf_syn, tcpf_ack, flag_set}
use wgx.Tcp.Segment.Parse.{Segment, parse}
use wgx.Tcp.Input.{conn_input}
use wgx.Tcp.Sending.{arrival_of}
use wgx.Tcp.Stack.{
  Stack, Key, is_family, bucket_insert, keys_eq, matches, find_conn, bucket_lookup, listener_lookup,
  perform, perform_all, on, link, key_in, accepted, tcpstack_input,
}

-- the packets of a log
abbrev pub packets : List Event → List Bytes
packets [] = []
packets (Event.packet p ∷ log) = p ∷ packets log
packets (Event.received p ∷ log) = packets log
packets (Event.connected status ∷ log) = packets log
packets (Event.closing ∷ log) = packets log
packets (Event.writeable ∷ log) = packets log
packets (Event.unlinked ∷ log) = packets log
packets (Event.flush_scheduled ∷ log) = packets log
packets (Event.released ∷ log) = packets log

-- what the connection at `id` has sent
abbrev pub sent_by : Stack → ℕ → List Bytes
sent_by st id = elim (st.heap id) [ none ↦ [] | some c ↦ packets c.log ]

pub sent_by-heap :
    (st : Stack) (id : ℕ) (c : Conn) → st.heap id ≡ some c → sent_by st id ≡ packets c.log
sent_by-heap st id c here =
    ap (λ (t : Option Conn). elim t [ none ↦ [] | some d ↦ packets d.log ]) here

-- Events that do not concern the lists of the stack.
abbrev pub AllUnlisted : List Event → Type 0
AllUnlisted [] = Unit {0}
AllUnlisted (Event.packet p ∷ log) = Unit {0} × AllUnlisted log
AllUnlisted (Event.received p ∷ log) = Unit {0} × AllUnlisted log
AllUnlisted (Event.connected status ∷ log) = Unit {0} × AllUnlisted log
AllUnlisted (Event.closing ∷ log) = Unit {0} × AllUnlisted log
AllUnlisted (Event.writeable ∷ log) = Unit {0} × AllUnlisted log
AllUnlisted (Event.unlinked ∷ log) = ⊥
AllUnlisted (Event.flush_scheduled ∷ log) = ⊥
AllUnlisted (Event.released ∷ log) = ⊥

perform_all-unlisted :
    (id : ℕ) (c : Conn) (events : List Event) (st : Stack)
    → AllUnlisted events
    → perform_all id c events st ≡ st
unfolding perform_all perform
perform_all-unlisted id c [] st h = refl
perform_all-unlisted id c (Event.packet p ∷ log) st h = perform_all-unlisted id c log st h.1
perform_all-unlisted id c (Event.received p ∷ log) st h = perform_all-unlisted id c log st h.1
perform_all-unlisted id c (Event.connected status ∷ log) st h = perform_all-unlisted id c log st h.1
perform_all-unlisted id c (Event.closing ∷ log) st h = perform_all-unlisted id c log st h.1
perform_all-unlisted id c (Event.writeable ∷ log) st h = perform_all-unlisted id c log st h.1
perform_all-unlisted id c (Event.unlinked ∷ log) st h = absurd h
perform_all-unlisted id c (Event.flush_scheduled ∷ log) st h = absurd h
perform_all-unlisted id c (Event.released ∷ log) st h = absurd h

drop-length : (xs ys : List Event) → drop (length xs) (xs ++ ys) ≡ ys
drop-length [] ys = refl
drop-length (x ∷ xs) ys = drop-length xs ys

-- An operation whose events do not concern the lists changes only its connection.
pub on_lem :
    (id : ℕ) (op : Conn → Conn) (c : Conn) (events : List Event) (st : Stack)
    → st.heap id ≡ some c
    → (op c).log ≡ c.log ++ events
    → AllUnlisted events
    → on id op st ≡ record st { heap = update st.heap id (some (op c)) }
unfolding on
on_lem id op c events st here logged unlisted =
    let st' = record st { heap = update st.heap id (some (op c)) } in
    let new : drop (length c.log) (op c).log ≡ events =
      ap (drop (length c.log)) logged ∙ drop-length c.log events in
    rw (on, here)
      (ap (λ (t : List Event). perform_all id c t st') new
        ∙ perform_all-unlisted id c events st' unlisted)

pub update_here : (heap : ℕ → Option Conn) (id : ℕ) (c : Option Conn) → update heap id c id ≡ c
update_here heap id c = ground arith

pub link-heap : (c : Conn) (st : Stack) → (link c st).heap st.next_addr ≡ some c
unfolding link bucket_insert
link-heap c st = update_here st.heap st.next_addr (some c)

pub link-local :
    (c : Conn) (st : Stack)
    → ((link c st).local_ip ≡ st.local_ip) × ((link c st).local_ip6 ≡ st.local_ip6)
unfolding link bucket_insert
link-local c st = (refl, refl)

pub keys_eq_refl : (k : Key) → keys_eq k k ≡ true
keys_eq_refl k =
    ground (arith, family_refl k.family, bytes_eq_refl k.local_addr, bytes_eq_refl k.remote_addr)
  where
    family_refl : (f : Family) → is_family f f ≡ true
    family_refl inet = refl
    family_refl inet6 = refl

-- A connection that is put where it stands is found where it was.
find_conn-put :
    (heap : ℕ → Option Conn) (k : Key) (id : ℕ) (c : Conn) (ids : List ℕ)
    → heap id ≡ some c
    → find_conn (update heap id (some c)) k ids ≡ find_conn heap k ids
unfolding find_conn
find_conn-put heap k id c [] here = refl
find_conn-put heap k id c (j ∷ ids) here =
    let same : update heap id (some c) j ≡ heap j = elim (Bool-cases (id == j)) [
      | inl e ↦ ground (arith, e, here, ap heap ((==_iff id j).0 e))
      | inr e ↦ ground (arith, e)
    ] in
    ground (arith, find_conn-put heap k id c ids here, ap (λ (t : Option Conn). matches t k) same)

pub bucket_lookup-put :
    (st : Stack) (k : Key) (id : ℕ) (c : Conn)
    → st.heap id ≡ some c
    → bucket_lookup (record st { heap = update st.heap id (some c) }) k ≡ bucket_lookup st k
unfolding bucket_lookup
bucket_lookup-put st k id c here = find_conn-put st.heap k id c _ here

module _ (app : App) (on_accept : Conn → Conn) (isn : ℕ) (p : Bytes) (s : Segment) (st : Stack)
    (read : parse st.local_ip st.local_ip6 p ≡ some s) where
  pub input-known :
      (id : ℕ)
      → bucket_lookup st (key_in s) ≡ some id
      → tcpstack_input app on_accept true isn p st ≡ on id (conn_input app true (arrival_of p s)) st
  unfolding tcpstack_input
  input-known id found = ground (arith, read, found)

  pub input-syn :
      bucket_lookup st (key_in s) ≡ none
      → listener_lookup st.listeners s.family s.dst_port ≡ true
      → s.flags ≡ tcpf_syn
      → tcpstack_input app on_accept true isn p st
        ≡ on st.next_addr on_accept (link (accepted app p isn s) st)
  unfolding tcpstack_input
  input-syn unknown listens syn = ground (
    arith,
    read,
    unknown,
    listens,
    ap (λ t. flag_set t tcpf_syn) syn,
    ap (λ t. flag_set t tcpf_ack) syn,
  )
