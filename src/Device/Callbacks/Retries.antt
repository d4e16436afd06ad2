-- ===== src/Device/Callbacks/Retries.antt =====
-- The retransmission of a handshake in src/timers.c: how often it happens.
use mathlib.Core.List.{append-nil}
use wgx.Base.{
  ℕ, zero, suc, ◌+◌, ◌%◌, ◌^◌, ◌≤◌, ◌<◌, ◌≡◌, ◌∙◌, arith, Bool, true, ◌&&◌, none, some, List, [],
  ◌∷◌, ◌++◌, if◌then◌else◌,
}
use wgx.Base.Bytes.{Bytes}
use wgx.Crypto.{Primitives}
use wgx.Noise.Types.{Initiation}
use wgx.Noise.Index.{IndexTable}
use wgx.Noise.Mix.{Identity}
use wgx.Noise.Initiation.{Draws, create_initiation, finish_initiation}
use wgx.Peer.{Peer, Sockaddr}
use wgx.Timers.{
  is_active, timers_handshake_initiated, timers_zero_key_material, max_timer_handshakes,
}
use wgx.Device.{Device, Env, Datagram}
use wgx.Device.Send.{blank_initiation, make_initiation, initiate_handshake}
use wgx.Device.Callbacks.{cb_retransmit_handshake}

create_initiation-timers :
    (p : Primitives) (id : Identity) (table : IndexTable) (peer : Peer) (msg : Initiation)
    (draws : Draws) (ts : Bytes) (now_ms : ℕ)
    → let made = create_initiation p id table peer msg draws ts now_ms in
      (made.peer.timers ≡ peer.timers) × (made.peer.handshake_attempts ≡ peer.handshake_attempts)
unfolding create_initiation finish_initiation
create_initiation-timers p id table peer msg draws ts now_ms = ground arith

initiate_handshake-timers :
    (p : Primitives) (env : Env) (force : Bool) (d : Device)
    → ((initiate_handshake p env force d).0.session.peer.timers.active
        ≡ d.session.peer.timers.active)
      × ((initiate_handshake p env force d).0.session.peer.handshake_attempts
          ≡ d.session.peer.handshake_attempts)
unfolding initiate_handshake timers_handshake_initiated
initiate_handshake-timers p env force d = ground (
  arith,
  create_initiation-timers p d.identity d.session.index_table
      (record d.session.peer {
        handshake = record d.session.peer.handshake { last_sent_handshake_ms = env.now_ms };
      })
      blank_initiation (env.draws d.drawn) env.timestamp env.now_ms,
)

-- What a device can send when it initiates a handshake: the initiation, to the peer's endpoint,
-- where it can be made, the endpoint is known and the socket takes it.
abbrev pub sendable : Primitives → Env → Device → List (Sockaddr × Datagram)
sendable p env d =
    let made = make_initiation p env d in
    elim made.peer.endpoint [
      | none ↦ []
      | some ep ↦ if made.made && env.sends then (ep, Datagram.initiation made.msg) ∷ [] else []
    ]

initiate_handshake-outbox :
    (p : Primitives) (env : Env) (d : Device)
    → (initiate_handshake p env true d).0.outbox ≡ d.outbox ++ sendable p env d
unfolding initiate_handshake
initiate_handshake-outbox p env d = ground (arith, append-nil d.outbox)

-- the device when the timer has fired and the attempt is counted
abbrev pub counted : Device → Device
counted d = record d {
  session = record d.session {
    peer = record d.session.peer {
      handshake_attempts = (d.session.peer.handshake_attempts + 1) % 2 ^ 32;
      timers = record d.session.peer.timers { retransmit_handshake = none };
    };
  };
}

-- the timer fires `n` times, and nothing else happens
abbrev pub fire : Primitives → (ℕ → Env) → ℕ → Device → Device
fire p env zero d = d
fire p env (suc n) d = cb_retransmit_handshake p (env n) (fire p env n d)

module _ (p : Primitives) (env : Env) (d : Device)
    (active : d.session.peer.timers.active ≡ true) where
  retransmit_again :
      d.session.peer.handshake_attempts < max_timer_handshakes
      → let d' = cb_retransmit_handshake p env d in
        (d'.session.peer.timers.active ≡ true)
        × (d'.session.peer.handshake_attempts ≡ d.session.peer.handshake_attempts + 1)
        × (is_active d'.session.peer.timers.retransmit_handshake ≡ true)
        × (d'.outbox ≡ d.outbox ++ sendable p env (counted d))
  unfolding cb_retransmit_handshake
  retransmit_again few = ground (
    arith,
    initiate_handshake-timers p env true (counted d),
    initiate_handshake-outbox p env (counted d),
  )

  retransmit_stops :
      max_timer_handshakes ≤ d.session.peer.handshake_attempts
      → let d' = cb_retransmit_handshake p env d in
        (d'.session.peer.timers.retransmit_handshake ≡ none)
        × (d'.session.peer.handshake_attempts ≡ 0)
        × (d'.session.peer.timers.zero_key_material ≡ some 0)
        × (d'.outbox ≡ d.outbox)
  unfolding cb_retransmit_handshake timers_zero_key_material
  retransmit_stops many = ground arith

module _ (p : Primitives) (env : ℕ → Env) (d : Device)
    (active : d.session.peer.timers.active ≡ true)
    (none_yet : d.session.peer.handshake_attempts ≡ 0) where
  fire-counts :
      (n : ℕ)
      → n ≤ max_timer_handshakes
      → ((fire p env n d).session.peer.timers.active ≡ true)
        × ((fire p env n d).session.peer.handshake_attempts ≡ n)
  fire-counts zero le = (active, none_yet)
  fire-counts (suc n) le =
      let (still, count) = fire-counts n (omega arith) in
      let again = retransmit_again p (env n) (fire p env n d) still (omega (arith, count)) in
      (again.0, again.1 ∙ omega (arith, count))

  -- A handshake that is not answered: each of the first 18 times that the timer fires, a new
  -- initiation goes out to the peer's endpoint, where it can be made, the endpoint is known and the
  -- socket takes it; the attempt is counted and the timer runs again. The 19th time nothing goes out,
  -- the timer does not run again, the count is reset, and the keys are to be zeroed at once. The timers
  -- of the peer are in use and the count is 0 before, and nothing else happens between.
  pub retransmit_gives_up :
      (n : ℕ)
      → n < max_timer_handshakes
      → ((fire p env (suc n) d).outbox
          ≡ (fire p env n d).outbox ++ sendable p (env n) (counted (fire p env n d)))
        × ((fire p env (suc n) d).session.peer.handshake_attempts ≡ suc n)
        × (is_active (fire p env (suc n) d).session.peer.timers.retransmit_handshake ≡ true)
        × ((fire p env 19 d).outbox ≡ (fire p env 18 d).outbox)
        × ((fire p env 19 d).session.peer.timers.retransmit_handshake ≡ none)
        × ((fire p env 19 d).session.peer.handshake_attempts ≡ 0)
        × ((fire p env 19 d).session.peer.timers.zero_key_material ≡ some 0)
  retransmit_gives_up n lt =
      let (still, count) = fire-counts n (omega arith) in
      let again = retransmit_again p (env n) (fire p env n d) still (omega (arith, count)) in
      let (still', count') = fire-counts 18 (omega arith) in
      let last = retransmit_stops p (env 18) (fire p env 18 d) still' (omega (arith, count')) in
      (again.3, (fire-counts (suc n) lt).1, again.2, last.3, last.0, last.1, last.2)
