-- ===== src/Device/Counters.antt =====
-- The counters of the messages that src/device.c sends, and what each step of a send adds to them.
use mathlib.Core.Path.{subst}
use wgx.Base.{ℕ, ◌+◌, ◌%◌, ◌^◌, ◌≡◌, ◌⊎◌, inl, inr, refl, ap, sym, ◌∙◌, arith, Bool, false}
use wgx.Base.{List, [], ◌∷◌, ◌++◌, length, Option-cases, Bool-cases}
use wgx.Base.Bytes.{Bytes}
use wgx.Crypto.{Primitives, encrypt}
use wgx.Noise.Types.{Keypair, Initiation}
use wgx.Noise.Index.{IndexTable}
use wgx.Noise.Mix.{Identity}
use wgx.Noise.Initiation.{Draws, create_initiation, finish_initiation}
use wgx.Peer.{Peer, Sockaddr}
use wgx.Timers.{timers_data_sent, timers_handshake_initiated}
use wgx.Device.{Device, Env, Datagram}
use wgx.Device.Send.{
  transmit, rekey_at, make_initiation, blank_initiation, nonce_bytes, padded, pad_packet,
  initiate_handshake, handshake_begin, send_under,
}

abbrev pub counters : List (Sockaddr × Datagram) → List ℕ
counters [] = []
counters ((to, Datagram.transport receiver counter ciphertext) ∷ sent) = counter ∷ counters sent
counters ((to, Datagram.initiation m) ∷ sent) = counters sent
counters ((to, Datagram.response m) ∷ sent) = counters sent
counters ((to, Datagram.cookie_reply m) ∷ sent) = counters sent

counters-append :
    (xs ys : List (Sockaddr × Datagram)) → counters (xs ++ ys) ≡ counters xs ++ counters ys
counters-append [] ys = refl
counters-append ((to, Datagram.transport r c e) ∷ xs) ys = ap (λ t. c ∷ t) (counters-append xs ys)
counters-append ((to, Datagram.initiation m) ∷ xs) ys = counters-append xs ys
counters-append ((to, Datagram.response m) ∷ xs) ys = counters-append xs ys
counters-append ((to, Datagram.cookie_reply m) ∷ xs) ys = counters-append xs ys

append-nil {ℓ} : {A : Type ℓ} (xs : List A) → xs ++ [] ≡ xs
append-nil [] = refl
append-nil (x ∷ xs) = ap (λ t. x ∷ t) (append-nil xs)

-- Nothing that concerns the transport differs.
abbrev Quiet : Device → Device → Type 0
Quiet d d' =
    (d'.session.keypairs ≡ d.session.keypairs)
    × (d'.session.peer.current_keypair ≡ d.session.peer.current_keypair)
    × (d'.session.peer.next_keypair ≡ d.session.peer.next_keypair)
    × (counters d'.outbox ≡ counters d.outbox)

create_initiation-keypairs :
    (p : Primitives) (id : Identity) (table : IndexTable) (peer : Peer) (msg : Initiation)
    (draws : Draws) (ts : Bytes) (now_ms : ℕ)
    → let made = create_initiation p id table peer msg draws ts now_ms in
      (made.peer.current_keypair ≡ peer.current_keypair)
      × (made.peer.next_keypair ≡ peer.next_keypair)
unfolding create_initiation finish_initiation
create_initiation-keypairs p id table peer msg draws ts now_ms = ground arith

timers_handshake_initiated-keypairs :
    (peer : Peer) (jitter : ℕ)
    → ((timers_handshake_initiated peer jitter).current_keypair ≡ peer.current_keypair)
      × ((timers_handshake_initiated peer jitter).next_keypair ≡ peer.next_keypair)
unfolding timers_handshake_initiated
timers_handshake_initiated-keypairs peer jitter = ground arith

module _ (p : Primitives) (env : Env) where
  make_initiation-keypairs :
      (d : Device)
      → ((make_initiation p env d).peer.current_keypair ≡ d.session.peer.current_keypair)
        × ((make_initiation p env d).peer.next_keypair ≡ d.session.peer.next_keypair)
  make_initiation-keypairs d =
      create_initiation-keypairs p d.identity d.session.index_table
        (record d.session.peer {
          handshake = record d.session.peer.handshake { last_sent_handshake_ms = env.now_ms };
        })
        blank_initiation (env.draws d.drawn) env.timestamp env.now_ms

  initiate_handshake-Quiet :
      (force : Bool) (d : Device) → Quiet d (initiate_handshake p env force d).0
  unfolding initiate_handshake
  initiate_handshake-Quiet force d =
      let made = make_initiation p env d in
      let kept = make_initiation-keypairs d in
      let timed = timers_handshake_initiated-keypairs made.peer (env.jitter d.drawn) in
      elim (Option-cases made.peer.endpoint) [
        | inl e ↦ ground (arith, kept)
        | inr (ep, e) ↦ ground (
          arith,
          kept,
          timed,
          counters-append d.outbox ((ep, Datagram.initiation made.msg) ∷ []),
          append-nil (counters d.outbox),
        )
      ]

  pub handshake_begin-Quiet : (d : Device) → Quiet d (handshake_begin p env d)
  unfolding handshake_begin
  handshake_begin-Quiet d = ground (arith, initiate_handshake-Quiet false d)

  -- What sending under a counter does: the keypairs stay, and at most one message has it.
  abbrev Under : Device → Device → ℕ → Type 0
  Under d d' n =
      (d'.session.keypairs ≡ d.session.keypairs)
      × (d'.session.peer.current_keypair ≡ d.session.peer.current_keypair)
      × (d'.session.peer.next_keypair ≡ d.session.peer.next_keypair)
      × ((counters d'.outbox ≡ counters d.outbox)
          ⊎ (counters d'.outbox ≡ counters d.outbox ++ (n ∷ [])))

  timers_data_sent-keypairs :
      (peer : Peer)
      → ((timers_data_sent peer).current_keypair ≡ peer.current_keypair)
        × ((timers_data_sent peer).next_keypair ≡ peer.next_keypair)
  unfolding timers_data_sent
  timers_data_sent-keypairs peer = ground arith

  Quiet-Under : (d e f : Device) (n : ℕ) → Under d e n → Quiet e f → Under d f n
  Quiet-Under d e f n (a, b, c, u) (a', b', c', u') =
      (a' ∙ a, b' ∙ b, c' ∙ c, elim u [ inl same ↦ inl (u' ∙ same) | inr one ↦ inr (u' ∙ one) ])

  pub rekey_at-Quiet : (nonce : ℕ) (d : Device) → Quiet d (rekey_at p env nonce d)
  unfolding rekey_at
  rekey_at-Quiet nonce d = ground (arith, handshake_begin-Quiet d)

  transmit-Under :
      (ep : Sockaddr) (kp : Keypair) (nonce : ℕ) (pkt ciphertext : Bytes) (d : Device)
      → Under d (transmit p env ep kp nonce pkt ciphertext d) nonce
  unfolding transmit
  transmit-Under ep kp nonce pkt ciphertext d = elim (Bool-cases env.sends) [
    | inl e ↦ ground (
      arith,
      counters-append d.outbox ((ep, Datagram.transport kp.remote_index nonce ciphertext) ∷ []),
      timers_data_sent-keypairs (record d.session.peer {
        tx_bytes = (d.session.peer.tx_bytes + (16 + pad_packet (length pkt) + 16)) % 2 ^ 64;
      }),
    )
    | inr e ↦ ground (arith, timers_data_sent-keypairs d.session.peer)
  ]

  transmit-rekey_at-Under :
      (ep : Sockaddr) (kp : Keypair) (nonce : ℕ) (pkt ciphertext : Bytes) (d : Device)
      → Under d (rekey_at p env nonce (transmit p env ep kp nonce pkt ciphertext d)) nonce
  transmit-rekey_at-Under ep kp nonce pkt ciphertext d =
      let sent = transmit p env ep kp nonce pkt ciphertext d in
      Quiet-Under d sent (rekey_at p env nonce sent) nonce
        (transmit-Under ep kp nonce pkt ciphertext d) (rekey_at-Quiet nonce sent)

  pub send_under-cases :
      (kp : Keypair) (nonce : ℕ) (pkt : Bytes) (d : Device)
      → ((send_under p env kp nonce pkt d).0 ≡ d)
        ⊎ ((ep : Sockaddr) × (ciphertext : Bytes) × ((send_under p env kp nonce pkt d).0
              ≡ rekey_at p env nonce (transmit p env ep kp nonce pkt ciphertext d)))
  unfolding send_under
  send_under-cases kp nonce pkt d = elim (Bool-cases env.buffer) [
    | inr e ↦ inl (ground arith)
    | inl buffer ↦ elim (Option-cases (encrypt p kp.send_key (nonce_bytes nonce) (padded pkt) [])) [
      | inl e ↦ inl (ground arith)
      | inr (ciphertext, enc) ↦ elim (Option-cases d.session.peer.endpoint) [
        | inl e ↦ inl (ground arith)
        | inr (ep, at) ↦ inr (ep, ciphertext, ground arith)
      ]
    ]
  ]

  pub send_under-Under :
      (kp : Keypair) (nonce : ℕ) (pkt : Bytes) (d : Device)
      → Under d (send_under p env kp nonce pkt d).0 nonce
  send_under-Under kp nonce pkt d = elim (send_under-cases kp nonce pkt d) [
    | inl e ↦ subst (λ (t : Device). Under d t nonce) (sym e) (refl, refl, refl, inl refl)
    | inr (ep, ciphertext, e) ↦
        subst (λ (t : Device). Under d t nonce) (sym e)
          (transmit-rekey_at-Under ep kp nonce pkt ciphertext d)
  ]
