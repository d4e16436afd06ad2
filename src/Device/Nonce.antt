-- ===== src/Device/Nonce.antt =====
-- The counters of the transport messages that src/device.c sends: no keypair uses one twice.
use mathlib.Core.Path.{subst}
use wgx.Base.{
  ℕ, ◌+◌, ◌%◌, ◌^◌, ◌<◌, ◌≤◌, ◌≡◌, ◌⊎◌, inl, inr, refl, ap, sym, ◌∙◌, arith, Bool, true, ◌&&◌,
}
use wgx.Base.{Option, some, List, [], ◌∷◌, ◌++◌, ltb, length, Bool-cases}
use wgx.Base.Bytes.{Bytes}
use wgx.Crypto.{Primitives}
use wgx.Noise.Types.{Keypair}
use wgx.Noise.Index.{update}
use wgx.Device.{Device, Env}
use wgx.Device.Send.{
  default_mtu, rekey_at, handshake_begin, send_under, send_with, send_to_peer, sending_keypair,
  stage, reject_after_messages,
}
use wgx.Device.Counters.{counters, handshake_begin-Quiet, rekey_at-Quiet, send_under-Under}

-- What sending a packet with the keypair `kp` at `a` does.
abbrev pub Sends : ℕ → Keypair → Device → Device → Type 0
Sends a kp d d' =
    (d'.session.peer.current_keypair ≡ d.session.peer.current_keypair)
    × (d'.session.peer.next_keypair ≡ d.session.peer.next_keypair)
    × (((d'.session.keypairs a ≡ some kp) × (counters d'.outbox ≡ counters d.outbox))
        ⊎ ((d'.session.keypairs a ≡ some (record kp { send_nonce = (kp.send_nonce + 1) % 2 ^ 64 }))
            × ((counters d'.outbox ≡ counters d.outbox)
                ⊎ ((counters d'.outbox ≡ counters d.outbox ++ (kp.send_nonce ∷ []))
                    × (kp.send_nonce < reject_after_messages)))))

module _ (p : Primitives) (env : Env) where
  -- the device with the nonce taken
  abbrev taken : ℕ → Keypair → Device → Device
  taken a kp d = record d {
    session = record d.session {
      keypairs =
          update d.session.keypairs a
            (some (record kp { send_nonce = (kp.send_nonce + 1) % 2 ^ 64 }));
    };
  }

  taken_at :
      (a : ℕ) (kp : Keypair) (d : Device)
      → (taken a kp d).session.keypairs a
        ≡ some (record kp { send_nonce = (kp.send_nonce + 1) % 2 ^ 64 })
  taken_at a kp d = ground arith

  send_with-cases :
      (a : ℕ) (kp : Keypair) (pkt : Bytes) (d : Device)
      → ((send_with p env a kp pkt d).0 ≡ handshake_begin p env (stage d pkt))
        ⊎ (((send_with p env a kp pkt d).0 ≡ handshake_begin p env (stage (taken a kp d) pkt))
            ⊎ (((send_with p env a kp pkt d).0
                  ≡ (send_under p env kp kp.send_nonce pkt
                      (rekey_at p env kp.send_nonce (taken a kp d))).0)
                × (kp.send_nonce < reject_after_messages)))
  unfolding send_with
  send_with-cases a kp pkt d = ground arith

  send_with-Sends :
      (a : ℕ) (kp : Keypair) (pkt : Bytes) (d : Device)
      → d.session.keypairs a ≡ some kp
      → Sends a kp d (send_with p env a kp pkt d).0
  send_with-Sends a kp pkt d here = elim (send_with-cases a kp pkt d) [
    | inl e ↦ subst (Sends a kp d) (sym e) (
        let (q, c, n, u) = handshake_begin-Quiet p env (stage d pkt) in
        (c, n, inl (ap (λ (h : ℕ → Option Keypair). h a) q ∙ here, u)))
    | inr (inl e) ↦ subst (Sends a kp d) (sym e) (
        let (q, c, n, u) = handshake_begin-Quiet p env (stage (taken a kp d) pkt) in
        (c, n, inr (ap (λ (h : ℕ → Option Keypair). h a) q ∙ taken_at a kp d, inl u)))
    | inr (inr (e, lt)) ↦ subst (Sends a kp d) (sym e) (
        let ready = rekey_at p env kp.send_nonce (taken a kp d) in
        let (q, c, n, u) = rekey_at-Quiet p env kp.send_nonce (taken a kp d) in
        let (q', c', n', u') = send_under-Under p env kp kp.send_nonce pkt ready in
        (
          c' ∙ c,
          n' ∙ n,
          inr (
            ap (λ (h : ℕ → Option Keypair). h a) (q' ∙ q) ∙ taken_at a kp d,
            elim u' [
              | inl same ↦ inl (same ∙ u)
              | inr one ↦ inr (one ∙ ap (λ (t : List ℕ). t ++ (kp.send_nonce ∷ [])) u, lt)
            ],
          ),
        ))
  ]

  pub send_to_peer-Sends :
      (a : ℕ) (kp : Keypair) (pkt : Bytes) (d : Device)
      → sending_keypair d.session.peer ≡ some a
      → d.session.keypairs a ≡ some kp
      → Sends a kp d (send_to_peer p env pkt d).0
  unfolding send_to_peer
  send_to_peer-Sends a kp pkt d chosen here = elim (Bool-cases (ltb default_mtu (length pkt))) [
    | inl e ↦ ground arith
    | inr e ↦ simp (e, chosen, here) (send_with-Sends a kp pkt d here)
  ]

-- the packets of a run, each with what the rest of the system answers meanwhile
abbrev pub send_all : Primitives → List (Env × Bytes) → Device → Device
send_all p [] d = d
send_all p ((env, pkt) ∷ rest) d = send_all p rest (send_to_peer p env pkt d).0

abbrev pub all_below : ℕ → List ℕ → Bool
all_below n [] = true
all_below n (x ∷ xs) = ltb x n && all_below n xs

abbrev pub all_above : ℕ → List ℕ → Bool
all_above n [] = true
all_above n (x ∷ xs) = ltb n x && all_above n xs

abbrev pub is_ascending : List ℕ → Bool
is_ascending [] = true
is_ascending (x ∷ xs) = all_above x xs && is_ascending xs

all_below-snoc :
    (n m : ℕ) (xs : List ℕ)
    → all_below n xs ≡ true
    → n ≤ m
    → n < m
    → all_below m (xs ++ (n ∷ [])) ≡ true
all_below-snoc n m [] h le lt = ground arith
all_below-snoc n m (x ∷ xs) h le lt = ground (arith, all_below-snoc n m xs)

all_below-le : (n m : ℕ) (xs : List ℕ) → all_below n xs ≡ true → n ≤ m → all_below m xs ≡ true
all_below-le n m [] h le = refl
all_below-le n m (x ∷ xs) h le = ground (arith, all_below-le n m xs)

all_above-snoc :
    (x n : ℕ) (xs : List ℕ) → all_above x xs ≡ true → x < n → all_above x (xs ++ (n ∷ [])) ≡ true
all_above-snoc x n [] h lt = ground arith
all_above-snoc x n (y ∷ xs) h lt = ground (arith, all_above-snoc x n xs)

is_ascending-snoc :
    (n : ℕ) (xs : List ℕ)
    → all_below n xs ≡ true
    → is_ascending xs ≡ true
    → is_ascending (xs ++ (n ∷ [])) ≡ true
is_ascending-snoc n [] b h = refl
is_ascending-snoc n (x ∷ xs) b h = ground (arith, is_ascending-snoc n xs, all_above-snoc x n xs)

all_below_snoc_const :
    (r n : ℕ) (xs : List ℕ) → all_below r xs ≡ true → n < r → all_below r (xs ++ (n ∷ [])) ≡ true
all_below_snoc_const r n [] h lt = ground arith
all_below_snoc_const r n (x ∷ xs) h lt = ground (arith, all_below_snoc_const r n xs)

-- The counters sent so far ascend and are below the limit, and `left` more do not wrap around.
record IsCounted (a left : ℕ) (d : Device) : Type 0 where
  kp : Keypair
  chosen : sending_keypair d.session.peer ≡ some a
  here : d.session.keypairs a ≡ some kp
  ascending : is_ascending (counters d.outbox) ≡ true
  below : all_below kp.send_nonce (counters d.outbox) ≡ true
  allowed : all_below reject_after_messages (counters d.outbox) ≡ true
  room : kp.send_nonce + left < 2 ^ 64

Sends-IsCounted :
    (a left : ℕ) (d d' : Device)
    → (w : IsCounted a (1 + left) d) → Sends a w.kp d d'
    → IsCounted a left d'
Sends-IsCounted a left d d' w (c, after, moved) =
    let n = w.kp.send_nonce in
    let chosen : sending_keypair d'.session.peer ≡ some a = ground (arith, w.chosen) in
    let next : (n + 1) % 2 ^ 64 ≡ n + 1 = omega (arith, w.room) in
    elim moved [
      | inl (here, same) ↦ record {
        kp = w.kp;
        chosen = chosen;
        here = here;
        ascending = ap is_ascending same ∙ w.ascending;
        below = ap (all_below n) same ∙ w.below;
        allowed = ap (all_below reject_after_messages) same ∙ w.allowed;
        room = omega (arith, w.room);
      }
      | inr (here, inl same) ↦ record {
        kp = record w.kp { send_nonce = (n + 1) % 2 ^ 64 };
        chosen = chosen;
        here = here;
        ascending = ap is_ascending same ∙ w.ascending;
        below =
            ap (all_below ((n + 1) % 2 ^ 64)) same
            ∙ all_below-le n _ (counters d.outbox) w.below (omega (arith, w.room));
        allowed = ap (all_below reject_after_messages) same ∙ w.allowed;
        room = omega (arith, w.room);
      }
      | inr (here, inr (one, lt)) ↦ record {
        kp = record w.kp { send_nonce = (n + 1) % 2 ^ 64 };
        chosen = chosen;
        here = here;
        ascending =
            ap is_ascending one ∙ is_ascending-snoc n (counters d.outbox) w.below w.ascending;
        below =
            ap (all_below ((n + 1) % 2 ^ 64)) one
            ∙ all_below-snoc n _ (counters d.outbox) w.below (omega (arith, w.room))
                (omega (arith, w.room));
        allowed =
            ap (all_below reject_after_messages) one
            ∙ all_below_snoc_const reject_after_messages n (counters d.outbox) w.allowed lt;
        room = omega (arith, w.room);
      }
    ]

send_all-IsCounted :
    (p : Primitives) (a : ℕ) (xs : List (Env × Bytes)) (d : Device)
    → IsCounted a (length xs) d
    → IsCounted a 0 (send_all p xs d)
send_all-IsCounted p a [] d w = w
send_all-IsCounted p a ((env, pkt) ∷ rest) d w = send_all-IsCounted p a rest _ (
    Sends-IsCounted a (length rest) d _
      (record {
        kp = w.kp;
        chosen = w.chosen;
        here = w.here;
        ascending = w.ascending;
        below = w.below;
        allowed = w.allowed;
        room = omega (arith, w.room);
      })
      (send_to_peer-Sends p env a w.kp pkt d w.chosen w.here))

-- Whatever packets are sent one after the other with one keypair, where no transport message went
-- out before, and whatever the clock, the allocations and the socket do meanwhile, the transport
-- messages that go out carry ascending counters below the limit: no counter, and so no nonce of
-- the key, is used twice. The counter that the keypair starts from and the number of packets,
-- also those that are not sent, are below 2 ^ 64 together.
pub counters_ascend :
    (p : Primitives) (a : ℕ) (kp : Keypair) (xs : List (Env × Bytes)) (d : Device)
    → sending_keypair d.session.peer ≡ some a
    → d.session.keypairs a ≡ some kp
    → kp.send_nonce + length xs < 2 ^ 64
    → counters d.outbox ≡ []
    → (is_ascending (counters (send_all p xs d).outbox) ≡ true)
      × (all_below reject_after_messages (counters (send_all p xs d).outbox) ≡ true)
counters_ascend p a kp xs d chosen here room none_sent =
    let w = send_all-IsCounted p a xs d (record {
      kp = kp;
      chosen = chosen;
      here = here;
      ascending = ap is_ascending none_sent;
      below = ap (all_below kp.send_nonce) none_sent;
      allowed = ap (all_below reject_after_messages) none_sent;
      room = room;
    }) in
    (w.ascending, w.allowed)
