-- ===== src/Device/Drain.antt =====
-- The loops at the end of `handle_initiation` and `handle_response` of src/device.c, with a keypair
-- that is good.
use wgx.Base.{ℕ, zero, suc, ◌+◌, ◌%◌, ◌^◌, ◌<◌, ◌≤◌, ◌≡◌, inl, inr, ap, ◌∙◌, arith}
use wgx.Base.{false, some, leb}
use wgx.Base.Bytes.{Bytes}
use wgx.Crypto.{Primitives}
use wgx.Noise.Types.{Keypair, sub64}
use wgx.Noise.Index.{update}
use wgx.Peer.{Sockaddr, Staged}
use wgx.Timers.{timers_data_sent, reject_after_time_ms}
use wgx.Device.{Device, Env}
use wgx.Device.Send.{
  transmit, rekey_at, send_under, send_with, send_to_peer, sending_keypair, unstage, flush_step,
  set_peer, reject_after_messages,
}
use wgx.Device.Flush.{flush, handshake_begin-Keeps}
use wgx.Device.Nonce.{send_to_peer-Sends}
use wgx.Device.Counters.{send_under-cases}

module _ (p : Primitives) (env : Env) where
  transmit-staged :
      (ep : Sockaddr) (kp : Keypair) (nonce : ℕ) (pkt ciphertext : Bytes) (d : Device)
      → (transmit p env ep kp nonce pkt ciphertext d).session.peer.staged ≡ d.session.peer.staged
  unfolding transmit timers_data_sent
  transmit-staged ep kp nonce pkt ciphertext d = ground arith

  rekey_at-staged :
      (nonce : ℕ) (d : Device)
      → (rekey_at p env nonce d).session.peer.staged ≡ d.session.peer.staged
  unfolding rekey_at
  rekey_at-staged nonce d = ground (arith, handshake_begin-Keeps p env d)

  send_under-staged :
      (kp : Keypair) (nonce : ℕ) (pkt : Bytes) (d : Device)
      → (send_under p env kp nonce pkt d).0.session.peer.staged ≡ d.session.peer.staged
  send_under-staged kp nonce pkt d = elim (send_under-cases p env kp nonce pkt d) [
    | inl e ↦ ap (λ (t : Device). t.session.peer.staged) e
    | inr (ep, ciphertext, e) ↦
        ap (λ (t : Device). t.session.peer.staged) e
        ∙ (rekey_at-staged nonce (transmit p env ep kp nonce pkt ciphertext d)
            ∙ transmit-staged ep kp nonce pkt ciphertext d)
  ]

  -- The keypair that the device sends with is young, and has `left` counters left.
  pub record IsUsable (left : ℕ) (d : Device) : Type 0 where
    pub a : ℕ
    pub kp : Keypair
    pub chosen : sending_keypair d.session.peer ≡ some a
    pub here : d.session.keypairs a ≡ some kp
    pub young : leb reject_after_time_ms (sub64 env.now_ms kp.created_at_ms) ≡ false
    pub room : kp.send_nonce + left ≤ reject_after_messages

  send_with-staged :
      (a : ℕ) (kp : Keypair) (pkt : Bytes) (d : Device)
      → leb reject_after_time_ms (sub64 env.now_ms kp.created_at_ms) ≡ false
      → kp.send_nonce < reject_after_messages
      → (send_with p env a kp pkt d).0.session.peer.staged ≡ d.session.peer.staged
  unfolding send_with
  send_with-staged a kp pkt d young lt =
      let taken = record d {
        session = record d.session {
          keypairs =
              update d.session.keypairs a
                (some (record kp { send_nonce = (kp.send_nonce + 1) % 2 ^ 64 }));
        };
      } in
      ground (
        arith,
        send_under-staged kp kp.send_nonce pkt (rekey_at p env kp.send_nonce taken),
        rekey_at-staged kp.send_nonce taken,
      )

  send_to_peer-staged :
      (pkt : Bytes) (left : ℕ) (d : Device)
      → IsUsable (suc left) d
      → (send_to_peer p env pkt d).0.session.peer.staged ≡ d.session.peer.staged
  unfolding send_to_peer
  send_to_peer-staged pkt left d w =
      ground
        (arith, w.chosen, w.here, send_with-staged w.a w.kp pkt d w.young (omega (arith, w.room)))

  send_to_peer-IsUsable :
      (pkt : Bytes) (left : ℕ) (d : Device)
      → IsUsable (suc left) d
      → IsUsable left (send_to_peer p env pkt d).0
  send_to_peer-IsUsable pkt left d w =
      let (cur, next, moved) = send_to_peer-Sends p env w.a w.kp pkt d w.chosen w.here in
      let still : sending_keypair (send_to_peer p env pkt d).0.session.peer ≡ some w.a =
        ground (arith, w.chosen, cur, next) in
      elim moved [
        | inl (here, same) ↦ record {
          a = w.a;
          kp = w.kp;
          chosen = still;
          here = here;
          young = w.young;
          room = omega (arith, w.room);
        }
        | inr (here, sent) ↦ record {
          a = w.a;
          kp = record w.kp { send_nonce = (w.kp.send_nonce + 1) % 2 ^ 64 };
          chosen = still;
          here = here;
          young = w.young;
          room = omega (arith, w.room);
        }
      ]

  -- The loop ends where the keypair that the device sends with is young and has counters left for
  -- the packets that wait: after as many rounds as packets wait none waits.
  pub flush_ends :
      (n : ℕ) (d : Device)
      → IsUsable n d
      → d.session.peer.staged.count ≡ n
      → (flush p env n d).session.peer.staged.count ≡ 0
  unfolding flush_step
  flush_ends zero d w e = e
  flush_ends (suc n) d w e =
      let peer = d.session.peer in
      let (pkt, q) = unstage peer.staged in
      let d1 = set_peer d (record peer { staged = q }) in
      let w1 : IsUsable (suc n) d1 = record {
        a = w.a;
        kp = w.kp;
        chosen = w.chosen;
        here = w.here;
        young = w.young;
        room = w.room;
      } in
      let staged = send_to_peer-staged pkt n d1 w1 in
      let left =
        flush_ends n (send_to_peer p env pkt d1).0 (send_to_peer-IsUsable pkt n d1 w1)
          (ap (λ (t : Staged). t.count) staged ∙ omega (arith, e)) in
      ground (arith, e, left)
