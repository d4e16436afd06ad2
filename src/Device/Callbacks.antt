-- ===== src/Device/Callbacks.antt =====
-- src/timers.c: the callbacks of the timers. A timer fires once, so that it is not active while
-- its callback runs.
pub mod Retries
use wgx.Base.{ℕ, ◌+◌, ◌%◌, ◌^◌, Bool, true, false, Option, none, some, ◌==◌, leb, if◌then◌else◌}
use wgx.Crypto.{Primitives}
use wgx.Noise.Session
use wgx.Peer.{Peer, Timers}
use wgx.Timers.{
  timers_zero_key_material, max_timer_handshakes, rekey_timeout_ms, rekey_timeout_jitter_max_ms,
  keepalive_timeout_ms,
}
use wgx.Device.{Device, Env}
use wgx.Device.Send.{set_peer, initiate_handshake, send_keepalive}

abbrev pub set_timers : Device → (Timers → Timers) → Device
set_timers d f = set_peer d (record d.session.peer { timers = f d.session.peer.timers })

module _ (p : Primitives) (env : Env) where
  unfoldable pub cb_retransmit_handshake : Device → Device
  cb_retransmit_handshake d =
      let attempts = d.session.peer.handshake_attempts in
      let counted = set_peer d (record d.session.peer {
        handshake_attempts = (attempts + 1) % 2 ^ 32;
        timers = record d.session.peer.timers { retransmit_handshake = none };
      }) in
      if leb max_timer_handshakes attempts
      then set_peer counted
          (timers_zero_key_material (record counted.session.peer { handshake_attempts = 0 }))
      else (let sent = (initiate_handshake p env true counted).0 in
          set_timers sent (λ t. record t {
            retransmit_handshake =
                some (rekey_timeout_ms + env.jitter sent.drawn % rekey_timeout_jitter_max_ms);
          }))

  unfoldable pub cb_send_keepalive : Device → Device
  cb_send_keepalive d =
      let sent =
        (send_keepalive p env (set_timers d (λ t. record t { send_keepalive = none }))).0 in
      if sent.session.peer.need_another_keepalive
      then set_peer sent (record sent.session.peer {
        need_another_keepalive = false;
        timers = record sent.session.peer.timers { send_keepalive = some keepalive_timeout_ms };
      })
      else sent

  unfoldable pub cb_new_handshake : Device → Device
  cb_new_handshake d =
      (initiate_handshake p env false (set_timers d (λ t. record t { new_handshake = none }))).0

  unfoldable pub cb_zero_key_material : Device → Device
  cb_zero_key_material d =
      let fired = set_timers d (λ t. record t { zero_key_material = none }) in
      record fired { session = Session.zero_key_material fired.session }

  unfoldable pub cb_persistent_keepalive : Device → Device
  cb_persistent_keepalive d =
      let sent =
        (send_keepalive p env (set_timers d (λ t. record t { persistent_keepalive = none }))).0 in
      let interval = sent.session.peer.persistent_keepalive_ms in
      if interval == 0
      then sent
      else set_timers sent (λ t. record t { persistent_keepalive = some interval })
