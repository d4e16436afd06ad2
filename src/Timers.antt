-- ===== src/Timers.antt =====
-- src/timers.c: the timers of a peer. Starting a timer of libuv sets its delay, stopping it clears it.
use wgx.Base.{ℕ, ◌+◌, ◌*◌, ◌%◌, Bool, true, false, not, Option, none, some, ◌==◌, if◌then◌else◌}
use wgx.Peer.{Peer, Timers}

-- `REKEY_AFTER_TIME_MS`, `REJECT_AFTER_TIME_MS`, `REKEY_TIMEOUT_MS`, `KEEPALIVE_TIMEOUT_MS`,
-- `REKEY_TIMEOUT_JITTER_MAX_MS` and `MAX_TIMER_HANDSHAKES`
abbrev pub rekey_after_time_ms : ℕ
rekey_after_time_ms = 120000

abbrev pub reject_after_time_ms : ℕ
reject_after_time_ms = 180000

abbrev pub rekey_timeout_ms : ℕ
rekey_timeout_ms = 5000

abbrev pub keepalive_timeout_ms : ℕ
keepalive_timeout_ms = 10000

abbrev pub rekey_timeout_jitter_max_ms : ℕ
rekey_timeout_jitter_max_ms = 334

abbrev pub max_timer_handshakes : ℕ
max_timer_handshakes = 18

abbrev pub is_active : Option ℕ → Bool
is_active none = false
is_active (some delay) = true

-- `if (!peer->timers_active) return;` before the writes of `f`
abbrev when_active : Peer → (Timers → Timers) → Peer
when_active peer f = if not peer.timers.active then peer else record peer { timers = f peer.timers }

unfoldable pub timers_init : Peer → Peer
timers_init peer = record peer {
  timers = record {
    retransmit_handshake = none;
    send_keepalive = none;
    new_handshake = none;
    zero_key_material = none;
    persistent_keepalive = none;
    close_count = 5;
    active = true;
  };
}

unfoldable pub timers_stop : Peer → Peer
timers_stop peer = when_active peer (λ t. record t {
  retransmit_handshake = none;
  send_keepalive = none;
  new_handshake = none;
  zero_key_material = none;
  persistent_keepalive = none;
  active = false;
})

unfoldable pub timers_data_sent : Peer → Peer
timers_data_sent peer =
    when_active peer (λ t. record t { send_keepalive = some keepalive_timeout_ms })

unfoldable pub timers_data_received : Peer → Peer
timers_data_received peer =
    if not peer.timers.active
    then peer
    else (if not (is_active peer.timers.send_keepalive)
        then record peer {
          timers = record peer.timers { send_keepalive = some keepalive_timeout_ms };
        }
        else record peer { need_another_keepalive = true })

unfoldable pub timers_keepalive_received : Peer → Peer
timers_keepalive_received peer = when_active peer (λ t. record t { send_keepalive = none })

-- `jitter` is the random word
unfoldable pub timers_handshake_initiated : Peer → ℕ → Peer
timers_handshake_initiated peer jitter = when_active peer (λ t. record t {
  retransmit_handshake = some (rekey_timeout_ms + jitter % rekey_timeout_jitter_max_ms);
})

unfoldable pub timers_handshake_complete : Peer → Peer
timers_handshake_complete peer = if not peer.timers.active then peer else record peer {
  handshake_attempts = 0;
  timers = record peer.timers {
    retransmit_handshake = none;
    new_handshake = some rekey_after_time_ms;
    zero_key_material = some (reject_after_time_ms * 3);
  };
}

unfoldable pub timers_persistent_keepalive_set : Peer → Peer
timers_persistent_keepalive_set peer = when_active peer (λ t. record t {
  persistent_keepalive =
      if peer.persistent_keepalive_ms == 0 then none else some peer.persistent_keepalive_ms;
})

unfoldable pub timers_zero_key_material : Peer → Peer
timers_zero_key_material peer = when_active peer (λ t. record t { zero_key_material = some 0 })
