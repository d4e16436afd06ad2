-- ===== src/Noise/Session.antt =====
-- src/noise.c, `noise_begin_session`: the transport keypair that a handshake ends in, its entry in
-- the index table, and the rotation of the peer's keypairs. Keypairs live in a heap, from addresses
-- to what `calloc` gave and `free` has not taken back.
pub mod Filed
pub mod Owned
pub mod Life
mod Tests
use wgx.Base.{ℕ, ◌==◌, if◌then◌else◌, [], Bool, true, false, Option, none, some, replicate}
use wgx.Crypto.{Primitives, kdf2, key_len}
use wgx.Replay
use wgx.Noise.Types.{Handshake, HandshakeState, Keypair}
use wgx.Noise.Index.{IndexTable, update, delete, swap_keypair}
use wgx.Noise.Mix.{handshake_clear}
use wgx.Peer.{Peer}

-- the index table and the keypairs of the device, and the peer at hand
pub record Session : Type 0 where
  pub index_table : IndexTable
  pub keypairs : ℕ → Option Keypair
  pub peer : Peer

-- what `calloc` and the first lines leave of a new keypair
abbrev fresh_keypair : ℕ → Keypair
fresh_keypair now_ms = record {
  send_nonce = 0;
  send_key = replicate key_len 0;
  recv_key = replicate key_len 0;
  replay = Replay.reset;
  is_initiator = false;
  created_at_ms = now_ms;
  local_index = 0;
  remote_index = 0;
}

-- the keys: the two directions swap places between the initiator and the responder
unfoldable pub derive_keypair : Primitives → Handshake → ℕ → Keypair
derive_keypair p hs now_ms =
    let keys = kdf2 p hs.chain_key [] in
    let kp = record (fresh_keypair now_ms) {
      local_index = hs.local_index;
      remote_index = hs.remote_index;
    } in
    elim hs.state [
      | HandshakeState.response_consumed ↦ record kp {
        send_key = keys.0;
        recv_key = keys.1;
        is_initiator = true;
      }
      | HandshakeState.zeroed ↦ record kp { recv_key = keys.0; send_key = keys.1 }
      | HandshakeState.initiation_created ↦ record kp { recv_key = keys.0; send_key = keys.1 }
      | HandshakeState.initiation_consumed ↦ record kp { recv_key = keys.0; send_key = keys.1 }
      | HandshakeState.response_created ↦ record kp { recv_key = keys.0; send_key = keys.1 }
    ]

-- `kp->local_index`, 0 where nothing lives at the address
abbrev pub local_index_at : (ℕ → Option Keypair) → ℕ → ℕ
local_index_at heap a = elim (heap a) [ some kp ↦ kp.local_index | none ↦ 0 ]

-- `if (kp) { index_table_delete(kp->local_index); free(kp); }`
unfoldable pub retire : Session → Option ℕ → Session
retire s none = s
retire s (some a) = record s {
  index_table = delete s.index_table (local_index_at s.keypairs a);
  keypairs = update s.keypairs a none;
}

abbrev set_keypairs : Session → (prev cur next : Option ℕ) → Session
set_keypairs s prev cur next = record s {
  peer = record s.peer { prev_keypair = prev; current_keypair = cur; next_keypair = next };
}

unfoldable pub rotate_initiator : Session → ℕ → Session
rotate_initiator s kp =
    let old_prev = s.peer.prev_keypair in
    let old_next = s.peer.next_keypair in
    let old_cur = s.peer.current_keypair in
    elim old_next [
      | some n ↦ set_keypairs (retire (retire s old_cur) old_prev) (some n) (some kp) none
      | none ↦ set_keypairs (retire s old_prev) old_cur (some kp) none
    ]

unfoldable pub rotate_responder : Session → ℕ → Session
rotate_responder s kp =
    let old_prev = s.peer.prev_keypair in
    let old_next = s.peer.next_keypair in
    let retired = retire (retire s old_next) old_prev in
    set_keypairs retired none s.peer.current_keypair (some kp)

-- The handshake part of `noise_begin_session`, up to the rotation: `a` is what `calloc` returned.
unfoldable pub install : Primitives → Session → ℕ → ℕ → ℕ → Session
install p s a now_ms wall_ns =
    let hs = s.peer.handshake in
    record {
      index_table = (swap_keypair s.index_table hs.local_index a).0;
      keypairs = update s.keypairs a (some (derive_keypair p hs now_ms));
      peer = record s.peer {
        handshake = handshake_clear (record hs { local_index = 0 });
        last_handshake_ns = wall_ns;
      };
    }

-- Returns the state, and whether the session was begun; `calloc` may return `NULL`.
unfoldable pub begin_session : Primitives → Session → Option ℕ → ℕ → ℕ → Session × Bool
begin_session p s none now_ms wall_ns = (s, false)
begin_session p s (some a) now_ms wall_ns =
    let begun = install p s a now_ms wall_ns in
    elim s.peer.handshake.state [
      | HandshakeState.response_consumed ↦ (rotate_initiator begun a, true)
      | HandshakeState.response_created ↦ (rotate_responder begun a, true)
      | HandshakeState.zeroed ↦ (s, false)
      | HandshakeState.initiation_created ↦ (s, false)
      | HandshakeState.initiation_consumed ↦ (s, false)
    ]

-- `keypair_free` of src/device.c is `retire` once more; the keys are zeroed in memory that is freed.

-- src/device.c, the end of `device_handle_transport`: the keypair `kp` that a message came with, if
-- it is the one that waits, becomes the current one
unfoldable pub confirm_next : Session → ℕ → Session
confirm_next s kp = elim s.peer.next_keypair [
  | some n ↦
      (if n == kp
        then set_keypairs (retire s s.peer.prev_keypair) s.peer.current_keypair (some kp) none
        else s)
  | none ↦ s
]

-- src/timers.c, `cb_zero_key_material`
unfoldable pub zero_key_material : Session → Session
zero_key_material s =
    let freed_cur = retire s s.peer.current_keypair in
    let freed_next = retire freed_cur s.peer.next_keypair in
    let freed = retire freed_next s.peer.prev_keypair in
    let hs = s.peer.handshake in
    record freed {
      index_table = delete freed.index_table hs.local_index;
      peer = record s.peer {
        current_keypair = none;
        next_keypair = none;
        prev_keypair = none;
        handshake = handshake_clear hs;
      };
    }
