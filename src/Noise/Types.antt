-- ===== src/Noise/Types.antt =====
-- The structs of src/wg.h and src/noise.h that the handshake reads and writes.
use wgx.Base.{ℕ, ◌+◌, ◌-◌, ◌%◌, ◌^◌, Bool, ◌++◌}
use wgx.Base.Bytes.{Bytes, le_bytes}
use wgx.Replay.{Filter}

-- `hs_state_t`
pub data HandshakeState : Type 0 where
  zeroed initiation_created initiation_consumed response_created response_consumed : HandshakeState

-- `wg_handshake_t`
pub record Handshake : Type 0 where
  pub state : HandshakeState
  pub hash : Bytes
  pub chain_key : Bytes
  pub psk : Bytes
  pub local_ephemeral_priv : Bytes
  pub local_ephemeral_pub : Bytes
  pub local_index : ℕ
  pub remote_index : ℕ
  pub remote_static : Bytes
  pub remote_ephemeral : Bytes
  pub precomputed_static_static : Bytes
  pub last_timestamp : Bytes
  pub last_initiation_consumption_ms : ℕ
  pub last_sent_handshake_ms : ℕ

-- `wg_keypair_t`
pub record Keypair : Type 0 where
  pub send_nonce : ℕ
  pub send_key : Bytes
  pub recv_key : Bytes
  pub replay : Filter
  pub is_initiator : Bool
  pub created_at_ms : ℕ
  pub local_index : ℕ
  pub remote_index : ℕ

-- `wg_cookie_gen_t`
pub record CookieGen : Type 0 where
  pub mac1_key : Bytes
  pub mac2_key : Bytes
  pub cookie : Bytes
  pub cookie_set_ms : ℕ
  pub has_last_mac1 : Bool
  pub last_mac1 : Bytes

-- `wg_cookie_checker_t`
pub record CookieChecker : Type 0 where
  pub mac1_key : Bytes
  pub mac2_secret : Bytes
  pub mac2_secret_set_ms : ℕ
  pub mac2_encrypt_key : Bytes

-- `msg_initiation_t`
pub record Initiation : Type 0 where
  pub msg_type : ℕ
  pub sender : ℕ
  pub ephemeral : Bytes
  pub static_enc : Bytes
  pub timestamp_enc : Bytes
  pub mac1 : Bytes
  pub mac2 : Bytes

-- `msg_response_t`
pub record Response : Type 0 where
  pub msg_type : ℕ
  pub sender : ℕ
  pub receiver : ℕ
  pub ephemeral : Bytes
  pub empty_enc : Bytes
  pub mac1 : Bytes
  pub mac2 : Bytes

-- `msg_cookie_reply_t`
pub record CookieReply : Type 0 where
  pub msg_type : ℕ
  pub receiver : ℕ
  pub nonce : Bytes
  pub cookie_enc : Bytes

-- the bytes before the field `mac1`
unfoldable pub initiation_head : Initiation → Bytes
initiation_head m =
    le_bytes 4 m.msg_type
    ++ (le_bytes 4 m.sender ++ (m.ephemeral ++ (m.static_enc ++ m.timestamp_enc)))

unfoldable pub response_head : Response → Bytes
response_head m =
    le_bytes 4 m.msg_type
    ++ (le_bytes 4 m.sender ++ (le_bytes 4 m.receiver ++ (m.ephemeral ++ m.empty_enc)))

-- `MSG_INITIATION`, `MSG_RESPONSE`, `MSG_COOKIE_REPLY` and `MSG_TRANSPORT`
abbrev pub msg_initiation : ℕ
msg_initiation = 1

abbrev pub msg_response : ℕ
msg_response = 2

abbrev pub msg_cookie_reply : ℕ
msg_cookie_reply = 3

abbrev pub msg_transport : ℕ
msg_transport = 4

-- `WG_COOKIE_LEN`, `WG_XNONCE_LEN`, `TAI64N_SIZE`
abbrev pub cookie_len : ℕ
cookie_len = 16

abbrev pub tai64n_size : ℕ
tai64n_size = 12

-- `COOKIE_REFRESH_TIME_MS` and `HANDSHAKE_INIT_RATE_MS`
abbrev pub cookie_refresh_time_ms : ℕ
cookie_refresh_time_ms = 120000

abbrev pub handshake_init_rate_ms : ℕ
handshake_init_rate_ms = 20

-- `a - b` on `uint64_t`
abbrev pub sub64 : ℕ → ℕ → ℕ
sub64 a b = (a + 2 ^ 64 - b) % 2 ^ 64
