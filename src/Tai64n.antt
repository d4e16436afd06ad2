-- ===== src/Tai64n.antt =====
-- src/tai64n.c and src/tai64n.h: the timestamps of the handshake, as their twelve bytes.
pub mod Order
mod Tests
use wgx.Base.{ℕ, ◌+◌, ◌%◌, ◌^◌, ◌++◌, Bool, replicate}
use wgx.Base.Bytes.{Bytes, be_bytes, bytes_gt, bytes_eq}

-- `TAI64_BASE`, `0x400000000000000a`, and `TAI64N_SIZE`
abbrev pub tai64_base : ℕ
tai64_base = 2 ^ 62 + 10

abbrev pub tai64n_size : ℕ
tai64n_size = 12

-- `tai64n_now`, of what `clock_gettime` returns
unfoldable pub tai64n_now : ℕ → ℕ → Bytes
tai64n_now tv_sec tv_nsec =
    be_bytes 8 ((tai64_base + tv_sec) % 2 ^ 64) ++ be_bytes 4 (tv_nsec % 2 ^ 32)

unfoldable pub tai64n_after : Bytes → Bytes → Bool
tai64n_after a b = bytes_gt a b

unfoldable pub tai64n_zero : Bytes
tai64n_zero = replicate tai64n_size 0

unfoldable pub tai64n_is_zero : Bytes → Bool
tai64n_is_zero ts = bytes_eq ts (replicate tai64n_size 0)
