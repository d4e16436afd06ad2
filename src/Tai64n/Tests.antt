-- ===== src/Tai64n/Tests.antt =====
-- Timestamps of src/tai64n.c at two concrete times.
use wgx.Base.{ℕ, ◌≡◌, ◌<◌, ◌⊎◌, ◌↔◌, true, arith}
use wgx.Tai64n.{tai64n_now, tai64n_after}
use wgx.Tai64n.Order.{tai64n_after_now}

-- a second of the clock
abbrev second : ℕ
second = 1700000000

tai64n_after_now_example :
    (tai64n_after (tai64n_now second 999) (tai64n_now second 998) ≡ true)
    ↔ ((second < second) ⊎ ((second ≡ second) × (998 < 999)))
tai64n_after_now_example =
    tai64n_after_now second 999 second 998 (omega arith) (omega arith) (omega arith) (omega arith)
