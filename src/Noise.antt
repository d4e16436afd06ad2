-- ===== src/Noise.antt =====
-- src/noise.c, src/noise.h and the state of src/wg.h that it works on: the Noise_IKpsk2 handshake.
-- Pointers to peers and keypairs are numbers; `NULL` is `none`. The locks are not modelled: each
-- function runs alone on the state that it locks.
pub mod Types
pub mod Index
pub mod Mix
pub mod Cookie
pub mod Session
pub mod Initiation
pub mod Response
pub mod Pair
pub mod Fixture
mod Tests
