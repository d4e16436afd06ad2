-- ===== src/Replay.antt =====
-- src/replay.c and src/replay.h: the anti-replay sliding window of a transport keypair. A
-- `uint64_t` is a number below 2 ^ 64; the differences that the code takes are guarded, so that
-- none of them wraps.
pub mod Ring
pub mod Spec
pub mod Refine
pub mod Once
mod Tests
use wgx.Base.{ℕ, zero, suc, ◌+◌, ◌-◌, ◌*◌, ◌/◌, ◌^◌, bit_and, bit_or, Bool, true, false, List, []}
use wgx.Base.{◌∷◌, ltb, leb, ◌==◌, if◌then◌else◌, get_or, set, replicate, min}

-- `REPLAY_RING_BLOCKS`, `REPLAY_BLOCK_BITS` and `REPLAY_WINDOW_SIZE`
abbrev pub ring_blocks : ℕ
ring_blocks = 128

abbrev pub block_bits : ℕ
block_bits = 64

abbrev pub window_size : ℕ
window_size = (ring_blocks - 1) * block_bits

-- `replay_filter_t`
pub record Filter : Type 0 where
  pub last : ℕ
  pub ring : List ℕ

unfoldable pub reset : Filter
reset = record { last = 0; ring = replicate ring_blocks 0 }

-- `(counter >> 6) & (REPLAY_RING_BLOCKS - 1)`, of the block's number
abbrev pub slot_of : ℕ → ℕ
slot_of block = bit_and block (ring_blocks - 1)

-- `UINT64_C(1) << (counter & 63)`
abbrev pub bit_of : ℕ → ℕ
bit_of counter = 2 ^ bit_and counter 63

abbrev pub word : Filter → ℕ → ℕ
word f counter = get_or f.ring (slot_of (counter / 64)) 0

unfoldable pub check : Filter → ℕ → ℕ → Bool
check f counter limit =
    if leb limit counter
    then false
    else (if leb counter f.last
        then (if ltb window_size (f.last - counter)
            then false
            else (if bit_and (word f counter) (bit_of counter) == 0 then true else false))
        else true)

-- the loop that clears the blocks `i`, `i + 1`, …, as many as `rounds`
pub clear_blocks : ℕ → ℕ → List ℕ → List ℕ
clear_blocks i zero ring = ring
clear_blocks i (suc rounds) ring = clear_blocks (i + 1) rounds (set ring (slot_of i) 0)

-- `if (counter > f->last) { … }`: the window moves forward
pub advance : Filter → ℕ → Filter
unfolding clear_blocks
advance f counter =
    if ltb f.last counter
    then record {
      last = counter;
      ring = clear_blocks (f.last / 64 + 1) (min (counter / 64 - f.last / 64) ring_blocks) f.ring;
    }
    else f

-- `f->ring[slot] |= bit`
pub mark : Filter → ℕ → Filter
mark f counter = record f {
  ring = set f.ring (slot_of (counter / 64)) (bit_or (word f counter) (bit_of counter));
}

unfoldable pub commit : Filter → ℕ → ℕ → Filter × Bool
unfolding advance mark check
commit f counter limit =
    if check f counter limit then (mark (advance f counter) counter, true) else (f, false)

pub validate : Filter → ℕ → ℕ → Filter × Bool
unfolding commit
validate f counter limit = commit f counter limit

-- the commits of a session in order, and what each returns
pub run : ℕ → Filter → List ℕ → List Bool
unfolding commit
run limit f [] = []
run limit f (c ∷ cs) = let (f', accepted) = commit f c limit in accepted ∷ run limit f' cs
