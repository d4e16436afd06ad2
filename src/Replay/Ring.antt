-- ===== src/Replay/Ring.antt =====
-- The ring of blocks: which words the clearing loop of src/replay.c resets.
use wgx.Base.{ℕ, zero, suc, ◌+◌, ◌%◌, ◌≤◌, ◌<◌, ◌≡◌, ◌≢◌, ◌∙◌, refl, arith, List}
use wgx.Base.{[], ◌∷◌, length, get_or, set}
use native.Mathlib.Decide.{dec_lt}
use wgx.Base.{length-set, get_or-set_self, get_or-set_ne}
use wgx.Base.Bits.{bit_and_mask}
use wgx.Replay.{slot_of, clear_blocks}

-- The mask of seven ones is the remainder by the number of blocks.
pub slot_of_lem : (b : ℕ) → slot_of b ≡ b % 128
slot_of_lem b = bit_and_mask 7 b

pub length-clear_blocks : (i n : ℕ) (ring : List ℕ) → length (clear_blocks i n ring) ≡ length ring
unfolding clear_blocks
length-clear_blocks i zero ring = refl
length-clear_blocks i (suc n) ring = omega (
  arith,
  length-clear_blocks (i + 1) n (set ring (slot_of i) 0),
  length-set {0} ring (slot_of i) 0,
)

-- A slot that no cleared block uses keeps its word.
pub clear_blocks-miss :
    (i n s : ℕ) (ring : List ℕ)
    → ((j : ℕ) → i ≤ j → j < i + n → j % 128 ≢ s)
    → get_or (clear_blocks i n ring) s 0 ≡ get_or ring s 0
unfolding clear_blocks
clear_blocks-miss i zero s ring h = refl
clear_blocks-miss i (suc n) s ring h =
    clear_blocks-miss (i + 1) n s (set ring (slot_of i) 0)
      (λ j lo hi. h j (omega arith) (omega arith))
    ∙ get_or-set_ne ring 0 0 (rw slot_of_lem (h i (omega arith) (omega arith)))

set-zero : (ring : List ℕ) (k s : ℕ) → get_or ring s 0 ≡ 0 → get_or (set ring k 0) s 0 ≡ 0
set-zero [] k s h = refl
set-zero (x ∷ xs) zero zero h = refl
set-zero (x ∷ xs) zero (suc s) h = h
set-zero (x ∷ xs) (suc k) zero h = h
set-zero (x ∷ xs) (suc k) (suc s) h = set-zero xs k s h

clear_blocks-zero :
    (i n s : ℕ) (ring : List ℕ) → get_or ring s 0 ≡ 0 → get_or (clear_blocks i n ring) s 0 ≡ 0
unfolding clear_blocks
clear_blocks-zero i zero s ring h = h
clear_blocks-zero i (suc n) s ring h =
    clear_blocks-zero (i + 1) n s (set ring (slot_of i) 0) (set-zero ring (slot_of i) s h)

-- A slot that a cleared block uses holds no bit.
pub clear_blocks-hit :
    (i n b : ℕ) (ring : List ℕ)
    → length ring ≡ 128
    → i ≤ b
    → b < i + n
    → get_or (clear_blocks i n ring) (b % 128) 0 ≡ 0
unfolding clear_blocks
clear_blocks-hit i zero b ring len lo hi = absurd (omega arith)
clear_blocks-hit i (suc n) b ring len lo hi = elim (dec_lt i b) [
  | yes later ↦
      clear_blocks-hit (i + 1) n b (set ring (slot_of i) 0) (length-set ring (slot_of i) 0 ∙ len)
        (omega arith) (omega arith)
  | no first ↦ clear_blocks-zero (i + 1) n (b % 128) (set ring (slot_of i) 0) (here first)
]
  where
    here : ¬ (i < b) → get_or (set ring (slot_of i) 0) (b % 128) 0 ≡ 0
    here first =
        let e : slot_of i ≡ b % 128 = omega (arith, slot_of_lem i) in
        rw e (get_or-set_self ring (b % 128) 0 0 (omega arith))
