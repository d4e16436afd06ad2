-- ===== src/Tcp/Seq.antt =====
-- src/tcpstack.c: sequence numbers, which wrap at 32 bits, and their order.
use wgx.Base.{ℕ, ◌+◌, ◌-◌, ◌%◌, ◌^◌, ◌<◌, ◌≤◌, ◌≡◌, ◌&&◌, ◌||◌, arith, Bool, ◌==◌, ltb, leb}

abbrev pub word : ℕ
word = 2 ^ 32

-- `a + b` and `a - b` of two `uint32_t`
abbrev pub add32 : ℕ → ℕ → ℕ
add32 a b = (a + b) % word

abbrev pub sub32 : ℕ → ℕ → ℕ
sub32 a b = (a + word - b) % word

-- `(int32_t)(a - b) < 0` and so on: the sign is the top bit of the difference
unfoldable pub seq_lt : ℕ → ℕ → Bool
seq_lt a b = leb (2 ^ 31) (sub32 a b)

unfoldable pub seq_le : ℕ → ℕ → Bool
seq_le a b = (sub32 a b == 0) || leb (2 ^ 31) (sub32 a b)

unfoldable pub seq_gt : ℕ → ℕ → Bool
seq_gt a b = ltb 0 (sub32 a b) && ltb (sub32 a b) (2 ^ 31)

-- Two positions in a stream are near where they are less than half the numbers apart.
abbrev pub IsNear : ℕ → ℕ → Type 0
IsNear p q = (p < q + 2 ^ 31) × (q < p + 2 ^ 31)

-- The order of the numbers of near positions is the order of the positions.
pub seq_lt-position :
    (isn p q : ℕ) → IsNear p q → seq_lt ((isn + p) % word) ((isn + q) % word) ≡ ltb p q
unfolding seq_lt
seq_lt-position isn p q near = ground (arith, near.0, near.1)

pub seq_le-position :
    (isn p q : ℕ) → IsNear p q → seq_le ((isn + p) % word) ((isn + q) % word) ≡ leb p q
unfolding seq_le
seq_le-position isn p q near = ground (arith, near.0, near.1)

pub seq_gt-position :
    (isn p q : ℕ) → IsNear p q → seq_gt ((isn + p) % word) ((isn + q) % word) ≡ ltb q p
unfolding seq_gt
seq_gt-position isn p q near = ground (arith, near.0, near.1)

-- The difference of the numbers is that of the positions.
pub sub32-position :
    (isn p q : ℕ) → q ≤ p → p < q + word → sub32 ((isn + p) % word) ((isn + q) % word) ≡ p - q
sub32-position isn p q le lt = omega (arith, le, lt)

pub add32-position : (isn p n : ℕ) → add32 ((isn + p) % word) n ≡ (isn + (p + n)) % word
add32-position isn p n = omega arith
