-- ===== src/Tcp/Reassembly/Stream.antt =====
-- The peer's stream of bytes, and segments of it.
use wgx.Base.{
  ℕ, zero, suc, ◌+◌, ◌-◌, ◌%◌, ◌<◌, ◌≤◌, ◌≡◌, refl, ap, ◌∙◌, arith, [], ◌∷◌, ◌++◌, ltb, leb, length,
  drop,
}
use wgx.Base.Bytes.{Bytes}
use wgx.Tcp.Seq.{
  word, add32, sub32, seq_lt, seq_le, seq_gt, IsNear, seq_lt-position, seq_le-position,
  seq_gt-position, sub32-position, add32-position,
}

-- `n` bytes of a stream from the position `p` on
unfoldable pub slice : (ℕ → ℕ) → ℕ → ℕ → Bytes
slice f p zero = []
slice f p (suc n) = f p ∷ slice f (p + 1) n

pub length-slice : (f : ℕ → ℕ) (p n : ℕ) → length (slice f p n) ≡ n
unfolding slice
length-slice f p zero = refl
length-slice f p (suc n) = ap suc (length-slice f (p + 1) n)

pub drop-slice : (f : ℕ → ℕ) (p n k : ℕ) → k ≤ n → drop k (slice f p n) ≡ slice f (p + k) (n - k)
unfolding slice
drop-slice f p n zero le =
    ap (λ (t : ℕ). slice f t n) (omega arith)
    ∙ ap (slice f (p + 0)) {x = n} {y = n - 0} (omega arith)
drop-slice f p zero (suc k) le = absurd (omega arith)
drop-slice f p (suc n) (suc k) le =
    drop-slice f (p + 1) n k (omega arith)
    ∙ (ap (λ (t : ℕ). slice f t (n - k)) {x = p + 1 + k} {y = p + suc k} (omega arith)
        ∙ ap (slice f (p + suc k)) {x = n - k} {y = suc n - suc k} (omega arith))

pub slice-append : (f : ℕ → ℕ) (p m n : ℕ) → slice f p m ++ slice f (p + m) n ≡ slice f p (m + n)
unfolding slice
slice-append f p zero n =
    ap (λ (t : ℕ). slice f t n) (omega arith) ∙ ap (slice f p) {x = n} {y = 0 + n} (omega arith)
slice-append f p (suc m) n =
    ap (λ (t : Bytes). f p ∷ t)
      (ap (λ (t : ℕ). slice f (p + 1) m ++ slice f t n) {y = p + 1 + m} (omega arith)
        ∙ slice-append f (p + 1) m n)
    ∙ ap (slice f p) {x = suc (m + n)} {y = suc m + n} (omega arith)

-- The order of numbers that stand for near positions.
module _ (isn : ℕ) {a b : ℕ} (p q : ℕ) (at : a ≡ (isn + p) % word) (bt : b ≡ (isn + q) % word) where
  pub lt_at : IsNear p q → seq_lt a b ≡ ltb p q
  lt_at near = rw (at, bt) (seq_lt-position isn p q near)

  pub le_at : IsNear p q → seq_le a b ≡ leb p q
  le_at near = rw (at, bt) (seq_le-position isn p q near)

  pub gt_at : IsNear p q → seq_gt a b ≡ ltb q p
  gt_at near = rw (at, bt) (seq_gt-position isn p q near)

  pub sub_at : q ≤ p → p < q + word → sub32 a b ≡ p - q
  sub_at le lt = rw (at, bt) (sub32-position isn p q le lt)

pub add_at : (isn a p n : ℕ) → a ≡ (isn + p) % word → add32 a n ≡ (isn + (p + n)) % word
add_at isn a p n at = rw at (add32-position isn p n)
