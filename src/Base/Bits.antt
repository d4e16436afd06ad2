-- ===== src/Base/Bits.antt =====
-- `&`, `|` and single bits of machine words, as arithmetic on their binary digits.
use Prim.Native.Nat.{
  ℕ, zero, suc, ◌+◌, ◌-◌, ◌*◌, ◌/◌, ◌%◌, ◌^◌, ◌≤◌, ◌<◌, min, max, digits, bitwise, bit_and, bit_or,
  bit_and-bitwise, bit_or-bitwise,
}
use mathlib.Core.Path.{◌≡◌, refl, ap, ◌∙◌}
use native.Mathlib.Omega.{arith}
use native.Mathlib.Nat.{pow-suc, one-le-pow, div-div-eq-div-mul}
use wgx.Base.Tests.{◌==◌, if◌then◌else◌}

-- One more round for the digits than the first operand needs changes nothing.
one_more :
    (rest : ℕ → ℕ) (op : ℕ → ℕ → ℕ) (rounds x y : ℕ)
    → x ≤ rounds
    → digits rest op (suc rounds) x y ≡ digits rest op rounds x y
one_more rest op zero zero y fits = refl
one_more rest op zero (suc x) y fits = absurd (omega arith)
one_more rest op (suc rounds) zero y fits = refl
one_more rest op (suc rounds) (suc x) y fits =
    let halves = one_more rest op rounds (suc x / 2) (y / 2) (omega arith) in
    ap (λ (t : ℕ). t * 2 + op (suc x % 2) (y % 2)) halves

-- Nor do `spare` more.
spare_rounds :
    (rest : ℕ → ℕ) (op : ℕ → ℕ → ℕ) (spare x y : ℕ)
    → digits rest op (spare + x) x y ≡ bitwise rest op x y
spare_rounds rest op zero x y = ap (λ (t : ℕ). digits rest op t x y) (omega arith)
spare_rounds rest op (suc spare) x y =
    ap (λ (t : ℕ). digits rest op t x y) {y = suc (spare + x)} (omega arith)
    ∙ (one_more rest op (spare + x) x y (omega arith) ∙ spare_rounds rest op spare x y)

low_digit :
    (rest : ℕ → ℕ) (op : ℕ → ℕ → ℕ) (x y : ℕ)
    → bitwise rest op (suc x) y ≡ bitwise rest op (suc x / 2) (y / 2) * 2 + op (suc x % 2) (y % 2)
low_digit rest op x y =
    let h = suc x / 2 in
    let enough : digits rest op x h (y / 2) ≡ bitwise rest op h (y / 2) =
      ap (λ (t : ℕ). digits rest op t h (y / 2)) {y = (x - h) + h} (omega arith)
      ∙ spare_rounds rest op (x - h) h (y / 2) in
    ap (λ (t : ℕ). t * 2 + op (suc x % 2) (y % 2)) enough

pub bit_and_step : (x y : ℕ) → bit_and x y ≡ bit_and (x / 2) (y / 2) * 2 + min (x % 2) (y % 2)
bit_and_step zero y = simp bit_and-bitwise (omega arith)
bit_and_step (suc x) y = simp bit_and-bitwise (low_digit (λ t. 0) min x y)

pub bit_or_step : (x y : ℕ) → bit_or x y ≡ bit_or (x / 2) (y / 2) * 2 + max (x % 2) (y % 2)
bit_or_step zero y = simp bit_or-bitwise (omega arith)
bit_or_step (suc x) y = simp bit_or-bitwise (low_digit (λ t. t) max x y)

bit_and-zero_upto : (n x : ℕ) → x ≤ n → bit_and x 0 ≡ 0
bit_and-zero_upto n zero le = refl
bit_and-zero_upto zero (suc x) le = absurd (omega arith)
bit_and-zero_upto (suc n) (suc x) le =
    let halves = bit_and-zero_upto n (suc x / 2) (omega arith) in
    omega (arith, bit_and_step (suc x) 0, halves)

pub bit_and-zero : (x : ℕ) → bit_and x 0 ≡ 0
bit_and-zero x = bit_and-zero_upto x x (omega arith)

bit_or-zero_upto : (n x : ℕ) → x ≤ n → bit_or x 0 ≡ x
bit_or-zero_upto n zero le = refl
bit_or-zero_upto zero (suc x) le = absurd (omega arith)
bit_or-zero_upto (suc n) (suc x) le =
    let halves = bit_or-zero_upto n (suc x / 2) (omega arith) in
    omega (arith, bit_or_step (suc x) 0, halves)

pub bit_or-zero : (x : ℕ) → bit_or x 0 ≡ x
bit_or-zero x = bit_or-zero_upto x x (omega arith)

-- Bit `k` of `w`.
unfoldable pub test_bit : ℕ → ℕ → ℕ
test_bit w zero = w % 2
test_bit w (suc k) = test_bit (w / 2) k

pub test_bit-le : (w k : ℕ) → test_bit w k ≤ 1
unfolding test_bit
test_bit-le w zero = omega arith
test_bit-le w (suc k) = test_bit-le (w / 2) k

pub test_bit-zero : (k : ℕ) → test_bit 0 k ≡ 0
unfolding test_bit
test_bit-zero zero = refl
test_bit-zero (suc k) = test_bit-zero k

-- `w & (1 << k)` is not zero exactly when bit `k` of `w` is set.
pub bit_and-pow : (k w : ℕ) → bit_and w (2 ^ k) ≡ test_bit w k * 2 ^ k
unfolding test_bit
bit_and-pow zero w = omega (arith, bit_and_step w 1, bit_and-zero (w / 2))
bit_and-pow (suc k) w = ground (
  arith,
  bit_and_step w (2 ^ suc k),
  pow-suc 2 k,
  bit_and-pow k (w / 2),
  ap (λ (t : ℕ). test_bit (w / 2) k * t) (pow-suc 2 k),
)

half_or_one : (w : ℕ) → bit_or w 1 / 2 ≡ w / 2
half_or_one w = omega (arith, bit_or_step w 1, bit_or-zero (w / 2))

half_or_pow : (k w : ℕ) → bit_or w (2 ^ suc k) / 2 ≡ bit_or (w / 2) (2 ^ k)
half_or_pow k w =
    ground
      (arith, bit_or_step w (2 ^ suc k), pow-suc 2 k, ap (λ (t : ℕ). bit_or (w / 2) t) (half_pow k))
  where
    half_pow : (k : ℕ) → 2 ^ suc k / 2 ≡ 2 ^ k
    half_pow k = omega (arith, pow-suc 2 k)

-- `w | (1 << k)` sets bit `k` and leaves the others.
pub test_bit-bit_or :
    (k w j : ℕ) → test_bit (bit_or w (2 ^ k)) j ≡ (if j == k then 1 else test_bit w j)
unfolding test_bit
test_bit-bit_or zero w zero = ground (arith, bit_or_step w 1)
test_bit-bit_or zero w (suc j) =
    ground (arith, half_or_one w, ap (λ (t : ℕ). test_bit t j) (half_or_one w))
test_bit-bit_or (suc k) w zero = ground (arith, bit_or_step w (2 ^ suc k), pow-suc 2 k)
test_bit-bit_or (suc k) w (suc j) =
    ground (arith, ap (λ (t : ℕ). test_bit t j) (half_or_pow k w), test_bit-bit_or k (w / 2) j)

-- Setting one of the low `n` bits keeps a word within `n` bits.
pub bit_or-lt : (n k w : ℕ) → k < n → w < 2 ^ n → bit_or w (2 ^ k) < 2 ^ n
bit_or-lt zero k w h g = absurd (omega arith)
bit_or-lt (suc n) zero w h g = ground (arith, bit_or_step w 1, pow-suc 2 n, bit_or-zero (w / 2))
bit_or-lt (suc n) (suc k) w h g = ground (
  arith,
  bit_or_step w (2 ^ suc k),
  pow-suc 2 n,
  pow-suc 2 k,
  bit_or-lt n k (w / 2) (omega arith),
)

-- A mask of `k` low bits is the remainder by `2 ^ k`.
mul-two-pow-suc : (hi k : ℕ) → hi * 2 ^ suc k ≡ 2 * (hi * 2 ^ k)
mul-two-pow-suc hi k = omega (arith, ap (λ (t : ℕ). hi * t) (pow-suc 2 k))

bit_and_fields : (k hi lo : ℕ) → lo < 2 ^ k → bit_and (hi * 2 ^ k + lo) (2 ^ k - 1) ≡ lo
bit_and_fields zero hi lo fits = rw bit_and-zero (omega arith)
bit_and_fields (suc k) hi lo fits = ground (
  arith,
  bit_and_step (hi * 2 ^ suc k + lo) (2 ^ suc k - 1),
  mul-two-pow-suc hi k,
  pow-suc 2 k,
  bit_and_fields k hi (lo / 2) (omega arith),
)

pub bit_and_mask : (k a : ℕ) → bit_and a (2 ^ k - 1) ≡ a % 2 ^ k
bit_and_mask k a = ground (arith, one-le-pow k 2, bit_and_fields k (a / 2 ^ k) (a % 2 ^ k))

-- A mask that ends in `k` zeros drops the low `k` bits.
pub bit_and_high : (k a m : ℕ) → bit_and a (m * 2 ^ k) ≡ bit_and (a / 2 ^ k) m * 2 ^ k
bit_and_high zero a m = ground arith
bit_and_high (suc k) a m = ground (
  arith,
  bit_and_step a (m * 2 ^ suc k),
  mul-two-pow-suc m k,
  mul-two-pow-suc (bit_and (a / 2 / 2 ^ k) m) k,
  pow-suc 2 k,
  bit_and_high k (a / 2) m,
  halves a k,
)
  where
    halves : (a k : ℕ) → a / 2 ^ suc k ≡ a / 2 / 2 ^ k
    halves a k = rw (div-div-eq-div-mul, pow-suc) (ap (λ (t : ℕ). a / t) (omega arith))

-- `(hi << k) | lo` is a sum where `lo` fits `k` bits.
pub bit_or_fields : (k hi lo : ℕ) → lo < 2 ^ k → bit_or (hi * 2 ^ k) lo ≡ hi * 2 ^ k + lo
bit_or_fields zero hi lo fits = ground (arith, bit_or-zero hi)
bit_or_fields (suc k) hi lo fits = ground (
  arith,
  bit_or_step (hi * 2 ^ suc k) lo,
  mul-two-pow-suc hi k,
  pow-suc 2 k,
  bit_or_fields k hi (lo / 2) (omega arith),
)
