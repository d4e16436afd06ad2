-- ===== src/AllowedIps/Bits.antt =====
-- The bits of an address in src/allowedips.c: bytes, masks and the numbers of leading bits.
use wgx.Base.{
  ℕ, zero, suc, ◌+◌, ◌-◌, ◌*◌, ◌/◌, ◌%◌, ◌^◌, ◌≤◌, ◌<◌, bit_and, ◌≡◌, ◌≢◌, refl, ◌∙◌, ap, arith,
}
use wgx.Base.{[], ◌∷◌, get_or, set, get_or-set_self, get_or-set_ne, length}
use wgx.Base.Bits.{bit_and_high, bit_and_mask, bit_and-zero}
use wgx.Base.Bytes.{Bytes}
use wgx.AllowedIps.{bit_at, byte_mask, zero_from, masked}
use native.Mathlib.Decide.{dec_lt, ℕ_discrete}
use native.Mathlib.Nat.{
  pow-suc, div-div-eq-div-mul, add-zero, add-suc, mul-div_cancel, one-le-pow, lt_of_le_of_lt,
  div-mul-le_self,
}

-- `x & ((0xff << (8 - b)) & 0xff)` keeps the `b` leading bits of a byte.
pub byte_mask_lem :
    (b x : ℕ) → 0 < b → b < 8 → x < 256 → bit_and x (byte_mask b) ≡ x / 2 ^ (8 - b) * 2 ^ (8 - b)
byte_mask_lem zero x lo hi h = absurd (omega arith)
byte_mask_lem (suc zero) x lo hi h = omega (arith, bit_and_high 7 x 1, bit_and_mask 1 (x / 128))
byte_mask_lem (suc (suc zero)) x lo hi h =
    omega (arith, bit_and_high 6 x 3, bit_and_mask 2 (x / 64))
byte_mask_lem (suc (suc (suc zero))) x lo hi h =
    omega (arith, bit_and_high 5 x 7, bit_and_mask 3 (x / 32))
byte_mask_lem (suc (suc (suc (suc zero)))) x lo hi h =
    omega (arith, bit_and_high 4 x 15, bit_and_mask 4 (x / 16))
byte_mask_lem (suc (suc (suc (suc (suc zero))))) x lo hi h =
    omega (arith, bit_and_high 3 x 31, bit_and_mask 5 (x / 8))
byte_mask_lem (suc (suc (suc (suc (suc (suc zero)))))) x lo hi h =
    omega (arith, bit_and_high 2 x 63, bit_and_mask 6 (x / 4))
byte_mask_lem (suc (suc (suc (suc (suc (suc (suc zero))))))) x lo hi h =
    omega (arith, bit_and_high 1 x 127, bit_and_mask 7 (x / 2))
byte_mask_lem (suc (suc (suc (suc (suc (suc (suc (suc b)))))))) x lo hi h = absurd (omega arith)

div_pow-suc : (x k : ℕ) → x / 2 ^ suc k ≡ x / 2 ^ k / 2
div_pow-suc x k = rw (div-div-eq-div-mul, pow-suc) (ap (λ (t : ℕ). x / t) (omega arith))

-- Numbers that agree above bit `k` agree above every higher bit.
div_up : (d k x y : ℕ) → x / 2 ^ k ≡ y / 2 ^ k → x / 2 ^ (k + d) ≡ y / 2 ^ (k + d)
div_up zero k x y h = rw add-zero h
div_up (suc d) k x y h =
    rw (add-suc, div_pow-suc, div_pow-suc) (ap (λ (t : ℕ). t / 2) (div_up d k x y h))

-- The leading bits of equal leading parts are equal.
pub same_bit :
    (b r x y : ℕ)
    → r < b
    → b ≤ 8
    → x / 2 ^ (8 - b) ≡ y / 2 ^ (8 - b)
    → x / 2 ^ (7 - r) % 2 ≡ y / 2 ^ (7 - r) % 2
same_bit b r x y lt le h =
    let e : 7 - r ≡ 8 - b + (b - 1 - r) = omega arith in
    rw e (ap (λ (t : ℕ). t % 2) (div_up (b - 1 - r) (8 - b) x y h))

-- Bytes whose `b` leading bits agree agree in that part.
pub same_part :
    (b x y : ℕ)
    → b ≤ 8
    → x < 256
    → y < 256
    → ((r : ℕ) → r < b → x / 2 ^ (7 - r) % 2 ≡ y / 2 ^ (7 - r) % 2)
    → x / 2 ^ (8 - b) ≡ y / 2 ^ (8 - b)
same_part zero x y le hx hy h = omega arith
same_part (suc b) x y le hx hy h =
    let e : 8 - b ≡ suc (7 - b) = omega arith in
    let ih : x / 2 ^ suc (7 - b) ≡ y / 2 ^ suc (7 - b) =
      rw e at (same_part b x y (omega arith) hx hy (λ r lt. h r (omega arith))) in
    let e' : 7 - b ≡ 8 - suc b = omega arith in
    rw (← e') (omega (arith, div_pow-suc x (7 - b), div_pow-suc y (7 - b), h b (omega arith), ih))

pub bit_at-le : (a : Bytes) (i : ℕ) → bit_at a i ≤ 1
unfolding bit_at
bit_at-le a i = omega arith

pub mul-div_self : (a k : ℕ) → a * 2 ^ k / 2 ^ k ≡ a
mul-div_self a k = mul-div_cancel a (one-le-pow k 2 (omega arith))

-- `zero_from` leaves what lies below it.
zero_from-below :
    (left i j : ℕ) (bits : Bytes) → j < i → get_or (zero_from left i bits) j 0 ≡ get_or bits j 0
unfolding zero_from
zero_from-below zero i j bits h = refl
zero_from-below (suc left) i j bits h =
    zero_from-below left (i + 1) j (set bits i 0) (omega arith)
    ∙ get_or-set_ne bits 0 0 (omega arith)

-- The bytes of a masked address: whole ones stay, and the last keeps its leading bits.
module _ (bits : Bytes) (cidr addrlen : ℕ) (len : length bits ≡ addrlen) where
  masked_whole : (j : ℕ) → j < cidr / 8 → get_or (masked bits cidr addrlen) j 0 ≡ get_or bits j 0
  unfolding masked
  masked_whole j h = ground (
    arith,
    zero_from-below (addrlen - cidr / 8) (cidr / 8) j bits h,
    zero_from-below (addrlen - (cidr / 8 + 1)) (cidr / 8 + 1) j
        (set bits (cidr / 8) (bit_and (get_or bits (cidr / 8) 0) (byte_mask (cidr % 8))))
        (omega arith),
    get_or-set_ne bits {i = cidr / 8} {j = j}
        (bit_and (get_or bits (cidr / 8) 0) (byte_mask (cidr % 8))) 0 (omega arith),
  )

  masked_last :
      cidr < addrlen * 8
      → cidr % 8 ≢ 0
      → get_or (masked bits cidr addrlen) (cidr / 8) 0
        ≡ bit_and (get_or bits (cidr / 8) 0) (byte_mask (cidr % 8))
  unfolding masked
  masked_last lt ne = ground (
    arith,
    zero_from-below (addrlen - (cidr / 8 + 1)) (cidr / 8 + 1) (cidr / 8)
        (set bits (cidr / 8) (bit_and (get_or bits (cidr / 8) 0) (byte_mask (cidr % 8))))
        (omega arith),
    get_or-set_self bits (cidr / 8) (bit_and (get_or bits (cidr / 8) 0) (byte_mask (cidr % 8))) 0
        (omega arith),
  )

  -- The bits of a prefix survive the mask that `node_new` applies.
  pub bit_at-masked :
      (i : ℕ)
      → i < cidr
      → cidr ≤ addrlen * 8
      → ((j : ℕ) → get_or bits j 0 < 256)
      → bit_at (masked bits cidr addrlen) i ≡ bit_at bits i
  unfolding bit_at
  bit_at-masked i h le bytes = elim (dec_lt (i / 8) (cidr / 8)) [
    | yes whole ↦ rw (masked_whole (i / 8) whole)
    | no last ↦
        let e : i / 8 ≡ cidr / 8 = omega arith in
        rw (e, masked_last (omega arith) (omega arith))
          (same_bit (cidr % 8) (i % 8) _ _ (omega arith) (omega arith)
            (kept (cidr % 8) (get_or bits (cidr / 8) 0) (omega arith) (omega arith) (bytes _)))
  ]
    where
      kept :
          (b x : ℕ)
          → 0 < b
          → b < 8
          → x < 256
          → bit_and x (byte_mask b) / 2 ^ (8 - b) ≡ x / 2 ^ (8 - b)
      kept b x lo hi lt = rw (byte_mask_lem b x lo hi lt) (mul-div_self (x / 2 ^ (8 - b)) (8 - b))

set-bytes :
    (a : Bytes) (i v : ℕ)
    → v < 256
    → ((j : ℕ) → get_or a j 0 < 256)
    → (j : ℕ) → get_or (set a i v) j 0 < 256
set-bytes [] i v lt h j = h j
set-bytes (x ∷ a) zero v lt h zero = lt
set-bytes (x ∷ a) zero v lt h (suc j) = h (suc j)
set-bytes (x ∷ a) (suc i) v lt h zero = h 0
set-bytes (x ∷ a) (suc i) v lt h (suc j) = set-bytes a i v lt (λ j. h (suc j)) j

zero_from-bytes :
    (left i : ℕ) (a : Bytes)
    → ((j : ℕ) → get_or a j 0 < 256)
    → (j : ℕ) → get_or (zero_from left i a) j 0 < 256
unfolding zero_from
zero_from-bytes zero i a h = h
zero_from-bytes (suc left) i a h =
    zero_from-bytes left (i + 1) (set a i 0) (set-bytes a i 0 (omega arith) h)

-- A masked address is made of bytes.
pub masked-bytes :
    (a : Bytes) (cidr addrlen : ℕ)
    → ((j : ℕ) → get_or a j 0 < 256)
    → (j : ℕ) → get_or (masked a cidr addrlen) j 0 < 256
unfolding masked
masked-bytes a cidr addrlen h j = ground (
  arith,
  h j,
  zero_from-bytes (addrlen - cidr / 8) (cidr / 8) a h j,
  zero_from-bytes (addrlen - (cidr / 8 + 1)) (cidr / 8 + 1)
      (set a (cidr / 8) (bit_and (get_or a (cidr / 8) 0) (byte_mask (cidr % 8))))
      (set-bytes a (cidr / 8) _
        (and_byte (get_or a (cidr / 8) 0) (cidr % 8) (h (cidr / 8)) (omega arith)) h)
      j,
)
  where
    and_byte : (x b : ℕ) → x < 256 → b < 8 → bit_and x (byte_mask b) < 256
    and_byte x b lt lb = elim (ℕ_discrete b 0) [
      | yes z ↦ rw (z, bit_and-zero) (omega arith)
      | no nz ↦
          rw (byte_mask_lem b x (omega arith) lb lt)
            (lt_of_le_of_lt (div-mul-le_self x (2 ^ (8 - b))) lt)
    ]
