-- ===== src/AllowedIps/Prefix.antt =====
-- Comparing prefixes in src/allowedips.c: byte by byte under a mask, and bit by bit.
use wgx.Base.{
  ℕ, zero, suc, ◌+◌, ◌-◌, ◌*◌, ◌/◌, ◌%◌, ◌^◌, ◌≤◌, ◌<◌, bit_and, ◌≡◌, ◌≢◌, refl, sym, ◌∙◌, ap,
  arith,
}
use wgx.Base.{true, false, get_or, ◌==◌, Bool-cases, inl, inr}
use wgx.Base.Bytes.{Bytes}
use wgx.AllowedIps.{bit_at, byte_mask, bytes_match, prefix_match, common_from, common_bits}
use wgx.AllowedIps.Bits.{byte_mask_lem, same_bit, same_part, mul-div_self}
use wgx.AllowedIps.Spec.{agrees}
use native.Mathlib.Nat.{zero-add}
use native.Mathlib.Numerals.{add-one}
use native.Mathlib.Decide.{dec_lt, ℕ_discrete}

-- every byte is one
abbrev pub IsBytes : Bytes → Type 0
IsBytes a = (j : ℕ) → get_or a j 0 < 256

pub agrees-at : (n i : ℕ) (a b : Bytes) → agrees n a b ≡ true → i < n → bit_at a i ≡ bit_at b i
unfolding agrees
agrees-at zero i a b h lt = absurd (omega arith)
agrees-at (suc n) i a b h lt = elim (ℕ_discrete i n) [
  | yes e ↦ rw e (ground arith)
  | no ne ↦ agrees-at n i a b (ground arith) (omega arith)
]

pub agrees_of :
    (n : ℕ) (a b : Bytes) → ((i : ℕ) → i < n → bit_at a i ≡ bit_at b i) → agrees n a b ≡ true
unfolding agrees
agrees_of zero a b h = refl
agrees_of (suc n) a b h =
    ground (arith, agrees_of n a b (λ i lt. h i (omega arith)), h n (omega arith))

pub agrees_mono : (k n : ℕ) (a b : Bytes) → k ≤ n → agrees n a b ≡ true → agrees k a b ≡ true
agrees_mono k n a b le h = agrees_of k a b (λ i lt. agrees-at n i a b h (omega arith))

-- Where two addresses agree, they agree with the same addresses.
pub agrees_cong : (k : ℕ) (a b q : Bytes) → agrees k a b ≡ true → agrees k a q ≡ agrees k b q
agrees_cong k a b q h = elim (Bool-cases (agrees k a q)) [
  | inl e ↦
      e ∙ sym (agrees_of k b q (λ i lt. sym (agrees-at k i a b h lt) ∙ agrees-at k i a q e lt))
  | inr e ↦ elim (Bool-cases (agrees k b q)) [
    | inl f ↦ (agrees_of k a q (λ i lt. agrees-at k i a b h lt ∙ agrees-at k i b q f lt)) ∙ sym f
    | inr f ↦ e ∙ sym f
  ]
]

pub agrees_differ : (n i : ℕ) (a b : Bytes) → i < n → bit_at a i ≢ bit_at b i → agrees n a b ≡ false
agrees_differ n i a b lt ne = elim (Bool-cases (agrees n a b)) [
  | inl e ↦ absurd (ne (agrees-at n i a b e lt))
  | inr e ↦ e
]

bytes_match-at :
    (left i j : ℕ) (a b : Bytes)
    → bytes_match left i a b ≡ true
    → i ≤ j
    → j < i + left
    → get_or a j 0 ≡ get_or b j 0
unfolding bytes_match
bytes_match-at zero i j a b h lo hi = absurd (omega arith)
bytes_match-at (suc left) i j a b h lo hi = elim (ℕ_discrete i j) [
  | yes e ↦ rw (← e) (ground arith)
  | no ne ↦ bytes_match-at left (i + 1) j a b (ground arith) (omega arith) (omega arith)
]

bytes_match_of :
    (left i : ℕ) (a b : Bytes)
    → ((j : ℕ) → i ≤ j → j < i + left → get_or a j 0 ≡ get_or b j 0)
    → bytes_match left i a b ≡ true
unfolding bytes_match
bytes_match_of zero i a b h = refl
bytes_match_of (suc left) i a b h = ground (
  arith,
  h i (omega arith) (omega arith),
  bytes_match_of left (i + 1) a b (λ j lo hi. h j (omega arith) (omega arith)),
)

bit_in : (a : Bytes) (j r : ℕ) → r < 8 → bit_at a (8 * j + r) ≡ get_or a j 0 / 2 ^ (7 - r) % 2
unfolding bit_at
bit_in a j r h =
    let e : (8 * j + r) / 8 ≡ j = omega arith in
    let f : (8 * j + r) % 8 ≡ r = omega arith in rw (e, f)

module _ (c : ℕ) (a b : Bytes) (bytes_a : IsBytes a) (bytes_b : IsBytes b) where
  -- the last, partial byte under the mask
  same_tail :
      (bit_and (get_or a (c / 8) 0) (byte_mask (c % 8))
        ≡ bit_and (get_or b (c / 8) 0) (byte_mask (c % 8)))
      → 0 < c % 8
      → get_or a (c / 8) 0 / 2 ^ (8 - c % 8) ≡ get_or b (c / 8) 0 / 2 ^ (8 - c % 8)
  same_tail h lo =
      sym (mul-div_self _ (8 - c % 8))
      ∙ ap (λ (t : ℕ). t / 2 ^ (8 - c % 8))
          (sym (byte_mask_lem (c % 8) _ lo (omega arith) (bytes_a (c / 8)))
            ∙ (h ∙ byte_mask_lem (c % 8) _ lo (omega arith) (bytes_b (c / 8))))
      ∙ mul-div_self _ (8 - c % 8)

  match→agrees : prefix_match a b c ≡ true → agrees c a b ≡ true
  unfolding prefix_match
  match→agrees h = agrees_of c a b λ i lt. elim (dec_lt (i / 8) (c / 8)) [
    | yes whole ↦
        unfold bit_at in
        ap (λ (t : ℕ). t / 2 ^ (7 - i % 8) % 2)
          (bytes_match-at (c / 8) 0 (i / 8) a b (ground arith) (omega arith) (omega arith))
    | no last ↦
        unfold bit_at in
        let e : i / 8 ≡ c / 8 = omega arith in
        rw e (
          same_bit (c % 8) (i % 8) _ _ (omega arith) (omega arith)
            (same_tail (ground arith) (omega arith)))
  ]

  part_agrees :
      agrees c a b ≡ true
      → (j n : ℕ) → n ≤ 8
      → 8 * j + n ≤ c
      → get_or a j 0 / 2 ^ (8 - n) ≡ get_or b j 0 / 2 ^ (8 - n)
  part_agrees h j n le lt = same_part n _ _ le (bytes_a j) (bytes_b j) λ r lr.
      sym (bit_in a j r (omega arith))
      ∙ (agrees-at c (8 * j + r) a b h (omega arith) ∙ bit_in b j r (omega arith))

  tail_agrees :
      agrees c a b ≡ true
      → c % 8 ≢ 0
      → bit_and (get_or a (c / 8) 0) (byte_mask (c % 8))
        ≡ bit_and (get_or b (c / 8) 0) (byte_mask (c % 8))
  tail_agrees h ne =
      byte_mask_lem (c % 8) _ (omega arith) (omega arith) (bytes_a (c / 8))
      ∙ (ap (λ (t : ℕ). t * 2 ^ (8 - c % 8))
            (part_agrees h (c / 8) (c % 8) (omega arith) (omega arith))
          ∙ sym (byte_mask_lem (c % 8) _ (omega arith) (omega arith) (bytes_b (c / 8))))

  agrees→match : agrees c a b ≡ true → prefix_match a b c ≡ true
  unfolding prefix_match
  agrees→match h = ground (
    arith,
    bytes_match_of (c / 8) 0 a b
        (λ j lo hi. omega (arith, part_agrees h j 8 (omega arith) (omega arith))),
    tail_agrees h,
  )

  -- `match` in `lookup` compares exactly the first `node->cidr` bits.
  pub prefix_match_lem : prefix_match a b c ≡ agrees c a b
  prefix_match_lem = elim (Bool-cases (prefix_match a b c)) [
    | inl e ↦ e ∙ sym (match→agrees e)
    | inr e ↦ elim (Bool-cases (agrees c a b)) [
      | inl f ↦ agrees→match f ∙ sym f
      | inr f ↦ e ∙ sym f
    ]
  ]

-- What `common_bits` returns: the number of leading bits that agree, `max_cidr` at most.
pub record Common (a b : Bytes) (max_cidr k : ℕ) : Type 0 where
  pub bounded : k ≤ max_cidr
  pub same : agrees k a b ≡ true
  pub differ : k < max_cidr → bit_at a k ≢ bit_at b k

common_from_lem :
    (left i : ℕ) (a b : Bytes)
    → agrees i a b ≡ true
    → Common a b (i + left) (common_from left i a b)
unfolding common_from
common_from_lem zero i a b h = record {
  bounded = omega arith;
  same = h;
  differ = λ lt. absurd (omega arith);
}
common_from_lem (suc left) i a b h = elim (Bool-cases (bit_at a i == bit_at b i)) [
  | inl e ↦
      let s : i + suc left ≡ i + 1 + left = omega arith in
      rw (e, s) (common_from_lem left (i + 1) a b (unfold agrees in rw add-one (ground arith)))
  | inr e ↦ rw e (record { bounded = omega arith; same = h; differ = λ lt. ground arith })
]

pub common_bits-Common :
    (a b : Bytes) (max_cidr : ℕ) → Common a b max_cidr (common_bits a b max_cidr)
unfolding common_bits agrees
common_bits-Common a b max_cidr = rw zero-add at (common_from_lem max_cidr 0 a b refl)
