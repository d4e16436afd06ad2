-- ===== src/Tai64n/Order.antt =====
-- The order of the timestamps of src/tai64n.c is that of the clock.
use native.Mathlib.Decide.{dec_lt}
use native.Mathlib.Nat.{le-div_iff_mul-le, one-le-pow, pow-suc, div-div-eq-div-mul, div-one}
use wgx.Base.{
  Bool, ℕ, zero, suc, ◌+◌, ◌*◌, ◌/◌, ◌%◌, ◌^◌, ◌<◌, ◌≤◌, ◌↔◌, ◌⊎◌, ap, sym, ◌∙◌, ◌++◌, ltb, ◌==◌,
  if◌then◌else◌, ◌≡◌, refl, arith, true, false,
}
use wgx.Base.{[], ◌∷◌}
use wgx.Base.Bytes.{Bytes, bytes_gt, be_bytes}
use wgx.Tai64n.{tai64n_after, tai64n_now, tai64_base}

pub after_irreflexive : (a : Bytes) → tai64n_after a a ≡ false
unfolding tai64n_after bytes_gt
after_irreflexive [] = refl
after_irreflexive (x ∷ xs) = ground (arith, after_irreflexive xs)

pub after_trans :
    (a b c : Bytes) → tai64n_after a b ≡ true → tai64n_after b c ≡ true → tai64n_after a c ≡ true
unfolding tai64n_after bytes_gt
after_trans [] b c h k = cc
after_trans (x ∷ xs) [] c h k = ground arith
after_trans (x ∷ xs) (y ∷ ys) [] h k = ground arith
after_trans (x ∷ xs) (y ∷ ys) (z ∷ zs) h k = ground (arith, after_trans xs ys zs)

lt_of_quotient : (a b q : ℕ) → 0 < q → b / q < a / q → b < a
lt_of_quotient a b q pos lt = elim (dec_lt b a) [
  | yes h ↦ h
  | no h ↦
      let reaches : (b / q + 1) * q ≤ a = (le-div_iff_mul-le pos).0 (omega (arith, lt)) in
      let beyond : b / q + 1 ≤ b / q = (le-div_iff_mul-le pos).1 (omega (arith, reaches, h)) in
      absurd (omega (arith, beyond))
]

-- Two numbers in network order compare as numbers, where what is above their digits is the same.
bytes_gt-be_bytes :
    (n a b : ℕ) (xs ys : Bytes)
    → a / 256 ^ n ≡ b / 256 ^ n
    → bytes_gt (be_bytes n a ++ xs) (be_bytes n b ++ ys)
      ≡ (if a == b then bytes_gt xs ys else ltb b a)
unfolding bytes_gt
bytes_gt-be_bytes zero a b xs ys same = ground (arith, div-one a, div-one b)
bytes_gt-be_bytes (suc n) a b xs ys same =
    let q = 256 ^ n in
    let pos : 0 < q = one-le-pow n 256 (omega arith) in
    let top_a : a / q / 256 ≡ a / 256 ^ suc n =
      div-div-eq-div-mul a q 256 ∙ ap (λ (t : ℕ). a / t) (sym (pow-suc 256 n)) in
    let top_b : b / q / 256 ≡ b / 256 ^ suc n =
      div-div-eq-div-mul b q 256 ∙ ap (λ (t : ℕ). b / t) (sym (pow-suc 256 n)) in
    let top : a / q / 256 ≡ b / q / 256 = top_a ∙ (same ∙ sym top_b) in
    ground (
      arith,
      top,
      bytes_gt-be_bytes n a b xs ys,
      lt_of_quotient a b q pos,
      lt_of_quotient b a q pos,
      ap (λ (t : ℕ). t / q) {x = a} {y = b},
    )

after-be_bytes :
    (s s' n n' : ℕ)
    → s / 256 ^ 8 ≡ s' / 256 ^ 8
    → n / 256 ^ 4 ≡ n' / 256 ^ 4
    → tai64n_after (be_bytes 8 s ++ be_bytes 4 n) (be_bytes 8 s' ++ be_bytes 4 n')
      ≡ (if s == s' then ltb n' n else ltb s' s)
unfolding tai64n_after bytes_gt
after-be_bytes s s' n n' same same' =
    bytes_gt-be_bytes 8 s s' (be_bytes 4 n) (be_bytes 4 n') same
    ∙ ap (λ (t : Bool). if s == s' then t else ltb s' s)
        (bytes_gt-be_bytes 4 n n' [] [] same' ∙ ground arith)

clock_order :
    (s s' n n' : ℕ) (after : Bool) (sec sec' : ℕ)
    → s < 2 ^ 64
    → s' < 2 ^ 64
    → n < 2 ^ 32
    → n' < 2 ^ 32
    → s ≡ tai64_base + sec
    → s' ≡ tai64_base + sec'
    → after ≡ (
        if s % 2 ^ 64 == s' % 2 ^ 64
        then ltb (n' % 2 ^ 32) (n % 2 ^ 32)
        else ltb (s' % 2 ^ 64) (s % 2 ^ 64))
    → (after ≡ true) ↔ ((sec' < sec) ⊎ ((sec ≡ sec') × (n' < n)))
clock_order s s' n n' after sec sec' fits fits' small small' is_s is_s' e = ground arith

-- A timestamp is after another exactly if its clock was later: the seconds decide, and the
-- nanoseconds where the seconds are the same. The labels of the seconds fit in 64 bits and the
-- nanoseconds in 32.
pub tai64n_after_now :
    (sec nsec sec' nsec' : ℕ)
    → tai64_base + sec < 2 ^ 64
    → tai64_base + sec' < 2 ^ 64
    → nsec < 2 ^ 32
    → nsec' < 2 ^ 32
    → (tai64n_after (tai64n_now sec nsec) (tai64n_now sec' nsec') ≡ true)
      ↔ ((sec' < sec) ⊎ ((sec ≡ sec') × (nsec' < nsec)))
unfolding tai64n_after tai64n_now
tai64n_after_now sec nsec sec' nsec' fits fits' small small' =
    let at =
      after-be_bytes ((tai64_base + sec) % 2 ^ 64) ((tai64_base + sec') % 2 ^ 64) (nsec % 2 ^ 32)
        (nsec' % 2 ^ 32) (omega arith) (omega arith) in
    clock_order (tai64_base + sec) (tai64_base + sec') nsec nsec' _ sec sec' fits fits' small small'
      refl refl at
