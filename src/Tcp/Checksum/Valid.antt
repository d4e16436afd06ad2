-- ===== src/Tcp/Checksum/Valid.antt =====
-- A checksum of src/tcpstack.c, put in its field, makes the sum over the whole come out right.
use wgx.Base.{
  ℕ, zero, suc, ◌+◌, ◌-◌, ◌*◌, ◌/◌, ◌%◌, ◌^◌, ◌<◌, ◌≤◌, ◌≡◌, refl, ap, sym, ◌∙◌, arith, [], ◌∷◌,
  ◌++◌, length,
}
use wgx.Base.Bytes.{Bytes, be_bytes}
use wgx.Tcp.Types.{Family, inet, inet6}
use wgx.Tcp.Checksum.{cksum_add, fold_carries, cksum_fold}

-- every byte is below 256
abbrev pub AreBytes : Bytes → Type 0
AreBytes [] = Unit {0}
AreBytes (b ∷ bs) = (b < 256) × AreBytes bs

-- the sum of the words, with no bound
unfoldable pub word_sum : Bytes → ℕ
word_sum [] = 0
word_sum (a ∷ []) = a * 256
word_sum (a ∷ b ∷ rest) = a * 256 + b + word_sum rest

-- A string of up to 128 KiB does not overflow the sum: each pair of bytes adds below 2 ^ 16.
pub word_sum-le : (bs : Bytes) → AreBytes bs → word_sum bs ≤ (length bs + 1) / 2 * 65535
unfolding word_sum
word_sum-le [] h = omega arith
word_sum-le (a ∷ []) h = omega (arith, h.0)
word_sum-le (a ∷ b ∷ rest) h = omega (arith, h.0, h.1.0, word_sum-le rest h.1.1)

-- Where there is room, `cksum_add` adds the words.
pub cksum_add-word_sum :
    (bs : Bytes) (sum : ℕ) → sum + word_sum bs < 2 ^ 32 → cksum_add bs sum ≡ sum + word_sum bs
unfolding cksum_add word_sum
cksum_add-word_sum [] sum room = omega arith
cksum_add-word_sum (a ∷ []) sum room = omega arith
cksum_add-word_sum (a ∷ b ∷ rest) sum room =
    let same : (sum + (a * 256 + b)) % 2 ^ 32 ≡ sum + (a * 256 + b) = omega arith in
    ap (cksum_add rest) same
    ∙ (cksum_add-word_sum rest (sum + (a * 256 + b)) (omega arith) ∙ omega arith)

pub word_sum-append :
    (n : ℕ) (xs ys : Bytes) → length xs ≡ 2 * n → word_sum (xs ++ ys) ≡ word_sum xs + word_sum ys
unfolding word_sum
word_sum-append zero [] ys even = omega arith
word_sum-append zero (x ∷ xs) ys even = absurd (omega arith)
word_sum-append (suc n) [] ys even = absurd (omega arith)
word_sum-append (suc n) (a ∷ []) ys even = absurd (omega arith)
word_sum-append (suc n) (a ∷ b ∷ rest) ys even =
    omega (arith, word_sum-append n rest ys (omega arith))

-- Two rounds of folding bring a `uint32_t` below 2 ^ 16, and keep it modulo 65535; 0 alone gives 0.
pub fold_carries_lem :
    (sum : ℕ)
    → sum < 2 ^ 32
    → (fold_carries 2 sum < 2 ^ 16)
      × (fold_carries 2 sum % 65535 ≡ sum % 65535)
      × (fold_carries 2 sum ≤ sum)
      × (0 < sum → 0 < fold_carries 2 sum)
unfolding fold_carries
fold_carries_lem sum fits = (ground arith, ground arith, ground arith, λ h. ground arith)

-- the big-endian number of two bytes that `cksum_fold` gives
pub word_sum-cksum_fold :
    (sum : ℕ) → sum < 2 ^ 32 → word_sum (cksum_fold sum) ≡ 65535 - fold_carries 2 sum
unfolding word_sum cksum_fold
word_sum-cksum_fold sum fits = omega (arith, (fold_carries_lem sum fits).0)

length-cksum_fold : (sum : ℕ) → length (cksum_fold sum) ≡ 2 * 1
unfolding cksum_fold
length-cksum_fold sum = refl

-- Adding the checksum of a sum to the sum gives a sum whose checksum is zero.
pub cksum_fold-add :
    (sum : ℕ) → sum + 65535 < 2 ^ 32 → cksum_fold (sum + word_sum (cksum_fold sum)) ≡ 0 ∷ 0 ∷ []
cksum_fold-add sum room =
    let small : sum < 2 ^ 32 = omega arith in
    let field = word_sum-cksum_fold sum small in
    let folded = fold_carries_lem sum small in
    let total = sum + word_sum (cksum_fold sum) in
    let again = fold_carries_lem total (omega (arith, field)) in
    let all_ones : fold_carries 2 total ≡ 65535 = omega (
      arith,
      field,
      folded.0,
      folded.1,
      again.0,
      again.1,
      again.3 (omega (arith, field, folded.0, folded.2)),
      folded.2,
    ) in
    unfold cksum_fold in ap (λ (t : ℕ). be_bytes 2 (65535 - t % 2 ^ 16)) all_ones

-- A checksum over the bytes before its field, the field as zeros and the bytes after it, put in its
-- field, makes the checksum of the whole zero. `start` is the sum of a pseudo header.
pub checksum_field :
    (start n : ℕ) (before after : Bytes)
    → length before ≡ 2 * n
    → start + word_sum before + word_sum after + 65535 < 2 ^ 32
    → cksum_fold (
        cksum_add
          (before ++ (cksum_fold (cksum_add (before ++ (0 ∷ 0 ∷ after)) start) ++ after))
          start)
      ≡ 0 ∷ 0 ∷ []
checksum_field start n before after even room =
    let sum : ℕ = start + word_sum (before ++ (0 ∷ 0 ∷ after)) in
    let parts : word_sum (before ++ (0 ∷ 0 ∷ after)) ≡ word_sum before + word_sum after =
      word_sum-append n before (0 ∷ 0 ∷ after) even ∙ unfold word_sum in omega arith in
    let added : cksum_add (before ++ (0 ∷ 0 ∷ after)) start ≡ sum =
      cksum_add-word_sum (before ++ (0 ∷ 0 ∷ after)) start (omega (arith, parts)) in
    let field = cksum_fold sum in
    let small = fold_carries_lem sum (omega (arith, parts)) in
    let value = word_sum-cksum_fold sum (omega (arith, parts)) in
    let filled : word_sum (before ++ (field ++ after))
        ≡ word_sum before + (word_sum field + word_sum after) =
      word_sum-append n before (field ++ after) even
      ∙ ap (λ (t : ℕ). word_sum before + t)
          (word_sum-append 1 field after (length-cksum_fold sum)) in
    let total : cksum_add (before ++ (field ++ after)) start ≡ sum + word_sum field =
      cksum_add-word_sum (before ++ (field ++ after)) start (omega (arith, filled, value))
      ∙ omega (arith, filled, parts) in
    ap (λ (t : ℕ). cksum_fold (cksum_add (before ++ (cksum_fold t ++ after)) start)) added
    ∙ (ap cksum_fold total ∙ cksum_fold-add sum (omega (arith, parts)))

-- RFC 1071: the sum of the words in ones' complement is all ones, which is a positive multiple of
-- 65535.
pub record IsRight (bs : Bytes) : Type 0 where
  pub positive : 0 < word_sum bs
  pub all_ones : word_sum bs % 65535 ≡ 0

-- The pseudo header of a TCP segment of `n` bytes, protocol 6: of RFC 793 and of RFC 8200.
abbrev pub pseudo_header : Family → Bytes → Bytes → ℕ → Bytes
pseudo_header inet src dst n = src ++ (dst ++ (0 ∷ 6 ∷ (n / 256 % 256) ∷ (n % 256) ∷ []))
pseudo_header inet6 src dst n =
    src
    ++ (dst
        ++ ((n / 2 ^ 24 % 256)
            ∷ (n / 2 ^ 16 % 256)
            ∷ (n / 256 % 256)
            ∷ (n % 256)
            ∷ 0
            ∷ 0
            ∷ 0
            ∷ 6
            ∷ []))

cksum_fold-zero :
    (sum : ℕ) → sum < 2 ^ 32 → cksum_fold sum ≡ 0 ∷ 0 ∷ [] → (0 < sum) × (sum % 65535 ≡ 0)
cksum_fold-zero sum fits zeros =
    let value : 65535 - fold_carries 2 sum ≡ 0 =
      sym (word_sum-cksum_fold sum fits) ∙ (ap word_sum zeros ∙ unfold word_sum in refl) in
    let folded = fold_carries_lem sum fits in
    (omega (arith, value, folded.0, folded.2), omega (arith, value, folded.0, folded.1))

-- Where `cksum_add` over two strings comes to zero, their sum is right.
pub cksum_fold-IsRight :
    (n : ℕ) (front back : Bytes)
    → length front ≡ 2 * n
    → word_sum front + word_sum back < 2 ^ 32
    → cksum_fold (cksum_add back (cksum_add front 0)) ≡ 0 ∷ 0 ∷ []
    → IsRight (front ++ back)
cksum_fold-IsRight n front back even room zeros =
    let first : cksum_add front 0 ≡ word_sum front =
      omega (arith, cksum_add-word_sum front 0 (omega arith)) in
    let both : cksum_add back (cksum_add front 0) ≡ word_sum (front ++ back) =
      ap (cksum_add back) first
      ∙ (cksum_add-word_sum back (word_sum front) room ∙ sym (word_sum-append n front back even)) in
    let fits = word_sum-append n front back even in
    let right =
      cksum_fold-zero (word_sum (front ++ back)) (omega (arith, fits))
        (ap cksum_fold (sym both) ∙ zeros) in
    record { positive = right.0; all_ones = right.1 }
