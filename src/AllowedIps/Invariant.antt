-- ===== src/AllowedIps/Invariant.antt =====
-- `insert` of src/allowedips.c keeps the invariant of the trie.
use wgx.Base.{ℕ, ◌*◌, ◌≤◌, ◌<◌, ◌≡◌, ◌≢◌, refl, sym, ◌∙◌, arith, true, false}
use wgx.Base.{Option, none, some, ltb, ◌==◌, if◌then◌else◌, Bool-cases, inl, inr, length}
use wgx.Base.Bytes.{Bytes}
use wgx.AllowedIps.{Trie, nil, node, bit_at, addr_len, node_new, common_bits, insert, split}
use wgx.AllowedIps.Spec.{agrees}
use wgx.AllowedIps.Bits.{bit_at-le}
use wgx.AllowedIps.Prefix.{IsBytes, common_bits-Common, agrees-at, agrees_of, agrees_mono}
use wgx.AllowedIps.Lookup.{ChildOk, IsGood}
use wgx.AllowedIps.Insert.{cut, cut_bit, cut_agrees, cut-IsBytes, split_whole, split_beside, leaf}
use native.Mathlib.Decide.{dec_lt, ℕ_discrete}

agrees_sym : (k : ℕ) (a b : Bytes) → agrees k a b ≡ true → agrees k b a ≡ true
agrees_sym k a b h = agrees_of k b a (λ i lt. sym (agrees-at k i a b h lt))

module _ (p : Bytes) (n ver v : ℕ) (len : length p ≡ addr_len ver) (bytes : IsBytes p)
    (fits : n ≤ addr_len ver * 8) where
  abbrev max : ℕ
  max = addr_len ver * 8

  abbrev new : ℕ → Option ℕ → Trie → Trie → Trie
  new k peer c0 c1 = node_new p k ver peer c0 c1

  -- A node for a prefix of `p` below one that `p` extends.
  new-ChildOk :
      (bits : Bytes) (c bit k : ℕ) (peer : Option ℕ) (c0 c1 : Trie)
      → c < k
      → k ≤ max
      → agrees c bits p ≡ true
      → bit_at p c ≡ bit
      → ChildOk bits c bit (new k peer c0 c1)
  unfolding node_new
  new-ChildOk bits c bit k peer c0 c1 lt le same at = (
    lt,
    agrees_sym c _ bits
        (cut_agrees p n ver v len bytes fits k c bits (omega arith) le ∙ agrees_sym c bits p same),
    cut_bit p n ver v len bytes fits k c lt le ∙ at,
  )

  -- A node that agrees with `p` on `k` bits, below the new node for these.
  abbrev BelowNew : ℕ → ℕ → Trie → Type 0
  BelowNew k bit t = ChildOk (cut p n ver v len bytes fits k) k bit t

  old-BelowNew :
      (b : Bytes) (c bver : ℕ) (bpeer : Option ℕ) (c0 c1 : Trie) (k : ℕ)
      → k < c
      → k ≤ max
      → agrees k b p ≡ true
      → BelowNew k (bit_at b k) (node b c bver bpeer c0 c1)
  old-BelowNew b c bver bpeer c0 c1 k lt le same =
      (lt, cut_agrees p n ver v len bytes fits k k b (omega arith) le ∙ agrees_sym k b p same, refl)

  new-IsGood :
      (k : ℕ) (peer : Option ℕ) (c0 c1 : Trie)
      → k ≤ max
      → BelowNew k 0 c0
      → BelowNew k 1 c1
      → IsGood max c0
      → IsGood max c1
      → IsGood max (new k peer c0 c1)
  unfolding node_new
  new-IsGood k peer c0 c1 le ok0 ok1 g0 g1 =
      (le, cut-IsBytes p n ver v len bytes fits k, ok0, ok1, g0, g1)

  leaf-IsGood : IsGood max (leaf p n ver v len bytes fits)
  leaf-IsGood = new-IsGood n (some v) nil nil fits tt tt tt tt

  module _ (b : Bytes) (c bver : ℕ) (bpeer : Option ℕ) (c0 c1 : Trie) (k mem : ℕ) (kc : k < c)
      (kn : k ≤ n) (same : agrees k b p ≡ true) (differ : k < n → bit_at b k ≢ bit_at p k)
      (two : 2 ≤ mem) where
    abbrev this : Trie
    this = node b c bver bpeer c0 c1

    abbrev result : Trie
    result = (split this b p k n ver v mem).0

    -- Whatever holds of the four shapes that a split can have holds of its result.
    split_shapes {ℓ} :
        (P : Trie → Type ℓ)
        → (k ≡ n → bit_at b k ≡ 0 → P (new k (some v) this nil))
        → (k ≡ n → bit_at b k ≡ 1 → P (new k (some v) nil this))
        → (k < n
            → bit_at b k ≡ 0
            → bit_at p k ≡ 1
            → P (new k none this (leaf p n ver v len bytes fits)))
        → (k < n
            → bit_at b k ≡ 1
            → bit_at p k ≡ 0
            → P (new k none (leaf p n ver v len bytes fits) this))
        → P result
    split_shapes P w0 w1 b0 b1 = elim (ℕ_discrete k n) [
      | yes e ↦
          rw (split_whole p n ver v len bytes fits b c bver bpeer c0 c1 k mem e two)
            (elim (ℕ_discrete (bit_at b k) 0) [
              | yes z ↦ rw z (w0 e z)
              | no nz ↦ let o : bit_at b k ≡ 1 = omega (arith, bit_at-le b k) in rw o (w1 e o)
            ])
      | no ne ↦
          let lt : k < n = omega arith in
          rw (split_beside p n ver v len bytes fits b c bver bpeer c0 c1 k mem lt (differ lt) two)
            (elim (ℕ_discrete (bit_at b k) 0) [
              | yes z ↦ rw z (b0 lt z (omega (arith, bit_at-le p k, differ lt)))
              | no nz ↦
                  let o : bit_at b k ≡ 1 = omega (arith, bit_at-le b k) in
                  rw o (b1 lt o (omega (arith, bit_at-le p k, differ lt)))
            ])
    ]

    below_this : (bit : ℕ) → bit_at b k ≡ bit → BelowNew k bit this
    below_this bit e =
        let (lt, agree, at) = old-BelowNew b c bver bpeer c0 c1 k kc (omega arith) same in
        (lt, agree, at ∙ e)

    below_leaf :
        (bit : ℕ) → k < n → bit_at p k ≡ bit → BelowNew k bit (leaf p n ver v len bytes fits)
    below_leaf bit lt e =
        new-ChildOk _ k bit n (some v) nil nil lt fits
          (cut_agrees p n ver v len bytes fits k k p (omega arith) (omega arith)
            ∙ agrees_of k p p (λ i h. refl))
          e

    split-IsGood : IsGood max this → IsGood max result
    split-IsGood g =
        split_shapes (IsGood max)
          (λ e z. new-IsGood k (some v) this nil (omega arith) (below_this 0 z) tt g tt)
          (λ e o. new-IsGood k (some v) nil this (omega arith) tt (below_this 1 o) tt g)
          (λ lt z o.
            new-IsGood k none this (leaf p n ver v len bytes fits) (omega arith) (below_this 0 z)
              (below_leaf 1 lt o) g leaf-IsGood)
          (λ lt o z.
            new-IsGood k none (leaf p n ver v len bytes fits) this (omega arith) (below_leaf 0 lt z)
              (below_this 1 o) leaf-IsGood g)

    split-ChildOk :
        (bits : Bytes) (d bit : ℕ)
        → d < k
        → agrees d bits p ≡ true
        → bit_at p d ≡ bit
        → ChildOk bits d bit result
    split-ChildOk bits d bit dk agree at =
        split_shapes (ChildOk bits d bit)
          (λ e z. new-ChildOk bits d bit k _ _ _ dk (omega arith) agree at)
          (λ e o. new-ChildOk bits d bit k _ _ _ dk (omega arith) agree at)
          (λ lt z o. new-ChildOk bits d bit k _ _ _ dk (omega arith) agree at)
          (λ lt o z. new-ChildOk bits d bit k _ _ _ dk (omega arith) agree at)

  -- What `insert` makes of a node: a split at the first bit that differs, the peer replaced, or a
  -- walk into a child.
  insert_shapes {ℓ} :
      (b : Bytes) (c bver : ℕ) (bpeer : Option ℕ) (c0 c1 : Trie) (mem : ℕ) (P : Trie → Type ℓ)
      → ((k : ℕ)
          → k < c
          → k ≤ n
          → agrees k b p ≡ true
          → (k < n → bit_at b k ≢ bit_at p k)
          → P (split (node b c bver bpeer c0 c1) b p k n ver v mem).0)
      → (P (node b c bver (some v) c0 c1))
      → (c < n
          → agrees c b p ≡ true
          → bit_at p c ≡ 0
          → P (node b c bver bpeer (insert c0 p n ver v mem).0 c1))
      → (c < n
          → agrees c b p ≡ true
          → bit_at p c ≡ 1
          → P (node b c bver bpeer c0 (insert c1 p n ver v mem).0))
      → P (insert (node b c bver bpeer c0 c1) p n ver v mem).0
  unfolding insert
  insert_shapes b c bver bpeer c0 c1 mem P apart update left right =
      let k = common_bits b p (if ltb c n then c else n) in
      let found = common_bits-Common b p (if ltb c n then c else n) in
      elim (Bool-cases (ltb k c)) [
        | inl lt ↦ rw lt (
            apart k (ground arith) (ground (arith, found.bounded)) found.same
              (λ kn. found.differ (ground arith)))
        | inr ge ↦ elim (Bool-cases (k == n)) [
          | inl kn ↦
              let cn : (c == n) ≡ true = ground (arith, found.bounded) in rw (ge, kn, cn) update
          | inr kn ↦
              let lt : c < n = ground (arith, found.bounded) in
              let same : agrees c b p ≡ true = agrees_mono c k b p (ground arith) found.same in
              elim (Bool-cases (bit_at p c == 0)) [
                | inl z ↦ rw (ge, kn, z) (left lt same (ground arith))
                | inr nz ↦ rw (ge, kn, nz) (right lt same (ground (arith, bit_at-le p c)))
              ]
        ]
      ]

  -- Below a prefix that the new one extends, the new trie still stands where it stood.
  insert-ChildOk :
      (t : Trie) (mem : ℕ) (bits : Bytes) (d bit : ℕ)
      → 2 ≤ mem
      → ChildOk bits d bit t
      → d < n
      → agrees d bits p ≡ true
      → bit_at p d ≡ bit
      → ChildOk bits d bit (insert t p n ver v mem).0
  insert-ChildOk nil mem bits d bit two ok dn agree at =
      unfold insert in
      let nz : (mem == 0) ≡ false = ground arith in
      rw nz (new-ChildOk bits d bit n (some v) nil nil dn fits agree at)
  insert-ChildOk (node b c bver bpeer c0 c1) mem bits d bit two (dc, sb, bb) dn agree at =
      insert_shapes b c bver bpeer c0 c1 mem (ChildOk bits d bit)
        (λ k kc kn same differ.
          split-ChildOk b c bver bpeer c0 c1 k mem kc kn same differ two bits d bit
            (longer k kn same differ) agree at)
        (dc, sb, bb) (λ lt same z. (dc, sb, bb)) (λ lt same o. (dc, sb, bb))
    where
      -- the old node and the new prefix have `d + 1` bits in common
      longer : (k : ℕ) → k ≤ n → agrees k b p ≡ true → (k < n → bit_at b k ≢ bit_at p k) → d < k
      longer k kn same differ = elim (dec_lt d k) [
        | yes h ↦ h
        | no h ↦ absurd (
            differ (omega arith) (elim (ℕ_discrete k d) [
              | yes e ↦ rw e (bb ∙ sym at)
              | no ne ↦
                  sym (agrees-at d k bits b sb (omega arith))
                  ∙ agrees-at d k bits p agree (omega arith)
            ]))
      ]

  -- With memory for two nodes, `insert` keeps the invariant.
  pub insert-IsGood :
      (t : Trie) (mem : ℕ) → 2 ≤ mem → IsGood max t → IsGood max (insert t p n ver v mem).0
  insert-IsGood nil mem two g =
      unfold insert in let nz : (mem == 0) ≡ false = ground arith in rw nz leaf-IsGood
  insert-IsGood (node b c bver bpeer c0 c1) mem two (le, by, ok0, ok1, g0, g1) =
      insert_shapes b c bver bpeer c0 c1 mem (IsGood max)
        (λ k kc kn same differ.
          split-IsGood b c bver bpeer c0 c1 k mem kc kn same differ two (le, by, ok0, ok1, g0, g1))
        (le, by, ok0, ok1, g0, g1)
        (λ lt same z. (
          le,
          by,
          insert-ChildOk c0 mem b c 0 two ok0 lt same z,
          ok1,
          insert-IsGood c0 mem two g0,
          g1,
        ))
        (λ lt same o. (
          le,
          by,
          ok0,
          insert-ChildOk c1 mem b c 1 two ok1 lt same o,
          g0,
          insert-IsGood c1 mem two g1,
        ))
