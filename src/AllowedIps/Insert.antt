-- ===== src/AllowedIps/Insert.antt =====
-- `insert` of src/allowedips.c stores a prefix and keeps all others.
use wgx.Base.{take-length, ℕ, ◌*◌, ◌≤◌, ◌<◌, ◌≡◌, ◌≢◌, refl, arith, true, false}
use wgx.Base.{Option, none, some, ltb, lt→ltb, ◌==◌, if◌then◌else◌, ◌&&◌, length, take}
use wgx.Base.Bytes.{Bytes}
use wgx.AllowedIps.{Trie, nil, node, bit_at, addr_len, masked, node_new, common_bits, insert, split}
use wgx.AllowedIps.Spec.{agrees}
use wgx.AllowedIps.Bits.{bit_at-le, bit_at-masked, masked-bytes}
use wgx.AllowedIps.Prefix.{
  IsBytes, common_bits-Common, agrees_of, agrees_mono, agrees_cong, agrees_differ,
}
use wgx.AllowedIps.Lookup.{exact}
use native.Mathlib.Decide.{dec_lt, ℕ_discrete}

exact-nil : (q : Bytes) (m : ℕ) → exact nil q m ≡ none
unfolding exact
exact-nil q m = refl

-- The address `p` with a prefix of `n` bits is given to the peer `v`.
module _ (p : Bytes) (n ver v : ℕ) (len : length p ≡ addr_len ver) (bytes : IsBytes p)
    (fits : n ≤ addr_len ver * 8) where
  abbrev pub cut : ℕ → Bytes
  cut k = masked (take (addr_len ver) p) k (addr_len ver)

  pub cut_bit : (k i : ℕ) → i < k → k ≤ addr_len ver * 8 → bit_at (cut k) i ≡ bit_at p i
  cut_bit k i lt le =
      rw (take-length (addr_len ver) p len) (bit_at-masked p k (addr_len ver) len i lt le bytes)

  pub cut_agrees :
      (k j : ℕ) (x : Bytes) → j ≤ k → k ≤ addr_len ver * 8 → agrees j (cut k) x ≡ agrees j p x
  cut_agrees k j x jk le =
      agrees_cong j (cut k) p x (agrees_of j (cut k) p (λ i lt. cut_bit k i (omega arith) le))

  pub cut-IsBytes : (k : ℕ) → IsBytes (cut k)
  cut-IsBytes k = rw (take-length (addr_len ver) p len) (masked-bytes p k (addr_len ver) bytes)

  exact-node_new :
      (k : ℕ) (peer : Option ℕ) (c0 c1 : Trie) (q : Bytes) (m : ℕ)
      → k ≤ addr_len ver * 8
      → exact (node_new p k ver peer c0 c1) q m ≡ (
          if agrees k p q
          then (if k == m
              then peer
              else (if ltb k m
                  then (if bit_at q k == 0 then exact c0 q m else exact c1 q m)
                  else none))
          else none)
  unfolding exact node_new
  exact-node_new k peer c0 c1 q m le = rw (cut_agrees k k q (omega arith) le)

  abbrev pub leaf : Trie
  leaf = node_new p n ver (some v) nil nil

  module _ (b : Bytes) (c bver : ℕ) (bpeer : Option ℕ) (c0 c1 : Trie) (k mem : ℕ) where
    abbrev pub old : Trie
    old = node b c bver bpeer c0 c1

    -- The new prefix is a prefix of the old node's: it goes above it.
    pub split_whole :
        k ≡ n
        → 2 ≤ mem
        → (split old b p k n ver v mem).0 ≡ (
            if bit_at b k == 0
            then node_new p k ver (some v) old nil
            else node_new p k ver (some v) nil old)
    unfolding split
    split_whole e two = ground arith

    -- The two differ at bit `k`: they go below a new node, side by side.
    pub split_beside :
        k < n
        → bit_at b k ≢ bit_at p k
        → 2 ≤ mem
        → (split old b p k n ver v mem).0 ≡ (
            if bit_at b k == 0
            then node_new p k ver none old leaf
            else node_new p k ver none leaf old)
    unfolding split node_new
    split_beside lt differ two = ground (arith, bit_at-le b k, bit_at-le p k)

    module _ (q : Bytes) (m : ℕ) (kc : k < c) (same : agrees k b p ≡ true) where
      old_low : m ≤ k → exact old q m ≡ none
      unfolding exact
      old_low le = ground arith

      old_other : bit_at b k ≢ bit_at q k → exact old q m ≡ none
      unfolding exact
      old_other ne = rw (agrees_differ c k b q kc ne)

      old_apart : agrees k p q ≡ false → exact old q m ≡ none
      unfolding exact
      old_apart h = ground (arith, agrees_mono k c b q, agrees_cong k b p q same)

      -- `common < node->cidr`: both prefixes are stored.
      exact-split :
          k ≤ n
          → (k < n → bit_at b k ≢ bit_at p k)
          → 2 ≤ mem
          → exact (split old b p k n ver v mem).0 q m
            ≡ (if (n == m) && agrees m p q then some v else exact old q m)
      exact-split le differ two = elim (ℕ_discrete k n) [
        | yes e ↦ rw (split_whole e two) (whole e)
        | no ne ↦
            rw (split_beside (omega arith) (differ (omega arith)) two)
              (beside (omega arith) (differ (omega arith)))
      ]
        where
          whole :
              k ≡ n
              → exact
                  (if bit_at b k == 0
                    then node_new p k ver (some v) old nil
                    else node_new p k ver (some v) nil old)
                  q
                  m
                ≡ (if (n == m) && agrees m p q then some v else exact old q m)
          whole e = ground (
            arith,
            exact-node_new k (some v) old nil q m (omega arith),
            exact-node_new k (some v) nil old q m (omega arith),
            exact-nil q m,
            old_low,
            old_other,
            old_apart,
            bit_at-le b k,
            bit_at-le q k,
          )

          beside :
              k < n
              → bit_at b k ≢ bit_at p k
              → exact
                  (if bit_at b k == 0
                    then node_new p k ver none old leaf
                    else node_new p k ver none leaf old)
                  q
                  m
                ≡ (if (n == m) && agrees m p q then some v else exact old q m)
          beside lt ne = ground (
            arith,
            exact-node_new k none old leaf q m (omega arith),
            exact-node_new k none leaf old q m (omega arith),
            exact-node_new n (some v) nil nil q m fits,
            exact-nil q m,
            old_low,
            old_other,
            old_apart,
            agrees_differ n k p q lt,
            agrees_mono k n p q,
            bit_at-le b k,
            bit_at-le p k,
            bit_at-le q k,
          )

  -- Where the walk goes on below a node that the new prefix extends.
  exact-node :
      (b : Bytes) (c bver : ℕ) (bpeer : Option ℕ) (c0 c1 : Trie) (q : Bytes) (m : ℕ)
      → exact (node b c bver bpeer c0 c1) q m ≡ (
          if agrees c b q
          then (if c == m
              then bpeer
              else (if ltb c m
                  then (if bit_at q c == 0 then exact c0 q m else exact c1 q m)
                  else none))
          else none)
  unfolding exact
  exact-node b c bver bpeer c0 c1 q m = refl

  -- With memory for two nodes, the new prefix has its peer and every other prefix keeps its own.
  pub exact-insert :
      (t : Trie) (mem : ℕ) (q : Bytes) (m : ℕ)
      → 2 ≤ mem
      → exact (insert t p n ver v mem).0 q m
        ≡ (if (n == m) && agrees m p q then some v else exact t q m)
  unfolding insert
  exact-insert nil mem q m two =
      ground (arith, exact-nil q m, exact-node_new n (some v) nil nil q m fits)
  exact-insert (node b c bver bpeer c0 c1) mem q m two =
      let found = common_bits-Common b p (if ltb c n then c else n) in
      elim (dec_lt (common_bits b p (if ltb c n then c else n)) c) [
        | yes lt ↦ rw (lt→ltb _ c lt) (
            exact-split b c bver bpeer c0 c1 _ mem q m lt found.same (ground (arith, found.bounded))
              (λ kn. found.differ (ground arith)) two)
        | no ge ↦ ground (
          arith,
          found.bounded,
          found.same,
          exact-node b c bver bpeer c0 c1 q m,
          exact-node b c bver (some v) c0 c1 q m,
          exact-node b c bver bpeer (insert c0 p n ver v mem).0 c1 q m,
          exact-node b c bver bpeer c0 (insert c1 p n ver v mem).0 q m,
          exact-insert c0 mem q m two,
          exact-insert c1 mem q m two,
          agrees_cong c b p q,
          agrees_mono c n p q,
          agrees_differ n c p q,
          bit_at-le p c,
          bit_at-le q c,
        )
      ]
