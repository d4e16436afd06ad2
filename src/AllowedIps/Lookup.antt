-- ===== src/AllowedIps/Lookup.antt =====
-- `lookup` of src/allowedips.c finds the longest prefix that is stored.
use wgx.Base.{ℕ, zero, suc, ◌*◌, ◌≤◌, ◌<◌, ◌≡◌, refl, arith, true}
use wgx.Base.{Option, none, some, ltb, ◌==◌, if◌then◌else◌, Bool-cases, inl, inr}
use wgx.Base.Bytes.{Bytes}
use wgx.AllowedIps.{Trie, nil, node, bit_at, or_best, lookup_from, lookup}
use wgx.AllowedIps.Spec.{agrees, longest}
use wgx.AllowedIps.Prefix.{IsBytes, prefix_match_lem}
use native.Mathlib.Decide.{ℕ_discrete}

-- the peer that the trie stores for the first `m` bits of `q`
unfoldable pub exact : Trie → Bytes → ℕ → Option ℕ
exact nil q m = none
exact (node b c ver peer c0 c1) q m =
    if agrees c b q
    then (if c == m
        then peer
        else (if ltb c m then (if bit_at q c == 0 then exact c0 q m else exact c1 q m) else none))
    else none

-- a child holds longer prefixes of its parent's, with the bit that selects it
abbrev pub ChildOk : Bytes → ℕ → ℕ → Trie → Type 0
ChildOk bits c b nil = Unit
ChildOk bits c b (node bits' c' ver peer c0 c1) =
    (c < c') × (agrees c bits bits' ≡ true) × (bit_at bits' c ≡ b)

-- the invariant of a trie of addresses of `max` bits
abbrev pub IsGood : ℕ → Trie → Type 0
IsGood max nil = Unit
IsGood max (node bits c ver peer c0 c1) =
    (c ≤ max)
    × IsBytes bits
    × ChildOk bits c 0 c0
    × ChildOk bits c 1 c1
    × IsGood max c0
    × IsGood max c1

pub exact_low :
    (t : Trie) (bits : Bytes) (c b m : ℕ) (q : Bytes)
    → ChildOk bits c b t
    → m ≤ c
    → exact t q m ≡ none
unfolding exact
exact_low nil bits c b m q ok le = refl
exact_low (node bits' c' ver peer c0 c1) bits c b m q ok le = ground arith

or_best_assoc : (a b c : Option ℕ) → or_best (or_best a b) c ≡ or_best a (or_best b c)
or_best_assoc none b c = refl
or_best_assoc (some x) b c = refl

longest-none : (f : ℕ → Option ℕ) (n : ℕ) → ((m : ℕ) → m ≤ n → f m ≡ none) → longest f n ≡ none
unfolding longest
longest-none f zero h = h 0 (omega arith)
longest-none f (suc n) h =
    rw (h (suc n) (omega arith)) (longest-none f n (λ m le. h m (omega arith)))

module _ (f g : ℕ → Option ℕ) (c : ℕ) (v : Option ℕ)
    (at : (m : ℕ) → f m ≡ (if c == m then v else (if ltb c m then g m else none)))
    (low : (m : ℕ) → m ≤ c → g m ≡ none) where
  longest_below : (n : ℕ) → n < c → longest f n ≡ none
  longest_below n lt = longest-none f n (λ m le. ground (arith, at m))

  -- The longest match of a node: one below it, or else its own.
  longest_node : (n : ℕ) → c ≤ n → longest f n ≡ or_best (longest g n) v
  unfolding longest
  longest_node zero le = ground (arith, at 0, low 0)
  longest_node (suc n) le = elim (ℕ_discrete c (suc n)) [
    | yes e ↦ ground (
      arith,
      at (suc n),
      low (suc n) (omega arith),
      longest_below n (omega arith),
      longest-none g n (λ m lt. low m (omega arith)),
    )
    | no ne ↦
        ground (
          arith,
          at (suc n),
          longest_node n (omega arith),
          or_best_assoc (g (suc n)) (longest g n) v,
        )
  ]

-- One node of the loop, where the address has its prefix: `t` is the child that it goes on to.
module _ (b : Bytes) (c : ℕ) (ver : ℕ) (peer : Option ℕ) (c0 c1 : Trie) (q : Bytes) (max : ℕ)
    (le : c ≤ max) (match : agrees c b q ≡ true) where
  longest_through :
      (t : Trie) (bit : ℕ)
      → ChildOk b c bit t
      → ((m : ℕ) → (if bit_at q c == 0 then exact c0 q m else exact c1 q m) ≡ exact t q m)
      → longest (exact (node b c ver peer c0 c1) q) max ≡ or_best (longest (exact t q) max) peer
  unfolding exact
  longest_through t bit ok sel =
      longest_node (exact (node b c ver peer c0 c1) q) (exact t q) c peer (λ m. rw (match, sel m))
        (λ m lt. exact_low t b c bit m q ok lt) max le

  -- Below a full-length prefix there is nothing.
  nothing_below :
      (t : Trie) (bit : ℕ) → ChildOk b c bit t → c ≡ max → longest (exact t q) max ≡ none
  nothing_below t bit ok e =
      longest-none (exact t q) max (λ m lt. exact_low t b c bit m q ok (omega arith))

step_lem :
    (max c : ℕ) (peer best found below : Option ℕ)
    → c ≤ max
    → below ≡ or_best found (or_best peer best)
    → (c ≡ max → found ≡ none)
    → (if ltb max c then best else (if c == max then or_best peer best else below))
      ≡ or_best (or_best found peer) best
step_lem max c none best none below le h e = ground arith
step_lem max c (some p) best none below le h e = ground arith
step_lem max c peer best (some f) below le h e = ground arith

lookup_from_lem :
    (t : Trie) (q : Bytes) (len : ℕ) (best : Option ℕ)
    → IsGood (len * 8) t
    → IsBytes q
    → lookup_from t q len best ≡ or_best (longest (exact t q) (len * 8)) best
unfolding lookup_from
lookup_from_lem nil q len best good bytes =
    rw (longest-none (exact nil q) (len * 8) (λ m le. unfold exact in refl))
lookup_from_lem (node b c ver peer c0 c1) q len best (le, bytes_b, ok0, ok1, g0, g1) bytes =
    rw (prefix_match_lem c b q bytes_b bytes) (elim (Bool-cases (agrees c b q)) [
      | inr differ ↦
          rw
            (
              differ,
              longest-none (exact (node b c ver peer c0 c1) q) (len * 8)
                  (λ m lt. unfold exact in rw differ),
            )
            (ground arith)
      | inl same ↦ elim (Bool-cases (bit_at q c == 0)) [
        | inl z ↦
            rw
              (same, z, longest_through b c ver peer c0 c1 q (len * 8) le same c0 0 ok0 (λ m. rw z))
              (step_lem (len * 8) c peer best (longest (exact c0 q) (len * 8)) _ le
                (lookup_from_lem c0 q len (or_best peer best) g0 bytes)
                (nothing_below b c ver peer c0 c1 q (len * 8) le same c0 0 ok0))
        | inr z ↦
            rw
              (same, z, longest_through b c ver peer c0 c1 q (len * 8) le same c1 1 ok1 (λ m. rw z))
              (step_lem (len * 8) c peer best (longest (exact c1 q) (len * 8)) _ le
                (lookup_from_lem c1 q len (or_best peer best) g1 bytes)
                (nothing_below b c ver peer c0 c1 q (len * 8) le same c1 1 ok1))
      ]
    ])

pub lookup_lem :
    (t : Trie) (q : Bytes) (len : ℕ)
    → IsGood (len * 8) t
    → IsBytes q
    → lookup t q len ≡ longest (exact t q) (len * 8)
unfolding lookup
lookup_lem t q len good bytes = ground (arith, lookup_from_lem t q len none good bytes)
