-- ===== src/AllowedIps/Routing.antt =====
-- Cryptokey routing as src/allowedips.c implements it, against its specification.
use wgx.Base.{
  ℕ, zero, suc, ◌*◌, ◌≤◌, ◌≡◌, ◌≢◌, refl, sym, ◌∙◌, ap, arith, false, Option, none, some,
}
use wgx.Base.{List, [], ◌∷◌, ◌==◌, if◌then◌else◌, ltb, length}
use wgx.Base.Bytes.{Bytes}
use wgx.AllowedIps.{
  Trie, nil, node, AllowedIps, init, addr_len, insert, lookup, insert_v4, insert_v6, lookup_v4,
  lookup_v6, remove_peer_from_tree, remove_peer,
}
use wgx.AllowedIps.Spec.{Rule, rule_at, longest}
use wgx.AllowedIps.Prefix.{IsBytes}
use wgx.AllowedIps.Lookup.{exact, ChildOk, IsGood, lookup_lem}
use wgx.AllowedIps.Insert.{exact-insert}
use wgx.AllowedIps.Invariant.{insert-IsGood}
use mathlib.Core.Path.{fun_ext}

-- a rule for addresses of `n` bytes
pub record IsRule (n : ℕ) (r : Rule) : Type 0 where
  pub size : length r.prefix ≡ n
  pub bytes : IsBytes r.prefix
  pub fits : r.cidr ≤ n * 8

abbrev pub AllRules : ℕ → List Rule → Type 0
AllRules n [] = Unit {0}
AllRules n (r ∷ rules) = IsRule n r × AllRules n rules

-- `allowedips_insert_v4` and `allowedips_insert_v6`, called in any order
pub data Request : Type 0 where
  v4 v6 : Rule → Request

-- the requests given to an empty table, the latest first, with memory enough
unfoldable pub route : List Request → AllowedIps
unfolding init
route [] = init
route (v4 r ∷ rs) = (insert_v4 (route rs) r.prefix r.cidr r.peer 2).0
route (v6 r ∷ rs) = (insert_v6 (route rs) r.prefix r.cidr r.peer 2).0

abbrev pub rules_v4 : List Request → List Rule
rules_v4 [] = []
rules_v4 (v4 r ∷ rs) = r ∷ rules_v4 rs
rules_v4 (v6 r ∷ rs) = rules_v4 rs

abbrev pub rules_v6 : List Request → List Rule
rules_v6 [] = []
rules_v6 (v4 r ∷ rs) = rules_v6 rs
rules_v6 (v6 r ∷ rs) = r ∷ rules_v6 rs

-- a trie that stores the rules
record Stores (ver : ℕ) (rules : List Rule) (t : Trie) : Type 0 where
  good : IsGood (addr_len ver * 8) t
  holds : (q : Bytes) (m : ℕ) → exact t q m ≡ rule_at rules q m

nil-Stores : (ver : ℕ) → Stores ver [] nil
nil-Stores ver = record { good = tt; holds = λ q m. unfold exact rule_at in refl }

insert-Stores :
    (ver : ℕ) (r : Rule) (rules : List Rule) {t : Trie}
    → IsRule (addr_len ver) r
    → Stores ver rules t
    → Stores ver (r ∷ rules) (insert t r.prefix r.cidr ver r.peer 2).0
insert-Stores ver r rules {t} ok s = record {
  good = insert-IsGood r.prefix r.cidr ver r.peer ok.size ok.bytes ok.fits t 2 (omega arith) s.good;
  holds = λ q m.
      unfold rule_at in
      exact-insert r.prefix r.cidr ver r.peer ok.size ok.bytes ok.fits t 2 q m (omega arith)
      ∙ rw (s.holds q m);
}

lookup-Stores :
    (ver : ℕ) (rules : List Rule) {t : Trie} (q : Bytes) (n : ℕ)
    → n ≡ addr_len ver
    → IsBytes q
    → Stores ver rules t
    → lookup t q n ≡ longest (rule_at rules q) (n * 8)
lookup-Stores ver rules {t} q n e bytes s = rw e (
    lookup_lem t q (addr_len ver) s.good bytes
    ∙ ap (λ f. longest f (addr_len ver * 8)) (fun_ext (s.holds q)))

insert_v4_fits :
    (t : AllowedIps) (r : Rule)
    → r.cidr ≤ 32
    → (insert_v4 t r.prefix r.cidr r.peer 2).0
      ≡ record t { root4 = (insert t.root4 r.prefix r.cidr 4 r.peer 2).0 }
unfolding insert_v4
insert_v4_fits t r h = let e : ltb 32 r.cidr ≡ false = ground arith in rw e

insert_v6_fits :
    (t : AllowedIps) (r : Rule)
    → r.cidr ≤ 128
    → (insert_v6 t r.prefix r.cidr r.peer 2).0
      ≡ record t { root6 = (insert t.root6 r.prefix r.cidr 6 r.peer 2).0 }
unfolding insert_v6
insert_v6_fits t r h = let e : ltb 128 r.cidr ≡ false = ground arith in rw e

route-Stores :
    (rs : List Request)
    → AllRules 4 (rules_v4 rs)
    → AllRules 16 (rules_v6 rs)
    → Stores 4 (rules_v4 rs) (route rs).root4 × Stores 6 (rules_v6 rs) (route rs).root6
unfolding route
route-Stores [] ok4 ok6 = (nil-Stores 4, nil-Stores 6)
route-Stores (v4 r ∷ rs) (ok, ok4) ok6 =
    let (s4, s6) = route-Stores rs ok4 ok6 in
    rw (insert_v4_fits (route rs) r ok.fits) (insert-Stores 4 r (rules_v4 rs) ok s4, s6)
route-Stores (v6 r ∷ rs) ok4 (ok, ok6) =
    let (s4, s6) = route-Stores rs ok4 ok6 in
    rw (insert_v6_fits (route rs) r ok.fits) (s4, insert-Stores 6 r (rules_v6 rs) ok s6)

-- Whatever requests the table was given, in any order of the two families: a lookup returns the
-- peer of the latest rule for the longest prefix of the address that has a rule of its family,
-- and no peer where no prefix has one. Prefixes and addresses are bytes, a prefix has those of
-- its family and is no longer than an address, and there is memory for the nodes.
pub lookup-route :
    (rs : List Request) (q4 q6 : Bytes)
    → AllRules 4 (rules_v4 rs)
    → AllRules 16 (rules_v6 rs)
    → IsBytes q4
    → IsBytes q6
    → (lookup_v4 (route rs) q4 ≡ longest (rule_at (rules_v4 rs) q4) 32)
      × (lookup_v6 (route rs) q6 ≡ longest (rule_at (rules_v6 rs) q6) 128)
unfolding lookup_v4 lookup_v6
lookup-route rs q4 q6 ok4 ok6 bytes4 bytes6 =
    let (s4, s6) = route-Stores rs ok4 ok6 in
    (
      lookup-Stores 4 (rules_v4 rs) q4 4 refl bytes4 s4,
      lookup-Stores 6 (rules_v6 rs) q6 16 refl bytes6 s6,
    )

-- the peer, unless it is `v`
unfoldable pub forget : ℕ → Option ℕ → Option ℕ
forget v none = none
forget v (some w) = if w == v then none else some w

remove-ChildOk :
    (t : Trie) (v : ℕ) (bits : Bytes) (c bit : ℕ)
    → ChildOk bits c bit t
    → ChildOk bits c bit (remove_peer_from_tree t v)
unfolding remove_peer_from_tree
remove-ChildOk nil v bits c bit ok = ok
remove-ChildOk (node b d ver peer c0 c1) v bits c bit ok = ok

remove-IsGood : (max : ℕ) (t : Trie) (v : ℕ) → IsGood max t → IsGood max (remove_peer_from_tree t v)
unfolding remove_peer_from_tree
remove-IsGood max nil v g = g
remove-IsGood max (node b c ver peer c0 c1) v (le, by, ok0, ok1, g0, g1) =
    let h0 = remove-ChildOk c0 v b c 0 ok0 in
    let h1 = remove-ChildOk c1 v b c 1 ok1 in
    let k0 = remove-IsGood max c0 v g0 in
    let k1 = remove-IsGood max c1 v g1 in (le, by, h0, h1, k0, k1)

exact-remove :
    (t : Trie) (v : ℕ) (q : Bytes) (m : ℕ)
    → exact (remove_peer_from_tree t v) q m ≡ forget v (exact t q m)
unfolding exact remove_peer_from_tree forget
exact-remove nil v q m = refl
exact-remove (node b c ver none c0 c1) v q m =
    ground (arith, exact-remove c0 v q m, exact-remove c1 v q m)
exact-remove (node b c ver (some w) c0 c1) v q m =
    ground (arith, exact-remove c0 v q m, exact-remove c1 v q m)

forget-ne : (v : ℕ) (o : Option ℕ) → forget v o ≢ some v
unfolding forget
forget-ne v none h = cc
forget-ne v (some w) h = ground arith

longest-forget : (f : ℕ → Option ℕ) (v n : ℕ) → longest (λ m. forget v (f m)) n ≢ some v
unfolding longest
longest-forget f v zero h = forget-ne v (f 0) h
longest-forget f v (suc n) h = ground (arith, forget-ne v (f (suc n)), longest-forget f v n)

-- After `allowedips_remove_peer`, whatever requests came before, no IPv4 address is routed to
-- that peer, and each IPv4 lookup is the longest match over the prefixes of the other peers.
-- Prefixes and the address are bytes, a prefix has those of its family and is no longer than an
-- address, and there was memory for the nodes.
pub lookup-remove_peer :
    (rs : List Request) (v : ℕ) (q : Bytes)
    → AllRules 4 (rules_v4 rs)
    → AllRules 16 (rules_v6 rs)
    → IsBytes q
    → (lookup_v4 (remove_peer (route rs) v) q ≢ some v)
      × (lookup_v4 (remove_peer (route rs) v) q
          ≡ longest (λ m. forget v (rule_at (rules_v4 rs) q m)) 32)
unfolding lookup_v4 remove_peer
lookup-remove_peer rs v q ok4 ok6 bytes = (λ h. longest-forget _ v 32 (sym value ∙ h), value)
  where
    stored : Stores 4 (rules_v4 rs) (route rs).root4
    stored = (route-Stores rs ok4 ok6).0

    value :
        lookup (remove_peer_from_tree (route rs).root4 v) q 4
        ≡ longest (λ m. forget v (rule_at (rules_v4 rs) q m)) 32
    value =
        lookup_lem (remove_peer_from_tree (route rs).root4 v) q 4
          (remove-IsGood 32 (route rs).root4 v stored.good) bytes
        ∙ ap (λ f. longest f 32)
            (fun_ext (λ m. exact-remove (route rs).root4 v q m ∙ ap (forget v) (stored.holds q m)))
