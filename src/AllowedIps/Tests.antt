-- ===== src/AllowedIps/Tests.antt =====
-- Runs of src/allowedips.c on concrete prefixes, and the theorems at those inputs.
use wgx.Base.{
  Bool, true, ltb, ◌&&◌, zero, suc, ◌≡◌, ◌≢◌, refl, arith, some, List, [], ◌∷◌, replicate,
}
use wgx.Base.Bytes.{Bytes}
use wgx.AllowedIps.{lookup_v4, lookup_v6, remove_peer}
use wgx.AllowedIps.Prefix.{IsBytes}
use wgx.AllowedIps.Spec.{longest, rule_at}
use wgx.AllowedIps.Routing.{
  v4, v6, AllRules, Request, route, rules_v4, rules_v6, forget, lookup-route, lookup-remove_peer,
}

-- 10.0.0.0/8 to peer 1, 10.1.0.0/16 to peer 2, 10.1.2.0/24 to peer 3, and an IPv6 default route
abbrev requests : List Request
requests =
    v4 (record { prefix = 10 ∷ 1 ∷ 2 ∷ 0 ∷ []; cidr = 24; peer = 3 })
    ∷ v6 (record { prefix = replicate 16 0; cidr = 0; peer = 9 })
    ∷ v4 (record { prefix = 10 ∷ 1 ∷ 0 ∷ 0 ∷ []; cidr = 16; peer = 2 })
    ∷ v4 (record { prefix = 10 ∷ 0 ∷ 0 ∷ 0 ∷ []; cidr = 8; peer = 1 })
    ∷ []

abbrev address : Bytes
address = 10 ∷ 1 ∷ 2 ∷ 77 ∷ []

abbrev address_v6 : Bytes
address_v6 = replicate 16 1

lookup-address : lookup_v4 (route requests) address ≡ some 3
unfolding lookup_v4 route wgx.AllowedIps.lookup wgx.AllowedIps.insert_v4 wgx.AllowedIps.insert
    wgx.AllowedIps.insert_v6 wgx.AllowedIps.node_new wgx.AllowedIps.common_bits
lookup-address = refl

all_bytes : Bytes → Bool
all_bytes [] = true
all_bytes (x ∷ xs) = ltb x 256 && all_bytes xs

all_bytes-IsBytes : (xs : Bytes) → all_bytes xs ≡ true → IsBytes xs
unfolding all_bytes
all_bytes-IsBytes [] h i = ground arith
all_bytes-IsBytes (x ∷ xs) h zero = ground arith
all_bytes-IsBytes (x ∷ xs) h (suc i) = ground (arith, all_bytes-IsBytes xs (ground arith) i)

rules_v4-fit : AllRules 4 (rules_v4 requests)
unfolding all_bytes
rules_v4-fit = (
  record { size = refl; bytes = all_bytes-IsBytes (10 ∷ 1 ∷ 2 ∷ 0 ∷ []) refl; fits = omega arith },
  (
    record {
      size = refl;
      bytes = all_bytes-IsBytes (10 ∷ 1 ∷ 0 ∷ 0 ∷ []) refl;
      fits = omega arith;
    },
    (
      record {
        size = refl;
        bytes = all_bytes-IsBytes (10 ∷ 0 ∷ 0 ∷ 0 ∷ []) refl;
        fits = omega arith;
      },
      tt,
    ),
  ),
)

rules_v6-fit : AllRules 16 (rules_v6 requests)
unfolding all_bytes
rules_v6-fit = (
  record { size = refl; bytes = all_bytes-IsBytes (replicate 16 0) refl; fits = omega arith },
  tt,
)

address-IsBytes : IsBytes address
unfolding all_bytes
address-IsBytes = all_bytes-IsBytes address refl

address_v6-IsBytes : IsBytes address_v6
unfolding all_bytes
address_v6-IsBytes = all_bytes-IsBytes address_v6 refl

lookup-route_example :
    (lookup_v4 (route requests) address ≡ longest (rule_at (rules_v4 requests) address) 32)
    × (lookup_v6 (route requests) address_v6 ≡ longest (rule_at (rules_v6 requests) address_v6) 128)
lookup-route_example =
    lookup-route requests address address_v6 rules_v4-fit rules_v6-fit address-IsBytes
      address_v6-IsBytes

lookup-remove_peer_example :
    (lookup_v4 (remove_peer (route requests) 3) address ≢ some 3)
    × (lookup_v4 (remove_peer (route requests) 3) address
        ≡ longest (λ m. forget 3 (rule_at (rules_v4 requests) address m)) 32)
lookup-remove_peer_example =
    lookup-remove_peer requests 3 address rules_v4-fit rules_v6-fit address-IsBytes
