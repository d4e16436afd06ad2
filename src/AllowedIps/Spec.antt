-- ===== src/AllowedIps/Spec.antt =====
-- What cryptokey routing promises: of the rules given so far, the latest with the longest prefix
-- of the address decides.
use wgx.Base.{ℕ, zero, suc, Bool, true, ◌&&◌, Option, none, some, List, [], ◌∷◌}
use wgx.Base.{◌==◌, if◌then◌else◌}
use wgx.Base.Bytes.{Bytes}
use wgx.AllowedIps.{bit_at, or_best}

-- the first `n` bits of two addresses are the same
unfoldable pub agrees : ℕ → Bytes → Bytes → Bool
agrees zero a b = true
agrees (suc n) a b = agrees n a b && (bit_at a n == bit_at b n)

-- a prefix, its length and the peer that it is routed to
pub record Rule : Type 0 where
  pub prefix : Bytes
  pub cidr : ℕ
  pub peer : ℕ

-- the peer of the latest rule for the first `m` bits of an address; the latest rule stands first
unfoldable pub rule_at : List Rule → Bytes → ℕ → Option ℕ
unfolding agrees
rule_at [] addr m = none
rule_at (r ∷ rules) addr m =
    if (r.cidr == m) && agrees m r.prefix addr then some r.peer else rule_at rules addr m

-- the longest match of at most `n` bits
unfoldable pub longest : (ℕ → Option ℕ) → ℕ → Option ℕ
longest at zero = at 0
longest at (suc n) = or_best (at (suc n)) (longest at n)
