-- ===== src/Tcp/Stack/Lookup.antt =====
-- How src/tcpstack.c finds the connection of a packet.
use wgx.Base.{
  ℕ, ◌+◌, ◌<◌, ◌≡◌, ◌⊎◌, ==_iff, refl, ap, ◌∙◌, arith, inl, inr, Bool, true, false, not, ◌&&◌,
  Option, some, List, [], ◌∷◌, ◌==◌, Bool-cases, if◌then◌else◌,
}
use wgx.Base.Bytes.{bytes_eq→eq}
use wgx.Noise.Index.{update}
use wgx.Tcp.Types.{Family, inet, inet6, Conn}
use wgx.Tcp.Stack.{
  Stack, Key, key_of, is_family, conn_hash, bucket_insert, keys_eq, matches, find_conn,
  bucket_lookup, link,
}

is_family→eq : (a b : Family) → is_family a b ≡ true → a ≡ b
is_family→eq inet inet h = refl
is_family→eq inet6 inet6 h = refl
is_family→eq inet inet6 h = cc
is_family→eq inet6 inet h = cc

pub keys_eq→eq : (k j : Key) → keys_eq k j ≡ true → k ≡ j
keys_eq→eq k j h = ground (
  arith,
  is_family→eq k.family j.family,
  bytes_eq→eq k.local_addr j.local_addr,
  bytes_eq→eq k.remote_addr j.remote_addr,
)

-- every address below `bound`
abbrev pub AllBelow : ℕ → List ℕ → Type 0
AllBelow bound [] = Unit {0}
AllBelow bound (id ∷ ids) = (id < bound) × AllBelow bound ids

-- The stack gives new connections new addresses.
pub record IsFresh (st : Stack) : Type 0 where
  pub below : (b : ℕ) → AllBelow st.next_addr (st.buckets b)

find_conn-cons :
    (heap : ℕ → Option Conn) (k : Key) (id : ℕ) (ids : List ℕ)
    → find_conn heap k (id ∷ ids) ≡ (if matches (heap id) k then some id else find_conn heap k ids)
unfolding find_conn
find_conn-cons heap k id ids = refl

-- A connection at a new address is not seen by what looks at others.
find_conn-update :
    (heap : ℕ → Option Conn) (k : Key) (id : ℕ) (c : Option Conn) (ids : List ℕ)
    → AllBelow id ids
    → find_conn (update heap id c) k ids ≡ find_conn heap k ids
unfolding find_conn
find_conn-update heap k id c [] h = refl
find_conn-update heap k id c (j ∷ ids) h =
    let same : update heap id c j ≡ heap j = ground (arith, h.0) in
    ground (arith, find_conn-update heap k id c ids h.1, ap (λ (t : Option Conn). matches t k) same)

-- After a connection is linked, its key leads to it, if it is not being freed, and every other key
-- leads where it led.
pub bucket_lookup-link :
    (c : Conn) (st : Stack) (k : Key)
    → IsFresh st
    → bucket_lookup (link c st) k ≡ (
        if not c.being_freed && keys_eq (key_of c) k then some st.next_addr else bucket_lookup st k)
unfolding bucket_lookup link bucket_insert
bucket_lookup-link c st k fresh =
    let b = conn_hash (key_of c) in
    let heap' = update st.heap st.next_addr (some c) in
    let old =
      find_conn-update st.heap k st.next_addr (some c) (st.buckets (conn_hash k))
        (fresh.below (conn_hash k)) in
    let here : matches (heap' st.next_addr) k ≡ (not c.being_freed && keys_eq (key_of c) k) =
      ap (λ (t : Option Conn). matches t k) {x = heap' st.next_addr} {y = some c} (ground arith) in
    let ids = update st.buckets b (st.next_addr ∷ st.buckets b) (conn_hash k) in
    elim (Bool-cases (b == conn_hash k)) [
      | inl same ↦
          let chain : ids ≡ st.next_addr ∷ st.buckets (conn_hash k) =
            ground (arith, same, ap st.buckets ((==_iff b (conn_hash k)).0 same)) in
          let rest = st.buckets (conn_hash k) in
          ap (find_conn heap' k) chain
          ∙ (find_conn-cons heap' k st.next_addr rest
              ∙ (ap (λ (t : Bool). if t then some st.next_addr else find_conn heap' k rest) here
                  ∙ ap
                      (λ (t : Option ℕ).
                        if not c.being_freed && keys_eq (key_of c) k then some st.next_addr else t)
                      old))
      | inr other ↦
          let chain : ids ≡ st.buckets (conn_hash k) = ground (arith, other) in
          let apart : keys_eq (key_of c) k ≡ false = elim (Bool-cases (keys_eq (key_of c) k)) [
            | inl e ↦ absurd (ground (arith, other, ap conn_hash (keys_eq→eq (key_of c) k e)))
            | inr e ↦ e
          ] in
          ap (find_conn heap' k) chain ∙ (old ∙ ground (arith, apart))
    ]

-- A new stack gives new addresses, and goes on to.
pub link-IsFresh : (c : Conn) (st : Stack) → IsFresh st → IsFresh (link c st)
unfolding link bucket_insert
link-IsFresh c st fresh = record { below = λ b. go b (Bool-cases (conn_hash (key_of c) == b)) }
  where
    up : (ids : List ℕ) → AllBelow st.next_addr ids → AllBelow (st.next_addr + 1) ids
    up [] h = tt
    up (id ∷ ids) h = (omega (arith, h.0), up ids h.1)

    go :
        (b : ℕ)
        → ((conn_hash (key_of c) == b) ≡ true) ⊎ ((conn_hash (key_of c) == b) ≡ false)
        → AllBelow (st.next_addr + 1) (
            update st.buckets
              (conn_hash (key_of c))
              (st.next_addr ∷ st.buckets (conn_hash (key_of c)))
              b)
    go b (inl e) =
        rw e
          (omega arith, up (st.buckets (conn_hash (key_of c))) (fresh.below (conn_hash (key_of c))))
    go b (inr e) = rw e (up (st.buckets b) (fresh.below b))
