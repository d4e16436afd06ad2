-- ===== src/Noise/Initiation/Peers.antt =====
-- The list of peers that `noise_consume_initiation` of src/noise.c searches and writes to.
use wgx.Base.{ℕ, ◌≡◌, ◌≢◌, arith, Bool, true, ◌&&◌, not, some}
use wgx.Base.{List, [], ◌∷◌, ◌==◌, if◌then◌else◌}
use wgx.Base.Bytes.{Bytes}
use wgx.Noise.Initiation.{find_peer, put_peer}
use wgx.Peer.{Peer}

-- No two peers are the same object.
abbrev pub is_absent : ℕ → List Peer → Bool
is_absent n [] = true
is_absent n (q ∷ peers) = not (q.peer_id == n) && is_absent n peers

abbrev pub is_distinct : List Peer → Bool
is_distinct [] = true
is_distinct (q ∷ peers) = is_absent q.peer_id peers && is_distinct peers

find_peer-absent :
    (peers : List Peer) (n : ℕ) (pk : Bytes) (q : Peer)
    → is_absent n peers ≡ true
    → find_peer peers pk ≡ some q
    → q.peer_id ≢ n
unfolding find_peer
find_peer-absent [] n pk q a h = cc
find_peer-absent (x ∷ peers) n pk q a h = ground (arith, find_peer-absent peers n pk q)

put_peer-absent :
    (peers : List Peer) (n : ℕ) (q : Peer)
    → is_absent n peers ≡ true
    → is_absent n (put_peer peers q) ≡ true
unfolding put_peer
put_peer-absent [] n q a = a
put_peer-absent (x ∷ peers) n q a = ground (arith, put_peer-absent peers n q)

pub put_peer-distinct :
    (peers : List Peer) (q : Peer)
    → is_distinct peers ≡ true
    → is_distinct (put_peer peers q) ≡ true
unfolding put_peer
put_peer-distinct [] q d = d
put_peer-distinct (x ∷ peers) q d =
    ground (arith, put_peer-distinct peers q, put_peer-absent peers x.peer_id q)

-- Two peers that are found are the same or have different addresses.
pub find_peer_same :
    (peers : List Peer) (a b : Bytes) (q k : Peer)
    → is_distinct peers ≡ true
    → find_peer peers a ≡ some q
    → find_peer peers b ≡ some k
    → k.peer_id ≡ q.peer_id
    → k ≡ q
unfolding find_peer
find_peer_same [] a b q k d h g e = cc
find_peer_same (x ∷ peers) a b q k d h g e = ground (
  arith,
  find_peer_same peers a b q k,
  find_peer-absent peers x.peer_id a q,
  find_peer-absent peers x.peer_id b k,
)

pub find_peer-put_peer :
    (peers : List Peer) (a b : Bytes) (q k q' : Peer)
    → is_distinct peers ≡ true
    → find_peer peers a ≡ some q
    → find_peer peers b ≡ some k
    → q'.peer_id ≡ q.peer_id
    → q'.public_key ≡ q.public_key
    → find_peer (put_peer peers q') b ≡ some (if k.peer_id == q.peer_id then q' else k)
unfolding find_peer put_peer
find_peer-put_peer [] a b q k q' d h g e f = cc
find_peer-put_peer (x ∷ peers) a b q k q' d h g e f = ground (
  arith,
  find_peer-put_peer peers a b q k q',
  find_peer-absent peers x.peer_id a q,
  find_peer-absent peers x.peer_id b k,
)
