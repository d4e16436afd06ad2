-- ===== src/AllowedIps.antt =====
-- src/allowedips.c and src/allowedips.h: the radix trie of cryptokey routing. Peers are numbers,
-- `NULL` is `none`. The fields `parent`, `bit_at_a` and `bit_at_b` are written by the source and
-- never read: they are left out.
pub mod Bits
pub mod Spec
pub mod Prefix
pub mod Lookup
pub mod Insert
pub mod Invariant
pub mod Routing
mod Tests
use wgx.Base.{
  ℕ, zero, suc, ◌+◌, ◌-◌, ◌*◌, ◌/◌, ◌%◌, ◌^◌, min, bit_and, Bool, true, false, ◌&&◌, not,
}
use wgx.Base.{Option, none, some, List, [], ◌∷◌, ◌++◌, ltb, ◌==◌, if◌then◌else◌, get_or, set, take}
use wgx.Base.Bytes.{Bytes}

-- `allowedip_node_t *`
pub data Trie : Type 0 where
  nil : Trie
  node : (bits : Bytes) (cidr : ℕ) (ip_version : ℕ) (peer : Option ℕ) (child0 child1 : Trie) → Trie

-- `allowedips_t`
pub record AllowedIps : Type 0 where
  pub root4 : Trie
  pub root6 : Trie

-- what `insert` returns: 0, or -1 where `calloc` fails
pub data Status : Type 0 where
  ok enomem einval : Status

unfoldable pub init : AllowedIps
init = record { root4 = nil; root6 = nil }

-- `allowedips_free`: every node is freed, and the roots are `NULL`
unfoldable pub free : AllowedIps → AllowedIps
free t = record { root4 = nil; root6 = nil }

unfoldable pub bit_at : Bytes → ℕ → ℕ
bit_at bits cidr = get_or bits (cidr / 8) 0 / 2 ^ (7 - cidr % 8) % 2

-- `addrlen`
abbrev pub addr_len : ℕ → ℕ
addr_len ip_version = if ip_version == 4 then 4 else 16

-- `(0xff << (8 - bit)) & 0xff`
abbrev pub byte_mask : ℕ → ℕ
byte_mask bit = bit_and (255 * 2 ^ (8 - bit)) 255

-- `for (i = from; i < addrlen; i++) bits[i] = 0`, over the rounds left
unfoldable pub zero_from : ℕ → ℕ → Bytes → Bytes
zero_from zero i bits = bits
zero_from (suc left) i bits = zero_from left (i + 1) (set bits i 0)

-- `node_new`, where the memory is given; `bits` is the whole address
unfoldable pub masked : Bytes → ℕ → ℕ → Bytes
unfolding zero_from
masked bits cidr addrlen =
    if ltb cidr (addrlen * 8)
    then (let byte_cidr = cidr / 8 in
        let bit_cidr = cidr % 8 in
        if bit_cidr == 0
        then zero_from (addrlen - byte_cidr) byte_cidr bits
        else zero_from (addrlen - (byte_cidr + 1)) (byte_cidr + 1)
            (set bits byte_cidr (bit_and (get_or bits byte_cidr 0) (byte_mask bit_cidr))))
    else bits

unfoldable pub node_new : Bytes → ℕ → ℕ → Option ℕ → Trie → Trie → Trie
unfolding masked
node_new bits cidr ip_version peer child0 child1 =
    let addrlen = addr_len ip_version in
    node (masked (take addrlen bits) cidr addrlen) cidr ip_version peer child0 child1

-- the loop of `common_bits` from `i` on, with `left` bits to compare
unfoldable pub common_from : ℕ → ℕ → Bytes → Bytes → ℕ
unfolding bit_at
common_from zero i a b = i
common_from (suc left) i a b =
    let rest = common_from left (i + 1) a b in if bit_at a i == bit_at b i then rest else i

unfoldable pub common_bits : Bytes → Bytes → ℕ → ℕ
unfolding common_from
common_bits a b max_cidr = common_from max_cidr 0 a b

-- the child that a bit of the address selects, in two slots
abbrev at_child0 : ℕ → Trie → Trie
at_child0 bit t = if bit == 0 then t else nil

abbrev at_child1 : ℕ → Trie → Trie
at_child1 bit t = if bit == 0 then nil else t

-- the two writes of `newnode->child[bit_at(bits, common)] = leaf`
abbrev replace_child : ℕ → Trie → Trie → Trie
replace_child bit leaf nil = nil
replace_child bit leaf (node bits cidr ver peer c0 c1) =
    if bit == 0 then node bits cidr ver peer leaf c1 else node bits cidr ver peer c0 leaf

-- `common < node->cidr`: the node goes below a new one
unfoldable pub split : Trie → Bytes → Bytes → ℕ → ℕ → ℕ → ℕ → ℕ → Trie × Status
split old nbits bits common cidr ip_version peer mem =
    let bit = bit_at nbits common in
    let c0 = at_child0 bit old in
    let c1 = at_child1 bit old in
    let newnode = node_new bits common ip_version none c0 c1 in
    if mem == 0
    then (old, enomem)
    else (if common == cidr
        then (node_new bits common ip_version (some peer) c0 c1, ok)
        else (if mem == 1 then (newnode, enomem) else (
          replace_child (bit_at bits common) (node_new bits cidr ip_version (some peer) nil nil)
              newnode,
          ok,
        )))

-- `cidr < node->cidr`: insert above
unfoldable pub above : Trie → Bytes → Bytes → ℕ → ℕ → ℕ → ℕ → Trie × Status
above old nbits bits cidr ip_version peer mem =
    let bit = bit_at nbits cidr in
    if mem == 0
    then (old, enomem)
    else (node_new bits cidr ip_version (some peer) (at_child0 bit old) (at_child1 bit old), ok)

-- `insert`. `mem` is how many calls of `calloc` succeed: a split makes two of them.
unfoldable pub insert : Trie → Bytes → ℕ → ℕ → ℕ → ℕ → Trie × Status
unfolding split above
insert nil bits cidr ip_version peer mem =
    if mem == 0 then (nil, enomem) else (node_new bits cidr ip_version (some peer) nil nil, ok)
insert (node nbits ncidr nver npeer c0 c1) bits cidr ip_version peer mem =
    let common = common_bits nbits bits (if ltb ncidr cidr then ncidr else cidr) in
    let old = node nbits ncidr nver npeer c0 c1 in
    let below0 = insert c0 bits cidr ip_version peer mem in
    let below1 = insert c1 bits cidr ip_version peer mem in
    if ltb common ncidr
    then split old nbits bits common cidr ip_version peer mem
    else (if common == cidr
        then (if ncidr == cidr
            then (node nbits ncidr nver (some peer) c0 c1, ok)
            else above old nbits bits cidr ip_version peer mem)
        else (if bit_at bits ncidr == 0
            then (node nbits ncidr nver npeer below0.0 c1, below0.1)
            else (node nbits ncidr nver npeer c0 below1.0, below1.1)))

-- The loop of `lookup` that compares whole bytes, over the bytes left.
unfoldable pub bytes_match : ℕ → ℕ → Bytes → Bytes → Bool
bytes_match zero i a b = true
bytes_match (suc left) i a b = (get_or a i 0 == get_or b i 0) && bytes_match left (i + 1) a b

-- `match`: the whole bytes of the prefix, then its last bits
unfoldable pub prefix_match : Bytes → Bytes → ℕ → Bool
unfolding bytes_match
prefix_match nbits bits cidr =
    let byte = cidr / 8 in
    let bit = cidr % 8 in
    bytes_match byte 0 nbits bits
    && (if bit == 0
        then true
        else bit_and (get_or nbits byte 0) (byte_mask bit)
          == bit_and (get_or bits byte 0) (byte_mask bit))

-- `if (node->peer) best = node->peer`
abbrev pub or_best : Option ℕ → Option ℕ → Option ℕ
or_best none best = best
or_best (some peer) best = some peer

-- the loop of `lookup`, with the best match so far
unfoldable pub lookup_from : Trie → Bytes → ℕ → Option ℕ → Option ℕ
unfolding prefix_match bit_at
lookup_from nil bits addrlen best = best
lookup_from (node nbits ncidr nver npeer c0 c1) bits addrlen best =
    let best' = or_best npeer best in
    let below0 = lookup_from c0 bits addrlen best' in
    let below1 = lookup_from c1 bits addrlen best' in
    if ltb (addrlen * 8) ncidr
    then best
    else (if prefix_match nbits bits ncidr
        then (if ncidr == addrlen * 8
            then best'
            else (if bit_at bits ncidr == 0 then below0 else below1))
        else best)

unfoldable pub lookup : Trie → Bytes → ℕ → Option ℕ
unfolding lookup_from
lookup root bits addrlen = lookup_from root bits addrlen none

-- `allowedips_insert_v4` and `allowedips_insert_v6`
unfoldable pub insert_v4 : AllowedIps → Bytes → ℕ → ℕ → ℕ → AllowedIps × Status
insert_v4 t addr cidr peer mem =
    if ltb 32 cidr
    then (t, einval)
    else (let (root, s) = insert t.root4 addr cidr 4 peer mem in (record t { root4 = root }, s))

unfoldable pub insert_v6 : AllowedIps → Bytes → ℕ → ℕ → ℕ → AllowedIps × Status
insert_v6 t addr cidr peer mem =
    if ltb 128 cidr
    then (t, einval)
    else (let (root, s) = insert t.root6 addr cidr 6 peer mem in (record t { root6 = root }, s))

unfoldable pub lookup_v4 : AllowedIps → Bytes → Option ℕ
lookup_v4 t addr = lookup t.root4 addr 4

unfoldable pub lookup_v6 : AllowedIps → Bytes → Option ℕ
lookup_v6 t addr = lookup t.root6 addr 16

-- `node->peer == peer`
abbrev same_peer : Option ℕ → ℕ → Bool
same_peer none peer = false
same_peer (some q) peer = q == peer

unfoldable pub remove_peer_from_tree : Trie → ℕ → Trie
remove_peer_from_tree nil peer = nil
remove_peer_from_tree (node nbits ncidr nver npeer c0 c1) peer =
    node nbits ncidr nver (if same_peer npeer peer then none else npeer)
      (remove_peer_from_tree c0 peer) (remove_peer_from_tree c1 peer)

unfoldable pub remove_peer : AllowedIps → ℕ → AllowedIps
unfolding remove_peer_from_tree
remove_peer t peer = record {
  root4 = remove_peer_from_tree t.root4 peer;
  root6 = remove_peer_from_tree t.root6 peer;
}

-- `walk_tree`: the nodes that the callback is given, in order, as prefix, length and peer
unfoldable pub walk_tree : Trie → List (Bytes × ℕ × ℕ)
walk_tree nil = []
walk_tree (node nbits ncidr nver npeer c0 c1) =
    let below = walk_tree c0 ++ walk_tree c1 in
    elim npeer [ some peer ↦ (nbits, ncidr, peer) ∷ below | none ↦ below ]

unfoldable pub walk : AllowedIps → List (Bytes × ℕ × ℕ)
unfolding walk_tree
walk t = walk_tree t.root4 ++ walk_tree t.root6
