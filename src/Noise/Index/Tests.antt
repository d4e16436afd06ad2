-- ===== src/Noise/Index/Tests.antt =====
-- The index table of src/noise.c with one entry, and the theorems at that table.
use wgx.Base.{refl, ℕ, ◌≡◌, arith, none, some, [], ◌∷◌, ◌==◌, if◌then◌else◌}
use mathlib.Core.Option
use wgx.Noise.Index.{
  IndexTable, Entry, idx_keypair, new_for_handshake, lookup, delete, swap_keypair,
}
use wgx.Noise.Index.Laws.{
  handshake_entry, lookup-delete, lookup-swap_keypair, lookup-new_for_handshake,
}
use wgx.Noise.Fixture.{empty_table}

abbrev table : IndexTable
table = (new_for_handshake empty_table 102 (0 ∷ 21 ∷ []) 0).0

index_drawn : (new_for_handshake table 105 (21 ∷ 22 ∷ []) 0).1 ≡ 22
unfolding new_for_handshake wgx.Noise.Index.pick_random_index wgx.Noise.Index.pick_drawn
index_drawn = refl

lookup-new_for_handshake_example :
    let (t', idx) = new_for_handshake table 105 (21 ∷ 22 ∷ []) 0 in
    (lookup table idx ≡ none)
    × ((j : ℕ)
        → lookup t' j ≡ (if idx == j then some (handshake_entry 105 idx) else lookup table j))
lookup-new_for_handshake_example =
    lookup-new_for_handshake table 105 (21 ∷ 22 ∷ []) 0 (λ z. ground (arith, index_drawn, z))

lookup-delete_example :
    lookup (delete table 21) 21
    ≡ (if 21 == 0 then lookup table 21 else (if 21 == 21 then none else lookup table 21))
lookup-delete_example = lookup-delete table 21 21

lookup-swap_keypair_example : lookup (swap_keypair table 21 500).0 21 ≡ (
    if 21 == 21
    then Option.map
        (λ (e : Entry). record e { entry_type = idx_keypair; keypair = some 500 })
        (lookup table 21)
    else lookup table 21)
lookup-swap_keypair_example = lookup-swap_keypair table 21 21 500 (λ z. ground (arith, z))
