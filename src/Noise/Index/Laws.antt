-- ===== src/Noise/Index/Laws.antt =====
-- The index table of src/noise.c as a map from indices to entries.
use wgx.Base.{
  ℕ, zero, suc, ◌+◌, ◌/◌, ◌*◌, ◌≤◌, ◌<◌, ◌≡◌, ◌≢◌, refl, ◌∙◌, ap, arith, true, false, none, some,
}
use wgx.Base.{
  if◌then◌else◌, ◌==◌, bit_and, bit_or, List, [], ◌∷◌, Bool-cases, Option-cases, inl, inr,
}
use mathlib.Core.Option
use native.Mathlib.Decide.{ℕ_discrete}
use wgx.Base.Bits.{bit_and_mask, bit_or_fields, bit_and_high}
use wgx.Noise.Index.{
  IndexTable, Entry, idx_handshake, idx_keypair, index_slot, pick_drawn, pick_free,
  pick_random_index, new_for_handshake, lookup, delete, swap_keypair,
}

pick_drawn_free :
    (n : ℕ) (t : IndexTable) (rnd : List ℕ) (idx : ℕ)
    → pick_drawn n t rnd ≡ some idx
    → t.occupied (index_slot idx) ≡ false
unfolding pick_drawn
pick_drawn_free zero t rnd idx h = cc
pick_drawn_free (suc n) t [] idx h = cc
pick_drawn_free (suc n) t (i ∷ rnd) idx h = ground (arith, pick_drawn_free n t rnd idx)

slot_of_mixed :
    (high slot : ℕ) → slot < 65536 → index_slot (bit_or (bit_and high 4294901760) slot) ≡ slot
slot_of_mixed high slot h =
    let e : bit_and high 4294901760 ≡ bit_and (high / 65536) 65535 * 65536 =
      bit_and_high 16 high 65535 in
    let f = bit_or_fields 16 (bit_and (high / 65536) 65535) slot h in
    rw (e, f) (bit_and_mask 16 _ ∙ omega arith)

-- Deleting an index removes its entry and no other.
pub lookup-delete :
    (t : IndexTable) (i j : ℕ)
    → lookup (delete t i) j ≡ (if i == 0 then lookup t j else (if i == j then none else lookup t j))
unfolding lookup delete
lookup-delete t i j = ground arith

-- Giving an index, which is not 0, to a keypair changes that entry and no other.
pub lookup-swap_keypair :
    (t : IndexTable) (i j kp : ℕ)
    → i ≢ 0
    → lookup (swap_keypair t i kp).0 j ≡ (
        if i == j
        then Option.map
            (λ (e : Entry). record e { entry_type = idx_keypair; keypair = some kp })
            (lookup t j)
        else lookup t j)
unfolding lookup swap_keypair
lookup-swap_keypair t i j kp h = ground arith

pick_free_lem :
    (left slot : ℕ) (t : IndexTable) (high : ℕ)
    → slot + left ≡ 65536
    → pick_free left slot t high ≢ 0
    → t.occupied (index_slot (pick_free left slot t high)) ≡ false
unfolding pick_free
pick_free_lem zero slot t high e h = absurd (h refl)
pick_free_lem (suc left) slot t high e h =
    ground (arith, slot_of_mixed high slot, slot_of_mixed 0 0, pick_free_lem left (slot + 1) t high)

-- An index that is picked has a free slot.
pick_random_index_free :
    (t : IndexTable) (rnd : List ℕ) (high : ℕ)
    → pick_random_index t rnd high ≢ 0
    → t.occupied (index_slot (pick_random_index t rnd high)) ≡ false
unfolding pick_random_index
pick_random_index_free t rnd high h = elim (Option-cases (pick_drawn 4096 t rnd)) [
  | inl e ↦
      rw (e, pick_random_index) (pick_free_lem 65536 0 t high refl (rw (e, pick_random_index) at h))
  | inr (i, e) ↦ rw (e, pick_random_index) (pick_drawn_free 4096 t rnd i e)
]

-- While a slot from `slot` on is free, an index is found.
pick_free_found :
    (left slot s : ℕ) (t : IndexTable) (high : ℕ)
    → slot ≤ s
    → s < slot + left
    → t.occupied s ≡ false
    → pick_free left slot t high ≢ 0
unfolding pick_free
pick_free_found zero slot s t high lo hi free = absurd (omega arith)
pick_free_found (suc left) slot s t high lo hi free =
    ground (arith, pick_free_found left (slot + 1) s t high, slot_of_mixed high slot)

pick_drawn-ne-zero : (n : ℕ) (t : IndexTable) (rnd : List ℕ) → pick_drawn n t rnd ≢ some 0
unfolding pick_drawn
pick_drawn-ne-zero zero t rnd h = cc
pick_drawn-ne-zero (suc n) t [] h = cc
pick_drawn-ne-zero (suc n) t (i ∷ rnd) h = ground (arith, pick_drawn-ne-zero n t rnd)

-- No index comes out only where no slot is free.
pick_random_index_full :
    (t : IndexTable) (rnd : List ℕ) (high s : ℕ)
    → pick_random_index t rnd high ≡ 0
    → s < 65536
    → t.occupied s ≡ true
unfolding pick_random_index
pick_random_index_full t rnd high s z lt = elim (Bool-cases (t.occupied s)) [
  | inl used ↦ used
  | inr free ↦ absurd (found free)
]
  where
    found : t.occupied s ≡ false → ⊥
    found free = elim (Option-cases (pick_drawn 4096 t rnd)) [
      | inl e ↦
          pick_free_found 65536 0 s t high (omega arith) (omega arith) free
            (rw (e, pick_random_index) at z)
      | inr (i, e) ↦ pick_drawn-ne-zero 4096 t rnd (e ∙ ap some (rw (e, pick_random_index) at z))
    ]

abbrev pub handshake_entry : ℕ → ℕ → Entry
handshake_entry peer idx = record {
  entry_type = idx_handshake;
  index = idx;
  peer = some peer;
  handshake = some peer;
  keypair = none;
}

new_for_handshake-cases :
    (t : IndexTable) (peer : ℕ) (rnd : List ℕ) (high : ℕ)
    → let (t', idx) = new_for_handshake t peer rnd high in
      (idx ≢ 0
        → (lookup t idx ≡ none)
          × ((j : ℕ)
              → lookup t' j ≡ (if idx == j then some (handshake_entry peer idx) else lookup t j)))
      × (idx ≡ 0 → (t' ≡ t) × ((s : ℕ) → s < 65536 → t.occupied s ≡ true))
unfolding new_for_handshake lookup
new_for_handshake-cases t peer rnd high = elim (ℕ_discrete (pick_random_index t rnd high) 0) [
  | yes z ↦
      rw z (λ ne. absurd (ne refl), λ _. (refl, λ s lt. pick_random_index_full t rnd high s z lt))
  | no found ↦ (
    λ _. (
      ground (arith, pick_random_index_free t rnd high),
      λ j. ground (arith, pick_random_index_free t rnd high),
    ),
    λ z. absurd (found (ground arith)),
  )
]

-- An index that is allocated for a handshake was not in the table before, it now leads to the new
-- entry, and every other index leads where it led. The index is not 0, which stands for none.
pub lookup-new_for_handshake :
    (t : IndexTable) (peer : ℕ) (rnd : List ℕ) (high : ℕ)
    → (new_for_handshake t peer rnd high).1 ≢ 0
    → let (t', idx) = new_for_handshake t peer rnd high in
      (lookup t idx ≡ none)
      × ((j : ℕ) → lookup t' j ≡ (if idx == j then some (handshake_entry peer idx) else lookup t j))
lookup-new_for_handshake t peer rnd high found = (new_for_handshake-cases t peer rnd high).0 found

-- Where no index comes out, the table stays as it was and each of its slots is in use.
pub new_for_handshake_full :
    (t : IndexTable) (peer : ℕ) (rnd : List ℕ) (high slot : ℕ)
    → (new_for_handshake t peer rnd high).1 ≡ 0
    → slot < 65536
    → ((new_for_handshake t peer rnd high).0 ≡ t) × (t.occupied slot ≡ true)
new_for_handshake_full t peer rnd high slot full lt =
    let (same, used) = (new_for_handshake-cases t peer rnd high).1 full in (same, used slot lt)
