-- ===== src/Noise/Index.antt =====
-- The index table of src/noise.c: receiver indices of messages, by their low 16 bits.
pub mod Laws
mod Tests
use wgx.Base.{ℕ, zero, suc, ◌+◌, bit_and, bit_or, Bool, true, false, ◌&&◌, not, Option, none, some}
use wgx.Base.{List, [], ◌∷◌, ◌==◌, if◌then◌else◌}

-- `IDX_HANDSHAKE` and `IDX_KEYPAIR`
pub data EntryType : Type 0 where
  idx_handshake idx_keypair : EntryType

-- `index_entry_t`. A handshake is named by the peer that it is a part of.
pub record Entry : Type 0 where
  pub entry_type : EntryType
  pub index : ℕ
  pub peer : Option ℕ
  pub handshake : Option ℕ
  pub keypair : Option ℕ

-- `index_table_t`, less its locks; the arrays are functions of the slot
pub record IndexTable : Type 0 where
  pub entries : ℕ → Entry
  pub occupied : ℕ → Bool

-- `INDEX_TABLE_SIZE`
abbrev pub index_table_size : ℕ
index_table_size = 65536

abbrev pub index_slot : ℕ → ℕ
index_slot idx = bit_and idx 65535

abbrev pub update {ℓ} : {A : Type ℓ} → (ℕ → A) → ℕ → A → ℕ → A
update f i a j = if i == j then a else f j

-- what `memset` leaves of an entry
abbrev pub zero_entry : Entry
zero_entry = record {
  entry_type = idx_handshake;
  index = 0;
  peer = none;
  handshake = none;
  keypair = none;
}

unfoldable pub init : IndexTable → IndexTable
init t = record t { occupied = λ s. false }

-- the first loop of `pick_random_index`: the random words are a list, 4096 of them at most are used
unfoldable pub pick_drawn : ℕ → IndexTable → List ℕ → Option ℕ
pick_drawn zero t rnd = none
pick_drawn (suc attempts) t [] = none
pick_drawn (suc attempts) t (idx ∷ rnd) =
    let rest = pick_drawn attempts t rnd in
    if not (idx == 0) && not (t.occupied (index_slot idx)) then some idx else rest

-- the second loop, over the slots from `slot` on: `high` is the word drawn for the free slot
unfoldable pub pick_free : ℕ → ℕ → IndexTable → ℕ → ℕ
pick_free zero slot t high = 0
pick_free (suc left) slot t high =
    let rest = pick_free left (slot + 1) t high in
    if t.occupied slot
    then rest
    else (let idx = bit_or (bit_and high 4294901760) slot in
        if idx == 0 then index_table_size else idx)

-- A random source that fails leaves `idx` as it was: it is not modelled.
unfoldable pub pick_random_index : IndexTable → List ℕ → ℕ → ℕ
pick_random_index t rnd high = elim (pick_drawn 4096 t rnd) [
  | some idx ↦ idx
  | none ↦ pick_free 65536 0 t high
]

-- the writes that the two functions below share
abbrev occupy : IndexTable → ℕ → Entry → IndexTable
occupy t slot e = record {
  entries = update t.entries slot e;
  occupied = update t.occupied slot true;
}

-- Returns the new table and the index, 0 if the table is full.
unfoldable pub new_for_handshake : IndexTable → ℕ → List ℕ → ℕ → IndexTable × ℕ
new_for_handshake t peer rnd high =
    let idx = pick_random_index t rnd high in
    if idx == 0 then (t, 0) else (
      occupy t (index_slot idx) (record {
        entry_type = idx_handshake;
        index = idx;
        peer = some peer;
        handshake = some peer;
        keypair = none;
      }),
      idx,
    )

unfoldable pub new_for_keypair : IndexTable → ℕ → ℕ → List ℕ → ℕ → IndexTable × ℕ
new_for_keypair t peer kp rnd high =
    let idx = pick_random_index t rnd high in
    if idx == 0 then (t, 0) else (
      occupy t (index_slot idx) (record {
        entry_type = idx_keypair;
        index = idx;
        peer = some peer;
        handshake = none;
        keypair = some kp;
      }),
      idx,
    )

unfoldable pub lookup : IndexTable → ℕ → Option Entry
lookup t idx =
    let slot = index_slot idx in
    if t.occupied slot && ((t.entries slot).index == idx) then some (t.entries slot) else none

unfoldable pub delete : IndexTable → ℕ → IndexTable
delete t idx =
    if idx == 0
    then t
    else (let slot = index_slot idx in
        if t.occupied slot && ((t.entries slot).index == idx)
        then record {
          entries = update t.entries slot zero_entry;
          occupied = update t.occupied slot false;
        }
        else t)

-- The table, and whether `kp->local_index` was set to the index.
unfoldable pub swap_keypair : IndexTable → ℕ → ℕ → IndexTable × Bool
swap_keypair t old_idx kp =
    if old_idx == 0
    then (t, false)
    else (let slot = index_slot old_idx in
        if t.occupied slot && ((t.entries slot).index == old_idx)
        then (
          record t {
            entries =
                update t.entries slot
                  (record (t.entries slot) { entry_type = idx_keypair; keypair = some kp });
          },
          true,
        )
        else (t, false))
