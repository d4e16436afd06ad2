-- ===== src/Noise/Session/Filed.antt =====
-- The keypairs that the index table points to, of `noise_begin_session` of src/noise.c: none of
-- them was freed.
use mathlib.Core.Path.{subst}
use wgx.Base.{ℕ, ◌≡◌, ◌≢◌, ◌⊎◌, inl, inr, ap, sym, ◌∙◌, arith, true, Option, none, some}
use wgx.Base.{Option-cases}
use native.Mathlib.Decide.{ℕ_discrete}
use wgx.Crypto.{Primitives}
use wgx.Noise.Types.{Handshake, HandshakeState, Keypair}
use wgx.Noise.Index.{IndexTable, Entry, update, delete, swap_keypair, index_slot}
use wgx.Noise.Session.{
  Session, local_index_at, derive_keypair, retire, rotate_initiator, rotate_responder, install,
  begin_session,
}

abbrev pub Heap : Type 0
Heap = ℕ → Option Keypair

HandshakeState-cases :
    (h : HandshakeState)
    → (h ≡ HandshakeState.response_consumed)
      ⊎ ((h ≡ HandshakeState.response_created)
          ⊎ ((h ≢ HandshakeState.response_consumed) × (h ≢ HandshakeState.response_created)))
HandshakeState-cases h = ground arith

-- What the index table knows of a keypair `a` that the entry of a slot points to: it is alive, and
-- filed under its own index.
abbrev pub Files : IndexTable → Heap → ℕ → ℕ → Type 0
Files t heap slot a =
    t.occupied slot ≡ true
    → (t.entries slot).keypair ≡ some a
    → (heap a ≢ none)
      × (local_index_at heap a ≡ (t.entries slot).index)
      × ((t.entries slot).index ≢ 0)
      × (index_slot (t.entries slot).index ≡ slot)

abbrev pub IsFiled : IndexTable → Heap → Type 0
IsFiled t heap = (slot a : ℕ) → Files t heap slot a

update_self {ℓ} : {A : Type ℓ} (f : ℕ → A) (i : ℕ) (a : A) → update f i a i ≡ a
update_self f i a = ground arith

pub update_ne {ℓ} : {A : Type ℓ} (f : ℕ → A) (i : ℕ) (a : A) (j : ℕ) → i ≢ j → update f i a j ≡ f j
update_ne f i a j h = ground arith

delete-kept :
    (t : IndexTable) (i slot a : ℕ)
    → (delete t i).occupied slot ≡ true
    → ((delete t i).entries slot).keypair ≡ some a
    → (t.occupied slot ≡ true)
      × ((delete t i).entries slot ≡ t.entries slot)
      × (i ≢ 0 → index_slot i ≡ slot → (t.entries slot).index ≢ i)
unfolding delete
delete-kept t i slot a occ e = ground arith

pub delete-IsFiled :
    (t : IndexTable) (heap : Heap) (i : ℕ) → IsFiled t heap → IsFiled (delete t i) heap
delete-IsFiled t heap i f slot a occ e =
    let (was, same, other) = delete-kept t i slot a occ e in
    rw same (f slot a was (ap Entry.keypair (sym same) ∙ e))

local_index_at-update :
    (heap : Heap) (a : ℕ) (o : Option Keypair) (b : ℕ)
    → a ≢ b
    → local_index_at (update heap a o) b ≡ local_index_at heap b
local_index_at-update heap a o b h =
    ap (λ (found : Option Keypair). elim found [ some kp ↦ kp.local_index | none ↦ 0 ])
      (update_ne heap a o b h)

free-IsFiled :
    (t : IndexTable) (heap : Heap) (a : ℕ)
    → IsFiled t heap
    → IsFiled (delete t (local_index_at heap a)) (update heap a none)
free-IsFiled t heap a f slot b occ e =
    let i = local_index_at heap a in
    let (was, same, other) = delete-kept t i slot b occ e in
    let entry_at = f slot b was (ap Entry.keypair (sym same) ∙ e) in
    elim (ℕ_discrete a b) [
      | yes eq ↦ absurd (
          other (λ z. entry_at.2 (sym entry_at.1 ∙ (ap (local_index_at heap) (sym eq) ∙ z)))
            (ap index_slot (ap (local_index_at heap) eq ∙ entry_at.1) ∙ entry_at.3)
            (sym entry_at.1 ∙ ap (local_index_at heap) (sym eq)))
      | no ne ↦ (
        rw (update_ne heap a none b ne) entry_at.0,
        rw same (local_index_at-update heap a none b ne ∙ entry_at.1),
        rw same entry_at.2,
        rw same entry_at.3,
      )
    ]

-- Freeing a keypair takes its entry out of the table first.
pub retire-IsFiled :
    (s : Session) (o : Option ℕ)
    → IsFiled s.index_table s.keypairs
    → IsFiled (retire s o).index_table (retire s o).keypairs
unfolding retire
retire-IsFiled s none f = f
retire-IsFiled s (some a) f = free-IsFiled s.index_table s.keypairs a f

swap_keypair-kept :
    (t : IndexTable) (i kp slot a : ℕ)
    → (swap_keypair t i kp).0.occupied slot ≡ true
    → ((swap_keypair t i kp).0.entries slot).keypair ≡ some a
    → (t.occupied slot ≡ true)
      × (((swap_keypair t i kp).0.entries slot).index ≡ (t.entries slot).index)
      × (((t.entries slot).keypair ≡ some a)
          ⊎ ((kp ≡ a) × ((t.entries slot).index ≡ i) × (i ≢ 0) × (index_slot i ≡ slot)))
unfolding swap_keypair
swap_keypair-kept t i kp slot a occ e = ground arith

-- A new keypair is filed under the index of its handshake.
file-IsFiled :
    (t : IndexTable) (heap : Heap) (a : ℕ) (kp : Keypair)
    → heap a ≡ none
    → IsFiled t heap
    → IsFiled (swap_keypair t kp.local_index a).0 (update heap a (some kp))
file-IsFiled t heap a kp new f slot b occ e =
    let (was, same, or) = swap_keypair-kept t kp.local_index a slot b occ e in
    elim or [
      | inl old ↦
          (let entry_at = f slot b was old in
            let ne : a ≢ b = λ z. entry_at.0 (ap heap (sym z) ∙ new) in
            (
              rw (update_ne heap a (some kp) b ne) entry_at.0,
              rw same (local_index_at-update heap a (some kp) b ne ∙ entry_at.1),
              rw same entry_at.2,
              rw same entry_at.3,
            ))
      | inr (eq, is_i, nonzero, placed) ↦
          (let found : update heap a (some kp) b ≡ some kp =
              ap (update heap a (some kp)) (sym eq) ∙ update_self heap a (some kp) in
            let own : local_index_at (update heap a (some kp)) b ≡ kp.local_index =
              ap (λ (o : Option Keypair). elim o [ some k ↦ k.local_index | none ↦ 0 ]) found in
            (
              rw found (ground arith),
              rw same (own ∙ sym is_i),
              rw (same, is_i) nonzero,
              rw (same, is_i) placed,
            ))
    ]

derive_keypair_index :
    (p : Primitives) (hs : Handshake) (now_ms : ℕ)
    → (derive_keypair p hs now_ms).local_index ≡ hs.local_index
unfolding derive_keypair
derive_keypair_index p hs now_ms = ground arith

install-IsFiled :
    (p : Primitives) (s : Session) (a now_ms wall_ns : ℕ)
    → s.keypairs a ≡ none
    → IsFiled s.index_table s.keypairs
    → IsFiled (install p s a now_ms wall_ns).index_table (install p s a now_ms wall_ns).keypairs
unfolding install
install-IsFiled p s a now_ms wall_ns new f =
    let kp = derive_keypair p s.peer.handshake now_ms in
    subst (λ i. IsFiled (swap_keypair s.index_table i a).0 (update s.keypairs a (some kp)))
      (derive_keypair_index p s.peer.handshake now_ms)
      (file-IsFiled s.index_table s.keypairs a kp new f)

rotate_initiator-IsFiled :
    (s : Session) (kp : ℕ)
    → IsFiled s.index_table s.keypairs
    → IsFiled (rotate_initiator s kp).index_table (rotate_initiator s kp).keypairs
unfolding rotate_initiator
rotate_initiator-IsFiled s kp f = elim (Option-cases s.peer.next_keypair) [
  | inl e ↦ rw (rotate_initiator, e) (retire-IsFiled s s.peer.prev_keypair f)
  | inr (n, e) ↦
      rw (rotate_initiator, e)
        (retire-IsFiled (retire s s.peer.current_keypair) s.peer.prev_keypair
          (retire-IsFiled s s.peer.current_keypair f))
]

rotate_responder-IsFiled :
    (s : Session) (kp : ℕ)
    → IsFiled s.index_table s.keypairs
    → IsFiled (rotate_responder s kp).index_table (rotate_responder s kp).keypairs
unfolding rotate_responder
rotate_responder-IsFiled s kp f =
    retire-IsFiled (retire s s.peer.next_keypair) s.peer.prev_keypair
      (retire-IsFiled s s.peer.next_keypair f)

pub begin_session-cases :
    (p : Primitives) (s : Session) (a now_ms wall_ns : ℕ)
    → ((begin_session p s (some a) now_ms wall_ns).0
        ≡ rotate_initiator (install p s a now_ms wall_ns) a)
      ⊎ (((begin_session p s (some a) now_ms wall_ns).0
            ≡ rotate_responder (install p s a now_ms wall_ns) a)
          ⊎ ((begin_session p s (some a) now_ms wall_ns).0 ≡ s))
unfolding begin_session
begin_session-cases p s a now_ms wall_ns = elim (HandshakeState-cases s.peer.handshake.state) [
  | inl e ↦ inl (ground arith)
  | inr (inl e) ↦ inr (inl (ground arith))
  | inr (inr (not_consumed, not_created)) ↦ inr (inr (ground arith))
]

-- The index table never points to a keypair that was freed: whatever the handshake ends in, every
-- entry of a keypair is alive and filed under its own index.
pub begin_session-IsFiled :
    (p : Primitives) (s : Session) (a now_ms wall_ns : ℕ)
    → s.keypairs a ≡ none
    → IsFiled s.index_table s.keypairs
    → IsFiled
        (begin_session p s (some a) now_ms wall_ns).0.index_table
        (begin_session p s (some a) now_ms wall_ns).0.keypairs
begin_session-IsFiled p s a now_ms wall_ns new f =
    let begun = install-IsFiled p s a now_ms wall_ns new f in
    let at = λ (r : Session). IsFiled r.index_table r.keypairs in
    elim (begin_session-cases p s a now_ms wall_ns) [
      | inl e ↦ subst at (sym e) (rotate_initiator-IsFiled (install p s a now_ms wall_ns) a begun)
      | inr (inl e) ↦
          subst at (sym e) (rotate_responder-IsFiled (install p s a now_ms wall_ns) a begun)
      | inr (inr e) ↦ subst at (sym e) f
    ]
