-- ===== src/Noise/Session/Life.antt =====
-- The life of a peer's keypairs: the steps of src/noise.c, src/device.c and src/timers.c that make,
-- move and free them, in any order, and what they keep.
use mathlib.Core.Path.{subst}
use wgx.Base.{ℕ, ◌≡◌, ◌≢◌, ◌⊎◌, inl, inr, ap, sym, ◌∙◌, arith, true, Option, none, some, List}
use wgx.Crypto.{Primitives}
use wgx.Noise.Types.{Handshake, Keypair}
use wgx.Noise.Index.{IndexTable, Entry, delete, new_for_handshake}
use wgx.Noise.Session.{
  Session, retire, rotate_initiator, rotate_responder, install, begin_session, confirm_next,
  zero_key_material,
}
use wgx.Noise.Session.Owned.{
  Holds, IsOwned, begin_session-IsOwned, confirm_next-IsFiled, confirm_next-IsOwned,
  zero_key_material-IsFiled,
}
use wgx.Noise.Session.Filed.{IsFiled, begin_session-cases, begin_session-IsFiled, delete-IsFiled}

-- Every keypair that is alive is held, of a device with one peer.
abbrev pub IsKept : Session → Type 0
IsKept s = (a : ℕ) → s.keypairs a ≢ none → Holds s.peer a

retire_alive :
    (s : Session) (o : Option ℕ) (b : ℕ)
    → (retire s o).keypairs b ≢ none
    → (s.keypairs b ≢ none) × (o ≢ some b)
unfolding retire
retire_alive s none b h = (h, λ z. ground arith)
retire_alive s (some a) b h = ground arith

retire_two_alive :
    (s : Session) (o q : Option ℕ) (b : ℕ)
    → (retire (retire s o) q).keypairs b ≢ none
    → (s.keypairs b ≢ none) × (o ≢ some b) × (q ≢ some b)
retire_two_alive s o q b h =
    let second = retire_alive (retire s o) q b h in
    let first = retire_alive s o b second.0 in (first.0, first.1, second.1)

module _ (s : Session) (kp : ℕ)
    (kept : (a : ℕ) → s.keypairs a ≢ none → (kp ≡ a) ⊎ Holds s.peer a) where
  rotate_responder-IsKept : IsKept (rotate_responder s kp)
  unfolding rotate_responder
  rotate_responder-IsKept a lives =
      let was = retire_two_alive s s.peer.next_keypair s.peer.prev_keypair a lives in
      ground (arith, kept a)

  rotate_initiator-IsKept : IsKept (rotate_initiator s kp)
  unfolding rotate_initiator
  rotate_initiator-IsKept a lives =
      let one = retire_alive s s.peer.prev_keypair a in
      let two = retire_two_alive s s.peer.current_keypair s.peer.prev_keypair a in
      ground (arith, kept a, one, two)

install-IsKept :
    (p : Primitives) (s : Session) (a now_ms wall_ns : ℕ)
    → IsKept s
    → (b : ℕ) → (install p s a now_ms wall_ns).keypairs b ≢ none
    → (a ≡ b) ⊎ Holds (install p s a now_ms wall_ns).peer b
unfolding install
install-IsKept p s a now_ms wall_ns k b lives = ground (arith, k b)

begin_session-IsKept :
    (p : Primitives) (s : Session) (a now_ms wall_ns : ℕ)
    → IsKept s
    → IsKept (begin_session p s (some a) now_ms wall_ns).0
begin_session-IsKept p s a now_ms wall_ns k =
    let begun = install-IsKept p s a now_ms wall_ns k in
    elim (begin_session-cases p s a now_ms wall_ns) [
      | inl e ↦ subst IsKept (sym e) (rotate_initiator-IsKept _ a begun)
      | inr (inl e) ↦ subst IsKept (sym e) (rotate_responder-IsKept _ a begun)
      | inr (inr e) ↦ subst IsKept (sym e) k
    ]

confirm_next-IsKept : (s : Session) (kp : ℕ) → IsKept s → IsKept (confirm_next s kp)
unfolding confirm_next
confirm_next-IsKept s kp k a lives = ground (arith, k a, retire_alive s s.peer.prev_keypair a)

zero_key_material_frees :
    (s : Session) → IsKept s → (a : ℕ) → (zero_key_material s).keypairs a ≡ none
unfolding zero_key_material
zero_key_material_frees s k a =
    let third =
      retire_alive (retire (retire s s.peer.current_keypair) s.peer.next_keypair)
        s.peer.prev_keypair a in
    let two = retire_two_alive s s.peer.current_keypair s.peer.next_keypair a in
    ground (arith, third, two, k a)

zero_key_material-IsOwned : (s : Session) → IsOwned (zero_key_material s)
unfolding zero_key_material
zero_key_material-IsOwned s = record {
  alive = λ a h. ground arith;
  cur_not_next = λ a. ground arith;
  cur_not_prev = λ a. ground arith;
  one_waits = λ a. ground arith;
}

new_for_handshake-kept :
    (t : IndexTable) (peer : ℕ) (rnd : List ℕ) (high slot a : ℕ)
    → (new_for_handshake t peer rnd high).0.occupied slot ≡ true
    → ((new_for_handshake t peer rnd high).0.entries slot).keypair ≡ some a
    → (t.occupied slot ≡ true)
      × ((new_for_handshake t peer rnd high).0.entries slot ≡ t.entries slot)
unfolding new_for_handshake
new_for_handshake-kept t peer rnd high slot a occ e = ground arith

new_for_handshake-IsFiled :
    (t : IndexTable) (heap : ℕ → Option Keypair) (peer : ℕ) (rnd : List ℕ) (high : ℕ)
    → IsFiled t heap
    → IsFiled (new_for_handshake t peer rnd high).0 heap
new_for_handshake-IsFiled t heap peer rnd high f slot a occ e =
    let (was, same) = new_for_handshake-kept t peer rnd high slot a occ e in
    rw same (f slot a was (ap Entry.keypair (sym same) ∙ e))

-- The sessions that the steps reach from `s`: `handshakes` is a message of the handshake made or
-- read, which gives the handshake a new index; `begins` has what `calloc` returned, which nothing
-- lives at; `zeroes` is the callback of the timer.
pub data Reaches (p : Primitives) (s : Session) : Session → Type 0 where
  here : Reaches p s s
  handshakes :
      (r : Session) (hs : Handshake) (rnd : List ℕ) (high : ℕ)
      → Reaches p s r
      → Reaches p s (record {
        index_table =
            (new_for_handshake
              (delete r.index_table r.peer.handshake.local_index)
              r.peer.peer_id
              rnd
              high).0;
        keypairs = r.keypairs;
        peer = record r.peer { handshake = hs };
      })
  begins :
      (r : Session) (a now_ms wall_ns : ℕ)
      → r.keypairs a ≡ none
      → Reaches p s r
      → Reaches p s (begin_session p r (some a) now_ms wall_ns).0
  confirms : (r : Session) (kp : ℕ) → Reaches p s r → Reaches p s (confirm_next r kp)
  zeroes : (r : Session) → Reaches p s r → Reaches p s (zero_key_material r)

-- What every step keeps of the keypairs.
pub record IsSound (s : Session) : Type 0 where
  pub filed : IsFiled s.index_table s.keypairs
  pub owned : IsOwned s
  pub kept : IsKept s

-- Whatever steps a peer's sessions go through, in any order, the index table only points to
-- keypairs that are alive, under their own index, the peer holds exactly the keypairs that are
-- alive, each once, and none is leaked; a keypair waits to be confirmed only while no previous one is
-- held. This is so of a state that is reached from a sound one, with `calloc` giving memory that
-- is not in use.
pub reached-IsSound : (p : Primitives) (s r : Session) → IsSound s → Reaches p s r → IsSound r
reached-IsSound p s r sound here = sound
reached-IsSound p s r sound (handshakes q hs rnd high w) =
    let was = reached-IsSound p s q sound w in
    record {
      filed =
          new_for_handshake-IsFiled _ q.keypairs q.peer.peer_id rnd high
            (delete-IsFiled q.index_table q.keypairs q.peer.handshake.local_index was.filed);
      owned = record {
        alive = was.owned.alive;
        cur_not_next = was.owned.cur_not_next;
        cur_not_prev = was.owned.cur_not_prev;
        one_waits = was.owned.one_waits;
      };
      kept = was.kept;
    }
reached-IsSound p s r sound (begins q a now_ms wall_ns new w) =
    let was = reached-IsSound p s q sound w in
    record {
      filed = begin_session-IsFiled p q a now_ms wall_ns new was.filed;
      owned = begin_session-IsOwned p q a now_ms wall_ns new was.owned;
      kept = begin_session-IsKept p q a now_ms wall_ns was.kept;
    }
reached-IsSound p s r sound (confirms q kp w) =
    let was = reached-IsSound p s q sound w in
    record {
      filed = confirm_next-IsFiled q kp was.filed;
      owned = confirm_next-IsOwned q kp was.owned;
      kept = confirm_next-IsKept q kp was.kept;
    }
reached-IsSound p s r sound (zeroes q w) =
    let was = reached-IsSound p s q sound w in
    record {
      filed = zero_key_material-IsFiled q was.filed;
      owned = zero_key_material-IsOwned q;
      kept = λ a lives. absurd (lives (zero_key_material_frees q was.kept a));
    }
