-- ===== src/Noise/Session/Owned.antt =====
-- Who owns a keypair, of `noise_begin_session` of src/noise.c and the rotation in src/device.c: no
-- pointer of the peer outlives its keypair.
use mathlib.Core.Path.{subst}
use wgx.Base.{ℕ, ◌≡◌, ◌≢◌, ◌⊎◌, inl, inr, refl, ap, sym, ◌∙◌, arith, Option, none, some}
use wgx.Base.{Option-cases}
use wgx.Crypto.{Primitives}
use wgx.Noise.Session.{
  Session, derive_keypair, retire, rotate_initiator, rotate_responder, install, begin_session,
  confirm_next, zero_key_material,
}
use wgx.Peer.{Peer}
use wgx.Noise.Session.Filed.{
  Heap, IsFiled, update_ne, delete-IsFiled, retire-IsFiled, begin_session-cases,
}

-- The peer holds the keypair `a`.
abbrev pub Holds : Peer → ℕ → Type 0
Holds peer a =
    (peer.current_keypair ≡ some a) ⊎ ((peer.next_keypair ≡ some a) ⊎ (peer.prev_keypair ≡ some a))

-- What a peer holds is alive, no two of its pointers are the same, and it holds no previous keypair
-- while one waits to be confirmed.
pub record IsOwned (s : Session) : Type 0 where
  pub alive : (a : ℕ) → Holds s.peer a → s.keypairs a ≢ none
  pub cur_not_next : (a : ℕ) → s.peer.current_keypair ≡ some a → s.peer.next_keypair ≢ some a
  pub cur_not_prev : (a : ℕ) → s.peer.current_keypair ≡ some a → s.peer.prev_keypair ≢ some a
  pub one_waits : (a : ℕ) → s.peer.next_keypair ≡ some a → s.peer.prev_keypair ≡ none

retire-keypairs :
    (s : Session) (o : Option ℕ) (b : ℕ) → o ≢ some b → (retire s o).keypairs b ≡ s.keypairs b
unfolding retire
retire-keypairs s none b h = refl
retire-keypairs s (some a) b h = update_ne s.keypairs a none b (λ e. h (ap some e))

retire-peer : (s : Session) (o : Option ℕ) → (retire s o).peer ≡ s.peer
unfolding retire
retire-peer s none = refl
retire-peer s (some a) = refl

-- two keypairs retired
retire_two-keypairs :
    (s : Session) (o q : Option ℕ) (b : ℕ)
    → o ≢ some b
    → q ≢ some b
    → (retire (retire s o) q).keypairs b ≡ s.keypairs b
retire_two-keypairs s o q b h k = retire-keypairs (retire s o) q b k ∙ retire-keypairs s o b h

module _ (s : Session) (kp : ℕ) (lives : s.keypairs kp ≢ none) (new : ¬ Holds s.peer kp)
    (o : IsOwned s) where
  lives_at : (heap : Heap) (a : ℕ) → heap a ≡ s.keypairs a → s.keypairs a ≢ none → heap a ≢ none
  lives_at heap a e h z = h (sym e ∙ z)

  new_lives :
      (heap : Heap) (a : ℕ) → (kp ≡ a → heap a ≡ s.keypairs a) → some kp ≡ some a → heap a ≢ none
  new_lives heap a e h = ground arith

  rotate_responder-IsOwned : IsOwned (rotate_responder s kp)
  unfolding rotate_responder
  rotate_responder-IsOwned = record {
    alive = λ a h.
        let kept = retire_two-keypairs s s.peer.next_keypair s.peer.prev_keypair a in
        let heap = (rotate_responder s kp).keypairs in
        elim h [
          | inl c ↦
              lives_at heap a (kept (o.cur_not_next a c) (o.cur_not_prev a c)) (o.alive a (inl c))
          | inr (inl n) ↦
              new_lives heap a (λ e. kept (λ z. new (ground arith)) (λ z. new (ground arith))) n
          | inr (inr q) ↦ ground arith
        ];
    cur_not_next = λ a. ground (arith, new);
    cur_not_prev = λ a. ground arith;
    one_waits = λ a. ground arith;
  }

  rotate_initiator-IsOwned : IsOwned (rotate_initiator s kp)
  unfolding rotate_initiator
  rotate_initiator-IsOwned = record {
    alive = λ a h.
        let two = retire_two-keypairs s s.peer.current_keypair s.peer.prev_keypair a in
        let one = retire-keypairs s s.peer.prev_keypair a in
        elim (Option-cases s.peer.next_keypair) [
          | inl none_waits ↦ ground (
            arith,
            one,
            lives,
            o.alive a,
            o.cur_not_prev a,
            λ (z : s.peer.prev_keypair ≡ some kp). new (inr (inr z)),
          )
          | inr (n, waits) ↦ ground (
            arith,
            two,
            lives,
            o.alive a,
            o.cur_not_next a,
            o.one_waits n,
            λ (z : s.peer.prev_keypair ≡ some kp). new (inr (inr z)),
            λ (z : s.peer.current_keypair ≡ some kp). new (inl z),
          )
        ];
    cur_not_next = λ a. ground (arith, o.cur_not_next a);
    cur_not_prev = λ a. ground (arith, o.cur_not_next a);
    one_waits = λ a. ground arith;
  }

install-IsOwned :
    (p : Primitives) (s : Session) (a now_ms wall_ns : ℕ)
    → s.keypairs a ≡ none
    → IsOwned s
    → IsOwned (install p s a now_ms wall_ns)
unfolding install
install-IsOwned p s a now_ms wall_ns new o = record {
  alive = λ b h.
      let ne : a ≢ b = λ z. o.alive b h (ap s.keypairs (sym z) ∙ new) in
      rw (update_ne s.keypairs a (some (derive_keypair p s.peer.handshake now_ms)) b ne)
        (o.alive b h);
  cur_not_next = λ b. o.cur_not_next b;
  cur_not_prev = λ b. o.cur_not_prev b;
  one_waits = λ b. o.one_waits b;
}

install_lives :
    (p : Primitives) (s : Session) (a now_ms wall_ns : ℕ)
    → (install p s a now_ms wall_ns).keypairs a ≢ none
unfolding install
install_lives p s a now_ms wall_ns = ground arith

install-Holds :
    (p : Primitives) (s : Session) (a now_ms wall_ns : ℕ) {b : ℕ}
    → Holds (install p s a now_ms wall_ns).peer b
    → Holds s.peer b
unfolding install
install-Holds p s a now_ms wall_ns h = h

-- Beginning a session keeps the peer's pointers apart and alive, whatever it rotates out.
pub begin_session-IsOwned :
    (p : Primitives) (s : Session) (a now_ms wall_ns : ℕ)
    → s.keypairs a ≡ none
    → IsOwned s
    → IsOwned (begin_session p s (some a) now_ms wall_ns).0
begin_session-IsOwned p s a now_ms wall_ns new o =
    let begun = install-IsOwned p s a now_ms wall_ns new o in
    let lives : (install p s a now_ms wall_ns).keypairs a ≢ none =
      install_lives p s a now_ms wall_ns in
    let unheld : ¬ Holds (install p s a now_ms wall_ns).peer a =
      λ h. o.alive a (install-Holds p s a now_ms wall_ns h) new in
    elim (begin_session-cases p s a now_ms wall_ns) [
      | inl e ↦ subst IsOwned (sym e) (rotate_initiator-IsOwned _ a lives unheld begun)
      | inr (inl e) ↦ subst IsOwned (sym e) (rotate_responder-IsOwned _ a lives unheld begun)
      | inr (inr e) ↦ subst IsOwned (sym e) o
    ]

-- So does the first message under the keypair that waits.
pub confirm_next-IsOwned : (s : Session) (kp : ℕ) → IsOwned s → IsOwned (confirm_next s kp)
unfolding confirm_next
confirm_next-IsOwned s kp o = record {
  alive = λ a h.
      let one = retire-keypairs s s.peer.prev_keypair a in
      ground (arith, one, o.alive a, o.cur_not_prev a, o.one_waits kp);
  cur_not_next = λ b. ground (arith, o.cur_not_next b);
  cur_not_prev = λ b. ground (arith, o.cur_not_next b, o.cur_not_prev b);
  one_waits = λ b. ground (arith, o.one_waits b);
}

pub confirm_next-IsFiled :
    (s : Session) (kp : ℕ)
    → IsFiled s.index_table s.keypairs
    → IsFiled (confirm_next s kp).index_table (confirm_next s kp).keypairs
unfolding confirm_next
confirm_next-IsFiled s kp f slot a =
    ground (arith, retire-IsFiled s s.peer.prev_keypair f slot a, f slot a)

pub zero_key_material-IsFiled :
    (s : Session)
    → IsFiled s.index_table s.keypairs
    → IsFiled (zero_key_material s).index_table (zero_key_material s).keypairs
unfolding zero_key_material
zero_key_material-IsFiled s f =
    let freed_cur = retire-IsFiled s s.peer.current_keypair f in
    let freed_next =
      retire-IsFiled (retire s s.peer.current_keypair) s.peer.next_keypair freed_cur in
    let freed =
      retire-IsFiled (retire (retire s s.peer.current_keypair) s.peer.next_keypair)
        s.peer.prev_keypair freed_next in
    delete-IsFiled _ _ s.peer.handshake.local_index freed
