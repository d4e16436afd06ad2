-- ===== src/Replay/Refine.antt =====
-- src/replay.c against its specification: a filter shows the history of its session.
use wgx.Base.{
  ℕ, suc, ◌+◌, ◌-◌, ◌*◌, ◌/◌, ◌%◌, ◌^◌, ◌≤◌, ◌<◌, min, max, bit_and, bit_or, ◌≡◌, ◌≢◌, refl, ◌∙◌,
  inl, inr, arith, true, false, List, [], ◌∷◌, ltb, ◌==◌, if◌then◌else◌, Bool-cases, lt→ltb, zero,
  length, get_or, replicate, length-set, get_or-set_self, get_or-set_ne,
}
use wgx.Base.Bits.{test_bit, bit_and_mask, bit_and-pow, test_bit-bit_or, test_bit-zero}
use wgx.Replay.{
  Filter, slot_of, bit_of, word, reset, check, clear_blocks, advance, mark, commit, run,
}
use wgx.Replay.Ring.{slot_of_lem, length-clear_blocks, clear_blocks-miss, clear_blocks-hit}
use wgx.Replay.Spec
use wgx.Replay.Spec.{Window, elem}
use native.Mathlib.Decide.{dec_lt, ℕ_discrete}
use native.Mathlib.Nat.{one-le-pow}

-- The filter's bits are the history, for every counter in a block that the ring still holds.
pub record Shows (f : Filter) (w : Window) : Type 0 where
  pub size : length f.ring ≡ 128
  pub same_last : f.last ≡ w.highest
  pub top : (c : ℕ) → elem c w.accepted ≡ true → c ≤ w.highest
  pub bits :
      (c : ℕ)
      → f.last / 64 ≤ c / 64 + 127
      → c / 64 ≤ f.last / 64
      → test_bit (word f c) (c % 64) ≡ (if elem c w.accepted then 1 else 0)

bit_of_lem : (c : ℕ) → bit_and c 63 ≡ c % 64
bit_of_lem c = bit_and_mask 6 c

prod_zero : (a p : ℕ) → 1 ≤ p → ((a * p) == 0) ≡ (a == 0)
prod_zero zero p h = ground arith
prod_zero (suc a) p h = ground arith

-- The test `f->ring[slot] & bit`.
seen_lem :
    (f : Filter) (c : ℕ)
    → (bit_and (word f c) (bit_of c) == 0) ≡ (test_bit (word f c) (c % 64) == 0)
seen_lem f c =
    rw (bit_of_lem c, bit_and-pow)
      (prod_zero (test_bit (word f c) (c % 64)) (2 ^ (c % 64))
        (one-le-pow (c % 64) 2 (omega arith)))

replicate-zero : (n i : ℕ) → get_or {A = ℕ} (replicate n 0) i 0 ≡ 0
replicate-zero zero i = refl
replicate-zero (suc n) zero = refl
replicate-zero (suc n) (suc i) = replicate-zero n i

pub reset-Shows : Shows reset (record { highest = 0; accepted = [] })
unfolding reset
reset-Shows = record {
  size = refl;
  same_last = refl;
  top = λ c e. cc;
  bits = λ c lo hi. rw (replicate-zero 128 (slot_of (c / 64))) (test_bit-zero (c % 64));
}

check_lem :
    (limit c : ℕ) {f : Filter} {w : Window} → Shows f w → check f c limit ≡ Spec.accepts limit w c
unfolding check Spec.accepts
check_lem limit c {f} {w} s = ground (arith, s.same_last, s.top c, s.bits c, seen_lem f c)

-- The window moves: words of the new blocks are cleared, those of the blocks still held stay.
module _ (f : Filter) (c d : ℕ) (size : length f.ring ≡ 128) (held : c / 64 ≤ d / 64 + 127) where
  abbrev diff : ℕ
  diff = min (c / 64 - f.last / 64) 128

  word_above :
      f.last / 64 < d / 64
      → d / 64 ≤ c / 64
      → get_or (clear_blocks (f.last / 64 + 1) diff f.ring) (slot_of (d / 64)) 0 ≡ 0
  word_above lo hi =
      let b = f.last / 64 + 1 + (d / 64 - f.last / 64 - 1) % 128 in
      let e : slot_of (d / 64) ≡ b % 128 = omega (arith, slot_of_lem (d / 64)) in
      rw e (clear_blocks-hit (f.last / 64 + 1) diff b f.ring size (omega arith) (omega arith))

  word_below :
      d / 64 ≤ f.last / 64
      → get_or (clear_blocks (f.last / 64 + 1) diff f.ring) (slot_of (d / 64)) 0 ≡ word f d
  word_below hi =
      clear_blocks-miss (f.last / 64 + 1) diff (slot_of (d / 64)) f.ring
        (λ j lo up. omega (arith, slot_of_lem (d / 64)))

elem_above :
    {f : Filter} {w : Window} (d : ℕ) → Shows f w → f.last / 64 < d / 64 → elem d w.accepted ≡ false
elem_above d s h = ground (arith, s.top d, s.same_last)

advanced_bits :
    (c d : ℕ) {f : Filter} {w : Window}
    → Shows f w
    → c / 64 ≤ d / 64 + 127
    → d / 64 ≤ c / 64
    → f.last ≤ c
    → test_bit
        (get_or
          (clear_blocks (f.last / 64 + 1) (min (c / 64 - f.last / 64) 128) f.ring)
          (slot_of (d / 64))
          0)
        (d % 64)
      ≡ (if elem d w.accepted then 1 else 0)
advanced_bits c d {f} s held hi le = elim (dec_lt (f.last / 64) (d / 64)) [
  | yes above ↦
      rw (word_above f c d s.size held above hi, elem_above d s above) (test_bit-zero (d % 64))
  | no below ↦
      rw (word_below f c d s.size held (omega arith)) (s.bits d (omega arith) (omega arith))
]

advance-Shows :
    (c : ℕ) {f : Filter} {w : Window}
    → Shows f w
    → Shows (advance f c) (record w { highest = max w.highest c })
unfolding advance
advance-Shows c {f} {w} s = elim (dec_lt f.last c) [
  | yes later ↦ rw (lt→ltb f.last c later) (record {
    size = length-clear_blocks (f.last / 64 + 1) (min (c / 64 - f.last / 64) 128) f.ring ∙ s.size;
    same_last = omega (arith, s.same_last);
    top = λ d e. omega (arith, s.top d e);
    bits = λ d held hi. advanced_bits c d s held hi (omega arith);
  })
  | no old ↦ rw (not_later f.last c old) (record {
    size = s.size;
    same_last = omega (arith, s.same_last);
    top = λ d e. omega (arith, s.top d e);
    bits = s.bits;
  })
]
  where
    not_later : (a b : ℕ) → ¬ (a < b) → ltb a b ≡ false
    not_later a b h = ground arith

-- `ring[slot] |= bit` as another counter in the window sees it.
module _ (c d : ℕ) (f : Filter) (size : length f.ring ≡ 128) where
  word-mark_same : c / 64 ≡ d / 64 → word (mark f c) d ≡ bit_or (word f d) (2 ^ (c % 64))
  unfolding mark
  word-mark_same e =
      rw (e, bit_of_lem c)
        (get_or-set_self f.ring (slot_of (d / 64)) _ 0 (omega (arith, slot_of_lem (d / 64))))

  word-mark_other :
      c / 64 ≢ d / 64 → c / 64 ≤ d / 64 + 127 → d / 64 ≤ c / 64 + 127 → word (mark f c) d ≡ word f d
  unfolding mark
  word-mark_other ne lo hi =
      get_or-set_ne f.ring _ 0 (omega (arith, slot_of_lem (c / 64), slot_of_lem (d / 64)))

  marked_bits :
      c / 64 ≤ d / 64 + 127
      → d / 64 ≤ c / 64 + 127
      → test_bit (word (mark f c) d) (d % 64) ≡ (if c == d then 1 else test_bit (word f d) (d % 64))
  marked_bits lo hi = elim (ℕ_discrete (c / 64) (d / 64)) [
    | yes e ↦ rw (word-mark_same e, test_bit-bit_or) (ground arith)
    | no ne ↦ rw (word-mark_other ne lo hi) (ground arith)
  ]

mark-Shows :
    (c : ℕ) {f : Filter} {w : Window}
    → Shows f w
    → c ≤ f.last
    → f.last ≤ c + 127 * 64
    → Shows (mark f c) (record w { accepted = c ∷ w.accepted })
mark-Shows c {f} {w} s lo hi = record {
  size =
      unfold mark in length-set f.ring (slot_of (c / 64)) (bit_or (word f c) (bit_of c)) ∙ s.size;
  same_last = unfold mark in s.same_last;
  top = λ d e. ground (arith, s.top d, s.same_last);
  bits = unfold mark in λ d held up. ground (arith, marked_bits c d f s.size, s.bits d);
}

ahead : (c : ℕ) (f : Filter) → c ≤ (advance f c).last
unfolding advance
ahead c f = ground arith

-- One packet: the verdict is the specification's, and the filter goes on showing the history.
pub commit-Shows :
    (limit c : ℕ) {f : Filter} {w : Window}
    → Shows f w
    → ((commit f c limit).1 ≡ (Spec.step limit w c).1)
      × Shows (commit f c limit).0 (Spec.step limit w c).0
unfolding commit Spec.step
commit-Shows limit c {f} {w} s = elim (Bool-cases (Spec.accepts limit w c)) [
  | inl good ↦
      rw (check_lem limit c s, good)
        (refl, mark-Shows c (advance-Shows c s) (ahead c f) (near good))
  | inr bad ↦ rw (check_lem limit c s, bad) (refl, s)
]
  where
    near : Spec.accepts limit w c ≡ true → (advance f c).last ≤ c + 127 * 64
    near good = unfold advance Spec.accepts in ground (arith, s.same_last)

run_from :
    (limit : ℕ) (cs : List ℕ) {f : Filter} {w : Window}
    → Shows f w
    → run limit f cs ≡ Spec.run limit w cs
unfolding run Spec.run
run_from limit [] s = refl
run_from limit (c ∷ cs) s =
    let (verdict, shows) = commit-Shows limit c s in rw (verdict, run_from limit cs shows)

-- For every session and every order of arrival, `replay_commit` from a reset filter gives the
-- verdicts of the specification: a counter is accepted exactly when it is below the limit, was not
-- accepted before, and is at most 127 blocks of 64 behind the highest accepted.
pub run_refines :
    (limit : ℕ) (cs : List ℕ)
    → run limit reset cs ≡ Spec.run limit (record { highest = 0; accepted = [] }) cs
run_refines limit cs = run_from limit cs reset-Shows
