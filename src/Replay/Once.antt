-- ===== src/Replay/Once.antt =====
-- No counter passes the filter of src/replay.c twice, at any distance and in any order.
use wgx.Base.{ℕ, zero, suc, ◌<◌, ◌≡◌, arith, true, false, List, [], ◌∷◌, some}
use wgx.Base.{get_elem?}
use wgx.Replay.{Filter, reset, run}
use wgx.Replay.Spec
use wgx.Replay.Spec.{Window, elem}
use wgx.Replay.Refine.{Shows, reset-Shows, commit-Shows}

step-rejects :
    (limit c : ℕ) (w : Window) → elem c w.accepted ≡ true → (Spec.step limit w c).1 ≡ false
unfolding Spec.step
step-rejects limit c w old = ground arith

step-keeps :
    (limit c d : ℕ) (w : Window)
    → elem c w.accepted ≡ true
    → elem c (Spec.step limit w d).0.accepted ≡ true
unfolding Spec.step
step-keeps limit c d w old = ground arith

step-adds :
    (limit c : ℕ) (w : Window)
    → (Spec.step limit w c).1 ≡ true
    → elem c (Spec.step limit w c).0.accepted ≡ true
unfolding Spec.step
step-adds limit c w h = ground arith

-- Once a counter is in the history, every later packet that carries it is refused.
run-rejects :
    (limit c : ℕ) (cs : List ℕ) (j : ℕ) {f : Filter} {w : Window}
    → Shows f w
    → elem c w.accepted ≡ true
    → get_elem? cs j ≡ some c
    → get_elem? (run limit f cs) j ≡ some false
unfolding run
run-rejects limit c [] j s old at = cc
run-rejects limit c (d ∷ cs) zero {f} {w} s old at =
    ground (arith, (commit-Shows limit d s).0, step-rejects limit c w old)
run-rejects limit c (d ∷ cs) (suc j) {f} {w} s old at =
    run-rejects limit c cs j (commit-Shows limit d s).1 (step-keeps limit c d w old) at

accepted_once :
    (limit c : ℕ) (cs : List ℕ) (i j : ℕ) {f : Filter} {w : Window}
    → Shows f w
    → i < j
    → get_elem? cs i ≡ some c
    → get_elem? cs j ≡ some c
    → get_elem? (run limit f cs) i ≡ some true
    → get_elem? (run limit f cs) j ≡ some false
unfolding run
accepted_once limit c [] i j s lt at_i at_j first = cc
accepted_once limit c (d ∷ cs) i zero s lt at_i at_j first = absurd (omega arith)
accepted_once limit c (d ∷ cs) zero (suc j) {f} {w} s lt at_i at_j first =
    let added : elem c (Spec.step limit w d).0.accepted ≡ true =
      ground (arith, (commit-Shows limit d s).0, step-adds limit d w) in
    run-rejects limit c cs j (commit-Shows limit d s).1 added at_j
accepted_once limit c (d ∷ cs) (suc i) (suc j) s lt at_i at_j first =
    accepted_once limit c cs i j (commit-Shows limit d s).1 (omega arith) at_i at_j first

-- In the packets of a session, taken from a reset filter in any order: where the same counter
-- stands at `i` and at a later `j`, and `replay_commit` accepts it at `i`, it refuses it at `j`.
pub replayed_is_refused :
    (limit c : ℕ) (cs : List ℕ) (i j : ℕ)
    → i < j
    → get_elem? cs i ≡ some c
    → get_elem? cs j ≡ some c
    → get_elem? (run limit reset cs) i ≡ some true
    → get_elem? (run limit reset cs) j ≡ some false
replayed_is_refused limit c cs i j = accepted_once limit c cs i j reset-Shows
