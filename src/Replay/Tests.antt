-- ===== src/Replay/Tests.antt =====
-- Runs of src/replay.c on concrete packets, and the theorems at those inputs.
use wgx.Base.{ℕ, ◌≡◌, refl, arith, true, false, List, [], ◌∷◌, some, get_elem?}
use wgx.Replay.{reset, run}
use wgx.Replay.Spec
use wgx.Replay.Refine.{run_refines}
use wgx.Replay.Once.{replayed_is_refused}

-- in order, a replay, a jump of more than the window, one too old, one just inside
abbrev session : List ℕ
session = 0 ∷ 1 ∷ 1 ∷ 20000 ∷ 11871 ∷ 11872 ∷ 20000 ∷ 70000 ∷ []

run-session :
    run 50000 reset session ≡ true ∷ true ∷ false ∷ true ∷ false ∷ true ∷ false ∷ false ∷ []
unfolding run reset
run-session = refl

run_refines_example :
    run 50000 reset session ≡ Spec.run 50000 (record { highest = 0; accepted = [] }) session
run_refines_example = run_refines 50000 session

replayed_is_refused_example : get_elem? (run 50000 reset session) 6 ≡ some false
unfolding run reset
replayed_is_refused_example =
    replayed_is_refused 50000 20000 session 3 6 (omega arith) refl refl refl
