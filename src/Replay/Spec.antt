-- ===== src/Replay/Spec.antt =====
-- What the window of src/replay.c promises, over the whole history of a session: the counters
-- accepted so far, and the highest of them.
use wgx.Base.{ℕ, ◌+◌, ◌*◌, Bool, true, false, ◌&&◌, ◌||◌, not, List, [], ◌∷◌, ltb, leb, ◌==◌}
use wgx.Base.{if◌then◌else◌, max}

pub record Window : Type 0 where
  pub highest : ℕ
  pub accepted : List ℕ

abbrev pub elem : ℕ → List ℕ → Bool
elem c [] = false
elem c (x ∷ xs) = (x == c) || elem c xs

-- below the limit, not accepted before, and at most 127 blocks behind the highest
unfoldable pub accepts : ℕ → Window → ℕ → Bool
accepts limit w c = ltb c limit && (not (elem c w.accepted) && leb w.highest (c + 127 * 64))

unfoldable pub step : ℕ → Window → ℕ → Window × Bool
unfolding accepts
step limit w c =
    if accepts limit w c
    then (record { highest = max w.highest c; accepted = c ∷ w.accepted }, true)
    else (w, false)

unfoldable pub run : ℕ → Window → List ℕ → List Bool
unfolding step
run limit w [] = []
run limit w (c ∷ cs) = let (w', accepted) = step limit w c in accepted ∷ run limit w' cs
