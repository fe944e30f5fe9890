-- ===== src/Token/Examples.antt =====
-- The theorems on tokens at concrete inputs (src/core/models/token.go).
use atom_engine.Base.{ℕ, ◌≡◌, ◌≢◌, true, none, List, [], ◌∷◌}
use atom_engine.Token.{completed, is_completed, new_token}
use atom_engine.Token.Lifecycle.{Call, run, last_final, moves, sets_state, new_token-completed_at}

abbrev calls : List (ℕ × Call)
calls = (3, moves "pay") ∷ (4, sets_state completed) ∷ (5, moves "end") ∷ []

new_token-completed_at_example :
    let t = run calls (new_token "t1" 1 "p1" "order:v1" "start") in
    (t.completed_at ≡ last_final calls none)
    × (is_completed t ≡ true → last_final calls none ≢ none)
new_token-completed_at_example = new_token-completed_at "t1" 1 "p1" "order:v1" "start" calls
