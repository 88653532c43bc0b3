-- ===== src/UserPresence/Wait/Ends.antt =====
-- When the waiting loop of src/user_presence.c comes to an end.
use meow_key.Prelude.{ℕ, ◌≤◌, Bool, List, [], ◌∷◌, ◌≡◌, ◌⊎◌, inl, inr, arith}
use meow_key.UserPresence.Config.{Config}
use meow_key.UserPresence.Wait.{Sample, Wait, Outcome, ended}
use meow_key.UserPresence.Wait.{
  elapsed_ms, round, wait_loop, Round-cases, initial, wait_for_confirmation,
}
use meow_key.UserPresence.Wait.{err_user_action_timeout, status_ok}

-- Some reading of the clock is past the time limit.
abbrev pub Expires : Config → ℕ → List Sample → Type 0
Expires c start_ms [] = ⊥
Expires c start_ms (s ∷ later) =
    (c.request_timeout_ms ≤ elapsed_ms start_ms s.check_ms) ⊎ Expires c start_ms later

-- The two answers of the function.
abbrev pub IsAnswer : Outcome → Type 0
IsAnswer o = (o ≡ ended status_ok) ⊎ (o ≡ ended err_user_action_timeout)

wait_loop-answers :
    (c : Config) (start_ms : ℕ) (samples : List Sample) (w : Wait)
    → Expires c start_ms samples
    → IsAnswer (wait_loop c start_ms samples w)
unfolding wait_loop
wait_loop-answers c start_ms [] w h = absurd h
wait_loop-answers c start_ms (s ∷ later) w h = elim (Round-cases (round c s w)) [
  | inl p ↦ ground (arith, p)
  | inr (v, p) ↦ ground (arith, p, wait_loop-answers c start_ms later v)
]

-- The loop ends, with one of the two answers, no later than the first reading of the clock that is
-- past the limit.
pub wait_for_confirmation-answers :
    (c : Config) (start_ms : ℕ) (level : Bool) (samples : List Sample)
    → Expires c start_ms samples
    → IsAnswer (wait_for_confirmation c start_ms level samples)
unfolding wait_for_confirmation
wait_for_confirmation-answers c start_ms level samples h =
    ground (arith, wait_loop-answers c start_ms samples (initial start_ms level) h)
