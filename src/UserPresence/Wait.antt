-- ===== src/UserPresence/Wait.antt =====
-- `meowkey_user_presence_wait_for_confirmation` of src/user_presence.c: the polling loop as a
-- recursion over what its rounds read.
pub mod Taps
pub mod Ends
use meow_key.Prelude.{ℕ, ◌+◌, Bool, true, false, ◌&&◌, ◌||◌, not, List, [], ◌∷◌}
use meow_key.Prelude.{ltb, leb, ◌==◌, if◌then◌else◌, sub32, low_byte, ◌≡◌, ◌⊎◌, inl, inr, refl}
use meow_key.UserPresence.Config.{Config, source_none}

abbrev pub status_ok : ℕ
status_ok = 0x00

abbrev pub err_user_action_timeout : ℕ
err_user_action_timeout = 0x2f

abbrev indicator_interval_ms : ℕ
indicator_interval_ms = 100

-- What one round reads: the clock in the loop's test, the clock again, and the button.
pub record Sample : Type 0 where
  pub check_ms : ℕ
  pub now_ms : ℕ
  pub pressed : Bool

-- The variables of the loop.
pub record Wait : Type 0 where
  pub first_tap_ms : ℕ
  pub taps_seen : ℕ
  pub last_pressed : Bool
  pub armed : Bool
  pub indicator_on : Bool
  pub last_indicator_toggle_ms : ℕ

-- `pending`: the readings end before the loop does.
pub data Outcome : Type 0 where
  ended : ℕ → Outcome
  pending : Outcome

pub data Round : Type 0 where
  confirmed : Round
  waiting : Wait → Round

pub Round-cases : (r : Round) → (r ≡ confirmed) ⊎ ((v : Wait) × (r ≡ waiting v))
Round-cases confirmed = inl refl
Round-cases (waiting v) = inr (v, refl)

abbrev pub elapsed_ms : ℕ → ℕ → ℕ
elapsed_ms start_ms now_ms = sub32 now_ms start_ms

blink : Sample → Wait → Wait
blink s w =
    if leb indicator_interval_ms (elapsed_ms w.last_indicator_toggle_ms s.now_ms)
    then record w { indicator_on = not w.indicator_on; last_indicator_toggle_ms = s.now_ms }
    else w

-- The end of a round: a gesture whose window is over is forgotten.
settle : Config → Sample → Wait → Wait
settle c s w =
    let expired =
      ltb 0 w.taps_seen && ltb c.gesture_window_ms (elapsed_ms w.first_tap_ms s.now_ms) in
    record w { taps_seen = if expired then 0 else w.taps_seen; last_pressed = s.pressed }

-- A tap: the first of a gesture, or one more.
count_tap : Config → Sample → Wait → Wait
count_tap c s w =
    if w.taps_seen == 0 || ltb c.gesture_window_ms (elapsed_ms w.first_tap_ms s.now_ms)
    then record w { taps_seen = 1; first_tap_ms = s.now_ms }
    else record w { taps_seen = low_byte (w.taps_seen + 1) }

-- A round once the button has been seen released.
armed_round : Config → Sample → Wait → Round
unfolding settle count_tap
armed_round c s w =
    if s.pressed && not w.last_pressed
    then (if leb c.tap_count 1
        then confirmed
        else (let w' = count_tap c s w in
            if leb c.tap_count w'.taps_seen then confirmed else waiting (settle c s w')))
    else waiting (settle c s w)

-- The body of the loop.
round : Config → Sample → Wait → Round
unfolding blink armed_round
round c s w =
    let w' = blink s w in
    if w'.armed
    then armed_round c s w'
    else waiting (record w' { last_pressed = s.pressed; armed = not s.pressed })

wait_loop : Config → ℕ → List Sample → Wait → Outcome
wait_loop c start_ms [] w = pending
wait_loop c start_ms (s ∷ later) w =
    if ltb (elapsed_ms start_ms s.check_ms) c.request_timeout_ms
    then (elim (round c s w) [
      | confirmed ↦ ended status_ok
      | waiting w' ↦ wait_loop c start_ms later w'
    ])
    else ended err_user_action_timeout

abbrev initial : ℕ → Bool → Wait
initial start_ms pressed = record {
  first_tap_ms = 0;
  taps_seen = 0;
  last_pressed = pressed;
  armed = not pressed;
  indicator_on = true;
  last_indicator_toggle_ms = start_ms;
}

-- `start_ms` and `pressed` are the first readings of the clock and of the button.
unfoldable pub wait_for_confirmation : Config → ℕ → Bool → List Sample → Outcome
unfolding wait_loop round
wait_for_confirmation c start_ms pressed samples =
    if c.source == source_none
    then ended status_ok
    else wait_loop c start_ms samples (initial start_ms pressed)
