-- ===== src/Tests/UserPresence.antt =====
-- src/user_presence.c at concrete inputs.
use meow_key.Prelude.{ℕ, ◌≡◌, ◌≤◌, Bool, true, false, List, [], ◌∷◌, none, some, refl}
use meow_key.Prelude.{arith, inl, inr}
use meow_key.Prelude.{◌↔◌}
use meow_key.UserPresence.Config.{Config, IsValid, config_is_valid, config_is_valid-IsValid}
use meow_key.UserPresence.Service.{Service}
use meow_key.UserPresence.Service.Consistent.{Call, start, enabled, override, persist, clear, run}
use meow_key.UserPresence.Service.Pins.{Pins, off}
use meow_key.UserPresence.Service.Agrees.{Agrees}
use meow_key.UserPresence.Service.Consistent.{IsConsistent, run-IsConsistent_booted}
use meow_key.UserPresence.Wait.{Sample, ended, wait_for_confirmation}
use meow_key.UserPresence.Wait.Taps.{
  presses, wait_for_confirmation-presses, wait_for_confirmation_single,
}
use meow_key.UserPresence.Wait.Ends.{IsAnswer, Expires, wait_for_confirmation-answers}

-- A button on pin 14, pressed twice.
abbrev twice : Config
twice = record {
  source = 2;
  gpio_pin = 14;
  gpio_active_low = 1;
  tap_count = 2;
  gesture_window_ms = 750;
  request_timeout_ms = 8000;
}

abbrev once : Config
once = record twice { source = 1; tap_count = 1 }

twice_valid : config_is_valid twice ≡ true
unfolding config_is_valid
twice_valid = refl

once_valid : config_is_valid once ≡ true
unfolding config_is_valid
once_valid = refl

abbrev booted : Service
booted = record {
  cached_config = twice;
  persisted_config = twice;
  session_config = twice;
  cached_config_ready = false;
  session_config_active = false;
  configured_gpio_pin = none;
}

abbrev calls : List Call
calls =
    start twice ∷ override twice once ∷ persist twice true once ∷ clear twice ∷ enabled twice ∷ []

abbrev no_pulls : Pins
no_pulls = λ j. record { initialised = false; input = false; pull = off }

run-IsConsistent_booted_example :
    IsConsistent (run once calls (booted, no_pulls)).0
    × Agrees (run once calls (booted, no_pulls)).0 (run once calls (booted, no_pulls)).1
run-IsConsistent_booted_example =
    run-IsConsistent_booted once calls booted no_pulls once_valid (refl, refl, refl) (λ j. refl)

abbrev loaded : Service
loaded = record booted { cached_config_ready = true; configured_gpio_pin = some 14 }

abbrev at : ℕ → Bool → Sample
at ms pressed = record { check_ms = ms; now_ms = ms; pressed = pressed }

-- Held down at first, then pressed twice.
abbrev taps : List Sample
taps = at 10 true ∷ at 20 false ∷ at 30 true ∷ at 40 false ∷ at 50 true ∷ []

confirms : wait_for_confirmation twice 0 true taps ≡ ended 0
unfolding wait_for_confirmation
confirms = refl

wait_for_confirmation-presses_example : 2 ≤ presses true taps
wait_for_confirmation-presses_example =
    wait_for_confirmation-presses twice 0 true taps (omega arith) (omega arith) confirms

wait_for_confirmation_single_example : wait_for_confirmation once 0 true taps ≡ ended 0
wait_for_confirmation_single_example =
    wait_for_confirmation_single once 0 true taps refl
      (omega arith, (omega arith, (omega arith, (omega arith, (omega arith, tt))))) (omega arith)

-- Nobody presses, and the clock runs past 8 seconds.
abbrev idle : List Sample
idle = at 10 false ∷ at 4000 false ∷ at 8001 false ∷ []

idle-Expires : Expires twice 0 idle
idle-Expires = inr (inr (inl (omega arith)))

wait_for_confirmation-answers_example : IsAnswer (wait_for_confirmation twice 0 false idle)
wait_for_confirmation-answers_example =
    wait_for_confirmation-answers twice 0 false idle idle-Expires

config_is_valid-IsValid_example : (config_is_valid twice ≡ true) ↔ IsValid twice
config_is_valid-IsValid_example = config_is_valid-IsValid twice
