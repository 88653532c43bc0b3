-- ===== src/UserPresence/Config.antt =====
-- The configuration of user presence (src/credential_store.h), and what counts as a valid one.
use meow_key.Prelude.{ℕ, ◌≤◌, Bool, true, false, ◌&&◌, ◌||◌, ◌≡◌, ltb, leb, ◌==◌, if◌then◌else◌}
use meow_key.Prelude.{arith, ◌↔◌}

-- `meowkey_user_presence_config_t`. `gpio_pin` is an `int8_t` by its bit pattern: from 128 on it
-- is negative.
pub record Config : Type 0 where
  pub source : ℕ
  pub gpio_pin : ℕ
  pub gpio_active_low : ℕ
  pub tap_count : ℕ
  pub gesture_window_ms : ℕ
  pub request_timeout_ms : ℕ

abbrev pub source_none : ℕ
source_none = 0

abbrev pub source_bootsel : ℕ
source_bootsel = 1

abbrev pub source_gpio : ℕ
source_gpio = 2

abbrev pub is_negative : ℕ → Bool
is_negative pin = leb 128 pin

unfoldable pub config_is_valid : Config → Bool
config_is_valid c =
    if ltb source_gpio c.source
    then false
    else if c.source == source_gpio && (is_negative c.gpio_pin || ltb 47 c.gpio_pin)
    then false
    else if ltb c.tap_count 1 || ltb 4 c.tap_count
    then false
    else if ltb c.gesture_window_ms 100 || ltb 5000 c.gesture_window_ms
    then false
    else if ltb c.request_timeout_ms 500 || ltb 30000 c.request_timeout_ms
    then false
    else true

-- The ranges that a valid configuration keeps to.
pub record IsValid (c : Config) : Type 0 where
  pub known : c.source ≤ 2
  pub pin : c.source ≡ 2 → c.gpio_pin ≤ 47
  pub some_tap : 1 ≤ c.tap_count
  pub few_taps : c.tap_count ≤ 4
  pub window_lo : 100 ≤ c.gesture_window_ms
  pub window_hi : c.gesture_window_ms ≤ 5000
  pub timeout_lo : 500 ≤ c.request_timeout_ms
  pub timeout_hi : c.request_timeout_ms ≤ 30000

-- The code accepts a configuration exactly if it keeps to these ranges.
pub config_is_valid-IsValid : (c : Config) → (config_is_valid c ≡ true) ↔ IsValid c
unfolding config_is_valid
config_is_valid-IsValid c = (λ h. ground arith, λ v. ground arith)
