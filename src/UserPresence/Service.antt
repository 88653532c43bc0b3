-- ===== src/UserPresence/Service.antt =====
-- The cached, persisted and session configurations of src/user_presence.c.
pub mod Pins
pub mod Agrees
pub mod Consistent
use meow_key.Prelude.{ℕ, Bool, true, false, ◌||◌, not, List, [], ◌∷◌, ◌++◌, ◌==◌, if◌then◌else◌}
use meow_key.Prelude.{Option, none, some}
use meow_key.UserPresence.Config.{Config, source_gpio, source_none, is_negative, config_is_valid}

-- The calls of the SDK that set up a pin.
pub data GpioCall : Type 0 where
  disable_pulls init set_dir_in pull_up pull_down : ℕ → GpioCall

-- The static variables. `configured_gpio_pin` is `none` while the source has a negative number.
pub record Service : Type 0 where
  pub cached_config : Config
  pub persisted_config : Config
  pub session_config : Config
  pub cached_config_ready : Bool
  pub session_config_active : Bool
  pub configured_gpio_pin : Option ℕ

-- The pin that is taken down, and the pin that is set up.
unfoldable release_gpio : Option ℕ → List GpioCall
release_gpio none = []
release_gpio (some pin) = disable_pulls pin ∷ []

abbrev wants_gpio : Config → Bool
wants_gpio c = if c.source == source_gpio then not (is_negative c.gpio_pin) else false

unfoldable setup_gpio : Config → List GpioCall
setup_gpio c =
    init c.gpio_pin
    ∷ set_dir_in c.gpio_pin
    ∷ disable_pulls c.gpio_pin
    ∷ (if c.gpio_active_low == 0 then pull_down c.gpio_pin else pull_up c.gpio_pin)
    ∷ []

pub configure_gpio_source : Config → Service → List GpioCall × Service
unfolding release_gpio setup_gpio
configure_gpio_source c s =
    let released = release_gpio s.configured_gpio_pin in
    if wants_gpio c
    then (released ++ setup_gpio c, record s { configured_gpio_pin = some c.gpio_pin })
    else (released, record s { configured_gpio_pin = none })

pub apply_effective_config : Service → List GpioCall × Service
unfolding configure_gpio_source
apply_effective_config s =
    let c = if s.session_config_active then s.session_config else s.persisted_config in
    configure_gpio_source c (record s { cached_config = c })

-- `defaults` are the values of the build, `stored` is what the credential store returns.
pub cache_config_if_needed : Config → Config → Service → List GpioCall × Service
unfolding apply_effective_config
cache_config_if_needed defaults stored s =
    if s.cached_config_ready
    then ([], s)
    else (let c = if config_is_valid stored then stored else defaults in
        let (calls, s') = apply_effective_config (record s { persisted_config = c }) in
        (calls, record s' { cached_config_ready = true }))

-- Each operation returns its answer, if any, and the calls of the SDK in order.
module _ (defaults stored : Config) where
  pub user_presence_init : Service → List GpioCall × Service
  user_presence_init s =
      cache_config_if_needed defaults stored (record s { cached_config_ready = false })

  pub is_enabled : Service → Bool × List GpioCall × Service
  is_enabled s =
      let (calls, s') = cache_config_if_needed defaults stored s in
      (not (s'.cached_config.source == source_none), calls, s')

  pub get_config : Service → Config × List GpioCall × Service
  get_config s =
      let (calls, s') = cache_config_if_needed defaults stored s in (s'.cached_config, calls, s')

  -- `saved` is the answer of the credential store to the write of a valid configuration.
  pub set_config : Bool → Config → Service → Bool × List GpioCall × Service
  set_config saved c s =
      let (calls, s') = cache_config_if_needed defaults stored s in
      if not (config_is_valid c) || not saved
      then (false, calls, s')
      else (let (more, s'') = apply_effective_config (record s' { persisted_config = c }) in
          (true, calls ++ more, record s'' { cached_config_ready = true }))

  pub set_session_config : Config → Service → Bool × List GpioCall × Service
  set_session_config c s =
      if not (config_is_valid c)
      then (false, [], s)
      else (let (calls, s') = cache_config_if_needed defaults stored s in
          let (more, s'') =
            apply_effective_config
              (record s' { session_config = c; session_config_active = true }) in
          (true, calls ++ more, s''))

  pub clear_session_config : Service → List GpioCall × Service
  clear_session_config s =
      let (calls, s') = cache_config_if_needed defaults stored s in
      if not s'.session_config_active
      then (calls, s')
      else (let (more, s'') =
            apply_effective_config (record s' { session_config_active = false }) in
          (calls ++ more, s''))
