-- ===== src/UserPresence/Service/Consistent.antt =====
-- What every sequence of calls of src/user_presence.c keeps true of its static variables.
use meow_key.Prelude.{Bool, true, false, List, [], ◌∷◌, ◌≡◌, arith, none, some}
use meow_key.Prelude.{if◌then◌else◌, ◌&&◌}
use meow_key.UserPresence.Config.{Config, config_is_valid}
use meow_key.Prelude.{ℕ}
use meow_key.UserPresence.Service.Pins.{Pins, off, ask_all}
use meow_key.UserPresence.Service.Agrees.{
  Agrees, IsPut-Agrees, init-IsPut, enabled-IsPut, get_config-IsPut, set_config-IsPut,
  set_session_config-Agrees, clear_session_config-IsPut,
}
use meow_key.UserPresence.Service.{
  GpioCall, Service, wants_gpio, cache_config_if_needed, user_presence_init,
}
use meow_key.UserPresence.Service.{is_enabled, get_config, set_config, set_session_config}
use meow_key.UserPresence.Service.{clear_session_config, apply_effective_config}

abbrev pub effective : Service → Config
effective s = if s.session_config_active then s.session_config else s.persisted_config

-- Once loaded, the cache is the configuration in force, every configuration in use is valid, and
-- the pin that is set up is the one that the cache asks for.
pub record IsConsistent (s : Service) : Type 0 where
  pub in_force : s.cached_config_ready ≡ true → s.cached_config ≡ effective s
  pub persisted_valid : s.cached_config_ready ≡ true → config_is_valid s.persisted_config ≡ true
  pub session_valid : s.session_config_active ≡ true → config_is_valid s.session_config ≡ true
  pub pin :
      s.cached_config_ready ≡ true
      → s.configured_gpio_pin
        ≡ (if wants_gpio s.cached_config then some s.cached_config.gpio_pin else none)

-- The calls that other modules make, with what the credential store answers to each.
pub data Call : Type 0 where
  start enabled current clear : Config → Call
  persist : Config → Bool → Config → Call
  override : Config → Config → Call

module _ (defaults : Config) where
  -- The calls of the SDK that a call makes, and the static variables after it.
  abbrev pub performed : Call → Service → List GpioCall × Service
  performed (start stored) s = user_presence_init defaults stored s
  performed (enabled stored) s = let x = is_enabled defaults stored s in (x.1, x.2)
  performed (current stored) s = let x = get_config defaults stored s in (x.1, x.2)
  performed (clear stored) s = clear_session_config defaults stored s
  performed (persist stored saved c) s = let x = set_config defaults stored saved c s in (x.1, x.2)
  performed (override stored c) s = let x = set_session_config defaults stored c s in (x.1, x.2)

  abbrev pub perform : Call → Service → Service
  perform c s = (performed c s).1

  -- The static variables and the pins after a sequence of calls.
  abbrev pub run : List Call → Service × Pins → Service × Pins
  run [] x = x
  run (c ∷ cs) (s, g) = run cs ((performed c s).1, ask_all (performed c s).0 g)

-- What putting a configuration in force changes.
record Applied (s v : Service) : Type 0 where
  cached : v.cached_config ≡ effective s
  pin :
      v.configured_gpio_pin
      ≡ (if wants_gpio (effective s) then some (effective s).gpio_pin else none)
  persisted : v.persisted_config ≡ s.persisted_config
  session : v.session_config ≡ s.session_config
  active : v.session_config_active ≡ s.session_config_active
  ready : v.cached_config_ready ≡ s.cached_config_ready

apply-Applied : (s : Service) → Applied s (apply_effective_config s).1
unfolding apply_effective_config
apply-Applied s = ground arith

Applied-IsConsistent :
    (s v : Service)
    → Applied s v
    → config_is_valid s.persisted_config ≡ true
    → (s.session_config_active ≡ true → config_is_valid s.session_config ≡ true)
    → IsConsistent (record v { cached_config_ready = true }) × IsConsistent v
Applied-IsConsistent s v a p q = ground arith

module _ (defaults : Config) (fallback : config_is_valid defaults ≡ true) where
  cache-IsConsistent :
      (stored : Config) (s : Service)
      → IsConsistent s
      → let s' = (cache_config_if_needed defaults stored s).1 in
        IsConsistent s' × (s'.cached_config_ready ≡ true)
  unfolding cache_config_if_needed
  cache-IsConsistent stored s h = ground arith

  persist-IsConsistent :
      (c : Config) (s : Service)
      → IsConsistent s
      → s.cached_config_ready ≡ true
      → config_is_valid c ≡ true
      → IsConsistent (record (apply_effective_config (record s { persisted_config = c })).1 {
        cached_config_ready = true;
      })
  persist-IsConsistent c s h r v =
      (Applied-IsConsistent (record s { persisted_config = c }) _
        (apply-Applied (record s { persisted_config = c })) v h.session_valid).0

  override-IsConsistent :
      (c : Config) (s : Service)
      → IsConsistent s
      → s.cached_config_ready ≡ true
      → config_is_valid c ≡ true
      → IsConsistent
          (apply_effective_config (record s { session_config = c; session_config_active = true })).1
  override-IsConsistent c s h r v =
      (Applied-IsConsistent (record s { session_config = c; session_config_active = true }) _
        (apply-Applied (record s { session_config = c; session_config_active = true }))
        (h.persisted_valid r) (λ e. v)).1

  clear-IsConsistent :
      (s : Service)
      → IsConsistent s
      → s.cached_config_ready ≡ true
      → IsConsistent (apply_effective_config (record s { session_config_active = false })).1
  clear-IsConsistent s h r =
      (Applied-IsConsistent (record s { session_config_active = false }) _
        (apply-Applied (record s { session_config_active = false })) (h.persisted_valid r)
        (λ e. cc)).1

  abbrev cached : Config → Service → Service
  cached stored s = (cache_config_if_needed defaults stored s).1

  perform-IsConsistent :
      (c : Call) (s : Service) → IsConsistent s → IsConsistent (perform defaults c s)
  unfolding user_presence_init is_enabled get_config clear_session_config set_config
      set_session_config
  perform-IsConsistent (start stored) s h =
      (cache-IsConsistent stored (record s { cached_config_ready = false }) (ground arith)).0
  perform-IsConsistent (enabled stored) s h = (cache-IsConsistent stored s h).0
  perform-IsConsistent (current stored) s h = (cache-IsConsistent stored s h).0
  perform-IsConsistent (clear stored) s h =
      let p = cache-IsConsistent stored s h in
      ground (arith, p, clear-IsConsistent (cached stored s) p.0 p.1)
  perform-IsConsistent (persist stored saved c) s h =
      let p = cache-IsConsistent stored s h in
      ground (arith, p, persist-IsConsistent c (cached stored s) p.0 p.1)
  perform-IsConsistent (override stored c) s h =
      let p = cache-IsConsistent stored s h in
      ground (arith, p, override-IsConsistent c (cached stored s) p.0 p.1)

  performed-Agrees :
      (c : Call) (s : Service) (g : Pins)
      → Agrees s g
      → Agrees (performed defaults c s).1 (ask_all (performed defaults c s).0 g)
  performed-Agrees (start stored) s g h = IsPut-Agrees _ g (init-IsPut defaults stored g s h)
  performed-Agrees (enabled stored) s g h = IsPut-Agrees _ g (enabled-IsPut defaults stored g s h)
  performed-Agrees (current stored) s g h =
      IsPut-Agrees _ g (get_config-IsPut defaults stored g s h)
  performed-Agrees (clear stored) s g h =
      IsPut-Agrees _ g (clear_session_config-IsPut defaults stored g s h)
  performed-Agrees (persist stored saved c) s g h =
      IsPut-Agrees _ g (set_config-IsPut defaults stored g saved c s h)
  performed-Agrees (override stored c) s g h = set_session_config-Agrees defaults stored g c s h

  run-IsConsistent :
      (cs : List Call) (x : Service × Pins)
      → IsConsistent x.0
      → Agrees x.0 x.1
      → IsConsistent (run defaults cs x).0 × Agrees (run defaults cs x).0 (run defaults cs x).1
  run-IsConsistent [] x h a = (h, a)
  run-IsConsistent (c ∷ cs) (s, g) h a =
      run-IsConsistent cs ((performed defaults c s).1, ask_all (performed defaults c s).0 g)
        (perform-IsConsistent c s h) (performed-Agrees c s g a)

-- The static variables at power-up: nothing is loaded, no override, no pin set up.
abbrev pub IsBooted : Service → Type 0
IsBooted s =
    (s.cached_config_ready ≡ false)
    × (s.session_config_active ≡ false)
    × (s.configured_gpio_pin ≡ none)

-- From power-up on, with no pull set on any pin, whatever sequence of calls is made and whatever the
-- store answers: the cached configuration is the override if there is one and the persisted one
-- otherwise, and all that is in use is valid. By the calls of the SDK in their order, the pin that the
-- cached configuration reads, if it reads one, has been initialised, made an input and last given the
-- pull that the configuration asks for; and the pulls of every other pin are off. The defaults of the
-- build must be valid.
pub run-IsConsistent_booted :
    (defaults : Config) (cs : List Call) (s : Service) (g : Pins)
    → config_is_valid defaults ≡ true
    → IsBooted s
    → ((j : ℕ) → (g j).pull ≡ off)
    → IsConsistent (run defaults cs (s, g)).0
      × Agrees (run defaults cs (s, g)).0 (run defaults cs (s, g)).1
run-IsConsistent_booted defaults cs s g valid boot none_pulled =
    run-IsConsistent defaults valid cs (s, g) (ground arith)
      (record { released = λ j e. none_pulled j; put = λ e. absurd (ground (arith, e)) })

-- Once the configuration is loaded, a valid override that is set and then cleared leaves the persisted configuration in force, and does
-- not change it.
clear-override :
    (defaults stored c : Config) (s : Service)
    → s.cached_config_ready ≡ true
    → config_is_valid c ≡ true
    → let s' = perform defaults (clear stored) (perform defaults (override stored c) s) in
      (s'.cached_config ≡ s.persisted_config)
      × (s'.persisted_config ≡ s.persisted_config)
      × (s'.session_config_active ≡ false)
unfolding set_session_config clear_session_config cache_config_if_needed
clear-override defaults stored c s ready valid =
    let t : Service = record s { session_config = c; session_config_active = true } in
    let v : Service = record (apply_effective_config t).1 { session_config_active = false } in
    ground (arith, apply-Applied t, apply-Applied v)

-- A configuration that is invalid or that the store does not take is refused, and neither what is
-- persisted nor what is in force changes.
pub set_config_refused :
    (defaults stored c : Config) (saved : Bool) (s : Service)
    → s.cached_config_ready ≡ true
    → (config_is_valid c && saved) ≡ false
    → set_config defaults stored saved c s ≡ (false, [], s)
unfolding set_config cache_config_if_needed
set_config_refused defaults stored c saved s ready bad = ground arith
