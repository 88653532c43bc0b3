-- ===== src/UserPresence/Service/Agrees.antt =====
-- The pins of the chip and the static variables of src/user_presence.c over its operations.
use meow_key.Prelude.{ℕ, Bool, true, false, ◌||◌, not, List, ◌++◌, if◌then◌else◌}
use meow_key.Prelude.{Option, none, some, ◌≡◌, refl, sym, subst, arith, inl, inr, Bool-cases}
use meow_key.UserPresence.Config.{Config, config_is_valid}
use meow_key.UserPresence.Service.{
  GpioCall, Service, wants_gpio, apply_effective_config, configure_gpio_source,
  cache_config_if_needed, user_presence_init, is_enabled, get_config, set_config,
  set_session_config, clear_session_config,
}
use meow_key.UserPresence.Service.Pins.{
  Pins, ask_all, ask_all-append, IsReleased, ArePut, configure_gpio_source-ArePut,
}

-- The pins that are not set up have no pull, and once the configuration is loaded the pins are as it
-- asks.
pub record Agrees (s : Service) (g : Pins) : Type 0 where
  pub released : IsReleased s.configured_gpio_pin g
  pub put : s.cached_config_ready ≡ true → ArePut s.cached_config g

-- The same of what an operation answers, whether the configuration counts as loaded or not.
pub record IsPut (x : List GpioCall × Service) (g : Pins) : Type 0 where
  pub released : IsReleased x.1.configured_gpio_pin (ask_all x.0 g)
  pub put : ArePut x.1.cached_config (ask_all x.0 g)

abbrev in_use : Service → Config
in_use s = if s.session_config_active then s.session_config else s.persisted_config

apply_pin :
    (s : Service)
    → (apply_effective_config s).1.configured_gpio_pin
      ≡ (if wants_gpio (in_use s) then some (in_use s).gpio_pin else none)
unfolding apply_effective_config configure_gpio_source
apply_pin s = ground arith

apply_cached : (s : Service) → (apply_effective_config s).1.cached_config ≡ in_use s
unfolding apply_effective_config configure_gpio_source
apply_cached s = ground arith

apply-ArePut :
    (s : Service) (g : Pins)
    → IsReleased s.configured_gpio_pin g
    → ArePut (in_use s) (ask_all (apply_effective_config s).0 g)
unfolding apply_effective_config
apply-ArePut s g h =
    configure_gpio_source-ArePut (in_use s) (record s { cached_config = in_use s }) g h

apply-IsPut :
    (s : Service) (g : Pins)
    → IsReleased s.configured_gpio_pin g
    → IsPut (apply_effective_config s) g
apply-IsPut s g h =
    let put = apply-ArePut s g h in
    record {
      released =
          subst (λ (o : Option ℕ). IsReleased o (ask_all (apply_effective_config s).0 g))
            (sym (apply_pin s)) put.released;
      put =
          subst (λ (c : Config). ArePut c (ask_all (apply_effective_config s).0 g))
            (sym (apply_cached s)) put;
    }

-- An operation that goes on to put another configuration in force.
then-IsPut :
    (calls : List GpioCall) (s t : Service) (g : Pins)
    → IsPut (calls, s) g
    → t.configured_gpio_pin ≡ s.configured_gpio_pin
    → IsPut (calls ++ (apply_effective_config t).0, (apply_effective_config t).1) g
then-IsPut calls s t g h e =
    let more =
      apply-IsPut t (ask_all calls g)
        (subst (λ (o : Option ℕ). IsReleased o (ask_all calls g)) (sym e) h.released) in
    let all = sym (ask_all-append calls (apply_effective_config t).0 g) in
    record {
      released =
          subst (λ (x : Pins). IsReleased (apply_effective_config t).1.configured_gpio_pin x) all
            more.released;
      put = subst (λ (x : Pins). ArePut (apply_effective_config t).1.cached_config x) all more.put;
    }

module _ (defaults stored : Config) (g : Pins) where
  cache-IsPut : (s : Service) → Agrees s g → IsPut (cache_config_if_needed defaults stored s) g
  unfolding cache_config_if_needed
  cache-IsPut s h = elim (Bool-cases s.cached_config_ready) [
    | inl e ↦ rw (e) (record { released = h.released; put = h.put e })
    | inr e ↦
        let c = if config_is_valid stored then stored else defaults in
        let p = apply-IsPut (record s { persisted_config = c }) g h.released in
        let t : Service = record s { persisted_config = c } in
        let done : List GpioCall × Service = (
          (apply_effective_config t).0,
          record (apply_effective_config t).1 { cached_config_ready = true },
        ) in
        let shape : cache_config_if_needed defaults stored s ≡ done =
          rw (e, cache_config_if_needed) refl in
        subst (λ (x : List GpioCall × Service). IsPut x g) (sym shape)
          (record { released = p.released; put = p.put })
  ]

  pub init-IsPut : (s : Service) → Agrees s g → IsPut (user_presence_init defaults stored s) g
  unfolding user_presence_init
  init-IsPut s h =
      cache-IsPut (record s { cached_config_ready = false })
        (record { released = h.released; put = λ e. cc })

  pub enabled-IsPut :
      (s : Service)
      → Agrees s g
      → IsPut ((is_enabled defaults stored s).1, (is_enabled defaults stored s).2) g
  unfolding is_enabled
  enabled-IsPut s h = cache-IsPut s h

  pub get_config-IsPut :
      (s : Service)
      → Agrees s g
      → IsPut ((get_config defaults stored s).1, (get_config defaults stored s).2) g
  unfolding get_config
  get_config-IsPut s h = cache-IsPut s h

  pub set_config-IsPut :
      (saved : Bool) (c : Config) (s : Service)
      → Agrees s g
      → IsPut ((set_config defaults stored saved c s).1, (set_config defaults stored saved c s).2) g
  unfolding set_config
  set_config-IsPut saved c s h =
      let (calls, s') = cache_config_if_needed defaults stored s in
      let p = cache-IsPut s h in
      let q = then-IsPut calls s' (record s' { persisted_config = c }) g p refl in
      elim (Bool-cases (not (config_is_valid c) || not saved)) [
        | inl e ↦ rw (e) p
        | inr e ↦ rw (e) (record { released = q.released; put = q.put })
      ]

  set_session_config-IsPut :
      (c : Config) (s : Service)
      → Agrees s g
      → config_is_valid c ≡ true
      → IsPut
          ((set_session_config defaults stored c s).1, (set_session_config defaults stored c s).2)
          g
  unfolding set_session_config
  set_session_config-IsPut c s h v =
      let (calls, s') = cache_config_if_needed defaults stored s in
      let t : Service = record s' { session_config = c; session_config_active = true } in
      rw (v) (then-IsPut calls s' t g (cache-IsPut s h) refl)

  pub clear_session_config-IsPut :
      (s : Service) → Agrees s g → IsPut (clear_session_config defaults stored s) g
  unfolding clear_session_config
  clear_session_config-IsPut s h =
      let (calls, s') = cache_config_if_needed defaults stored s in
      let p = cache-IsPut s h in
      elim (Bool-cases s'.session_config_active) [
        | inl e ↦
            rw (e) (then-IsPut calls s' (record s' { session_config_active = false }) g p refl)
        | inr e ↦ rw (e) p
      ]

-- With whatever flag the result has, the pins agree with it.
pub IsPut-Agrees : (x : List GpioCall × Service) (g : Pins) → IsPut x g → Agrees x.1 (ask_all x.0 g)
IsPut-Agrees x g h = record { released = h.released; put = λ e. h.put }

-- An invalid override is refused before anything is loaded.
pub set_session_config-Agrees :
    (defaults stored : Config) (g : Pins) (c : Config) (s : Service)
    → Agrees s g
    → let x = set_session_config defaults stored c s in Agrees x.2 (ask_all x.1 g)
unfolding set_session_config
set_session_config-Agrees defaults stored g c s h = elim (Bool-cases (config_is_valid c)) [
  | inl e ↦
      let x = set_session_config defaults stored c s in
      IsPut-Agrees (x.1, x.2) g (set_session_config-IsPut defaults stored g c s h e)
  | inr e ↦ rw (e) h
]
