-- ===== src/UserPresence/Service/Pins.antt =====
-- What the calls of the SDK that src/user_presence.c makes ask of the pins of the chip.
use meow_key.Prelude.{ℕ, Bool, true, false, List, [], ◌∷◌, ◌++◌, ◌==◌, if◌then◌else◌}
use meow_key.Prelude.{
  Option, none, some, ◌≡◌, ◌≢◌, refl, ap, ◌∙◌, arith, inl, inr, Bool-cases, ==_iff,
}
use meow_key.UserPresence.Config.{Config}
use meow_key.UserPresence.Service.{
  GpioCall, disable_pulls, init, set_dir_in, pull_up, pull_down, Service, wants_gpio, release_gpio,
  setup_gpio, configure_gpio_source,
}

pub data Pull : Type 0 where
  off up down : Pull

-- What was asked of a pin so far: that it be initialised, that it be an input, and last its pull.
pub record Pin : Type 0 where
  pub initialised : Bool
  pub input : Bool
  pub pull : Pull

abbrev pub Pins : Type 0
Pins = ℕ → Pin

abbrev pub at_pin : ℕ → (Pin → Pin) → Pins → Pins
at_pin k f g = λ j. if j == k then f (g j) else g j

abbrev pub ask : GpioCall → Pins → Pins
ask (disable_pulls k) g = at_pin k (λ x. record x { pull = off }) g
ask (init k) g = at_pin k (λ x. record x { initialised = true }) g
ask (set_dir_in k) g = at_pin k (λ x. record x { input = true }) g
ask (pull_up k) g = at_pin k (λ x. record x { pull = up }) g
ask (pull_down k) g = at_pin k (λ x. record x { pull = down }) g

-- All the calls, in their order.
abbrev pub ask_all : List GpioCall → Pins → Pins
ask_all [] g = g
ask_all (c ∷ cs) g = ask_all cs (ask c g)

pub ask_all-append :
    (xs ys : List GpioCall) (g : Pins) → ask_all (xs ++ ys) g ≡ ask_all ys (ask_all xs g)
ask_all-append [] ys g = refl
ask_all-append (x ∷ xs) ys g = ask_all-append xs ys (ask x g)

-- A pin that a configuration reads the button from.
abbrev pub wanted_pin : Config → Pin
wanted_pin c = record {
  initialised = true;
  input = true;
  pull = if c.gpio_active_low == 0 then down else up;
}

-- Every pin but this one is without a pull.
abbrev pub IsReleased : Option ℕ → Pins → Type 0
IsReleased o g = (j : ℕ) → o ≢ some j → (g j).pull ≡ off

-- The pins after a configuration was put in force: the one that it reads, if any, and the others.
pub record ArePut (c : Config) (g : Pins) : Type 0 where
  pub set_up : wants_gpio c ≡ true → g c.gpio_pin ≡ wanted_pin c
  pub released : IsReleased (if wants_gpio c then some c.gpio_pin else none) g

at_pin-here : (k : ℕ) (f : Pin → Pin) (g : Pins) → at_pin k f g k ≡ f (g k)
at_pin-here k f g = let e : (k == k) ≡ true = (==_iff k k).1 refl in rw (e) refl

at_pin_other : (k j : ℕ) (f : Pin → Pin) (g : Pins) → k ≢ j → at_pin k f g j ≡ g j
at_pin_other k j f g h = let e : (j == k) ≡ false = ground arith in rw (e) refl

-- The pin that was set up before gives its pull back.
release_gpio-off :
    (o : Option ℕ) (g : Pins) → IsReleased o g → (j : ℕ) → (ask_all (release_gpio o) g j).pull ≡ off
unfolding release_gpio
release_gpio-off none g h j = h j (λ e. cc)
release_gpio-off (some k) g h j = elim (Bool-cases (j == k)) [
  | inl e ↦ rw (e) refl
  | inr e ↦ rw (e) (h j (λ q. (let same : k ≡ j = cc in absurd (ground (arith, e)))))
]

setup_gpio-set_up : (c : Config) (g : Pins) → ask_all (setup_gpio c) g c.gpio_pin ≡ wanted_pin c
unfolding setup_gpio
setup_gpio-set_up c g =
    let e : (c.gpio_pin == c.gpio_pin) ≡ true = (==_iff c.gpio_pin c.gpio_pin).1 refl in
    elim (Bool-cases (c.gpio_active_low == 0)) [ inl t ↦ rw (t, e) refl | inr t ↦ rw (t, e) refl ]

setup_gpio_other :
    (c : Config) (g : Pins) (j : ℕ) → c.gpio_pin ≢ j → ask_all (setup_gpio c) g j ≡ g j
unfolding setup_gpio
setup_gpio_other c g j h =
    let e : (j == c.gpio_pin) ≡ false = ground arith in
    elim (Bool-cases (c.gpio_active_low == 0)) [ inl t ↦ rw (t, e) refl | inr t ↦ rw (t, e) refl ]

pub configure_gpio_source-ArePut :
    (c : Config) (s : Service) (g : Pins)
    → IsReleased s.configured_gpio_pin g
    → ArePut c (ask_all (configure_gpio_source c s).0 g)
unfolding configure_gpio_source
configure_gpio_source-ArePut c s g h = elim (Bool-cases (wants_gpio c)) [
  | inl e ↦ record {
    set_up = λ q. rw (e) (
        ap (λ (x : Pins). x c.gpio_pin)
          (ask_all-append (release_gpio s.configured_gpio_pin) (setup_gpio c) g)
        ∙ setup_gpio-set_up c (ask_all (release_gpio s.configured_gpio_pin) g));
    released = λ j. rw (e) (λ other.
        ap (λ (x : Pins). (x j).pull)
          (ask_all-append (release_gpio s.configured_gpio_pin) (setup_gpio c) g)
        ∙ ap (λ (x : Pin). x.pull)
            (setup_gpio_other c (ask_all (release_gpio s.configured_gpio_pin) g) j
              (λ q. other (ap some q)))
        ∙ release_gpio-off s.configured_gpio_pin g h j);
  }
  | inr e ↦ record {
    set_up = λ q. cc;
    released = λ j. rw (e) (λ other. release_gpio-off s.configured_gpio_pin g h j);
  }
]
