-- ===== src/UserPresence/Wait/Taps.antt =====
-- The presses that a confirmation of src/user_presence.c rests on.
use meow_key.Prelude.{ℕ, ◌+◌, ◌≤◌, ◌<◌, Bool, true, false, ◌&&◌, not, List, [], ◌∷◌}
use meow_key.Prelude.{◌≡◌, ◌≢◌, arith, if◌then◌else◌, All, inl, inr, ◌⊎◌, ap, ◌∙◌, ◌==◌, Bool-cases}
use meow_key.UserPresence.Config.{Config}
use meow_key.UserPresence.Wait.{Sample, Wait, ended, confirmed, waiting}
use meow_key.UserPresence.Wait.{
  elapsed_ms, round, wait_loop, Round-cases, initial, wait_for_confirmation,
}

-- How often the button goes down in the readings, after a first reading `level`.
abbrev pub presses : Bool → List Sample → ℕ
presses level [] = 0
presses level (s ∷ later) = (if s.pressed && not level then 1 else 0) + presses s.pressed later

-- Until the button has been seen released, the last reading was a press.
abbrev IsReady : Wait → Type 0
IsReady w = w.armed ≡ false → w.last_pressed ≡ true

-- A round counts at most the press that it reads.
round-waiting :
    (c : Config) (s : Sample) (w v : Wait)
    → IsReady w
    → round c s w ≡ waiting v
    → IsReady v
      × (v.last_pressed ≡ s.pressed)
      × (v.taps_seen ≤ w.taps_seen + (if s.pressed && not w.last_pressed then 1 else 0))
unfolding round
round-waiting c s w v ready e = ground arith

round-confirmed :
    (c : Config) (s : Sample) (w : Wait)
    → IsReady w
    → 1 ≤ c.tap_count
    → round c s w ≡ confirmed
    → c.tap_count ≤ w.taps_seen + (if s.pressed && not w.last_pressed then 1 else 0)
unfolding round
round-confirmed c s w ready some e = ground arith

wait_loop-presses :
    (c : Config) (start_ms : ℕ) (samples : List Sample) (w : Wait)
    → IsReady w
    → 1 ≤ c.tap_count
    → wait_loop c start_ms samples w ≡ ended 0
    → c.tap_count ≤ w.taps_seen + presses w.last_pressed samples
unfolding wait_loop
wait_loop-presses c start_ms [] w ready some e = cc
wait_loop-presses c start_ms (s ∷ later) w ready some e = elim (Round-cases (round c s w)) [
  | inl p ↦ omega (arith, round-confirmed c s w ready some p)
  | inr (v, p) ↦
      ground (arith, p, round-waiting c s w v ready p, wait_loop-presses c start_ms later v)
]

-- With a source set up and at least one tap asked for, a confirmation needs as many presses of the button as the configuration
-- asks for, each after the button was seen released; a button held down from the start counts for
-- nothing.
pub wait_for_confirmation-presses :
    (c : Config) (start_ms : ℕ) (level : Bool) (samples : List Sample)
    → c.source ≢ 0
    → 1 ≤ c.tap_count
    → wait_for_confirmation c start_ms level samples ≡ ended 0
    → c.tap_count ≤ presses level samples
unfolding wait_for_confirmation
wait_for_confirmation-presses c start_ms level samples source some e =
    ground (arith, wait_loop-presses c start_ms samples (initial start_ms level))

-- A wait with what it has read, which ends with a status; the configuration asks for a tap at least.
pub record Waited (status : ℕ) : Type 0 where
  pub config : Config
  pub start_ms : ℕ
  pub level : Bool
  pub samples : List Sample
  pub some_tap : 1 ≤ config.tap_count
  pub ends : wait_for_confirmation config start_ms level samples ≡ ended status

-- No source is set up, or the button has been pressed as often as the configuration asks for.
abbrev pub IsTouched : {status : ℕ} → Waited status → Type 0
IsTouched w = (w.config.source ≡ 0) ⊎ (w.config.tap_count ≤ presses w.level w.samples)

-- A wait that ends with OK has had its presses, where there is a source.
pub Waited-IsTouched : (status : ℕ) (w : Waited status) → status ≡ 0 → IsTouched w
Waited-IsTouched status w ok = elim (Bool-cases (w.config.source == 0)) [
  | inl t ↦ inl (ground (arith, t))
  | inr t ↦ inr (
      wait_for_confirmation-presses w.config w.start_ms w.level w.samples
        (λ q. ground (arith, t, q)) w.some_tap (w.ends ∙ ap ended ok))
]

-- The clock has not run out in any round.
abbrev pub InTime : Config → ℕ → Sample → Type 0
InTime c start_ms s = elapsed_ms start_ms s.check_ms < c.request_timeout_ms

-- A press confirms at once where one tap is asked for.
round_press :
    (c : Config) (s : Sample) (w v : Wait)
    → c.tap_count ≡ 1
    → IsReady w
    → round c s w ≡ waiting v
    → (s.pressed && not w.last_pressed) ≡ false
unfolding round
round_press c s w v one ready e = ground arith

wait_loop_single :
    (c : Config) (start_ms : ℕ) (samples : List Sample) (w : Wait)
    → c.tap_count ≡ 1
    → IsReady w
    → All (InTime c start_ms) samples
    → 1 ≤ presses w.last_pressed samples
    → wait_loop c start_ms samples w ≡ ended 0
unfolding wait_loop
wait_loop_single c start_ms [] w one ready t h = absurd (omega arith)
wait_loop_single c start_ms (s ∷ later) w one ready t h = elim (Round-cases (round c s w)) [
  | inl p ↦ ground (arith, p)
  | inr (v, p) ↦ ground (
    arith,
    p,
    round_press c s w v one ready p,
    round-waiting c s w v ready p,
    wait_loop_single c start_ms later v,
  )
]

-- Where one tap is asked for, any press that is read while no reading of the clock is past the
-- limit confirms.
pub wait_for_confirmation_single :
    (c : Config) (start_ms : ℕ) (level : Bool) (samples : List Sample)
    → c.tap_count ≡ 1
    → All (InTime c start_ms) samples
    → 1 ≤ presses level samples
    → wait_for_confirmation c start_ms level samples ≡ ended 0
unfolding wait_for_confirmation
wait_for_confirmation_single c start_ms level samples one t h =
    ground (arith, wait_loop_single c start_ms samples (initial start_ms level))
