-- ===== src/Store/Clean.antt =====
-- The payloads that the checks of src/credential_store.c after a load leave alone.
use meow_key.Prelude.{ℕ, zero, suc, ◌≤◌, ◌^◌, Bool, true, false, ◌&&◌, ◌||◌, not, List, [], ◌∷◌}
use meow_key.Prelude.{
  ◌≡◌, refl, sym, ap, ap₂, ◌∙◌, ◌<◌, ◌⊎◌, arith, inl, inr, Bool-cases, length, set, ◌==◌, ==_iff,
}
use meow_key.Prelude.{if◌then◌else◌}
use meow_key.UserPresence.Config.{config_is_valid}
use meow_key.Store.Slot.{Slot, blank, slot_is_valid, blank-invalid}
use meow_key.Store.Slots.{
  store_sanitize_slots, sanitized, sanitized_slots, wipes, valid_count, all_blank,
}
use meow_key.Store.Count.{IsCounted}
use meow_key.Store.Payload.{Fixed, Payload, Build, sanitize_user_presence_config, config_is_trusted}
use meow_key.Store.Payload.{
  mark_user_presence_provenance, provenance_is_known, current_provenance_flags,
}
use meow_key.Store.Load.{sanitize}
use meow_key.ClientPin.State.{PinState}
use meow_key.Store.Changes.{pin_stored}

-- No slot is to be wiped, the count is right, the settings are trusted, and attempts are left for a
-- PIN that is not set; an index of a slot fits 16 bits.
pub record IsClean (build : Build) (p : Payload) : Type 0 where
  pub kept : wipes p.credentials.slots ≡ false
  pub counted : IsCounted p.credentials
  pub settings : sanitize_user_presence_config build p.fixed ≡ (false, p.fixed)
  pub has_retries : (p.fixed.pin_retries == 0 && p.fixed.pin_configured == 0) ≡ false
  pub few : length p.credentials.slots ≤ 2 ^ 16

or_false : (a b : Bool) → (a || b) ≡ false → (a ≡ false) × (b ≡ false)
or_false true b e = absurd cc
or_false false b e = (refl, e)

picked :
    (valid free : Bool) (s t : Slot)
    → (not valid && not free) ≡ false
    → (if valid then s else if free then s else t) ≡ s
picked true free s t e = refl
picked false true s t e = refl
picked false false s t e = absurd cc

wipes-sanitized : (slots : List Slot) → wipes slots ≡ false → sanitized_slots slots ≡ slots
unfolding wipes sanitized_slots sanitized
wipes-sanitized [] e = refl
wipes-sanitized (s ∷ rest) e =
    let (here, later) = or_false (not (slot_is_valid s) && not (s.in_use == 0)) (wipes rest) e in
    ap₂ (λ t ts. t ∷ ts) (picked (slot_is_valid s) (s.in_use == 0) s blank here)
      (wipes-sanitized rest later)

pub IsClean-sanitize :
    (build : Build) (p : Payload) → IsClean build p → sanitize build p ≡ (false, p)
unfolding sanitize store_sanitize_slots
IsClean-sanitize build p c =
    let count : (p.credentials.credential_count == valid_count p.credentials.slots) ≡ true =
      (==_iff p.credentials.credential_count (valid_count p.credentials.slots)).1
        c.counted.counted in
    rw
      (
        c.settings,
        c.has_retries,
        c.kept,
        count,
        wipes-sanitized p.credentials.slots c.kept,
        sym c.counted.counted,
      )
      refl

wipes-set :
    (slots : List Slot) (i : ℕ) (s : Slot)
    → wipes slots ≡ false
    → (not (slot_is_valid s) && not (s.in_use == 0)) ≡ false
    → wipes (set slots i s) ≡ false
unfolding wipes
wipes-set [] i s e h = refl
wipes-set (t ∷ rest) zero s e h =
    let (here, later) = or_false (not (slot_is_valid t) && not (t.in_use == 0)) (wipes rest) e in
    rw (h, later) refl
wipes-set (t ∷ rest) (suc i) s e h =
    let (here, later) = or_false (not (slot_is_valid t) && not (t.in_use == 0)) (wipes rest) e in
    rw (here, wipes-set rest i s later h) refl

pub wipes-valid :
    (slots : List Slot) (i : ℕ) (s : Slot)
    → wipes slots ≡ false
    → slot_is_valid s ≡ true
    → wipes (set slots i s) ≡ false
wipes-valid slots i s e v = wipes-set slots i s e (rw (v) refl)

pub wipes-blank :
    (slots : List Slot) (i : ℕ) → wipes slots ≡ false → wipes (set slots i blank) ≡ false
unfolding blank
wipes-blank slots i e = wipes-set slots i blank e (rw (blank-invalid) refl)

pub wipes-all_blank : (slots : List Slot) → wipes (all_blank slots) ≡ false
unfolding wipes all_blank blank
wipes-all_blank [] = refl
wipes-all_blank (s ∷ rest) = rw (blank-invalid, wipes-all_blank rest) refl

-- Marked settings that are valid are trusted in the build that marks them.
pub mark-settings :
    (build : Build) (fixed : Fixed)
    → config_is_valid fixed.user_presence ≡ true
    → sanitize_user_presence_config build (mark_user_presence_provenance build fixed)
      ≡ (false, mark_user_presence_provenance build fixed)
unfolding sanitize_user_presence_config config_is_trusted provenance_is_known
    mark_user_presence_provenance current_provenance_flags
mark-settings build fixed v = elim (Bool-cases build.debug_hid) [
  | inl t ↦ rw (v, t) refl
  | inr t ↦ rw (v, t) refl
]

settings-trusted :
    (build : Build) (fixed : Fixed)
    → sanitize_user_presence_config build fixed ≡ (false, fixed)
    → (config_is_valid fixed.user_presence ≡ true) × (config_is_trusted build fixed ≡ true)
unfolding sanitize_user_presence_config
settings-trusted build fixed e = elim (Bool-cases (config_is_valid fixed.user_presence)) [
  | inr v ↦
      let no : (sanitize_user_presence_config build fixed).0 ≡ true =
        rw (v, sanitize_user_presence_config) refl in
      let absurdity : true ≡ false = sym no ∙ ap (λ x. x.0) e in absurd cc
  | inl v ↦ elim (Bool-cases (config_is_trusted build fixed)) [
    | inl t ↦ (v, t)
    | inr t ↦
        let no : (sanitize_user_presence_config build fixed).0 ≡ true =
          rw (v, t, sanitize_user_presence_config) refl in
        let absurdity : true ≡ false = sym no ∙ ap (λ x. x.0) e in absurd cc
  ]
]

pin-trusted :
    (build : Build) (pin : PinState) (fixed : Fixed)
    → config_is_trusted build (pin_stored pin fixed) ≡ config_is_trusted build fixed
unfolding config_is_trusted provenance_is_known
pin-trusted build pin fixed = refl

pub pin-settings :
    (build : Build) (pin : PinState) (fixed : Fixed)
    → sanitize_user_presence_config build fixed ≡ (false, fixed)
    → sanitize_user_presence_config build (pin_stored pin fixed) ≡ (false, pin_stored pin fixed)
unfolding sanitize_user_presence_config
pin-settings build pin fixed e =
    let (v, t) = settings-trusted build fixed e in
    rw (v, pin-trusted build pin fixed ∙ t, sanitize_user_presence_config) refl

and_false : (b : Bool) → (b && false) ≡ false
and_false true = refl
and_false false = refl

pub pin-retries :
    (pin : PinState) (fixed : Fixed)
    → (pin.configured ≡ true) ⊎ (0 < pin.retries)
    → ((pin_stored pin fixed).pin_retries == 0 && (pin_stored pin fixed).pin_configured == 0)
      ≡ false
pin-retries pin fixed (inl c) = rw (c) (and_false (pin.retries == 0))
pin-retries pin fixed (inr h) = let no : (pin.retries == 0) ≡ false = ground arith in rw (no) refl

pub marked-retries :
    (build : Build) (fixed : Fixed)
    → ((fixed.pin_retries == 0) && (fixed.pin_configured == 0)) ≡ false
    → ((mark_user_presence_provenance build fixed).pin_retries == 0
        && (mark_user_presence_provenance build fixed).pin_configured == 0)
      ≡ false
unfolding mark_user_presence_provenance
marked-retries build fixed e = e
