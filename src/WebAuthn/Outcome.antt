-- ===== src/WebAuthn/Outcome.antt =====
-- What the success of a chain of tests says of each of them.
use meow_key.Prelude.{
  ℕ, zero, suc, Bool, true, false, not, List, Option, none, some, if◌then◌else◌, ◌==◌,
}
use meow_key.Prelude.{◌≡◌, ◌≢◌, refl, ap, arith}
use meow_key.ClientPin.Responses.{Reply, failure}

module _ {A B : Type 0} where
  -- A result that is not the one for `none` is made of the content.
  pub some-outcome :
      (o : Option A) (failed : B) (next : A → B) (result : B)
      → elim o as (λ x. B) [ none ↦ failed | some a ↦ next a ] ≡ result
      → failed ≢ result
      → (a : A) × (o ≡ some a) × (next a ≡ result)
  some-outcome none failed next result e h = absurd (h e)
  some-outcome (some a) failed next result e h = (a, refl, e)

module _ {B : Type 0} where
  pub if-outcome :
      (b : Bool) (failed next result : B)
      → (if b then failed else next) ≡ result
      → failed ≢ result
      → (b ≡ false) × (next ≡ result)
  if-outcome true failed next result e h = absurd (h e)
  if-outcome false failed next result e h = (refl, e)

  -- A reply that is not a refusal has passed the test of a status.
  pub status-outcome :
      (status : ℕ) (state : B) (next : Reply × B) (out : List ℕ) (state' : B)
      → (if not (status == 0) then (failure status, state) else next) ≡ ((0, out), state')
      → (status ≡ 0) × (next ≡ ((0, out), state'))
  status-outcome zero state next out state' e = (refl, e)
  status-outcome (suc n) state next out state' e =
      absurd (ground (arith, ap (λ (x : Reply × B). x.0.0) e))

pub not-true : (b : Bool) → not b ≡ false → b ≡ true
not-true true e = refl
not-true false e = absurd cc

-- What both ways of a test keep, the test keeps.
module _ {A B : Type 0} (P : B → Type 0) where
  pub some-keeps :
      (o : Option A) (failed : B) (next : A → B)
      → P failed
      → ((a : A) → o ≡ some a → P (next a))
      → P (elim o as (λ x. B) [ none ↦ failed | some a ↦ next a ])
  some-keeps none failed next h k = h
  some-keeps (some a) failed next h k = k a refl

module _ {B : Type 0} (P : B → Type 0) where
  pub if-keeps :
      (b : Bool) (failed next : B)
      → (b ≡ true → P failed)
      → (b ≡ false → P next)
      → P (if b then failed else next)
  if-keeps true failed next h k = h refl
  if-keeps false failed next h k = k refl
