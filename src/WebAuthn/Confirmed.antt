-- ===== src/WebAuthn/Confirmed.antt =====
-- The confirmation that an answer of the getAssertion of src/webauthn.c has had.
use meow_key.Prelude.{ℕ, Bool, true, false, ◌&&◌, not, List, Option}
use meow_key.Prelude.{◌==◌, if◌then◌else◌, ◌≡◌, refl, ap, ◌⊎◌, inl, inr}
use meow_key.ClientPin.Crypto.{Primitives}
use meow_key.ClientPin.Responses.{Reply, failure}
use meow_key.Store.Slots.{Store}
use meow_key.WebAuthn.GetRequest.{GetRequest}
use meow_key.WebAuthn.Assertion.{respond_with_assertion}
use meow_key.WebAuthn.Answered.{Answered, respond_with_assertion-Answered}
use meow_key.WebAuthn.Matching.{}
use meow_key.WebAuthn.Outcome.{status-outcome}
use meow_key.WebAuthn.Session.{Session, Call}
use meow_key.WebAuthn.Confirmation.{
  RecentUp, consume_recent_assertion_up_if_matching, arm_recent_assertion_up,
}
use meow_key.WebAuthn.Assertions.{respond_from, respond_and_arm, confirm_then_respond}

module _ (p : Primitives) (sign : List ℕ → List ℕ → Option (List ℕ))
    (image : GetRequest → List ℕ) where
  -- An answer from a slot, after a wait that ends with OK, or after one that the same request has had just before.
  pub record Confirmed (c : Call) (key : List ℕ) (request : GetRequest) (slot_index : ℕ)
      (number : Option ℕ) (capacity : ℕ) (s : Session) (out : List ℕ) (store' : Store)
      : Type 0 where
    pub answered :
        Answered p s.pin.key_agreement sign c.commits request slot_index number capacity s.store out
          store'
    pub confirmed :
        (c.wait_status ≡ 0)
        ⊎ ((consume_recent_assertion_up_if_matching c.asked_ms key s.recent).0 ≡ true)

  armed-store :
      (c : Call) (key : List ℕ) (reused : Bool) (request : GetRequest) (slot_index : ℕ)
      (number : Option ℕ) (capacity : ℕ) (s : Session) (out : List ℕ) (s' : Session)
      → respond_and_arm p sign image c key reused request slot_index number capacity s
        ≡ ((0, out), s')
      → respond_with_assertion p s.pin.key_agreement sign c.commits request slot_index number
          capacity s.store
        ≡ ((0, out), s'.store)
  unfolding respond_and_arm respond_from
  armed-store c key reused request slot_index number capacity s out s' e = go _ e
    where
      answer : Reply × Store
      answer =
          respond_with_assertion p s.pin.key_agreement sign c.commits request slot_index number
            capacity s.store

      armed : Session
      armed = record s { store = answer.1; recent = arm_recent_assertion_up c.granted_ms key }

      unarmed : Session
      unarmed = record s { store = answer.1 }

      reply : Session → Reply × Session
      reply x = (answer.0, x)

      go :
          (b : Bool)
          → (if b then reply armed else reply unarmed) ≡ ((0, out), s')
          → answer ≡ ((0, out), s'.store)
      go true q = ap (λ (x : Reply × Session). (x.0, x.1.store)) q
      go false q = ap (λ (x : Reply × Session). (x.0, x.1.store)) q

  pub confirm-Confirmed :
      (c : Call) (key : List ℕ) (request : GetRequest) (slot_index : ℕ) (number : Option ℕ)
      (capacity : ℕ) (s : Session) (out : List ℕ) (s' : Session)
      → confirm_then_respond p sign image c key request slot_index number capacity s
        ≡ ((0, out), s')
      → Confirmed c key request slot_index number capacity s out s'.store
  unfolding confirm_then_respond
  confirm-Confirmed c key request slot_index number capacity s out s' e =
      go (consume_recent_assertion_up_if_matching c.asked_ms key s.recent) refl e
    where
      go :
          (o : Bool × RecentUp)
          → consume_recent_assertion_up_if_matching c.asked_ms key s.recent ≡ o
          → (if not o.0 && not (c.wait_status == 0)
              then (failure c.wait_status, record s { recent = o.1 })
              else respond_and_arm p sign image c key o.0 request slot_index number capacity
                  (record s { recent = o.1 }))
            ≡ ((0, out), s')
          → Confirmed c key request slot_index number capacity s out s'.store
      go (true, recent) q e = record {
        answered =
            respond_with_assertion-Answered p s.pin.key_agreement sign c.commits request slot_index
              number capacity s.store out s'.store
              (armed-store c key true request slot_index number capacity
                (record s { recent = recent }) out s' e);
        confirmed = inr (ap (λ (x : Bool × RecentUp). x.0) q);
      }
      go (false, recent) q e =
          let (ok, e1) = status-outcome c.wait_status (record s { recent = recent }) _ out s' e in
          record {
            answered =
                respond_with_assertion-Answered p s.pin.key_agreement sign c.commits request
                  slot_index number capacity s.store out s'.store
                  (armed-store c key false request slot_index number capacity
                    (record s { recent = recent }) out s' e1);
            confirmed = inl ok;
          }
