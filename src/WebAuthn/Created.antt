-- ===== src/WebAuthn/Created.antt =====
-- The credentials that the makeCredential of src/webauthn.c creates.
use meow_key.Prelude.{ℕ, true, false, not, List, none, some}
use meow_key.Prelude.{length, get_or, set, ◌==◌, ◌≡◌, refl, ap, ◌∙◌, arith}
use meow_key.ClientPin.Crypto.{Primitives}
use meow_key.ClientPin.State.{State}
use meow_key.Store.Slot.{
  CredentialRecord, Slot, blank, slot_is_valid, copy_record_to_slot, IsStorable,
}
use meow_key.Store.Slots.{Store, store_get_credential_by_slot}
use meow_key.UserPresence.Wait.Taps.{Waited, IsTouched}
use meow_key.WebAuthn.MakeRequest.{MakeRequest}
use meow_key.WebAuthn.Verified.{parse_make_credential_request}
use meow_key.WebAuthn.AuthData.{build_make_credential_response}
use meow_key.WebAuthn.Outcome.{some-outcome, if-outcome}
use meow_key.WebAuthn.Accepted.{Accepted}
use meow_key.WebAuthn.Session.{Session, Call, no_pending, requested_record, generate_credential}
use meow_key.WebAuthn.Confirmation.{clear_recent_assertion_up}

-- The record for a request and a pair of keys.
unfoldable pub created_record : Call → MakeRequest → List ℕ → CredentialRecord
unfolding requested_record
created_record c request private = record (requested_record request) {
  private_key = private;
  credential_id = c.credential_id;
  cred_random_with_uv = c.random_with_uv;
  cred_random_without_uv = c.random_without_uv;
  private_key_length = 32;
  credential_id_length = 32;
  sign_count = 0;
  discoverable = true;
  cred_random_ready = true;
}

pub created-IsStorable :
    (c : Call) (request : MakeRequest) (private : List ℕ)
    → Accepted request
    → IsStorable (created_record c request private)
unfolding created_record requested_record
created-IsStorable c request private a = record {
  some_id = omega arith;
  id = omega arith;
  key = refl;
  some_rp = a.some_rp;
  rp = a.rp;
  user = a.user;
  name = a.name;
  display = a.display;
}

module _ (p : Primitives) where
  -- A credential for a request in a slot that was free: the store gives it back, the response tells of
  -- its public key, and what the confirmations of assertions have kept is gone.
  pub record Created (c : Call) (request : MakeRequest) (capacity : ℕ) (s : Session) (out : List ℕ)
      (s' : Session) : Type 0 where
    pub confirmed : c.wait_status ≡ 0
    pub private : List ℕ
    pub public_key : List ℕ
    pub generated : c.keypair ≡ some (private, public_key)
    pub slot : ℕ
    pub held : store_get_credential_by_slot slot s'.store ≡ some (created_record c request private)
    pub free : slot_is_valid (get_or s.store.slots slot blank) ≡ false
    pub only :
        s'.store.slots
        ≡ set s.store.slots slot (copy_record_to_slot (created_record c request private))
    pub told :
        build_make_credential_response p
          (created_record c request private)
          request
          public_key
          capacity
        ≡ (0, out)
    pub no_queue : s'.pending ≡ no_pending
    pub no_touch : s'.recent ≡ clear_recent_assertion_up

  pub generate-created :
      (c : Call) (request : MakeRequest) (r : CredentialRecord) (public_key : List ℕ)
      → generate_credential c (requested_record request) ≡ some (r, public_key)
      → (private : List ℕ) × (c.keypair ≡ some (private, public_key))
        × (r ≡ created_record c request private)
  unfolding generate_credential created_record
  generate-created c request r public_key e =
      let ((private, public), made, e1) =
        some-outcome c.keypair none _ (some (r, public_key)) e (λ q. absurd cc) in
      let (long, e2) =
        if-outcome (not (length public == 65)) none _ (some (r, public_key)) e1 (λ q. absurd cc) in
      let same : public ≡ public_key = cc in
      (private, made ∙ ap (λ (k : List ℕ). some (private, k)) same, cc)

  -- What `make_credential` finds in a request that it answers, and does.
  pub record Made (fuel : ℕ) (c : Call) (w : Waited c.wait_status) (input : List ℕ)
      (input_length capacity : ℕ) (s : Session) (out : List ℕ) (s' : Session) : Type 0 where
    pub request : MakeRequest
    pub pin : State
    pub parsed :
        parse_make_credential_request p fuel c.verified_ms s.store input input_length s.pin
        ≡ some (0, request, pin)
    pub created : Created c request capacity (record s { pin = pin }) out s'
    pub touched : IsTouched w
