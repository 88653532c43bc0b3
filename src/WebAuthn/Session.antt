-- ===== src/WebAuthn/Session.antt =====
-- The state of src/webauthn.c with what it uses of the other files, and the makeCredential handler.
use meow_key.Prelude.{ℕ, Bool, true, false, not, List, [], Option, none, some}
use meow_key.Prelude.{length, ◌==◌, if◌then◌else◌}
use meow_key.ClientPin.Crypto.{Primitives}
use meow_key.ClientPin.Responses.{Reply, failure}
use meow_key.ClientPin.State.{State}
use meow_key.Store.Slot.{CredentialRecord}
use meow_key.Store.Slots.{Store, store_add_credential}
use meow_key.WebAuthn.MakeRequest.{MakeRequest}
use meow_key.WebAuthn.GetRequest.{GetRequest, no_get_request}
use meow_key.WebAuthn.Verified.{parse_make_credential_request}
use meow_key.WebAuthn.AuthData.{build_make_credential_response}
use meow_key.WebAuthn.Pending.{Pending}
use meow_key.WebAuthn.Confirmation.{RecentUp, clear_recent_assertion_up}

-- The client PIN, the loaded store, `s_pending_assertion` and `s_recent_assertion_up`.
pub record Session : Type 0 where
  pub pin : State
  pub store : Store
  pub pending : Pending GetRequest
  pub recent : RecentUp

-- What one call meets: the readings of the clock at the check of the authentication parameter, at the
-- look at the recent touch, when that is armed, and at the end; the status of the wait for a touch;
-- whether the flash takes what the store writes; the pair of keys that mbedtls generates, a scalar of
-- 32 bytes and a point; and the random bytes.
pub record Call : Type 0 where
  pub verified_ms : ℕ
  pub asked_ms : ℕ
  pub granted_ms : ℕ
  pub used_ms : ℕ
  pub wait_status : ℕ
  pub commits : Bool
  pub keypair : Option (List ℕ × List ℕ)
  pub credential_id : List ℕ
  pub random_with_uv : List ℕ
  pub random_without_uv : List ℕ

-- `clear_pending_assertion`
abbrev pub no_pending : Pending GetRequest
no_pending = record {
  active = false;
  request = no_get_request;
  slot_indices = [];
  credential_count = 0;
  next_index = 0;
  last_used_ms = 0;
}

-- The record that `meowkey_webauthn_make_credential` fills from the request, before the key.
unfoldable pub requested_record : MakeRequest → CredentialRecord
requested_record r = record {
  sign_count = 0;
  discoverable = false;
  cred_random_ready = false;
  credential_id_length = 0;
  private_key_length = 0;
  rp_id_length = r.rp_id.size;
  user_id_length = r.user_id.size;
  user_name_length = r.user_name.size;
  display_name_length = r.display_name.size;
  credential_id = [];
  private_key = [];
  cred_random_with_uv = [];
  cred_random_without_uv = [];
  rp_id = r.rp_id.content;
  user_id = r.user_id.content;
  user_name = r.user_name.content;
  display_name = r.display_name.content;
}

-- The record and the public key, or `none` for `CTAP2_ERR_INVALID_CBOR`.
unfoldable pub generate_credential : Call → CredentialRecord → Option (CredentialRecord × List ℕ)
generate_credential c r = elim c.keypair [
  | none ↦ none
  | some (private, public) ↦
      if not (length public == 65)
      then none
      else some (
        record r {
          private_key = private;
          credential_id = c.credential_id;
          cred_random_with_uv = c.random_with_uv;
          cred_random_without_uv = c.random_without_uv;
          private_key_length = 32;
          credential_id_length = 32;
          sign_count = 0;
          discoverable = true;
          cred_random_ready = true;
        },
        public,
      )
]

module _ (p : Primitives) where
  unfoldable pub add_and_respond :
      Bool → MakeRequest → CredentialRecord → List ℕ → ℕ → Session → Reply × Session
  add_and_respond commits request r public_key capacity s =
      let (added, store) = store_add_credential commits r s.store in
      let s' : Session = record s { store = store } in
      elim added [
        | none ↦ (failure 0x28, s')
        | some slot ↦ (build_make_credential_response p r request public_key capacity, s')
      ]

  -- `meowkey_webauthn_make_credential` after the confirmation.
  unfoldable pub create_credential : Call → MakeRequest → ℕ → Session → Reply × Session
  create_credential c request capacity s = elim (generate_credential c (requested_record request)) [
    | none ↦ (failure 0x12, s)
    | some (r, public_key) ↦ add_and_respond c.commits request r public_key capacity s
  ]

  unfoldable pub confirmed_create : Call → MakeRequest → ℕ → Session → Reply × Session
  confirmed_create c request capacity s =
      let s' : Session = record s { pending = no_pending; recent = clear_recent_assertion_up } in
      if not (c.wait_status == 0)
      then (failure c.wait_status, s')
      else create_credential c request capacity s'

  -- `meowkey_webauthn_make_credential`, once the store is loaded; `none` says that the fuel of `skip`
  -- ran out.
  unfoldable pub make_credential : ℕ → Call → List ℕ → ℕ → ℕ → Session → Option (Reply × Session)
  make_credential fuel c request request_length capacity s =
      elim (parse_make_credential_request p fuel c.verified_ms s.store request request_length
        s.pin) [
          | none ↦ none
          | some (status, parsed, pin) ↦ some (
              let s' : Session = record s { pin = pin } in
              if not (status == 0)
              then (failure status, s')
              else confirmed_create c parsed capacity s')
        ]
