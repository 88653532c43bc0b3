-- ===== src/ClientPin/Retries.antt =====
-- What a request of src/client_pin.c can do to the PIN and its retries: the cases.
pub mod Checked
pub mod Requests
pub mod Blocked
use meow_key.Prelude.{
  ℕ, zero, suc, ◌-◌, ◌≤◌, ◌<◌, Bool, true, false, List, [], ◌∷◌, ◌++◌, Option, none, some,
}
use meow_key.Prelude.{◌≡◌, ◌≢◌, refl, ◌⊎◌, inl, inr, arith, take, length, not, ◌==◌, if◌then◌else◌}
use meow_key.Prelude.{Bool-cases, Option-cases, ap, ◌∙◌, sym}
use meow_key.ClientPin.Crypto.{
  Primitives, aes256_cbc_crypt, derive_shared_secret, constant_time_equal,
}
use meow_key.ClientPin.Request.{
  Request, Parsed, parsed, refused, unfinished, parse_client_pin_request,
}
use meow_key.ClientPin.State.{PinState, State, Env, retries_default}
use meow_key.ClientPin.Responses.{Reply, failure, set_pin_state, clear_runtime_pin_token}
use meow_key.ClientPin.Responses.{
  rotate_runtime_pin_token, load_key_agreement, build_key_agreement_response,
}
use meow_key.ClientPin.Checks.{PinHash, hashed, rejected, verify_pin_hash_or_consume_retry}
use meow_key.ClientPin.Checks.{validate_shared_secret_hmac, parse_new_pin_hash}
use meow_key.ClientPin.Handlers.{
  store_new_pin, set_pin_checked, handle_set_pin, change_pin_verified,
}
use meow_key.ClientPin.Handlers.{
  change_pin_checked, handle_change_pin, issue_token, get_pin_token_checked,
}
use meow_key.ClientPin.Handlers.{handle_get_pin_token, handle_subcommand, client_pin_handle}

module _ (p : Primitives) where
  -- The encrypted hash that comes with the request decrypts, under the secret shared with the peer,
  -- to the first 16 bytes of the stored hash of the PIN.
  pub record RightPin (st : State) (peer pin_hash_enc : List ℕ) : Type 0 where
    pub secret : List ℕ
    pub provided : List ℕ
    pub derived : derive_shared_secret p st.key_agreement peer ≡ some secret
    pub decrypted : aes256_cbc_crypt p false secret pin_hash_enc ≡ some provided
    pub same : constant_time_equal provided st.pin.pin_hash 16 ≡ true

  -- What a request does to the PIN state and to the token; `Carries` says which peer's key and which
  -- encrypted hash the request has.
  pub data Effect (Carries : List ℕ → List ℕ → Type 0) (st st' : State) : Type 0 where
    kept : st'.pin ≡ st.pin → st'.runtime_pin_token ≡ st.runtime_pin_token → Effect Carries st st'
    spent :
        st.pin.configured ≡ true
        → 0 < st.pin.retries
        → st'.pin ≡ record (st.pin) { retries = st.pin.retries - 1 }
        → st'.runtime_pin_token ≡ st.runtime_pin_token
        → Effect Carries st st'
    first_pin :
        st.pin.configured ≡ false
        → st'.pin.configured ≡ true
        → st'.pin.retries ≡ retries_default
        → Effect Carries st st'
    proved :
        (peer pin_hash_enc : List ℕ)
        → Carries peer pin_hash_enc
        → st.pin.configured ≡ true
        → 0 < st.pin.retries
        → RightPin st peer pin_hash_enc
        → st'.pin.configured ≡ true
        → st'.pin.retries ≡ retries_default
        → Effect Carries st st'

-- The fields 3 and 6 of the request, as its parser reads them.
pub record Carried (fuel : ℕ) (request : List ℕ) (request_length : ℕ) (peer pin_hash_enc : List ℕ)
    : Type 0 where
  pub protocol : ℕ
  pub subcommand : ℕ
  pub content : Request
  pub is_parsed :
      parse_client_pin_request fuel request request_length ≡ parsed protocol subcommand content
  pub from_peer : content.key_agreement ≡ some peer
  pub carries_hash : content.pin_hash_enc ≡ some pin_hash_enc
