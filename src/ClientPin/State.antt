-- ===== src/ClientPin/State.antt =====
-- The state of src/client_pin.c, its status codes, and what a call meets outside it.
use meow_key.Prelude.{ℕ, Bool, List, Option}

-- CTAP2_ERR_*
abbrev pub status_ok : ℕ
status_ok = 0x00

abbrev pub err_invalid_cbor : ℕ
err_invalid_cbor = 0x12

abbrev pub err_missing_parameter : ℕ
err_missing_parameter = 0x14

abbrev pub err_unsupported_option : ℕ
err_unsupported_option = 0x2b

abbrev pub err_pin_invalid : ℕ
err_pin_invalid = 0x31

abbrev pub err_pin_blocked : ℕ
err_pin_blocked = 0x32

abbrev pub err_pin_auth_invalid : ℕ
err_pin_auth_invalid = 0x33

abbrev pub err_pin_not_set : ℕ
err_pin_not_set = 0x35

abbrev pub err_pin_required : ℕ
err_pin_required = 0x36

abbrev pub err_pin_policy_violation : ℕ
err_pin_policy_violation = 0x37

abbrev pub err_pin_token_expired : ℕ
err_pin_token_expired = 0x38

abbrev pub retries_default : ℕ
retries_default = 8

abbrev pub token_lifetime_ms : ℕ
token_lifetime_ms = 30000

-- `meowkey_pin_state_t`
pub record PinState : Type 0 where
  pub configured : Bool
  pub retries : ℕ
  pub pin_hash : List ℕ

-- The static variables, each array with its `ready` flag as an option, the token with the time at
-- which it was issued; and the PIN state that the credential store keeps.
pub record State : Type 0 where
  pub key_agreement : Option (List ℕ × List ℕ)
  pub runtime_pin_token : Option (List ℕ × ℕ)
  pub pin : PinState

-- What a call meets: the clock, 32 random bytes, the key pair that a generation would give, and
-- whether the credential store's commit goes through.
pub record Env : Type 0 where
  pub now_ms : ℕ
  pub random_token : List ℕ
  pub keypair : Option (List ℕ × List ℕ)
  pub commits : Bool
