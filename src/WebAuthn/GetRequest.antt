-- ===== src/WebAuthn/GetRequest.antt =====
-- The parameters of getAssertion, and how src/webauthn.c reads them from CBOR.
use meow_key.Prelude.{ℕ, zero, suc, Bool, true, false, List, Option, none, some}
use meow_key.Prelude.{◌==◌, if◌then◌else◌, codes, ℤ, pos, negsuc}
use meow_key.ClientPin.Request.{to_byte, shown, bounded_bytes, parse_key_agreement_map}
use meow_key.Cbor.Reader.{M, ◌>>=◌, pure, check, read_map_start, read_array_start, read_int}
use meow_key.Cbor.Reader.{read_bytes, read_text}
use meow_key.WebAuthn.Entries.{
  loop, is_text, Bytes, copy_view_to_string, copy_view_to_bytes, ignore, has,
}
use meow_key.WebAuthn.MakeRequest.{parse_options_map}

-- `get_assertion_request_t`; a field is `none` while its flag is false, and the rp's id too until the
-- parser has seen it.
pub record GetRequest : Type 0 where
  pub client_data_hash : Option (List ℕ)
  pub rp_id : Option Bytes
  pub allow_credential_id : Option Bytes
  pub require_user_verification : Bool
  pub hmac_secret_requested : Bool
  pub hmac_secret_protocol : Option ℕ
  pub hmac_secret_key_agreement : Option (List ℕ)
  pub hmac_secret_salt_enc : Option Bytes
  pub hmac_secret_salt_auth : Option Bytes
  pub user_verified : Bool
  pub pin_uv_auth_param : Option (List ℕ)
  pub pin_uv_auth_protocol : ℕ

abbrev pub no_get_request : GetRequest
no_get_request = record {
  client_data_hash = none;
  rp_id = none;
  allow_credential_id = none;
  require_user_verification = false;
  hmac_secret_requested = false;
  hmac_secret_protocol = none;
  hmac_secret_key_agreement = none;
  hmac_secret_salt_enc = none;
  hmac_secret_salt_auth = none;
  user_verified = false;
  pin_uv_auth_param = none;
  pin_uv_auth_protocol = 0;
}

module _ (fuel : ℕ) where
  -- `parse_hmac_secret_key_agreement`, the same code as in src/client_pin.c.
  unfoldable pub parse_hmac_secret_key_agreement : M (List ℕ)
  parse_hmac_secret_key_agreement = parse_key_agreement_map fuel

  unfoldable pub hmac_secret_entry : ℤ → GetRequest → M GetRequest
  hmac_secret_entry (negsuc n) r = ignore fuel r
  hmac_secret_entry (pos key) r =
      if key == 1
      then (read_int >>= λ v. pure (record r { hmac_secret_protocol = some (to_byte v) }))
      else if key == 2
      then (parse_hmac_secret_key_agreement >>= λ k.
          pure (record r { hmac_secret_key_agreement = some k }))
      else if key == 3
      then (read_bytes >>= λ v.
          copy_view_to_bytes 64 v >>= λ b. pure (record r { hmac_secret_salt_enc = some b }))
      else if key == 4
      then (read_bytes >>= λ v.
          copy_view_to_bytes 32 v >>= λ b. pure (record r { hmac_secret_salt_auth = some b }))
      else ignore fuel r

  unfoldable pub parse_get_assertion_hmac_secret : GetRequest → M GetRequest
  parse_get_assertion_hmac_secret r = read_map_start >>= λ count.
      loop (λ s. read_int >>= λ key. hmac_secret_entry key s) count
        (record r { hmac_secret_requested = true })

  unfoldable pub get_extension : GetRequest → M GetRequest
  get_extension r = read_text >>= λ key.
      if is_text (codes "hmac-secret") key then parse_get_assertion_hmac_secret r else ignore fuel r

  unfoldable pub parse_get_assertion_extensions : GetRequest → M GetRequest
  parse_get_assertion_extensions r = read_map_start >>= λ count. loop get_extension count r

  unfoldable pub allow_entry : GetRequest → M GetRequest
  allow_entry r = read_text >>= λ key.
      if is_text (codes "id") key
      then (read_bytes >>= λ v.
          copy_view_to_bytes 32 v >>= λ b. pure (record r { allow_credential_id = some b }))
      else ignore fuel r

  -- The loop ends at the first credential.
  unfoldable pub allow_descriptors : ℕ → GetRequest → M GetRequest
  allow_descriptors zero r = pure r
  allow_descriptors (suc count) r = read_map_start >>= λ pairs. loop allow_entry pairs r >>= λ s.
      let rest = allow_descriptors count s in if has s.allow_credential_id then pure s else rest

  unfoldable pub parse_allow_list : GetRequest → M GetRequest
  parse_allow_list r = read_array_start >>= λ count. allow_descriptors count r

  -- One entry of the request, by its key.
  unfoldable pub get_entry : ℤ → GetRequest → M GetRequest
  get_entry (negsuc n) r = ignore fuel r
  get_entry (pos key) r =
      if key == 1
      then (read_text >>= λ v. copy_view_to_string 64 v >>= λ b. pure (record r { rp_id = some b }))
      else if key == 2
      then (read_bytes >>= λ v.
          check (v.length == 32) >>= λ _. pure (record r { client_data_hash = some (shown v) }))
      else if key == 3
      then parse_allow_list r
      else if key == 4
      then parse_get_assertion_extensions r
      else if key == 5
      then (parse_options_map fuel (false, r.require_user_verification) >>= λ o.
          pure (record r { require_user_verification = o.1 }))
      else if key == 6
      then (bounded_bytes 32 >>= λ b. pure (record r { pin_uv_auth_param = some b }))
      else if key == 7
      then (read_int >>= λ v. pure (record r { pin_uv_auth_protocol = to_byte v }))
      else ignore fuel r

  unfoldable pub next_get_entry : GetRequest → M GetRequest
  next_get_entry r = read_int >>= λ key. get_entry key r

  unfoldable pub get_entries : M GetRequest
  get_entries = read_map_start >>= λ count. loop next_get_entry count no_get_request
