-- ===== src/WebAuthn/MakeRequest.antt =====
-- The parameters of makeCredential, and how src/webauthn.c reads them from CBOR.
use meow_key.Prelude.{ℕ, Bool, true, false, ◌&&◌, List, Option, none, some}
use meow_key.Prelude.{ltb, ◌==◌, if◌then◌else◌, codes, ℤ, pos, negsuc}
use meow_key.ClientPin.Request.{to_byte, is_int, shown, bounded_bytes}
use meow_key.Cbor.Reader.{M, ◌>>=◌, pure, check, read_map_start, read_array_start, read_int}
use meow_key.Cbor.Reader.{read_bool, read_bytes, read_text}
use meow_key.Store.Slot.{CredentialRecord}
use meow_key.Store.Slots.{Store, store_find_by_credential_id}
use meow_key.WebAuthn.Entries.{
  loop, is_text, Bytes, no_bytes, copy_view_to_string, copy_view_to_bytes, ignore,
}

-- `make_credential_request_t`, with the flags of `parse_make_credential_request` on what has been seen;
-- the client data's hash and the authentication parameter are `none` while their flags are false.
pub record MakeRequest : Type 0 where
  pub client_data_hash : Option (List ℕ)
  pub have_rp : Bool
  pub have_user : Bool
  pub rp_id : Bytes
  pub user_id : Bytes
  pub user_name : Bytes
  pub display_name : Bytes
  pub require_resident_key : Bool
  pub require_user_verification : Bool
  pub supports_es256 : Bool
  pub credential_excluded : Bool
  pub hmac_secret_requested : Bool
  pub user_verified : Bool
  pub pin_uv_auth_param : Option (List ℕ)
  pub pin_uv_auth_protocol : ℕ

abbrev pub no_make_request : MakeRequest
no_make_request = record {
  client_data_hash = none;
  have_rp = false;
  have_user = false;
  rp_id = no_bytes;
  user_id = no_bytes;
  user_name = no_bytes;
  display_name = no_bytes;
  require_resident_key = false;
  require_user_verification = false;
  supports_es256 = false;
  credential_excluded = false;
  hmac_secret_requested = false;
  user_verified = false;
  pin_uv_auth_param = none;
  pin_uv_auth_protocol = 0;
}

module _ (fuel : ℕ) where
  unfoldable pub make_extension : MakeRequest → M MakeRequest
  make_extension r = read_text >>= λ key.
      if is_text (codes "hmac-secret") key
      then (read_bool >>= λ enabled. pure (record r { hmac_secret_requested = enabled }))
      else ignore fuel r

  unfoldable pub parse_make_credential_extensions : MakeRequest → M MakeRequest
  parse_make_credential_extensions r = read_map_start >>= λ count. loop make_extension count r

  unfoldable pub rp_entry : MakeRequest → M MakeRequest
  rp_entry r = read_text >>= λ key.
      if is_text (codes "id") key
      then (read_text >>= λ v. copy_view_to_string 64 v >>= λ b. pure (record r { rp_id = b }))
      else ignore fuel r

  unfoldable pub parse_rp_entity : MakeRequest → M MakeRequest
  parse_rp_entity r = read_map_start >>= λ count.
      loop rp_entry count r >>= λ r'. check (ltb 0 r'.rp_id.size) >>= λ _. pure r'

  unfoldable pub user_entry : MakeRequest → M MakeRequest
  user_entry r = read_text >>= λ key.
      if is_text (codes "id") key
      then (read_bytes >>= λ v. copy_view_to_bytes 64 v >>= λ b. pure (record r { user_id = b }))
      else if is_text (codes "name") key
      then (read_text >>= λ v. copy_view_to_string 64 v >>= λ b. pure (record r { user_name = b }))
      else if is_text (codes "displayName") key
      then (read_text >>= λ v.
          copy_view_to_string 96 v >>= λ b. pure (record r { display_name = b }))
      else ignore fuel r

  unfoldable pub parse_user_entity : MakeRequest → M MakeRequest
  parse_user_entity r = read_map_start >>= λ count.
      loop user_entry count r >>= λ r'. check (ltb 0 r'.user_id.size) >>= λ _. pure r'

  -- A parameter's algorithm, if it names one, and whether it is a public key.
  unfoldable pub param_entry : Option ℤ × Bool → M (Option ℤ × Bool)
  param_entry (alg, is_public_key) = read_text >>= λ key.
      if is_text (codes "alg") key
      then (read_int >>= λ v. pure (some v, is_public_key))
      else if is_text (codes "type") key
      then (read_text >>= λ v. pure (alg, is_text (codes "public-key") v))
      else ignore fuel (alg, is_public_key)

  -- `has_alg && is_public_key && alg == CTAP2_COSE_ALG_ES256`
  abbrev pub is_es256 : Option ℤ × Bool → Bool
  is_es256 (none, is_public_key) = false
  is_es256 (some alg, is_public_key) = is_public_key && is_int alg (negsuc 6)

  unfoldable pub pub_key_cred_param : MakeRequest → M MakeRequest
  pub_key_cred_param r = read_map_start >>= λ count.
      loop param_entry count (none, false) >>= λ param.
      pure (if is_es256 param then record r { supports_es256 = true } else r)

  unfoldable pub parse_pub_key_cred_params : MakeRequest → M MakeRequest
  parse_pub_key_cred_params r = read_array_start >>= λ count. loop pub_key_cred_param count r

  -- `rk` and `uv`
  unfoldable pub option_entry : Bool × Bool → M (Bool × Bool)
  option_entry (rk, uv) = read_text >>= λ key.
      if is_text (codes "rk") key
      then (read_bool >>= λ v. pure (v, uv))
      else if is_text (codes "uv") key
      then (read_bool >>= λ v. pure (rk, v))
      else ignore fuel (rk, uv)

  unfoldable pub parse_options_map : Bool × Bool → M (Bool × Bool)
  parse_options_map options = read_map_start >>= λ count. loop option_entry count options

  -- Whether the store holds the credential of an entry of the exclude list.
  abbrev pub is_held : Option (ℕ × CredentialRecord) → Bool
  is_held none = false
  is_held (some found) = true

  unfoldable pub exclude_entry : Store → MakeRequest → M MakeRequest
  exclude_entry st r = read_text >>= λ key.
      if is_text (codes "id") key
      then (read_bytes >>= λ v. pure (
          if is_held (store_find_by_credential_id v.bytes v.length st)
          then record r { credential_excluded = true }
          else r))
      else ignore fuel r

  unfoldable pub parse_exclude_list : Store → MakeRequest → M MakeRequest
  parse_exclude_list st r = read_array_start >>= λ count.
      loop (λ s. read_map_start >>= λ pairs. loop (exclude_entry st) pairs s) count r

  -- One entry of the request, by its key.
  unfoldable pub make_entry : Store → ℤ → MakeRequest → M MakeRequest
  make_entry st (negsuc n) r = ignore fuel r
  make_entry st (pos key) r =
      if key == 1
      then (read_bytes >>= λ v.
          check (v.length == 32) >>= λ _. pure (record r { client_data_hash = some (shown v) }))
      else if key == 2
      then (parse_rp_entity r >>= λ s. pure (record s { have_rp = true }))
      else if key == 3
      then (parse_user_entity r >>= λ s. pure (record s { have_user = true }))
      else if key == 4
      then parse_pub_key_cred_params r
      else if key == 5
      then parse_exclude_list st r
      else if key == 6
      then parse_make_credential_extensions r
      else if key == 7
      then (parse_options_map (r.require_resident_key, r.require_user_verification) >>= λ o.
          pure (record r { require_resident_key = o.0; require_user_verification = o.1 }))
      else if key == 8
      then (bounded_bytes 32 >>= λ b. pure (record r { pin_uv_auth_param = some b }))
      else if key == 9
      then (read_int >>= λ v. pure (record r { pin_uv_auth_protocol = to_byte v }))
      else ignore fuel r

  unfoldable pub make_entries : Store → M MakeRequest
  make_entries st = read_map_start >>= λ count.
      loop (λ r. read_int >>= λ key. make_entry st key r) count no_make_request
