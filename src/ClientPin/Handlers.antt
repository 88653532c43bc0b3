-- ===== src/ClientPin/Handlers.antt =====
-- The subcommands of src/client_pin.c. The scratch buffers that the code overwrites with zeros on
-- every path are local to a call and are not part of the state.
use meow_key.Prelude.{ℕ, Bool, true, false, ◌&&◌, not, List, ◌++◌, Option, none, some}
use meow_key.Prelude.{length, ltb, ◌==◌, if◌then◌else◌, take, sub32}
use meow_key.ClientPin.Crypto.{
  Primitives, aes256_cbc_crypt, derive_shared_secret, constant_time_equal,
}
use meow_key.ClientPin.Request.{Request, parsed, refused, unfinished, parse_client_pin_request}
use meow_key.ClientPin.State.{
  PinState, State, Env, status_ok, err_invalid_cbor, err_pin_auth_invalid,
}
use meow_key.ClientPin.State.{err_missing_parameter, err_unsupported_option, err_pin_not_set}
use meow_key.ClientPin.State.{err_pin_blocked, err_pin_required, err_pin_token_expired}
use meow_key.ClientPin.State.{retries_default, token_lifetime_ms}
use meow_key.ClientPin.Responses.{Reply, failure, set_pin_state, clear_runtime_pin_token}
use meow_key.ClientPin.Responses.{rotate_runtime_pin_token, write_empty_map, build_token_response}
use meow_key.ClientPin.Responses.{build_retries_response, build_key_agreement_response}
use meow_key.ClientPin.Checks.{hashed, rejected, validate_shared_secret_hmac}
use meow_key.ClientPin.Checks.{parse_new_pin_hash, verify_pin_hash_or_consume_retry}

-- `capacity` is the room for the response.
module _ (p : Primitives) (env : Env) (capacity : ℕ) where
  -- The end of setting and of changing the PIN.
  unfoldable pub store_new_pin : List ℕ → State → Reply × State
  store_new_pin hash st =
      let pin : PinState = record {
        configured = true;
        retries = retries_default;
        pin_hash = take 16 hash;
      } in
      let (done, st') = set_pin_state env pin st in
      if done
      then (write_empty_map capacity, clear_runtime_pin_token st')
      else (failure err_invalid_cbor, st')

  -- `handle_set_pin` once the parameters are known to be there.
  unfoldable pub set_pin_checked : List ℕ → List ℕ → List ℕ → State → Reply × State
  set_pin_checked peer param new_pin_enc st = elim (derive_shared_secret p st.key_agreement peer) [
    | none ↦ (failure err_invalid_cbor, st)
    | some secret ↦
        if not (validate_shared_secret_hmac p secret new_pin_enc param == status_ok)
        then (failure err_pin_auth_invalid, st)
        else elim (parse_new_pin_hash p secret new_pin_enc) [
          | rejected status ↦ (failure status, st)
          | hashed hash ↦ store_new_pin hash st
        ]
  ]

  unfoldable pub handle_set_pin : Request → State → Reply × State
  handle_set_pin r st =
      if st.pin.configured then (failure err_unsupported_option, st) else elim r.key_agreement [
        | none ↦ (failure err_missing_parameter, st)
        | some peer ↦ elim r.pin_uv_auth_param [
          | none ↦ (failure err_missing_parameter, st)
          | some param ↦ elim r.new_pin_enc [
            | none ↦ (failure err_missing_parameter, st)
            | some enc ↦ set_pin_checked peer param enc st
          ]
        ]
      ]

  -- The rest of `handle_change_pin` once the presented PIN has been checked.
  unfoldable pub change_pin_verified : List ℕ → List ℕ → ℕ × State → Reply × State
  change_pin_verified secret new_pin_enc (status, st) =
      if not (status == status_ok)
      then (failure status, st)
      else elim (parse_new_pin_hash p secret new_pin_enc) [
        | rejected why ↦ (failure why, st)
        | hashed hash ↦ store_new_pin hash st
      ]

  unfoldable pub change_pin_checked : List ℕ → List ℕ → List ℕ → List ℕ → State → Reply × State
  change_pin_checked peer param new_pin_enc pin_hash_enc st =
      if not (length pin_hash_enc == 16)
      then (failure err_invalid_cbor, st)
      else elim (derive_shared_secret p st.key_agreement peer) [
        | none ↦ (failure err_invalid_cbor, st)
        | some secret ↦
            let status = validate_shared_secret_hmac p secret (new_pin_enc ++ pin_hash_enc) param in
            if not (status == status_ok)
            then (failure status, st)
            else elim (aes256_cbc_crypt p false secret pin_hash_enc) [
              | none ↦ (failure err_invalid_cbor, st)
              | some provided ↦
                  change_pin_verified secret new_pin_enc
                    (verify_pin_hash_or_consume_retry env provided st)
            ]
      ]

  unfoldable pub handle_change_pin : Request → State → Reply × State
  handle_change_pin r st =
      if not st.pin.configured
      then (failure err_pin_not_set, st)
      else if st.pin.retries == 0
      then (failure err_pin_blocked, st)
      else elim r.key_agreement [
        | none ↦ (failure err_missing_parameter, st)
        | some peer ↦ elim r.pin_uv_auth_param [
          | none ↦ (failure err_missing_parameter, st)
          | some param ↦ elim r.new_pin_enc [
            | none ↦ (failure err_missing_parameter, st)
            | some enc ↦ elim r.pin_hash_enc [
              | none ↦ (failure err_missing_parameter, st)
              | some hash_enc ↦ change_pin_checked peer param enc hash_enc st
            ]
          ]
        ]
      ]

  -- The token is issued: the retries are full again, whether or not the store's commit succeeds.
  unfoldable pub issue_token : List ℕ → State → Reply × State
  issue_token secret st =
      let st' = (set_pin_state env (record (st.pin) { retries = retries_default }) st).1 in
      let st'' = rotate_runtime_pin_token env st' in
      (
        elim (aes256_cbc_crypt p true secret env.random_token) [
          | none ↦ failure err_invalid_cbor
          | some token ↦ build_token_response capacity token
        ],
        st'',
      )

  unfoldable pub get_pin_token_checked : List ℕ → List ℕ → State → Reply × State
  get_pin_token_checked peer pin_hash_enc st =
      if not (length pin_hash_enc == 16)
      then (failure err_invalid_cbor, st)
      else elim (derive_shared_secret p st.key_agreement peer) [
        | none ↦ (failure err_invalid_cbor, st)
        | some secret ↦ elim (aes256_cbc_crypt p false secret pin_hash_enc) [
          | none ↦ (failure err_invalid_cbor, st)
          | some provided ↦
              let (status, st') = verify_pin_hash_or_consume_retry env provided st in
              if not (status == status_ok) then (failure status, st') else issue_token secret st'
        ]
      ]

  unfoldable pub handle_get_pin_token : Request → State → Reply × State
  handle_get_pin_token r st =
      if not st.pin.configured
      then (failure err_pin_not_set, st)
      else if st.pin.retries == 0
      then (failure err_pin_blocked, st)
      else elim r.key_agreement [
        | none ↦ (failure err_missing_parameter, st)
        | some peer ↦ elim r.pin_hash_enc [
          | none ↦ (failure err_missing_parameter, st)
          | some hash_enc ↦ get_pin_token_checked peer hash_enc st
        ]
      ]

  -- The `switch` over the subcommand.
  unfoldable pub handle_subcommand : ℕ → Request → State → Reply × State
  handle_subcommand subcommand r st =
      if subcommand == 1
      then (build_retries_response capacity st.pin.retries, st)
      else if subcommand == 2
      then build_key_agreement_response env capacity st
      else if subcommand == 3
      then handle_set_pin r st
      else if subcommand == 4
      then handle_change_pin r st
      else if subcommand == 5
      then handle_get_pin_token r st
      else if subcommand == 9
      then (
        elim r.permissions [
          | none ↦ failure err_missing_parameter
          | some v ↦ failure err_unsupported_option
        ],
        st,
      )
      else (failure err_unsupported_option, st)

  -- `meowkey_client_pin_handle`; `none` says that the fuel of the parser ran out.
  unfoldable pub client_pin_handle : ℕ → List ℕ → ℕ → State → Option (Reply × State)
  client_pin_handle fuel request request_length st =
      elim (parse_client_pin_request fuel request request_length) [
        | parsed protocol subcommand r ↦ some (
            if not (protocol == 1)
            then (failure err_unsupported_option, st)
            else handle_subcommand subcommand r st)
        | refused ↦ some (failure err_invalid_cbor, st)
        | unfinished ↦ none
      ]

-- `runtime_pin_token_is_usable`: a token that is too old is dropped.
unfoldable pub runtime_pin_token_is_usable : ℕ → State → Bool × State
runtime_pin_token_is_usable now_ms st = elim st.runtime_pin_token [
  | none ↦ (false, st)
  | some (token, issued_at_ms) ↦
      if ltb token_lifetime_ms (sub32 now_ms issued_at_ms)
      then (false, clear_runtime_pin_token st)
      else (true, st)
]

-- The comparison at the end of `meowkey_client_pin_verify_auth`.
unfoldable pub token_matches : Primitives → Option (List ℕ × ℕ) → List ℕ → List ℕ → ℕ
token_matches p none client_data_hash param = err_invalid_cbor
token_matches p (some (token, issued_at_ms)) client_data_hash param =
    elim (p.hmac token client_data_hash) [
      | none ↦ err_invalid_cbor
      | some expected ↦
          if length param == 16 && constant_time_equal expected param 16
          then status_ok
          else err_pin_auth_invalid
    ]

-- `meowkey_client_pin_verify_auth`; the parameter is `none` for a null pointer.
unfoldable pub verify_auth : Primitives → ℕ → List ℕ → ℕ → Option (List ℕ) → State → ℕ × State
verify_auth p now_ms client_data_hash protocol none st =
    if st.pin.configured then (err_pin_required, st) else (status_ok, st)
verify_auth p now_ms client_data_hash protocol (some param) st =
    if not st.pin.configured
    then (err_pin_not_set, st)
    else if not (protocol == 1)
    then (err_pin_required, st)
    else (let (usable, st') = runtime_pin_token_is_usable now_ms st in
        if not usable
        then (err_pin_token_expired, st')
        else (token_matches p st'.runtime_pin_token client_data_hash param, st'))
