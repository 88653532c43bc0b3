-- ===== src/WebAuthn/Verified.antt =====
-- The ends of the parsers of src/webauthn.c, which check what was seen and the authentication
-- parameter.
use meow_key.Prelude.{ℕ, Bool, ◌&&◌, ◌||◌, not, List, Option, none, some, ◌==◌, if◌then◌else◌}
use meow_key.ClientPin.Crypto.{Primitives}
use meow_key.ClientPin.State.{State}
use meow_key.ClientPin.Handlers.{verify_auth}
use meow_key.Cbor.Reader.{ok, failed, exhausted, reader_init}
use meow_key.Store.Slots.{Store}
use meow_key.WebAuthn.MakeRequest.{MakeRequest, no_make_request, make_entries}
use meow_key.WebAuthn.GetRequest.{GetRequest, no_get_request, get_entries}
use meow_key.WebAuthn.Entries.{has}

-- The check that both parsers end with: the status of the parameter, where one is required or there.
unfoldable pub check_verification :
    Primitives → ℕ → Bool → List ℕ → ℕ → Option (List ℕ) → State → ℕ × State
check_verification p now_ms required client_data_hash protocol none st =
    if required then verify_auth p now_ms client_data_hash protocol none st else (0, st)
check_verification p now_ms required client_data_hash protocol (some param) st =
    verify_auth p now_ms client_data_hash protocol (some param) st

-- A parser's status, and the request and the state that it leaves.
abbrev pub Checked : Type 0 → Type 0
Checked Request = ℕ × Request × State

unfoldable pub make_verified : Primitives → ℕ → List ℕ → MakeRequest → State → Checked MakeRequest
make_verified p now_ms client_data_hash r st =
    if r.require_user_verification && not st.pin.configured
    then (0x35, r, st)
    else (let (status, st') =
          check_verification p now_ms r.require_user_verification client_data_hash
            r.pin_uv_auth_protocol r.pin_uv_auth_param st in
        if not (status == 0)
        then (status, r, st')
        else (let r' = record r { user_verified = st.pin.configured && has r.pin_uv_auth_param } in
            if r.credential_excluded then (0x19, r', st') else (0, r', st')))

-- What `parse_make_credential_request` does after its loop.
unfoldable pub make_checked :
    Primitives → ℕ → Option (List ℕ) → MakeRequest → State → Checked MakeRequest
make_checked p now_ms none r st = (0x14, r, st)
make_checked p now_ms (some client_data_hash) r st =
    if not r.have_rp || not r.have_user
    then (0x14, r, st)
    else if not r.supports_es256
    then (0x26, r, st)
    else make_verified p now_ms client_data_hash r st

-- `none` says that the fuel of `skip` ran out.
unfoldable pub parse_make_credential_request :
    Primitives → ℕ → ℕ → Store → List ℕ → ℕ → State → Option (Checked MakeRequest)
parse_make_credential_request p fuel now_ms store request_data request_length st =
    elim (make_entries fuel store (reader_init request_data request_length)) [
      | ok r reader ↦ some (make_checked p now_ms r.client_data_hash r st)
      | failed ↦ some (0x12, no_make_request, st)
      | exhausted ↦ none
    ]

unfoldable pub get_verified : Primitives → ℕ → List ℕ → GetRequest → State → Checked GetRequest
get_verified p now_ms client_data_hash r st =
    if r.require_user_verification && not st.pin.configured
    then (0x35, r, st)
    else if r.hmac_secret_requested
        && (not (has r.hmac_secret_key_agreement)
            || (not (has r.hmac_secret_salt_enc) || not (has r.hmac_secret_salt_auth)))
    then (0x14, r, st)
    else (let (status, st') =
          check_verification p now_ms r.require_user_verification client_data_hash
            r.pin_uv_auth_protocol r.pin_uv_auth_param st in
        if not (status == 0)
        then (status, r, st')
        else (0, record r { user_verified = st.pin.configured && has r.pin_uv_auth_param }, st'))

-- What `parse_get_assertion_request` does after its loop.
unfoldable pub get_checked :
    Primitives → ℕ → Option (List ℕ) → GetRequest → State → Checked GetRequest
get_checked p now_ms none r st = (0x14, r, st)
get_checked p now_ms (some client_data_hash) r st =
    if not (has r.rp_id) then (0x14, r, st) else get_verified p now_ms client_data_hash r st

unfoldable pub parse_get_assertion_request :
    Primitives → ℕ → ℕ → List ℕ → ℕ → State → Option (Checked GetRequest)
parse_get_assertion_request p fuel now_ms request_data request_length st =
    elim (get_entries fuel (reader_init request_data request_length)) [
      | ok r reader ↦ some (get_checked p now_ms r.client_data_hash r st)
      | failed ↦ some (0x12, no_get_request, st)
      | exhausted ↦ none
    ]
