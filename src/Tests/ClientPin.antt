-- ===== src/Tests/ClientPin.antt =====
-- src/client_pin.c at concrete inputs.
use meow_key.Prelude.{ℕ, ◌≡◌, true, List, [], ◌∷◌, ◌++◌, none, some, replicate, refl}
use meow_key.Cbor.Reader.{
  read_map_start, read_initial, reader_take, reader_init, read_length, read_int, skip, skip_items,
  skip_view, skip_body, read_bytes,
}
use meow_key.ClientPin.Request.{parse_client_pin_request}
use meow_key.ClientPin.Checks.{verify_pin_hash_or_consume_retry}
use meow_key.ClientPin.Responses.{set_pin_state}
use meow_key.ClientPin.Crypto.{
  Primitives, derive_shared_secret, aes256_cbc_crypt, constant_time_equal, difference,
}
use meow_key.ClientPin.State.{State, Env}
use meow_key.ClientPin.Handlers.{
  client_pin_handle, verify_auth, handle_subcommand, handle_get_pin_token, get_pin_token_checked,
}
use meow_key.ClientPin.Retries.{Carried, Effect}
use meow_key.ClientPin.Retries.Blocked.{Call, request, authorisation, run, run-blocked, run-retries}
use meow_key.ClientPin.Token.{Granted, verify_auth-Granted}
use meow_key.Prelude.{◌↔◌, ◌≤◌, sym, ap, length, arith}
use meow_key.ClientPin.Retries.Requests.{client_pin_handle-Effect}

-- Toy primitives: the cipher changes nothing and every code is 32 zeros.
abbrev toy : Primitives
toy = record {
  sha256 = λ m. some m;
  hmac = λ k m. some (replicate 32 0);
  aes_cbc = λ encrypt k m. some m;
  ecdh_x = λ k q. some (replicate 32 1);
}

abbrev env : Env
env = record { now_ms = 1000; random_token = replicate 32 9; keypair = none; commits = true }

-- A PIN whose hash starts with 16 sevens, with three retries left.
abbrev three_left : State
three_left = record {
  key_agreement = some (1 ∷ [], 2 ∷ []);
  runtime_pin_token = some (replicate 32 5, 900);
  pin = record { configured = true; retries = 3; pin_hash = replicate 16 7 };
}

abbrev two_left : State
two_left = record three_left {
  pin = record { configured = true; retries = 2; pin_hash = replicate 16 7 };
}

-- A request for the token, with the peer's key and the hash of a PIN.
abbrev token_request : ℕ → List ℕ
token_request digit =
    0xa4
    ∷ 1
    ∷ 1
    ∷ 2
    ∷ 5
    ∷ 3
    ∷ 0xa5
    ∷ 1
    ∷ 2
    ∷ 3
    ∷ 0x38
    ∷ 24
    ∷ 0x20
    ∷ 1
    ∷ 0x21
    ∷ 0x58
    ∷ 32
    ∷ (replicate 32 3 ++ (0x22 ∷ 0x58 ∷ 32 ∷ (replicate 32 4 ++ (6 ∷ 0x50 ∷ replicate 16 digit))))

wrong_pin :
    client_pin_handle toy env 1023 9 (token_request 0) 102 three_left ≡ some ((0x31, []), two_left)
unfolding client_pin_handle parse_client_pin_request read_map_start read_initial reader_take
    reader_init read_length read_int skip skip_items skip_view skip_body read_bytes
    handle_subcommand handle_get_pin_token get_pin_token_checked derive_shared_secret
    aes256_cbc_crypt verify_pin_hash_or_consume_retry constant_time_equal difference set_pin_state
wrong_pin = refl

client_pin_handle-Effect_example : Effect toy (Carried 9 (token_request 0) 102) three_left two_left
client_pin_handle-Effect_example =
    client_pin_handle-Effect toy env 1023 9 (token_request 0) 102 three_left two_left (0x31, [])
      wrong_pin

abbrev blocked : State
blocked = record three_left {
  pin = record { configured = true; retries = 0; pin_hash = replicate 16 7 };
}

-- The right PIN, a use of the token, and a wrong PIN.
abbrev calls : List Call
calls =
    request env 1023 9 (token_request 7) 102
    ∷ authorisation 1500 (1 ∷ []) 1 (some (replicate 16 0))
    ∷ request env 1023 9 (token_request 0) 102
    ∷ []

run-blocked_example : (run toy calls blocked).pin ≡ blocked.pin
run-blocked_example = run-blocked toy calls blocked refl refl

run-retries_example :
    ((run toy calls three_left).pin.configured ≡ true)
    × ((run toy calls three_left).pin.retries ≤ 8)
run-retries_example = run-retries toy calls three_left refl (omega arith)

toy-hmac : (key message code : List ℕ) → toy.hmac key message ≡ some code → length code ≡ 32
toy-hmac key message code e =
    let q : replicate 32 0 ≡ code = cc in ap (λ (l : List ℕ). length l) (sym q)

verify_auth-Granted_example :
    ((verify_auth toy 1500 (1 ∷ []) 1 (some (replicate 16 0)) three_left).0 ≡ 0)
    ↔ Granted toy 1500 (1 ∷ []) 1 (replicate 16 0) three_left
verify_auth-Granted_example =
    verify_auth-Granted toy toy-hmac 1500 (1 ∷ []) 1 (replicate 16 0) three_left
